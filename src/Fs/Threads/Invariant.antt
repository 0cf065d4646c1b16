-- ===== src/Fs/Threads/Invariant.antt =====
-- What holds of all threads together in every state that they reach.
use bitfs.Base.{
  ℕ, ◌≡◌, refl, sym, ap, subst, ◌∙◌, ◌≢◌, ◌⊎◌, inl, inr, true, false, arith, ◌==◌, Bool-cases,
  eqb→eq, ==_refl, ok-injective,
}
use bitfs.Torrent.{TorrentInfo, IsLawful}
use bitfs.Session.{Session, IsServing}
use bitfs.Fs.Read.{Io}
use bitfs.Fs.Read.Wait.{Loaded}
use bitfs.Fs.Read.Copy.{piece_data}
use bitfs.Fs.Threads.{Range, Phase, inside, System, update, Step, pick, Reach, start, later}
use bitfs.Fs.Threads.Local.{IsProper, Local, Local-Grows}
use bitfs.Fs.Threads.Moves.{Mutex, keeps, takes, gives, Moved}
use bitfs.Fs.Threads.Cases.{advance_cases}

pub update_cases :
    (phase : ℕ → Phase) (i : ℕ) (q : Phase) (j : ℕ)
    → ((j ≡ i) × (update phase i q j ≡ q)) ⊎ ((j ≢ i) × (update phase i q j ≡ phase j))
update_cases phase i q j = elim (Bool-cases (j == i)) [
  | inl b ↦ inl (eqb→eq j i b, rw b refl)
  | inr b ↦ inr (λ e. cc (subst (λ k. (k == i) ≡ false) e b, ==_refl i), rw b refl)
]

module _ {S : Session} (ti : TorrentInfo) (content : ℕ → ℕ)
    (L : IsServing S (piece_data ti content)) (law : IsLawful ti) (ranges : ℕ → Range)
    (proper : (i : ℕ) → IsProper ti (ranges i)) where
  -- The buffers are correct, each thread has what it relies on, and the mutex is taken exactly when
  -- one thread is between lock and unlock.
  pub record Inv (s : System S) : Type 0 where
    pub loaded : Loaded (piece_data ti content) s.io.buffers
    pub local : (i : ℕ) → Local ti content L (ranges i) (s.phase i) s.io
    pub owner : (i : ℕ) → inside (s.phase i) ≡ true → s.io.locked ≡ true
    pub alone : (i j : ℕ) → inside (s.phase i) ≡ true → inside (s.phase j) ≡ true → i ≡ j
    pub held_by : s.io.locked ≡ true → (i : ℕ) × (inside (s.phase i) ≡ true)

  module _ (s : System S) (inv : Inv s) (i : ℕ) (q : Phase) (t : Io S) where
    owner_moved :
        Mutex (s.phase i) s.io q t
        → (j : ℕ) → inside (update s.phase i q j) ≡ true
        → t.locked ≡ true
    owner_moved (keeps e f) j h = elim (update_cases s.phase i q j) [
      | inl (_, u) ↦ f ∙ inv.owner i (sym e ∙ ap inside (sym u) ∙ h)
      | inr (_, u) ↦ f ∙ inv.owner j (ap inside (sym u) ∙ h)
    ]
    owner_moved (takes e f g k) j h = k
    owner_moved (gives e f g) j h = elim (update_cases s.phase i q j) [
      | inl (_, u) ↦ cc (f, ap inside u, h)
      | inr (ne, u) ↦ absurd (ne (inv.alone j i (ap inside (sym u) ∙ h) e))
    ]

    -- Who is between lock and unlock afterwards.
    inside_moved :
        Mutex (s.phase i) s.io q t
        → (j : ℕ) → inside (update s.phase i q j) ≡ true
        → (inside (s.phase j) ≡ true) ⊎ ((j ≡ i) × (s.io.locked ≡ false))
    inside_moved (keeps e f) j h = elim (update_cases s.phase i q j) [
      | inl (same, u) ↦ inl (ap (λ k. inside (s.phase k)) same ∙ sym e ∙ ap inside (sym u) ∙ h)
      | inr (_, u) ↦ inl (ap inside (sym u) ∙ h)
    ]
    inside_moved (takes e f g k) j h = elim (update_cases s.phase i q j) [
      | inl (same, u) ↦ inr (same, g)
      | inr (_, u) ↦ inl (ap inside (sym u) ∙ h)
    ]
    inside_moved (gives e f g) j h = elim (update_cases s.phase i q j) [
      | inl (_, u) ↦ cc (f, ap inside u, h)
      | inr (_, u) ↦ inl (ap inside (sym u) ∙ h)
    ]

    alone_moved :
        Mutex (s.phase i) s.io q t
        → (j k : ℕ) → inside (update s.phase i q j) ≡ true
        → inside (update s.phase i q k) ≡ true
        → j ≡ k
    alone_moved m j k h h' = elim (inside_moved m j h) [
      | inl a ↦ elim (inside_moved m k h') [
        | inl b ↦ inv.alone j k a b
        | inr (_, free) ↦ cc (inv.owner j a, free)
      ]
      | inr (e, free) ↦ elim (inside_moved m k h') [
        | inl b ↦ cc (inv.owner k b, free)
        | inr (f, _) ↦ e ∙ sym f
      ]
    ]

    held_by_moved :
        Mutex (s.phase i) s.io q t
        → t.locked ≡ true
        → (j : ℕ) × (inside (update s.phase i q j) ≡ true)
    held_by_moved (keeps e f) h =
        let (j, in_j) = inv.held_by (sym f ∙ h) in
        (
          j,
          elim (update_cases s.phase i q j) [
            | inl (same, u) ↦ ap inside u ∙ e ∙ ap (λ k. inside (s.phase k)) (sym same) ∙ in_j
            | inr (_, u) ↦ ap inside u ∙ in_j
          ],
        )
    held_by_moved (takes e f g k) h = (
      i,
      elim (update_cases s.phase i q i) [
        | inl (_, u) ↦ ap inside u ∙ f
        | inr (ne, _) ↦ absurd (ne refl)
      ],
    )
    held_by_moved (gives e f g) h = cc (g, h)

    Moved-Inv :
        Moved ti content L law (ranges i) (proper i) (s.phase i) s.io q t
        → Inv (record { io = t; phase = update s.phase i q })
    Moved-Inv m = record {
      loaded = m.grows.loaded inv.loaded;
      local = λ j. elim (update_cases s.phase i q j) [
        | inl (same, u) ↦
            subst (λ p. Local ti content L (ranges j) p t) (sym u)
              (subst (λ k. Local ti content L (ranges k) q t) (sym same) m.local)
        | inr (_, u) ↦
            subst (λ p. Local ti content L (ranges j) p t) (sym u)
              (Local-Grows ti content L (ranges j) s.io t m.grows (s.phase j) (inv.local j))
      ];
      owner = owner_moved m.mutex;
      alone = alone_moved m.mutex;
      held_by = held_by_moved m.mutex;
    }

  pub Step-Inv : {s t : System S} → Step ti ranges s t → Inv s → Inv t
  Step-Inv {s} (pick i {p} {io} e) inv =
      elim (advance_cases ti content L law (ranges i) (proper i) (s.phase i) s.io inv.loaded
        (inv.local i)) [
          | inl (stuck, _) ↦ cc (stuck, e)
          | inr (q, t, f, m) ↦
              subst (λ (z : Phase × Io S). Inv (record { io = z.1; phase = update s.phase i z.0 }))
                (ok-injective (q, t) (p, io) (sym f ∙ e)) (Moved-Inv s inv i q t m)
        ]

  -- From a free mutex and correct buffers, whatever the order of the steps.
  pub Reach-Inv :
      {io : Io S} {s : System S}
      → io.locked ≡ false
      → Loaded (piece_data ti content) io.buffers
      → Reach ti ranges io s
      → Inv s
  Reach-Inv free loaded start = record {
    loaded = loaded;
    local = λ i. (refl, omega arith, λ x n l h. absurd (omega arith));
    owner = λ i h. cc;
    alone = λ i j h k. cc;
    held_by = λ h. cc (free, h);
  }
  Reach-Inv free loaded (later r st) = Step-Inv st (Reach-Inv free loaded r)
