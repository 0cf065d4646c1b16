-- ===== src/Fs/Read/Wait.antt =====
-- The waits of read end, against a session that serves: the polling loops of
-- wait_for_piece_download and of read find the piece, and then its buffer, in the map.
use bitfs.Base.{
  ℕ, zero, suc, ◌≤◌, ◌<◌, ◌≡◌, refl, ◌≢◌, ◌⊎◌, inl, inr, true, false, List, [], ◌∷◌, none, some, ok,
  arith, ◌∙◌, Bool-cases, if◌then◌else◌,
}
use bitfs.Base.Ordered.{same, same→eq, same_refl, nat_ord}
use bitfs.Base.Dict.{Dict, lookup, lookup-set}
use bitfs.Session.{
  Session, Alert, read_piece_alert, other_alert, Truthful, Brings, Call, asks, polls, IsServing,
}
use bitfs.Fs.Read.{
  Io, store_alerts, get_piece_buffers, have_piece, poll_have, wait_for_piece_download,
}

abbrev pub Buffers : Type 0
Buffers = Dict ℕ (List ℕ)

-- Every buffer in the map is the piece that it stands for.
abbrev pub Loaded : (ℕ → List ℕ) → Buffers → Type 0
Loaded piece_data m = (p : ℕ) (b : List ℕ) → lookup p m ≡ some b → b ≡ piece_data p

set-Loaded :
    (piece_data : ℕ → List ℕ) (m : Buffers) (p : ℕ) (b : List ℕ)
    → b ≡ piece_data p
    → Loaded piece_data m
    → (q : ℕ) (c : List ℕ) → (if same q p then some b else lookup q m) ≡ some c
    → c ≡ piece_data q
set-Loaded piece_data m p b e l q c f = ground (arith, same→eq q p, l q c)

store_alerts-Loaded :
    (piece_data : ℕ → List ℕ) (alerts : List Alert) (m : Buffers)
    → Truthful piece_data alerts
    → Loaded piece_data m
    → Loaded piece_data (store_alerts alerts m)
unfolding store_alerts
store_alerts-Loaded piece_data [] m t l = l
store_alerts-Loaded piece_data (read_piece_alert p b ∷ alerts) m t l =
    store_alerts-Loaded piece_data alerts _ t.1
      (λ q c f. set-Loaded piece_data m p b t.0 l q c (rw lookup-set at f))
store_alerts-Loaded piece_data (other_alert ∷ alerts) m t l =
    store_alerts-Loaded piece_data alerts m t l

-- What is in the map stays there, and what an alert brings comes into it.
pub store_alerts-known :
    (q : ℕ) (alerts : List Alert) (m : Buffers)
    → (lookup q m ≢ none) ⊎ Brings q alerts
    → lookup q (store_alerts alerts m) ≢ none
unfolding store_alerts
store_alerts-known q [] m (inl h) = h
store_alerts-known q [] m (inr h) = absurd h
store_alerts-known q (other_alert ∷ alerts) m h = store_alerts-known q alerts m h
store_alerts-known q (read_piece_alert p b ∷ alerts) m (inl h) =
    store_alerts-known q alerts _ (inl (rw lookup-set (ground arith)))
store_alerts-known q (read_piece_alert p b ∷ alerts) m (inr (inl e)) =
    store_alerts-known q alerts _ (inl (rw (lookup-set, e, same_refl) (λ f. cc)))
store_alerts-known q (read_piece_alert p b ∷ alerts) m (inr (inr h)) =
    store_alerts-known q alerts _ (inr h)

module _ {S : Session} {piece_data : ℕ → List ℕ} (L : IsServing S piece_data) where
  -- What a wait may change: pieces on their way stay so, and the map gains correct buffers only.
  pub record After (s t : Io S) : Type 0 where
    pub loaded : Loaded piece_data s.buffers → Loaded piece_data t.buffers
    pub coming : (q : ℕ) → L.Coming s.sess q → L.Coming t.sess q
    pub known : (q : ℕ) → lookup q s.buffers ≢ none → lookup q t.buffers ≢ none
    pub mutex : t.locked ≡ s.locked

  pub After-refl : (s : Io S) → After s s
  After-refl s = record { loaded = λ l. l; coming = λ q h. h; known = λ q h. h; mutex = refl }

  pub After-trans : (s t u : Io S) → After s t → After t u → After s u
  After-trans s t u a b = record {
    loaded = λ l. b.loaded (a.loaded l);
    coming = λ q h. b.coming q (a.coming q h);
    known = λ q h. b.known q (a.known q h);
    mutex = b.mutex ∙ a.mutex;
  }

  -- A call that changes the session alone.
  pub After-Call :
      (s : Io S) {sess : S.State} → Call S s.sess sess → After s (record s { sess = sess })
  After-Call s {sess} c = record {
    loaded = λ l. l;
    coming = L.Coming_kept s.sess sess c;
    known = λ q h. h;
    mutex = refl;
  }

  pub get_piece_buffers-After : (s : Io S) → After s (get_piece_buffers s)
  unfolding get_piece_buffers
  get_piece_buffers-After s = record {
    loaded = store_alerts-Loaded piece_data _ s.buffers (L.truthful s.sess);
    coming = L.Coming_kept s.sess _ (polls s.sess);
    known = λ q h. store_alerts-known q _ s.buffers (inl h);
    mutex = refl;
  }

  pub have_piece-After : (p : ℕ) (s : Io S) → After s (have_piece p s).1
  unfolding have_piece
  have_piece-After p s = After-Call s (asks s.sess p)

  -- The state before each new test of poll_have.
  polled : ℕ → Io S → Io S
  polled p s = (have_piece p (get_piece_buffers s)).1

  polled-After : (p : ℕ) (s : Io S) → After s (polled p s)
  unfolding polled
  polled-After p s =
      After-trans s _ _ (get_piece_buffers-After s) (have_piece-After p (get_piece_buffers s))

  polled_due :
      (p : ℕ) (s : Io S)
      → L.Coming s.sess p
      → (have_piece p (get_piece_buffers s)).0 ≡ false
      → L.due (polled p s).sess p < L.due s.sess p
  unfolding polled have_piece get_piece_buffers
  polled_due p s c e = elim (L.due_falls s.sess p c) [
    | inl z ↦ absurd (cc (L.answer_of_due _ p (L.Coming_kept s.sess _ (polls s.sess) p c) z))
    | inr l ↦ omega (arith, L.due_kept (S.pop_alerts s.sess).1 p p)
  ]

  pub have_piece-Had :
      (p : ℕ) (s : Io S) → (have_piece p s).0 ≡ true → L.Had (have_piece p s).1.sess p
  unfolding have_piece
  have_piece-Had p s e = L.Had_of_answer s.sess p e

  pub poll_have-ends :
      (fuel p : ℕ) (s : Io S)
      → L.Coming s.sess p
      → L.due s.sess p < fuel
      → (t : Io S) × (poll_have fuel p false s ≡ ok t) × After s t × L.Had t.sess p
  unfolding poll_have polled
  poll_have-ends zero p s c h = absurd (omega arith)
  poll_have-ends (suc fuel) p s c h = elim (Bool-cases (have_piece p (get_piece_buffers s)).0) [
    | inl e ↦ (
      polled p s,
      rw (e, poll_have) refl,
      polled-After p s,
      have_piece-Had p (get_piece_buffers s) e,
    )
    | inr e ↦
        let (t, f, a, g) =
          poll_have-ends fuel p (polled p s) ((polled-After p s).coming p c)
            (omega (arith, polled_due p s c e)) in
        (t, rw (e, poll_have) f, After-trans s _ t (polled-After p s) a, g)
  ]

  -- With a session that serves, fuel for its bound, and a piece that has been asked for,
  -- wait_for_piece_download returns, and the piece is there.
  pub wait_for_piece_download-ends :
      (fuel p : ℕ) (s : Io S)
      → L.Coming s.sess p
      → L.bound ≤ fuel
      → (t : Io S) × (wait_for_piece_download fuel p s ≡ ok t) × After s t × L.Had t.sess p
  unfolding wait_for_piece_download poll_have
  wait_for_piece_download-ends fuel p s c h = elim (Bool-cases (have_piece p s).0) [
    | inl e ↦ (
      (have_piece p s).1,
      rw (e, wait_for_piece_download) refl,
      have_piece-After p s,
      have_piece-Had p s e,
    )
    | inr e ↦
        let s1 = (have_piece p s).1 in
        let s2 = (have_piece p s1).1 in
        let both = After-trans s s1 s2 (have_piece-After p s) (have_piece-After p s1) in
        elim (Bool-cases (have_piece p s1).0) [
          | inl f ↦ (s2, rw (e, f, wait_for_piece_download) refl, both, have_piece-Had p s1 f)
          | inr f ↦
              let (t, g, a, had) =
                poll_have-ends fuel p s2 (both.coming p c) (omega (arith, L.due_lt s2.sess p)) in
              (t, rw (e, f, wait_for_piece_download) g, After-trans s s2 t both a, had)
        ]
  ]
