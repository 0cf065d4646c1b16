-- ===== src/Fs/Threads/Runs.antt =====
-- Runs of the threads of read: one thread alone makes a run of all, and a call that has returned
-- stays so.
use bitfs.Base.{ℕ, ◌≡◌, refl, sym, ap, ◌∙◌, ◌≢◌, inl, inr, List, timeout}
use bitfs.Torrent.{TorrentInfo}
use bitfs.Session.{Session}
use bitfs.Fs.Read.{Io}
use bitfs.Fs.Threads.{
  Range, Phase, returned, advance, System, update, Step, pick, Reach, later, Run, done, next,
}
use bitfs.Fs.Threads.Invariant.{update_cases}
use bitfs.Fs.Threads.Alone.{Alone, stop, goes}

module _ {S : Session} (ti : TorrentInfo) (ranges : ℕ → Range) where
  pub Reach-Run :
      {io : Io S} {s t : System S} → Reach ti ranges io s → Run ti ranges s t → Reach ti ranges io t
  Reach-Run r done = r
  Reach-Run r (next e run) = Reach-Run (later r e) run

  pub Run-trans : {s t u : System S} → Run ti ranges s t → Run ti ranges t u → Run ti ranges s u
  Run-trans done b = b
  Run-trans (next e a) b = next e (Run-trans a b)

  -- The steps of one thread alone are steps of the system that change nothing of the others.
  pub Run-of_Alone :
      (i : ℕ) (phase : ℕ → Phase) (p q : Phase) (s t : Io S)
      → Alone ti (ranges i) p s q t
      → phase i ≡ p
      → (phase' : ℕ → Phase) × Run ti ranges
          (record { io = s; phase = phase })
          (record { io = t; phase = phase' })
        × (phase' i ≡ q)
        × ((j : ℕ) → j ≢ i → phase' j ≡ phase j)
  Run-of_Alone i phase p q s t stop h = (phase, done, h, λ j ne. refl)
  Run-of_Alone i phase p0 r0 s0 u0 (goes {q} {t} e a) h =
      let (phase', run, g, others) =
        Run-of_Alone i (update phase i q) q r0 t u0 a
          (elim (update_cases phase i q i) [ inl (_, b) ↦ b | inr (ne, _) ↦ absurd (ne refl) ]) in
      (
        phase',
        next (pick i {p = q} {io = t} (ap (λ z. advance ti (ranges i) z s0) h ∙ e)) run,
        g,
        λ j ne.
            others j ne
            ∙ elim (update_cases phase i q j) [ inl (same, _) ↦ absurd (ne same) | inr (_, b) ↦ b ],
      )

  returned-Step :
      {s t : System S}
      → Step ti ranges s t
      → (i n : ℕ) (buf : List ℕ) → s.phase i ≡ returned n buf
      → t.phase i ≡ returned n buf
  unfolding advance
  returned-Step {s} (pick j {p} {io} e) i n buf h = elim (update_cases s.phase j p i) [
    | inl (same, u) ↦
        let stuck : advance ti (ranges j) (s.phase j) s.io ≡ timeout =
          ap (λ z. advance ti (ranges j) z s.io) (ap s.phase (sym same) ∙ h) in
        cc (stuck, e)
    | inr (_, u) ↦ u ∙ h
  ]

  pub returned-Run :
      {s t : System S}
      → Run ti ranges s t
      → (i n : ℕ) (buf : List ℕ) → s.phase i ≡ returned n buf
      → t.phase i ≡ returned n buf
  returned-Run done i n buf h = h
  returned-Run (next e run) i n buf h = returned-Run run i n buf (returned-Step e i n buf h)
