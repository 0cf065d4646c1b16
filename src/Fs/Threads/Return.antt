-- ===== src/Fs/Threads/Return.antt =====
-- FS::read on several threads: no order of their steps leads to a state from which they cannot return.
use bitfs.Base.{
  ℕ, zero, suc, ◌+◌, ◌<◌, ◌≡◌, refl, sym, ap, subst, ◌∙◌, ◌≢◌, ◌⊎◌, inl, inr, true, false, List,
  fault, arith, Bool-cases,
}
use native.Mathlib.Decide.{dec_lt}
use bitfs.Base.Bytes.{bytes, splice}
use bitfs.Torrent.{TorrentInfo, IsLawful}
use bitfs.Session.{Session, IsServing}
use bitfs.Fs.Read.{Io}
use bitfs.Fs.Read.Wait.{Loaded}
use bitfs.Fs.Read.Copy.{piece_data}
use bitfs.Fs.Threads.{
  Range, returned, advance, inside, System, Step, pick, Reach, start, later, Run, done, next,
}
use bitfs.Fs.Threads.Local.{IsProper}
use bitfs.Fs.Threads.Invariant.{update_cases, Inv, Step-Inv, Reach-Inv}
use bitfs.Fs.Threads.Safety.{returned_correct, no_fault}
use bitfs.Fs.Threads.Ready.{IsSteady, Ready, ReadyAfter, advance-Ready}
use bitfs.Fs.Threads.Steady.{KeepsAfter, advance-Keeps, Ready-Keeps, outside-Ready}
use bitfs.Fs.Threads.Runs.{Reach-Run, Run-trans, Run-of_Alone, returned-Run}
use bitfs.Fs.Threads.Finish.{finishes}

module _ {S : Session} (ti : TorrentInfo) (content : ℕ → ℕ)
    (L : IsServing S (piece_data ti content)) (steady : IsSteady L) (law : IsLawful ti)
    (ranges : ℕ → Range) (proper : (i : ℕ) → IsProper ti (ranges i)) where
  abbrev AllReady : System S → Type 0
  AllReady s = (i : ℕ) → Ready L ti (ranges i) (s.phase i) s.io

  abbrev Holds : System S → Type 0
  Holds s = Inv ti content L law ranges proper s × AllReady s

  -- Two threads are not between lock and unlock at once, so what one of them waits for is kept.
  Step-Holds : {s t : System S} → Step ti ranges s t → Holds s → Holds t
  Step-Holds {s} (pick i {p} {io} e) (inv, ready) = (
    Step-Inv ti content L law ranges proper (pick i {p = p} {io = io} e) inv,
    λ j. elim (update_cases s.phase i p j) [
      | inl (same, u) ↦
          subst (λ z. Ready L ti (ranges j) z io) (sym u)
            (subst (λ k. Ready L ti (ranges k) p io) (sym same)
              (subst (λ o. ReadyAfter L ti (ranges i) o) e
                (advance-Ready L ti (ranges i) (s.phase i) s.io (ready i))))
      | inr (ne, u) ↦
          subst (λ z. Ready L ti (ranges j) z io) (sym u)
            (elim (Bool-cases (inside (s.phase j))) [
              | inl a ↦ elim (Bool-cases (inside (s.phase i))) [
                | inl b ↦ absurd (ne (inv.alone j i a b))
                | inr b ↦
                    Ready-Keeps L steady ti (ranges j) s.io io
                      (subst (λ o. KeepsAfter L steady ti s.io o) e
                        (advance-Keeps L steady ti (ranges i) (s.phase i) s.io b))
                      (s.phase j) (ready j)
              ]
              | inr a ↦ outside-Ready L steady ti (ranges j) (s.phase j) io a
            ])
    ],
  )

  Run-Holds : {s t : System S} → Run ti ranges s t → Holds s → Holds t
  Run-Holds done h = h
  Run-Holds (next e run) h = Run-Holds run (Step-Holds e h)

  abbrev Returned : ℕ → System S → Type 0
  Returned i s = (n : ℕ) × (buf : List ℕ) × (s.phase i ≡ returned n buf)

  -- A thread that has the mutex, or finds it free, goes on until it has returned.
  return_alone :
      (s : System S) (i : ℕ)
      → Holds s
      → (inside (s.phase i) ≡ true) ⊎ (s.io.locked ≡ false)
      → (t : System S) × Run ti ranges s t
        × Returned i t
        × ((j : ℕ) → j ≢ i → t.phase j ≡ s.phase j)
  return_alone s i (inv, ready) free =
      let (n, buf, t, a) =
        finishes ti content L law (ranges i) (proper i) (s.phase i) s.io (inv.loaded, inv.local i)
          (ready i) free in
      let (phase', run, g, others) =
        Run-of_Alone ti ranges i s.phase (s.phase i) (returned n buf) s.io t a refl in
      (record { io = t; phase = phase' }, run, (n, buf, g), others)

  -- The thread that holds the mutex returns with the mutex free.
  free_mutex : (s : System S) → Holds s → (t : System S) × Run ti ranges s t × (t.io.locked ≡ false)
  free_mutex s h = elim (Bool-cases s.io.locked) [
    | inr free ↦ (s, done, free)
    | inl taken ↦
        let (k, in_k) = h.0.held_by taken in
        let (t, run, (n, buf, g), others) = return_alone s k h (inl in_k) in
        let after = (Run-Holds run h).0 in
        (
          t,
          run,
          elim (Bool-cases t.io.locked) [
            | inr free ↦ free
            | inl still ↦
                let (j, in_j) = after.held_by still in
                let ne : j ≢ k =
                  λ e. cc (subst (λ m. inside (t.phase m) ≡ true) e in_j, ap inside g) in
                absurd (ne (h.0.alone j k (ap inside (sym (others j ne)) ∙ in_j) in_k))
          ],
        )
  ]

  return_one : (s : System S) (i : ℕ) → Holds s → (t : System S) × Run ti ranges s t × Returned i t
  return_one s i h =
      let (t, run, free) = free_mutex s h in
      let (u, run', r, _) = return_alone t i (Run-Holds run h) (inr free) in
      (u, Run-trans ti ranges run run', r)

  return_all :
      (k : ℕ) (s : System S)
      → Holds s
      → (t : System S) × Run ti ranges s t × ((i : ℕ) → i < k → Returned i t)
  return_all zero s h = (s, done, λ i l. absurd (omega arith))
  return_all (suc k) s h =
      let (t, run, before) = return_all k s h in
      let (u, run', (n, buf, g)) = return_one t k (Run-Holds run h) in
      (
        u,
        Run-trans ti ranges run run',
        λ i l. elim (dec_lt i k) [
          | yes m ↦
              let (n', buf', e) = before i m in (n', buf', returned-Run ti ranges run' i n' buf' e)
          | no m ↦
              let e : k ≡ i = omega arith in (n, buf, subst (λ j. u.phase j ≡ returned n buf) e g)
        ],
      )

  module _ (io : Io S) (free : io.locked ≡ false)
      (loaded : Loaded (piece_data ti content) io.buffers) where
    Reach-Holds : {s : System S} → Reach ti ranges io s → Holds s
    Reach-Holds start = (Reach-Inv ti content L law ranges proper free loaded start, λ i. tt)
    Reach-Holds (later r e) = Step-Holds e (Reach-Holds r)

    -- With a session that serves and is steady (questions for a piece and priorities that are
    -- set take away neither a piece that is there nor a read that is on its way), and a lawful
    -- torrent, for any number of calls of read of ranges inside their files, with room for
    -- them, from a free mutex and correct buffers: in every state that any order of the steps
    -- reaches, the next step of no call is undefined behaviour, and for every k there are steps
    -- from there after which each of the first k calls has returned the size of its range with
    -- exactly the bytes of its range in its buffer.
    pub threads_return :
        {s : System S}
        → Reach ti ranges io s
        → ((i : ℕ) → advance ti (ranges i) (s.phase i) s.io ≢ fault)
          × ((k : ℕ)
              → (t : System S) × Run ti ranges s t
                × ((i : ℕ)
                    → i < k
                    → t.phase i
                      ≡ returned (ranges i).size (
                          splice (ranges i).buf 0 (
                            bytes content
                              (ti.file_offset (ranges i).index + (ranges i).offset)
                              (ranges i).size))))
    threads_return {s} r =
        let h = Reach-Holds r in
        (
          no_fault ti content L law ranges proper io free loaded h.0,
          λ k.
              let (t, run, all) = return_all k s h in
              (
                t,
                run,
                λ i l.
                    let (n, buf, e) = all i l in
                    let (size, filled) =
                      returned_correct ti content L law ranges proper io free loaded
                        (Reach-Run ti ranges r run) i n buf e in
                    e ∙ ap (λ m. returned m buf) size ∙ ap (returned (ranges i).size) filled,
              ),
        )
