-- ===== src/Fs/Threads/Safety.antt =====
-- FS::read on several threads: what is true of every order of their steps.
use bitfs.Base.{ℕ, ◌+◌, ◌≡◌, ap, subst, ◌∙◌, ◌≢◌, inl, inr, true, false, List, fault}
use bitfs.Base.Bytes.{bytes, splice}
use bitfs.Torrent.{TorrentInfo, IsLawful}
use bitfs.Session.{Session, IsServing}
use bitfs.Fs.Read.{Io}
use bitfs.Fs.Read.Wait.{Loaded}
use bitfs.Fs.Read.Copy.{piece_data}
use bitfs.Fs.Threads.{Range, returned, advance, inside, System, Reach}
use bitfs.Fs.Threads.Local.{IsProper, Local}
use bitfs.Fs.Threads.Cases.{advance_cases}
use bitfs.Fs.Threads.Invariant.{Inv, Reach-Inv}

module _ {S : Session} (ti : TorrentInfo) (content : ℕ → ℕ)
    (L : IsServing S (piece_data ti content)) (law : IsLawful ti) (ranges : ℕ → Range)
    (proper : (i : ℕ) → IsProper ti (ranges i)) (io : Io S) (free : io.locked ≡ false)
    (loaded : Loaded (piece_data ti content) io.buffers) where
  -- With a session that serves and a lawful torrent, for any number of calls of read of ranges inside
  -- their files, with room for them, from a free mutex and correct buffers: in every order of the
  -- steps of all calls, a call that has returned has returned the size of its range, and exactly the
  -- bytes of its range stand at the start of its buffer.
  pub returned_correct :
      {s : System S}
      → Reach ti ranges io s
      → (i n : ℕ) (buf : List ℕ) → s.phase i ≡ returned n buf
      → (n ≡ (ranges i).size)
        × (buf
            ≡ splice (ranges i).buf 0 (
                bytes content
                  (ti.file_offset (ranges i).index + (ranges i).offset)
                  (ranges i).size))
  returned_correct {s} r i n buf e =
      let inv = Reach-Inv ti content L law ranges proper free loaded r in
      let (size, copied) = subst (λ p. Local ti content L (ranges i) p s.io) e (inv.local i) in
      (
        size,
        copied
            ∙ ap
                (λ m.
                  splice (ranges i).buf 0
                    (bytes content (ti.file_offset (ranges i).index + (ranges i).offset) m))
                size,
      )

  -- With a session that serves and a lawful torrent, for any number of calls of read of ranges inside
  -- their files, with room for them, from a free mutex and correct buffers: in every order of the
  -- steps no two calls are between lock and unlock at once, and piece_buffer_map holds correct pieces
  -- only.
  pub mutual_exclusion :
      {s : System S}
      → Reach ti ranges io s
      → Loaded (piece_data ti content) s.io.buffers
        × ((i j : ℕ) → inside (s.phase i) ≡ true → inside (s.phase j) ≡ true → i ≡ j)
  mutual_exclusion r =
      let inv = Reach-Inv ti content L law ranges proper free loaded r in (inv.loaded, inv.alone)

  module _ {s : System S} (inv : Inv ti content L law ranges proper s) where
    -- The next step of no call is undefined behaviour.
    pub no_fault : (i : ℕ) → advance ti (ranges i) (s.phase i) s.io ≢ fault
    no_fault i f =
        elim (advance_cases ti content L law (ranges i) (proper i) (s.phase i) s.io inv.loaded
          (inv.local i)) [ inl (e, _) ↦ cc (e, f) | inr (q, t, e, _) ↦ cc (e, f) ]
