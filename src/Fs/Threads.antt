-- ===== src/Fs/Threads.antt =====
-- FS::read of FS.cpp on several threads of FUSE at once, from its first loop on. A step of a thread
-- makes one call of the session or of the mutex at most; steps of all threads interleave in any
-- order. The other handlers work on none of what read changes.
pub mod Local
pub mod Moves
pub mod Holding
pub mod Cases
pub mod Invariant
pub mod Safety
pub mod Alone
pub mod Refine
pub mod Ready
pub mod Steady
pub mod Runs
pub mod Copying
pub mod Finish
pub mod Return
use bitfs.Base.{
  ℕ, zero, suc, ◌+◌, ◌-◌, min, ◌≡◌, Bool, true, false, List, [], ◌∷◌, ◌++◌, Outcome, ok, fault,
  timeout, ◌>>=◌, ltb, ◌==◌, if◌then◌else◌,
}
use bitfs.Base.Ordered.{insert, nat_ord}
use bitfs.Torrent.{TorrentInfo}
use bitfs.Session.{Session}
use bitfs.Fs.Read.{Io, have_piece, get_piece_buffers, has_buff, buffer, copy_bytes, lock, unlock}

-- What a call of read asks for, after the tests at its start.
pub record Range : Type 0 where
  pub index : ℕ
  pub offset : ℕ
  pub size : ℕ
  pub buf : List ℕ

-- The variables of the second loop.
pub record Work : Type 0 where
  pub curr_offset : ℕ
  pub remaining : ℕ
  pub read_ptr : ℕ
  pub buf : List ℕ

-- What a thread does next: the first loop asks for each piece (with its offset, the bytes that remain
-- and required_pieces) and sets the priorities for one that is missing; then it locks, reads ahead,
-- and copies piece by piece. The phases of wait_for_piece_download are its first test, the tests of
-- hve_piece, and get_piece_buffers.
pub data Phase : Type 0 where
  asking : ℕ → ℕ → List ℕ → Phase
  raising : List (ℕ × ℕ) → ℕ → ℕ → List ℕ → Phase
  locking ahead : List ℕ → Phase
  reading_ahead : ℕ → List ℕ → Phase
  fetching testing polling loading awaiting saving : Work → Phase
  unlocking returned : ℕ → List ℕ → Phase

abbrev pub start_phase : Range → Phase
start_phase R = asking R.offset R.size []

-- while (remaining_size > 0) of the second loop
unfoldable pub next_piece : Work → Phase
next_piece w = if w.remaining == 0 then unlocking w.read_ptr w.buf else fetching w

module _ (ti : TorrentInfo) where
  -- The calls of piece_priority for a piece that is missing, in their order.
  unfoldable pub raises : ℕ → List (ℕ × ℕ)
  raises piece =
      (piece, 7)
      ∷ ((if ltb 1 piece then (piece - 1, 1) ∷ [] else [])
          ++ (if ltb (piece + 1) ti.num_pieces then (piece + 1, 7) ∷ [] else []))

  abbrev pub piece_at : Range → ℕ → ℕ → ℕ
  piece_at R curr_offset remaining = (ti.map_file R.index curr_offset remaining).piece

  -- std::min(piece_size - pr.start, remaining_size)
  abbrev pub read_size : Range → ℕ → ℕ → ℕ
  read_size R curr_offset remaining =
      let pr = ti.map_file R.index curr_offset remaining in
      min (ti.piece_size pr.piece - pr.start) remaining

  abbrev pub work_piece : Range → Work → ℕ
  work_piece R w = piece_at R w.curr_offset w.remaining

  abbrev pub copied_up_to : Range → Work → List ℕ → Work
  copied_up_to R w buf' =
      let n = read_size R w.curr_offset w.remaining in
      record {
        curr_offset = w.curr_offset + n;
        remaining = w.remaining - n;
        read_ptr = w.read_ptr + n;
        buf = buf';
      }

  module _ {S : Session} where
    -- One step of a thread; `timeout` where it cannot go on.
    unfoldable pub advance : Range → Phase → Io S → Outcome (Phase × Io S)
    unfolding next_piece raises
    advance R (asking o zero required) s = ok (locking required, s)
    advance R (asking o (suc r) required) s =
        let pr = ti.map_file R.index o (suc r) in
        let n = read_size R o (suc r) in
        let (have, s') = have_piece pr.piece s in
        if ltb (ti.piece_size pr.piece) pr.start
        then fault
        else if have
        then ok (asking (o + n) (suc r - n) required, s')
        else ok (raising (raises pr.piece) (o + n) (suc r - n) (insert pr.piece required), s')
    advance R (raising [] o r required) s = ok (asking o r required, s)
    advance R (raising ((piece, k) ∷ calls) o r required) s =
        ok (raising calls o r required, record s { sess = S.piece_priority s.sess piece k })
    advance R (locking required) s = lock s >>= λ s'. ok (ahead required, s')
    advance R (ahead []) s = ok (
      next_piece (record { curr_offset = R.offset; remaining = R.size; read_ptr = 0; buf = R.buf }),
      s,
    )
    advance R (ahead (p ∷ pieces)) s =
        let (have, s') = have_piece p s in
        ok ((if have then reading_ahead p pieces else ahead pieces), s')
    advance R (reading_ahead p pieces) s =
        ok (ahead pieces, record s { sess = S.read_piece s.sess p })
    advance R (fetching w) s =
        let (have, s') = have_piece (work_piece R w) s in
        ok ((if have then loading w else testing w), s')
    advance R (testing w) s =
        let (have, s') = have_piece (work_piece R w) s in
        ok ((if have then loading w else polling w), s')
    advance R (polling w) s = ok (testing w, get_piece_buffers s)
    advance R (loading w) s =
        if has_buff (work_piece R w) s
        then ok (saving w, s)
        else ok (awaiting w, record s { sess = S.read_piece s.sess (work_piece R w) })
    advance R (awaiting w) s =
        let s' = get_piece_buffers s in
        ok ((if has_buff (work_piece R w) s' then saving w else awaiting w), s')
    advance R (saving w) s =
        let pr = ti.map_file R.index w.curr_offset w.remaining in
        copy_bytes ti (buffer pr.piece s) (ti.piece_size pr.piece) pr.start
          (read_size R w.curr_offset w.remaining) w.read_ptr w.buf
        >>= λ buf'. ok (next_piece (copied_up_to R w buf'), s)
    advance R (unlocking read_ptr buf) s = ok (returned read_ptr buf, unlock s)
    advance R (returned read_ptr buf) s = timeout

-- Whether a thread is between lock and unlock.
abbrev pub inside : Phase → Bool
inside (asking o r required) = false
inside (raising calls o r required) = false
inside (locking required) = false
inside (returned read_ptr buf) = false
inside phase = true

-- Thread i makes the i-th call of read.
pub record System (S : Session) : Type 0 where
  pub io : Io S
  pub phase : ℕ → Phase

abbrev pub update : (ℕ → Phase) → ℕ → Phase → ℕ → Phase
update phase i p j = if j == i then p else phase j

module _ (ti : TorrentInfo) {S : Session} (ranges : ℕ → Range) where
  pub data Step (s : System S) : System S → Type 0 where
    pick :
        (i : ℕ) {p : Phase} {io : Io S}
        → advance ti (ranges i) (s.phase i) s.io ≡ ok (p, io)
        → Step s (record { io = io; phase = update s.phase i p })

  pub data Reach (io : Io S) : System S → Type 0 where
    start : Reach io (record { io = io; phase = λ i. start_phase (ranges i) })
    later : {s t : System S} → Reach io s → Step s t → Reach io t

  -- Any number of steps.
  pub data Run : System S → System S → Type 0 where
    done : {s : System S} → Run s s
    next : {s t u : System S} → Step s t → Run t u → Run s u
