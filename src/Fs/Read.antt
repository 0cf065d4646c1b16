-- ===== src/Fs/Read.antt =====
-- FS::read of FS.cpp with the functions that it calls, get_piece_buffers and
-- wait_for_piece_download. Every wait of the source is a loop on fuel, and ends in `timeout` when
-- the fuel is used up.
pub mod Wait
pub mod Load
pub mod Walk
pub mod Copy
pub mod Inside
pub mod Correct
pub mod Whole
pub mod Limits
pub mod Priority
use bitfs.Base.{
  ℕ, zero, suc, ◌+◌, ◌-◌, min, ◌≡◌, Bool, true, false, not, ◌||◌, List, [], ◌∷◌, Option, none, some,
  Outcome, ok, fault, timeout, ◌>>=◌, ltb, if◌then◌else◌, length, take, drop,
}
use bitfs.Base.Int.{ℤ, pos, pos_part, ltb_ℤ, min_ℤ, ◌-ℤ◌, to_int}
use bitfs.Base.Text.{Text}
use bitfs.Base.Ordered.{insert, nat_ord}
use bitfs.Base.Dict.{Dict, lookup, set}
use bitfs.Base.Bytes.{splice}
use bitfs.Torrent.{TorrentInfo}
use bitfs.Session.{Session, Alert, read_piece_alert, other_alert}
use bitfs.Fs.{get_file_index, get_file_size}

-- What read works on: the session, the global piece_buffer_map, and the mutex fsmtx.
pub record Io (S : Session) : Type 0 where
  pub sess : S.State
  pub buffers : Dict ℕ (List ℕ)
  pub locked : Bool

-- The loop over the alerts: the buffer of each read_piece_alert is copied into the map.
unfoldable pub store_alerts : List Alert → Dict ℕ (List ℕ) → Dict ℕ (List ℕ)
store_alerts [] m = m
store_alerts (read_piece_alert p b ∷ alerts) m = store_alerts alerts (set p b m)
store_alerts (other_alert ∷ alerts) m = store_alerts alerts m

-- The three calls of piece_priority for a piece that is missing.
unfoldable pub prioritise : (S : Session) → TorrentInfo → ℕ → S.State → S.State
prioritise S ti piece sess =
    let sess1 = S.piece_priority sess piece 7 in
    let sess2 = if ltb 1 piece then S.piece_priority sess1 (piece - 1) 1 else sess1 in
    if ltb (piece + 1) ti.num_pieces then S.piece_priority sess2 (piece + 1) 7 else sess2

-- memcpy(temp_buf, piece_buffer_map[piece], piece_size) and
-- memcpy(buf + read_ptr, temp_buf + start, read_size), where each stays within its buffers.
-- temp_buf has piece_length bytes.
unfoldable pub copy_bytes : TorrentInfo → List ℕ → ℕ → ℕ → ℕ → ℕ → List ℕ → Outcome (List ℕ)
copy_bytes ti b piece_size start read_size read_ptr buf =
    if ltb (length b) piece_size || ltb ti.piece_length piece_size
    then fault
    else if ltb piece_size start || ltb (length buf) (read_ptr + read_size)
    then fault
    else ok (splice buf read_ptr (take read_size (drop start (take piece_size b))))

module _ {S : Session} where
  -- void FS::get_piece_buffers()
  unfoldable pub get_piece_buffers : Io S → Io S
  get_piece_buffers s =
      let (alerts, sess) = S.pop_alerts s.sess in
      record s { sess = sess; buffers = store_alerts alerts s.buffers }

  -- thandle.have_piece(piece)
  unfoldable pub have_piece : ℕ → Io S → Bool × Io S
  have_piece piece s =
      let (have, sess) = S.have_piece s.sess piece in (have, record s { sess = sess })

  -- while (!hve_piece) { get_piece_buffers(); hve_piece = have_piece(piece); }
  unfoldable pub poll_have : ℕ → ℕ → Bool → Io S → Outcome (Io S)
  poll_have fuel piece true s = ok s
  poll_have zero piece false s = timeout
  poll_have (suc fuel) piece false s =
      let (hve_piece, s') = have_piece piece (get_piece_buffers s) in
      poll_have fuel piece hve_piece s'

  -- void FS::wait_for_piece_download(int)
  unfoldable pub wait_for_piece_download : ℕ → ℕ → Io S → Outcome (Io S)
  unfolding have_piece
  wait_for_piece_download fuel piece s =
      let (have, s1) = have_piece piece s in
      let (hve_piece, s2) = have_piece piece s1 in
      if have then ok s1 else poll_have fuel piece hve_piece s2

  -- piece_buffer_map.find(piece) != piece_buffer_map.end()
  unfoldable pub has_buff : ℕ → Io S → Bool
  has_buff piece s = elim (lookup piece s.buffers) [ none ↦ false | some _ ↦ true ]

  -- while (!has_buff) { get_piece_buffers(); has_buff = ...; }
  unfoldable pub poll_buff : ℕ → ℕ → Bool → Io S → Outcome (Io S)
  poll_buff fuel piece true s = ok s
  poll_buff zero piece false s = timeout
  poll_buff (suc fuel) piece false s =
      let s' = get_piece_buffers s in poll_buff fuel piece (has_buff piece s') s'

  -- From the test of the map to its loop: read_piece is called once if the piece is not there.
  unfoldable pub load_piece : ℕ → ℕ → Io S → Outcome (Io S)
  unfolding has_buff
  load_piece fuel piece s =
      let reading = record s { sess = S.read_piece s.sess piece } in
      poll_buff fuel piece (has_buff piece s) (if has_buff piece s then s else reading)

  -- piece_buffer_map[piece]
  unfoldable pub buffer : ℕ → Io S → List ℕ
  buffer piece s = elim (lookup piece s.buffers) [ none ↦ [] | some b ↦ b ]

  -- fsmtx.lock(): with the mutex taken the call does not return.
  unfoldable pub lock : Io S → Outcome (Io S)
  lock s = if s.locked then timeout else ok (record s { locked = true })

  unfoldable pub unlock : Io S → Io S
  unlock s = record s { locked = false }

  -- for (auto const &p : required_pieces): read what has arrived in the meantime.
  unfoldable pub read_available : List ℕ → Io S → Io S
  unfolding have_piece
  read_available [] s = s
  read_available (p ∷ pieces) s =
      let (have, s') = have_piece p s in
      read_available pieces (if have then record s' { sess = S.read_piece s'.sess p } else s')

  module _ (ti : TorrentInfo) where
    -- One round of the first loop: a missing piece is noted and asked for. All the values of
    -- required_pieces are false, so the keys stand for the map.
    unfoldable pub request_piece : ℕ → List ℕ → Io S → List ℕ × Io S
    unfolding have_piece prioritise
    request_piece piece required s =
        let (have, s') = have_piece piece s in
        if have
        then (required, s')
        else (insert piece required, record s' { sess = prioritise S ti piece s'.sess })

    -- The first loop over the pieces of the request, which asks for each. A start beyond the piece
    -- would make the step negative, which no later step makes good.
    unfoldable pub request_pieces :
        (ask : ℕ → List ℕ → Io S → List ℕ × Io S)
        → ℕ
        → ℕ
        → ℕ
        → ℕ
        → List ℕ
        → Io S
        → Outcome (List ℕ × Io S)
    request_pieces ask fuel index curr_offset zero required s = ok (required, s)
    request_pieces ask zero index curr_offset (suc remaining) required s = timeout
    request_pieces ask (suc fuel) index curr_offset (suc remaining) required s =
        let pr = ti.map_file index curr_offset (suc remaining) in
        let piece_size = ti.piece_size pr.piece in
        let read_size = min (piece_size - pr.start) (suc remaining) in
        let (required', s') = ask pr.piece required s in
        let rest =
          request_pieces ask fuel index (curr_offset + read_size) (suc remaining - read_size)
            required' s' in
        if ltb piece_size pr.start then fault else rest

    module _ (wait : ℕ → ℕ → Io S → Outcome (Io S)) where
      -- One round of the second loop: the piece is waited for, loaded and copied.
      unfoldable pub copy_piece : ℕ → ℕ → ℕ → ℕ → ℕ → ℕ → List ℕ → Io S → Outcome (List ℕ × Io S)
      copy_piece fuel piece piece_size start read_size read_ptr buf s = do
        s1 ← wait fuel piece s
        s2 ← load_piece fuel piece s1
        buf' ← copy_bytes ti (buffer piece s2) piece_size start read_size read_ptr buf
        ok (buf', s2)

      -- The second loop over the pieces of the request. The fuel bounds its rounds, and the polls
      -- of each wait are bounded by `polls`.
      unfoldable pub copy_pieces :
          ℕ → ℕ → ℕ → ℕ → ℕ → ℕ → List ℕ → Io S → Outcome (ℕ × List ℕ × Io S)
      copy_pieces fuel polls index curr_offset zero read_ptr buf s = ok (read_ptr, buf, s)
      copy_pieces zero polls index curr_offset (suc remaining) read_ptr buf s = timeout
      copy_pieces (suc fuel) polls index curr_offset (suc remaining) read_ptr buf s =
          let pr = ti.map_file index curr_offset (suc remaining) in
          let piece_size = ti.piece_size pr.piece in
          let read_size = min (piece_size - pr.start) (suc remaining) in
          copy_piece polls pr.piece piece_size pr.start read_size read_ptr buf s >>= λ (buf', s').
          copy_pieces fuel polls index (curr_offset + read_size) (suc remaining - read_size)
            (read_ptr + read_size) buf' s'

    module _ (range : ℕ → ℕ → ℕ → ℕ → ℕ → List ℕ → Io S → Outcome (ℤ × List ℕ × Io S)) where
      -- read up to its first loop. The file's size, the size asked for and the offset are cut to
      -- int; a remaining size below 0 ends both loops at once.
      unfoldable pub read_file : ℕ → ℕ → Text → List ℕ → ℕ → ℕ → Io S → Outcome (ℤ × List ℕ × Io S)
      read_file fuel polls filepath buf _size _offset s = do
        file_index ← get_file_index ti filepath
        file_total_size ← get_file_size ti file_index
        if ltb_ℤ (pos _offset) file_total_size
            then range fuel polls (pos_part file_index) (pos_part (to_int _offset))
                (pos_part (min_ℤ (to_int _size) (file_total_size -ℤ to_int _offset))) buf s
            else ok (pos 0, buf, s)

    -- read from the first loop on.
    unfoldable pub read_range : ℕ → ℕ → ℕ → ℕ → ℕ → List ℕ → Io S → Outcome (ℤ × List ℕ × Io S)
    unfolding request_piece wait_for_piece_download
    read_range fuel polls index offset remaining buf s = do
      (required, s1) ← request_pieces request_piece fuel index offset remaining [] s
      s2 ← lock s1
      (read_ptr, buf', s3) ←
          copy_pieces wait_for_piece_download fuel polls index offset remaining 0 buf
            (read_available required s2)
      ok (pos read_ptr, buf', unlock s3)

    -- int FS::read(const char *, char *, size_t, off_t, ...)
    unfoldable pub read : ℕ → ℕ → Text → List ℕ → ℕ → ℕ → Io S → Outcome (ℤ × List ℕ × Io S)
    unfolding read_range read_file
    read = read_file read_range
