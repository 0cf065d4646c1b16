-- ===== src/PeerWire/Disk.antt =====
-- parse_metainfo_file of bt_lib.c from its start: the torrent file is read into memory and parsed.
-- The file with its read call is a parameter.
use bitfs.Base.{
  ℕ, zero, suc, ◌+◌, ◌≤◌, ◌<◌, ◌≡◌, Bool, true, false, List, [], ◌∷◌, ◌++◌, Option, none, some,
  Outcome, ok, fault, timeout, ◌>>=◌, length, take, drop, ltb, if◌then◌else◌,
}
use bitfs.Base.Int.{ℤ, pos, pos_part, ltb_ℤ, to_int}
use bitfs.Base.Text.{Text}
use bitfs.PeerWire.Socket.{Received, failed, got}
use bitfs.PeerWire.Metainfo.{Bencode, Metainfo, parse_metainfo_file}

pub record Disk : Type 1 where
  pub State : Type 0
  pub read : State → ℕ → Received × State

-- A file of the disk: what is left of it comes in order, some bytes with each read, and no bytes at
-- its end.
pub record IsFile (D : Disk) : Type 0 where
  pub left : D.State → Text
  pub read_some :
      (s : D.State) (n : ℕ)
      → 0 < n
      → 0 < length (left s)
      → (k : ℕ) × (t : D.State) × (0 < k)
        × (k ≤ n)
        × (k ≤ length (left s))
        × (D.read s n ≡ (got (take k (left s)), t))
        × (left t ≡ drop k (left s))
  pub read_end : (s : D.State) (n : ℕ) → left s ≡ [] → (t : D.State) × (D.read s n ≡ (got [], t))

module _ (D : Disk) where
  -- One round of the loop, into memory of `room` bytes: what is there then, and whether the loop goes
  -- on.
  unfoldable pub appended : ℕ → Text → Received × D.State → Outcome (Text × D.State × Bool)
  appended room buf (failed, s) = ok (buf, s, false)
  appended room buf (got [], s) = ok (buf, s, false)
  appended room buf (got (b ∷ bs), s) =
      if ltb room (length buf + length (b ∷ bs)) then fault else ok (buf ++ (b ∷ bs), s, true)

  -- while ((read_count = read(fd, read_buf, 1024)) > 0) { memcpy(...); ... }
  unfoldable pub read_rounds : ℕ → ℕ → Text → D.State → Outcome (Text × D.State)
  unfolding appended
  read_rounds zero room buf s = timeout
  read_rounds (suc fuel) room buf s = appended room buf (D.read s 1024) >>= λ (buf', s', goes_on).
      let more = read_rounds fuel room buf' s' in if goes_on then more else ok (buf', s')

  -- (int) (stat_buf.st_size + 1); malloc gives no memory for a size below 0.
  abbrev pub metainfo_room : ℕ → ℕ
  metainfo_room st_size = pos_part (to_int (st_size + 1))

  -- From stat and open, which give st_size and fd, to the NUL behind the bytes; `none` where the
  -- program exits.
  unfoldable pub read_metainfo : ℕ → ℤ → ℕ → D.State → Outcome (Option Text)
  unfolding read_rounds
  read_metainfo fuel fd st_size s =
      let bytes = read_rounds fuel (metainfo_room st_size) [] s >>= λ (buf, s').
      if ltb (length buf) (metainfo_room st_size) then ok (some buf) else fault in
      if ltb_ℤ (pos 0) fd then bytes else ok none

  module _ (B : Bencode) (SHA1 : Text → List ℕ) (bencode_init : Text → B.Node) where
    unfoldable pub parse_bytes : ℕ → Metainfo → Option Text → Outcome (Option Metainfo)
    parse_bytes fuel unset none = ok none
    parse_bytes fuel unset (some bytes) =
        parse_metainfo_file B SHA1 fuel (bencode_init bytes) unset >>= λ m. ok (some m)

    -- metainfo_t *parse_metainfo_file(char *), from its start.
    unfoldable pub parse_torrent_file : ℕ → ℤ → ℕ → Metainfo → D.State → Outcome (Option Metainfo)
    unfolding read_metainfo parse_bytes
    parse_torrent_file fuel fd st_size unset s =
        read_metainfo fuel fd st_size s >>= parse_bytes fuel unset
