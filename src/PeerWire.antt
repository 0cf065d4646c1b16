-- ===== src/PeerWire.antt =====
-- btclient/bt_lib.c: the client of the wire protocol. Pieces and the requests for their blocks.
pub mod Socket
pub mod Messages
pub mod Handshake
pub mod Protocol
pub mod Blocks
pub mod Receive
pub mod Download
pub mod Peers
pub mod Client
pub mod Metainfo
pub mod Entries
pub mod Torrent
pub mod Unchoke
pub mod Disk
pub mod Load
pub mod Listen
pub mod Address
use bitfs.Base.{
  lt→leb, leb, if◌then◌else◌, ℕ, zero, suc, ◌+◌, ◌-◌, ◌*◌, ◌≤◌, ◌<◌, min, ◌≡◌, List, [], ◌∷◌,
  Outcome, ok, timeout, ◌>>=◌, arith,
}
use native.Mathlib.Nat.{mul-le-mul_left}
use bitfs.Base.Int.{ℤ, pos, negsuc, pos_part, sub_ℕ, min_ℤ}

-- struct bt_request_t, before its numbers are put into network order.
pub record BlockRequest : Type 0 where
  pub index : ℕ
  pub begin : ℕ
  pub length : ℕ

-- uint32_t block_size
abbrev pub block_size : ℕ
block_size = 16384

-- The requests that the loop of get_piece sends, in their order, from an offset on.
unfoldable pub block_requests : ℕ → ℕ → ℕ → ℕ → Outcome (List BlockRequest)
block_requests fuel piece zero offset = ok []
block_requests zero piece (suc remaining) offset = timeout
block_requests (suc fuel) piece (suc remaining) offset =
    let read_size = min (suc remaining) block_size in
    block_requests fuel piece (suc remaining - read_size) (offset + read_size) >>= λ rest.
    ok (record { index = piece; begin = offset; length = read_size } ∷ rest)

-- The requests lie one behind the other from one offset to another, and none is empty or larger
-- than a block.
abbrev pub Tiles : ℕ → List BlockRequest → ℕ → ℕ → Type 0
Tiles piece [] from to = from ≡ to
Tiles piece (r ∷ rest) from to =
    (r.index ≡ piece)
    × (r.begin ≡ from)
    × (0 < r.length)
    × (r.length ≤ block_size)
    × Tiles piece rest (from + r.length) to

-- The fields of metainfo_info_t that hold sizes, as the torrent file gives them: not negative,
-- and with products that fit int.
pub record MetainfoInfo : Type 0 where
  pub piece_length : ℕ
  pub file_length : ℕ
  pub num_pieces : ℕ

-- int piece_size(int, metainfo_t *)
unfoldable pub wire_piece_size : ℕ → MetainfoInfo → ℤ
wire_piece_size piece info =
    if leb info.num_pieces piece
    then negsuc 0
    else min_ℤ (sub_ℕ info.file_length (info.piece_length * piece)) (pos info.piece_length)

-- The requests of get_piece. A size that is not above 0 ends the loop at once.
unfoldable pub piece_requests : ℕ → ℕ → MetainfoInfo → Outcome (List BlockRequest)
unfolding block_requests wire_piece_size
piece_requests fuel piece info = block_requests fuel piece (pos_part (wire_piece_size piece info)) 0

size_inside :
    (file begin len : ℕ)
    → begin < file
    → min_ℤ (sub_ℕ file begin) (pos len) ≡ pos (min (file - begin) len)
size_inside file begin len h = ground arith

begins_inside :
    (piece count len file : ℕ) → piece < count → len * count < file + len → len * piece < file
begins_inside piece count len file h l = omega (arith, mul-le-mul_left len h)

pub wire_piece_size_known :
    (piece : ℕ) (info : MetainfoInfo)
    → piece < info.num_pieces
    → info.piece_length * info.num_pieces < info.file_length + info.piece_length
    → wire_piece_size piece info
      ≡ pos (min (info.file_length - info.piece_length * piece) info.piece_length)
unfolding wire_piece_size
wire_piece_size_known piece info known lasting =
    rw (lt→leb _ _ known)
      (size_inside _ _ _ (begins_inside piece info.num_pieces _ _ known lasting))
