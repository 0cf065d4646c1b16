-- ===== src/Torrent.antt =====
-- What the program takes from libtorrent's `torrent_info` and `file_storage`: a parameter of the
-- model, since libtorrent is not part of the repository.
use bitfs.Base.{ℕ, ◌+◌, ◌*◌, ◌≤◌, ◌<◌, ◌≡◌}
use bitfs.Base.Text.{Text}

pub record PeerRequest : Type 0 where
  pub piece : ℕ
  pub start : ℕ

-- Sizes are not yet cut to the program's int.
pub record TorrentInfo : Type 0 where
  pub num_files : ℕ
  pub file_path : ℕ → Text
  pub file_size : ℕ → ℕ
  pub file_offset : ℕ → ℕ
  pub total_size : ℕ
  pub piece_length : ℕ
  pub num_pieces : ℕ
  pub piece_size : ℕ → ℕ
  pub map_file : ℕ → ℕ → ℕ → PeerRequest

-- The documented behaviour of the calls that read relies on: no piece is longer than
-- piece_length, and map_file finds the piece, and the place in it, of a byte of a file.
pub record IsLawful (ti : TorrentInfo) : Type 0 where
  pub piece_size_le : (p : ℕ) → ti.piece_size p ≤ ti.piece_length
  pub start_lt :
      (i offset size : ℕ)
      → i < ti.num_files
      → offset < ti.file_size i
      → (ti.map_file i offset size).start < ti.piece_size (ti.map_file i offset size).piece
  pub piece_lt :
      (i offset size : ℕ)
      → i < ti.num_files
      → offset < ti.file_size i
      → (ti.map_file i offset size).piece < ti.num_pieces
  pub position :
      (i offset size : ℕ)
      → i < ti.num_files
      → offset < ti.file_size i
      → (ti.map_file i offset size).piece * ti.piece_length + (ti.map_file i offset size).start
        ≡ ti.file_offset i + offset
