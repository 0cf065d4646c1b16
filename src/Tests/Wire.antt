-- ===== src/Tests/Wire.antt =====
-- The requests for a piece of a small file.
use bitfs.PeerWire.{MetainfoInfo}

-- Two pieces, the last of which is short.
abbrev small_info : MetainfoInfo
small_info = record { piece_length = 32768; file_length = 50000; num_pieces = 2 }
