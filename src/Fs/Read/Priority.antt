-- ===== src/Fs/Read/Priority.antt =====
-- The priorities that read and init_bitfs set, against a handle that records them.
use bitfs.Base.{ℕ, ◌+◌, ◌<◌, ◌≡◌, false, [], arith, ltb, ◌&&◌, ◌==◌, if◌then◌else◌}
use bitfs.Torrent.{TorrentInfo}
use bitfs.Session.{Session}
use bitfs.Fs.Read.{prioritise}

-- A handle with no pieces and no alerts, whose state is the priority of each piece.
abbrev pub recorder : Session
recorder = record {
  State = ℕ → ℕ;
  have_piece = λ s p. (false, s);
  pop_alerts = λ s. ([], s);
  read_piece = λ s p. s;
  piece_priority = λ s p k q. if q == p then k else s q;
}

-- A request for a missing piece sets this piece and the next one to 7, the previous one to 1
-- unless it is piece 0, and no other piece.
pub prioritise_lem :
    (ti : TorrentInfo) (p : ℕ) (s : ℕ → ℕ) (q : ℕ)
    → prioritise recorder ti p s q ≡ (
        if (q == p + 1) && ltb q ti.num_pieces
        then 7
        else if (q + 1 == p) && ltb 1 p
        then 1
        else if q == p
        then 7
        else s q)
unfolding prioritise
prioritise_lem ti p s q = ground arith

-- A request for a missing piece p other than 0 and then for the next one leaves p at priority 1,
-- whatever it was before.
pub prioritise_next :
    (ti : TorrentInfo) (p : ℕ) (s : ℕ → ℕ)
    → 0 < p
    → prioritise recorder ti (p + 1) (prioritise recorder ti p s) p ≡ 1
unfolding prioritise
prioritise_next ti p s h = ground arith
