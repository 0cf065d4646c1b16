-- ===== src/Tests/Download.antt =====
-- The client against a peer that brings with a read all that was asked for.
use bitfs.Base.{
  ℕ, zero, suc, min, ◌≤◌, ◌<◌, ◌≡◌, refl, ap, List, [], ◌∷◌, ◌++◌, arith, length, take, drop,
}
use bitfs.Base.Int.{pos}
use bitfs.PeerWire.Socket.{Socket, got, IsPeer}
use bitfs.PeerWire.Download.{seeder_answer}
use bitfs.PeerWire.{MetainfoInfo}
use bitfs.Tests.Peer.{content}

-- A peer that brings with a read all that was asked for.
abbrev pub swift : Socket
swift = record {
  State = List ℕ;
  write = λ s bs. (pos (length bs), s ++ seeder_answer content bs);
  read = λ s n. (got (take n s), drop n s);
}

take-drop-min :
    (n k : ℕ) (s : List ℕ) → k ≡ min n (length s) → (take n s ≡ take k s) × (drop n s ≡ drop k s)
take-drop-min zero zero s e = (refl, refl)
take-drop-min zero (suc k) s e = absurd (omega arith)
take-drop-min (suc n) zero [] e = (refl, refl)
take-drop-min (suc n) (suc k) [] e = (refl, refl)
take-drop-min (suc n) zero (x ∷ s) e = absurd (omega arith)
take-drop-min (suc n) (suc k) (x ∷ s) e =
    let (same, left) = take-drop-min n k s (omega arith) in (ap (◌∷◌ x) same, left)

pub swift_some :
    (s : List ℕ) (n : ℕ)
    → 0 < n
    → 0 < length s
    → (k : ℕ) × (t : List ℕ) × (0 < k)
      × (k ≤ n)
      × (k ≤ length s)
      × (swift.read s n ≡ (got (take k s), t))
      × (t ≡ drop k s)
swift_some s n h l =
    let k = min n (length s) in
    let (same, left) = take-drop-min n k s refl in
    (k, drop n s, omega arith, omega arith, omega arith, ap (λ bs. (got bs, drop n s)) same, left)

abbrev pub swift_peer : IsPeer swift (seeder_answer content)
swift_peer = record {
  incoming = λ s. s;
  write_all = λ s bs. (s ++ seeder_answer content bs, refl, refl);
  read_some = swift_some;
}

-- A torrent of one piece of 40 bytes.
abbrev small_torrent : MetainfoInfo
small_torrent = record { piece_length = 40; file_length = 40; num_pieces = 1 }

-- The bitfield of one piece.
abbrev bitfield : List ℕ
bitfield = 0 ∷ 0 ∷ 0 ∷ 2 ∷ 5 ∷ 128 ∷ []
