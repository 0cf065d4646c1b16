-- ===== src/Tests/Peer.antt =====
-- A peer that sends its answers a byte at a time, one that never answers, and a list of peers.
use bitfs.Base.{
  ℕ, zero, suc, ◌+◌, ◌≤◌, ◌<◌, ◌≡◌, refl, List, [], ◌∷◌, ◌++◌, ok, timeout, arith, length, take,
  drop, some, none, ◌⊎◌,
}
use bitfs.Base.Int.{pos}
use bitfs.Base.Bytes.{bytes, splice}
use bitfs.PeerWire.{BlockRequest, MetainfoInfo, wire_piece_size}
use bitfs.PeerWire.Socket.{Socket, Received, failed, got, IsPeer}
use bitfs.PeerWire.Messages.{
  handshake_msg, interested, zeros, bt_handshake, request_msg, bt_send_message,
}
use bitfs.PeerWire.Handshake.{handshake_of, own_id, taken_for_reply, bt_handshake_cases}
use bitfs.PeerWire.Protocol.{
  Message, asks_for, parse_message, parse_message-request_msg, announced, tape,
  bt_send_message_cases,
}
use bitfs.PeerWire.Blocks.{get_block, get_piece}
use bitfs.PeerWire.Receive.{get_block_closed}
use bitfs.PeerWire.Download.{seeder_answer, get_piece_correct}

-- The byte of a piece at an offset.
abbrev pub content : ℕ → ℕ → ℕ
content piece offset = piece + offset

abbrev trickle_read : List ℕ → ℕ → Received × List ℕ
trickle_read s zero = (got [], s)
trickle_read s (suc n) = (got (take 1 s), drop 1 s)

abbrev trickle : Socket
trickle = record {
  State = List ℕ;
  write = λ s bs. (pos (length bs), s ++ seeder_answer content bs);
  read = trickle_read;
}

trickle_some :
    (s : List ℕ) (n : ℕ)
    → 0 < n
    → 0 < length s
    → (k : ℕ) × (t : List ℕ) × (0 < k)
      × (k ≤ n)
      × (k ≤ length s)
      × (trickle_read s n ≡ (got (take k s), t))
      × (t ≡ drop k s)
trickle_some s zero h l = absurd (omega arith)
trickle_some s (suc n) h l = (1, drop 1 s, omega arith, omega arith, omega arith, refl, refl)

abbrev trickle_peer : IsPeer trickle (seeder_answer content)
trickle_peer = record {
  incoming = λ s. s;
  write_all = λ s bs. (s ++ seeder_answer content bs, refl, refl);
  read_some = trickle_some;
}

pub zeros_length : (n : ℕ) → length (zeros n) ≡ n
zeros_length zero = refl
zeros_length (suc n) = omega (arith, zeros_length n)

-- Two pieces of 32768 bytes at most, the last of which is short.
abbrev pub two_pieces : MetainfoInfo
two_pieces = record { piece_length = 32768; file_length = 50000; num_pieces = 2 }

get_piece_correct_example :
    (n : ℕ) × (t : List ℕ) × (wire_piece_size 1 two_pieces ≡ pos n)
    × (get_piece trickle zeros 32768 16397 1 two_pieces []
        ≡ ok (splice (zeros two_pieces.piece_length) 0 (bytes (content 1) 0 n), t))
    × (t ≡ [])
get_piece_correct_example =
    get_piece_correct trickle zeros zeros_length content trickle_peer 16397 (omega arith) 32768 1
      two_pieces [] (omega arith) (omega arith) (omega arith) (omega arith) (omega arith) refl

-- Writing works, and what was sent before is not read.
abbrev silent : Received → Socket
silent r = record {
  State = List ℕ;
  write = λ s bs. (pos (length bs), s ++ bs);
  read = λ s n. (r, s);
}

get_block_closed_example : get_block (silent (got [])) zeros 40 13 [] ≡ timeout
get_block_closed_example =
    get_block_closed (silent (got [])) zeros 40 13 [] (λ t n. refl) (omega arith)

abbrev pub sample_hash : List ℕ
sample_hash = zeros 19 ++ (5 ∷ [])

bt_handshake_cases_example :
    (mbuf t : List ℕ) × (bt_handshake (silent failed) sample_hash [] ≡ ok (mbuf, t))
    × (take 68 mbuf ≡ taken_for_reply sample_hash failed)
    × (handshake_of (handshake_msg sample_hash)
        ≡ record { infohash = sample_hash; peerid = own_id })
bt_handshake_cases_example = bt_handshake_cases (silent failed) sample_hash [] refl tt

abbrev second_block : BlockRequest
second_block = record { index = 1; begin = 16384; length = 848 }

parse_message-request_msg_example :
    parse_message (request_msg second_block) ≡ some (asks_for second_block)
parse_message-request_msg_example =
    parse_message-request_msg second_block (omega arith) (omega arith) (omega arith)

bt_send_message_cases_example :
    ((m : Message) × (bs : List ℕ) × (announced interested ≡ some m)
      × (bt_send_message tape interested [] ≡ (some (bs ++ zeros 11), [] ++ bs))
      × (parse_message bs ≡ some m))
    ⊎ ((announced interested ≡ none) × (bt_send_message tape interested [] ≡ (none, [])))
bt_send_message_cases_example = bt_send_message_cases interested []
