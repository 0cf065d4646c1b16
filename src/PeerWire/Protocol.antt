-- ===== src/PeerWire/Protocol.antt =====
-- The messages of bt_lib.c read back by the protocol: a length, a type and a payload.
use bitfs.Base.{
  ℕ, ◌+◌, ◌*◌, ◌/◌, ◌%◌, ◌^◌, ◌<◌, ◌≡◌, refl, ◌⊎◌, inl, inr, List, [], ◌∷◌, ◌++◌, Option, none,
  some, arith, length, ◌==◌, if◌then◌else◌,
}
use bitfs.Base.Int.{pos}
use bitfs.PeerWire.{BlockRequest}
use bitfs.PeerWire.Socket.{Socket, got, tcp_send}
use bitfs.PeerWire.Messages.{
  MessageType, keep_alive, choke, unchoke, interested, not_interested, have, bitfield, request,
  htonl, bt_msg, request_msg, zeros, send_five, bt_send_message,
}

pub data Message : Type 0 where
  choked unchoked interest : Message
  asks_for : BlockRequest → Message

-- Four bytes in network order.
abbrev pub be32 : ℕ → ℕ → ℕ → ℕ → ℕ
be32 a b c d = ((a * 256 + b) * 256 + c) * 256 + d

abbrev pub parse_payload : ℕ → List ℕ → Option Message
parse_payload id [] =
    if id == 0
    then some choked
    else if id == 1
    then some unchoked
    else if id == 2
    then some interest
    else none
parse_payload id (a ∷ b ∷ c ∷ d ∷ e ∷ f ∷ g ∷ h ∷ i ∷ j ∷ k ∷ l ∷ []) =
    if id == 6
    then some
        (asks_for (record { index = be32 a b c d; begin = be32 e f g h; length = be32 i j k l }))
    else none
parse_payload id payload = none

-- A message is the length of what follows, in four bytes, then its type and its payload.
abbrev pub parse_message : List ℕ → Option Message
parse_message (a ∷ b ∷ c ∷ d ∷ id ∷ payload) =
    if be32 a b c d == length (id ∷ payload) then parse_payload id payload else none
parse_message bs = none

-- The four bytes that htonl writes are the number.
be32-htonl :
    (n : ℕ)
    → n < 2 ^ 32
    → be32 (n / 2 ^ 24 % 256) (n / 2 ^ 16 % 256) (n / 2 ^ 8 % 256) (n % 256) ≡ n
be32-htonl n h = omega arith

-- A request whose three numbers fit 32 bits is read back as it was: the 17 bytes are a message of
-- the protocol with the length 13 in front, and hold the piece, the begin and the length.
pub parse_message-request_msg :
    (r : BlockRequest)
    → r.index < 2 ^ 32
    → r.begin < 2 ^ 32
    → r.length < 2 ^ 32
    → parse_message (request_msg r) ≡ some (asks_for r)
unfolding request_msg bt_msg htonl
parse_message-request_msg r i b l =
    rw (be32-htonl r.index i, be32-htonl r.begin b, be32-htonl r.length l) refl

-- A connection that keeps what is written to it.
abbrev pub tape : Socket
tape = record {
  State = List ℕ;
  write = λ s bs. (pos (length bs), s ++ bs);
  read = λ s n. (got [], s);
}

-- What a type of bt_send_message announces.
abbrev pub announced : MessageType → Option Message
announced choke = some choked
announced unchoke = some unchoked
announced interested = some interest
announced type = none

-- For CHOKE, UNCHOKE and INTERESTED, bt_send_message writes one message of the protocol, which is
-- read back as the one that was meant, and returns its bytes in a buffer of 16. For every other type
-- it writes nothing and returns NULL.
pub bt_send_message_cases :
    (type : MessageType) (s : List ℕ)
    → ((m : Message) × (bs : List ℕ) × (announced type ≡ some m)
        × (bt_send_message tape type s ≡ (some (bs ++ zeros 11), s ++ bs))
        × (parse_message bs ≡ some m))
      ⊎ ((announced type ≡ none) × (bt_send_message tape type s ≡ (none, s)))
unfolding bt_send_message send_five tcp_send bt_msg htonl
bt_send_message_cases choke s = inl (choked, bt_msg 1 0, refl, refl, refl)
bt_send_message_cases unchoke s = inl (unchoked, bt_msg 1 1, refl, refl, refl)
bt_send_message_cases interested s = inl (interest, bt_msg 1 2, refl, refl, refl)
bt_send_message_cases keep_alive s = inr (refl, refl)
bt_send_message_cases not_interested s = inr (refl, refl)
bt_send_message_cases have s = inr (refl, refl)
bt_send_message_cases bitfield s = inr (refl, refl)
bt_send_message_cases request s = inr (refl, refl)
