-- ===== src/PeerWire/Handshake.antt =====
-- bt_handshake of bt_lib.c.
use bitfs.Base.{
  [], sym, ◌∙◌, append-nil, length-take, length-append, ℕ, ◌≡◌, refl, ap, List, ◌++◌, append_assoc,
  ok, arith, length, take, drop, drop-append, le→ltb,
}
use bitfs.Base.Ascii.{codes}
use bitfs.Base.Bytes.{take-append_exact, take_all, splice}
use bitfs.PeerWire.Socket.{Received, Socket, failed, got, tcp_send, tcp_recv}
use bitfs.PeerWire.Messages.{zeros, handshake_msg, bt_handshake, received_into}

-- The fields of handshake_msg_t that tell the torrent and the peer.
pub record Handshake : Type 0 where
  pub infohash : List ℕ
  pub peerid : List ℕ

abbrev pub handshake_of : List ℕ → Handshake
handshake_of mbuf = record { infohash = take 20 (drop 28 mbuf); peerid = take 20 (drop 48 mbuf) }

-- "-LT112-1234567898765"
abbrev pub own_id : List ℕ
own_id = codes "-LT112-1234567898765"

-- What lies behind the first 28 bytes.
behind_name :
    (infohash rest : List ℕ)
    → length infohash ≡ 20
    → (take 20 ((take 20 infohash ++ own_id) ++ rest) ≡ infohash)
      × (take 20 (drop 20 ((take 20 infohash ++ own_id) ++ rest)) ≡ own_id)
unfolding codes
behind_name infohash rest e =
    rw (take_all 20 infohash e, append_assoc infohash own_id rest)
      (
        take-append_exact 20 infohash (own_id ++ rest) e,
        ap (take 20) (drop-append 0 20 infohash (own_id ++ rest) (omega arith)),
      )

handshake_of-handshake_msg :
    (infohash rest : List ℕ)
    → length infohash ≡ 20
    → handshake_of (handshake_msg infohash ++ rest)
      ≡ record { infohash = infohash; peerid = own_id }
unfolding handshake_msg codes
handshake_of-handshake_msg infohash rest e =
    let (hash, id) = behind_name infohash rest e in λ i. record { infohash = hash i; peerid = id i }

-- What bt_handshake leaves for the peer's handshake.
abbrev pub taken_for_reply : List ℕ → Received → List ℕ
taken_for_reply infohash failed = handshake_msg infohash
taken_for_reply infohash (got bs) = bs

-- A read that fails, or that brings all 68 bytes at once.
abbrev pub IsWhole : Received → Type 0
IsWhole failed = Unit
IsWhole (got bs) = length bs ≡ 68

pub length-handshake_msg :
    (infohash : List ℕ) → length infohash ≡ 20 → length (handshake_msg infohash) ≡ 68
unfolding handshake_msg codes
length-handshake_msg infohash e =
    omega (arith, length-append {0} (take 20 infohash) own_id, length-take 20 infohash)

-- The buffer after the read.
buffer_read :
    (infohash : List ℕ) (r : Received)
    → length infohash ≡ 20
    → IsWhole r
    → take 68 (received_into (handshake_msg infohash ++ zeros 60) r) ≡ taken_for_reply infohash r
unfolding received_into splice
buffer_read infohash failed e whole =
    take-append_exact 68 (handshake_msg infohash) (zeros 60) (length-handshake_msg infohash e)
buffer_read infohash (got bs) e whole = take-append_exact 68 bs _ whole

-- With an info hash of 20 bytes, when the read brings a reply of 68 bytes at once or fails,
-- bt_handshake returns in its first 68 bytes the reply in the first case, and in the other the
-- client's own handshake, which tells the info hash that was sent and the client's own id.
pub bt_handshake_cases :
    (K : Socket) (infohash : List ℕ) (s : K.State)
    → length infohash ≡ 20
    → IsWhole (K.read (K.write s (handshake_msg infohash)).1 68).0
    → (mbuf : List ℕ) × (t : K.State) × (bt_handshake K infohash s ≡ ok (mbuf, t))
      × (take 68 mbuf
          ≡ taken_for_reply infohash (K.read (K.write s (handshake_msg infohash)).1 68).0)
      × (handshake_of (handshake_msg infohash) ≡ record { infohash = infohash; peerid = own_id })
unfolding bt_handshake tcp_send tcp_recv
bt_handshake_cases K infohash s e whole =
    let r = (K.read (K.write s (handshake_msg infohash)).1 68).0 in
    (
      received_into (handshake_msg infohash ++ zeros 60) r,
      (K.read (K.write s (handshake_msg infohash)).1 68).1,
      rw (le→ltb (length infohash) 20 (omega arith)) refl,
      buffer_read infohash r e whole,
      ap handshake_of (sym (append-nil (handshake_msg infohash)))
          ∙ handshake_of-handshake_msg infohash [] e,
    )
