-- ===== src/PeerWire/Messages.antt =====
-- The messages that bt_lib.c writes, byte for byte, and what they mean to a peer that reads them by
-- the protocol.
use bitfs.Base.{
  ℕ, zero, suc, ◌/◌, ◌%◌, ◌^◌, List, [], ◌∷◌, ◌++◌, Option, none, some, length, take, if◌then◌else◌,
  Outcome, ok, fault, ltb,
}
use bitfs.Base.Ascii.{codes}
use bitfs.Base.Bytes.{splice}
use bitfs.PeerWire.{BlockRequest}
use bitfs.PeerWire.Socket.{Socket, Received, failed, got, tcp_send, tcp_recv}

-- htonl, as the four bytes in memory.
unfoldable pub htonl : ℕ → List ℕ
htonl n = n / 2 ^ 24 % 256 ∷ n / 2 ^ 16 % 256 ∷ n / 2 ^ 8 % 256 ∷ n % 256 ∷ []

-- enum message_type
pub data MessageType : Type 0 where
  keep_alive choke unchoke interested : MessageType
  not_interested have bitfield request : MessageType

-- bzero of n bytes
abbrev pub zeros : ℕ → List ℕ
zeros zero = []
zeros (suc n) = 0 ∷ zeros n

-- The first five bytes of a bt_msg_t with this length and bt_type.
unfoldable pub bt_msg : ℕ → ℕ → List ℕ
unfolding htonl
bt_msg length bt_type = htonl length ++ (bt_type ∷ [])

-- The 17 bytes of a request: get_piece sets length, bt_type and the payload.
unfoldable pub request_msg : BlockRequest → List ℕ
unfolding bt_msg htonl
request_msg r = bt_msg 0xd 0x6 ++ (htonl r.index ++ (htonl r.begin ++ htonl r.length))

module _ (K : Socket) where
  -- The common shape of bt_choke, bt_unchoke and bt_interested: five bytes are sent, and the
  -- message buffer of 16 bytes is returned.
  unfoldable pub send_five : ℕ → K.State → List ℕ × K.State
  unfolding bt_msg
  send_five bt_type s =
      let (nsent, s') = tcp_send K (bt_msg 1 bt_type) s in (bt_msg 1 bt_type ++ zeros 11, s')

  unfoldable pub bt_choke : K.State → List ℕ × K.State
  unfolding send_five
  bt_choke s = send_five 0x0 s

  unfoldable pub bt_unchoke : K.State → List ℕ × K.State
  unfolding send_five
  bt_unchoke s = send_five 0x1 s

  unfoldable pub bt_interested : K.State → List ℕ × K.State
  unfolding send_five
  bt_interested s = send_five 0x2 s

  abbrev returned : List ℕ × K.State → Option (List ℕ) × K.State
  returned (mbuf, s) = (some mbuf, s)

  -- bt_msg_t *bt_send_message(int, message_type, metainfo_t *), where `none` is NULL.
  unfoldable pub bt_send_message : MessageType → K.State → Option (List ℕ) × K.State
  unfolding bt_choke bt_unchoke bt_interested
  bt_send_message choke s = returned (bt_choke s)
  bt_send_message unchoke s = returned (bt_unchoke s)
  bt_send_message interested s = returned (bt_interested s)
  bt_send_message keep_alive s = (none, s)
  bt_send_message not_interested s = (none, s)
  bt_send_message have s = (none, s)
  bt_send_message bitfield s = (none, s)
  bt_send_message request s = (none, s)

-- The 68 bytes of handshake_msg_t: prtlen, protoname, reserved, infohash, peerid.
unfoldable pub handshake_msg : List ℕ → List ℕ
unfolding codes
handshake_msg infohash =
    0x13
    ∷ (codes "BitTorrent protocol"
        ++ (zeros 8 ++ (take 20 infohash ++ codes "-LT112-1234567898765")))

-- What tcp_recv leaves in a buffer: nothing new when it fails.
unfoldable pub received_into : List ℕ → Received → List ℕ
received_into mbuf failed = mbuf
received_into mbuf (got bs) = splice mbuf 0 bs

-- handshake_msg_t *bt_handshake(int, metainfo_t *): the 128 bytes of mbuf. Neither result of the two
-- calls is tested. The info hash has 20 bytes.
unfoldable pub bt_handshake : (K : Socket) → List ℕ → K.State → Outcome (List ℕ × K.State)
unfolding handshake_msg
bt_handshake K infohash s =
    if ltb (length infohash) 20
    then fault
    else let mbuf = handshake_msg infohash ++ zeros 60 in
      let (nsent, s1) = tcp_send K (handshake_msg infohash) s in
      let (received, s2) = tcp_recv K 68 s1 in ok (received_into mbuf received, s2)
