-- ===== src/PeerWire/Client.antt =====
-- btclient/bt_client.c: the connection to the first peer, what is sent and read, and the first piece.
use bitfs.Base.{
  ℕ, ◌+◌, ◌/◌, List, Option, none, some, Outcome, ok, fault, ◌>>=◌, take, ltb, if◌then◌else◌,
}
use bitfs.Base.Int.{ℤ, pos, negsuc, pos_part, ltb_ℤ}
use bitfs.PeerWire.{MetainfoInfo, wire_piece_size}
use bitfs.PeerWire.Socket.{Socket}
use bitfs.PeerWire.Messages.{unchoke, interested, bt_handshake, bt_send_message}
use bitfs.PeerWire.Blocks.{get_piece}

-- int peer_tcp_connect(char *, int), from the results of socket, gethostbyname and connect.
unfoldable pub peer_tcp_connect : {Host : Type 0} → ℤ → Option Host → (Host → ℤ) → ℤ
peer_tcp_connect sockfd none connect = negsuc 0
peer_tcp_connect sockfd (some server) connect =
    if ltb_ℤ sockfd (pos 0)
    then negsuc 0
    else if ltb_ℤ (connect server) (pos 0)
    then negsuc 0
    else sockfd

module _ (K : Socket) (malloc : ℕ → List ℕ) where
  -- The part of main from bt_handshake on: what is written to the file. The bitfield goes to a buffer
  -- of 1024 bytes and is not looked at.
  unfoldable pub bt_client : ℕ → ℕ → List ℕ → MetainfoInfo → K.State → Outcome (List ℕ × K.State)
  unfolding bt_handshake bt_send_message get_piece
  bt_client fuel recvs infohash info s = bt_handshake K infohash s >>= λ (hresponse, s1).
      let (response, s2) = bt_send_message K unchoke s1 in
      let (response', s3) = bt_send_message K interested s2 in
      let (bitfield, s4) = K.read s3 (info.num_pieces / 8 + 1 + 5) in
      if ltb 1024 (info.num_pieces / 8 + 1 + 5)
      then fault
      else get_piece K malloc fuel recvs 0 info s4 >>= λ (piece_buf, s5).
          ok (take (pos_part (wire_piece_size 0 info)) piece_buf, s5)
