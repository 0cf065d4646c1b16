-- ===== src/PeerWire/Blocks.antt =====
-- get_block and get_piece of bt_lib.c: a piece is asked for and received block by block.
use bitfs.Base.{
  ℕ, zero, suc, ◌+◌, ◌-◌, min, List, [], ◌∷◌, Outcome, ok, fault, timeout, ◌>>=◌, length, take,
  drop, ltb, if◌then◌else◌,
}
use bitfs.Base.Int.{ℤ, pos, negsuc, pos_part, ◌+ℤ◌, ◌-ℤ◌}
use bitfs.Base.Bytes.{splice}
use bitfs.PeerWire.{block_size, MetainfoInfo, wire_piece_size}
use bitfs.PeerWire.Socket.{Socket, failed, got, tcp_send, tcp_recv}
use bitfs.PeerWire.Messages.{request_msg}

-- Bytes stored into a buffer from an offset on, which may have gone below 0.
unfoldable pub store : List ℕ → ℤ → List ℕ → Outcome (List ℕ)
store buf (pos o) bs = if ltb (length buf) (o + length bs) then fault else ok (splice buf o bs)
store buf (negsuc _) [] = ok buf
store buf (negsuc _) (b ∷ bs) = fault

-- The contents of fresh memory of a size are a parameter.
module _ (K : Socket) (malloc : ℕ → List ℕ) where
  -- The loop of get_block. The -1 of a failed tcp_recv is subtracted and added like a count. A read
  -- brings no more than was asked for.
  unfoldable pub recv_block : ℕ → ℕ → List ℕ → ℤ → K.State → Outcome (List ℕ × K.State)
  unfolding store
  recv_block fuel zero blk_buf offset s = ok (blk_buf, s)
  recv_block zero (suc remaining) blk_buf offset s = timeout
  recv_block (suc fuel) (suc remaining) blk_buf offset s =
      let (nread, s') = tcp_recv K (suc remaining) s in
      elim nread [
        | failed ↦ recv_block fuel (suc remaining + 1) blk_buf (offset -ℤ pos 1) s'
        | got bs ↦ store blk_buf offset bs >>= λ blk_buf'.
            recv_block fuel (suc remaining - length bs) blk_buf' (offset +ℤ pos (length bs)) s'
      ]

  -- static char *get_block(int, int)
  unfoldable pub get_block : ℕ → ℕ → K.State → Outcome (List ℕ × K.State)
  unfolding recv_block
  get_block fuel size s = recv_block fuel size (malloc (size + 128)) (pos 0) s

  -- The loop of get_piece. `fuel` bounds its rounds and `recvs` those of each get_block. Behind the
  -- 13 bytes of the header stands the block.
  unfoldable pub get_blocks : ℕ → ℕ → ℕ → ℕ → ℕ → List ℕ → K.State → Outcome (List ℕ × K.State)
  unfolding get_block
  get_blocks fuel recvs piece zero offset piece_buf s = ok (piece_buf, s)
  get_blocks zero recvs piece (suc remaining) offset piece_buf s = timeout
  get_blocks (suc fuel) recvs piece (suc remaining) offset piece_buf s =
      let read_size = min (suc remaining) block_size in
      let (nsent, s1) =
        tcp_send K (request_msg (record { index = piece; begin = offset; length = read_size })) s in
      get_block recvs (read_size + 13) s1 >>= λ (blk, s2).
      store piece_buf (pos offset) (take read_size (drop 13 blk)) >>= λ piece_buf'.
      get_blocks fuel recvs piece (suc remaining - read_size) (offset + read_size) piece_buf' s2

  -- char *get_piece(int, int, metainfo_t *)
  unfoldable pub get_piece : ℕ → ℕ → ℕ → MetainfoInfo → K.State → Outcome (List ℕ × K.State)
  unfolding get_blocks
  get_piece fuel recvs piece info s =
      get_blocks fuel recvs piece (pos_part (wire_piece_size piece info)) 0
        (malloc info.piece_length) s
