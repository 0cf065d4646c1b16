-- ===== src/PeerWire/Download.antt =====
-- get_piece against a peer that has the torrent.
use bitfs.Base.{
  ℕ, zero, suc, ◌+◌, ◌-◌, ◌*◌, ◌^◌, min, ◌≤◌, ◌<◌, ◌≡◌, refl, sym, ap, ◌∙◌, List, [], ◌∷◌, ◌++◌,
  Option, none, some, ok, arith, length, take, drop, length-append, drop-nil,
}
use bitfs.Base.Int.{pos}
use bitfs.Base.Bytes.{
  bytes, length-bytes, bytes-append, take_all, take-append_exact, splice, length-splice,
  splice-splice, splice_nil,
}
use bitfs.PeerWire.{BlockRequest, block_size, MetainfoInfo, wire_piece_size, wire_piece_size_known}
use bitfs.PeerWire.Socket.{Socket, tcp_send, IsPeer}
use bitfs.PeerWire.Messages.{htonl, request_msg}
use bitfs.PeerWire.Protocol.{
  Message, choked, unchoked, interest, asks_for, parse_message, parse_message-request_msg,
}
use bitfs.PeerWire.Blocks.{get_block, get_blocks, get_piece}
use bitfs.PeerWire.Receive.{store_inside, get_block-ends}

-- The 13 bytes in front of a block: the length of what follows, the type 7, the piece and the begin.
unfoldable pub piece_header : BlockRequest → List ℕ
unfolding htonl
piece_header r = htonl (9 + r.length) ++ (0x7 ∷ (htonl r.index ++ htonl r.begin))

module _ (content : ℕ → ℕ → ℕ) where
  -- By the protocol a peer answers a request with the block of the piece, whose byte at an offset
  -- is `content`, and nothing else that this client sends.
  abbrev pub answer_to : Option Message → List ℕ
  answer_to (some (asks_for r)) = piece_header r ++ bytes (content r.index) r.begin r.length
  answer_to (some choked) = []
  answer_to (some unchoked) = []
  answer_to (some interest) = []
  answer_to none = []

  abbrev pub seeder_answer : List ℕ → List ℕ
  seeder_answer bs = answer_to (parse_message bs)

pub drop_all : (n : ℕ) (xs : List ℕ) → length xs ≡ n → drop n xs ≡ []
drop_all n [] e = drop-nil ℕ n
drop_all zero (x ∷ xs) e = absurd (omega arith)
drop_all (suc n) (x ∷ xs) e = drop_all n xs (omega arith)

header_length : (r : BlockRequest) → length (piece_header r) ≡ 13
unfolding piece_header htonl
header_length r = refl

-- The block behind the header of a message that was received into a longer buffer.
block_of :
    (r : BlockRequest) (bs fresh : List ℕ) (size : ℕ)
    → length bs ≡ r.length
    → size ≡ r.length + 13
    → take r.length (drop 13 (splice fresh 0 (take size (piece_header r ++ bs)))) ≡ bs
unfolding piece_header htonl splice
block_of r bs fresh size e f =
    rw
      (take_all size (piece_header r ++ bs)
        (omega (arith, e, f, length-append {0} (piece_header r) bs)))
      (take-append_exact r.length bs _ e)

module _ (K : Socket) (malloc : ℕ → List ℕ) (fresh : (n : ℕ) → length (malloc n) ≡ n)
    (content : ℕ → ℕ → ℕ) (P : IsPeer K (seeder_answer content)) (recvs : ℕ)
    (enough_recvs : block_size + 13 ≤ recvs) where
  -- One request and its answer, where nothing is on the way before.
  one_block :
      (r : BlockRequest) (s : K.State)
      → r.index < 2 ^ 32
      → r.begin < 2 ^ 32
      → r.length ≤ block_size
      → P.incoming s ≡ []
      → (blk : List ℕ) × (t : K.State) × (get_block K malloc recvs
            (r.length + 13)
            (tcp_send K (request_msg r) s).1
          ≡ ok (blk, t))
        × (take r.length (drop 13 blk) ≡ bytes (content r.index) r.begin r.length)
        × (P.incoming t ≡ [])
  unfolding tcp_send
  one_block r s small_index small_begin small idle =
      let (u, e, queued) = P.write_all s (request_msg r) in
      let block = bytes (content r.index) r.begin r.length in
      let answer = piece_header r ++ block in
      let sent : P.incoming u ≡ answer =
        queued
        ∙ ap (λ xs. xs ++ seeder_answer content (request_msg r)) idle
        ∙ ap (answer_to content)
            (parse_message-request_msg r small_index small_begin (omega arith)) in
      let block_size_known : length block ≡ r.length =
        length-bytes (content r.index) r.begin r.length in
      let size : length answer ≡ r.length + 13 =
        omega (arith, length-append {0} (piece_header r) block, header_length r) in
      let there : r.length + 13 ≤ length (P.incoming u) = omega (arith, ap length sent) in
      let (t, f, rest) =
        get_block-ends K malloc P fresh recvs (r.length + 13) u (omega arith) there in
      (
        splice (malloc (r.length + 13 + 128)) 0 (take (r.length + 13) (P.incoming u)),
        t,
        ap (λ q. get_block K malloc recvs (r.length + 13) q.1) e ∙ f,
        ap
              (λ xs.
                take r.length
                  (drop 13 (splice (malloc (r.length + 13 + 128)) 0 (take (r.length + 13) xs))))
              sent
            ∙ block_of r block (malloc (r.length + 13 + 128)) (r.length + 13) block_size_known refl,
        rest ∙ ap (drop (r.length + 13)) sent ∙ drop_all (r.length + 13) answer size,
      )

  get_blocks-ends :
      (fuel piece remaining offset : ℕ) (piece_buf : List ℕ) (s : K.State)
      → remaining ≤ fuel
      → piece < 2 ^ 32
      → offset + remaining ≤ 2 ^ 32
      → offset + remaining ≤ length piece_buf
      → P.incoming s ≡ []
      → (t : K.State) × (get_blocks K malloc fuel recvs piece remaining offset piece_buf s
          ≡ ok (splice piece_buf offset (bytes (content piece) offset remaining), t))
        × (P.incoming t ≡ [])
  unfolding get_blocks bytes
  get_blocks-ends fuel piece zero offset piece_buf s enough small fits room idle =
      (s, ap (λ b. ok (b, s)) (sym (splice_nil piece_buf offset)), idle)
  get_blocks-ends zero piece (suc remaining) offset piece_buf s enough small fits room idle =
      absurd (omega arith)
  get_blocks-ends (suc fuel) piece (suc remaining) offset piece_buf s enough small fits room idle =
      let read_size = min (suc remaining) block_size in
      let r : BlockRequest = record { index = piece; begin = offset; length = read_size } in
      let block = bytes (content piece) offset read_size in
      let size : length block ≡ read_size = length-bytes (content piece) offset read_size in
      let buf' = splice piece_buf offset block in
      let same_size : length buf' ≡ length piece_buf =
        length-splice piece_buf offset block (omega arith) in
      let (blk, t, e, got_block, idle') = one_block r s small (omega arith) (omega arith) idle in
      let (u, f, idle'') =
        get_blocks-ends fuel piece (suc remaining - read_size) (offset + read_size) buf' t
          (omega arith) small (omega arith) (omega arith) idle' in
      let joined : splice buf' (offset + read_size)
            (bytes (content piece) (offset + read_size) (suc remaining - read_size))
          ≡ splice piece_buf offset (bytes (content piece) offset (suc remaining)) =
        splice-splice piece_buf offset (offset + read_size) block _ (omega arith) (omega arith)
        ∙ ap (splice piece_buf offset) (
            bytes-append (content piece) offset read_size (suc remaining - read_size)
              (offset + read_size) (suc remaining) refl (omega arith)) in
      (
        u,
        rw (e, got_block, store_inside piece_buf offset block (omega arith)) f
            ∙ ap (λ b. ok (b, u)) joined,
        idle'',
      )

  -- Against a peer that answers each request with its block, and from which nothing is on its way,
  -- for a piece of the torrent, where the last piece begins inside the file and the numbers fit 32
  -- bits, with memory of the size asked for, and with fuel for piece_length and for one message:
  -- get_piece ends, however the answers are split up over the reads, and the bytes of the piece, as
  -- many as piece_size says, stand at the start of its buffer, and nothing is left to read.
  pub get_piece_correct :
      (fuel piece : ℕ) (info : MetainfoInfo) (s : K.State)
      → info.piece_length ≤ fuel
      → info.piece_length ≤ 2 ^ 32
      → piece < 2 ^ 32
      → piece < info.num_pieces
      → info.piece_length * info.num_pieces < info.file_length + info.piece_length
      → P.incoming s ≡ []
      → (n : ℕ) × (t : K.State) × (wire_piece_size piece info ≡ pos n)
        × (get_piece K malloc fuel recvs piece info s
            ≡ ok (splice (malloc info.piece_length) 0 (bytes (content piece) 0 n), t))
        × (P.incoming t ≡ [])
  unfolding get_piece
  get_piece_correct fuel piece info s enough fits small known lasting idle =
      let n = min (info.file_length - info.piece_length * piece) info.piece_length in
      let size = wire_piece_size_known piece info known lasting in
      let (t, e, idle') =
        get_blocks-ends fuel piece n 0 (malloc info.piece_length) s (omega arith) small
          (omega arith) (omega (arith, fresh info.piece_length)) idle in
      (n, t, size, rw size e, idle')
