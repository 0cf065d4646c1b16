-- ===== src/PeerWire/Unchoke.antt =====
-- get_piece of bt_lib.c behind a message that nobody has read: main of btclient/bt_client.c calls it
-- with the unchoke of the peer still on its way.
use bitfs.Base.{
  ℕ, zero, suc, ◌+◌, ◌-◌, ◌*◌, ◌^◌, min, ◌≤◌, ◌<◌, ◌≡◌, refl, sym, ap, ◌∙◌, List, [], ◌∷◌, ◌++◌, ok,
  arith, length, take, drop, length-take,
}
use bitfs.Base.Int.{pos}
use bitfs.Base.Bytes.{bytes, length-bytes, take-append_exact, splice, splice_nil}
use bitfs.PeerWire.{BlockRequest, block_size, MetainfoInfo, wire_piece_size, wire_piece_size_known}
use bitfs.PeerWire.Socket.{Socket, tcp_send, IsPeer}
use bitfs.PeerWire.Messages.{bt_msg, htonl, request_msg}
use bitfs.PeerWire.Protocol.{parse_message-request_msg}
use bitfs.PeerWire.Blocks.{get_block, get_blocks, get_piece}
use bitfs.PeerWire.Receive.{store_inside, get_block-ends}
use bitfs.PeerWire.Download.{piece_header, answer_to, seeder_answer}

-- What stands behind the first k bytes of a longer run that was cut.
window :
    (k n size : ℕ) (xs ys : List ℕ)
    → size ≡ n + k
    → size ≤ length xs
    → take n (drop k (take size xs ++ ys)) ≡ take n (drop k xs)
window zero n size xs ys e h =
    let same : size ≡ n = omega arith in
    rw same (take-append_exact n (take n xs) ys (omega (arith, length-take n xs)))
window (suc k) n zero xs ys e h = absurd (omega arith)
window (suc k) n (suc size) [] ys e h = absurd (omega arith)
window (suc k) n (suc size) (x ∷ xs) ys e h = window k n size xs ys (omega arith) (omega arith)

splice_front : (buf bs : List ℕ) → splice buf 0 bs ≡ bs ++ drop (0 + length bs) buf
unfolding splice
splice_front buf bs = refl

-- The message of type 1, as bt_unchoke sends it, too.
abbrev pub unchoke_bytes : List ℕ
unchoke_bytes = bt_msg 1 1

-- The last five bytes of the header, and the block.
abbrev pub shifted : BlockRequest → List ℕ → List ℕ
shifted r block = drop 8 (piece_header r) ++ block

-- Behind the unchoke and eight bytes of the header.
behind_header :
    (r : BlockRequest) (block : List ℕ)
    → drop 13 (unchoke_bytes ++ (piece_header r ++ block)) ≡ shifted r block
unfolding piece_header htonl bt_msg
behind_header r block = refl

unread_size :
    (r : BlockRequest) (block : List ℕ)
    → length (unchoke_bytes ++ (piece_header r ++ block)) ≡ length block + 18
unfolding piece_header htonl bt_msg
unread_size r block = omega arith

-- It has at least the bytes of the block.
pub length-shifted :
    (r : BlockRequest) (n : ℕ) (block : List ℕ)
    → length block ≡ n
    → length (take n (shifted r block)) ≡ n
unfolding piece_header htonl
length-shifted r n block e = omega (arith, length-take n (shifted r block))

module _ (K : Socket) (malloc : ℕ → List ℕ) (fresh : (n : ℕ) → length (malloc n) ≡ n)
    (content : ℕ → ℕ → ℕ) (P : IsPeer K (seeder_answer content)) (recvs : ℕ)
    (enough_recvs : block_size + 13 ≤ recvs) where
  -- One request, and what get_block takes for its answer.
  one_block_shifted :
      (r : BlockRequest) (s : K.State)
      → r.index < 2 ^ 32
      → r.begin < 2 ^ 32
      → r.length ≤ block_size
      → P.incoming s ≡ unchoke_bytes
      → (blk : List ℕ) × (t : K.State) × (get_block K malloc recvs
            (r.length + 13)
            (tcp_send K (request_msg r) s).1
          ≡ ok (blk, t))
        × (take r.length (drop 13 blk)
            ≡ take r.length (shifted r (bytes (content r.index) r.begin r.length)))
  unfolding tcp_send
  one_block_shifted r s small_index small_begin small early =
      let n = r.length in
      let block = bytes (content r.index) r.begin n in
      let (u, e, queued) = P.write_all s (request_msg r) in
      let stream = unchoke_bytes ++ (piece_header r ++ block) in
      let sent : P.incoming u ≡ stream =
        queued
        ∙ ap (λ xs. xs ++ seeder_answer content (request_msg r)) early
        ∙ ap (λ a. unchoke_bytes ++ answer_to content a)
            (parse_message-request_msg r small_index small_begin (omega arith)) in
      let size : length stream ≡ n + 18 =
        omega (arith, unread_size r block, length-bytes (content r.index) r.begin n) in
      let (t, f, _) =
        get_block-ends K malloc P fresh recvs (n + 13) u (omega arith)
          (omega (arith, ap length sent)) in
      (
        splice (malloc (n + 13 + 128)) 0 (take (n + 13) (P.incoming u)),
        t,
        ap (λ q. get_block K malloc recvs (n + 13) q.1) e ∙ f,
        ap (λ xs. take n (drop 13 xs)) (splice_front _ _)
            ∙ window 13 n (n + 13) (P.incoming u) _ refl (omega (arith, ap length sent))
            ∙ ap (λ xs. take n (drop 13 xs)) sent
            ∙ ap (take n) (behind_header r block),
      )

  get_blocks-shifted :
      (fuel piece n : ℕ) (piece_buf : List ℕ) (s : K.State)
      → n ≤ fuel
      → n ≤ block_size
      → piece < 2 ^ 32
      → 0 < 2 ^ 32
      → n ≤ length piece_buf
      → P.incoming s ≡ unchoke_bytes
      → (t : K.State) × (get_blocks K malloc fuel recvs piece n 0 piece_buf s
          ≡ ok (
            splice piece_buf 0 (
                take n (
                  shifted
                    (record { index = piece; begin = 0; length = n })
                    (bytes (content piece) 0 n))),
            t,
          ))
  unfolding get_blocks
  get_blocks-shifted fuel piece zero piece_buf s enough one small positive room early =
      (s, ap (λ b. ok (b, s)) (sym (splice_nil piece_buf 0)))
  get_blocks-shifted zero piece (suc m) piece_buf s enough one small positive room early =
      absurd (omega arith)
  get_blocks-shifted (suc fuel) piece (suc m) piece_buf s enough one small positive room early =
      let n = suc m in
      let r : BlockRequest = record { index = piece; begin = 0; length = n } in
      let answer = take n (shifted r (bytes (content piece) 0 n)) in
      let (blk, t, e, got_bytes) = one_block_shifted r s small positive one early in
      let whole : min n block_size ≡ n = omega arith in
      let inside : 0 + length answer ≤ length piece_buf =
        omega (arith, length-take n (shifted r (bytes (content piece) 0 n))) in
      let none_left : n - n ≡ 0 = omega arith in
      (t, rw (whole, e, got_bytes, store_inside piece_buf 0 answer inside, none_left) refl)

  -- Against a peer that answers each request with its block, and whose unchoke (the message of type
  -- 1) nobody has read, for a piece of the torrent, where piece_length is at most that of one block and
  -- the last piece begins inside the file, with memory of the size asked for, and with fuel for
  -- piece_length and for one message: get_piece ends, and what it returns for the piece are, as many
  -- bytes as piece_size says, first the last five bytes of the header of the answer, and behind them the bytes of the piece from its first one on.
  pub get_piece_unchoked :
      (fuel piece : ℕ) (info : MetainfoInfo) (s : K.State)
      → info.piece_length ≤ fuel
      → info.piece_length ≤ block_size
      → piece < 2 ^ 32
      → piece < info.num_pieces
      → info.piece_length * info.num_pieces < info.file_length + info.piece_length
      → P.incoming s ≡ unchoke_bytes
      → (n : ℕ) × (t : K.State) × (wire_piece_size piece info ≡ pos n)
        × (get_piece K malloc fuel recvs piece info s
            ≡ ok (
              splice (malloc info.piece_length) 0 (
                  take n (
                    drop 8 (piece_header (record { index = piece; begin = 0; length = n }))
                    ++ bytes (content piece) 0 n)),
              t,
            ))
  unfolding get_piece
  get_piece_unchoked fuel piece info s enough one small known lasting early =
      let n = min (info.file_length - info.piece_length * piece) info.piece_length in
      let size = wire_piece_size_known piece info known lasting in
      let (t, e) =
        get_blocks-shifted fuel piece n (malloc info.piece_length) s (omega arith) (omega arith)
          small (omega arith) (omega (arith, fresh info.piece_length)) early in
      (n, t, size, rw size e)
