-- ===== src/PeerWire/Receive.antt =====
-- get_block against a peer: reads that bring the bytes in parts.
use bitfs.Base.{
  ℕ, zero, suc, ◌+◌, ◌-◌, ◌≤◌, ◌<◌, ◌≡◌, refl, sym, ap, ◌∙◌, List, [], ◌∷◌, ◌++◌, ok, timeout,
  arith, length, take, drop, length-take, length-drop, drop-drop, le→ltb,
}
use bitfs.Base.Int.{pos, +ℤ-pos}
use bitfs.Base.Bytes.{splice, length-splice, splice-splice, splice_nil}
use bitfs.PeerWire.Socket.{Socket, Received, got, tcp_recv, IsPeer}
use bitfs.PeerWire.Blocks.{store, recv_block, get_block}

take-take-drop : (k m n : ℕ) (xs : List ℕ) → k + m ≡ n → take k xs ++ take m (drop k xs) ≡ take n xs
take-take-drop zero m n xs e = let e' : m ≡ n = omega arith in rw e'
take-take-drop (suc k) m zero xs e = absurd (omega arith)
take-take-drop (suc k) zero (suc n) [] e = refl
take-take-drop (suc k) (suc m) (suc n) [] e = refl
take-take-drop (suc k) m (suc n) (x ∷ xs) e = ap (◌∷◌ x) (take-take-drop k m n xs (omega arith))

pub store_inside :
    (buf : List ℕ) (o : ℕ) (bs : List ℕ)
    → o + length bs ≤ length buf
    → store buf (pos o) bs ≡ ok (splice buf o bs)
unfolding store
store_inside buf o bs h = rw (le→ltb (length buf) (o + length bs) h) refl

module _ (K : Socket) (malloc : ℕ → List ℕ) where
  recv_block_got :
      (fuel remaining : ℕ) (buf buf' bs : List ℕ) (o : ℕ) (s : K.State)
      → (K.read s (suc remaining)).0 ≡ got bs
      → store buf (pos o) bs ≡ ok buf'
      → recv_block K malloc (suc fuel) (suc remaining) buf (pos o) s
        ≡ recv_block K malloc fuel
            (suc remaining - length bs)
            buf'
            (pos (o + length bs))
            (K.read s (suc remaining)).1
  unfolding recv_block tcp_recv
  recv_block_got fuel remaining buf buf' bs o s e f =
      let t = (K.read s (suc remaining)).1 in
      rw (e, recv_block, f)
        (ap (λ z. recv_block K malloc fuel (suc remaining - length bs) buf' z t)
          (+ℤ-pos o (length bs)))

  recv_block_step :
      (fuel remaining : ℕ) (buf buf' bs : List ℕ) (o : ℕ) (s t : K.State)
      → K.read s (suc remaining) ≡ (got bs, t)
      → store buf (pos o) bs ≡ ok buf'
      → recv_block K malloc (suc fuel) (suc remaining) buf (pos o) s
        ≡ recv_block K malloc fuel (suc remaining - length bs) buf' (pos (o + length bs)) t
  recv_block_step fuel remaining buf buf' bs o s t e f =
      recv_block_got fuel remaining buf buf' bs o s (ap (λ r. r.0) e) f
      ∙ ap
          (λ (r : Received × K.State).
            recv_block K malloc fuel (suc remaining - length bs) buf' (pos (o + length bs)) r.1)
          e

module _ (K : Socket) (malloc : ℕ → List ℕ) {answer : List ℕ → List ℕ} (P : IsPeer K answer) where
  pub recv_block-ends :
      (fuel remaining o : ℕ) (buf : List ℕ) (s : K.State)
      → remaining ≤ fuel
      → remaining ≤ length (P.incoming s)
      → o + remaining ≤ length buf
      → (t : K.State) × (recv_block K malloc fuel remaining buf (pos o) s
          ≡ ok (splice buf o (take remaining (P.incoming s)), t))
        × (P.incoming t ≡ drop remaining (P.incoming s))
  unfolding recv_block
  recv_block-ends fuel zero o buf s enough there room =
      (s, ap (λ b. ok (b, s)) (sym (splice_nil buf o)), refl)
  recv_block-ends zero (suc remaining) o buf s enough there room = absurd (omega arith)
  recv_block-ends (suc fuel) (suc remaining) o buf s enough there room =
      let (k, t, some_bytes, asked, sent, e, rest) =
        P.read_some s (suc remaining) (omega arith) (omega arith) in
      let part = take k (P.incoming s) in
      let buf' = splice buf o part in
      let size : length part ≡ k = omega (arith, length-take k (P.incoming s)) in
      let left : length (P.incoming t) ≡ length (P.incoming s) - k =
        ap length rest ∙ length-drop k (P.incoming s) in
      let same_size : length buf' ≡ length buf = length-splice buf o part (omega arith) in
      let (u, f, rest') =
        recv_block-ends fuel (suc remaining - length part) (o + length part) buf' t (omega arith)
          (omega arith) (omega arith) in
      let joined : part ++ take (suc remaining - length part) (P.incoming t)
          ≡ take (suc remaining) (P.incoming s) =
        ap (λ xs. part ++ take (suc remaining - length part) xs) rest
        ∙ take-take-drop k (suc remaining - length part) (suc remaining) (P.incoming s)
            (omega arith) in
      (
        u,
        recv_block_step K malloc fuel remaining buf buf' part o s t e
              (store_inside buf o part (omega arith))
            ∙ f
            ∙ ap (λ b. ok (b, u))
                (splice-splice buf o (o + length part) part _ refl (omega arith)
                  ∙ ap (splice buf o) joined),
        rest'
            ∙ ap (drop (suc remaining - length part)) rest
            ∙ drop-drop (suc remaining - length part) k (suc remaining) (P.incoming s)
                (omega arith),
      )

  -- Against a peer that has sent enough, with fuel for the bytes asked for and memory of the size
  -- asked for, get_block ends, however the bytes are split up over the reads, with exactly these
  -- bytes at the start of its buffer, and leaves what was sent behind them.
  pub get_block-ends :
      ((n : ℕ) → length (malloc n) ≡ n)
      → (fuel size : ℕ) (s : K.State) → size ≤ fuel
      → size ≤ length (P.incoming s)
      → (t : K.State) × (get_block K malloc fuel size s
          ≡ ok (splice (malloc (size + 128)) 0 (take size (P.incoming s)), t))
        × (P.incoming t ≡ drop size (P.incoming s))
  unfolding get_block
  get_block-ends fresh fuel size s enough there =
      recv_block-ends fuel size 0 (malloc (size + 128)) s enough there
        (omega (arith, fresh (size + 128)))

module _ (K : Socket) (malloc : ℕ → List ℕ) where
  recv_block_closed :
      (fuel remaining o : ℕ) (buf : List ℕ) (s : K.State)
      → ((t : K.State) (n : ℕ) → (K.read t n).0 ≡ got [])
      → o ≤ length buf
      → recv_block K malloc fuel (suc remaining) buf (pos o) s ≡ timeout
  unfolding recv_block
  recv_block_closed zero remaining o buf s closed room = refl
  recv_block_closed (suc fuel) remaining o buf s closed room =
      let t = (K.read s (suc remaining)).1 in
      recv_block_got K malloc fuel remaining buf (splice buf o []) [] o s (closed s (suc remaining))
        (store_inside buf o [] (omega arith))
      ∙ (let same_size : suc remaining - 0 ≡ suc remaining = omega arith in
          let same_place : o + 0 ≡ o = omega arith in
          rw (same_size, same_place, splice_nil buf o)
            (recv_block_closed fuel remaining o buf t closed room))

  -- On a connection on which every read brings no bytes, as when the other side has closed it,
  -- get_block of a size above 0 does not end: it uses up any amount of fuel.
  pub get_block_closed :
      (fuel size : ℕ) (s : K.State)
      → ((t : K.State) (n : ℕ) → (K.read t n).0 ≡ got [])
      → 0 < size
      → get_block K malloc fuel size s ≡ timeout
  unfolding get_block
  get_block_closed fuel zero s closed h = absurd (omega arith)
  get_block_closed fuel (suc size) s closed h =
      recv_block_closed fuel size 0 (malloc (suc size + 128)) s closed (omega arith)
