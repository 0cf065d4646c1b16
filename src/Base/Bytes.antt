-- ===== src/Base/Bytes.antt =====
-- Runs of bytes, and a memcpy into the middle of a buffer.
use bitfs.Base.{
  ℕ, zero, suc, ◌+◌, ◌≤◌, ◌≡◌, refl, ap, List, [], ◌∷◌, ◌++◌, append_assoc, arith, length, take,
  drop, length-append, length-take, length-drop, take-append, drop-append, drop-drop,
  take-append-drop,
}

-- The n bytes from position o on.
unfoldable pub bytes : (ℕ → ℕ) → ℕ → ℕ → List ℕ
bytes content o zero = []
bytes content o (suc n) = content o ∷ bytes content (o + 1) n

module _ (content : ℕ → ℕ) where
  pub length-bytes : (o n : ℕ) → length (bytes content o n) ≡ n
  unfolding bytes
  length-bytes o zero = refl
  length-bytes o (suc n) = ap suc (length-bytes (o + 1) n)

  pub bytes_at : (o p n : ℕ) → o ≡ p → bytes content o n ≡ bytes content p n
  bytes_at o p n e = rw e

  pub bytes-append :
      (o m n k j : ℕ)
      → o + m ≡ k
      → m + n ≡ j
      → bytes content o m ++ bytes content k n ≡ bytes content o j
  unfolding bytes
  bytes-append o zero n k j e f =
      let e' : o ≡ k = omega arith in let f' : n ≡ j = omega arith in rw (e', f')
  bytes-append o (suc m) n k zero e f = absurd (omega arith)
  bytes-append o (suc m) n k (suc j) e f =
      ap (◌∷◌ (content o)) (bytes-append (o + 1) m n k j (omega arith) (omega arith))

  take-bytes : (o k n : ℕ) → k ≤ n → take k (bytes content o n) ≡ bytes content o k
  unfolding bytes
  take-bytes o zero n h = refl
  take-bytes o (suc k) zero h = absurd (omega arith)
  take-bytes o (suc k) (suc n) h = ap (◌∷◌ (content o)) (take-bytes (o + 1) k n (omega arith))

  -- A part of a run is a run.
  pub slice-bytes :
      (o start k n p : ℕ)
      → start + k ≤ n
      → o + start ≡ p
      → take k (drop start (bytes content o n)) ≡ bytes content p k
  unfolding bytes
  slice-bytes o zero k n p h e =
      let e' : o ≡ p = omega arith in rw (← e') (take-bytes o k n (omega arith))
  slice-bytes o (suc start) k zero p h e = absurd (omega arith)
  slice-bytes o (suc start) k (suc n) p h e =
      slice-bytes (o + 1) start k n p (omega arith) (omega arith)

-- memcpy of the bytes bs to position i of a buffer that is long enough.
unfoldable pub splice : List ℕ → ℕ → List ℕ → List ℕ
splice buf i bs = take i buf ++ (bs ++ drop (i + length bs) buf)

pub take_all : (n : ℕ) (xs : List ℕ) → length xs ≡ n → take n xs ≡ xs
take_all zero [] e = refl
take_all zero (x ∷ xs) e = absurd (omega arith)
take_all (suc n) [] e = refl
take_all (suc n) (x ∷ xs) e = ap (◌∷◌ x) (take_all n xs (omega arith))

pub take-append_exact : (n : ℕ) (xs ys : List ℕ) → length xs ≡ n → take n (xs ++ ys) ≡ xs
take-append_exact n xs ys e = rw (← e) (take-append xs ys)

pub length-splice :
    (buf : List ℕ) (i : ℕ) (bs : List ℕ)
    → i + length bs ≤ length buf
    → length (splice buf i bs) ≡ length buf
unfolding splice
length-splice buf i bs h = omega (
  arith,
  length-append (take i buf) (bs ++ drop (i + length bs) buf),
  length-append bs (drop (i + length bs) buf),
  length-take i buf,
  length-drop (i + length bs) buf,
)

-- Two copies one after the other are one copy.
pub splice-splice :
    (buf : List ℕ) (i j : ℕ) (xs ys : List ℕ)
    → i + length xs ≡ j
    → j ≤ length buf
    → splice (splice buf i xs) j ys ≡ splice buf i (xs ++ ys)
unfolding splice
splice-splice buf i j xs ys e h =
    rw (← append_assoc (take i buf) xs rest, take-append_exact j (take i buf ++ xs) rest front)
      (rw
        (
          drop-append (length ys) (j + length ys) (take i buf ++ xs) rest (omega (arith, front)),
          drop-drop (length ys) (i + length xs) (i + length (xs ++ ys)) buf
              (omega (arith, length-append xs ys)),
          append_assoc,
          append_assoc,
        )
        refl)
  where
    rest : List ℕ
    rest = drop (i + length xs) buf

    front : length (take i buf ++ xs) ≡ j
    front = omega (arith, length-append (take i buf) xs, length-take i buf)

pub splice_nil : (buf : List ℕ) (i : ℕ) → splice buf i [] ≡ buf
unfolding splice
splice_nil buf i = let e : i + 0 ≡ i = omega arith in rw e (take-append-drop i buf)
