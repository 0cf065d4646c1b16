-- ===== src/PeerWire/Peers.antt =====
-- get_peer_list of bt_lib.c: the file "peerlist", a line for each peer.
use bitfs.Base.{
  ℕ, zero, suc, ◌+◌, ◌-◌, ◌≤◌, ◌<◌, ◌≡◌, ◌⊎◌, inl, inr, ◌*◌, refl, ap, ◌∙◌, List, [], ◌∷◌, ◌++◌,
  Bool, true, false, ok, fault, timeout, Outcome, ◌>>=◌, arith, length, take, append_assoc,
  append-nil, length-append, sym, ltb, ◌==◌, if◌then◌else◌, le→ltb, lt→ltb,
}
use native.Mathlib.Decide.{dec_lt}
use bitfs.Base.Text.{Text, Lacks, NoNul}

abbrev pub newline : ℕ
newline = 10

-- The loop over the bytes of a line: the line, what is left of the file, and whether a newline was
-- read (else the file has ended, which a failed open looks like, too). read sets the low byte of the
-- int ch; `upper` is what its three upper bytes hold, which nothing sets.
unfoldable pub read_line : ℕ → Text → Text × Text × Bool
read_line upper [] = ([], [], false)
read_line upper (ch ∷ file) =
    let (line, rest, ended) = read_line upper file in
    if 256 * upper + ch == newline then ([], file, true) else (ch ∷ line, rest, ended)

-- strncpy(dst, src, n): up to a NUL of src, and zeros behind it.
unfoldable pub strncpy : Text → ℕ → Text
strncpy src zero = []
strncpy [] (suc n) = 0 ∷ strncpy [] n
strncpy (c ∷ src) (suc n) = if c == 0 then 0 ∷ strncpy [] n else c ∷ strncpy src n

-- One round of the loop: the list, what is left of the file, and whether the loop goes on. The 1024
-- bytes of buf hold a line with its NUL, and url has 64 bytes.
unfoldable pub add_peer : Text × Text × Bool → List Text → Outcome (List Text × Text × Bool)
unfolding strncpy
add_peer (line, rest, ended) urls =
    if ltb 1023 (length line)
    then fault
    else if ended
    then (if ltb (length urls) 50
        then (if ltb 64 (length line)
            then fault
            else ok (urls ++ (strncpy line (length line) ∷ []), rest, true))
        else ok (urls, rest, false))
    else ok (urls, rest, false)

-- The rounds from round k on, in which ch has the upper bytes `upper k`.
unfoldable pub read_peers : (ℕ → ℕ) → ℕ → ℕ → Text → List Text → Outcome (List Text)
unfolding add_peer read_line
read_peers upper zero k file urls = timeout
read_peers upper (suc fuel) k file urls =
    add_peer (read_line (upper k) file) urls >>= λ (urls', rest, goes_on).
    let more = read_peers upper fuel (k + 1) rest urls' in if goes_on then more else ok urls'

-- peer_list *get_peer_list(): the url of each peer. A round takes a byte of the file at least.
unfoldable pub get_peer_list : (ℕ → ℕ) → Text → Outcome (List Text)
unfolding read_peers
get_peer_list upper file = read_peers upper (suc (length file)) 0 file []

-- The lines of a file, each with its newline.
abbrev pub unlines : List Text → Text
unlines [] = []
unlines (u ∷ us) = u ++ (newline ∷ unlines us)

-- No newline, no NUL, and 64 bytes at most.
abbrev pub IsUrl : Text → Type 0
IsUrl u = Lacks newline u × NoNul u × (length u ≤ 64)

abbrev pub AllUrls : List Text → Type 0
AllUrls [] = Unit
AllUrls (u ∷ us) = IsUrl u × AllUrls us

read_line-append :
    (u rest : Text) → Lacks newline u → read_line 0 (u ++ (newline ∷ rest)) ≡ (u, rest, true)
unfolding read_line
read_line-append [] rest h = refl
read_line-append (c ∷ u) rest h = ground (arith, read_line-append u rest h.1)

read_line_last : (t : Text) → Lacks newline t → read_line 0 t ≡ (t, [], false)
unfolding read_line
read_line_last [] h = refl
read_line_last (c ∷ t) h = ground (arith, read_line_last t h.1)

-- With another upper byte than 0 no line ends.
read_line_upper : (upper : ℕ) (t : Text) → 0 < upper → read_line upper t ≡ (t, [], false)
unfolding read_line
read_line_upper upper [] h = refl
read_line_upper upper (c ∷ t) h = ground (arith, read_line_upper upper t h)

pub strncpy_id : (u : Text) → NoNul u → strncpy u (length u) ≡ u
unfolding strncpy
strncpy_id [] h = refl
strncpy_id (c ∷ u) h = ground (arith, strncpy_id u h.1)

add_peer_room :
    (u rest : Text) (urls : List Text)
    → IsUrl u
    → length urls < 50
    → add_peer (u, rest, true) urls ≡ ok (urls ++ (u ∷ []), rest, true)
unfolding add_peer
add_peer_room u rest urls (_, clean, short) room =
    rw
      (
        le→ltb 1023 (length u) (omega arith),
        lt→ltb _ _ room,
        le→ltb 64 (length u) short,
        strncpy_id u clean,
      )
      refl

add_peer_full :
    (u rest : Text) (urls : List Text)
    → length u ≤ 1023
    → 50 ≤ length urls
    → add_peer (u, rest, true) urls ≡ ok (urls, rest, false)
unfolding add_peer
add_peer_full u rest urls short full =
    rw (le→ltb 1023 (length u) short, le→ltb (length urls) 50 full) refl

add_peer_last :
    (t rest : Text) (urls : List Text)
    → length t ≤ 1023
    → add_peer (t, rest, false) urls ≡ ok (urls, rest, false)
unfolding add_peer
add_peer_last t rest urls short = rw (le→ltb 1023 (length t) short) refl

append_take-nil : (n : ℕ) (xs : List Text) → xs ++ take n [] ≡ xs
append_take-nil zero xs = append-nil xs
append_take-nil (suc n) xs = append-nil xs

module _ (upper : ℕ → ℕ) (clear : (k : ℕ) → upper k ≡ 0) (tail : Text)
    (open_line : Lacks newline tail) (short : length tail ≤ 1023) where
  read_peers-unlines :
      (us : List Text) (fuel k : ℕ) (urls : List Text)
      → AllUrls us
      → length (unlines us ++ tail) < fuel
      → length urls ≤ 50
      → read_peers upper fuel k (unlines us ++ tail) urls ≡ ok (urls ++ take (50 - length urls) us)
  unfolding read_peers
  read_peers-unlines us zero k urls h enough few = absurd (omega arith)
  read_peers-unlines [] (suc fuel) k urls h enough few =
      rw (clear k, read_line_last tail open_line, add_peer_last tail [] urls short)
        (ap (λ xs. ok xs) (sym (append_take-nil (50 - length urls) urls)))
  read_peers-unlines (u ∷ us) (suc fuel) k urls (url, h) enough few =
      let rest = unlines us ++ tail in
      let line : read_line 0 ((u ++ (newline ∷ unlines us)) ++ tail) ≡ (u, rest, true) =
        ap (read_line 0) (append_assoc u (newline ∷ unlines us) tail)
        ∙ read_line-append u rest url.0 in
      let size : length ((u ++ (newline ∷ unlines us)) ++ tail) ≡ length u + suc (length rest) =
        ap length (append_assoc u (newline ∷ unlines us) tail) ∙ length-append u (newline ∷ rest) in
      elim (dec_lt (length urls) 50) [
        | yes room ↦
            let more : length (urls ++ (u ∷ [])) ≡ length urls + 1 = length-append urls (u ∷ []) in
            let left : suc (50 - length (urls ++ (u ∷ []))) ≡ 50 - length urls = omega arith in
            rw (clear k, line, add_peer_room u rest urls url room)
              (read_peers-unlines us fuel (k + 1) (urls ++ (u ∷ [])) h (omega arith) (omega arith)
                ∙ ap (λ xs. ok xs)
                    (append_assoc urls (u ∷ []) (take (50 - length (urls ++ (u ∷ []))) us)
                      ∙ ap (λ n. urls ++ take n (u ∷ us)) left))
        | no full ↦
            let none_left : 0 ≡ 50 - length urls = omega arith in
            rw (clear k, line, add_peer_full u rest urls (omega arith) (omega arith))
              (ap (λ xs. ok xs)
                (sym (append-nil urls) ∙ ap (λ n. urls ++ take n (u ∷ us)) none_left))
      ]

  -- Where the upper bytes of ch, which nothing sets, are 0 in every round, for a file of lines of at
  -- most 64 bytes without NUL, each with its newline, and perhaps a last line without one, of at most
  -- 1023 bytes: get_peer_list gives the first fifty lines, in their order, and drops the last line
  -- without a newline.
  pub get_peer_list-unlines :
      (us : List Text) → AllUrls us → get_peer_list upper (unlines us ++ tail) ≡ ok (take 50 us)
  unfolding get_peer_list
  get_peer_list-unlines us h =
      read_peers-unlines us (suc (length (unlines us ++ tail))) 0 [] h (omega arith) (omega arith)

-- Where one of the upper bytes of ch, which nothing sets, is not 0 in the first round, no newline is
-- seen: of a file of at most 1023 bytes get_peer_list gives no peer, and a longer file is written
-- behind the end of buf.
pub get_peer_list-unset :
    (upper : ℕ → ℕ) (file : Text)
    → 0 < upper 0
    → ((length file ≤ 1023) × (get_peer_list upper file ≡ ok []))
      ⊎ ((1023 < length file) × (get_peer_list upper file ≡ fault))
unfolding get_peer_list read_peers add_peer
get_peer_list-unset upper file h = elim (dec_lt 1023 (length file)) [
  | yes long ↦
      inr (long, rw (read_line_upper (upper 0) file h, lt→ltb 1023 (length file) long) refl)
  | no short ↦ inl (
    omega arith,
    rw (read_line_upper (upper 0) file h, le→ltb 1023 (length file) (omega arith)) refl,
  )
]
