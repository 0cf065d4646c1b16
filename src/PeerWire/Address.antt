-- ===== src/PeerWire/Address.antt =====
-- main of btclient/bt_client.c: the address and the port of the first peer, with strtok and atoi.
use bitfs.Base.{
  ℕ, ◌+◌, ◌-◌, ◌*◌, ◌≤◌, ◌≡◌, refl, sym, ap, ◌∙◌, Bool, true, false, ◌&&◌, ◌||◌, [], ◌∷◌, ◌++◌,
  Option, none, some, Outcome, ok, fault, ◌>>=◌, arith, ltb, leb, ◌==◌, if◌then◌else◌, le→ltb,
  append_assoc,
}
use bitfs.Base.Int.{ℤ, pos, sub_ℕ, int_max}
use bitfs.Base.Text.{Text, Lacks, NoNul}

-- The delimiter of strtok.
abbrev pub colon : ℕ
colon = 58

unfoldable pub skip_colons : Text → Text
skip_colons [] = []
skip_colons (c ∷ m) = let rest = skip_colons m in if c == colon then rest else c ∷ m

-- A token of the memory and where the next call of strtok goes on: behind the delimiter, or at the
-- NUL. Without both it reads behind the memory.
unfoldable pub token : Text → Outcome (Text × Text)
token [] = fault
token (c ∷ m) =
    let more = token m >>= λ (t, rest). ok (c ∷ t, rest) in
    if c == colon then ok ([], m) else if c == 0 then ok ([], c ∷ m) else more

unfoldable pub token_or_null : Text → Outcome (Option (Text × Text))
unfolding token
token_or_null [] = fault
token_or_null (c ∷ m) = if c == 0 then ok none else token (c ∷ m) >>= λ z. ok (some z)

-- strtok(s, ":"); `none` is NULL.
unfoldable pub strtok : Text → Outcome (Option (Text × Text))
unfolding skip_colons token_or_null
strtok m = token_or_null (skip_colons m)

abbrev pub is_digit : ℕ → Bool
is_digit c = leb 48 c && leb c 57

-- The value of the digits at the start, behind those read before.
unfoldable pub digits : ℕ → Text → ℕ
digits value [] = value
digits value (c ∷ s) =
    let rest = digits (value * 10 + (c - 48)) s in if is_digit c then rest else value

unfoldable pub skip_spaces : Text → Text
skip_spaces [] = []
skip_spaces (c ∷ s) =
    let rest = skip_spaces s in if (c == 32) || (leb 9 c && leb c 13) then rest else c ∷ s

-- A number that does not fit int is undefined behaviour.
unfoldable pub signed : Text → Outcome ℤ
unfolding digits
signed [] = ok (pos 0)
signed (c ∷ s) =
    let minus = if ltb (int_max + 1) (digits 0 s) then fault else ok (sub_ℕ 0 (digits 0 s)) in
    let plus = if ltb int_max (digits 0 s) then fault else ok (pos (digits 0 s)) in
    let plain = if ltb int_max (digits 0 (c ∷ s)) then fault else ok (pos (digits 0 (c ∷ s))) in
    if c == 45 then minus else if c == 43 then plus else plain

unfoldable pub atoi : Text → Outcome ℤ
unfolding skip_spaces signed
atoi s = signed (skip_spaces s)

-- atoi of a NULL reads no text.
unfoldable pub port_of : Text → Option (Text × Text) → Outcome (Text × ℤ)
unfolding atoi
port_of ip none = fault
port_of ip (some (port, rest)) = atoi port >>= λ n. ok (ip, n)

-- After a NULL the second call of strtok gives NULL as well.
unfoldable pub address_of : Option (Text × Text) → Outcome (Text × ℤ)
unfolding strtok port_of
address_of none = fault
address_of (some (ip, rest)) = strtok rest >>= port_of ip

-- ip = strtok(pl->infoarr[0].url, ":"); port = atoi(strtok(NULL, ":")); of the memory of url.
unfoldable pub peer_address : Text → Outcome (Text × ℤ)
unfolding strtok address_of
peer_address url = strtok url >>= address_of

abbrev pub AllDigits : Text → Type 0
AllDigits [] = Unit
AllDigits (c ∷ s) = (is_digit c ≡ true) × AllDigits s

-- The number that digits stand for.
abbrev pub decimal : ℕ → Text → ℕ
decimal value [] = value
decimal value (c ∷ s) = decimal (value * 10 + (c - 48)) s

digits-decimal : (s : Text) (value : ℕ) → AllDigits s → digits value s ≡ decimal value s
unfolding digits
digits-decimal [] value h = refl
digits-decimal (c ∷ s) value h = rw h.0 (digits-decimal s (value * 10 + (c - 48)) h.1)

AllDigits-append : (s t : Text) → AllDigits s → AllDigits t → AllDigits (s ++ t)
AllDigits-append [] t p q = q
AllDigits-append (c ∷ s) t p q = (p.0, AllDigits-append s t p.1 q)

digit_plain :
    (c : ℕ)
    → is_digit c ≡ true
    → ((c == colon) ≡ false)
      × ((c == 0) ≡ false)
      × ((c == 32) ≡ false)
      × ((leb 9 c && leb c 13) ≡ false)
      × ((c == 45) ≡ false)
      × ((c == 43) ≡ false)
digit_plain c h =
    (ground arith, ground arith, ground arith, ground arith, ground arith, ground arith)

-- A token ends at a delimiter, or at a NUL.
token-colon : (t m : Text) → Lacks colon t → NoNul t → token (t ++ (colon ∷ m)) ≡ ok (t, m)
unfolding token
token-colon [] m h k = refl
token-colon (c ∷ t) m h k =
    let a : (c == colon) ≡ false = ground (arith, h.0) in
    let b : (c == 0) ≡ false = ground (arith, k.0) in rw (a, b, token-colon t m h.1 k.1) refl

token-nul : (t m : Text) → AllDigits t → token (t ++ (0 ∷ m)) ≡ ok (t, 0 ∷ m)
unfolding token
token-nul [] m h = refl
token-nul (c ∷ t) m h =
    let (a, b, _, _, _, _) = digit_plain c h.0 in rw (a, b, token-nul t m h.1) refl

strtok-colon :
    (c : ℕ) (t m : Text)
    → Lacks colon (c ∷ t)
    → NoNul (c ∷ t)
    → strtok ((c ∷ t) ++ (colon ∷ m)) ≡ ok (some (c ∷ t, m))
unfolding strtok token_or_null skip_colons token
strtok-colon c t m h k =
    let a : (c == colon) ≡ false = ground (arith, h.0) in
    let b : (c == 0) ≡ false = ground (arith, k.0) in rw (a, b, token-colon t m h.1 k.1, a) refl

strtok-nul :
    (c : ℕ) (t m : Text)
    → AllDigits (c ∷ t)
    → strtok ((c ∷ t) ++ (0 ∷ m)) ≡ ok (some (c ∷ t, 0 ∷ m))
unfolding strtok token_or_null skip_colons token
strtok-nul c t m h =
    let (a, b, _, _, _, _) = digit_plain c h.0 in rw (a, b, token-nul t m h.1, a) refl

atoi-digits :
    (c : ℕ) (t : Text)
    → AllDigits (c ∷ t)
    → decimal 0 (c ∷ t) ≤ int_max
    → atoi (c ∷ t) ≡ ok (pos (decimal 0 (c ∷ t)))
unfolding atoi skip_spaces signed
atoi-digits c t h fits =
    let (_, _, space, white, minus, plus) = digit_plain c h.0 in
    let small : ltb int_max (decimal 0 (c ∷ t)) ≡ false = le→ltb int_max (decimal 0 (c ∷ t)) fits in
    rw (space, white, minus, plus, digits-decimal (c ∷ t) 0 h, small) refl

-- For a line with an address without colon, a colon and the digits of a port, which get_peer_list
-- stores without a NUL: where some digits stand behind it in its memory before the first NUL, and
-- the number of all these digits fits int, main takes the address as it is, and for the port the
-- number of all these digits, those behind the line included.
pub peer_address-digits :
    (c d : ℕ) (ip port behind rest : Text)
    → Lacks colon (c ∷ ip)
    → NoNul (c ∷ ip)
    → AllDigits (d ∷ port)
    → AllDigits behind
    → decimal 0 ((d ∷ port) ++ behind) ≤ int_max
    → peer_address (((c ∷ ip) ++ (colon ∷ (d ∷ port))) ++ (behind ++ (0 ∷ rest)))
      ≡ ok (c ∷ ip, pos (decimal 0 ((d ∷ port) ++ behind)))
unfolding peer_address address_of port_of
peer_address-digits c d ip port behind rest h k p q fits =
    let memory : ((c ∷ ip) ++ (colon ∷ (d ∷ port))) ++ (behind ++ (0 ∷ rest))
        ≡ (c ∷ ip) ++ (colon ∷ (((d ∷ port) ++ behind) ++ (0 ∷ rest))) =
      append_assoc (c ∷ ip) (colon ∷ (d ∷ port)) (behind ++ (0 ∷ rest))
      ∙ ap (λ m. (c ∷ ip) ++ (colon ∷ m)) (sym (append_assoc (d ∷ port) behind (0 ∷ rest))) in
    let all : AllDigits (d ∷ (port ++ behind)) = AllDigits-append (d ∷ port) behind p q in
    ap (λ m. strtok m >>= address_of) memory
    ∙ ap (λ o. o >>= address_of) (strtok-colon c ip (((d ∷ port) ++ behind) ++ (0 ∷ rest)) h k)
    ∙ ap (λ o. o >>= port_of (c ∷ ip)) (strtok-nul d (port ++ behind) rest all)
    ∙ ap (λ o. o >>= λ n. ok (c ∷ ip, n)) (atoi-digits d (port ++ behind) all fits)
