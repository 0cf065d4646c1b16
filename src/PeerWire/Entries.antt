-- ===== src/PeerWire/Entries.antt =====
-- The entries of a dictionary, one after the other, in parse_metainfo of bt_lib.c.
use bitfs.Base.{
  ℕ, zero, suc, ◌<◌, ◌≡◌, refl, true, false, List, [], ◌∷◌, ◌++◌, Outcome, ok, ◌>>=◌, arith, length,
}
use bitfs.Base.Text.{Text, c_str, text_eq}
use bitfs.Base.Ascii.{codes}
use bitfs.PeerWire.Metainfo.{
  Bencode, Metainfo, long_to_int, copied, is_key, parse_entries, parse_metainfo,
}

-- The reader gives the entries of a dictionary one by one.
pub record IsReader (B : Bencode) (entries : B.Node → List (Text × B.Node)) : Type 0 where
  pub next :
      (dict : B.Node) (key : Text) (value : B.Node) (rest : List (Text × B.Node))
      → entries dict ≡ (key, value) ∷ rest
      → (B.dict_has_next dict ≡ true)
        × (dict' : B.Node) × (B.dict_get_next dict ≡ (dict', value, key))
        × (entries dict' ≡ rest)
  pub last : (dict : B.Node) → entries dict ≡ [] → B.dict_has_next dict ≡ false

-- The entries one after the other.
unfoldable pub parse_list {ℓ} :
    {N : Type ℓ}
    → (Text → N → Metainfo → Outcome Metainfo)
    → List (Text × N)
    → Metainfo
    → Outcome Metainfo
parse_list parse [] m = ok m
parse_list parse ((key, value) ∷ rest) m = parse key value m >>= λ m'. parse_list parse rest m'

-- A key that parse_metainfo does not look for.
abbrev pub IsOther : Text → Type 0
IsOther key =
    (is_key key (codes "announce") ≡ false)
    × (is_key key (codes "info") ≡ false)
    × (is_key key (codes "piece length") ≡ false)
    × (is_key key (codes "pieces") ≡ false)
    × (is_key key (codes "name") ≡ false)
    × (is_key key (codes "length") ≡ false)

abbrev pub AllOther {ℓ} : {N : Type ℓ} → List (Text × N) → Type 0
AllOther [] = Unit
AllOther ((key, value) ∷ rest) = IsOther key × AllOther rest

module _ (B : Bencode) (SHA1 : Text → List ℕ) (entries : B.Node → List (Text × B.Node))
    (reader : IsReader B entries) where
  pub parse_entries-fold :
      (parse : Text → B.Node → Metainfo → Outcome Metainfo)
      → (es : List (Text × B.Node)) (fuel : ℕ) (dict : B.Node) (m : Metainfo) → entries dict ≡ es
      → length es < fuel
      → parse_entries B SHA1 parse fuel dict m ≡ parse_list parse es m
  unfolding parse_entries parse_list
  parse_entries-fold parse es zero dict m e h = absurd (omega arith)
  parse_entries-fold parse [] (suc fuel) dict m e h = rw (reader.last dict e) refl
  parse_entries-fold parse ((key, value) ∷ es) (suc fuel) dict m e h =
      let (has_next, dict', got, rest) = reader.next dict key value es e in
      rw (has_next, got)
        (λ i. parse key value m >>= λ m'.
          parse_entries-fold parse es fuel dict' m' rest (omega arith) i)

-- The four entries of "info" that parse_metainfo looks for.
abbrev pub info_entries {ℓ} : {N : Type ℓ} → N → N → N → N → List (Text × N) → List (Text × N)
info_entries l n p h others =
    (codes "length", l)
    ∷ (codes "name", n)
    ∷ (codes "piece length", p)
    ∷ (codes "pieces", h)
    ∷ others

module _ (B : Bencode) (SHA1 : Text → List ℕ) where
  pub other_key :
      (fuel : ℕ) (key : Text) (value : B.Node) (m : Metainfo)
      → IsOther key
      → parse_metainfo B SHA1 (suc fuel) key value m ≡ ok m
  unfolding parse_metainfo
  other_key fuel key value m (a, b, c, d, e, f) = rw (a, b, c, d, e, f) refl

  pub parse_list-other :
      (fuel : ℕ) (others es : List (Text × B.Node)) (m : Metainfo)
      → AllOther others
      → parse_list (parse_metainfo B SHA1 (suc fuel)) (others ++ es) m
        ≡ parse_list (parse_metainfo B SHA1 (suc fuel)) es m
  unfolding parse_list
  parse_list-other fuel [] es m h = refl
  parse_list-other fuel ((key, value) ∷ others) es m (h, hs) =
      rw (other_key fuel key value m h) (parse_list-other fuel others es m hs)

  abbrev pub with_info : B.Node → B.Node → B.Node → B.Node → Metainfo → Metainfo
  with_info l n p h m = record m {
    file_length = long_to_int (B.int_value l);
    filename = copied (B.string_value n);
    piece_length = long_to_int (B.int_value p);
    piece_hashes = copied (B.string_value h);
  }

  pub parse_list-info :
      (fuel : ℕ) (l n p h : B.Node) (others : List (Text × B.Node)) (m : Metainfo)
      → AllOther others
      → parse_list (parse_metainfo B SHA1 (suc fuel)) (info_entries l n p h others ++ []) m
        ≡ ok (with_info l n p h m)
  unfolding parse_list parse_metainfo is_key codes c_str text_eq
  parse_list-info fuel l n p h others m o = parse_list-other fuel others [] (with_info l n p h m) o
