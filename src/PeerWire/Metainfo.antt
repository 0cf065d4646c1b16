-- ===== src/PeerWire/Metainfo.antt =====
-- parse_metainfo of bt_lib.c. The reader of bencoded values is a library, and SHA1 is OpenSSL's:
-- both are parameters.
use bitfs.Base.{
  ℕ, zero, suc, ◌+◌, ◌-◌, ◌/◌, ◌%◌, Bool, List, Outcome, ok, fault, timeout, ◌>>=◌, length, ◌==◌,
  ltb, if◌then◌else◌,
}
use bitfs.Base.Int.{ℤ, pos, negsuc, int_mod, to_int, sub_ℕ}
use bitfs.Base.Text.{Text, c_str, text_eq}
use bitfs.Base.Ascii.{codes}
use bitfs.PeerWire.Peers.{strncpy}

-- bencode_dict_has_next, bencode_dict_get_next (the dictionary afterwards, the value and the key),
-- bencode_string_value, bencode_int_value and bencode_dict_get_start_and_len.
pub record Bencode : Type 1 where
  pub Node : Type 0
  pub dict_has_next : Node → Bool
  pub dict_get_next : Node → Node × Node × Text
  pub string_value : Node → Text
  pub int_value : Node → ℤ
  pub dict_text : Node → Text

-- metainfo_t and metainfo_info_t, as far as they are set.
pub record Metainfo : Type 0 where
  pub announce : Text
  pub infohash : List ℕ
  pub piece_length : ℤ
  pub piece_hashes : Text
  pub filename : Text
  pub file_length : ℤ
  pub num_pieces : ℤ

-- The conversion of long int to int.
unfoldable pub long_to_int : ℤ → ℤ
unfolding to_int
long_to_int (pos n) = to_int n
long_to_int (negsuc n) = to_int (int_mod - suc n % int_mod)

-- (int) ceil((double) a / (double) b): the quotients of numbers of 32 bits are exact enough for ceil,
-- and that by zero does not fit int.
unfoldable pub ceil_div : ℤ → ℤ → Outcome ℤ
ceil_div (pos a) (pos b) = if b == 0 then fault else ok (pos ((a + (b - 1)) / b))
ceil_div (negsuc a) (pos b) = if b == 0 then fault else ok (sub_ℕ 0 (suc a / b))
ceil_div (pos a) (negsuc b) = ok (sub_ℕ 0 (a / suc b))
ceil_div (negsuc a) (negsuc b) = ok (pos ((suc a + b) / suc b))

-- Copied with strncpy into memory of the size of the text.
abbrev pub copied : Text → Text
copied s = strncpy s (length s)

-- text[len] = 0, in memory of so many bytes.
unfoldable pub put_nul : ℕ → ℕ → Text → Outcome Text
put_nul size len text = if ltb len size then ok text else fault

-- strcmp(key, name) == 0, for the key that was copied with its length.
unfoldable pub is_key : Text → Text → Bool
is_key key name = text_eq (c_str key) name

module _ (B : Bencode) (SHA1 : Text → List ℕ) where
  -- while (bencode_dict_has_next(dict)) { ...; parse_metainfo(metainfo, value, keybuf); }
  unfoldable pub parse_entries :
      (Text → B.Node → Metainfo → Outcome Metainfo) → ℕ → B.Node → Metainfo → Outcome Metainfo
  parse_entries parse zero dict m = timeout
  parse_entries parse (suc fuel) dict m =
      let (dict', value, key) = B.dict_get_next dict in
      let rest = λ (m' : Metainfo). parse_entries parse fuel dict' m' in
      if B.dict_has_next dict then parse key value m >>= rest else ok m

  -- The number of pieces, from the sizes that the loop over the entries has set.
  unfoldable pub count_pieces : Metainfo → Outcome Metainfo
  unfolding ceil_div
  count_pieces m = ceil_div m.file_length m.piece_length >>= λ n. ok (record m { num_pieces = n })

  -- "announce": malloc(len), strncpy, and a NUL at [len].
  unfoldable pub set_announce : Text → Metainfo → Outcome Metainfo
  unfolding put_nul
  set_announce url m = put_nul (length url) (length url) (copied url) >>= λ announce.
      ok (record m { announce = announce })

  -- static void parse_metainfo(metainfo_t *, bencode_t *, const char *)
  unfoldable pub parse_metainfo : ℕ → Text → B.Node → Metainfo → Outcome Metainfo
  unfolding is_key parse_entries count_pieces set_announce long_to_int codes
  parse_metainfo zero key value m = timeout
  parse_metainfo (suc fuel) key value m =
      if is_key key (codes "announce")
      then set_announce (B.string_value value) m
      else if is_key key (codes "info")
      then parse_entries (parse_metainfo fuel) fuel value
          (record m { infohash = SHA1 (B.dict_text value) })
        >>= count_pieces
      else if is_key key (codes "piece length")
      then ok (record m { piece_length = long_to_int (B.int_value value) })
      else if is_key key (codes "pieces")
      then ok (record m { piece_hashes = copied (B.string_value value) })
      else if is_key key (codes "name")
      then ok (record m { filename = copied (B.string_value value) })
      else if is_key key (codes "length")
      then ok (record m { file_length = long_to_int (B.int_value value) })
      else ok m

  -- metainfo_t *parse_metainfo_file(char *), from the dictionary that bencode_init has made of the
  -- bytes of the file. The fields are not set at first.
  unfoldable pub parse_metainfo_file : ℕ → B.Node → Metainfo → Outcome Metainfo
  unfolding parse_entries parse_metainfo
  parse_metainfo_file fuel bendata unset = parse_entries (parse_metainfo fuel) fuel bendata unset
