-- ===== src/PeerWire/Torrent.antt =====
-- parse_metainfo of bt_lib.c on the torrent file of a single file.
use bitfs.Base.{
  ℕ, zero, suc, ◌+◌, ◌-◌, ◌*◌, ◌/◌, ◌≤◌, ◌<◌, ◌≡◌, refl, sym, ap, ◌∙◌, false, List, Option, none,
  some, fault, ◌⊎◌, inl, inr, Option-cases, Bool-cases, le→ltb, [], ◌∷◌, ◌++◌, ok, arith, length,
  ◌==◌, append-nil,
}
use native.Mathlib.Nat.{div-add-mod, mod-lt}
use bitfs.Base.Int.{pos, int_max, to_int_small}
use bitfs.Base.Text.{Text, NoNul, c_str, text_eq}
use bitfs.Base.Ascii.{codes}
use bitfs.PeerWire.Peers.{strncpy, strncpy_id}
use bitfs.PeerWire.Metainfo.{
  Bencode, Metainfo, long_to_int, ceil_div, is_key, count_pieces, put_nul, set_announce,
  parse_metainfo, parse_metainfo_file,
}
use bitfs.PeerWire.Entries.{
  IsReader, parse_list, AllOther, info_entries, with_info, parse_list-other, parse_list-info,
  parse_entries-fold,
}

zero_test : (n : ℕ) → 0 < n → (n == 0) ≡ false
zero_test n h = ground arith

pieces_cover : (l p : ℕ) → 0 < p → (p * ((l + (p - 1)) / p) < l + p) × (l ≤ p * ((l + (p - 1)) / p))
pieces_cover l p h =
    let whole = div-add-mod (l + (p - 1)) p in
    let small = mod-lt (l + (p - 1)) h in (omega (arith, whole, small), omega (arith, whole, small))

-- The parts of a torrent file with one file, its tracker where it names one, and its two sizes.
pub record Parts (N : Type 0) : Type 0 where
  pub announce : Option N
  pub info : N
  pub length_node : N
  pub name : N
  pub piece_length : N
  pub pieces : N
  pub before : List (Text × N)
  pub after : List (Text × N)
  pub others : List (Text × N)
  pub file_size : ℕ
  pub piece_size : ℕ

-- The entry of the tracker.
abbrev pub tracker : {N : Type 0} → Option N → List (Text × N)
tracker none = []
tracker (some a) = (codes "announce", a) ∷ []

abbrev pub zeros : ℕ → Text
zeros zero = []
zeros (suc n) = 0 ∷ zeros n

-- The hashes as strncpy copies them: up to the first NUL byte, and zeros in place of what is behind.
abbrev pub up_to_nul : Text → Text
up_to_nul s = c_str s ++ zeros (length s - length (c_str s))

-- The file has these parts, each in its place, beside keys that parse_metainfo does not look for.
pub record IsTorrent (B : Bencode) (entries : B.Node → List (Text × B.Node)) (root : B.Node)
    (f : Parts B.Node) : Type 0 where
  pub root_entries :
      entries root ≡ tracker f.announce ++ (f.before ++ ((codes "info", f.info) ∷ f.after))
  pub info_list :
      entries f.info ≡ info_entries f.length_node f.name f.piece_length f.pieces f.others
  pub no_key_before : AllOther f.before
  pub no_key_after : AllOther f.after
  pub no_key_in_info : AllOther f.others
  pub length_value : B.int_value f.length_node ≡ pos f.file_size
  pub piece_length_value : B.int_value f.piece_length ≡ pos f.piece_size
  pub file_size_fits : f.file_size ≤ int_max
  pub piece_size_fits : f.piece_size ≤ int_max
  pub some_size : 0 < f.piece_size
  pub name_clean : NoNul (B.string_value f.name)

-- (file_size + (piece_size - 1)) / piece_size, as ceil gives it.
abbrev pub piece_count : {N : Type 0} → Parts N → ℕ
piece_count f = (f.file_size + (f.piece_size - 1)) / f.piece_size

strncpy-zeros : (n : ℕ) → strncpy [] n ≡ zeros n
unfolding strncpy
strncpy-zeros zero = refl
strncpy-zeros (suc n) = ap (◌∷◌ 0) (strncpy-zeros n)

strncpy-up_to_nul : (s : Text) → strncpy s (length s) ≡ up_to_nul s
unfolding strncpy c_str
strncpy-up_to_nul [] = refl
strncpy-up_to_nul (c ∷ s) = elim (Bool-cases (c == 0)) [
  | inl nul ↦
      let all : suc (length s) ≡ suc (length s) - 0 = omega arith in
      rw nul (ap (◌∷◌ 0) (strncpy-zeros (length s)) ∙ ap zeros all)
  | inr e ↦
      let left : length (c ∷ s) - length (c ∷ c_str s) ≡ length s - length (c_str s) =
        omega arith in
      rw (e, left) (ap (◌∷◌ c) (strncpy-up_to_nul s))
]

module _ (B : Bencode) (SHA1 : Text → List ℕ) (f : Parts B.Node) where
  abbrev pub described : Metainfo → Metainfo
  described unset = record {
    announce = unset.announce;
    infohash = SHA1 (B.dict_text f.info);
    piece_length = pos f.piece_size;
    piece_hashes = up_to_nul (B.string_value f.pieces);
    filename = B.string_value f.name;
    file_length = pos f.file_size;
    num_pieces = pos (piece_count f);
  }

  abbrev hashed : Metainfo → Metainfo
  hashed m = record m { infohash = SHA1 (B.dict_text f.info) }

module _ (B : Bencode) (SHA1 : Text → List ℕ) (entries : B.Node → List (Text × B.Node))
    (reader : IsReader B entries) (root : B.Node) (f : Parts B.Node)
    (file : IsTorrent B entries root f) where
  info_parsed :
      (fuel : ℕ) (m : Metainfo)
      → length (entries f.info) < suc fuel
      → parse_metainfo B SHA1 (suc (suc fuel)) (codes "info") f.info m
        ≡ count_pieces B SHA1
            (with_info B SHA1 f.length_node f.name f.piece_length f.pieces (hashed B SHA1 f m))
  unfolding parse_metainfo is_key codes c_str text_eq
  info_parsed fuel m h =
      rw
        (
          parse_entries-fold B SHA1 entries reader (parse_metainfo B SHA1 (suc fuel)) _ (suc fuel)
              f.info (hashed B SHA1 f m) (file.info_list ∙ sym (append-nil _))
              (omega (arith, ap length (file.info_list ∙ sym (append-nil _)), h)),
          parse_list-info B SHA1 fuel f.length_node f.name f.piece_length f.pieces f.others
              (hashed B SHA1 f m) file.no_key_in_info,
        )
        refl

  int_of :
      (node : B.Node) (n : ℕ)
      → B.int_value node ≡ pos n
      → n ≤ int_max
      → long_to_int (B.int_value node) ≡ pos n
  unfolding long_to_int
  int_of node n e h = rw e (to_int_small n h)

  sized : Metainfo → Metainfo
  sized m = record m {
    file_length = pos f.file_size;
    filename = B.string_value f.name;
    piece_length = pos f.piece_size;
    piece_hashes = up_to_nul (B.string_value f.pieces);
    num_pieces = pos (piece_count f);
  }

  counted :
      (m : Metainfo)
      → count_pieces B SHA1 (with_info B SHA1 f.length_node f.name f.piece_length f.pieces m)
        ≡ ok (sized m)
  unfolding count_pieces ceil_div sized
  counted m =
      let nonzero : (f.piece_size == 0) ≡ false = zero_test f.piece_size file.some_size in
      rw
        (
          int_of f.length_node f.file_size file.length_value file.file_size_fits,
          int_of f.piece_length f.piece_size file.piece_length_value file.piece_size_fits,
          strncpy_id (B.string_value f.name) file.name_clean,
          strncpy-up_to_nul (B.string_value f.pieces),
          nonzero,
        )
        refl

  behind_announce :
      (fuel : ℕ) (m : Metainfo)
      → length (entries f.info) < suc fuel
      → parse_list (parse_metainfo B SHA1 (suc (suc fuel))) ((codes "info", f.info) ∷ f.after) m
        ≡ ok (sized (hashed B SHA1 f m))
  unfolding parse_list
  behind_announce fuel m h =
      rw (info_parsed fuel m h, counted (hashed B SHA1 f m))
        (ap
            (λ es.
              parse_list (parse_metainfo B SHA1 (suc (suc fuel))) es (sized (hashed B SHA1 f m)))
            (sym (append-nil f.after))
          ∙ parse_list-other B SHA1 (suc fuel) f.after [] (sized (hashed B SHA1 f m))
              file.no_key_after)

  -- A torrent that names a tracker: the NUL behind its text is written behind the memory.
  parse_metainfo_file-tracker :
      (a : B.Node) (fuel : ℕ) (unset : Metainfo)
      → f.announce ≡ some a
      → length (entries root) < suc (suc fuel)
      → parse_metainfo_file B SHA1 (suc (suc fuel)) root unset ≡ fault
  unfolding parse_metainfo_file parse_list parse_metainfo set_announce put_nul is_key codes c_str
      text_eq
  parse_metainfo_file-tracker a fuel unset e h =
      let es : entries root
          ≡ (codes "announce", a) ∷ (f.before ++ ((codes "info", f.info) ∷ f.after)) =
        file.root_entries
        ∙ ap (λ t. tracker t ++ (f.before ++ ((codes "info", f.info) ∷ f.after))) e in
      parse_entries-fold B SHA1 entries reader (parse_metainfo B SHA1 (suc (suc fuel))) _
        (suc (suc fuel)) root unset es (omega (arith, ap length es))
      ∙ rw (le→ltb (length (B.string_value a)) (length (B.string_value a)) (omega arith)) refl

  parse_metainfo_file-trackerless :
      (fuel : ℕ) (unset : Metainfo)
      → f.announce ≡ none
      → length (entries root) < suc (suc fuel)
      → length (entries f.info) < suc fuel
      → parse_metainfo_file B SHA1 (suc (suc fuel)) root unset ≡ ok (described B SHA1 f unset)
  unfolding parse_metainfo_file sized
  parse_metainfo_file-trackerless fuel unset e h k =
      let after_info = (codes "info", f.info) ∷ f.after in
      let es : entries root ≡ f.before ++ after_info =
        file.root_entries ∙ ap (λ t. tracker t ++ (f.before ++ after_info)) e in
      parse_entries-fold B SHA1 entries reader (parse_metainfo B SHA1 (suc (suc fuel))) _
        (suc (suc fuel)) root unset es (omega (arith, ap length es))
      ∙ parse_list-other B SHA1 (suc fuel) f.before after_info unset file.no_key_before
      ∙ behind_announce fuel unset k

  -- With fuel for the entries of both dictionaries: a torrent that names a tracker is a fault, and of
  -- another one parse_metainfo_file gives what is described.
  pub parse_metainfo_file-described :
      (fuel : ℕ) (unset : Metainfo)
      → length (entries root) < fuel
      → length (entries f.info) + 1 < fuel
      → (((a : B.Node) × (f.announce ≡ some a))
          × (parse_metainfo_file B SHA1 fuel root unset ≡ fault))
        ⊎ ((f.announce ≡ none)
            × (parse_metainfo_file B SHA1 fuel root unset ≡ ok (described B SHA1 f unset))
            × (f.piece_size * piece_count f < f.file_size + f.piece_size)
            × (f.file_size ≤ f.piece_size * piece_count f))
  parse_metainfo_file-described zero unset h k = absurd (omega arith)
  parse_metainfo_file-described (suc zero) unset h k = absurd (omega arith)
  parse_metainfo_file-described (suc (suc fuel)) unset h k = elim (Option-cases f.announce) [
    | inl e ↦ inr (
      e,
      parse_metainfo_file-trackerless fuel unset e h (omega arith),
      (pieces_cover f.file_size f.piece_size file.some_size).0,
      (pieces_cover f.file_size f.piece_size file.some_size).1,
    )
    | inr (a, e) ↦ inl ((a, e), parse_metainfo_file-tracker a fuel unset e h)
  ]
