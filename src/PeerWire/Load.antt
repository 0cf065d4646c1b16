-- ===== src/PeerWire/Load.antt =====
-- The torrent file comes into memory byte for byte, however it is split up over the reads.
use bitfs.Base.{
  ℕ, zero, suc, ◌+◌, ◌-◌, ◌*◌, ◌≤◌, ◌<◌, ◌≡◌, refl, sym, ap, ◌∙◌, ◌⊎◌, inl, inr, true, false, List,
  [], ◌∷◌, ◌++◌, none, some, ok, fault, length, take, drop, arith, ltb, if◌then◌else◌, Bool-cases,
  le→ltb, lt→ltb, length-append, length-take, length-drop, append-nil, append_assoc,
}
use native.Mathlib.Decide.{dec_lt}
use bitfs.Base.Int.{ℤ, pos, pos_part, ltb_ℤ, int_max, to_int_small}
use bitfs.Base.Text.{Text}
use bitfs.PeerWire.Socket.{got}
use bitfs.PeerWire.Metainfo.{Bencode, Metainfo}
use bitfs.PeerWire.Entries.{IsReader}
use bitfs.PeerWire.Torrent.{Parts, IsTorrent, described, piece_count, parse_metainfo_file-described}
use bitfs.PeerWire.Disk.{
  Disk, IsFile, appended, read_rounds, metainfo_room, read_metainfo, parse_bytes,
  parse_torrent_file,
}

take-drop_all : (k : ℕ) (xs : List ℕ) → take k xs ++ drop k xs ≡ xs
take-drop_all zero xs = refl
take-drop_all (suc k) [] = refl
take-drop_all (suc k) (x ∷ xs) = ap (◌∷◌ x) (take-drop_all k xs)

no_items : (xs : List ℕ) → length xs ≡ 0 → xs ≡ []
no_items [] e = refl
no_items (x ∷ xs) e = absurd (omega arith)

module _ (D : Disk) (F : IsFile D) where
  -- What a round with some bytes does.
  appended_some :
      (room : ℕ) (buf bs : Text) (s : D.State)
      → 0 < length bs
      → appended D room buf (got bs, s)
        ≡ (if ltb room (length buf + length bs) then fault else ok (buf ++ bs, s, true))
  unfolding appended
  appended_some room buf [] s h = absurd (omega arith)
  appended_some room buf (b ∷ bs) s h = refl

  -- At the end of the file the loop ends.
  rounds_at_end :
      (fuel room : ℕ) (buf : Text) (s : D.State)
      → F.left s ≡ []
      → (t : D.State) × (read_rounds D (suc fuel) room buf s ≡ ok (buf, t))
  unfolding read_rounds appended
  rounds_at_end fuel room buf s e = let (t, f) = F.read_end s 1024 e in (t, rw f refl)

  -- With room for all that is left the loop reads it; without, it writes behind the memory.
  rounds_cases :
      (fuel room : ℕ) (buf : Text) (s : D.State)
      → length (F.left s) < fuel
      → length buf ≤ room
      → ((length buf + length (F.left s) ≤ room)
          × ((t : D.State) × (read_rounds D fuel room buf s ≡ ok (buf ++ F.left s, t))))
        ⊎ ((room < length buf + length (F.left s)) × (read_rounds D fuel room buf s ≡ fault))
  unfolding read_rounds
  rounds_cases zero room buf s h fits = absurd (omega arith)
  rounds_cases (suc fuel) room buf s h fits = elim (dec_lt 0 (length (F.left s))) [
    | no ended ↦
        let at_end : F.left s ≡ [] = no_items (F.left s) (omega arith) in
        let (t, e) = rounds_at_end fuel room buf s at_end in
        inl (
          omega (arith, ap length at_end),
          (t, e ∙ ap (λ b. ok (b, t)) (sym (append-nil buf) ∙ ap (λ b. buf ++ b) (sym at_end))),
        )
    | yes more ↦
        let (k, t, some_bytes, at_most, sent, e, rest) = F.read_some s 1024 (omega arith) more in
        let part = take k (F.left s) in
        let size : length part ≡ k = omega (arith, length-take k (F.left s)) in
        let left_size : length (F.left t) ≡ length (F.left s) - k =
          ap length rest ∙ length-drop k (F.left s) in
        let grown : length (buf ++ part) ≡ length buf + k = omega (arith, length-append buf part) in
        let joined : (buf ++ part) ++ F.left t ≡ buf ++ F.left s =
          append_assoc buf part (F.left t)
          ∙ ap (λ b. buf ++ b) (ap (λ b. part ++ b) rest ∙ take-drop_all k (F.left s)) in
        elim (dec_lt room (length buf + length part)) [
          | yes over ↦ inr (
            omega (arith, over),
            rw (e, appended_some room buf part t (omega arith), lt→ltb _ _ over) refl,
          )
          | no inside ↦
              let round : read_rounds D (suc fuel) room buf s
                  ≡ read_rounds D fuel room (buf ++ part) t =
                rw
                  (
                    e,
                    appended_some room buf part t (omega arith),
                    le→ltb room (length buf + length part) (omega arith),
                  )
                  refl in
              elim (rounds_cases fuel room (buf ++ part) t (omega arith) (omega arith)) [
                | inl (le, (u, f)) ↦ inl (omega arith, (u, round ∙ f ∙ ap (λ b. ok (b, u)) joined))
                | inr (lt, f) ↦ inr (omega arith, round ∙ f)
              ]
        ]
  ]

  -- For a file of the disk whose size st_size with one more byte fits int, and fuel for its bytes:
  -- where open fails the program exits; where the file has no more bytes than stat told, exactly
  -- its bytes are read; and where it has more, memory is written behind its end.
  pub read_metainfo_cases :
      (fuel st_size : ℕ) (fd : ℤ) (s : D.State)
      → length (F.left s) < fuel
      → st_size < int_max
      → ((ltb_ℤ (pos 0) fd ≡ false) × (read_metainfo D fuel fd st_size s ≡ ok none))
        ⊎ ((ltb_ℤ (pos 0) fd ≡ true)
            × (((length (F.left s) ≤ st_size)
                  × (read_metainfo D fuel fd st_size s ≡ ok (some (F.left s))))
                ⊎ ((st_size < length (F.left s)) × (read_metainfo D fuel fd st_size s ≡ fault))))
  unfolding read_metainfo
  read_metainfo_cases fuel st_size fd s h fits =
      let room : metainfo_room D st_size ≡ st_size + 1 =
        ap pos_part (to_int_small (st_size + 1) (omega arith)) in
      elim (Bool-cases (ltb_ℤ (pos 0) fd)) [
        | inr closed ↦ inl (closed, rw closed refl)
        | inl opened ↦ inr (
          opened,
          elim (rounds_cases fuel (st_size + 1) [] s h (omega arith)) [
            | inr (lt, e) ↦ inr (omega arith, rw (opened, room, e) refl)
            | inl (le, (t, e)) ↦ elim (dec_lt st_size (length (F.left s))) [
              | yes more ↦ inr (
                more,
                rw (opened, room, e, le→ltb (length (F.left s)) (st_size + 1) (omega arith)) refl,
              )
              | no all ↦ inl (
                omega arith,
                rw (opened, room, e, lt→ltb (length (F.left s)) (st_size + 1) (omega arith)) refl,
              )
            ]
          ],
        )
      ]

  -- For a file of the disk that can be opened, of the size that stat told, which with one more byte
  -- fits int, whose bytes bencode_init makes the dictionary of a torrent of: the reader gives the
  -- entries of dictionaries one by one, and the torrent has one file, and perhaps a tracker, with the
  -- keys in the order that the format asks for, and perhaps other keys before and behind "info" and
  -- at the end of "info"; both sizes fit int, pieces are not empty, and the name has no NUL. With fuel
  -- for the bytes and the entries of both dictionaries: where the torrent names a tracker,
  -- parse_metainfo_file writes behind the memory of its text. Where it names none,
  -- parse_metainfo_file ends, leaves announce unset, gives the SHA1 of "info", both sizes and the name
  -- of the torrent, the least number of pieces that holds the file, and of the hashes of the pieces
  -- what stands before their first NUL byte, with zeros in place of the rest.
  pub parse_torrent_file-described :
      (B : Bencode) (SHA1 : Text → List ℕ) (bencode_init : Text → B.Node)
      (entries : B.Node → List (Text × B.Node))
      → IsReader B entries
      → (s : D.State) (f : Parts B.Node) → IsTorrent B entries (bencode_init (F.left s)) f
      → (fuel fd st_size : ℕ) (unset : Metainfo) → 0 < fd
      → length (F.left s) ≤ st_size
      → st_size < int_max
      → length (F.left s) < fuel
      → length (entries (bencode_init (F.left s))) < fuel
      → length (entries f.info) + 1 < fuel
      → (((a : B.Node) × (f.announce ≡ some a))
          × (parse_torrent_file D B SHA1 bencode_init fuel (pos fd) st_size unset s ≡ fault))
        ⊎ ((f.announce ≡ none)
            × (parse_torrent_file D B SHA1 bencode_init fuel (pos fd) st_size unset s
                ≡ ok (some (described B SHA1 f unset)))
            × (f.piece_size * piece_count f < f.file_size + f.piece_size)
            × (f.file_size ≤ f.piece_size * piece_count f))
  unfolding parse_torrent_file parse_bytes
  parse_torrent_file-described B SHA1 bencode_init entries reader s f torrent fuel fd st_size unset
        opened all fits h k m =
      let bytes : read_metainfo D fuel (pos fd) st_size s ≡ ok (some (F.left s)) =
        elim (read_metainfo_cases fuel st_size (pos fd) s h fits) [
          | inl (closed, _) ↦ absurd (ground (arith, closed))
          | inr (_, inl (_, e)) ↦ e
          | inr (_, inr (more, _)) ↦ absurd (omega arith)
        ] in
      elim (parse_metainfo_file-described B SHA1 entries reader (bencode_init (F.left s)) f torrent
        fuel unset k m) [
          | inl (a, e) ↦ inl (a, rw (bytes, e) refl)
          | inr (none_named, e, low, high) ↦ inr (none_named, rw (bytes, e) refl, low, high)
        ]
