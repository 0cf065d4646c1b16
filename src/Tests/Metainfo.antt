-- ===== src/Tests/Metainfo.antt =====
-- A torrent file of three pieces, with a comment and the flag "private".
use bitfs.Base.{
  ℕ, ◌+◌, ◌*◌, ◌≤◌, ◌<◌, ◌≡◌, refl, ap, ◌⊎◌, Bool, true, false, List, [], ◌∷◌, none, some, ok,
  fault, length, take, drop, if◌then◌else◌, arith,
}
use bitfs.Base.Int.{ℤ, pos, ltb_ℤ}
use bitfs.Base.Text.{Text, c_str, text_eq}
use bitfs.Base.Ascii.{codes}
use bitfs.PeerWire.Metainfo.{Bencode, Metainfo, is_key}
use bitfs.PeerWire.Entries.{IsReader}
use bitfs.PeerWire.Socket.{Received, got}
use bitfs.PeerWire.Torrent.{Parts, IsTorrent, described}
use bitfs.PeerWire.Disk.{Disk, IsFile, read_metainfo, parse_torrent_file}
use bitfs.PeerWire.Load.{read_metainfo_cases, parse_torrent_file-described}

mutual
  pub data Value : Type 0 where
    text : Text → Value
    number : ℕ → Value
    dict : Entries → Value

  pub data Entries : Type 0 where
    end : Entries
    entry : Text → Value → Entries → Entries

abbrev pub listed : Entries → List (Text × Value)
listed end = []
listed (entry key value rest) = (key, value) ∷ listed rest

abbrev pub entries : Value → List (Text × Value)
entries (dict es) = listed es
entries (text s) = []
entries (number n) = []

abbrev pub next_of : Entries → Value × Value × Text
next_of end = (dict end, dict end, [])
next_of (entry key value rest) = (dict rest, value, key)

abbrev pub get_next : Value → Value × Value × Text
get_next (dict es) = next_of es
get_next (text s) = (text s, text s, [])
get_next (number n) = (number n, number n, [])

abbrev pub some_left : List (Text × Value) → Bool
some_left [] = false
some_left (_ ∷ _) = true

abbrev text_of : Value → Text
text_of (text s) = s
text_of (number n) = []
text_of (dict es) = []

abbrev number_of : Value → ℤ
number_of (number n) = pos n
number_of (text s) = pos 0
number_of (dict es) = pos 0

abbrev pub values : Bencode
values = record {
  Node = Value;
  dict_has_next = λ v. some_left (entries v);
  dict_get_next = get_next;
  string_value = text_of;
  int_value = number_of;
  dict_text = λ v. [];
}

first : Text × Value → List (Text × Value) → Text × Value
first other [] = other
first other (x ∷ _) = x

tail : List (Text × Value) → List (Text × Value)
tail [] = []
tail (_ ∷ xs) = xs

pub values_next :
    (v : Value) (key : Text) (value : Value) (rest : List (Text × Value))
    → entries v ≡ (key, value) ∷ rest
    → (some_left (entries v) ≡ true)
      × (v' : Value) × (get_next v ≡ (v', value, key))
      × (entries v' ≡ rest)
unfolding first tail
values_next (dict end) key value rest e = cc
values_next (dict (entry k v es)) key value rest e = (
  refl,
  dict es,
  ap (λ l. (dict es, (first (key, value) l).1, (first (key, value) l).0)) e,
  ap tail e,
)
values_next (text s) key value rest e = cc
values_next (number n) key value rest e = cc

pub values_last : (v : Value) → entries v ≡ [] → some_left (entries v) ≡ false
values_last v e = rw e refl

abbrev pub values_reader : IsReader values entries
values_reader = record { next = values_next; last = values_last }

-- The first bytes of hashes, with a NUL among them.
abbrev pub hashes : Text
hashes = 65 ∷ 0 ∷ 66 ∷ []

abbrev pub parts : Parts Value
parts = record {
  announce = none;
  info = dict (
      entry (codes "length") (number 10) (
        entry (codes "name") (text (codes "f")) (
          entry (codes "piece length") (number 4)
            (entry (codes "pieces") (text hashes) (entry (codes "private") (number 1) end)))));
  length_node = number 10;
  name = text (codes "f");
  piece_length = number 4;
  pieces = text hashes;
  before = (codes "comment", text []) ∷ [];
  after = [];
  others = (codes "private", number 1) ∷ [];
  file_size = 10;
  piece_size = 4;
}

abbrev pub torrent : Value
torrent = dict (entry (codes "comment") (text []) (entry (codes "info") parts.info end))

pub torrent_parts : IsTorrent values entries torrent parts
unfolding codes is_key c_str text_eq
torrent_parts = record {
  root_entries = refl;
  info_list = refl;
  no_key_before = ((refl, refl, refl, refl, refl, refl), tt);
  no_key_after = tt;
  no_key_in_info = ((refl, refl, refl, refl, refl, refl), tt);
  length_value = refl;
  piece_length_value = refl;
  file_size_fits = omega arith;
  piece_size_fits = omega arith;
  some_size = omega arith;
  name_clean = (omega arith, tt);
}

abbrev pub cleared : Metainfo
cleared = record {
  announce = [];
  infohash = [];
  piece_length = pos 0;
  piece_hashes = [];
  filename = [];
  file_length = pos 0;
  num_pieces = pos 0;
}

-- A file whose bytes come one by one.
abbrev slow_read : Text → ℕ → Received × Text
slow_read [] n = (got [], [])
slow_read (c ∷ s) n = (got (c ∷ []), s)

abbrev pub disk : Disk
disk = record { State = Text; read = slow_read }

pub slow_some :
    (s : Text) (n : ℕ)
    → 0 < n
    → 0 < length s
    → (k : ℕ) × (t : Text) × (0 < k)
      × (k ≤ n)
      × (k ≤ length s)
      × (slow_read s n ≡ (got (take k s), t))
      × (t ≡ drop k s)
slow_some [] n h some_left = absurd (omega arith)
slow_some (c ∷ s) n h some_left = (1, s, omega arith, omega arith, omega arith, refl, refl)

pub slow_end : (s : Text) (n : ℕ) → s ≡ [] → (t : Text) × (slow_read s n ≡ (got [], t))
slow_end [] n e = ([], refl)
slow_end (c ∷ s) n e = cc

abbrev pub disk_file : IsFile disk
disk_file = record { left = λ s. s; read_some = slow_some; read_end = slow_end }

-- The bytes that stand for the torrent here.
abbrev pub torrent_bytes : Text
torrent_bytes = b'd' ∷ b'0' ∷ b'e' ∷ []

abbrev pub read_torrent : Text → Value
read_torrent bytes = if text_eq bytes torrent_bytes then torrent else dict end

parse_torrent_file-described_example :
    (((a : Value) × (parts.announce ≡ some a))
      × (parse_torrent_file disk values (λ s. s) read_torrent 7 (pos 3) 3 cleared torrent_bytes
          ≡ fault))
    ⊎ ((parts.announce ≡ none)
        × (parse_torrent_file disk values (λ s. s) read_torrent 7 (pos 3) 3 cleared torrent_bytes
            ≡ ok (some (described values (λ s. s) parts cleared)))
        × (4 * 3 < 10 + 4)
        × (10 ≤ 4 * 3))
unfolding text_eq
parse_torrent_file-described_example =
    parse_torrent_file-described disk disk_file values (λ s. s) read_torrent entries values_reader
      torrent_bytes parts torrent_parts 7 3 3 cleared (omega arith) (omega arith) (omega arith)
      (omega arith) (omega arith) (omega arith)

read_metainfo_cases_example :
    ((ltb_ℤ (pos 0) (pos 3) ≡ false) × (read_metainfo disk 4 (pos 3) 2 torrent_bytes ≡ ok none))
    ⊎ ((ltb_ℤ (pos 0) (pos 3) ≡ true)
        × (((3 ≤ 2) × (read_metainfo disk 4 (pos 3) 2 torrent_bytes ≡ ok (some torrent_bytes)))
            ⊎ ((2 < 3) × (read_metainfo disk 4 (pos 3) 2 torrent_bytes ≡ fault))))
read_metainfo_cases_example =
    read_metainfo_cases disk disk_file 4 2 (pos 3) torrent_bytes (omega arith) (omega arith)
