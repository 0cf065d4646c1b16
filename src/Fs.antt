-- ===== src/Fs.antt =====
-- FS.cpp: the calls that FUSE makes of the mounted torrent, but for read (Fs/Read).
pub mod Order
pub mod Index
pub mod Attributes
pub mod Listing
pub mod Read
pub mod Threads
pub mod Init
use Prim.Native.Nat.{bit_or}
use bitfs.Base.{
  ℕ, zero, suc, ◌+◌, ◌≡◌, Bool, List, [], ◌∷◌, ◌++◌, Option, none, some, Outcome, ok, fault, ◌>>=◌,
  ltb, ◌==◌, if◌then◌else◌,
}
use bitfs.Base.Int.{ℤ, pos, negsuc, to_int}
use bitfs.Base.Text.{Text, c_str, text_eq, text_ord}
use bitfs.Base.Dict.{Dict, lookup, set}
use bitfs.Boost.{slash}
use bitfs.Torrent.{TorrentInfo}
use bitfs.Tree.{Tree, at, root, has_file, has_dir}

-- -ENOENT
abbrev pub no_entry : ℤ
no_entry = negsuc 1

-- S_IFDIR | 0755
abbrev pub dir_mode : ℕ
dir_mode = bit_or 0o040000 0o755

-- S_IFREG | 0444
abbrev pub file_mode : ℕ
file_mode = bit_or 0o100000 0o444

-- The fields of struct stat that getattr sets.
pub record Stat : Type 0 where
  pub st_mode : ℕ
  pub st_nlink : ℕ
  pub st_size : ℤ

-- memset(stbuf, 0, sizeof(struct stat))
abbrev pub zero_stat : Stat
zero_stat = record { st_mode = 0; st_nlink = 0; st_size = pos 0 }

-- The loop of get_file_index from round i on with n rounds left. A text is compared with a path
-- up to the first NUL of the path.
unfoldable pub search_from : TorrentInfo → Text → ℕ → ℕ → ℤ
search_from ti s zero i = negsuc 0
search_from ti s (suc n) i =
    let rest = search_from ti s n (i + 1) in
    if text_eq s (c_str (ti.file_path i)) then pos i else rest

-- The C string is read from its second byte on, which the empty one does not have.
unfoldable pub index_of : TorrentInfo → Text → Outcome ℤ
index_of ti [] = if ti.num_files == 0 then ok (negsuc 0) else fault
index_of ti (_ ∷ s) = ok (search_from ti s ti.num_files 0)

-- int get_file_index(const char *)
unfoldable pub get_file_index : TorrentInfo → Text → Outcome ℤ
unfolding index_of search_from
get_file_index ti filepath = index_of ti (c_str filepath)

-- int get_file_size(int): the 64-bit size is cut to int. The index of no file is outside the
-- contract of file_storage::file_size.
unfoldable pub get_file_size : TorrentInfo → ℤ → Outcome ℤ
get_file_size ti (pos i) = if ltb i ti.num_files then ok (to_int (ti.file_size i)) else fault
get_file_size ti (negsuc _) = fault

-- The key of a path: a separator is added, except after the root.
unfoldable pub dir_key : Text → Text
dir_key path = if text_eq (c_str path) root then c_str path else c_str path ++ root

-- The branch of getattr for a regular file.
unfoldable pub file_stat : TorrentInfo → Text → Outcome (ℤ × Stat)
file_stat ti path = do
  index ← get_file_index ti path
  size ← get_file_size ti index
  ok (pos 0, record { st_mode = file_mode; st_nlink = 1; st_size = size })

-- int FS::getattr(const char *, struct stat *)
unfoldable pub getattr : TorrentInfo → Tree → Text → Outcome (ℤ × Stat)
unfolding dir_key file_stat
getattr ti t path =
    if has_dir t (dir_key path)
    then ok (pos 0, record zero_stat { st_mode = dir_mode; st_nlink = 2 })
    else if has_file t (dir_key path)
    then file_stat ti path
    else ok (no_entry, zero_stat)

-- int FS::open(const char *, struct fuse_file_info *)
unfoldable pub open_file : Tree → Text → ℤ
open_file t path = if has_file t (c_str path ++ root) then pos 0 else no_entry

-- entries[strpath] adds an empty set where the key is new.
unfoldable pub touch : Text → Dict Text (List Text) → Dict Text (List Text)
touch key m = elim (lookup key m) [ none ↦ set key [] m | some _ ↦ m ]

module _ {ℓ} {B : Type ℓ} (filler : B → Text → B) where
  -- for (auto const &str : entries[strpath]) filler(buf, str.c_str(), NULL, 0), whose result is
  -- not read.
  unfoldable pub fill_names : List Text → B → B
  fill_names [] buf = buf
  fill_names (name ∷ names) buf = fill_names names (filler buf (c_str name))

  -- int FS::readdir(const char *, void *, fuse_fill_dir_t, ...)
  unfoldable pub readdir : Tree → Text → B → ℤ × B × Tree
  unfolding dir_key fill_names touch
  readdir t path buf =
      let key = dir_key path in
      if has_dir t key
      then (pos 0, fill_names (at key t.entries) buf, record t { entries = touch key t.entries })
      else (no_entry, buf, t)
