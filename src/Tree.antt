-- ===== src/Tree.antt =====
-- The directory map of FS.cpp: the globals dirmap, filenames and entries, the loop of init_bitfs
-- that fills them from the paths of the torrent's files, and has_file and has_dir.
pub mod Fill
pub mod Names
pub mod Spec
pub mod Paths
pub mod Entries
pub mod Order
use bitfs.Base.{
  ℕ, zero, suc, ◌+◌, ◌≡◌, refl, Bool, false, ◌||◌, List, [], ◌∷◌, ◌++◌, Option, none, some,
}
use bitfs.Base.Text.{Text, text_eq, c_str, text_ord}
use bitfs.Base.Ordered.{insert, contains}
use bitfs.Base.Dict.{Dict, lookup, set}
use bitfs.Boost.{slash}
use bitfs.Torrent.{TorrentInfo}

pub record Tree : Type 0 where
  pub dirmap : List Text
  pub filenames : List Text
  pub entries : Dict Text (List Text)

-- The globals before init_bitfs.
abbrev pub empty_tree : Tree
empty_tree = record { dirmap = []; filenames = []; entries = [] }

abbrev or_empty : Option (List Text) → List Text
or_empty none = []
or_empty (some names) = names

-- entries[dirpath], which is the empty set where the key is new.
unfoldable pub at : Text → Dict Text (List Text) → List Text
at dirpath m = or_empty (lookup dirpath m)

-- entries[dirpath].insert(name)
unfoldable pub insert_entry : Text → Text → Dict Text (List Text) → Dict Text (List Text)
insert_entry dirpath name m = set dirpath (insert name (at dirpath m)) m

-- dirpath + name + "/"
abbrev pub below : Text → Text → Text
below dirpath name = dirpath ++ (name ++ (slash ∷ []))

-- The inner loop over strs with the two insertions after it. split gives one component at least,
-- so the first clause is not met.
unfoldable pub fill_components : Text → List Text → Tree → Tree
fill_components dirpath [] t = t
fill_components dirpath (name ∷ []) t = record t {
  filenames = insert (below dirpath name) t.filenames;
  entries = insert_entry dirpath name t.entries;
}
fill_components dirpath (name ∷ name' ∷ rest) t =
    fill_components (below dirpath name) (name' ∷ rest) (record t {
      dirmap = insert (below dirpath name) t.dirmap;
      entries = insert_entry dirpath name t.entries;
    })

abbrev pub root : Text
root = slash ∷ []

-- bool has_file(const char *): std::find over filenames.
unfoldable pub find_text : List Text → Text → Bool
find_text [] s = false
find_text (x ∷ xs) s = text_eq x s || find_text xs s

unfoldable pub has_file : Tree → Text → Bool
unfolding find_text
has_file t path = find_text t.filenames (c_str path)

-- bool has_dir(const char *)
unfoldable pub has_dir : Tree → Text → Bool
has_dir t path = contains t.dirmap (c_str path)

module _ (split : Text → List Text) where
  -- One round of the loop over the files.
  unfoldable pub add_file : Text → Tree → Tree
  add_file path t = fill_components root (split path) (record t { dirmap = insert root t.dirmap })

  -- for (int i = 0; i < num_files; i++), from round i on with n rounds left.
  unfoldable pub fill_from : TorrentInfo → ℕ → ℕ → Tree → Tree
  fill_from ti zero i t = t
  fill_from ti (suc n) i t = fill_from ti n (i + 1) (add_file (ti.file_path i) t)

  unfoldable pub fill_tree : TorrentInfo → Tree → Tree
  fill_tree ti t = fill_from ti ti.num_files 0 t
