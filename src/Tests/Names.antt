-- ===== src/Tests/Names.antt =====
-- The directory map of the sample, and the calls that read it.
use bitfs.Base.{ℕ, ◌≡◌, refl, ◌↔◌, ◌⊎◌, true, List, [], ◌∷◌, ok, arith}
use bitfs.Base.Int.{pos, to_int}
use bitfs.Base.Text.{Text, text_ord, text_less, text_eq, c_str}
use bitfs.Base.Ordered.{contains, same, insert, IsSorted}
use bitfs.Base.Dict.{lookup, set}
use bitfs.Boost.{slash}
use bitfs.Tree.{
  Tree, empty_tree, at, find_text, has_dir, has_file, insert_entry, fill_components, add_file,
  fill_from, fill_tree,
}
use bitfs.Tree.Paths.{IsFile, IsDir}
use bitfs.Tree.Entries.{IsEntry}
use bitfs.Fs.{
  Stat, no_entry, zero_stat, dir_mode, file_mode, get_file_index, get_file_size, dir_key, getattr,
  open_file, fill_names, readdir,
}
use bitfs.Fs.Attributes.{IsFirst, dir_stat, regular_stat, getattr_cases, open_file_cases}
use bitfs.Fs.Listing.{child, readdir_cases, getattr-entry}
use bitfs.Client.Serve.{keep_names}
use bitfs.Tests.Samples.{split_slash, split_law, sample, sample_clean, file_ab}

abbrev dir_a : Text
dir_a = b'a' ∷ []

abbrev mounted : Tree
mounted = fill_tree split_slash sample empty_tree

-- To unfold this is to unfold the functions of the directory map and of the keys.
open_map : ℕ
unfolding has_dir has_file contains fill_tree fill_from add_file fill_components split_slash insert
    text_less same c_str text_eq at lookup insert_entry set dir_key get_file_index get_file_size
    to_int find_text
open_map = 0

listing_a : (readdir keep_names mounted (slash ∷ dir_a) []).1 ≡ (b'b' ∷ []) ∷ []
unfolding readdir open_map
listing_a = refl

attributes_ab : getattr sample mounted (slash ∷ file_ab) ≡ ok (pos 0, regular_stat (pos 5))
unfolding getattr open_map
attributes_ab = refl

getattr_cases_example :
    let result = getattr sample mounted (slash ∷ file_ab) in
    (IsDir sample file_ab × (result ≡ ok (pos 0, dir_stat)))
    ⊎ ((¬ IsDir sample file_ab)
        × ((k : ℕ) × IsFirst sample file_ab k
            × (result ≡ ok (pos 0, regular_stat (to_int (sample.file_size k))))))
    ⊎ ((¬ IsDir sample file_ab) × (¬ IsFile sample file_ab) × (result ≡ ok (no_entry, zero_stat)))
getattr_cases_example =
    getattr_cases split_slash split_law sample sample_clean file_ab (omega arith)

open_file_cases_example :
    let result = open_file mounted (slash ∷ dir_a) in
    (IsFile sample dir_a × (result ≡ pos 0)) ⊎ ((¬ IsFile sample dir_a) × (result ≡ no_entry))
open_file_cases_example =
    open_file_cases split_slash split_law sample sample_clean dir_a (omega arith)

readdir_cases_example :
    let result = readdir keep_names mounted (slash ∷ dir_a) [] in
    (IsDir sample dir_a
      × ((names : List Text) × IsSorted names
          × ((n : Text) → (contains names n ≡ true) ↔ IsEntry sample dir_a n)
          × (result ≡ (pos 0, fill_names keep_names names [], mounted))))
    ⊎ ((¬ IsDir sample dir_a) × (result ≡ (no_entry, [], mounted)))
readdir_cases_example = readdir_cases split_slash split_law sample keep_names dir_a [] (omega arith)

b_listed : contains (at (dir_key (slash ∷ dir_a)) mounted.entries) (b'b' ∷ []) ≡ true
unfolding open_map
b_listed = refl

getattr-entry_example :
    (stat : Stat) × (getattr sample mounted (slash ∷ child dir_a (b'b' ∷ [])) ≡ ok (pos 0, stat))
    × ((stat.st_mode ≡ dir_mode) ⊎ (stat.st_mode ≡ file_mode))
getattr-entry_example =
    getattr-entry split_slash split_law sample sample_clean dir_a (b'b' ∷ []) (omega arith) b_listed
