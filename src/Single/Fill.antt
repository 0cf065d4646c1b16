-- ===== src/Single/Fill.antt =====
-- The loops of init_bitfs of bitFS.cpp that fill the directory map, and those of FS.cpp.
use bitfs.Base.{
  ℕ, zero, suc, ◌+◌, ◌-◌, ◌≡◌, refl, sym, ap, ◌∙◌, ◌≢◌, List, [], ◌∷◌, ◌++◌, arith, length,
  append_assoc, length-append,
}
use bitfs.Base.Text.{Text, text_ord}
use bitfs.Base.Ordered.{insert}
use bitfs.Boost.{IsSplit}
use bitfs.Torrent.{TorrentInfo}
use bitfs.Tree.{Tree, root, below, insert_entry, fill_components, add_file, fill_from, fill_tree}

-- strs[j]; an index that is out of range is not met.
unfoldable pub component : List Text → ℕ → Text
component [] j = []
component (name ∷ strs) zero = name
component (name ∷ strs) (suc j) = component strs j

-- for (j = 0; j != strs.size() - 1; j++), with so many rounds left: dirpath, j and the map.
unfoldable pub inner_loop : List Text → ℕ → ℕ → Text → Tree → Text × ℕ × Tree
unfolding component
inner_loop strs zero j dirpath t = (dirpath, j, t)
inner_loop strs (suc rounds) j dirpath t =
    let entries = insert_entry dirpath (component strs j) t.entries in
    let dirpath' = (dirpath ++ component strs j) ++ root in
    inner_loop strs rounds (j + 1) dirpath'
      (record t { entries = entries; dirmap = insert dirpath' t.dirmap })

-- What stands behind the inner loop.
unfoldable pub last_component : List Text → Text × ℕ × Tree → Tree
unfolding component
last_component strs (dirpath, j, t) = record t {
  filenames = insert ((dirpath ++ component strs j) ++ root) t.filenames;
  entries = insert_entry dirpath (component strs j) t.entries;
}

module _ (split : Text → List Text) where
  -- One round of the loop over the files.
  unfoldable pub bitfs_add_file : Text → Tree → Tree
  unfolding inner_loop last_component
  bitfs_add_file path t =
      let strs = split path in
      last_component strs
        (inner_loop strs (length strs - 1) 0 root (record t { dirmap = insert root t.dirmap }))

  -- for (int i = 0; i < num_files(); i++), from round i on with n rounds left.
  unfoldable pub bitfs_fill_from : TorrentInfo → ℕ → ℕ → Tree → Tree
  unfolding bitfs_add_file
  bitfs_fill_from ti zero i t = t
  bitfs_fill_from ti (suc n) i t = bitfs_fill_from ti n (i + 1) (bitfs_add_file (ti.file_path i) t)

  unfoldable pub bitfs_fill : TorrentInfo → Tree → Tree
  unfolding bitfs_fill_from
  bitfs_fill ti t = bitfs_fill_from ti ti.num_files 0 t

component-append :
    (xs ys : List Text) (name : Text) → component (xs ++ (name ∷ ys)) (length xs) ≡ name
unfolding component
component-append [] ys name = refl
component-append (x ∷ xs) ys name = component-append xs ys name

-- A round of the inner loop, for the component that it meets.
inner_loop_step :
    (strs : List Text) (n j : ℕ) (dirpath : Text) (t : Tree) (name : Text)
    → component strs j ≡ name
    → inner_loop strs (suc n) j dirpath t
      ≡ inner_loop strs n (j + 1) (below dirpath name) (record t {
        entries = insert_entry dirpath name t.entries;
        dirmap = insert (below dirpath name) t.dirmap;
      })
unfolding inner_loop
inner_loop_step strs n j dirpath t name here =
    ap
      (λ c. inner_loop strs n (j + 1) ((dirpath ++ c) ++ root) (record t {
        entries = insert_entry dirpath c t.entries;
        dirmap = insert ((dirpath ++ c) ++ root) t.dirmap;
      }))
      here
    ∙ ap
        (λ d.
          inner_loop strs n (j + 1) d (record t {
            entries = insert_entry dirpath name t.entries;
            dirmap = insert d t.dirmap;
          }))
        (append_assoc dirpath name root)

last_component_step :
    (strs : List Text) (j : ℕ) (dirpath : Text) (t : Tree) (name : Text)
    → component strs j ≡ name
    → last_component strs (dirpath, j, t) ≡ record t {
      filenames = insert (below dirpath name) t.filenames;
      entries = insert_entry dirpath name t.entries;
    }
unfolding last_component
last_component_step strs j dirpath t name here =
    ap
      (λ (c : Text). record t {
        filenames = insert ((dirpath ++ c) ++ root) t.filenames;
        entries = insert_entry dirpath c t.entries;
      })
      here
    ∙ ap
        (λ (d : Text). record t {
          filenames = insert d t.filenames;
          entries = insert_entry dirpath name t.entries;
        })
        (append_assoc dirpath name root)

-- From component to component both loops do the same.
loops_agree :
    (xs rest : List Text) (name dirpath : Text) (t : Tree) (strs : List Text) (j : ℕ)
    → strs ≡ xs ++ (name ∷ rest)
    → j ≡ length xs
    → last_component strs (inner_loop strs (length rest) j dirpath t)
      ≡ fill_components dirpath (name ∷ rest) t
unfolding inner_loop fill_components
loops_agree xs [] name dirpath t strs j e at_j =
    last_component_step strs j dirpath t name
      (ap (component strs) at_j ∙ ap (λ s. component s (length xs)) e ∙ component-append xs [] name)
loops_agree xs (next ∷ rest) name dirpath t strs j e at_j =
    let here : component strs j ≡ name =
      ap (component strs) at_j
      ∙ ap (λ s. component s (length xs)) e
      ∙ component-append xs (next ∷ rest) name in
    let rounds : length (next ∷ rest) ≡ suc (length rest) = omega arith in
    ap (λ n. last_component strs (inner_loop strs n j dirpath t)) rounds
    ∙ ap (last_component strs) (inner_loop_step strs (length rest) j dirpath t name here)
    ∙ loops_agree (xs ++ (name ∷ [])) rest next (below dirpath name) _ strs (j + 1)
        (e ∙ sym (append_assoc xs (name ∷ []) (next ∷ rest)))
        (omega (arith, at_j, length-append xs (name ∷ [])))

module _ (split : Text → List Text) (law : IsSplit split) where
  files_agree : (path : Text) (t : Tree) → bitfs_add_file split path t ≡ add_file split path t
  unfolding bitfs_add_file add_file
  files_agree path t = go (split path) (law.some_component path)
    where
      go :
          (strs : List Text)
          → strs ≢ []
          → last_component strs (
              inner_loop strs (length strs - 1) 0 root (record t { dirmap = insert root t.dirmap }))
            ≡ fill_components root strs (record t { dirmap = insert root t.dirmap })
      go [] h = absurd (h refl)
      go (name ∷ rest) h =
          let rounds : length (name ∷ rest) - 1 ≡ length rest = omega arith in
          rw rounds (loops_agree [] rest name root _ (name ∷ rest) 0 refl refl)

  fill_from_agree :
      (ti : TorrentInfo) (n i : ℕ) (t : Tree)
      → bitfs_fill_from split ti n i t ≡ fill_from split ti n i t
  unfolding bitfs_fill_from fill_from
  fill_from_agree ti zero i t = refl
  fill_from_agree ti (suc n) i t =
      ap (bitfs_fill_from split ti n (i + 1)) (files_agree (ti.file_path i) t)
      ∙ fill_from_agree ti n (i + 1) _

  -- From any map both programs' loops lead to the same map.
  pub bitfs_fill-eq-fill_tree :
      (ti : TorrentInfo) (t : Tree) → bitfs_fill split ti t ≡ fill_tree split ti t
  unfolding bitfs_fill fill_tree
  bitfs_fill-eq-fill_tree ti t = fill_from_agree ti ti.num_files 0 t
