-- ===== src/Client/Serve.antt =====
-- The calls that FUSE makes of a mounted torrent, one after the other.
use bitfs.Base.{
  ℕ, suc, ◌+◌, ◌-◌, min, ◌≤◌, ◌≡◌, refl, ap, inl, inr, false, List, [], ◌∷◌, ◌++◌, Outcome, ok,
  ◌>>=◌, length,
}
use bitfs.Base.Int.{ℤ, pos, int_max, to_int}
use bitfs.Base.Text.{Text, NoNul}
use bitfs.Base.Bytes.{bytes, splice}
use bitfs.Boost.{slash, IsSplit}
use bitfs.Torrent.{TorrentInfo, IsLawful}
use bitfs.Session.{Session, IsServing}
use bitfs.Tree.{Tree, empty_tree, fill_tree}
use bitfs.Tree.Paths.{IsFile}
use bitfs.Fs.{Stat, no_entry, zero_stat, getattr, open_file, fill_names, readdir}
use bitfs.Fs.Attributes.{NoNulPaths, dir_stat, regular_stat, getattr_cases}
use bitfs.Fs.Listing.{readdir_cases}
use bitfs.Fs.Read.{Io, read}
use bitfs.Fs.Read.Wait.{Loaded}
use bitfs.Fs.Read.Copy.{piece_data}
use bitfs.Fs.Read.Correct.{read_correct}

-- A call of a wrapper, with its path behind the first separator.
pub data Request : Type 0 where
  getattr_call open_call readdir_call : Text → Request
  read_call : Text → List ℕ → ℕ → ℕ → Request

pub data Reply : Type 0 where
  attributes : ℤ → Stat → Reply
  opened : ℤ → Reply
  listed : ℤ → List Text → Reply
  bytes_read : ℤ → List ℕ → Reply

-- What the FS object and the globals of FS.cpp hold.
pub record Mount (S : Session) : Type 0 where
  pub tree : Tree
  pub io : Io S

-- A filler that keeps the names.
abbrev pub keep_names : List Text → Text → List Text
keep_names names name = names ++ (name ∷ [])

module _ {S : Session} (ti : TorrentInfo) (fuel polls : ℕ) where
  -- getattr_wrapper, open_wrapper, readdir_wrapper (with a filler that keeps the names) and
  -- read_wrapper.
  unfoldable pub handle : Request → Mount S → Outcome (Reply × Mount S)
  handle (getattr_call s) m =
      getattr ti m.tree (slash ∷ s) >>= λ (status, stat). ok (attributes status stat, m)
  handle (open_call s) m = ok (opened (open_file m.tree (slash ∷ s)), m)
  handle (readdir_call s) m =
      let (status, names, tree) = readdir keep_names m.tree (slash ∷ s) [] in
      ok (listed status names, record m { tree = tree })
  handle (read_call s buf size offset) m =
      read ti fuel polls (slash ∷ s) buf size offset m.io >>= λ (count, buf', io).
      ok (bytes_read count buf', record m { io = io })

  unfoldable pub serve : List Request → Mount S → Outcome (List Reply × Mount S)
  serve [] m = ok ([], m)
  serve (r ∷ requests) m = handle r m >>= λ (reply, m').
      serve requests m' >>= λ (replies, m''). ok (reply ∷ replies, m'')

-- What FUSE keeps to: paths have no NUL, and read is called for an open file with a buffer of the
-- size asked for, which is no larger than the fuel.
abbrev pub IsProper : TorrentInfo → ℕ → Request → Type 0
IsProper ti fuel (getattr_call s) = NoNul s
IsProper ti fuel (open_call s) = NoNul s
IsProper ti fuel (readdir_call s) = NoNul s
IsProper ti fuel (read_call s buf size offset) =
    NoNul s × IsFile ti s × (size ≤ int_max) × (size ≤ length buf) × (size ≤ fuel)

abbrev pub AllProper : TorrentInfo → ℕ → List Request → Type 0
AllProper ti fuel [] = Unit
AllProper ti fuel (r ∷ requests) = IsProper ti fuel r × AllProper ti fuel requests

module _ (split : Text → List Text) (split_law : IsSplit split) {S : Session} (ti : TorrentInfo)
    (content : ℕ → ℕ) (L : IsServing S (piece_data ti content)) (law : IsLawful ti) (fuel polls : ℕ)
    (bounded : L.bound ≤ polls) (clean : NoNulPaths ti)
    (sizes : (k : ℕ) → ti.file_size k ≤ int_max) where
  -- The directory map is that of the torrent, the mutex is free, and every buffer is its piece.
  pub record IsServiceable (m : Mount S) : Type 0 where
    pub tree_as_mounted : m.tree ≡ fill_tree split ti empty_tree
    pub mutex_free : m.io.locked ≡ false
    pub buffers_correct : Loaded (piece_data ti content) m.io.buffers

  handle-IsServiceable :
      (r : Request) (m : Mount S)
      → IsProper ti fuel r
      → IsServiceable m
      → (reply : Reply) × (m' : Mount S) × (handle ti fuel polls r m ≡ ok (reply, m'))
        × IsServiceable m'
  unfolding handle
  handle-IsServiceable (getattr_call s) m h v = elim (getattr_cases split split_law ti clean s h) [
    | inl (_, e) ↦ (attributes (pos 0) dir_stat, m, rw (v.tree_as_mounted, e) refl, v)
    | inr (inl (_, (k, _, e))) ↦ (
      attributes (pos 0) (regular_stat (to_int (ti.file_size k))),
      m,
      rw (v.tree_as_mounted, e) refl,
      v,
    )
    | inr (inr (_, _, e)) ↦ (attributes no_entry zero_stat, m, rw (v.tree_as_mounted, e) refl, v)
  ]
  handle-IsServiceable (open_call s) m h v = (opened (open_file m.tree (slash ∷ s)), m, refl, v)
  handle-IsServiceable (readdir_call s) m h v =
      elim (readdir_cases split split_law ti keep_names s [] h) [
        | inl (_, (names, _, _, e)) ↦ (
          listed (pos 0) (fill_names keep_names names []),
          record m { tree = fill_tree split ti empty_tree },
          rw (v.tree_as_mounted, e) refl,
          record {
            tree_as_mounted = refl;
            mutex_free = v.mutex_free;
            buffers_correct = v.buffers_correct;
          },
        )
        | inr (_, e) ↦ (
          listed no_entry [],
          record m { tree = fill_tree split ti empty_tree },
          rw (v.tree_as_mounted, e) refl,
          record {
            tree_as_mounted = refl;
            mutex_free = v.mutex_free;
            buffers_correct = v.buffers_correct;
          },
        )
      ]
  handle-IsServiceable (read_call s buf size offset) m (h, f, small, room, enough) v =
      let (k, _, (io, e, l, free)) =
        read_correct ti content L law fuel polls bounded s buf size offset m.io clean h f sizes
          small room enough v.mutex_free v.buffers_correct in
      (
        bytes_read (pos (min size (ti.file_size k - offset))) (
            splice buf 0
              (bytes content (ti.file_offset k + offset) (min size (ti.file_size k - offset)))),
        record m { io = io },
        rw e refl,
        record { tree_as_mounted = v.tree_as_mounted; mutex_free = free; buffers_correct = l },
      )

  -- With a session that serves, fuel for its bound, and a lawful torrent whose files' sizes fit
  -- int and whose paths have no NUL: whatever proper calls come, in whatever order, every one is
  -- answered, none is undefined and none waits for ever. If the directory map was as mounted, the
  -- mutex free and every kept buffer correct before, they are so after the calls.
  pub serve-IsServiceable :
      (requests : List Request) (m : Mount S)
      → AllProper ti fuel requests
      → IsServiceable m
      → (replies : List Reply) × (m' : Mount S) × (serve ti fuel polls requests m
          ≡ ok (replies, m'))
        × IsServiceable m'
        × (length replies ≡ length requests)
  unfolding serve
  serve-IsServiceable [] m h v = ([], m, refl, v, refl)
  serve-IsServiceable (r ∷ requests) m h v =
      let (reply, m1, e, v1) = handle-IsServiceable r m h.0 v in
      let (replies, m2, f, v2, n) = serve-IsServiceable requests m1 h.1 v1 in
      (reply ∷ replies, m2, rw (e, f) refl, v2, ap suc n)
