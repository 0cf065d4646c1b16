-- ===== src/Single/Serve.antt =====
-- The handlers of bitFS.cpp that have the text of those of FS.cpp, and the calls that FUSE makes of
-- all its handlers, one after the other.
use bitfs.Base.{
  ℕ, suc, ◌+◌, ◌-◌, min, ◌≤◌, ◌≡◌, refl, ap, inl, inr, Bool, List, [], ◌∷◌, Outcome, ok, ◌>>=◌,
  length,
}
use bitfs.Base.Int.{ℤ, pos, int_max}
use bitfs.Base.Text.{Text}
use bitfs.Base.Bytes.{bytes, splice}
use bitfs.Boost.{slash, IsSplit}
use bitfs.Torrent.{TorrentInfo, IsLawful}
use bitfs.Session.{Session, IsServing}
use bitfs.Tree.{Tree, empty_tree, fill_tree, has_file, has_dir}
use bitfs.Fs.{no_entry, get_file_index, get_file_size, open_file, fill_names, readdir}
use bitfs.Fs.Attributes.{NoNulPaths}
use bitfs.Fs.Listing.{readdir_cases}
use bitfs.Fs.Read.{Io, get_piece_buffers}
use bitfs.Fs.Read.Copy.{piece_data}
use bitfs.Client.Serve.{
  Request, getattr_call, open_call, readdir_call, read_call, Reply, attributes, opened, listed,
  bytes_read, Mount, keep_names, IsProper, AllProper, IsServiceable,
}
use bitfs.Single.{counted, bitfs_getattr, bitfs_read}
use bitfs.Single.Wait.{counted-IsServing}
use bitfs.Single.Read.{bitfs_read_correct}

-- bool has_file(const char *)
abbrev bitfs_has_file : Tree → Text → Bool
bitfs_has_file = has_file

-- bool has_dir(const char *)
abbrev bitfs_has_dir : Tree → Text → Bool
bitfs_has_dir = has_dir

-- static int bitfs_readdir(const char *, void *, fuse_fill_dir_t, ...)
abbrev bitfs_readdir : Tree → Text → List Text → ℤ × List Text × Tree
bitfs_readdir = readdir keep_names

-- static int get_file_index(const char *)
abbrev bitfs_get_file_index : TorrentInfo → Text → Outcome ℤ
bitfs_get_file_index = get_file_index

-- static int get_file_size(int)
abbrev bitfs_get_file_size : TorrentInfo → ℤ → Outcome ℤ
bitfs_get_file_size = get_file_size

-- static int bitfs_open(const char *, struct fuse_file_info *)
abbrev bitfs_open : Tree → Text → ℤ
bitfs_open = open_file

-- void get_piece_buffers()
abbrev bitfs_get_piece_buffers : (S : Session) → Io (counted S) → Io (counted S)
bitfs_get_piece_buffers S = get_piece_buffers

module _ (S : Session) (ti : TorrentInfo) (set_download_limit : S.State → ℕ → S.State)
    (fuel polls : ℕ) where
  -- bitfs_getattr, bitfs_open, bitfs_readdir (with a filler that keeps the names) and bitfs_read.
  unfoldable pub bitfs_handle : Request → Mount (counted S) → Outcome (Reply × Mount (counted S))
  unfolding bitfs_getattr bitfs_read
  bitfs_handle (getattr_call s) m =
      let (status, stat) = bitfs_getattr ti m.tree (slash ∷ s) in ok (attributes status stat, m)
  bitfs_handle (open_call s) m = ok (opened (bitfs_open m.tree (slash ∷ s)), m)
  bitfs_handle (readdir_call s) m =
      let (status, names, tree) = bitfs_readdir m.tree (slash ∷ s) [] in
      ok (listed status names, record m { tree = tree })
  bitfs_handle (read_call s buf size offset) m =
      bitfs_read S ti set_download_limit fuel polls (slash ∷ s) buf size offset m.io
      >>= λ (count, buf', io). ok (bytes_read count buf', record m { io = io })

  unfoldable pub bitfs_serve :
      List Request → Mount (counted S) → Outcome (List Reply × Mount (counted S))
  unfolding bitfs_handle
  bitfs_serve [] m = ok ([], m)
  bitfs_serve (r ∷ requests) m = bitfs_handle r m >>= λ (reply, m').
      bitfs_serve requests m' >>= λ (replies, m''). ok (reply ∷ replies, m'')

module _ (split : Text → List Text) (split_law : IsSplit split) {S : Session} (ti : TorrentInfo)
    (content : ℕ → ℕ) (L : IsServing S (piece_data ti content)) (law : IsLawful ti) (fuel polls : ℕ)
    (bounded : L.bound ≤ polls) (clean : NoNulPaths ti) (sizes : (k : ℕ) → ti.file_size k ≤ int_max)
    (set_download_limit : S.State → ℕ → S.State)
    (limit_kept : (s : S.State) (k q : ℕ)
      → L.Coming s q
      → L.Coming (set_download_limit s k) q) where
  abbrev pub Serviceable : Mount (counted S) → Type 0
  Serviceable =
      IsServiceable split split_law ti content (counted-IsServing L) law fuel polls bounded clean
        sizes

  bitfs_handle-Serviceable :
      (r : Request) (m : Mount (counted S))
      → IsProper ti fuel r
      → Serviceable m
      → (reply : Reply) × (m' : Mount (counted S)) × (bitfs_handle S ti set_download_limit fuel
            polls r m
          ≡ ok (reply, m'))
        × Serviceable m'
  unfolding bitfs_handle
  bitfs_handle-Serviceable (getattr_call s) m h v = (_, m, refl, v)
  bitfs_handle-Serviceable (open_call s) m h v =
      (opened (bitfs_open m.tree (slash ∷ s)), m, refl, v)
  bitfs_handle-Serviceable (readdir_call s) m h v =
      let t = fill_tree split ti empty_tree in
      let v' : Serviceable (record m { tree = t }) = record {
        tree_as_mounted = refl;
        mutex_free = v.mutex_free;
        buffers_correct = v.buffers_correct;
      } in
      elim (readdir_cases split split_law ti keep_names s [] h) [
        | inl (_, (names, _, _, e)) ↦ (
          listed (pos 0) (fill_names keep_names names []),
          record m { tree = t },
          rw (v.tree_as_mounted, e) refl,
          v',
        )
        | inr (_, e) ↦
            (listed no_entry [], record m { tree = t }, rw (v.tree_as_mounted, e) refl, v')
      ]
  bitfs_handle-Serviceable (read_call s buf size offset) m (h, f, small, room, enough) v =
      let (k, _, (io, e, l, free)) =
        bitfs_read_correct ti content L law fuel polls bounded set_download_limit limit_kept s buf
          size offset m.io clean h f sizes small room enough v.mutex_free v.buffers_correct in
      (
        bytes_read (pos (min size (ti.file_size k - offset))) (
            splice buf 0
              (bytes content (ti.file_offset k + offset) (min size (ti.file_size k - offset)))),
        record m { io = io },
        rw e refl,
        record { tree_as_mounted = v.tree_as_mounted; mutex_free = free; buffers_correct = l },
      )

  -- With a session that serves, also under any download limit, fuel for its bound, and a lawful
  -- torrent whose files' sizes fit int and whose paths have no NUL: whatever proper calls come to the
  -- handlers of the earlier program, in whatever order, every one is answered. If the directory map
  -- was as mounted, the mutex free and every kept buffer correct before, they are so afterwards.
  pub bitfs_serve-Serviceable :
      (requests : List Request) (m : Mount (counted S))
      → AllProper ti fuel requests
      → Serviceable m
      → (replies : List Reply) × (m' : Mount (counted S)) × (bitfs_serve S ti set_download_limit
            fuel polls requests m
          ≡ ok (replies, m'))
        × Serviceable m'
        × (length replies ≡ length requests)
  unfolding bitfs_serve
  bitfs_serve-Serviceable [] m h v = ([], m, refl, v, refl)
  bitfs_serve-Serviceable (r ∷ requests) m h v =
      let (reply, m1, e, v1) = bitfs_handle-Serviceable r m h.0 v in
      let (replies, m2, f, v2, n) = bitfs_serve-Serviceable requests m1 h.1 v1 in
      (reply ∷ replies, m2, rw (e, f) refl, v2, ap suc n)
