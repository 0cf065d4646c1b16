-- ===== src/Client/Start.antt =====
-- From init_bitfs to the calls that FUSE makes afterwards.
use bitfs.Base.{ℕ, ◌≤◌, ◌≡◌, refl, ap, false, List, [], some, ok, length}
use bitfs.Base.Int.{int_max}
use bitfs.Base.Text.{Text}
use bitfs.Base.Dict.{lookup}
use bitfs.Boost.{IsSplit}
use bitfs.Torrent.{TorrentInfo, IsLawful}
use bitfs.Session.{Session, IsServing}
use bitfs.Tree.{empty_tree, fill_tree}
use bitfs.Fs.Attributes.{NoNulPaths}
use bitfs.Fs.Init.{settings, Library, Mounted, clear_priorities, init_bitfs, init_bitfs_ok}
use bitfs.Fs.Read.Wait.{Loaded}
use bitfs.Fs.Read.Copy.{piece_data}
use bitfs.Client.Serve.{Request, Reply, Mount, serve, AllProper, serve-IsServiceable}

-- The globals when init_bitfs has returned: no buffers, and the mutex free.
abbrev pub start : {S : Session} → Mounted S → S.State → Mount S
start mounted sess = record {
  tree = mounted.tree;
  io = record { sess = sess; buffers = []; locked = false };
}

no_buffers-Loaded : (piece_data : ℕ → List ℕ) → Loaded piece_data []
unfolding lookup
no_buffers-Loaded piece_data p b e = cc

module _ (split : Text → List Text) (split_law : IsSplit split) {S : Session} (ti : TorrentInfo)
    (content : ℕ → ℕ) (L : IsServing S (piece_data ti content)) (law : IsLawful ti) (fuel polls : ℕ)
    (bounded : L.bound ≤ polls) (clean : NoNulPaths ti) (sizes : (k : ℕ) → ti.file_size k ≤ int_max)
    (lib : Library S) where
  -- Where the torrent file loads, the torrent is added, the session serves it, the torrent is
  -- lawful, its files' sizes fit int and its paths have no NUL, init_bitfs on empty globals mounts
  -- it, and whatever proper calls come afterwards, in whatever order, every one is answered.
  pub init_bitfs-serve :
      (path : Text) (added : S.State)
      → lib.load path ≡ some ti
      → lib.add_torrent (lib.new_session settings) ti ≡ some added
      → (requests : List Request) → AllProper ti fuel requests
      → let mounted = init_bitfs split lib path empty_tree in
        (sess : S.State) × (mounted.torrent ≡ some (ti, sess))
        × ((replies : List Reply) × (m : Mount S) × (serve ti fuel polls requests
                (start mounted sess)
              ≡ ok (replies, m))
            × (length replies ≡ length requests))
  init_bitfs-serve path added loads adds requests proper =
      let sess = clear_priorities S ti added in
      let done = init_bitfs_ok split lib path empty_tree ti added loads adds in
      let m0 : Mount S =
        start (record { tree = fill_tree split ti empty_tree; torrent = some (ti, sess) }) sess in
      let (replies, m, e, _, n) =
        serve-IsServiceable split split_law ti content L law fuel polls bounded clean sizes requests
          m0 proper
          (record {
            tree_as_mounted = refl;
            mutex_free = refl;
            buffers_correct = no_buffers-Loaded (piece_data ti content);
          }) in
      (sess, ap (λ (d : Mounted S). d.torrent) done, (replies, m, rw done e, n))
