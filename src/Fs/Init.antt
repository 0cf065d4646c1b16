-- ===== src/Fs/Init.antt =====
-- FS::init_bitfs of FS.cpp.
use bitfs.Base.{
  ℕ, zero, suc, ◌+◌, ◌-◌, ◌≡◌, refl, Bool, false, List, [], ◌∷◌, Option, none, some, arith, ltb,
  leb, ◌&&◌, if◌then◌else◌,
}
use Prim.Native.String.{String}
use bitfs.Base.Int.{ℤ, pos}
use bitfs.Base.Text.{Text}
use bitfs.Torrent.{TorrentInfo}
use bitfs.Session.{Session}
use bitfs.Tree.{Tree, fill_tree}
use bitfs.Fs.Read.Priority.{recorder}

-- What is written into the settings_pack, under libtorrent's names.
pub data Value : Type 0 where
  text : String → Value
  flag : Bool → Value
  number : ℤ → Value
  named : String → Value

abbrev pub settings : List (String × Value)
settings =
    ("listen_interfaces", text "0.0.0.0:6881")
    ∷ ("strict_end_game_mode", flag false)
    ∷ ("alert_mask", named "progress_notification | peer_log_notification")
    ∷ ("enable_dht", flag false)
    ∷ ("smooth_connects", flag false)
    ∷ ("connection_speed", number (pos 10000))
    ∷ ("choking_algorithm", named "fixed_slots_choker")
    ∷ ("unchoke_slots_limit", number (pos 1000))
    ∷ ("optimistic_unchoke_interval", number (pos 1))
    ∷ ("num_optimistic_unchoke_slots", number (pos 20))
    ∷ ("auto_manage_interval", number (pos 1))
    ∷ ("min_reconnect_time", number (pos 2))
    ∷ []

-- What init_bitfs takes from libtorrent: a new session with these settings, the constructor of
-- torrent_info on the path of a torrent file, and add_torrent; `none` stands for an error code.
pub record Library (S : Session) : Type 0 where
  pub new_session : List (String × Value) → S.State
  pub load : Text → Option TorrentInfo
  pub add_torrent : S.State → TorrentInfo → Option S.State

-- What init_bitfs leaves behind: the directory map, and the session with the torrent, if added.
pub record Mounted (S : Session) : Type 0 where
  pub tree : Tree
  pub torrent : Option (TorrentInfo × S.State)

-- for (int i = 10; i < num_pieces; i++) piece_priority(i, 0), from i on with n rounds left.
unfoldable pub clear_from : (S : Session) → ℕ → ℕ → S.State → S.State
clear_from S zero i sess = sess
clear_from S (suc n) i sess = clear_from S n (i + 1) (S.piece_priority sess i 0)

unfoldable pub clear_priorities : (S : Session) → TorrentInfo → S.State → S.State
unfolding clear_from
clear_priorities S ti sess = clear_from S (ti.num_pieces - 10) 10 sess

module _ {S : Session} (split : Text → List Text) (lib : Library S) where
  added : TorrentInfo → Tree → Option S.State → Mounted S
  added ti t none = record { tree = t; torrent = none }
  added ti t (some sess) = record {
    tree = fill_tree split ti t;
    torrent = some (ti, clear_priorities S ti sess);
  }

  loaded : Tree → Option TorrentInfo → Mounted S
  loaded t none = record { tree = t; torrent = none }
  loaded t (some ti) = added ti t (lib.add_torrent (lib.new_session settings) ti)

  -- void *FS::init_bitfs(struct fuse_conn_info *). It returns early where an error is set.
  unfoldable pub init_bitfs : Text → Tree → Mounted S
  unfolding loaded added
  init_bitfs torrent_file_path t = loaded t (lib.load torrent_file_path)

  pub init_bitfs_ok :
      (path : Text) (t : Tree) (ti : TorrentInfo) (sess : S.State)
      → lib.load path ≡ some ti
      → lib.add_torrent (lib.new_session settings) ti ≡ some sess
      → init_bitfs path t
        ≡ record { tree = fill_tree split ti t; torrent = some (ti, clear_priorities S ti sess) }
  unfolding init_bitfs
  init_bitfs_ok path t ti sess e f = rw (e, loaded, f, added) refl

clear_from_lem :
    (n i : ℕ) (s : ℕ → ℕ) (q : ℕ)
    → clear_from recorder n i s q ≡ (if leb i q && ltb q (i + n) then 0 else s q)
unfolding clear_from
clear_from_lem zero i s q = ground arith
clear_from_lem (suc n) i s q =
    ground (arith, clear_from_lem n (i + 1) (recorder.piece_priority s i 0) q)

-- init_bitfs sets the priority of every piece from the eleventh on to 0. The first ten pieces
-- keep the priority that they have.
pub clear_priorities_lem :
    (ti : TorrentInfo) (s : ℕ → ℕ) (q : ℕ)
    → clear_priorities recorder ti s q ≡ (if leb 10 q && ltb q ti.num_pieces then 0 else s q)
unfolding clear_priorities clear_from
clear_priorities_lem ti s q = ground (arith, clear_from_lem (ti.num_pieces - 10) 10 s q)
