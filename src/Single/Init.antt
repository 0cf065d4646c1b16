-- ===== src/Single/Init.antt =====
-- init_bitfs, init_fuse and main of bitFS.cpp.
use Prim.Native.String.{String}
use bitfs.Base.{ℕ, ◌≡◌, refl, sym, ap, ◌∙◌, false, List, [], ◌∷◌, Option, none, some}
use bitfs.Base.Text.{Text}
use bitfs.Torrent.{TorrentInfo}
use bitfs.Session.{Session}
use bitfs.Boost.{IsSplit}
use bitfs.Tree.{Tree}
use bitfs.Single.Fill.{bitfs_fill, bitfs_fill-eq-fill_tree}
use bitfs.Fs.Init.{Value, text, flag, named, Library, Mounted, settings, init_bitfs, init_bitfs_ok}
use bitfs.Client.{Operations, FuseMain}

abbrev pub bitfs_settings : List (String × Value)
bitfs_settings =
    ("listen_interfaces", text "0.0.0.0:6881,0.0.0.0:6882,0.0.0.0:6883,0.0.0.0:6884")
    ∷ ("strict_end_game_mode", flag false)
    ∷ ("alert_mask", named "progress_notification")
    ∷ ("enable_dht", flag false)
    ∷ []

module _ {S : Session} (split : Text → List Text) (lib : Library S)
    (set_download_limit : S.State → ℕ → S.State) (resume : S.State → S.State) where
  unfoldable bitfs_added : TorrentInfo → Tree → Option S.State → Mounted S
  bitfs_added ti t none = record { tree = t; torrent = none }
  bitfs_added ti t (some sess) = record {
    tree = bitfs_fill split ti t;
    torrent = some (ti, resume (set_download_limit sess 1));
  }

  unfoldable bitfs_loaded : Tree → Option TorrentInfo → Mounted S
  unfolding bitfs_added
  bitfs_loaded t none = record { tree = t; torrent = none }
  bitfs_loaded t (some ti) = bitfs_added ti t (lib.add_torrent (lib.new_session bitfs_settings) ti)

  -- void *init_bitfs(struct fuse_conn_info *)
  unfoldable pub bitfs_init : Text → Tree → Mounted S
  unfolding bitfs_loaded
  bitfs_init torrent_file_path t = bitfs_loaded t (lib.load torrent_file_path)

  bitfs_init_ok :
      (path : Text) (t : Tree) (ti : TorrentInfo) (sess : S.State)
      → lib.load path ≡ some ti
      → lib.add_torrent (lib.new_session bitfs_settings) ti ≡ some sess
      → bitfs_init path t ≡ record {
        tree = bitfs_fill split ti t;
        torrent = some (ti, resume (set_download_limit sess 1));
      }
  unfolding bitfs_init
  bitfs_init_ok path t ti sess e f = rw (e, bitfs_loaded, f, bitfs_added) refl

  -- Where boost::split gives at least one component of each path, the torrent file loads and the
  -- torrent is added under the settings of either program, both programs fill the same directory
  -- map.
  pub bitfs_init-tree :
      IsSplit split
      → (path : Text) (t : Tree) (ti : TorrentInfo) (sess earlier : S.State)
      → lib.load path ≡ some ti
      → lib.add_torrent (lib.new_session settings) ti ≡ some sess
      → lib.add_torrent (lib.new_session bitfs_settings) ti ≡ some earlier
      → (bitfs_init path t).tree ≡ (init_bitfs split lib path t).tree
  bitfs_init-tree law path t ti sess earlier e f g =
      ap (λ (d : Mounted S). d.tree) (bitfs_init_ok path t ti earlier e g)
      ∙ bitfs_fill-eq-fill_tree split law ti t
      ∙ sym (ap (λ (d : Mounted S). d.tree) (init_bitfs_ok split lib path t ti sess e f))

-- The functions that bitFS.cpp registers.
pub data BitfsHandler : Type 0 where
  bitfs_getattr_handler bitfs_readdir_handler bitfs_open_handler : BitfsHandler
  bitfs_read_handler bitfs_init_handler : BitfsHandler

-- char **init_fuse(char **argv)
unfoldable pub bitfs_init_fuse : Text → Text → List Text × Operations BitfsHandler
bitfs_init_fuse argv0 argv2 = (
  argv0 ∷ argv2 ∷ (b'-' ∷ b'd' ∷ []) ∷ (b'-' ∷ b'f' ∷ []) ∷ [],
  record {
    getattr = some bitfs_getattr_handler;
    readdir = some bitfs_readdir_handler;
    open_file = some bitfs_open_handler;
    read = some bitfs_read_handler;
    init = some bitfs_init_handler;
  },
)

-- int main(int argc, char *argv[]): with another number of arguments it prints its usage and exits.
unfoldable pub bitfs_main : List Text → Option (FuseMain BitfsHandler)
unfolding bitfs_init_fuse
bitfs_main (argv0 ∷ argv1 ∷ argv2 ∷ argv3 ∷ []) =
    let (args, operations) = bitfs_init_fuse argv0 argv2 in
    some (record { args = args; operations = operations; private_data = argv1 })
bitfs_main argv = none
