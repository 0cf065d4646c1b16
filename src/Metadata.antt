-- ===== src/Metadata.antt =====
-- torrent_metadata.cpp and bitfs_metadata.cpp with their headers: what is kept of the mounted torrent.
use bitfs.Base.Text.{Text}
use bitfs.Base.Ascii.{codes}

-- Types of boost and libtorrent, a pointer to a path among them.
pub record Library : Type 1 where
  pub PathPointer : Type 0
  pub PathValue : Type 0
  pub TorrentHandle : Type 0
  pub SettingsPack : Type 0
  pub AddTorrentParams : Type 0
  pub ErrorCode : Type 0

-- class torrent_metadata, but for its mutex.
pub record TorrentMetadata (T : Library) : Type 0 where
  pub torrent_file_path : T.PathPointer
  pub disk_cache_path : T.PathValue
  pub thandle : T.TorrentHandle
  pub sett : T.SettingsPack
  pub params : T.AddTorrentParams
  pub ec : T.ErrorCode

-- class bitfs_metadata, with its two pointers.
pub record BitfsMetadata (SessionPointer MetadataPointer : Type 0) : Type 0 where
  pub sess : SessionPointer
  pub tmeta : MetadataPointer

module _ {T : Library} where
  -- The constructor, from what the members are at first; `new_path` is `new bfs::path`.
  unfoldable pub make_torrent_metadata :
      (new_path : Text → T.PathPointer)
      → (unique_path : Text → T.PathValue) → TorrentMetadata T
      → Text
      → TorrentMetadata T
  unfolding codes
  make_torrent_metadata new_path unique_path fresh torrent_file = record fresh {
    torrent_file_path = new_path torrent_file;
    disk_cache_path = unique_path (codes "/tmp/%%%%-%%%%-%%%%-%%%%");
  }

  unfoldable pub get_torrent_file_path : TorrentMetadata T → T.PathPointer
  get_torrent_file_path m = m.torrent_file_path

  unfoldable pub set_torrent_file_path : T.PathPointer → TorrentMetadata T → TorrentMetadata T
  set_torrent_file_path x m = record m { torrent_file_path = x }

  unfoldable pub get_disk_cache_path : TorrentMetadata T → T.PathValue
  get_disk_cache_path m = m.disk_cache_path

  unfoldable pub set_disk_cache_path : T.PathValue → TorrentMetadata T → TorrentMetadata T
  set_disk_cache_path x m = record m { disk_cache_path = x }

  unfoldable pub get_thandle : TorrentMetadata T → T.TorrentHandle
  get_thandle m = m.thandle

  unfoldable pub set_thandle : T.TorrentHandle → TorrentMetadata T → TorrentMetadata T
  set_thandle x m = record m { thandle = x }

  unfoldable pub get_settings_pack : TorrentMetadata T → T.SettingsPack
  get_settings_pack m = m.sett

  unfoldable pub set_settings_path : T.SettingsPack → TorrentMetadata T → TorrentMetadata T
  set_settings_path x m = record m { sett = x }

  unfoldable pub get_error_code : TorrentMetadata T → T.ErrorCode
  get_error_code m = m.ec

  unfoldable pub set_error_code : T.ErrorCode → TorrentMetadata T → TorrentMetadata T
  set_error_code x m = record m { ec = x }

  unfoldable pub get_add_torrent_params : TorrentMetadata T → T.AddTorrentParams
  get_add_torrent_params m = m.params

  unfoldable pub set_add_torrent_params : T.AddTorrentParams → TorrentMetadata T → TorrentMetadata T
  set_add_torrent_params x m = record m { params = x }

module _ {SessionPointer MetadataPointer : Type 0} where
  unfoldable pub get_session : BitfsMetadata SessionPointer MetadataPointer → SessionPointer
  get_session m = m.sess

  unfoldable pub set_session :
      SessionPointer
      → BitfsMetadata SessionPointer MetadataPointer
      → BitfsMetadata SessionPointer MetadataPointer
  set_session x m = record m { sess = x }

  unfoldable pub get_tmeta : BitfsMetadata SessionPointer MetadataPointer → MetadataPointer
  get_tmeta m = m.tmeta

  unfoldable pub set_tmeta :
      MetadataPointer
      → BitfsMetadata SessionPointer MetadataPointer
      → BitfsMetadata SessionPointer MetadataPointer
  set_tmeta x m = record m { tmeta = x }
