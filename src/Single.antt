-- ===== src/Single.antt =====
-- bitFS.cpp: the earlier program in one file. Its directory map, get_file_index, get_file_size,
-- open, readdir and get_piece_buffers have the text of those of FS.cpp.
pub mod Attributes
pub mod Wait
pub mod Read
pub mod Display
pub mod Statistics
pub mod Fill
pub mod Init
pub mod Serve
use bitfs.Base.{
  ℕ, suc, ◌+◌, ◌-◌, ◌*◌, ◌/◌, ◌≡◌, Bool, List, [], ◌∷◌, Outcome, ok, fault, ◌>>=◌, ltb, ◌==◌,
  if◌then◌else◌,
}
use bitfs.Base.Int.{ℤ, pos, to_int}
use bitfs.Base.Text.{Text}
use bitfs.Torrent.{TorrentInfo}
use bitfs.Session.{Session}
use bitfs.Tree.{Tree, has_file, has_dir}
use bitfs.Fs.{no_entry, dir_mode, file_mode, Stat, zero_stat, dir_key}
use bitfs.Fs.Read.{Io, have_piece, poll_have, lock, unlock, request_pieces, copy_pieces, read_file}

-- static int bitfs_getattr(const char *, struct stat *): the size is that of the whole torrent.
unfoldable pub bitfs_getattr : TorrentInfo → Tree → Text → ℤ × Stat
bitfs_getattr ti t path =
    if has_dir t (dir_key path)
    then (pos 0, record zero_stat { st_mode = dir_mode; st_nlink = 2 })
    else if has_file t (dir_key path)
    then (pos 0, record { st_mode = file_mode; st_nlink = 1; st_size = pos ti.total_size })
    else (no_entry, zero_stat)

-- struct session_stat. The rate is the quotient of two numbers of type int.
pub record SessionStat : Type 0 where
  pub start_time : ℕ
  pub end_time : ℕ
  pub piece_download_counter : ℕ
  pub file_size : ℤ
  pub cache_hit_counter : ℕ
  pub cache_hit_rate : ℕ

-- void initialize_stats(), at the time `now`.
unfoldable pub initialize_stats : ℕ → TorrentInfo → SessionStat → SessionStat
initialize_stats now ti stats = record stats {
  start_time = now;
  cache_hit_counter = 0;
  piece_download_counter = 0;
  file_size = to_int ti.total_size;
}

-- The session, with the global `stats` beside it.
abbrev pub counted : Session → Session
counted S = record {
  State = SessionStat × S.State;
  have_piece = λ s p. ((S.have_piece s.1 p).0, (s.0, (S.have_piece s.1 p).1));
  pop_alerts = λ s. ((S.pop_alerts s.1).0, (s.0, (S.pop_alerts s.1).1));
  read_piece = λ s p. (s.0, S.read_piece s.1 p);
  piece_priority = λ s p k. (s.0, S.piece_priority s.1 p k);
}

module _ (S : Session) where
  -- stats.cache_hit_counter += 1; stats.piece_download_counter += 1;
  unfoldable pub count_hit : Io (counted S) → Io (counted S)
  count_hit s =
      let stats = s.sess.0 in
      record s {
        sess = (
          record stats {
            cache_hit_counter = stats.cache_hit_counter + 1;
            piece_download_counter = stats.piece_download_counter + 1;
          },
          s.sess.1,
        );
      }

  -- thandle.piece_priority(piece, 7)
  unfoldable pub raise_priority : ℕ → Io (counted S) → Io (counted S)
  raise_priority piece s = record s { sess = (s.sess.0, S.piece_priority s.sess.1 piece 7) }

  -- void wait_for_piece_download(int)
  unfoldable pub bitfs_wait : ℕ → ℕ → Io (counted S) → Outcome (Io (counted S))
  unfolding have_piece count_hit raise_priority
  bitfs_wait fuel piece s =
      let (have, s1) = have_piece piece s in
      let (hve_piece, s2) = have_piece piece (raise_priority piece s1) in
      if have then ok (count_hit s1) else poll_have fuel piece hve_piece s2

  module _ (ti : TorrentInfo) where
    -- One round of the first loop of bitfs_read, which keeps no list of missing pieces.
    unfoldable pub bitfs_request : ℕ → List ℕ → Io (counted S) → List ℕ × Io (counted S)
    unfolding raise_priority
    bitfs_request piece required s =
        let s1 = raise_priority piece s in
        (required, if ltb (piece + 1) ti.num_pieces then raise_priority (piece + 1) s1 else s1)

    -- thandle.set_download_limit is a parameter, as it is libtorrent's.
    module _ (set_download_limit : S.State → ℕ → S.State) where
      unfoldable pub limit_download : ℕ → Io (counted S) → Io (counted S)
      limit_download limit s = record s { sess = (s.sess.0, set_download_limit s.sess.1 limit) }

      -- bitfs_read from the lock on.
      unfoldable pub bitfs_range :
          ℕ → ℕ → ℕ → ℕ → ℕ → List ℕ → Io (counted S) → Outcome (ℤ × List ℕ × Io (counted S))
      unfolding limit_download bitfs_request bitfs_wait
      bitfs_range fuel polls index offset remaining buf s = do
        s1 ← lock s
        (_, s2) ←
            request_pieces ti bitfs_request fuel index offset remaining []
              (limit_download (1024 * 1024) s1)
        (read_ptr, buf', s3) ← copy_pieces ti bitfs_wait fuel polls index offset remaining 0 buf s2
        ok (pos read_ptr, buf', unlock (limit_download 1 s3))

      -- static int bitfs_read(const char *, char *, size_t, off_t, ...)
      unfoldable pub bitfs_read :
          ℕ → ℕ → Text → List ℕ → ℕ → ℕ → Io (counted S) → Outcome (ℤ × List ℕ × Io (counted S))
      unfolding bitfs_range
      bitfs_read = read_file ti bitfs_range
