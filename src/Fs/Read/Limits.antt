-- ===== src/Fs/Read/Limits.antt =====
-- Where read does not do what its caller expects: sizes that do not fit int, and reads that
-- libtorrent reports as failed.
use bitfs.Base.{
  ℕ, ◌<◌, ◌≡◌, refl, ap, ◌∙◌, true, false, List, [], ◌∷◌, ok, fault, arith, length, lt→ltb, some,
}
use bitfs.Base.Int.{ltb_ℤ, pos, negsuc, int_max, int_mod, to_int_negative}
use bitfs.Base.Text.{Text, NoNul}
use bitfs.Base.Dict.{lookup, lookup-set}
use bitfs.Base.Ordered.{same_refl, nat_ord}
use bitfs.Boost.{slash}
use bitfs.Torrent.{TorrentInfo}
use bitfs.Session.{Session, read_piece_alert}
use bitfs.Fs.{get_file_index}
use bitfs.Fs.Attributes.{IsFirst-unique, NoNulPaths, IsFirst, get_file_index_known}
use bitfs.Fs.Read.{
  Io, store_alerts, get_piece_buffers, have_piece, wait_for_piece_download, has_buff, load_piece,
  poll_buff, buffer, copy_bytes, copy_piece, read_file, read,
}
use bitfs.Fs.Read.Inside.{get_file_size_known}

-- The first file of a path is the one whose index get_file_index returns.
pub get_file_index_first :
    (ti : TorrentInfo) (s : Text) (k : ℕ)
    → NoNulPaths ti
    → NoNul s
    → IsFirst ti s k
    → get_file_index ti (slash ∷ s) ≡ ok (pos k)
get_file_index_first ti s k clean h first =
    let (j, e, other) = get_file_index_known ti s clean h (k, first.0, first.1) in
    e ∙ ap (λ m. ok (pos m)) (IsFirst-unique ti s j k other first)

never_before : (a n : ℕ) → ltb_ℤ (pos a) (negsuc n) ≡ false
never_before a n = ground arith

-- Where no path has a NUL, the first file of a path, of 2 ^ 31 bytes up to 2 ^ 32 - 1, reads as
-- empty: read returns 0 at every offset, for
-- every size, and has changed neither the buffer nor the session, the map and the mutex.
pub read_large_file :
    {S : Session} (ti : TorrentInfo) (fuel polls : ℕ) (s : Text) (k : ℕ) (buf : List ℕ)
    (_size _offset : ℕ) (io : Io S)
    → NoNulPaths ti
    → NoNul s
    → IsFirst ti s k
    → int_max < ti.file_size k
    → ti.file_size k < int_mod
    → read ti fuel polls (slash ∷ s) buf _size _offset io ≡ ok (pos 0, buf, io)
unfolding read read_file
read_large_file ti fuel polls s k buf _size _offset io clean h first large fits =
    rw
      (
        get_file_index_first ti s k clean h first,
        get_file_size_known ti k first.0,
        to_int_negative _ large fits,
        never_before,
      )
      refl

module _ {S : Session} (piece polls : ℕ) (s : Io S) where
  wait_have :
      (have_piece piece s).0 ≡ true
      → wait_for_piece_download polls piece s ≡ ok (have_piece piece s).1
  unfolding wait_for_piece_download
  wait_have e = rw (e, wait_for_piece_download) refl

  load_stored :
      (b : List ℕ)
      → lookup piece s.buffers ≡ some b
      → (load_piece polls piece s ≡ ok s) × (buffer piece s ≡ b)
  unfolding load_piece poll_buff buffer has_buff
  load_stored b e = (rw (e, has_buff, load_piece) refl, rw (e, buffer) refl)

  buffers-have_piece : (have_piece piece s).1.buffers ≡ s.buffers
  unfolding have_piece
  buffers-have_piece = refl

copy_bytes_short :
    (ti : TorrentInfo) (b : List ℕ) (piece_size start n ptr : ℕ) (buf : List ℕ)
    → length b < piece_size
    → copy_bytes ti b piece_size start n ptr buf ≡ fault
unfolding copy_bytes
copy_bytes_short ti b piece_size start n ptr buf h = rw (lt→ltb _ _ h) refl

-- A buffer in the map that is shorter than its piece makes the copy of this piece read beyond the
-- buffer, where the piece counts as downloaded.
copy_piece_short :
    {S : Session} (ti : TorrentInfo) (polls piece start n ptr : ℕ) (buf b : List ℕ) (s : Io S)
    → lookup piece s.buffers ≡ some b
    → (have_piece piece s).0 ≡ true
    → length b < ti.piece_size piece
    → copy_piece ti wait_for_piece_download polls piece (ti.piece_size piece) start n ptr buf s
      ≡ fault
unfolding copy_piece
copy_piece_short ti polls piece start n ptr buf b s stored have short =
    let s1 = (have_piece piece s).1 in
    let (loaded, same_bytes) =
      load_stored piece polls s1 b
        (ap (lookup piece) (buffers-have_piece piece polls s) ∙ stored) in
    rw
      (
        wait_have piece polls s have,
        loaded,
        same_bytes,
        copy_bytes_short ti b (ti.piece_size piece) start n ptr buf short,
      )
      refl

stored_empty :
    {S : Session} (piece : ℕ) (s : Io S)
    → (S.pop_alerts s.sess).0 ≡ read_piece_alert piece [] ∷ []
    → lookup piece (get_piece_buffers s).buffers ≡ some []
unfolding get_piece_buffers store_alerts
stored_empty piece s e = rw (e, store_alerts) (rw (lookup-set, same_refl) refl)

-- After a poll that answers a read of a piece with a failure (an alert with no bytes), copying
-- this piece, of a size above 0, reads beyond its buffer, where the piece counts as downloaded.
pub copy_piece_failed :
    {S : Session} (ti : TorrentInfo) (polls piece start read_size read_ptr : ℕ) (buf : List ℕ)
    (s : Io S)
    → (S.pop_alerts s.sess).0 ≡ read_piece_alert piece [] ∷ []
    → (have_piece piece (get_piece_buffers s)).0 ≡ true
    → 0 < ti.piece_size piece
    → copy_piece ti wait_for_piece_download polls piece
        (ti.piece_size piece)
        start
        read_size
        read_ptr
        buf
        (get_piece_buffers s)
      ≡ fault
copy_piece_failed ti polls piece start read_size read_ptr buf s failed have size =
    copy_piece_short ti polls piece start read_size read_ptr buf [] (get_piece_buffers s)
      (stored_empty piece s failed) have size
