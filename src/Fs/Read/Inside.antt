-- ===== src/Fs/Read/Inside.antt =====
-- read up to its first loop, at an offset inside the file and behind it, and the mutex.
use bitfs.Base.{ℕ, ◌-◌, min, ◌≤◌, ◌<◌, ◌≡◌, refl, true, false, List, Outcome, ok, arith, lt→ltb}
use bitfs.Base.Int.{ℤ, ltb_ℤ, pos, pos_part, int_max, to_int, to_int_small, ◌-ℤ◌, min_ℤ}
use bitfs.Base.Text.{Text}
use bitfs.Torrent.{TorrentInfo}
use bitfs.Session.{Session}
use bitfs.Fs.{get_file_index, get_file_size}
use bitfs.Fs.Read.{Io, lock, unlock, read_file}

pub get_file_size_known :
    (ti : TorrentInfo) (k : ℕ)
    → k < ti.num_files
    → get_file_size ti (pos k) ≡ ok (to_int (ti.file_size k))
unfolding get_file_size
get_file_size_known ti k b = rw (lt→ltb k ti.num_files b) refl

-- The remaining size of the source, where all numbers fit int and the offset is in the file.
remaining_size :
    (size total offset : ℕ)
    → offset < total
    → pos_part (min_ℤ (pos size) (pos total -ℤ pos offset)) ≡ min size (total - offset)
unfolding ◌-ℤ◌
remaining_size size total offset h = ground arith

before_end : (a b : ℕ) → a < b → ltb_ℤ (pos a) (pos b) ≡ true
before_end a b h = ground arith

at_end : (a b : ℕ) → b ≤ a → ltb_ℤ (pos a) (pos b) ≡ false
at_end a b h = ground arith

module _ {S : Session} (ti : TorrentInfo)
    (range : ℕ → ℕ → ℕ → ℕ → ℕ → List ℕ → Io S → Outcome (ℤ × List ℕ × Io S)) (fuel polls : ℕ)
    (path : Text) (k : ℕ) (known : get_file_index ti path ≡ ok (pos k))
    (there : k < ti.num_files) where
  pub read_inside :
      (buf : List ℕ) (_size _offset : ℕ) (s : Io S)
      → ti.file_size k ≤ int_max
      → _size ≤ int_max
      → _offset < ti.file_size k
      → read_file ti range fuel polls path buf _size _offset s
        ≡ range fuel polls k _offset (min _size (ti.file_size k - _offset)) buf s
  unfolding read_file
  read_inside buf _size _offset s fits small inside =
      let offset_fits : _offset ≤ int_max = omega arith in
      rw
        (
          known,
          get_file_size_known ti k there,
          to_int_small _ fits,
          before_end _ _ inside,
          to_int_small _ offset_fits,
          to_int_small _ small,
          remaining_size _size (ti.file_size k) _offset inside,
        )
        refl

  pub read_behind :
      (buf : List ℕ) (_size _offset : ℕ) (s : Io S)
      → ti.file_size k ≤ int_max
      → ti.file_size k ≤ _offset
      → read_file ti range fuel polls path buf _size _offset s ≡ ok (pos 0, buf, s)
  unfolding read_file
  read_behind buf _size _offset s fits behind =
      rw (known, get_file_size_known ti k there, to_int_small _ fits, at_end _ _ behind) refl

module _ {S : Session} where
  pub lock_free : (s : Io S) → s.locked ≡ false → lock s ≡ ok (record s { locked = true })
  unfolding lock
  lock_free s e = rw e refl

  pub buffers-unlock : (s : Io S) → (unlock s).buffers ≡ s.buffers
  unfolding unlock
  buffers-unlock s = refl

  pub unlock_free : (s : Io S) → (unlock s).locked ≡ false
  unfolding unlock
  unlock_free s = refl
