-- ===== src/Fs/Index.antt =====
-- get_file_index and get_file_size: which file a path names.
use bitfs.Base.{
  ℕ, zero, suc, ◌+◌, ◌≤◌, ◌<◌, ◌≡◌, refl, ◌⊎◌, inl, inr, ◌≢◌, false, ◌∷◌, arith, sym, ap, subst, ok,
  Bool-cases,
}
use native.Mathlib.Decide.{ℕ_discrete}
use bitfs.Base.Int.{ℤ, pos, negsuc}
use bitfs.Base.Text.{Text, NoNul, c_str, c_str_id, text_eq, text_eq→eq, text_eq_refl}
use bitfs.Boost.{slash}
use bitfs.Torrent.{TorrentInfo}
use bitfs.Fs.{search_from, get_file_index}

-- How the search from round i on with n rounds left ends: with the first file of that path, or
-- with -1 when there is none.
abbrev pub Finds : TorrentInfo → Text → ℕ → ℕ → ℤ → Type 0
Finds ti s n i r =
    ((k : ℕ) × (r ≡ pos k)
      × (i ≤ k)
      × (k < i + n)
      × (s ≡ c_str (ti.file_path k))
      × ((j : ℕ) → i ≤ j → j < k → s ≢ c_str (ti.file_path j)))
    ⊎ ((r ≡ negsuc 0) × ((j : ℕ) → i ≤ j → j < i + n → s ≢ c_str (ti.file_path j)))

not_text_eq : (s t : Text) → text_eq s t ≡ false → s ≢ t
not_text_eq s t h e = cc (text_eq_refl t, ap (λ u. text_eq u t) e)

search_from-Finds : (ti : TorrentInfo) (s : Text) (n i : ℕ) → Finds ti s n i (search_from ti s n i)
unfolding search_from
search_from-Finds ti s zero i = inr (refl, λ j a b. absurd (omega arith))
search_from-Finds ti s (suc n) i = elim (Bool-cases (text_eq s (c_str (ti.file_path i)))) [
  | inl e ↦
      rw e
        (inl (i, refl, omega arith, omega arith, text_eq→eq _ _ e, λ j a b. absurd (omega arith)))
  | inr e ↦ rw e (elim (search_from-Finds ti s n (i + 1)) [
    | inl (k, r, a, b, f, g) ↦ inl (k, r, omega arith, omega arith, f, after_first (λ j. j < k) e g)
    | inr (r, g) ↦ inr (r, after_first (λ j. j < i + suc n) e (λ j a b. g j a (omega arith)))
  ])
]
  where
    after_first :
        (P : ℕ → Type 0)
        → text_eq s (c_str (ti.file_path i)) ≡ false
        → ((j : ℕ) → i + 1 ≤ j → P j → s ≢ c_str (ti.file_path j))
        → (j : ℕ) → i ≤ j
        → P j
        → s ≢ c_str (ti.file_path j)
    after_first P e g j a b = elim (ℕ_discrete j i) [
      | yes same_round ↦
          subst (λ m. s ≢ c_str (ti.file_path m)) (sym same_round) (not_text_eq _ _ e)
      | no other ↦ g j (omega arith) b
    ]

-- For a path without NUL get_file_index returns the first file whose path, up to a NUL, is the
-- call's path without its first byte, and -1 exactly when no file has it.
pub get_file_index-Finds :
    (ti : TorrentInfo) (s : Text)
    → NoNul s
    → (r : ℤ) × (get_file_index ti (slash ∷ s) ≡ ok r) × Finds ti s ti.num_files 0 r
unfolding get_file_index c_str
get_file_index-Finds ti s h =
    (search_from ti s ti.num_files 0, rw (c_str_id s h) refl, search_from-Finds ti s ti.num_files 0)
