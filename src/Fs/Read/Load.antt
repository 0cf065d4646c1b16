-- ===== src/Fs/Read/Load.antt =====
-- From the test of piece_buffer_map to the end of its loop: the buffer of a piece that is there
-- comes into the map.
use bitfs.Base.{
  ℕ, zero, suc, ◌≤◌, ◌<◌, ◌≡◌, refl, ◌≢◌, inl, inr, true, false, List, none, ok, arith, Bool-cases,
  Option-cases,
}
use bitfs.Base.Ordered.{nat_ord}
use bitfs.Base.Dict.{lookup}
use bitfs.Session.{Session, reads, IsServing}
use bitfs.Fs.Read.{Io, get_piece_buffers, has_buff, poll_buff, load_piece, buffer}
use bitfs.Fs.Read.Wait.{
  Loaded, After, After-refl, After-trans, After-Call, get_piece_buffers-After, store_alerts-known,
}

module _ {S : Session} where
  pub has_buff-known : (p : ℕ) (s : Io S) → has_buff p s ≡ true → lookup p s.buffers ≢ none
  unfolding has_buff
  has_buff-known p s e f = cc (rw (f, has_buff) at e)

  pub has_buff-missing : (p : ℕ) (s : Io S) → has_buff p s ≡ false → lookup p s.buffers ≡ none
  unfolding has_buff
  has_buff-missing p s e = elim (Option-cases (lookup p s.buffers)) [
    | inl f ↦ f
    | inr (b, f) ↦ cc (rw (f, has_buff) at e)
  ]

  pub buffer-Loaded :
      (piece_data : ℕ → List ℕ) (p : ℕ) (s : Io S)
      → Loaded piece_data s.buffers
      → lookup p s.buffers ≢ none
      → buffer p s ≡ piece_data p
  unfolding buffer
  buffer-Loaded piece_data p s l h = elim (Option-cases (lookup p s.buffers)) [
    | inl e ↦ absurd (h e)
    | inr (b, e) ↦ rw (e, buffer) (l p b e)
  ]

module _ {S : Session} {piece_data : ℕ → List ℕ} (L : IsServing S piece_data) where
  pub poll_buff-ends :
      (fuel p : ℕ) (s : Io S)
      → L.Awaited s.sess p
      → L.wait s.sess p < fuel
      → (t : Io S) × (poll_buff fuel p false s ≡ ok t) × After L s t × (lookup p t.buffers ≢ none)
  unfolding poll_buff get_piece_buffers
  poll_buff-ends zero p s w h = absurd (omega arith)
  poll_buff-ends (suc fuel) p s w h = elim (Bool-cases (has_buff p (get_piece_buffers s))) [
    | inl e ↦ (
      get_piece_buffers s,
      rw (e, poll_buff) refl,
      get_piece_buffers-After L s,
      has_buff-known p (get_piece_buffers s) e,
    )
    | inr e ↦ elim (L.answered s.sess p w) [
      | inl b ↦
          absurd
            (store_alerts-known p _ s.buffers (inr b) (has_buff-missing p (get_piece_buffers s) e))
      | inr (w', l) ↦
          let (t, f, a, g) = poll_buff-ends fuel p (get_piece_buffers s) w' (omega arith) in
          (
            t,
            rw (e, poll_buff) f,
            After-trans L s (get_piece_buffers s) t (get_piece_buffers-After L s) a,
            g,
          )
    ]
  ]

  -- With a session that serves, fuel for its bound, a piece that is there and a map of correct
  -- buffers, the wait for the piece's buffer ends, and the map holds the piece's bytes.
  pub load_piece-ends :
      (fuel p : ℕ) (s : Io S)
      → L.Had s.sess p
      → L.bound ≤ fuel
      → Loaded piece_data s.buffers
      → (t : Io S) × (load_piece fuel p s ≡ ok t) × After L s t × (buffer p t ≡ piece_data p)
  unfolding load_piece poll_buff
  load_piece-ends fuel p s had h l = elim (Bool-cases (has_buff p s)) [
    | inl e ↦ (
      s,
      rw (e, load_piece) refl,
      After-refl L s,
      buffer-Loaded piece_data p s l (has_buff-known p s e),
    )
    | inr e ↦
        let reading : Io S = record s { sess = S.read_piece s.sess p } in
        let call : After L s reading = After-Call L s (reads s.sess p) in
        let (t, f, a, g) =
          poll_buff-ends fuel p reading (L.Awaited_of_read s.sess p had)
            (omega (arith, L.wait_lt reading.sess p)) in
        let all : After L s t = After-trans L s reading t call a in
        (t, rw (e, load_piece) f, all, buffer-Loaded piece_data p t (all.loaded l) g)
  ]
