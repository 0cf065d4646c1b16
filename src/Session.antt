-- ===== src/Session.antt =====
-- What the program takes from libtorrent's `session` and `torrent_handle`: a parameter of the
-- model. libtorrent works on in the background, so every call may find and leave a new state.
use bitfs.Base.{ℕ, ◌≤◌, ◌<◌, ◌≡◌, ◌⊎◌, Bool, true, List, [], ◌∷◌}

-- What pop_alerts returns: a read_piece_alert with its piece and the `size` bytes of its buffer
-- (none where the read failed), or an alert of another kind.
pub data Alert : Type 0 where
  read_piece_alert : ℕ → List ℕ → Alert
  other_alert : Alert

pub record Session : Type 1 where
  pub State : Type 0
  pub have_piece : State → ℕ → Bool × State
  pub pop_alerts : State → List Alert × State
  pub read_piece : State → ℕ → State
  pub piece_priority : State → ℕ → ℕ → State

-- Every piece that the alerts bring is the piece as the torrent describes it.
abbrev pub Truthful : (ℕ → List ℕ) → List Alert → Type 0
Truthful piece_data [] = Unit
Truthful piece_data (read_piece_alert p b ∷ alerts) =
    (b ≡ piece_data p) × Truthful piece_data alerts
Truthful piece_data (other_alert ∷ alerts) = Truthful piece_data alerts

-- Some alert brings the piece.
abbrev pub Brings : ℕ → List Alert → Type 0
Brings p [] = ⊥
Brings p (read_piece_alert q b ∷ alerts) = (q ≡ p) ⊎ Brings p alerts
Brings p (other_alert ∷ alerts) = Brings p alerts

-- One call that the program makes, with a priority above 0 where it sets one.
pub data Call (S : Session) : S.State → S.State → Type 0 where
  asks : (s : S.State) (p : ℕ) → Call S s (S.have_piece s p).1
  polls : (s : S.State) → Call S s (S.pop_alerts s).1
  reads : (s : S.State) (p : ℕ) → Call S s (S.read_piece s p)
  sets : (s : S.State) (p k : ℕ) → 0 < k → Call S s (S.piece_priority s p k)

-- A swarm that serves the torrent and a disk that works. A piece with a priority above 0 is on its
-- way: it is there after a bounded number of polls, and once there it stays. A read of a piece
-- that is there is answered after a bounded number of polls, by an alert with the piece's bytes.
pub record IsServing (S : Session) (piece_data : ℕ → List ℕ) : Type 1 where
  pub Had : S.State → ℕ → Type 0
  pub Coming : S.State → ℕ → Type 0
  pub Awaited : S.State → ℕ → Type 0
  pub due : S.State → ℕ → ℕ
  pub wait : S.State → ℕ → ℕ
  pub bound : ℕ
  pub due_lt : (s : S.State) (p : ℕ) → due s p < bound
  pub wait_lt : (s : S.State) (p : ℕ) → wait s p < bound
  pub Had_of_answer :
      (s : S.State) (p : ℕ) → (S.have_piece s p).0 ≡ true → Had (S.have_piece s p).1 p
  pub answer_of_due : (s : S.State) (p : ℕ) → Coming s p → due s p ≡ 0 → (S.have_piece s p).0 ≡ true
  pub Coming_of_answer :
      (s : S.State) (p : ℕ) → (S.have_piece s p).0 ≡ true → Coming (S.have_piece s p).1 p
  pub Coming_of_priority : (s : S.State) (p k : ℕ) → 0 < k → Coming (S.piece_priority s p k) p
  pub Coming_kept : (s t : S.State) → Call S s t → (p : ℕ) → Coming s p → Coming t p
  pub due_kept : (s : S.State) (q p : ℕ) → due (S.have_piece s q).1 p ≤ due s p
  pub due_falls :
      (s : S.State) (p : ℕ)
      → Coming s p
      → (due (S.pop_alerts s).1 p ≡ 0) ⊎ (due (S.pop_alerts s).1 p < due s p)
  pub Awaited_of_read : (s : S.State) (p : ℕ) → Had s p → Awaited (S.read_piece s p) p
  pub answered :
      (s : S.State) (p : ℕ)
      → Awaited s p
      → Brings p (S.pop_alerts s).0
        ⊎ (Awaited (S.pop_alerts s).1 p × (wait (S.pop_alerts s).1 p < wait s p))
  pub truthful : (s : S.State) → Truthful piece_data (S.pop_alerts s).0
