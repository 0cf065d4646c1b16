-- ===== src/Tests/Samples.antt =====
-- A torrent with two files in three pieces, a session that serves it, and a function that splits.
use bitfs.Base.{
  ℕ, ◌+◌, ◌-◌, ◌/◌, ◌%◌, ◌≤◌, ◌≡◌, refl, ap, ◌≢◌, ◌⊎◌, inl, inr, false, List, [], ◌∷◌, arith, ltb,
  leb, ◌==◌, if◌then◌else◌, Bool-cases,
}
use bitfs.Base.Text.{Text}
use bitfs.Boost.{slash, join, AllLack, IsSplit}
use bitfs.Torrent.{TorrentInfo, IsLawful}
use bitfs.Session.{Session, Alert, read_piece_alert, Truthful, Brings, IsServing}
use bitfs.Fs.Attributes.{NoNulPaths}
use bitfs.Fs.Read.{Io}
use bitfs.Fs.Read.Copy.{piece_data}

-- The first component gains a byte.
abbrev pub grow : ℕ → List Text → List Text
grow c [] = (c ∷ []) ∷ []
grow c (s ∷ rest) = (c ∷ s) ∷ rest

unfoldable pub split_slash : Text → List Text
split_slash [] = [] ∷ []
split_slash (c ∷ s) = if c == slash then [] ∷ split_slash s else grow c (split_slash s)

grow-ne : (c : ℕ) (cs : List Text) → grow c cs ≢ []
grow-ne c [] e = cc
grow-ne c (s ∷ rest) e = cc

pub split_slash-ne : (s : Text) → split_slash s ≢ []
unfolding split_slash
split_slash-ne [] e = cc
split_slash-ne (c ∷ s) f = elim (Bool-cases (c == slash)) [
  | inl e ↦ cc (rw e at f)
  | inr e ↦ grow-ne c (split_slash s) (rw e at f)
]

grow-AllLack : (c : ℕ) (cs : List Text) → c ≢ slash → AllLack slash cs → AllLack slash (grow c cs)
grow-AllLack c [] n h = ((n, tt), tt)
grow-AllLack c (s ∷ rest) n h = ((n, h.0), h.1)

pub split_slash-AllLack : (s : Text) → AllLack slash (split_slash s)
unfolding split_slash
split_slash-AllLack [] = (tt, tt)
split_slash-AllLack (c ∷ s) = elim (Bool-cases (c == slash)) [
  | inl e ↦ rw e (tt, split_slash-AllLack s)
  | inr e ↦ rw e (grow-AllLack c (split_slash s) (ground arith) (split_slash-AllLack s))
]

join-grow : (c : ℕ) (cs : List Text) → cs ≢ [] → join (grow c cs) ≡ c ∷ join cs
unfolding join
join-grow c [] n = absurd (n refl)
join-grow c (s ∷ []) n = refl
join-grow c (s ∷ s' ∷ rest) n = refl

join-nil : (cs : List Text) → cs ≢ [] → join ([] ∷ cs) ≡ slash ∷ join cs
unfolding join
join-nil [] n = absurd (n refl)
join-nil (s ∷ rest) n = refl

pub join-split_slash : (s : Text) → join (split_slash s) ≡ s
unfolding split_slash join
join-split_slash [] = refl
join-split_slash (c ∷ s) = elim (Bool-cases (c == slash)) [
  | inl e ↦
      let is_slash : slash ≡ c = ground arith in
      rw (e, join-nil (split_slash s) (split_slash-ne s), join-split_slash s)
        (ap (λ b. b ∷ s) is_slash)
  | inr e ↦ rw (e, join-grow c (split_slash s) (split_slash-ne s), join-split_slash s) refl
]

abbrev pub split_law : IsSplit split_slash
split_law = record {
  some_component = split_slash-ne;
  no_separator = split_slash-AllLack;
  join_split = join-split_slash;
}

-- "a/b", of 5 bytes, and "c", of 5 bytes.
abbrev pub sample_path : ℕ → Text
sample_path i = if i == 0 then b'a' ∷ slash ∷ b'b' ∷ [] else b'c' ∷ []

abbrev pub sample : TorrentInfo
sample = record {
  num_files = 2;
  file_path = sample_path;
  file_size = λ i. 5;
  file_offset = λ i. if i == 0 then 0 else 5;
  total_size = 10;
  piece_length = 4;
  num_pieces = 3;
  piece_size = λ p. if ltb p 2 then 4 else 2;
  map_file = λ i offset size.
      let position = (if i == 0 then 0 else 5) + offset in
      record { piece = position / 4; start = position % 4 };
}

sample_piece_size_le : (p : ℕ) → sample.piece_size p ≤ 4
sample_piece_size_le p = ground arith

abbrev pub sample_law : IsLawful sample
sample_law = record {
  piece_size_le = λ p. ground arith;
  start_lt = λ i offset size h k. ground arith;
  piece_lt = λ i offset size h k. ground arith;
  position = λ i offset size h k. ground arith;
}

-- Byte o of the payload.
abbrev pub sample_content : ℕ → ℕ
sample_content o = 100 + o

-- Every piece arrives with the first poll, and a read is answered by the next one.
pub record Swarm : Type 0 where
  pub polled : ℕ
  pub pending : List ℕ

abbrev pub answers : List ℕ → List Alert
answers [] = []
answers (p ∷ pending) = read_piece_alert p (piece_data sample sample_content p) ∷ answers pending

abbrev pub swarm : Session
swarm = record {
  State = Swarm;
  have_piece = λ s p. (leb 1 s.polled, s);
  pop_alerts = λ s. (answers s.pending, record { polled = s.polled + 1; pending = [] });
  read_piece = λ s p. record s { pending = p ∷ s.pending };
  piece_priority = λ s p k. s;
}

abbrev pub Pending : ℕ → List ℕ → Type 0
Pending p [] = ⊥
Pending p (q ∷ pending) = (q ≡ p) ⊎ Pending p pending

pub answers-Brings : (p : ℕ) (l : List ℕ) → Pending p l → Brings p (answers l)
answers-Brings p [] h = h
answers-Brings p (q ∷ l) (inl e) = inl e
answers-Brings p (q ∷ l) (inr h) = inr (answers-Brings p l h)

pub answers-Truthful : (l : List ℕ) → Truthful (piece_data sample sample_content) (answers l)
answers-Truthful [] = tt
answers-Truthful (p ∷ l) = (refl, answers-Truthful l)

abbrev pub serving : IsServing swarm (piece_data sample sample_content)
serving = record {
  Had = λ s p. 1 ≤ s.polled;
  Coming = λ s p. Unit;
  Awaited = λ s p. Pending p s.pending;
  due = λ s p. 1 - s.polled;
  wait = λ s p. 0;
  bound = 2;
  due_lt = λ s p. omega arith;
  wait_lt = λ s p. omega arith;
  Had_of_answer = λ s p h. ground arith;
  answer_of_due = λ s p c h. ground arith;
  Coming_of_answer = λ s p h. tt;
  Coming_of_priority = λ s p k h. tt;
  Coming_kept = λ s t c p h. tt;
  due_kept = λ s q p. omega arith;
  due_falls = λ s p c. omega arith;
  Awaited_of_read = λ s p h. inl refl;
  answered = λ s p h. inl (answers-Brings p s.pending h);
  truthful = λ s. answers-Truthful s.pending;
}

abbrev pub start_io : Io swarm
start_io = record { sess = record { polled = 0; pending = [] }; buffers = []; locked = false }

abbrev pub file_ab : Text
file_ab = b'a' ∷ slash ∷ b'b' ∷ []

pub sample_clean : NoNulPaths sample
sample_clean k = ground arith
