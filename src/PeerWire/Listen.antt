-- ===== src/PeerWire/Listen.antt =====
-- peerlisten of bt_lib.c: it waits for peers that connect. The calls of the operating system are a
-- parameter.
use Prim.Native.String.{String}
use bitfs.Base.{
  ℕ, zero, suc, ◌≡◌, sym, ap, ◌∙◌, List, [], ◌∷◌, ◌++◌, Outcome, ok, timeout, ◌>>=◌, length,
  if◌then◌else◌, append_assoc, append-nil,
}
use bitfs.Base.Int.{ℤ, pos, negsuc, ltb_ℤ}
use bitfs.PeerWire.Socket.{Received, failed, got}

pub record Listening : Type 1 where
  pub State : Type 0
  pub socket : State → ℤ × State
  pub bind : ℤ → ℕ → State → ℤ × State
  pub listen : ℤ → ℕ → State → State
  pub accept : ℤ → State → ℤ × State
  pub read : ℤ → ℕ → State → Received × State

-- What is printed: a text, or "Got message type" with a byte.
pub data Line : Type 0 where
  says : String → Line
  message_type : ℕ → Line

abbrev read_count : Received → ℤ
read_count failed = negsuc 0
read_count (got bs) = pos (length bs)

-- msg->bt_type, the fifth byte of the buffer, which is zero where fewer have been read.
abbrev fifth_byte : Received → ℕ
fifth_byte (got (a ∷ b ∷ c ∷ d ∷ e ∷ bs)) = e
fifth_byte received = 0

abbrev pub complaint : ℤ → String → List Line
complaint n message = if ltb_ℤ n (pos 0) then says message ∷ [] else []

module _ (L : Listening) where
  -- while (n < 0) { ...; n = read(newsockfd, buffer, 5); ... }
  unfoldable pub read_messages : ℕ → ℤ → ℤ → List Line → L.State → Outcome (List Line × L.State)
  read_messages zero n newsockfd printed s = timeout
  read_messages (suc fuel) n newsockfd printed s =
      let (received, s') = L.read newsockfd 5 s in
      let more =
        read_messages fuel (read_count received) newsockfd
          (printed ++ (message_type (fifth_byte received) ∷ [])) s' in
      if ltb_ℤ n (pos 0) then more else ok (printed, s)

  -- What is printed for a connection before that loop.
  abbrev pub greeting : ℤ → List Line
  greeting newsockfd = complaint newsockfd "ERROR on accept" ++ (says "Accepted connection\n" ∷ [])

  -- So many rounds of while (1), with fuel for the inner loop.
  unfoldable pub accept_rounds : ℕ → ℕ → ℤ → List Line → L.State → Outcome (List Line × L.State)
  unfolding read_messages
  accept_rounds zero fuel sockfd printed s = ok (printed, s)
  accept_rounds (suc rounds) fuel sockfd printed s =
      let (newsockfd, s1) = L.accept sockfd s in
      read_messages fuel (pos 1) newsockfd (printed ++ greeting newsockfd) s1 >>= λ (printed', s2).
      accept_rounds rounds fuel sockfd printed' s2

  -- void *peerlisten(void *), after so many rounds of its loop.
  unfoldable pub peerlisten : ℕ → ℕ → L.State → Outcome (List Line × L.State)
  unfolding accept_rounds
  peerlisten rounds fuel s =
      let (sockfd, s1) = L.socket s in
      let (bound, s2) = L.bind sockfd 6881 s1 in
      accept_rounds rounds fuel sockfd
        (complaint sockfd "ERROR opening socket"
          ++ (complaint bound "ERROR on binding" ++ (says "Listening on port 6881....\n" ∷ [])))
        (L.listen sockfd 5 s2)

  -- The connections that so many calls of accept give.
  abbrev pub accepted : ℕ → ℤ → L.State → List ℤ × L.State
  accepted zero sockfd s = ([], s)
  accepted (suc rounds) sockfd s =
      let (newsockfd, s1) = L.accept sockfd s in
      let (more, s2) = accepted rounds sockfd s1 in (newsockfd ∷ more, s2)

  abbrev pub greetings : List ℤ → List Line
  greetings [] = []
  greetings (newsockfd ∷ more) = greeting newsockfd ++ greetings more

  accept_rounds-accepted :
      (rounds fuel : ℕ) (sockfd : ℤ) (printed : List Line) (s : L.State)
      → accept_rounds rounds (suc fuel) sockfd printed s
        ≡ ok (printed ++ greetings (accepted rounds sockfd s).0, (accepted rounds sockfd s).1)
  unfolding accept_rounds read_messages
  accept_rounds-accepted zero fuel sockfd printed s = ap (λ p. ok (p, s)) (sym (append-nil printed))
  accept_rounds-accepted (suc rounds) fuel sockfd printed s =
      let (newsockfd, s1) = L.accept sockfd s in
      accept_rounds-accepted rounds fuel sockfd (printed ++ greeting newsockfd) s1
      ∙ ap (λ p. ok (p, (accepted rounds sockfd s1).1))
          (append_assoc printed (greeting newsockfd) (greetings (accepted rounds sockfd s1).0))

  -- After any number of rounds peerlisten has called socket, bind and listen once and accept once in
  -- each round, and has printed a greeting for each connection; it has read from none of them.
  pub peerlisten_accepts :
      (rounds fuel : ℕ) (s : L.State)
      → let (sockfd, s1) = L.socket s in
        let (bound, s2) = L.bind sockfd 6881 s1 in
        let (connections, t) = accepted rounds sockfd (L.listen sockfd 5 s2) in
        peerlisten rounds (suc fuel) s
        ≡ ok (
          (complaint sockfd "ERROR opening socket"
                ++ (complaint bound "ERROR on binding"
                    ++ (says "Listening on port 6881....\n" ∷ [])))
              ++ greetings connections,
          t,
        )
  unfolding peerlisten
  peerlisten_accepts rounds fuel s = accept_rounds-accepted rounds fuel _ _ _
