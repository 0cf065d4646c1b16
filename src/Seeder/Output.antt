-- ===== src/Seeder/Output.antt =====
-- What the output of the seeder's last loop tells.
use bitfs.Base.{
  ℕ, zero, suc, ◌≡◌, refl, sym, ap, ◌∙◌, List, [], ◌∷◌, ◌++◌, append_assoc, append-nil,
}
use bitfs.Base.Text.{Text}
use bitfs.PeerInfo.{get_peer_info_message}
use bitfs.Base.Reals.{Reals}
use bitfs.Seeder.Watch.{
  Watched, Print, alert_message, peer_flags, blank_lines, print_status, print_alerts, print_peers,
  watch_round, watch,
}

-- The text of an alert, if one is printed, and that of a peer's flags.
abbrev message_of : {Real : Type 0} → Print Real → List Text
message_of (alert_message message) = message ∷ []
message_of line = []

abbrev flags_of : {Real : Type 0} → Print Real → List Text
flags_of (peer_flags flags) = flags ∷ []
flags_of line = []

-- The parts of an output that are picked out line by line.
unfoldable pub picked : {Real : Type 0} → (Print Real → List Text) → List (Print Real) → List Text
picked pick [] = []
picked pick (line ∷ out) = pick line ++ picked pick out

abbrev pub messages_in : {Real : Type 0} → List (Print Real) → List Text
messages_in out = picked message_of out

abbrev pub flags_in : {Real : Type 0} → List (Print Real) → List Text
flags_in out = picked flags_of out

picked-append :
    {Real : Type 0} (pick : Print Real → List Text) (a b : List (Print Real))
    → picked pick (a ++ b) ≡ picked pick a ++ picked pick b
unfolding picked
picked-append pick [] b = refl
picked-append pick (line ∷ a) b =
    ap (λ out. pick line ++ out) (picked-append pick a b) ∙ sym (append_assoc (pick line) _ _)

abbrev pub flag_texts : List (Text × ℕ) → List Text
flag_texts [] = []
flag_texts ((ip, flags) ∷ peers) = get_peer_info_message flags ∷ flag_texts peers

flag_texts-append : (a b : List (Text × ℕ)) → flag_texts (a ++ b) ≡ flag_texts a ++ flag_texts b
flag_texts-append [] b = refl
flag_texts-append ((ip, flags) ∷ a) b =
    ap (◌∷◌ (get_peer_info_message flags)) (flag_texts-append a b)

module _ (R : Reals) where
  messages_in-alerts : (alerts : List Text) → messages_in (print_alerts R alerts) ≡ alerts
  unfolding picked print_alerts
  messages_in-alerts [] = refl
  messages_in-alerts (message ∷ alerts) = ap (◌∷◌ message) (messages_in-alerts alerts)

  messages_in-peers : (peers : List (Text × ℕ)) → messages_in (print_peers R peers) ≡ []
  unfolding picked print_peers
  messages_in-peers [] = refl
  messages_in-peers ((ip, flags) ∷ peers) = messages_in-peers peers

  flags_in-alerts : (alerts : List Text) → flags_in (print_alerts R alerts) ≡ []
  unfolding picked print_alerts
  flags_in-alerts [] = refl
  flags_in-alerts (message ∷ alerts) = flags_in-alerts alerts

  flags_in-peers : (peers : List (Text × ℕ)) → flags_in (print_peers R peers) ≡ flag_texts peers
  unfolding picked print_peers
  flags_in-peers [] = refl
  flags_in-peers ((ip, flags) ∷ peers) =
      ap (◌∷◌ (get_peer_info_message flags)) (flags_in-peers peers)

  module _ (W : Watched R.Real) where
    -- The state before each pop_alerts, and that before each get_peer_info.
    abbrev before_alerts : W.State → W.State
    before_alerts s = (W.status s).1

    abbrev before_peers : W.State → W.State
    before_peers s = (W.pop_alerts (before_alerts s)).1

    abbrev after_round : W.State → W.State
    after_round s = (W.get_peer_info (before_peers s)).1

    -- All alerts that so many rounds take out of the session, and all peers that they find.
    abbrev pub popped : ℕ → W.State → List Text
    popped zero s = []
    popped (suc rounds) s = (W.pop_alerts (before_alerts s)).0 ++ popped rounds (after_round s)

    abbrev pub found : ℕ → W.State → List (Text × ℕ)
    found zero s = []
    found (suc rounds) s = (W.get_peer_info (before_peers s)).0 ++ found rounds (after_round s)

    round_messages :
        (s : W.State) → messages_in (watch_round R W s).0 ≡ (W.pop_alerts (before_alerts s)).0
    unfolding watch_round picked print_status
    round_messages s =
        let alerts = (W.pop_alerts (before_alerts s)).0 in
        let peers = (W.get_peer_info (before_peers s)).0 in
        rw
          (
            picked-append message_of (print_alerts R alerts)
                (print_peers R peers ++ (blank_lines ∷ [])),
            picked-append message_of (print_peers R peers) (blank_lines ∷ []),
            messages_in-alerts alerts,
            messages_in-peers peers,
          )
          (append-nil alerts)

    round_flags :
        (s : W.State)
        → flags_in (watch_round R W s).0 ≡ flag_texts (W.get_peer_info (before_peers s)).0
    unfolding watch_round picked print_status
    round_flags s =
        let alerts = (W.pop_alerts (before_alerts s)).0 in
        let peers = (W.get_peer_info (before_peers s)).0 in
        rw
          (
            picked-append flags_of (print_alerts R alerts)
                (print_peers R peers ++ (blank_lines ∷ [])),
            picked-append flags_of (print_peers R peers) (blank_lines ∷ []),
            flags_in-alerts alerts,
            flags_in-peers peers,
          )
          (append-nil (flag_texts peers))

    -- In any number of rounds the last loop of the seeder prints every alert that it takes out of the
    -- session, once and in their order, and for each peer that it finds, in their order, the text of
    -- its flags.
    pub watch_tells :
        (rounds : ℕ) (s : W.State)
        → let out = (watch R W rounds s).0 in
          (messages_in out ≡ popped rounds s) × (flags_in out ≡ flag_texts (found rounds s))
    unfolding watch watch_round picked
    watch_tells zero s = (refl, refl)
    watch_tells (suc rounds) s =
        let (printed, s1) = watch_round R W s in
        let rest = (watch R W rounds s1).0 in
        let (messages, flags) = watch_tells rounds s1 in
        let peers = (W.get_peer_info (before_peers s)).0 in
        (
          picked-append message_of printed rest
              ∙ ap (λ a. a ++ messages_in rest) (round_messages s)
              ∙ ap (λ b. (W.pop_alerts (before_alerts s)).0 ++ b) messages,
          picked-append flags_of printed rest
              ∙ ap (λ a. a ++ flags_in rest) (round_flags s)
              ∙ ap (λ b. flag_texts peers ++ b) flags
              ∙ sym (flag_texts-append peers (found rounds s1)),
        )
