-- ===== src/PeerInfo.antt =====
-- stat_to_string and get_peer_info_message, which FS.cpp and seeder.cpp both define.
use Prim.Native.Nat.{bit_and}
use Prim.Native.String.{String}
use bitfs.Base.{
  ℕ, ◌≡◌, refl, sym, ◌∙◌, Bool, true, false, ◌&&◌, List, [], ◌∷◌, ◌++◌, arith, ◌==◌, if◌then◌else◌,
  Bool-cases, append_assoc, append-nil, ◌<◌, ◌≢◌, inl, inr, length, ltb, ltb→lt, ==_refl,
}
use mathlib.Core.List.{append_cancel_left}
use native.Mathlib.Decide.{ℕ_discrete}
use bitfs.Base.Int.{ℤ, pos, negsuc}
use bitfs.Base.Text.{Text}
use bitfs.Base.Ascii.{codes}

-- The switch of stat_to_string, of a number that is not negative.
unfoldable state_text : ℕ → String
state_text num =
    if num == 1
    then "checking_files"
    else if num == 2
    then "downloading_metadata"
    else if num == 3
    then "downloading"
    else if num == 4
    then "finished"
    else if num == 5
    then "seeding"
    else if num == 6
    then "allocating"
    else if num == 7
    then "checking_resume_data"
    else "ERROR"

-- std::string stat_to_string(int)
unfoldable pub stat_to_string : ℤ → String
unfolding state_text
stat_to_string (pos num) = state_text num
stat_to_string (negsuc _) = "ERROR"

-- The flags that get_peer_info_message tests and what it adds for each, in its order.
abbrev pub peer_messages : List (ℕ × String)
peer_messages =
    (1, "we are interested in pieces from this peer || ")
    ∷ (2, "we have choked this peer || ")
    ∷ (4, "the peer is interested in us || ")
    ∷ (8, "the peer has choked us || ")
    ∷ (16, "peer supports the extension protocol. || ")
    ∷ (
      32,
      "The connection was initiated by us, the peer has a listen port open, and that port is the same as in the address of this peer. If this flag is not set, this peer connection was opened by this peer connecting to us. || ",
    )
    ∷ (
      64,
      "The connection is opened, and waiting for the handshake. Until the handshake is done, the peer cannot be identified. || ",
    )
    ∷ (128, "The connection is in a half-open state (i.e. it is being connected). || ")
    ∷ (
      512,
      "The peer has participated in a piece that failed the hash check, and is now on parole, which means we're only requesting whole pieces from this peer until it either fails that piece or proves that it doesn't send bad data. || ",
    )
    ∷ (1024, "This peer is a seed (it has all the pieces). || ")
    ∷ (
      2048,
      "This peer is subject to an optimistic unchoke. It has been unchoked for a while to see if it might unchoke us in message +=  an earn an upload/unchoke slot. If it doesn't within some period of time, it will be choked and another peer will be optimistically unchoked. || ",
    )
    ∷ (
      4096,
      "This peer has recently failed to send a block within the request timeout from when the request was sent. We're currently picking one block at a time from this peer. || ",
    )
    ∷ (
      8192,
      "This peer has either explicitly (with an extension) or implicitly (by becoming a seed) told us that it will not downloading anything more, regardless of which pieces we have. || ",
    )
    ∷ (
      16384,
      "This means the last time this peer picket a piece, it could not pick as many as it wanted because there were not enough free ones. i.e. all pieces this peer has were already requested from other peers. || ",
    )
    ∷ (
      32768,
      "This flag is set if the peer was in holepunch mode when the connection succeeded. This typically only happens if both peers are behind a NAT and the peers connect via the NAT holepunch mechanism. || ",
    )
    ∷ (65536, "indicates that this socket is runnin on top of the I2P transport. || ")
    ∷ (131072, "indicates that this socket is a uTP socket || ")
    ∷ (262144, "indicates that this socket is running on top of an SSL (TLS) channel || ")
    ∷ (1048576, "this connection is obfuscated with RC4 || ")
    ∷ (
      2097152, "the handshake of this connection was obfuscated with a diffie-hellman exchange || ",
    )
    ∷ []

-- The chain of conditional additions, over any table of flags.
unfoldable pub add_messages : List (ℕ × String) → ℕ → Text → Text
add_messages [] index message = message
add_messages ((flag, text) ∷ rest) index message =
    add_messages rest index (if bit_and index flag == 0 then message else message ++ codes text)

-- std::string get_peer_info_message(int), of flags that are not negative.
unfoldable pub get_peer_info_message : ℕ → Text
unfolding add_messages codes
get_peer_info_message index = add_messages peer_messages index []

-- There is a place at which both texts have a byte, and different ones.
unfoldable clash : Text → Text → Bool
clash [] t = false
clash (a ∷ s) [] = false
clash (a ∷ s) (b ∷ t) = let rest = clash s t in if a == b then rest else true

unfoldable clash_all : Text → List (ℕ × String) → Bool
unfolding clash codes
clash_all s [] = true
clash_all s ((flag, text) ∷ rest) = clash s (codes text) && clash_all s rest

unfoldable distinct : List (ℕ × String) → Bool
unfolding clash_all codes
distinct [] = true
distinct ((flag, text) ∷ rest) =
    ltb 0 (length (codes text)) && (clash_all (codes text) rest && distinct rest)

messages_distinct : distinct peer_messages ≡ true
unfolding distinct
messages_distinct = refl

clash-differ : (s t u v : Text) → clash s t ≡ true → s ++ u ≢ t ++ v
unfolding clash
clash-differ [] t u v h e = cc
clash-differ (a ∷ s) [] u v h e = cc
clash-differ (a ∷ s) (b ∷ t) u v h e = elim (ℕ_discrete a b) [
  | yes same_byte ↦ clash-differ s t u v (rw (same_byte, ==_refl) at h) (cc)
  | no other ↦ other (cc)
]

-- What is added for a table, without what comes before it.
chosen : List (ℕ × String) → ℕ → Text
chosen [] index = []
chosen ((flag, text) ∷ rest) index =
    (if bit_and index flag == 0 then [] else codes text) ++ chosen rest index

add_messages-eq-chosen :
    (table : List (ℕ × String)) (index : ℕ) (message : Text)
    → add_messages table index message ≡ message ++ chosen table index
unfolding add_messages chosen
add_messages-eq-chosen [] index message = sym (append-nil message)
add_messages-eq-chosen ((flag, text) ∷ rest) index message =
    elim (Bool-cases (bit_and index flag == 0)) [
      | inl e ↦ rw e (add_messages-eq-chosen rest index message)
      | inr e ↦ rw e (
          add_messages-eq-chosen rest index (message ++ codes text)
          ∙ append_assoc message (codes text) (chosen rest index))
    ]

and_parts : (a b : Bool) → (a && b) ≡ true → (a ≡ true) × (b ≡ true)
and_parts a b h = ground arith

clash_all-differ :
    (s : Text) (table : List (ℕ × String)) (index : ℕ) (u : Text)
    → clash_all s table ≡ true
    → 0 < length s
    → s ++ u ≢ chosen table index
unfolding clash_all chosen
clash_all-differ [] table index u h n e = absurd (omega arith)
clash_all-differ (a ∷ s) [] index u h n e = cc
clash_all-differ (a ∷ s) ((flag, text) ∷ rest) index u h n eq =
    let (here, later) = and_parts _ _ h in
    elim (Bool-cases (bit_and index flag == 0)) [
      | inl e ↦ clash_all-differ (a ∷ s) rest index u later n (rw e at eq)
      | inr e ↦ clash-differ (a ∷ s) (codes text) u (chosen rest index) here (rw e at eq)
    ]

-- The flags of the table that both numbers have or lack.
abbrev pub SameFlags : List (ℕ × String) → ℕ → ℕ → Type 0
SameFlags [] i j = Unit
SameFlags ((flag, _) ∷ rest) i j =
    ((bit_and i flag == 0) ≡ (bit_and j flag == 0)) × SameFlags rest i j

chosen-injective :
    (table : List (ℕ × String)) (i j : ℕ)
    → distinct table ≡ true
    → chosen table i ≡ chosen table j
    → SameFlags table i j
unfolding distinct chosen
chosen-injective [] i j h e = tt
chosen-injective ((flag, text) ∷ rest) i j h e =
    let (some_bytes, others) = and_parts _ _ h in
    let (apart, rest_distinct) = and_parts _ _ others in
    let bytes : 0 < length (codes text) = ltb→lt _ _ some_bytes in
    elim (Bool-cases (bit_and i flag == 0)) [
      | inl a ↦ elim (Bool-cases (bit_and j flag == 0)) [
        | inl b ↦ (a ∙ sym b, chosen-injective rest i j rest_distinct (rw (a, b) at e))
        | inr b ↦
            absurd (clash_all-differ _ rest i (chosen rest j) apart bytes (sym (rw (a, b) at e)))
      ]
      | inr a ↦ elim (Bool-cases (bit_and j flag == 0)) [
        | inl b ↦ absurd (clash_all-differ _ rest j (chosen rest i) apart bytes (rw (a, b) at e))
        | inr b ↦ (
          a ∙ sym b,
          chosen-injective rest i j rest_distinct
              (append_cancel_left (codes text) _ _ (rw (a, b) at e)),
        )
      ]
    ]

-- The message tells the flags: two numbers with the same message have the same of the twenty flags
-- that the code tests.
pub get_peer_info_message-injective :
    (i j : ℕ) → get_peer_info_message i ≡ get_peer_info_message j → SameFlags peer_messages i j
unfolding get_peer_info_message
get_peer_info_message-injective i j e = chosen-injective peer_messages i j messages_distinct (
    sym (add_messages-eq-chosen peer_messages i [])
    ∙ (e ∙ add_messages-eq-chosen peer_messages j []))
