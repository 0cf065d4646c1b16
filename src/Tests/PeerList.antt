-- ===== src/Tests/PeerList.antt =====
-- A list of two peers with a last line that has no newline.
use bitfs.Base.{
  ℕ, ◌≤◌, Bool, true, not, ◌==◌, ◌&&◌, length, refl, ◌≡◌, List, [], ◌∷◌, ◌++◌, ok, fault, arith,
  take, ◌⊎◌, ◌<◌,
}
use bitfs.Base.Ascii.{codes}
use bitfs.Base.Text.{Text, Lacks}
use bitfs.PeerWire.Peers.{
  newline, IsUrl, AllUrls, get_peer_list, unlines, get_peer_list-unlines, get_peer_list-unset,
}

-- The test for a byte of this value.
abbrev lacks : ℕ → Text → Bool
lacks b [] = true
lacks b (c ∷ s) = not (c == b) && lacks b s

lacks_lem : (b : ℕ) (s : Text) → lacks b s ≡ true → Lacks b s
lacks_lem b [] e = tt
lacks_lem b (c ∷ s) e = ground (arith, lacks_lem b s)

abbrev two_peers : List Text
two_peers = codes "10.0.0.1:6881" ∷ codes "10.0.0.2:6881" ∷ []

open_line : Lacks newline (codes "10.0.0.3")
unfolding codes
open_line = lacks_lem newline (codes "10.0.0.3") refl

url : (u : Text) → lacks newline u ≡ true → lacks 0 u ≡ true → length u ≤ 64 → IsUrl u
url u a b c = (lacks_lem newline u a, lacks_lem 0 u b, c)

urls : AllUrls two_peers
unfolding codes
urls = (
  url (codes "10.0.0.1:6881") refl refl (omega arith),
  (url (codes "10.0.0.2:6881") refl refl (omega arith), tt),
)

get_peer_list-unlines_example :
    get_peer_list (λ k. 0) (unlines two_peers ++ codes "10.0.0.3") ≡ ok (take 50 two_peers)
unfolding codes
get_peer_list-unlines_example =
    get_peer_list-unlines (λ k. 0) (λ k. refl) (codes "10.0.0.3") open_line (omega arith) two_peers
      urls

get_peer_list-unset_example :
    ((length (unlines two_peers) ≤ 1023) × (get_peer_list (λ k. 7) (unlines two_peers) ≡ ok []))
    ⊎ ((1023 < length (unlines two_peers)) × (get_peer_list (λ k. 7) (unlines two_peers) ≡ fault))
get_peer_list-unset_example = get_peer_list-unset (λ k. 7) (unlines two_peers) (omega arith)
