-- ===== src/Tests/Address.antt =====
-- The port of a peer at "h:1".
use bitfs.Base.{◌≡◌, refl, [], ◌∷◌, ◌++◌, ok, arith}
use bitfs.Base.Int.{pos}
use bitfs.PeerWire.Address.{peer_address, peer_address-digits}

-- A digit that happens to stand behind the line in its memory is taken for a digit of the port.
peer_address-digits_example :
    peer_address ((b'h' ∷ b':' ∷ b'1' ∷ []) ++ (b'7' ∷ 0 ∷ [])) ≡ ok (b'h' ∷ [], pos 17)
peer_address-digits_example =
    peer_address-digits b'h' b'1' [] [] (b'7' ∷ []) [] (omega arith, tt) (omega arith, tt)
      (refl, tt) (refl, tt) (omega arith)
