-- ===== src/Tests/Messages.antt =====
-- Peer flags of a sample peer.
use bitfs.Base.{◌≡◌, refl}
use bitfs.PeerInfo.{
  peer_messages, get_peer_info_message, SameFlags, get_peer_info_message-injective,
}

-- The flag 256 is not among those that are tested.
same_message : get_peer_info_message 35 ≡ get_peer_info_message 291
unfolding get_peer_info_message
same_message = refl

get_peer_info_message-injective_example : SameFlags peer_messages 35 291
get_peer_info_message-injective_example = get_peer_info_message-injective 35 291 same_message
