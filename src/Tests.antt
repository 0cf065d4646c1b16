-- ===== src/Tests.antt =====
-- The theorems at concrete data, and runs of the operations.
mod Samples
mod Order
mod Names
mod Reads
mod Calls
mod Messages
mod Statistics
mod Mounts
mod Peer
mod PeerList
mod Threads
mod Metainfo
mod Watching
mod Wire
mod Earlier
mod Download
mod Address
