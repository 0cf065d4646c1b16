-- ===== src/Lib.antt =====
-- bitFS: a file system over FUSE that shows the files of a torrent and downloads what is read.
--
-- The program. client.cpp registers five handlers with FUSE, each of which hands its call to the
-- one object of class FS (FS.cpp). init_bitfs loads the torrent file, adds the torrent to a session
-- of libtorrent, and enters the paths of the torrent's files into three global sets and maps.
-- getattr, open and readdir answer from these, read asks the session for the pieces that a range
-- of a file lies in, waits until they are there, and copies the bytes out of their buffers.
--
-- The files. Base has what all components share: numbers that are cut to 32 bits (Int), C strings
-- and their order (Text), ordered sets as sorted lists (Ordered), maps (Dict), runs of bytes
-- (Bytes), and results that may be undefined behaviour (`fault`) or a wait that has not ended
-- (`timeout`) (Results). Boost, Torrent and Session hold what the program takes from libraries
-- whose code is not in the repository: boost::split, torrent_info and file_storage, and the
-- session with its torrent_handle; each is a parameter with its documented behaviour as laws.
--
--   Tree           FS.cpp: dirmap, filenames, entries, has_file, has_dir, and the loops of
--                  init_bitfs that fill them; Spec says what they mean in terms of the paths
--                  alone, Fill, Names, Paths and Entries lead there; Order forgets the order
--                  of the files.
--   Fs             FS.cpp: get_file_index, get_file_size, getattr, open, readdir; Fs/Order takes
--                  torrents up to the set of their paths.
--   Fs/Read        FS.cpp: read, get_piece_buffers, wait_for_piece_download. The globals, the
--                  session and the mutex are passed along as one record, Io; Correct is one call,
--                  Whole the calls that read a file to its end.
--   Fs/Threads     FS.cpp: read on several threads of FUSE at once, as a step relation. Each step of
--                  a thread makes a call of the session or of the mutex at most, and the steps of
--                  all threads interleave in any order; Alone and Refine lead from Fs/Read to the
--                  steps of one thread, Ready, Steady, Copying and Finish to its return, and
--                  Runs and Return to that of all.
--   Fs/Init        FS.cpp: init_bitfs.
--   Client         client.cpp: init_fuse, main, and FS::Instance of FS.cpp; Client/Serve has the
--                  wrappers and a run of calls one after the other, Client/Start the calls
--                  after init_bitfs.
--   Single         bitFS.cpp, the earlier program in one file: bitfs_getattr, bitfs_read with its
--                  wait_for_piece_download, the statistics, init_bitfs, init_fuse, main;
--                  Single/Display has display_stats with what it prints; Single/Fill
--                  has the loops that fill its directory map, and compares them with those of
--                  FS.cpp. What else its text has in common with FS.cpp (open, readdir,
--                  get_file_index, the loops of read) is taken from there; Single/Serve has
--                  a run of calls.
--   PeerInfo       FS.cpp and seeder.cpp: stat_to_string, get_peer_info_message.
--   Metadata       torrent_metadata.cpp and bitfs_metadata.cpp: the two classes with their getters
--                  and setters.
--   Seeder         seeder.cpp: the settings and main; Seeder/Watch its last loop, which prints, and
--                  Seeder/Output what that tells.
--   PeerWire       btclient/bt_lib.c, a client of the wire protocol that bitFS does not use.
--                  piece_size and the requests of get_piece; Socket has the connection, a
--                  parameter with its write and read; Messages and Handshake what is sent, byte
--                  for byte, and Protocol its meaning; Blocks, Receive and Download get_block and
--                  get_piece against a peer, Unchoke the same behind a message that nobody has
--                  read; Client main of btclient/bt_client.c from the handshake on, with
--                  peer_tcp_connect; Address its strtok and atoi; Peers get_peer_list, with the
--                  bytes of ch that nothing sets as a parameter; Metainfo, Entries and Torrent
--                  parse_metainfo, with the bencode reader and SHA1 as parameters; Disk and Load
--                  the reading of the torrent file; Listen peerlisten.
--   Tests          a sample torrent, split, session and mount, and runs on them.
--
-- Numbers. Sizes and offsets are natural numbers; where the source stores them in an int they are
-- cut to 32 bits with their sign (to_int). Bytes and characters are natural numbers.
--
-- Fuel. A loop of read takes a step of one byte at least, so fuel for the size of the request is
-- enough for its two loops. A wait polls the session; the laws of a session that serves bound the
-- number of polls until a piece is there and until its buffer is there, and fuel for this bound
-- is enough for the two waits. The loop of get_piece asks for a byte at least in each round, so
-- fuel for piece_length is enough; a read of the connection brings a byte at least, so fuel for the
-- size of a message is enough for get_block. parse_metainfo takes an entry in each round, so fuel
-- for the entries of both dictionaries is enough; its read of the file brings a byte in each round but
-- the last. A round of get_peer_list takes a byte of the file.
--
-- Not modelled: calls of getattr, open and readdir at the same time as others (they change nothing
-- that read works on), negative offsets, the log lines and the pause of the seeder; of btclient/
-- what main does before the handshake but for the address of the first peer, and what it prints,
-- torrents with a size below 0, peer_tcp_disconnect and getSHA1 (which only pass a
-- call on), and its copy of the library heapless-bencode;
-- tests/.
-- Numbers of type float and double, which the programs only print, are a parameter (Base/Reals).
pub mod Base
pub mod Boost
pub mod Torrent
pub mod Tree
pub mod Session
pub mod Fs
pub mod Client
pub mod Metadata
pub mod Single
pub mod PeerInfo
pub mod Seeder
pub mod PeerWire
pub mod Tests
