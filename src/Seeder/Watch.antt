-- ===== src/Seeder/Watch.antt =====
-- The last loop of main in seeder.cpp, which prints the state of the torrent for ever. What it asks
-- of libtorrent, and the numbers of type float and double that it prints, are parameters.
use Prim.Native.String.{String}
use bitfs.Base.{ℕ, zero, suc, ◌/◌, List, [], ◌∷◌, ◌++◌}
use bitfs.Base.Int.{pos}
use bitfs.Base.Reals.{Reals}
use bitfs.Base.Text.{Text}
use bitfs.PeerInfo.{stat_to_string, get_peer_info_message}

-- torrent_status, as far as it is printed.
pub record TorrentStatus (Real : Type 0) : Type 0 where
  pub state : ℕ
  pub progress : Real
  pub total_download : ℕ
  pub total_upload : ℕ
  pub upload_rate : ℕ
  pub num_seeds : ℕ
  pub num_peers : ℕ

-- torrent_handle and session: status, the messages of the alerts that pop_alerts gives, and the
-- address and flags of each peer that get_peer_info gives.
pub record Watched (Real : Type 0) : Type 1 where
  pub State : Type 0
  pub status : State → TorrentStatus Real × State
  pub pop_alerts : State → List Text × State
  pub get_peer_info : State → List (Text × ℕ) × State

-- A statement that prints: about the status, a message of an alert, a peer with its flags, the blank
-- lines.
pub data Print (Real : Type 0) : Type 0 where
  status_state : String → Print Real
  torrent_progress : Real → Print Real
  total_downloaded total_uploaded : Real → Real → Print Real
  upload_rate total_seeders total_peers : ℕ → Print Real
  alert_message : Text → Print Real
  peer : Text → Print Real
  peer_flags : Text → Print Real
  blank_lines : Print Real

module _ (R : Reals) where
  unfoldable pub print_status : TorrentStatus R.Real → List (Print R.Real)
  print_status stats =
      let download = R.of_int (pos (stats.total_download / 1024)) in
      let upload = R.of_int (pos (stats.total_upload / 1024)) in
      status_state (stat_to_string (pos stats.state))
      ∷ torrent_progress (R.times stats.progress 100)
      ∷ total_downloaded download (R.over download 1024)
      ∷ total_uploaded upload (R.over upload 1024)
      ∷ upload_rate stats.upload_rate
      ∷ total_seeders stats.num_seeds
      ∷ total_peers stats.num_peers
      ∷ []

  -- for (lt::alert const* a : alerts)
  unfoldable pub print_alerts : List Text → List (Print R.Real)
  print_alerts [] = []
  print_alerts (message ∷ alerts) = alert_message message ∷ print_alerts alerts

  -- for (auto const &pinfo : infovector)
  unfoldable pub print_peers : List (Text × ℕ) → List (Print R.Real)
  print_peers [] = []
  print_peers ((ip, flags) ∷ peers) =
      peer ip ∷ peer_flags (get_peer_info_message flags) ∷ print_peers peers

  module _ (W : Watched R.Real) where
    -- One round of while (1).
    unfoldable pub watch_round : W.State → List (Print R.Real) × W.State
    unfolding print_status print_alerts print_peers
    watch_round s =
        let (stats, s1) = W.status s in
        let (alerts, s2) = W.pop_alerts s1 in
        let (peers, s3) = W.get_peer_info s2 in
        (
          print_status stats ++ (print_alerts alerts ++ (print_peers peers ++ (blank_lines ∷ []))),
          s3,
        )

    -- What so many rounds print.
    unfoldable pub watch : ℕ → W.State → List (Print R.Real) × W.State
    unfolding watch_round
    watch zero s = ([], s)
    watch (suc rounds) s =
        let (printed, s1) = watch_round s in
        let (more, s2) = watch rounds s1 in (printed ++ more, s2)
