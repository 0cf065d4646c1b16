-- ===== src/Seeder.antt =====
-- seeder.cpp: the program that serves a torrent.
pub mod Watch
pub mod Output
use Prim.Native.String.{String}
use bitfs.Base.{ℕ, ◌*◌, false, List, [], ◌∷◌, Option, none, some, Outcome, ok, fault}
use bitfs.Base.Int.{pos, negsuc}
use bitfs.Base.Text.{Text}
use bitfs.Torrent.{TorrentInfo}
use bitfs.Session.{Session}
use bitfs.Fs.Init.{Value, text, flag, number, named, Library}

abbrev pub seeder_settings : List (String × Value)
seeder_settings =
    ("listen_interfaces", text "0.0.0.0:6881")
    ∷ ("alert_mask", named "peer_log_notification")
    ∷ ("strict_end_game_mode", flag false)
    ∷ ("smooth_connects", flag false)
    ∷ ("choking_algorithm", named "fixed_slots_choker")
    ∷ ("seed_choking_algorithm", named "round_robin")
    ∷ ("unchoke_slots_limit", number (negsuc 0))
    ∷ ("max_allowed_in_request_queue", number (pos 9999999))
    ∷ ("connection_speed", number (pos 10000))
    ∷ ("optimistic_unchoke_interval", number (pos 1))
    ∷ ("send_buffer_low_watermark", number (pos (1024 * 1024)))
    ∷ ("send_buffer_watermark", number (pos (1024 * 1024)))
    ∷ ("send_buffer_watermark_factor", number (pos 512))
    ∷ ("seeding_piece_quota", number (pos 2000))
    ∷ ("num_optimistic_unchoke_slots", number (pos 20))
    ∷ ("active_seeds", number (pos 512))
    ∷ ("auto_manage_interval", number (pos 1))
    ∷ ("seed_time_limit", number (pos (1024 * 60 * 60)))
    ∷ ("enable_dht", flag false)
    ∷ []

-- How main goes on after it has set up the session: it returns a status, or prints for ever.
pub data Seeding (S : Session) : Type 0 where
  returns : ℕ → Seeding S
  seeds : TorrentInfo → S.State → Seeding S

module _ {S : Session} (lib : Library S) where
  unfoldable start_seeding : TorrentInfo → Option S.State → Seeding S
  start_seeding ti none = returns 1
  start_seeding ti (some sess) = seeds ti sess

  unfoldable load_torrent : Option TorrentInfo → Seeding S
  unfolding start_seeding
  load_torrent none = returns 1
  load_torrent (some ti) = start_seeding ti (lib.add_torrent (lib.new_session seeder_settings) ti)

  -- int main(int argc, char **argv) up to its last loop: argv[1] is read whatever argc is.
  unfoldable pub seeder_main : List Text → Outcome (Seeding S)
  unfolding load_torrent
  seeder_main (argv0 ∷ argv1 ∷ rest) = ok (load_torrent (lib.load argv1))
  seeder_main argv = fault
