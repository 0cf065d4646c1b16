-- ===== src/Single/Display.antt =====
-- display_stats of bitFS.cpp: the statistics as they are printed.
use Prim.Native.String.{String}
use bitfs.Base.{
  ℕ, suc, ◌*◌, ◌/◌, Bool, List, [], ◌∷◌, ◌++◌, Outcome, ok, fault, ltb, ◌==◌, ◌||◌, if◌then◌else◌,
}
use bitfs.Base.Int.{ℤ, pos, negsuc, sub_ℕ, int_max}
use bitfs.Base.Reals.{Reals}
use bitfs.Torrent.{TorrentInfo}
use bitfs.Single.{SessionStat}

-- A line of the output: a text, a text with a time as ctime writes it, with an int and a unit, or
-- with a double and a unit.
pub data StatLine (Real : Type 0) : Type 0 where
  says : String → StatLine Real
  time : String → ℕ → StatLine Real
  whole : String → ℤ → String → StatLine Real
  number : String → Real → String → StatLine Real

-- The quotient of an int by a positive one, cut towards 0.
abbrev pub over_int : ℤ → ℕ → ℤ
over_int (pos a) b = pos (a / b)
over_int (negsuc a) b = sub_ℕ 0 (suc a / b)

module _ (R : Reals) where
  -- The statements that print, with enable_caching and the two local variables of type double.
  unfoldable pub print_stats : Bool → R.Real → R.Real → SessionStat → List (StatLine R.Real)
  print_stats enable_caching session_time download_size stats =
      says "Session statistics "
      ∷ says "-----------------------------------"
      ∷ time "Start time : " stats.start_time
      ∷ time "End time : " stats.end_time
      ∷ number "Session Time : " session_time " seconds"
      ∷ whole "Pieces Downloaded : " (pos stats.piece_download_counter) ""
      ∷ number "Total Download Size : " download_size "MB"
      ∷ whole "Total File Size : " (over_int (over_int stats.file_size 1024) 1024) " MB"
      ∷ ((if enable_caching
            then whole "Cache hit counter : " (pos stats.cache_hit_counter) ""
              ∷ whole "Cache hit rate : " (pos stats.cache_hit_rate) " % "
              ∷ []
            else [])
          ++ (number "Network utilization : " (R.quotient download_size session_time) " MBPS" ∷ []))

  -- void display_stats(), at the time `now`: what is stored and what is printed. The two products
  -- are of type int.
  unfoldable pub display_stats :
      Bool → ℕ → TorrentInfo → SessionStat → Outcome (SessionStat × List (StatLine R.Real))
  unfolding print_stats
  display_stats enable_caching now ti stats =
      let session_time = R.of_int (sub_ℕ now stats.start_time) in
      let bytes = stats.piece_download_counter * ti.piece_length in
      let stats' : SessionStat = record stats {
        end_time = now;
        cache_hit_rate = stats.cache_hit_counter * 100 / stats.piece_download_counter;
      } in
      if ltb int_max bytes
      then fault
      else if stats.piece_download_counter == 0 || ltb int_max (stats.cache_hit_counter * 100)
      then fault
      else ok (
        stats',
        print_stats enable_caching session_time (R.of_int (pos (bytes / 1024 / 1024))) stats',
      )
