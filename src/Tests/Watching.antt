-- ===== src/Tests/Watching.antt =====
-- Two rounds of the seeder's last loop, and two of peerlisten.
use bitfs.Base.{ℕ, ◌+◌, ◌≡◌, [], ◌∷◌, ◌++◌, ok, ◌==◌, if◌then◌else◌}
use bitfs.Base.Int.{pos, negsuc}
use bitfs.Base.Ascii.{codes}
use bitfs.PeerWire.Socket.{failed}
use bitfs.PeerWire.Listen.{Listening, says, peerlisten, greetings, peerlisten_accepts}
use bitfs.Seeder.Watch.{Watched, watch}
use bitfs.Seeder.Output.{messages_in, flags_in, flag_texts, watch_tells}
use bitfs.Tests.Statistics.{test_reals}

-- The state counts the rounds: each has an alert, and a peer whose flags are that number.
abbrev watched : Watched test_reals.Real
watched = record {
  State = ℕ;
  status = λ n. (
    record {
      state = 5;
      progress = (pos 1, pos 1);
      total_download = 4096;
      total_upload = 0;
      upload_rate = 7;
      num_seeds = 1;
      num_peers = n;
    },
    n,
  );
  pop_alerts = λ n. ((n ∷ []) ∷ [], n);
  get_peer_info = λ n. ((codes "10.0.0.1", n) ∷ [], n + 1);
}

watch_tells_example :
    let out = (watch test_reals watched 2 1).0 in
    (messages_in out ≡ (1 ∷ []) ∷ (2 ∷ []) ∷ [])
    × (flags_in out ≡ flag_texts ((codes "10.0.0.1", 1) ∷ (codes "10.0.0.1", 2) ∷ []))
watch_tells_example = watch_tells test_reals watched 2 1

-- The first connection fails and the second one is 4.
abbrev system : Listening
system = record {
  State = ℕ;
  socket = λ n. (pos 3, n);
  bind = λ sockfd port n. (pos 0, n);
  listen = λ sockfd backlog n. n;
  accept = λ sockfd n. ((if n == 0 then negsuc 0 else pos 4), n + 1);
  read = λ newsockfd n s. (failed, s);
}

peerlisten_accepts_example :
    peerlisten system 2 1 0
    ≡ ok ((says "Listening on port 6881....\n" ∷ []) ++ greetings system (negsuc 0 ∷ pos 4 ∷ []), 2)
peerlisten_accepts_example = peerlisten_accepts system 2 0 0
