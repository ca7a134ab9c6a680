-- ===== src/Detector/Tests.antt =====
-- The detector at concrete inputs.
use digitdojo_shield.Prelude.{◌≡◌, refl, true, false, [], none, has, pos, text, text_beq, text_eq}
use digitdojo_shield.Detector.Engine.{Metrics, evaluate, kinds}
use digitdojo_shield.Detector.Daemon.{Daemon, new_daemon, start, stop, exit}
use digitdojo_shield.Detector.Lifecycle.{
  Reach, here, next, starts, stops, IsSound, Reach-IsSound, start-while_stopping,
}

abbrev flooded : Metrics
flooded = record {
  packets_per_second = pos 2500;
  connections_per_second = pos 0;
  bytes_per_second = pos 0;
  unique_ips = pos 0;
  top_talkers = [];
}

flooded_at_2000 : has (text "udp_flood") (kinds (evaluate 2000 flooded)) ≡ true
unfolding evaluate has text_beq
flooded_at_2000 = refl

abbrev stopping_daemon : Daemon
stopping_daemon = stop (start new_daemon).1

stopping_reached : Reach stopping_daemon
stopping_reached = next (next here starts) stops

Reach-IsSound_example : IsSound stopping_daemon
Reach-IsSound_example = Reach-IsSound stopping_reached

start-while_stopping_example :
    ((start stopping_daemon).0 ≡ none)
    × (stopping_daemon.stopping ≡ true
        → (start stopping_daemon ≡ (none, stopping_daemon))
          × (exit stopping_daemon.done (start stopping_daemon).1).live ≡ []
          × (exit stopping_daemon.done (start stopping_daemon).1).running ≡ false)
start-while_stopping_example = start-while_stopping stopping_reached
