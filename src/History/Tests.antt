-- ===== src/History/Tests.antt =====
-- The history at concrete inputs: one attack that goes on, one that was resolved.
use digitdojo_shield.Prelude.{
  pos, ℕ, ◌≤◌, ◌≡◌, refl, false, [], ◌∷◌, map, none, some, arith, has, Text, text, text_eq,
}
use digitdojo_shield.History.{Metric, Attack, Store, key, is_active, record_sample}
use digitdojo_shield.History.Attacks.{any_active, count_active, IsSignals, record_sample-active}

abbrev sample_id : ℕ → Text → Text
sample_id n kind = n ∷ kind

abbrev flood : Attack
flood = record {
  id = 1 ∷ [];
  kind = text "udp_flood";
  severity = text "high";
  started_at = 1;
  resolved_at = none;
  mitigation = text "detection only";
}

abbrev scan : Attack
scan = record flood { kind = text "port_scan"; severity = text "medium"; resolved_at = some 2 }

abbrev burst : Attack
burst = record flood { kind = text "connection_flood"; severity = text "medium" }

abbrev metric : Metric
metric = record {
  timestamp = 7;
  packets_per_second = pos 3000;
  connections_per_second = pos 10;
  bytes_per_second = pos 1;
  blocked = 0;
  signals = 1;
}

abbrev recorded : Store
recorded = record { metrics = metric ∷ []; attacks = flood ∷ scan ∷ []; file = none }

burst-IsSignals : IsSignals (burst ∷ [])
burst-IsSignals = (refl, tt)

record_sample-active_example :
    any_active (key flood) (record_sample sample_id 9 false metric (burst ∷ []) recorded).1.attacks
    ≡ has (key flood) (map key (burst ∷ []))
record_sample-active_example =
    record_sample-active sample_id 9 false metric (burst ∷ []) recorded (key flood) burst-IsSignals

at_most_one : (k : Text) → count_active k recorded.attacks ≤ 1
unfolding count_active is_active
at_most_one k = ground arith
