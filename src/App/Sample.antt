-- ===== src/App/Sample.antt =====
-- handleSample and handleDetectorError of internal/app/app.go, and Snapshot of
-- internal/monitor/monitor.go. What the firewall controller says of itself is an argument.
use digitdojo_shield.Prelude.{
  ℕ, ◌+◌, ◌-◌, ◌*◌, ◌/◌, Bool, not, ◌&&◌, List, [], ◌∷◌, ◌++◌, map, Option, none, some, ltb,
  if◌then◌else◌, length, ℤ, pos, negsuc, Text, text, text_beq,
}
use digitdojo_shield.Detector.Engine.{Metrics, Signal, evaluate}
use digitdojo_shield.Events.{Event}
use digitdojo_shield.History.{Metric, Attack, Store, HistoryError, record_sample}

-- Stats of package monitor, without what it reads of the Go runtime.
pub record Snapshot : Type 0 where
  pub packets_per_second : ℤ
  pub bandwidth_mbps : ℤ
  pub blocked_ips : ℕ
  pub attack_status : Text
  pub top_attackers : List Text

-- Monitor
pub record Monitor : Type 0 where
  pub blocked_ips : ℕ
  pub attack_status : Text

-- -n / d for Go's int, which rounds towards zero.
abbrev negated : ℕ → ℤ
negated n = if ltb 0 n then negsuc (n - 1) else pos 0

abbrev pub divided : ℤ → ℕ → ℤ
divided (pos n) d = pos (n / d)
divided (negsuc n) d = negated ((n + 1) / d)

abbrev pub quiet : Text
quiet = text "quiet"

abbrev pub under_attack : Text
under_attack = text "under_attack"

abbrev pub status_of : List Signal → Text
status_of signals = if ltb 0 (length signals) then under_attack else quiet

-- Monitor.Snapshot
unfoldable pub snapshot : Metrics → ℕ → List Signal → Monitor → Snapshot × Monitor
snapshot m blocked signals monitor = (
  record {
    packets_per_second = m.packets_per_second;
    bandwidth_mbps = divided m.bytes_per_second (1024 * 1024);
    blocked_ips = blocked;
    attack_status = status_of signals;
    top_attackers = m.top_talkers;
  },
  record { blocked_ips = blocked; attack_status = status_of signals },
)

-- RuntimeStats of package api.
pub record RuntimeStats : Type 0 where
  pub signals : ℕ
  pub blocked : ℕ
  pub packets_per_second : ℤ
  pub bandwidth_mbps : ℤ
  pub attack_status : Text
  pub firewall_backend : Text
  pub firewall_enforced : Bool

-- The parts of an Application that handleSample reads and changes.
pub record Sampler : Type 0 where
  pub engine : ℕ
  pub blacklist : List Text
  pub monitor : Monitor
  pub stats : RuntimeStats
  pub history : Store

-- strconv.Itoa, the text of an error, the identifiers of attacks, and what the controller's Describe
-- and EnforcementEnabled return.
pub record Lib : Type 0 where
  pub itoa : ℤ → Text
  pub show_error : HistoryError → Text
  pub attack_id : ℕ → Text → Text
  pub describe : Text
  pub enforcement_enabled : Bool

abbrev pub event_sample_collected : Text
event_sample_collected = text "SampleCollected"

abbrev pub event_attack_detected : Text
event_attack_detected = text "AttackDetected"

abbrev pub event_attack_cleared : Text
event_attack_cleared = text "AttackCleared"

abbrev pub event_runtime_error : Text
event_runtime_error = text "RuntimeError"

-- handleDetectorError: the event that it publishes.
abbrev pub detector_error : Text → Event
detector_error message = record {
  kind = event_runtime_error;
  payload = (text "component", text "detector") ∷ (text "error", message) ∷ [];
}

abbrev pub attack_of : Signal → Attack
attack_of s = record {
  id = [];
  kind = s.attack_type;
  severity = s.severity;
  started_at = 0;
  resolved_at = none;
  mitigation = [];
}

-- The metric that is recorded; the history stamps it with the time.
abbrev pub metric_of : Metrics → ℕ → List Signal → Metric
metric_of m blocked signals = record {
  timestamp = 0;
  packets_per_second = m.packets_per_second;
  connections_per_second = m.connections_per_second;
  bytes_per_second = m.bytes_per_second;
  blocked = blocked;
  signals = length signals;
}

module _ (lib : Lib) where
  abbrev pub history_events : Option HistoryError → List Event
  history_events none = []
  history_events (some e) =
      detector_error (text "persist telemetry history: " ++ lib.show_error e) ∷ []

  abbrev pub sample_collected : Metrics → List Signal → Event
  sample_collected m signals = record {
    kind = event_sample_collected;
    payload =
        (text "packets_per_second", lib.itoa m.packets_per_second)
        ∷ (text "signals", lib.itoa (pos (length signals)))
        ∷ [];
  }

  -- The events of a change of the status.
  abbrev pub alarm_events : Text → List Signal → List Event
  alarm_events previous signals =
      let now = status_of signals in
      (if not (text_beq previous under_attack) && text_beq now under_attack
        then record {
          kind = event_attack_detected;
          payload = (text "signals", lib.itoa (pos (length signals))) ∷ [];
        }
          ∷ []
        else [])
      ++ (if text_beq previous under_attack && text_beq now quiet
          then record { kind = event_attack_cleared; payload = [] } ∷ []
          else [])

  abbrev pub sampled :
      ℕ → Bool → Metrics → List Signal → Snapshot × Monitor → Sampler → Sampler × List Event
  sampled clock fails m signals (snap, monitor) a =
      let recorded =
        record_sample lib.attack_id clock fails (metric_of m snap.blocked_ips signals)
          (map attack_of signals) a.history in
      (
        record {
          engine = a.engine;
          blacklist = a.blacklist;
          monitor = monitor;
          stats = record {
            signals = length signals;
            blocked = snap.blocked_ips;
            packets_per_second = snap.packets_per_second;
            bandwidth_mbps = snap.bandwidth_mbps;
            attack_status = snap.attack_status;
            firewall_backend = lib.describe;
            firewall_enforced = lib.enforcement_enabled;
          };
          history = recorded.1;
        },
        history_events recorded.0
            ++ sample_collected m signals ∷ alarm_events a.stats.attack_status signals,
      )

  -- handleSample, at the time `clock`; `fails` says whether the save of the history fails.
  unfoldable pub handle_sample : ℕ → Bool → Metrics → Sampler → Sampler × List Event
  unfolding evaluate snapshot record_sample text_beq
  handle_sample clock fails m a =
      let signals = evaluate a.engine m in
      sampled clock fails m signals (snapshot m (length a.blacklist) signals a.monitor) a
