-- ===== src/History.antt =====
-- internal/history/history.go: metrics and the life of attacks. A time is a number of nanoseconds
-- since year 1, 0 for Go's zero time; a number of the Go type int is a natural number where it
-- counts. The file is what its JSON decodes to, and `attack_id` stands for the fmt.Sprintf of an id.
pub mod Attacks
pub mod Pages
pub mod Tests
use digitdojo_shield.Prelude.{
  ℕ, zero, suc, ◌+◌, ◌-◌, ◌≤◌, ◌≡◌, refl, Bool, true, false, not, ◌&&◌, ◌||◌, List, [], ◌∷◌, ◌++◌,
  map, Option, none, some, arith, ℤ, ltb, leb, eqb, if◌then◌else◌, has, length, take, drop, keep,
  sort_by, is_some, Text, text, text_beq, text_eq, Result, ok, err,
}

pub record Metric : Type 0 where
  pub timestamp : ℕ
  pub packets_per_second : ℤ
  pub connections_per_second : ℤ
  pub bytes_per_second : ℤ
  pub blocked : ℕ
  pub signals : ℕ

pub record Attack : Type 0 where
  pub id : Text
  pub kind : Text
  pub severity : Text
  pub started_at : ℕ
  pub resolved_at : Option ℕ
  pub mitigation : Text

pub record HistorySnapshot : Type 0 where
  pub version : ℕ
  pub metrics : List Metric
  pub attacks : List Attack

pub record Store : Type 0 where
  pub metrics : List Metric
  pub attacks : List Attack
  pub file : Option HistorySnapshot

pub data HistoryError : Type 0 where
  path_required write_failed : HistoryError
  unsupported_history : ℕ → HistoryError
  unreadable_history : Text → HistoryError

abbrev pub history_version : ℕ
history_version = 1

abbrev pub max_metrics : ℕ
max_metrics = 43200

-- saveLocked: the file is replaced, or stays as it was if a step fails.
unfoldable pub save_history : Bool → Store → Option HistoryError × Store
save_history fails s = if fails then (some write_failed, s) else (
  none,
  record s {
    file = some (record { version = history_version; metrics = s.metrics; attacks = s.attacks });
  },
)

abbrev pub or_error : Option HistoryError × Store → Result HistoryError Store
or_error (none, s) = ok s
or_error (some e, s) = err e

-- New, on a file that is absent, cannot be opened or decoded, or is decoded.
unfoldable pub new_store : Bool → Option (Result Text HistorySnapshot) → Result HistoryError Store
unfolding save_history
new_store fails none =
    or_error (save_history fails (record { metrics = []; attacks = []; file = none }))
new_store fails (some (err e)) = err (unreadable_history e)
new_store fails (some (ok d)) =
    if not (eqb d.version history_version)
    then err (unsupported_history d.version)
    else ok (record { metrics = d.metrics; attacks = d.attacks; file = some d })

-- attack.Type + "\x00" + attack.Severity
abbrev pub key : Attack → Text
key a = a.kind ++ 0 ∷ a.severity

unfoldable pub is_active : Text → Attack → Bool
is_active k a = not (is_some a.resolved_at) && text_beq (key a) k

-- findActive: the last active attack with the key; `none` is -1.
unfoldable pub find_active : Text → List Attack → Option ℕ
unfolding is_active
find_active k [] = none
find_active k (a ∷ rest) = elim (find_active k rest) [
  | some i ↦ some (suc i)
  | none ↦ if is_active k a then some 0 else none
]

-- The attack that a new signal opens.
abbrev pub opened : (ℕ → Text → Text) → ℕ → Attack → Attack
opened attack_id now a = record a {
  id = attack_id now a.kind;
  started_at = now;
  mitigation = text "detection only";
}

abbrev pub open_if_new : (ℕ → Text → Text) → ℕ → List Attack → Attack → List Attack
open_if_new attack_id now attacks a =
    if is_some (find_active (key a) attacks)
    then attacks
    else attacks ++ opened attack_id now a ∷ []

-- The first loop of Record, over the signals.
unfoldable pub open_attacks : (ℕ → Text → Text) → ℕ → List Attack → List Attack → List Attack
open_attacks attack_id now attacks [] = attacks
open_attacks attack_id now attacks (a ∷ rest) =
    open_attacks attack_id now (open_if_new attack_id now attacks a) rest

abbrev pub resolve_unless : ℕ → List Text → Attack → Attack
resolve_unless now active a =
    if not (is_some a.resolved_at) && not (has (key a) active)
    then record a { resolved_at = some now }
    else a

-- The second loop of Record: an active attack with no signal is resolved.
unfoldable pub resolve_attacks : ℕ → List Text → List Attack → List Attack
unfolding has
resolve_attacks now active [] = []
resolve_attacks now active (a ∷ rest) =
    resolve_unless now active a ∷ resolve_attacks now active rest

-- The last `max_metrics` of the metrics.
unfoldable pub trim_metrics : List Metric → List Metric
trim_metrics ms = if ltb max_metrics (length ms) then drop (length ms - max_metrics) ms else ms

abbrev pub stamped : ℕ → Metric → Metric
stamped clock m = if eqb m.timestamp 0 then record m { timestamp = clock } else m

-- Record, at the time `clock`; `fails` says whether the save fails.
unfoldable pub record_sample :
    (ℕ → Text → Text) → ℕ → Bool → Metric → List Attack → Store → Option HistoryError × Store
unfolding open_attacks resolve_attacks trim_metrics save_history find_active
record_sample attack_id clock fails metric signals s =
    let m = stamped clock metric in
    save_history fails (record s {
      metrics = trim_metrics (s.metrics ++ m ∷ []);
      attacks =
          resolve_attacks m.timestamp (map key signals)
            (open_attacks attack_id m.timestamp s.attacks signals);
    })

-- Metrics
unfoldable pub metrics_since : ℕ → Store → List Metric
metrics_since since s = keep (λ m. not (ltb m.timestamp since)) s.metrics

abbrev pub newer : Attack → Attack → Bool
newer a b = leb b.started_at a.started_at

-- Attacks: a page of the attacks, the newest first, and their number.
unfoldable pub attacks_page : ℕ → ℕ → Store → List Attack × ℕ
unfolding sort_by
attacks_page offset limit s =
    let sorted = sort_by newer s.attacks in
    let total = length sorted in
    let start = if ltb total offset then total else offset in
    let end = if ltb total (start + limit) then total else start + limit in
    (take (end - start) (drop start sorted), total)
