-- ===== src/Alerts/Manager.antt =====
-- internal/alerts/registry.go and manager.go: the transports, and the manager that keeps providers,
-- rules and deliveries. A time is a number of nanoseconds since year 1, 0 for Go's zero time.
-- `W` is the world of the transports, of the clock and of the random identifiers.
use digitdojo_shield.Prelude.{
  ℕ, ◌+◌, Bool, true, false, not, ◌||◌, List, [], ◌∷◌, ◌++◌, Option, none, some, if◌then◌else◌,
  is_some, lookup, put, ℤ, pos, above, Text, text, text_beq, text_eq, Result, ok, err,
}
use digitdojo_shield.Alerts.Retry.{RetryPolicy}

pub record ProviderHealth : Type 0 where
  pub status : Text
  pub last_success : Option ℕ
  pub last_failure : Option ℕ
  pub last_checked : ℕ
  pub last_latency_millis : ℕ
  pub consecutive_successes : ℕ
  pub consecutive_failures : ℕ
  pub last_error : Text

pub record Provider : Type 0 where
  pub id : Text
  pub kind : Text
  pub name : Text
  pub enabled : Bool
  pub secret : Text
  pub retry_policy : RetryPolicy
  pub timeout_millis : ℤ
  pub created_at : ℕ
  pub updated_at : ℕ
  pub validation : Text
  pub health : ProviderHealth

pub record Rule : Type 0 where
  pub id : Text
  pub name : Text
  pub enabled : Bool
  pub event_type : Text
  pub minimum_severity : Text
  pub provider_ids : List Text
  pub cooldown_seconds : ℤ
  pub conditions : List (Text × Text)
  pub created_at : ℕ
  pub updated_at : ℕ

pub record Delivery : Type 0 where
  pub id : Text
  pub rule_id : Text
  pub provider_id : Text
  pub event : Text
  pub severity : Text
  pub timestamp : ℕ
  pub delivered : Bool
  pub duration_millis : ℕ
  pub error : Text
  pub retry_count : ℤ
  pub started_at : ℕ
  pub completed_at : ℕ
  pub response_code : ℤ

-- The type state, whose version is 1.
pub record AlertState : Type 0 where
  pub providers : List Provider
  pub rules : List Rule
  pub deliveries : List Delivery

pub record AlertEvent : Type 0 where
  pub kind : Text
  pub severity : Text
  pub message : Text
  pub fields : List (Text × Text)

-- An error of a transport: its text, and whether it is a TemporaryError that says so.
pub record TransportError : Type 0 where
  pub message : Text
  pub temporary : Bool

pub record DeliveryResult : Type 0 where
  pub success : Bool
  pub retryable : Bool
  pub response_code : ℤ
  pub error : Option TransportError

-- The interface Transport, of which the manager calls Send: with the timeout of the attempt, the
-- secret and the notification, whose fields are those of the event.
pub record Transport (W : Type 0) : Type 0 where
  pub send : ℤ → Text → AlertEvent → W → DeliveryResult × W

pub data AlertError : Type 0 where
  transport_required provider_required save_failed : AlertError
  already_registered unknown_provider : Text → AlertError

-- Registry.Register
unfoldable pub register :
    {W : Type 0}
    → Text
    → Option (Transport W)
    → List (Text × Transport W)
    → Result AlertError (List (Text × Transport W))
unfolding lookup put text_beq
register kind none items = err transport_required
register kind (some t) items =
    if text_beq kind (text "")
    then err transport_required
    else if is_some (lookup kind items)
    then err (already_registered kind)
    else ok (put kind t items)

pub record Manager (W : Type 0) : Type 0 where
  pub registry : List (Text × Transport W)
  pub state : AlertState
  pub cooldowns : List (Text × ℕ)
  pub file : Option AlertState

-- time.Now, id, the context and timer of Retry, and whether the next save fails.
pub record Env (W : Type 0) : Type 0 where
  pub now : W → ℕ × W
  pub new_id : W → Text × W
  pub ctx_err : W → Option TransportError
  pub wait : ℕ → W → Option TransportError × W
  pub save_fails : W → Bool × W

-- saveLocked
abbrev pub save_as : {W : Type 0} → Bool × W → Manager W → Option AlertError × Manager W × W
save_as (true, w) m = (some save_failed, m, w)
save_as (false, w) m = (none, record m { file = some m.state }, w)

abbrev pub saved_state :
    {W : Type 0} → Env W → AlertState → Manager W → W → Option AlertError × Manager W × W
saved_state env s m w = save_as (env.save_fails w) (record m { state = s })

-- AddProvider
abbrev pub with_id : {W : Type 0} → Env W → Provider → W → Provider × W
with_id env p w =
    if text_beq p.id (text "")
    then (record p { id = (env.new_id w).0 }, (env.new_id w).1)
    else (p, w)

abbrev pub completed : ℕ → Provider → Provider
completed now p = record p {
  timeout_millis = if above 0 p.timeout_millis then p.timeout_millis else pos 10000;
  retry_policy = record p.retry_policy {
    attempts = if above 0 p.retry_policy.attempts then p.retry_policy.attempts else pos 3;
  };
  created_at = now;
  updated_at = now;
}

abbrev pub add_identified :
    {W : Type 0} → Env W → Manager W → Provider × W → Option AlertError × Manager W × W
add_identified env m (p, w) =
    if text_beq p.name (text "") || not (is_some (lookup p.kind m.registry))
    then (some provider_required, m, w)
    else saved_state env
        (record m.state { providers = m.state.providers ++ completed (env.now w).0 p ∷ [] }) m
        (env.now w).1

unfoldable pub add_provider :
    {W : Type 0} → Env W → Provider → Manager W → W → Option AlertError × Manager W × W
unfolding text_beq lookup
add_provider env p m w = add_identified env m (with_id env p w)

-- The health after a check at a time: `none` is no error.
unfoldable pub checked_health : Text → ℕ → ℕ → Option Text → ProviderHealth → ProviderHealth
checked_health status now latency none h = record h {
  status = status;
  last_checked = now;
  last_latency_millis = latency;
  last_success = some now;
  last_error = text "";
  consecutive_successes = h.consecutive_successes + 1;
  consecutive_failures = 0;
}
checked_health status now latency (some cause) h = record h {
  status = status;
  last_checked = now;
  last_latency_millis = latency;
  last_failure = some now;
  last_error = cause;
  consecutive_failures = h.consecutive_failures + 1;
  consecutive_successes = 0;
}

-- The loop of UpdateHealth: the first provider with the identifier.
unfoldable pub update_first :
    Text → Text → ℕ → ℕ → Option Text → List Provider → Option (List Provider)
unfolding checked_health text_beq
update_first id status now latency cause [] = none
update_first id status now latency cause (p ∷ ps) =
    let rest = update_first id status now latency cause ps in
    if text_beq p.id id
    then some (
        record p { health = checked_health status now latency cause p.health; updated_at = now }
        ∷ ps)
    else elim rest [ none ↦ none | some qs ↦ some (p ∷ qs) ]

abbrev pub save_updated :
    {W : Type 0}
    → Env W
    → Text
    → Manager W
    → W
    → Option (List Provider)
    → Option AlertError × Manager W × W
save_updated env id m w none = (some (unknown_provider id), m, w)
save_updated env id m w (some ps) = saved_state env (record m.state { providers = ps }) m w

-- UpdateHealth
unfoldable pub update_health :
    {W : Type 0}
    → Env W
    → Text
    → Text
    → ℕ
    → Option Text
    → Manager W
    → W
    → Option AlertError × Manager W × W
unfolding update_first
update_health env id status latency cause m w =
    save_updated env id m (env.now w).1
      (update_first id status (env.now w).0 latency cause m.state.providers)
