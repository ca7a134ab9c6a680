-- ===== src/Alerts/Dispatch.antt =====
-- Manager.deliver and Manager.Dispatch of internal/alerts/manager.go.
use digitdojo_shield.Prelude.{
  ℕ, zero, suc, ◌+◌, ◌-◌, ◌*◌, ◌/◌, ◌^◌, Bool, true, false, not, ◌&&◌, ◌||◌, List, [], ◌∷◌, ◌++◌,
  Option, none, some, ltb, if◌then◌else◌, length, drop, lookup, put, ℤ, pos, negsuc, Text, text,
  text_beq, text_eq,
}
use digitdojo_shield.Alerts.Retry.{RetryError, Waits, retry}
use digitdojo_shield.Alerts.Manager.{
  Provider, ProviderHealth, Rule, Delivery, AlertState, AlertEvent, TransportError, DeliveryResult,
  Transport, Manager, Env, checked_health, saved_state,
}

-- What an attempt acts on: the world, and the variables `result` and `attempts` of deliver.
pub record Attempting (W : Type 0) : Type 0 where
  pub world : W
  pub result : DeliveryResult
  pub attempts : ℕ

-- The operation's error of a result; TransportError.temporary says what Retryable says of it.
abbrev pub error_of : DeliveryResult → TransportError
error_of r = elim r.error [
  | none ↦ record { message = text "transport delivery failed"; temporary = false }
  | some e ↦ e
]

abbrev pub attempt_outcome :
    {W : Type 0} → ℕ → DeliveryResult × W → Option TransportError × Attempting W
attempt_outcome n (r, w) =
    if r.success then (none, record { world = w; result = r; attempts = n + 1 }) else (
      some (if r.retryable then record (error_of r) { temporary = true } else error_of r),
      record { world = w; result = record r { error = some (error_of r) }; attempts = n + 1 },
    )

abbrev pub attempt :
    {W : Type 0}
    → Transport W
    → Provider
    → AlertEvent
    → Attempting W
    → Option TransportError × Attempting W
attempt t p event a = attempt_outcome a.attempts (t.send p.timeout_millis p.secret event a.world)

abbrev pub waits_of : {W : Type 0} → Env W → Waits (Attempting W) TransportError
waits_of env = record {
  ctx_err = λ a. env.ctx_err a.world;
  wait = λ n a. ((env.wait n a.world).0, record a { world = (env.wait n a.world).1 });
  retryable = λ e. e.temporary;
}

-- n - 1, on Go's integers.
abbrev pub minus_one : ℕ → ℤ
minus_one zero = negsuc 0
minus_one (suc n) = pos n

abbrev pub is_delivered : Option (RetryError TransportError) → Bool
is_delivered none = true
is_delivered (some e) = false

abbrev pub message_of : Option TransportError → Text
message_of none = text ""
message_of (some e) = e.message

abbrev pub health_after : Delivery → ProviderHealth → ProviderHealth
health_after d h =
    if d.delivered
    then checked_health (text "healthy") d.completed_at d.duration_millis none h
    else checked_health (text "unreachable") d.completed_at d.duration_millis (some d.error) h

-- The loop of deliver over the providers.
unfoldable pub record_health : Delivery → List Provider → List Provider
unfolding checked_health
record_health d [] = []
record_health d (p ∷ ps) =
    (if text_beq p.id d.provider_id then record p { health = health_after d p.health } else p)
    ∷ record_health d ps

-- The last 10000 deliveries.
unfoldable pub trim_deliveries : List Delivery → List Delivery
trim_deliveries ds = if ltb 10000 (length ds) then drop (length ds - 10000) ds else ds

abbrev pub state_after : Delivery → AlertState → AlertState
state_after d s = record s {
  providers = record_health d s.providers;
  deliveries = trim_deliveries (s.deliveries ++ d ∷ []);
}

-- The end of deliver, whose save may fail unnoticed.
abbrev pub record_delivery : {W : Type 0} → Env W → Delivery → Manager W → W → Manager W × W
record_delivery env d m w = let r = saved_state env (state_after d m.state) m w in (r.1, r.2)

abbrev pub no_result : DeliveryResult
no_result = record { success = false; retryable = false; response_code = pos 0; error = none }

abbrev pub attempts_made :
    {W : Type 0}
    → Env W
    → Provider
    → AlertEvent
    → Transport W
    → W
    → Option (RetryError TransportError) × Attempting W
attempts_made env p event t w =
    retry (waits_of env) p.retry_policy (some (attempt t p event))
      (record { world = w; result = no_result; attempts = 0 })

abbrev pub delivery_of :
    Text
    → Text
    → Provider
    → AlertEvent
    → ℕ
    → ℕ
    → ℕ
    → Option (RetryError TransportError)
    → DeliveryResult
    → ℕ
    → Delivery
delivery_of id rule_id p event start measured completed outcome result attempts = record {
  id = id;
  rule_id = rule_id;
  provider_id = p.id;
  event = event.kind;
  severity = event.severity;
  timestamp = start;
  delivered = is_delivered outcome;
  duration_millis = (measured - start) / 1000000;
  error = message_of result.error;
  retry_count = minus_one attempts;
  started_at = start;
  completed_at = completed;
  response_code = result.response_code;
}

-- deliver, with the transport resolved, after the attempts.
abbrev pub finish_delivery :
    {W : Type 0}
    → Env W
    → Text
    → Provider
    → AlertEvent
    → ℕ
    → Text
    → Manager W
    → Option (RetryError TransportError) × Attempting W
    → Manager W × W
finish_delivery env rule_id p event start id m (outcome, a) =
    let measured = env.now a.world in
    let completed = env.now measured.1 in
    record_delivery env
      (delivery_of id rule_id p event start measured.0 completed.0 outcome a.result a.attempts) m
      completed.1

abbrev pub deliver_by :
    {W : Type 0}
    → Env W
    → Text
    → Provider
    → AlertEvent
    → Manager W
    → W
    → Option (Transport W)
    → Manager W × W
deliver_by env rule_id p event m w none = (m, (env.new_id (env.now w).1).1)
deliver_by env rule_id p event m w (some t) =
    let start = env.now w in
    let id = env.new_id start.1 in
    finish_delivery env rule_id p event start.0 id.0 m (attempts_made env p event t id.1)

-- deliver; it reads nothing of the rule but its identifier.
unfoldable pub deliver :
    {W : Type 0} → Env W → Rule → Provider → AlertEvent → Manager W × W → Manager W × W
unfolding retry checked_health record_health trim_deliveries lookup
deliver env rule p event (m, w) = deliver_by env rule.id p event m w (lookup p.kind m.registry)

-- The two inner loops of Dispatch, over the providers and over the identifiers of the rule.
unfoldable pub deliver_to :
    {W : Type 0} → Env W → Rule → AlertEvent → Text → List Provider → Manager W × W → Manager W × W
unfolding deliver
deliver_to env rule event pid [] s = s
deliver_to env rule event pid (p ∷ ps) s =
    deliver_to env rule event pid ps
      (if text_beq p.id pid && p.enabled then deliver env rule p event s else s)

unfoldable pub deliver_all :
    {W : Type 0}
    → Env W
    → Rule
    → AlertEvent
    → List Provider
    → List Text
    → Manager W × W
    → Manager W × W
unfolding deliver_to
deliver_all env rule event ps [] s = s
deliver_all env rule event ps (pid ∷ rest) s =
    deliver_all env rule event ps rest (deliver_to env rule event pid ps s)

-- t.Add(time.Duration(n) * time.Second)
abbrev pub add_seconds : ℕ → ℤ → ℕ
add_seconds t (pos n) = t + n * 10 ^ 9
add_seconds t (negsuc n) = t - suc n * 10 ^ 9

-- cooldowns[key], the zero time if it is missing.
abbrev pub cooldown_of : {W : Type 0} → Text → Manager W → ℕ
cooldown_of key m = elim (lookup key m.cooldowns) [ none ↦ 0 | some t ↦ t ]

-- The body of the loop of Dispatch for a rule that matches.
unfoldable pub fire :
    {W : Type 0} → Env W → AlertEvent → List Provider → Rule → Manager W × W → Manager W × W
unfolding deliver_all lookup put
fire env event ps rule (m, w) =
    let key = rule.id ++ event.kind in
    let checked = env.now w in
    let armed = env.now checked.1 in
    if ltb checked.0 (cooldown_of key m)
    then (m, checked.1)
    else deliver_all env rule event ps rule.provider_ids (
      record m { cooldowns = put key (add_seconds armed.0 rule.cooldown_seconds) m.cooldowns },
      armed.1,
    )

unfoldable pub dispatch_rules :
    {W : Type 0} → Env W → AlertEvent → List Provider → List Rule → Manager W × W → Manager W × W
unfolding fire
dispatch_rules env event ps [] s = s
dispatch_rules env event ps (r ∷ rs) s =
    dispatch_rules env event ps rs
      (if not r.enabled || not (text_beq r.event_type event.kind) then s else fire env event ps r s)

-- Dispatch, over the rules and providers as they are when it starts.
unfoldable pub dispatch : {W : Type 0} → Env W → AlertEvent → Manager W × W → Manager W × W
unfolding dispatch_rules
dispatch env event (m, w) = dispatch_rules env event m.state.providers m.state.rules (m, w)
