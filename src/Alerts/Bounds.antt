-- ===== src/Alerts/Bounds.antt =====
-- What Dispatch of internal/alerts/manager.go keeps true of the manager.
use digitdojo_shield.Prelude.{
  ℕ, ◌-◌, ◌≤◌, ◌≡◌, ◌⊎◌, inl, inr, refl, Bool, true, false, not, ◌&&◌, ◌||◌, List, [], ◌∷◌, ◌++◌,
  Option, none, some, arith, if◌then◌else◌, length, length-drop, lookup, put, All, Text, text,
  text_beq, text_eq,
}
use digitdojo_shield.Alerts.Retry.{RetryError}
use digitdojo_shield.Alerts.Manager.{
  Provider, Rule, Delivery, AlertEvent, TransportError, Transport, Manager, Env, checked_health,
  save_as,
}
use digitdojo_shield.Alerts.Dispatch.{
  Attempting, record_health, trim_deliveries, state_after, record_delivery, attempts_made,
  finish_delivery, deliver_by, deliver, deliver_to, deliver_all, add_seconds, fire, dispatch_rules,
  dispatch,
}

-- A property of managers that a cooldown and the record of a delivery keep.
pub record IsKept {W : Type 0} (P : Manager W → Type 0) : Type 0 where
  pub by_cooldowns : (c : List (Text × ℕ)) (m : Manager W) → P m → P (record m { cooldowns = c })
  pub by_deliveries :
      (env : Env W) (d : Delivery) (m : Manager W) (w : W) → P m → P (record_delivery env d m w).0

module _ {W : Type 0} (env : Env W) (event : AlertEvent) (P : Manager W → Type 0)
    (kept : IsKept P) where
  finish_delivery-kept :
      (rule_id id : Text) (p : Provider) (start : ℕ) (m : Manager W)
      (r : Option (RetryError TransportError) × Attempting W)
      → P m
      → P (finish_delivery env rule_id p event start id m r).0
  finish_delivery-kept rule_id id p start m (o, a) h = kept.by_deliveries env _ m _ h

  deliver_by-kept :
      (rule_id : Text) (p : Provider) (m : Manager W) (w : W) (o : Option (Transport W))
      → P m
      → P (deliver_by env rule_id p event m w o).0
  deliver_by-kept rule_id p m w none h = h
  deliver_by-kept rule_id p m w (some t) h =
      finish_delivery-kept rule_id _ p _ m
        (attempts_made env p event t (env.new_id (env.now w).1).1) h

  deliver-kept :
      (r : Rule) (p : Provider) (s : Manager W × W) → P s.0 → P (deliver env r p event s).0
  unfolding deliver
  deliver-kept r p (m, w) h = deliver_by-kept r.id p m w (lookup p.kind m.registry) h

  deliver_to-kept :
      (r : Rule) (pid : Text) (ps : List Provider) (s : Manager W × W)
      → P s.0
      → P (deliver_to env r event pid ps s).0
  unfolding deliver_to
  deliver_to-kept r pid [] s h = h
  deliver_to-kept r pid (p ∷ ps) s h =
      deliver_to-kept r pid ps _ (step (text_beq p.id pid && p.enabled))
    where
      step : (b : Bool) → P (if b then deliver env r p event s else s).0
      step true = deliver-kept r p s h
      step false = h

  deliver_all-kept :
      (r : Rule) (ps : List Provider) (ids : List Text) (s : Manager W × W)
      → P s.0
      → P (deliver_all env r event ps ids s).0
  unfolding deliver_all
  deliver_all-kept r ps [] s h = h
  deliver_all-kept r ps (i ∷ ids) s h = deliver_all-kept r ps ids _ (deliver_to-kept r i ps s h)

  fire-kept :
      (ps : List Provider) (r : Rule) (s : Manager W × W) → P s.0 → P (fire env event ps r s).0
  unfolding fire
  fire-kept ps r (m, w) h = step _
    where
      step :
          (b : Bool)
          → P
              (if b
                then (m, (env.now w).1)
                else deliver_all env r event ps r.provider_ids (
                  record m {
                    cooldowns =
                        put
                          (r.id ++ event.kind)
                          (add_seconds (env.now (env.now w).1).0 r.cooldown_seconds)
                          m.cooldowns;
                  },
                  (env.now (env.now w).1).1,
                )).0
      step true = h
      step false = deliver_all-kept r ps r.provider_ids _ (kept.by_cooldowns _ m h)

  dispatch_rules-kept :
      (ps : List Provider) (rs : List Rule) (s : Manager W × W)
      → P s.0
      → P (dispatch_rules env event ps rs s).0
  unfolding dispatch_rules
  dispatch_rules-kept ps [] s h = h
  dispatch_rules-kept ps (r ∷ rs) s h =
      dispatch_rules-kept ps rs _ (step (not r.enabled || not (text_beq r.event_type event.kind)))
    where
      step : (b : Bool) → P (if b then s else fire env event ps r s).0
      step true = h
      step false = fire-kept ps r s h

  dispatch-kept : (s : Manager W × W) → P s.0 → P (dispatch env event s).0
  unfolding dispatch
  dispatch-kept (m, w) h = dispatch_rules-kept m.state.providers m.state.rules (m, w) h

save_as-state : {W : Type 0} (b : Bool × W) (m : Manager W) → (save_as b m).1.state ≡ m.state
save_as-state (true, w) m = refl
save_as-state (false, w) m = refl

abbrev pub IsBounded : {W : Type 0} → Manager W → Type 0
IsBounded m = length m.state.deliveries ≤ 10000

trim_deliveries-bound : (ds : List Delivery) → length (trim_deliveries ds) ≤ 10000
unfolding trim_deliveries
trim_deliveries-bound ds = ground (arith, length-drop (length ds - 10000) ds)

IsBounded-kept : {W : Type 0} → IsKept {W = W} IsBounded
IsBounded-kept = record {
  by_cooldowns = λ c m h. h;
  by_deliveries = λ env d m w h.
      rw (save_as-state (env.save_fails w) (record m { state = state_after d m.state }))
        (trim_deliveries-bound _);
}

-- At most one of the two counters of a provider's health is not zero.
abbrev pub IsCounted : Provider → Type 0
IsCounted p = (p.health.consecutive_successes ≡ 0) ⊎ (p.health.consecutive_failures ≡ 0)

abbrev pub AllCounted : {W : Type 0} → Manager W → Type 0
AllCounted m = All IsCounted m.state.providers

record_health-IsCounted :
    (d : Delivery) (ps : List Provider) → All IsCounted ps → All IsCounted (record_health d ps)
unfolding record_health checked_health
record_health-IsCounted d [] h = tt
record_health-IsCounted d (p ∷ ps) h =
    (step (text_beq p.id d.provider_id) d.delivered, record_health-IsCounted d ps h.1)
  where
    step :
        (b c : Bool)
        → IsCounted (
            if b
            then record p {
              health =
                  if c
                  then checked_health
                      (text "healthy")
                      d.completed_at
                      d.duration_millis
                      none
                      p.health
                  else checked_health
                      (text "unreachable")
                      d.completed_at
                      d.duration_millis
                      (some d.error)
                      p.health;
            }
            else p)
    step true true = inr refl
    step true false = inl refl
    step false c = h.0

AllCounted-kept : {W : Type 0} → IsKept {W = W} AllCounted
AllCounted-kept = record {
  by_cooldowns = λ c m h. h;
  by_deliveries = λ env d m w h.
      rw (save_as-state (env.save_fails w) (record m { state = state_after d m.state }))
        (record_health-IsCounted d _ h);
}

-- If there are at most 10000 deliveries, and for each provider the count of successes in a row or
-- the count of failures in a row is zero, both hold after an event was dispatched.
pub dispatch-bounds :
    {W : Type 0} (env : Env W) (event : AlertEvent) (s : Manager W × W)
    → IsBounded s.0
    → AllCounted s.0
    → IsBounded (dispatch env event s).0 × AllCounted (dispatch env event s).0
dispatch-bounds env event s b c = (
  dispatch-kept env event IsBounded IsBounded-kept s b,
  dispatch-kept env event AllCounted AllCounted-kept s c,
)
