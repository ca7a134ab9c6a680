-- ===== src/Alerts/Tests.antt =====
-- The alerts at concrete inputs: an operation that succeeds at the second attempt, and a manager with
-- one rule for one provider.
use digitdojo_shield.Prelude.{
  ℕ, ◌+◌, ◌≤◌, ◌≡◌, inl, refl, true, false, [], ◌∷◌, Option, none, some, arith, pos, Text, text,
  text_eq, eqb, if◌then◌else◌,
}
use digitdojo_shield.Alerts.Retry.{RetryPolicy, Waits, retry}
use digitdojo_shield.Alerts.Attempts.{Counts, retry-bound}
use digitdojo_shield.Alerts.Manager.{Provider, Rule, AlertEvent, Transport, Manager, Env}
use digitdojo_shield.Alerts.Dispatch.{dispatch}
use digitdojo_shield.Alerts.Bounds.{IsBounded, AllCounted, dispatch-bounds}

abbrev patient : Waits ℕ Text
patient = record { ctx_err = λ w. none; wait = λ n w. (none, w); retryable = λ e. true }

abbrev second_time : ℕ → Option Text × ℕ
second_time w = (if eqb w 0 then some [] else none, w + 1)

abbrev thrice : RetryPolicy
thrice = record { attempts = pos 3; initial_backoff_millis = pos 10 }

second_time-Counts : Counts patient second_time (λ w. w)
second_time-Counts = record { attempt_counts = λ w. refl; wait_counts = λ n w. refl }

retry-bound_example : (retry patient thrice (some second_time) 0).1 ≤ 3
retry-bound_example = retry-bound patient second_time (λ w. w) second_time-Counts thrice 0

second_time-succeeds : (retry patient thrice (some second_time) 0).0 ≡ none
unfolding retry
second_time-succeeds = refl

abbrev hook : Provider
hook = record {
  id = text "p";
  kind = text "webhook";
  name = text "hook";
  enabled = true;
  secret = [];
  retry_policy = thrice;
  timeout_millis = pos 1000;
  created_at = 1;
  updated_at = 1;
  validation = [];
  health = record {
    status = [];
    last_success = none;
    last_failure = none;
    last_checked = 0;
    last_latency_millis = 0;
    consecutive_successes = 0;
    consecutive_failures = 0;
    last_error = [];
  };
}

abbrev on_flood : Rule
on_flood = record {
  id = text "r";
  name = [];
  enabled = true;
  event_type = text "flood";
  minimum_severity = text "high";
  provider_ids = text "p" ∷ [];
  cooldown_seconds = pos 60;
  conditions = [];
  created_at = 1;
  updated_at = 1;
}

abbrev flood_event : AlertEvent
flood_event = record { kind = text "flood"; severity = text "low"; message = []; fields = [] }

abbrev sender : Transport ℕ
sender = record {
  send = λ t s e w.
      (record { success = true; retryable = false; response_code = pos 204; error = none }, w + 1);
}

abbrev manager : Manager ℕ
manager = record {
  registry = (text "webhook", sender) ∷ [];
  state = record { providers = hook ∷ []; rules = on_flood ∷ []; deliveries = [] };
  cooldowns = (text "rflood", 9) ∷ [];
  file = none;
}

abbrev env : Env ℕ
env = record {
  now = λ w. (5, w);
  new_id = λ w. (text "i", w);
  ctx_err = λ w. none;
  wait = λ n w. (none, w);
  save_fails = λ w. (false, w);
}

dispatch-bounds_example :
    IsBounded (dispatch env flood_event (record manager { cooldowns = [] }, 0)).0
    × AllCounted (dispatch env flood_event (record manager { cooldowns = [] }, 0)).0
dispatch-bounds_example =
    dispatch-bounds env flood_event (record manager { cooldowns = [] }, 0) (omega arith)
      (inl refl, tt)
