-- ===== src/Alerts/Retry.antt =====
-- internal/alerts/retry.go. `W` is the world, which an attempt and a wait act on; `ctx_err` is
-- ctx.Err, and `wait` the jittered timer against ctx.Done, with the milliseconds before the jitter:
-- it gives the context's error where the context ends first. The backoff is taken not to overflow.
use digitdojo_shield.Prelude.{
  ℕ, zero, suc, ◌*◌, ◌^◌, Bool, not, Option, none, some, if◌then◌else◌, ℤ, positive_or,
}

pub record RetryPolicy : Type 0 where
  pub attempts : ℤ
  pub initial_backoff_millis : ℤ

pub data RetryError (E : Type 0) : Type 0 where
  operation_required : RetryError E
  failed : E → RetryError E

pub record Waits (W E : Type 0) : Type 0 where
  pub ctx_err : W → Option E
  pub wait : ℕ → W → Option E × W
  pub retryable : E → Bool

-- After a wait: the context's error, or the rest of the loop.
abbrev pub after_wait : {W E : Type 0} → Option E × W → (W → Option E × W) → Option E × W
after_wait (some e, w) rest = (some e, w)
after_wait (none, w) rest = rest w

-- After an attempt, of which `n` more are left.
abbrev pub after_attempt :
    {W E : Type 0} → Waits W E → ℕ → ℕ → Option E × W → (W → Option E × W) → Option E × W
after_attempt ws backoff n (none, w) rest = (none, w)
after_attempt ws backoff zero (some e, w) rest = (some e, w)
after_attempt ws backoff (suc n) (some e, w) rest =
    if not (ws.retryable e) then (some e, w) else after_wait (ws.wait backoff w) rest

abbrev pub attempt_unless :
    {W E : Type 0}
    → Waits W E
    → ℕ
    → ℕ
    → (W → Option E × W)
    → W
    → (W → Option E × W)
    → Option E
    → Option E × W
attempt_unless ws backoff n operation w rest (some e) = (some e, w)
attempt_unless ws backoff n operation w rest none = after_attempt ws backoff n (operation w) rest

-- The loop, with `n` attempts left from the one numbered `attempt`.
unfoldable pub retry_loop :
    {W E : Type 0} → Waits W E → ℕ → (W → Option E × W) → ℕ → ℕ → W → Option E × W
retry_loop ws initial operation attempt zero w = (none, w)
retry_loop ws initial operation attempt (suc n) w =
    attempt_unless ws (initial * 2 ^ attempt) n operation w
      (λ v. retry_loop ws initial operation (suc attempt) n v) (ws.ctx_err w)

abbrev pub as_failure : {W E : Type 0} → Option E × W → Option (RetryError E) × W
as_failure (none, w) = (none, w)
as_failure (some e, w) = (some (failed e), w)

-- Retry
unfoldable pub retry :
    {W E : Type 0}
    → Waits W E
    → RetryPolicy
    → Option (W → Option E × W)
    → W
    → Option (RetryError E) × W
unfolding retry_loop
retry ws policy none w = (some operation_required, w)
retry ws policy (some operation) w = as_failure (
    retry_loop ws (positive_or 100 policy.initial_backoff_millis) operation 0
      (positive_or 1 policy.attempts) w)
