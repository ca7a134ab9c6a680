-- ===== src/Api/Limiter.antt =====
-- The rateLimiter of internal/api/api.go. Tokens are counted in billionths, so that a nanosecond at a
-- rate of `limit` tokens a second adds `limit` of them; the rounding of float64 is not modelled.
use digitdojo_shield.Prelude.{
  ℕ, ◌+◌, ◌-◌, ◌*◌, ◌^◌, Bool, true, false, List, [], Option, none, some, ltb, leb, if◌then◌else◌,
  keep, lookup, put, ℤ, positive_or, Text, text_eq,
}

pub record TokenBucket : Type 0 where
  pub tokens : ℕ
  pub last : ℕ

pub record RateLimiter : Type 0 where
  pub limit : ℕ
  pub burst : ℕ
  pub buckets : List (Text × TokenBucket)
  pub last_sweep : ℕ

abbrev pub whole_token : ℕ
whole_token = 10 ^ 9

abbrev pub minute : ℕ
minute = 60 * 10 ^ 9

-- newRateLimiter
abbrev pub new_rate_limiter : ℤ → ℤ → ℕ → RateLimiter
new_rate_limiter limit burst now = record {
  limit = positive_or 30 limit;
  burst = positive_or 60 burst;
  buckets = [];
  last_sweep = now;
}

-- The sweep of `allow`: once a minute, the buckets that ten minutes have not seen are dropped.
unfoldable pub sweep : ℕ → RateLimiter → RateLimiter
sweep now rl = if ltb (now - rl.last_sweep) minute then rl else record rl {
  buckets = keep (λ b. ltb (now - b.1.last) (10 * minute)) rl.buckets;
  last_sweep = now;
}

-- The bucket of a client, with what it gained since it was seen, up to the burst.
abbrev pub found : RateLimiter → ℕ → Option TokenBucket → TokenBucket
found rl now none = record { tokens = rl.burst * whole_token; last = now }
found rl now (some b) = b

abbrev pub refilled : RateLimiter → ℕ → TokenBucket → ℕ
refilled rl now b =
    let t = b.tokens + (now - b.last) * rl.limit in
    if ltb (rl.burst * whole_token) t then rl.burst * whole_token else t

abbrev pub take_token : Text → ℕ → RateLimiter → ℕ → Bool × RateLimiter
take_token key now rl t =
    if leb whole_token t
    then (
      true,
      record rl { buckets = put key (record { tokens = t - whole_token; last = now }) rl.buckets },
    )
    else (false, record rl { buckets = put key (record { tokens = t; last = now }) rl.buckets })

-- allow, at a time
unfoldable pub allow : Text → ℕ → RateLimiter → Bool × RateLimiter
unfolding sweep lookup put
allow key now rl =
    let swept = sweep now rl in
    take_token key now swept (refilled swept now (found swept now (lookup key swept.buckets)))
