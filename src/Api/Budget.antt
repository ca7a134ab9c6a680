-- ===== src/Api/Budget.antt =====
-- What the rateLimiter of internal/api/api.go lets one client do over any series of calls.
use digitdojo_shield.Prelude.{
  ℕ, ◌+◌, ◌-◌, ◌*◌, ◌≤◌, ◌≡◌, sym, ap, ◌∙◌, subst, Bool, true, false, ◌&&◌, List, [], ◌∷◌, arith,
  leb, if◌then◌else◌, Text, text_eq, text_beq,
}
use digitdojo_shield.Api.Limiter.{RateLimiter, whole_token, sweep, take_token, allow}
use digitdojo_shield.Api.Level.{
  add_mul, level, level-bound, level-grows, IsFair, sweep-level, sweep-IsFair, sweep-rates, cost,
  take_token_lem, take_token-level, take_token-IsFair, take_token-rates,
}

-- Calls of `allow`, each by a client at a time: how often `key` is let through.
unfoldable pub passes : Text → List (Text × ℕ) → RateLimiter → ℕ
unfolding allow text_beq
passes key [] rl = 0
passes key ((k, now) ∷ calls) rl =
    let r = allow k now rl in (if text_beq key k && r.0 then 1 else 0) + passes key calls r.1

-- The times do not go back.
abbrev pub IsInOrder : ℕ → List (Text × ℕ) → Type 0
IsInOrder t [] = Unit
IsInOrder t ((k, now) ∷ calls) = (t ≤ now) × IsInOrder now calls

abbrev pub last_time : ℕ → List (Text × ℕ) → ℕ
last_time t [] = t
last_time t ((k, now) ∷ calls) = last_time now calls

last_time-bound : (t : ℕ) (calls : List (Text × ℕ)) → IsInOrder t calls → t ≤ last_time t calls
last_time-bound t [] h = omega arith
last_time-bound t ((k, now) ∷ calls) h =
    let rest = last_time-bound now calls h.1 in omega (arith, rest, h.0)

one_pass : (b : Bool) (n : ℕ) → ((if b then 1 else 0) + n) * whole_token ≡ cost b + n * whole_token
one_pass true n = omega arith
one_pass false n = omega arith

-- The budget of a client: what it has at the start, and what it gains until the end.
passes-level :
    (key : Text) (t : ℕ) (calls : List (Text × ℕ)) (rl : RateLimiter)
    → IsFair rl
    → IsInOrder t calls
    → passes key calls rl * whole_token ≤ level key t rl + (last_time t calls - t) * rl.limit
unfolding passes allow
passes-level key t [] rl fair h = omega arith
passes-level key t ((k, now) ∷ calls) rl fair h =
    let s = sweep now rl in
    let r = take_token k now s (level k now s) in
    let rates = sweep-rates now rl in
    let same : r.1.limit ≡ rl.limit = (take_token-rates k now s (level k now s)).1 ∙ rates.1 in
    let rest =
      passes-level key now calls r.1
        (take_token-IsFair k now s (level k now s) (sweep-IsFair now rl fair)) h.1 in
    let rest' =
      subst
        (λ l.
          passes key calls r.1 * whole_token ≤ level key now r.1 + (last_time now calls - now) * l)
        same rest in
    let paid = take_token-level k key now s ∙ sweep-level key now rl fair in
    let grown = level-grows key t now rl h.0 in
    let split = one_pass (text_beq key k && r.0) (passes key calls r.1) in
    let end = last_time-bound now calls h.1 in
    let whole : last_time now calls - t ≡ now - t + (last_time now calls - now) =
      omega (arith, end, h.0) in
    let times =
      ap (λ x. x * rl.limit) whole ∙ add_mul (now - t) (last_time now calls - now) rl.limit in
    subst (λ x. x ≤ level key t rl + (last_time now calls - t) * rl.limit) (sym split)
      (sum _ _ _ _ _ _ _ _ rest' paid grown times)
  where
    sum : (c n a b g x y z : ℕ) → n ≤ a + x → a + c ≡ b → b ≤ g + y → z ≡ y + x → c + n ≤ g + z
    sum c n a b g x y z p q r u = omega arith

-- Over any series of calls of `allow`, whose times do not go back, by any clients and with the
-- sweeps that they cause, one client is let through at most as often as the burst and the rate
-- allow: the burst, and the rate for the time from the start to the last call. And a call at the start
-- lets a client through just if the client has a token then. The limiter has one bucket for each
-- client, and ten minutes fill a bucket.
pub passes-bound :
    (key : Text) (start : ℕ) (calls : List (Text × ℕ)) (rl : RateLimiter)
    → IsFair rl
    → IsInOrder start calls
    → (passes key calls rl * whole_token
        ≤ rl.burst * whole_token + (last_time start calls - start) * rl.limit)
      × ((allow key start rl).0 ≡ leb whole_token (level key start rl))
unfolding allow
passes-bound key start calls rl fair h = (
  omega (arith, passes-level key start calls rl fair h, level-bound key start rl),
  ap (λ (r : Bool × RateLimiter). r.0)
        (take_token_lem key start (sweep start rl) (level key start (sweep start rl)))
      ∙ ap (leb whole_token) (sweep-level key start rl fair),
)
