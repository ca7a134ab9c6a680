-- ===== src/Alerts/Attempts.antt =====
-- The attempts that Retry of internal/alerts/retry.go makes.
use digitdojo_shield.Prelude.{
  ℕ, zero, suc, ◌+◌, ◌*◌, ◌^◌, ◌≤◌, ◌≡◌, refl, sym, ap, ◌∙◌, Bool, true, false, not, Option, none,
  some, arith, if◌then◌else◌, ℤ, pos, negsuc, positive_or,
}
use digitdojo_shield.Alerts.Retry.{
  RetryPolicy, Waits, after_wait, after_attempt, attempt_unless, retry_loop, as_failure, retry,
}

-- `count` counts the attempts: an attempt adds one to it, a wait nothing.
pub record Counts {W E : Type 0} (ws : Waits W E) (operation : W → Option E × W) (count : W → ℕ)
    : Type 0 where
  pub attempt_counts : (w : W) → count (operation w).1 ≡ count w + 1
  pub wait_counts : (n : ℕ) (w : W) → count (ws.wait n w).1 ≡ count w

module _ {W E : Type 0} (ws : Waits W E) (operation : W → Option E × W) (count : W → ℕ)
    (counts : Counts ws operation count) where
  after_wait-bound :
      (r : Option E × W) (rest : W → Option E × W) (k : ℕ)
      → ((v : W) → count (rest v).1 ≤ count v + k)
      → count (after_wait r rest).1 ≤ count r.1 + k
  after_wait-bound (some e, w) rest k h = omega arith
  after_wait-bound (none, w) rest k h = h w

  after_attempt-bound :
      (backoff n : ℕ) (r : Option E × W) (rest : W → Option E × W)
      → ((v : W) → count (rest v).1 ≤ count v + n)
      → count (after_attempt ws backoff n r rest).1 ≤ count r.1 + n
  after_attempt-bound backoff n (none, w) rest h = omega arith
  after_attempt-bound backoff zero (some e, w) rest h = omega arith
  after_attempt-bound backoff (suc n) (some e, w) rest h = step (not (ws.retryable e))
    where
      step :
          (b : Bool)
          → count (if b then (some e, w) else after_wait (ws.wait backoff w) rest).1
            ≤ count w + suc n
      step true = omega arith
      step false =
          omega (
            arith,
            after_wait-bound (ws.wait backoff w) rest (suc n) h,
            counts.wait_counts backoff w,
          )

  attempt_unless-bound :
      (backoff n : ℕ) (w : W) (rest : W → Option E × W) (o : Option E)
      → ((v : W) → count (rest v).1 ≤ count v + n)
      → count (attempt_unless ws backoff n operation w rest o).1 ≤ count w + suc n
  attempt_unless-bound backoff n w rest (some e) h = omega arith
  attempt_unless-bound backoff n w rest none h =
      omega (arith, after_attempt-bound backoff n (operation w) rest h, counts.attempt_counts w)

  retry_loop-bound :
      (initial attempt n : ℕ) (w : W)
      → count (retry_loop ws initial operation attempt n w).1 ≤ count w + n
  unfolding retry_loop
  retry_loop-bound initial attempt zero w = omega arith
  retry_loop-bound initial attempt (suc n) w =
      attempt_unless-bound (initial * 2 ^ attempt) n w _ (ws.ctx_err w)
        (λ v. retry_loop-bound initial (suc attempt) n v)

  as_failure-world : (r : Option E × W) → (as_failure r).1 ≡ r.1
  as_failure-world (none, w) = refl
  as_failure-world (some e, w) = refl

  -- Retry makes at most as many attempts as the policy says, and at most one if that says less
  -- than one, by any count to which an attempt adds one and a wait nothing.
  pub retry-bound :
      (policy : RetryPolicy) (w : W)
      → count (retry ws policy (some operation) w).1 ≤ count w + positive_or 1 policy.attempts
  unfolding retry
  retry-bound policy w =
      rw (as_failure-world) (retry_loop-bound _ 0 (positive_or 1 policy.attempts) w)

module _ {W E : Type 0} (ws : Waits W E) (operation : W → Option E × W) where
  -- No error comes only from an attempt without one, and the world is as that attempt left it.
  abbrev Succeeds : Option E × W → Type 0
  Succeeds r = r.0 ≡ none → (v : W) × (operation v ≡ r)

  after_wait-Succeeds :
      (r : Option E × W) (rest : W → Option E × W)
      → ((v : W) → Succeeds (rest v))
      → Succeeds (after_wait r rest)
  after_wait-Succeeds (some e, w) rest h p = cc
  after_wait-Succeeds (none, w) rest h p = h w p

  after_attempt-Succeeds :
      (backoff n : ℕ) (w : W) (r : Option E × W) (rest : W → Option E × W)
      → operation w ≡ r
      → ((v : W) → Succeeds (rest v))
      → Succeeds (after_attempt ws backoff n r rest)
  after_attempt-Succeeds backoff n w (none, v) rest e h p = (w, e)
  after_attempt-Succeeds backoff zero w (some x, v) rest e h p = cc
  after_attempt-Succeeds backoff (suc n) w (some x, v) rest e h p = step (not (ws.retryable x)) p
    where
      step : (b : Bool) → Succeeds (if b then (some x, v) else after_wait (ws.wait backoff v) rest)
      step true = λ p. cc
      step false = after_wait-Succeeds (ws.wait backoff v) rest h

  attempt_unless-Succeeds :
      (backoff n : ℕ) (w : W) (rest : W → Option E × W) (o : Option E)
      → ((v : W) → Succeeds (rest v))
      → Succeeds (attempt_unless ws backoff n operation w rest o)
  attempt_unless-Succeeds backoff n w rest (some e) h = λ p. cc
  attempt_unless-Succeeds backoff n w rest none h =
      after_attempt-Succeeds backoff n w (operation w) rest refl h

  retry_loop-Succeeds :
      (initial attempt n : ℕ) (w : W) → Succeeds (retry_loop ws initial operation attempt (suc n) w)
  unfolding retry_loop
  retry_loop-Succeeds initial attempt zero w = attempt_last (ws.ctx_err w)
    where
      after_last :
          (r : Option E × W)
          → operation w ≡ r
          → Succeeds (after_attempt ws (initial * 2 ^ attempt) 0 r (λ v. (none, v)))
      after_last (none, v) e = λ p. (w, e)
      after_last (some x, v) e = λ p. cc

      attempt_last :
          (o : Option E)
          → Succeeds (attempt_unless ws (initial * 2 ^ attempt) 0 operation w (λ v. (none, v)) o)
      attempt_last (some e) = λ p. cc
      attempt_last none = after_last (operation w) refl
  retry_loop-Succeeds initial attempt (suc n) w =
      attempt_unless-Succeeds (initial * 2 ^ attempt) (suc n) w _ (ws.ctx_err w)
        (λ v. retry_loop-Succeeds initial (suc attempt) n v)

  as_failure-none : (r : Option E × W) → (as_failure r).0 ≡ none → r.0 ≡ none
  as_failure-none (none, w) h = refl
  as_failure-none (some e, w) h = cc

  as_failure-ok : (r : Option E × W) → r.0 ≡ none → (as_failure r).1 ≡ r.1
  as_failure-ok (none, w) h = refl
  as_failure-ok (some e, w) h = refl

  -- Retry reports no error only after an attempt without one: some attempt returned none, and the
  -- world that Retry leaves is the one that this attempt left. So Retry makes at least one attempt
  -- before it reports none, whatever the policy.
  retry-success :
      (policy : RetryPolicy) (w : W)
      → (retry ws policy (some operation) w).0 ≡ none
      → (v : W) × ((operation v).0 ≡ none)
        × ((operation v).1 ≡ (retry ws policy (some operation) w).1)
  unfolding retry
  retry-success policy w h = go (positive_or 1 policy.attempts) (positive policy.attempts) h
    where
      positive : (a : ℤ) → 1 ≤ positive_or 1 a
      positive (pos zero) = omega arith
      positive (pos (suc m)) = omega arith
      positive (negsuc m) = omega arith

      go :
          (n : ℕ)
          → 1 ≤ n
          → (as_failure
              (retry_loop ws (positive_or 100 policy.initial_backoff_millis) operation 0 n w)).0
            ≡ none
          → (v : W) × ((operation v).0 ≡ none)
            × ((operation v).1
                ≡ (as_failure (
                    retry_loop ws
                      (positive_or 100 policy.initial_backoff_millis)
                      operation
                      0
                      n
                      w)).1)
      go zero l h = absurd (omega arith)
      go (suc n) l h =
          let r =
            retry_loop ws (positive_or 100 policy.initial_backoff_millis) operation 0 (suc n) w in
          let e = as_failure-none r h in
          let (v, q) =
            retry_loop-Succeeds (positive_or 100 policy.initial_backoff_millis) 0 n w e in
          (v, ap (λ x. x.0) q ∙ e, ap (λ x. x.1) q ∙ sym (as_failure-ok r e))
