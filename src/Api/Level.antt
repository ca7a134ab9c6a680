-- ===== src/Api/Level.antt =====
-- The tokens that a client of the rateLimiter of internal/api/api.go has, and what a call takes.
use digitdojo_shield.Prelude.{
  ℕ, ◌+◌, ◌-◌, ◌*◌, ◌≤◌, ◌≡◌, refl, sym, ap, ◌∙◌, subst, Bool, true, false, ◌&&◌, List, [], ◌∷◌,
  Option, none, some, arith, ltb, leb, if◌then◌else◌, Bool-cases, inl, inr, keep, has, lookup,
  lookup-put, put, keys, keys-put, add_key-IsUnique, IsUnique, beq_refl, Text, text_eq, text_beq,
  text_beq_iff,
}
use digitdojo_shield.Api.Limiter.{
  TokenBucket, RateLimiter, whole_token, minute, sweep, found, refilled, take_token,
}

pub add_mul : (a b c : ℕ) → (a + b) * c ≡ a * c + b * c
add_mul a b c = omega arith

mul_mono : (a b c : ℕ) → a ≤ b → a * c ≤ b * c
mul_mono a b c h =
    let d : b ≡ a + (b - a) = omega arith in
    let e = add_mul a (b - a) c in
    let f : (a + (b - a)) * c ≡ b * c = ap (λ x. x * c) (sym d) in omega arith

-- The tokens that a client has at a time.
abbrev pub level : Text → ℕ → RateLimiter → ℕ
level key now rl = refilled rl now (found rl now (lookup key rl.buckets))

abbrev capped : ℕ → ℕ → ℕ
capped most t = if ltb most t then most else t

capped-bound : (most t : ℕ) → capped most t ≤ most
capped-bound most t = ground arith

capped-grows : (most s t d : ℕ) → t ≤ s + d → capped most t ≤ capped most s + d
capped-grows most s t d h = ground arith

pub level-bound :
    (key : Text) (now : ℕ) (rl : RateLimiter) → level key now rl ≤ rl.burst * whole_token
level-bound key now rl = capped-bound (rl.burst * whole_token) _

-- Between two times a client gains the rate's tokens, and no more.
pub level-grows :
    (key : Text) (s t : ℕ) (rl : RateLimiter)
    → s ≤ t
    → level key t rl ≤ level key s rl + (t - s) * rl.limit
level-grows key s t rl h = go (lookup key rl.buckets)
  where
    go :
        (o : Option TokenBucket)
        → refilled rl t (found rl t o) ≤ refilled rl s (found rl s o) + (t - s) * rl.limit
    go none =
        let p : t - t ≡ 0 = omega arith in
        let q : s - s ≡ 0 = omega arith in
        rw (p, q)
          (capped-grows (rl.burst * whole_token) (rl.burst * whole_token + 0 * rl.limit)
            (rl.burst * whole_token + 0 * rl.limit) ((t - s) * rl.limit) (omega arith))
    go (some b) =
        let d = mul_mono (t - b.last) (s - b.last + (t - s)) rl.limit (omega arith) in
        let e = add_mul (s - b.last) (t - s) rl.limit in
        capped-grows (rl.burst * whole_token) (b.tokens + (s - b.last) * rl.limit)
          (b.tokens + (t - b.last) * rl.limit) ((t - s) * rl.limit) (omega arith)

-- A bucket that is dropped after ten minutes would be full by then, and each client has one bucket.
pub record IsFair (rl : RateLimiter) : Type 0 where
  pub refills : rl.burst * whole_token ≤ 10 * minute * rl.limit
  pub unique : IsUnique (keys rl.buckets)

abbrev only_if : {A : Type 0} → (A → Bool) → Option A → Option A
only_if p none = none
only_if p (some a) = if p a then some a else none

has-keep :
    (p : Text × TokenBucket → Bool) (k : Text) (xs : List (Text × TokenBucket))
    → has k (keys xs) ≡ false
    → has k (keys (keep p xs)) ≡ false
unfolding has
has-keep p k [] h = refl
has-keep p k ((j, b) ∷ xs) h = ground (arith, has-keep p k xs)

keep-IsUnique :
    (p : Text × TokenBucket → Bool) (xs : List (Text × TokenBucket))
    → IsUnique (keys xs)
    → IsUnique (keys (keep p xs))
keep-IsUnique p [] h = tt
keep-IsUnique p ((j, b) ∷ xs) h = elim (Bool-cases (p (j, b))) [
  | inl y ↦ rw y (has-keep p j xs h.0, keep-IsUnique p xs h.1)
  | inr n ↦ rw n (keep-IsUnique p xs h.1)
]

lookup_absent :
    (k : Text) (xs : List (Text × TokenBucket)) → has k (keys xs) ≡ false → lookup k xs ≡ none
unfolding has lookup
lookup_absent k [] h = refl
lookup_absent k ((j, b) ∷ xs) h = ground (arith, lookup_absent k xs)

lookup-keep :
    (p : Text × TokenBucket → Bool) (k : Text) (xs : List (Text × TokenBucket))
    → IsUnique (keys xs)
    → lookup k (keep p xs) ≡ only_if (λ b. p (k, b)) (lookup k xs)
unfolding lookup
lookup-keep p k [] h = refl
lookup-keep p k ((j, b) ∷ xs) h = elim (Bool-cases (text_beq k j)) [
  | inl same ↦
      let e : k ≡ j = ground (arith, text_beq_iff k j) in
      subst
        (λ i. lookup i (keep p ((j, b) ∷ xs)) ≡ only_if (λ b. p (i, b)) (lookup i ((j, b) ∷ xs)))
        (sym e)
        (elim (Bool-cases (p (j, b))) [
          | inl y ↦ rw (y, beq_refl {A = Text} j, y) refl
          | inr n ↦
              rw (n, beq_refl {A = Text} j, n) (lookup_absent j (keep p xs) (has-keep p j xs h.0))
        ])
  | inr differ ↦ elim (Bool-cases (p (j, b))) [
    | inl y ↦ rw (y, differ) (lookup-keep p k xs h.1)
    | inr n ↦ rw (n, differ) (lookup-keep p k xs h.1)
  ]
]

-- Ten minutes without a call fill a bucket, so that dropping it then changes no level.
dropped_level :
    (rl : RateLimiter) (now : ℕ) (o : Option TokenBucket)
    → rl.burst * whole_token ≤ 10 * minute * rl.limit
    → refilled rl now (found rl now (only_if (λ b. ltb (now - b.last) (10 * minute)) o))
      ≡ refilled rl now (found rl now o)
dropped_level rl now none h = refl
dropped_level rl now (some b) h = elim (Bool-cases (ltb (now - b.last) (10 * minute))) [
  | inl young ↦ rw young refl
  | inr old ↦
      let long : 10 * minute ≤ now - b.last = ground arith in
      let gained = mul_mono (10 * minute) (now - b.last) rl.limit long in
      rw old (
        full (rl.burst * whole_token) (rl.burst * whole_token + (now - now) * rl.limit)
          (b.tokens + (now - b.last) * rl.limit) (omega arith) (omega arith))
]
  where
    full : (most s t : ℕ) → most ≤ s → most ≤ t → capped most s ≡ capped most t
    full most s t p q = ground arith

pub sweep-level :
    (key : Text) (now : ℕ) (rl : RateLimiter)
    → IsFair rl
    → level key now (sweep now rl) ≡ level key now rl
unfolding sweep
sweep-level key now rl fair = go (ltb (now - rl.last_sweep) minute)
  where
    kept : List (Text × TokenBucket)
    kept = keep (λ b. ltb (now - b.1.last) (10 * minute)) rl.buckets

    go :
        (b : Bool)
        → level key now (if b then rl else record rl { buckets = kept; last_sweep = now })
          ≡ level key now rl
    go true = refl
    go false =
        ap (λ o. refilled rl now (found rl now o))
          (lookup-keep (λ b. ltb (now - b.1.last) (10 * minute)) key rl.buckets fair.unique)
        ∙ dropped_level rl now (lookup key rl.buckets) fair.refills

pub sweep-IsFair : (now : ℕ) (rl : RateLimiter) → IsFair rl → IsFair (sweep now rl)
unfolding sweep
sweep-IsFair now rl fair = go (ltb (now - rl.last_sweep) minute)
  where
    go :
        (b : Bool)
        → IsFair (
            if b then rl else record rl {
              buckets = keep (λ b. ltb (now - b.1.last) (10 * minute)) rl.buckets;
              last_sweep = now;
            })
    go true = fair
    go false = record { refills = fair.refills; unique = keep-IsUnique _ rl.buckets fair.unique }

pub sweep-rates :
    (now : ℕ) (rl : RateLimiter)
    → ((sweep now rl).burst ≡ rl.burst) × ((sweep now rl).limit ≡ rl.limit)
unfolding sweep
sweep-rates now rl = (ground arith, ground arith)

abbrev pub cost : Bool → ℕ
cost b = if b then whole_token else 0

-- The bucket that a call leaves.
abbrev left : ℕ → ℕ → TokenBucket
left now t = record { tokens = if leb whole_token t then t - whole_token else t; last = now }

pub take_token_lem :
    (key : Text) (now : ℕ) (s : RateLimiter) (t : ℕ)
    → take_token key now s t
      ≡ (leb whole_token t, record s { buckets = put key (left now t) s.buckets })
take_token_lem key now s t = elim (Bool-cases (leb whole_token t)) [
  | inl y ↦ rw y refl
  | inr n ↦ rw n refl
]

nothing_gained : (n l : ℕ) → (n - n) * l ≡ 0
nothing_gained n l = let p : n - n ≡ 0 = omega arith in rw p (omega arith)

-- What a call does to the level of each client: it takes a token from its own client if it lets the
-- client through, and nothing otherwise.
pub take_token-level :
    (k key : Text) (now : ℕ) (s : RateLimiter)
    → let r = take_token k now s (level k now s) in
      level key now r.1 + cost (text_beq key k && r.0) ≡ level key now s
unfolding lookup
take_token-level k key now s = elim (Bool-cases (text_beq key k)) [
  | inl same ↦
      let e : key ≡ k = ground (arith, text_beq_iff key k) in
      rw
        (
          take_token_lem k now s (level k now s),
          e,
          lookup-put k k (left now (level k now s)) s.buckets,
          beq_refl {A = Text} k,
        )
        (paid (s.burst * whole_token) (level k now s) ((now - now) * s.limit)
          (nothing_gained now s.limit) (level-bound k now s))
  | inr differ ↦
      rw
        (
          take_token_lem k now s (level k now s),
          lookup-put k key (left now (level k now s)) s.buckets,
          differ,
        )
        (omega arith)
]
  where
    paid :
        (most t gained : ℕ)
        → gained ≡ 0
        → t ≤ most
        → capped most ((if leb whole_token t then t - whole_token else t) + gained)
            + cost (leb whole_token t)
          ≡ t
    paid most t gained g h = ground arith

pub take_token-IsFair :
    (k : Text) (now : ℕ) (s : RateLimiter) (t : ℕ) → IsFair s → IsFair (take_token k now s t).1
take_token-IsFair k now s t fair = rw (take_token_lem k now s t) (record {
  refills = fair.refills;
  unique =
      subst IsUnique (sym (keys-put k (left now t) s.buckets))
        (add_key-IsUnique k (keys s.buckets) fair.unique);
})

pub take_token-rates :
    (k : Text) (now : ℕ) (s : RateLimiter) (t : ℕ)
    → ((take_token k now s t).1.burst ≡ s.burst) × ((take_token k now s t).1.limit ≡ s.limit)
take_token-rates k now s t = rw (take_token_lem k now s t) (refl, refl)
