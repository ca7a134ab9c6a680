-- ===== src/History/Attacks.antt =====
-- The life of attacks in internal/history/history.go.
use digitdojo_shield.Prelude.{
  ℕ, zero, suc, ◌+◌, ◌≤◌, ◌≡◌, refl, ◌∙◌, Bool, true, false, ◌&&◌, ◌||◌, List, [], ◌∷◌, ◌++◌, map,
  none, some, arith, if◌then◌else◌, has, get_elem?, All, is_some, Text, text_beq, text_beq_iff,
  text_eq,
}
use digitdojo_shield.History.{
  Metric, Attack, Store, key, is_active, find_active, opened, open_if_new, open_attacks,
  resolve_unless, resolve_attacks, record_sample, save_history,
}

-- Some attack with the key is active.
unfoldable pub any_active : Text → List Attack → Bool
unfolding is_active
any_active k [] = false
any_active k (a ∷ rest) = is_active k a || any_active k rest

-- The number of active attacks with the key.
unfoldable pub count_active : Text → List Attack → ℕ
unfolding is_active
count_active k [] = 0
count_active k (a ∷ rest) = (if is_active k a then 1 else 0) + count_active k rest

find_active-any : (k : Text) (xs : List Attack) → is_some (find_active k xs) ≡ any_active k xs
unfolding find_active any_active
find_active-any k [] = refl
find_active-any k (a ∷ xs) = ground (arith, find_active-any k xs)

count_active-none : (k : Text) (xs : List Attack) → any_active k xs ≡ false → count_active k xs ≡ 0
unfolding any_active count_active
count_active-none k [] h = refl
count_active-none k (a ∷ xs) h = ground (arith, count_active-none k xs)

any_active-snoc :
    (k : Text) (xs : List Attack) (a : Attack)
    → any_active k (xs ++ a ∷ []) ≡ (any_active k xs || is_active k a)
unfolding any_active
any_active-snoc k [] a = ground arith
any_active-snoc k (x ∷ xs) a = ground (arith, any_active-snoc k xs a)

count_active-snoc :
    (k : Text) (xs : List Attack) (a : Attack)
    → count_active k (xs ++ a ∷ []) ≡ count_active k xs + (if is_active k a then 1 else 0)
unfolding count_active
count_active-snoc k [] a = ground arith
count_active-snoc k (x ∷ xs) a = ground (arith, count_active-snoc k xs a)

-- Signals come without a time of resolution.
abbrev pub IsSignals : List Attack → Type 0
IsSignals = All (λ a. a.resolved_at ≡ none)

module _ (attack_id : ℕ → Text → Text) (now : ℕ) (k : Text) where
  opened-is_active :
      (a : Attack)
      → a.resolved_at ≡ none
      → is_active k (opened attack_id now a) ≡ text_beq (key a) k
  unfolding is_active
  opened-is_active a h = rw h

  open_if_new-any :
      (xs : List Attack) (a : Attack)
      → a.resolved_at ≡ none
      → any_active k (open_if_new attack_id now xs a) ≡ (any_active k xs || text_beq k (key a))
  open_if_new-any xs a h = ground (
    arith,
    find_active-any (key a) xs,
    any_active-snoc k xs (opened attack_id now a),
    opened-is_active a h,
    text_beq_iff k (key a),
    text_beq_iff (key a) k,
  )

  open_attacks-any :
      (xs signals : List Attack)
      → IsSignals signals
      → any_active k (open_attacks attack_id now xs signals)
        ≡ (any_active k xs || has k (map key signals))
  unfolding open_attacks has
  open_attacks-any xs [] h = ground arith
  open_attacks-any xs (a ∷ rest) h =
      open_attacks-any (open_if_new attack_id now xs a) rest h.1
      ∙ ground (arith, open_if_new-any xs a h.0)

  open_if_new-count :
      (xs : List Attack) (a : Attack)
      → a.resolved_at ≡ none
      → count_active k xs ≤ 1
      → count_active k (open_if_new attack_id now xs a) ≤ 1
  open_if_new-count xs a h c = ground (
    arith,
    find_active-any (key a) xs,
    count_active-none k xs,
    count_active-snoc k xs (opened attack_id now a),
    opened-is_active a h,
    text_beq_iff (key a) k,
  )

  open_attacks-count :
      (xs signals : List Attack)
      → IsSignals signals
      → count_active k xs ≤ 1
      → count_active k (open_attacks attack_id now xs signals) ≤ 1
  unfolding open_attacks
  open_attacks-count xs [] h c = c
  open_attacks-count xs (a ∷ rest) h c =
      open_attacks-count (open_if_new attack_id now xs a) rest h.1 (open_if_new-count xs a h.0 c)

module _ (now : ℕ) (active : List Text) (k : Text) where
  resolve_unless-active :
      (a : Attack) → is_active k (resolve_unless now active a) ≡ (is_active k a && has k active)
  unfolding is_active
  resolve_unless-active a = ground (arith, text_beq_iff (key a) k)

  resolve_attacks-any :
      (xs : List Attack)
      → any_active k (resolve_attacks now active xs) ≡ (any_active k xs && has k active)
  unfolding resolve_attacks any_active
  resolve_attacks-any [] = refl
  resolve_attacks-any (a ∷ xs) =
      rw (resolve_unless-active a, resolve_attacks-any xs)
        (and_or (is_active k a) (any_active k xs) (has k active))
    where
      and_or : (x y z : Bool) → ((x && z) || (y && z)) ≡ ((x || y) && z)
      and_or true y true = refl
      and_or true true false = refl
      and_or true false false = refl
      and_or false y z = refl

  resolve_attacks-count :
      (xs : List Attack) → count_active k (resolve_attacks now active xs) ≤ count_active k xs
  unfolding resolve_attacks count_active
  resolve_attacks-count [] = omega arith
  resolve_attacks-count (a ∷ xs) = ground (arith, resolve_unless-active a, resolve_attacks-count xs)

save_history-attacks : (fails : Bool) (s : Store) → (save_history fails s).1.attacks ≡ s.attacks
unfolding save_history
save_history-attacks true s = refl
save_history-attacks false s = refl

or_and : (x h : Bool) → ((x || h) && h) ≡ h
or_and true true = refl
or_and true false = refl
or_and false true = refl
or_and false false = refl

module _ (attack_id : ℕ → Text → Text) (clock : ℕ) (fails : Bool) (m : Metric)
    (signals : List Attack) (s : Store) where
  -- For signals without a time of resolution: after Record, an attack of a type and severity is
  -- active exactly when a signal of the sample has that type and severity, whatever was active
  -- before and whether or not the save fails.
  pub record_sample-active :
      (k : Text)
      → IsSignals signals
      → any_active k (record_sample attack_id clock fails m signals s).1.attacks
        ≡ has k (map key signals)
  unfolding record_sample
  record_sample-active k h =
      rw
        (
          save_history-attacks fails,
          resolve_attacks-any,
          open_attacks-any attack_id _ k s.attacks signals h,
        )
        (or_and (any_active k s.attacks) (has k (map key signals)))

  -- For signals without a time of resolution: if at most one attack of each type and severity is
  -- active, the same holds after Record.
  record_sample-single :
      IsSignals signals
      → ((k : Text) → count_active k s.attacks ≤ 1)
      → (k : Text) → count_active k (record_sample attack_id clock fails m signals s).1.attacks ≤ 1
  unfolding record_sample
  record_sample-single h c k = rw (save_history-attacks fails) (
      omega (
        arith,
        resolve_attacks-count _ (map key signals) k (open_attacks attack_id _ s.attacks signals),
        open_attacks-count attack_id _ k s.attacks signals h (c k),
      ))

get_elem?-append :
    (xs ys : List Attack) (i : ℕ) (a : Attack)
    → get_elem? xs i ≡ some a
    → get_elem? (xs ++ ys) i ≡ some a
get_elem?-append [] ys i a h = cc
get_elem?-append (x ∷ xs) ys zero a h = h
get_elem?-append (x ∷ xs) ys (suc i) a h = get_elem?-append xs ys i a h

open_attacks-keeps :
    (attack_id : ℕ → Text → Text) (now : ℕ) (xs signals : List Attack) (i : ℕ) (a : Attack)
    → get_elem? xs i ≡ some a
    → get_elem? (open_attacks attack_id now xs signals) i ≡ some a
unfolding open_attacks
open_attacks-keeps attack_id now xs [] i a h = h
open_attacks-keeps attack_id now xs (b ∷ rest) i a h =
    open_attacks-keeps attack_id now (open_if_new attack_id now xs b) rest i a
      (ground (arith, get_elem?-append xs (opened attack_id now b ∷ []) i a))

get_elem?-resolve_attacks :
    (now : ℕ) (active : List Text) (xs : List Attack) (i : ℕ) (a : Attack) (t : ℕ)
    → get_elem? xs i ≡ some a
    → a.resolved_at ≡ some t
    → get_elem? (resolve_attacks now active xs) i ≡ some a
unfolding resolve_attacks
get_elem?-resolve_attacks now active [] i a t h r = cc
get_elem?-resolve_attacks now active (x ∷ xs) zero a t h r = ground arith
get_elem?-resolve_attacks now active (x ∷ xs) (suc i) a t h r =
    get_elem?-resolve_attacks now active xs i a t h r

-- An attack that was resolved is history: Record leaves it as it is, at its place.
record_sample-resolved :
    (attack_id : ℕ → Text → Text) (clock : ℕ) (fails : Bool) (m : Metric) (signals : List Attack)
    (s : Store) (i : ℕ) (a : Attack) (t : ℕ)
    → get_elem? s.attacks i ≡ some a
    → a.resolved_at ≡ some t
    → get_elem? (record_sample attack_id clock fails m signals s).1.attacks i ≡ some a
unfolding record_sample
record_sample-resolved attack_id clock fails m signals s i a t h r =
    rw (save_history-attacks fails) (
      get_elem?-resolve_attacks _ (map key signals) (open_attacks attack_id _ s.attacks signals) i a
        t (open_attacks-keeps attack_id _ s.attacks signals i a h) r)
