-- ===== src/Prelude/Sets.antt =====
-- Go's maps with comparable keys: a `map[K]struct{}` as a list of keys, a `map[K]V` as an
-- association list. Go leaves the order of iteration open; theorems speak of membership only.
use mathlib.Core.Path.{◌≡◌, refl}
use mathlib.Core.List.{List, [], ◌∷◌, ◌++◌}
use mathlib.Core.Option.{Option, none, some}
use mathlib.Core.Bool.{Bool, false, not, ◌&&◌, ◌||◌}
use native.Mathlib.Omega.{arith}
use digitdojo_shield.Prelude.Tests.{if◌then◌else◌, Eq, ◌==◌}

module _ {ℓ} {A : Type ℓ} ⦃e : Eq A⦄ where
  unfoldable pub has : A → List A → Bool
  has a [] = false
  has a (x ∷ xs) = a == x || has a xs

  -- m[a] = struct{}{}
  unfoldable pub add_key : A → List A → List A
  add_key a [] = a ∷ []
  add_key a (x ∷ xs) = if a == x then x ∷ xs else x ∷ add_key a xs

  -- delete(m, a); also the loop that copies every value but one.
  unfoldable pub without : A → List A → List A
  without a [] = []
  without a (x ∷ xs) = let rest = without a xs in if a == x then rest else x ∷ rest

  pub has-add_key : (a b : A) (xs : List A) → has b (add_key a xs) ≡ (b == a || has b xs)
  unfolding has add_key
  has-add_key a b [] = refl
  has-add_key a b (x ∷ xs) =
      ground (arith, has-add_key a b xs, e.beq_iff a x, e.beq_iff b x, e.beq_iff b a)

  pub has-without : (a b : A) (xs : List A) → has b (without a xs) ≡ (not (b == a) && has b xs)
  unfolding has without
  has-without a b [] = ground arith
  has-without a b (x ∷ xs) =
      ground (arith, has-without a b xs, e.beq_iff a x, e.beq_iff b x, e.beq_iff b a)

  pub has-append : (a : A) (xs ys : List A) → has a (xs ++ ys) ≡ (has a xs || has a ys)
  unfolding has
  has-append a [] ys = refl
  has-append a (x ∷ xs) ys = ground (arith, has-append a xs ys)

module _ {ℓ κ} {K : Type ℓ} {V : Type κ} ⦃e : Eq K⦄ where
  unfoldable pub lookup : K → List (K × V) → Option V
  lookup k [] = none
  lookup k ((j, v) ∷ m) = if k == j then some v else lookup k m

  -- m[k] = v
  unfoldable pub put : K → V → List (K × V) → List (K × V)
  put k v [] = (k, v) ∷ []
  put k v ((j, w) ∷ m) = if k == j then (k, v) ∷ m else (j, w) ∷ put k v m

  -- delete(m, k)
  unfoldable pub remove : K → List (K × V) → List (K × V)
  remove k [] = []
  remove k ((j, w) ∷ m) = let rest = remove k m in if k == j then rest else (j, w) ∷ rest

  pub lookup-put :
      (k j : K) (v : V) (m : List (K × V))
      → lookup j (put k v m) ≡ (if j == k then some v else lookup j m)
  unfolding lookup put
  lookup-put k j v [] = refl
  lookup-put k j v ((i, w) ∷ m) =
      ground (arith, lookup-put k j v m, e.beq_iff k i, e.beq_iff j i, e.beq_iff j k)

  pub lookup-remove :
      (k j : K) (m : List (K × V)) → lookup j (remove k m) ≡ (if j == k then none else lookup j m)
  unfolding lookup remove
  lookup-remove k j [] = ground arith
  lookup-remove k j ((i, w) ∷ m) =
      ground (arith, lookup-remove k j m, e.beq_iff k i, e.beq_iff j i, e.beq_iff j k)
