-- ===== src/Prelude/Maps.antt =====
-- The keys of a map, and predicates on the items of maps, sets and sorted lists.
use mathlib.Core.Path.{◌≡◌, refl}
use mathlib.Core.List.{List, [], ◌∷◌, map}
use mathlib.Core.Option.{none}
use mathlib.Core.Bool.{Bool, false}
use native.Mathlib.Omega.{arith}
use digitdojo_shield.Prelude.Tests.{Eq}
use digitdojo_shield.Prelude.Lists.{All}
use digitdojo_shield.Prelude.Sets.{has, add_key, without, lookup, put, remove}
use digitdojo_shield.Prelude.Sort.{insert_by, sort_by}

module _ {ℓ κ} {K : Type ℓ} {V : Type κ} where
  abbrev pub keys : List (K × V) → List K
  keys [] = []
  keys ((k, v) ∷ m) = k ∷ keys m

module _ {K V : Type 0} ⦃e : Eq K⦄ where
  pub keys-put : (k : K) (v : V) (m : List (K × V)) → keys (put k v m) ≡ add_key k (keys m)
  unfolding put add_key
  keys-put k v [] = refl
  keys-put k v ((j, w) ∷ m) = ground (arith, keys-put k v m, e.beq_iff k j)

  pub keys-remove : (k : K) (m : List (K × V)) → keys (remove k m) ≡ without k (keys m)
  unfolding remove without
  keys-remove k [] = refl
  keys-remove k ((j, w) ∷ m) = ground (arith, keys-remove k m)

  pub lookup-has : (k : K) (m : List (K × V)) → lookup k m ≡ none → has k (keys m) ≡ false
  unfolding lookup has
  lookup-has k [] h = refl
  lookup-has k ((j, w) ∷ m) h = ground (arith, lookup-has k m)

  pub All-put :
      (P : K × V → Type 0) (k : K) (v : V) (m : List (K × V))
      → P (k, v)
      → All P m
      → All P (put k v m)
  unfolding put
  All-put P k v [] h hs = (h, tt)
  All-put P k v ((j, w) ∷ m) h hs = ground (arith, All-put P k v m h)

module _ {A : Type 0} ⦃e : Eq A⦄ (P : A → Type 0) where
  pub All-add_key : (a : A) (xs : List A) → P a → All P xs → All P (add_key a xs)
  unfolding add_key
  All-add_key a [] h hs = (h, tt)
  All-add_key a (x ∷ xs) h hs = ground (arith, All-add_key a xs h)

module _ {A : Type 0} (le : A → A → Bool) (P : A → Type 0) where
  All-insert_by : (a : A) (xs : List A) → P a → All P xs → All P (insert_by le a xs)
  unfolding insert_by
  All-insert_by a [] h hs = (h, tt)
  All-insert_by a (x ∷ xs) h hs = ground (arith, All-insert_by a xs h)

  pub All-sort_by : (xs : List A) → All P xs → All P (sort_by le xs)
  unfolding sort_by
  All-sort_by [] hs = tt
  All-sort_by (x ∷ xs) hs = All-insert_by x (sort_by le xs) hs.0 (All-sort_by xs hs.1)

module _ {A B : Type 0} (le : B → B → Bool) (key : A → B) where
  map-insert_by :
      (a : A) (xs : List A)
      → map key (insert_by (λ x y. le (key x) (key y)) a xs) ≡ insert_by le (key a) (map key xs)
  unfolding insert_by
  map-insert_by a [] = refl
  map-insert_by a (x ∷ xs) = ground (arith, map-insert_by a xs)

  -- Sorting by a key sorts the keys.
  pub map-sort_by :
      (xs : List A) → map key (sort_by (λ x y. le (key x) (key y)) xs) ≡ sort_by le (map key xs)
  unfolding sort_by
  map-sort_by [] = refl
  map-sort_by (x ∷ xs) =
      ground (arith, map-insert_by x (sort_by (λ a b. le (key a) (key b)) xs), map-sort_by xs)
