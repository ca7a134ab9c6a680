-- ===== src/Prelude/Sort.antt =====
-- sort.Strings and sort.Slice over a total order, and sets listed in order without repetition.

use mathlib.Core.Path.{◌≡◌}
use mathlib.Core.Logic.{◌⊎◌}
use mathlib.Core.List.{List, [], ◌∷◌}
use mathlib.Core.Bool.{Bool, true, false}
use digitdojo_shield.Prelude.Tests.{if◌then◌else◌, Eq}
use digitdojo_shield.Prelude.Lists.{All}

pub record Ord (A : Type 0) : Type 0 where
  pub base : Eq A
  pub le : A → A → Bool
  pub total : (a b : A) → (le a b ≡ true) ⊎ (le b a ≡ true)
  pub trans : (a b c : A) → le a b ≡ true → le b c ≡ true → le a c ≡ true
  pub antisym : (a b : A) → le a b ≡ true → le b a ≡ true → a ≡ b

module _ {A : Type 0} (le : A → A → Bool) where
  unfoldable pub insert_by : A → List A → List A
  insert_by a [] = a ∷ []
  insert_by a (x ∷ xs) = if le a x then a ∷ x ∷ xs else x ∷ insert_by a xs

  unfoldable pub sort_by : List A → List A
  unfolding insert_by
  sort_by [] = []
  sort_by (x ∷ xs) = insert_by x (sort_by xs)

module _ {A : Type 0} (o : Ord A) where
  -- Strictly below in the order.
  abbrev pub Below : A → A → Type 0
  Below a b = (o.le a b ≡ true) × (o.base.beq a b ≡ false)

  -- In order, and no item twice.
  abbrev pub IsAscending : List A → Type 0
  IsAscending [] = Unit
  IsAscending (x ∷ xs) = All (Below x) xs × IsAscending xs

  -- sort.Strings and sort.Slice by the order itself.
  abbrev pub sort : List A → List A
  sort = sort_by o.le
