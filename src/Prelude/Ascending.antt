-- ===== src/Prelude/Ascending.antt =====
-- A set listed in ascending order: made from any list, and determined by its members.
use mathlib.Core.Path.{◌≡◌, refl, sym, ◌∙◌}
use mathlib.Core.Logic.{inl, inr}
use mathlib.Core.List.{List, [], ◌∷◌}
use mathlib.Core.Bool.{Bool, true, false, not, ◌&&◌, ◌||◌}
use native.Mathlib.Omega.{arith}
use digitdojo_shield.Prelude.Tests.{if◌then◌else◌, Eq, ◌==◌, beq_refl, Bool-cases}
use digitdojo_shield.Prelude.Lists.{All}
use digitdojo_shield.Prelude.Sets.{has, add_key, without, has-add_key, has-without}
use digitdojo_shield.Prelude.Sort.{Ord, Below, IsAscending, insert_by, sort_by, sort}

module _ {A : Type 0} ⦃e : Eq A⦄ where
  -- The first occurrence of each value that `seen` does not hold.
  unfoldable pub unique_from : List A → List A → List A
  unique_from seen [] = []
  unique_from seen (v ∷ vs) =
      let skip = unique_from seen vs in
      let first = v ∷ unique_from (v ∷ seen) vs in if has v seen then skip else first

  abbrev pub IsUnique : List A → Type 0
  IsUnique [] = Unit
  IsUnique (x ∷ xs) = (has x xs ≡ false) × IsUnique xs

  pub has-unique_from :
      (seen vs : List A) (b : A) → has b (unique_from seen vs) ≡ (not (has b seen) && has b vs)
  unfolding has unique_from
  has-unique_from seen [] b = ground arith
  has-unique_from seen (v ∷ vs) b =
      ground (arith, has-unique_from seen vs b, has-unique_from (v ∷ seen) vs b, e.beq_iff b v)

  pub unique_from-IsUnique : (seen vs : List A) → IsUnique (unique_from seen vs)
  unfolding has unique_from
  unique_from-IsUnique seen [] = tt
  unique_from-IsUnique seen (v ∷ vs) = ground (
    arith,
    unique_from-IsUnique seen vs,
    unique_from-IsUnique (v ∷ seen) vs,
    has-unique_from (v ∷ seen) vs v,
    beq_refl v,
  )

  pub add_key-IsUnique : (a : A) (xs : List A) → IsUnique xs → IsUnique (add_key a xs)
  unfolding has add_key
  add_key-IsUnique a [] u = (refl, tt)
  add_key-IsUnique a (x ∷ xs) u =
      ground (arith, add_key-IsUnique a xs u.1, has-add_key a x xs, e.beq_iff a x, e.beq_iff x a)

  pub without-IsUnique : (a : A) (xs : List A) → IsUnique xs → IsUnique (without a xs)
  unfolding without
  without-IsUnique a [] u = tt
  without-IsUnique a (x ∷ xs) u = ground (arith, without-IsUnique a xs u.1, has-without a x xs)

  pub All-has {κ} : (P : A → Type κ) (xs : List A) (b : A) → All P xs → has b xs ≡ true → P b
  unfolding has
  All-has P [] b h m = cc
  All-has P (x ∷ xs) b h m = elim (Bool-cases (b == x)) [
    | inl same ↦ rw ((e.beq_iff b x).0 same) h.0
    | inr other ↦ All-has P xs b h.1 (ground arith)
  ]

module _ {A : Type 0} (o : Ord A) where
  -- The order's own equality, for the lemmas on `has`.
  abbrev pub has_in : A → List A → Bool
  has_in = has ⦃e = o.base⦄

  pub has-insert_by :
      (a b : A) (xs : List A)
      → has ⦃e = o.base⦄ b (insert_by o.le a xs) ≡ (o.base.beq b a || has ⦃e = o.base⦄ b xs)
  unfolding has insert_by
  has-insert_by a b [] = refl
  has-insert_by a b (x ∷ xs) = ground (arith, has-insert_by a b xs)

  pub has-sort : (b : A) (xs : List A) → has ⦃e = o.base⦄ b (sort o xs) ≡ has ⦃e = o.base⦄ b xs
  unfolding has sort_by
  has-sort b [] = refl
  has-sort b (x ∷ xs) = ground (arith, has-insert_by x b (sort o xs), has-sort b xs)

  Below-trans :
      (a x : A) (xs : List A)
      → o.le a x ≡ true
      → has_in a xs ≡ false
      → All (Below o x) xs
      → All (Below o a) xs
  unfolding has
  Below-trans a x [] l f h = tt
  Below-trans a x (y ∷ ys) l f h = ground (arith, o.trans a x y l h.0.0, Below-trans a x ys l)

  Below-insert_by :
      (a x : A) (xs : List A)
      → Below o x a
      → All (Below o x) xs
      → All (Below o x) (insert_by o.le a xs)
  unfolding insert_by
  Below-insert_by a x [] l h = (l, tt)
  Below-insert_by a x (y ∷ ys) l h = ground (arith, Below-insert_by a x ys l)

  insert_by-IsAscending :
      (a : A) (xs : List A)
      → IsAscending o xs
      → has_in a xs ≡ false
      → IsAscending o (insert_by o.le a xs)
  unfolding insert_by has
  insert_by-IsAscending a [] h f = (tt, tt)
  insert_by-IsAscending a (x ∷ xs) h f = elim (Bool-cases (o.le a x)) [
    | inl l ↦ rw l (ground (arith, Below-trans a x xs l))
    | inr g ↦ rw g (
        ground (
          arith,
          o.total a x,
          o.base.beq_iff a x,
          o.base.beq_iff x a,
          Below-insert_by a x xs,
          insert_by-IsAscending a xs h.1,
        ))
  ]

  pub sort-IsAscending : (xs : List A) → IsUnique ⦃e = o.base⦄ xs → IsAscending o (sort o xs)
  unfolding sort_by
  sort-IsAscending [] u = tt
  sort-IsAscending (x ∷ xs) u =
      insert_by-IsAscending x (sort o xs) (sort-IsAscending xs u.1) (has-sort x xs ∙ u.0)

  pub head_fresh : (x : A) (xs : List A) → All (Below o x) xs → has_in x xs ≡ false
  head_fresh x xs h = elim (Bool-cases (has_in x xs)) [
    | inl m ↦ cc (beq_refl ⦃e = o.base⦄ x, (All-has ⦃e = o.base⦄ (Below o x) xs x h m).1)
    | inr f ↦ f
  ]

  heads_equal :
      (x y : A) (xs ys : List A)
      → IsAscending o (x ∷ xs)
      → IsAscending o (y ∷ ys)
      → ((b : A) → has_in b (x ∷ xs) ≡ has_in b (y ∷ ys))
      → x ≡ y
  unfolding has
  heads_equal x y xs ys hx hy same = elim (Bool-cases (o.base.beq x y)) [
    | inl eq ↦ (o.base.beq_iff x y).0 eq
    | inr ne ↦
        let mx : has_in x ys ≡ true = ground (arith, same x, beq_refl ⦃e = o.base⦄ x) in
        let my : has_in y xs ≡ true =
          ground (arith, same y, beq_refl ⦃e = o.base⦄ y, o.base.beq_iff y x, o.base.beq_iff x y) in
        o.antisym x y (All-has ⦃e = o.base⦄ (Below o x) xs y hx.0 my).0
          (All-has ⦃e = o.base⦄ (Below o y) ys x hy.0 mx).0
  ]

  -- Two ascending lists with the same members are the same list.
  pub IsAscending-canonical :
      (xs ys : List A)
      → IsAscending o xs
      → IsAscending o ys
      → ((b : A) → has ⦃e = o.base⦄ b xs ≡ has ⦃e = o.base⦄ b ys)
      → xs ≡ ys
  unfolding has
  IsAscending-canonical [] [] hx hy same = refl
  IsAscending-canonical [] (y ∷ ys) hx hy same = ground (arith, same y, beq_refl ⦃e = o.base⦄ y)
  IsAscending-canonical (x ∷ xs) [] hx hy same = ground (arith, same x, beq_refl ⦃e = o.base⦄ x)
  IsAscending-canonical (x ∷ xs) (y ∷ ys) hx hy same =
      let eq = heads_equal x y xs ys hx hy same in
      let rest = IsAscending-canonical xs ys hx.1 hy.1 (λ b. ground (
        arith,
        same b,
        eq,
        o.base.beq_iff b x,
        o.base.beq_iff b y,
        head_fresh x xs hx.0,
        head_fresh y ys hy.0,
      )) in
      cc (eq, rest)

  -- The values of a list, each once, in order.
  unfoldable pub unique_sorted : List A → List A
  unfolding unique_from sort_by has
  unique_sorted xs = sort o (unique_from ⦃e = o.base⦄ [] xs)

  pub has-unique_sorted :
      (xs : List A) (b : A) → has ⦃e = o.base⦄ b (unique_sorted xs) ≡ has ⦃e = o.base⦄ b xs
  unfolding unique_sorted
  has-unique_sorted xs b = has-sort b _ ∙ has-unique_from ⦃e = o.base⦄ [] xs b

  pub unique_sorted-IsAscending : (xs : List A) → IsAscending o (unique_sorted xs)
  unfolding unique_sorted
  unique_sorted-IsAscending xs = sort-IsAscending _ (unique_from-IsUnique ⦃e = o.base⦄ [] xs)

  pub unique_sorted-canonical :
      (xs ys : List A)
      → ((b : A) → has ⦃e = o.base⦄ b xs ≡ has ⦃e = o.base⦄ b ys)
      → unique_sorted xs ≡ unique_sorted ys
  unique_sorted-canonical xs ys same =
      IsAscending-canonical _ _ (unique_sorted-IsAscending xs) (unique_sorted-IsAscending ys)
        (λ b. has-unique_sorted xs b ∙ same b ∙ sym (has-unique_sorted ys b))

  pub unique_sorted_fixed : (xs : List A) → IsAscending o xs → unique_sorted xs ≡ xs
  unique_sorted_fixed xs h =
      IsAscending-canonical _ _ (unique_sorted-IsAscending xs) h (has-unique_sorted xs)
