-- ===== src/Firewall/Registry/Choice.antt =====
-- Which backend Resolve of internal/firewall/registry.go returns.
use digitdojo_shield.Prelude.{
  ◌≡◌, subst, sym, ◌⊎◌, refl, inl, inr, Bool, true, false, List, [], ◌∷◌, Option, none, some, arith,
  if◌then◌else◌, Bool-cases, lookup, is_some, Text, text_beq, text_beq_iff, text_eq, Result, ok,
  err,
}
use digitdojo_shield.Firewall.Contract.{
  Call, returns, panics, Context, Error, Backend, Factory, Registration, auto,
}
use digitdojo_shield.Firewall.Registry.{
  Registry, detect_safely, entry, capability_of, detect_from, detect, accept, make, instantiate,
  is_ready, first_ready, resolve_auto, resolve_entry, resolve_unless, resolve,
}

-- Under a name, the registry has a backend that is detected and has a factory.
abbrev pub ready : {W : Type 0} → Context → Registry W → Text → Bool
ready ctx r name = is_ready (capability_of ctx name (entry name r))

-- The first ready name of a list.
abbrev pub First : {W : Type 0} → Context → Registry W → Text → List Text → Type 0
First ctx r n [] = ⊥
First ctx r n (x ∷ xs) =
    ((x ≡ n) × (ready ctx r x ≡ true)) ⊎ ((ready ctx r x ≡ false) × First ctx r n xs)

first_ready-First :
    {W : Type 0} (ctx : Context) (r : Registry W) (xs : List Text) (n : Text)
    → first_ready (detect_from ctx r xs) ≡ some n
    → First ctx r n xs
unfolding first_ready detect_from
first_ready-First ctx r [] n h = cc
first_ready-First ctx r (x ∷ xs) n h = elim (Bool-cases (ready ctx r x)) [
  | inl y ↦ inl (ground arith, y)
  | inr y ↦ inr (y, first_ready-First ctx r xs n (rw y at h))
]

accept-name :
    {W : Type 0} (name : Text) (c : Call (Result Error (Option (Backend W)))) (b : Backend W)
    → accept name c ≡ ok b
    → b.name ≡ returns name
accept-name name (panics m) b h = cc
accept-name name (returns (err e)) b h = cc
accept-name name (returns (ok none)) b h = cc
accept-name name (returns (ok (some x))) b h = go x.name refl
  where
    go : (c : Call Text) → x.name ≡ c → b.name ≡ returns name
    go (panics m) e = cc (rw (e) at h)
    go (returns n) e = ground (arith, text_beq_iff n name)

instantiate-name :
    {W : Type 0} (name : Text) (r : Registry W) (w : W) (b : Backend W)
    → (instantiate name r w).0 ≡ ok b
    → b.name ≡ returns name
unfolding instantiate
instantiate-name {W} name r w b h = go (entry name r).factory h
  where
    go : (f : Option (Factory W)) → (make name f w).0 ≡ ok b → b.name ≡ returns name
    go none e = cc
    go (some f) e = accept-name name (f w).0 b e

-- What a resolved backend is: ready under its own name, and the name that was asked for, or the
-- first ready one where that was `auto`.
abbrev pub IsChosen : {W : Type 0} → Context → Registry W → Text → Backend W → Type 0
IsChosen ctx r requested b =
    (n : Text) × (b.name ≡ returns n)
    × (ready ctx r n ≡ true)
    × ((requested ≡ n) ⊎ ((requested ≡ auto) × First ctx r n r.order))

First-ready :
    {W : Type 0} (ctx : Context) (r : Registry W) (n : Text) (xs : List Text)
    → First ctx r n xs
    → ready ctx r n ≡ true
First-ready ctx r n [] f = absurd f
First-ready ctx r n (x ∷ xs) (inl (e, y)) = rw (← e) y
First-ready ctx r n (x ∷ xs) (inr (y, f)) = First-ready ctx r n xs f

auto-IsChosen :
    {W : Type 0} (ctx : Context) (r : Registry W) (w : W) (b : Backend W)
    → (resolve_auto ctx r w).0 ≡ ok b
    → IsChosen ctx r auto b
unfolding detect
auto-IsChosen ctx r w b h = go (first_ready (detect_from ctx r r.order)) refl
  where
    go : (o : Option Text) → first_ready (detect_from ctx r r.order) ≡ o → IsChosen ctx r auto b
    go none e = cc (rw (resolve_auto, e) at h)
    go (some n) e =
        let f = first_ready-First ctx r r.order n e in
        (
          n,
          instantiate-name n r w b (rw (resolve_auto, e) at h),
          First-ready ctx r n r.order f,
          inr (refl, f),
        )

entry_of :
    {W : Type 0} (name : Text) (r : Registry W) (x : Registration W)
    → lookup name r.entries ≡ some x
    → entry name r ≡ x
entry_of name r x e = ground arith

entry-IsChosen :
    {W : Type 0} (ctx : Context) (name : Text) (r : Registry W) (w : W) (b : Backend W)
    → (resolve_entry ctx name (lookup name r.entries) r w).0 ≡ ok b
    → IsChosen ctx r name b
entry-IsChosen {W} ctx name r w b h = go (lookup name r.entries) refl
  where
    go : (o : Option (Registration W)) → lookup name r.entries ≡ o → IsChosen ctx r name b
    go none e = cc (rw (e) at h)
    go (some x) e = elim (Bool-cases (detect_safely name x.probe ctx).detected) [
      | inr d ↦ cc (rw (e, d) at h)
      | inl d ↦ elim (Bool-cases (is_some x.factory)) [
        | inr f ↦ cc (rw (e, d, f) at h)
        | inl f ↦ (
          name,
          instantiate-name name r w b (rw (e, d, f) at h),
          subst (λ y. is_ready (capability_of ctx name y) ≡ true) (sym (entry_of name r x e))
              (rw (d, f) refl),
          inl refl,
        )
      ]
    ]

-- A backend that `Resolve` returns bears the name under which it is registered; it was detected
-- and has a factory; and that name is the requested one, or the first in the order of
-- registration that is ready, where `auto` was requested.
pub resolve-IsChosen :
    {W : Type 0} (ctx : Context) (requested : Text) (r : Registry W) (w : W) (b : Backend W)
    → (resolve (some ctx) requested r w).0 ≡ ok b
    → IsChosen ctx r requested b
unfolding resolve
resolve-IsChosen {W} ctx requested r w b h = go ctx.cancelled h
  where
    live :
        (t : Bool)
        → text_beq requested auto ≡ t
        → (if t
            then resolve_auto ctx r w
            else resolve_entry ctx requested (lookup requested r.entries) r w).0
          ≡ ok b
        → IsChosen ctx r requested b
    live true e k = rw ((text_beq_iff requested auto).0 e) (auto-IsChosen ctx r w b k)
    live false e k = entry-IsChosen ctx requested r w b k

    go :
        (o : Option Text)
        → (resolve_unless o ctx requested r w).0 ≡ ok b
        → IsChosen ctx r requested b
    go (some m) k = cc
    go none k = live (text_beq requested auto) refl k
