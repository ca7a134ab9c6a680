-- ===== src/Firewall/Registry/Order.antt =====
-- The registry's map and its order list agree (Register and NewRegistry of
-- internal/firewall/registry.go).
use digitdojo_shield.Prelude.{
  ◌≡◌, refl, subst, ok-injective, beq_refl, ◌∙◌, inl, inr, false, List, [], ◌∷◌, ◌++◌, arith,
  if◌then◌else◌, Bool-cases, >>=-eq-ok, has, has-append, lookup, put, lookup-put, is_some, IsUnique,
  Text, text_beq, text_beq_iff, text_eq, ok, err,
}
use digitdojo_shield.Firewall.Contract.{auto_reserved, already_registered, Registration, auto}
use digitdojo_shield.Firewall.Registry.{
  Registry, empty_registry, probe_name_safely, check_name, probe_of, insert, register, register_all,
  new_registry,
}

-- Each registered name stands once in the order, and `auto` is none of them.
pub record IsValid {W : Type 0} (r : Registry W) : Type 0 where
  pub unique : IsUnique r.order
  pub listed : (n : Text) → has n r.order ≡ is_some (lookup n r.entries)
  pub no_auto : has auto r.order ≡ false

IsUnique-snoc :
    (xs : List Text) (a : Text) → IsUnique xs → has a xs ≡ false → IsUnique (xs ++ a ∷ [])
unfolding has
IsUnique-snoc [] a u f = (refl, tt)
IsUnique-snoc (x ∷ xs) a u f =
    ground
      (arith, IsUnique-snoc xs a u.1, has-append x xs (a ∷ []), text_beq_iff x a, text_beq_iff a x)

insert-IsValid :
    {W : Type 0} (name : Text) (x : Registration W) (r r' : Registry W)
    → IsValid r
    → text_beq name auto ≡ false
    → insert name x r ≡ ok r'
    → IsValid r'
unfolding has
insert-IsValid name x r r' v na h = elim (Bool-cases (is_some (lookup name r.entries))) [
  | inl old ↦ cc (rw old at h)
  | inr new ↦
      let e : record { entries = put name x r.entries; order = r.order ++ name ∷ [] } ≡ r' =
        ground arith in
      rw (← e) (record {
        unique = IsUnique-snoc r.order name v.unique (v.listed name ∙ new);
        listed = λ n.
            rw (has-append n r.order (name ∷ []), v.listed n, lookup-put name n x r.entries)
              (ground arith);
        no_auto =
            rw (has-append auto r.order (name ∷ []), v.no_auto)
              (ground (arith, text_beq_iff name auto, text_beq_iff auto name));
      })
]

-- The last two steps of Register.
insert_past_auto :
    {W : Type 0} (name : Text) (x : Registration W) (r r' : Registry W)
    → IsValid r
    → (if text_beq name auto then err auto_reserved else insert name x r) ≡ ok r'
    → IsValid r'
insert_past_auto name x r r' v h = elim (Bool-cases (text_beq name auto)) [
  | inl a ↦ cc (rw a at h)
  | inr a ↦ insert-IsValid name x r r' v a (rw a at h)
]

register-IsValid :
    {W : Type 0} (x : Registration W) (r r' : Registry W)
    → IsValid r
    → register x r ≡ ok r'
    → IsValid r'
unfolding register
register-IsValid x r r' v h =
    let (p, hp, h1) = >>=-eq-ok (probe_of x) _ h in
    let (name, hn, h2) = >>=-eq-ok (probe_name_safely p) _ h1 in
    let (n, hc, h3) = >>=-eq-ok (check_name name) _ h2 in insert_past_auto name x r r' v h3

register_all-IsValid :
    {W : Type 0} (xs : List (Registration W)) (r r' : Registry W)
    → IsValid r
    → register_all xs r ≡ ok r'
    → IsValid r'
unfolding register_all
register_all-IsValid [] r r' v h = subst IsValid (ok-injective h) v
register_all-IsValid (x ∷ xs) r r' v h =
    let (q, hq, h1) = >>=-eq-ok (register x r) _ h in
    register_all-IsValid xs q r' (register-IsValid x r q v hq) h1

empty-IsValid : {W : Type 0} → IsValid (empty_registry {W = W})
unfolding lookup has
empty-IsValid = record { unique = tt; listed = λ n. refl; no_auto = refl }

-- A registry that `NewRegistry` built, from whatever registrations, lists each registered name
-- once, lists no other name, and never `auto`.
pub new_registry-IsValid :
    {W : Type 0} (xs : List (Registration W)) (r : Registry W) → new_registry xs ≡ ok r → IsValid r
unfolding new_registry
new_registry-IsValid xs r h = register_all-IsValid xs empty_registry r empty-IsValid h

-- Once a registration went in under a name, a second one under that name is refused.
insert_twice :
    {W : Type 0} (name : Text) (x y : Registration W) (r r' : Registry W)
    → insert name x r ≡ ok r'
    → insert name y r' ≡ err (already_registered name)
insert_twice name x y r r' h = elim (Bool-cases (is_some (lookup name r.entries))) [
  | inl old ↦ cc (rw old at h)
  | inr new ↦
      let e : record { entries = put name x r.entries; order = r.order ++ name ∷ [] } ≡ r' =
        ground arith in
      rw (← e, lookup-put name name x r.entries, beq_refl {A = Text} name)
]
