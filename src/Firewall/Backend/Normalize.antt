-- ===== src/Firewall/Backend/Normalize.antt =====
-- `Normalize` of internal/firewall/backend/backend.go against the sets that it stands for.
use digitdojo_shield.Prelude.{
  ℕ, subst, >>=-eq-ok, ok-injective, ◌<◌, ◌≡◌, refl, ap, ◌∙◌, inl, inr, Bool, true, false, ◌&&◌,
  ◌||◌, List, [], ◌∷◌, map, Option, none, some, arith, ltb, if◌then◌else◌, All, has, add_key,
  lookup, keys, has-add_key, lookup-put, keys-put, All-put, All-add_key, All-sort_by, map-sort_by,
  sort, sort_by, IsUnique, IsAscending, add_key-IsUnique, sort-IsAscending, has-sort, insert_by,
  Bool-cases, Result, ok, err,
}
use digitdojo_shield.Firewall.Address.{
  Addr, addr_beq, addr_beq_iff, addr_eq, addr_leb, addr_ord, unmap, AddressError, IsCanonical,
  normalize_address, normalize_address-eq-ok,
}
use digitdojo_shield.Firewall.Backend.{
  TemporaryBan, DesiredState, NormalizeError, collect, normalize_addresses, later, record_ban,
  collect_bans, bans_of, ban_leb, normalize, wrap, temporary_error,
}

abbrev pub addresses : List TemporaryBan → List Addr
addresses = map λ b. b.address

-- The expiry of an address in a list of bans.
unfoldable pub expiry_of : Addr → List TemporaryBan → Option ℕ
expiry_of a [] = none
expiry_of a (b ∷ bs) = if addr_beq a b.address then some b.expires_at else expiry_of a bs

abbrev pub latest_of : Option ℕ → Option ℕ → Option ℕ
latest_of none u = u
latest_of (some t) none = some t
latest_of (some t) (some u) = if ltb t u then some u else some t

-- The specification: the last expiry among an address's bans that have not run out.
unfoldable pub latest : ℕ → Addr → List TemporaryBan → Option ℕ
latest now a [] = none
latest now a (b ∷ bs) =
    let rest = latest now a bs in
    if addr_beq a (unmap b.address) && ltb now b.expires_at
    then latest_of (some b.expires_at) rest
    else rest

-- A state in normal form: each list in order without repetition, of canonical addresses, and no
-- ban that has run out.
pub record IsNormal (now : ℕ) (s : DesiredState) : Type 0 where
  pub whitelist_ascending : IsAscending addr_ord s.whitelist
  pub whitelist_canonical : All IsCanonical s.whitelist
  pub permanent_ascending : IsAscending addr_ord s.permanent_bans
  pub permanent_canonical : All IsCanonical s.permanent_bans
  pub temporary_ascending : IsAscending addr_ord (addresses s.temporary_bans)
  pub temporary_canonical : All (λ b. IsCanonical b.address × (now < b.expires_at)) s.temporary_bans

pub wrap-eq-ok :
    {A : Type 0} (f : AddressError → NormalizeError) (r : Result AddressError A) {a : A}
    → wrap f r ≡ ok a
    → r ≡ ok a
wrap-eq-ok f (ok a) h = ground arith
wrap-eq-ok f (err e) h = cc

-- The loop over a list of addresses.
pub record Collects (unique xs r : List Addr) : Type 0 where
  pub members : (b : Addr) → has b r ≡ (has b unique || has b (map unmap xs))
  pub unique_kept : IsUnique unique → IsUnique r
  pub canonical_kept : All IsCanonical unique → All IsCanonical r

collect_lem : (unique xs r : List Addr) → collect unique xs ≡ ok r → Collects unique xs r
unfolding collect has
collect_lem unique [] r h = record {
  members = λ b. ground arith;
  unique_kept = λ u. ground arith;
  canonical_kept = λ u. ground arith;
}
collect_lem unique (a ∷ xs) r h =
    let (n, hn, hr) = >>=-eq-ok (normalize_address a) _ h in
    let ih = collect_lem (add_key n unique) xs r hr in
    let nb = normalize_address-eq-ok a n hn in
    record {
      members = λ b. ground (arith, ih.members b, has-add_key n b unique, nb.0);
      unique_kept = λ u. ih.unique_kept (add_key-IsUnique n unique u);
      canonical_kept = λ u. ih.canonical_kept (All-add_key IsCanonical n unique nb.1 u);
    }

pub record Lists (xs r : List Addr) : Type 0 where
  pub ascending : IsAscending addr_ord r
  pub canonical : All IsCanonical r
  pub members : (b : Addr) → has b r ≡ has b (map unmap xs)

normalize_addresses_lem : (xs r : List Addr) → normalize_addresses xs ≡ ok r → Lists xs r
unfolding normalize_addresses has
normalize_addresses_lem xs r h =
    let (u, hu, hr) = >>=-eq-ok (collect [] xs) _ h in
    let c = collect_lem [] xs u hu in
    let e : sort addr_ord u ≡ r = ground arith in
    record {
      ascending = rw (← e) (sort-IsAscending addr_ord u (c.unique_kept tt));
      canonical = rw (← e) (All-sort_by addr_leb IsCanonical u (c.canonical_kept tt));
      members = λ b. rw (← e) (has-sort addr_ord b u ∙ c.members b);
    }

abbrev Live : ℕ → Addr × ℕ → Type 0
Live now (a, t) = IsCanonical a × (now < t)

record_ban-lookup :
    (now : ℕ) (n : Addr) (t : ℕ) (m : List (Addr × ℕ)) (a : Addr)
    → lookup a (record_ban now n t m)
      ≡ latest_of (lookup a m) (if addr_beq a n && ltb now t then some t else none)
unfolding record_ban
record_ban-lookup now n t m a =
    ground (arith, lookup-put n a (later (lookup n m) t) m, addr_beq_iff a n)

latest_of_assoc : (x y z : Option ℕ) → latest_of (latest_of x y) z ≡ latest_of x (latest_of y z)
latest_of_assoc none y z = refl
latest_of_assoc (some t) none z = refl
latest_of_assoc (some t) (some u) none = ground arith
latest_of_assoc (some t) (some u) (some v) = ground arith

latest_of-none : (x : Option ℕ) → latest_of x none ≡ x
latest_of-none none = refl
latest_of-none (some t) = refl

latest_of-if :
    (c : Bool) (t : ℕ) (x : Option ℕ)
    → latest_of (if c then some t else none) x ≡ (if c then latest_of (some t) x else x)
latest_of-if true t x = refl
latest_of-if false t x = refl

record_ban-IsUnique :
    (now : ℕ) (n : Addr) (t : ℕ) (m : List (Addr × ℕ))
    → IsUnique (keys m)
    → IsUnique (keys (record_ban now n t m))
unfolding record_ban
record_ban-IsUnique now n t m u =
    ground (arith, keys-put n (later (lookup n m) t) m, add_key-IsUnique n (keys m) u)

record_ban-Live :
    (now : ℕ) (n : Addr) (t : ℕ) (m : List (Addr × ℕ))
    → IsCanonical n
    → All (Live now) m
    → All (Live now) (record_ban now n t m)
unfolding record_ban
record_ban-Live now n t m c h = elim (Bool-cases (ltb now t)) [
  | inl l ↦ rw l (All-put (Live now) n (later (lookup n m) t) m (c, ground arith) h)
  | inr l ↦ rw l h
]

pub record CollectsBans (now : ℕ) (m : List (Addr × ℕ)) (bs : List TemporaryBan)
    (r : List (Addr × ℕ)) : Type 0 where
  pub found : (a : Addr) → lookup a r ≡ latest_of (lookup a m) (latest now a bs)
  pub unique_kept : IsUnique (keys m) → IsUnique (keys r)
  pub live_kept : All (Live now) m → All (Live now) r

collect_bans_lem :
    (now : ℕ) (m : List (Addr × ℕ)) (bs : List TemporaryBan) (r : List (Addr × ℕ))
    → collect_bans now m bs ≡ ok r
    → CollectsBans now m bs r
unfolding collect_bans latest
collect_bans_lem now m [] r h = record {
  found = λ a. ground (arith, latest_of-none (lookup a m));
  unique_kept = λ u. ground arith;
  live_kept = λ u. ground arith;
}
collect_bans_lem now m (b ∷ bs) r h =
    let (n, hn, hr) = >>=-eq-ok (wrap temporary_error (normalize_address b.address)) _ h in
    let nb = normalize_address-eq-ok b.address n (wrap-eq-ok temporary_error _ hn) in
    let ih = collect_bans_lem now (record_ban now n b.expires_at m) bs r (ground arith) in
    record {
      found = λ a.
          rw (ih.found a, record_ban-lookup now n b.expires_at m a, nb.0, latest_of_assoc)
            (ap (latest_of (lookup a m)) (latest_of-if _ b.expires_at (latest now a bs)));
      unique_kept = λ u. ih.unique_kept (record_ban-IsUnique now n b.expires_at m u);
      live_kept = λ u. ih.live_kept (record_ban-Live now n b.expires_at m nb.1 u);
    }

addresses-bans_of : (m : List (Addr × ℕ)) → addresses (bans_of m) ≡ keys m
addresses-bans_of [] = refl
addresses-bans_of ((a, t) ∷ m) = cc (addresses-bans_of m)

expiry_of-bans_of : (a : Addr) (m : List (Addr × ℕ)) → expiry_of a (bans_of m) ≡ lookup a m
unfolding expiry_of lookup
expiry_of-bans_of a [] = refl
expiry_of-bans_of a ((b, t) ∷ m) = ground (arith, expiry_of-bans_of a m)

All-bans_of :
    (now : ℕ) (m : List (Addr × ℕ))
    → All (Live now) m
    → All (λ b. IsCanonical b.address × (now < b.expires_at)) (bans_of m)
All-bans_of now [] h = tt
All-bans_of now ((a, t) ∷ m) h = (h.0, All-bans_of now m h.1)

expiry_of-insert_by :
    (a : Addr) (b : TemporaryBan) (bs : List TemporaryBan)
    → has b.address (addresses bs) ≡ false
    → expiry_of a (insert_by ban_leb b bs) ≡ expiry_of a (b ∷ bs)
unfolding expiry_of insert_by has
expiry_of-insert_by a b [] f = refl
expiry_of-insert_by a b (c ∷ bs) f = ground (
  arith,
  expiry_of-insert_by a b bs,
  addr_beq_iff a b.address,
  addr_beq_iff a c.address,
  addr_beq_iff b.address c.address,
)

has_cong : (b : Addr) (xs ys : List Addr) → xs ≡ ys → has b xs ≡ has b ys
has_cong b xs ys e = ap (has b) e

-- Sorting moves no expiry to another address.
expiry_of-sort_by :
    (a : Addr) (bs : List TemporaryBan)
    → IsUnique (addresses bs)
    → expiry_of a (sort_by ban_leb bs) ≡ expiry_of a bs
unfolding expiry_of sort_by
expiry_of-sort_by a [] u = refl
expiry_of-sort_by a (b ∷ bs) u =
    expiry_of-insert_by a b (sort_by ban_leb bs) (
      has_cong b.address _ _ (map-sort_by addr_leb (λ c. c.address) bs)
      ∙ has-sort addr_ord b.address (addresses bs)
      ∙ u.0)
    ∙ ground (arith, expiry_of-sort_by a bs u.1)

pub record Normalized (now : ℕ) (s n : DesiredState) : Type 0 where
  pub allowed : Lists s.whitelist n.whitelist
  pub banned : Lists s.permanent_bans n.permanent_bans
  pub ascending : IsAscending addr_ord (addresses n.temporary_bans)
  pub live : All (λ b. IsCanonical b.address × (now < b.expires_at)) n.temporary_bans
  pub expiries : (a : Addr) → expiry_of a n.temporary_bans ≡ latest now a s.temporary_bans

-- What the three loops leave, put together.
abbrev assembled : List Addr → List Addr → List (Addr × ℕ) → DesiredState
assembled ws ps m = record {
  whitelist = ws;
  permanent_bans = ps;
  temporary_bans = sort_by ban_leb (bans_of m);
}

assembled-Normalized :
    (now : ℕ) (s : DesiredState) (ws ps : List Addr) (m : List (Addr × ℕ))
    → Lists s.whitelist ws
    → Lists s.permanent_bans ps
    → CollectsBans now [] s.temporary_bans m
    → Normalized now s (assembled ws ps m)
unfolding lookup
assembled-Normalized now s ws ps m w p c =
    let unique : IsUnique (addresses (bans_of m)) = rw (addresses-bans_of m) (c.unique_kept tt) in
    record {
      allowed = w;
      banned = p;
      ascending =
          rw (map-sort_by addr_leb (λ b. b.address) (bans_of m))
            (sort-IsAscending addr_ord _ unique);
      live = All-sort_by ban_leb _ (bans_of m) (All-bans_of now m (c.live_kept tt));
      expiries = λ a. expiry_of-sort_by a (bans_of m) unique ∙ expiry_of-bans_of a m ∙ c.found a;
    }

pub normalize_inversion :
    (now : ℕ) (s n : DesiredState) → normalize now s ≡ ok n → Normalized now s n
unfolding normalize
normalize_inversion now s n h =
    let (ws, hw, h1) = >>=-eq-ok (wrap _ (normalize_addresses s.whitelist)) _ h in
    let (ps, hp, h2) = >>=-eq-ok (wrap _ (normalize_addresses s.permanent_bans)) _ h1 in
    let (m, hm, h3) = >>=-eq-ok (collect_bans now [] s.temporary_bans) _ h2 in
    let w = normalize_addresses_lem s.whitelist ws (wrap-eq-ok _ _ hw) in
    let p = normalize_addresses_lem s.permanent_bans ps (wrap-eq-ok _ _ hp) in
    let c = collect_bans_lem now [] s.temporary_bans m hm in
    subst (Normalized now s) (ok-injective h3) (assembled-Normalized now s ws ps m w p c)

-- A state that `Normalize` returns is in normal form: its three lists are in order without
-- repetition, every address is valid, unmapped and safe, and no temporary ban has run out.
pub normalize-IsNormal : (now : ℕ) (s n : DesiredState) → normalize now s ≡ ok n → IsNormal now n
normalize-IsNormal now s n h =
    let v = normalize_inversion now s n h in
    record {
      whitelist_ascending = v.allowed.ascending;
      whitelist_canonical = v.allowed.canonical;
      permanent_ascending = v.banned.ascending;
      permanent_canonical = v.banned.canonical;
      temporary_ascending = v.ascending;
      temporary_canonical = v.live;
    }

-- `Normalize` keeps what the state asks for: an address is in the returned whitelist or permanent
-- bans exactly when it is the unmapped form of one that was given, and its temporary ban ends at
-- the last of the given expiries that have not passed, or is absent if there is none.
pub normalize_members :
    (now : ℕ) (s n : DesiredState) (a : Addr)
    → normalize now s ≡ ok n
    → (has a n.whitelist ≡ has a (map unmap s.whitelist))
      × (has a n.permanent_bans ≡ has a (map unmap s.permanent_bans))
      × (expiry_of a n.temporary_bans ≡ latest now a s.temporary_bans)
normalize_members now s n a h =
    let v = normalize_inversion now s n h in (v.allowed.members a, v.banned.members a, v.expiries a)
