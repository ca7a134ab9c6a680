-- ===== src/Firewall/Backend/Accept.antt =====
-- Which states `Normalize` of internal/firewall/backend/backend.go accepts, and that its result
-- is final.
use digitdojo_shield.Prelude.{
  ℕ, >>=-eq-ok, ◌<◌, ◌≡◌, refl, sym, ap, ◌∙◌, ◌≢◌, ◌↔◌, Bool, true, false, List, [], ◌∷◌, map,
  Option, none, some, arith, eqb, All, has, add_key, IsAscending, IsAscending-canonical, head_fresh,
  ok,
}
use digitdojo_shield.Firewall.Address.{
  Addr, no_addr, v4, v6, addr_beq, addr_beq_iff, addr_eq, addr_ord, unmap, is_unsafe, IsCanonical,
  normalize_address,
}
use digitdojo_shield.Firewall.Backend.{
  TemporaryBan, DesiredState, collect, normalize_addresses, record_ban, collect_bans, normalize,
  wrap, temporary_error,
}
use digitdojo_shield.Firewall.Backend.Normalize.{
  addresses, expiry_of, latest, IsNormal, Normalized, normalize_inversion, normalize-IsNormal,
  wrap-eq-ok,
}

-- An address that is valid and, unmapped, safe to put into a rule.
abbrev pub IsUsable : Addr → Type 0
IsUsable a = (addr_beq a no_addr ≡ false) × (is_unsafe (unmap a) ≡ false)

abbrev pub IsUsableBan : TemporaryBan → Type 0
IsUsableBan b = IsUsable b.address × (b.expires_at ≢ 0)

pub record IsAccepted (s : DesiredState) : Type 0 where
  pub whitelist : All IsUsable s.whitelist
  pub permanent_bans : All IsUsable s.permanent_bans
  pub temporary_bans : All IsUsableBan s.temporary_bans

normalize_address_usable : (a : Addr) → IsUsable a → normalize_address a ≡ ok (unmap a)
unfolding normalize_address addr_beq
normalize_address_usable no_addr h = cc (h.0)
normalize_address_usable (v4 n) h = ground arith
normalize_address_usable (v6 n zone) h = ground arith

IsUsable-of_normalize : (a b : Addr) → normalize_address a ≡ ok b → IsUsable a
unfolding normalize_address addr_beq
IsUsable-of_normalize no_addr b h = cc
IsUsable-of_normalize (v4 n) b h = ground arith
IsUsable-of_normalize (v6 n zone) b h = ground arith

collect_usable : (u xs : List Addr) → All IsUsable xs → (r : List Addr) × (collect u xs ≡ ok r)
unfolding collect
collect_usable u [] h = (u, refl)
collect_usable u (a ∷ xs) h =
    rw (normalize_address_usable a h.0) (collect_usable (add_key (unmap a) u) xs h.1)

IsUsable-of_collect : (u xs r : List Addr) → collect u xs ≡ ok r → All IsUsable xs
unfolding collect
IsUsable-of_collect u [] r h = tt
IsUsable-of_collect u (a ∷ xs) r h =
    let (n, hn, hr) = >>=-eq-ok (normalize_address a) _ h in
    (IsUsable-of_normalize a n hn, IsUsable-of_collect (add_key n u) xs r hr)

collect_bans_usable :
    (now : ℕ) (m : List (Addr × ℕ)) (bs : List TemporaryBan)
    → All IsUsableBan bs
    → (r : List (Addr × ℕ)) × (collect_bans now m bs ≡ ok r)
unfolding collect_bans
collect_bans_usable now m [] h = (m, refl)
collect_bans_usable now m (b ∷ bs) h =
    let e : eqb b.expires_at 0 ≡ false = ground arith in
    rw (normalize_address_usable b.address h.0.0, e)
      (collect_bans_usable now (record_ban now (unmap b.address) b.expires_at m) bs h.1)

usable_of_collect_bans :
    (now : ℕ) (m : List (Addr × ℕ)) (bs : List TemporaryBan) (r : List (Addr × ℕ))
    → collect_bans now m bs ≡ ok r
    → All IsUsableBan bs
unfolding collect_bans
usable_of_collect_bans now m [] r h = tt
usable_of_collect_bans now m (b ∷ bs) r h =
    let (n, hn, hr) = >>=-eq-ok (wrap temporary_error (normalize_address b.address)) _ h in
    (
      (IsUsable-of_normalize b.address n (wrap-eq-ok temporary_error _ hn), ground arith),
      usable_of_collect_bans now (record_ban now n b.expires_at m) bs r (ground arith),
    )

normalize_usable :
    (now : ℕ) (s : DesiredState) → IsAccepted s → (n : DesiredState) × (normalize now s ≡ ok n)
unfolding normalize
normalize_usable now s v =
    let (ws, hw) = collect_usable [] s.whitelist v.whitelist in
    let (ps, hp) = collect_usable [] s.permanent_bans v.permanent_bans in
    let (m, hm) = collect_bans_usable now [] s.temporary_bans v.temporary_bans in
    rw (hw, normalize_addresses, hp, hm) (_, refl)

IsUsable-of_addresses : (xs r : List Addr) → normalize_addresses xs ≡ ok r → All IsUsable xs
unfolding normalize_addresses
IsUsable-of_addresses xs r h =
    let (u, hu, hr) = >>=-eq-ok (collect [] xs) _ h in IsUsable-of_collect [] xs u hu

usable_of_state : (now : ℕ) (s n : DesiredState) → normalize now s ≡ ok n → IsAccepted s
unfolding normalize
usable_of_state now s n h =
    let (ws, hw, h1) = >>=-eq-ok (wrap _ (normalize_addresses s.whitelist)) _ h in
    let (ps, hp, h2) = >>=-eq-ok (wrap _ (normalize_addresses s.permanent_bans)) _ h1 in
    let (m, hm, h3) = >>=-eq-ok (collect_bans now [] s.temporary_bans) _ h2 in
    record {
      whitelist = IsUsable-of_addresses s.whitelist ws (wrap-eq-ok _ _ hw);
      permanent_bans = IsUsable-of_addresses s.permanent_bans ps (wrap-eq-ok _ _ hp);
      temporary_bans = usable_of_collect_bans now [] s.temporary_bans m hm;
    }

-- `Normalize` succeeds exactly when every address of the three lists is valid and, unmapped,
-- neither unspecified, loopback, multicast nor link-local, and every temporary ban has an expiry.
pub normalize_accepts_iff :
    (now : ℕ) (s : DesiredState) → ((n : DesiredState) × (normalize now s ≡ ok n)) ↔ IsAccepted s
normalize_accepts_iff now s = (λ r. usable_of_state now s r.0 r.1, λ v. normalize_usable now s v)

map-unmap : (xs : List Addr) → All IsCanonical xs → map unmap xs ≡ xs
map-unmap [] h = refl
map-unmap (a ∷ xs) h = cc (h.0.0, map-unmap xs h.1)

IsUsable-of_canonical : (xs : List Addr) → All IsCanonical xs → All IsUsable xs
IsUsable-of_canonical [] h = tt
IsUsable-of_canonical (a ∷ xs) h = ((h.0.1, rw (← h.0.0) h.0.2), IsUsable-of_canonical xs h.1)

usable_of_live :
    (now : ℕ) (bs : List TemporaryBan)
    → All (λ b. IsCanonical b.address × (now < b.expires_at)) bs
    → All IsUsableBan bs
usable_of_live now [] h = tt
usable_of_live now (b ∷ bs) h =
    (((h.0.0.1, rw (← h.0.0.0) h.0.0.2), omega arith), usable_of_live now bs h.1)

expiry_of-absent :
    (a : Addr) (bs : List TemporaryBan) → has a (addresses bs) ≡ false → expiry_of a bs ≡ none
unfolding has expiry_of
expiry_of-absent a [] f = refl
expiry_of-absent a (b ∷ bs) f = ground (arith, expiry_of-absent a bs)

is_some : Option ℕ → Bool
is_some none = false
is_some (some t) = true

has-addresses :
    (a : Addr) (bs : List TemporaryBan) → has a (addresses bs) ≡ is_some (expiry_of a bs)
unfolding has expiry_of is_some
has-addresses a [] = refl
has-addresses a (b ∷ bs) = ground (arith, has-addresses a bs)

-- On bans in normal form the specification gives each its own expiry.
latest_fixed :
    (now : ℕ) (a : Addr) (bs : List TemporaryBan)
    → IsAscending addr_ord (addresses bs)
    → All (λ b. IsCanonical b.address × (now < b.expires_at)) bs
    → latest now a bs ≡ expiry_of a bs
unfolding latest expiry_of
latest_fixed now a [] o h = refl
latest_fixed now a (b ∷ bs) o h = ground (
  arith,
  latest_fixed now a bs o.1 h.1,
  addr_beq_iff a b.address,
  h.0.0.0,
  expiry_of-absent a bs,
  head_fresh addr_ord b.address (addresses bs) o.0,
)

ban-eq : (b c : TemporaryBan) → b.address ≡ c.address → b.expires_at ≡ c.expires_at → b ≡ c
ban-eq b c p q = λ i. record { address = p i; expires_at = q i }

bans_equal :
    (bs cs : List TemporaryBan)
    → IsAscending addr_ord (addresses bs)
    → addresses bs ≡ addresses cs
    → ((a : Addr) → expiry_of a bs ≡ expiry_of a cs)
    → bs ≡ cs
unfolding expiry_of
bans_equal [] [] o e same = refl
bans_equal [] (c ∷ cs) o e same = cc
bans_equal (b ∷ bs) [] o e same = cc
bans_equal (b ∷ bs) (c ∷ cs) o e same =
    let eq : b.address ≡ c.address = cc in
    let tails : addresses bs ≡ addresses cs = cc in
    let fresh = head_fresh addr_ord b.address (addresses bs) o.0 in
    let heads : b.expires_at ≡ c.expires_at =
      ground (
        arith,
        same b.address,
        addr_beq_iff b.address b.address,
        addr_beq_iff b.address c.address,
      ) in
    let rest : bs ≡ cs = bans_equal bs cs o.1 tails (λ a. ground (
      arith,
      same a,
      addr_beq_iff a b.address,
      addr_beq_iff a c.address,
      expiry_of-absent a bs,
      expiry_of-absent a cs,
      ap (has a) tails,
      fresh,
    )) in
    let head_eq = ban-eq b c eq heads in cc (head_eq, rest)

state-eq :
    (s t : DesiredState)
    → s.whitelist ≡ t.whitelist
    → s.permanent_bans ≡ t.permanent_bans
    → s.temporary_bans ≡ t.temporary_bans
    → s ≡ t
state-eq s t p q r = λ i. record { whitelist = p i; permanent_bans = q i; temporary_bans = r i }

normal_fixed : (now : ℕ) (s n : DesiredState) → IsNormal now s → Normalized now s n → n ≡ s
normal_fixed now s n v w =
    let same : (a : Addr) → expiry_of a n.temporary_bans ≡ expiry_of a s.temporary_bans = λ a.
      w.expiries a
      ∙ latest_fixed now a s.temporary_bans v.temporary_ascending v.temporary_canonical in
    state-eq n s
      (IsAscending-canonical addr_ord _ _ w.allowed.ascending v.whitelist_ascending
        (λ a. w.allowed.members a ∙ ap (has a) (map-unmap s.whitelist v.whitelist_canonical)))
      (IsAscending-canonical addr_ord _ _ w.banned.ascending v.permanent_ascending
        (λ a. w.banned.members a ∙ ap (has a) (map-unmap s.permanent_bans v.permanent_canonical)))
      (bans_equal n.temporary_bans s.temporary_bans w.ascending
        (IsAscending-canonical addr_ord _ _ w.ascending v.temporary_ascending (λ a.
          has-addresses a n.temporary_bans
          ∙ ap is_some (same a)
          ∙ sym (has-addresses a s.temporary_bans)))
        same)

-- A state in normal form is its own normal form.
pub normalize_fixed : (now : ℕ) (s : DesiredState) → IsNormal now s → normalize now s ≡ ok s
normalize_fixed now s v =
    let accepted : IsAccepted s = record {
      whitelist = IsUsable-of_canonical s.whitelist v.whitelist_canonical;
      permanent_bans = IsUsable-of_canonical s.permanent_bans v.permanent_canonical;
      temporary_bans = usable_of_live now s.temporary_bans v.temporary_canonical;
    } in
    let (n, h) = normalize_usable now s accepted in
    h ∙ ap ok (normal_fixed now s n v (normalize_inversion now s n h))

-- Normalizing is idempotent: a state that `Normalize` returned is returned unchanged when it is
-- normalized again at the same time.
normalize_idem : (now : ℕ) (s n : DesiredState) → normalize now s ≡ ok n → normalize now n ≡ ok n
normalize_idem now s n h = normalize_fixed now n (normalize-IsNormal now s n h)
