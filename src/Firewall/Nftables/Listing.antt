-- ===== src/Firewall/Nftables/Listing.antt =====
-- The listing that parseRulesetJSON of internal/firewall/nftables/backend.go reads back: what nft
-- says of sets that were declared by the program of internal/firewall/nftables/render.go.
use digitdojo_shield.Prelude.{
  subst, ℕ, ◌+◌, ◌*◌, ◌≤◌, ◌≡◌, refl, sym, ap, inl, inr, Bool, true, false, not, List, [], ◌∷◌,
  ◌++◌, map, Option, none, some, arith, Bool-cases, keep, lookup, put, sort_by, insert_by, All,
  All-keep, pos, Text, text, text_beq, text_eq, Result, ok, IsAscending, Below, ltb,
}
use digitdojo_shield.Firewall.Address.{
  Addr, no_addr, v4, v6, is_4, addr_beq, addr_leb, addr_ord, IsCanonical,
}
use digitdojo_shield.Firewall.Backend.{TemporaryBan, DesiredState, ban_leb}
use digitdojo_shield.Firewall.Nftables.Render.{
  table_name, second, Show, SetDecl, ipv4_addresses, ipv6_addresses, address_set,
}
use digitdojo_shield.Firewall.Nftables.Parse.{
  Element, plain, wrapped, NftObject, set_object, parse_element, parse_address_elements,
  parse_temporary_elements, parse_ruleset,
}

-- What Shield's table holds: addresses, and addresses with the seconds that they have left.
pub record Content : Type 0 where
  pub whitelist : List Addr
  pub permanent : List Addr
  pub temporary : List (Addr × ℕ)

pub record IsContent (c : Content) : Type 0 where
  pub whitelist_ascending : IsAscending addr_ord c.whitelist
  pub whitelist_canonical : All IsCanonical c.whitelist
  pub permanent_ascending : IsAscending addr_ord c.permanent
  pub permanent_canonical : All IsCanonical c.permanent
  pub temporary_ascending : IsAscending addr_ord (map (λ t. t.0) c.temporary)
  pub temporary_canonical : All (λ t. IsCanonical t.0 × (1 ≤ t.1)) c.temporary

abbrev pub timed_set : Text → (Addr → Bool) → List (Addr × ℕ) → SetDecl
timed_set name family ts = record {
  name = name;
  elements = map (λ t. (t.0, some t.1)) (keep (λ t. family t.0) ts);
}

abbrev pub sets_of_content : Content → List SetDecl
sets_of_content c =
    address_set (text "whitelist_v4") (ipv4_addresses c.whitelist)
    ∷ address_set (text "whitelist_v6") (ipv6_addresses c.whitelist)
    ∷ address_set (text "permanent_bans_v4") (ipv4_addresses c.permanent)
    ∷ address_set (text "permanent_bans_v6") (ipv6_addresses c.permanent)
    ∷ timed_set (text "temporary_bans_v4") is_4 c.temporary
    ∷ timed_set (text "temporary_bans_v6") (λ a. not (is_4 a)) c.temporary
    ∷ []

module _ (show : Show) where
  abbrev pub element_of : Addr × Option ℕ → Element
  element_of (a, none) = plain (show.addr a)
  element_of (a, some s) = wrapped (show.addr a) (pos s)

  abbrev pub object_of : SetDecl → NftObject
  object_of d = set_object (record {
    family = text "inet";
    table = table_name;
    name = d.name;
    elem = map element_of d.elements;
  })

  -- The listing of the table.
  abbrev pub listing : Content → List NftObject
  listing c = map object_of (sets_of_content c)

abbrev pub ban_of : ℕ → Addr × ℕ → TemporaryBan
ban_of now (a, s) = record { address = a; expires_at = now + s * second }

-- The state that a content stands for at a time.
abbrev pub state_of : ℕ → Content → DesiredState
state_of now c = record {
  whitelist = c.whitelist;
  permanent_bans = c.permanent;
  temporary_bans = map (ban_of now) c.temporary;
}

-- netip.ParseAddr on the text of an address.
abbrev pub IsLawfulShow : Show → (Text → Result Text Addr) → Type 0
IsLawfulShow show parse_addr = (a : Addr) → IsCanonical a → parse_addr (show.addr a) ≡ ok a

module _ (show : Show) (parse_addr : Text → Result Text Addr)
    (law : IsLawfulShow show parse_addr) where
  parse_addresses_lem :
      (xs : List Addr)
      → All IsCanonical xs
      → parse_address_elements parse_addr (map (element_of show) (map (λ a. (a, none)) xs)) ≡ ok xs
  unfolding parse_address_elements parse_element
  parse_addresses_lem [] h = refl
  parse_addresses_lem (x ∷ xs) h = rw (law x h.0, parse_addresses_lem xs h.1) refl

  parse_bans_lem :
      (now : ℕ) (ts : List (Addr × ℕ))
      → All (λ t. IsCanonical t.0 × (1 ≤ t.1)) ts
      → parse_temporary_elements parse_addr now
          (map (element_of show) (map (λ t. (t.0, some t.1)) ts))
        ≡ ok (map (ban_of now) ts)
  unfolding parse_temporary_elements parse_element
  parse_bans_lem now [] h = refl
  parse_bans_lem now ((a, s) ∷ ts) h =
      let positive : ltb 0 s ≡ true = ground arith in
      rw (law a h.0.0, positive, parse_bans_lem now ts h.1) refl

not_ipv4_above : (x y : Addr) → IsCanonical x → is_4 x ≡ false → Below addr_ord x y → is_4 y ≡ false
unfolding addr_leb addr_beq is_4
not_ipv4_above no_addr y c f b = cc (c.1)
not_ipv4_above (v4 n) y c f b = cc
not_ipv4_above (v6 n z) no_addr c f b = refl
not_ipv4_above (v6 n z) (v4 m) c f b = cc (b.0)
not_ipv4_above (v6 n z) (v6 m t) c f b = refl

-- An ascending list has its IPv4 addresses first.
module _ {A : Type 0} (at : A → Addr) where
  no_ipv4_after :
      (b : Addr) (xs : List A)
      → IsCanonical b
      → is_4 b ≡ false
      → All (Below addr_ord b) (map at xs)
      → (keep (λ x. is_4 (at x)) xs ≡ []) × (keep (λ x. not (is_4 (at x))) xs ≡ xs)
  no_ipv4_after b [] c f h = (refl, refl)
  no_ipv4_after b (x ∷ xs) c f h =
      let rest = no_ipv4_after b xs c f h.1 in
      rw (not_ipv4_above b (at x) c f h.0) (rest.0, ap (λ (ys : List A). x ∷ ys) rest.1)

  ipv4_first :
      (xs : List A)
      → IsAscending addr_ord (map at xs)
      → All (λ x. IsCanonical (at x)) xs
      → keep (λ x. is_4 (at x)) xs ++ keep (λ x. not (is_4 (at x))) xs ≡ xs
  ipv4_first [] a h = refl
  ipv4_first (x ∷ xs) a h = elim (Bool-cases (is_4 (at x))) [
    | inl t ↦ rw t (ap (λ (ys : List A). x ∷ ys) (ipv4_first xs a.1 h.1))
    | inr f ↦
        let rest = no_ipv4_after (at x) xs h.0 f a.0 in
        rw (f, rest.0) (ap (λ (ys : List A). x ∷ ys) rest.1)
  ]

sort_bans_fixed :
    (bs : List TemporaryBan)
    → IsAscending addr_ord (map (λ b. b.address) bs)
    → sort_by ban_leb bs ≡ bs
unfolding sort_by insert_by
sort_bans_fixed [] a = refl
sort_bans_fixed (b ∷ bs) a = rw (sort_bans_fixed bs a.1) (least b bs a.0)
  where
    least :
        (b : TemporaryBan) (bs : List TemporaryBan)
        → All (Below addr_ord b.address) (map (λ c. c.address) bs)
        → insert_by ban_leb b bs ≡ b ∷ bs
    least b [] h = refl
    least b (c ∷ cs) h = rw (h.0.0) refl

map-addresses :
    (now : ℕ) (ts : List (Addr × ℕ))
    → map (λ b. b.address) (map (ban_of now) ts) ≡ map (λ t. t.0) ts
map-addresses now [] = refl
map-addresses now ((a, s) ∷ ts) = ap (λ (xs : List Addr). a ∷ xs) (map-addresses now ts)

map-append :
    (now : ℕ) (xs ys : List (Addr × ℕ))
    → map (ban_of now) xs ++ map (ban_of now) ys ≡ map (ban_of now) (xs ++ ys)
map-append now [] ys = refl
map-append now (x ∷ xs) ys =
    ap (λ (bs : List TemporaryBan). ban_of now x ∷ bs) (map-append now xs ys)

map-id : (xs : List Addr) → map (λ a. a) xs ≡ xs
map-id [] = refl
map-id (x ∷ xs) = ap (λ (ys : List Addr). x ∷ ys) (map-id xs)

All-weaken :
    (ts : List (Addr × ℕ))
    → All (λ t. IsCanonical t.0 × (1 ≤ t.1)) ts
    → All (λ t. IsCanonical t.0) ts
All-weaken [] h = tt
All-weaken (t ∷ ts) h = (h.0.0, All-weaken ts h.1)

module _ (show : Show) (parse_addr : Text → Result Text Addr)
    (law : IsLawfulShow show parse_addr) where
  -- Where ParseAddr reads the text of every usable address back: the state that parseRulesetJSON
  -- finds in the listing of Shield's six sets, each list in order and of usable addresses and
  -- every temporary ban with a second left or more, has the same addresses, with each ban's end at
  -- that many seconds from now.
  pub parse_ruleset-listing :
      (now : ℕ) (c : Content)
      → IsContent c
      → parse_ruleset parse_addr now (ok (listing show c)) ≡ ok (state_of now c)
  unfolding parse_ruleset put lookup text_beq
  parse_ruleset-listing now c h =
      let fixed : List Addr → Type 0 = λ xs. keep is_4 xs ++ keep (λ a. not (is_4 a)) xs ≡ xs in
      let w : fixed c.whitelist =
        ipv4_first (λ a. a) c.whitelist
          (subst (IsAscending addr_ord) (sym (map-id c.whitelist)) h.whitelist_ascending)
          h.whitelist_canonical in
      let p : fixed c.permanent =
        ipv4_first (λ a. a) c.permanent
          (subst (IsAscending addr_ord) (sym (map-id c.permanent)) h.permanent_ascending)
          h.permanent_canonical in
      let t =
        ipv4_first (λ (t : Addr × ℕ). t.0) c.temporary h.temporary_ascending
          (All-weaken c.temporary h.temporary_canonical) in
      rw
        (
          parse_addresses_lem show parse_addr law _
              (All-keep IsCanonical is_4 c.whitelist h.whitelist_canonical),
          parse_addresses_lem show parse_addr law _
              (All-keep IsCanonical (λ a. not (is_4 a)) c.whitelist h.whitelist_canonical),
          parse_addresses_lem show parse_addr law _
              (All-keep IsCanonical is_4 c.permanent h.permanent_canonical),
          parse_addresses_lem show parse_addr law _
              (All-keep IsCanonical (λ a. not (is_4 a)) c.permanent h.permanent_canonical),
          parse_bans_lem show parse_addr law now _
              (All-keep _ (λ t. is_4 t.0) c.temporary h.temporary_canonical),
          parse_bans_lem show parse_addr law now _
              (All-keep _ (λ t. not (is_4 t.0)) c.temporary h.temporary_canonical),
          w,
          p,
          map-append now (keep (λ t. is_4 t.0) c.temporary)
              (keep (λ t. not (is_4 t.0)) c.temporary),
          t,
          sort_bans_fixed (map (ban_of now) c.temporary) (
              subst (IsAscending addr_ord) (sym (map-addresses now c.temporary))
                h.temporary_ascending),
        )
        refl
