-- ===== src/Firewall/Backend.antt =====
-- internal/firewall/backend/backend.go: names, capabilities, the desired state and `Normalize`.
-- A time is the number of nanoseconds since year 1, so that 0 is Go's zero time.
pub mod Normalize
pub mod Accept
pub mod Names
use digitdojo_shield.Prelude.{
  ℕ, ◌≡◌, Bool, true, false, List, [], ◌∷◌, Option, none, some, arith, ltb, eqb, if◌then◌else◌,
  lookup, put, add_key, sort, sort_by, Result, ok, err, ◌>>=◌,
}
use digitdojo_shield.Firewall.Address.{
  Addr, addr_eq, addr_leb, addr_ord, AddressError, normalize_address,
}

pub record TemporaryBan : Type 0 where
  pub address : Addr
  pub expires_at : ℕ

pub record DesiredState : Type 0 where
  pub whitelist : List Addr
  pub permanent_bans : List Addr
  pub temporary_bans : List TemporaryBan

-- DesiredState{}
abbrev pub empty_state : DesiredState
empty_state = record { whitelist = []; permanent_bans = []; temporary_bans = [] }

pub data NormalizeError : Type 0 where
  whitelist_error permanent_error temporary_error : AddressError → NormalizeError
  no_expiry : Addr → NormalizeError

-- The error of the inner call, wrapped by `fmt.Errorf`.
abbrev pub wrap :
    {A : Type 0} → (AddressError → NormalizeError) → Result AddressError A → Result NormalizeError A
wrap f (ok a) = ok a
wrap f (err e) = err (f e)

-- The loop of normalizeAddresses over the set of the addresses so far.
unfoldable pub collect : List Addr → List Addr → Result AddressError (List Addr)
collect unique [] = ok unique
collect unique (a ∷ rest) = normalize_address a >>= λ n. collect (add_key n unique) rest

unfoldable pub normalize_addresses : List Addr → Result AddressError (List Addr)
unfolding collect
normalize_addresses addresses = collect [] addresses >>= λ unique. ok (sort addr_ord unique)

-- The expiry that the map holds for an address after a ban that has not run out.
abbrev pub later : Option ℕ → ℕ → ℕ
later none expires = expires
later (some current) expires = if ltb current expires then expires else current

-- The ban's turn: past a ban that has run out, the map keeps the later expiry.
unfoldable pub record_ban : ℕ → Addr → ℕ → List (Addr × ℕ) → List (Addr × ℕ)
record_ban now a expires m = if ltb now expires then put a (later (lookup a m) expires) m else m

-- The loop of Normalize over the temporary bans.
unfoldable pub collect_bans :
    ℕ → List (Addr × ℕ) → List TemporaryBan → Result NormalizeError (List (Addr × ℕ))
unfolding record_ban
collect_bans now m [] = ok m
collect_bans now m (ban ∷ rest) = wrap temporary_error (normalize_address ban.address) >>= λ a.
    if eqb ban.expires_at 0
    then err (no_expiry a)
    else collect_bans now (record_ban now a ban.expires_at m) rest

abbrev pub bans_of : List (Addr × ℕ) → List TemporaryBan
bans_of [] = []
bans_of ((a, t) ∷ m) = record { address = a; expires_at = t } ∷ bans_of m

-- The order of the second sort.Slice.
abbrev pub ban_leb : TemporaryBan → TemporaryBan → Bool
ban_leb b c = addr_leb b.address c.address

unfoldable pub normalize : ℕ → DesiredState → Result NormalizeError DesiredState
unfolding normalize_addresses collect_bans
normalize now s = wrap whitelist_error (normalize_addresses s.whitelist) >>= λ whitelist.
    wrap permanent_error (normalize_addresses s.permanent_bans) >>= λ permanent.
    collect_bans now [] s.temporary_bans >>= λ temporary. ok (record {
      whitelist = whitelist;
      permanent_bans = permanent;
      temporary_bans = sort_by ban_leb (bans_of temporary);
    })
