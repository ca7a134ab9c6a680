-- ===== src/Firewall/Nftables/Render.antt =====
-- internal/firewall/nftables/render.go. The text of an address and of a number are parameters.
use digitdojo_shield.Prelude.{
  ℕ, ◌+◌, ◌-◌, ◌*◌, ◌/◌, ◌^◌, ◌≤◌, ◌<◌, Bool, true, false, not, ◌&&◌, List, [], ◌∷◌, ◌++◌, map,
  Option, none, some, arith, ltb, if◌then◌else◌, keep, Text, text, Result, ok, ◌>>=◌,
}
use digitdojo_shield.Firewall.Address.{Addr, is_4}
use digitdojo_shield.Firewall.Backend.{TemporaryBan, DesiredState, NormalizeError, normalize}

abbrev pub table_name : Text
table_name = text "digitdojo_shield"

abbrev pub base_chain_name : Text
base_chain_name = text "shield_input"

abbrev pub policy_chain_name : Text
policy_chain_name = text "shield_policy"

-- netip.Addr.String and the %d of an int64.
pub record Show : Type 0 where
  pub addr : Addr → Text
  pub number : ℕ → Text

-- A set with its elements, which have a timeout in seconds or none.
pub record SetDecl : Type 0 where
  pub name : Text
  pub elements : List (Addr × Option ℕ)

abbrev pub second : ℕ
second = 10 ^ 9

-- `expires.Sub(now)` in seconds, rounded up.
unfoldable pub timeout_seconds : ℕ → ℕ → ℕ
timeout_seconds now expires = (expires - now + second - 1) / second

-- filterAddresses for IPv4, and for the others.
abbrev pub ipv4_addresses : List Addr → List Addr
ipv4_addresses = keep is_4

abbrev pub ipv6_addresses : List Addr → List Addr
ipv6_addresses = keep λ a. not (is_4 a)

abbrev pub address_set : Text → List Addr → SetDecl
address_set name xs = record { name = name; elements = map (λ a. (a, none)) xs }

-- The loop of writeTemporarySet: the bans of one family that have not run out.
unfoldable pub temporary_elements : Bool → ℕ → List TemporaryBan → List (Addr × Option ℕ)
unfolding is_4 timeout_seconds
temporary_elements ipv4 now [] = []
temporary_elements ipv4 now (b ∷ bs) =
    let rest = temporary_elements ipv4 now bs in
    if (if ipv4 then is_4 b.address else not (is_4 b.address)) && ltb now b.expires_at
    then (b.address, some (timeout_seconds now b.expires_at)) ∷ rest
    else rest

abbrev pub temporary_set : Text → Bool → ℕ → List TemporaryBan → SetDecl
temporary_set name ipv4 now bans = record {
  name = name;
  elements = temporary_elements ipv4 now bans;
}

module _ (show : Show) where
  abbrev show_element : Addr × Option ℕ → Text
  show_element (a, none) = show.addr a
  show_element (a, some seconds) =
      show.addr a ++ text " timeout " ++ show.number seconds ++ text "s"

  abbrev more_elements : List (Addr × Option ℕ) → Text
  more_elements [] = text " }; "
  more_elements (e ∷ es) = text ", " ++ show_element e ++ more_elements es

  abbrev show_elements : List (Addr × Option ℕ) → Text
  show_elements [] = []
  show_elements (e ∷ es) = text " elements = { " ++ show_element e ++ more_elements es

  -- writeAddressSet and writeTemporarySet, whose `flags` is " flags timeout;".
  unfoldable pub write_set : Text → Text → SetDecl → Text
  write_set address_type flags d =
      text "add set inet "
      ++ table_name
      ++ text " "
      ++ d.name
      ++ text " { type "
      ++ address_type
      ++ text ";"
      ++ flags
      ++ show_elements d.elements
      ++ text " }\n"

  abbrev rule : Text → Text
  rule match =
      text "add rule inet "
      ++ table_name
      ++ text " "
      ++ policy_chain_name
      ++ text " "
      ++ match
      ++ text "\n"

  -- The program for a normalized state.
  unfoldable pub render_normalized : ℕ → DesiredState → Text
  unfolding write_set temporary_elements is_4
  render_normalized now n =
      text "destroy table inet "
      ++ table_name
      ++ text "\n"
      ++ text "add table inet "
      ++ table_name
      ++ text "\n"
      ++ write_set (text "ipv4_addr") []
          (address_set (text "whitelist_v4") (ipv4_addresses n.whitelist))
      ++ write_set (text "ipv6_addr") []
          (address_set (text "whitelist_v6") (ipv6_addresses n.whitelist))
      ++ write_set (text "ipv4_addr") []
          (address_set (text "permanent_bans_v4") (ipv4_addresses n.permanent_bans))
      ++ write_set (text "ipv6_addr") []
          (address_set (text "permanent_bans_v6") (ipv6_addresses n.permanent_bans))
      ++ write_set (text "ipv4_addr") (text " flags timeout;")
          (temporary_set (text "temporary_bans_v4") true now n.temporary_bans)
      ++ write_set (text "ipv6_addr") (text " flags timeout;")
          (temporary_set (text "temporary_bans_v6") false now n.temporary_bans)
      ++ text "add chain inet "
      ++ table_name
      ++ text " "
      ++ policy_chain_name
      ++ text "\n"
      ++ text "add chain inet "
      ++ table_name
      ++ text " "
      ++ base_chain_name
      ++ text " { type filter hook input priority -10; policy accept; }\n"
      ++ text "add rule inet "
      ++ table_name
      ++ text " "
      ++ base_chain_name
      ++ text " jump "
      ++ policy_chain_name
      ++ text "\n"
      ++ rule (text "ip saddr @whitelist_v4 accept")
      ++ rule (text "ip6 saddr @whitelist_v6 accept")
      ++ rule (text "ip saddr @permanent_bans_v4 drop")
      ++ rule (text "ip6 saddr @permanent_bans_v6 drop")
      ++ rule (text "ip saddr @temporary_bans_v4 drop")
      ++ rule (text "ip6 saddr @temporary_bans_v6 drop")

  -- renderRuleset
  unfoldable pub render_ruleset : ℕ → DesiredState → Result NormalizeError Text
  unfolding normalize render_normalized
  render_ruleset now state = normalize now state >>= λ n. ok (render_normalized now n)

-- The sets of the program for a normalized state.
abbrev pub sets_of : ℕ → DesiredState → List SetDecl
sets_of now n =
    address_set (text "whitelist_v4") (ipv4_addresses n.whitelist)
    ∷ address_set (text "whitelist_v6") (ipv6_addresses n.whitelist)
    ∷ address_set (text "permanent_bans_v4") (ipv4_addresses n.permanent_bans)
    ∷ address_set (text "permanent_bans_v6") (ipv6_addresses n.permanent_bans)
    ∷ temporary_set (text "temporary_bans_v4") true now n.temporary_bans
    ∷ temporary_set (text "temporary_bans_v6") false now n.temporary_bans
    ∷ []

-- For a ban that has not run out, the timeout that is rendered is at least a second, does not end
-- before the ban and ends less than a second after it.
pub timeout_seconds-bounds :
    (now expires : ℕ)
    → now < expires
    → (1 ≤ timeout_seconds now expires)
      × (expires ≤ now + timeout_seconds now expires * second)
      × (now + timeout_seconds now expires * second < expires + second)
unfolding timeout_seconds
timeout_seconds-bounds now expires h = omega arith
