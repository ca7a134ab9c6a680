-- ===== src/Firewall/Nftables/Parse.antt =====
-- parseRulesetJSON of internal/firewall/nftables/backend.go, on the JSON that encoding/json decoded:
-- what is left of an object of the listing is whether it has a set, of an element its kind.
use digitdojo_shield.Prelude.{
  ℕ, ◌+◌, ◌*◌, not, ◌&&◌, List, [], ◌∷◌, ◌++◌, Option, none, some, if◌then◌else◌, lookup, put,
  above, pos_part, sort_by, ℤ, Text, text, text_beq, text_eq, Result, ok, err, ◌>>=◌,
}
use digitdojo_shield.Firewall.Address.{Addr}
use digitdojo_shield.Firewall.Backend.{TemporaryBan, DesiredState, ban_leb}
use digitdojo_shield.Firewall.Nftables.Render.{table_name, second}

-- A JSON value in the list of a set's elements: a string, an object with the member `elem`, whose
-- value is a string or not, or another value.
pub data Element : Type 0 where
  plain : Text → Element
  wrapped : Text → ℤ → Element
  wrapped_other unsupported : Element

pub record NftSet : Type 0 where
  pub family : Text
  pub table : Text
  pub name : Text
  pub elem : List Element

pub data NftObject : Type 0 where
  other : NftObject
  set_object : NftSet → NftObject
  bad_set : Text → NftObject

pub data ParseError : Type 0 where
  bad_json bad_address : Text → ParseError
  unsupported_element bad_value : ParseError
  no_remaining_expiry : Addr → ParseError
  in_set : Text → ParseError → ParseError

-- The loop over the objects of the listing.
unfoldable pub collect_sets :
    List NftObject → List (Text × List Element) → Result ParseError (List (Text × List Element))
unfolding put text_beq
collect_sets [] sets = ok sets
collect_sets (other ∷ rest) sets = collect_sets rest sets
collect_sets (bad_set e ∷ rest) sets = err (bad_json e)
collect_sets (set_object s ∷ rest) sets = collect_sets rest (
    if text_beq s.family (text "inet") && text_beq s.table table_name
    then put s.name s.elem sets
    else sets)

abbrev pub elements_of : Option (List Element) → List Element
elements_of none = []
elements_of (some es) = es

abbrev pub for_set : {A : Type 0} → Text → Result ParseError A → Result ParseError A
for_set name (ok a) = ok a
for_set name (err e) = err (in_set name e)

-- `parse_addr` is netip.ParseAddr.
module _ (parse_addr : Text → Result Text Addr) where
  abbrev parsed : ℤ → Result Text Addr → Result ParseError (Addr × ℤ)
  parsed expires (ok a) = ok (a, expires)
  parsed expires (err e) = err (bad_address e)

  -- parseElement
  unfoldable pub parse_element : Element → Result ParseError (Addr × ℤ)
  parse_element (plain t) = parsed (ℤ.pos 0) (parse_addr t)
  parse_element (wrapped t expires) = parsed expires (parse_addr t)
  parse_element wrapped_other = err bad_value
  parse_element unsupported = err unsupported_element

  -- parseAddressElements
  unfoldable pub parse_address_elements : List Element → Result ParseError (List Addr)
  unfolding parse_element
  parse_address_elements [] = ok []
  parse_address_elements (e ∷ es) =
      parse_element e >>= λ p. parse_address_elements es >>= λ rest. ok (p.0 ∷ rest)

  -- parseTemporaryElements
  unfoldable pub parse_temporary_elements : ℕ → List Element → Result ParseError (List TemporaryBan)
  unfolding parse_element
  parse_temporary_elements now [] = ok []
  parse_temporary_elements now (e ∷ es) = parse_element e >>= λ p.
      if not (above 0 p.1)
      then err (no_remaining_expiry p.0)
      else parse_temporary_elements now es >>= λ rest.
          ok (record { address = p.0; expires_at = now + pos_part p.1 * second } ∷ rest)

  module _ (now : ℕ) (sets : List (Text × List Element)) where
    abbrev pub address_list : Text → Result ParseError (List Addr)
    address_list name = for_set name (parse_address_elements (elements_of (lookup name sets)))

    abbrev pub ban_list : Text → Result ParseError (List TemporaryBan)
    ban_list name = for_set name (parse_temporary_elements now (elements_of (lookup name sets)))

    -- The state of the sets that were found.
    unfoldable pub parse_sets : Result ParseError DesiredState
    unfolding parse_address_elements parse_temporary_elements lookup
    parse_sets = address_list (text "whitelist_v4") >>= λ w4.
        address_list (text "whitelist_v6") >>= λ w6.
        address_list (text "permanent_bans_v4") >>= λ p4.
        address_list (text "permanent_bans_v6") >>= λ p6.
        ban_list (text "temporary_bans_v4") >>= λ t4. ban_list (text "temporary_bans_v6") >>= λ t6.
        ok (record {
          whitelist = w4 ++ w6;
          permanent_bans = p4 ++ p6;
          temporary_bans = sort_by ban_leb (t4 ++ t6);
        })

  -- parseRulesetJSON, on what json.Unmarshal gives.
  unfoldable pub parse_ruleset : ℕ → Result Text (List NftObject) → Result ParseError DesiredState
  unfolding collect_sets parse_sets sort_by
  parse_ruleset now (err e) = err (bad_json e)
  parse_ruleset now (ok objects) = collect_sets objects [] >>= λ sets. parse_sets now sets
