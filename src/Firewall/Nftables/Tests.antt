-- ===== src/Firewall/Nftables/Tests.antt =====
-- The nftables backend at concrete inputs.
use digitdojo_shield.Firewall.Contract.{Snapshot, nftables}
use digitdojo_shield.Prelude.{
  ◌+◌, ℕ, ◌≡◌, refl, true, false, [], ◌∷◌, Option, some, arith, if◌then◌else◌, Text, text, text_beq,
  Result, ok, err, is_some, eqb,
}
use digitdojo_shield.Firewall.Address.{
  Addr, no_addr, v4, v6, addr_beq, addr_leb, is_unspecified, is_loopback, is_multicast,
  is_link_local_unicast, is_link_local_multicast, is_unsafe, unmap,
}
use digitdojo_shield.Firewall.Backend.{empty_state}
use digitdojo_shield.Firewall.Nftables.Render.{Show, render_normalized}
use digitdojo_shield.Firewall.Nftables.Parse.{parse_ruleset}
use digitdojo_shield.Firewall.Nftables.Listing.{
  Content, IsContent, IsLawfulShow, listing, state_of, parse_ruleset-listing,
}
use digitdojo_shield.Firewall.Nftables.Driver.{
  Lib, Command, list_tables, list_table, check, apply, table_line, restore,
}
use digitdojo_shield.Firewall.Nftables.Guarded.{
  logged, IsGuarded, IsDone, snapshotting, reconciling, serve_all, serve_all-IsGuarded,
}
use digitdojo_shield.Firewall.Nftables.Probe.{
  Version, check_nft_version, effective_capabilities, cut_prefix,
}

show_addr : Addr → Text
show_addr no_addr = []
show_addr (v4 n) = 4 ∷ n ∷ []
show_addr (v6 n z) = 6 ∷ n ∷ z

read_addr : Text → Result Text Addr
read_addr (f ∷ n ∷ z) = if eqb f 4 then ok (v4 n) else ok (v6 n z)
read_addr t = err t

abbrev shown : Show
shown = record { addr = show_addr; number = λ n. n ∷ [] }

shown-lawful : IsLawfulShow shown read_addr
unfolding show_addr read_addr addr_beq
shown-lawful no_addr c = cc (c.1)
shown-lawful (v4 n) c = refl
shown-lawful (v6 n z) c = refl

-- 8.8.8.8 and 2001:db8::1 accepted, 9.9.9.9 dropped, 8.8.4.4 dropped for a while.
abbrev content : Content
content = record {
  whitelist = v4 0x08080808 ∷ v6 0x20010db8000000000000000000000001 [] ∷ [];
  permanent = v4 0x09090909 ∷ [];
  temporary = (v4 0x08080404, 30) ∷ [];
}

content-IsContent : IsContent content
unfolding addr_beq addr_leb is_unsafe unmap is_unspecified is_loopback is_multicast
    is_link_local_unicast is_link_local_multicast text_beq
content-IsContent = record {
  whitelist_ascending = (((refl, refl), tt), (tt, tt));
  whitelist_canonical = ((refl, refl, refl), ((refl, refl, refl), tt));
  permanent_ascending = (tt, tt);
  permanent_canonical = ((refl, refl, refl), tt);
  temporary_ascending = (tt, tt);
  temporary_canonical = (((refl, refl, refl), omega arith), tt);
}

parse_ruleset-listing_example :
    parse_ruleset read_addr 7 (ok (listing shown content)) ≡ ok (state_of 7 content)
parse_ruleset-listing_example =
    parse_ruleset-listing shown read_addr shown-lawful 7 content content-IsContent

-- An nft that checks everything and takes nothing.
abbrev refusing : Command → Text → ℕ → Result Text Text × ℕ
refusing list_tables program w = (ok table_line, w + 1)
refusing list_table program w = (ok [], w + 1)
refusing check program w = (ok [], w + 1)
refusing apply program w = (err (text "busy"), w + 1)

abbrev small : Lib ℕ
small = record {
  run = refusing;
  now = λ w. w;
  split_lines = λ t. t ∷ [];
  show = shown;
  parse_addr = read_addr;
  unmarshal_listing = λ t. ok (listing shown content);
  marshal = λ d. ok [];
  unmarshal = λ t. ok (record { version = 1; present = false; state = empty_state });
  show_parse_error = λ e. [];
}

abbrev held : Snapshot
held = record { backend = nftables; content = [] }

serve_all-IsGuarded_example :
    let w = serve_all small (snapshotting ∷ reconciling empty_state ∷ []) (3, []) in
    IsGuarded w.1 × IsDone small (restore (logged small) held w)
serve_all-IsGuarded_example =
    serve_all-IsGuarded small (snapshotting ∷ reconciling empty_state ∷ []) held 3

abbrev found_version : Text → Result Text (Option Version)
found_version path = ok (some (record { major = 1; minor = 1; patch = 0 }))

abbrev nft_path : Text → Option Text
nft_path c = some (text "/usr/sbin/nft")

old_version_test :
    check_nft_version (ok (some (record { major = 1; minor = 0; patch = 8 })))
    ≡ err (text "unsupported nftables version")
unfolding check_nft_version
old_version_test = refl

capability_test :
    effective_capabilities (λ t. ok 4096) (text "Name:\tx" ∷ text "CapEff:\t1000" ∷ []) ≡ ok 4096
unfolding effective_capabilities
capability_test = refl

-- The program for the empty state begins with the table and its sets.
render_test :
    is_some (
      cut_prefix
        (text
          "destroy table inet digitdojo_shield\nadd table inet digitdojo_shield\nadd set inet digitdojo_shield whitelist_v4 { type ipv4_addr; }\n")
        (render_normalized shown 0 empty_state))
    ≡ true
unfolding render_normalized cut_prefix
render_test = refl
