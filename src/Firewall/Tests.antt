-- ===== src/Firewall/Tests.antt =====
-- The firewall at concrete inputs: a backend that keeps its rules in a text.
use digitdojo_shield.Prelude.{
  ℕ, ◌≡◌, ◌↔◌, refl, subst, ok-injective, Bool, true, false, List, [], ◌∷◌, Option, none, some,
  arith, Text, text, text_beq, text_eq, Result, ok, err, lookup, put, has,
}
use digitdojo_shield.Firewall.Address.{
  addr_eq, v4, unmap, normalize_address, is_unsafe, is_unspecified, is_loopback, is_multicast,
  is_link_local_unicast, is_link_local_multicast,
}
use digitdojo_shield.Firewall.Backend.{
  TemporaryBan, DesiredState, empty_state, normalize, normalize_addresses, collect, collect_bans,
  record_ban,
}
use digitdojo_shield.Firewall.Backend.Normalize.{
  IsNormal, normalize-IsNormal, normalize_members, expiry_of, latest,
}
use digitdojo_shield.Firewall.Backend.Accept.{IsAccepted, normalize_accepts_iff}
use digitdojo_shield.Firewall.Contract.{
  returns, panics, Context, background, Backend, Registration, nftables,
}
use digitdojo_shield.Firewall.Registry.{
  Registry, register, register_all, new_registry, insert, resolve, resolve_unless, resolve_live,
  instantiate, empty_registry,
}
use digitdojo_shield.Firewall.Registry.Choice.{IsChosen, resolve-IsChosen}
use digitdojo_shield.Firewall.Controller.{Controller, new_controller, reconcile}
use digitdojo_shield.Firewall.Registry.Order.{IsValid, new_registry-IsValid}
use digitdojo_shield.Firewall.Controller.Rollback.{
  IsLawful, IsLawfulWorld, Outcome, IsCarriedOut, reconcile-Outcome,
}

-- A ban of 8.8.8.8 under two of its forms, one of which has run out at 5.
abbrev wanted : DesiredState
wanted = record {
  whitelist = v4 0x01010101 ∷ [];
  permanent_bans = [];
  temporary_bans =
      record { address = v4 0x08080808; expires_at = 9 }
      ∷ record { address = v4 0x08080808; expires_at = 3 }
      ∷ [];
}

abbrev normal : DesiredState
normal = record {
  whitelist = v4 0x01010101 ∷ [];
  permanent_bans = [];
  temporary_bans = record { address = v4 0x08080808; expires_at = 9 } ∷ [];
}

wanted-normal : normalize 5 wanted ≡ ok normal
unfolding normalize normalize_address is_unsafe is_unspecified unmap is_loopback is_multicast
    is_link_local_unicast is_link_local_multicast digitdojo_shield.Prelude.sort_by
    digitdojo_shield.Prelude.add_key put lookup
wanted-normal = refl

normalize-IsNormal_example : IsNormal 5 normal
normalize-IsNormal_example = normalize-IsNormal 5 wanted normal wanted-normal

normalize_members_example :
    (has (v4 0x08080808) normal.whitelist ≡ has (v4 0x08080808) (v4 0x01010101 ∷ []))
    × (has (v4 0x08080808) normal.permanent_bans ≡ has (v4 0x08080808) [])
    × (expiry_of (v4 0x08080808) normal.temporary_bans
        ≡ latest 5 (v4 0x08080808) wanted.temporary_bans)
unfolding unmap
normalize_members_example = normalize_members 5 wanted normal (v4 0x08080808) wanted-normal

normalize_accepts_iff_example :
    ((n : DesiredState) × (normalize 5 wanted ≡ ok n)) ↔ IsAccepted wanted
normalize_accepts_iff_example = normalize_accepts_iff 5 wanted

-- The reconcile of this backend damages the rules and panics.
abbrev toy : Backend Text
toy = record {
  name = returns nftables;
  snapshot = λ ctx w. (returns (ok (record { backend = nftables; content = w })), w);
  reconcile = λ ctx d w. (panics (text "boom"), 1 ∷ w);
  inspect = λ ctx w. (returns (ok empty_state), w);
  restore = λ ctx s w. (returns none, s.content);
  cleanup = λ ctx w. (returns none, []);
}

abbrev toy_registration : Registration Text
toy_registration = record {
  probe = some (record {
    name = returns nftables;
    detect = λ ctx. returns (record {
      name = nftables;
      detected = true;
      implemented = true;
      commands = [];
      missing = [];
      reason = [];
    });
  });
  factory = some (λ w. (returns (ok (some toy)), w));
}

abbrev toy_registry : Registry Text
toy_registry = record { entries = (nftables, toy_registration) ∷ []; order = nftables ∷ [] }

toy_registry_new : new_registry (toy_registration ∷ []) ≡ ok toy_registry
unfolding new_registry digitdojo_shield.Firewall.Backend.Names.parse_name text_beq
toy_registry_new = refl

inserted : insert nftables toy_registration empty_registry ≡ ok toy_registry
unfolding lookup put
inserted = refl

resolved : (resolve (some background) nftables toy_registry []).0 ≡ ok toy
unfolding resolve text_beq
resolved = refl

resolve-IsChosen_example : IsChosen background toy_registry nftables toy
resolve-IsChosen_example = resolve-IsChosen background nftables toy_registry [] toy resolved

abbrev inert : Controller Text
inert = record { registry = toy_registry; selected = nftables; enabled = false }

inert_new : new_controller (some toy_registry) nftables ≡ ok inert
unfolding new_controller digitdojo_shield.Firewall.Backend.Names.parse_name text_beq lookup
inert_new = refl

abbrev live_controller : Controller Text
live_controller = record inert { enabled = true }

abbrev whole : Text → Text
whole w = w

toy-IsLawful : IsLawful whole toy
toy-IsLawful = record { snapshot_reads = λ ctx w. refl; restores = λ ctx ctx' w v s h q. cc }

resolve_unless_toy :
    (o : Option Text) (ctx : Context) (w : Text) (b : Backend Text)
    → (resolve_unless o ctx nftables toy_registry w).0 ≡ ok b
    → IsLawful whole b
unfolding text_beq lookup digitdojo_shield.Firewall.Registry.detect_safely instantiate
resolve_unless_toy (some m) ctx w b h = cc
resolve_unless_toy none ctx w b h = subst (IsLawful whole) (ok-injective h) toy-IsLawful

resolve_unless_reads :
    (o : Option Text) (ctx : Context) (w : Text)
    → (resolve_unless o ctx nftables toy_registry w).1 ≡ w
unfolding text_beq lookup digitdojo_shield.Firewall.Registry.detect_safely instantiate
resolve_unless_reads (some m) ctx w = refl
resolve_unless_reads none ctx w = refl

toy_world : IsLawfulWorld whole toy_registry nftables
unfolding resolve
toy_world = record {
  lawful = λ ctx w b h. resolve_unless_toy ctx.cancelled ctx w b h;
  creation_reads = λ ctx w. resolve_unless_reads ctx.cancelled ctx w;
}

reconcile-Outcome_example :
    let r = reconcile live_controller (some background) 5 wanted (7 ∷ []) in
    Outcome whole live_controller background (λ b. b.reconcile background normal) (7 ∷ []) r
    × IsCarriedOut live_controller background (λ b. b.reconcile background normal) (7 ∷ []) r
reconcile-Outcome_example =
    reconcile-Outcome whole live_controller toy_world background 5 wanted normal (7 ∷ [])
      wanted-normal

new_registry-IsValid_example : IsValid toy_registry
new_registry-IsValid_example =
    new_registry-IsValid (toy_registration ∷ []) toy_registry toy_registry_new
