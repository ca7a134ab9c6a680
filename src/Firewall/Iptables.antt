-- ===== src/Firewall/Iptables.antt =====
-- internal/firewall/iptables/probe.go: which of the commands of iptables are there.
pub mod Tests
use digitdojo_shield.Prelude.{
  ℕ, ◌≡◌, ◌↔◌, ◌⊎◌, inl, inr, refl, sym, ◌∙◌, ap, Bool, true, false, not, ◌&&◌, ◌||◌, List, [], ◌∷◌,
  ◌++◌, Option, none, some, arith, if◌then◌else◌, has, has-append, put, sort, sort_by, has-sort,
  length, eqb, is_some, All, Bool-cases, Text, text, text_eq, text_ord, text_beq, text_beq_iff,
}
use digitdojo_shield.Firewall.Contract.{Context, Capability, iptables}

abbrev pub required_commands : List Text
required_commands =
    text "iptables"
    ∷ text "iptables-restore"
    ∷ text "iptables-save"
    ∷ text "ip6tables"
    ∷ text "ip6tables-restore"
    ∷ text "ip6tables-save"
    ∷ []

-- The loop over the commands: those that are missing and the paths of the others.
module _ (look : Text → Option Text) where
  abbrev located :
      Text → Option Text → List Text × List (Text × Text) → List Text × List (Text × Text)
  located c none (missing, commands) = (missing ++ c ∷ [], commands)
  located c (some path) (missing, commands) = (missing, put c path commands)

  unfoldable pub locate_all :
      List Text → List Text × List (Text × Text) → List Text × List (Text × Text)
  unfolding put
  locate_all [] acc = acc
  locate_all (c ∷ cs) acc = locate_all cs (located c (look c) acc)

abbrev is_empty : List Text → Bool
is_empty [] = true
is_empty (c ∷ cs) = false

abbrev pub capability_of : List Text × List (Text × Text) → Capability
capability_of (missing, commands) =
    let sorted = sort text_ord missing in
    record {
      name = iptables;
      detected = is_empty sorted;
      implemented = false;
      commands = commands;
      missing = sorted;
      reason =
          if is_empty sorted
          then text "IPv4 and IPv6 iptables commands detected; kernel behavior is unverified"
          else text "required IPv4 or IPv6 iptables commands are missing";
    }

abbrev without_locator : Text → List Text → Capability
without_locator reason missing = record {
  name = iptables;
  detected = false;
  implemented = false;
  commands = [];
  missing = missing;
  reason = reason;
}

abbrev detect_live : Option (Text → Option Text) → Option Text → Capability
detect_live locator (some e) = without_locator e []
detect_live none none = without_locator (text "command locator is unavailable") required_commands
detect_live (some look) none = capability_of (locate_all look required_commands ([], []))

-- Detect
unfoldable pub detect : Option (Text → Option Text) → Context → Capability
unfolding locate_all sort_by
detect locator ctx = detect_live locator ctx.cancelled

module _ (look : Text → Option Text) where
  is_some_cong : (m c : Text) → text_beq m c ≡ true → is_some (look m) ≡ is_some (look c)
  is_some_cong m c h = ap (λ (t : Text). is_some (look t)) ((text_beq_iff m c).0 h)

  missing_lem :
      (cs ms : List Text) (ps : List (Text × Text)) (m : Text)
      → has m (locate_all look cs (ms, ps)).0 ≡ (has m ms || (has m cs && not (is_some (look m))))
  unfolding locate_all has
  missing_lem [] ms ps m = ground arith
  missing_lem (c ∷ cs) ms ps m = one (look c) refl (λ ns qs. missing_lem cs ns qs m)
    where
      one :
          (o : Option Text)
          → look c ≡ o
          → ((ns : List Text) (qs : List (Text × Text))
              → has m (locate_all look cs (ns, qs)).0
                ≡ (has m ns || (has m cs && not (is_some (look m)))))
          → has m (locate_all look cs (located look c o (ms, ps))).0
            ≡ (has m ms || ((text_beq m c || has m cs) && not (is_some (look m))))
      one none e rest =
          let absent : is_some (look c) ≡ false = rw e refl in
          let same = is_some_cong m c in
          rest (ms ++ c ∷ []) ps ∙ ground (arith, has-append m ms (c ∷ []), same, absent)
      one (some path) e rest =
          let present : is_some (look c) ≡ true = rw e refl in
          let same = is_some_cong m c in rest ms (put c path ps) ∙ ground (arith, same, present)

empty_lem : (xs : List Text) → (is_empty xs ≡ true) ↔ ((m : Text) → has m xs ≡ false)
unfolding has
empty_lem [] = (λ h m. refl, λ h. refl)
empty_lem (x ∷ xs) = (λ h. cc, λ h. ground (arith, h x, text_beq_iff x x))

-- With a locator and a live context, the probe's missing commands are the required ones that the
-- locator does not find, and iptables is detected exactly when it finds them all.
pub detect-missing :
    (look : Text → Option Text) (ctx : Context)
    → ctx.cancelled ≡ none
    → let c = detect (some look) ctx in
      ((m : Text) → has m c.missing ≡ (has m required_commands && not (is_some (look m))))
      × ((c.detected ≡ true)
          ↔ ((m : Text) → has m required_commands ≡ true → is_some (look m) ≡ true))
unfolding detect has
detect-missing look ctx live = rw live (
  missing,
  (
    (λ h m r. found m r ((empty_lem sorted).0 h m)),
    (λ h. (empty_lem sorted).1 (λ m. none_left m (h m))),
  ),
)
  where
    sorted : List Text
    sorted = sort text_ord (locate_all look required_commands ([], [])).0

    missing :
        (m : Text)
        → has m (sort text_ord (locate_all look required_commands ([], [])).0)
          ≡ (has m required_commands && not (is_some (look m)))
    missing m =
        has-sort text_ord m (locate_all look required_commands ([], [])).0
        ∙ missing_lem look required_commands [] [] m

    found :
        (m : Text)
        → has m required_commands ≡ true
        → has m (sort text_ord (locate_all look required_commands ([], [])).0) ≡ false
        → is_some (look m) ≡ true
    found m r e = ground (arith, missing m)

    none_left :
        (m : Text)
        → (has m required_commands ≡ true → is_some (look m) ≡ true)
        → has m (sort text_ord (locate_all look required_commands ([], [])).0) ≡ false
    none_left m h = ground (arith, missing m)
