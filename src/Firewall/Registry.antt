-- ===== src/Firewall/Registry.antt =====
-- internal/firewall/registry.go: registered backends, their detection and their creation.
pub mod Order
pub mod Choice
use digitdojo_shield.Prelude.{
  ◌≡◌, Bool, true, false, not, ◌&&◌, List, [], ◌∷◌, ◌++◌, Option, none, some, arith, if◌then◌else◌,
  has, is_some, lookup, put, Text, text, text_beq, text_eq, text_ord, sort, sort_by, Result, ok,
  err, ◌>>=◌,
}
use digitdojo_shield.Firewall.Backend.Names.{parse_name}
use digitdojo_shield.Firewall.Contract.{
  Call, returns, panics, Context, background, Capability, Error, opaque_error, probe_required,
  auto_reserved, no_ready_backend, context_required, bad_name, probe_name_panic, not_registered,
  already_registered, not_implemented, not_detected, factory_error, factory_panic, factory_nil,
  factory_mismatch, Probe, Backend, Factory, Registration, auto,
}

pub record Registry (W : Type 0) : Type 0 where
  pub entries : List (Text × Registration W)
  pub order : List Text

abbrev pub empty_registry : {W : Type 0} → Registry W
empty_registry = record { entries = []; order = [] }

-- probeNameSafely
unfoldable pub probe_name_safely : Probe → Result Error Text
probe_name_safely p = elim p.name [ returns name ↦ ok name | panics m ↦ err (probe_name_panic m) ]

abbrev pub check_name : Text → Result Error Text
check_name name = elim (parse_name name) [ ok n ↦ ok name | err e ↦ err (bad_name name) ]

abbrev pub probe_of : {W : Type 0} → Registration W → Result Error Probe
probe_of r = elim r.probe [ none ↦ err probe_required | some p ↦ ok p ]

-- The part of Register under the lock.
abbrev pub insert : {W : Type 0} → Text → Registration W → Registry W → Result Error (Registry W)
insert name registration r =
    if is_some (lookup name r.entries)
    then err (already_registered name)
    else ok (record { entries = put name registration r.entries; order = r.order ++ name ∷ [] })

unfoldable pub register : {W : Type 0} → Registration W → Registry W → Result Error (Registry W)
unfolding probe_name_safely lookup put
register registration r = probe_of registration >>= λ p. probe_name_safely p >>= λ name.
    check_name name >>= λ _.
    if text_beq name auto then err auto_reserved else insert name registration r

-- The loop of NewRegistry.
unfoldable pub register_all :
    {W : Type 0} → List (Registration W) → Registry W → Result Error (Registry W)
unfolding register
register_all [] r = ok r
register_all (x ∷ xs) r = register x r >>= λ r'. register_all xs r'

unfoldable pub has_backend : {W : Type 0} → Text → Registry W → Bool
has_backend name r = is_some (lookup name r.entries)

-- NewRegistry
unfoldable pub new_registry : {W : Type 0} → List (Registration W) → Result Error (Registry W)
unfolding register_all
new_registry registrations = register_all registrations empty_registry

abbrev probe_panic : Text → Text → Capability
probe_panic name m = record {
  name = name;
  detected = false;
  implemented = false;
  commands = [];
  missing = [];
  reason = text "capability probe panic: " ++ m;
}

-- detectSafely; a call through a nil probe panics.
unfoldable pub detect_safely : Text → Option Probe → Context → Capability
detect_safely name none ctx =
    probe_panic name (text "runtime error: invalid memory address or nil pointer dereference")
detect_safely name (some p) ctx = elim (p.detect ctx) [
  | returns c ↦ c
  | panics m ↦ probe_panic name m
]

-- r.entries[name], the zero Registration if there is none.
abbrev pub entry : {W : Type 0} → Text → Registry W → Registration W
entry name r = elim (lookup name r.entries) [
  | none ↦ record { probe = none; factory = none }
  | some x ↦ x
]

abbrev pub capability_of : {W : Type 0} → Context → Text → Registration W → Capability
capability_of ctx name x = record (detect_safely name x.probe ctx) {
  name = name;
  implemented = is_some x.factory;
}

unfoldable pub detect_from : {W : Type 0} → Context → Registry W → List Text → List Capability
unfolding detect_safely lookup
detect_from ctx r [] = []
detect_from ctx r (name ∷ names) = capability_of ctx name (entry name r) ∷ detect_from ctx r names

-- Detect; a nil context stands for the background one.
unfoldable pub detect : {W : Type 0} → Option Context → Registry W → List Capability
unfolding detect_from
detect none r = detect_from background r r.order
detect (some ctx) r = detect_from ctx r r.order

-- The checks of instantiate on what the factory made.
abbrev pub accept :
    {W : Type 0} → Text → Call (Result Error (Option (Backend W))) → Result Error (Backend W)
accept name (panics m) = err (factory_panic name m)
accept name (returns (err e)) = err (factory_error name e)
accept name (returns (ok none)) = err (factory_nil name)
accept name (returns (ok (some b))) = elim b.name [
  | panics m ↦ err (factory_panic name m)
  | returns n ↦ if text_beq n name then ok b else err (factory_mismatch name n)
]

abbrev pub make : {W : Type 0} → Text → Option (Factory W) → W → Result Error (Backend W) × W
make name none w = (err (not_implemented name), w)
make name (some factory) w = (accept name (factory w).0, (factory w).1)

unfoldable pub instantiate : {W : Type 0} → Text → Registry W → W → Result Error (Backend W) × W
unfolding lookup
instantiate name r w = make name (entry name r).factory w

abbrev pub is_ready : Capability → Bool
is_ready c = c.detected && c.implemented

-- The first capability that is detected and implemented.
unfoldable pub first_ready : List Capability → Option Text
first_ready [] = none
first_ready (c ∷ cs) = if is_ready c then some c.name else first_ready cs

abbrev pub resolve_auto : {W : Type 0} → Context → Registry W → W → Result Error (Backend W) × W
resolve_auto ctx r w = elim (first_ready (detect (some ctx) r)) [
  | none ↦ (err no_ready_backend, w)
  | some name ↦ instantiate name r w
]

abbrev pub resolve_entry :
    {W : Type 0}
    → Context
    → Text
    → Option (Registration W)
    → Registry W
    → W
    → Result Error (Backend W) × W
resolve_entry ctx name none r w = (err (not_registered name), w)
resolve_entry ctx name (some x) r w =
    if not (detect_safely name x.probe ctx).detected
    then (err (not_detected name (detect_safely name x.probe ctx).reason), w)
    else if not (is_some x.factory)
    then (err (not_implemented name), w)
    else instantiate name r w

abbrev pub resolve_live :
    {W : Type 0} → Context → Text → Registry W → W → Result Error (Backend W) × W
resolve_live ctx requested r w =
    if text_beq requested auto
    then resolve_auto ctx r w
    else resolve_entry ctx requested (lookup requested r.entries) r w

-- Resolve, past the check of a nil context: on what `ctx.Err` says.
abbrev pub resolve_unless :
    {W : Type 0} → Option Text → Context → Text → Registry W → W → Result Error (Backend W) × W
resolve_unless (some cause) ctx requested r w = (err (opaque_error cause), w)
resolve_unless none ctx requested r w = resolve_live ctx requested r w

unfoldable pub resolve :
    {W : Type 0} → Option Context → Text → Registry W → W → Result Error (Backend W) × W
unfolding lookup detect first_ready instantiate
resolve none requested r w = (err context_required, w)
resolve (some ctx) requested r w = resolve_unless ctx.cancelled ctx requested r w

abbrev status : Capability → Text
status c =
    if is_ready c
    then text "implemented"
    else if c.detected
    then text "detected"
    else text "missing"

abbrev pub describe_all : List Capability → List Text
describe_all [] = []
describe_all (c ∷ cs) = (c.name ++ text "=" ++ status c) ∷ describe_all cs

-- strings.Join(parts, " ")
unfoldable pub join_words : List Text → Text
join_words [] = []
join_words (w ∷ []) = w
join_words (w ∷ v ∷ rest) = w ++ text " " ++ join_words (v ∷ rest)

unfoldable pub describe : {W : Type 0} → Option Context → Text → Registry W → Text
unfolding join_words detect sort_by
describe ctx selected r = join_words (
    (text "selected=" ++ selected)
    ∷ text "enforcement=disabled"
    ∷ sort text_ord (describe_all (detect ctx r)))
