-- ===== src/Firewall/Contract.antt =====
-- internal/firewall: the interfaces of backend.go (Probe, Backend, Factory), the errors of
-- registry.go and controller.go, and a call that may panic. `W` is the world that the calls of a
-- backend act on.
use digitdojo_shield.Prelude.{ℕ, Bool, List, Option, none, Text, text, Result}
use digitdojo_shield.Firewall.Backend.{DesiredState, NormalizeError}

-- A Go call: a result, or a panic with its value as text.
pub data Call (A : Type 0) : Type 0 where
  returns : A → Call A
  panics : Text → Call A

-- A context.Context: what `Err` returns, and the time that is left, if it has a timeout.
pub record Context : Type 0 where
  pub cancelled : Option Text
  pub timeout : Option ℕ

abbrev pub background : Context
background = record { cancelled = none; timeout = none }

pub record Snapshot : Type 0 where
  pub backend : Text
  pub content : Text

pub record Capability : Type 0 where
  pub name : Text
  pub detected : Bool
  pub implemented : Bool
  pub commands : List (Text × Text)
  pub missing : List Text
  pub reason : Text

-- Errors as data. `opaque_error` is an error of a backend, a factory or a context.
pub data Error : Type 0 where
  opaque_error : Text → Error
  registry_required probe_required auto_reserved no_ready_backend enforcement_disabled
        context_required :
      Error
  bad_name probe_name_panic not_registered already_registered not_implemented : Text → Error
  not_detected : Text → Text → Error
  factory_error : Text → Error → Error
  factory_panic : Text → Text → Error
  factory_nil : Text → Error
  factory_mismatch : Text → Text → Error
  bad_state : NormalizeError → Error
  name_panic snapshot_panic inspect_panic restore_panic operation_panic : Text → Error
  snapshot_failed : Error → Error
  snapshot_mismatch : Text → Text → Error
  restore_failed : Error → Error → Error

-- The interface Probe.
pub record Probe : Type 0 where
  pub name : Call Text
  pub detect : Context → Call Capability

-- The interface Backend.
pub record Backend (W : Type 0) : Type 0 where
  pub name : Call Text
  pub snapshot : Context → W → Call (Result Error Snapshot) × W
  pub reconcile : Context → DesiredState → W → Call (Option Error) × W
  pub inspect : Context → W → Call (Result Error DesiredState) × W
  pub restore : Context → Snapshot → W → Call (Option Error) × W
  pub cleanup : Context → W → Call (Option Error) × W

-- The type Factory; it may return a nil backend.
abbrev pub Factory : Type 0 → Type 0
Factory W = W → Call (Result Error (Option (Backend W))) × W

pub record Registration (W : Type 0) : Type 0 where
  pub probe : Option Probe
  pub factory : Option (Factory W)

abbrev pub auto : Text
auto = text "auto"

abbrev pub nftables : Text
nftables = text "nftables"

abbrev pub iptables : Text
iptables = text "iptables"
