-- ===== src/Firewall/Controller.antt =====
-- internal/firewall/controller.go: the controller, which guards, resolves, snapshots, runs and rolls
-- back. The lock is not modelled: a call runs alone, from its start to its end.
pub mod Rollback
pub mod Gate
use digitdojo_shield.Prelude.{
  ℕ, ◌*◌, ◌^◌, List, Bool, true, false, not, ◌&&◌, Option, none, some, if◌then◌else◌, Text,
  text_beq, Result, ok, err, ◌>>=◌,
}
use digitdojo_shield.Firewall.Backend.{DesiredState, normalize}
use digitdojo_shield.Firewall.Backend.Names.{parse_name}
use digitdojo_shield.Firewall.Contract.{
  Call, returns, panics, Context, Snapshot, Capability, Error, registry_required,
  enforcement_disabled, context_required, bad_name, not_registered, bad_state, name_panic,
  snapshot_panic, inspect_panic, restore_panic, operation_panic, snapshot_failed, snapshot_mismatch,
  restore_failed, Backend, auto,
}
use digitdojo_shield.Firewall.Registry.{Registry, has_backend, detect, resolve, describe}

pub record Controller (W : Type 0) : Type 0 where
  pub registry : Registry W
  pub selected : Text
  pub enabled : Bool

abbrev pub select : {W : Type 0} → Registry W → Bool → Text → Result Error (Controller W)
select registry enabled selected =
    if not (text_beq selected auto) && not (has_backend selected registry)
    then err (not_registered selected)
    else ok (record { registry = registry; selected = selected; enabled = enabled })

-- newController
unfoldable pub new_controller_with :
    {W : Type 0} → Option (Registry W) → Text → Bool → Result Error (Controller W)
unfolding has_backend
new_controller_with none selection enabled = err registry_required
new_controller_with (some registry) selection enabled = elim (parse_name selection) [
  | err e ↦ err (bad_name selection)
  | ok selected ↦ select registry enabled selected
]

-- NewController: enforcement is off.
unfoldable pub new_controller :
    {W : Type 0} → Option (Registry W) → Text → Result Error (Controller W)
unfolding new_controller_with
new_controller registry selection = new_controller_with registry selection false

abbrev pub capabilities : {W : Type 0} → Controller W → Option Context → List Capability
capabilities c ctx = detect ctx c.registry

-- backendNameSafely
abbrev pub name_safely : {W : Type 0} → Backend W → Result Error Text
name_safely b = elim b.name [ returns n ↦ ok n | panics m ↦ err (name_panic m) ]

-- snapshotSafely
abbrev pub snapshot_safely : {W : Type 0} → Backend W → Context → W → Result Error Snapshot × W
snapshot_safely b ctx w = elim (b.snapshot ctx w).0 [
  | returns r ↦ (r, (b.snapshot ctx w).1)
  | panics m ↦ (err (snapshot_panic m), (b.snapshot ctx w).1)
]

-- restoreSafely
abbrev pub restore_safely : {W : Type 0} → Backend W → Context → Snapshot → W → Option Error × W
restore_safely b ctx s w = elim (b.restore ctx s w).0 [
  | returns e ↦ (e, (b.restore ctx s w).1)
  | panics m ↦ (some (restore_panic m), (b.restore ctx s w).1)
]

-- inspectSafely
abbrev pub inspect_safely : {W : Type 0} → Backend W → Context → W → Result Error DesiredState × W
inspect_safely b ctx w = elim (b.inspect ctx w).0 [
  | returns r ↦ (r, (b.inspect ctx w).1)
  | panics m ↦ (err (inspect_panic m), (b.inspect ctx w).1)
]

-- 15 seconds, in nanoseconds.
abbrev pub rollback_timeout : ℕ
rollback_timeout = 15 * 10 ^ 9

-- The context of a rollback: never cancelled, with a timeout of its own.
abbrev pub rollback_context : Context
rollback_context = record { cancelled = none; timeout = some rollback_timeout }

abbrev join_errors : Error → Option Error → Error
join_errors e none = e
join_errors e (some e') = restore_failed e e'

-- The deferred restore, after an operation that failed with an error.
unfoldable pub roll_back : {W : Type 0} → Backend W → Snapshot → Error → W → Option Error × W
roll_back b s e w =
    let (r, w') = restore_safely b rollback_context s w in (some (join_errors e r), w')

-- The deferred function, on the outcome of the operation.
unfoldable pub finish :
    {W : Type 0} → Backend W → Snapshot → Call (Option Error) → W → Option Error × W
unfolding roll_back
finish b s (returns none) w = (none, w)
finish b s (returns (some e)) w = roll_back b s e w
finish b s (panics m) w = roll_back b s (operation_panic m) w

abbrev pub run_guarded :
    {W : Type 0}
    → Backend W
    → Text
    → (W → Call (Option Error) × W)
    → Result Error Snapshot
    → W
    → Option Error × W
run_guarded b name operation (err e) w = (some (snapshot_failed e), w)
run_guarded b name operation (ok s) w =
    if text_beq s.backend name
    then (let (r, w') = operation w in finish b s r w')
    else (some (snapshot_mismatch s.backend name), w)

abbrev pub after_name :
    {W : Type 0}
    → Context
    → Backend W
    → (W → Call (Option Error) × W)
    → Result Error Text
    → W
    → Option Error × W
after_name ctx b operation (err e) w = (some e, w)
after_name ctx b operation (ok name) w =
    let (r, w') = snapshot_safely b ctx w in run_guarded b name operation r w'

unfoldable pub execute_with_rollback :
    {W : Type 0} → Context → Backend W → (W → Call (Option Error) × W) → W → Option Error × W
unfolding finish
execute_with_rollback ctx b operation w = after_name ctx b operation (name_safely b) w

abbrev pub on_backend :
    {W : Type 0}
    → Context
    → (Backend W → W → Call (Option Error) × W)
    → Result Error (Backend W)
    → W
    → Option Error × W
on_backend ctx operation (err e) w = (some e, w)
on_backend ctx operation (ok b) w = execute_with_rollback ctx b (operation b) w

-- The locked part of Reconcile and Cleanup: resolve, then run the operation.
unfoldable pub resolve_and_run :
    {W : Type 0}
    → Controller W
    → Context
    → (Backend W → W → Call (Option Error) × W)
    → W
    → Option Error × W
unfolding execute_with_rollback
resolve_and_run c ctx operation w =
    let (r, w') = resolve (some ctx) c.selected c.registry w in on_backend ctx operation r w'

abbrev pub reconcile_live :
    {W : Type 0} → Controller W → Option Context → ℕ → DesiredState → W → Option Error × W
reconcile_live c none now desired w = (some context_required, w)
reconcile_live c (some ctx) now desired w = elim (normalize now desired) [
  | err e ↦ (some (bad_state e), w)
  | ok s ↦ resolve_and_run c ctx (λ b. b.reconcile ctx s) w
]

-- Reconcile, at the time `now`.
unfoldable pub reconcile :
    {W : Type 0} → Controller W → Option Context → ℕ → DesiredState → W → Option Error × W
unfolding resolve_and_run
reconcile c ctx now desired w =
    if not c.enabled then (some enforcement_disabled, w) else reconcile_live c ctx now desired w

abbrev pub cleanup_live : {W : Type 0} → Controller W → Option Context → W → Option Error × W
cleanup_live c none w = (some context_required, w)
cleanup_live c (some ctx) w = resolve_and_run c ctx (λ b. b.cleanup ctx) w

unfoldable pub cleanup : {W : Type 0} → Controller W → Option Context → W → Option Error × W
unfolding resolve_and_run
cleanup c ctx w = if not c.enabled then (some enforcement_disabled, w) else cleanup_live c ctx w

abbrev pub inspect_backend :
    {W : Type 0} → Context → Result Error (Backend W) → W → Result Error DesiredState × W
inspect_backend ctx (err e) w = (err e, w)
inspect_backend ctx (ok b) w = inspect_safely b ctx w

unfoldable pub inspect :
    {W : Type 0} → Controller W → Option Context → W → Result Error DesiredState × W
inspect c none w = (err context_required, w)
inspect c (some ctx) w =
    let (r, w') = resolve (some ctx) c.selected c.registry w in inspect_backend ctx r w'

-- Describe
abbrev pub describe_controller : {W : Type 0} → Controller W → Option Context → Text
describe_controller c ctx = describe ctx c.selected c.registry
