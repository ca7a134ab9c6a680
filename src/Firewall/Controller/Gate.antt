-- ===== src/Firewall/Controller/Gate.antt =====
-- The gate of internal/firewall/controller.go: NewController keeps enforcement off.
use digitdojo_shield.Prelude.{ℕ, ◌≡◌, false, Option, none, some, arith, Text, ok}
use digitdojo_shield.Firewall.Backend.{DesiredState}
use digitdojo_shield.Firewall.Contract.{Context, enforcement_disabled}
use digitdojo_shield.Firewall.Registry.{Registry}
use digitdojo_shield.Firewall.Controller.{Controller, new_controller, reconcile, cleanup}

new_controller-disabled :
    {W : Type 0} (r : Option (Registry W)) (selection : Text) (c : Controller W)
    → new_controller r selection ≡ ok c
    → c.enabled ≡ false
unfolding new_controller
new_controller-disabled none selection c h = cc
new_controller-disabled (some r) selection c h = ground arith

-- A controller from the exported constructor changes nothing: whatever the registry, the
-- selection, the context, the time and the state asked for, Reconcile and Cleanup report that
-- enforcement is disabled and leave the world as it was.
new_controller_inert :
    {W : Type 0} (r : Option (Registry W)) (selection : Text) (c : Controller W)
    → new_controller r selection ≡ ok c
    → (ctx : Option Context) (now : ℕ) (desired : DesiredState) (w : W)
    → (reconcile c ctx now desired w ≡ (some enforcement_disabled, w))
      × (cleanup c ctx w ≡ (some enforcement_disabled, w))
unfolding reconcile cleanup
new_controller_inert r selection c h ctx now desired w =
    let off = new_controller-disabled r selection c h in (rw off, rw off)
