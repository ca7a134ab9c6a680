-- ===== src/Events/Tests.antt =====
-- The bus at a concrete input.
use digitdojo_shield.Prelude.{ℕ, refl, lookup, nat_eq}
use digitdojo_shield.Events.{Bus, new_bus, IsNumbered}

empty_bus : Bus ℕ
empty_bus = new_bus

empty_bus-IsNumbered : IsNumbered empty_bus
unfolding empty_bus new_bus lookup
empty_bus-IsNumbered id l = refl
