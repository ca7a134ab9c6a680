-- ===== src/Events.antt =====
-- internal/events/events.go: the bus between the subsystems. A handler is an element of `H`; what
-- Publish does is the list of the calls it makes, whose order Go leaves open.
pub mod Tests
use digitdojo_shield.Prelude.{
  ℕ, ◌+◌, ◌%◌, ◌^◌, ◌≤◌, ◌<◌, ◌≡◌, refl, sym, ap, ◌∙◌, Bool, true, false, ◌⊎◌, inl, inr, List, [],
  ◌∷◌, map, Option, none, some, arith, if◌then◌else◌, lookup, lookup-put, lookup-remove, put,
  remove, nat_eq, eqb, eqb_iff, Text,
}

pub record Event : Type 0 where
  pub kind : Text
  pub payload : List (Text × Text)

pub record Bus (H : Type 0) : Type 0 where
  pub subscribers : List (ℕ × H)
  pub next_id : ℕ

-- NewBus
unfoldable pub new_bus : {H : Type 0} → Bus H
new_bus = record { subscribers = []; next_id = 0 }

-- Subscribe: the identifier that the returned function deletes, none for a nil handler.
unfoldable pub subscribe : {H : Type 0} → Option H → Bus H → Option ℕ × Bus H
unfolding put
subscribe none b = (none, b)
subscribe (some fn) b = (
  some b.next_id,
  record { subscribers = put b.next_id fn b.subscribers; next_id = (b.next_id + 1) % 2 ^ 64 },
)

-- The function that Subscribe returned.
unfoldable pub unsubscribe : {H : Type 0} → Option ℕ → Bus H → Bus H
unfolding remove
unsubscribe none b = b
unsubscribe (some id) b = record b { subscribers = remove id b.subscribers }

-- Publish
unfoldable pub publish : {H : Type 0} → Event → Bus H → List (H × Event)
publish event b = map (λ s. (s.1, event)) b.subscribers

-- The identifiers in use are below the next one.
abbrev pub IsNumbered : {H : Type 0} → Bus H → Type 0
IsNumbered b = (id : ℕ) → b.next_id ≤ id → lookup id b.subscribers ≡ none

-- Take a bus whose identifiers are below the next one, which is not the last of 64 bits. A
-- subscription gets an identifier that was not in use, under which its handler stands; the
-- identifiers are below the next one again; and after the function it returns, each identifier has
-- the handler it had before.
subscribe_lem :
    {H : Type 0} (fn : H) (b : Bus H)
    → IsNumbered b
    → b.next_id + 1 < 2 ^ 64
    → let r = subscribe (some fn) b in
      (lookup b.next_id b.subscribers ≡ none)
      × (lookup b.next_id r.1.subscribers ≡ some fn)
      × IsNumbered r.1
      × ((j : ℕ) → lookup j (unsubscribe r.0 r.1).subscribers ≡ lookup j b.subscribers)
unfolding subscribe unsubscribe
subscribe_lem {H} fn b h l = (
  free,
  ground (arith, lookup-put b.next_id b.next_id fn b.subscribers, eqb_iff b.next_id b.next_id),
  λ id le. later id (omega arith),
  λ j. ground (
    arith,
    free,
    lookup-remove b.next_id j (put b.next_id fn b.subscribers),
    lookup-put b.next_id j fn b.subscribers,
    eqb_iff j b.next_id,
  ),
)
  where
    free : lookup b.next_id b.subscribers ≡ none
    free = h b.next_id (omega arith)

    later : (id : ℕ) → b.next_id < id → lookup id (put b.next_id fn b.subscribers) ≡ none
    later id lt =
        let p : lookup id b.subscribers ≡ none = h id (omega arith) in
        ground (arith, lookup-put b.next_id id fn b.subscribers, eqb_iff id b.next_id)
