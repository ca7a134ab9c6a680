-- ===== src/Detector/Lifecycle.antt =====
-- What holds of the daemon of internal/detector/daemon.go in every reachable state.
use digitdojo_shield.Prelude.{
  ℕ, ◌≡◌, Bool, true, false, List, [], ◌∷◌, none, some, arith, if◌then◌else◌, lookup, remove,
  nat_eq,
}
use digitdojo_shield.Detector.Daemon.{
  Daemon, new_daemon, set_handlers, start, stop, cancel, request_shutdown, exit,
}

-- A step of the program: a call under the lock, or the end of a goroutine that runs.
pub data Step (d : Daemon) : Daemon → Type 0 where
  sets : (hs : Bool × Bool) → Step d (set_handlers hs d).1
  starts : Step d (start d).1
  stops : Step d (stop d)
  shuts_down : Step d (request_shutdown d)
  exits : (id : ℕ) (c : Bool) → lookup id d.live ≡ some c → Step d (exit id d)

pub data Reach : Daemon → Type 0 where
  here : Reach new_daemon
  next : {d e : Daemon} → Reach d → Step d e → Reach e

-- The goroutines that run in a state: none, or the current one, cancelled if the daemon stops.
abbrev pub expected : Daemon → List (ℕ × Bool)
expected d = if d.running then (d.done, d.stopping) ∷ [] else []

pub record IsSound (d : Daemon) : Type 0 where
  pub goroutines : d.live ≡ expected d
  pub stops_running : d.running ≡ false → d.stopping ≡ false

Step-IsSound : {d e : Daemon} → Step d e → IsSound d → IsSound e
unfolding set_handlers start stop cancel request_shutdown exit remove lookup
Step-IsSound (sets hs) v = ground arith
Step-IsSound starts v = ground arith
Step-IsSound stops v = ground arith
Step-IsSound shuts_down v = ground arith
Step-IsSound (exits id c h) v = ground arith

-- At most one sampling goroutine runs in a reachable state: none when the daemon does not run, the
-- one of `done` when it does, with its context cancelled just when the daemon is stopping.
pub Reach-IsSound : {d : Daemon} → Reach d → IsSound d
unfolding new_daemon
Reach-IsSound here = ground arith
Reach-IsSound (next r s) = Step-IsSound s (Reach-IsSound r)

-- Start refuses nothing in a reachable state, and when it is called while the daemon is stopping
-- it returns no error and changes nothing, so that no goroutine runs once the old one has ended.
pub start-while_stopping :
    {d : Daemon}
    → Reach d
    → ((start d).0 ≡ none)
      × (d.stopping ≡ true
          → (start d ≡ (none, d))
            × (exit d.done (start d).1).live ≡ []
            × (exit d.done (start d).1).running ≡ false)
unfolding start exit remove
start-while_stopping r = let v = Reach-IsSound r in ground arith
