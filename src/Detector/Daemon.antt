-- ===== src/Detector/Daemon.antt =====
-- The lifecycle of internal/detector/daemon.go: Start, Stop, Shutdown and the end of the sampling
-- goroutine, as steps under the lock, and the sampling loop.
use digitdojo_shield.Prelude.{
  ℕ, ◌+◌, Bool, true, false, not, ◌||◌, List, [], ◌∷◌, ◌++◌, Option, none, some, eqb, if◌then◌else◌,
  remove, nat_eq, Text,
}
use digitdojo_shield.Detector.Engine.{Metrics}

-- A sampling goroutine is named by its done channel; `live` says of each one that runs whether its
-- context is cancelled. `done` and `cancel` belong to the same goroutine.
pub record Daemon : Type 0 where
  pub running : Bool
  pub stopping : Bool
  pub done : ℕ
  pub next : ℕ
  pub live : List (ℕ × Bool)
  pub handlers : Bool × Bool

pub data DaemonError : Type 0 where
  handlers_while_running still_stopping shutdown_timed_out : DaemonError

-- NewDaemon
unfoldable pub new_daemon : Daemon
new_daemon = record {
  running = false;
  stopping = false;
  done = 0;
  next = 1;
  live = [];
  handlers = (false, false);
}

-- SetHandlers: whether there is a handler of samples, and of errors.
unfoldable pub set_handlers : Bool × Bool → Daemon → Option DaemonError × Daemon
set_handlers hs d =
    if d.running || d.stopping
    then (some handlers_while_running, d)
    else (none, record d { handlers = hs })

-- Start
unfoldable pub start : Daemon → Option DaemonError × Daemon
start d = if d.running then (none, d) else if d.stopping then (some still_stopping, d) else (
  none,
  record d { running = true; done = d.next; next = d.next + 1; live = (d.next, false) ∷ d.live },
)

-- cancel(): the context of the goroutine is cancelled, if it still runs.
unfoldable pub cancel : ℕ → List (ℕ × Bool) → List (ℕ × Bool)
cancel id [] = []
cancel id ((j, c) ∷ rest) = (if eqb id j then (j, true) else (j, c)) ∷ cancel id rest

-- Stop
unfoldable pub stop : Daemon → Daemon
unfolding cancel
stop d =
    if not d.running || d.stopping
    then d
    else record d { stopping = true; live = cancel d.done d.live }

-- Shutdown, up to the wait.
unfoldable pub request_shutdown : Daemon → Daemon
unfolding cancel
request_shutdown d =
    if not d.running then d else record d { stopping = true; live = cancel d.done d.live }

-- What Shutdown returns: `closed` says whether the done channel is closed before the timer fires.
unfoldable pub shutdown_result : Bool → Daemon → Option DaemonError
shutdown_result closed d =
    if not d.running then none else if closed then none else some shutdown_timed_out

-- The deferred function of `run`, when the goroutine `id` ends, by a return or a panic.
unfoldable pub exit : ℕ → Daemon → Daemon
unfolding remove
exit id d =
    if eqb d.done id
    then record d { running = false; stopping = false; live = remove id d.live }
    else record d { live = remove id d.live }

-- What wakes the sampling loop: the context, or a tick whose sample succeeds or fails, in the
-- latter case with the context cancelled by then or not.
pub data Wake : Type 0 where
  cancelled : Wake
  sampled : Metrics → Wake
  failed : Text → Bool → Wake

pub data Callback : Type 0 where
  on_sample : Metrics → Callback
  on_error : Text → Callback

abbrev pub call : Bool → Callback → List Callback
call true c = c ∷ []
call false c = []

-- The loop of `run`: the calls of the handlers, in order.
unfoldable pub sampling_loop : Bool × Bool → List Wake → List Callback
sampling_loop hs [] = []
sampling_loop hs (cancelled ∷ rest) = []
sampling_loop hs (sampled m ∷ rest) = call hs.0 (on_sample m) ++ sampling_loop hs rest
sampling_loop hs (failed e true ∷ rest) = []
sampling_loop hs (failed e false ∷ rest) = call hs.1 (on_error e) ++ sampling_loop hs rest
