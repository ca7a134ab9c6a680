-- ===== src/App/Run.antt =====
-- Run of internal/app/app.go: the start of the services, the wait for their end and the shutdown.
-- What the calls return is an argument; what Run does is the list of its effects.
use digitdojo_shield.Prelude.{
  ◌≡◌, Bool, true, false, not, ◌||◌, ◌&&◌, is_some, List, [], ◌∷◌, ◌++◌, Option, none, some,
  if◌then◌else◌, Text,
}

-- The effects of a run on its services, in order. The shutdowns of the detector and of the API say
-- whether they returned an error, as they do where they time out.
pub data Effect : Type 0 where
  listen close_listener start_detector start_api close_log : Effect
  publish_started publish_stopped ready cancel : Effect
  shut_detector shut_api : Option Text → Effect

-- What the calls return: the errors, and which of the two ends of the wait comes first.
pub record Outcomes : Type 0 where
  pub listen : Option Text
  pub start_detector : Option Text
  pub start_api : Option Text
  -- The wait ends with the cancellation, or with what the API server reports.
  pub cancelled_first : Bool
  pub api_reports : Option Text
  pub api_closed : Bool
  pub shut_api : Option Text
  pub shut_detector : Option Text
  pub close_log : Option Text

pub data RunError : Type 0 where
  context_required already_started : RunError
  bind_failed detector_failed api_start_failed : Text → RunError
  -- errors.Join of the errors of the server and of the shutdown.
  joined : List Text → RunError

-- runErr
abbrev pub run_error : Bool → Outcomes → Option Text
run_error api_enabled o =
    if not api_enabled || o.cancelled_first || o.api_closed then none else o.api_reports

abbrev optional : Option Text → List Text
optional none = []
optional (some e) = e ∷ []

abbrev join : List Text → Option RunError
join [] = none
join (e ∷ es) = some (joined (e ∷ es))

module _ (api_enabled : Bool) (o : Outcomes) where
  abbrev listening : List Effect
  listening = if api_enabled then listen ∷ [] else []

  abbrev pub shutdown : Option RunError × List Effect
  shutdown = (
    join (
        optional (run_error api_enabled o)
        ++ optional o.shut_api
        ++ optional o.shut_detector
        ++ optional o.close_log),
    cancel ∷ shut_api o.shut_api ∷ shut_detector o.shut_detector ∷ publish_stopped ∷ close_log ∷ [],
  )

  abbrev after : List Effect → Option RunError × List Effect → Option RunError × List Effect
  after es (e, fs) = (e, es ++ fs)

  abbrev pub serve : Option RunError × List Effect
  serve = after (publish_started ∷ ready ∷ []) shutdown

  abbrev pub run_api : Option Text → Option RunError × List Effect
  run_api none = after (start_api ∷ []) serve
  run_api (some e) = (
    some (api_start_failed e),
    close_listener ∷ shut_detector o.shut_detector ∷ close_log ∷ cancel ∷ [],
  )

  abbrev pub run_detector : Option Text → Option RunError × List Effect
  run_detector none =
      after (start_detector ∷ []) (if api_enabled then run_api o.start_api else serve)
  run_detector (some e) = (
    some (detector_failed e),
    (if api_enabled then close_listener ∷ [] else []) ++ close_log ∷ cancel ∷ [],
  )

  abbrev pub run_listening : Option Text → Option RunError × List Effect
  run_listening none = after (listen ∷ []) (run_detector o.start_detector)
  run_listening (some e) = (some (bind_failed e), close_log ∷ cancel ∷ [])

-- Run, on whether it was called before: the error, the effects and whether it was called.
unfoldable pub run : Bool → Bool → Outcomes → Bool → (Option RunError × List Effect) × Bool
run has_context api_enabled o run_called =
    if not has_context
    then ((some context_required, []), run_called)
    else if run_called
    then ((some already_started, []), true)
    else (
      (if api_enabled
          then run_listening api_enabled o o.listen
          else run_detector api_enabled o o.start_detector),
      true,
    )

-- What a daemon holds: its listener, the requests of its API server, the goroutine of its detector,
-- its open log.
pub record Held : Type 0 where
  pub listener : Bool
  pub server : Bool
  pub detector : Bool
  pub log : Bool

abbrev pub before_run : Held
before_run = record { listener = false; server = false; detector = false; log = true }

-- An effect on it, none where it is out of order: a second start, an end of what does not run, an
-- event without a log. A shutdown of the API closes the listener even where it returns an error, but
-- then requests may still run; a shutdown of the detector that returns an error leaves its goroutine;
-- the log takes no more entries once Close was called, whatever that returns.
abbrev pub use_effect : Effect → Held → Option Held
use_effect listen h = if h.listener then none else some (record h { listener = true })
use_effect close_listener h = if h.listener then some (record h { listener = false }) else none
use_effect start_detector h = if h.detector then none else some (record h { detector = true })
use_effect (shut_detector e) h =
    if h.detector then some (record h { detector = is_some e }) else none
use_effect start_api h =
    if h.listener && not h.server then some (record h { server = true }) else none
use_effect (shut_api e) h = some (record h { listener = false; server = h.server && is_some e })
use_effect close_log h = if h.log then some (record h { log = false }) else none
use_effect publish_started h = if h.log then some h else none
use_effect publish_stopped h = if h.log then some h else none
use_effect ready h = if h.detector then some h else none
use_effect cancel h = some h

abbrev pub use_effects : List Effect → Option Held → Option Held
use_effects es none = none
use_effects [] (some h) = some h
use_effects (e ∷ es) (some h) = use_effects es (use_effect e h)

-- Calls of Run, one after the other: all their effects.
unfoldable pub run_all : Bool → List (Bool × Outcomes) → Bool → List Effect
unfolding run
run_all api_enabled [] run_called = []
run_all api_enabled ((has_context, o) ∷ rest) run_called =
    let first = run has_context api_enabled o run_called in
    first.0.1 ++ run_all api_enabled rest first.1

-- The outcomes of the first call that has a context.
abbrev pub first_call : List (Bool × Outcomes) → Option Outcomes
first_call [] = none
first_call ((has_context, o) ∷ rest) = if has_context then some o else first_call rest

-- What is left after that call: no listener and no open log, no goroutine of the detector if its
-- shutdown returned no error, and no request of the server if its shutdown returned none.
abbrev pub IsLeft : Option Outcomes → Held → Type 0
IsLeft none h = h ≡ before_run
IsLeft (some o) h =
    (h.listener ≡ false)
    × (h.log ≡ false)
    × (o.shut_detector ≡ none → h.detector ≡ false)
    × (o.shut_api ≡ none → h.server ≡ false)
