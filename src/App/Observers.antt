-- ===== src/App/Observers.antt =====
-- logEvent and alertOnRuntimeError of internal/app/app.go, the two subscribers of the application's
-- bus, and write of internal/logger/structured.go, which the first calls.
use digitdojo_shield.Prelude.{
  ℕ, Bool, not, List, [], ◌∷◌, ◌++◌, Option, none, some, if◌then◌else◌, lookup, put, text_eq, Text,
  text, text_beq,
}
use digitdojo_shield.Events.{Event}
use digitdojo_shield.Logs.Manager.{Entry}
use digitdojo_shield.Alerts.Service.{Service, ServiceError, Post, send_context}
use digitdojo_shield.App.Sample.{event_attack_detected, event_runtime_error}

-- The loop that copies the payload, over the fields that are set before it.
unfoldable pub copy_fields : List (Text × Text) → List (Text × Text) → List (Text × Text)
unfolding put
copy_fields [] fields = fields
copy_fields ((k, v) ∷ rest) fields = copy_fields rest (put k v fields)

abbrev pub level_of : Text → Text
level_of kind =
    if text_beq kind event_runtime_error
    then text "ERROR"
    else if text_beq kind event_attack_detected
    then text "WARN"
    else text "INFO"

-- logEvent: the level and the fields of the entry "runtime event".
unfoldable pub log_event : Event → Text × List (Text × Text)
unfolding copy_fields text_beq
log_event e =
    let category =
      if text_beq e.kind event_runtime_error then text "Detection" else text "Runtime" in
    (
      level_of e.kind,
      copy_fields e.payload ((text "event_type", e.kind) ∷ (text "category", category) ∷ []),
    )

abbrev found_or_empty : Option Text → Text
found_or_empty none = []
found_or_empty (some v) = v

-- StructuredLogger.write with a manager: the entry that it hands on, none once it is closed.
unfoldable pub structured_write : Bool → ℕ → Text → Text → List (Text × Text) → Option Entry
unfolding lookup text_beq
structured_write closed now level message fields =
    let category = found_or_empty (lookup (text "category") fields) in
    if closed
    then none
    else some (record {
      timestamp = now;
      level = level;
      category = if text_beq category [] then text "Runtime" else category;
      message = message;
      fields = fields;
    })

abbrev pub alert_message : Event → Text
alert_message e =
    text "DigitDojo Shield runtime error in "
    ++ found_or_empty (lookup (text "component") e.payload)
    ++ text ": "
    ++ found_or_empty (lookup (text "error") e.payload)

-- alertOnRuntimeError: the posts, and the error that is logged unless it is that of a cancelled
-- context.
unfoldable pub alert_on_runtime_error :
    (Text → Option (Text × Text))
    → (Post → Bool)
    → Bool
    → Service
    → Event
    → Option ServiceError × List Post
unfolding lookup text_beq send_context
alert_on_runtime_error parse post has_context s e =
    if not (text_beq e.kind event_runtime_error)
    then (none, [])
    else send_context post (alert_message e) parse has_context s
