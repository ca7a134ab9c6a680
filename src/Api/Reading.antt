-- ===== src/Api/Reading.antt =====
-- The handlers of internal/api/api.go that read: attacks, analytics, logs and the audit trail. A
-- parameter of the query is a text, empty where it is absent; strconv.Atoi and time.Parse are
-- parameters. Logs.Manager.clear is behind the one that empties the log.
use digitdojo_shield.Prelude.{
  ℕ, ◌-◌, ◌*◌, ◌^◌, Bool, not, List, [], ◌∷◌, Option, none, some, ltb, if◌then◌else◌, length, keep,
  ℤ, pos, Text, text, text_beq, Result, ok, err,
}
use digitdojo_shield.History.{Store, Attack, Metric, attacks_page, metrics_since}
use digitdojo_shield.Logs.Manager.{Entry}
use digitdojo_shield.Logs.Rotation.{LogError}
use digitdojo_shield.Logs.Manager
use digitdojo_shield.Logs.Query
use digitdojo_shield.Logs.Audit
use digitdojo_shield.Api.Secrets.{PageError, pagination}
use digitdojo_shield.Api.Handlers.{Method, get, post, patch, other}

-- The status of a reply without a body of its own, or what the handler writes.
pub data Answer (X : Type 0) : Type 0 where
  answer : X → Answer X
  refused : ℕ → Answer X

abbrev pub if_get : {X : Type 0} → Method → Answer X → Answer X
if_get get a = a
if_get post a = refused 405
if_get patch a = refused 405
if_get other a = refused 405

pub record Parsers : Type 0 where
  pub atoi : Text → Option ℤ
  pub time : Text → Option ℕ

pub record Page (X : Type 0) : Type 0 where
  pub items : List X
  pub total : ℕ
  pub offset : ℕ
  pub limit : ℕ

abbrev pub attacks_on : Store → Result PageError (ℕ × ℕ) → Answer (Page Attack)
attacks_on h (err e) = refused 400
attacks_on h (ok (offset, limit)) =
    let (items, total) = attacks_page offset limit h in
    answer (record { items = items; total = total; offset = offset; limit = limit })

abbrev pub attacks_of : Parsers → (Text → Text) → Option Store → Answer (Page Attack)
attacks_of p q none = refused 503
attacks_of p q (some h) = attacks_on h (pagination p.atoi (q (text "offset")) (q (text "limit")))

-- handleAttacks
unfoldable pub handle_attacks :
    Parsers → Method → (Text → Text) → Option Store → Answer (Page Attack)
unfolding pagination attacks_page
handle_attacks p m q h = if_get m (attacks_of p q h)

abbrev pub hour : ℕ
hour = 3600 * 10 ^ 9

pub record Analytics : Type 0 where
  pub period : Text
  pub metrics : List Metric
  pub attack_count : ℕ

-- periodOrDefault
abbrev pub period_or_default : Text → Text
period_or_default s = if text_beq s [] then text "24h" else s

-- The durations that handleAnalytics knows.
unfoldable pub duration_of : Text → Option ℕ
unfolding text_beq
duration_of s =
    if text_beq s []
    then some (24 * hour)
    else if text_beq s (text "24h")
    then some (24 * hour)
    else if text_beq s (text "7d")
    then some (7 * (24 * hour))
    else if text_beq s (text "30d")
    then some (30 * (24 * hour))
    else none

-- The number of attacks that began at the cutoff or later, among those that Attacks gives.
abbrev pub attack_count : ℕ → Store → ℕ
attack_count cutoff h =
    length (keep (λ a. not (ltb a.started_at cutoff)) (attacks_page 0 100000 h).0)

abbrev pub analytics_since : Text → Store → ℕ → Option ℕ → Answer Analytics
analytics_since period h now none = refused 400
analytics_since period h now (some duration) =
    let cutoff = now - duration in
    answer (record {
      period = period_or_default period;
      metrics = metrics_since cutoff h;
      attack_count = attack_count cutoff h;
    })

abbrev pub analytics_of : Text → ℕ → Option Store → Answer Analytics
analytics_of period now none = refused 503
analytics_of period now (some h) = analytics_since period h now (duration_of period)

-- handleAnalytics, at a time
unfoldable pub handle_analytics : Method → Text → ℕ → Option Store → Answer Analytics
unfolding duration_of metrics_since attacks_page text_beq
handle_analytics m period now h = if_get m (analytics_of period now h)

-- A bound on the time of an entry: absent, or RFC3339.
abbrev pub time_bound : Parsers → Text → Option ℕ
time_bound p [] = some 0
time_bound p (x ∷ s) = p.time (x ∷ s)

abbrev pub log_query_on :
    (Text → Text) → Result PageError (ℕ × ℕ) → Option ℕ → Option ℕ → Option Query.Query
log_query_on q (err e) from to = none
log_query_on q (ok page) none to = none
log_query_on q (ok page) (some from) none = none
log_query_on q (ok (offset, limit)) (some from) (some to) = some (record {
  search = q (text "search");
  level = q (text "level");
  category = q (text "category");
  from = from;
  to = to;
  offset = pos offset;
  limit = pos limit;
  desc = not (text_beq (q (text "sort")) (text "asc"));
})

-- logQuery
unfoldable pub log_query : Parsers → (Text → Text) → Option Query.Query
unfolding pagination text_beq
log_query p q =
    log_query_on q (pagination p.atoi (q (text "offset")) (q (text "limit")))
      (time_bound p (q (text "from"))) (time_bound p (q (text "to")))

abbrev pub found_page :
    Query.Query → Result LogError (List Entry × ℕ) → Answer (Query.Query × (List Entry × ℕ))
found_page query (err e) = refused 500
found_page query (ok found) = answer (query, found)

abbrev pub logs_with :
    Query.Lib → Bool → Option Text → Option Query.Query → Answer (Query.Query × (List Entry × ℕ))
logs_with lib open_fails file none = refused 400
logs_with lib open_fails file (some query) =
    found_page query (Query.query lib open_fails query file)

abbrev pub logs_of :
    {H : Type 0}
    → Query.Lib
    → Parsers
    → Bool
    → (Text → Text)
    → Option (Manager.Manager H)
    → Answer (Query.Query × (List Entry × ℕ))
logs_of lib p open_fails q none = refused 503
logs_of lib p open_fails q (some m) = logs_with lib open_fails m.disk.file (log_query p q)

-- handleLogs
unfoldable pub handle_logs :
    {H : Type 0}
    → Query.Lib
    → Parsers
    → Bool
    → Method
    → (Text → Text)
    → Option (Manager.Manager H)
    → Answer (Query.Query × (List Entry × ℕ))
unfolding log_query
handle_logs lib p open_fails m q logs = if_get m (logs_of lib p open_fails q logs)

abbrev pub cleared : {H : Type 0} → Option LogError × Manager.Manager H → ℕ × Manager.Manager H
cleared (some e, m) = (500, m)
cleared (none, m) = (204, m)

-- handleLogClear where there is a log manager: the status and the manager.
unfoldable pub handle_log_clear :
    {H : Type 0} → Bool → Method → Manager.Manager H → ℕ × Manager.Manager H
handle_log_clear fails post m = cleared (Manager.clear fails m)
handle_log_clear fails get m = (405, m)
handle_log_clear fails patch m = (405, m)
handle_log_clear fails other m = (405, m)

abbrev pub audit_query : (Text → Text) → ℤ → ℤ → Audit.Query
audit_query q offset limit = record {
  search = q (text "search");
  action = q (text "action");
  resource = q (text "resource");
  result = q (text "result");
  offset = offset;
  limit = limit;
}

abbrev pub audit_page :
    ℕ → ℕ → (List Audit.Record × ℕ) × Option LogError → Answer (Page Audit.Record)
audit_page offset limit (found, some e) = refused 500
audit_page offset limit ((items, total), none) =
    answer (record { items = items; total = total; offset = offset; limit = limit })

abbrev pub audit_on :
    Audit.Lib
    → Bool
    → (Text → Text)
    → Option Text
    → Result PageError (ℕ × ℕ)
    → Answer (Page Audit.Record)
audit_on lib open_fails q file (err e) = refused 400
audit_on lib open_fails q file (ok (offset, limit)) =
    audit_page offset limit
      (Audit.query lib open_fails (audit_query q (pos offset) (pos limit)) file)

abbrev pub audit_of :
    {H : Type 0}
    → Audit.Lib
    → Parsers
    → Bool
    → (Text → Text)
    → Option (Audit.Manager H)
    → Answer (Page Audit.Record)
audit_of lib p open_fails q none = refused 503
audit_of lib p open_fails q (some m) =
    audit_on lib open_fails q m.file (pagination p.atoi (q (text "offset")) (q (text "limit")))

-- handleAudit
unfoldable pub handle_audit :
    {H : Type 0}
    → Audit.Lib
    → Parsers
    → Bool
    → Method
    → (Text → Text)
    → Option (Audit.Manager H)
    → Answer (Page Audit.Record)
unfolding pagination
handle_audit lib p open_fails m q trail = if_get m (audit_of lib p open_fails q trail)
