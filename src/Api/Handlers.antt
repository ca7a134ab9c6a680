-- ===== src/Api/Handlers.antt =====
-- The handlers of internal/api/api.go that change something: the configuration and the two lists. The
-- decoding of JSON is a parameter, and a reply is its status with what its body shows.
use digitdojo_shield.Prelude.{
  ℕ, ◌^◌, Bool, not, List, [], ◌∷◌, Option, none, some, if◌then◌else◌, take, ℤ, Text, text,
  text_beq, Result, ok, err,
}
use digitdojo_shield.Firewall.Backend.Names.{trim_space}
use digitdojo_shield.Config.Settings.{Config}
use digitdojo_shield.Config.Manager.{
  Manager, Change, Env, Faults, Failure, update, reload, rollback,
}
use digitdojo_shield.Logs.Audit
use digitdojo_shield.Logs.Audit.{Record, AuditError, record_action, new_id}
use digitdojo_shield.Api.Secrets.{redacted, preserve_secrets}

pub data Method : Type 0 where
  get post patch other : Method

-- What a handler reads of a request. The body is absent, or reading it gives an error or its bytes;
-- the client is that of clientKey.
pub record Incoming : Type 0 where
  pub method : Method
  pub body : Option (Result Text Text)
  pub client : Text
  pub request_id : Text

-- What writeRedactedConfig writes.
pub record Shown : Type 0 where
  pub config : Config
  pub api_token_configured : Bool
  pub discord_configured : Bool
  pub slack_configured : Bool
  pub email_configured : Bool
  pub history : List Change

pub data Reply : Type 0 where
  shown : Shown → Reply
  plain : ℕ → Reply
  failed : ℕ → Reply

-- The status of a reply.
abbrev pub status : Reply → ℕ
status (shown s) = 200
status (plain n) = n
status (failed n) = n

-- writeRedactedConfig
unfoldable pub page_of : Config → List Change → Shown
unfolding text_beq
page_of c history = record {
  config = redacted c;
  api_token_configured = not (text_beq c.api.token []);
  discord_configured = not (text_beq c.alerts.discord_webhook []);
  slack_configured = not (text_beq c.alerts.slack_webhook []);
  email_configured = not (text_beq c.alerts.email []);
  history = history;
}

abbrev pub shown_config : Config → List Change → Reply
shown_config c history = shown (page_of c history)

abbrev pub decode_bytes : {X : Type 0} → (Text → Result Text X) → Text → Result Text X
decode_bytes decode [] = err (text "request body is empty")
decode_bytes decode (x ∷ s) = decode (x ∷ s)

-- decodeJSONBody, with json.Unmarshal of one type.
unfoldable pub decode_body :
    {X : Type 0} → (Text → Result Text X) → Option (Result Text Text) → Result Text X
decode_body decode none = err (text "request body is empty")
decode_body decode (some (err e)) = err e
decode_body decode (some (ok bytes)) = decode_bytes decode (take (2 ^ 20) bytes)

-- json.Unmarshal of the bodies, and fmt.Sprintf of the summary of a rollback.
pub record Codec : Type 0 where
  pub config : Text → Result Text Config
  pub version : Text → Result Text ℤ
  pub address : Text → Result Text Text
  pub rollback_summary : ℤ → Text

-- The managers of a server, either of which may be absent.
pub record Server (A H : Type 0) : Type 0 where
  pub configs : Option (Manager A)
  pub audit : Option (Audit.Manager H)

-- The faults, the time and the random bytes of one request.
pub record Circumstances : Type 0 where
  pub faults : Faults
  pub audit_faults : Audit.Faults
  pub clock : ℕ
  pub request_random : Option (List ℕ)
  pub record_random : Option (List ℕ)

abbrev pub id_or_empty : Result AuditError Text → Text
id_or_empty (err e) = text ""
id_or_empty (ok id) = id

-- The record of an action that recordAudit passes on.
abbrev pub entry_of : Incoming → Option (List ℕ) → Text → Text → Text → Record
entry_of r random action redaction result = record {
  id = [];
  timestamp = 0;
  user = text "api-token";
  source_ip = r.client;
  action = action;
  resource = text "config";
  previous = redaction;
  new_value = redaction;
  result = result;
  request_id =
      (let given = trim_space r.request_id in
        if text_beq given [] then id_or_empty (new_id random) else given);
}

-- recordAudit, which drops the error of Record.
unfoldable pub record_audit :
    {H : Type 0}
    → Audit.Lib
    → Circumstances
    → Record
    → Option (Audit.Manager H)
    → Option (Audit.Manager H)
unfolding record_action
record_audit lib c entry none = none
record_audit lib c entry (some m) =
    some (record_action lib c.audit_faults c.clock c.record_random entry m).1

module _ {A D H : Type 0} (env : Env A D) (codec : Codec) (lib : Audit.Lib) (c : Circumstances)
    (r : Incoming) where
  -- The end of the three handlers: the record of the action and the reply.
  abbrev pub finish : Text → Text → Server A H → Option Failure × Manager A → Reply × Server A H
  finish action redaction s (some e, m) = (
    failed 400,
    record {
      configs = some m;
      audit =
          record_audit lib c (entry_of r c.request_random action redaction (text "failure"))
            s.audit;
    },
  )
  finish action redaction s (none, m) = (
    shown_config m.current m.history,
    record {
      configs = some m;
      audit =
          record_audit lib c (entry_of r c.request_random action redaction (text "success"))
            s.audit;
    },
  )

  abbrev pub patch_decoded : Server A H → Manager A → Result Text Config → Reply × Server A H
  patch_decoded s m (err e) = (failed 400, s)
  patch_decoded s m (ok candidate) = finish (text "config.update") (text "redacted") s (
      update env c.faults c.clock (preserve_secrets candidate m.current)
        (text "API configuration update") m)

  abbrev pub config_by_method : Server A H → Manager A → Method → Reply × Server A H
  config_by_method s m get = (shown_config m.current m.history, s)
  config_by_method s m patch = patch_decoded s m (decode_body codec.config r.body)
  config_by_method s m post = (plain 405, s)
  config_by_method s m other = (plain 405, s)

  abbrev pub config_with : Server A H → Option (Manager A) → Reply × Server A H
  config_with s none = (failed 503, s)
  config_with s (some m) = config_by_method s m r.method

  -- handleConfig
  unfoldable pub handle_config : Server A H → Reply × Server A H
  unfolding update page_of decode_body record_audit trim_space text_beq new_id
  handle_config s = config_with s s.configs

  abbrev pub reload_with : Server A H → Option (Manager A) → Reply × Server A H
  reload_with s none = (failed 503, s)
  reload_with s (some m) = finish (text "config.reload") [] s (reload env c.faults c.clock m)

  abbrev pub reload_by_method : Server A H → Method → Reply × Server A H
  reload_by_method s post = reload_with s s.configs
  reload_by_method s get = (plain 405, s)
  reload_by_method s patch = (plain 405, s)
  reload_by_method s other = (plain 405, s)

  -- handleConfigReload
  unfoldable pub handle_config_reload : Server A H → Reply × Server A H
  unfolding reload page_of record_audit trim_space text_beq new_id
  handle_config_reload s = reload_by_method s r.method

  abbrev pub rollback_decoded : Server A H → Manager A → Result Text ℤ → Reply × Server A H
  rollback_decoded s m (err e) = (failed 400, s)
  rollback_decoded s m (ok v) =
      finish (text "config.rollback") [] s
        (rollback env c.faults c.clock (codec.rollback_summary v) v m)

  abbrev pub rollback_with : Server A H → Option (Manager A) → Reply × Server A H
  rollback_with s none = (failed 503, s)
  rollback_with s (some m) = rollback_decoded s m (decode_body codec.version r.body)

  abbrev pub rollback_by_method : Server A H → Method → Reply × Server A H
  rollback_by_method s post = rollback_with s s.configs
  rollback_by_method s get = (plain 405, s)
  rollback_by_method s patch = (plain 405, s)
  rollback_by_method s other = (plain 405, s)

  -- handleConfigRollback
  unfoldable pub handle_config_rollback : Server A H → Reply × Server A H
  unfolding rollback page_of decode_body record_audit trim_space text_beq new_id
  handle_config_rollback s = rollback_by_method s r.method

-- The error of a mutation of the lists, which may stand for ErrEnforcementUnavailable.
abbrev pub mutation_error : Bool → Reply
mutation_error unavailable = failed (if unavailable then 503 else 400)

-- The mutation on the address of a request, over the state `S` it changes; its error says whether it
-- stands for ErrEnforcementUnavailable.
module _ {S : Type 0} (codec : Codec) (mutation : Text → S → Option Bool × S) (r : Incoming) where
  abbrev pub mutated : ℕ → Option Bool × S → Reply × S
  mutated done (some unavailable, s) = (mutation_error unavailable, s)
  mutated done (none, s) = (plain done, s)

  abbrev pub mutate_decoded : ℕ → S → Result Text Text → Reply × S
  mutate_decoded done s (err e) = (failed 400, s)
  mutate_decoded done s (ok ip) = mutated done (mutation ip s)

  abbrev pub mutate_by_method : ℕ → S → Method → Reply × S
  mutate_by_method done s post = mutate_decoded done s (decode_body codec.address r.body)
  mutate_by_method done s get = (plain 405, s)
  mutate_by_method done s patch = (plain 405, s)
  mutate_by_method done s other = (plain 405, s)

  -- handleBlacklist and handleWhitelist
  unfoldable pub handle_addition : S → Reply × S
  unfolding decode_body
  handle_addition s = mutate_by_method 201 s r.method

  -- handleUnban
  unfoldable pub handle_unban : S → Reply × S
  unfolding decode_body
  handle_unban s = mutate_by_method 200 s r.method
