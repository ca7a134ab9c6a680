-- ===== src/App/Tests.antt =====
-- The application at concrete inputs.
use digitdojo_shield.Prelude.{
  ℕ, ◌≡◌, refl, Bool, true, false, List, [], ◌∷◌, none, some, keep, Text, text, text_beq, text_eq,
  ok, pos,
}
use digitdojo_shield.Config.Settings.{Config, default_config}
use digitdojo_shield.Config.Manager.{Env, Manager, Faults}
use digitdojo_shield.Config.Tests.{sample_lib, sample_loader, configs, raised, no_faults}
use digitdojo_shield.Detector.Engine.{Metrics}
use digitdojo_shield.History.Attacks.{any_active}
use digitdojo_shield.Alerts.Service.{
  Service, new_service, is_https, send_context, IsSent, send_context-IsSent,
}
use digitdojo_shield.App.Configuration.{Lib, Runtime, service_of}
use digitdojo_shield.App.Reload.{
  IsAgreed, Request, updating, rolling_back, reloading, editing, with_hook, serve_all,
  serve_all-IsAgreed,
}
use digitdojo_shield.App.Sample.{Sampler, Lib as SampleLib, handle_sample, quiet}
use digitdojo_shield.App.Alarms.{
  run_samples, is_alarm, IsAlternating, is_under_attack, run_samples-IsAlternating,
  handle_sample-status,
}
use digitdojo_shield.App.New.{Parts, IsStarted, new_application, new_application-IsStarted}
use digitdojo_shield.App.Observers.{log_event}
use digitdojo_shield.App.Again.{handle_config-again}
use digitdojo_shield.Api.Editing.{IsKept}
use digitdojo_shield.Api.Handlers.{Server, handle_config}
use digitdojo_shield.Api.Tests.{
  sample_codec, circumstances, asking, sending_back, default_page, sent_back,
}
use digitdojo_shield.Logs.Tests.{audit_lib, audit_manager}
use digitdojo_shield.Config.Revisions.{IsLawfulEnv, IsSynced}
use digitdojo_shield.Config.Tests.{sample_env-lawful, managed-IsSynced as sample-IsSynced}
use digitdojo_shield.App.Run.{Outcomes}

abbrev web : Lib
web = record {
  parse_url = λ u. some (text "https", text "hooks.example");
  show_error = λ e. text "bad alerts";
}

abbrev running : Runtime
running = record {
  cfg = default_config;
  engine = 2000;
  alerts = service_of default_config;
  published = [];
}

-- The listener's address cannot change while the daemon runs.
abbrev moved : Config
moved = record default_config { api = record default_config.api { bind_address = text ":80" } }

abbrev env : Env Runtime Config
env = record { lib = sample_lib; loader = sample_loader; checksum = λ s. s; apply = none }

abbrev managed : Manager Runtime
managed = record {
  has_path = true;
  current = default_config;
  version = 1;
  history = record { version = 1; timestamp = 5; checksum = []; summary = [] } ∷ [];
  file = some (configs.put default_config []);
  backups = (1, configs.put default_config []) ∷ [];
  history_file = none;
  app = running;
}

managed-IsAgreed : IsAgreed web default_config managed
unfolding digitdojo_shield.Detector.Engine.new_engine
    digitdojo_shield.Alerts.Service.validate_service new_service
managed-IsAgreed = record {
  same = refl;
  fixed = record { general = refl; firewall = refl; api = refl; window = refl; logging = refl };
  running = record { engine = refl; alerts = refl; valid = refl };
}

abbrev requests : List ((Faults × ℕ) × Request)
requests =
    ((no_faults, 7), updating raised (text "raise"))
    ∷ ((no_faults, 8), updating moved (text "move"))
    ∷ ((no_faults, 9), editing (some (configs.put moved [])))
    ∷ ((no_faults, 10), reloading)
    ∷ ((no_faults, 11), rolling_back [] (pos 1))
    ∷ []

serve_all-IsAgreed_example :
    IsAgreed web default_config (serve_all (with_hook web env) requests managed)
serve_all-IsAgreed_example =
    serve_all-IsAgreed web env default_config requests managed managed-IsAgreed

abbrev calm : Metrics
calm = record {
  packets_per_second = pos 10;
  connections_per_second = pos 1;
  bytes_per_second = pos 3000000;
  unique_ips = pos 0;
  top_talkers = [];
}

abbrev flooded : Metrics
flooded = record calm { packets_per_second = pos 9000 }

abbrev sampler : Sampler
sampler = record {
  engine = 2000;
  blacklist = text "9.9.9.9" ∷ [];
  monitor = record { blocked_ips = 0; attack_status = quiet };
  stats = record {
    signals = 0;
    blocked = 0;
    packets_per_second = pos 0;
    bandwidth_mbps = pos 0;
    attack_status = text "starting";
    firewall_backend = [];
    firewall_enforced = false;
  };
  history = record { metrics = []; attacks = []; file = none };
}

abbrev sample_lib' : SampleLib
sample_lib' = record {
  itoa = λ i. text "n";
  show_error = λ e. text "write";
  attack_id = λ now kind. now ∷ kind;
  describe = text "auto";
  enforcement_enabled = false;
}

abbrev samples : List ((ℕ × Bool) × Metrics)
samples =
    ((1, false), calm) ∷ ((2, true), flooded) ∷ ((3, false), flooded) ∷ ((4, false), calm) ∷ []

run_samples-IsAlternating_example :
    IsAlternating false
      (keep is_alarm (run_samples sample_lib' samples sampler).1)
      (is_under_attack (run_samples sample_lib' samples sampler).0)
unfolding text_beq
run_samples-IsAlternating_example = run_samples-IsAlternating sample_lib' samples sampler

handle_sample-status_example :
    let r = (handle_sample sample_lib' 2 true flooded sampler).0 in
    ((k : Text) → any_active k r.history.attacks ≡ true → is_under_attack r ≡ true)
    × (is_under_attack r ≡ true → (k : Text) × (any_active k r.history.attacks ≡ true))
handle_sample-status_example = handle_sample-status sample_lib' 2 true flooded sampler

abbrev parts : Parts
parts = record {
  log_dir = none;
  state_dir = none;
  logger = none;
  file_store = none;
  state = ok (text "9.9.9.9" ∷ []);
  history = ok (record { metrics = []; attacks = []; file = none });
  registry = none;
  controller = none;
  describe = text "auto";
  api_server = none;
  set_handlers = none;
}

new_application-IsStarted_example :
    IsStarted sample_lib web default_config (new_application sample_lib web default_config parts)
new_application-IsStarted_example = new_application-IsStarted sample_lib web default_config parts

abbrev outcomes : Outcomes
outcomes = record {
  listen = none;
  start_detector = none;
  start_api = some (text "busy");
  cancelled_first = true;
  api_reports = none;
  api_closed = false;
  shut_api = none;
  shut_detector = none;
  close_log = none;
}

abbrev hooks : Service
hooks = record { discord_webhook = text "https://hooks.example/a"; slack_webhook = []; email = [] }

send_context-IsSent_example :
    IsSent
      (λ p. true)
      (text "down")
      web.parse_url
      hooks
      (send_context (λ p. true) (text "down") web.parse_url true hooks)
send_context-IsSent_example = send_context-IsSent (λ p. true) (text "down") web.parse_url hooks true

log_event_test :
    log_event
      (record { kind = text "RuntimeError"; payload = (text "component", text "detector") ∷ [] })
    ≡ (
      text "ERROR",
      (text "event_type", text "RuntimeError")
          ∷ (text "category", text "Detection")
          ∷ (text "component", text "detector")
          ∷ [],
    )
unfolding log_event
log_event_test = refl

web_env-lawful : IsLawfulEnv (with_hook web env)
web_env-lawful = record { encodes = λ c v. sample_env-lawful.encodes c v }

managed-IsSynced : IsSynced (with_hook web env) managed
managed-IsSynced = record {
  has_file = refl;
  valid = sample-IsSynced.valid;
  loads = sample-IsSynced.loads;
  started = sample-IsSynced.started;
  versions = sample-IsSynced.versions;
  backed_up = sample-IsSynced.backed_up;
}

abbrev server : Server Runtime ℕ
server = record { configs = some managed; audit = some audit_manager }

handle_config-again_example :
    IsKept
      (with_hook web env)
      web_env-lawful
      sample_codec
      audit_lib
      circumstances
      circumstances
      asking
      sending_back
      server
      managed
      default_page
      (handle_config (with_hook web env) sample_codec audit_lib circumstances sending_back server)
unfolding handle_config
handle_config-again_example =
    handle_config-again web env default_config web_env-lawful sample_codec audit_lib circumstances
      circumstances asking sending_back server managed default_page refl managed-IsAgreed
      managed-IsSynced refl refl refl refl refl sent_back
