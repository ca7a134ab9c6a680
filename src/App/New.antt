-- ===== src/App/New.antt =====
-- NewWithConfigManager and newApplication of internal/app/app.go. What the constructors of the other
-- parts return is an argument; the configuration and the alerts are validated as they are there.
use digitdojo_shield.Prelude.{
  ◌≡◌, refl, Bool, true, false, List, [], Option, none, some, length, pos, Text, text, Result, ok,
  err,
}
use digitdojo_shield.Config.Settings.{Config, ConfigError, validate, Lib as ConfigLib}
use digitdojo_shield.Detector.Engine.{new_engine}
use digitdojo_shield.Alerts.Service.{ServiceError, validate_service}
use digitdojo_shield.History.{Store}
use digitdojo_shield.App.Configuration.{Runtime, service_of, Lib}
use digitdojo_shield.App.Reload.{Agree}
use digitdojo_shield.App.Sample.{Sampler, quiet}

-- The results of the constructors, in the order of their calls.
pub record Parts : Type 0 where
  pub log_dir : Option Text
  pub state_dir : Option Text
  pub logger : Option Text
  pub file_store : Option Text
  pub state : Result Text (List Text)
  pub history : Result Text Store
  pub registry : Option Text
  pub controller : Option Text
  pub describe : Text
  pub api_server : Option Text
  pub set_handlers : Option Text

pub data InitError : Type 0 where
  manager_required : InitError
  invalid_config : ConfigError → InitError
  bad_alerts : ServiceError → InitError
  log_dir_failed state_dir_failed logger_failed file_store_failed state_failed history_failed
        registry_failed controller_failed api_failed handlers_failed :
      Text → InitError

-- An Application, and whether its log is open.
abbrev pub Created : Type 0
Created = Result InitError (Runtime × Sampler) × Bool

-- A step before the log is opened, and one after it, whose failure closes the log.
abbrev unless : Option Text → (Text → InitError) → Created → Created
unless none e rest = rest
unless (some m) e rest = (err (e m), false)

module _ (lib : Lib) (cfg : Config) (p : Parts) where
  abbrev application : List Text → Store → Runtime × Sampler
  application blacklist history = (
    record {
      cfg = cfg;
      engine = new_engine cfg.detection.packet_threshold;
      alerts = service_of cfg;
      published = [];
    },
    record {
      engine = new_engine cfg.detection.packet_threshold;
      blacklist = blacklist;
      monitor = record { blocked_ips = 0; attack_status = quiet };
      stats = record {
        signals = 0;
        blocked = length blacklist;
        packets_per_second = pos 0;
        bandwidth_mbps = pos 0;
        attack_status = text "starting";
        firewall_backend = p.describe;
        firewall_enforced = false;
      };
      history = history;
    },
  )

  abbrev with_history : List Text → Result Text Store → Created
  with_history blacklist (err m) = (err (history_failed m), false)
  with_history blacklist (ok history) = unless p.registry registry_failed (
      unless p.controller controller_failed (
        unless p.api_server api_failed
          (unless p.set_handlers handlers_failed (ok (application blacklist history), true))))

  abbrev with_state : Result Text (List Text) → Created
  with_state (err m) = (err (state_failed m), false)
  with_state (ok blacklist) = with_history blacklist p.history

  abbrev with_alerts : Option ServiceError → Created
  with_alerts (some e) = (err (bad_alerts e), false)
  with_alerts none = unless p.file_store file_store_failed (with_state p.state)

  abbrev with_config : Option ConfigError → Created
  with_config (some e) = (err (invalid_config e), false)
  with_config none = unless p.log_dir log_dir_failed (
      unless p.state_dir state_dir_failed (
        unless p.logger logger_failed
          (with_alerts (validate_service lib.parse_url (service_of cfg)))))

-- newApplication
unfoldable pub new_application : ConfigLib → Lib → Config → Parts → Created
unfolding validate validate_service new_engine
new_application config_lib lib cfg p = with_config lib cfg p (validate config_lib cfg)

-- NewWithConfigManager, on the current configuration of the manager, if there is one.
unfoldable pub new_with_config_manager : ConfigLib → Lib → Option Config → Parts → Created
unfolding new_application
new_with_config_manager config_lib lib none p = (err manager_required, false)
new_with_config_manager config_lib lib (some cfg) p = new_application config_lib lib cfg p

-- An error with the log closed, or a valid configuration that the application runs with the log open.
abbrev pub IsStarted : ConfigLib → Lib → Config → Created → Type 0
IsStarted config_lib lib cfg (err e, open_log) = open_log ≡ false
IsStarted config_lib lib cfg (ok (a, s), open_log) =
    (open_log ≡ true)
    × ((validate config_lib cfg ≡ none) × (Agree lib cfg cfg a × (s.engine ≡ a.engine)))

module _ (config_lib : ConfigLib) (lib : Lib) (cfg : Config) (p : Parts) where
  unless-IsStarted :
      (o : Option Text) (e : Text → InitError) (r : Created)
      → IsStarted config_lib lib cfg r
      → IsStarted config_lib lib cfg (unless o e r)
  unless-IsStarted none e r h = h
  unless-IsStarted (some m) e r h = refl

  with_state-IsStarted :
      validate config_lib cfg ≡ none
      → validate_service lib.parse_url (service_of cfg) ≡ none
      → (s : Result Text (List Text)) (h : Result Text Store)
      → IsStarted config_lib lib cfg (with_state lib cfg (record p { history = h }) s)
  with_state-IsStarted v a (err m) h = refl
  with_state-IsStarted v a (ok blacklist) (err m) = refl
  with_state-IsStarted v a (ok blacklist) (ok history) = unless-IsStarted p.registry _ _ (
      unless-IsStarted p.controller _ _ (
        unless-IsStarted p.api_server _ _ (
          unless-IsStarted p.set_handlers _ _ (
            refl,
            (
              v,
              (
                record {
                  same = refl;
                  fixed = record {
                    general = refl;
                    firewall = refl;
                    api = refl;
                    window = refl;
                    logging = refl;
                  };
                  running = record { engine = refl; alerts = refl; valid = a };
                },
                refl,
              ),
            ),
          ))))

  with_alerts-IsStarted :
      validate config_lib cfg ≡ none
      → (a : Option ServiceError) → validate_service lib.parse_url (service_of cfg) ≡ a
      → IsStarted config_lib lib cfg (with_alerts lib cfg p a)
  with_alerts-IsStarted v (some e) h = refl
  with_alerts-IsStarted v none h =
      unless-IsStarted p.file_store _ _ (with_state-IsStarted v h p.state p.history)

  with_config-IsStarted :
      (v : Option ConfigError)
      → validate config_lib cfg ≡ v
      → IsStarted config_lib lib cfg (with_config lib cfg p v)
  with_config-IsStarted (some e) v = refl
  with_config-IsStarted none v = unless-IsStarted p.log_dir _ _ (
      unless-IsStarted p.state_dir _ _ (
        unless-IsStarted p.logger _ _
          (with_alerts-IsStarted v (validate_service lib.parse_url (service_of cfg)) refl)))

  -- newApplication returns an error with the log closed, or an application on a valid
  -- configuration, with its engine and valid webhooks made from that configuration and the log
  -- open.
  pub new_application-IsStarted :
      IsStarted config_lib lib cfg (new_application config_lib lib cfg p)
  unfolding new_application
  new_application-IsStarted = with_config-IsStarted (validate config_lib cfg) refl
