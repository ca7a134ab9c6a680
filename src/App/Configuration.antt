-- ===== src/App/Configuration.antt =====
-- applyConfiguration of internal/app/app.go, the hook that the configuration manager calls.
use digitdojo_shield.Prelude.{
  ℕ, ◌≡◌, ◌≢◌, ◌⊎◌, inl, inr, refl, not, List, [], ◌∷◌, ◌++◌, Option, none, some, Bool-cases,
  if◌then◌else◌, Text, text,
}
use digitdojo_shield.Config.Settings.{Config}
use digitdojo_shield.Detector.Engine.{new_engine}
use digitdojo_shield.Alerts.Service.{Service, ServiceError, new_service, validate_service}
use digitdojo_shield.Events.{Event}
use digitdojo_shield.App.Compare.{
  int_beq, int_beq_iff, same_general, same_general_lem, same_firewall, same_firewall_lem,
  same_logging, same_logging_lem, same_api, same_api_lem,
}

-- The parts of an Application that applyConfiguration reads or changes, and the events it published.
pub record Runtime : Type 0 where
  pub cfg : Config
  pub engine : ℕ
  pub alerts : Service
  pub published : List Event

-- url.ParseRequestURI, and the text of an error.
pub record Lib : Type 0 where
  pub parse_url : Text → Option (Text × Text)
  pub show_error : ServiceError → Text

abbrev pub reloaded_event : Event
reloaded_event = record {
  kind = text "ConfigurationReloaded";
  payload = (text "status", text "applied") ∷ [];
}

abbrev pub service_of : Config → Service
service_of c = new_service c.alerts.discord_webhook c.alerts.slack_webhook c.alerts.email

abbrev pub swap_in : Lib → Config → Runtime → Option ServiceError → Option Text × Runtime
swap_in lib candidate a (some e) = (some (lib.show_error e), a)
swap_in lib candidate a none = (
  none,
  record {
    cfg = candidate;
    engine = new_engine candidate.detection.packet_threshold;
    alerts = service_of candidate;
    published = a.published ++ reloaded_event ∷ [];
  },
)

-- applyConfiguration
unfoldable pub apply_configuration : Lib → Config → Runtime → Option Text × Runtime
unfolding same_general same_firewall same_api same_logging int_beq validate_service new_service
    new_engine
apply_configuration lib candidate a =
    if not (same_general candidate.general a.cfg.general)
    then (some (text "general configuration requires a daemon restart"), a)
    else if not (same_firewall candidate.firewall a.cfg.firewall)
    then (some (text "firewall configuration requires a daemon restart"), a)
    else if not (same_api candidate.api a.cfg.api)
    then (some (text "API listener and authentication changes require a daemon restart"), a)
    else if not (int_beq candidate.detection.window_seconds a.cfg.detection.window_seconds)
    then (some (text "detection.window_seconds requires a daemon restart"), a)
    else if not (same_logging candidate.logging a.cfg.logging)
    then (some (text "logging configuration requires a daemon restart"), a)
    else swap_in lib candidate a (validate_service lib.parse_url (service_of candidate))

-- The parts of two configurations that the daemon cannot change while it runs are the same.
pub record HasSameFixed (c d : Config) : Type 0 where
  pub general : c.general ≡ d.general
  pub firewall : c.firewall ≡ d.firewall
  pub api : c.api ≡ d.api
  pub window : c.detection.window_seconds ≡ d.detection.window_seconds
  pub logging : c.logging ≡ d.logging

-- The running parts are those of the configuration in use, whose webhooks can be posted to.
pub record IsRunning (lib : Lib) (a : Runtime) : Type 0 where
  pub engine : a.engine ≡ new_engine a.cfg.detection.packet_threshold
  pub alerts : a.alerts ≡ service_of a.cfg
  pub valid : validate_service lib.parse_url a.alerts ≡ none

module _ (lib : Lib) (candidate : Config) (a : Runtime) where
  -- An error and no change, or the candidate in use.
  abbrev pub Applied : Option Text × Runtime → Type 0
  Applied r =
      ((r.0 ≢ none) × (r.1 ≡ a))
      ⊎ ((r.0 ≡ none)
          × ((r.1.cfg ≡ candidate) × (HasSameFixed candidate a.cfg × IsRunning lib r.1)))

  refused : (e : Text) → Applied (some e, a)
  refused e = inl (λ p. cc, refl)

  swapped :
      (e : Option ServiceError)
      → validate_service lib.parse_url (service_of candidate) ≡ e
      → HasSameFixed candidate a.cfg
      → Applied (swap_in lib candidate a e)
  swapped (some e) v same = refused (lib.show_error e)
  swapped none v same =
      inr (refl, (refl, (same, record { engine = refl; alerts = refl; valid = v })))

  -- applyConfiguration returns an error and changes nothing, or puts the candidate into use: then
  -- the candidate has the general, firewall, API and logging sections and the window of the
  -- configuration before, the engine and the webhooks are made from it, and the webhooks are
  -- valid.
  pub apply_configuration_cases : Applied (apply_configuration lib candidate a)
  unfolding apply_configuration
  apply_configuration_cases = elim (Bool-cases (same_general candidate.general a.cfg.general)) [
    | inr n ↦ rw n (refused _)
    | inl g ↦ elim (Bool-cases (same_firewall candidate.firewall a.cfg.firewall)) [
      | inr n ↦ rw (g, n) (refused _)
      | inl f ↦ elim (Bool-cases (same_api candidate.api a.cfg.api)) [
        | inr n ↦ rw (g, f, n) (refused _)
        | inl p ↦
            elim (Bool-cases
              (int_beq candidate.detection.window_seconds a.cfg.detection.window_seconds)) [
                | inr n ↦ rw (g, f, p, n) (refused _)
                | inl w ↦ elim (Bool-cases (same_logging candidate.logging a.cfg.logging)) [
                  | inr n ↦ rw (g, f, p, w, n) (refused _)
                  | inl l ↦
                      rw (g, f, p, w, l)
                        (swapped _ refl (record {
                          general = same_general_lem _ _ g;
                          firewall = same_firewall_lem _ _ f;
                          api = same_api_lem _ _ p;
                          window = int_beq_iff _ _ w;
                          logging = same_logging_lem _ _ l;
                        }))
                ]
              ]
      ]
    ]
  ]
