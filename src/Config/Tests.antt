-- ===== src/Config/Tests.antt =====
-- The configuration at concrete inputs, with a library of YAML that meets its law.
use digitdojo_shield.Prelude.{
  zero, suc, ◌≡◌, refl, Bool, true, false, List, [], ◌∷◌, ◌++◌, Option, none, some, arith, take,
  drop, length, lookup, IsUnique, All, ℤ, pos, negsuc, Text, text, text_beq, text_eq, Result, ok,
  err,
}
use digitdojo_shield.Config.Settings.{
  GeneralConfig, FirewallConfig, DetectionConfig, AlertsConfig, LoggingConfig, ApiConfig, Config,
  default_config, Lib, validate,
}
use digitdojo_shield.Config.Yaml.{
  Loader, Document, mapping_document, Key, Section, mapping, validate_yaml, validate_yaml_sound,
  load_from_file, load_bytes, IsAllowedSection, allowed_keys, titles,
}
use digitdojo_shield.Config.Manager.{
  Manager, Env, Faults, update, rollback, backup_failed, rolled_back,
}
use digitdojo_shield.Config.Revisions.{IsLawfulEnv, IsSynced, update-IsSynced}
use digitdojo_shield.Config.Restore.{update-rollback, update-backup_failed}

-- A format: what is put in front of a text can be got off it.
pub record Format (A : Type 0) : Type 0 where
  pub put : A → Text → Text
  pub get : Text → Option (A × Text)
  pub get-put : (a : A) (rest : Text) → get (put a rest) ≡ some (a, rest)

pub take-front : (t rest : Text) → take (length t) (t ++ rest) ≡ t
take-front [] rest = refl
take-front (c ∷ t) rest = cc (take-front t rest)

pub drop-front : (t rest : Text) → drop (length t) (t ++ rest) ≡ rest
drop-front [] rest = refl
drop-front (c ∷ t) rest = drop-front t rest

abbrev get_text : Text → Option (Text × Text)
get_text [] = none
get_text (n ∷ s) = some (take n s, drop n s)

abbrev texts : Format Text
texts = record {
  put = λ t rest. length t ∷ (t ++ rest);
  get = get_text;
  get-put = λ t rest. rw (take-front t rest, drop-front t rest) refl;
}

abbrev put_bool : Bool → Text → Text
put_bool true rest = 1 ∷ rest
put_bool false rest = 0 ∷ rest

abbrev get_bool : Text → Option (Bool × Text)
get_bool [] = none
get_bool (zero ∷ rest) = some (false, rest)
get_bool (suc n ∷ rest) = some (true, rest)

pub get_bool-put_bool : (b : Bool) (rest : Text) → get_bool (put_bool b rest) ≡ some (b, rest)
get_bool-put_bool true rest = refl
get_bool-put_bool false rest = refl

abbrev bools : Format Bool
bools = record { put = put_bool; get = get_bool; get-put = get_bool-put_bool }

abbrev put_int : ℤ → Text → Text
put_int (pos n) rest = 0 ∷ n ∷ rest
put_int (negsuc n) rest = 1 ∷ n ∷ rest

abbrev get_int : Text → Option (ℤ × Text)
get_int [] = none
get_int (s ∷ []) = none
get_int (zero ∷ n ∷ rest) = some (pos n, rest)
get_int (suc s ∷ n ∷ rest) = some (negsuc n, rest)

pub get_int-put_int : (i : ℤ) (rest : Text) → get_int (put_int i rest) ≡ some (i, rest)
get_int-put_int (pos n) rest = refl
get_int-put_int (negsuc n) rest = refl

abbrev ints : Format ℤ
ints = record { put = put_int; get = get_int; get-put = get_int-put_int }

abbrev pair_with : {A B : Type 0} → A → Option (B × Text) → Option ((A × B) × Text)
pair_with a none = none
pair_with a (some (b, s)) = some ((a, b), s)

abbrev get_second : {A B : Type 0} → Format B → Option (A × Text) → Option ((A × B) × Text)
get_second g none = none
get_second g (some (a, s)) = pair_with a (g.get s)

abbrev both : {A B : Type 0} → Format A → Format B → Format (A × B)
both f g = record {
  put = λ p rest. f.put p.0 (g.put p.1 rest);
  get = λ s. get_second g (f.get s);
  get-put = λ p rest. rw (f.get-put p.0 (g.put p.1 rest), g.get-put p.1 rest) refl;
}

abbrev get_as : {A B : Type 0} → (A → B) → Option (A × Text) → Option (B × Text)
get_as f none = none
get_as f (some (a, s)) = some (f a, s)

abbrev through :
    {A B : Type 0} → Format A → (to : B → A) (from : A → B) → ((b : B) → from (to b) ≡ b) → Format B
through f to from back = record {
  put = λ b rest. f.put (to b) rest;
  get = λ s. get_as from (f.get s);
  get-put = λ b rest. rw (f.get-put (to b) rest, back b) refl;
}

abbrev generals : Format GeneralConfig
generals =
    through (both texts (both texts bools)) (λ c. (c.log_dir, (c.state_dir, c.host_based)))
      (λ p. record { log_dir = p.0; state_dir = p.1.0; host_based = p.1.1 }) (λ c. refl)

abbrev firewalls : Format FirewallConfig
firewalls =
    through (both texts (both ints (both ints ints)))
      (λ c. (c.backend, (c.rate_limit_per_second, (c.connection_limit, c.temporary_ban_seconds))))
      (λ p. record {
        backend = p.0;
        rate_limit_per_second = p.1.0;
        connection_limit = p.1.1.0;
        temporary_ban_seconds = p.1.1.1;
      })
      (λ c. refl)

abbrev detections : Format DetectionConfig
detections =
    through (both ints (both ints (both ints (both ints (both ints ints)))))
      (λ c. (
        c.packet_threshold,
        (
          c.connection_threshold,
          (c.bytes_threshold, (c.suspicious_spike, (c.port_scan_threshold, c.window_seconds))),
        ),
      ))
      (λ p. record {
        packet_threshold = p.0;
        connection_threshold = p.1.0;
        bytes_threshold = p.1.1.0;
        suspicious_spike = p.1.1.1.0;
        port_scan_threshold = p.1.1.1.1.0;
        window_seconds = p.1.1.1.1.1;
      })
      (λ c. refl)

abbrev alert_settings : Format AlertsConfig
alert_settings =
    through (both texts (both texts texts)) (λ c. (c.discord_webhook, (c.slack_webhook, c.email)))
      (λ p. record { discord_webhook = p.0; slack_webhook = p.1.0; email = p.1.1 }) (λ c. refl)

abbrev loggings : Format LoggingConfig
loggings =
    through (both texts bools) (λ c. (c.level, c.rotate))
      (λ p. record { level = p.0; rotate = p.1 }) (λ c. refl)

abbrev apis : Format ApiConfig
apis =
    through (both bools (both texts (both texts (both ints ints))))
      (λ c. (c.enabled, (c.token, (c.bind_address, (c.rate_limit, c.rate_burst)))))
      (λ p. record {
        enabled = p.0;
        token = p.1.0;
        bind_address = p.1.1.0;
        rate_limit = p.1.1.1.0;
        rate_burst = p.1.1.1.1;
      })
      (λ c. refl)

abbrev pub configs : Format Config
configs =
    through
      (both generals (both firewalls (both detections (both alert_settings (both loggings apis)))))
      (λ c. (c.general, (c.firewall, (c.detection, (c.alerts, (c.logging, c.api))))))
      (λ p. record {
        general = p.0;
        firewall = p.1.0;
        detection = p.1.1.0;
        alerts = p.1.1.1.0;
        logging = p.1.1.1.1.0;
        api = p.1.1.1.1.1;
      })
      (λ c. refl)

abbrev pub only : Option (Config × Text) → Result Text Config
only none = err []
only (some (c, s)) = ok c

abbrev pub sample_loader : Loader Config
sample_loader = record {
  parse = λ s. only (configs.get s);
  shape = λ d. mapping_document [];
  decode = λ d c. ok d;
  unmarshal = λ s. only (configs.get s);
  encode = λ c. ok (configs.put c []);
}

abbrev pub sample_lib : Lib
sample_lib = record {
  is_abs = λ p. true;
  clean = λ p. p;
  split_path = λ p. p ∷ [];
  split_host_port = λ a. err a;
  parse_ip = λ s. none;
  atoi = λ s. none;
}

abbrev pub sample_env : Env Text Config
sample_env = record {
  lib = sample_lib;
  loader = sample_loader;
  checksum = λ s. s;
  apply = some (λ c a. (none, 1 ∷ a));
}

loads-put :
    (c : Config)
    → validate sample_lib c ≡ none
    → load_from_file sample_lib sample_loader (some (configs.put c [])) ≡ ok c
unfolding load_from_file validate_yaml
loads-put c v = rw (configs.get-put c [], v) refl

unmarshals-put :
    (c : Config)
    → validate sample_lib c ≡ none
    → load_bytes sample_lib sample_loader (configs.put c []) ≡ ok c
unfolding load_bytes
unmarshals-put c v = rw (configs.get-put c [], v) refl

pub sample_env-lawful : IsLawfulEnv sample_env
sample_env-lawful = record {
  encodes = λ c v. (configs.put c [], refl, loads-put c v, unmarshals-put c v);
}

abbrev pub raised : Config
raised = record default_config {
  detection = record default_config.detection { packet_threshold = pos 3000 };
}

default_config-valid : validate sample_lib default_config ≡ none
unfolding validate text_beq
default_config-valid = refl

raised-valid : validate sample_lib raised ≡ none
unfolding validate text_beq
raised-valid = refl

abbrev pub managed : Manager Text
managed = record {
  has_path = true;
  current = default_config;
  version = 1;
  history = record { version = 1; timestamp = 5; checksum = []; summary = [] } ∷ [];
  file = some (configs.put default_config []);
  backups = (1, configs.put default_config []) ∷ [];
  history_file = none;
  app = [];
}

pub managed-IsSynced : IsSynced sample_env managed
unfolding lookup
managed-IsSynced = record {
  has_file = refl;
  valid = default_config-valid;
  loads = loads-put default_config default_config-valid;
  started = omega arith;
  versions = refl;
  backed_up = (configs.put default_config [], refl, refl);
}

abbrev pub no_faults : Faults
no_faults = record { replace = false; restore = false; backup = false; history = none }

abbrev sample_document : Document
sample_document = mapping_document (
    (
      record { value = text "logging"; line = 1 },
      mapping 2 (record { value = text "level"; line = 2 } ∷ []),
    )
    ∷ [])

sample_document-valid : validate_yaml sample_document ≡ none
unfolding validate_yaml text_beq
sample_document-valid = refl

validate_yaml_sound_example :
    (ss : List (Key × Section)) × (sample_document ≡ mapping_document ss)
    × All (IsAllowedSection allowed_keys) ss
    × IsUnique (titles ss)
validate_yaml_sound_example = validate_yaml_sound sample_document sample_document-valid

update-IsSynced_example : IsSynced sample_env (update sample_env no_faults 7 raised [] managed).1
update-IsSynced_example =
    update-IsSynced sample_env sample_env-lawful no_faults 7 raised [] managed managed-IsSynced refl
      refl

update-rollback_example :
    let u = update sample_env no_faults 7 raised [] managed in
    let r = rollback sample_env no_faults 7 [] (pos 1) u.1 in
    (u.0 ≡ none)
    × (u.1.current ≡ raised)
    × (r.0 ≡ none)
    × (r.1.current ≡ default_config)
    × IsSynced sample_env r.1
update-rollback_example =
    update-rollback sample_env sample_env-lawful no_faults 7 raised [] [] managed managed-IsSynced
      refl refl (λ c a. refl) raised-valid

update-backup_failed_example :
    let u = update sample_env (record no_faults { backup = true }) 7 raised [] managed in
    (u.0 ≡ some (rolled_back backup_failed))
    × (u.1.current ≡ raised)
    × (load_from_file sample_lib sample_loader u.1.file ≡ ok default_config)
update-backup_failed_example =
    update-backup_failed sample_env sample_env-lawful (record no_faults { backup = true }) 7 raised
      [] managed managed-IsSynced refl refl refl refl raised-valid
