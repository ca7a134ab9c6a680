-- ===== src/Config/Settings.antt =====
-- internal/config/config.go: the configuration, its defaults and `Validate`. A Go int is an integer
-- ℤ. What the code calls of path/filepath, net and strconv is the argument `Lib`.
use digitdojo_shield.Prelude.{
  Bool, true, false, not, ◌&&◌, ◌||◌, List, [], ◌∷◌, Option, none, some, eqb, if◌then◌else◌, ℤ, pos,
  above, at_least, has, Text, text, text_beq, text_eq, Result, ok, err,
}
use digitdojo_shield.Firewall.Address.{Addr}
use digitdojo_shield.Firewall.Backend.Names.{trim_space, parse_name, NameError}

pub record GeneralConfig : Type 0 where
  pub log_dir : Text
  pub state_dir : Text
  pub host_based : Bool

pub record FirewallConfig : Type 0 where
  pub backend : Text
  pub rate_limit_per_second : ℤ
  pub connection_limit : ℤ
  pub temporary_ban_seconds : ℤ

pub record DetectionConfig : Type 0 where
  pub packet_threshold : ℤ
  pub connection_threshold : ℤ
  pub bytes_threshold : ℤ
  pub suspicious_spike : ℤ
  pub port_scan_threshold : ℤ
  pub window_seconds : ℤ

pub record AlertsConfig : Type 0 where
  pub discord_webhook : Text
  pub slack_webhook : Text
  pub email : Text

pub record LoggingConfig : Type 0 where
  pub level : Text
  pub rotate : Bool

pub record ApiConfig : Type 0 where
  pub enabled : Bool
  pub token : Text
  pub bind_address : Text
  pub rate_limit : ℤ
  pub rate_burst : ℤ

pub record Config : Type 0 where
  pub general : GeneralConfig
  pub firewall : FirewallConfig
  pub detection : DetectionConfig
  pub alerts : AlertsConfig
  pub logging : LoggingConfig
  pub api : ApiConfig

-- DefaultConfig
abbrev pub default_config : Config
default_config = record {
  general = record {
    log_dir = text "/var/log/digitdojo-shield";
    state_dir = text "/var/lib/digitdojo-shield";
    host_based = true;
  };
  firewall = record {
    backend = text "auto";
    rate_limit_per_second = pos 200;
    connection_limit = pos 200;
    temporary_ban_seconds = pos 600;
  };
  detection = record {
    packet_threshold = pos 2000;
    connection_threshold = pos 200;
    bytes_threshold = pos 1048576;
    suspicious_spike = pos 5;
    port_scan_threshold = pos 10;
    window_seconds = pos 30;
  };
  alerts = record { discord_webhook = text ""; slack_webhook = text ""; email = text "" };
  logging = record { level = text "info"; rotate = true };
  api = record {
    enabled = false;
    token = text "";
    bind_address = text "127.0.0.1:9090";
    rate_limit = pos 30;
    rate_burst = pos 60;
  };
}

pub record Lib : Type 0 where
  pub is_abs : Text → Bool
  pub clean : Text → Text
  pub split_path : Text → List Text
  pub split_host_port : Text → Result Text (Text × Text)
  pub parse_ip : Text → Option Addr
  pub atoi : Text → Option ℤ

pub data ConfigError : Type 0 where
  missing_path relative_path path_traversal not_positive : Text → ConfigError
  bad_backend : NameError → ConfigError
  token_required bind_address_required : ConfigError
  bad_bind_address bad_bind_host bad_bind_port : Text → ConfigError

-- One guard of a validation, followed by the rest of it.
abbrev pub refuse_if : Bool → ConfigError → Option ConfigError → Option ConfigError
refuse_if b e rest = if b then some e else rest

abbrev pub before : Option ConfigError → Option ConfigError → Option ConfigError
before (some e) rest = some e
before none rest = rest

abbrev pub is_blank : Text → Bool
is_blank s = text_beq (trim_space s) (text "")

abbrev pub starts_with_slash : Text → Bool
starts_with_slash [] = false
starts_with_slash (c ∷ s) = eqb c b'/' || eqb c 92

-- validatePath, of the field `name`.
unfoldable pub validate_path : Lib → Text → Text → Option ConfigError
unfolding trim_space has
validate_path lib path name = refuse_if (is_blank path) (missing_path name) (
    refuse_if (not (lib.is_abs path) && not (starts_with_slash path)) (relative_path name)
      (refuse_if (has (text "..") (lib.split_path (lib.clean path))) (path_traversal name) none))

abbrev pub is_known_host : Text → Bool
is_known_host host =
    text_beq host (text "")
    || text_beq host (text "0.0.0.0")
    || text_beq host (text "::")
    || text_beq host (text "127.0.0.1")
    || text_beq host (text "localhost")

abbrev pub is_port : Option ℤ → Bool
is_port none = false
is_port (some n) = at_least 1 n && not (above 65535 n)

abbrev pub is_none : Option Addr → Bool
is_none none = true
is_none (some a) = false

abbrev pub check_endpoint : Lib → Text → Result Text (Text × Text) → Option ConfigError
check_endpoint lib address (err e) = some (bad_bind_address address)
check_endpoint lib address (ok (host, port)) =
    refuse_if (not (is_known_host host) && is_none (lib.parse_ip host)) (bad_bind_host host)
      (refuse_if (not (is_port (lib.atoi port))) (bad_bind_port port) none)

-- validateBindAddress
unfoldable pub validate_bind_address : Lib → Text → Option ConfigError
validate_bind_address lib address = check_endpoint lib address (lib.split_host_port address)

abbrev pub require_positive : Text → ℤ → Option ConfigError → Option ConfigError
require_positive name n rest = refuse_if (not (above 0 n)) (not_positive name) rest

abbrev pub check_backend : Result NameError Text → Option ConfigError
check_backend (ok n) = none
check_backend (err e) = some (bad_backend e)

abbrev pub validate_api : Lib → ApiConfig → Option ConfigError
validate_api lib a = refuse_if (is_blank a.token) token_required (
    require_positive (text "api.rate_limit") a.rate_limit (
      require_positive (text "api.rate_burst") a.rate_burst (
        refuse_if (text_beq a.bind_address (text "")) bind_address_required
          (validate_bind_address lib a.bind_address))))

-- Config.Validate; `none` is no error.
unfoldable pub validate : Lib → Config → Option ConfigError
unfolding trim_space validate_path validate_bind_address parse_name
validate lib c = before (validate_path lib c.general.log_dir (text "general.log_dir")) (
    before (validate_path lib c.general.state_dir (text "general.state_dir")) (
      before (check_backend (parse_name c.firewall.backend)) (
        require_positive (text "firewall.rate_limit_per_second") c.firewall.rate_limit_per_second (
          require_positive (text "firewall.connection_limit") c.firewall.connection_limit (
            require_positive (text "detection.window_seconds") c.detection.window_seconds (
              require_positive (text "detection.packet_threshold") c.detection.packet_threshold
                (if c.api.enabled then validate_api lib c.api else none)))))))
