-- ===== src/Config/Runnable.antt =====
-- The configurations that Validate of internal/config/config.go accepts.
use digitdojo_shield.Prelude.{
  ℕ, ◌≤◌, ◌≡◌, ◌⊎◌, true, false, some, ℤ, pos, has, Text, text, text_beq, text_eq, ok,
}
use digitdojo_shield.Firewall.Address.{Addr}
use digitdojo_shield.Firewall.Backend.Names.{parse_name}
use digitdojo_shield.Config.Settings.{
  ApiConfig, Config, Lib, is_blank, starts_with_slash, is_known_host,
}

-- A path that is given, from the root, and without ".." once cleaned.
abbrev pub IsSafePath : Lib → Text → Type 0
IsSafePath lib path =
    (is_blank path ≡ false)
    × ((lib.is_abs path ≡ true) ⊎ (starts_with_slash path ≡ true))
    × (has (text "..") (lib.split_path (lib.clean path)) ≡ false)

abbrev pub IsPositive : ℤ → Type 0
IsPositive i = (n : ℕ) × (i ≡ pos n) × (1 ≤ n)

-- A host and a port that can be listened on.
abbrev pub IsHost : Lib → Text → Type 0
IsHost lib host = (is_known_host host ≡ true) ⊎ ((a : Addr) × (lib.parse_ip host ≡ some a))

abbrev pub IsPort : Lib → Text → Type 0
IsPort lib port = (n : ℕ) × (lib.atoi port ≡ some (pos n)) × (1 ≤ n) × (n ≤ 65535)

abbrev pub IsEndpoint : Lib → Text → Type 0
IsEndpoint lib address =
    (host : Text) × (port : Text) × (lib.split_host_port address ≡ ok (host, port))
    × IsHost lib host
    × IsPort lib port

pub record IsRunnableApi (lib : Lib) (a : ApiConfig) : Type 0 where
  pub token : is_blank a.token ≡ false
  pub rate_limit : IsPositive a.rate_limit
  pub rate_burst : IsPositive a.rate_burst
  pub bound : text_beq a.bind_address (text "") ≡ false
  pub endpoint : IsEndpoint lib a.bind_address

-- What the running program relies on.
pub record IsRunnable (lib : Lib) (c : Config) : Type 0 where
  pub log_dir : IsSafePath lib c.general.log_dir
  pub state_dir : IsSafePath lib c.general.state_dir
  pub backend : (name : Text) × (parse_name c.firewall.backend ≡ ok name)
  pub rate_limit : IsPositive c.firewall.rate_limit_per_second
  pub connection_limit : IsPositive c.firewall.connection_limit
  pub window : IsPositive c.detection.window_seconds
  pub threshold : IsPositive c.detection.packet_threshold
  pub api : c.api.enabled ≡ true → IsRunnableApi lib c.api
