-- ===== src/App/Again.antt =====
-- A client of the daemon sends back the configuration that it was shown: internal/api/api.go in front
-- of internal/config/manager.go with the hook of internal/app/app.go.
use digitdojo_shield.Prelude.{
  ◌≡◌, refl, subst, ap, ◌∙◌, Bool, true, false, none, some, ℤ, pos, negsuc, beq_refl, nat_eq,
  text_eq, text_beq, Text, ok,
}
use digitdojo_shield.Config.Settings.{
  Config, GeneralConfig, FirewallConfig, LoggingConfig, ApiConfig,
}
use digitdojo_shield.Config.Manager.{Manager, Env}
use digitdojo_shield.Config.Revisions.{IsLawfulEnv, IsSynced}
use digitdojo_shield.Alerts.Service.{validate_service}
use digitdojo_shield.Logs.Audit
use digitdojo_shield.Api.Handlers.{
  get, patch, Incoming, Shown, shown, decode_body, Codec, Server, Circumstances, handle_config,
}
use digitdojo_shield.Api.Editing.{IsKept, handle_config-shown}
use digitdojo_shield.App.Compare.{
  int_beq, bool_beq, same_general, same_firewall, same_logging, same_api,
}
use digitdojo_shield.App.Configuration.{Lib, Runtime, IsRunning, service_of, apply_configuration}
use digitdojo_shield.App.Reload.{IsAgreed, with_hook}

int_beq_refl : (i : ℤ) → int_beq i i ≡ true
unfolding int_beq
int_beq_refl (pos n) = beq_refl n
int_beq_refl (negsuc n) = beq_refl n

bool_beq_refl : (b : Bool) → bool_beq b b ≡ true
unfolding bool_beq
bool_beq_refl true = refl
bool_beq_refl false = refl

text_beq_refl : (t : Text) → text_beq t t ≡ true
text_beq_refl t = beq_refl {A = Text} t

same_general_refl : (a : GeneralConfig) → same_general a a ≡ true
unfolding same_general
same_general_refl a =
    rw (text_beq_refl a.log_dir, text_beq_refl a.state_dir, bool_beq_refl a.host_based) refl

same_firewall_refl : (a : FirewallConfig) → same_firewall a a ≡ true
unfolding same_firewall
same_firewall_refl a =
    rw
      (
        text_beq_refl a.backend,
        int_beq_refl a.rate_limit_per_second,
        int_beq_refl a.connection_limit,
        int_beq_refl a.temporary_ban_seconds,
      )
      refl

same_logging_refl : (a : LoggingConfig) → same_logging a a ≡ true
unfolding same_logging
same_logging_refl a = rw (text_beq_refl a.level, bool_beq_refl a.rotate) refl

same_api_refl : (a : ApiConfig) → same_api a a ≡ true
unfolding same_api
same_api_refl a =
    rw
      (
        bool_beq_refl a.enabled,
        text_beq_refl a.token,
        text_beq_refl a.bind_address,
        int_beq_refl a.rate_limit,
        int_beq_refl a.rate_burst,
      )
      refl

-- The hook accepts the configuration that the daemon runs.
apply_configuration-again :
    (lib : Lib) (a : Runtime) → IsRunning lib a → (apply_configuration lib a.cfg a).0 ≡ none
unfolding apply_configuration
apply_configuration-again lib a running =
    let valid : validate_service lib.parse_url (service_of a.cfg) ≡ none =
      subst (λ s. validate_service lib.parse_url s ≡ none) running.alerts running.valid in
    rw
      (
        same_general_refl a.cfg.general,
        same_firewall_refl a.cfg.firewall,
        same_api_refl a.cfg.api,
        int_beq_refl a.cfg.detection.window_seconds,
        same_logging_refl a.cfg.logging,
        valid,
      )
      refl

module _ {D H : Type 0} (lib : Lib) (env : Env Runtime D) (start : Config)
    (law : IsLawfulEnv (with_hook lib env)) (codec : Codec) (trail : Audit.Lib)
    (c c' : Circumstances) (q r : Incoming) (s : Server Runtime H) (m : Manager Runtime) where
  accepted : IsAgreed lib start m → (apply_configuration lib m.current m.app).0 ≡ none
  accepted h =
      ap (λ (x : Config). (apply_configuration lib x m.app).0) h.same
      ∙ apply_configuration-again lib m.app h.running

  -- Take the server of the daemon, whose configuration manager has applyConfiguration as its hook,
  -- agrees with the running daemon and is in step with its file, where no write of the manager
  -- fails. If a client sends back, in a PATCH, the configuration that a GET showed it, then the
  -- reply shows that configuration again, with the same secrets configured; the configuration in
  -- use is what it was, secrets included, under the next version, and the manager is in step with
  -- its file.
  pub handle_config-again :
      (sh : Shown)
      → s.configs ≡ some m
      → IsAgreed lib start m
      → IsSynced (with_hook lib env) m
      → c.faults.replace ≡ false
      → c.faults.backup ≡ false
      → q.method ≡ get
      → r.method ≡ patch
      → (handle_config (with_hook lib env) codec trail c' q s).0 ≡ shown sh
      → decode_body codec.config r.body ≡ ok sh.config
      → IsKept
          (with_hook lib env)
          law
          codec
          trail
          c
          c'
          q
          r
          s
          m
          sh
          (handle_config (with_hook lib env) codec trail c r s)
  handle_config-again sh hm agreed sync w b hg hp g hb =
      handle_config-shown (with_hook lib env) law codec trail c c' q r s m sh hm sync w b
        (accepted agreed) hg hp g hb
