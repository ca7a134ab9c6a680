-- ===== src/App/Compare.antt =====
-- Go's `!=` on the parts of a configuration that internal/app/app.go compares.
use digitdojo_shield.Prelude.{
  ℕ, ◌≡◌, refl, ap, Bool, true, false, ◌&&◌, arith, eqb, eqb_iff, ℤ, pos, negsuc, text_beq,
  text_beq_iff,
}
use digitdojo_shield.Config.Settings.{GeneralConfig, FirewallConfig, LoggingConfig, ApiConfig}

unfoldable pub int_beq : ℤ → ℤ → Bool
int_beq (pos m) (pos n) = eqb m n
int_beq (pos m) (negsuc n) = false
int_beq (negsuc m) (pos n) = false
int_beq (negsuc m) (negsuc n) = eqb m n

pub int_beq_iff : (i j : ℤ) → int_beq i j ≡ true → i ≡ j
unfolding int_beq
int_beq_iff (pos m) (pos n) h = ap (λ (k : ℕ). pos k) (ground (arith, eqb_iff m n))
int_beq_iff (pos m) (negsuc n) h = cc
int_beq_iff (negsuc m) (pos n) h = cc
int_beq_iff (negsuc m) (negsuc n) h = ap (λ (k : ℕ). negsuc k) (ground (arith, eqb_iff m n))

unfoldable pub bool_beq : Bool → Bool → Bool
bool_beq true b = b
bool_beq false true = false
bool_beq false false = true

bool_beq_iff : (a b : Bool) → bool_beq a b ≡ true → a ≡ b
unfolding bool_beq
bool_beq_iff true b h = ground arith
bool_beq_iff false true h = cc
bool_beq_iff false false h = refl

unfoldable pub same_general : GeneralConfig → GeneralConfig → Bool
unfolding text_beq bool_beq
same_general a b =
    text_beq a.log_dir b.log_dir
    && text_beq a.state_dir b.state_dir
    && bool_beq a.host_based b.host_based

pub same_general_lem : (a b : GeneralConfig) → same_general a b ≡ true → a ≡ b
unfolding same_general
same_general_lem a b h = ground (
  arith,
  text_beq_iff a.log_dir b.log_dir,
  text_beq_iff a.state_dir b.state_dir,
  bool_beq_iff a.host_based b.host_based,
)

unfoldable pub same_firewall : FirewallConfig → FirewallConfig → Bool
unfolding text_beq int_beq
same_firewall a b =
    text_beq a.backend b.backend
    && int_beq a.rate_limit_per_second b.rate_limit_per_second
    && int_beq a.connection_limit b.connection_limit
    && int_beq a.temporary_ban_seconds b.temporary_ban_seconds

pub same_firewall_lem : (a b : FirewallConfig) → same_firewall a b ≡ true → a ≡ b
unfolding same_firewall
same_firewall_lem a b h = ground (
  arith,
  text_beq_iff a.backend b.backend,
  int_beq_iff a.rate_limit_per_second b.rate_limit_per_second,
  int_beq_iff a.connection_limit b.connection_limit,
  int_beq_iff a.temporary_ban_seconds b.temporary_ban_seconds,
)

unfoldable pub same_logging : LoggingConfig → LoggingConfig → Bool
unfolding text_beq bool_beq
same_logging a b = text_beq a.level b.level && bool_beq a.rotate b.rotate

pub same_logging_lem : (a b : LoggingConfig) → same_logging a b ≡ true → a ≡ b
unfolding same_logging
same_logging_lem a b h =
    ground (arith, text_beq_iff a.level b.level, bool_beq_iff a.rotate b.rotate)

unfoldable pub same_api : ApiConfig → ApiConfig → Bool
unfolding text_beq bool_beq int_beq
same_api a b =
    bool_beq a.enabled b.enabled
    && text_beq a.token b.token
    && text_beq a.bind_address b.bind_address
    && int_beq a.rate_limit b.rate_limit
    && int_beq a.rate_burst b.rate_burst

pub same_api_lem : (a b : ApiConfig) → same_api a b ≡ true → a ≡ b
unfolding same_api
same_api_lem a b h = ground (
  arith,
  bool_beq_iff a.enabled b.enabled,
  text_beq_iff a.token b.token,
  text_beq_iff a.bind_address b.bind_address,
  int_beq_iff a.rate_limit b.rate_limit,
  int_beq_iff a.rate_burst b.rate_burst,
)
