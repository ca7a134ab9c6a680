-- ===== src/Api/Tests.antt =====
-- The access to the API at concrete inputs.
use digitdojo_shield.Prelude.{
  ◌+◌, ◌-◌, ◌^◌, ◌≤◌, List, leb, ◌*◌, arith, ◌∷◌, none, ℕ, ◌≡◌, refl, true, false, [], Option, some,
  ℤ, pos, Text, text, text_eq, text_beq, ok,
}
use digitdojo_shield.Config.Settings.{default_config}
use digitdojo_shield.Config.Tests.{sample_loader, configs, managed, no_faults}
use digitdojo_shield.Logs.Tests.{audit_faults, audit_manager}
use digitdojo_shield.Api.Handlers.{
  Incoming, get, post, patch, Shown, page_of, Codec, Server, Circumstances, status, handle_unban,
  decode_body,
}
use digitdojo_shield.History.{Store, Attack, metrics_since}
use digitdojo_shield.Api.Reading.{answer, hour, duration_of, handle_analytics}
use digitdojo_shield.Api.Counting.{handle_analytics-count}
use digitdojo_shield.Api.Secrets.{pagination}
use digitdojo_shield.Api.Limiter.{RateLimiter, whole_token, new_rate_limiter, allow}
use digitdojo_shield.Api.Level.{IsFair, level}
use digitdojo_shield.Api.Budget.{passes, passes-bound}
use digitdojo_shield.Api.Access.{
  Request, passed, unauthorized, provided, auth_middleware, auth_middleware-passed,
}

abbrev always_twenty : Text → Option ℤ
always_twenty s = some (pos 20)

twenty : pagination always_twenty (text "20") (text "20") ≡ ok (20, 20)
unfolding pagination
twenty = refl

abbrev fresh : RateLimiter
fresh = new_rate_limiter (pos 5) (pos 2) 7

fresh-IsFair : IsFair fresh
fresh-IsFair = record { refills = omega arith; unique = tt }

abbrev calls : List (Text × ℕ)
calls = (text "c", 9) ∷ (text "d", 9) ∷ (text "c", 9) ∷ (text "c", 10 ^ 9) ∷ []

passes-bound_example :
    (passes (text "c") calls fresh * whole_token ≤ 2 * whole_token + (10 ^ 9 - 7) * 5)
    × ((allow (text "c") 7 fresh).0 ≡ leb whole_token (level (text "c") 7 fresh))
passes-bound_example =
    passes-bound (text "c") 7 calls fresh fresh-IsFair
      (omega arith, (omega arith, (omega arith, (omega arith, tt))))

abbrev request : Request
request = record { api_key = text "k"; authorization = []; client = text "c" }

auth_middleware-passed_example :
    ((auth_middleware true (text "k") request 9 fresh).0 ≡ passed
      → (provided request ≡ text "k")
        × (text_beq (text "k") (text "") ≡ false)
        × ((allow (text "c") 9 fresh).0 ≡ true))
    × (text_beq (text "k") (provided request) ≡ false
        → auth_middleware true (text "k") request 9 fresh ≡ (unauthorized, fresh))
auth_middleware-passed_example = auth_middleware-passed (text "k") request 9 fresh

abbrev pub sample_codec : Codec
sample_codec = record {
  config = sample_loader.unmarshal;
  version = λ s. ok (pos 1);
  address = λ s. ok s;
  rollback_summary = λ v. [];
}

abbrev pub circumstances : Circumstances
circumstances = record {
  faults = no_faults;
  audit_faults = audit_faults;
  clock = 7;
  request_random = some [];
  record_random = some (1 ∷ 2 ∷ 3 ∷ []);
}

abbrev server : Server Text ℕ
server = record { configs = some managed; audit = some audit_manager }

abbrev pub asking : Incoming
asking = record { method = get; body = none; client = text "c"; request_id = text "r" }

abbrev pub default_page : Shown
default_page = page_of default_config managed.history

abbrev pub sending_back : Incoming
sending_back = record asking {
  method = patch;
  body = some (ok (configs.put default_page.config []));
}

abbrev reverting : Incoming
reverting = record asking { method = post; body = some (ok (text "{}")) }

pub sent_back : decode_body sample_codec.config sending_back.body ≡ ok default_page.config
unfolding decode_body page_of text_beq
sent_back = refl

unenforced : status (handle_unban sample_codec (λ ip s. (some true, s)) reverting server).0 ≡ 503
unfolding handle_unban decode_body
unenforced = refl

abbrev day : ℕ
day = 24 * hour

abbrev flood_at : ℕ → Attack
flood_at t = record {
  id = [];
  kind = text "udp_flood";
  severity = text "high";
  started_at = t;
  resolved_at = none;
  mitigation = [];
}

abbrev three_attacks : Store
three_attacks = record {
  metrics = [];
  attacks = flood_at (2 * day) ∷ flood_at (4 * day) ∷ flood_at (3 * day) ∷ [];
  file = none;
}

handle_analytics-count_example :
    handle_analytics get (text "24h") (4 * day) (some three_attacks)
    ≡ answer (record {
      period = text "24h";
      metrics = metrics_since (3 * day) three_attacks;
      attack_count = 2;
    })
unfolding duration_of text_beq
handle_analytics-count_example =
    handle_analytics-count (text "24h") (4 * day) day three_attacks refl (omega arith)
