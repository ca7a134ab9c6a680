-- ===== src/Api/Access.antt =====
-- authMiddleware and authenticate of internal/api/api.go. The comparison of the tokens takes the same
-- time whatever they are, which is not modelled.
use digitdojo_shield.Prelude.{
  ℕ, ◌≡◌, Bool, true, false, not, [], ◌∷◌, Option, none, some, arith, eqb, if◌then◌else◌, Text,
  text, text_beq, text_beq_iff,
}
use digitdojo_shield.Firewall.Backend.Names.{trim_space}
use digitdojo_shield.Api.Limiter.{RateLimiter, allow}

-- A request, of which the headers X-API-Key and Authorization and the address of the client are read.
pub record Request : Type 0 where
  pub api_key : Text
  pub authorization : Text
  pub client : Text

pub data Reply : Type 0 where
  passed unauthorized rate_limited : Reply

-- What follows a prefix, if the text has it.
unfoldable pub after_prefix : Text → Text → Option Text
after_prefix [] s = some s
after_prefix (p ∷ ps) [] = none
after_prefix (p ∷ ps) (x ∷ s) = let rest = after_prefix ps s in if eqb p x then rest else none

abbrev pub bearer_of : Option Text → Text
bearer_of none = text ""
bearer_of (some s) = trim_space s

-- The token that a request provides.
unfoldable pub provided : Request → Text
unfolding trim_space after_prefix text_beq
provided r =
    if text_beq (trim_space r.api_key) (text "")
    then bearer_of (after_prefix (text "Bearer ") (trim_space r.authorization))
    else trim_space r.api_key

-- authenticate
unfoldable pub authenticate : Bool → Text → Request → Bool
unfolding provided text_beq
authenticate enabled token r =
    if not enabled
    then true
    else if text_beq (provided r) (text "")
    then false
    else text_beq token (provided r)

-- authMiddleware, at a time
unfoldable pub auth_middleware : Bool → Text → Request → ℕ → RateLimiter → Reply × RateLimiter
unfolding authenticate allow
auth_middleware enabled token r now rl =
    if not enabled
    then (passed, rl)
    else if not (authenticate enabled token r)
    then (unauthorized, rl)
    else (let (ok_, rl') = allow r.client now rl in ((if ok_ then passed else rate_limited), rl'))

-- With the API enabled, a request reaches its handler only if the token that it provides is the
-- configured one, which is not empty, and the limiter lets its client through; and a request that
-- provides another token is refused and leaves the limiter as it was.
pub auth_middleware-passed :
    (token : Text) (r : Request) (now : ℕ) (rl : RateLimiter)
    → ((auth_middleware true token r now rl).0 ≡ passed
        → (provided r ≡ token)
          × (text_beq token (text "") ≡ false)
          × ((allow r.client now rl).0 ≡ true))
      × (text_beq token (provided r) ≡ false
          → auth_middleware true token r now rl ≡ (unauthorized, rl))
unfolding auth_middleware authenticate
auth_middleware-passed token r now rl =
    ground (arith, text_beq_iff token (provided r), text_beq_iff (provided r) (text ""))
