-- ===== src/Api/Secrets.antt =====
-- The configuration that internal/api/api.go shows and takes back, and the pages of its lists.
use digitdojo_shield.Prelude.{
  ℕ, ◌≤◌, ◌≡◌, refl, ap, ◌∙◌, false, ◌||◌, [], ◌∷◌, Option, none, some, arith, ltb, if◌then◌else◌,
  ℤ, pos, negsuc, Text, text, text_beq, Result, ok, err,
}
use digitdojo_shield.Config.Settings.{Config}

-- writeRedactedConfig: the configuration that is written out.
abbrev pub redacted : Config → Config
redacted c = record c {
  api = record c.api { token = text "" };
  alerts = record c.alerts { discord_webhook = text ""; slack_webhook = text ""; email = text "" };
}

abbrev pub or_current : Text → Text → Text
or_current [] current = current
or_current (x ∷ s) current = x ∷ s

-- preserveSecrets
abbrev pub preserve_secrets : Config → Config → Config
preserve_secrets candidate current = record candidate {
  api = record candidate.api { token = or_current candidate.api.token current.api.token };
  alerts = record candidate.alerts {
    discord_webhook = or_current candidate.alerts.discord_webhook current.alerts.discord_webhook;
    slack_webhook = or_current candidate.alerts.slack_webhook current.alerts.slack_webhook;
    email = or_current candidate.alerts.email current.alerts.email;
  };
}

or_current-lem : (s t : Text) → text_beq s [] ≡ false → or_current s t ≡ s
unfolding text_beq
or_current-lem [] t h = cc
or_current-lem (x ∷ s) t h = refl

-- A client that sends back what it was shown changes nothing: the redacted configuration with the
-- secrets of the current one put back is the current one. And a candidate that has all four of its
-- secrets keeps them, whatever the current ones are.
preserve_secrets-redacted :
    (c d : Config)
    → (preserve_secrets (redacted c) c ≡ c)
      × (text_beq d.api.token [] ≡ false
          → text_beq d.alerts.discord_webhook [] ≡ false
          → text_beq d.alerts.slack_webhook [] ≡ false
          → text_beq d.alerts.email [] ≡ false
          → preserve_secrets d c ≡ d)
preserve_secrets-redacted c d = (
  refl,
  λ a b e f.
      rw (or_current-lem _ _ a, or_current-lem _ _ b, or_current-lem _ _ e, or_current-lem _ _ f)
        refl,
)

pub data PageError : Type 0 where
  bad_offset bad_limit : PageError

-- The offset of a query, by strconv.Atoi, and then the limit; an absent parameter is the empty text.
abbrev pub read_offset : (Text → Option ℤ) → Text → Result PageError ℕ
read_offset atoi [] = ok 0
read_offset atoi (x ∷ s) = elim (atoi (x ∷ s)) [
  | none ↦ err bad_offset
  | some i ↦ elim i [ pos n ↦ ok n | negsuc n ↦ err bad_offset ]
]

abbrev pub in_page : ℤ → Result PageError ℕ
in_page (pos n) = if ltb n 1 || ltb 200 n then err bad_limit else ok n
in_page (negsuc n) = err bad_limit

abbrev pub read_limit : (Text → Option ℤ) → Text → Result PageError ℕ
read_limit atoi [] = ok 50
read_limit atoi (x ∷ s) = elim (atoi (x ∷ s)) [ none ↦ err bad_limit | some i ↦ in_page i ]

abbrev pub page_of : Result PageError ℕ → Result PageError ℕ → Result PageError (ℕ × ℕ)
page_of (err e) limit = err e
page_of (ok offset) (err e) = err e
page_of (ok offset) (ok limit) = ok (offset, limit)

-- pagination
unfoldable pub pagination : (Text → Option ℤ) → Text → Text → Result PageError (ℕ × ℕ)
pagination atoi offset limit = page_of (read_offset atoi offset) (read_limit atoi limit)

in_page-bounds : (i : ℤ) (n : ℕ) → in_page i ≡ ok n → (1 ≤ n) × (n ≤ 200)
in_page-bounds (pos m) n h = ground arith
in_page-bounds (negsuc m) n h = cc

read_limit-bounds :
    (atoi : Text → Option ℤ) (s : Text) (n : ℕ) → read_limit atoi s ≡ ok n → (1 ≤ n) × (n ≤ 200)
read_limit-bounds atoi [] n h = ground arith
read_limit-bounds atoi (x ∷ s) n h = go (atoi (x ∷ s)) h
  where
    go :
        (o : Option ℤ)
        → elim o as (λ _. Result PageError ℕ) [ none ↦ err bad_limit | some i ↦ in_page i ] ≡ ok n
        → (1 ≤ n) × (n ≤ 200)
    go none k = cc
    go (some i) k = in_page-bounds i n k

-- A page that a request gets has between 1 and 200 items, whatever its parameters are.
pagination-bounds :
    (atoi : Text → Option ℤ) (offset limit : Text) (o l : ℕ)
    → pagination atoi offset limit ≡ ok (o, l)
    → (1 ≤ l) × (l ≤ 200)
unfolding pagination
pagination-bounds atoi offset limit o l h =
    go (read_offset atoi offset) (read_limit atoi limit) refl h
  where
    go :
        (a b : Result PageError ℕ)
        → read_limit atoi limit ≡ b
        → page_of a b ≡ ok (o, l)
        → (1 ≤ l) × (l ≤ 200)
    go (err e) b q k = cc
    go (ok x) (err e) q k = cc
    go (ok x) (ok y) q k = let p : y ≡ l = cc in read_limit-bounds atoi limit l (q ∙ ap ok p)
