-- ===== src/Firewall/Backend/Names.antt =====
-- `ParseName` of internal/firewall/backend/backend.go, on ASCII text.
use digitdojo_shield.Prelude.{
  ℕ, ◌+◌, ◌≡◌, refl, ap, ◌∙◌, Bool, true, false, ◌&&◌, ◌||◌, [], ◌∷◌, map, arith, leb, eqb,
  if◌then◌else◌, Text, Result, ok, err,
}

abbrev pub is_space : ℕ → Bool
is_space c = eqb c 32 || (leb 9 c && leb c 13)

abbrev pub is_lower : ℕ → Bool
is_lower c = leb b'a' c && leb c b'z'

unfoldable pub trim_left : Text → Text
trim_left [] = []
trim_left (c ∷ s) = if is_space c then trim_left s else c ∷ s

abbrev cons_or_drop : ℕ → Text → Text
cons_or_drop c [] = if is_space c then [] else c ∷ []
cons_or_drop c (d ∷ s) = c ∷ d ∷ s

unfoldable pub trim_right : Text → Text
trim_right [] = []
trim_right (c ∷ s) = cons_or_drop c (trim_right s)

-- strings.TrimSpace
unfoldable pub trim_space : Text → Text
unfolding trim_left trim_right
trim_space s = trim_right (trim_left s)

unfoldable pub lower : ℕ → ℕ
lower c = if leb b'A' c && leb c b'Z' then c + 32 else c

-- strings.ToLower
unfoldable pub to_lower : Text → Text
unfolding lower
to_lower s = map lower s

abbrev pub is_name_char : ℕ → Bool
is_name_char c = is_lower c || (leb b'0' c && leb c b'9') || eqb c b'_' || eqb c b'-'

unfoldable pub all_name_chars : Text → Bool
all_name_chars [] = true
all_name_chars (c ∷ s) = is_name_char c && all_name_chars s

-- validName, `^[a-z][a-z0-9_-]*$`
unfoldable pub valid_name : Text → Bool
unfolding all_name_chars
valid_name [] = false
valid_name (c ∷ s) = is_lower c && all_name_chars s

pub data NameError : Type 0 where
  invalid_name : Text → NameError

unfoldable pub parse_name : Text → Result NameError Text
unfolding trim_space to_lower valid_name
parse_name value =
    let name = to_lower (trim_space value) in
    if valid_name name then ok name else err (invalid_name name)

trim_right-name : (s : Text) → all_name_chars s ≡ true → trim_right s ≡ s
unfolding trim_right all_name_chars
trim_right-name [] h = refl
trim_right-name (c ∷ []) h = ground arith
trim_right-name (c ∷ d ∷ s) h = ground (arith, trim_right-name (d ∷ s))

to_lower-name : (s : Text) → all_name_chars s ≡ true → to_lower s ≡ s
unfolding to_lower all_name_chars
to_lower-name [] h = refl
to_lower-name (c ∷ s) h = ground (arith, to_lower-name s)

valid_name-chars : (s : Text) → valid_name s ≡ true → all_name_chars s ≡ true
unfolding valid_name
valid_name-chars [] h = cc
valid_name-chars (c ∷ s) h = ground arith

trim_left-name : (s : Text) → valid_name s ≡ true → trim_left s ≡ s
unfolding trim_left valid_name
trim_left-name [] h = refl
trim_left-name (c ∷ s) h = ground arith

trim_space-name : (s : Text) → valid_name s ≡ true → trim_space s ≡ s
unfolding trim_space
trim_space-name s h = ap trim_right (trim_left-name s h) ∙ trim_right-name s (valid_name-chars s h)

-- A name in normal form is returned as it is.
pub parse_name_fixed : (s : Text) → valid_name s ≡ true → parse_name s ≡ ok s
unfolding parse_name
parse_name_fixed s h =
    let e : to_lower (trim_space s) ≡ s =
      ap to_lower (trim_space-name s h) ∙ to_lower-name s (valid_name-chars s h) in
    rw (e, h)

pub parse_name-valid : (s n : Text) → parse_name s ≡ ok n → valid_name n ≡ true
unfolding parse_name
parse_name-valid s n h = ground arith

-- A name that `ParseName` returned is parsed to itself.
pub parse_name_idem : (s n : Text) → parse_name s ≡ ok n → parse_name n ≡ ok n
parse_name_idem s n h = parse_name_fixed n (parse_name-valid s n h)
