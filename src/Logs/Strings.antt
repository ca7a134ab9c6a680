-- ===== src/Logs/Strings.antt =====
-- The functions of package strings that the filters of internal/logger and internal/audit call, on
-- ASCII text.
use digitdojo_shield.Prelude.{
  ◌-◌, leb, if◌then◌else◌, ℕ, Bool, true, false, ◌&&◌, ◌||◌, [], ◌∷◌, map, eqb, Text, text_beq,
}
use digitdojo_shield.Firewall.Backend.Names.{to_lower}

-- strings.EqualFold
unfoldable pub equal_fold : Text → Text → Bool
unfolding to_lower text_beq
equal_fold s t = text_beq (to_lower s) (to_lower t)

unfoldable pub starts_with : Text → Text → Bool
starts_with [] s = true
starts_with (p ∷ ps) [] = false
starts_with (p ∷ ps) (c ∷ s) = eqb p c && starts_with ps s

-- strings.Contains
unfoldable pub contains : Text → Text → Bool
unfolding starts_with
contains [] needle = starts_with needle []
contains (c ∷ s) needle = starts_with needle (c ∷ s) || contains s needle

-- A filter of a query: an empty one lets everything pass.
unfoldable pub passes : Text → Text → Bool
unfolding equal_fold text_beq
passes wanted value = text_beq wanted [] || equal_fold value wanted

abbrev upper : ℕ → ℕ
upper c = if leb b'a' c && leb c b'z' then c - 32 else c

-- strings.ToUpper
unfoldable pub to_upper : Text → Text
to_upper s = map upper s

-- The search of a query in one text.
unfoldable pub found_in : Text → Text → Bool
unfolding contains to_lower
found_in needle s = contains (to_lower s) needle
