-- ===== src/Logs/Scan.antt =====
-- The loop over the lines of a file that Query of internal/logger/manager.go and Query of
-- internal/audit/manager.go both have, and the page that it finds.
use mathlib.Core.List.{append-nil, append_assoc}
use digitdojo_shield.Prelude.{
  ℕ, zero, suc, ◌+◌, ◌<◌, ◌≡◌, refl, sym, ap, ◌∙◌, Bool, true, false, not, ◌&&◌, List, [], ◌∷◌,
  ◌++◌, map, Option, none, some, arith, ◌^◌, ltb, leb, if◌then◌else◌, length, length-append, take,
  drop, keep, Bool-cases, inl, inr, ℤ, pos, negsuc, pos_part, Text, All,
}

-- encoding/json on one line, and bufio.Scanner on a file: its lines, and whether it stopped with an
-- error, as it does at a line of a megabyte.
pub record LineCodec (A : Type 0) : Type 0 where
  pub encode : A → Text
  pub decode : Text → Option A
  pub scan : Text → List Text × Bool

-- The file with a line for each item.
abbrev pub file_of : {A : Type 0} → LineCodec A → List A → Text
file_of c [] = []
file_of c (a ∷ rest) = c.encode a ++ 10 ∷ file_of c rest

-- The lines of such a file are scanned if each is short enough. Nothing is asked of the codec but
-- that it writes no line feed.
pub record IsLawfulLines {A : Type 0} (c : LineCodec A) : Type 0 where
  pub scan-file :
      (xs : List A)
      → All (λ a. length (c.encode a) < 2 ^ 20) xs
      → c.scan (file_of c xs) ≡ (map c.encode xs, false)

-- An item whose line is below a megabyte and is decoded to the item again. encoding/json does not do
-- so with every text: it replaces bytes that are not UTF-8.
abbrev pub IsLine : {A : Type 0} → LineCodec A → A → Type 0
IsLine c a = (c.decode (c.encode a) ≡ some a) × (length (c.encode a) < 2 ^ 20)

pub short_lines :
    {A : Type 0} (c : LineCodec A) (xs : List A)
    → All (IsLine c) xs
    → All (λ a. length (c.encode a) < 2 ^ 20) xs
short_lines c [] h = tt
short_lines c (x ∷ xs) h = (h.0.1, short_lines c xs h.1)

-- `total >= query.Offset`
abbrev pub reached : ℤ → ℕ → Bool
reached (pos n) total = leb n total
reached (negsuc n) total = true

-- The limit of a query, 100 by default and 500 at most.
abbrev pub page_limit : ℤ → ℕ
page_limit (pos zero) = 100
page_limit (pos (suc n)) = if ltb 500 (suc n) then 500 else suc n
page_limit (negsuc n) = 100

module _ {A : Type 0} (c : LineCodec A) (matching : A → Bool) (offset : ℤ) (limit : ℕ) where
  -- A line that decodes to an item, or not; then the item is counted, and kept on the page.
  abbrev pub count_line : List A × ℕ → Option A → List A × ℕ
  count_line (found, total) none = (found, total)
  count_line (found, total) (some a) = if not (matching a) then (found, total) else (
    (if reached offset total && ltb (length found) limit then found ++ a ∷ [] else found),
    total + 1,
  )

  -- The loop: the items of the page and the number of all that match.
  unfoldable pub scan_lines : List Text → List A × ℕ → List A × ℕ
  scan_lines [] acc = acc
  scan_lines (l ∷ ls) acc = scan_lines ls (count_line acc (c.decode l))

-- The page and the number, by their definition: the items less those before the offset, up to the
-- limit, and how many there are.
abbrev pub page_of : {A : Type 0} → ℤ → ℕ → List A → List A × ℕ
page_of offset limit xs = (take limit (drop (pos_part offset) xs), length xs)

module _ {A : Type 0} where
  drop_nil : (n : ℕ) → drop {A = A} n [] ≡ []
  drop_nil zero = refl
  drop_nil (suc n) = refl

  take_nil : (n : ℕ) → take {A = A} n [] ≡ []
  take_nil zero = refl
  take_nil (suc n) = refl

  take_snoc :
      (limit : ℕ) (xs : List A) (a : A)
      → take limit (xs ++ a ∷ [])
        ≡ (if ltb (length (take limit xs)) limit then take limit xs ++ a ∷ [] else take limit xs)
  take_snoc zero xs a = ground arith
  take_snoc (suc n) [] a = ground (arith, take_nil n)
  take_snoc (suc n) (x ∷ xs) a = ground (arith, take_snoc n xs a)

  page_snoc :
      (offset limit : ℕ) (xs : List A) (a : A)
      → take limit (drop offset (xs ++ a ∷ [])) ≡ (
          if leb offset (length xs) && ltb (length (take limit (drop offset xs))) limit
          then take limit (drop offset xs) ++ a ∷ []
          else take limit (drop offset xs))
  page_snoc zero limit xs a = ground (arith, take_snoc limit xs a)
  page_snoc (suc n) limit [] a = ground (arith, drop_nil n, take_nil limit)
  page_snoc (suc n) limit (x ∷ xs) a = page_snoc n limit xs a ∙ ground arith

module _ {A : Type 0} (c : LineCodec A) (matching : A → Bool) (offset : ℤ) (limit : ℕ) where
  page_reached :
      (offset : ℤ) (xs : List A) (a : A)
      → (if reached offset (length xs)
            && ltb (length (take limit (drop (pos_part offset) xs))) limit
          then take limit (drop (pos_part offset) xs) ++ a ∷ []
          else take limit (drop (pos_part offset) xs))
        ≡ take limit (drop (pos_part offset) (xs ++ a ∷ []))
  page_reached (pos n) xs a = sym (page_snoc n limit xs a)
  page_reached (negsuc n) xs a = sym (take_snoc limit xs a)

  count_line_lem :
      (seen : List A) (a : A)
      → count_line c matching offset limit (page_of offset limit seen) (some a)
        ≡ page_of offset limit (if matching a then seen ++ a ∷ [] else seen)
  count_line_lem seen a = elim (Bool-cases (matching a)) [
    | inl m ↦ rw (m, page_reached offset seen a, length-append seen (a ∷ [])) refl
    | inr f ↦ rw f refl
  ]

page_of-nil : {A : Type 0} (offset : ℤ) (limit : ℕ) → ([], 0) ≡ page_of {A = A} offset limit []
page_of-nil {A} (pos n) limit = ground (arith, drop_nil {A = A} n, take_nil {A = A} limit)
page_of-nil {A} (negsuc n) limit = ground (arith, take_nil {A = A} limit)

module _ {A : Type 0} (c : LineCodec A) (matching : A → Bool) (offset : ℤ) (limit : ℕ) where
  scan_lines_from :
      (seen xs : List A)
      → All (IsLine c) xs
      → scan_lines c matching offset limit (map c.encode xs) (page_of offset limit seen)
        ≡ page_of offset limit (seen ++ keep matching xs)
  unfolding scan_lines
  scan_lines_from seen [] h = rw (append-nil) refl
  scan_lines_from seen (x ∷ xs) h =
      let next = if matching x then seen ++ x ∷ [] else seen in
      let line =
        ap (count_line c matching offset limit (page_of offset limit seen)) h.0.0
        ∙ count_line_lem c matching offset limit seen x in
      ap (scan_lines c matching offset limit (map c.encode xs)) line
      ∙ scan_lines_from next xs h.1
      ∙ ap (page_of offset limit) (elim (Bool-cases (matching x)) [
        | inl m ↦ rw m (append_assoc seen (x ∷ []) _)
        | inr f ↦ rw f refl
      ])

  pub scan_lines_lem :
      (xs : List A)
      → All (IsLine c) xs
      → scan_lines c matching offset limit (map c.encode xs) ([], 0)
        ≡ page_of offset limit (keep matching xs)
  scan_lines_lem xs h =
      ap (scan_lines c matching offset limit (map c.encode xs)) (page_of-nil offset limit)
      ∙ scan_lines_from [] xs h

pub file_of-snoc :
    {A : Type 0} (c : LineCodec A) (xs : List A) (a : A)
    → file_of c (xs ++ a ∷ []) ≡ file_of c xs ++ (c.encode a ++ 10 ∷ [])
file_of-snoc c [] a = refl
file_of-snoc c (x ∷ xs) a =
    rw (file_of-snoc c xs a)
      (sym (append_assoc (c.encode x) (10 ∷ file_of c xs) (c.encode a ++ 10 ∷ [])))
