-- ===== src/Logs/Samples.antt =====
-- A codec of lines that meets its laws, for entries of the log and for records of the audit: texts
-- with their lengths in front, in bytes above the line break.
use digitdojo_shield.Prelude.{
  ℕ, ◌+◌, ◌-◌, ◌≡◌, refl, ap, ◌∙◌, false, List, [], ◌∷◌, ◌++◌, map, Option, none, some, arith, eqb,
  if◌then◌else◌, length, Text,
}
use digitdojo_shield.Storage.Tests.{put_texts, get_texts, get_texts-put_texts}
use digitdojo_shield.Prelude.{leb, keep, insert_by, sort_by, All, Bool, Bool-cases, inl, inr, ◌≤◌}
use digitdojo_shield.Logs.Query.{IsNewestFirst, IsSorted}
use digitdojo_shield.Logs.Scan.{LineCodec, IsLawfulLines, file_of}
use digitdojo_shield.Logs.Manager.{Entry}
use digitdojo_shield.Logs.Audit.{Record}

abbrev shift : Text → Text
shift = map λ n. n + 11

abbrev unshift : Text → Text
unshift = map λ n. n - 11

unshift-shift : (t : Text) → unshift (shift t) ≡ t
unshift-shift [] = refl
unshift-shift (n ∷ t) = let p : n + 11 - 11 ≡ n = omega arith in rw (p, unshift-shift t) refl

abbrev cons_line : ℕ → List Text → List Text
cons_line c [] = (c ∷ []) ∷ []
cons_line c (l ∷ ls) = (c ∷ l) ∷ ls

unfoldable pub split_lines : Text → List Text
split_lines [] = []
split_lines (c ∷ s) = let rest = split_lines s in if eqb c 10 then [] ∷ rest else cons_line c rest

split_lines-shift :
    (t rest : Text) → split_lines (shift t ++ 10 ∷ rest) ≡ shift t ∷ split_lines rest
unfolding split_lines
split_lines-shift [] rest = refl
split_lines-shift (n ∷ t) rest =
    let p : eqb (n + 11) 10 ≡ false = ground arith in rw (p, split_lines-shift t rest) refl

module _ {A : Type 0} (to : A → List Text) (from : List Text → Option A) where
  abbrev parse_texts : Option (List Text × Text) → Option A
  parse_texts none = none
  parse_texts (some (ts, rest)) = from ts

  abbrev parse_line : Text → Option A
  parse_line [] = none
  parse_line (n ∷ s) = parse_texts (get_texts n s)

  abbrev pub lines_of : LineCodec A
  lines_of = record {
    encode = λ a. shift (length (to a) ∷ put_texts (to a) []);
    decode = λ l. parse_line (unshift l);
    scan = λ s. (split_lines s, false);
  }

  split_file : (xs : List A) → split_lines (file_of lines_of xs) ≡ map lines_of.encode xs
  unfolding split_lines
  split_file [] = refl
  split_file (x ∷ xs) =
      split_lines-shift (length (to x) ∷ put_texts (to x) []) (file_of lines_of xs)
      ∙ ap (λ ls. lines_of.encode x ∷ ls) (split_file xs)

  pub lines_of-decoded :
      ((a : A) → from (to a) ≡ some a) → (a : A) → lines_of.decode (lines_of.encode a) ≡ some a
  lines_of-decoded h a =
      ap parse_line (unshift-shift (length (to a) ∷ put_texts (to a) []))
      ∙ ap parse_texts (get_texts-put_texts (to a) [])
      ∙ h a

  pub lines_of-lawful : IsLawfulLines lines_of
  lines_of-lawful = record {
    scan-file = λ xs short. ap (λ (ls : List Text). (ls, false)) (split_file xs);
  }

abbrev field_texts : List (Text × Text) → List Text
field_texts [] = []
field_texts ((k, v) ∷ rest) = k ∷ v ∷ field_texts rest

abbrev texts_fields : List Text → List (Text × Text)
texts_fields [] = []
texts_fields (k ∷ []) = []
texts_fields (k ∷ v ∷ rest) = (k, v) ∷ texts_fields rest

texts_fields-field_texts : (fs : List (Text × Text)) → texts_fields (field_texts fs) ≡ fs
texts_fields-field_texts [] = refl
texts_fields-field_texts ((k, v) ∷ rest) =
    ap (λ (fs : List (Text × Text)). (k, v) ∷ fs) (texts_fields-field_texts rest)

abbrev pub entry_texts : Entry → List Text
entry_texts e = (e.timestamp ∷ []) ∷ e.level ∷ e.category ∷ e.message ∷ field_texts e.fields

abbrev pub texts_entry : List Text → Option Entry
texts_entry ((t ∷ []) ∷ l ∷ c ∷ m ∷ fs) =
    some (record { timestamp = t; level = l; category = c; message = m; fields = texts_fields fs })
texts_entry ts = none

abbrev pub entry_lines : LineCodec Entry
entry_lines = lines_of entry_texts texts_entry

pub entry_lines-lawful : IsLawfulLines entry_lines
entry_lines-lawful = lines_of-lawful entry_texts texts_entry

pub entry_lines-decoded : (e : Entry) → entry_lines.decode (entry_lines.encode e) ≡ some e
entry_lines-decoded =
    lines_of-decoded entry_texts texts_entry (λ e. rw (texts_fields-field_texts e.fields) refl)

abbrev pub record_texts : Record → List Text
record_texts r =
    r.id
    ∷ (r.timestamp ∷ [])
    ∷ r.user
    ∷ r.source_ip
    ∷ r.action
    ∷ r.resource
    ∷ r.previous
    ∷ r.new_value
    ∷ r.result
    ∷ r.request_id
    ∷ []

abbrev pub texts_record : List Text → Option Record
texts_record (i ∷ (t ∷ []) ∷ u ∷ s ∷ a ∷ r ∷ p ∷ n ∷ x ∷ q ∷ []) = some (record {
  id = i;
  timestamp = t;
  user = u;
  source_ip = s;
  action = a;
  resource = r;
  previous = p;
  new_value = n;
  result = x;
  request_id = q;
})
texts_record ts = none

abbrev pub record_lines : LineCodec Record
record_lines = lines_of record_texts texts_record

pub record_lines-lawful : IsLawfulLines record_lines
record_lines-lawful = lines_of-lawful record_texts texts_record

pub record_lines-decoded : (r : Record) → record_lines.decode (record_lines.encode r) ≡ some r
record_lines-decoded = lines_of-decoded record_texts texts_record (λ r. refl)

abbrev pub later : Entry → Entry → Bool
later a b = leb b.timestamp a.timestamp

count_insert :
    (p : Entry → Bool) (a : Entry) (xs : List Entry)
    → length (keep p (insert_by later a xs)) ≡ length (keep p (a ∷ xs))
unfolding insert_by
count_insert p a [] = refl
count_insert p a (x ∷ xs) = ground (arith, count_insert p a xs)

count_sort :
    (p : Entry → Bool) (xs : List Entry) → length (keep p (sort_by later xs)) ≡ length (keep p xs)
unfolding sort_by
count_sort p [] = refl
count_sort p (x ∷ xs) = ground (arith, count_insert p x (sort_by later xs), count_sort p xs)

All-earlier :
    (s t : ℕ) (xs : List Entry)
    → s ≤ t
    → All (λ x. x.timestamp ≤ s) xs
    → All (λ x. x.timestamp ≤ t) xs
All-earlier s t [] h k = tt
All-earlier s t (x ∷ xs) h k = (omega (arith, k.0), All-earlier s t xs h k.1)

All-insert :
    (t : ℕ) (a : Entry) (xs : List Entry)
    → a.timestamp ≤ t
    → All (λ x. x.timestamp ≤ t) xs
    → All (λ x. x.timestamp ≤ t) (insert_by later a xs)
unfolding insert_by
All-insert t a [] l h = (l, tt)
All-insert t a (x ∷ xs) l h = ground (arith, All-insert t a xs l)

insert-IsNewestFirst :
    (a : Entry) (xs : List Entry) → IsNewestFirst xs → IsNewestFirst (insert_by later a xs)
unfolding insert_by
insert-IsNewestFirst a [] h = (tt, tt)
insert-IsNewestFirst a (x ∷ xs) h = elim (Bool-cases (later a x)) [
  | inl l ↦
      let le : x.timestamp ≤ a.timestamp = ground arith in
      rw l ((le, All-earlier x.timestamp a.timestamp xs le h.0), h)
  | inr g ↦
      let le : a.timestamp ≤ x.timestamp = ground arith in
      rw g (All-insert x.timestamp a xs le h.0, insert-IsNewestFirst a xs h.1)
]

sort_later-IsNewestFirst : (xs : List Entry) → IsNewestFirst (sort_by later xs)
unfolding sort_by
sort_later-IsNewestFirst [] = tt
sort_later-IsNewestFirst (x ∷ xs) =
    insert-IsNewestFirst x (sort_by later xs) (sort_later-IsNewestFirst xs)

pub sort_later-IsSorted : (xs : List Entry) → IsSorted xs (sort_by later xs)
sort_later-IsSorted xs = (sort_later-IsNewestFirst xs, λ p. count_sort p xs)
