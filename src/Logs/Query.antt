-- ===== src/Logs/Query.antt =====
-- Query and Export of internal/logger/manager.go over a log of JSON lines.
use digitdojo_shield.Prelude.{
  ℕ, zero, suc, ◌≤◌, ◌≡◌, refl, true, Bool-cases, inl, inr, Bool, false, not, ◌&&◌, ◌||◌, List, [],
  ◌∷◌, ◌++◌, map, Option, none, some, eqb, ltb, if◌then◌else◌, length, keep, ℤ, pos, Text, text,
  text_beq, Result, ok, err, All,
}
use digitdojo_shield.Firewall.Backend.Names.{to_lower}
use digitdojo_shield.Logs.Strings.{passes, found_in}
use digitdojo_shield.Logs.Scan.{
  LineCodec, IsLawfulLines, IsLine, short_lines, file_of, page_limit, page_of, scan_lines,
  scan_lines_lem,
}
use digitdojo_shield.Logs.Rotation.{LogError, open_failed, write_failed, scan_failed}
use digitdojo_shield.Logs.Manager.{Entry}

pub record Query : Type 0 where
  pub search : Text
  pub level : Text
  pub category : Text
  pub from : ℕ
  pub to : ℕ
  pub offset : ℤ
  pub limit : ℤ
  pub desc : Bool

-- What the queries use of other packages: the codec, fmt.Sprint of the fields, the line of the text
-- export.
pub record Lib : Type 0 where
  pub codec : LineCodec Entry
  -- sort.Slice with the latest timestamp first, which leaves the order of equal ones open.
  pub newest_first : List Entry → List Entry
  pub show_fields : List (Text × Text) → Text
  pub show_entry : Entry → Text

abbrev pub within : ℕ → Query → Bool
within t q = not (not (eqb q.from 0) && ltb t q.from) && not (not (eqb q.to 0) && ltb q.to t)

-- matches
unfoldable pub matches : Lib → Query → Entry → Bool
unfolding passes found_in to_lower text_beq
matches lib q e =
    let needle = to_lower q.search in
    passes q.level e.level
    && passes q.category e.category
    && within e.timestamp q
    && (text_beq needle []
        || found_in needle e.message
        || found_in needle (lib.show_fields e.fields))

-- The end of Query: the page is sorted, where that is asked for.
abbrev pub arranged : Lib → Bool → List Entry × ℕ → List Entry × ℕ
arranged lib desc (page, total) = ((if desc then lib.newest_first page else page), total)

abbrev pub scanned : Lib → Query → List Text × Bool → Result LogError (List Entry × ℕ)
scanned lib q (lines, fails) =
    let r = scan_lines lib.codec (matches lib q) q.offset (page_limit q.limit) lines ([], 0) in
    if fails then err scan_failed else ok (arranged lib q.desc r)

-- Query: a page of the entries that match and their number.
unfoldable pub query : Lib → Bool → Query → Option Text → Result LogError (List Entry × ℕ)
unfolding matches scan_lines
query lib open_fails q none = ok ([], 0)
query lib open_fails q (some content) =
    if open_fails then err open_failed else scanned lib q (lib.codec.scan content)

-- The writes of Export, of which `room` succeed: what was written, and the error.
unfoldable pub write_all : ℕ → List Text → Text × Option LogError
write_all room [] = ([], none)
write_all zero (l ∷ ls) = ([], some write_failed)
write_all (suc room) (l ∷ ls) = let rest = write_all room ls in (l ++ rest.0, rest.1)

abbrev pub export_line : Lib → Text → Entry → Text
export_line lib format e =
    if text_beq format (text "txt") then lib.show_entry e else lib.codec.encode e ++ 10 ∷ []

abbrev pub export_found : Lib → Text → ℕ → Result LogError (List Entry × ℕ) → Text × Option LogError
export_found lib format room (err e) = ([], some e)
export_found lib format room (ok (entries, total)) =
    write_all room (map (export_line lib format) entries)

-- Export
unfoldable pub export : Lib → Bool → Query → Text → ℕ → Option Text → Text × Option LogError
unfolding query write_all text_beq
export lib open_fails q format room file =
    export_found lib format room
      (query lib open_fails (record q { offset = pos 0; limit = pos 500; desc = false }) file)

-- No entry is later than the one before it.
abbrev pub IsNewestFirst : List Entry → Type 0
IsNewestFirst [] = Unit
IsNewestFirst (e ∷ es) = All (λ x. x.timestamp ≤ e.timestamp) es × IsNewestFirst es

-- What sort.Slice documents, of a list and the sorted one: the second is in order, and has each item
-- as often as the first, whatever items are counted.
abbrev pub IsSorted : List Entry → List Entry → Type 0
IsSorted xs ys = IsNewestFirst ys × ((p : Entry → Bool) → length (keep p ys) ≡ length (keep p xs))

abbrev pub IsLawfulSort : Lib → Type 0
IsLawfulSort lib = (xs : List Entry) → IsSorted xs (lib.newest_first xs)

-- What Query promises of its page, the entries that match and their number.
abbrev pub IsPage : Query → List Entry → List Entry × ℕ → Type 0
IsPage q found r =
    let page = (page_of q.offset (page_limit q.limit) found).0 in
    (r.1 ≡ length found) × (q.desc ≡ false → r.0 ≡ page) × (q.desc ≡ true → IsSorted page r.0)

arranged-IsPage :
    (lib : Lib) (q : Query) (found : List Entry)
    → IsLawfulSort lib
    → IsPage q found (arranged lib q.desc (page_of q.offset (page_limit q.limit) found))
arranged-IsPage lib q found sorts = elim (Bool-cases q.desc) [
  | inl d ↦ rw d (refl, λ e. cc, λ e. sorts _)
  | inr d ↦ rw d (refl, λ e. refl, λ e. cc)
]

-- The file of the log has a line for each entry, below a megabyte, that is decoded to the entry
-- again, and sort.Slice sorts. Query returns the number of all entries that match, and the page of
-- them from the offset on, up to the limit; with Desc it gives the entries of that page, the
-- newest first.
pub query-IsPage :
    (lib : Lib) (q : Query) (es : List Entry)
    → IsLawfulLines lib.codec
    → IsLawfulSort lib
    → All (IsLine lib.codec) es
    → (r : List Entry × ℕ) × (query lib false q (some (file_of lib.codec es)) ≡ ok r)
      × IsPage q (keep (matches lib q) es) r
unfolding query
query-IsPage lib q es law sorts lines = (
  _,
  rw
      (
        law.scan-file es (short_lines lib.codec es lines),
        scan_lines_lem lib.codec (matches lib q) q.offset (page_limit q.limit) es lines,
      )
      refl,
  arranged-IsPage lib q _ sorts,
)
