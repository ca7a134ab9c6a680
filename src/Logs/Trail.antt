-- ===== src/Logs/Trail.antt =====
-- What internal/audit/manager.go keeps of its records.
use mathlib.Core.List.{append-nil, append_assoc}
use digitdojo_shield.Prelude.{
  ℕ, ◌≡◌, refl, sym, ap, ◌∙◌, Bool, true, false, List, [], ◌∷◌, ◌++◌, map, Option, none, some, inl,
  inr, Bool-cases, take, keep, Text, Result, ok, err, All,
}
use digitdojo_shield.Logs.Scan.{
  IsLawfulLines, IsLine, short_lines, file_of, file_of-snoc, page_limit, page_of, scan_lines_lem,
}
use digitdojo_shield.Logs.Manager.{content_of, append_to, append_error}
use digitdojo_shield.Logs.Audit.{
  AuditError, Record, Query, Manager, Lib, Faults, with_id, completed, notified, append_record,
  record_identified, record_action, matches, query,
}

-- A call of Record: its faults, its time, the random bytes and the record.
pub record Call : Type 0 where
  pub faults : Faults
  pub clock : ℕ
  pub random : Option (List ℕ)
  pub entry : Record

append_to_extends :
    (w : Option ℕ) (line : Text) (file : Option Text)
    → (suffix : Text) × (append_to w line file ≡ content_of file ++ suffix)
append_to_extends none line file = (line, refl)
append_to_extends (some n) line file = (take n line, refl)

module _ {H : Type 0} (lib : Lib) where
  -- Calls of Record, one after the other.
  unfoldable pub record_all : List Call → Manager H → Manager H
  unfolding record_action
  record_all [] m = m
  record_all (c ∷ cs) m = record_all cs (record_action lib c.faults c.clock c.random c.entry m).1

  append_record_extends :
      (f : Faults) (clock : ℕ) (r : Record) (m : Manager H)
      → (suffix : Text) × (content_of (append_record lib f clock r m).1.file
          ≡ content_of m.file ++ suffix)
  append_record_extends f clock r m = elim (Bool-cases f.marshal) [
    | inl a ↦ ([], rw (a, append-nil) refl)
    | inr a ↦ elim (Bool-cases f.open_file) [
      | inl b ↦ ([], rw (a, b, append-nil) refl)
      | inr b ↦ rw (a, b) (append_to_extends f.write (lib.codec.encode r ++ 10 ∷ []) m.file)
    ]
  ]

  record_extends :
      (c : Call) (m : Manager H) (r : Result AuditError Record)
      → (suffix : Text) × (content_of (record_identified lib c.faults c.clock r m).1.file
          ≡ content_of m.file ++ suffix)
  record_extends c m (err e) = ([], sym (append-nil (content_of m.file)))
  record_extends c m (ok r) = append_record_extends c.faults c.clock (completed c.clock r) m

  -- Calls of Record with any faults, failed and partial writes included, leave what the audit file
  -- had before as its beginning.
  pub record_all-append_only :
      (calls : List Call) (m : Manager H)
      → (suffix : Text) × (content_of (record_all calls m).file ≡ content_of m.file ++ suffix)
  unfolding record_all
  record_all-append_only [] m = ([], sym (append-nil (content_of m.file)))
  record_all-append_only (c ∷ cs) m =
      let one = record_extends c m (with_id c.random c.entry) in
      let rest =
        record_all-append_only cs (record_action lib c.faults c.clock c.random c.entry m).1 in
      (
        one.0 ++ rest.0,
        rest.1
            ∙ ap (λ (t : Text). t ++ rest.0) one.1
            ∙ append_assoc (content_of m.file) one.0 rest.0,
      )

query_lem :
    (lib : Lib) (q : Query) (es : List Record)
    → IsLawfulLines lib.codec
    → All (IsLine lib.codec) es
    → query lib false q (some (file_of lib.codec es))
      ≡ (page_of q.offset (page_limit q.limit) (keep (matches lib q) es), none)
unfolding query
query_lem lib q es law short =
    rw
      (
        law.scan-file es (short_lines lib.codec es short),
        scan_lines_lem lib.codec (matches lib q) q.offset (page_limit q.limit) es short,
      )
      refl

module _ {H : Type 0} (lib : Lib) (f : Faults) (clock : ℕ) (r : Record) (m : Manager H) where
  notified_lem :
      (w : Option ℕ) (s c : Bool)
      → (notified lib f clock r m (append_error w s c)).0 ≡ none
      → (w ≡ none)
        × ((notified lib f clock r m (append_error w s c)).1 ≡ map (λ s. (s.1, r)) m.subscribers)
  notified_lem (some n) s c h = cc
  notified_lem none true c h = cc
  notified_lem none false true h = cc
  notified_lem none false false h = (refl, refl)

  append_record_lem :
      (append_record lib f clock r m).0.0 ≡ none
      → ((append_record lib f clock r m).1.file
          ≡ some (content_of m.file ++ (lib.codec.encode r ++ 10 ∷ [])))
        × ((append_record lib f clock r m).0.1 ≡ map (λ s. (s.1, r)) m.subscribers)
  append_record_lem = marshalled f.marshal f.open_file
    where
      marshalled :
          (a b : Bool)
          → (append_record lib (record f { marshal = a; open_file = b }) clock r m).0.0 ≡ none
          → ((append_record lib (record f { marshal = a; open_file = b }) clock r m).1.file
              ≡ some (content_of m.file ++ (lib.codec.encode r ++ 10 ∷ [])))
            × ((append_record lib (record f { marshal = a; open_file = b }) clock r m).0.1
                ≡ map (λ s. (s.1, r)) m.subscribers)
      marshalled true b h = cc
      marshalled false true h = cc
      marshalled false false h =
          let done = notified_lem f.write f.sync f.close h in
          (
            ap (λ (w : Option ℕ). some (append_to w (lib.codec.encode r ++ 10 ∷ []) m.file)) done.0,
            done.1,
          )

-- The audit file has a line for each record, and each of these and the new one has a line below a
-- megabyte that is decoded to it again. If Record returns no error, Query finds the page of the records with the completed new one at their
-- end, and each subscriber was called with it.
pub record_action-query :
    {H : Type 0} (lib : Lib) (f : Faults) (clock : ℕ) (random : Option (List ℕ)) (r r' : Record)
    (m : Manager H) (es : List Record) (q : Query)
    → IsLawfulLines lib.codec
    → All (IsLine lib.codec) (es ++ completed clock r' ∷ [])
    → m.file ≡ some (file_of lib.codec es)
    → with_id random r ≡ ok r'
    → let a = record_action lib f clock random r m in
      a.0.0 ≡ none
      → (query lib false q a.1.file ≡ (
        page_of q.offset
            (page_limit q.limit)
            (keep (matches lib q) (es ++ completed clock r' ∷ [])),
        none,
      ))
        × (a.0.1 ≡ map (λ s. (s.1, completed clock r')) m.subscribers)
unfolding record_action
record_action-query lib f clock random r r' m es q law short file identified h =
    let e = completed clock r' in
    let same =
      ap (λ (x : Result AuditError Record). record_identified lib f clock x m) identified in
    let done =
      append_record_lem lib f clock e m
        (sym (ap (λ (a : (Option AuditError × List (_ × Record)) × Manager _). a.0.0) same) ∙ h) in
    rw (same, done.1, done.0, file)
      (
        ap (λ (t : Text). query lib false q (some t)) (sym (file_of-snoc lib.codec es e))
            ∙ query_lem lib q _ law short,
        refl,
      )
