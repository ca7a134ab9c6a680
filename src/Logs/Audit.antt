-- ===== src/Logs/Audit.antt =====
-- internal/audit/manager.go: the records of management actions, appended to a file of JSON lines.
-- The random bytes of an identifier, the time and the failing calls of the operating system are
-- arguments, the codec is a parameter.

use digitdojo_shield.Prelude.{
  ℕ, ◌+◌, ◌/◌, ◌%◌, ◌^◌, Bool, ◌&&◌, ◌||◌, List, [], ◌∷◌, ◌++◌, map, Option, none, some, eqb, ltb,
  if◌then◌else◌, take, drop, put, remove, nat_eq, ℤ, pos, Text, text, text_beq, Result, ok, err,
}
use digitdojo_shield.Firewall.Backend.Names.{to_lower}
use digitdojo_shield.Logs.Strings.{passes, found_in}
use digitdojo_shield.Logs.Scan.{LineCodec, page_limit, scan_lines}
use digitdojo_shield.Logs.Rotation.{
  LogError, path_required, mkdir_failed, encode_failed, open_failed, scan_failed,
}
use digitdojo_shield.Logs.Manager.{append_to, append_error}
use digitdojo_shield.Logs.Query.{write_all}

pub record Record : Type 0 where
  pub id : Text
  pub timestamp : ℕ
  pub user : Text
  pub source_ip : Text
  pub action : Text
  pub resource : Text
  pub previous : Text
  pub new_value : Text
  pub result : Text
  pub request_id : Text

pub record Query : Type 0 where
  pub search : Text
  pub action : Text
  pub resource : Text
  pub result : Text
  pub offset : ℤ
  pub limit : ℤ

pub record Manager (H : Type 0) : Type 0 where
  pub file : Option Text
  pub subscribers : List (ℕ × H)
  pub next : ℕ

pub record Lib : Type 0 where
  pub codec : LineCodec Record
  -- fmt.Sprintf of a record.
  pub show : Record → Text

pub record Faults : Type 0 where
  pub marshal : Bool
  pub open_file : Bool
  pub write : Option ℕ
  pub sync : Bool
  pub close : Bool

pub data AuditError : Type 0 where
  random_failed : AuditError
  failed : LogError → AuditError

-- New
unfoldable pub new : {H : Type 0} → Bool → Text → Option Text → Result LogError (Manager H)
unfolding text_beq
new mkdir_fails path file =
    if text_beq path []
    then err path_required
    else if mkdir_fails
    then err mkdir_failed
    else ok (record { file = file; subscribers = []; next = 0 })

abbrev hex_digit : ℕ → ℕ
hex_digit d = if ltb d 10 then 48 + d else 87 + d

-- hex.EncodeToString
unfoldable pub hex : List ℕ → Text
hex [] = []
hex (b ∷ bs) = hex_digit (b / 16) ∷ hex_digit (b % 16) ∷ hex bs

abbrev slice : ℕ → ℕ → List ℕ → List ℕ
slice from n bs = take n (drop from bs)

-- NewID, on the bytes that rand.Read gives.
unfoldable pub new_id : Option (List ℕ) → Result AuditError Text
unfolding hex
new_id none = err random_failed
new_id (some bs) = ok (
    hex (slice 0 4 bs)
    ++ text "-"
    ++ hex (slice 4 2 bs)
    ++ text "-"
    ++ hex (slice 6 2 bs)
    ++ text "-"
    ++ hex (slice 8 2 bs)
    ++ text "-"
    ++ hex (drop 10 bs))

abbrev pub with_id : Option (List ℕ) → Record → Result AuditError Record
with_id random r = if text_beq r.id [] then renamed r (new_id random) else ok r
  where
    renamed : Record → Result AuditError Text → Result AuditError Record
    renamed r (err e) = err e
    renamed r (ok id) = ok (record r { id = id })

-- The record that is encoded, at the time `clock`.
abbrev pub completed : ℕ → Record → Record
completed clock r = record r {
  timestamp = if eqb r.timestamp 0 then clock else r.timestamp;
  result = if text_beq r.result [] then text "success" else r.result;
}

module _ {H : Type 0} (lib : Lib) (f : Faults) (clock : ℕ) where
  abbrev pub notified : Record → Manager H → Option LogError → Option AuditError × List (H × Record)
  notified r m (some e) = (some (failed e), [])
  notified r m none = (none, map (λ s. (s.1, r)) m.subscribers)

  abbrev pub append_record :
      Record → Manager H → (Option AuditError × List (H × Record)) × Manager H
  append_record r m =
      let line = lib.codec.encode r ++ 10 ∷ [] in
      if f.marshal
      then ((some (failed encode_failed), []), m)
      else if f.open_file
      then ((some (failed open_failed), []), m)
      else (
        notified r m (append_error f.write f.sync f.close),
        record m { file = some (append_to f.write line m.file) },
      )

  abbrev pub record_identified :
      Result AuditError Record → Manager H → (Option AuditError × List (H × Record)) × Manager H
  record_identified (err e) m = ((some e, []), m)
  record_identified (ok r) m = append_record (completed clock r) m

  -- Record: the error, the calls of the subscribers and the manager.
  unfoldable pub record_action :
      Option (List ℕ) → Record → Manager H → (Option AuditError × List (H × Record)) × Manager H
  unfolding new_id text_beq
  record_action random r m = record_identified (with_id random r) m

-- Subscribe, with the identifier that the returned function deletes.
unfoldable pub subscribe : {H : Type 0} → H → Manager H → ℕ × Manager H
unfolding put
subscribe fn m =
    (m.next, record m { subscribers = put m.next fn m.subscribers; next = (m.next + 1) % 2 ^ 64 })

-- The function that Subscribe returned.
unfoldable pub unsubscribe : {H : Type 0} → ℕ → Manager H → Manager H
unfolding remove
unsubscribe id m = record m { subscribers = remove id m.subscribers }

-- matches
unfoldable pub matches : Lib → Query → Record → Bool
unfolding passes found_in to_lower text_beq
matches lib q r =
    let needle = to_lower q.search in
    passes q.action r.action
    && passes q.resource r.resource
    && passes q.result r.result
    && (text_beq needle [] || found_in needle (lib.show r))

abbrev pub scanned : Lib → Query → List Text × Bool → (List Record × ℕ) × Option LogError
scanned lib q (lines, fails) = (
  scan_lines lib.codec (matches lib q) q.offset (page_limit q.limit) lines ([], 0),
  if fails then some scan_failed else none,
)

-- Query: a page of the records that match, their number and the error of the scanner.
unfoldable pub query : Lib → Bool → Query → Option Text → (List Record × ℕ) × Option LogError
unfolding matches scan_lines
query lib open_fails q none = (([], 0), none)
query lib open_fails q (some content) =
    if open_fails then (([], 0), some open_failed) else scanned lib q (lib.codec.scan content)

abbrev pub export_found : Lib → ℕ → (List Record × ℕ) × Option LogError → Text × Option LogError
export_found lib room (found, some e) = ([], some e)
export_found lib room (found, none) =
    write_all room (map (λ r. lib.codec.encode r ++ 10 ∷ []) found.0)

-- Export
unfoldable pub export : Lib → Bool → Query → ℕ → Option Text → Text × Option LogError
unfolding query write_all
export lib open_fails q room file =
    export_found lib room (query lib open_fails (record q { offset = pos 0; limit = pos 500 }) file)
