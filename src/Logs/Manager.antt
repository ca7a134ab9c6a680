-- ===== src/Logs/Manager.antt =====
-- Manager of internal/logger/manager.go: its settings, subscribers and Write. Compression and the
-- JSON codec are parameters; the calls of the operating system that fail are arguments. A time is a
-- number of nanoseconds, 0 for Go's zero time.
use digitdojo_shield.Prelude.{
  ℕ, ◌+◌, ◌*◌, ◌%◌, ◌^◌, Bool, List, [], ◌∷◌, ◌++◌, map, Option, none, some, eqb, if◌then◌else◌,
  length, take, has, put, remove, nat_eq, ℤ, positive_or, Text, text, text_eq, text_beq, Result, ok,
  err,
}
use digitdojo_shield.Logs.Strings.{to_upper}
use digitdojo_shield.Logs.Scan.{LineCodec}
use digitdojo_shield.Logs.Rotation.{
  Disk, LogError, path_required, mkdir_failed, encode_failed, open_failed, write_failed,
  sync_failed, close_failed, RotationFaults, Settings, rotate,
}

-- The fields, a Go map, are in the order of their keys, as encoding/json writes them.
pub record Entry : Type 0 where
  pub timestamp : ℕ
  pub level : Text
  pub category : Text
  pub message : Text
  pub fields : List (Text × Text)

-- The handlers of the subscribers are elements of `H`.
pub record Manager (H : Type 0) : Type 0 where
  pub settings : Settings
  pub disk : Disk
  pub subscribers : List (ℕ × H)
  pub next : ℕ

-- The steps of Write that fail; a write fails after a number of bytes.
pub record WriteFaults : Type 0 where
  pub marshal : Bool
  pub rotation : RotationFaults
  pub open_file : Bool
  pub write : Option ℕ
  pub sync : Bool
  pub close : Bool

abbrev pub default_max_size : ℕ
default_max_size = 10 * 2 ^ 20

-- NewManager
unfoldable pub new_manager :
    {H : Type 0}
    → (Text → Text)
    → (ℕ → Text)
    → Bool
    → Text
    → ℤ
    → ℤ
    → Disk
    → Result LogError (Manager H)
unfolding text_beq
new_manager gzip archive_name mkdir_fails path max_size retention disk =
    if text_beq path []
    then err path_required
    else if mkdir_fails
    then err mkdir_failed
    else ok (record {
      settings = record {
        max_size = positive_or default_max_size max_size;
        retention = positive_or 7 retention;
        gzip = gzip;
        archive_name = archive_name;
      };
      disk = disk;
      subscribers = [];
      next = 0;
    })

-- Subscribe, with the identifier that the returned function deletes.
unfoldable pub subscribe : {H : Type 0} → H → Manager H → ℕ × Manager H
unfolding put
subscribe fn m =
    (m.next, record m { subscribers = put m.next fn m.subscribers; next = (m.next + 1) % 2 ^ 64 })

-- The function that Subscribe returned.
unfoldable pub unsubscribe : {H : Type 0} → ℕ → Manager H → Manager H
unfolding remove
unsubscribe id m = record m { subscribers = remove id m.subscribers }

abbrev pub levels : List Text
levels = text "TRACE" ∷ text "DEBUG" ∷ text "INFO" ∷ text "WARN" ∷ text "ERROR" ∷ text "FATAL" ∷ []

-- normalizeLevel
unfoldable pub normalize_level : Text → Text
unfolding has to_upper text_beq
normalize_level level = if has (to_upper level) levels then to_upper level else text "INFO"

-- The entry that Write encodes, at the time `clock`.
unfoldable pub prepared : ℕ → Entry → Entry
unfolding normalize_level text_beq
prepared clock e = record e {
  timestamp = if eqb e.timestamp 0 then clock else e.timestamp;
  level = normalize_level e.level;
  category = if text_beq e.category [] then text "Runtime" else e.category;
}

abbrev pub content_of : Option Text → Text
content_of none = []
content_of (some content) = content

-- What the write leaves of a file that it appends a line to.
abbrev pub append_to : Option ℕ → Text → Option Text → Text
append_to none line file = content_of file ++ line
append_to (some n) line file = content_of file ++ take n line

abbrev pub append_error : Option ℕ → Bool → Bool → Option LogError
append_error (some n) sync close = some write_failed
append_error none sync close =
    if sync then some sync_failed else if close then some close_failed else none

module _ {H : Type 0} (c : LineCodec Entry) (f : WriteFaults) where
  -- The handlers that are called, which are all of them where there is no error.
  abbrev pub calls : Entry → Manager H → Option LogError → List (H × Entry)
  calls e m (some error) = []
  calls e m none = map (λ s. (s.1, e)) m.subscribers

  abbrev pub append_entry :
      Entry → Text → Manager H → Disk → Option LogError × Manager H × List (H × Entry)
  append_entry e line m d =
      let error = append_error f.write f.sync f.close in
      if f.open_file then (some open_failed, record m { disk = d }, []) else (
        error,
        record m { disk = record d { file = some (append_to f.write line d.file) } },
        calls e m error,
      )

  abbrev pub write_rotated :
      Entry
      → Text
      → Manager H
      → Option LogError × Disk
      → Option LogError × Manager H × List (H × Entry)
  write_rotated e line m (some error, d) = (some error, record m { disk = d }, [])
  write_rotated e line m (none, d) = append_entry e line m d

  -- Write of an entry with its defaults: the error, the manager and the calls of the subscribers.
  abbrev pub write_prepared : ℕ → Entry → Manager H → Option LogError × Manager H × List (H × Entry)
  write_prepared clock e m =
      let line = c.encode e ++ 10 ∷ [] in
      if f.marshal
      then (some encode_failed, m, [])
      else write_rotated e line m
          (rotate m.settings f.rotation clock (length (c.encode e) + 1) m.disk)

  -- Write
  unfoldable pub write : ℕ → Entry → Manager H → Option LogError × Manager H × List (H × Entry)
  unfolding prepared rotate
  write clock e m = write_prepared clock (prepared clock e) m

-- Clear
unfoldable pub clear : {H : Type 0} → Bool → Manager H → Option LogError × Manager H
clear fails m =
    if fails
    then (some write_failed, m)
    else (none, record m { disk = record m.disk { file = some [] } })
