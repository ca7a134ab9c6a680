-- ===== src/Logs/Tests.antt =====
-- The log and the audit at concrete inputs.
use digitdojo_shield.Prelude.{
  ℕ, ◌+◌, ◌-◌, ◌≤◌, ◌≡◌, ◌⊎◌, refl, true, false, List, [], ◌∷◌, ◌++◌, none, some, arith, leb,
  if◌then◌else◌, length, take, keep, has, Text, text, text_beq, ok, pos, lookup, keys, text_eq,
  text_ord, sort, add_key, sort_by, text_leb,
}
use digitdojo_shield.Logs.Scan.{file_of, page_of}
use digitdojo_shield.Logs.Rotation.{RotationFaults, Settings, rotate}
use digitdojo_shield.Logs.Archives.{rotate-lossless, rotate-retention}
use digitdojo_shield.Logs.Manager.{Entry, Manager, content_of, WriteFaults, prepared, write}
use digitdojo_shield.Logs.Query.{Lib, Query, IsPage, matches, query, query-IsPage}
use digitdojo_shield.Logs.RoundTrip.{write-query}
use digitdojo_shield.Logs.Audit.{
  Record, completed, new_id, record_action, Manager as AuditManager, Query as AuditQuery,
  Lib as AuditLib, Faults as AuditFaults, query as audit_query, matches as audit_matches,
}
use digitdojo_shield.Logs.Trail.{Call, record_all, record_all-append_only, record_action-query}
use digitdojo_shield.Logs.Samples.{
  later, sort_later-IsSorted, entry_lines-decoded, record_lines-decoded, entry_lines,
  entry_lines-lawful, record_lines, record_lines-lawful, split_lines,
}
use digitdojo_shield.Storage.Tests.{put_texts, get_texts}

abbrev quiet_rotation : RotationFaults
quiet_rotation = record {
  stat = false;
  open_source = false;
  archive = false;
  copy = none;
  zip = none;
  close = none;
  truncate = false;
  remove = λ n. false;
}

-- Compression is a mark in front; the archives are named by one digit.
abbrev two_archives : Settings
two_archives = record {
  max_size = 4;
  retention = 2;
  gzip = λ t. 31 ∷ t;
  archive_name = λ now. (48 + now) ∷ [];
}

abbrev old_archives : List (Text × Text)
old_archives = (text "1", text "a") ∷ (text "2", text "b") ∷ []

rotate_test :
    (rotate two_archives quiet_rotation 3 2
      (record { file = some (text "abc"); archives = old_archives })).1
    ≡ record { file = some []; archives = (text "2", text "b") ∷ (text "3", 31 ∷ text "abc") ∷ [] }
unfolding rotate text_beq sort_by text_leb
rotate_test = refl

abbrev first_entry : Entry
first_entry = record {
  timestamp = 5;
  level = text "INFO";
  category = text "Runtime";
  message = text "up";
  fields = [];
}

abbrev second_entry : Entry
second_entry = record {
  timestamp = 7;
  level = text "warn";
  category = [];
  message = text "Down";
  fields = (text "k", text "v") ∷ [];
}

abbrev log_lib : Lib
log_lib = record {
  codec = entry_lines;
  newest_first = sort_by later;
  show_fields = λ fs. [];
  show_entry = λ e. e.message;
}

abbrev all_entries : Query
all_entries = record {
  search = [];
  level = [];
  category = [];
  from = 0;
  to = 0;
  offset = pos 0;
  limit = pos 1;
  desc = true;
}

-- The newest entry is not on the first page of the newest first.
query_test :
    query log_lib false all_entries (some (file_of entry_lines (first_entry ∷ second_entry ∷ [])))
    ≡ ok (first_entry ∷ [], 2)
unfolding query split_lines put_texts get_texts sort_by
query_test = refl

rotate-lossless_example :
    let r =
      rotate two_archives quiet_rotation 3 2
        (record { file = some (text "abc"); archives = old_archives }) in
    (r.1.file ≡ some (text "abc"))
    ⊎ ((r.0 ≡ none)
        × (r.1.file ≡ some [])
        × (lookup (text "3") r.1.archives ≡ some (31 ∷ text "abc")))
unfolding text_beq text_leb has
rotate-lossless_example =
    rotate-lossless two_archives quiet_rotation 3 2 (text "abc") old_archives refl (omega arith)
      (refl, (refl, tt)) (refl, (refl, tt))

rotate-retention_example :
    let r =
      rotate two_archives quiet_rotation 3 2
        (record { file = some (text "abc"); archives = old_archives }) in
    (length (keys r.1.archives) ≤ 2)
    × ((b : Text)
        → lookup b r.1.archives ≡ (
            let names = sort text_ord (add_key (text "3") (keys old_archives)) in
            if has b (take (length names - 2) names)
            then none
            else if text_beq b (text "3")
            then some (31 ∷ text "abc")
            else lookup b old_archives))
unfolding text_beq has rotate sort_by text_leb
rotate-retention_example =
    rotate-retention two_archives quiet_rotation 3 2 (text "abc") old_archives (λ n. refl)
      (refl, (refl, tt)) (λ e. cc)

query-IsPage_example :
    (r : List Entry × ℕ) × (query log_lib false all_entries
        (some (file_of entry_lines (first_entry ∷ second_entry ∷ [])))
      ≡ ok r)
    × IsPage all_entries (keep (matches log_lib all_entries) (first_entry ∷ second_entry ∷ [])) r
unfolding put_texts
query-IsPage_example =
    query-IsPage log_lib all_entries (first_entry ∷ second_entry ∷ []) entry_lines-lawful
      sort_later-IsSorted
      (
        (entry_lines-decoded first_entry, omega arith),
        ((entry_lines-decoded second_entry, omega arith), tt),
      )

abbrev sample_manager : Manager ℕ
sample_manager = record {
  settings = record two_archives { max_size = 1000 };
  disk = record { file = some (file_of entry_lines (first_entry ∷ [])); archives = [] };
  subscribers = (0, 8) ∷ [];
  next = 1;
}

abbrev no_faults : WriteFaults
no_faults = record {
  marshal = false;
  rotation = quiet_rotation;
  open_file = false;
  write = none;
  sync = false;
  close = false;
}

write-query_example :
    let kept =
      if leb
        (length (file_of entry_lines (first_entry ∷ []))
          + (length (entry_lines.encode (prepared 9 second_entry)) + 1))
        1000
      then first_entry ∷ []
      else [] in
    (r : List Entry × ℕ) × (query log_lib false all_entries
        (write entry_lines no_faults 9 second_entry sample_manager).1.disk.file
      ≡ ok r)
    × IsPage all_entries
        (keep (matches log_lib all_entries) (kept ++ prepared 9 second_entry ∷ []))
        r
unfolding put_texts write text_beq
write-query_example =
    write-query log_lib no_faults 9 second_entry sample_manager (first_entry ∷ []) all_entries
      entry_lines-lawful sort_later-IsSorted
      (
        (entry_lines-decoded first_entry, omega arith),
        ((entry_lines-decoded (prepared 9 second_entry), omega arith), tt),
      )
      refl refl

abbrev sample_record : Record
sample_record = record {
  id = [];
  timestamp = 0;
  user = text "admin";
  source_ip = text "127.0.0.1";
  action = text "ban";
  resource = text "blacklist";
  previous = [];
  new_value = text "8.8.8.8";
  result = [];
  request_id = text "r1";
}

abbrev random_bytes : List ℕ
random_bytes = 1 ∷ 35 ∷ 69 ∷ 103 ∷ 137 ∷ 171 ∷ 205 ∷ 239 ∷ 0 ∷ 0 ∷ 0 ∷ 0 ∷ 0 ∷ 0 ∷ 0 ∷ 255 ∷ []

new_id_test : new_id (some random_bytes) ≡ ok (text "01234567-89ab-cdef-0000-0000000000ff")
unfolding new_id
new_id_test = refl

abbrev identified : Record
identified = record sample_record { id = text "01234567-89ab-cdef-0000-0000000000ff" }

abbrev pub audit_lib : AuditLib
audit_lib = record { codec = record_lines; show = λ r. r.user }

abbrev pub audit_faults : AuditFaults
audit_faults = record {
  marshal = false;
  open_file = false;
  write = none;
  sync = false;
  close = false;
}

abbrev full_disk : AuditFaults
full_disk = record audit_faults { write = some 3 }

abbrev pub audit_manager : AuditManager ℕ
audit_manager = record { file = some []; subscribers = (4, 6) ∷ []; next = 5 }

abbrev all_records : AuditQuery
all_records = record {
  search = [];
  action = [];
  resource = [];
  result = [];
  offset = pos 0;
  limit = pos 0;
}

record_action-query_example :
    (audit_query audit_lib false all_records
        (record_action audit_lib audit_faults 9
          (some random_bytes)
          sample_record
          audit_manager).1.file
      ≡ (
        page_of
            (pos 0)
            100
            (keep (audit_matches audit_lib all_records) (completed 9 identified ∷ [])),
        none,
      ))
    × ((record_action audit_lib audit_faults 9 (some random_bytes) sample_record audit_manager).0.1
        ≡ (6, completed 9 identified) ∷ [])
unfolding put_texts record_action
record_action-query_example =
    record_action-query audit_lib audit_faults 9 (some random_bytes) sample_record identified
      audit_manager [] all_records record_lines-lawful
      ((record_lines-decoded (completed 9 identified), omega arith), tt) refl refl refl

record_all-append_only_example :
    let calls : List Call =
      record { faults = full_disk; clock = 9; random = some random_bytes; entry = sample_record }
      ∷ record { faults = audit_faults; clock = 9; random = none; entry = identified }
      ∷ [] in
    (suffix : Text) × (content_of (record_all audit_lib calls audit_manager).file ≡ [] ++ suffix)
record_all-append_only_example =
    record_all-append_only audit_lib
      (record { faults = full_disk; clock = 9; random = some random_bytes; entry = sample_record }
        ∷ record { faults = audit_faults; clock = 9; random = none; entry = identified }
        ∷ [])
      audit_manager
