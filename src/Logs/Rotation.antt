-- ===== src/Logs/Rotation.antt =====
-- rotateLocked of internal/logger/manager.go: the log that grew too large is compressed into an
-- archive and emptied, and the oldest archives go. The calls of the operating system that fail are
-- an argument; `archives` are the files that the pattern of the archives matches.
use digitdojo_shield.Prelude.{
  ℕ, ◌+◌, Bool, ◌||◌, List, [], ◌∷◌, Option, none, some, ltb, leb, if◌then◌else◌, length, lookup,
  put, remove, keys, is_some, sort, Text, text_eq, text_ord,
}

-- The log and its archives.
pub record Disk : Type 0 where
  pub file : Option Text
  pub archives : List (Text × Text)

pub data LogError : Type 0 where
  path_required mkdir_failed encode_failed stat_failed open_failed archive_failed copy_failed
        zip_failed :
      LogError
  truncate_failed write_failed sync_failed close_failed scan_failed : LogError

-- The steps of a rotation that fail. Copying, the end of the compression and the close of the archive
-- fail with what is in the archive by then.
pub record RotationFaults : Type 0 where
  pub stat : Bool
  pub open_source : Bool
  pub archive : Bool
  pub copy : Option Text
  pub zip : Option Text
  pub close : Option Text
  pub truncate : Bool
  pub remove : Text → Bool

-- The settings of a Manager; `gzip` is compress/gzip, and `archive_name` the name at a time.
pub record Settings : Type 0 where
  pub max_size : ℕ
  pub retention : ℕ
  pub gzip : Text → Text
  pub archive_name : ℕ → Text

-- The loop that removes the oldest archives, whose errors are ignored.
unfoldable pub prune : ℕ → (Text → Bool) → List Text → List (Text × Text) → List (Text × Text)
unfolding remove
prune retention fails [] archives = archives
prune retention fails (n ∷ ns) archives =
    let rest = prune retention fails ns (if fails n then archives else remove n archives) in
    if ltb retention (length (n ∷ ns)) then rest else archives

abbrev pub get_or : Text → Option Text → Text
get_or t none = t
get_or t (some partial) = partial

module _ (s : Settings) (f : RotationFaults) where
  -- What the archive has in the end: the error of its close is ignored.
  abbrev pub archived : Text → Text
  archived content = get_or (s.gzip content) f.close

  abbrev pub truncated : Text → Disk → Option LogError × Disk
  truncated name d = if f.truncate then (some truncate_failed, d) else (
    none,
    record {
      file = some [];
      archives = prune s.retention f.remove (sort text_ord (keys d.archives)) d.archives;
    },
  )

  abbrev pub compressed : Text → Text → Disk → Option Text → Option Text → Option LogError × Disk
  compressed name content d (some partial) zip =
      (some copy_failed, record d { archives = put name partial d.archives })
  compressed name content d none (some partial) =
      (some zip_failed, record d { archives = put name partial d.archives })
  compressed name content d none none =
      truncated name (record d { archives = put name (archived content) d.archives })

  abbrev pub archive : Text → Text → Disk → Option LogError × Disk
  archive name content d =
      if f.open_source
      then (some open_failed, d)
      else if f.archive || is_some (lookup name d.archives)
      then (some archive_failed, d)
      else compressed name content d f.copy f.zip

  abbrev pub rotate_file : ℕ → ℕ → Option Text → Disk → Option LogError × Disk
  rotate_file now next none d = (none, d)
  rotate_file now next (some content) d =
      if f.stat
      then (some stat_failed, d)
      else if leb (length content + next) s.max_size
      then (none, d)
      else archive (s.archive_name now) content d

  -- rotateLocked, at the time `now`, for `next` more bytes.
  unfoldable pub rotate : ℕ → ℕ → Disk → Option LogError × Disk
  unfolding prune lookup put
  rotate now next d = rotate_file now next d.file d
