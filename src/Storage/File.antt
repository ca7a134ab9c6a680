-- ===== src/Storage/File.antt =====
-- FileStore of internal/storage/storage.go: Save replaces the file, Load reads and checks it. Each
-- call of the operating system that Save makes can fail; which ones do is an argument. The JSON
-- codec is a parameter.
use digitdojo_shield.Prelude.{
  ℕ, ◌≡◌, ◌≢◌, ◌⊎◌, Bool, false, not, List, Option, none, some, arith, eqb, if◌then◌else◌, Text,
  text_ord, unique_sorted, Result, ok, err, ◌>>=◌,
}

pub record Snapshot : Type 0 where
  pub version : ℕ
  pub blacklist : List Text
  pub whitelist : List Text
  pub updated_at : Text

-- What is left in the decoder after the first value.
pub data Trailing : Type 0 where
  eof another : Trailing
  broken : Text → Trailing

-- encoding/json on snapshots: `decode` gives the snapshot, or the decoder's error, and the unread
-- rest.
pub record Codec : Type 0 where
  pub encode : Snapshot → Text
  pub decode : Text → Result Text (Snapshot × Text)
  pub trailing : Text → Trailing

-- A snapshot that was encoded is decoded to itself, with nothing but white space behind it.
pub record IsLawfulCodec (c : Codec) : Type 0 where
  pub decode-encode :
      (s : Snapshot)
      → (rest : Text) × (c.decode (c.encode s) ≡ ok (s, rest)) × (c.trailing rest ≡ eof)

pub data LoadError : Type 0 where
  not_exist multiple_values : LoadError
  decode_error trailing_error : Text → LoadError
  unsupported_version : ℕ → LoadError

pub data SaveError : Type 0 where
  create_failed chmod_failed encode_failed sync_failed close_failed remove_failed rename_failed :
      SaveError
  open_dir_failed sync_dir_failed close_dir_failed : SaveError

-- The steps of Save that fail.
pub record Faults : Type 0 where
  pub create : Bool
  pub chmod : Bool
  pub write : Bool
  pub sync : Bool
  pub close : Bool
  pub remove_old : Bool
  pub rename : Bool
  pub open_dir : Bool
  pub sync_dir : Bool
  pub close_dir : Bool

abbrev pub no_faults : Faults
no_faults = record {
  create = false;
  chmod = false;
  write = false;
  sync = false;
  close = false;
  remove_old = false;
  rename = false;
  open_dir = false;
  sync_dir = false;
  close_dir = false;
}

pub data Platform : Type 0 where
  linux windows : Platform

abbrev pub current_version : ℕ
current_version = 1

-- normalize
unfoldable pub normalize_snapshot : Snapshot → Snapshot
unfolding unique_sorted
normalize_snapshot s = record s {
  blacklist = unique_sorted text_ord s.blacklist;
  whitelist = unique_sorted text_ord s.whitelist;
}

-- ensureJSONEOF
abbrev pub ensure_eof : Trailing → Result LoadError Unit
ensure_eof eof = ok tt
ensure_eof another = err multiple_values
ensure_eof (broken m) = err (trailing_error m)

abbrev pub check_version : Snapshot → Result LoadError Snapshot
check_version s =
    if not (eqb s.version current_version)
    then err (unsupported_version s.version)
    else ok (normalize_snapshot s)

abbrev pub read_decoded : Codec → Result Text (Snapshot × Text) → Result LoadError Snapshot
read_decoded c (err m) = err (decode_error m)
read_decoded c (ok (s, rest)) = ensure_eof (c.trailing rest) >>= λ _. check_version s

-- Load, on the content of the file, if there is one.
unfoldable pub load : Codec → Option Text → Result LoadError Snapshot
unfolding normalize_snapshot
load c none = err not_exist
load c (some content) = read_decoded c (c.decode content)

-- The directory's sync after the rename.
abbrev pub sync_directory : Faults → Option SaveError
sync_directory f =
    if f.open_dir
    then some open_dir_failed
    else if f.sync_dir
    then some sync_dir_failed
    else if f.close_dir
    then some close_dir_failed
    else none

-- The replacement of the file by the temporary one.
abbrev pub replace : Platform → Faults → Text → Option Text → Option SaveError × Option Text
replace linux f content file =
    if f.rename then (some rename_failed, file) else (sync_directory f, some content)
replace windows f content file =
    if f.remove_old
    then (some remove_failed, file)
    else if f.rename
    then (some rename_failed, none)
    else (none, some content)

-- The content that Save writes.
unfoldable pub saved : Codec → Text → Snapshot → Text
unfolding normalize_snapshot
saved c stamp s =
    c.encode (normalize_snapshot (record s { version = current_version; updated_at = stamp }))

-- Save, at the time `stamp`: the error, and the content of the file afterwards.
unfoldable pub save :
    Codec → Platform → Faults → Text → Snapshot → Option Text → Option SaveError × Option Text
unfolding saved
save c os f stamp s file =
    if f.create
    then (some create_failed, file)
    else if f.chmod
    then (some chmod_failed, file)
    else if f.write
    then (some encode_failed, file)
    else if f.sync
    then (some sync_failed, file)
    else if f.close
    then (some close_failed, file)
    else replace os f (saved c stamp s) file

-- On Linux a Save leaves the file as it was or with the whole new content, never in between; with
-- no error it has the new content.
pub save_atomic :
    (c : Codec) (f : Faults) (stamp : Text) (s : Snapshot) (file : Option Text)
    → let r = save c linux f stamp s file in
      ((r.0 ≢ none) × (r.1 ≡ file)) ⊎ (r.1 ≡ some (saved c stamp s))
unfolding save
save_atomic c f stamp s file = ground arith
