-- ===== src/Config/Manager.antt =====
-- internal/config/manager.go: the manager that applies and persists the revisions of the
-- configuration. The files are part of the state; which write fails is an argument, and so are the
-- digest, the time and the application's hook `apply`, which acts on a state `A` of its own.
use digitdojo_shield.Prelude.{
  is_some, ℕ, ◌+◌, Bool, true, false, not, ◌||◌, List, [], ◌∷◌, ◌++◌, Option, none, some, ltb,
  if◌then◌else◌, length, lookup, put, nat_eq, ℤ, pos, negsuc, Text, text, Result, ok, err,
}
use digitdojo_shield.Config.Settings.{Config, ConfigError, Lib, validate}
use digitdojo_shield.Config.Yaml.{Loader, LoadError, load_from_file, load_bytes}

pub record Change : Type 0 where
  pub version : ℕ
  pub timestamp : ℕ
  pub checksum : Text
  pub summary : Text

-- The manager, the three kinds of files it writes and the state its hook acts on. `has_path` is
-- false for a manager in memory.
pub record Manager (A : Type 0) : Type 0 where
  pub has_path : Bool
  pub current : Config
  pub version : ℕ
  pub history : List Change
  pub file : Option Text
  pub backups : List (ℕ × Text)
  pub history_file : Option (List Change)
  pub app : A

pub record Env (A D : Type 0) : Type 0 where
  pub lib : Lib
  pub loader : Loader D
  pub checksum : Text → Text
  pub apply : Option (Config → A → Option Text × A)

-- The writes that fail: of the file, of the file once more, of a backup, of the history. os.WriteFile
-- empties the history before it writes it, so a failed write has what that file decodes to then.
pub record Faults : Type 0 where
  pub replace : Bool
  pub restore : Bool
  pub backup : Bool
  pub history : Option (Option (List Change))

pub data Failure : Type 0 where
  no_path write_failed backup_failed history_failed no_backup : Failure
  unknown_version : ℤ → Failure
  invalid : ConfigError → Failure
  load_failed : LoadError → Failure
  encode_failed apply_failed : Text → Failure
  rolled_back rollback_failed : Failure → Failure

abbrev pub left_of : List Change → Option (Option (List Change)) → Option (List Change)
left_of history none = some history
left_of history (some partial) = partial

-- saveHistory
abbrev pub save_history : {A : Type 0} → Faults → Manager A → Manager A
save_history f m = record m { history_file = left_of m.history f.history }

abbrev pub run_hook :
    {A : Type 0} → Option (Config → A → Option Text × A) → Config → A → Option Text × A
run_hook none c a = (none, a)
run_hook (some apply) c a = apply c a

-- The end of applyLocked: the backup of the revision and the history.
abbrev pub persist : {A : Type 0} → Faults → Text → Manager A → Option Failure × Manager A
persist f data_ m =
    if not m.has_path
    then (none, m)
    else if f.backup
    then (some backup_failed, m)
    else (none, save_history f (record m { backups = put m.version data_ m.backups }))

module _ {A D : Type 0} (env : Env A D) (f : Faults) (now : ℕ) where
  abbrev pub change_of : ℕ → Text → Text → Change
  change_of version data_ summary = record {
    version = version;
    timestamp = now;
    checksum = env.checksum data_;
    summary = summary;
  }

  abbrev pub revise : Text → Manager A → Result Text Text → Option Failure × Manager A
  revise summary m (err e) = (some (encode_failed e), m)
  revise summary m (ok data_) =
      persist f data_ (record m { history = m.history ++ change_of m.version data_ summary ∷ [] })

  abbrev pub revise_after : Config → Text → Manager A → Option Text × A → Option Failure × Manager A
  revise_after c summary m (some e, a) = (some (apply_failed e), record m { app = a })
  revise_after c summary m (none, a) =
      revise summary (record m { current = c; version = m.version + 1; app = a })
        (env.loader.encode c)

  -- applyLocked
  unfoldable pub apply_locked : Config → Text → Manager A → Option Failure × Manager A
  apply_locked c summary m = revise_after c summary m (run_hook env.apply c m.app)

  abbrev pub apply_loaded : Text → Manager A → Result LoadError Config → Option Failure × Manager A
  apply_loaded summary m (err e) = (some (load_failed e), m)
  apply_loaded summary m (ok c) = apply_locked c summary m

  -- Reload
  unfoldable pub reload : Manager A → Option Failure × Manager A
  unfolding apply_locked
  reload m =
      if not m.has_path
      then (some no_path, m)
      else apply_loaded (text "reload") m (load_from_file env.lib env.loader m.file)

  -- The end of Update: the old bytes are written back where the new ones could not be applied.
  abbrev pub restore_file : Text → Option Failure × Manager A → Option Failure × Manager A
  restore_file previous (none, m) = (none, m)
  restore_file previous (some e, m) =
      if f.restore
      then (some (rollback_failed e), m)
      else (some (rolled_back e), record m { file = some previous })

  abbrev pub update_file : Text → Manager A → Text → Text → Option Failure × Manager A
  update_file summary m previous data_ =
      if f.replace
      then (some write_failed, m)
      else restore_file previous (
          let written : Manager A = record m { file = some data_ } in
          apply_loaded summary written (load_from_file env.lib env.loader written.file))

  abbrev pub update_encoded :
      Text → Manager A → Result Text Text → Result Text Text → Option Failure × Manager A
  update_encoded summary m (err e) next = (some (encode_failed e), m)
  update_encoded summary m (ok previous) (err e) = (some (encode_failed e), m)
  update_encoded summary m (ok previous) (ok data_) = update_file summary m previous data_

  abbrev pub update_valid :
      Config → Text → Manager A → Option ConfigError → Option Failure × Manager A
  update_valid c summary m (some e) = (some (invalid e), m)
  update_valid c summary m none =
      if not m.has_path
      then (some no_path, m)
      else update_encoded summary m (env.loader.encode m.current) (env.loader.encode c)

  -- Update
  unfoldable pub update : Config → Text → Manager A → Option Failure × Manager A
  unfolding apply_locked
  update c summary m = update_valid c summary m (validate env.lib c)

  -- The end of Rollback, whose errors say nothing of the restored file.
  abbrev pub restore_current : Text → Option Failure × Manager A → Option Failure × Manager A
  restore_current previous (none, m) = (none, m)
  restore_current previous (some e, m) =
      if f.restore
      then (some (rollback_failed e), m)
      else (some e, record m { file = some previous })

  abbrev pub rollback_encoded :
      Config → Text → Text → Manager A → Result Text Text → Option Failure × Manager A
  rollback_encoded c data_ summary m (err e) = (some (encode_failed e), m)
  rollback_encoded c data_ summary m (ok previous) =
      if f.replace
      then (some write_failed, m)
      else restore_current previous (apply_locked c summary (record m { file = some data_ }))

  abbrev pub rollback_loaded :
      Text → Text → Manager A → Result LoadError Config → Option Failure × Manager A
  rollback_loaded data_ summary m (err e) = (some (load_failed e), m)
  rollback_loaded data_ summary m (ok c) =
      rollback_encoded c data_ summary m (env.loader.encode m.current)

  abbrev pub rollback_found : Text → Manager A → Option Text → Option Failure × Manager A
  rollback_found summary m none = (some no_backup, m)
  rollback_found summary m (some data_) =
      rollback_loaded data_ summary m (load_bytes env.lib env.loader data_)

  abbrev pub rollback_version : Text → ℤ → Manager A → Option Failure × Manager A
  rollback_version summary (negsuc n) m = (some (unknown_version (negsuc n)), m)
  rollback_version summary (pos n) m =
      if ltb n 1 || ltb (length m.history) n
      then (some (unknown_version (pos n)), m)
      else rollback_found summary m (lookup n m.backups)

  -- Rollback, with its summary "rollback to version %d".
  unfoldable pub rollback : Text → ℤ → Manager A → Option Failure × Manager A
  unfolding apply_locked
  rollback summary v m = if not m.has_path then (some no_path, m) else rollback_version summary v m

-- NewManager. A manager without a path keeps the initial configuration, any other what its file has.
abbrev pub in_memory : {A : Type 0} → Config → A → Manager A
in_memory c a = record {
  has_path = false;
  current = c;
  version = 0;
  history = [];
  file = none;
  backups = [];
  history_file = none;
  app = a;
}

module _ {A D : Type 0} (env : Env A D) (f : Faults) (now : ℕ) where
  abbrev pub first_revision : Config → Option Text → A → Text → Result Failure (Manager A)
  first_revision c file a data_ =
      if f.backup
      then err backup_failed
      else if is_some f.history
      then err history_failed
      else ok (
          let first = change_of env f now 1 data_ (text "initial configuration") ∷ [] in
          record {
            has_path = true;
            current = c;
            version = 1;
            history = first;
            file = file;
            backups = (1, data_) ∷ [];
            history_file = some first;
            app = a;
          })

  abbrev pub open_encoded : Config → Option Text → A → Result Text Text → Result Failure (Manager A)
  open_encoded c file a (err e) = err (encode_failed e)
  open_encoded c file a (ok data_) = first_revision c file a data_

  abbrev pub open_loaded : Option Text → A → Result LoadError Config → Result Failure (Manager A)
  open_loaded file a (err e) = err (load_failed e)
  open_loaded file a (ok c) = open_encoded c file a (env.loader.encode c)

  abbrev pub open_valid :
      Bool → Config → Option Text → A → Option ConfigError → Result Failure (Manager A)
  open_valid has_path c file a (some e) = err (invalid e)
  open_valid false c file a none = ok (in_memory c a)
  open_valid true c file a none = open_loaded file a (load_from_file env.lib env.loader file)

  unfoldable pub new_manager : Bool → Config → Option Text → A → Result Failure (Manager A)
  new_manager has_path c file a = open_valid has_path c file a (validate env.lib c)
