-- ===== src/App/Reload.antt =====
-- The configuration manager of internal/config/manager.go with applyConfiguration of
-- internal/app/app.go as its hook.
use digitdojo_shield.Prelude.{
  ℕ, ◌≡◌, ◌≢◌, ◌⊎◌, inl, inr, refl, sym, ◌∙◌, Bool, true, false, not, ◌||◌, List, [], ◌∷◌, Option,
  none, some, ltb, if◌then◌else◌, length, lookup, nat_eq, ℤ, pos, negsuc, Text, text, Result, ok,
  err,
}
use digitdojo_shield.Config.Settings.{Config, ConfigError, validate}
use digitdojo_shield.Config.Yaml.{LoadError, load_from_file, load_bytes}
use digitdojo_shield.Config.Manager.{
  Manager, Env, Faults, Failure, persist, revise, revise_after, apply_locked, apply_loaded, update,
  update_valid, update_encoded, restore_file, reload, rollback, rollback_version, rollback_found,
  rollback_loaded, rollback_encoded, restore_current,
}
use digitdojo_shield.App.Configuration.{
  Lib, Runtime, HasSameFixed, IsRunning, apply_configuration, apply_configuration_cases,
}

same_fixed_trans : (b c d : Config) → HasSameFixed b c → HasSameFixed c d → HasSameFixed b d
same_fixed_trans b c d p q = record {
  general = p.general ∙ q.general;
  firewall = p.firewall ∙ q.firewall;
  api = p.api ∙ q.api;
  window = p.window ∙ q.window;
  logging = p.logging ∙ q.logging;
}

-- The manager's configuration is the one that the daemon runs, and the parts of it that need a
-- restart are those of `start`.
pub record Agree (lib : Lib) (start current : Config) (a : Runtime) : Type 0 where
  pub same : current ≡ a.cfg
  pub fixed : HasSameFixed a.cfg start
  pub running : IsRunning lib a

abbrev pub IsAgreed : Lib → Config → Manager Runtime → Type 0
IsAgreed lib start m = Agree lib start m.current m.app

-- The environment of a manager whose hook is the application's.
abbrev pub with_hook : {D : Type 0} → Lib → Env Runtime D → Env Runtime D
with_hook lib env = record env { apply = some (apply_configuration lib) }

module _ {D : Type 0} (lib : Lib) (env : Env Runtime D) (f : Faults) (now : ℕ)
    (start : Config) where
  abbrev e : Env Runtime D
  e = with_hook lib env

  either :
      (b : Bool) (r q : Option Failure × Manager Runtime)
      → IsAgreed lib start r.1
      → IsAgreed lib start q.1
      → IsAgreed lib start (if b then r else q).1
  either true r q hr hq = hr
  either false r q hr hq = hq

  persist-IsAgreed :
      (data_ : Text) (m : Manager Runtime)
      → IsAgreed lib start m
      → IsAgreed lib start (persist f data_ m).1
  persist-IsAgreed data_ m h = either (not m.has_path) _ _ h (either f.backup _ _ h h)

  revise-IsAgreed :
      (summary : Text) (m : Manager Runtime) (r : Result Text Text)
      → IsAgreed lib start m
      → IsAgreed lib start (revise e f now summary m r).1
  revise-IsAgreed summary m (err x) h = h
  revise-IsAgreed summary m (ok data_) h = persist-IsAgreed data_ _ h

  revise_after-IsAgreed :
      (c : Config) (summary : Text) (m : Manager Runtime) (r : Option Text × Runtime)
      → IsAgreed lib start m
      → ((r.0 ≢ none) × (r.1 ≡ m.app))
        ⊎ ((r.0 ≡ none) × ((r.1.cfg ≡ c) × (HasSameFixed c m.app.cfg × IsRunning lib r.1)))
      → IsAgreed lib start (revise_after e f now c summary m r).1
  revise_after-IsAgreed c summary m (some x, a) h (inl k) = rw (k.1) h
  revise_after-IsAgreed c summary m (some x, a) h (inr k) = cc
  revise_after-IsAgreed c summary m (none, a) h (inl k) = elim (k.0 refl) [ ]
  revise_after-IsAgreed c summary m (none, a) h (inr k) =
      revise-IsAgreed summary _ (env.loader.encode c) (record {
        same = sym k.1.0;
        fixed = rw k.1.0 (same_fixed_trans c m.app.cfg start k.1.1.0 h.fixed);
        running = k.1.1.1;
      })

  apply_locked-IsAgreed :
      (c : Config) (summary : Text) (m : Manager Runtime)
      → IsAgreed lib start m
      → IsAgreed lib start (apply_locked e f now c summary m).1
  unfolding apply_locked
  apply_locked-IsAgreed c summary m h =
      revise_after-IsAgreed c summary m (apply_configuration lib c m.app) h
        (apply_configuration_cases lib c m.app)

  apply_loaded-IsAgreed :
      (summary : Text) (m : Manager Runtime) (r : Result LoadError Config)
      → IsAgreed lib start m
      → IsAgreed lib start (apply_loaded e f now summary m r).1
  apply_loaded-IsAgreed summary m (err x) h = h
  apply_loaded-IsAgreed summary m (ok c) h = apply_locked-IsAgreed c summary m h

  restore_file-IsAgreed :
      (previous : Text) (r : Option Failure × Manager Runtime)
      → IsAgreed lib start r.1
      → IsAgreed lib start (restore_file e f now previous r).1
  restore_file-IsAgreed previous (none, m) h = h
  restore_file-IsAgreed previous (some x, m) h = either f.restore _ _ h h

  restore_current-IsAgreed :
      (previous : Text) (r : Option Failure × Manager Runtime)
      → IsAgreed lib start r.1
      → IsAgreed lib start (restore_current e f now previous r).1
  restore_current-IsAgreed previous (none, m) h = h
  restore_current-IsAgreed previous (some x, m) h = either f.restore _ _ h h

  update_encoded-IsAgreed :
      (summary : Text) (m : Manager Runtime) (p q : Result Text Text)
      → IsAgreed lib start m
      → IsAgreed lib start (update_encoded e f now summary m p q).1
  update_encoded-IsAgreed summary m (err x) q h = h
  update_encoded-IsAgreed summary m (ok previous) (err x) h = h
  update_encoded-IsAgreed summary m (ok previous) (ok data_) h =
      let written : Manager Runtime = record m { file = some data_ } in
      let r =
        apply_loaded e f now summary written (load_from_file env.lib env.loader (some data_)) in
      either f.replace _ _ h
        (restore_file-IsAgreed previous r (apply_loaded-IsAgreed summary written _ h))

  update-IsAgreed :
      (c : Config) (summary : Text) (m : Manager Runtime)
      → IsAgreed lib start m
      → IsAgreed lib start (update e f now c summary m).1
  unfolding update
  update-IsAgreed c summary m h = valid (validate env.lib c)
    where
      valid : (v : Option ConfigError) → IsAgreed lib start (update_valid e f now c summary m v).1
      valid (some x) = h
      valid none =
          either (not m.has_path) _ _ h (
            update_encoded-IsAgreed summary m (env.loader.encode m.current) (env.loader.encode c) h)

  reload-IsAgreed :
      (m : Manager Runtime) → IsAgreed lib start m → IsAgreed lib start (reload e f now m).1
  unfolding reload
  reload-IsAgreed m h =
      either (not m.has_path) _ _ h
        (apply_loaded-IsAgreed (text "reload") m (load_from_file env.lib env.loader m.file) h)

  rollback_encoded-IsAgreed :
      (c : Config) (data_ summary : Text) (m : Manager Runtime) (r : Result Text Text)
      → IsAgreed lib start m
      → IsAgreed lib start (rollback_encoded e f now c data_ summary m r).1
  rollback_encoded-IsAgreed c data_ summary m (err x) h = h
  rollback_encoded-IsAgreed c data_ summary m (ok previous) h =
      let written : Manager Runtime = record m { file = some data_ } in
      either f.replace _ _ h (
        restore_current-IsAgreed previous (apply_locked e f now c summary written)
          (apply_locked-IsAgreed c summary written h))

  rollback_found-IsAgreed :
      (summary : Text) (m : Manager Runtime) (o : Option Text)
      → IsAgreed lib start m
      → IsAgreed lib start (rollback_found e f now summary m o).1
  rollback_found-IsAgreed summary m none h = h
  rollback_found-IsAgreed summary m (some data_) h = loaded (load_bytes env.lib env.loader data_)
    where
      loaded :
          (r : Result LoadError Config)
          → IsAgreed lib start (rollback_loaded e f now data_ summary m r).1
      loaded (err x) = h
      loaded (ok c) = rollback_encoded-IsAgreed c data_ summary m (env.loader.encode m.current) h

  rollback-IsAgreed :
      (summary : Text) (v : ℤ) (m : Manager Runtime)
      → IsAgreed lib start m
      → IsAgreed lib start (rollback e f now summary v m).1
  unfolding rollback
  rollback-IsAgreed summary v m h = either (not m.has_path) _ _ h (version v)
    where
      version : (v : ℤ) → IsAgreed lib start (rollback_version e f now summary v m).1
      version (negsuc n) = h
      version (pos n) =
          either (ltb n 1 || ltb (length m.history) n) _ _ h
            (rollback_found-IsAgreed summary m (lookup n m.backups) h)

-- What happens to a running daemon: the calls of the manager, and someone who edits its file.
pub data Request : Type 0 where
  updating : Config → Text → Request
  rolling_back : Text → ℤ → Request
  reloading : Request
  editing : Option Text → Request

abbrev pub serve :
    {D : Type 0} → Env Runtime D → Faults → ℕ → Request → Manager Runtime → Manager Runtime
serve env f now (updating c summary) m = (update env f now c summary m).1
serve env f now (rolling_back summary v) m = (rollback env f now summary v m).1
serve env f now reloading m = (reload env f now m).1
serve env f now (editing file) m = record m { file = file }

-- One after the other, each with its faults and its time.
unfoldable pub serve_all :
    {D : Type 0} → Env Runtime D → List ((Faults × ℕ) × Request) → Manager Runtime → Manager Runtime
unfolding update rollback reload
serve_all env [] m = m
serve_all env (((f, now), r) ∷ rest) m = serve_all env rest (serve env f now r m)

module _ {D : Type 0} (lib : Lib) (env : Env Runtime D) (start : Config) where
  serve-IsAgreed :
      (f : Faults) (now : ℕ) (r : Request) (m : Manager Runtime)
      → IsAgreed lib start m
      → IsAgreed lib start (serve (with_hook lib env) f now r m)
  serve-IsAgreed f now (updating c summary) m h = update-IsAgreed lib env f now start c summary m h
  serve-IsAgreed f now (rolling_back summary v) m h =
      rollback-IsAgreed lib env f now start summary v m h
  serve-IsAgreed f now reloading m h = reload-IsAgreed lib env f now start m h
  serve-IsAgreed f now (editing file) m h = h

  -- Take a manager whose configuration is the one the daemon runs, with the sections that need a
  -- restart those of `start`. After any updates, rollbacks, reloads and edits of the file, with
  -- any faults, the manager's configuration is again the one the daemon runs, and those sections
  -- are still those of `start`.
  pub serve_all-IsAgreed :
      (requests : List ((Faults × ℕ) × Request)) (m : Manager Runtime)
      → IsAgreed lib start m
      → IsAgreed lib start (serve_all (with_hook lib env) requests m)
  unfolding serve_all
  serve_all-IsAgreed [] m h = h
  serve_all-IsAgreed (((f, now), r) ∷ rest) m h =
      serve_all-IsAgreed rest _ (serve-IsAgreed f now r m h)
