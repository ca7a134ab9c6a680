-- ===== src/Config/Revisions.antt =====
-- What the manager of internal/config/manager.go keeps true of its configuration and its file.
use digitdojo_shield.Prelude.{
  ℕ, ◌+◌, ◌≤◌, ◌≡◌, refl, sym, ◌∙◌, ap, subst, ok-injective, true, false, not, ◌⊎◌, inl, inr, List,
  [], ◌∷◌, ◌++◌, Option, none, some, arith, if◌then◌else◌, length, length-append, lookup,
  lookup-put, put, nat_eq, eqb_iff, Text, Result, ok, err, Bool-cases,
}
use digitdojo_shield.Config.Settings.{Config, ConfigError, Lib, validate}
use digitdojo_shield.Config.Yaml.{load_from_file, load_bytes, checked, validated}
use digitdojo_shield.Config.Manager.{
  Manager, Env, Faults, Failure, run_hook, change_of, apply_locked, update, restore_file,
  revise_after, no_path, update_valid, update_encoded, update_file,
}

-- What the manager relies on of the YAML library: a valid configuration has an encoding, which is
-- loaded to it by both of the package's loaders.
pub record IsLawfulEnv {A D : Type 0} (env : Env A D) : Type 0 where
  pub encodes :
      (c : Config)
      → validate env.lib c ≡ none
      → (data_ : Text) × (env.loader.encode c ≡ ok data_)
        × (load_from_file env.lib env.loader (some data_) ≡ ok c)
        × (load_bytes env.lib env.loader data_ ≡ ok c)

-- The configuration in use is valid, its file is loaded to it, and the version it has is backed up
-- with its encoding.
pub record IsSynced {A D : Type 0} (env : Env A D) (m : Manager A) : Type 0 where
  pub has_file : m.has_path ≡ true
  pub valid : validate env.lib m.current ≡ none
  pub loads : load_from_file env.lib env.loader m.file ≡ ok m.current
  pub started : 1 ≤ m.version
  pub versions : m.version ≡ length m.history
  pub backed_up :
      (data_ : Text) × (lookup m.version m.backups ≡ some data_)
      × (env.loader.encode m.current ≡ ok data_)

validated-valid :
    (lib : Lib) (c d : Config) (o : Option ConfigError)
    → validate lib c ≡ o
    → validated c o ≡ ok d
    → validate lib d ≡ none
validated-valid lib c d none v h = subst (λ x. validate lib x ≡ none) (ok-injective h) v
validated-valid lib c d (some e) v h = cc

checked-valid :
    (lib : Lib) (r : Result Text Config) (d : Config) → checked lib r ≡ ok d → validate lib d ≡ none
checked-valid lib (err e) d h = cc
checked-valid lib (ok c) d h = validated-valid lib c d (validate lib c) refl h

put-lookup-same : (k : ℕ) (d : Text) (m : List (ℕ × Text)) → lookup k (put k d m) ≡ some d
put-lookup-same k d m = ground (arith, lookup-put k k d m, eqb_iff k k)

put-lookup-other :
    (k j : ℕ) (d : Text) (m : List (ℕ × Text)) (x : Text)
    → (k ≡ j → ⊥)
    → lookup k m ≡ some x
    → lookup k (put j d m) ≡ some x
put-lookup-other k j d m x n h = ground (arith, lookup-put j k d m, eqb_iff k j)

module _ {A D : Type 0} (env : Env A D) (law : IsLawfulEnv env) (f : Faults) (now : ℕ) where
  -- What applyLocked does to a manager whose file has the configuration that is applied, with no
  -- fault in the backup: it fails and changes nothing but the hook's state, or the manager is in
  -- step with the file.
  abbrev Applied : Config → Manager A → Option Failure × Manager A → Type 0
  Applied c m r =
      ((e : Failure) × (a : A) × (r ≡ (some e, record m { app = a })))
      ⊎ ((r.0 ≡ none)
          × IsSynced env r.1
          × (r.1.current ≡ c)
          × ((v : ℕ) (d : Text)
              → v ≡ m.version
              → lookup v m.backups ≡ some d
              → lookup v r.1.backups ≡ some d)
          × (r.1.version ≡ m.version + 1))

  revise_after-Applied :
      (c : Config) (summary : Text) (m : Manager A) (o : Option Text × A)
      → m.has_path ≡ true
      → m.version ≡ length m.history
      → validate env.lib c ≡ none
      → f.backup ≡ false
      → load_from_file env.lib env.loader m.file ≡ ok c
      → Applied c m (revise_after env f now c summary m o)
  unfolding put
  revise_after-Applied c summary m (some e, a) p v e' b l = inl (_, a, refl)
  revise_after-Applied c summary m (none, a) p v e b l =
      let (d, enc, lf, lb) = law.encodes c e in
      rw (enc, p, b)
        (inr (
          refl,
          record {
            has_file = refl;
            valid = e;
            loads = l;
            started = omega arith;
            versions = v' c summary m d v;
            backed_up = (d, put-lookup-same (m.version + 1) d m.backups, enc);
          },
          refl,
          λ w x q g. put-lookup-other w (m.version + 1) d m.backups x (ground arith) g,
          refl,
        ))
    where
      v' :
          (c : Config) (summary : Text) (m : Manager A) (d : Text)
          → m.version ≡ length m.history
          → m.version + 1 ≡ length (m.history ++ change_of env f now (m.version + 1) d summary ∷ [])
      v' c summary m d v =
          rw (length-append m.history (change_of env f now (m.version + 1) d summary ∷ []))
            (omega arith)

  apply_locked-Applied :
      (c : Config) (summary : Text) (m : Manager A)
      → m.has_path ≡ true
      → m.version ≡ length m.history
      → validate env.lib c ≡ none
      → f.backup ≡ false
      → load_from_file env.lib env.loader m.file ≡ ok c
      → Applied c m (apply_locked env f now c summary m)
  unfolding apply_locked
  apply_locked-Applied c summary m p v e b l =
      revise_after-Applied c summary m (run_hook env.apply c m.app) p v e b l

  restore-none :
      (previous : Text) (r : Option Failure × Manager A)
      → r.0 ≡ none
      → IsSynced env r.1
      → IsSynced env (restore_file env f now previous r).1
  restore-none previous (none, m) h s = s
  restore-none previous (some e, m) h s = cc

  -- Where the file is written and then written back, the manager is in step with it again.
  restore-IsSynced :
      (c : Config) (previous data_ : Text) (m : Manager A) (r : Option Failure × Manager A)
      → IsSynced env m
      → f.restore ≡ false
      → load_from_file env.lib env.loader (some previous) ≡ ok m.current
      → Applied c (record m { file = some data_ }) r
      → IsSynced env (restore_file env f now previous r).1
  restore-IsSynced c previous data_ m r s q l (inl (e, a, h)) =
      rw (h, q)
        (record {
          has_file = s.has_file;
          valid = s.valid;
          loads = l;
          started = s.started;
          versions = s.versions;
          backed_up = s.backed_up;
        })
  restore-IsSynced c previous data_ m r s q l (inr (h, t, x, k, n)) = restore-none previous r h t

  update_file-IsSynced :
      (c : Config) (summary previous data_ : Text) (m : Manager A)
      → IsSynced env m
      → validate env.lib c ≡ none
      → f.backup ≡ false
      → f.restore ≡ false
      → load_from_file env.lib env.loader (some previous) ≡ ok m.current
      → load_from_file env.lib env.loader (some data_) ≡ ok c
      → IsSynced env (update_file env f now summary m previous data_).1
  unfolding apply_locked
  update_file-IsSynced c summary previous data_ m s v b q lp ld = elim (Bool-cases f.replace) [
    | inl h ↦ rw h s
    | inr h ↦
        rw (h, ld)
          (restore-IsSynced c previous data_ m _ s q lp (
            apply_locked-Applied c summary (record m { file = some data_ }) s.has_file s.versions v
              b ld))
  ]

  update_encoded-IsSynced :
      (c : Config) (summary : Text) (m : Manager A) (x y : Result Text Text)
      → IsSynced env m
      → validate env.lib c ≡ none
      → f.backup ≡ false
      → f.restore ≡ false
      → env.loader.encode m.current ≡ x
      → env.loader.encode c ≡ y
      → IsSynced env (update_encoded env f now summary m x y).1
  update_encoded-IsSynced c summary m (err e) y s v b q hx hy = s
  update_encoded-IsSynced c summary m (ok p) (err e) s v b q hx hy = s
  update_encoded-IsSynced c summary m (ok p) (ok d) s v b q hx hy =
      let (p', ep, lp, _) = law.encodes m.current s.valid in
      let (d', ed, ld, _) = law.encodes c v in
      update_file-IsSynced c summary p d m s v b q
        (subst (λ t. load_from_file env.lib env.loader (some t) ≡ ok m.current)
          (ok-injective (sym ep ∙ hx)) lp)
        (subst (λ t. load_from_file env.lib env.loader (some t) ≡ ok c) (ok-injective (sym ed ∙ hy))
          ld)

  update_valid-IsSynced :
      (c : Config) (summary : Text) (m : Manager A) (o : Option ConfigError)
      → validate env.lib c ≡ o
      → IsSynced env m
      → f.backup ≡ false
      → f.restore ≡ false
      → IsSynced env (update_valid env f now c summary m o).1
  update_valid-IsSynced c summary m (some e) v s b q = s
  update_valid-IsSynced c summary m none v s b q =
      subst
        (λ h.
          IsSynced env
            (if not h
              then (some no_path, m)
              else update_encoded env f now summary m (env.loader.encode m.current)
                  (env.loader.encode c)).1)
        (sym s.has_file) (update_encoded-IsSynced c summary m _ _ s v b q refl refl)

  -- If the manager is in step with its file (the file is loaded to the configuration in use, which
  -- is valid and backed up under the current version, and the versions count the history), then it
  -- is so after an update, whether that succeeds or fails, unless the write of the backup, or of
  -- the old file after a failure, fails. The YAML library loads what it encodes.
  pub update-IsSynced :
      (c : Config) (summary : Text) (m : Manager A)
      → IsSynced env m
      → f.backup ≡ false
      → f.restore ≡ false
      → IsSynced env (update env f now c summary m).1
  unfolding update
  update-IsSynced c summary m s b q = update_valid-IsSynced c summary m _ refl s b q

  -- The hook accepts every configuration.
  abbrev pub Accepts : Type 0
  Accepts = (c : Config) (a : A) → (run_hook env.apply c a).0 ≡ none

  revise_after-none :
      (c : Config) (summary : Text) (m : Manager A) (o : Option Text × A)
      → m.has_path ≡ true
      → validate env.lib c ≡ none
      → f.backup ≡ false
      → o.0 ≡ none
      → (revise_after env f now c summary m o).0 ≡ none
  revise_after-none c summary m (some e, a) p v b h = cc
  revise_after-none c summary m (none, a) p v b h =
      let (d, enc, lf, lb) = law.encodes c v in rw (enc, p, b) refl

  pub apply_locked-ok :
      (c : Config) (summary : Text) (m : Manager A)
      → (run_hook env.apply c m.app).0 ≡ none
      → m.has_path ≡ true
      → m.version ≡ length m.history
      → validate env.lib c ≡ none
      → f.backup ≡ false
      → load_from_file env.lib env.loader m.file ≡ ok c
      → let r = apply_locked env f now c summary m in
        (r.0 ≡ none)
        × IsSynced env r.1
        × (r.1.current ≡ c)
        × ((v : ℕ) (d : Text)
            → v ≡ m.version
            → lookup v m.backups ≡ some d
            → lookup v r.1.backups ≡ some d)
        × (r.1.version ≡ m.version + 1)
  unfolding apply_locked
  apply_locked-ok c summary m acc p n v b l = elim (apply_locked-Applied c summary m p n v b l) [
    | inl (e, a, h) ↦
        let no : ◌≡◌ {A = Option Failure} (some e) none =
          sym (ap (λ r. r.0) h)
          ∙ revise_after-none c summary m (run_hook env.apply c m.app) p v b acc in
        cc
    | inr t ↦ t
  ]
