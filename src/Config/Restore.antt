-- ===== src/Config/Restore.antt =====
-- Update of internal/config/manager.go followed by Rollback, and Update where the backup fails.
use digitdojo_shield.Prelude.{
  ℕ, ◌+◌, ◌≤◌, ◌≡◌, refl, sym, ◌∙◌, subst, ok-injective, true, false, Option, none, some, arith,
  ltb, length, lookup, nat_eq, pos, Text, ok,
}
use digitdojo_shield.Config.Settings.{Config, validate}
use digitdojo_shield.Config.Yaml.{load_from_file, load_bytes}
use digitdojo_shield.Config.Manager.{
  Manager, Env, Faults, Failure, run_hook, apply_locked, revise_after, update, rollback,
  restore_file, restore_current, backup_failed, rolled_back,
}
use digitdojo_shield.Config.Revisions.{IsLawfulEnv, IsSynced, Accepts, apply_locked-ok}

module _ {A D : Type 0} (env : Env A D) (law : IsLawfulEnv env) (f : Faults) (now : ℕ) where
  restore_file-none :
      (previous : Text) (r : Option Failure × Manager A)
      → r.0 ≡ none
      → restore_file env f now previous r ≡ r
  restore_file-none previous (none, m) h = refl
  restore_file-none previous (some e, m) h = cc

  restore_current-none :
      (previous : Text) (r : Option Failure × Manager A)
      → r.0 ≡ none
      → restore_current env f now previous r ≡ r
  restore_current-none previous (none, m) h = refl
  restore_current-none previous (some e, m) h = cc

  -- Update, where nothing fails: the candidate is written and applied.
  update_applies :
      (c : Config) (summary : Text) (m : Manager A)
      → IsSynced env m
      → f.replace ≡ false
      → validate env.lib c ≡ none
      → (d : Text) × (load_from_file env.lib env.loader (some d) ≡ ok c)
        × (previous : Text) × (load_from_file env.lib env.loader (some previous) ≡ ok m.current)
        × (update env f now c summary m
            ≡ restore_file env f now previous
                (apply_locked env f now c summary (record m { file = some d })))
  unfolding update
  update_applies c summary m s r v =
      let (p, ep, lp, bp) = law.encodes m.current s.valid in
      let (d, ed, ld, bd) = law.encodes c v in
      (d, ld, p, lp, rw (v, s.has_file, ep, ed, r, ld) refl)

  -- Update to a valid configuration, where nothing fails.
  pub update-ok :
      (c : Config) (summary : Text) (m : Manager A)
      → IsSynced env m
      → f.replace ≡ false
      → f.backup ≡ false
      → (run_hook env.apply c m.app).0 ≡ none
      → validate env.lib c ≡ none
      → let u = update env f now c summary m in
        (u.0 ≡ none) × IsSynced env u.1 × (u.1.current ≡ c) × (u.1.version ≡ m.version + 1)
  update-ok c summary m s w b acc v =
      let (d, ld, p, lp, e) = update_applies c summary m s w v in
      let (n, t, x, k, i) =
        apply_locked-ok env law f now c summary (record m { file = some d }) acc s.has_file
          s.versions v b ld in
      rw (e ∙ restore_file-none p _ n) (n, t, x, i)

  rollback_applies :
      (v : ℕ) (d : Text) (c : Config) (summary : Text) (m : Manager A)
      → IsSynced env m
      → f.replace ≡ false
      → 1 ≤ v
      → v ≤ length m.history
      → lookup v m.backups ≡ some d
      → load_bytes env.lib env.loader d ≡ ok c
      → (previous : Text) × (rollback env f now summary (pos v) m
          ≡ restore_current env f now previous
              (apply_locked env f now c summary (record m { file = some d })))
  unfolding rollback
  rollback_applies v d c summary m s r lo hi k l =
      let (p, ep, lp, bp) = law.encodes m.current s.valid in
      let low : ltb v 1 ≡ false = ground arith in
      let high : ltb (length m.history) v ≡ false = ground arith in
      (p, rw (s.has_file, low, high, k, l, ep, r) refl)

  -- Take a manager that is in step with its file, where no write fails, the hook accepts every
  -- configuration and the YAML library loads what it encodes. Updating to a valid configuration
  -- succeeds and puts it into use; rolling back to the version before then succeeds, puts the old
  -- configuration into use again, and leaves the manager in step with its file.
  pub update-rollback :
      (c : Config) (summary summary' : Text) (m : Manager A)
      → IsSynced env m
      → f.replace ≡ false
      → f.backup ≡ false
      → Accepts env law f now
      → validate env.lib c ≡ none
      → let u = update env f now c summary m in
        let r = rollback env f now summary' (pos m.version) u.1 in
        (u.0 ≡ none)
        × (u.1.current ≡ c)
        × (r.0 ≡ none)
        × (r.1.current ≡ m.current)
        × IsSynced env r.1
  update-rollback c summary summary' m s w b acc v =
      let (d, ld, p, lp, e) = update_applies c summary m s w v in
      let (n, t, x, k, i) =
        apply_locked-ok env law f now c summary (record m { file = some d }) (acc c m.app)
          s.has_file s.versions v b ld in
      let eu = e ∙ restore_file-none p _ n in
      let (q, hq, eq') = s.backed_up in
      let (p', ep, lp', bp) = law.encodes m.current s.valid in
      let a = apply_locked env f now c summary (record m { file = some d }) in
      let (g, er) =
        rollback_applies m.version q m.current summary' a.1 t w s.started
          (omega (arith, i, t.versions)) (k m.version q refl hq)
          (subst (λ y. load_bytes env.lib env.loader y ≡ ok m.current) (ok-injective (sym ep ∙ eq'))
            bp) in
      let (n', t', x', k', i') =
        apply_locked-ok env law f now m.current summary' (record a.1 { file = some q })
          (acc m.current a.1.app) t.has_file t.versions s.valid b
          (subst (λ y. load_from_file env.lib env.loader (some y) ≡ ok m.current)
            (ok-injective (sym ep ∙ eq')) lp') in
      rw (eu, er ∙ restore_current-none g _ n') (n, x, n', x', t')

  restore_file-some :
      (previous : Text) (e : Failure) (r : Option Failure × Manager A)
      → r.0 ≡ some e
      → f.restore ≡ false
      → restore_file env f now previous r
        ≡ (some (rolled_back e), record r.1 { file = some previous })
  restore_file-some previous e (none, m) h q = cc
  restore_file-some previous e (some e', m) h q = let k : e' ≡ e = cc in rw (q, k) refl

  revise_after-fault :
      (c : Config) (summary : Text) (m : Manager A) (o : Option Text × A)
      → m.has_path ≡ true
      → validate env.lib c ≡ none
      → f.backup ≡ true
      → o.0 ≡ none
      → let r = revise_after env f now c summary m o in
        (r.0 ≡ some backup_failed) × (r.1.current ≡ c)
  revise_after-fault c summary m (some e, a) p v b h = cc
  revise_after-fault c summary m (none, a) p v b h =
      let (d, enc, lf, lb) = law.encodes c v in rw (enc, p, b) (refl, refl)

  apply_locked-fault :
      (c : Config) (summary : Text) (m : Manager A)
      → m.has_path ≡ true
      → validate env.lib c ≡ none
      → f.backup ≡ true
      → (run_hook env.apply c m.app).0 ≡ none
      → let r = apply_locked env f now c summary m in (r.0 ≡ some backup_failed) × (r.1.current ≡ c)
  unfolding apply_locked
  apply_locked-fault c summary m p v b h =
      revise_after-fault c summary m (run_hook env.apply c m.app) p v b h

  -- Take a manager that is in step with its file and a valid configuration that the hook accepts. If
  -- the write of the backup fails and the writes of the file do not, the update returns the error
  -- that says it was rolled back, and the file is loaded to the old configuration, but the manager
  -- has the new one in use. The YAML library loads what it encodes.
  pub update-backup_failed :
      (c : Config) (summary : Text) (m : Manager A)
      → IsSynced env m
      → f.replace ≡ false
      → f.restore ≡ false
      → f.backup ≡ true
      → (run_hook env.apply c m.app).0 ≡ none
      → validate env.lib c ≡ none
      → let u = update env f now c summary m in
        (u.0 ≡ some (rolled_back backup_failed))
        × (u.1.current ≡ c)
        × (load_from_file env.lib env.loader u.1.file ≡ ok m.current)
  update-backup_failed c summary m s w q b acc v =
      let (d, ld, p, lp, e) = update_applies c summary m s w v in
      let (x, y) = apply_locked-fault c summary (record m { file = some d }) s.has_file v b acc in
      rw (e ∙ restore_file-some p backup_failed _ x q) (refl, y, lp)
