-- ===== src/Api/Editing.antt =====
-- What the handlers of the configuration in internal/api/api.go do with the manager of it.
use digitdojo_shield.Prelude.{
  ◌+◌, ◌≡◌, refl, sym, ◌∙◌, ap, subst, false, Option, none, some, Text, text, ok, ◌⊎◌,
}
use digitdojo_shield.Config.Settings.{Config}
use digitdojo_shield.Config.Manager.{Manager, Env, Failure, run_hook, update}
use digitdojo_shield.Config.Revisions.{IsLawfulEnv, IsSynced}
use digitdojo_shield.Config.Restore.{update-ok}
use digitdojo_shield.Logs.Audit
use digitdojo_shield.Logs.Audit.{Record, record_action}
use digitdojo_shield.Api.Secrets.{redacted, preserve_secrets}
use digitdojo_shield.Api.Handlers.{
  get, patch, Incoming, Shown, Reply, shown, plain, failed, status, page_of, shown_config,
  decode_body, Codec, Server, Circumstances, record_audit, finish, handle_config,
}

-- The configuration that a reply shows has none of its secrets.
abbrev pub IsSecretFree : Reply → Type 0
IsSecretFree (shown s) = redacted s.config ≡ s.config
IsSecretFree (plain n) = Unit
IsSecretFree (failed n) = Unit

module _ {A D H : Type 0} (env : Env A D) (codec : Codec) (lib : Audit.Lib) (c : Circumstances)
    (r : Incoming) where
  -- No secret is shown; and the request changes nothing, or the audit trail was given a record of
  -- its client whose result is "success" if the status is 200 and "failure" if it is 400.
  abbrev pub IsPassedOn : Text → Server A H → Reply × Server A H → Type 0
  IsPassedOn action s a =
      IsSecretFree a.0
      × ((a.1 ≡ s)
          ⊎ ((entry : Record) × (a.1.audit ≡ record_audit lib c entry s.audit)
              × (entry.source_ip ≡ r.client)
              × (entry.action ≡ action)
              × (((status a.0 ≡ 200) × (entry.result ≡ text "success"))
                  ⊎ ((status a.0 ≡ 400) × (entry.result ≡ text "failure")))))

  -- As IsPassedOn, for a server with the audit manager `trail`: Record was called on that.
  abbrev pub IsHandled : Text → Audit.Manager H → Server A H → Reply × Server A H → Type 0
  IsHandled action trail s a =
      IsSecretFree a.0
      × ((a.1 ≡ s)
          ⊎ ((entry : Record) × (a.1.audit
                ≡ some (record_action lib c.audit_faults c.clock c.record_random entry trail).1)
              × (entry.source_ip ≡ r.client)
              × (entry.action ≡ action)
              × (((status a.0 ≡ 200) × (entry.result ≡ text "success"))
                  ⊎ ((status a.0 ≡ 400) × (entry.result ≡ text "failure")))))

  finish-none :
      (action redaction : Text) (s : Server A H) (o : Option Failure × Manager A)
      → o.0 ≡ none
      → ((finish env codec lib c r action redaction s o).0 ≡ shown_config o.1.current o.1.history)
        × ((finish env codec lib c r action redaction s o).1.configs ≡ some o.1)
  finish-none action redaction s (none, m) h = (refl, refl)
  finish-none action redaction s (some e, m) h = cc

  handle_config-patch :
      (s : Server A H) (m : Manager A) (candidate : Config)
      → s.configs ≡ some m
      → r.method ≡ patch
      → decode_body codec.config r.body ≡ ok candidate
      → handle_config env codec lib c r s
        ≡ finish env codec lib c r (text "config.update") (text "redacted") s (
            update env c.faults c.clock
              (preserve_secrets candidate m.current)
              (text "API configuration update")
              m)
  unfolding handle_config
  handle_config-patch s m candidate hm hp hb = rw (hm, hp, hb) refl

  handle_config-get :
      (s : Server A H) (m : Manager A)
      → s.configs ≡ some m
      → r.method ≡ get
      → handle_config env codec lib c r s ≡ (shown_config m.current m.history, s)
  unfolding handle_config
  handle_config-get s m hm hg = rw (hm, hg) refl

shown-injective : (a b : Shown) → shown a ≡ shown b → a ≡ b
shown-injective a b h = cc

module _ {A D H : Type 0} (env : Env A D) (law : IsLawfulEnv env) (codec : Codec) (lib : Audit.Lib)
    (c c' : Circumstances) (q r : Incoming) (s : Server A H) (m : Manager A) where
  -- Where the update succeeds: the reply shows the configuration that was in use.
  abbrev pub IsKept : Shown → Reply × Server A H → Type 0
  IsKept sh a =
      (m' : Manager A) × (a.1.configs ≡ some m')
      × (m'.current ≡ m.current)
      × IsSynced env m'
      × (m'.version ≡ m.version + 1)
      × (a.0 ≡ shown (record sh { history = m'.history }))

  patched-IsKept :
      s.configs ≡ some m
      → IsSynced env m
      → c.faults.replace ≡ false
      → c.faults.backup ≡ false
      → (run_hook env.apply m.current m.app).0 ≡ none
      → r.method ≡ patch
      → decode_body codec.config r.body ≡ ok (redacted m.current)
      → IsKept (page_of m.current m.history) (handle_config env codec lib c r s)
  unfolding page_of
  patched-IsKept hm sync w b acc hp hb =
      let o = update env c.faults c.clock m.current (text "API configuration update") m in
      let (n, t, x, i) =
        update-ok env law c.faults c.clock m.current (text "API configuration update") m sync w b
          acc sync.valid in
      let (reply, configs) =
        finish-none env codec lib c r (text "config.update") (text "redacted") s o n in
      rw (handle_config-patch env codec lib c r s m (redacted m.current) hm hp hb)
        (o.1, configs, x, t, i, reply ∙ ap (λ d. shown_config d o.1.history) x)

  -- Take a server whose manager is in step with its file, where no write of the manager fails and
  -- its hook accepts the configuration in use once more. If a client sends back, in a PATCH, the configuration that
  -- a GET showed it, then the reply shows that configuration again, with the same secrets
  -- configured; the configuration in use is what it was, secrets included, under the next version,
  -- and the manager is in step with its file.
  pub handle_config-shown :
      (sh : Shown)
      → s.configs ≡ some m
      → IsSynced env m
      → c.faults.replace ≡ false
      → c.faults.backup ≡ false
      → (run_hook env.apply m.current m.app).0 ≡ none
      → q.method ≡ get
      → r.method ≡ patch
      → (handle_config env codec lib c' q s).0 ≡ shown sh
      → decode_body codec.config r.body ≡ ok sh.config
      → IsKept sh (handle_config env codec lib c r s)
  unfolding page_of
  handle_config-shown sh hm sync w b acc hg hp g hb =
      let same : page_of m.current m.history ≡ sh = shown-injective _ _ (
        sym (ap (λ (a : Reply × Server A H). a.0) (handle_config-get env codec lib c' q s m hm hg))
        ∙ g) in
      subst (λ x. IsKept x (handle_config env codec lib c r s)) same
        (patched-IsKept hm sync w b acc hp (hb ∙ ap (λ (x : Shown). ok x.config) (sym same)))
