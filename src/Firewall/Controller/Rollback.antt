-- ===== src/Firewall/Controller/Rollback.antt =====
-- Reconcile and Cleanup of internal/firewall/controller.go are all or nothing, on backends that
-- keep to the contract of backend.go.
use digitdojo_shield.Prelude.{
  ℕ, ◌≡◌, refl, ap, ◌∙◌, Bool, true, false, Option, none, some, not, Text, text_beq, Result, ok,
  err, beq_refl, text_eq, if◌then◌else◌,
}
use digitdojo_shield.Firewall.Backend.{DesiredState, normalize}
use digitdojo_shield.Firewall.Contract.{
  Call, returns, panics, Context, Snapshot, Error, enforcement_disabled, operation_panic,
  name_panic, restore_failed, restore_panic, snapshot_panic, snapshot_failed, snapshot_mismatch,
  Backend,
}
use digitdojo_shield.Firewall.Registry.{Registry, resolve}
use digitdojo_shield.Firewall.Controller.{
  Controller, name_safely, snapshot_safely, restore_safely, roll_back, finish, after_name,
  execute_with_rollback, on_backend, resolve_and_run, reconcile_live, reconcile, cleanup,
  rollback_context,
}

-- The contract on the objects that Shield owns, `view` of the world: a snapshot does not change
-- them, and a restore that reports no error brings back what the snapshot saw.
pub record IsLawful {W V : Type 0} (view : W → V) (b : Backend W) : Type 0 where
  pub snapshot_reads : (ctx : Context) (w : W) → view (b.snapshot ctx w).1 ≡ view w
  pub restores :
      (ctx ctx' : Context) (w v : W) (s : Snapshot)
      → (b.snapshot ctx w).0 ≡ returns (ok s)
      → (b.restore ctx' s v).0 ≡ returns none
      → view (b.restore ctx' s v).1 ≡ view w

-- What the guarded operation starts from: the world after the backend's snapshot.
abbrev pub after_snapshot : {W : Type 0} → Backend W → Context → W → W
after_snapshot b ctx w = (b.snapshot ctx w).1

-- The three ways in which a guarded operation can end.
pub data Ending {W V : Type 0} (view : W → V) (b : Backend W) (ctx : Context)
    (operation : W → Call (Option Error) × W) (w : W) (r : Option Error × W) : Type 0 where
  done :
      (s : Snapshot)
      → (b.snapshot ctx w).0 ≡ returns (ok s)
      → (operation (after_snapshot b ctx w)).0 ≡ returns none
      → r ≡ (none, (operation (after_snapshot b ctx w)).1)
      → Ending view b ctx operation w r
  undone : (e : Error) → r.0 ≡ some e → view r.1 ≡ view w → Ending view b ctx operation w r
  restore_lost : (e e' : Error) → r.0 ≡ some (restore_failed e e') → Ending view b ctx operation w r

module _ {W V : Type 0} (view : W → V) (b : Backend W) (lawful : IsLawful view b) where
  roll_back-Ending :
      (operation : W → Call (Option Error) × W) (ctx : Context) (w v : W) (s : Snapshot) (e : Error)
      → (b.snapshot ctx w).0 ≡ returns (ok s)
      → Ending view b ctx operation w (roll_back b s e v)
  unfolding roll_back
  roll_back-Ending operation ctx w v s e hs = go (b.restore rollback_context s v).0 refl
    where
      go :
          (c : Call (Option Error))
          → (b.restore rollback_context s v).0 ≡ c
          → Ending view b ctx operation w (roll_back b s e v)
      go (returns none) q =
          undone e (rw (q, restore_safely))
            (rw (q, restore_safely) (lawful.restores ctx rollback_context w v s hs q))
      go (returns (some e')) q = restore_lost e e' (rw (q, restore_safely))
      go (panics m) q = restore_lost e (restore_panic m) (rw (q, restore_safely))

  finish-Ending :
      (operation : W → Call (Option Error) × W) (ctx : Context) (w : W) (s : Snapshot)
      → (b.snapshot ctx w).0 ≡ returns (ok s)
      → Ending view b ctx operation w
          (let u = operation (after_snapshot b ctx w) in finish b s u.0 u.1)
  unfolding finish
  finish-Ending operation ctx w s hs = go (operation v).0 refl
    where
      v : W
      v = (b.snapshot ctx w).1

      go :
          (c : Call (Option Error))
          → (operation v).0 ≡ c
          → Ending view b ctx operation w (finish b s c (operation v).1)
      go (returns none) q = done s hs q refl
      go (returns (some e)) q = roll_back-Ending operation ctx w (operation v).1 s e hs
      go (panics m) q = roll_back-Ending operation ctx w (operation v).1 s (operation_panic m) hs

  guarded-Ending :
      (operation : W → Call (Option Error) × W) (ctx : Context) (name : Text) (w : W)
      → Ending view b ctx operation w (after_name ctx b operation (ok name) w)
  guarded-Ending operation ctx name w = go (b.snapshot ctx w).0 refl
    where
      kept : view (b.snapshot ctx w).1 ≡ view w
      kept = lawful.snapshot_reads ctx w

      matched :
          (s : Snapshot)
          → (b.snapshot ctx w).0 ≡ returns (ok s)
          → (t : Bool)
          → Ending view b ctx operation w (
              if t
              then finish b s (operation (b.snapshot ctx w).1).0 (operation (b.snapshot ctx w).1).1
              else (some (snapshot_mismatch s.backend name), (b.snapshot ctx w).1))
      matched s q true = finish-Ending operation ctx w s q
      matched s q false = undone (snapshot_mismatch s.backend name) refl kept

      go :
          (c : Call (Result Error Snapshot))
          → (b.snapshot ctx w).0 ≡ c
          → Ending view b ctx operation w (after_name ctx b operation (ok name) w)
      go (returns (ok s)) q =
          rw (q, after_name, snapshot_safely) (matched s q (text_beq s.backend name))
      go (returns (err e)) q =
          rw (q, after_name, snapshot_safely) (undone (snapshot_failed e) refl kept)
      go (panics m) q =
          rw (q, after_name, snapshot_safely)
            (undone (snapshot_failed (snapshot_panic m)) refl kept)

  execute-Ending :
      (operation : W → Call (Option Error) × W) (ctx : Context) (w : W)
      → Ending view b ctx operation w (execute_with_rollback ctx b operation w)
  unfolding execute_with_rollback
  execute-Ending operation ctx w = go (name_safely b)
    where
      go : (r : Result Error Text) → Ending view b ctx operation w (after_name ctx b operation r w)
      go (err e) = undone e refl refl
      go (ok name) = guarded-Ending operation ctx name w

-- The world of the controller: what Shield owns of it, with backends that keep to the contract and
-- factories that do not touch what Shield owns.
pub record IsLawfulWorld {W V : Type 0} (view : W → V) (r : Registry W) (selected : Text)
    : Type 0 where
  pub lawful :
      (ctx : Context) (w : W) (b : Backend W)
      → (resolve (some ctx) selected r w).0 ≡ ok b
      → IsLawful view b
  pub creation_reads : (ctx : Context) (w : W) → view (resolve (some ctx) selected r w).1 ≡ view w

-- The ways in which a call of the controller can end, for the operation that it runs. Without an
-- error the operation ran on the backend that the registry resolves, after that backend's snapshot.
pub data Outcome {W V : Type 0} (view : W → V) (c : Controller W) (ctx : Context)
    (operation : Backend W → W → Call (Option Error) × W) (w : W) (r : Option Error × W)
    : Type 0 where
  applied :
      (b : Backend W) (s : Snapshot)
      → c.enabled ≡ true
      → (resolve (some ctx) c.selected c.registry w).0 ≡ ok b
      → (b.snapshot ctx (resolve (some ctx) c.selected c.registry w).1).0 ≡ returns (ok s)
      → (operation b (after_snapshot b ctx (resolve (some ctx) c.selected c.registry w).1)).0
        ≡ returns none
      → r ≡ (
        none,
        (operation b (after_snapshot b ctx (resolve (some ctx) c.selected c.registry w).1)).1,
      )
      → Outcome view c ctx operation w r
  unchanged : (e : Error) → r.0 ≡ some e → view r.1 ≡ view w → Outcome view c ctx operation w r
  restore_failure :
      (e e' : Error) → r.0 ≡ some (restore_failed e e') → Outcome view c ctx operation w r

-- The operation is carried out wherever it can be: enforcement is on, the registry resolves to a
-- backend, which has the name that its snapshot says, and the operation returns without an error.
abbrev pub IsCarriedOut :
    {W : Type 0}
    → Controller W
    → Context
    → (Backend W → W → Call (Option Error) × W)
    → W
    → Option Error × W
    → Type 0
IsCarriedOut {W} c ctx operation w r =
    let resolved = resolve (some ctx) c.selected c.registry w in
    (b : Backend W) (s : Snapshot)
    → c.enabled ≡ true
    → resolved.0 ≡ ok b
    → b.name ≡ returns s.backend
    → (b.snapshot ctx resolved.1).0 ≡ returns (ok s)
    → (operation b (after_snapshot b ctx resolved.1)).0 ≡ returns none
    → r ≡ (none, (operation b (after_snapshot b ctx resolved.1)).1)

module _ {W V : Type 0} (view : W → V) (c : Controller W)
    (lawful : IsLawfulWorld view c.registry c.selected) where
  Outcome-of :
      (operation : Backend W → W → Call (Option Error) × W) (ctx : Context) (b : Backend W) (w : W)
      (r : Option Error × W)
      → c.enabled ≡ true
      → (resolve (some ctx) c.selected c.registry w).0 ≡ ok b
      → Ending view b ctx (operation b) (resolve (some ctx) c.selected c.registry w).1 r
      → Outcome view c ctx operation w r
  Outcome-of operation ctx b w r on q (done s h p o) = applied b s on q h p o
  Outcome-of operation ctx b w r on q (undone x p h) =
      unchanged x p (h ∙ lawful.creation_reads ctx w)
  Outcome-of operation ctx b w r on q (restore_lost x y p) = restore_failure x y p

  resolve_and_run-Outcome :
      (operation : Backend W → W → Call (Option Error) × W) (ctx : Context) (w : W)
      → c.enabled ≡ true
      → Outcome view c ctx operation w (resolve_and_run c ctx operation w)
  unfolding resolve_and_run
  resolve_and_run-Outcome operation ctx w on =
      go (resolve (some ctx) c.selected c.registry w).0 refl
    where
      v : W
      v = (resolve (some ctx) c.selected c.registry w).1

      go :
          (r : Result Error (Backend W))
          → (resolve (some ctx) c.selected c.registry w).0 ≡ r
          → Outcome view c ctx operation w (on_backend ctx operation r v)
      go (err e) q = unchanged e refl (lawful.creation_reads ctx w)
      go (ok b) q =
          Outcome-of operation ctx b w _ on q
            (execute-Ending view b (lawful.lawful ctx w b q) (operation b) ctx v)

  name_safely-returns : (b : Backend W) (n : Text) → b.name ≡ returns n → name_safely b ≡ ok n
  name_safely-returns b n h = go b.name h
    where
      go :
          (k : Call Text)
          → k ≡ returns n
          → elim k [ returns n ↦ ok n | panics m ↦ err (name_panic m) ] ≡ ok n
      go (returns x) h = cc
      go (panics x) h = cc

  resolve_and_run-IsCarriedOut :
      (operation : Backend W → W → Call (Option Error) × W) (ctx : Context) (w : W)
      → IsCarriedOut c ctx operation w (resolve_and_run c ctx operation w)
  unfolding resolve_and_run execute_with_rollback finish
  resolve_and_run-IsCarriedOut operation ctx w b s on q n h p =
      let u = (resolve (some ctx) c.selected c.registry w).1 in
      ap (λ (r : Result Error (Backend W)). on_backend ctx operation r u) q
      ∙ ap (λ (r : Result Error Text). after_name ctx b (operation b) r u)
          (name_safely-returns b s.backend n)
      ∙ rw (after_name, snapshot_safely, h, beq_refl {A = Text} s.backend, p) refl

  guarded_call :
      (operation : Backend W → W → Call (Option Error) × W) (ctx : Context) (w : W)
      → let r =
          if not c.enabled
          then (some enforcement_disabled, w)
          else resolve_and_run c ctx operation w in
        Outcome view c ctx operation w r × IsCarriedOut c ctx operation w r
  guarded_call operation ctx w = go c.enabled refl
    where
      go :
          (t : Bool)
          → c.enabled ≡ t
          → let r =
              if not t then (some enforcement_disabled, w) else resolve_and_run c ctx operation w in
            Outcome view c ctx operation w r × IsCarriedOut c ctx operation w r
      go true on =
          (resolve_and_run-Outcome operation ctx w on, resolve_and_run-IsCarriedOut operation ctx w)
      go false off = (unchanged enforcement_disabled refl refl, λ b s on q n h p. cc)

  -- Reconcile is all or nothing, with backends that keep to the contract. It either reports no
  -- error, and then the backend that the registry resolves took its snapshot and returned no error
  -- from its reconcile of the normalized state, whose world is left; or it reports an error and the
  -- Shield-owned objects are as before; or it reports both the error and that the restore failed
  -- too. A panic of the backend ends in one of these ways. And where enforcement is on, the registry
  -- resolves to a backend of the name in its snapshot, and that reconcile returns no error, then
  -- Reconcile reports no error and leaves the world of that reconcile.
  pub reconcile-Outcome :
      (ctx : Context) (now : ℕ) (desired n : DesiredState) (w : W)
      → normalize now desired ≡ ok n
      → Outcome view c ctx (λ b. b.reconcile ctx n) w (reconcile c (some ctx) now desired w)
        × IsCarriedOut c ctx (λ b. b.reconcile ctx n) w (reconcile c (some ctx) now desired w)
  unfolding reconcile
  reconcile-Outcome ctx now desired n w h =
      rw (h, reconcile_live) (guarded_call (λ b. b.reconcile ctx n) ctx w)

  -- Cleanup is all or nothing in the same way, and carried out wherever it can be.
  cleanup-Outcome :
      (ctx : Context) (w : W)
      → Outcome view c ctx (λ b. b.cleanup ctx) w (cleanup c (some ctx) w)
        × IsCarriedOut c ctx (λ b. b.cleanup ctx) w (cleanup c (some ctx) w)
  unfolding cleanup
  cleanup-Outcome ctx w = guarded_call (λ b. b.cleanup ctx) ctx w
