-- ===== src/Firewall/Nftables/Guarded.antt =====
-- What internal/firewall/nftables/backend.go lets nft apply: the runs of nft are written down.
use digitdojo_shield.Prelude.{
  ◌≡◌, refl, Bool, true, false, not, List, [], ◌∷◌, Option, none, some, eqb, if◌then◌else◌, Text,
  text, text_beq, Result, ok, err,
}
use digitdojo_shield.Firewall.Backend.{DesiredState, NormalizeError}
use digitdojo_shield.Firewall.Contract.{Snapshot, Error, nftables}
use digitdojo_shield.Firewall.Nftables.Render.{render_ruleset}
use digitdojo_shield.Firewall.Nftables.Driver.{
  Lib, Command, list_tables, list_table, check, apply, SnapshotData, snapshot_version, table_exists,
  read_listing, inspect_present, inspect, snapshot_inspected, snapshot_present, take_snapshot,
  applied, checked, reconcile_rendered, reconcile, cleanup_program, cleanup, restore_data, restore,
}

-- A run of nft: its command, its program and whether it succeeded.
abbrev pub Run : Type 0
Run = Command × Text × Bool

abbrev pub succeeded : Result Text Text → Bool
succeeded (ok output) = true
succeeded (err e) = false

-- A world with the runs of nft so far, the latest first.
abbrev pub logged : {W : Type 0} → Lib W → Lib (W × List Run)
logged lib = record {
  run = λ c program w.
      let r = lib.run c program w.0 in (r.0, (r.1, (c, program, succeeded r.0) ∷ w.1));
  now = λ w. lib.now w.0;
  split_lines = lib.split_lines;
  show = lib.show;
  parse_addr = lib.parse_addr;
  unmarshal_listing = lib.unmarshal_listing;
  marshal = lib.marshal;
  unmarshal = lib.unmarshal;
  show_parse_error = lib.show_parse_error;
}

-- The run before was a check of the same program, and succeeded.
abbrev pub IsChecked : Text → List Run → Type 0
IsChecked program [] = ⊥
IsChecked program (r ∷ rs) = r ≡ (check, program, true)

-- Each program that was applied had just been checked.
abbrev pub IsGuarded : List Run → Type 0
IsGuarded [] = Unit
IsGuarded ((apply, program, b) ∷ rs) = IsChecked program rs × IsGuarded rs
IsGuarded ((check, program, b) ∷ rs) = IsGuarded rs
IsGuarded ((list_table, program, b) ∷ rs) = IsGuarded rs
IsGuarded ((list_tables, program, b) ∷ rs) = IsGuarded rs

-- The calls of the backend's methods.
pub data Request : Type 0 where
  inspecting snapshotting cleaning : Request
  reconciling : DesiredState → Request
  restoring : Snapshot → Request

module _ {W : Type 0} (lib : Lib W) where
  unfoldable pub serve : Request → W × List Run → W × List Run
  unfolding inspect take_snapshot cleanup reconcile restore
  serve inspecting w = (inspect (logged lib) w).1
  serve snapshotting w = (take_snapshot (logged lib) w).1
  serve cleaning w = (cleanup (logged lib) w).1
  serve (reconciling s) w = (reconcile (logged lib) s w).1
  serve (restoring s) w = (restore (logged lib) s w).1

  unfoldable pub serve_all : List Request → W × List Run → W × List Run
  unfolding serve
  serve_all [] w = w
  serve_all (r ∷ rs) w = serve_all rs (serve r w)

  -- A method that fails has not applied a program with success, and one that succeeds ends so.
  abbrev pub IsDone : Option Error × (W × List Run) → Type 0
  IsDone (some e, (w, rs)) = IsGuarded rs
  IsDone (none, (w, rs)) =
      IsGuarded rs
      × ((program : Text) × (earlier : List Run) × (rs ≡ (apply, program, true) ∷ earlier))

  IsDone-IsGuarded : (r : Option Error × (W × List Run)) → IsDone r → IsGuarded r.1.1
  IsDone-IsGuarded (some e, (w, rs)) h = h
  IsDone-IsGuarded (none, (w, rs)) h = h.0

  applied-IsDone :
      (what program : Text) (w : W) (rs : List Run)
      → IsChecked program rs
      → IsGuarded rs
      → IsDone (applied (logged lib) what ((logged lib).run apply program (w, rs)))
  applied-IsDone what program w rs c g = go (lib.run apply program w)
    where
      go :
          (r : Result Text Text × W)
          → IsDone (applied (logged lib) what (r.0, (r.1, (apply, program, succeeded r.0) ∷ rs)))
      go (err e, v) = (c, g)
      go (ok output, v) = ((c, g), (program, rs, refl))

  checked-IsDone :
      (validate what program : Text) (w : W × List Run)
      → IsGuarded w.1
      → IsDone (checked (logged lib) validate what program ((logged lib).run check program w))
  checked-IsDone validate what program w g = go (lib.run check program w.0)
    where
      go :
          (r : Result Text Text × W)
          → IsDone (
              checked
                (logged lib)
                validate
                what
                program
                (r.0, (r.1, (check, program, succeeded r.0) ∷ w.1)))
      go (err e, v) = g
      go (ok output, v) = applied-IsDone what program v _ refl g

  cleanup-IsDone : (w : W × List Run) → IsGuarded w.1 → IsDone (cleanup (logged lib) w)
  unfolding cleanup
  cleanup-IsDone w g =
      checked-IsDone (text "validate Shield nftables cleanup: ")
        (text "cleanup Shield nftables table: ") (cleanup_program (logged lib)) w g

  reconcile-IsDone :
      (s : DesiredState) (w : W × List Run) → IsGuarded w.1 → IsDone (reconcile (logged lib) s w)
  unfolding reconcile
  reconcile-IsDone s w g = go (render_ruleset lib.show (lib.now w.0) s)
    where
      go : (r : Result NormalizeError Text) → IsDone (reconcile_rendered (logged lib) r w)
      go (err e) = g
      go (ok program) =
          checked-IsDone (text "validate atomic nftables transaction: ")
            (text "apply atomic nftables transaction: ") program w g

  restore_data-IsDone :
      (d : Result Text SnapshotData) (w : W × List Run)
      → IsGuarded w.1
      → IsDone (restore_data (logged lib) d w)
  restore_data-IsDone (err e) w g = g
  restore_data-IsDone (ok d) w g = go _ (eqb d.version snapshot_version) d.present
    where
      go :
          (e : Error) (a b : Bool)
          → IsDone (
              if not a
              then (some e, w)
              else if not b
              then cleanup (logged lib) w
              else reconcile (logged lib) d.state w)
      go e false b = g
      go e true false = cleanup-IsDone w g
      go e true true = reconcile-IsDone d.state w g

  restore-IsDone :
      (s : Snapshot) (w : W × List Run) → IsGuarded w.1 → IsDone (restore (logged lib) s w)
  unfolding restore
  restore-IsDone s w g = go _ (text_beq s.backend nftables)
    where
      go :
          (e : Error) (a : Bool)
          → IsDone
              (if not a then (some e, w) else restore_data (logged lib) (lib.unmarshal s.content) w)
      go e false = g
      go e true = restore_data-IsDone (lib.unmarshal s.content) w g

  table_exists-IsGuarded :
      (w : W × List Run) → IsGuarded w.1 → IsGuarded (table_exists (logged lib) w).1.1
  unfolding table_exists
  table_exists-IsGuarded w g = g

  inspect_present-IsGuarded :
      (r : Result Error Bool × (W × List Run))
      → IsGuarded r.1.1
      → IsGuarded (inspect_present (logged lib) r).1.1
  inspect_present-IsGuarded (err e, w) g = g
  inspect_present-IsGuarded (ok false, w) g = g
  inspect_present-IsGuarded (ok true, w) g = go (lib.run list_table [] w.0)
    where
      go :
          (r : Result Text Text × W)
          → IsGuarded
              (read_listing (logged lib) (r.0, (r.1, (list_table, [], succeeded r.0) ∷ w.1))).1.1
      go (err e, v) = g
      go (ok output, v) = g

  inspect-IsGuarded : (w : W × List Run) → IsGuarded w.1 → IsGuarded (inspect (logged lib) w).1.1
  unfolding inspect
  inspect-IsGuarded w g =
      inspect_present-IsGuarded (table_exists (logged lib) w) (table_exists-IsGuarded w g)

  snapshot_inspected-IsGuarded :
      (r : Result Error DesiredState × (W × List Run))
      → IsGuarded r.1.1
      → IsGuarded (snapshot_inspected (logged lib) r).1.1
  snapshot_inspected-IsGuarded (err e, w) g = g
  snapshot_inspected-IsGuarded (ok s, w) g = g

  snapshot_present-IsGuarded :
      (r : Result Error Bool × (W × List Run))
      → IsGuarded r.1.1
      → IsGuarded (snapshot_present (logged lib) r).1.1
  snapshot_present-IsGuarded (err e, w) g = g
  snapshot_present-IsGuarded (ok false, w) g = g
  snapshot_present-IsGuarded (ok true, w) g =
      snapshot_inspected-IsGuarded (inspect (logged lib) w) (inspect-IsGuarded w g)

  serve-IsGuarded : (r : Request) (w : W × List Run) → IsGuarded w.1 → IsGuarded (serve r w).1
  unfolding serve take_snapshot
  serve-IsGuarded inspecting w g = inspect-IsGuarded w g
  serve-IsGuarded snapshotting w g =
      snapshot_present-IsGuarded (table_exists (logged lib) w) (table_exists-IsGuarded w g)
  serve-IsGuarded cleaning w g = IsDone-IsGuarded (cleanup (logged lib) w) (cleanup-IsDone w g)
  serve-IsGuarded (reconciling s) w g =
      IsDone-IsGuarded (reconcile (logged lib) s w) (reconcile-IsDone s w g)
  serve-IsGuarded (restoring s) w g =
      IsDone-IsGuarded (restore (logged lib) s w) (restore-IsDone s w g)

  serve_all_from :
      (rs : List Request) (w : W × List Run) → IsGuarded w.1 → IsGuarded (serve_all rs w).1
  unfolding serve_all
  serve_all_from [] w g = g
  serve_all_from (r ∷ rs) w g = serve_all_from rs (serve r w) (serve-IsGuarded r w g)

  -- Whatever nft answers, in any series of calls of the backend's methods each program that nft is
  -- given to apply is one that it has just checked, in the run right before, without an error; and
  -- after such a series a Restore that returns no error ends with a program that was applied with
  -- success.
  pub serve_all-IsGuarded :
      (rs : List Request) (s : Snapshot) (w : W)
      → IsGuarded (serve_all rs (w, [])).1 × IsDone (restore (logged lib) s (serve_all rs (w, [])))
  serve_all-IsGuarded rs s w = (
    serve_all_from rs (w, []) tt,
    restore-IsDone s (serve_all rs (w, [])) (serve_all_from rs (w, []) tt),
  )
