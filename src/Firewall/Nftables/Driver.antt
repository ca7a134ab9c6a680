-- ===== src/Firewall/Nftables/Driver.antt =====
-- Backend of internal/firewall/nftables/backend.go: the methods that run nft and the parsing of what
-- it prints. A run of nft and the clock act on a world `W`; the JSON codecs and net/netip are
-- parameters. A context is never nil, as in internal/firewall/controller.go.
use digitdojo_shield.Prelude.{
  ℕ, Bool, true, false, not, ◌||◌, List, [], ◌∷◌, ◌++◌, Option, none, some, eqb, if◌then◌else◌,
  Text, text, text_beq, Result, ok, err,
}
use digitdojo_shield.Firewall.Address.{Addr}
use digitdojo_shield.Firewall.Backend.{DesiredState, empty_state, normalize, NormalizeError}
use digitdojo_shield.Firewall.Backend.Names.{trim_space}
use digitdojo_shield.Firewall.Contract.{
  Call, returns, Snapshot, Error, opaque_error, bad_state, Backend, nftables,
}
use digitdojo_shield.Firewall.Nftables.Render.{table_name, Show, render_ruleset}
use digitdojo_shield.Firewall.Nftables.Parse.{NftObject, ParseError, parse_ruleset}

-- The arguments of the four commands.
pub data Command : Type 0 where
  list_tables list_table check apply : Command

-- snapshotData
pub record SnapshotData : Type 0 where
  pub version : ℕ
  pub present : Bool
  pub state : DesiredState

abbrev pub snapshot_version : ℕ
snapshot_version = 1

pub record Lib (W : Type 0) : Type 0 where
  -- Runner.Run, on the arguments and the standard input, and the clock.
  pub run : Command → Text → W → Result Text Text × W
  pub now : W → ℕ
  -- strings.Split at the line breaks.
  pub split_lines : Text → List Text
  pub show : Show
  pub parse_addr : Text → Result Text Addr
  pub unmarshal_listing : Text → Result Text (List NftObject)
  pub marshal : SnapshotData → Result Text Text
  pub unmarshal : Text → Result Text SnapshotData
  pub show_parse_error : ParseError → Text

abbrev pub table_line : Text
table_line = text "table inet " ++ table_name

unfoldable pub has_table : List Text → Bool
unfolding trim_space text_beq
has_table [] = false
has_table (l ∷ ls) = text_beq (trim_space l) table_line || has_table ls

abbrev pub failed : Text → Text → Error
failed what e = opaque_error (what ++ e)

module _ {W : Type 0} (lib : Lib W) where
  abbrev pub read_tables : Result Text Text → Result Error Bool
  read_tables (err e) = err (failed (text "list nftables tables: ") e)
  read_tables (ok output) = ok (has_table (lib.split_lines output))

  -- tableExists
  unfoldable pub table_exists : W → Result Error Bool × W
  unfolding has_table
  table_exists w = let r = lib.run list_tables [] w in (read_tables r.0, r.1)

  abbrev pub renormalized : Result NormalizeError DesiredState → Result Error DesiredState
  renormalized (err e) = err (bad_state e)
  renormalized (ok s) = ok s

  abbrev pub read_state : ℕ → Result ParseError DesiredState → Result Error DesiredState
  read_state now (err e) =
      err (failed (text "parse Shield nftables table: ") (lib.show_parse_error e))
  read_state now (ok s) = renormalized (normalize now s)

  abbrev pub read_listing : Result Text Text × W → Result Error DesiredState × W
  read_listing (err e, w) = (err (failed (text "list Shield nftables table: ") e), w)
  read_listing (ok output, w) = (
    read_state (lib.now w)
        (parse_ruleset lib.parse_addr (lib.now w) (lib.unmarshal_listing output)),
    w,
  )

  abbrev pub inspect_present : Result Error Bool × W → Result Error DesiredState × W
  inspect_present (err e, w) = (err e, w)
  inspect_present (ok false, w) = (ok empty_state, w)
  inspect_present (ok true, w) = read_listing (lib.run list_table [] w)

  -- inspect, which Inspect calls under the lock.
  unfoldable pub inspect : W → Result Error DesiredState × W
  unfolding table_exists parse_ruleset normalize
  inspect w = inspect_present (table_exists w)

  abbrev pub encoded : Result Text Text → Result Error Snapshot
  encoded (err e) = err (failed (text "encode nftables snapshot: ") e)
  encoded (ok content) = ok (record { backend = nftables; content = content })

  abbrev pub snapshot_of : Bool → DesiredState → Result Error Snapshot
  snapshot_of present state =
      encoded
        (lib.marshal (record { version = snapshot_version; present = present; state = state }))

  abbrev pub snapshot_inspected : Result Error DesiredState × W → Result Error Snapshot × W
  snapshot_inspected (err e, w) = (err e, w)
  snapshot_inspected (ok s, w) = (snapshot_of true s, w)

  abbrev pub snapshot_present : Result Error Bool × W → Result Error Snapshot × W
  snapshot_present (err e, w) = (err e, w)
  snapshot_present (ok false, w) = (snapshot_of false empty_state, w)
  snapshot_present (ok true, w) = snapshot_inspected (inspect w)

  -- Snapshot
  unfoldable pub take_snapshot : W → Result Error Snapshot × W
  unfolding inspect table_exists
  take_snapshot w = snapshot_present (table_exists w)

  abbrev pub applied : Text → Result Text Text × W → Option Error × W
  applied what (err e, w) = (some (failed what e), w)
  applied what (ok output, w) = (none, w)

  abbrev pub checked : Text → Text → Text → Result Text Text × W → Option Error × W
  checked validate what program (err e, w) = (some (failed validate e), w)
  checked validate what program (ok output, w) = applied what (lib.run apply program w)

  abbrev pub reconcile_rendered : Result NormalizeError Text → W → Option Error × W
  reconcile_rendered (err e) w = (some (bad_state e), w)
  reconcile_rendered (ok program) w =
      checked (text "validate atomic nftables transaction: ")
        (text "apply atomic nftables transaction: ") program (lib.run check program w)

  -- reconcile, which Reconcile calls under the lock.
  unfoldable pub reconcile : DesiredState → W → Option Error × W
  unfolding render_ruleset
  reconcile state w = reconcile_rendered (render_ruleset lib.show (lib.now w) state) w

  abbrev pub cleanup_program : Text
  cleanup_program = text "destroy table inet " ++ table_name ++ text "\n"

  -- cleanup, which Cleanup calls under the lock.
  unfoldable pub cleanup : W → Option Error × W
  cleanup w =
      checked (text "validate Shield nftables cleanup: ") (text "cleanup Shield nftables table: ")
        cleanup_program (lib.run check cleanup_program w)

  abbrev pub restore_data : Result Text SnapshotData → W → Option Error × W
  restore_data (err e) w = (some (failed (text "decode nftables snapshot: ") e), w)
  restore_data (ok d) w =
      if not (eqb d.version snapshot_version)
      then (some (opaque_error (text "unsupported nftables snapshot version")), w)
      else if not d.present
      then cleanup w
      else reconcile d.state w

  -- Restore
  unfoldable pub restore : Snapshot → W → Option Error × W
  unfolding cleanup reconcile text_beq
  restore s w =
      if not (text_beq s.backend nftables)
      then (some (failed (text "nftables cannot restore snapshot of ") s.backend), w)
      else restore_data (lib.unmarshal s.content) w

  abbrev pub call : {A : Type 0} → A × W → Call A × W
  call (a, w) = (returns a, w)

  -- The backend as the controller sees it.
  abbrev pub backend : Backend W
  backend = record {
    name = returns nftables;
    snapshot = λ ctx w. call (take_snapshot w);
    reconcile = λ ctx s w. call (reconcile s w);
    inspect = λ ctx w. call (inspect w);
    restore = λ ctx s w. call (restore s w);
    cleanup = λ ctx w. call (cleanup w);
  }
