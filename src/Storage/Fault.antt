-- ===== src/Storage/Fault.antt =====
-- A failed sync of the directory in internal/storage/storage.go: the file has been replaced already,
-- and the mutation is reported as failed and is not made in memory.
use digitdojo_shield.Prelude.{
  ◌≡◌, refl, ◌∙◌, true, false, [], ◌∷◌, ◌++◌, Option, none, some, has, add_key, has-add_key, Text,
  text_eq, beq_refl, ok,
}
use digitdojo_shield.Config.Ip.{validate_ip}
use digitdojo_shield.Storage.File.{Snapshot, Faults, no_faults, linux, sync_dir_failed, saved, save}
use digitdojo_shield.Storage.State.{
  Env, State, save_error, snapshot, add_blacklist, new_state, start,
}
use digitdojo_shield.Storage.Invariant.{IsValid, add-IsValidLists}
use digitdojo_shield.Storage.Commit.{Holds, IsLawfulEnv, saved-Holds, Holds-cong, has-snoc}
use digitdojo_shield.Storage.Restart.{load_lists-ok}

-- Every step of the save succeeds but the sync of the directory.
abbrev pub directory_fault : Faults
directory_fault = record no_faults { sync_dir = true }

abbrev pub banned : Text → State → Snapshot
banned ip s = record (snapshot s) { blacklist = s.blacklist ++ ip ∷ [] }

fault-save :
    (env : Env) (stamp : Text) (snap : Snapshot) (file : Option Text)
    → env.os ≡ linux
    → save env.codec env.os directory_fault stamp snap file
      ≡ (some sync_dir_failed, some (saved env.codec stamp snap))
unfolding save
fault-save env stamp snap file e = rw (e, save)

-- On Linux, with a codec that reads back what it wrote and a net.ParseIP that refuses the empty
-- text, in a state whose lists are valid: when only the sync of the directory fails, blacklisting
-- a valid address that is on neither list reports the error and leaves the address off the
-- blacklist in memory; yet a state started from the file afterwards has it on its blacklist.
pub add_blacklist_resurfaces :
    (env : Env)
    → IsLawfulEnv env
    → (stamp ip : Text) (s : State) → IsValid env s
    → validate_ip env.parse_ip ip ≡ none
    → has ip s.whitelist ≡ false
    → has ip s.blacklist ≡ false
    → (g : Faults) (stamp' : Text)
    → let r = add_blacklist env directory_fault stamp ip s in
      (r.0 ≡ some (save_error sync_dir_failed))
      × (has ip r.1.blacklist ≡ false)
      × ((t : State) × (new_state env g stamp' r.1.file ≡ (ok t, r.1.file))
          × (has ip t.blacklist ≡ true))
unfolding add_blacklist new_state
add_blacklist_resurfaces env law stamp ip s v l w b g stamp' =
    let held : Holds env.codec (some (saved env.codec stamp (banned ip s))) (add_key ip s.blacklist)
        s.whitelist =
      Holds-cong (λ j. has-snoc ip j s.blacklist) (λ j. refl)
        (saved-Holds env.codec law.codec_lawful stamp (banned ip s)) in
    let (b', w', e, bm, wm) =
      load_lists-ok env _ (add_key ip s.blacklist) s.whitelist
        (add-IsValidLists env ip s.blacklist s.whitelist l w v) held in
    rw (l, w, b, fault-save env stamp (banned ip s) s.file law.on_linux)
      (
        refl,
        b,
        (
          record {
            blacklist = b';
            whitelist = w';
            file = some (saved env.codec stamp (banned ip s));
          },
          rw (held.loads, start, e),
          bm ip ∙ has-add_key ip ip s.blacklist ∙ rw (beq_refl {A = Text} ip),
        ),
      )
