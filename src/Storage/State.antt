-- ===== src/Storage/State.antt =====
-- State of internal/storage/storage.go over the set managers: every mutation is saved before it
-- is made in memory. The locks are not modelled: a call runs alone.
use digitdojo_shield.Prelude.{
  ℕ, Bool, true, false, List, [], ◌∷◌, ◌++◌, Option, none, some, if◌then◌else◌, has, add_key,
  without, Text, text_eq, Result, ok, err, length, ◌>>=◌,
}
use digitdojo_shield.Firewall.Address.{Addr}
use digitdojo_shield.Config.Ip.{IpError, validate_ip}
use digitdojo_shield.Storage.File.{
  Snapshot, Codec, LoadError, not_exist, SaveError, Faults, Platform, load, save,
}

-- blacklist.Manager and whitelist.Manager: the keys of `items`.
abbrev pub IpSet : Type 0
IpSet = List Text

pub data StateError : Type 0 where
  store_required empty_ip : StateError
  refused_ip : IpError → StateError
  is_whitelisted is_blacklisted : Text → StateError
  save_error initialize_error : SaveError → StateError
  load_error : LoadError → StateError
  bad_whitelist bad_blacklist : Text → IpError → StateError
  on_both_lists : Text → StateError

-- What the state depends on and the program does not define.
pub record Env : Type 0 where
  pub parse_ip : Text → Option Addr
  pub codec : Codec
  pub os : Platform

-- Manager.Add
abbrev pub add_ip : Env → Text → IpSet → Result StateError IpSet
add_ip env ip items = elim (validate_ip env.parse_ip ip) [
  | some e ↦ err (refused_ip e)
  | none ↦ ok (add_key ip items)
]

abbrev pub is_empty : Text → Bool
is_empty [] = true
is_empty (c ∷ s) = false

-- Manager.Remove
abbrev pub remove_ip : Text → IpSet → Result StateError IpSet
remove_ip ip items = if is_empty ip then err empty_ip else ok (without ip items)

-- Manager.ListLen
abbrev pub list_len : IpSet → ℕ
list_len = length

-- The two sets and the content of the file.
pub record State : Type 0 where
  pub blacklist : IpSet
  pub whitelist : IpSet
  pub file : Option Text

-- snapshot
abbrev pub snapshot : State → Snapshot
snapshot s = record {
  version = 0;
  blacklist = s.blacklist;
  whitelist = s.whitelist;
  updated_at = [];
}

-- The end of a mutation: save, and on success change the memory.
abbrev pub commit_blacklist :
    Option SaveError × Option Text → Result StateError IpSet → State → Option StateError × State
commit_blacklist (some e, file) items s = (some (save_error e), record s { file = file })
commit_blacklist (none, file) (err e) s = (some e, record s { file = file })
commit_blacklist (none, file) (ok items) s = (none, record s { blacklist = items; file = file })

abbrev pub commit_whitelist :
    Option SaveError × Option Text → Result StateError IpSet → State → Option StateError × State
commit_whitelist (some e, file) items s = (some (save_error e), record s { file = file })
commit_whitelist (none, file) (err e) s = (some e, record s { file = file })
commit_whitelist (none, file) (ok items) s = (none, record s { whitelist = items; file = file })

-- The check of the address, before the lock is taken.
abbrev pub unless_refused :
    Option IpError → Option StateError × State → State → Option StateError × State
unless_refused (some e) r s = (some (refused_ip e), s)
unless_refused none r s = r

abbrev pub blacklisting : Env → Faults → Text → Text → State → Option StateError × State
blacklisting env f stamp ip s =
    if has ip s.whitelist
    then (some (is_whitelisted ip), s)
    else if has ip s.blacklist
    then (none, s)
    else commit_blacklist
        (save env.codec env.os f stamp (record (snapshot s) { blacklist = s.blacklist ++ ip ∷ [] })
          s.file)
        (add_ip env ip s.blacklist) s

unfoldable pub add_blacklist : Env → Faults → Text → Text → State → Option StateError × State
unfolding has save add_key
add_blacklist env f stamp ip s =
    unless_refused (validate_ip env.parse_ip ip) (blacklisting env f stamp ip s) s

abbrev pub whitelisting : Env → Faults → Text → Text → State → Option StateError × State
whitelisting env f stamp ip s =
    if has ip s.blacklist
    then (some (is_blacklisted ip), s)
    else if has ip s.whitelist
    then (none, s)
    else commit_whitelist
        (save env.codec env.os f stamp (record (snapshot s) { whitelist = s.whitelist ++ ip ∷ [] })
          s.file)
        (add_ip env ip s.whitelist) s

unfoldable pub add_whitelist : Env → Faults → Text → Text → State → Option StateError × State
unfolding has save add_key
add_whitelist env f stamp ip s =
    unless_refused (validate_ip env.parse_ip ip) (whitelisting env f stamp ip s) s

abbrev pub unbanning : Env → Faults → Text → Text → State → Option StateError × State
unbanning env f stamp ip s =
    if has ip s.blacklist
    then commit_blacklist
        (save env.codec env.os f stamp (record (snapshot s) { blacklist = without ip s.blacklist })
          s.file)
        (remove_ip ip s.blacklist) s
    else (none, s)

unfoldable pub remove_blacklist : Env → Faults → Text → Text → State → Option StateError × State
unfolding has save without
remove_blacklist env f stamp ip s =
    unless_refused (validate_ip env.parse_ip ip) (unbanning env f stamp ip s) s

-- The loop of NewState over the persisted whitelist.
unfoldable pub load_whitelist : Env → List Text → IpSet → Result StateError IpSet
load_whitelist env [] items = ok items
load_whitelist env (ip ∷ rest) items = elim (validate_ip env.parse_ip ip) [
  | some e ↦ err (bad_whitelist ip e)
  | none ↦ add_ip env ip items >>= λ items'. load_whitelist env rest items'
]

-- The loop of NewState over the persisted blacklist, the whitelist being loaded.
unfoldable pub load_blacklist : Env → IpSet → List Text → IpSet → Result StateError IpSet
load_blacklist env whitelist [] items = ok items
load_blacklist env whitelist (ip ∷ rest) items =
    let checked : Result StateError IpSet = elim (validate_ip env.parse_ip ip) [
      | some e ↦ err (bad_blacklist ip e)
      | none ↦ add_ip env ip items >>= λ items'. load_blacklist env whitelist rest items'
    ] in
    if has ip whitelist then err (on_both_lists ip) else checked

abbrev pub load_lists : Env → Snapshot → Result StateError (IpSet × IpSet)
load_lists env snap = load_whitelist env snap.whitelist [] >>= λ w.
    load_blacklist env w snap.blacklist [] >>= λ b. ok (b, w)

abbrev pub initialize : Env → Option SaveError × Option Text → Result StateError State × Option Text
initialize env (some e, file) = (err (initialize_error e), file)
initialize env (none, file) = (ok (record { blacklist = []; whitelist = []; file = file }), file)

abbrev pub with_lists :
    Option Text → Result StateError (IpSet × IpSet) → Result StateError State × Option Text
with_lists file (err e) = (err e, file)
with_lists file (ok (b, w)) = (ok (record { blacklist = b; whitelist = w; file = file }), file)

abbrev pub start :
    Env
    → Faults
    → Text
    → Option Text
    → Result LoadError Snapshot
    → Result StateError State × Option Text
start env f stamp file (ok snap) = with_lists file (load_lists env snap)
start env f stamp file (err not_exist) = initialize env (
    save env.codec env.os f stamp
      (record { version = 0; blacklist = []; whitelist = []; updated_at = [] }) file)
start env f stamp file (err e) = (err (load_error e), file)

-- NewState, with a store: the state or an error, and the content of the file.
unfoldable pub new_state : Env → Faults → Text → Option Text → Result StateError State × Option Text
unfolding load load_whitelist load_blacklist save
new_state env f stamp file = start env f stamp file (load env.codec file)
