-- ===== src/Storage/Commit.antt =====
-- Memory and file of internal/storage/storage.go agree, as long as the sync of the directory after
-- the rename does not fail.
use digitdojo_shield.Prelude.{
  ◌≡◌, refl, ◌∙◌, ◌⊎◌, inl, inr, Bool, true, false, [], ◌∷◌, ◌++◌, Option, none, some, arith,
  if◌then◌else◌, Bool-cases, has, add_key, without, has-add_key, has-append, has-unique_sorted,
  Text, text_eq, text_ord, Result, ok,
}
use digitdojo_shield.Config.Ip.{IpError, validate_ip}
use digitdojo_shield.Storage.File.{
  Snapshot, Codec, IsLawfulCodec, SaveError, Faults, linux, Trailing, normalize_snapshot,
  sync_directory, load, saved, save, read_decoded, current_version,
}
use digitdojo_shield.Storage.State.{
  IpSet, StateError, Env, State, add_ip, remove_ip, commit_blacklist, commit_whitelist,
  unless_refused, blacklisting, whitelisting, unbanning,
}
use digitdojo_shield.Storage.Invariant.{Request, ban, allow, unban, serve}

-- A file that loads, with these members on its lists.
pub record Holds (c : Codec) (file : Option Text) (b w : IpSet) : Type 0 where
  pub snap : Snapshot
  pub loads : load c file ≡ ok snap
  pub blacklist_same : (ip : Text) → has ip snap.blacklist ≡ has ip b
  pub whitelist_same : (ip : Text) → has ip snap.whitelist ≡ has ip w

-- The file loads, and holds what the memory holds.
abbrev pub IsSynced : Env → State → Type 0
IsSynced env s = Holds env.codec s.file s.blacklist s.whitelist

read_saved :
    (c : Codec) (n : Snapshot) (r : Result Text (Snapshot × Text)) (rest : Text)
    → r ≡ ok (n, rest)
    → c.trailing rest ≡ Trailing.eof
    → n.version ≡ current_version
    → read_decoded c r ≡ ok (normalize_snapshot n)
read_saved c n r rest e t v = rw (e, read_decoded, t, v)

-- What was saved is loaded, each list with the members that were given.
pub saved-Holds :
    (c : Codec)
    → IsLawfulCodec c
    → (stamp : Text) (s : Snapshot) → Holds c (some (saved c stamp s)) s.blacklist s.whitelist
unfolding load saved
saved-Holds c law stamp s =
    let n = normalize_snapshot (record s { version = current_version; updated_at = stamp }) in
    let (rest, e, t) = law.decode-encode n in
    record {
      snap = normalize_snapshot n;
      loads = read_saved c n (c.decode (c.encode n)) rest e t refl;
      blacklist_same =
          λ ip. has-unique_sorted text_ord _ ip ∙ has-unique_sorted text_ord s.blacklist ip;
      whitelist_same =
          λ ip. has-unique_sorted text_ord _ ip ∙ has-unique_sorted text_ord s.whitelist ip;
    }

abbrev Saves : Codec → Text → Snapshot → Option Text → Option SaveError × Option Text → Type 0
Saves c stamp s file r =
    ((e : SaveError) × (r ≡ (some e, file))) ⊎ (r ≡ (none, some (saved c stamp s)))

save-Saves :
    (c : Codec) (f : Faults) (stamp : Text) (s : Snapshot) (file : Option Text)
    → sync_directory f ≡ none
    → Saves c stamp s file (save c linux f stamp s file)
unfolding save
save-Saves c f stamp s file h = go f.create f.chmod f.write f.sync f.close f.rename
  where
    content : Text
    content = saved c stamp s

    go :
        (a b d e g i : Bool)
        → Saves c stamp s file (
            if a
            then (some SaveError.create_failed, file)
            else if b
            then (some SaveError.chmod_failed, file)
            else if d
            then (some SaveError.encode_failed, file)
            else if e
            then (some SaveError.sync_failed, file)
            else if g
            then (some SaveError.close_failed, file)
            else if i
            then (some SaveError.rename_failed, file)
            else (sync_directory f, some content))
    go true b d e g i = inl (SaveError.create_failed, refl)
    go false true d e g i = inl (SaveError.chmod_failed, refl)
    go false false true e g i = inl (SaveError.encode_failed, refl)
    go false false false true g i = inl (SaveError.sync_failed, refl)
    go false false false false true i = inl (SaveError.close_failed, refl)
    go false false false false false true = inl (SaveError.rename_failed, refl)
    go false false false false false false = inr (rw h)

pub Holds-cong :
    {c : Codec} {file : Option Text} {b b' w w' : IpSet}
    → ((ip : Text) → has ip b ≡ has ip b')
    → ((ip : Text) → has ip w ≡ has ip w')
    → Holds c file b w
    → Holds c file b' w'
Holds-cong p q h = record {
  snap = h.snap;
  loads = h.loads;
  blacklist_same = λ ip. h.blacklist_same ip ∙ p ip;
  whitelist_same = λ ip. h.whitelist_same ip ∙ q ip;
}

module _ (env : Env) (law : IsLawfulCodec env.codec) (stamp : Text) (s : State)
    (synced : IsSynced env s) where
  commit_blacklist-IsSynced :
      (snap : Snapshot) (r : Option SaveError × Option Text) (m : Result StateError IpSet)
      → Saves env.codec stamp snap s.file r
      → ((ip : Text) → has ip snap.whitelist ≡ has ip s.whitelist)
      → (items : IpSet) → m ≡ ok items
      → ((ip : Text) → has ip snap.blacklist ≡ has ip items)
      → IsSynced env (commit_blacklist r m s).1
  commit_blacklist-IsSynced snap r m (inl (e, q)) hw items hm hb = rw (q, commit_blacklist) synced
  commit_blacklist-IsSynced snap r m (inr q) hw items hm hb =
      rw (q, hm, commit_blacklist) (Holds-cong hb hw (saved-Holds env.codec law stamp snap))

  commit_whitelist-IsSynced :
      (snap : Snapshot) (r : Option SaveError × Option Text) (m : Result StateError IpSet)
      → Saves env.codec stamp snap s.file r
      → ((ip : Text) → has ip snap.blacklist ≡ has ip s.blacklist)
      → (items : IpSet) → m ≡ ok items
      → ((ip : Text) → has ip snap.whitelist ≡ has ip items)
      → IsSynced env (commit_whitelist r m s).1
  commit_whitelist-IsSynced snap r m (inl (e, q)) hb items hm hw = rw (q, commit_whitelist) synced
  commit_whitelist-IsSynced snap r m (inr q) hb items hm hw =
      rw (q, hm, commit_whitelist) (Holds-cong hb hw (saved-Holds env.codec law stamp snap))

-- What the durability of the state rests on: a codec that reads back what it wrote, Linux, and a
-- net.ParseIP that refuses the empty text.
pub record IsLawfulEnv (env : Env) : Type 0 where
  pub codec_lawful : IsLawfulCodec env.codec
  pub on_linux : env.os ≡ linux
  pub empty_refused : env.parse_ip [] ≡ none

add_ip-ok :
    (env : Env) (ip : Text) (items : IpSet)
    → validate_ip env.parse_ip ip ≡ none
    → add_ip env ip items ≡ ok (add_key ip items)
add_ip-ok env ip items v = rw (v, add_ip)

remove_ip-ok :
    (env : Env) (ip : Text) (items : IpSet)
    → env.parse_ip [] ≡ none
    → validate_ip env.parse_ip ip ≡ none
    → remove_ip ip items ≡ ok (without ip items)
unfolding validate_ip
remove_ip-ok env [] items e v = ground arith
remove_ip-ok env (c ∷ s) items e v = refl

-- An address appended to a list, and put into the set of its members.
pub has-snoc : (ip b : Text) (xs : IpSet) → has b (xs ++ ip ∷ []) ≡ has b (add_key ip xs)
unfolding has
has-snoc ip b xs = rw (has-append b xs (ip ∷ []), has-add_key ip b xs) (ground arith)

module _ (env : Env) (law : IsLawfulEnv env) (f : Faults) (dir : sync_directory f ≡ none)
    (stamp ip : Text) (s : State) (synced : IsSynced env s) where
  saves :
      (snap : Snapshot)
      → Saves env.codec stamp snap s.file (save env.codec env.os f stamp snap s.file)
  saves snap = rw law.on_linux (save-Saves env.codec f stamp snap s.file dir)

  blacklisting-IsSynced :
      validate_ip env.parse_ip ip ≡ none → IsSynced env (blacklisting env f stamp ip s).1
  blacklisting-IsSynced v = elim (Bool-cases (has ip s.whitelist)) [
    | inl w ↦ rw w synced
    | inr w ↦ elim (Bool-cases (has ip s.blacklist)) [
      | inl b ↦ rw (w, b) synced
      | inr b ↦
          rw (w, b)
            (commit_blacklist-IsSynced env law.codec_lawful stamp s synced _ _ _ (saves _)
              (λ j. refl) (add_key ip s.blacklist) (add_ip-ok env ip s.blacklist v)
              (λ j. has-snoc ip j s.blacklist))
    ]
  ]

  whitelisting-IsSynced :
      validate_ip env.parse_ip ip ≡ none → IsSynced env (whitelisting env f stamp ip s).1
  whitelisting-IsSynced v = elim (Bool-cases (has ip s.blacklist)) [
    | inl b ↦ rw b synced
    | inr b ↦ elim (Bool-cases (has ip s.whitelist)) [
      | inl w ↦ rw (b, w) synced
      | inr w ↦
          rw (b, w)
            (commit_whitelist-IsSynced env law.codec_lawful stamp s synced _ _ _ (saves _)
              (λ j. refl) (add_key ip s.whitelist) (add_ip-ok env ip s.whitelist v)
              (λ j. has-snoc ip j s.whitelist))
    ]
  ]

  unbanning-IsSynced :
      validate_ip env.parse_ip ip ≡ none → IsSynced env (unbanning env f stamp ip s).1
  unbanning-IsSynced v = elim (Bool-cases (has ip s.blacklist)) [
    | inl b ↦ rw b (
        commit_blacklist-IsSynced env law.codec_lawful stamp s synced _ _ _ (saves _) (λ j. refl)
          (without ip s.blacklist) (remove_ip-ok env ip s.blacklist law.empty_refused v)
          (λ j. refl))
    | inr b ↦ rw b synced
  ]

unless_refused-IsSynced :
    (env : Env) (ip : Text) (o : Option IpError) (r : Option StateError × State) (s : State)
    → validate_ip env.parse_ip ip ≡ o
    → IsSynced env s
    → (validate_ip env.parse_ip ip ≡ none → IsSynced env r.1)
    → IsSynced env (unless_refused o r s).1
unless_refused-IsSynced env ip none r s q h k = k q
unless_refused-IsSynced env ip (some e) r s q h k = h

-- On Linux, with a codec that reads back what it wrote and a net.ParseIP that refuses the empty
-- text: if the file loads and holds the lists in memory, it does so after any request, whichever
-- steps of the request's save fail before the sync of the directory, as long as that sync does not
-- fail.
pub serve-IsSynced :
    (env : Env)
    → IsLawfulEnv env
    → (f : Faults) → sync_directory f ≡ none
    → (stamp : Text) (q : Request) (s : State) → IsSynced env s
    → IsSynced env (serve env f stamp q s)
unfolding serve
serve-IsSynced env law f dir stamp (ban ip) s h =
    unless_refused-IsSynced env ip (validate_ip env.parse_ip ip) _ s refl h
      (blacklisting-IsSynced env law f dir stamp ip s h)
serve-IsSynced env law f dir stamp (allow ip) s h =
    unless_refused-IsSynced env ip (validate_ip env.parse_ip ip) _ s refl h
      (whitelisting-IsSynced env law f dir stamp ip s h)
serve-IsSynced env law f dir stamp (unban ip) s h =
    unless_refused-IsSynced env ip (validate_ip env.parse_ip ip) _ s refl h
      (unbanning-IsSynced env law f dir stamp ip s h)
