-- ===== src/Storage/Restart.antt =====
-- A restart of internal/storage/storage.go brings back the lists, and what a failed sync of the
-- directory does.
use digitdojo_shield.Prelude.{
  ◌≡◌, refl, sym, ap, ◌∙◌, inl, inr, Bool, true, false, ◌||◌, List, [], ◌∷◌, Option, none, some,
  arith, Option-cases, All, has, add_key, has-add_key, All-has, Text, text_eq, beq_refl, Result, ok,
  err, >>=-eq-ok, ok-injective, subst,
}
use digitdojo_shield.Config.Ip.{validate_ip}
use digitdojo_shield.Storage.File.{
  Snapshot, SaveError, Faults, linux, sync_directory, load, saved, save, save_atomic, LoadError,
  not_exist,
}
use digitdojo_shield.Storage.State.{
  IpSet, StateError, Env, State, load_whitelist, load_blacklist, load_lists, with_lists, initialize,
  start, new_state,
}
use digitdojo_shield.Storage.Invariant.{
  IsListed, IsValidLists, IsValid, Request, serve, serve_all, reachable-IsValid, has-nil,
}
use digitdojo_shield.Storage.Commit.{Holds, IsSynced, IsLawfulEnv, saved-Holds, serve-IsSynced}

All-of_has : (P : Text → Type 0) (xs : IpSet) → ((ip : Text) → has ip xs ≡ true → P ip) → All P xs
unfolding has
All-of_has P [] h = tt
All-of_has P (x ∷ xs) h =
    (h x (rw (beq_refl {A = Text} x)), All-of_has P xs (λ ip m. h ip (ground arith)))

load_whitelist-ok :
    (env : Env) (xs items : IpSet)
    → All (IsListed env) xs
    → (r : IpSet) × (load_whitelist env xs items ≡ ok r)
      × ((ip : Text) → has ip r ≡ (has ip xs || has ip items))
unfolding load_whitelist has
load_whitelist-ok env [] items h = (items, refl, λ ip. refl)
load_whitelist-ok env (x ∷ xs) items h =
    let (r, e, m) = load_whitelist-ok env xs (add_key x items) h.1 in
    (r, ground arith, λ ip. ground (arith, m ip, has-add_key x ip items))

load_blacklist-ok :
    (env : Env) (w xs items : IpSet)
    → All (IsListed env) xs
    → All (λ ip. has ip w ≡ false) xs
    → (r : IpSet) × (load_blacklist env w xs items ≡ ok r)
      × ((ip : Text) → has ip r ≡ (has ip xs || has ip items))
unfolding load_blacklist has
load_blacklist-ok env w [] items h d = (items, refl, λ ip. refl)
load_blacklist-ok env w (x ∷ xs) items h d =
    let (r, e, m) = load_blacklist-ok env w xs (add_key x items) h.1 d.1 in
    (r, ground arith, λ ip. ground (arith, m ip, has-add_key x ip items))

or_false : (b : Bool) → (b || false) ≡ b
or_false true = refl
or_false false = refl

-- What NewState loads from a file that holds valid, disjoint lists.
pub load_lists-ok :
    (env : Env) (file : Option Text) (b w : IpSet)
    → IsValidLists env b w
    → (h : Holds env.codec file b w)
    → (b' : IpSet) × (w' : IpSet) × (load_lists env h.snap ≡ ok (b', w'))
      × ((ip : Text) → has ip b' ≡ has ip b)
      × ((ip : Text) → has ip w' ≡ has ip w)
load_lists-ok env file b w v h =
    let (w', ew, mw) = load_whitelist-ok env h.snap.whitelist [] (
      All-of_has _ _
        (λ ip m. All-has (IsListed env) w ip v.whitelist_valid (sym (h.whitelist_same ip) ∙ m))) in
    let wm : (ip : Text) → has ip w' ≡ has ip w = λ ip.
      mw ip
      ∙ ap (λ x. has ip h.snap.whitelist || x) (has-nil ip)
      ∙ or_false _
      ∙ h.whitelist_same ip in
    let (b', eb, mb) =
      load_blacklist-ok env w' h.snap.blacklist []
        (All-of_has _ _
          (λ ip m. All-has (IsListed env) b ip v.blacklist_valid (sym (h.blacklist_same ip) ∙ m)))
        (All-of_has _ _ (λ ip m. wm ip ∙ v.disjoint ip (sym (h.blacklist_same ip) ∙ m))) in
    let bm : (ip : Text) → has ip b' ≡ has ip b = λ ip.
      mb ip
      ∙ ap (λ x. has ip h.snap.blacklist || x) (has-nil ip)
      ∙ or_false _
      ∙ h.blacklist_same ip in
    (b', w', rw (load_lists, ew, eb), bm, wm)

-- The same addresses on both lists.
pub record SameLists (s t : State) : Type 0 where
  pub blacklist_same : (ip : Text) → has ip s.blacklist ≡ has ip t.blacklist
  pub whitelist_same : (ip : Text) → has ip s.whitelist ≡ has ip t.whitelist

restart-Same :
    (env : Env) (f : Faults) (stamp : Text) (s : State)
    → IsValid env s
    → IsSynced env s
    → (t : State) × (new_state env f stamp s.file ≡ (ok t, s.file)) × SameLists t s
unfolding new_state
restart-Same env f stamp s v h =
    let (b, w, e, bm, wm) = load_lists-ok env s.file s.blacklist s.whitelist v h in
    (
      record { blacklist = b; whitelist = w; file = s.file },
      rw (h.loads, start, e),
      record { blacklist_same = bm; whitelist_same = wm },
    )

load_whitelist-members :
    (env : Env) (xs items r : IpSet)
    → load_whitelist env xs items ≡ ok r
    → (ip : Text) → has ip r ≡ (has ip xs || has ip items)
unfolding load_whitelist has
load_whitelist-members env [] items r h ip = ground arith
load_whitelist-members env (x ∷ xs) items r h ip =
    elim (Option-cases (validate_ip env.parse_ip x)) [
      | inr (e, q) ↦ ground arith
      | inl q ↦ ground (
        arith,
        load_whitelist-members env xs (add_key x items) r (ground arith) ip,
        has-add_key x ip items,
      )
    ]

load_blacklist-members :
    (env : Env) (w xs items r : IpSet)
    → load_blacklist env w xs items ≡ ok r
    → (ip : Text) → has ip r ≡ (has ip xs || has ip items)
unfolding load_blacklist has
load_blacklist-members env w [] items r h ip = ground arith
load_blacklist-members env w (x ∷ xs) items r h ip =
    elim (Option-cases (validate_ip env.parse_ip x)) [
      | inr (e, q) ↦ ground arith
      | inl q ↦ ground (
        arith,
        load_blacklist-members env w xs (add_key x items) r (ground arith) ip,
        has-add_key x ip items,
      )
    ]

load_lists-Holds :
    (env : Env) (file : Option Text) (snap : Snapshot) (b w : IpSet)
    → load env.codec file ≡ ok snap
    → load_lists env snap ≡ ok (b, w)
    → Holds env.codec file b w
load_lists-Holds env file snap b w l h =
    let (w', hw, h1) = >>=-eq-ok (load_whitelist env snap.whitelist []) _ h in
    let (b', hb, h2) = >>=-eq-ok (load_blacklist env w' snap.blacklist []) _ h1 in
    let e : ◌≡◌ {A = IpSet × IpSet} (b', w') (b, w) = ok-injective h2 in
    let held : Holds env.codec file b' w' = record {
      snap = snap;
      loads = l;
      blacklist_same = λ ip. sym (
          load_blacklist-members env w' snap.blacklist [] b' hb ip
          ∙ ap (λ x. has ip snap.blacklist || x) (has-nil ip)
          ∙ or_false _);
      whitelist_same = λ ip. sym (
          load_whitelist-members env snap.whitelist [] w' hw ip
          ∙ ap (λ x. has ip snap.whitelist || x) (has-nil ip)
          ∙ or_false _);
    } in
    subst (λ p. Holds env.codec file p.0 p.1) e held

with_lists-IsSynced :
    (env : Env) (file file' : Option Text) (r : Result StateError (IpSet × IpSet)) (s : State)
    → ((b w : IpSet) → r ≡ ok (b, w) → Holds env.codec file b w)
    → with_lists file r ≡ (ok s, file')
    → IsSynced env s
with_lists-IsSynced env file file' (err e) s k h = cc
with_lists-IsSynced env file file' (ok (b, w)) s k h =
    let e : record { blacklist = b; whitelist = w; file = file } ≡ s = cc in
    subst (IsSynced env) e (k b w refl)

abbrev nothing : Snapshot
nothing = record { version = 0; blacklist = []; whitelist = []; updated_at = [] }

initialize-IsSynced :
    (env : Env)
    → IsLawfulEnv env
    → (stamp : Text) (file' : Option Text) (r : Option SaveError × Option Text) (s : State)
    → (r.0 ≡ none → r.1 ≡ some (saved env.codec stamp nothing))
    → initialize env r ≡ (ok s, file')
    → IsSynced env s
initialize-IsSynced env law stamp file' (some e, file) s k h = cc
initialize-IsSynced env law stamp file' (none, file) s k h =
    let e : record { blacklist = []; whitelist = []; file = file } ≡ s = cc in
    subst (IsSynced env) e (rw (k refl) (saved-Holds env.codec law.codec_lawful stamp nothing))

save-none :
    (env : Env)
    → IsLawfulEnv env
    → (f : Faults) (stamp : Text) (snap : Snapshot) (file : Option Text)
    → (save env.codec env.os f stamp snap file).0 ≡ none
    → (save env.codec env.os f stamp snap file).1 ≡ some (saved env.codec stamp snap)
save-none env law f stamp snap file h = rw law.on_linux (linux_save (rw law.on_linux at h))
  where
    linux_save :
        (save env.codec linux f stamp snap file).0 ≡ none
        → (save env.codec linux f stamp snap file).1 ≡ some (saved env.codec stamp snap)
    linux_save k = ground (arith, save_atomic env.codec f stamp snap file)

start-IsSynced :
    (env : Env)
    → IsLawfulEnv env
    → (f : Faults) (stamp : Text) (file file' : Option Text) → (r : Result LoadError Snapshot)
    → load env.codec file ≡ r
    → (s : State) → start env f stamp file r ≡ (ok s, file')
    → IsSynced env s
start-IsSynced env law f stamp file file' (ok snap) l s h =
    with_lists-IsSynced env file file' (load_lists env snap) s
      (λ b w e. load_lists-Holds env file snap b w l e) h
start-IsSynced env law f stamp file file' (err not_exist) l s h =
    initialize-IsSynced env law stamp file' (save env.codec env.os f stamp nothing file) s
      (save-none env law f stamp nothing file) h
start-IsSynced env law f stamp file file' (err e) l s h = cc

abbrev pub DirectorySyncs : List (Faults × Text × Request) → Type 0
DirectorySyncs = All (λ q. sync_directory q.0 ≡ none)

serve_all-IsSynced :
    (env : Env)
    → IsLawfulEnv env
    → (qs : List (Faults × Text × Request)) → DirectorySyncs qs
    → (s : State) → IsSynced env s
    → IsSynced env (serve_all env qs s)
unfolding serve_all
serve_all-IsSynced env law [] d s h = h
serve_all-IsSynced env law ((f, stamp, q) ∷ rest) d s h =
    serve_all-IsSynced env law rest d.1 (serve env f stamp q s)
      (serve-IsSynced env law f d.0 stamp q s h)

-- A restart loses nothing and invents nothing. On Linux, with a codec that reads back what it wrote
-- and a net.ParseIP that refuses the empty text: from whatever file the state was started, after
-- any sequence of requests whose saves may fail in any step but the sync of the directory, a new
-- state started from the file succeeds, leaves the file as it is, and has the same addresses on
-- each list.
pub restart_same :
    (env : Env)
    → IsLawfulEnv env
    → (f : Faults) (stamp : Text) (file file' : Option Text) (s : State)
    → new_state env f stamp file ≡ (ok s, file')
    → (qs : List (Faults × Text × Request)) → DirectorySyncs qs
    → (g : Faults) (stamp' : Text)
    → (t : State) × (new_state env g stamp' (serve_all env qs s).file
        ≡ (ok t, (serve_all env qs s).file))
      × SameLists t (serve_all env qs s)
unfolding new_state
restart_same env law f stamp file file' s h qs d g stamp' =
    restart-Same env g stamp' (serve_all env qs s) (reachable-IsValid env f stamp file file' s h qs)
      (serve_all-IsSynced env law qs d s
        (start-IsSynced env law f stamp file file' (load env.codec file) refl s h))
