-- ===== src/Storage/Invariant.antt =====
-- The invariant of State (internal/storage/storage.go): no address is on both lists.
use digitdojo_shield.Prelude.{
  ◌≡◌, refl, inl, inr, true, false, List, [], ◌∷◌, Option, none, some, arith, Bool-cases,
  Option-cases, All, has, add_key, without, has-add_key, has-without, All-add_key, IsUnique,
  add_key-IsUnique, without-IsUnique, Text, text_beq_iff, text_eq, Result, ok, err, >>=-eq-ok,
  ok-injective, subst,
}
use digitdojo_shield.Config.Ip.{IpError, validate_ip}
use digitdojo_shield.Storage.File.{SaveError, Faults, load, save, LoadError, not_exist, Snapshot}
use digitdojo_shield.Storage.State.{
  IpSet, StateError, Env, State, add_ip, remove_ip, commit_blacklist, commit_whitelist,
  unless_refused, blacklisting, whitelisting, unbanning, add_blacklist, add_whitelist,
  remove_blacklist, load_whitelist, load_blacklist, load_lists, new_state, start, with_lists,
  initialize,
}

abbrev pub IsListed : Env → Text → Type 0
IsListed env ip = validate_ip env.parse_ip ip ≡ none

-- Each list holds valid addresses, each once, and none is on both.
pub record IsValidLists (env : Env) (b w : IpSet) : Type 0 where
  pub blacklist_valid : All (IsListed env) b
  pub whitelist_valid : All (IsListed env) w
  pub blacklist_unique : IsUnique b
  pub whitelist_unique : IsUnique w
  pub disjoint : (ip : Text) → has ip b ≡ true → has ip w ≡ false

abbrev pub IsValid : Env → State → Type 0
IsValid env s = IsValidLists env s.blacklist s.whitelist

swapped : {env : Env} {b w : IpSet} → IsValidLists env b w → IsValidLists env w b
swapped v = record {
  blacklist_valid = v.whitelist_valid;
  whitelist_valid = v.blacklist_valid;
  blacklist_unique = v.whitelist_unique;
  whitelist_unique = v.blacklist_unique;
  disjoint = λ ip h. ground (arith, v.disjoint ip);
}

pub add-IsValidLists :
    (env : Env) (ip : Text) (b w : IpSet)
    → IsListed env ip
    → has ip w ≡ false
    → IsValidLists env b w
    → IsValidLists env (add_key ip b) w
add-IsValidLists env ip b w l f v = record {
  blacklist_valid = All-add_key (IsListed env) ip b l v.blacklist_valid;
  whitelist_valid = v.whitelist_valid;
  blacklist_unique = add_key-IsUnique ip b v.blacklist_unique;
  whitelist_unique = v.whitelist_unique;
  disjoint = λ j h. ground (arith, v.disjoint j, has-add_key ip j b, text_beq_iff j ip);
}

All-without : (P : Text → Type 0) (ip : Text) (xs : IpSet) → All P xs → All P (without ip xs)
unfolding without
All-without P ip [] h = tt
All-without P ip (x ∷ xs) h = ground (arith, All-without P ip xs h.1)

without-IsValidLists :
    (env : Env) (ip : Text) (b w : IpSet) → IsValidLists env b w → IsValidLists env (without ip b) w
without-IsValidLists env ip b w v = record {
  blacklist_valid = All-without (IsListed env) ip b v.blacklist_valid;
  whitelist_valid = v.whitelist_valid;
  blacklist_unique = without-IsUnique ip b v.blacklist_unique;
  whitelist_unique = v.whitelist_unique;
  disjoint = λ j h. ground (arith, v.disjoint j, has-without ip j b);
}

commit_blacklist-IsValid :
    (env : Env) (r : Option SaveError × Option Text) (m : Result StateError IpSet) (s : State)
    → IsValid env s
    → ((items : IpSet) → m ≡ ok items → IsValidLists env items s.whitelist)
    → IsValid env (commit_blacklist r m s).1
commit_blacklist-IsValid env (some e, file) m s v k = v
commit_blacklist-IsValid env (none, file) (err e) s v k = v
commit_blacklist-IsValid env (none, file) (ok items) s v k = k items refl

commit_whitelist-IsValid :
    (env : Env) (r : Option SaveError × Option Text) (m : Result StateError IpSet) (s : State)
    → IsValid env s
    → ((items : IpSet) → m ≡ ok items → IsValidLists env s.blacklist items)
    → IsValid env (commit_whitelist r m s).1
commit_whitelist-IsValid env (some e, file) m s v k = v
commit_whitelist-IsValid env (none, file) (err e) s v k = v
commit_whitelist-IsValid env (none, file) (ok items) s v k = k items refl

pub add_ip-eq-ok :
    (env : Env) (ip : Text) (items r : IpSet)
    → add_ip env ip items ≡ ok r
    → IsListed env ip × (add_key ip items ≡ r)
add_ip-eq-ok env ip items r h = ground arith

pub remove_ip-eq-ok :
    (ip : Text) (items r : IpSet) → remove_ip ip items ≡ ok r → without ip items ≡ r
remove_ip-eq-ok ip items r h = ground arith

unless_refused-IsValid :
    (env : Env) (o : Option IpError) (r : Option StateError × State) (s : State)
    → IsValid env s
    → IsValid env r.1
    → IsValid env (unless_refused o r s).1
unless_refused-IsValid env none r s v k = k
unless_refused-IsValid env (some e) r s v k = v

blacklisting-IsValid :
    (env : Env) (f : Faults) (stamp ip : Text) (s : State)
    → IsValid env s
    → IsValid env (blacklisting env f stamp ip s).1
blacklisting-IsValid env f stamp ip s v = elim (Bool-cases (has ip s.whitelist)) [
  | inl w ↦ rw w v
  | inr w ↦ elim (Bool-cases (has ip s.blacklist)) [
    | inl b ↦ rw (w, b) v
    | inr b ↦
        rw (w, b)
          (commit_blacklist-IsValid env (save env.codec env.os f stamp _ s.file)
            (add_ip env ip s.blacklist) s v
            (λ items h.
              let (l, e) = add_ip-eq-ok env ip s.blacklist items h in
              rw (← e) (add-IsValidLists env ip s.blacklist s.whitelist l w v)))
  ]
]

whitelisting-IsValid :
    (env : Env) (f : Faults) (stamp ip : Text) (s : State)
    → IsValid env s
    → IsValid env (whitelisting env f stamp ip s).1
whitelisting-IsValid env f stamp ip s v = elim (Bool-cases (has ip s.blacklist)) [
  | inl b ↦ rw b v
  | inr b ↦ elim (Bool-cases (has ip s.whitelist)) [
    | inl w ↦ rw (b, w) v
    | inr w ↦
        rw (b, w)
          (commit_whitelist-IsValid env (save env.codec env.os f stamp _ s.file)
            (add_ip env ip s.whitelist) s v
            (λ items h.
              let (l, e) = add_ip-eq-ok env ip s.whitelist items h in
              rw (← e) (swapped (add-IsValidLists env ip s.whitelist s.blacklist l b (swapped v)))))
  ]
]

unbanning-IsValid :
    (env : Env) (f : Faults) (stamp ip : Text) (s : State)
    → IsValid env s
    → IsValid env (unbanning env f stamp ip s).1
unbanning-IsValid env f stamp ip s v = elim (Bool-cases (has ip s.blacklist)) [
  | inl b ↦ rw b (
      commit_blacklist-IsValid env (save env.codec env.os f stamp _ s.file)
        (remove_ip ip s.blacklist) s v
        (λ items h.
          rw (← remove_ip-eq-ok ip s.blacklist items h)
            (without-IsValidLists env ip s.blacklist s.whitelist v)))
  | inr b ↦ rw b v
]

module _ (env : Env) (f : Faults) (stamp ip : Text) (s : State) (v : IsValid env s) where
  pub add_blacklist-IsValid : IsValid env (add_blacklist env f stamp ip s).1
  unfolding add_blacklist
  add_blacklist-IsValid =
      unless_refused-IsValid env (validate_ip env.parse_ip ip) _ s v
        (blacklisting-IsValid env f stamp ip s v)

  pub add_whitelist-IsValid : IsValid env (add_whitelist env f stamp ip s).1
  unfolding add_whitelist
  add_whitelist-IsValid =
      unless_refused-IsValid env (validate_ip env.parse_ip ip) _ s v
        (whitelisting-IsValid env f stamp ip s v)

  pub remove_blacklist-IsValid : IsValid env (remove_blacklist env f stamp ip s).1
  unfolding remove_blacklist
  remove_blacklist-IsValid =
      unless_refused-IsValid env (validate_ip env.parse_ip ip) _ s v
        (unbanning-IsValid env f stamp ip s v)

pub has-nil : (ip : Text) → has ip [] ≡ false
unfolding has
has-nil ip = refl

nothing-IsValidLists : {env : Env} → IsValidLists env [] []
unfolding has
nothing-IsValidLists = record {
  blacklist_valid = tt;
  whitelist_valid = tt;
  blacklist_unique = tt;
  whitelist_unique = tt;
  disjoint = λ ip h. refl;
}

load_whitelist-IsValidLists :
    (env : Env) (xs w r : IpSet)
    → IsValidLists env [] w
    → load_whitelist env xs w ≡ ok r
    → IsValidLists env [] r
unfolding load_whitelist
load_whitelist-IsValidLists env [] w r v h = subst (IsValidLists env []) (ok-injective h) v
load_whitelist-IsValidLists env (ip ∷ xs) w r v h =
    elim (Option-cases (validate_ip env.parse_ip ip)) [
      | inr (e, q) ↦ ground arith
      | inl q ↦
          load_whitelist-IsValidLists env xs (add_key ip w) r
            (swapped (add-IsValidLists env ip w [] q (has-nil ip) (swapped v))) (ground arith)
    ]

load_blacklist-IsValidLists :
    (env : Env) (w xs b r : IpSet)
    → IsValidLists env b w
    → load_blacklist env w xs b ≡ ok r
    → IsValidLists env r w
unfolding load_blacklist
load_blacklist-IsValidLists env w [] b r v h = subst (λ x. IsValidLists env x w) (ok-injective h) v
load_blacklist-IsValidLists env w (ip ∷ xs) b r v h = elim (Bool-cases (has ip w)) [
  | inl m ↦ cc (rw (m) at h)
  | inr m ↦ elim (Option-cases (validate_ip env.parse_ip ip)) [
    | inr (e, q) ↦ cc (rw (q, m) at h)
    | inl q ↦
        load_blacklist-IsValidLists env w xs (add_key ip b) r (add-IsValidLists env ip b w q m v)
          (ground arith)
  ]
]

pub load_lists-IsValidLists :
    (env : Env) (snap : Snapshot) (b w : IpSet)
    → load_lists env snap ≡ ok (b, w)
    → IsValidLists env b w
load_lists-IsValidLists env snap b w h =
    let (w', hw, h1) = >>=-eq-ok (load_whitelist env snap.whitelist []) _ h in
    let (b', hb, h2) = >>=-eq-ok (load_blacklist env w' snap.blacklist []) _ h1 in
    let v = load_whitelist-IsValidLists env snap.whitelist [] w' nothing-IsValidLists hw in
    let u = load_blacklist-IsValidLists env w' snap.blacklist [] b' v hb in
    let e : ◌≡◌ {A = IpSet × IpSet} (b', w') (b, w) = ok-injective h2 in
    subst (λ p. IsValidLists env p.0 p.1) e u

pub with_lists-IsValid :
    (env : Env) (file file' : Option Text) (r : Result StateError (IpSet × IpSet)) (s : State)
    → ((b w : IpSet) → r ≡ ok (b, w) → IsValidLists env b w)
    → with_lists file r ≡ (ok s, file')
    → IsValid env s
with_lists-IsValid env file file' (err e) s k h = cc
with_lists-IsValid env file file' (ok (b, w)) s k h =
    let e : record { blacklist = b; whitelist = w; file = file } ≡ s = cc in
    subst (IsValid env) e (k b w refl)

pub initialize-IsValid :
    (env : Env) (file' : Option Text) (r : Option SaveError × Option Text) (s : State)
    → initialize env r ≡ (ok s, file')
    → IsValid env s
initialize-IsValid env file' (some e, file) s h = cc
initialize-IsValid env file' (none, file) s h =
    let e : record { blacklist = []; whitelist = []; file = file } ≡ s = cc in
    subst (IsValid env) e nothing-IsValidLists

pub start-IsValid :
    (env : Env) (f : Faults) (stamp : Text) (file file' : Option Text)
    (r : Result LoadError Snapshot) (s : State)
    → start env f stamp file r ≡ (ok s, file')
    → IsValid env s
start-IsValid env f stamp file file' (ok snap) s h =
    with_lists-IsValid env file file' (load_lists env snap) s (load_lists-IsValidLists env snap) h
start-IsValid env f stamp file file' (err not_exist) s h =
    initialize-IsValid env file' (save env.codec env.os f stamp _ file) s h
start-IsValid env f stamp file file' (err e) s h = cc

-- The calls that change the state.
pub data Request : Type 0 where
  ban allow unban : Text → Request

unfoldable pub serve : Env → Faults → Text → Request → State → State
unfolding add_blacklist add_whitelist remove_blacklist
serve env f stamp (ban ip) s = (add_blacklist env f stamp ip s).1
serve env f stamp (allow ip) s = (add_whitelist env f stamp ip s).1
serve env f stamp (unban ip) s = (remove_blacklist env f stamp ip s).1

unfoldable pub serve_all : Env → List (Faults × Text × Request) → State → State
unfolding serve
serve_all env [] s = s
serve_all env ((f, stamp, q) ∷ rest) s = serve_all env rest (serve env f stamp q s)

pub serve-IsValid :
    (env : Env) (f : Faults) (stamp : Text) (q : Request) (s : State)
    → IsValid env s
    → IsValid env (serve env f stamp q s)
unfolding serve
serve-IsValid env f stamp (ban ip) s v = add_blacklist-IsValid env f stamp ip s v
serve-IsValid env f stamp (allow ip) s v = add_whitelist-IsValid env f stamp ip s v
serve-IsValid env f stamp (unban ip) s v = remove_blacklist-IsValid env f stamp ip s v

pub serve_all-IsValid :
    (env : Env) (qs : List (Faults × Text × Request)) (s : State)
    → IsValid env s
    → IsValid env (serve_all env qs s)
unfolding serve_all
serve_all-IsValid env [] s v = v
serve_all-IsValid env ((f, stamp, q) ∷ rest) s v =
    serve_all-IsValid env rest (serve env f stamp q s) (serve-IsValid env f stamp q s v)

-- From whatever file the state is started, and whichever steps of its saves fail, after any
-- sequence of requests each list holds only addresses that pass ValidateIP, each once, and no
-- address is on both lists.
pub reachable-IsValid :
    (env : Env) (f : Faults) (stamp : Text) (file file' : Option Text) (s : State)
    → new_state env f stamp file ≡ (ok s, file')
    → (qs : List (Faults × Text × Request)) → IsValid env (serve_all env qs s)
unfolding new_state
reachable-IsValid env f stamp file file' s h qs =
    serve_all-IsValid env qs s (start-IsValid env f stamp file file' (load env.codec file) s h)
