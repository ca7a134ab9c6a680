-- ===== src/Storage/Tests.antt =====
-- The storage at concrete inputs, with a codec that meets its law.
use digitdojo_shield.Prelude.{
  ℕ, zero, suc, ◌≡◌, ◌≢◌, ◌⊎◌, refl, true, false, List, [], ◌∷◌, ◌++◌, Option, none, some, arith,
  take, drop, length, has, Text, text, text_eq, text_beq, Result, ok, err,
}
use digitdojo_shield.Firewall.Address.{
  Addr, v4, is_unspecified, is_loopback, is_multicast, is_link_local_unicast,
  is_link_local_multicast, unmap,
}
use digitdojo_shield.Config.Ip.{validate_ip}
use digitdojo_shield.Storage.File.{
  Snapshot, Codec, IsLawfulCodec, Trailing, eof, Faults, no_faults, linux, save, saved, save_atomic,
}
use digitdojo_shield.Storage.State.{Env, State, snapshot, add_blacklist, new_state}
use digitdojo_shield.Storage.Invariant.{
  IsValid, ban, allow, Request, serve, serve_all, reachable-IsValid,
}
use digitdojo_shield.Storage.Commit.{IsLawfulEnv, IsSynced, saved-Holds, serve-IsSynced}
use digitdojo_shield.Storage.Restart.{SameLists, restart_same}
use digitdojo_shield.Storage.Fault.{directory_fault, add_blacklist_resurfaces}

-- Texts with their lengths in front.
unfoldable pub put_text : Text → Text → Text
put_text t rest = length t ∷ (t ++ rest)

unfoldable pub put_texts : List Text → Text → Text
unfolding put_text
put_texts [] rest = rest
put_texts (t ∷ ts) rest = put_text t (put_texts ts rest)

unfoldable pub get_text : Text → Option (Text × Text)
get_text [] = none
get_text (n ∷ s) = some (take n s, drop n s)

unfoldable pub get_texts : ℕ → Text → Option (List Text × Text)
unfolding get_text
get_texts zero s = some ([], s)
get_texts (suc n) s = elim (get_text s) [
  | none ↦ none
  | some (t, r) ↦ elim (get_texts n r) [ none ↦ none | some (ts, q) ↦ some (t ∷ ts, q) ]
]

take-append : (t rest : Text) → take (length t) (t ++ rest) ≡ t
take-append [] rest = refl
take-append (c ∷ t) rest = cc (take-append t rest)

drop-append : (t rest : Text) → drop (length t) (t ++ rest) ≡ rest
drop-append [] rest = refl
drop-append (c ∷ t) rest = drop-append t rest

pub get_texts-put_texts :
    (ts : List Text) (rest : Text) → get_texts (length ts) (put_texts ts rest) ≡ some (ts, rest)
unfolding get_texts put_texts
get_texts-put_texts [] rest = refl
get_texts-put_texts (t ∷ ts) rest = ground (
  arith,
  take-append t (put_texts ts rest),
  drop-append t (put_texts ts rest),
  get_texts-put_texts ts rest,
)

encode : Snapshot → Text
unfolding put_texts
encode s =
    s.version
    ∷ length s.blacklist
    ∷ put_texts s.blacklist (length s.whitelist ∷ put_texts s.whitelist (put_text s.updated_at []))

decode_rest : ℕ → List Text → Option (List Text × Text) → Result Text (Snapshot × Text)
unfolding get_text
decode_rest v b none = err []
decode_rest v b (some (w, q)) = elim (get_text q) [
  | none ↦ err []
  | some (t, r) ↦ ok (record { version = v; blacklist = b; whitelist = w; updated_at = t }, r)
]

decode_lists : ℕ → Option (List Text × Text) → Result Text (Snapshot × Text)
unfolding decode_rest get_texts
decode_lists v none = err []
decode_lists v (some (b, [])) = err []
decode_lists v (some (b, n ∷ q)) = decode_rest v b (get_texts n q)

decode : Text → Result Text (Snapshot × Text)
unfolding decode_lists
decode [] = err []
decode (v ∷ []) = err []
decode (v ∷ n ∷ s) = decode_lists v (get_texts n s)

trailing : Text → Trailing
trailing [] = eof
trailing s = Trailing.another

abbrev sample_codec : Codec
sample_codec = record { encode = encode; decode = decode; trailing = trailing }

decode-encode : (s : Snapshot) → decode (encode s) ≡ ok (s, [])
unfolding decode encode
decode-encode s =
    rw
      (
        get_texts-put_texts s.blacklist _,
        decode_lists,
        get_texts-put_texts s.whitelist _,
        decode_rest,
      )
      (rw (take-append s.updated_at [], drop-append s.updated_at []))

sample_codec-lawful : IsLawfulCodec sample_codec
unfolding trailing
sample_codec-lawful = record { decode-encode = λ s. ([], decode-encode s, refl) }

-- Every text but the empty one is the address 8.8.8.8.
parse_sample : Text → Option Addr
parse_sample [] = none
parse_sample (c ∷ s) = some (v4 0x08080808)

abbrev sample_env : Env
sample_env = record { parse_ip = parse_sample; codec = sample_codec; os = linux }

sample_env-lawful : IsLawfulEnv sample_env
unfolding parse_sample
sample_env-lawful = record {
  codec_lawful = sample_codec-lawful;
  on_linux = refl;
  empty_refused = refl;
}

abbrev started : State
started = record {
  blacklist = [];
  whitelist = [];
  file = some (
      saved sample_codec []
        (record { version = 0; blacklist = []; whitelist = []; updated_at = [] }));
}

started_lem : new_state sample_env no_faults [] none ≡ (ok started, started.file)
unfolding new_state
started_lem = refl

abbrev requests : List (Faults × Text × Request)
requests =
    (no_faults, text "t1", ban (text "b"))
    ∷ (no_faults, text "t2", allow (text "a"))
    ∷ (record no_faults { rename = true }, text "t3", ban (text "c"))
    ∷ []

-- The sequence puts one address on each list, and the failed save adds none.
requests_run :
    ((serve_all sample_env requests started).blacklist ≡ text "b" ∷ [])
    × ((serve_all sample_env requests started).whitelist ≡ text "a" ∷ [])
unfolding serve_all validate_ip parse_sample text_beq is_unspecified is_loopback is_multicast
    is_link_local_unicast is_link_local_multicast unmap
requests_run = (refl, refl)

reachable-IsValid_example : IsValid sample_env (serve_all sample_env requests started)
reachable-IsValid_example =
    reachable-IsValid sample_env no_faults [] none started.file started started_lem requests

restart_same_example :
    (t : State) × (new_state sample_env no_faults
        (text "t4")
        (serve_all sample_env requests started).file
      ≡ (ok t, (serve_all sample_env requests started).file))
    × SameLists t (serve_all sample_env requests started)
restart_same_example =
    restart_same sample_env sample_env-lawful no_faults [] none started.file started started_lem
      requests (refl, (refl, (refl, tt))) no_faults (text "t4")

started-IsValid : IsValid sample_env started
unfolding serve_all
started-IsValid = reachable-IsValid sample_env no_faults [] none started.file started started_lem []

add_blacklist_resurfaces_example :
    has (text "b") (add_blacklist sample_env directory_fault [] (text "b") started).1.blacklist
    ≡ false
unfolding has validate_ip parse_sample is_unspecified is_loopback is_multicast is_link_local_unicast
    is_link_local_multicast unmap
add_blacklist_resurfaces_example =
    (add_blacklist_resurfaces sample_env sample_env-lawful [] (text "b") started started-IsValid
      refl refl refl no_faults []).1

save_atomic_example :
    let r = save sample_codec linux directory_fault [] (snapshot started) started.file in
    ((r.0 ≢ none) × (r.1 ≡ started.file)) ⊎ (r.1 ≡ some (saved sample_codec [] (snapshot started)))
save_atomic_example = save_atomic sample_codec directory_fault [] (snapshot started) started.file

started-IsSynced : IsSynced sample_env started
started-IsSynced =
    saved-Holds sample_codec sample_codec-lawful []
      (record { version = 0; blacklist = []; whitelist = []; updated_at = [] })

serve-IsSynced_example :
    IsSynced sample_env (serve sample_env no_faults (text "t1") (ban (text "b")) started)
serve-IsSynced_example =
    serve-IsSynced sample_env sample_env-lawful no_faults refl (text "t1") (ban (text "b")) started
      started-IsSynced
