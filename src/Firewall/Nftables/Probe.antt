-- ===== src/Firewall/Nftables/Probe.antt =====
-- internal/firewall/nftables/probe.go and environment.go: whether nftables can be used. What os,
-- exec, regexp and strconv give is an argument.
use digitdojo_shield.Prelude.{
  ℕ, ◌/◌, ◌%◌, ◌^◌, ◌≡◌, inl, inr, refl, Bool, true, false, not, List, [], ◌∷◌, Option, none, some,
  ltb, leb, eqb, if◌then◌else◌, Text, text, Result, ok, err, ◌>>=◌, ok-injective, sym, ◌∙◌, subst,
  Bool-cases,
}
use digitdojo_shield.Firewall.Backend.Names.{trim_space}
use digitdojo_shield.Firewall.Contract.{Context, Capability, nftables}

pub record Version : Type 0 where
  pub major : ℕ
  pub minor : ℕ
  pub patch : ℕ

-- AtLeast
unfoldable pub is_at_least : Version → Version → Bool
is_at_least v o =
    if not (eqb v.major o.major)
    then ltb o.major v.major
    else if not (eqb v.minor o.minor)
    then ltb o.minor v.minor
    else leb o.patch v.patch

abbrev pub minimum_version : Version
minimum_version = record { major = 1; minor = 0; patch = 9 }

-- ParseVersion, on the match of the pattern.
abbrev pub parse_version : Option Version → Result Text Version
parse_version none = err (text "unable to parse nftables version")
parse_version (some v) = ok v

abbrev pub supported : Version → Result Text Version
supported v =
    if not (is_at_least v minimum_version) then err (text "unsupported nftables version") else ok v

-- CheckNFTVersion, on the match in what nft printed.
unfoldable pub check_nft_version : Result Text (Option Version) → Result Text Version
unfolding is_at_least
check_nft_version (err e) = err e
check_nft_version (ok m) = parse_version m >>= λ v. supported v

-- strings.CutPrefix
unfoldable pub cut_prefix : Text → Text → Option Text
cut_prefix [] s = some s
cut_prefix (p ∷ ps) [] = none
cut_prefix (p ∷ ps) (c ∷ s) = let rest = cut_prefix ps s in if eqb p c then rest else none

-- effectiveCapabilities, on the lines of /proc/self/status; `parse_hex` is strconv.ParseUint.
module _ (parse_hex : Text → Result Text ℕ) where
  abbrev field_or : Result Text ℕ → Option Text → Result Text ℕ
  field_or rest none = rest
  field_or rest (some value) = parse_hex (trim_space value)

  unfoldable pub effective_capabilities : List Text → Result Text ℕ
  unfolding cut_prefix trim_space
  effective_capabilities [] = err (text "capability effective-set field is absent")
  effective_capabilities (l ∷ ls) =
      let rest = effective_capabilities ls in field_or rest (cut_prefix (text "CapEff:\t") l)

abbrev pub cap_net_admin : ℕ
cap_net_admin = 12

-- requireCapability
unfoldable pub require_capability : ℕ → Result Text ℕ → Option Text
require_capability bit (err e) = some e
require_capability bit (ok capabilities) =
    if eqb (capabilities / 2 ^ bit % 2) 0 then some (text "capability is missing") else none

-- CheckFirewallEnvironment, on the system, the network namespace and the capabilities.
unfoldable pub check_firewall_environment : Bool → Bool → Result Text ℕ → Option Text
unfolding require_capability
check_firewall_environment is_linux has_namespace capabilities =
    if not is_linux
    then some (text "nftables backend requires Linux")
    else if not has_namespace
    then some (text "linux network namespace support is unavailable")
    else require_capability cap_net_admin capabilities

-- Probe: its locator, if it has one, and the runtime checks, if it makes them: of the version of nft
-- at a path, and of the environment.
pub record Probe : Type 0 where
  pub locator : Option (Text → Option Text)
  pub runtime : Option ((Text → Result Text Version) × Option Text)

abbrev pub undetected : List (Text × Text) → List Text → Text → Capability
undetected commands missing reason = record {
  name = nftables;
  detected = false;
  implemented = false;
  commands = commands;
  missing = missing;
  reason = reason;
}

module _ (show_version : Version → Text) where
  abbrev pub detect_environment : Text → Version → Option Text → Capability
  detect_environment path v (some e) =
      undetected ((text "nft", path) ∷ (text "nft_version", show_version v) ∷ [])
        (text "Linux with CAP_NET_ADMIN" ∷ []) e
  detect_environment path v none =
      record (undetected ((text "nft", path) ∷ (text "nft_version", show_version v) ∷ []) [] (
        text
          "supported nftables userspace and CAP_NET_ADMIN detected; kernel behavior is unverified")) {
            detected = true;
          }

  abbrev pub detect_version : Text → Option Text → Result Text Version → Capability
  detect_version path environment (err e) =
      undetected ((text "nft", path) ∷ []) (text "nft>=1.0.9" ∷ []) e
  detect_version path environment (ok v) = detect_environment path v environment

  abbrev pub detect_runtime :
      Text → Option ((Text → Result Text Version) × Option Text) → Capability
  detect_runtime path none =
      record (undetected ((text "nft", path) ∷ []) []
        (text "nft userspace command detected; kernel behavior is unverified")) { detected = true }
  detect_runtime path (some (version_check, environment)) =
      detect_version path environment (version_check path)

  abbrev pub detect_path : Probe → Option Text → Capability
  detect_path p none = undetected [] (text "nft" ∷ []) (text "nft userspace command not found")
  detect_path p (some path) = detect_runtime path p.runtime

  abbrev pub detect_located : Probe → Option (Text → Option Text) → Capability
  detect_located p none = undetected [] (text "nft" ∷ []) (text "command locator is unavailable")
  detect_located p (some look) = detect_path p (look (text "nft"))

  abbrev pub detect_live : Probe → Option Text → Capability
  detect_live p (some e) = undetected [] [] e
  detect_live p none = detect_located p p.locator

  -- Detect
  unfoldable pub detect : Probe → Context → Capability
  detect p ctx = detect_live p ctx.cancelled

  -- What a detection with the runtime checks rests on.
  abbrev pub IsUsableNft :
      Context → (Text → Option Text) → (Text → Result Text (Option Version)) → Option Text → Type 0
  IsUsableNft ctx look output environment =
      (ctx.cancelled ≡ none)
      × ((path : Text) × ((look (text "nft") ≡ some path)
            × ((v : Version) × ((output path ≡ ok (some v))
                  × ((is_at_least v minimum_version ≡ true) × (environment ≡ none))))))

  supported-version :
      (u v : Version) → supported u ≡ ok v → (u ≡ v) × (is_at_least v minimum_version ≡ true)
  supported-version u v h = elim (Bool-cases (is_at_least u minimum_version)) [
    | inl t ↦
        let passes : supported u ≡ ok u = rw t refl in
        let same : u ≡ v = ok-injective (sym passes ∙ h) in
        (same, subst (λ (x : Version). is_at_least x minimum_version ≡ true) same t)
    | inr f ↦
        let fails : supported u ≡ err (text "unsupported nftables version") = rw f refl in
        cc (fails, h)
  ]

  checked-version :
      (r : Result Text (Option Version)) (v : Version)
      → check_nft_version r ≡ ok v
      → (r ≡ ok (some v)) × (is_at_least v minimum_version ≡ true)
  unfolding check_nft_version
  checked-version (err e) v h = cc
  checked-version (ok none) v h = cc
  checked-version (ok (some u)) v h = let s = supported-version u v h in (cc (s.0), s.1)

  -- A probe with the runtime checks that detects nftables has a live context, found the command,
  -- read a version of 1.0.9 or later, and the checks of the environment passed.
  pub detect-IsUsableNft :
      (look : Text → Option Text) (output : Text → Result Text (Option Version))
      (environment : Option Text) (ctx : Context)
      → (detect
          (record {
            locator = some look;
            runtime = some ((λ path. check_nft_version (output path)), environment);
          })
          ctx).detected
        ≡ true
      → IsUsableNft ctx look output environment
  unfolding detect
  detect-IsUsableNft look output environment ctx = live ctx.cancelled refl
    where
      at_path :
          (path : Text) (r : Result Text Version) (e : Option Text)
          → (detect_version path e r).detected ≡ true
          → (v : Version) × ((r ≡ ok v) × (e ≡ none))
      at_path path (err m) e h = cc
      at_path path (ok v) (some m) h = cc
      at_path path (ok v) none h = (v, (refl, refl))

      found :
          (o : Option Text)
          → look (text "nft") ≡ o
          → (detect_path
              (record {
                locator = some look;
                runtime = some ((λ path. check_nft_version (output path)), environment);
              })
              o).detected
            ≡ true
          → (path : Text) × ((look (text "nft") ≡ some path)
              × ((v : Version) × ((output path ≡ ok (some v))
                    × ((is_at_least v minimum_version ≡ true) × (environment ≡ none)))))
      found none e h = cc
      found (some path) e h =
          let a = at_path path (check_nft_version (output path)) environment h in
          let c = checked-version (output path) a.0 a.1.0 in (path, (e, (a.0, (c.0, (c.1, a.1.1)))))

      live :
          (o : Option Text)
          → ctx.cancelled ≡ o
          → (detect_live
              (record {
                locator = some look;
                runtime = some ((λ path. check_nft_version (output path)), environment);
              })
              o).detected
            ≡ true
          → IsUsableNft ctx look output environment
      live (some m) e h = cc
      live none e h = (e, found (look (text "nft")) refl h)
