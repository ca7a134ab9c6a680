-- ===== src/Config/Yaml.antt =====
-- internal/config/yaml.go: the check of the keys of a configuration file, and its loading. The YAML
-- library is the argument `Loader`; `validateYAML` reads a document down to the keys of its sections.
use digitdojo_shield.Prelude.{
  ℕ, ◌≡◌, refl, true, false, not, List, [], ◌∷◌, map, Option, none, some, arith, if◌then◌else◌, has,
  lookup, IsUnique, Text, text, text_eq, text_beq_iff, Result, ok, err, All,
}
use digitdojo_shield.Config.Settings.{Config, ConfigError, Lib, default_config, validate}

pub record Key : Type 0 where
  pub value : Text
  pub line : ℕ

-- A node under a section's name, at a line: a mapping with these keys, or another node.
pub data Section : Type 0 where
  mapping : ℕ → List Key → Section
  other_node : ℕ → Section

pub data Document : Type 0 where
  mapping_document : List (Key × Section) → Document
  other_document : Document

-- An error at a line, of a key.
pub data YamlError : Type 0 where
  not_a_mapping : YamlError
  duplicate_section unknown_section section_not_mapping : ℕ → Text → YamlError
  duplicate_key unknown_key : ℕ → Text → Text → YamlError

-- allowedYAMLKeys
abbrev pub allowed_keys : List (Text × List Text)
allowed_keys =
    (text "general", text "log_dir" ∷ text "state_dir" ∷ text "host_based" ∷ [])
    ∷ (
      text "firewall",
      text "backend"
          ∷ text "rate_limit_per_second"
          ∷ text "connection_limit"
          ∷ text "temporary_ban_seconds"
          ∷ [],
    )
    ∷ (
      text "detection",
      text "packet_threshold"
          ∷ text "connection_threshold"
          ∷ text "bytes_threshold"
          ∷ text "suspicious_spike"
          ∷ text "port_scan_threshold"
          ∷ text "window_seconds"
          ∷ [],
    )
    ∷ (text "alerts", text "discord_webhook" ∷ text "slack_webhook" ∷ text "email" ∷ [])
    ∷ (text "logging", text "level" ∷ text "rotate" ∷ [])
    ∷ (
      text "api",
      text "enabled"
          ∷ text "token"
          ∷ text "bind_address"
          ∷ text "rate_limit"
          ∷ text "rate_burst"
          ∷ [],
    )
    ∷ []

-- The inner loop of validateYAML: the keys of the section `name`.
unfoldable pub validate_keys : Text → List Text → List Text → List Key → Option YamlError
unfolding has
validate_keys name allowed seen [] = none
validate_keys name allowed seen (k ∷ rest) =
    let others = validate_keys name allowed (k.value ∷ seen) rest in
    if has k.value seen
    then some (duplicate_key k.line k.value name)
    else if not (has k.value allowed)
    then some (unknown_key k.line k.value name)
    else others

abbrev pub validate_section : Key → Section → Option (List Text) → Option YamlError
validate_section k s none = some (unknown_section k.line k.value)
validate_section k (other_node line) (some allowed) = some (section_not_mapping line k.value)
validate_section k (mapping line keys) (some allowed) = validate_keys k.value allowed [] keys

abbrev pub then_rest : Option YamlError → Option YamlError → Option YamlError
then_rest (some e) rest = some e
then_rest none rest = rest

-- The outer loop.
unfoldable pub validate_sections :
    List (Text × List Text) → List Text → List (Key × Section) → Option YamlError
unfolding has lookup validate_keys
validate_sections allowed seen [] = none
validate_sections allowed seen ((k, s) ∷ rest) =
    let others = validate_sections allowed (k.value ∷ seen) rest in
    if has k.value seen
    then some (duplicate_section k.line k.value)
    else then_rest (validate_section k s (lookup k.value allowed)) others

-- validateYAML; `none` is no error.
unfoldable pub validate_yaml : Document → Option YamlError
unfolding validate_sections
validate_yaml other_document = some not_a_mapping
validate_yaml (mapping_document sections) = validate_sections allowed_keys [] sections

-- gopkg.in/yaml.v3: `decode` reads a document over a configuration, `unmarshal` text over the zero
-- configuration.
pub record Loader (D : Type 0) : Type 0 where
  pub parse : Text → Result Text D
  pub shape : D → Document
  pub decode : D → Config → Result Text Config
  pub unmarshal : Text → Result Text Config
  pub encode : Config → Result Text Text

pub data LoadError : Type 0 where
  unreadable : LoadError
  parse_error decode_error : Text → LoadError
  bad_shape : YamlError → LoadError
  bad_config : ConfigError → LoadError

abbrev pub validated : Config → Option ConfigError → Result LoadError Config
validated c none = ok c
validated c (some e) = err (bad_config e)

abbrev pub checked : Lib → Result Text Config → Result LoadError Config
checked lib (err e) = err (decode_error e)
checked lib (ok c) = validated c (validate lib c)

module _ {D : Type 0} (lib : Lib) (loader : Loader D) where
  abbrev decode_shaped : D → Option YamlError → Result LoadError Config
  decode_shaped d (some e) = err (bad_shape e)
  decode_shaped d none = checked lib (loader.decode d default_config)

  abbrev decode_parsed : Result Text D → Result LoadError Config
  decode_parsed (err e) = err (parse_error e)
  decode_parsed (ok d) = decode_shaped d (validate_yaml (loader.shape d))

  -- LoadFromFile, on the bytes of the file.
  unfoldable pub load_from_file : Option Text → Result LoadError Config
  load_from_file none = err unreadable
  load_from_file (some data_) = decode_parsed (loader.parse data_)

  -- loadBytes
  unfoldable pub load_bytes : Text → Result LoadError Config
  load_bytes data_ = checked lib (loader.unmarshal data_)

abbrev pub values : List Key → List Text
values = map λ k. k.value

abbrev pub titles : List (Key × Section) → List Text
titles = map λ s. s.0.value

-- A section is a mapping, of keys that are allowed under its name, each at most once.
abbrev pub IsAllowedSection : List (Text × List Text) → Key × Section → Type 0
IsAllowedSection allowed (k, s) =
    (line : ℕ) × (keys : List Key) × (names : List Text) × (s ≡ mapping line keys)
    × (lookup k.value allowed ≡ some names)
    × All (λ n. has n names ≡ true) (values keys)
    × IsUnique (values keys)

fresh-IsUnique :
    (n : Text) (seen ns : List Text)
    → All (λ m. has m (n ∷ seen) ≡ false) ns
    → (has n ns ≡ false) × All (λ m. has m seen ≡ false) ns
unfolding has
fresh-IsUnique n seen [] h = (refl, tt)
fresh-IsUnique n seen (m ∷ ns) h =
    ground (arith, fresh-IsUnique n seen ns h.1, text_beq_iff n m, text_beq_iff m n)

validate_keys-none :
    (name : Text) (allowed seen : List Text) (ks : List Key)
    → validate_keys name allowed seen ks ≡ none
    → All (λ n. has n allowed ≡ true) (values ks)
      × IsUnique (values ks)
      × All (λ n. has n seen ≡ false) (values ks)
unfolding validate_keys
validate_keys-none name allowed seen [] h = (tt, tt, tt)
validate_keys-none name allowed seen (k ∷ ks) h = ground (
  arith,
  validate_keys-none name allowed (k.value ∷ seen) ks,
  fresh-IsUnique k.value seen (values ks),
)

validate_section-none :
    (allowed : List (Text × List Text)) (k : Key) (s : Section) (o : Option (List Text))
    → lookup k.value allowed ≡ o
    → validate_section k s o ≡ none
    → IsAllowedSection allowed (k, s)
validate_section-none allowed k s none e h = cc
validate_section-none allowed k (other_node line) (some names) e h = cc
validate_section-none allowed k (mapping line keys) (some names) e h =
    let v = validate_keys-none k.value names [] keys h in (line, keys, names, refl, e, v.0, v.1)

then_rest-none : (e r : Option YamlError) → then_rest e r ≡ none → (e ≡ none) × (r ≡ none)
then_rest-none (some e) r h = cc
then_rest-none none r h = (refl, h)

sections_cons :
    (allowed : List (Text × List Text)) (k : Key) (seen : List Text) (s : Section)
    (r : Option YamlError)
    → (if has k.value seen
        then some (duplicate_section k.line k.value)
        else then_rest (validate_section k s (lookup k.value allowed)) r)
      ≡ none
    → (has k.value seen ≡ false)
      × (then_rest (validate_section k s (lookup k.value allowed)) r ≡ none)
sections_cons allowed k seen s r h = ground arith

validate_sections-none :
    (allowed : List (Text × List Text)) (seen : List Text) (ss : List (Key × Section))
    → validate_sections allowed seen ss ≡ none
    → All (IsAllowedSection allowed) ss
      × IsUnique (titles ss)
      × All (λ n. has n seen ≡ false) (titles ss)
unfolding validate_sections
validate_sections-none allowed seen [] h = (tt, tt, tt)
validate_sections-none allowed seen ((k, s) ∷ ss) h =
    let split = sections_cons allowed k seen s _ h in
    let (v, w) = then_rest-none (validate_section k s (lookup k.value allowed)) _ split.1 in
    let rest = validate_sections-none allowed (k.value ∷ seen) ss w in
    let fresh = fresh-IsUnique k.value seen (titles ss) rest.2 in
    (
      (validate_section-none allowed k s (lookup k.value allowed) refl v, rest.0),
      (fresh.0, rest.1),
      (split.0, fresh.1),
    )

-- A document that validateYAML accepts is a mapping of sections that the table of allowed keys
-- names, each at most once, and each of them a mapping of keys allowed in it, each at most once.
pub validate_yaml_sound :
    (d : Document)
    → validate_yaml d ≡ none
    → (ss : List (Key × Section)) × (d ≡ mapping_document ss)
      × All (IsAllowedSection allowed_keys) ss
      × IsUnique (titles ss)
unfolding validate_yaml
validate_yaml_sound other_document h = cc
validate_yaml_sound (mapping_document ss) h =
    let v = validate_sections-none allowed_keys [] ss h in (ss, refl, v.0, v.1)
