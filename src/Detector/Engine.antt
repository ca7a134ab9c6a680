-- ===== src/Detector/Engine.antt =====
-- internal/detector/detector.go, and EvaluateSignal of internal/detector/daemon.go.
use digitdojo_shield.Prelude.{
  ℕ, ◌/◌, ◌≤◌, ◌≡◌, refl, sym, ◌∙◌, Bool, true, false, ◌&&◌, ◌||◌, List, [], ◌∷◌, ◌++◌, map, arith,
  leb, if◌then◌else◌, length, ℤ, pos, negsuc, at_least, above, pos_part, positive_or, Text, text,
  text_beq, text_eq, has,
}

pub record Metrics : Type 0 where
  pub packets_per_second : ℤ
  pub connections_per_second : ℤ
  pub bytes_per_second : ℤ
  pub unique_ips : ℤ
  pub top_talkers : List Text

pub record Signal : Type 0 where
  pub attack_type : Text
  pub severity : Text
  pub message : Text

-- An Engine is its threshold.
unfoldable pub new_engine : ℤ → ℕ
new_engine threshold = positive_or 1000 threshold

abbrev pub udp_flood : Text → Signal
udp_flood m = record { attack_type = text "udp_flood"; severity = text "high"; message = m }

abbrev pub connection_flood : Text → Signal
connection_flood m = record {
  attack_type = text "connection_flood";
  severity = text "medium";
  message = m;
}

abbrev pub port_scan : Signal
port_scan = record {
  attack_type = text "port_scan";
  severity = text "medium";
  message = text "suspicious concentration of unique talking hosts";
}

-- One of the `if`s that append a signal.
abbrev pub when : Bool → Signal → List Signal
when b s = if b then s ∷ [] else []

abbrev pub is_packet_flood : ℕ → Metrics → Bool
is_packet_flood threshold m = at_least threshold m.packets_per_second

abbrev pub is_connection_flood : ℕ → Metrics → Bool
is_connection_flood threshold m = at_least (threshold / 2) m.connections_per_second

abbrev pub is_scan : Metrics → Bool
is_scan m =
    leb 1 (length m.top_talkers)
    && above 0 m.unique_ips
    && leb (pos_part m.unique_ips / 2) (length m.top_talkers)

unfoldable pub evaluate : ℕ → Metrics → List Signal
evaluate threshold m =
    when (is_packet_flood threshold m) (udp_flood (text "packet rate exceeded threshold"))
    ++ when (is_connection_flood threshold m)
        (connection_flood (text "connection rate exceeded threshold"))
    ++ when (is_scan m) port_scan

-- EvaluateSignal, with the fmt.Sprintf of a number as `show`.
unfoldable pub evaluate_signal : (ℤ → Text) → Metrics → List Signal
evaluate_signal show m =
    when (above 1000 m.packets_per_second)
      (udp_flood (text "packets/sec=" ++ show m.packets_per_second))
    ++ when (above 100 m.connections_per_second)
        (connection_flood (text "connections/sec=" ++ show m.connections_per_second))

abbrev pub kinds : List Signal → List Text
kinds = map λ s. s.attack_type

has-when :
    (k : Text) (a b c : Bool) (u v w : Signal)
    → has k (kinds (when a u ++ when b v ++ when c w)) ≡ (
        (a && text_beq k u.attack_type)
        || (b && text_beq k v.attack_type)
        || (c && text_beq k w.attack_type))
unfolding has
has-when k true true true u v w = ground arith
has-when k true true false u v w = ground arith
has-when k true false true u v w = ground arith
has-when k true false false u v w = ground arith
has-when k false true true u v w = ground arith
has-when k false true false u v w = ground arith
has-when k false false true u v w = ground arith
has-when k false false false u v w = refl

at_least_mono : (l h : ℕ) (i : ℤ) → l ≤ h → at_least h i ≡ true → at_least l i ≡ true
at_least_mono l h (pos n) p q = ground arith
at_least_mono l h (negsuc n) p q = cc

or_mono :
    (a a' b b' c x y z : Bool)
    → (a ≡ true → a' ≡ true)
    → (b ≡ true → b' ≡ true)
    → ((a && x) || (b && y) || (c && z)) ≡ true
    → ((a' && x) || (b' && y) || (c && z)) ≡ true
or_mono a a' b b' c x y z p q h = ground arith

-- If one threshold is at most another, each attack type that the engine signals at the higher one
-- is signalled at the lower one, of the same metrics.
evaluate_antitone :
    (low high : ℕ) (m : Metrics) (k : Text)
    → low ≤ high
    → has k (kinds (evaluate high m)) ≡ true
    → has k (kinds (evaluate low m)) ≡ true
unfolding evaluate
evaluate_antitone low high m k h e =
    let q : low / 2 ≤ high / 2 = omega arith in
    has-when k (is_packet_flood low m) (is_connection_flood low m) (is_scan m) _ _ _
    ∙ or_mono (is_packet_flood high m) _ (is_connection_flood high m) _ (is_scan m) _ _ _
        (at_least_mono low high m.packets_per_second h)
        (at_least_mono (low / 2) (high / 2) m.connections_per_second q)
        (sym (has-when k (is_packet_flood high m) (is_connection_flood high m) (is_scan m) _ _ _)
          ∙ e)
