-- ===== src/Firewall/Iptables/Tests.antt =====
-- The iptables probe at a concrete input.
use digitdojo_shield.Prelude.{
  ◌≡◌, refl, [], ◌∷◌, ◌++◌, Option, none, some, if◌then◌else◌, Text, text, text_beq, text_eq,
}
use digitdojo_shield.Firewall.Contract.{background}
use digitdojo_shield.Firewall.Iptables.{detect}

-- A host without the commands for IPv6.
ipv4_host : Text → Option Text
unfolding text_beq
ipv4_host c = if text_beq c (text "ip6tables") then none else some (text "/sbin/" ++ c)

detect_test : (detect (some ipv4_host) background).missing ≡ text "ip6tables" ∷ []
unfolding detect ipv4_host
detect_test = refl
