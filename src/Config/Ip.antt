-- ===== src/Config/Ip.antt =====
-- `Config.ValidateIP` of internal/config/config.go. `parse_ip` is net.ParseIP; a net.IP answers its
-- questions on the IPv4 form of an IPv4-mapped address, and has no zone.
use digitdojo_shield.Prelude.{
  ◌≡◌, Bool, false, ◌||◌, Option, none, some, arith, if◌then◌else◌, Text,
}
use digitdojo_shield.Firewall.Address.{
  Addr, unmap, is_unspecified, is_loopback, is_multicast, is_link_local_unicast,
  is_link_local_multicast, is_unsafe,
}

pub data IpError : Type 0 where
  invalid_ip local_ip multicast_ip : Text → IpError

abbrev pub is_local : Addr → Bool
is_local a =
    is_loopback a || is_link_local_unicast a || is_link_local_multicast a || is_unspecified a

abbrev pub check_parsed : Text → Option Addr → Option IpError
check_parsed ip none = some (invalid_ip ip)
check_parsed ip (some a) =
    if is_local (unmap a)
    then some (local_ip ip)
    else if is_multicast (unmap a)
    then some (multicast_ip ip)
    else none

-- ValidateIP; `none` is no error.
unfoldable pub validate_ip : (Text → Option Addr) → Text → Option IpError
validate_ip parse_ip ip = check_parsed ip (parse_ip ip)

-- For a text that net.ParseIP reads as an address, ValidateIP lets it pass for the lists exactly
-- when the unmapped address is safe for the firewall's own normalization.
validate_ip-safe :
    (parse_ip : Text → Option Addr) (ip : Text) (a : Addr)
    → parse_ip ip ≡ some a
    → (validate_ip parse_ip ip ≡ none → is_unsafe (unmap a) ≡ false)
      × (is_unsafe (unmap a) ≡ false → validate_ip parse_ip ip ≡ none)
unfolding validate_ip is_unsafe
validate_ip-safe parse_ip ip a h = (λ k. ground arith, λ k. ground arith)
