-- ===== src/Firewall/Address.antt =====
-- The part of net/netip that internal/firewall/backend/backend.go uses, and normalizeAddress.
-- An address is a 32-bit or 128-bit number; an IPv6 address has a zone, empty for none.
use digitdojo_shield.Prelude.{
  ℕ, ◌/◌, ◌%◌, ◌^◌, ◌≡◌, refl, ◌↔◌, ◌⊎◌, inl, inr, Bool, true, false, ◌&&◌, ◌||◌, [], arith, ltb,
  leb, eqb, if◌then◌else◌, Eq, Ord, Text, text_beq, text_beq_iff, text_leb, text_leb_total,
  text_leb_trans, text_leb_antisym, Result, ok, err,
}

pub data Addr : Type 0 where
  no_addr : Addr
  v4 : ℕ → Addr
  v6 : ℕ → Text → Addr

unfoldable pub addr_beq : Addr → Addr → Bool
addr_beq no_addr no_addr = true
addr_beq (v4 m) (v4 n) = eqb m n
addr_beq (v6 m s) (v6 n t) = eqb m n && text_beq s t
addr_beq _ _ = false

pub addr_beq_iff : (a b : Addr) → (addr_beq a b ≡ true) ↔ (a ≡ b)
unfolding addr_beq
addr_beq_iff no_addr no_addr = ground arith
addr_beq_iff no_addr (v4 n) = ground arith
addr_beq_iff no_addr (v6 n t) = ground arith
addr_beq_iff (v4 m) no_addr = ground arith
addr_beq_iff (v4 m) (v4 n) = ground arith
addr_beq_iff (v4 m) (v6 n t) = ground arith
addr_beq_iff (v6 m s) no_addr = ground arith
addr_beq_iff (v6 m s) (v4 n) = ground arith
addr_beq_iff (v6 m s) (v6 n t) = ground (arith, text_beq_iff s t)

instance abbrev pub addr_eq : Eq Addr
addr_eq = record { beq = addr_beq; beq_iff = addr_beq_iff }

-- Addr.Compare is not positive: by the bit length, the number, the zone.
unfoldable pub addr_leb : Addr → Addr → Bool
addr_leb no_addr b = true
addr_leb (v4 m) no_addr = false
addr_leb (v4 m) (v4 n) = leb m n
addr_leb (v4 m) (v6 n t) = true
addr_leb (v6 m s) no_addr = false
addr_leb (v6 m s) (v4 n) = false
addr_leb (v6 m s) (v6 n t) = if ltb m n then true else if ltb n m then false else text_leb s t

pub addr_leb_total : (a b : Addr) → (addr_leb a b ≡ true) ⊎ (addr_leb b a ≡ true)
unfolding addr_leb
addr_leb_total no_addr b = inl refl
addr_leb_total (v4 m) no_addr = inr refl
addr_leb_total (v4 m) (v4 n) = ground arith
addr_leb_total (v4 m) (v6 n t) = inl refl
addr_leb_total (v6 m s) no_addr = inr refl
addr_leb_total (v6 m s) (v4 n) = inr refl
addr_leb_total (v6 m s) (v6 n t) = ground (arith, text_leb_total s t)

pub addr_leb_trans :
    (a b c : Addr) → addr_leb a b ≡ true → addr_leb b c ≡ true → addr_leb a c ≡ true
unfolding addr_leb
addr_leb_trans no_addr b c p q = refl
addr_leb_trans (v4 m) no_addr c p q = cc
addr_leb_trans (v4 m) (v4 n) no_addr p q = cc
addr_leb_trans (v4 m) (v4 n) (v4 k) p q = ground arith
addr_leb_trans (v4 m) (v4 n) (v6 k u) p q = refl
addr_leb_trans (v4 m) (v6 n t) no_addr p q = cc
addr_leb_trans (v4 m) (v6 n t) (v4 k) p q = cc
addr_leb_trans (v4 m) (v6 n t) (v6 k u) p q = refl
addr_leb_trans (v6 m s) no_addr c p q = cc
addr_leb_trans (v6 m s) (v4 n) c p q = cc
addr_leb_trans (v6 m s) (v6 n t) no_addr p q = cc
addr_leb_trans (v6 m s) (v6 n t) (v4 k) p q = cc
addr_leb_trans (v6 m s) (v6 n t) (v6 k u) p q = ground (arith, text_leb_trans s t u)

pub addr_leb_antisym : (a b : Addr) → addr_leb a b ≡ true → addr_leb b a ≡ true → a ≡ b
unfolding addr_leb
addr_leb_antisym no_addr no_addr p q = refl
addr_leb_antisym no_addr (v4 n) p q = cc
addr_leb_antisym no_addr (v6 n t) p q = cc
addr_leb_antisym (v4 m) no_addr p q = cc
addr_leb_antisym (v4 m) (v4 n) p q = ground arith
addr_leb_antisym (v4 m) (v6 n t) p q = cc
addr_leb_antisym (v6 m s) no_addr p q = cc
addr_leb_antisym (v6 m s) (v4 n) p q = cc
addr_leb_antisym (v6 m s) (v6 n t) p q = ground (arith, text_leb_antisym s t)

abbrev pub addr_ord : Ord Addr
addr_ord = record {
  base = addr_eq;
  le = addr_leb;
  total = addr_leb_total;
  trans = addr_leb_trans;
  antisym = addr_leb_antisym;
}

unfoldable pub is_4 : Addr → Bool
is_4 (v4 n) = true
is_4 _ = false

-- An IPv4-mapped IPv6 address, ::ffff:0:0/96, becomes the IPv4 address, without its zone.
unfoldable pub unmap : Addr → Addr
unmap no_addr = no_addr
unmap (v4 n) = v4 n
unmap (v6 n zone) = if eqb (n / 2 ^ 32) 0xffff then v4 (n % 2 ^ 32) else v6 n zone

unfoldable pub is_unspecified : Addr → Bool
is_unspecified no_addr = false
is_unspecified (v4 n) = eqb n 0
is_unspecified (v6 n zone) = eqb n 0 && text_beq zone []

-- 127.0.0.0/8 and ::1.
unfoldable pub is_loopback : Addr → Bool
is_loopback no_addr = false
is_loopback (v4 n) = eqb (n / 2 ^ 24) 127
is_loopback (v6 n zone) = eqb n 1

-- 224.0.0.0/4 and ff00::/8.
unfoldable pub is_multicast : Addr → Bool
is_multicast no_addr = false
is_multicast (v4 n) = eqb (n / 2 ^ 28) 0xe
is_multicast (v6 n zone) = eqb (n / 2 ^ 120) 0xff

-- 169.254.0.0/16 and fe80::/10.
unfoldable pub is_link_local_unicast : Addr → Bool
is_link_local_unicast no_addr = false
is_link_local_unicast (v4 n) = eqb (n / 2 ^ 16) 0xa9fe
is_link_local_unicast (v6 n zone) = eqb (n / 2 ^ 118) 0x3fa

-- 224.0.0.0/24 and the link-local scope of ff00::/8.
unfoldable pub is_link_local_multicast : Addr → Bool
is_link_local_multicast no_addr = false
is_link_local_multicast (v4 n) = eqb (n / 2 ^ 8) 0xe00000
is_link_local_multicast (v6 n zone) = eqb (n / 2 ^ 120) 0xff && eqb (n / 2 ^ 112 % 16) 2

unfoldable pub is_unsafe : Addr → Bool
is_unsafe a =
    is_unspecified a
    || is_loopback a
    || is_multicast a
    || is_link_local_unicast a
    || is_link_local_multicast a

pub data AddressError : Type 0 where
  invalid_ip : AddressError
  unsafe_ip : Addr → AddressError

refuse_unsafe : Addr → Result AddressError Addr
refuse_unsafe a = if is_unsafe a then err (unsafe_ip a) else ok a

unfoldable pub normalize_address : Addr → Result AddressError Addr
unfolding refuse_unsafe
normalize_address no_addr = err invalid_ip
normalize_address (v4 n) = refuse_unsafe (unmap (v4 n))
normalize_address (v6 n zone) = refuse_unsafe (unmap (v6 n zone))

-- An address that may stand in a rule: valid, not an IPv4-mapped one, and not unsafe.
abbrev pub IsCanonical : Addr → Type 0
IsCanonical a = (a ≡ unmap a) × (addr_beq a no_addr ≡ false) × (is_unsafe a ≡ false)

pub unmap_idem : (a : Addr) → unmap (unmap a) ≡ unmap a
unfolding unmap
unmap_idem no_addr = refl
unmap_idem (v4 n) = refl
unmap_idem (v6 n zone) = ground arith

pub normalize_address-eq-ok :
    (a b : Addr) → normalize_address a ≡ ok b → (b ≡ unmap a) × IsCanonical b
unfolding normalize_address unmap addr_beq
normalize_address-eq-ok no_addr b h = cc
normalize_address-eq-ok (v4 n) b h = ground arith
normalize_address-eq-ok (v6 n zone) b h = ground (arith, unmap_idem (v6 n zone))

pub normalize_address_fixed : (a : Addr) → IsCanonical a → normalize_address a ≡ ok a
unfolding normalize_address addr_beq
normalize_address_fixed no_addr h = cc (h.1)
normalize_address_fixed (v4 n) h = ground arith
normalize_address_fixed (v6 n zone) h = ground arith
