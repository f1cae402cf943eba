-- ===== src/Spec/Address.antt =====
-- IP addresses and socket addresses of the standard library, as numbers.
use mavlink_router_rs.Base.{
  ℕ, ◌^◌, ◌-◌, ◌/◌, ◌%◌, Bool, true, false, Option, none, some, ◌==◌, if◌then◌else◌, ◌≡◌, arith,
  ◌↔◌,
}

-- An address of 32 bits, or one of 128.
pub data IpAddr : Type 0 where
  v4_ip v6_ip : (bits : ℕ) → IpAddr

pub record SocketAddr : Type 0 where
  pub ip : IpAddr
  pub port : ℕ

unfoldable pub is_ipv6 : IpAddr → Bool
is_ipv6 (v4_ip bits) = false
is_ipv6 (v6_ip bits) = true

-- `Ipv6Addr::to_ipv4_mapped`: the last 32 bits of an address `::ffff:a.b.c.d`.
unfoldable pub to_ipv4_mapped : ℕ → Option ℕ
to_ipv4_mapped bits = if bits / 2 ^ 32 == 2 ^ 16 - 1 then some (bits % 2 ^ 32) else none

unfoldable pub ip_eq : IpAddr → IpAddr → Bool
ip_eq (v4_ip a) (v4_ip b) = a == b
ip_eq (v6_ip a) (v6_ip b) = a == b
ip_eq _ _ = false

pub ip_eq_iff : (a b : IpAddr) → (ip_eq a b ≡ true) ↔ (a ≡ b)
unfolding ip_eq
ip_eq_iff (v4_ip a) (v4_ip b) = ground arith
ip_eq_iff (v4_ip a) (v6_ip b) = ground arith
ip_eq_iff (v6_ip a) (v4_ip b) = ground arith
ip_eq_iff (v6_ip a) (v6_ip b) = ground arith
