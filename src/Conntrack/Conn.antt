-- ===== src/Conntrack/Conn.antt =====
-- The key of a tracked connection: t_conn of nfq/conntrack.h, connswap and ConntrackExtractConn of
-- nfq/conntrack.c, with extract_ports of nfq/darkmagic.c. An address is the number that the bytes
-- of the t_addr union stand for.
use fog_prime.Base.{
  ℕ, ◌≡◌, refl, Bool, true, false, ◌&&◌, ◌==◌, if◌then◌else◌, Option, none, some, ◌↔◌, arith,
}
use fog_prime.Net.Headers.{Packet, Tcphdr, Udphdr}

pub record Conn : Type 0 where
  pub src : ℕ
  pub dst : ℕ
  pub sport : ℕ
  pub dport : ℕ
  pub l3proto : ℕ
  pub l4proto : ℕ

unfoldable pub connswap : Conn → Conn
connswap c = record {
  src = c.dst;
  dst = c.src;
  sport = c.dport;
  dport = c.sport;
  l3proto = c.l3proto;
  l4proto = c.l4proto;
}

abbrev pub ipproto_ip : ℕ
ipproto_ip = 0

abbrev pub ipproto_tcp : ℕ
ipproto_tcp = 6

abbrev pub ipproto_udp : ℕ
ipproto_udp = 17

abbrev pub ipproto_ipv6 : ℕ
ipproto_ipv6 = 41

-- (uint8_t)-1
abbrev pub no_proto : ℕ
no_proto = 255

-- The protocol, the source port and the destination port that extract_ports stores.
unfoldable pub extract_ports : Option Tcphdr → Option Udphdr → ℕ × ℕ × ℕ
extract_ports (some t) u = (ipproto_tcp, t.th_sport, t.th_dport)
extract_ports none (some u) = (ipproto_udp, u.uh_sport, u.uh_dport)
extract_ports none none = (no_proto, 0, 0)

-- l3proto, source and destination address
unfoldable pub extract_addresses : Bool → Packet → ℕ × ℕ × ℕ
extract_addresses reverse p = elim p.ip [
  | some (s, d) ↦ if reverse then (ipproto_ip, d, s) else (ipproto_ip, s, d)
  | none ↦ elim p.ip6 [
    | some (s, d) ↦ if reverse then (ipproto_ipv6, d, s) else (ipproto_ipv6, s, d)
    | none ↦ (no_proto, 0, 0)
  ]
]

unfoldable pub conntrack_extract_conn : Bool → Packet → Conn
unfolding extract_ports extract_addresses
conntrack_extract_conn reverse p =
    let (l3, s, d) = extract_addresses reverse p in
    let (l4, first, second) = extract_ports p.tcp p.udp in
    record {
      src = s;
      dst = d;
      sport = if reverse then second else first;
      dport = if reverse then first else second;
      l3proto = l3;
      l4proto = l4;
    }

-- Keys are compared byte by byte.
unfoldable pub conn_eq : Conn → Conn → Bool
conn_eq a b =
    a.src == b.src
    && a.dst == b.dst
    && a.sport == b.sport
    && a.dport == b.dport
    && a.l3proto == b.l3proto
    && a.l4proto == b.l4proto

pub conn_eq_iff : (a b : Conn) → (conn_eq a b ≡ true) ↔ (a ≡ b)
unfolding conn_eq
conn_eq_iff a b = (λ h. ground arith, λ e. ground arith)

pub connswap-connswap : (c : Conn) → connswap (connswap c) ≡ c
unfolding connswap
connswap-connswap c = refl

-- The key read in the reverse direction is the swapped key.
pub extract_conn-reverse :
    (p : Packet) → conntrack_extract_conn true p ≡ connswap (conntrack_extract_conn false p)
unfolding conntrack_extract_conn connswap extract_addresses extract_ports
extract_conn-reverse p = ground arith
