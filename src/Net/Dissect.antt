-- ===== src/Net/Dissect.antt =====
-- Dissection of an IP packet: the proto_check and proto_skip functions of nfq/darkmagic.c and
-- proto_dissect_l3l4. `data` and `len` are a position of the buffer and the bytes left. The IPv6
-- loop moves on by at least 8 bytes in each round, so `len` rounds are enough.
pub mod Bounds
use fog_prime.Base.{
  ℕ, zero, suc, ◌+◌, ◌-◌, ◌*◌, ◌/◌, ◌%◌, ◌^◌, Bool, true, false, ◌&&◌, ◌||◌, ◌==◌, ltb, leb,
  if◌then◌else◌, List, Option, none, some, rd, ◌>>=◌, and_then, bit_and,
}
use fog_prime.Helpers.Bytes.{pntoh16}

-- A pointer into the buffer and the bytes left from it on.
pub record Window : Type 0 where
  pub at : ℕ
  pub len : ℕ

abbrev pub skip : ℕ → Window → Window
skip n w = record { at = w.at + n; len = w.len - n }

-- data[0] & 0xF0 is the upper half of the byte, data[0] & 0x0F the lower one.
unfoldable pub proto_check_ipv4 : List ℕ → Window → Option Bool
proto_check_ipv4 buf w =
    and_then (leb 20 w.len) (do b ← rd buf w.at; some (b / 16 == 4 && leb (b % 16 * 4) w.len))

unfoldable pub proto_skip_ipv4 : List ℕ → Window → Option Window
proto_skip_ipv4 buf w = do b ← rd buf w.at; some (skip (b % 16 * 4) w)

unfoldable pub proto_check_tcp : List ℕ → Window → Option Bool
proto_check_tcp buf w =
    and_then (leb 20 w.len) (do b ← rd buf (w.at + 12); some (leb (b / 16 * 4) w.len))

unfoldable pub proto_skip_tcp : List ℕ → Window → Option Window
proto_skip_tcp buf w = do b ← rd buf (w.at + 12); some (skip (b / 16 * 4) w)

unfoldable pub proto_check_udp : List ℕ → Window → Option Bool
unfolding pntoh16
proto_check_udp buf w = and_then (leb 8 w.len) (do l ← pntoh16 buf (w.at + 4); some (leb l w.len))

unfoldable pub proto_skip_udp : Window → Window
proto_skip_udp w = skip 8 w

unfoldable pub proto_check_ipv6 : List ℕ → Window → Option Bool
unfolding pntoh16
proto_check_ipv6 buf w = and_then (leb 40 w.len) (do
  b ← rd buf w.at
  and_then (b / 16 == 6) (do l ← pntoh16 buf (w.at + 4); some (leb l (w.len - 40))))

-- What proto_skip_ipv6 leaves in its arguments; `last_header_type` is the position stored there.
pub record Skipped : Type 0 where
  pub window : Window
  pub proto_type : ℕ
  pub last_header_type : ℕ

-- The header types of the switch: those with a length in units of 8 bytes.
abbrev pub is_extension : ℕ → Bool
is_extension t = t == 0 || t == 43 || t == 60 || t == 135 || t == 139 || t == 140

-- The length of the header at `at` of type `t`: inside, `none` stands for a return.
unfoldable pub ext_len : List ℕ → ℕ → ℕ → ℕ → Option (Option ℕ)
ext_len buf t at len =
    if is_extension t || t == 51
    then (if ltb len 2
        then some none
        else do l ← rd buf (at + 1); some (some (if t == 51 then 8 + l * 4 else 8 + l * 8)))
    else (if t == 44 then some (some 8) else some none)

-- A type other than those of extension headers and 59, "no next header".
abbrev pub is_payload : ℕ → Bool
is_payload t = elim (is_extension t || t == 51 || t == 44 || t == 59) [
  | true ↦ false
  | false ↦ true
]

unfoldable pub skip_ipv6_loop : List ℕ → ℕ → ℕ → Skipped → Option Skipped
unfolding ext_len
skip_ipv6_loop buf zero t s = some s
skip_ipv6_loop buf (suc fuel) t s = elim (ltb 0 s.window.len) [
  | false ↦ some s
  | true ↦ elim (is_payload t) [
    | true ↦ some (record s { proto_type = t })
    | false ↦ ext_len buf t s.window.at s.window.len >>= λ o. elim o [
      | none ↦ some s
      | some hdrlen ↦ elim (ltb s.window.len hdrlen) [
        | true ↦ some s
        | false ↦ rd buf s.window.at >>= λ next.
            skip_ipv6_loop buf fuel next
              (record s { window = skip hdrlen s.window; last_header_type = s.window.at })
      ]
    ]
  ]
]

unfoldable pub proto_skip_ipv6 : List ℕ → Window → Option Skipped
unfolding skip_ipv6_loop
proto_skip_ipv6 buf w = do
  t ← rd buf (w.at + 6)
  skip_ipv6_loop buf w.len t
      (record { window = skip 40 w; proto_type = t; last_header_type = w.at + 6 })

-- struct dissect: the network layer, the protocol, and the windows of the transport header and of
-- the payload. The transport is that of IPPROTO_TCP or IPPROTO_UDP.
pub data Network : Type 0 where
  v4 v6 : Network

pub data Transport : Type 0 where
  tcp udp : Transport

pub record Dissected : Type 0 where
  pub network : Option Network
  pub proto : ℕ
  pub transport : Option (Transport × Window)
  pub payload : Window

abbrev pub nothing : Dissected
nothing = record {
  network = none;
  proto = 0;
  transport = none;
  payload = record { at = 0; len = 0 };
}

-- The second half: the transport header at the window `w`.
unfoldable pub dissect_l4 : List ℕ → Network → ℕ → Window → Option Dissected
unfolding proto_check_tcp proto_skip_tcp proto_check_udp proto_skip_udp
dissect_l4 buf net proto w = and_then (proto == 6) (proto_check_tcp buf w) >>= λ is_tcp.
    elim is_tcp [
      | true ↦ proto_skip_tcp buf w >>= λ p.
          some
            (record { network = some net; proto = proto; transport = some (tcp, w); payload = p })
      | false ↦ and_then (proto == 17) (proto_check_udp buf w) >>= λ is_udp. some (
          if is_udp
          then (record {
            network = some net;
            proto = proto;
            transport = some (udp, w);
            payload = proto_skip_udp w;
          })
          else (record nothing { network = some net; proto = proto }))
    ]

unfoldable pub proto_dissect_l3l4 : List ℕ → ℕ → Option Dissected
unfolding proto_check_ipv4 proto_skip_ipv4 proto_check_ipv6 proto_skip_ipv6 dissect_l4
proto_dissect_l3l4 buf len = proto_check_ipv4 buf (record { at = 0; len = len }) >>= λ is_ip.
    elim is_ip [
      | true ↦ rd buf 9 >>= λ proto.
          proto_skip_ipv4 buf (record { at = 0; len = len }) >>= λ w. dissect_l4 buf v4 proto w
      | false ↦ proto_check_ipv6 buf (record { at = 0; len = len }) >>= λ is_ip6. elim is_ip6 [
        | true ↦ proto_skip_ipv6 buf (record { at = 0; len = len }) >>= λ s.
            dissect_l4 buf v6 s.proto_type s.window
        | false ↦ some nothing
      ]
    ]
