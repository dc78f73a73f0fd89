-- ===== src/Net/Headers.antt =====
-- The header fields that the code reads, in host byte order, and the segment tests of
-- nfq/darkmagic.c on the flag byte. `scale` is what tcp_find_scale_factor finds in the options.
use fog_prime.Base.{ℕ, Bool, Option, ◌==◌, bit_and}

-- SCALE_NONE, (uint8_t)-1
abbrev pub scale_none : ℕ
scale_none = 255

pub record Tcphdr : Type 0 where
  pub th_sport : ℕ
  pub th_dport : ℕ
  pub th_seq : ℕ
  pub th_ack : ℕ
  pub th_flags : ℕ
  pub th_win : ℕ
  pub scale : ℕ

pub record Udphdr : Type 0 where
  pub uh_sport : ℕ
  pub uh_dport : ℕ

-- A dissected packet: at most one of `ip` and `ip6`, source and destination address, and at most
-- one of `tcp` and `udp`. `none` is a null pointer.
pub record Packet : Type 0 where
  pub ip : Option (ℕ × ℕ)
  pub ip6 : Option (ℕ × ℕ)
  pub tcp : Option Tcphdr
  pub udp : Option Udphdr

-- TH_URG|TH_ACK|TH_PUSH|TH_RST|TH_SYN|TH_FIN is 0x3f, TH_ACK|TH_SYN is 0x12, TH_SYN is 2.
unfoldable pub tcp_synack_segment : Tcphdr → Bool
tcp_synack_segment tcphdr = bit_and tcphdr.th_flags 0x3f == 0x12

unfoldable pub tcp_syn_segment : Tcphdr → Bool
tcp_syn_segment tcphdr = bit_and tcphdr.th_flags 0x3f == 2

unfoldable pub tcp_ack_segment : Tcphdr → Bool
tcp_ack_segment tcphdr = bit_and tcphdr.th_flags 0x3f == 0x10
