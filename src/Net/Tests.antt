-- ===== src/Net/Tests.antt =====
-- The theorems about nfq/darkmagic.c at concrete packets.
use fog_prime.Base.{
  ℕ, ◌+◌, ◌≤◌, ◌<◌, ◌≢◌, refl, arith, List, [], ◌∷◌, byte, length, Ensures, zero, suc, replicate,
}
use fog_prime.Checksum.Words.{AllBytes}
use fog_prime.Net.Fragment.{ip_frag4}
use fog_prime.Net.Fragment.Join.{IsSplit, ip_frag4_lem}
use fog_prime.Net.Ttl.{AutoTtl, autottl_eval}
use fog_prime.Net.TcpOptions.{tcp_find_option}
use fog_prime.Net.TcpOptions.Walks.{Outcome, header_end, tcp_find_option_lem}
use fog_prime.Net.Dissect.{proto_dissect_l3l4}
use fog_prime.Net.Dissect.Bounds.{IsInside, proto_dissect_lem}

-- an IPv4 header, a TCP header, two bytes
abbrev packet : List ℕ
packet =
    69 ∷ 0 ∷ 0 ∷ 42 ∷ 0 ∷ 0 ∷ 0 ∷ 0 ∷ 64 ∷ 6 ∷ 0 ∷ 0 ∷ 10 ∷ 0 ∷ 0 ∷ 1 ∷ 10 ∷ 0 ∷ 0 ∷ 2 ∷ 4 ∷ 210 ∷ 1
    ∷ 187 ∷ 0 ∷ 0 ∷ 0 ∷ 1 ∷ 0 ∷ 0 ∷ 0 ∷ 0 ∷ 80 ∷ 2 ∷ 250 ∷ 240 ∷ 0 ∷ 0 ∷ 0 ∷ 0 ∷ 1 ∷ 2 ∷ []

packet-fits : 42 ≤ length packet
packet-fits = omega arith

proto_dissect_lem_example : Ensures (IsInside packet 42 packet-fits) (proto_dissect_l3l4 packet 42)
proto_dissect_lem_example = proto_dissect_lem packet 42 packet-fits

-- a TCP header with the options no-op and window scale 7
abbrev header : List ℕ
header =
    4 ∷ 210 ∷ 1 ∷ 187 ∷ 0 ∷ 0 ∷ 0 ∷ 1 ∷ 0 ∷ 0 ∷ 0 ∷ 0 ∷ 96 ∷ 2 ∷ 250 ∷ 240 ∷ 0 ∷ 0 ∷ 0 ∷ 0 ∷ 1 ∷ 3
    ∷ 3 ∷ 7 ∷ []

three_not_zero : ◌≢◌ {A = ℕ} 3 0
three_not_zero = omega arith

three_not_one : ◌≢◌ {A = ℕ} 3 1
three_not_one = omega arith

header-long : 0 + 12 < length header
header-long = omega arith

header-whole : header_end header 0 ≤ length header
unfolding byte
header-whole = omega arith

tcp_find_option_lem_example :
    Ensures
      (Outcome header (header_end header 0) 3 three_not_zero three_not_one (0 + 20))
      (tcp_find_option header 0 3)
tcp_find_option_lem_example =
    tcp_find_option_lem header 0 3 header-long header-whole three_not_zero three_not_one

-- one hop less than the distance, from 3 to 20
abbrev less_one : AutoTtl
less_one = record { up = 0; down = 1; min_ttl = 3; max_ttl = 20 }

eight : autottl_eval 9 less_one ≢ 0
unfolding autottl_eval
eight = omega arith

AllBytes-replicate : (n b : ℕ) → b < 256 → AllBytes (replicate n b)
AllBytes-replicate zero b h = tt
AllBytes-replicate (suc n) b h = (h, AllBytes-replicate n b h)

-- 20 bytes of header and 16 of payload
abbrev whole : List ℕ
whole = 69 ∷ 0 ∷ 0 ∷ 36 ∷ replicate 32 7

ip_frag4_lem_example : Ensures (IsSplit whole 20 36 8) (ip_frag4 0 1 whole 8 77 100 100)
unfolding byte
ip_frag4_lem_example =
    ip_frag4_lem 0 1 whole 8 77 100 100
      (
        omega arith,
        (omega arith, (omega arith, (omega arith, AllBytes-replicate 32 7 (omega arith)))),
      )
      (omega arith) (omega arith) (omega arith) refl (omega arith) (omega arith) (omega arith)
