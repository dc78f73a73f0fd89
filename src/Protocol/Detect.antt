-- ===== src/Protocol/Detect.antt =====
-- Protocols that are recognized by a few bytes, nfq/protocol.c, and the filter by protocol.
use fog_prime.Base.{
  ℕ, ◌-◌, ◌/◌, ◌%◌, Bool, ◌==◌, leb, List, Option, some, rd, ◌>>=◌, and_then, replicate,
}
use fog_prime.Helpers.Bytes.{pntoh16, pntoh32}
use fog_prime.Protocol.Http.{mem_equal}

unfoldable pub is_wireguard_handshake_initiation : List ℕ → ℕ → Option Bool
is_wireguard_handshake_initiation buf len = and_then (len == 148) (rd buf 0 >>= λ b. some (b == 1))

-- "d1" and "e" at the end
unfoldable pub is_dht_d1 : List ℕ → ℕ → Option Bool
is_dht_d1 buf len = and_then (leb 7 len) (
    rd buf 0 >>= λ d.
    and_then (d == 100)
      (rd buf 1 >>= λ one. and_then (one == 49) (rd buf (len - 1) >>= λ e. some (e == 101))))

unfoldable pub is_discord_ip_discovery_request : List ℕ → ℕ → Option Bool
unfolding mem_equal
is_discord_ip_discovery_request buf len = and_then (len == 74) (
    rd buf 0 >>= λ b0. and_then (b0 == 0) (
      rd buf 1 >>= λ b1. and_then (b1 == 1) (
        rd buf 2 >>= λ b2.
        and_then (b2 == 0)
          (rd buf 3 >>= λ b3. and_then (b3 == 70) (mem_equal buf 8 (replicate 64 0))))))

unfoldable pub is_stun_message : List ℕ → ℕ → Option Bool
unfolding pntoh16 pntoh32
is_stun_message buf len = and_then (leb 20 len) (
    rd buf 0 >>= λ b0. and_then (b0 / 64 == 0) (
      rd buf 3 >>= λ b3. and_then (b3 % 4 == 0) (
        pntoh32 buf 4 >>= λ cookie.
        and_then (cookie == 554869826) (pntoh16 buf 2 >>= λ l. some (leb l (len - 20))))))
