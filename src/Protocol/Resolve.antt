-- ===== src/Protocol/Resolve.antt =====
-- Split positions of a packet, nfq/protocol.c ResolvePos and ResolveMultiPos.
pub mod Order
mod Tests
use fog_prime.Base.{
  ℕ, Bool, ◌==◌, not, if◌then◌else◌, List, [], ◌∷◌, Option, some, ◌>>=◌, bit_and, length, take,
}
use fog_prime.Helpers.Unique.{unique_size_t}
use fog_prime.Protocol.Marker.{ℤ, Marker, any_proto_pos}
use fog_prime.Protocol.Http.{http_pos}
use fog_prime.Protocol.Tls.{tls_pos}

-- t_l7proto
pub data L7proto : Type 0 where
  unknown http tls quic wireguard dht discord stun : L7proto

-- The bits L7_PROTO_*.
abbrev pub l7_bit : L7proto → ℕ
l7_bit http = 1
l7_bit tls = 2
l7_bit quic = 4
l7_bit wireguard = 8
l7_bit dht = 16
l7_bit discord = 32
l7_bit stun = 64
l7_bit unknown = 2147483648

unfoldable pub l7_proto_match : L7proto → ℕ → Bool
l7_proto_match l7 filter = not (bit_and filter (l7_bit l7) == 0)

-- struct proto_pos
pub record ProtoPos : Type 0 where
  pub marker : Marker
  pub offset : ℤ

unfoldable pub resolve_pos : List ℕ → ℕ → L7proto → ProtoPos → Option ℕ
unfolding http_pos tls_pos any_proto_pos
resolve_pos buf sz http sp = http_pos sp.marker sp.offset buf sz
resolve_pos buf sz tls sp = tls_pos sp.marker sp.offset buf sz
resolve_pos buf sz _ sp = some (any_proto_pos sp.marker sp.offset sz)

-- The loop: the positions other than 0, in the order of the splits.
unfoldable pub resolve_loop : List ℕ → ℕ → L7proto → List ProtoPos → Option (List ℕ)
unfolding resolve_pos
resolve_loop buf sz l7 [] = some []
resolve_loop buf sz l7 (sp ∷ splits) = resolve_pos buf sz l7 sp >>= λ p.
    resolve_loop buf sz l7 splits >>= λ rest. some (if p == 0 then rest else p ∷ rest)

-- `qsort` sorts in ascending order. The first `j` of the array are the result.
unfoldable pub resolve_multi_pos :
    (List ℕ → List ℕ) → List ℕ → ℕ → L7proto → List ProtoPos → Option (List ℕ)
unfolding resolve_loop unique_size_t
resolve_multi_pos qsort buf sz l7 splits = resolve_loop buf sz l7 splits >>= λ found.
    let sorted = qsort found in some (first (unique_size_t sorted (length sorted)))
  where
    first : ℕ × List ℕ → List ℕ
    first (j, pu) = take j pu
