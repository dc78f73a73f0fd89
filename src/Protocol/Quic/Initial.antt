-- ===== src/Protocol/Quic/Initial.antt =====
-- The test for an Initial packet, nfq/protocol.c IsQUICInitial.
use fog_prime.Base.{
  ℕ, ◌+◌, ◌/◌, Bool, ◌==◌, ltb, leb, if◌then◌else◌, List, Option, some, rd, ◌>>=◌, and_then,
}
use fog_prime.Protocol.Quic.{
  tvb_get_size, tvb_get_varint, quic_draft_version, is_quic_v2, quic_extract_version,
}

-- From the payload's length on.
unfoldable pub initial_payload : List ℕ → ℕ → ℕ → Option Bool
unfolding tvb_get_size tvb_get_varint
initial_payload buf len offset = rd buf offset >>= λ b.
    and_then (leb (offset + tvb_get_size b) len)
      (tvb_get_varint buf offset >>= λ (n, sz). some (leb (offset + (tvb_get_size b + sz)) len))

-- From the token's length on.
unfoldable pub initial_token : List ℕ → ℕ → ℕ → Option Bool
unfolding tvb_get_size tvb_get_varint initial_payload
initial_token buf len offset = and_then (ltb offset len) (
    rd buf offset >>= λ b. and_then (leb (offset + tvb_get_size b) len) (
      tvb_get_varint buf offset >>= λ (n, sz).
      and_then (ltb (offset + n + sz) len) (initial_payload buf len (offset + n + sz))))

-- The identifiers of the two ends.
unfoldable pub initial_ids : List ℕ → ℕ → Option Bool
unfolding initial_token
initial_ids buf len = rd buf 5 >>= λ d. and_then (leb d 20) (
    and_then (ltb (5 + (1 + d)) len) (
      rd buf (5 + (1 + d)) >>= λ s.
      and_then (leb s 20) (initial_token buf len (5 + (1 + d) + (1 + s)))))

unfoldable pub is_quic_initial : List ℕ → ℕ → Option Bool
unfolding quic_extract_version quic_draft_version is_quic_v2 initial_ids
is_quic_initial buf len = and_then (leb 128 len) (
    quic_extract_version buf len >>= λ ver. and_then (leb 11 (quic_draft_version ver)) (
      rd buf 0 >>= λ b.
      and_then (b / 16 == (if is_quic_v2 ver then 13 else 12)) (initial_ids buf len)))
