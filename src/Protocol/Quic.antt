-- ===== src/Protocol/Quic.antt =====
-- QUIC packets, nfq/protocol.c: variable-length integers, versions, the long header, the frame with
-- a ClientHello. The keys and the decryption are not modelled.
pub mod Varint
pub mod Initial
pub mod Defrag
use fog_prime.Base.{
  ℕ, zero, suc, ◌+◌, ◌-◌, ◌*◌, ◌/◌, ◌%◌, ◌^◌, Bool, true, false, ◌||◌, ◌&&◌, ◌==◌, not, ltb, leb,
  if◌then◌else◌, List, [], ◌∷◌, Option, none, some, rd, ◌>>=◌, and_then, or_else, bit_and,
}
use fog_prime.Helpers.Bytes.{pntoh16, pntoh32, pntoh64}
use fog_prime.Protocol.Tls.{guarded, is_tls_handshake_client_hello}

-- `1 << (tvb >> 6)`
unfoldable pub tvb_get_size : ℕ → ℕ
tvb_get_size b = 2 ^ (b / 64)

-- The number of bytes and the value; the last case of the switch is the one with all bits set.
unfoldable pub tvb_get_varint : List ℕ → ℕ → Option (ℕ × ℕ)
unfolding pntoh16 pntoh32 pntoh64
tvb_get_varint buf at = rd buf at >>= λ b.
    if b / 64 == 0
    then some (1, b % 64)
    else (if b / 64 == 1
        then (pntoh16 buf at >>= λ v. some (2, v % 2 ^ 14))
        else (if b / 64 == 2
            then (pntoh32 buf at >>= λ v. some (4, v % 2 ^ 30))
            else (if b / 64 == 3
                then (pntoh64 buf at >>= λ v. some (8, v % 2 ^ 62))
                else some (0, 0))))

-- The second number and the body of the frame, from `offset` on.
unfoldable pub crypto_body : List ℕ → ℕ → ℕ → ℕ → Option (Option (ℕ × ℕ))
unfolding tvb_get_size tvb_get_varint is_tls_handshake_client_hello
crypto_body buf at len offset = rd buf (at + offset) >>= λ b.
    guarded (ltb (offset + tvb_get_size b) len) (
      tvb_get_varint buf (at + offset) >>= λ (n, clen). guarded (leb (offset + n + clen) len) (
        is_tls_handshake_client_hello buf (at + offset + n) clen >>= λ hello.
        some (if hello then some (offset + n, clen) else none)))

-- The offset and the length of the ClientHello. The sums stay below 2 ^ 64: a varint is below 2 ^ 62.
unfoldable pub is_quic_crypto_hello : List ℕ → ℕ → ℕ → Option (Option (ℕ × ℕ))
unfolding tvb_get_size tvb_get_varint crypto_body
is_quic_crypto_hello buf at len = guarded (leb 3 len) (
    rd buf at >>= λ frame. guarded (frame == 6) (
      rd buf (at + 1) >>= λ b. guarded (ltb (1 + tvb_get_size b) len) (
        tvb_get_varint buf (at + 1) >>= λ (n, coff).
        guarded (coff == 0) (crypto_body buf at len (1 + n)))))

-- The draft's number, 0 for no draft.
unfoldable pub quic_draft_version : ℕ → ℕ
quic_draft_version version =
    if version / 2 ^ 8 == 16711680
    then version % 2 ^ 8
    else (if version == 4207849473
        then 22
        else (if version == 4207849474 || version == 4207849486
            then 27
            else (if version == 1362113840 || version == 1412445488 || version == 1412445489
                then 27
                else (if bit_and version 252645135 == 168430090
                    then 29
                    else (if version == 1
                        then 34
                        else (if version == 1889161412 || version == 1798521807
                            then 100
                            else 0))))))

unfoldable pub is_quic_draft_max : ℕ → ℕ → Bool
is_quic_draft_max draft_version max_version =
    not (draft_version == 0) && leb draft_version max_version

unfoldable pub is_quic_v2 : ℕ → Bool
is_quic_v2 version = version == 1889161412 || version == 1798521807

-- The salts of quic_derive_initial_secret, by the name of the table.
pub data Salt : Type 0 where
  draft_q50 draft_t50 draft_t51 draft_22 draft_23 draft_29 v1 v2 : Salt

unfoldable pub initial_salt : ℕ → Salt
unfolding quic_draft_version is_quic_draft_max
initial_salt version =
    let draft = quic_draft_version version in
    if version == 1362113840
    then draft_q50
    else (if version == 1412445488
        then draft_t50
        else (if version == 1412445489
            then draft_t51
            else (if is_quic_draft_max draft 22
                then draft_22
                else (if is_quic_draft_max draft 28
                    then draft_23
                    else (if is_quic_draft_max draft 32
                        then draft_29
                        else (if is_quic_draft_max draft 34 then v1 else v2))))))

-- `*data & 0x80`
unfoldable pub quic_is_long_header : List ℕ → ℕ → Option Bool
quic_is_long_header buf len = and_then (leb 9 len) (rd buf 0 >>= λ b. some (leb 128 b))

unfoldable pub quic_extract_version : List ℕ → ℕ → Option ℕ
unfolding quic_is_long_header pntoh32
quic_extract_version buf len =
    quic_is_long_header buf len >>= λ long. elim long [ true ↦ pntoh32 buf 1 | false ↦ some 0 ]

-- `n` bytes from `at` on.
unfoldable pub copy : List ℕ → ℕ → ℕ → Option (List ℕ)
copy buf at zero = some []
copy buf at (suc n) = rd buf at >>= λ c. copy buf (at + 1) n >>= λ rest. some (c ∷ rest)

-- QUIC_MAX_CID_LENGTH is 20.
unfoldable pub quic_extract_dcid : List ℕ → ℕ → Option (Option (List ℕ))
unfolding quic_is_long_header copy
quic_extract_dcid buf len = quic_is_long_header buf len >>= λ long. guarded long (
    rd buf 5 >>= λ n.
    guarded (not (n == 0) && leb n 20 && leb (6 + n) len) (copy buf 6 n >>= λ cid. some (some cid)))
