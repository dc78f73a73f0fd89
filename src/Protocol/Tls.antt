-- ===== src/Protocol/Tls.antt =====
-- TLS records, nfq/protocol.c: the ClientHello, its extensions, the server name. A function that
-- takes a pointer takes a position `at` of the buffer here.
pub mod Extensions
pub mod Positions
pub mod Fuel
use fog_prime.Base.{
  ℕ, zero, suc, ◌+◌, ◌-◌, ◌*◌, ◌^◌, Bool, true, false, ◌||◌, ◌&&◌, ◌==◌, not, ltb, leb, min,
  if◌then◌else◌, List, [], ◌∷◌, Option, none, some, rd, ◌>>=◌, and_then, or_else,
}
use fog_prime.Helpers.Bytes.{pntoh16}
use fog_prime.Protocol.Marker.{
  ℤ, shift, Marker, host, host_end, host_sld, host_midsld, host_endsld, sni_ext, is_host_marker,
  check_pos, any_proto_pos, host_pos,
}

unfoldable pub tls_record_len : List ℕ → ℕ → Option ℕ
unfolding pntoh16
tls_record_len buf at = do l ← pntoh16 buf (at + 3); some (l + 5)

unfoldable pub is_tls_record_full : List ℕ → ℕ → ℕ → Option Bool
unfolding tls_record_len
is_tls_record_full buf at len = do l ← tls_record_len buf at; some (leb l len)

unfoldable pub is_tls_client_hello : List ℕ → ℕ → ℕ → Bool → Option Bool
unfolding tls_record_len
is_tls_client_hello buf at len partial_ok = and_then (leb 6 len) (do
  b0 ← rd buf at
  and_then (b0 == 22) (do
    b1 ← rd buf (at + 1)
    and_then (b1 == 3) (do
      b2 ← rd buf (at + 2)
      and_then (leb b2 3) (do
        b5 ← rd buf (at + 5)
        and_then (b5 == 1) (or_else partial_ok (do l ← tls_record_len buf at; some (leb l len)))))))

-- data[1] << 16 | data[2] << 8 | data[3], on bytes.
unfoldable pub tls_handshake_len : List ℕ → ℕ → Option ℕ
tls_handshake_len buf at = do
  a ← rd buf (at + 1)
  b ← rd buf (at + 2)
  c ← rd buf (at + 3)
  some (a * 2 ^ 16 + b * 2 ^ 8 + c)

unfoldable pub is_tls_handshake_client_hello : List ℕ → ℕ → ℕ → Option Bool
unfolding tls_handshake_len
is_tls_handshake_client_hello buf at len =
    and_then (leb 4 len)
      (do b ← rd buf at; and_then (b == 1) (do l ← tls_handshake_len buf at; some (ltb 0 l)))

unfoldable pub is_tls_handshake_full : List ℕ → ℕ → ℕ → Option Bool
unfolding tls_handshake_len
is_tls_handshake_full buf at len = do l ← tls_handshake_len buf at; some (leb (4 + l) len)

-- A computation that goes on with the `some`, and returns false (`none` inside) elsewhere.
abbrev pub guarded {ℓ} : {A : Type ℓ} → Bool → Option (Option A) → Option (Option A)
guarded true m = m
guarded false m = some none

-- The offset of the extensions' length.
unfoldable pub tls_find_ext_len_offset_in_handshake : List ℕ → ℕ → ℕ → Option (Option ℕ)
unfolding pntoh16
tls_find_ext_len_offset_in_handshake buf at len = guarded (leb 39 len) (do
  session ← rd buf (at + 38)
  let l1 = 38 + session + 1
  guarded (leb (l1 + 2) len) (do
    ciphers ← pntoh16 buf (at + l1)
    let l2 = l1 + ciphers + 2
    guarded (leb (l2 + 1) len) (do
      compression ← rd buf (at + l2)
      let l3 = l2 + compression + 1
      guarded (leb (l3 + 2) len) (some (some l3)))))

-- The loop over the extensions; at most one round for each byte of `l`.
unfoldable pub find_ext_loop : List ℕ → ℕ → ℕ → ℕ → ℕ → Option (Option (ℕ × ℕ))
unfolding pntoh16
find_ext_loop buf zero type at l = some none
find_ext_loop buf (suc fuel) type at l = elim (leb 4 l) [
  | false ↦ some none
  | true ↦ pntoh16 buf at >>= λ etype. pntoh16 buf (at + 2) >>= λ elen. elim (ltb (l - 4) elen) [
    | true ↦ some none
    | false ↦ elim (etype == type) [
      | true ↦ some (some (at + 4, elen))
      | false ↦ find_ext_loop buf fuel type (at + 4 + elen) (l - 4 - elen)
    ]
  ]
]

-- From the extensions' length on, with `len` bytes left.
unfoldable pub find_ext_from : List ℕ → ℕ → ℕ → ℕ → Bool → Option (Option (ℕ × ℕ))
unfolding pntoh16 find_ext_loop
find_ext_from buf at len type partial_ok = pntoh16 buf at >>= λ l. elim partial_ok [
  | true ↦ find_ext_loop buf l type (at + 2) (min (len - 2) l)
  | false ↦ elim (ltb (len - 2) l) [
    | true ↦ some none
    | false ↦ find_ext_loop buf l type (at + 2) l
  ]
]

-- The extension of a type: its position and its length.
unfoldable pub tls_find_ext_in_handshake : List ℕ → ℕ → ℕ → ℕ → Bool → Option (Option (ℕ × ℕ))
unfolding is_tls_handshake_full tls_find_ext_len_offset_in_handshake find_ext_from
tls_find_ext_in_handshake buf at len type partial_ok =
    or_else partial_ok (is_tls_handshake_full buf at len) >>= λ full. guarded full (
      tls_find_ext_len_offset_in_handshake buf at len >>= λ o. elim o [
        | none ↦ some none
        | some l ↦ find_ext_from buf (at + l) (len - l) type partial_ok
      ])

unfoldable pub tls_find_ext : List ℕ → ℕ → ℕ → ℕ → Bool → Option (Option (ℕ × ℕ))
unfolding is_tls_client_hello tls_record_len tls_find_ext_in_handshake
tls_find_ext buf at len type partial_ok = is_tls_client_hello buf at len partial_ok >>= λ hello.
    guarded hello (
      tls_record_len buf at >>= λ reclen.
      tls_find_ext_in_handshake buf (at + 5) ((if ltb reclen len then reclen else len) - 5) type
        partial_ok)

-- The position of the name, the bytes left of the extension, and the length of the name. The code
-- moves its arguments also where the name does not fit; its callers do not look then.
unfoldable pub tls_advance_to_host_in_sni : List ℕ → ℕ → ℕ → Option (Option (ℕ × ℕ × ℕ))
unfolding pntoh16
tls_advance_to_host_in_sni buf ext elen = guarded (leb 5 elen) (
    rd buf (ext + 2) >>= λ kind. guarded (kind == 0) (
      pntoh16 buf (ext + 3) >>= λ slen.
      some (if leb slen (elen - 5) then some (ext + 5, elen - 5, slen) else none)))

-- tolower in the C locale.
abbrev pub tolower : ℕ → ℕ
tolower c = if leb 65 c && leb c 90 then c + 32 else c

-- `n` bytes from `at` on, in lower case.
unfoldable pub copy_lower : List ℕ → ℕ → ℕ → Option (List ℕ)
copy_lower buf at zero = some []
copy_lower buf at (suc n) =
    rd buf at >>= λ c. copy_lower buf (at + 1) n >>= λ rest. some (tolower c ∷ rest)

-- The host as a string without its final 0, cut to what a buffer of `len_host` > 0 bytes holds.
unfoldable pub tls_extract_host_from_ext : List ℕ → ℕ → ℕ → ℕ → Option (Option (List ℕ))
unfolding tls_advance_to_host_in_sni copy_lower
tls_extract_host_from_ext buf ext elen len_host = tls_advance_to_host_in_sni buf ext elen >>= λ o.
    elim o [
      | none ↦ some none
      | some (at, left, slen) ↦
          copy_lower buf at (if leb len_host slen then len_host - 1 else slen) >>= λ name.
          some (some name)
    ]

unfoldable pub tls_hello_extract_host : List ℕ → ℕ → ℕ → ℕ → Bool → Option (Option (List ℕ))
unfolding tls_find_ext tls_extract_host_from_ext
tls_hello_extract_host buf at len len_host partial_ok =
    tls_find_ext buf at len 0 partial_ok >>= λ o. elim o [
      | none ↦ some none
      | some (ext, elen) ↦ tls_extract_host_from_ext buf ext elen len_host
    ]

unfoldable pub tls_hello_extract_host_from_handshake :
    List ℕ → ℕ → ℕ → ℕ → Bool → Option (Option (List ℕ))
unfolding tls_find_ext_in_handshake tls_extract_host_from_ext
tls_hello_extract_host_from_handshake buf at len len_host partial_ok =
    tls_find_ext_in_handshake buf at len 0 partial_ok >>= λ o. elim o [
      | none ↦ some none
      | some (ext, elen) ↦ tls_extract_host_from_ext buf ext elen len_host
    ]

-- The rest of TLSPos where the extension is found.
unfoldable pub tls_pos_in_ext : Marker → ℤ → List ℕ → ℕ → ℕ → ℕ → Option ℕ
unfolding check_pos shift tls_advance_to_host_in_sni host_pos
tls_pos_in_ext sni_ext o buf sz ext elen = some (check_pos sz (shift ext o))
tls_pos_in_ext m o buf sz ext elen = tls_advance_to_host_in_sni buf ext elen >>= λ r. elim r [
  | none ↦ some 0
  | some (at, left, len_host) ↦ host_pos m o buf sz at len_host
]

abbrev pub is_tls_marker : Marker → Bool
is_tls_marker sni_ext = true
is_tls_marker m = is_host_marker m

-- TLS_PARTIALS_ENABLE is true; the data is the buffer from its start.
unfoldable pub tls_pos : Marker → ℤ → List ℕ → ℕ → Option ℕ
unfolding tls_find_ext tls_pos_in_ext any_proto_pos
tls_pos m o buf sz = elim (is_tls_marker m) [
  | false ↦ some (any_proto_pos m o sz)
  | true ↦ tls_find_ext buf 0 sz 0 true >>= λ r. elim r [
    | none ↦ some 0
    | some (ext, elen) ↦ tls_pos_in_ext m o buf sz ext elen
  ]
]
