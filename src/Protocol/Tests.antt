-- ===== src/Protocol/Tests.antt =====
-- The theorems about nfq/protocol.c at concrete inputs.
use fog_prime.Base.{
  ℕ, ◌+◌, ◌≤◌, ◌<◌, ◌≡◌, refl, inl, arith, true, List, [], ◌∷◌, ◌++◌, length, replicate, Ensures,
}
use fog_prime.Protocol.Marker.{find_nld}
use fog_prime.Protocol.Marker.Domain.{IsLabel, find_nld_lem}
use fog_prime.Protocol.Tls.Fuel.{Walk, find_ext_loop-Walk}
use fog_prime.Protocol.Tls.{
  find_ext_loop, tls_find_ext_in_handshake, tls_hello_extract_host_from_handshake,
}
use fog_prime.Protocol.Tls.Extensions.{
  IsExt, Fits, tls_find_ext_in_handshake_lem, hello_extract_host_lem,
}
use fog_prime.Protocol.Quic.Defrag.Bounds
use fog_prime.Protocol.Quic.Defrag.{Range, quic_defrag_crypto, merge_ranges, is_one_from_zero}
use fog_prime.Protocol.Quic.Defrag.Merge.{
  SortedFrom, Covered, max_end, merge_ranges-is_one_from_zero,
}

-- "ya.ru"
abbrev domain : List ℕ
domain = 121 ∷ 97 ∷ 46 ∷ 114 ∷ 117 ∷ []

domain-fits : 0 + 5 ≤ length domain
domain-fits = omega arith

find_nld_lem_example : Ensures (IsLabel domain 0 5 domain-fits) (find_nld domain 0 5 2)
find_nld_lem_example = find_nld_lem domain 0 5 domain-fits 2 (omega arith)

-- a ClientHello with one extension, the name "ya"
abbrev hello : List ℕ
hello =
    1
    ∷ 0
    ∷ 0
    ∷ 54
    ∷ 3
    ∷ 3
    ∷ (replicate 32 9
        ++ 0 ∷ 0 ∷ 2 ∷ 19 ∷ 1 ∷ 1 ∷ 0 ∷ 0 ∷ 11 ∷ 0 ∷ 0 ∷ 0 ∷ 7 ∷ 0 ∷ 5 ∷ 0 ∷ 0 ∷ 2 ∷ 121 ∷ 97 ∷ [])

hello-fits : 58 ≤ length hello
hello-fits = omega arith

tls_find_ext_in_handshake_lem_example :
    Ensures (IsExt hello 58 hello-fits 0 (0 + 44)) (tls_find_ext_in_handshake hello 0 58 0 true)
tls_find_ext_in_handshake_lem_example =
    tls_find_ext_in_handshake_lem hello 58 hello-fits 0 58 0 true (omega arith) (inl refl)

hello_extract_host_lem_example :
    Ensures
      (Fits hello 58 hello-fits 256)
      (tls_hello_extract_host_from_handshake hello 0 58 256 true)
hello_extract_host_lem_example =
    hello_extract_host_lem hello 58 hello-fits 0 58 256 true (omega arith) (inl refl) (omega arith)

-- two pieces that overlap
abbrev pieces : List Range
pieces = record { offset = 0; len = 6 } ∷ record { offset = 4; len = 6 } ∷ []

pieces-SortedFrom : SortedFrom 0 pieces
pieces-SortedFrom = (omega arith, (omega arith, tt))

pieces-one : is_one_from_zero (merge_ranges pieces) ≡ true
unfolding is_one_from_zero merge_ranges
pieces-one = refl

seven : 7 < max_end pieces
seven = omega arith

merge_ranges-is_one_from_zero_example : Covered 7 pieces
merge_ranges-is_one_from_zero_example =
    merge_ranges-is_one_from_zero pieces 7 pieces-SortedFrom pieces-one seven

-- a frame of three bytes at 0, and padding
abbrev clear : List ℕ
clear = 6 ∷ 0 ∷ 3 ∷ 1 ∷ 2 ∷ 3 ∷ 0 ∷ []

abbrev keep : List Range → List Range
keep rs = rs

quic_defrag_crypto_lem_example :
    Ensures (Bounds.Fits 20) (quic_defrag_crypto keep clear 7 (replicate 10 0) 20)
quic_defrag_crypto_lem_example =
    Bounds.quic_defrag_crypto_lem keep clear 7 (replicate 10 0) 20 (omega arith) (omega arith)

find_ext_loop-Walk_example : Walk hello 0 47 11 (find_ext_loop hello 11 0 47 11)
find_ext_loop-Walk_example = find_ext_loop-Walk hello 0 11 47 11 (omega arith)
