-- ===== src/Protocol/Marker/Bounds.antt =====
-- The position that a marker of the host stands for is 0 or an index of the data.
use fog_prime.Base.{
  ℕ, zero, suc, ◌+◌, ◌≤◌, refl, true, false, leb, List, length, none, some, Ensures, Ensures-bind,
  Ensures-weaken, arith, Bool-cases, inl, inr, ◌>>=◌,
}
use fog_prime.Protocol.Marker.{
  ℤ, pos, negsuc, shift, Marker, abs, host, host_end, host_sld, host_midsld, host_endsld,
  http_method, sni_ext, check_pos, any_proto_pos, up_levels, find_nld, sld_offset, host_pos,
}
use fog_prime.Protocol.Marker.Domain.{IsPos, check_pos-IsPos, IsLabel, find_nld_lem}

pub any_proto_pos-IsPos : (m : Marker) (o : ℤ) (sz : ℕ) → IsPos sz (any_proto_pos m o sz)
unfolding any_proto_pos
any_proto_pos-IsPos abs (pos n) sz = check_pos-IsPos sz (pos n)
any_proto_pos-IsPos abs (negsuc n) sz = check_pos-IsPos sz (shift sz (negsuc n))
any_proto_pos-IsPos host o sz = inl refl
any_proto_pos-IsPos host_end o sz = inl refl
any_proto_pos-IsPos host_sld o sz = inl refl
any_proto_pos-IsPos host_midsld o sz = inl refl
any_proto_pos-IsPos host_endsld o sz = inl refl
any_proto_pos-IsPos http_method o sz = inl refl
any_proto_pos-IsPos sni_ext o sz = inl refl

module _ (buf : List ℕ) (sz : ℕ) (fits : sz ≤ length buf) where
  -- The second level domain is found without a fault, also in an empty domain.
  second_level :
      (dom dlen : ℕ) → dom + dlen ≤ sz → Ensures (λ o. Unit {0}) (find_nld buf dom dlen 2)
  unfolding find_nld up_levels
  second_level dom zero h = tt
  second_level dom (suc n) h =
      Ensures-weaken (IsLabel buf dom (suc n) inside) (λ o. Unit {0}) (find_nld buf dom (suc n) 2)
        (find_nld_lem buf dom (suc n) inside 2 (omega arith)) (λ o l. tt)
    where
      inside : dom + suc n ≤ length buf
      inside = omega arith

  -- The rest of host_pos, for a marker of the second level domain.
  sld_pos :
      (m : Marker) (o : ℤ) (at len : ℕ)
      → Ensures (IsPos sz) (elim (leb (at + len) sz) [
        | false ↦ some (check_pos sz (pos 0))
        | true ↦ find_nld buf at len 2 >>= λ r. elim r [
          | none ↦ some (check_pos sz (pos 0))
          | some (p, slen) ↦ some (check_pos sz (shift (sld_offset m p slen) o))
        ]
      ])
  sld_pos m o at len = elim (Bool-cases (leb (at + len) sz)) [
    | inr e ↦ rw (e, Ensures) (check_pos-IsPos sz (pos 0))
    | inl e ↦ rw e (
        Ensures-bind (λ r. Unit {0}) (IsPos sz) (find_nld buf at len 2) _
          (second_level at len (ground arith))
          (elim [
            | none ↦ λ u. check_pos-IsPos sz (pos 0)
            | some (p, slen) ↦ λ u. check_pos-IsPos sz (shift (sld_offset m p slen) o)
          ]))
  ]

  pub host_pos_lem :
      (m : Marker) (o : ℤ) (at len : ℕ) → Ensures (IsPos sz) (host_pos m o buf sz at len)
  unfolding host_pos
  host_pos_lem host o at len = check_pos-IsPos sz (shift at o)
  host_pos_lem host_end o at len = check_pos-IsPos sz (shift (at + len) o)
  host_pos_lem abs o at len = sld_pos abs o at len
  host_pos_lem host_sld o at len = sld_pos host_sld o at len
  host_pos_lem host_midsld o at len = sld_pos host_midsld o at len
  host_pos_lem host_endsld o at len = sld_pos host_endsld o at len
  host_pos_lem http_method o at len = sld_pos http_method o at len
  host_pos_lem sni_ext o at len = sld_pos sni_ext o at len
