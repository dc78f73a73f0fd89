-- ===== src/Protocol/Tls/Positions.antt =====
-- The split positions of a TLS packet are 0 or an index of the packet.
use fog_prime.Base.{
  ℕ, ◌+◌, ◌-◌, ◌≤◌, ◌≡◌, refl, Bool, true, false, ◌==◌, ltb, leb, if◌then◌else◌, List, length,
  Option, none, some, byte, rd_lem, Ensures, Ensures-bind, Ensures-weaken, Ensures-rd,
  Ensures-and_then, arith, Bool-cases, inl, inr, ◌>>=◌,
}
use fog_prime.Protocol.Marker.{
  ℤ, shift, Marker, abs, host, host_end, host_sld, host_midsld, host_endsld, http_method, sni_ext,
  host_pos,
}
use fog_prime.Protocol.Marker.Domain.{IsPos, check_pos-IsPos}
use fog_prime.Protocol.Marker.Bounds.{any_proto_pos-IsPos, host_pos_lem}
use fog_prime.Protocol.Tls.{
  tls_record_len, is_tls_client_hello, tls_find_ext, tls_find_ext_in_handshake,
  tls_advance_to_host_in_sni, tls_pos_in_ext, is_tls_marker, tls_pos,
}
use fog_prime.Protocol.Tls.Extensions.{word, pntoh16_lem, IsExt, tls_find_ext_in_handshake_lem}

module _ (buf : List ℕ) (sz : ℕ) (fits : sz ≤ length buf) where
  abbrev IsHello : Bool → Type 0
  IsHello b = b ≡ true → 6 ≤ sz

  not-IsHello : IsHello false
  not-IsHello q = absurd (ground arith)

  client_hello_lem : Ensures IsHello (is_tls_client_hello buf 0 sz true)
  unfolding is_tls_client_hello
  client_hello_lem = elim (Bool-cases (leb 6 sz)) [
    | inr e ↦ rw (e, Ensures) not-IsHello
    | inl e ↦ rw e (
        Ensures-rd IsHello buf 0 _ (ground arith) (
          Ensures-and_then IsHello (byte buf 0 == 22) _ not-IsHello (
            Ensures-rd IsHello buf (0 + 1) _ (ground arith) (
              Ensures-and_then IsHello (byte buf (0 + 1) == 3) _ not-IsHello (
                Ensures-rd IsHello buf (0 + 2) _ (ground arith) (
                  Ensures-and_then IsHello (leb (byte buf (0 + 2)) 3) _ not-IsHello (
                    Ensures-rd IsHello buf (0 + 5) _ (ground arith) (
                      Ensures-and_then IsHello (byte buf (0 + 5) == 1) _ not-IsHello
                        (λ q. ground arith)))))))))
  ]

  -- An extension of a record ends before the data does.
  abbrev IsFound : Option (ℕ × ℕ) → Type 0
  IsFound none = Unit
  IsFound (some (ext, elen)) = ext + elen ≤ sz

  find_ext_lem : Ensures IsFound (tls_find_ext buf 0 sz 0 true)
  unfolding tls_find_ext tls_record_len
  find_ext_lem =
      Ensures-bind IsHello IsFound (is_tls_client_hello buf 0 sz true) _ client_hello_lem (elim [
        | false ↦ λ h. tt
        | true ↦ λ h.
            let six = h refl in
            rw (pntoh16_lem buf (0 + 3) (omega arith)) (
              in_record (if ltb (word buf (0 + 3) + 5) sz then word buf (0 + 3) + 5 else sz)
                (ground arith) (ground arith))
      ])
    where
      in_record :
          (len : ℕ)
          → 5 ≤ len
          → len ≤ sz
          → Ensures IsFound (tls_find_ext_in_handshake buf (0 + 5) (len - 5) 0 true)
      in_record len five le =
          Ensures-weaken (IsExt buf sz fits 0 (0 + 5 + 44)) IsFound
            (tls_find_ext_in_handshake buf (0 + 5) (len - 5) 0 true)
            (tls_find_ext_in_handshake_lem buf sz fits (0 + 5) (len - 5) 0 true (omega arith)
              (inl refl))
            (elim [ none ↦ λ i. tt | some (ext, elen) ↦ λ (a, b, t, l). b ])

  in_name :
      (m : Marker) (o : ℤ) (ext elen : ℕ)
      → ext + elen ≤ sz
      → Ensures (IsPos sz) (
          tls_advance_to_host_in_sni buf ext elen >>= λ r. elim r [
            | none ↦ some 0
            | some (at, left, len_host) ↦ host_pos m o buf sz at len_host
          ])
  unfolding tls_advance_to_host_in_sni
  in_name m o ext elen h = elim (Bool-cases (leb 5 elen)) [
    | inr e ↦ rw (e, Ensures) (inl refl)
    | inl e ↦
        rw (e, rd_lem buf (ext + 2) (ground arith))
          (elim (Bool-cases (byte buf (ext + 2) == 0)) [
            | inr e' ↦ rw (e', Ensures) (inl refl)
            | inl e' ↦
                rw (e', pntoh16_lem buf (ext + 3) (ground arith))
                  (elim (Bool-cases (leb (word buf (ext + 3)) (elen - 5))) [
                    | inr e2 ↦ rw (e2, Ensures) (inl refl)
                    | inl e2 ↦ rw e2 (host_pos_lem buf sz fits m o (ext + 5) (word buf (ext + 3)))
                  ])
          ])
  ]

  in_ext :
      (m : Marker) (o : ℤ) (ext elen : ℕ)
      → ext + elen ≤ sz
      → Ensures (IsPos sz) (tls_pos_in_ext m o buf sz ext elen)
  unfolding tls_pos_in_ext
  in_ext sni_ext o ext elen h = check_pos-IsPos sz (shift ext o)
  in_ext abs o ext elen h = in_name abs o ext elen h
  in_ext host o ext elen h = in_name host o ext elen h
  in_ext host_end o ext elen h = in_name host_end o ext elen h
  in_ext host_sld o ext elen h = in_name host_sld o ext elen h
  in_ext host_midsld o ext elen h = in_name host_midsld o ext elen h
  in_ext host_endsld o ext elen h = in_name host_endsld o ext elen h
  in_ext http_method o ext elen h = in_name http_method o ext elen h

  pub tls_pos_lem : (m : Marker) (o : ℤ) → Ensures (IsPos sz) (tls_pos m o buf sz)
  unfolding tls_pos
  tls_pos_lem m o = elim (Bool-cases (is_tls_marker m)) [
    | inr e ↦ rw (e, tls_pos, Ensures) (any_proto_pos-IsPos m o sz)
    | inl e ↦
        rw (e, tls_pos)
          (Ensures-bind IsFound (IsPos sz) (tls_find_ext buf 0 sz 0 true) _ find_ext_lem
            (elim [ none ↦ λ h. inl refl | some (ext, elen) ↦ λ h. in_ext m o ext elen h ]))
  ]
