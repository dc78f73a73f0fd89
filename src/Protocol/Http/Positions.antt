-- ===== src/Protocol/Http/Positions.antt =====
-- The split positions of an HTTP request are 0 or an index of the packet.
use fog_prime.Base.{
  ℕ, zero, suc, ◌+◌, ◌-◌, ◌≤◌, refl, Bool, true, false, not, ◌==◌, ltb, if◌then◌else◌, List, length,
  Option, none, some, rd, byte, rd_lem, Ensures, Ensures-bind, Ensures-weaken, Ensures-rd, arith,
  Bool-cases, inl, inr, ◌>>=◌,
}
use fog_prime.Protocol.Marker.{
  ℤ, shift, Marker, abs, host, host_end, host_sld, host_midsld, host_endsld, http_method, sni_ext,
  check_pos, any_proto_pos, host_pos, is_host_marker,
}
use fog_prime.Protocol.Marker.Domain.{IsPos, check_pos-IsPos}
use fog_prime.Protocol.Marker.Bounds.{any_proto_pos-IsPos, host_pos_lem}
use fog_prime.Protocol.Http.FindHost.{IsHost, find_host_lem}
use fog_prime.Protocol.Http.{
  http_find_host, skip_while, is_blank, is_upper, is_newline, method_pos, line_end, http_host_pos,
  http_pos,
}

skip_while_lem :
    (test : ℕ → Bool) (buf : List ℕ) (left p : ℕ)
    → p + left ≤ length buf
    → Ensures (λ e. (p ≤ e) × (e ≤ p + left)) (skip_while test buf left p)
unfolding skip_while
skip_while_lem test buf zero p h = (omega arith, omega arith)
skip_while_lem test buf (suc left) p h =
    rw (rd_lem buf p (omega arith), skip_while)
      (elim (Bool-cases (test (byte buf p))) [
        | inr e ↦ rw (e, Ensures) (omega arith, omega arith)
        | inl e ↦
            rw (e, Ensures)
              (Ensures-weaken (λ q. (p + 1 ≤ q) × (q ≤ p + 1 + left))
                (λ q. (p ≤ q) × (q ≤ p + suc left)) (skip_while test buf left (p + 1))
                (skip_while_lem test buf left (p + 1) (omega arith))
                (λ q (a, b). (omega arith, omega arith)))
      ])

module _ (buf : List ℕ) (sz : ℕ) (fits : sz + 2 ≤ length buf) where
  any_host : Ensures (λ (o : Option ℕ). Unit {0}) (http_find_host none buf sz)
  any_host =
      Ensures-weaken (IsHost sz) (λ (o : Option ℕ). Unit {0}) (http_find_host none buf sz)
        (find_host_lem buf sz (omega arith)) (λ o h. tt)

  scan :
      (left at : ℕ)
      → at + left ≤ sz
      → Ensures (λ (n : ℕ). Unit {0}) (skip_while (λ c. not (is_newline c)) buf left at)
  scan left at h =
      Ensures-weaken (λ e. (at ≤ e) × (e ≤ at + left)) (λ (n : ℕ). Unit {0})
        (skip_while (λ c. not (is_newline c)) buf left at)
        (skip_while_lem (λ c. not (is_newline c)) buf left at (omega arith)) (λ e u. tt)

  line_end_lem :
      (m : Marker) (left at : ℕ)
      → at + left ≤ sz
      → Ensures (λ (n : ℕ). Unit {0}) (line_end m buf left at)
  unfolding line_end
  line_end_lem host left at h = tt
  line_end_lem abs left at h = scan left at h
  line_end_lem host_end left at h = scan left at h
  line_end_lem host_sld left at h = scan left at h
  line_end_lem host_midsld left at h = scan left at h
  line_end_lem host_endsld left at h = scan left at h
  line_end_lem http_method left at h = scan left at h
  line_end_lem sni_ext left at h = scan left at h

  in_line : (m : Marker) (o : ℤ) (h : ℕ) → Ensures (IsPos sz) (http_host_pos m o buf sz h)
  unfolding http_host_pos
  in_line m o h = elim (Bool-cases (ltb (h + 7) sz)) [
    | inr e ↦ rw (e, http_host_pos, Ensures) (inl refl)
    | inl e ↦
        rw (e, http_host_pos)
          (Ensures-rd (IsPos sz) buf (h + 5) _ (ground arith)
            (from (if is_blank (byte buf (h + 5)) then h + 6 else h + 5) (ground arith)))
  ]
    where
      from :
          (at : ℕ)
          → at ≤ sz
          → Ensures
              (IsPos sz)
              (line_end m buf (sz - at) at >>= λ end. host_pos m o buf sz at (end - at))
      from at le =
          Ensures-bind (λ (n : ℕ). Unit {0}) (IsPos sz) (line_end m buf (sz - at) at) _
            (line_end_lem m (sz - at) at (omega arith))
            (λ end u. host_pos_lem buf sz (omega arith) m o at (end - at))

  method_pos_lem : (o : ℤ) → Ensures (IsPos sz) (method_pos o buf sz)
  unfolding method_pos
  method_pos_lem o = elim (Bool-cases (ltb sz 10)) [
    | inl e ↦ rw (e, method_pos, Ensures) (inl refl)
    | inr e ↦
        rw (e, method_pos)
          (Ensures-rd (IsPos sz) buf 0 _ (ground arith)
            (second (if is_newline (byte buf 0) then 1 else 0) (ground arith) (ground arith)))
  ]
    where
      letters :
          (m2 : ℕ)
          → 10 ≤ sz
          → m2 ≤ 2
          → Ensures (IsPos sz) (
              skip_while is_upper buf 9 m2 >>= λ p. elim (ltb (p - m2) 3) [
                | true ↦ some 0
                | false ↦ rd buf p >>= λ c. some (if c == 32 then check_pos sz (shift m2 o) else 0)
              ])
      letters m2 ten le =
          Ensures-bind (λ e. (m2 ≤ e) × (e ≤ m2 + 9)) (IsPos sz) (skip_while is_upper buf 9 m2) _
            (skip_while_lem is_upper buf 9 m2 (omega arith))
            (λ p (a, b). elim (Bool-cases (ltb (p - m2) 3)) [
              | inl q ↦ rw (q, Ensures) (inl refl)
              | inr q ↦ rw q (
                  Ensures-rd (IsPos sz) buf p _ (ground arith)
                    (elim (Bool-cases (byte buf p == 32)) [
                      | inl c ↦ rw (c, Ensures) (check_pos-IsPos sz (shift m2 o))
                      | inr c ↦ rw (c, Ensures) (inl refl)
                    ]))
            ])

      second :
          (m1 : ℕ)
          → 10 ≤ sz
          → m1 ≤ 1
          → Ensures (IsPos sz) (
              rd buf m1 >>= λ c1.
              (let m2 = if is_newline c1 then m1 + 1 else m1 in
                skip_while is_upper buf 9 m2 >>= λ p. elim (ltb (p - m2) 3) [
                  | true ↦ some 0
                  | false ↦
                      rd buf p >>= λ c. some (if c == 32 then check_pos sz (shift m2 o) else 0)
                ]))
      second m1 ten le =
          Ensures-rd (IsPos sz) buf m1 _ (omega arith)
            (letters (if is_newline (byte buf m1) then m1 + 1 else m1) ten (ground arith))

  -- For the markers of the host.
  in_request :
      (m : Marker) (o : ℤ)
      → Ensures (IsPos sz) (elim (is_host_marker m) [
        | false ↦ some (any_proto_pos m o sz)
        | true ↦ http_find_host none buf sz >>= λ r. elim r [
          | none ↦ some 0
          | some h ↦ http_host_pos m o buf sz h
        ]
      ])
  in_request m o = elim (Bool-cases (is_host_marker m)) [
    | inr e ↦ rw (e, Ensures) (any_proto_pos-IsPos m o sz)
    | inl e ↦ rw e (
        Ensures-bind (λ (r : Option ℕ). Unit {0}) (IsPos sz) (http_find_host none buf sz) _ any_host
          (elim [ none ↦ λ u. inl refl | some h ↦ λ u. in_line m o h ]))
  ]

  pub http_pos_lem : (m : Marker) (o : ℤ) → Ensures (IsPos sz) (http_pos m o buf sz)
  unfolding http_pos
  http_pos_lem http_method o = method_pos_lem o
  http_pos_lem abs o = in_request abs o
  http_pos_lem host o = in_request host o
  http_pos_lem host_end o = in_request host_end o
  http_pos_lem host_sld o = in_request host_sld o
  http_pos_lem host_midsld o = in_request host_midsld o
  http_pos_lem host_endsld o = in_request host_endsld o
  http_pos_lem sni_ext o = in_request sni_ext o
