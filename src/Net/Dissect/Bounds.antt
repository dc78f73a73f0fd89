-- ===== src/Net/Dissect/Bounds.antt =====
-- Dissection reads inside the packet, and what it finds lies inside the packet.
use fog_prime.Base.{
  ℕ, zero, suc, ◌+◌, ◌*◌, ◌/◌, ◌%◌, ◌≤◌, ◌<◌, ◌≡◌, refl, Bool, true, false, ◌||◌, ◌==◌, ltb, leb,
  List, length, Option, none, some, byte, rd_lem, and_then, Ensures, Ensures-bind, Ensures-and_then,
  arith, Bool-cases, inl, inr,
}
use fog_prime.Net.Dissect.{
  Window, skip, proto_check_ipv4, proto_skip_ipv4, proto_check_tcp, proto_skip_tcp, proto_check_udp,
  proto_skip_udp, proto_check_ipv6, Skipped, is_extension, ext_len, is_payload, skip_ipv6_loop,
  proto_skip_ipv6, Network, v4, v6, Transport, Dissected, dissect_l4, proto_dissect_l3l4,
}

module _ (buf : List ℕ) (end : ℕ) (fits : end ≤ length buf) where
  -- The window ends where the packet ends.
  abbrev pub Inside : Window → Type 0
  Inside w = w.at + w.len ≡ end

  check_ipv4_lem :
      (w : Window)
      → Inside w
      → Ensures
          (λ b. b ≡ true → (20 ≤ w.len) × (byte buf w.at % 16 * 4 ≤ w.len))
          (proto_check_ipv4 buf w)
  unfolding proto_check_ipv4
  check_ipv4_lem w i = elim (Bool-cases (leb 20 w.len)) [
    | inr e ↦ rw (e, Ensures) (λ q. cc)
    | inl e ↦ rw (e, Ensures, rd_lem buf w.at (ground arith)) (λ q. (ground arith, ground arith))
  ]

  check_tcp_lem :
      (w : Window)
      → Inside w
      → Ensures
          (λ b. b ≡ true → (20 ≤ w.len) × (byte buf (w.at + 12) / 16 * 4 ≤ w.len))
          (proto_check_tcp buf w)
  unfolding proto_check_tcp
  check_tcp_lem w i = elim (Bool-cases (leb 20 w.len)) [
    | inr e ↦ rw (e, Ensures) (λ q. cc)
    | inl e ↦
        rw (e, Ensures, rd_lem buf (w.at + 12) (ground arith)) (λ q. (ground arith, ground arith))
  ]

  check_udp_lem :
      (w : Window) → Inside w → Ensures (λ b. b ≡ true → 8 ≤ w.len) (proto_check_udp buf w)
  unfolding proto_check_udp
  check_udp_lem w i = elim (Bool-cases (leb 8 w.len)) [
    | inr e ↦ rw (e, Ensures) (λ q. cc)
    | inl e ↦
        rw
          (
            e,
            Ensures,
            rd_lem buf (w.at + 4) (ground arith),
            rd_lem buf (w.at + 4 + 1) (ground arith),
          )
          (λ q. ground arith)
  ]

  check_ipv6_lem :
      (w : Window) → Inside w → Ensures (λ b. b ≡ true → 40 ≤ w.len) (proto_check_ipv6 buf w)
  unfolding proto_check_ipv6
  check_ipv6_lem w i = elim (Bool-cases (leb 40 w.len)) [
    | inr e ↦ rw (e, Ensures) (λ q. cc)
    | inl e ↦
        rw (e, Ensures, rd_lem buf w.at (ground arith))
          (elim (Bool-cases (byte buf w.at / 16 == 6)) [
            | inr e' ↦ rw (e', Ensures) (λ q. cc)
            | inl e' ↦
                rw
                  (
                    e',
                    Ensures,
                    rd_lem buf (w.at + 4) (ground arith),
                    rd_lem buf (w.at + 4 + 1) (ground arith),
                  )
                  (λ q. ground arith)
          ])
  ]

  ext_len_lem :
      (t at len : ℕ) → at + len ≡ end → 0 < len → Ensures (λ o. Unit {0}) (ext_len buf t at len)
  unfolding ext_len
  ext_len_lem t at len i pos = elim (Bool-cases (is_extension t || t == 51)) [
    | inr e ↦ elim (Bool-cases (t == 44)) [
      | inl e' ↦ rw (e, e', Ensures) tt
      | inr e' ↦ rw (e, e', Ensures) tt
    ]
    | inl e ↦ elim (Bool-cases (ltb len 2)) [
      | inl e' ↦ rw (e, e', Ensures) tt
      | inr e' ↦ rw (e, e', Ensures, rd_lem buf (at + 1) (ground arith)) tt
    ]
  ]

  -- The walk over the IPv6 headers.
  skip_ipv6_loop_lem :
      (fuel t : ℕ) (s : Skipped)
      → Inside s.window
      → Ensures (λ s'. Inside s'.window) (skip_ipv6_loop buf fuel t s)
  unfolding skip_ipv6_loop
  skip_ipv6_loop_lem zero t s i = i
  skip_ipv6_loop_lem (suc fuel) t s i = elim (Bool-cases (ltb 0 s.window.len)) [
    | inr e ↦ rw (e, Ensures, skip_ipv6_loop) i
    | inl e ↦ elim (Bool-cases (is_payload t)) [
      | inl e' ↦ rw (e, e', Ensures, skip_ipv6_loop) i
      | inr e' ↦
          rw (e, e', skip_ipv6_loop)
            (Ensures-bind (λ o. Unit {0}) (λ s'. Inside s'.window)
              (ext_len buf t s.window.at s.window.len) _
              (ext_len_lem t s.window.at s.window.len i (ground arith))
              (elim [
                | none ↦ λ _. i
                | some hdrlen ↦ λ _. elim (Bool-cases (ltb s.window.len hdrlen)) [
                  | inl e2 ↦ rw (e2, Ensures) i
                  | inr e2 ↦
                      rw (e2, Ensures, rd_lem buf s.window.at (ground arith))
                        (skip_ipv6_loop_lem fuel (byte buf s.window.at)
                          (record s {
                            window = skip hdrlen s.window;
                            last_header_type = s.window.at;
                          })
                          (ground arith))
                ]
              ]))
    ]
  ]

  -- The transport header and the payload end where the packet ends, the payload after the header.
  abbrev pub TransportIn : Window → Option (Transport × Window) → Type 0
  TransportIn p none = Unit
  TransportIn p (some (t, w)) = Inside w × Inside p × (w.at ≤ p.at)

  abbrev pub IsInside : Dissected → Type 0
  IsInside d = TransportIn d.payload d.transport

  -- What is left after `n` bytes.
  skip-Inside : (n : ℕ) (w : Window) → n ≤ w.len → Inside w → Inside (skip n w)
  skip-Inside n w h i = omega arith

  dissect_l4_lem :
      (net : Network) (proto : ℕ) (w : Window)
      → Inside w
      → Ensures IsInside (dissect_l4 buf net proto w)
  unfolding dissect_l4 proto_skip_tcp proto_skip_udp
  dissect_l4_lem net proto w i =
      Ensures-bind IsTcp IsInside (and_then (proto == 6) (proto_check_tcp buf w)) _
        (Ensures-and_then IsTcp (proto == 6) (proto_check_tcp buf w) (λ q. absurd (ground arith))
          (check_tcp_lem w i))
        (elim [
          | true ↦ λ f.
              let (ge, le) = f refl in
              rw (rd_lem buf (w.at + 12) (omega arith), Ensures)
                (i, skip-Inside (byte buf (w.at + 12) / 16 * 4) w le i, omega arith)
          | false ↦ λ f.
              Ensures-bind IsUdp IsInside (and_then (proto == 17) (proto_check_udp buf w)) _
                (Ensures-and_then IsUdp (proto == 17) (proto_check_udp buf w)
                  (λ q. absurd (ground arith)) (check_udp_lem w i))
                (elim [
                  | true ↦ λ g. (i, skip-Inside 8 w (g refl) i, omega arith)
                  | false ↦ λ g. tt
                ])
        ])
    where
      IsTcp : Bool → Type 0
      IsTcp b = b ≡ true → (20 ≤ w.len) × (byte buf (w.at + 12) / 16 * 4 ≤ w.len)

      IsUdp : Bool → Type 0
      IsUdp b = b ≡ true → 8 ≤ w.len

  -- Dissection of the first `end` bytes of a buffer reads no byte outside of the buffer, and where a
  -- TCP or UDP header is found, it and the payload end with those bytes, the payload not starting
  -- before the header.
  pub proto_dissect_lem : Ensures IsInside (proto_dissect_l3l4 buf end)
  unfolding proto_dissect_l3l4 proto_skip_ipv4 proto_skip_ipv6
  proto_dissect_lem =
      Ensures-bind (λ b. b ≡ true → (20 ≤ end) × (byte buf 0 % 16 * 4 ≤ end)) IsInside
        (proto_check_ipv4 buf whole) _ (check_ipv4_lem whole (omega arith))
        (elim [
          | true ↦ λ f.
              let (ge, le) = f refl in
              rw (rd_lem buf 9 (omega arith), rd_lem buf 0 (omega arith))
                (dissect_l4_lem v4 (byte buf 9) (skip (byte buf 0 % 16 * 4) whole)
                  (skip-Inside (byte buf 0 % 16 * 4) whole le (omega arith)))
          | false ↦ λ f.
              Ensures-bind (λ b. b ≡ true → 40 ≤ end) IsInside (proto_check_ipv6 buf whole) _
                (check_ipv6_lem whole (omega arith))
                (elim [
                  | true ↦ λ g.
                      let ge = g refl in
                      rw (rd_lem buf 6 (omega arith)) (
                        Ensures-bind (λ s. Inside s.window) IsInside
                          (skip_ipv6_loop buf end (byte buf 6) (start (byte buf 6))) _
                          (skip_ipv6_loop_lem end (byte buf 6) (start (byte buf 6))
                            (skip-Inside 40 whole ge (omega arith)))
                          (λ s i. dissect_l4_lem v6 s.proto_type s.window i))
                  | false ↦ λ g. tt
                ])
        ])
    where
      whole : Window
      whole = record { at = 0; len = end }

      start : ℕ → Skipped
      start t = record { window = skip 40 whole; proto_type = t; last_header_type = 6 }
