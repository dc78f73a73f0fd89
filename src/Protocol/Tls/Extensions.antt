-- ===== src/Protocol/Tls/Extensions.antt =====
-- The walk over the extensions of a ClientHello stays inside the handshake, and finds what it is
-- asked for.
use fog_prime.Base.{
  ℕ, zero, suc, ◌+◌, ◌-◌, ◌*◌, ◌≤◌, ◌<◌, ◌≡◌, ◌⊎◌, refl, ap, ◌∙◌, Bool, true, false, ◌==◌, ltb, leb,
  min, List, length, Option, none, some, byte, rd_lem, or_else, Ensures, Ensures-bind,
  Ensures-weaken, arith, Bool-cases, inl, inr, if◌then◌else◌,
}
use fog_prime.Helpers.Bytes.{pntoh16}
use fog_prime.Protocol.Tls.{
  find_ext_loop, find_ext_from, tls_find_ext_len_offset_in_handshake, tls_find_ext_in_handshake,
  tls_advance_to_host_in_sni, copy_lower, tls_extract_host_from_ext,
  tls_hello_extract_host_from_handshake, tls_handshake_len, is_tls_handshake_full,
}

-- The 16 bits at a position.
abbrev pub word : List ℕ → ℕ → ℕ
word buf i = byte buf i * 256 + byte buf (i + 1)

pub pntoh16_lem : (buf : List ℕ) (i : ℕ) → i + 1 < length buf → pntoh16 buf i ≡ some (word buf i)
unfolding pntoh16
pntoh16_lem buf i h = rw (rd_lem buf i (omega arith), rd_lem buf (i + 1) h) refl

module _ (buf : List ℕ) (end : ℕ) (fits : end ≤ length buf) where
  -- An extension of a type: its header stands before its bytes, which lie inside.
  abbrev pub IsExt : ℕ → ℕ → Option (ℕ × ℕ) → Type 0
  IsExt type from none = Unit
  IsExt type from (some (ext, elen)) =
      (from + 4 ≤ ext)
      × (ext + elen ≤ end)
      × (word buf (ext - 4) ≡ type)
      × (word buf (ext - 2) ≡ elen)

  IsExt-weaken :
      (type from from' : ℕ)
      → from ≤ from'
      → (o : Option (ℕ × ℕ)) → IsExt type from' o
      → IsExt type from o
  IsExt-weaken type from from' le none h = tt
  IsExt-weaken type from from' le (some (ext, elen)) (a, b, t, l) = (omega arith, b, t, l)

  at_header :
      (type at : ℕ)
      → word buf at ≡ type
      → at + 4 + word buf (at + 2) ≤ end
      → IsExt type at (some (at + 4, word buf (at + 2)))
  at_header type at t le = (omega arith, le, ap (word buf) e4 ∙ t, ap (word buf) e2)
    where
      e4 : at + 4 - 4 ≡ at
      e4 = omega arith

      e2 : at + 4 - 2 ≡ at + 2
      e2 = omega arith

  find_ext_loop_lem :
      (fuel type at l : ℕ)
      → at + l ≤ end
      → Ensures (IsExt type at) (find_ext_loop buf fuel type at l)
  unfolding find_ext_loop
  find_ext_loop_lem zero type at l h = tt
  find_ext_loop_lem (suc fuel) type at l h = elim (Bool-cases (leb 4 l)) [
    | inr e ↦ rw (e, find_ext_loop) tt
    | inl e ↦
        rw
          (
            e,
            find_ext_loop,
            pntoh16_lem buf at (ground arith),
            pntoh16_lem buf (at + 2) (ground arith),
          )
          (elim (Bool-cases (ltb (l - 4) (word buf (at + 2)))) [
            | inl e' ↦ rw (e', Ensures) tt
            | inr e' ↦
                rw (e', Ensures)
                  (elim (Bool-cases (word buf at == type)) [
                    | inl t ↦ rw (t, Ensures) (at_header type at (ground arith) (ground arith))
                    | inr t ↦
                        rw (t, Ensures)
                          (Ensures-weaken (IsExt type (at + 4 + word buf (at + 2))) (IsExt type at)
                            (find_ext_loop buf fuel type (at + 4 + word buf (at + 2))
                              (l - 4 - word buf (at + 2)))
                            (find_ext_loop_lem fuel type (at + 4 + word buf (at + 2))
                              (l - 4 - word buf (at + 2)) (ground arith))
                            (IsExt-weaken type at (at + 4 + word buf (at + 2)) (omega arith)))
                  ])
          ])
  ]

  find_ext_from_lem :
      (at len type : ℕ) (partial_ok : Bool)
      → at + len ≤ end
      → 2 ≤ len
      → Ensures (IsExt type (at + 2)) (find_ext_from buf at len type partial_ok)
  unfolding find_ext_from
  find_ext_from_lem at len type true h two =
      rw (pntoh16_lem buf at (omega arith))
        (find_ext_loop_lem (word buf at) type (at + 2) (min (len - 2) (word buf at)) (ground arith))
  find_ext_from_lem at len type false h two =
      rw (pntoh16_lem buf at (omega arith)) (elim (Bool-cases (ltb (len - 2) (word buf at))) [
        | inl e ↦ rw (e, Ensures) tt
        | inr e ↦
            rw (e, Ensures)
              (find_ext_loop_lem (word buf at) type (at + 2) (word buf at) (ground arith))
      ])

  -- The offset of the extensions' length leaves room for it.
  abbrev IsOffset : ℕ → Option ℕ → Type 0
  IsOffset len none = Unit
  IsOffset len (some l) = (42 ≤ l) × (l + 2 ≤ len)

  find_offset_lem :
      (at len : ℕ)
      → at + len ≤ end
      → Ensures (IsOffset len) (tls_find_ext_len_offset_in_handshake buf at len)
  unfolding tls_find_ext_len_offset_in_handshake
  find_offset_lem at len h = elim (Bool-cases (leb 39 len)) [
    | inr e ↦ rw (e, Ensures) tt
    | inl e ↦
        let l1 = 38 + byte buf (at + 38) + 1 in
        rw (e, rd_lem buf (at + 38) (ground arith))
          (elim (Bool-cases (leb (l1 + 2) len)) [
            | inr e1 ↦ rw (e1, Ensures) tt
            | inl e1 ↦
                let l2 = l1 + word buf (at + l1) + 2 in
                rw (e1, pntoh16_lem buf (at + l1) (ground arith))
                  (elim (Bool-cases (leb (l2 + 1) len)) [
                    | inr e2 ↦ rw (e2, Ensures) tt
                    | inl e2 ↦
                        let l3 = l2 + byte buf (at + l2) + 1 in
                        rw (e2, rd_lem buf (at + l2) (ground arith))
                          (elim (Bool-cases (leb (l3 + 2) len)) [
                            | inr e3 ↦ rw (e3, Ensures) tt
                            | inl e3 ↦ rw (e3, Ensures) (ground arith, ground arith)
                          ])
                  ])
          ])
  ]

  -- The search for an extension in a handshake of `len` bytes, which lies before `end` in the buffer,
  -- and which may be partial or has at least 4 bytes, reads no byte outside of the buffer. What it
  -- finds is preceded by a header with the type asked for and its length, and ends before `end`.
  pub tls_find_ext_in_handshake_lem :
      (at len type : ℕ) (partial_ok : Bool)
      → at + len ≤ end
      → (partial_ok ≡ true) ⊎ (4 ≤ len)
      → Ensures (IsExt type (at + 44)) (tls_find_ext_in_handshake buf at len type partial_ok)
  unfolding tls_find_ext_in_handshake is_tls_handshake_full tls_handshake_len
  tls_find_ext_in_handshake_lem at len type partial_ok h ok =
      Ensures-bind (λ b. Unit {0}) (IsExt type (at + 44))
        (or_else partial_ok (is_tls_handshake_full buf at len)) _ (full partial_ok ok)
        (elim [
          | false ↦ λ u. tt
          | true ↦ λ u.
              Ensures-bind (IsOffset len) (IsExt type (at + 44))
                (tls_find_ext_len_offset_in_handshake buf at len) _ (find_offset_lem at len h)
                (elim [
                  | none ↦ λ i. tt
                  | some l ↦ λ (ge, le).
                      Ensures-weaken (IsExt type (at + l + 2)) (IsExt type (at + 44))
                        (find_ext_from buf (at + l) (len - l) type partial_ok)
                        (find_ext_from_lem (at + l) (len - l) type partial_ok (omega arith)
                          (omega arith))
                        (IsExt-weaken type (at + 44) (at + l + 2) (omega arith))
                ])
        ])
    where
      full :
          (b : Bool)
          → (b ≡ true) ⊎ (4 ≤ len)
          → Ensures (λ c. Unit {0}) (or_else b (is_tls_handshake_full buf at len))
      full true ok = tt
      full false (inl e) = cc
      full false (inr le) =
          rw
            (
              rd_lem buf (at + 1) (omega arith),
              rd_lem buf (at + 2) (omega arith),
              rd_lem buf (at + 3) (omega arith),
              Ensures,
            )
            tt

  copy_lower_lem : (n at : ℕ) → at + n ≤ end → Ensures (λ s. length s ≡ n) (copy_lower buf at n)
  unfolding copy_lower
  copy_lower_lem zero at h = refl
  copy_lower_lem (suc n) at h =
      rw (rd_lem buf at (omega arith), copy_lower)
        (Ensures-bind (λ s. length s ≡ n) (λ s. length s ≡ suc n) (copy_lower buf (at + 1) n) _
          (copy_lower_lem n (at + 1) (omega arith)) (λ s e. omega arith))

  -- A name, with its final 0, fits into `len_host` bytes.
  abbrev pub Fits : ℕ → Option (List ℕ) → Type 0
  Fits len_host none = Unit
  Fits len_host (some name) = length name < len_host

  extract_host_lem :
      (ext elen len_host : ℕ)
      → ext + elen ≤ end
      → 0 < len_host
      → Ensures (Fits len_host) (tls_extract_host_from_ext buf ext elen len_host)
  unfolding tls_extract_host_from_ext tls_advance_to_host_in_sni
  extract_host_lem ext elen len_host h pos = elim (Bool-cases (leb 5 elen)) [
    | inr e ↦ rw (e, Ensures) tt
    | inl e ↦
        rw (e, rd_lem buf (ext + 2) (ground arith))
          (elim (Bool-cases (byte buf (ext + 2) == 0)) [
            | inr e' ↦ rw (e', Ensures) tt
            | inl e' ↦
                rw (e', pntoh16_lem buf (ext + 3) (ground arith))
                  (elim (Bool-cases (leb (word buf (ext + 3)) (elen - 5))) [
                    | inr e2 ↦ rw (e2, Ensures) tt
                    | inl e2 ↦ rw (e2) (
                        Ensures-bind
                          (λ s. length s ≡ (
                            if leb len_host (word buf (ext + 3))
                            then len_host - 1
                            else word buf (ext + 3)))
                          (Fits len_host) _ _
                          (copy_lower_lem
                            (if leb len_host (word buf (ext + 3))
                              then len_host - 1
                              else word buf (ext + 3))
                            (ext + 5) (ground arith))
                          (λ s q. ground arith))
                  ])
          ])
  ]

  -- Extracting the server's name from a handshake of `len` bytes, which lies before `end` in the
  -- buffer, and which may be partial or has at least 4 bytes, reads no byte outside of the buffer, and
  -- the name and its final 0 fit into `len_host` > 0 bytes.
  pub hello_extract_host_lem :
      (at len len_host : ℕ) (partial_ok : Bool)
      → at + len ≤ end
      → (partial_ok ≡ true) ⊎ (4 ≤ len)
      → 0 < len_host
      → Ensures
          (Fits len_host)
          (tls_hello_extract_host_from_handshake buf at len len_host partial_ok)
  unfolding tls_hello_extract_host_from_handshake
  hello_extract_host_lem at len len_host partial_ok h ok some_room =
      Ensures-bind (IsExt 0 (at + 44)) (Fits len_host)
        (tls_find_ext_in_handshake buf at len 0 partial_ok) _
        (tls_find_ext_in_handshake_lem at len 0 partial_ok h ok)
        (elim [
          | none ↦ λ i. tt
          | some (ext, elen) ↦ λ (a, b, t, l). extract_host_lem ext elen len_host b some_room
        ])
