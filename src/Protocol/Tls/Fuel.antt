-- ===== src/Protocol/Tls/Fuel.antt =====
-- The walk over the extensions comes to an end: a round for each byte left is more than it needs.
use fog_prime.Base.{
  ℕ, sym, zero, suc, ◌+◌, ◌-◌, ◌≤◌, ◌<◌, ◌≡◌, ◌≢◌, ◌==◌, ltb, leb, false, true, Option, List, none,
  some, arith, Bool-cases, Option-cases, inl, inr,
}
use fog_prime.Helpers.Bytes.{pntoh16}
use fog_prime.Protocol.Tls.{find_ext_loop}

-- The loop of the code with no bound on its rounds, as the finite runs that it has: the position and
-- the bytes left at the start of a round, and what is returned in the end.
pub data Walk (buf : List ℕ) (type : ℕ) : ℕ → ℕ → Option (Option (ℕ × ℕ)) → Type 0 where
  at_end : {at l : ℕ} → l < 4 → Walk buf type at l (some none)
  type_unread : {at l : ℕ} → 4 ≤ l → pntoh16 buf at ≡ none → Walk buf type at l none
  len_unread : {at l : ℕ} → 4 ≤ l → pntoh16 buf (at + 2) ≡ none → Walk buf type at l none
  too_long :
      {at l elen : ℕ}
      → pntoh16 buf (at + 2) ≡ some elen
      → 4 ≤ l
      → l < 4 + elen
      → Walk buf type at l (some none)
  found :
      {at l elen : ℕ}
      → pntoh16 buf at ≡ some type
      → pntoh16 buf (at + 2) ≡ some elen
      → 4 + elen ≤ l
      → Walk buf type at l (some (some (at + 4, elen)))
  passed :
      {at l etype elen : ℕ} {r : Option (Option (ℕ × ℕ))}
      → pntoh16 buf at ≡ some etype
      → etype ≢ type
      → pntoh16 buf (at + 2) ≡ some elen
      → 4 + elen ≤ l
      → Walk buf type (at + (4 + elen)) (l - (4 + elen)) r
      → Walk buf type at l r

one_round :
    (buf : List ℕ) (type f at l etype elen : ℕ)
    → pntoh16 buf at ≡ some etype
    → pntoh16 buf (at + 2) ≡ some elen
    → 4 ≤ l
    → ((a k : ℕ) → k ≤ f → Walk buf type a k (find_ext_loop buf f type a k))
    → l ≤ suc f
    → Walk buf type at l (elim (ltb (l - 4) elen) [
      | true ↦ some none
      | false ↦ elim (etype == type) [
        | true ↦ some (some (at + 4, elen))
        | false ↦ find_ext_loop buf f type (at + 4 + elen) (l - 4 - elen)
      ]
    ])
one_round buf type f at l etype elen n m four on le = elim (Bool-cases (ltb (l - 4) elen)) [
  | inl q ↦ rw q (too_long m four (ground arith))
  | inr q ↦ rw q (elim (Bool-cases (etype == type)) [
    | inl t ↦
        let same : etype ≡ type = ground arith in rw t (found (rw (sym same) n) m (ground arith))
    | inr t ↦
        let next : at + 4 + elen ≡ at + (4 + elen) = omega arith in
        let left : l - 4 - elen ≡ l - (4 + elen) = omega arith in
        rw (t, next, left)
          (passed n (ground arith) m (ground arith)
            (on (at + (4 + elen)) (l - (4 + elen)) (omega arith)))
  ])
]

-- With a round for each of the `l` bytes, the walk over the extensions runs to its end: the result is
-- what the loop of the code, with no bound on its rounds, returns after finitely many.
pub find_ext_loop-Walk :
    (buf : List ℕ) (type f at l : ℕ) → l ≤ f → Walk buf type at l (find_ext_loop buf f type at l)
unfolding find_ext_loop
find_ext_loop-Walk buf type zero at l le = at_end (omega arith)
find_ext_loop-Walk buf type (suc f) at l le = elim (Bool-cases (leb 4 l)) [
  | inr e ↦ rw (e, find_ext_loop) (at_end (ground arith))
  | inl e ↦
      let four : 4 ≤ l = ground arith in
      elim (Option-cases (pntoh16 buf at)) [
        | inl n ↦ rw (e, find_ext_loop, n) (type_unread four n)
        | inr (etype, n) ↦ elim (Option-cases (pntoh16 buf (at + 2))) [
          | inl m ↦ rw (e, find_ext_loop, n, m) (len_unread four m)
          | inr (elen, m) ↦
              rw (e, find_ext_loop, n, m)
                (one_round buf type f at l etype elen n m four
                  (λ a k h. find_ext_loop-Walk buf type f a k h) le)
        ]
      ]
]
