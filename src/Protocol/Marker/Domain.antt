-- ===== src/Protocol/Marker/Domain.antt =====
-- The N level domain lies inside the domain, and a position is 0 or inside the data.
use fog_prime.Base.{
  ℕ, zero, suc, ◌+◌, ◌-◌, ◌≤◌, ◌<◌, ◌≡◌, ◌≢◌, ◌⊎◌, refl, ap, ◌∙◌, false, ◌==◌, ltb, leb, List,
  length, Option, none, some, byte, rd_lem, Ensures, Ensures-bind, Ensures-weaken, arith,
  Bool-cases, if◌then◌else◌, lt→ltb, inl, inr,
}
use fog_prime.Protocol.Marker.{ℤ, pos, negsuc, check_pos, back_to_dot, up_levels, find_nld}

-- 0, or an index.
abbrev pub IsPos : ℕ → ℕ → Type 0
IsPos sz p = (p ≡ 0) ⊎ (p < sz)

pub check_pos-IsPos : (sz : ℕ) (o : ℤ) → IsPos sz (check_pos sz o)
unfolding check_pos
check_pos-IsPos sz (pos n) = ground arith
check_pos-IsPos sz (negsuc n) = inl refl

module _ (buf : List ℕ) (dom dlen : ℕ) (fits : dom + dlen ≤ length buf) where
  -- No dot strictly between `k` and `k2`, and a dot at `k` unless `k` is 0.
  abbrev DotBefore : ℕ → ℕ → Type 0
  DotBefore k2 k =
      (k ≤ k2)
      × ((k ≡ 0) ⊎ (byte buf (dom + k) ≡ 46))
      × ((i : ℕ) → k < i → i ≤ k2 → byte buf (dom + i) ≢ 46)

  back_to_dot_lem : (k : ℕ) → k < dlen → Ensures (DotBefore k) (back_to_dot buf dom k)
  unfolding back_to_dot
  back_to_dot_lem zero h = (omega arith, inl refl, λ i a b. omega arith)
  back_to_dot_lem (suc k) h =
      rw (rd_lem buf (dom + suc k) (omega arith), back_to_dot)
        (elim (Bool-cases (byte buf (dom + suc k) == 46)) [
          | inl e ↦ rw (e, Ensures) (omega arith, inr (ground arith), λ i a b. omega arith)
          | inr e ↦
              rw (e, Ensures)
                (Ensures-weaken (DotBefore k) (DotBefore (suc k)) (back_to_dot buf dom k)
                  (back_to_dot_lem k (omega arith))
                  (λ k' (le, dot, free). (
                    omega arith,
                    dot,
                    λ i a b. elim (Bool-cases (leb i k)) [
                      | inl q ↦ free i a (ground arith)
                      | inr q ↦ λ d. absurd (no_dot i k (ground arith) d e)
                    ],
                  )))
        ])
    where
      no_dot :
          (i k : ℕ)
          → i ≡ suc k
          → byte buf (dom + i) ≡ 46
          → (byte buf (dom + suc k) == 46) ≡ false
          → ⊥
      no_dot i k q d e = grind arith

  -- A level up from the end at `k`: the same end, or that of a dot before it.
  abbrev UpFrom : ℕ → Option ℕ → Type 0
  UpFrom k none = Unit
  UpFrom k (some k') = (0 < k → 0 < k') × (k' ≤ k) × ((k' ≡ k) ⊎ (byte buf (dom + k') ≡ 46))

  UpFrom-trans :
      (k k' : ℕ) (o : Option ℕ)
      → k' ≤ k
      → 0 < k'
      → byte buf (dom + k') ≡ 46
      → UpFrom k' o
      → UpFrom k o
  UpFrom-trans k k' none le p d u = tt
  UpFrom-trans k k' (some j) le p d (p', le', inl e) =
      (λ q. ground arith, omega arith, inr (rw (e) d))
  UpFrom-trans k k' (some j) le p d (p', le', inr e) = (λ q. ground arith, omega arith, inr e)

  up_levels_lem : (rounds k : ℕ) → k ≤ dlen → Ensures (UpFrom k) (up_levels buf dom rounds k)
  unfolding up_levels
  up_levels_lem zero k h = (λ p. p, omega arith, inl refl)
  up_levels_lem (suc rounds) k h = elim (Bool-cases (ltb 0 k)) [
    | inr e ↦ rw (e, up_levels, Ensures) tt
    | inl e ↦
        rw (e, up_levels)
          (Ensures-bind (DotBefore (k - 1)) (UpFrom k) (back_to_dot buf dom (k - 1)) _
            (back_to_dot_lem (k - 1) (ground arith))
            (λ k' (le, dot, free). elim (Bool-cases (k' == 0)) [
              | inl z ↦ rw (z, Ensures) tt
              | inr z ↦
                  rw (z, Ensures)
                    (Ensures-weaken (UpFrom k') (UpFrom k) (up_levels buf dom rounds k')
                      (up_levels_lem rounds k' (ground arith))
                      (λ o u.
                        UpFrom-trans k k' o (ground arith) (ground arith)
                          (elim dot [ inl q ↦ absurd (ground arith) | inr q ↦ q ]) u))
            ]))
  ]

  -- A label of the domain: between two dots, or a dot and an end of the domain.
  abbrev pub IsLabel : Option (ℕ × ℕ) → Type 0
  IsLabel none = Unit
  IsLabel (some (p, len)) =
      (dom ≤ p)
      × (p + len ≤ dom + dlen)
      × ((p ≡ dom) ⊎ (byte buf (p - 1) ≡ 46))
      × ((p + len ≡ dom + dlen) ⊎ (byte buf (p + len) ≡ 46))
      × ((i : ℕ) → p ≤ i → i < p + len → byte buf i ≢ 46)

  start-IsLabel :
      (k2 k : ℕ)
      → 0 < k2
      → k2 ≤ dlen
      → (k2 ≡ dlen) ⊎ (byte buf (dom + k2) ≡ 46)
      → DotBefore (k2 - 1) k
      → let k1 = if byte buf (dom + k) == 46 then suc k else k in IsLabel (some (dom + k1, k2 - k1))
  start-IsLabel k2 k above le end (le', dot, free) = elim (Bool-cases (byte buf (dom + k) == 46)) [
    | inl e ↦ rw (e) (
      omega arith,
      omega arith,
      inr (at_index (dom + suc k - 1) (dom + k) (omega arith) (ground arith)),
      at_end (dom + suc k + (k2 - suc k)) (omega arith),
      λ i a b d.
          free (i - dom) (omega arith) (omega arith) (at_index (dom + (i - dom)) i (omega arith) d),
    )
    | inr e ↦ rw (e) (
      omega arith,
      omega arith,
      elim dot [ inl q ↦ inl (omega arith) | inr q ↦ absurd (ground arith) ],
      at_end (dom + k + (k2 - k)) (omega arith),
      λ i a b d. elim (Bool-cases (i == dom + k)) [
        | inl q ↦ absurd (first i (ground arith) d e)
        | inr q ↦
            free (i - dom) (ground arith) (ground arith)
              (at_index (dom + (i - dom)) i (omega arith) d)
      ],
    )
  ]
    where
      at_index : (i j : ℕ) → i ≡ j → byte buf j ≡ 46 → byte buf i ≡ 46
      at_index i j e d = ap (byte buf) e ∙ d

      at_end : (i : ℕ) → i ≡ dom + k2 → (i ≡ dom + dlen) ⊎ (byte buf i ≡ 46)
      at_end i e = elim end [ inl q ↦ inl (omega arith) | inr q ↦ inr (at_index i (dom + k2) e q) ]

      first : (i : ℕ) → i ≡ dom + k → byte buf i ≡ 46 → (byte buf (dom + k) == 46) ≡ false → ⊥
      first i q d e = grind arith

  -- The search for the N level domain in a domain of at least one byte that lies inside the buffer
  -- reads no byte outside of the buffer. What it finds lies inside the domain, holds no dot, and has
  -- a dot or an end of the domain on either side.
  pub find_nld_lem : (level : ℕ) → 0 < dlen → Ensures IsLabel (find_nld buf dom dlen level)
  unfolding find_nld
  find_nld_lem level some_byte =
      Ensures-bind (UpFrom dlen) IsLabel (up_levels buf dom (level - 1) dlen) _
        (up_levels_lem (level - 1) dlen (omega arith))
        (elim [
          | none ↦ λ u. tt
          | some k2 ↦ λ (p, le, end).
              rw (lt→ltb 0 k2 (p some_byte), Ensures)
                (Ensures-bind (DotBefore (k2 - 1)) IsLabel (back_to_dot buf dom (k2 - 1)) _
                  (back_to_dot_lem (k2 - 1) (ground arith))
                  (λ k d.
                    rw (rd_lem buf (dom + k) (ground arith), Ensures)
                      (start-IsLabel k2 k (p some_byte) le
                        (elim end [ inl q ↦ inl q | inr q ↦ inr q ]) d)))
        ])
