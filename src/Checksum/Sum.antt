-- ===== src/Checksum/Sum.antt =====
-- The sum of a buffer, at any alignment, against the sum of its 16-bit words.
use fog_prime.Base.{
  ℕ, suc, ◌+◌, ◌-◌, ◌*◌, ◌/◌, ◌%◌, ◌^◌, ◌<◌, ◌≤◌, ◌≡◌, ◌⊎◌, inl, inr, refl, true, false, ◌==◌,
  if◌then◌else◌, arith, List, [], ◌∷◌, length, some, ◌>>=◌, Ensures, Ensures-bind, Ensures-weaken,
  Bool-cases,
}
use fog_prime.Checksum.{
  read8, read16, read32, sum64, add_word, sum32, sum16, sum8, do_csum, from64to16,
}
use fog_prime.Checksum.Words.{
  AllBytes, word_sum, IsRead, IsStage, read16_lem, read32_lem, sum64_lem, add_lem,
}
use fog_prime.Checksum.Fold.{from64to16_cases, from64to16_bound}

-- The 64-bit words and a 32-bit word, from an address that is a multiple of 8 on.
rest32_lem :
    (count len r : ℕ) (buff : List ℕ)
    → len / 4 ≡ count
    → r < 2 ^ 33
    → AllBytes buff
    → 4 * count ≤ length buff
    → Ensures (IsStage (4 * count) (2 ^ 34) r buff) (
        (if count / 2 == 0 then some (r, buff) else sum64 (count / 2) r buff) >>= λ (r2, b2).
        add_word (len / 4 % 2 == 1) read32 r2 b2)
rest32_lem count len r buff e small b h =
    Ensures-bind (IsStage (8 * (count / 2)) (2 ^ 33) r buff) (IsStage (4 * count) (2 ^ 34) r buff)
      (if count / 2 == 0 then some (r, buff) else sum64 (count / 2) r buff) _ words
      (λ (r2, b2) (h2, len2, ok2, eq2).
        Ensures-weaken (IsStage (if len / 4 % 2 == 1 then 4 else 0) (2 ^ 33 + 2 ^ 32) r2 b2)
          (IsStage (4 * count) (2 ^ 34) r buff) (add_word (len / 4 % 2 == 1) read32 r2 b2)
          (add_lem (len / 4 % 2 == 1) 4 r2 (2 ^ 33) b2 read32 h2 (omega arith) ok2
            (λ q. read32_lem b2 ok2 (ground arith)))
          (λ (r3, b3) (h3, len3, ok3, eq3).
            (omega arith, ground arith, ok3, omega (arith, eq2, eq3))))
  where
    words :
        Ensures
          (IsStage (8 * (count / 2)) (2 ^ 33) r buff)
          (if count / 2 == 0 then some (r, buff) else sum64 (count / 2) r buff)
    words = elim (Bool-cases (count / 2 == 0)) [
      | inl q ↦ rw (q, Ensures) (small, ground arith, b, refl)
      | inr q ↦ rw q (sum64_lem (count / 2) r buff b (omega arith) (omega arith))
    ]

sum32_lem :
    (addr count len r : ℕ) (buff : List ℕ)
    → len / 4 ≡ count
    → 0 < count
    → r < 2 ^ 17
    → AllBytes buff
    → 4 * count ≤ length buff
    → Ensures (IsStage (4 * count) (2 ^ 34) r buff) (sum32 addr count len r buff)
unfolding sum32
sum32_lem addr count len r buff e more small b h = elim (Bool-cases (addr / 4 % 2 == 1)) [
  | inr q ↦ rw (q, sum32) (rest32_lem count len r buff e (omega arith) b h)
  | inl q ↦
      rw (q, sum32)
        (Ensures-bind (IsStage 4 (2 ^ 17 + 2 ^ 32) r buff) (IsStage (4 * count) (2 ^ 34) r buff)
          (add_word true read32 r buff) _
          (add_lem true 4 r (2 ^ 17) buff read32 small (omega arith) b
            (λ t. read32_lem buff b (omega arith)))
          (λ (r1, b1) (h1, len1, ok1, eq1).
            Ensures-weaken (IsStage (4 * (count - 1)) (2 ^ 34) r1 b1)
              (IsStage (4 * count) (2 ^ 34) r buff) _
              (rest32_lem (count - 1) (len - 4) r1 b1 (omega arith) (omega arith) ok1 (omega arith))
              (λ (r2, b2) (h2, len2, ok2, eq2). (h2, omega arith, ok2, omega (arith, eq1, eq2)))))
]

-- The same for the 16-bit words, from an address that is a multiple of 4 on.
rest16_lem :
    (addr count len r : ℕ) (buff : List ℕ)
    → len / 2 ≡ count
    → r < 2 ^ 17
    → AllBytes buff
    → 2 * count ≤ length buff
    → Ensures (IsStage (2 * count) (2 ^ 35) r buff) (
        (if count / 2 == 0 then some (r, buff) else sum32 addr (count / 2) len r buff)
        >>= λ (r2, b2). add_word (len / 2 % 2 == 1) read16 r2 b2)
rest16_lem addr count len r buff e small b h =
    Ensures-bind (IsStage (4 * (count / 2)) (2 ^ 34) r buff) (IsStage (2 * count) (2 ^ 35) r buff)
      (if count / 2 == 0 then some (r, buff) else sum32 addr (count / 2) len r buff) _ words
      (λ (r2, b2) (h2, len2, ok2, eq2).
        Ensures-weaken (IsStage (if len / 2 % 2 == 1 then 2 else 0) (2 ^ 34 + 2 ^ 16) r2 b2)
          (IsStage (2 * count) (2 ^ 35) r buff) (add_word (len / 2 % 2 == 1) read16 r2 b2)
          (add_lem (len / 2 % 2 == 1) 2 r2 (2 ^ 34) b2 read16 h2 (omega arith) ok2
            (λ q. read16_lem b2 ok2 (ground arith)))
          (λ (r3, b3) (h3, len3, ok3, eq3).
            (omega arith, ground arith, ok3, omega (arith, eq2, eq3))))
  where
    words :
        Ensures
          (IsStage (4 * (count / 2)) (2 ^ 34) r buff)
          (if count / 2 == 0 then some (r, buff) else sum32 addr (count / 2) len r buff)
    words = elim (Bool-cases (count / 2 == 0)) [
      | inl q ↦ rw (q, Ensures) (omega arith, ground arith, b, refl)
      | inr q ↦
          rw q (
            sum32_lem addr (count / 2) len r buff (omega arith) (ground arith) small b
              (omega arith))
    ]

sum16_lem :
    (addr count len r : ℕ) (buff : List ℕ)
    → len / 2 ≡ count
    → 0 < count
    → r < 2 ^ 16
    → AllBytes buff
    → 2 * count ≤ length buff
    → Ensures (IsStage (2 * count) (2 ^ 35) r buff) (sum16 addr count len r buff)
unfolding sum16
sum16_lem addr count len r buff e more small b h = elim (Bool-cases (addr / 2 % 2 == 1)) [
  | inr q ↦ rw (q, sum16) (rest16_lem addr count len r buff e (omega arith) b h)
  | inl q ↦
      rw (q, sum16)
        (Ensures-bind (IsStage 2 (2 ^ 16 + 2 ^ 16) r buff) (IsStage (2 * count) (2 ^ 35) r buff)
          (add_word true read16 r buff) _
          (add_lem true 2 r (2 ^ 16) buff read16 small (omega arith) b
            (λ t. read16_lem buff b (omega arith)))
          (λ (r1, b1) (h1, len1, ok1, eq1).
            Ensures-weaken (IsStage (2 * (count - 1)) (2 ^ 35) r1 b1)
              (IsStage (2 * count) (2 ^ 35) r buff) _
              (rest16_lem (addr + 2) (count - 1) (len - 2) r1 b1 (omega arith) (omega arith) ok1
                (omega arith))
              (λ (r2, b2) (h2, len2, ok2, eq2). (h2, omega arith, ok2, omega (arith, eq1, eq2)))))
]

word_sum-short : (buff : List ℕ) → length buff ≡ 0 → word_sum buff ≡ 0
unfolding word_sum
word_sum-short [] e = refl
word_sum-short (x ∷ xs) e = absurd (omega arith)

read8_lem : (buff : List ℕ) → AllBytes buff → length buff ≡ 1 → Ensures (IsRead 1 buff) (read8 buff)
unfolding word_sum
read8_lem [] b h = absurd (omega arith)
read8_lem (x ∷ []) (b1, b) h = (omega arith, omega arith, b, omega arith)
read8_lem (x ∷ y ∷ rest) b h = absurd (omega arith)

-- All of the buffer, from an even address on.
abbrev IsSum : ℕ → List ℕ → ℕ → Type 0
IsSum r buff s = (s < 2 ^ 64) × (s % 65535 ≡ (r + word_sum buff) % 65535)

sum8_lem :
    (addr r : ℕ) (buff : List ℕ)
    → r < 2 ^ 16
    → AllBytes buff
    → Ensures (IsSum r buff) (sum8 addr (length buff) r buff)
unfolding sum8
sum8_lem addr r buff small b =
    Ensures-bind (IsStage (2 * (length buff / 2)) (2 ^ 35) r buff) (IsSum r buff)
      (if length buff / 2 == 0
        then some (r, buff)
        else sum16 addr (length buff / 2) (length buff) r buff)
      _ words
      (λ (r2, b2) (h2, len2, ok2, eq2).
        Ensures-bind (IsStage (if length buff % 2 == 1 then 1 else 0) (2 ^ 35 + 2 ^ 8) r2 b2)
          (IsSum r buff) (add_word (length buff % 2 == 1) read8 r2 b2) _
          (add_lem (length buff % 2 == 1) 1 r2 (2 ^ 35) b2 read8 h2 (omega arith) ok2
            (λ q. read8_lem b2 ok2 (ground arith)))
          (λ (r3, b3) (h3, len3, ok3, eq3).
            (omega arith, omega (arith, eq2, eq3, word_sum-short b3 (ground arith)))))
  where
    words : Ensures (IsStage (2 * (length buff / 2)) (2 ^ 35) r buff) (
        if length buff / 2 == 0
        then some (r, buff)
        else sum16 addr (length buff / 2) (length buff) r buff)
    words = elim (Bool-cases (length buff / 2 == 0)) [
      | inl q ↦ rw (q, Ensures) (omega arith, ground arith, b, refl)
      | inr q ↦ rw q (
          sum16_lem addr (length buff / 2) (length buff) r buff refl (ground arith) small b
            (omega arith))
    ]

-- A byte put before a buffer swaps the bytes of every word.
word_sum-cons :
    (x : ℕ) (buff : List ℕ) → word_sum (x ∷ buff) % 65535 ≡ (x + 256 * word_sum buff) % 65535
unfolding word_sum
word_sum-cons x [] = omega arith
word_sum-cons x (y ∷ []) = omega arith
word_sum-cons x (y ∷ z ∷ rest) = omega (arith, word_sum-cons z rest)

-- A sum of 16 bits that is right modulo 65535, or too small by `d`.
abbrev pub IsNear : ℕ → List ℕ → ℕ → Type 0
IsNear d buff s =
    (s < 2 ^ 16) × ((s % 65535 ≡ word_sum buff % 65535) ⊎ ((s + d) % 65535 ≡ word_sum buff % 65535))

IsNear-even : (buff : List ℕ) (r : ℕ) → IsSum 0 buff r → IsNear 1 buff (from64to16 r)
IsNear-even buff r (h, eq) = (
  from64to16_bound r,
  elim (from64to16_cases r h) [
    | inl e ↦ inl (omega (arith, e, eq))
    | inr e ↦ inr (omega (arith, e, eq))
  ],
)

IsNear-odd :
    (x : ℕ) (buff : List ℕ) (r : ℕ)
    → IsSum (x * 256) buff r
    → IsNear 256 (x ∷ buff) (from64to16 r / 256 % 256 + from64to16 r % 256 * 256)
IsNear-odd x buff r (h, eq) =
    let small = from64to16_bound r in
    let cons = word_sum-cons x buff in
    (
      omega (arith, small),
      elim (from64to16_cases r h) [
        | inl e ↦ inl (omega (arith, e, eq, small, cons))
        | inr e ↦ inr (omega (arith, e, eq, small, cons))
      ],
    )

-- The sum of all bytes of a buffer, at any address, reads no byte outside of the buffer, and is
-- congruent modulo 65535 to the sum of its 16-bit words, or too small by 1, or by 256 from an odd
-- address on.
pub do_csum_lem :
    (addr : ℕ) (buff : List ℕ)
    → AllBytes buff
    → Ensures (IsNear (if addr % 2 == 1 then 256 else 1) buff) (do_csum addr buff (length buff))
unfolding do_csum word_sum
do_csum_lem addr [] b = (omega arith, inl refl)
do_csum_lem addr (x ∷ xs) (b1, b) =
    let some_bytes : (length (x ∷ xs) == 0) ≡ false = ground arith in
    elim (Bool-cases (addr % 2 == 1)) [
      | inl q ↦
          rw (some_bytes, q)
            (Ensures-bind (IsSum (x * 256) xs) (IsNear 256 (x ∷ xs)) _ _ (one_less xs b)
              (IsNear-odd x xs))
      | inr q ↦
          rw (some_bytes, q)
            (Ensures-bind (IsSum 0 (x ∷ xs)) (IsNear 1 (x ∷ xs))
              (sum8 addr (length (x ∷ xs)) 0 (x ∷ xs)) _
              (sum8_lem addr 0 (x ∷ xs) (omega arith) (b1, b)) (IsNear-even (x ∷ xs)))
    ]
  where
    one_less :
        (ys : List ℕ)
        → AllBytes ys
        → Ensures (IsSum (x * 256) ys) (sum8 (addr + 1) (suc (length ys) - 1) (x * 256) ys)
    one_less ys b' =
        let e : suc (length ys) - 1 ≡ length ys = omega arith in
        rw e (sum8_lem (addr + 1) (x * 256) ys (omega arith) b')
