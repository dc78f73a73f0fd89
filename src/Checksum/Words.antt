-- ===== src/Checksum/Words.antt =====
-- The words of a buffer: reads, and the loop over the 64-bit words.
use fog_prime.Base.{
  ℕ, zero, suc, ◌+◌, ◌*◌, ◌%◌, ◌^◌, ◌<◌, ◌≤◌, ◌≡◌, refl, Bool, true, false, ltb, if◌then◌else◌,
  arith, List, [], ◌∷◌, length, Option, u64, Ensures, Ensures-bind, Ensures-weaken,
}
use fog_prime.Checksum.{read16, read32, read64, loop64, sum64, add_word}

abbrev pub AllBytes : List ℕ → Type 0
AllBytes [] = Unit
AllBytes (b ∷ bs) = (b < 256) × AllBytes bs

-- The sum of the 16-bit words, the last byte a word of its own.
unfoldable pub word_sum : List ℕ → ℕ
word_sum [] = 0
word_sum (a ∷ []) = a
word_sum (a ∷ b ∷ rest) = a + b * 256 + word_sum rest

-- A word of `n` bytes that is read, and what is left.
abbrev pub IsRead : ℕ → List ℕ → ℕ × List ℕ → Type 0
IsRead n buff (w, rest) =
    (w < 2 ^ (8 * n))
    × (length rest + n ≡ length buff)
    × AllBytes rest
    × ((w + word_sum rest) % 65535 ≡ word_sum buff % 65535)

pub read16_lem :
    (buff : List ℕ) → AllBytes buff → 2 ≤ length buff → Ensures (IsRead 2 buff) (read16 buff)
unfolding word_sum
read16_lem [] b h = absurd (omega arith)
read16_lem (x ∷ []) b h = absurd (omega arith)
read16_lem (x ∷ y ∷ rest) (b1, (b2, b)) h = (omega arith, omega arith, b, refl)

pub read32_lem :
    (buff : List ℕ) → AllBytes buff → 4 ≤ length buff → Ensures (IsRead 4 buff) (read32 buff)
unfolding word_sum
read32_lem [] b h = absurd (omega arith)
read32_lem (x ∷ []) b h = absurd (omega arith)
read32_lem (x ∷ y ∷ []) b h = absurd (omega arith)
read32_lem (x ∷ y ∷ z ∷ []) b h = absurd (omega arith)
read32_lem (x ∷ y ∷ z ∷ w ∷ rest) (b1, (b2, (b3, (b4, b)))) h =
    (omega arith, omega arith, b, omega arith)

read64_lem :
    (buff : List ℕ) → AllBytes buff → 8 ≤ length buff → Ensures (IsRead 8 buff) (read64 buff)
unfolding word_sum
read64_lem [] b h = absurd (omega arith)
read64_lem (x ∷ []) b h = absurd (omega arith)
read64_lem (x ∷ y ∷ []) b h = absurd (omega arith)
read64_lem (x ∷ y ∷ z ∷ []) b h = absurd (omega arith)
read64_lem (x ∷ y ∷ z ∷ w ∷ []) b h = absurd (omega arith)
read64_lem (x ∷ y ∷ z ∷ w ∷ p ∷ []) b h = absurd (omega arith)
read64_lem (x ∷ y ∷ z ∷ w ∷ p ∷ q ∷ []) b h = absurd (omega arith)
read64_lem (x ∷ y ∷ z ∷ w ∷ p ∷ q ∷ r ∷ []) b h = absurd (omega arith)
read64_lem (x ∷ y ∷ z ∷ w ∷ p ∷ q ∷ r ∷ s ∷ rest) (b1, (b2, (b3, (b4, (b5, (b6, (b7, (b8, b))))))))
      h =
    (omega arith, omega arith, b, omega arith)

-- The loop keeps the residue of result + carry + what is left, since 2 ^ 64 is 1 modulo 65535.
abbrev IsLooped : ℕ → ℕ → List ℕ → ℕ × ℕ × List ℕ → Type 0
IsLooped n total buff (r, carry, rest) =
    (r + carry < 2 ^ 64)
    × (length rest + n ≡ length buff)
    × AllBytes rest
    × ((r + carry + word_sum rest) % 65535 ≡ (total + word_sum buff) % 65535)

step_lem :
    (r carry w : ℕ)
    → r + carry < 2 ^ 64
    → w < 2 ^ 64
    → let r' = u64 (u64 (r + carry) + w) in
      let c' : ℕ = if ltb r' w then 1 else 0 in
      (r' + c' < 2 ^ 64) × ((r' + c') % 65535 ≡ (r + carry + w) % 65535)
step_lem r carry w h h' = ground arith

loop64_lem :
    (count r carry : ℕ) (buff : List ℕ)
    → AllBytes buff
    → 8 * count ≤ length buff
    → r + carry < 2 ^ 64
    → Ensures (IsLooped (8 * count) (r + carry) buff) (loop64 count r carry buff)
unfolding loop64
loop64_lem zero r carry buff b le h = (h, omega arith, b, refl)
loop64_lem (suc count) r carry buff b le h =
    Ensures-bind (IsRead 8 buff) (IsLooped (8 * suc count) (r + carry) buff) (read64 buff) _
      (read64_lem buff b (omega arith))
      (λ (w, rest) (small, len, b', eq).
        let r' = u64 (u64 (r + carry) + w) in
        let c' : ℕ = if ltb r' w then 1 else 0 in
        let (h', eq') = step_lem r carry w h small in
        Ensures-weaken (IsLooped (8 * count) (r' + c') rest)
          (IsLooped (8 * suc count) (r + carry) buff) (loop64 count r' c' rest)
          (loop64_lem count r' c' rest b' (omega arith) h')
          (λ (r2, c2, rest2) (h2, len2, b2, eq2).
            (h2, omega arith, b2, omega (arith, eq, eq', eq2))))

-- A stage: the number r' and what is left, for the number r and the bytes before; at most `bound`
-- more than r.
abbrev pub IsStage : ℕ → ℕ → ℕ → List ℕ → ℕ × List ℕ → Type 0
IsStage n bound r buff (r', rest) =
    (r' < bound)
    × (length rest + n ≡ length buff)
    × AllBytes rest
    × ((r' + word_sum rest) % 65535 ≡ (r + word_sum buff) % 65535)

pub sum64_lem :
    (count r : ℕ) (buff : List ℕ)
    → AllBytes buff
    → 8 * count ≤ length buff
    → r < 2 ^ 64
    → Ensures (IsStage (8 * count) (2 ^ 33) r buff) (sum64 count r buff)
unfolding sum64
sum64_lem count r buff b le h =
    Ensures-bind (IsLooped (8 * count) (r + 0) buff) (IsStage (8 * count) (2 ^ 33) r buff)
      (loop64 count r 0 buff) _ (loop64_lem count r 0 buff b le (omega arith))
      (λ (r2, c2, rest) (h2, len, b', eq). (omega arith, omega arith, b', omega (arith, eq)))

-- A word that is added where a test says so.
pub add_lem :
    (test : Bool) (n r bound : ℕ) (buff : List ℕ) (read : List ℕ → Option (ℕ × List ℕ))
    → r < bound
    → bound + 2 ^ (8 * n) ≤ 2 ^ 64
    → AllBytes buff
    → (test ≡ true → Ensures (IsRead n buff) (read buff))
    → Ensures
        (IsStage (if test then n else 0) (bound + 2 ^ (8 * n)) r buff)
        (add_word test read r buff)
add_lem false n r bound buff read h small b ok = (omega arith, omega arith, b, refl)
add_lem true n r bound buff read h small b ok =
    Ensures-bind (IsRead n buff) (IsStage n (bound + 2 ^ (8 * n)) r buff) (read buff) _ (ok refl)
      (λ (w, rest) (less, len, b', eq). (omega arith, omega arith, b', omega (arith, eq)))
