-- ===== src/Checksum/Fold.antt =====
-- The fold of a 64-bit sum to 16 bits, up to multiples of 65535.
use fog_prime.Base.{ℕ, ◌+◌, ◌/◌, ◌%◌, ◌^◌, ◌<◌, ◌≡◌, ◌↔◌, ◌⊎◌, arith, u16, sym}
use fog_prime.Checksum.{from64to16}

-- The sum of the four halfwords.
abbrev pub halves : ℕ → ℕ
halves x = x % 2 ^ 16 + x / 2 ^ 16 % 2 ^ 16 + x / 2 ^ 32 % 2 ^ 16 + x / 2 ^ 48 % 2 ^ 16

-- A number is congruent to the sum of its halfwords.
pub halves_mod : (x : ℕ) → x < 2 ^ 64 → halves x % 65535 ≡ x % 65535
halves_mod x h = omega arith

fold_iff :
    (u : ℕ)
    → u < 2 ^ 18
    → (u16 (u16 u + u16 (u / 2 ^ 16)) % 65535 ≡ u % 65535) ↔ (u % 2 ^ 16 + u / 2 ^ 16 < 2 ^ 16)
fold_iff u h = ((λ e. omega arith), (λ e. omega arith))

fold_cases :
    (u : ℕ)
    → u < 2 ^ 18
    → (u16 (u16 u + u16 (u / 2 ^ 16)) % 65535 ≡ u % 65535)
      ⊎ ((u16 (u16 u + u16 (u / 2 ^ 16)) + 1) % 65535 ≡ u % 65535)
fold_cases u h = ground arith

-- The fold of a 64-bit number keeps its residue modulo 65535 exactly if the last addition of the
-- fold, that of the two halves of the sum of its halfwords, stays below 2 ^ 16.
pub from64to16_iff :
    (x : ℕ)
    → x < 2 ^ 64
    → (from64to16 x % 65535 ≡ x % 65535) ↔ (halves x % 2 ^ 16 + halves x / 2 ^ 16 < 2 ^ 16)
unfolding from64to16
from64to16_iff x h = rw (sym (halves_mod x h)) (fold_iff (halves x) (omega arith))

-- In any case the fold is right or one too small.
pub from64to16_cases :
    (x : ℕ)
    → x < 2 ^ 64
    → (from64to16 x % 65535 ≡ x % 65535) ⊎ ((from64to16 x + 1) % 65535 ≡ x % 65535)
unfolding from64to16
from64to16_cases x h = rw (sym (halves_mod x h)) (fold_cases (halves x) (omega arith))

-- Below 2 ^ 33 - 1 it is right.
pub from64to16_small : (x : ℕ) → x + 1 < 2 ^ 33 → from64to16 x % 65535 ≡ x % 65535
from64to16_small x h = (from64to16_iff x (omega arith)).1 (omega arith)

pub from64to16_bound : (x : ℕ) → from64to16 x < 2 ^ 16
unfolding from64to16
from64to16_bound x = omega arith
