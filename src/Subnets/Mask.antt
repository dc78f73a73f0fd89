-- ===== src/Subnets/Mask.antt =====
-- The bitwise operations of ip2net/ip2net.c as division: what a netmask keeps of an address, and what
-- its complement adds. Each law is an induction along the digits of the address.
use Prim.Native.Nat.{bit_and-bitwise, bit_or-bitwise, digits}
use native.Mathlib.Nat.{div-div-eq-div-mul, pow-succ', zero-div}
use fog_prime.Base.{
  ℕ, zero, suc, ◌+◌, ◌-◌, ◌*◌, ◌/◌, ◌%◌, ◌^◌, ◌≤◌, ◌<◌, ◌≡◌, refl, sym, ap, ◌∙◌, min, max, bit_and,
  bit_or, arith,
}

pub pow_pos : (n : ℕ) → 0 < 2 ^ n
pow_pos zero = omega arith
pow_pos (suc n) = omega (arith, pow_pos n)

split_twice : (q n : ℕ) → q * (2 * n) ≡ 2 * (q * n)
split_twice q n = grind arith

-- A multiple of a power of two, and the same cut by one digit.
double : (q z : ℕ) → q * 2 ^ suc z ≡ 2 * (q * 2 ^ z)
double q z = ap (λ n. q * n) (pow-succ' 2 z) ∙ split_twice q (2 ^ z)

cut_digit : (a z : ℕ) → a / 2 ^ suc z ≡ a / 2 / 2 ^ z
cut_digit a z = ap (λ n. a / n) (pow-succ' 2 z) ∙ sym (div-div-eq-div-mul a 2 (2 ^ z))

cut_block : (a z : ℕ) → a / 2 ^ suc z * 2 ^ suc z ≡ 2 * (a / 2 / 2 ^ z * 2 ^ z)
cut_block a z = ap (λ q. q * 2 ^ suc z) (cut_digit a z) ∙ double (a / 2 / 2 ^ z) z

pow_sum : (z w : ℕ) → 2 ^ (suc z + w) ≡ 2 * 2 ^ (z + w)
pow_sum z w =
    let next : suc z + w ≡ suc (z + w) = omega arith in ap (λ n. 2 ^ n) next ∙ pow-succ' 2 (z + w)

pow_none : (w : ℕ) → 2 ^ (0 + w) ≡ 2 ^ w
pow_none w = let same : 0 + w ≡ w = omega arith in ap (λ n. 2 ^ n) same

-- The digits of `a` against w ones that z zeros follow, for `fuel` digits.
abbrev masked : ℕ → ℕ → ℕ → ℕ
masked fuel a m = digits (λ b. 0) min fuel a m

no_digits : (z : ℕ) → 0 ≡ 0 / 2 ^ z * 2 ^ z
no_digits z =
    let none_left : 0 / 2 ^ z ≡ 0 = zero-div (2 ^ z) in omega (arith, ap (λ q. q * 2 ^ z) none_left)

mask_digits :
    (fuel z w a : ℕ)
    → a ≤ fuel
    → a < 2 ^ (z + w)
    → masked fuel a (2 ^ (z + w) - 2 ^ z) ≡ a / 2 ^ z * 2 ^ z
mask_digits zero z w zero le lt = no_digits z
mask_digits zero z w (suc a) le lt = absurd (omega arith)
mask_digits (suc fuel) z w zero le lt = no_digits z
mask_digits (suc fuel) zero zero (suc a) le lt = absurd (omega arith)
mask_digits (suc fuel) zero (suc w) (suc a) le lt =
    let m = 2 ^ (0 + suc w) - 2 ^ 0 in
    let whole : 2 ^ (0 + suc w) ≡ 2 * 2 ^ w = pow_none (suc w) ∙ pow-succ' 2 w in
    let rest : m / 2 ≡ 2 ^ (0 + w) - 2 ^ 0 = omega (arith, whole, pow_none w, pow_pos w) in
    let lowest : m % 2 ≡ 1 = omega (arith, whole, pow_pos w) in
    let ih = mask_digits fuel zero w (suc a / 2) (omega arith) (omega (arith, whole, pow_none w)) in
    omega (arith, ap (masked fuel (suc a / 2)) rest, ih, lowest)
mask_digits (suc fuel) (suc z) w (suc a) le lt =
    let m = 2 ^ (suc z + w) - 2 ^ suc z in
    let rest : m / 2 ≡ 2 ^ (z + w) - 2 ^ z = omega (arith, pow_sum z w) in
    let lowest : m % 2 ≡ 0 = omega (arith, pow_sum z w) in
    let ih = mask_digits fuel z w (suc a / 2) (omega arith) (omega (arith, pow_sum z w)) in
    omega (arith, ap (masked fuel (suc a / 2)) rest, ih, lowest, cut_block (suc a) z)

-- A netmask of w ones and z zeros leaves the start of the block of 2 ^ z addresses.
pub bit_and-mask :
    (z w a : ℕ) → a < 2 ^ (z + w) → bit_and a (2 ^ (z + w) - 2 ^ z) ≡ a / 2 ^ z * 2 ^ z
bit_and-mask z w a lt =
    bit_and-bitwise a (2 ^ (z + w) - 2 ^ z) ∙ mask_digits a z w a (omega arith) lt

-- The digits of the start of a block against z ones.
abbrev joined : ℕ → ℕ → ℕ → ℕ
joined fuel a m = digits (λ b. b) max fuel a m

join_digits :
    (fuel z q a : ℕ) → a ≡ q * 2 ^ z → a ≤ fuel → joined fuel a (2 ^ z - 1) ≡ a + (2 ^ z - 1)
join_digits zero z q zero e le = omega arith
join_digits zero z q (suc a) e le = absurd (omega arith)
join_digits (suc fuel) z q zero e le = omega arith
join_digits (suc fuel) zero q (suc a) e le =
    let ih = join_digits fuel zero (suc a / 2) (suc a / 2) (omega arith) (omega arith) in
    omega (arith, ih)
join_digits (suc fuel) (suc z) q (suc a) e le =
    let half : suc a / 2 ≡ q * 2 ^ z = omega (arith, double q z, e) in
    let even : suc a % 2 ≡ 0 = omega (arith, double q z, e) in
    let rest : (2 ^ suc z - 1) / 2 ≡ 2 ^ z - 1 = omega (arith, pow_pos z) in
    let lowest : (2 ^ suc z - 1) % 2 ≡ 1 = omega (arith, pow_pos z) in
    let ih = join_digits fuel z q (suc a / 2) half (omega arith) in
    omega (arith, ap (joined fuel (suc a / 2)) rest, ih, lowest, even, pow_pos z)

-- The complement of the netmask fills the block up to its last address.
pub bit_or-ones : (z q : ℕ) → bit_or (q * 2 ^ z) (2 ^ z - 1) ≡ q * 2 ^ z + (2 ^ z - 1)
bit_or-ones z q =
    bit_or-bitwise (q * 2 ^ z) (2 ^ z - 1)
    ∙ join_digits (q * 2 ^ z) z q (q * 2 ^ z) refl (omega arith)
