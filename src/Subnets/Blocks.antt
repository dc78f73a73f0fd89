-- ===== src/Subnets/Blocks.antt =====
-- The subnet of an address, ip2net/ip2net.c: `ip & mask` and `ip_start | ~mask` are the ends of the
-- block of 2 ^ zct addresses that holds `ip`.
use native.Mathlib.Nat.{
  div-div-eq-div-mul, div-eq_of_lt-le, div-mul-le_self, lt-div-mul-add, pow-le-pow_right, pow-suc,
  le-div_iff_mul-le, div-lt_iff_lt-mul,
}
use native.Mathlib.Decide.{dec_le}
use fog_prime.Base.{
  ℕ, zero, suc, subst, ◌+◌, ◌-◌, ◌*◌, ◌/◌, ◌^◌, ◌≤◌, ◌<◌, ◌≡◌, sym, ap, ◌∙◌, bit_and, bit_or, ◌⊎◌,
  inl, inr, arith, lt→ltb,
}
use fog_prime.Subnets.{not32, mask_from_bitcount}
use fog_prime.Subnets.Mask.{pow_pos, bit_and-mask, bit_or-ones}

abbrev pub first_of : ℕ → ℕ → ℕ
first_of zct ip = ip / 2 ^ zct * 2 ^ zct

abbrev pub last_of : ℕ → ℕ → ℕ
last_of zct ip = ip / 2 ^ zct * 2 ^ zct + (2 ^ zct - 1)

pow_whole : (zct : ℕ) → zct < 32 → 2 ^ (zct + (32 - zct)) ≡ 2 ^ 32
pow_whole zct h = let whole : zct + (32 - zct) ≡ 32 = omega arith in ap (λ n. 2 ^ n) whole

mask_is : (zct : ℕ) → zct < 32 → mask_from_bitcount zct ≡ 2 ^ (zct + (32 - zct)) - 2 ^ zct
unfolding mask_from_bitcount
mask_is zct h = rw (lt→ltb zct 32 h) omega (arith, pow_whole zct h, pow_pos zct)

pub not32-mask : (zct : ℕ) → zct < 32 → not32 (mask_from_bitcount zct) ≡ 2 ^ zct - 1
not32-mask zct h =
    let below : zct ≤ 32 = omega arith in
    let le : 2 ^ zct ≤ 2 ^ 32 = pow-le-pow_right (omega arith) below in
    omega (arith, mask_is zct h, pow_whole zct h, le, pow_pos zct)

pub bit_and-mask_from_bitcount :
    (zct ip : ℕ) → zct < 32 → ip < 2 ^ 32 → bit_and ip (mask_from_bitcount zct) ≡ first_of zct ip
bit_and-mask_from_bitcount zct ip h lt =
    ap (bit_and ip) (mask_is zct h)
    ∙ bit_and-mask zct (32 - zct) ip (omega (arith, pow_whole zct h))

pub bit_or-mask_from_bitcount :
    (zct ip : ℕ)
    → zct < 32
    → bit_or (first_of zct ip) (not32 (mask_from_bitcount zct)) ≡ last_of zct ip
bit_or-mask_from_bitcount zct ip h =
    ap (bit_or (first_of zct ip)) (not32-mask zct h) ∙ bit_or-ones zct (ip / 2 ^ zct)

-- A block of d addresses, by its number.
pub in_block : (d a : ℕ) → 0 < d → (a / d * d ≤ a) × (a ≤ a / d * d + (d - 1))
in_block d a pos =
    (div-mul-le_self a d, (let lt : a < a / d * d + d = lt-div-mul-add pos in omega (arith, lt)))

pub block_of : (d q x : ℕ) → q * d ≤ x → x ≤ q * d + (d - 1) → 0 < d → x / d ≡ q
block_of d q x lo hi pos =
    let next : (q + 1) * d ≡ q * d + d = grind arith in div-eq_of_lt-le d lo (omega (arith, next))

pub block_mono : (d a b : ℕ) → 0 < d → a ≤ b → a / d ≤ b / d
block_mono d a b pos h =
    let lo = (in_block d a pos).0 in (le-div_iff_mul-le pos).1 (omega (arith, lo))

halve : (y a : ℕ) → a / 2 ^ suc y ≡ a / 2 ^ y / 2
halve y a = ap (λ n. a / n) (pow-suc 2 y) ∙ sym (div-div-eq-div-mul a (2 ^ y) 2)

pub coarser : (z y a b : ℕ) → z ≤ y → a / 2 ^ z ≡ b / 2 ^ z → a / 2 ^ y ≡ b / 2 ^ y
coarser z zero a b le e =
    let same : z ≡ 0 = omega arith in subst (λ n. a / 2 ^ n ≡ b / 2 ^ n) same e
coarser z (suc y) a b le e = elim (dec_le z y) [
  | yes h ↦ halve y a ∙ ap (λ q. q / 2) (coarser z y a b h e) ∙ sym (halve y b)
  | no h ↦ let same : z ≡ suc y = omega arith in subst (λ n. a / 2 ^ n ≡ b / 2 ^ n) same e
]

-- The last address of a block is in it, and the blocks of one address grow with their size.
pub last_of_block : (z ip : ℕ) → last_of z ip / 2 ^ z ≡ ip / 2 ^ z
last_of_block z ip =
    block_of (2 ^ z) (ip / 2 ^ z) (last_of z ip) (omega arith) (omega arith) (pow_pos z)

pub last_of_mono : (z y ip : ℕ) → z ≤ y → last_of z ip ≤ last_of y ip
last_of_mono z y ip le =
    let same : last_of z ip / 2 ^ y ≡ ip / 2 ^ y =
      coarser z y (last_of z ip) ip le (last_of_block z ip) in
    let bound = (in_block (2 ^ y) (last_of z ip) (pow_pos y)).1 in
    let scale : last_of z ip / 2 ^ y * 2 ^ y ≡ ip / 2 ^ y * 2 ^ y = ap (λ q. q * 2 ^ y) same in
    omega (arith, bound, scale)

-- The block of an address above another block begins above it too, or is larger and holds it.
small_apart : (z y a b : ℕ) → y ≤ z → first_of z a + 2 ^ z ≤ b → first_of z a + 2 ^ z ≤ first_of y b
small_apart z y a b le h = elim (dec_le (first_of z a + 2 ^ z) (first_of y b)) [
  | yes apart ↦ apart
  | no meets ↦
      let s = first_of y b in
      let s_block : s / 2 ^ y ≡ b / 2 ^ y =
        block_of (2 ^ y) (b / 2 ^ y) s (omega arith) (omega arith) (pow_pos y) in
      let same : s / 2 ^ z ≡ b / 2 ^ z = coarser y z s b le s_block in
      let next : (a / 2 ^ z + 1) * 2 ^ z ≡ first_of z a + 2 ^ z = grind arith in
      let below : s / 2 ^ z < a / 2 ^ z + 1 = (div-lt_iff_lt-mul (pow_pos z)).1 (omega arith) in
      let above : a / 2 ^ z + 1 ≤ b / 2 ^ z = (le-div_iff_mul-le (pow_pos z)).1 (omega arith) in
      absurd (omega arith)
]

large_apart :
    (z y a b : ℕ)
    → z ≤ y
    → first_of z a + 2 ^ z ≤ b
    → (first_of z a + 2 ^ z ≤ first_of y b) ⊎ (a / 2 ^ y ≡ b / 2 ^ y)
large_apart z y a b le h = elim (dec_le (first_of z a + 2 ^ z) (first_of y b)) [
  | yes apart ↦ inl apart
  | no meets ↦
      let l = last_of z a in
      let same : l / 2 ^ y ≡ a / 2 ^ y = coarser z y l a le (last_of_block z a) in
      let below : b / 2 ^ y ≤ l / 2 ^ y = (le-div_iff_mul-le (pow_pos y)).1 (omega arith) in
      let above : l / 2 ^ y ≤ b / 2 ^ y =
        block_mono (2 ^ y) l b (pow_pos y) (omega (arith, pow_pos z)) in
      inr (omega arith)
]

pub apart_or_larger :
    (z y a b : ℕ)
    → first_of z a + 2 ^ z ≤ b
    → (first_of z a + 2 ^ z ≤ first_of y b) ⊎ ((z < y) × (a / 2 ^ y ≡ b / 2 ^ y))
apart_or_larger z y a b h = elim (dec_le y z) [
  | yes small ↦ inl (small_apart z y a b small h)
  | no large ↦ elim (large_apart z y a b (omega arith) h) [
    | inl apart ↦ inl apart
    | inr same ↦ inr (omega arith, same)
  ]
]
