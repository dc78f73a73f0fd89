-- ===== src/Subnets/V6/Network.antt =====
-- The masks of ip2net/ip2net.c for IPv6 keep the first bits of an address.
use native.Mathlib.Decide.{dec_le}
use fog_prime.Base.{
  ℕ, zero, suc, ◌+◌, ◌-◌, ◌*◌, ◌/◌, ◌%◌, ◌^◌, ◌≤◌, ◌<◌, ◌≡◌, ◌⊎◌, inl, inr, refl, sym, ap, ◌∙◌, min,
  leb, List, [], ◌∷◌, ◌++◌, length, replicate, bit_and, u8, arith, Bool-cases,
}
use fog_prime.Subnets.Options.{Params}
use fog_prime.Subnets.Mask.{bit_and-mask}
use fog_prime.Subnets.V6.{
  mask_from_bitcount6, ip6_and, address_at, Printed6, group_v6, Covered6, group_v6_masked,
}

-- The first bits of a byte, as many as there are in `prefix`, and zeros.
abbrev pub first_bits : ℕ → ℕ → ℕ
first_bits prefix x = x / 2 ^ (8 - min 8 prefix) * 2 ^ (8 - min 8 prefix)

-- The first `prefix` bits of an address, and zeros.
pub network : ℕ → List ℕ → List ℕ
network prefix [] = []
network prefix (x ∷ xs) = first_bits prefix x ∷ network (prefix - 8) xs

abbrev AreBytes : List ℕ → Type 0
AreBytes [] = Unit
AreBytes (x ∷ xs) = (x < 256) × AreBytes xs

-- Sixteen bytes.
abbrev pub IsAddress6 : List ℕ → Type 0
IsAddress6 ip = (length ip ≡ 16) × AreBytes ip

mask_bytes : ℕ → ℕ → List ℕ
mask_bytes zero prefix = []
mask_bytes (suc m) prefix = (256 - 2 ^ (8 - min 8 prefix)) ∷ mask_bytes m (prefix - 8)

no_bits : (m : ℕ) → mask_bytes m 0 ≡ replicate m 0
unfolding mask_bytes
no_bits zero = refl
no_bits (suc m) = ap (λ (xs : List ℕ). 0 ∷ xs) (no_bits m)

small_power : (r : ℕ) → r < 8 → (0 < 2 ^ r) × (2 ^ r ≤ 128)
small_power zero h = omega arith
small_power (suc zero) h = omega arith
small_power (suc (suc zero)) h = omega arith
small_power (suc (suc (suc zero))) h = omega arith
small_power (suc (suc (suc (suc zero)))) h = omega arith
small_power (suc (suc (suc (suc (suc zero))))) h = omega arith
small_power (suc (suc (suc (suc (suc (suc zero)))))) h = omega arith
small_power (suc (suc (suc (suc (suc (suc (suc zero))))))) h = omega arith
small_power (suc (suc (suc (suc (suc (suc (suc (suc r)))))))) h = absurd (omega arith)

last_byte : (r : ℕ) → r < 8 → u8 (2 ^ 32 - 1 - (2 ^ r - 1)) ≡ 256 - 2 ^ r
last_byte r h = omega (arith, small_power r h)

abbrev filled : ℕ → ℕ → ℕ → List ℕ
filled m n zct =
    replicate n 255 ++ (u8 (2 ^ 32 - 1 - (2 ^ (zct % 8) - 1)) ∷ replicate (m - 1 - n) 0)

some_bits : (m p zct : ℕ) → p + zct ≡ 8 * m → 0 < p → mask_bytes m p ≡ filled m ((p - 1) / 8) zct
unfolding mask_bytes
some_bits zero p zct e h = absurd (omega arith)
some_bits (suc m) p zct e h = elim (dec_le p 8) [
  | yes le ↦
      let n : (p - 1) / 8 ≡ 0 = omega arith in
      let r : 8 - min 8 p ≡ zct % 8 = omega arith in
      let none_left : p - 8 ≡ 0 = omega arith in
      let zeros : suc m - 1 - 0 ≡ m = omega arith in
      rw (n, r, none_left, zeros, last_byte (zct % 8) (omega arith), no_bits m) refl
  | no gt ↦
      let n : (p - 1) / 8 ≡ suc ((p - 8 - 1) / 8) = omega arith in
      let r : 8 - min 8 p ≡ 0 = omega arith in
      let zeros : suc m - 1 - suc ((p - 8 - 1) / 8) ≡ m - 1 - (p - 8 - 1) / 8 = omega arith in
      rw (n, r, zeros)
        (ap (λ (xs : List ℕ). 255 ∷ xs) (some_bits m (p - 8) zct (omega arith) (omega arith)))
]

mask_is : (zct : ℕ) → mask_from_bitcount6 zct ≡ mask_bytes 16 (128 - zct)
unfolding mask_from_bitcount6
mask_is zct = elim (Bool-cases (leb 128 zct)) [
  | inl e ↦ let p : 128 - zct ≡ 0 = ground arith in rw (e, p) (sym (no_bits 16))
  | inr e ↦
      let lt : zct < 128 = ground arith in
      let n : (127 - zct) / 8 ≡ (128 - zct - 1) / 8 = omega arith in
      let k : 15 - (128 - zct - 1) / 8 ≡ 16 - 1 - (128 - zct - 1) / 8 = omega arith in
      rw (e, n) (rw k (sym (some_bits 16 (128 - zct) zct (omega arith) (omega arith))))
]

masked_byte : (k x : ℕ) → k ≤ 8 → x < 256 → bit_and x (256 - 2 ^ k) ≡ x / 2 ^ k * 2 ^ k
masked_byte k x le lt =
    let eight : k + (8 - k) ≡ 8 = omega arith in
    ap (λ w. bit_and x (2 ^ w - 2 ^ k)) (sym eight) ∙ bit_and-mask k (8 - k) x (rw eight lt)

and_bytes :
    (p : ℕ) (ip : List ℕ) → AreBytes ip → ip6_and ip (mask_bytes (length ip) p) ≡ network p ip
unfolding ip6_and mask_bytes network
and_bytes p [] h = refl
and_bytes p (x ∷ xs) (lt, h) =
    let here = masked_byte (8 - min 8 p) x (omega arith) lt in
    rw (here, and_bytes (p - 8) xs h) refl

and_mask :
    (zct : ℕ) (ip : List ℕ)
    → IsAddress6 ip
    → ip6_and ip (mask_from_bitcount6 zct) ≡ network (128 - zct) ip
and_mask zct ip (n, h) =
    rw (mask_is zct)
      (ap (λ m. ip6_and ip (mask_bytes m (128 - zct))) (sym n) ∙ and_bytes (128 - zct) ip h)

-- A line is printed as its address and `/` with 128 - zct_best, without that for a single address: the
-- first 128 - zct_best bits of the address are the line's.
abbrev pub Contains6 : Printed6 → List ℕ → Type 0
Contains6 line ip =
    ((line.zct_best ≡ 0) × (ip ≡ line.ip_start))
    ⊎ (network (128 - line.zct_best) ip ≡ line.ip_start)

abbrev pub IsContained6 : List ℕ → List Printed6 → Type 0
IsContained6 ip [] = ⊥
IsContained6 ip (line ∷ lines) = Contains6 line ip ⊎ IsContained6 ip lines

contained :
    (ip : List ℕ) (lines : List Printed6)
    → IsAddress6 ip
    → Covered6 ip lines
    → IsContained6 ip lines
contained ip [] a h = h
contained ip (line ∷ lines) a (inl (inl x)) = inl (inl x)
contained ip (line ∷ lines) a (inl (inr x)) = inl (inr (sym (and_mask line.zct_best ip a) ∙ x))
contained ip (line ∷ lines) a (inr x) = inr (contained ip lines a x)

-- Each address of the list, if it is sixteen bytes, is printed, or lies in a subnet that is printed
-- with the prefix length 128 - zct_best: the line's address has that many bits of it in front, and
-- zeros behind. `ipct` rounds are enough.
pub group_v6_covers :
    (params : Params) (iplist : List (List ℕ)) (ipct q : ℕ)
    → q < ipct
    → IsAddress6 (address_at iplist q)
    → IsContained6 (address_at iplist q) (group_v6 params iplist ipct ipct 0)
group_v6_covers params iplist ipct q lt a =
    contained (address_at iplist q) (group_v6 params iplist ipct ipct 0) a
      (group_v6_masked params iplist ipct q lt)
