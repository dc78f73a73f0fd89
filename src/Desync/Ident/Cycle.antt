-- ===== src/Desync/Ident/Cycle.antt =====
-- The identifications of consecutive packets.
use fog_prime.Base.{
  ℕ, zero, suc, ◌+◌, ◌-◌, ◌%◌, ◌^◌, ◌<◌, ◌≤◌, ◌≡◌, ◌==◌, refl, ◌∙◌, true, false, u16, arith,
  Bool-cases, inl, inr,
}
use fog_prime.Desync.Ident.{
  ipid_seq, swap16, net16_add, add_not_zero, ip4_ip_id_add, ip4_ip_id_next,
}

swap_swap : (x : ℕ) → x < 2 ^ 16 → swap16 (swap16 x) ≡ x
swap_swap x h = omega (arith, h)

swap_bounds : (x : ℕ) → x < 2 ^ 16 → 1 ≤ x → (1 ≤ swap16 x) × (swap16 x < 2 ^ 16)
swap_bounds x h1 h2 = (omega (arith, h1, h2), omega (arith, h1))

net16_add-next : (x : ℕ) → swap16 x < 65535 → u16 (net16_add x 1) ≡ swap16 (swap16 x + 1)
unfolding net16_add
net16_add-next x h = same (swap16 x) h
  where
    same : (y : ℕ) → y < 65535 → u16 (swap16 (u16 (y + 1))) ≡ swap16 (y + 1)
    same y h = omega (arith, h)

net16_add-last : (x : ℕ) → swap16 x ≡ 65535 → u16 (net16_add x 1) ≡ 0
unfolding net16_add
net16_add-last x h = rw h refl

net16_add-zero : u16 (net16_add 0 1) ≡ 256
unfolding net16_add
net16_add-zero = refl

add_next :
    (x : ℕ) → 1 ≤ x → x < 2 ^ 16 → swap16 x < 65535 → add_not_zero x 1 ≡ swap16 (swap16 x + 1)
unfolding add_not_zero
add_next x h1 h2 h =
    let some_id : (x == 0) ≡ false = ground arith in
    let next = net16_add-next x h in
    let b = swap_bounds (swap16 x + 1) (omega (arith, h)) (omega arith) in
    let more : (swap16 (swap16 x + 1) == 0) ≡ false = not_zero (swap16 (swap16 x + 1)) b.0 in
    rw (some_id, next, more) refl
  where
    not_zero : (y : ℕ) → 1 ≤ y → (y == 0) ≡ false
    not_zero y h = ground arith

add_last : (x : ℕ) → 1 ≤ x → swap16 x ≡ 65535 → add_not_zero x 1 ≡ 256
unfolding add_not_zero
add_last x h1 h =
    let some_id : (x == 0) ≡ false = ground arith in rw (some_id, net16_add-last x h) net16_add-zero

-- An identification in use, in network byte order.
pub record IsId (x : ℕ) : Type 0 where
  pub positive : 1 ≤ x
  pub small : x < 2 ^ 16

next_lem :
    (random x : ℕ)
    → IsId x
    → IsId (ip4_ip_id_next random x ipid_seq)
      × (swap16 (ip4_ip_id_next random x ipid_seq) ≡ swap16 x % 65535 + 1)
unfolding ip4_ip_id_add
next_lem random x i =
    let b = swap_bounds x i.small i.positive in
    elim (Bool-cases (swap16 x == 65535)) [
      | inl e ↦
          let last : swap16 x ≡ 65535 = equal (swap16 x) e in
          rw (add_last x i.positive last)
            (record { positive = omega arith; small = omega arith }, rw last refl)
      | inr e ↦
          let more : swap16 x < 65535 = below (swap16 x) e b.1 in
          let c = swap_bounds (swap16 x + 1) (omega (arith, more)) (omega arith) in
          rw (add_next x i.positive i.small more) (
            record { positive = c.0; small = c.1 },
            swap_swap (swap16 x + 1) (omega (arith, more)) ∙ step (swap16 x) more,
          )
    ]
  where
    equal : (y : ℕ) → (y == 65535) ≡ true → y ≡ 65535
    equal y e = ground arith

    below : (y : ℕ) → (y == 65535) ≡ false → y < 2 ^ 16 → y < 65535
    below y e h = ground arith

    step : (y : ℕ) → y < 65535 → y + 1 ≡ y % 65535 + 1
    step y h = omega (arith, h)

-- `k` times IP4_IP_ID_NEXT.
pub ids : ℕ → ℕ → ℕ → ℕ
ids random x zero = x
ids random x (suc k) = ip4_ip_id_next random (ids random x k) ipid_seq

first_id : (y : ℕ) → 1 ≤ y → y < 2 ^ 16 → y ≡ (y - 1 + 0) % 65535 + 1
first_id y h1 h2 = omega (arith, h1, h2)

following_id :
    (y z k : ℕ) → z ≡ (y - 1 + k) % 65535 + 1 → z % 65535 + 1 ≡ (y - 1 + suc k) % 65535 + 1
following_id y z k e = omega (arith, e)

ids_all :
    (random x k : ℕ)
    → IsId x
    → IsId (ids random x k) × (swap16 (ids random x k) ≡ (swap16 x - 1 + k) % 65535 + 1)
unfolding ids
ids_all random x zero i =
    let b = swap_bounds x i.small i.positive in (i, first_id (swap16 x) b.0 b.1)
ids_all random x (suc k) i =
    let (i', e) = ids_all random x k i in
    let (i2, e2) = next_lem random (ids random x k) i' in
    (i2, e2 ∙ following_id (swap16 x) (swap16 (ids random x k)) k e)

-- In the mode for sequences, the identifications that follow one that is not zero are the next
-- numbers, in host byte order, with 1 after 65535: after `k` steps from the number h it is
-- (h - 1 + k) % 65535 + 1, so none is zero and 65535 of them in a row are different.
pub ids_lem :
    (random x k : ℕ) → 1 ≤ x → x < 2 ^ 16 → swap16 (ids random x k) ≡ (swap16 x - 1 + k) % 65535 + 1
ids_lem random x k h1 h2 = (ids_all random x k (record { positive = h1; small = h2 })).1
