-- ===== src/Subnets/Full.antt =====
-- The subnets that ip2net/ip2net.c prints for IPv4 are as full as the threshold says.
use native.Mathlib.Decide.{dec_lt}
use native.Mathlib.Nat.{pow-le-pow_right}
use fog_prime.Base.{
  ℕ, zero, suc, ◌+◌, ◌-◌, ◌*◌, ◌/◌, ◌^◌, ◌≤◌, ◌<◌, ◌≡◌, ◌⊎◌, inl, inr, sym, ap, ◌∙◌, List, [], ◌∷◌,
  byte, arith, u32,
}
use fog_prime.Subnets.Options.{Params}
use fog_prime.Subnets.{Printed, subnet_count, threshold_v4, best_v4, group_v4}
use fog_prime.Subnets.Mask.{pow_pos}
use fog_prime.Subnets.Blocks.{not32-mask}
use fog_prime.Subnets.Apart.{after-ge, found_many}
use fog_prime.Subnets.Cover.{
  Holds, IsAcceptedV4, IsAscending, best_v4-IsFound, line_at, after, line_at-IsRound, line_at-zct,
  group_v4_round, group_v4_done,
}

-- A single address, or a subnet that holds a run of two addresses of the list or more, and no fewer
-- than pctmult/pctdiv of its size, rounded down.
abbrev pub IsFull : Params → List ℕ → ℕ → Printed → Type 0
IsFull params iplist ipct line =
    (line.zct_best ≡ 0)
    ⊎ ((i n : ℕ) × (i + n ≤ ipct)
        × (2 ≤ n)
        × (2 ^ line.zct_best * params.pctmult / params.pctdiv ≤ n)
        × ((q : ℕ) → i ≤ q → q < i + n → Holds line (byte iplist q)))

abbrev pub AllFull : Params → List ℕ → ℕ → List Printed → Type 0
AllFull params iplist ipct [] = Unit
AllFull params iplist ipct (line ∷ lines) =
    IsFull params iplist ipct line × AllFull params iplist ipct lines

subnet_count_lem : (zct : ℕ) → zct < 32 → subnet_count zct ≡ 2 ^ zct
unfolding subnet_count
subnet_count_lem zct h =
    let below : zct ≤ 31 = omega arith in
    let le : 2 ^ zct ≤ 2 ^ 31 = pow-le-pow_right (omega arith) below in
    omega (arith, not32-mask zct h, le, pow_pos zct)

-- With no overflow the threshold is pctmult/pctdiv of the size.
mul_mono : (a b c : ℕ) → a ≤ b → a * c ≤ b * c
mul_mono a b c h = grind arith

pub threshold_v4_lem :
    (params : Params) (zct : ℕ)
    → zct < 32
    → 2 ^ zct * params.pctmult < 2 ^ 32
    → threshold_v4 params zct ≡ 2 ^ zct * params.pctmult / params.pctdiv
unfolding threshold_v4
threshold_v4_lem params zct h small =
    let size : subnet_count zct * params.pctmult ≡ 2 ^ zct * params.pctmult =
      ap (λ n. n * params.pctmult) (subnet_count_lem zct h) in
    let word : u32 (subnet_count zct * params.pctmult) ≡ 2 ^ zct * params.pctmult =
      omega (arith, size) in
    ap (λ n. n / params.pctdiv) word

module _ (params : Params) (iplist : List ℕ) (ipct : ℕ) (accepted : IsAcceptedV4 params)
    (ascending : IsAscending iplist ipct)
    (no_overflow : 2 ^ params.zct_max * params.pctmult < 2 ^ 32) where
  IsFull-round :
      (pos : ℕ)
      → pos < ipct
      → IsFull params iplist ipct (line_at params iplist ipct accepted ascending pos)
  IsFull-round pos lt =
      let best = best_v4 params iplist ipct pos in
      let line = line_at params iplist ipct accepted ascending pos in
      let next = after params iplist ipct accepted ascending pos in
      let round = line_at-IsRound params iplist ipct accepted ascending pos lt in
      let size = line_at-zct params iplist ipct accepted ascending pos in
      let passed = after-ge params iplist ipct accepted ascending pos lt in
      elim (best_v4-IsFound params iplist ipct pos) [
        | inl (z, n) ↦ inl (size ∙ z)
        | inr (nz, least, le, seen, enough, many) ↦
            let two = found_many params iplist ipct accepted ascending pos lt nz in
            let power : 2 ^ best.zct_best ≤ 2 ^ params.zct_max =
              pow-le-pow_right (omega arith) le in
            let small : 2 ^ best.zct_best * params.pctmult ≤ 2 ^ params.zct_max * params.pctmult =
              mul_mono (2 ^ best.zct_best) (2 ^ params.zct_max) params.pctmult power in
            let threshold =
              threshold_v4_lem params best.zct_best (omega (arith, accepted.1)) (omega arith) in
            let here : 2 ^ line.zct_best * params.pctmult / params.pctdiv
                ≡ threshold_v4 params best.zct_best =
              ap (λ z. 2 ^ z * params.pctmult / params.pctdiv) size ∙ sym threshold in
            inr (
              pos,
              next - pos,
              omega (arith, round.0, round.1),
              omega arith,
              omega arith,
              λ q l u. round.4 q l (omega (arith, round.0)),
            )
      ]

  IsFull-from : (fuel pos : ℕ) → AllFull params iplist ipct (group_v4 params iplist ipct fuel pos)
  unfolding group_v4
  IsFull-from zero pos = tt
  IsFull-from (suc fuel) pos = elim (dec_lt pos ipct) [
    | yes lt ↦
        rw (group_v4_round params iplist ipct accepted ascending fuel pos lt)
          (IsFull-round pos lt, IsFull-from fuel (after params iplist ipct accepted ascending pos))
    | no done ↦ rw (group_v4_done params iplist ipct fuel pos done) tt
  ]

  -- When the options are accepted, the list is ascending and the largest subnet's size times
  -- pctmult fits 32 bits, then each subnet that is printed holds at least two addresses of the list,
  -- and at least pctmult/pctdiv of its size, rounded down.
  pub group_v4_full : AllFull params iplist ipct (group_v4 params iplist ipct ipct 0)
  group_v4_full = IsFull-from ipct 0
