-- ===== src/Subnets/Cover.antt =====
-- One round of the main loop of ip2net/ip2net.c for IPv4, and what the output covers.
use native.Mathlib.Decide.{dec_lt}
use fog_prime.Base.{
  ℕ, zero, suc, ◌+◌, ◌^◌, ◌≤◌, ◌<◌, ◌≡◌, ◌⊎◌, inl, inr, refl, sym, ap, ◌∙◌, subst, true, false, ltb,
  Bool, Option, if◌then◌else◌, ◌==◌, List, [], ◌∷◌, none, some, byte, arith, Bool-cases, lt→ltb,
  Bool, Option, if◌then◌else◌,
}
use fog_prime.Subnets.Options.{Params}
use fog_prime.Subnets.{
  Best, Printed, skip_above, count_v4, look_v4, threshold_v4, best_v4, printed_v4, next_pos,
  group_v4, nothing_found,
}
use fog_prime.Subnets.Mask.{pow_pos}
use fog_prime.Subnets.Blocks.{
  first_of, last_of, bit_and-mask_from_bitcount, bit_or-mask_from_bitcount, in_block,
}
use fog_prime.Subnets.Count.{IsCounted, count_v4_lem}
use fog_prime.Subnets.Find.{IsFound, search-IsFound}

-- An address of the subnet that a line of the output names.
abbrev pub Holds : Printed → ℕ → Type 0
Holds line ip = (line.ip_start ≤ ip) × (ip < line.ip_start + 2 ^ line.zct_best)

abbrev pub Covered : ℕ → List Printed → Type 0
Covered ip [] = ⊥
Covered ip (line ∷ lines) = Holds line ip ⊎ Covered ip lines

-- The first `ipct` items are ascending 32-bit addresses, as the sort and `unique` leave them.
abbrev pub IsAscending : List ℕ → ℕ → Type 0
IsAscending iplist ipct =
    ((i : ℕ) → i < ipct → byte iplist i < 2 ^ 32)
    × ((i j : ℕ) → i < j → j < ipct → byte iplist i < byte iplist j)

-- The prefix lengths that parse_params accepts for IPv4.
abbrev pub IsAcceptedV4 : Params → Type 0
IsAcceptedV4 params = (0 < params.zct_min) × (params.zct_max < 32)

-- A look, with the ends of the subnet.
unfoldable pub look_at : Params → List ℕ → ℕ → ℕ → ℕ → Option (ℕ × ℕ)
look_at params iplist ipct pos zct =
    let ip = byte iplist pos in
    if ltb (skip_above params zct (first_of zct ip)) ip
    then none
    else some (count_v4 iplist ipct (last_of zct ip) ipct (pos + 1) 1)

pub look_v4_lem :
    (params : Params) (iplist : List ℕ) (ipct pos zct : ℕ)
    → zct < 32
    → byte iplist pos < 2 ^ 32
    → look_v4 params iplist ipct pos zct ≡ look_at params iplist ipct pos zct
unfolding look_v4 look_at
look_v4_lem params iplist ipct pos zct h word =
    rw
      (
        bit_and-mask_from_bitcount zct (byte iplist pos) h word,
        bit_or-mask_from_bitcount zct (byte iplist pos) h,
      )
      refl

if_some : {A : Type 0} (b : Bool) (c d : A) → (if b then none else some c) ≡ some d → c ≡ d
if_some true c d e = cc
if_some false c d e = cc

pub look_at-some :
    (params : Params) (iplist : List ℕ) (ipct pos zct p ip_ct : ℕ)
    → pos < ipct
    → look_at params iplist ipct pos zct ≡ some (p, ip_ct)
    → IsCounted iplist ipct (last_of zct (byte iplist pos)) pos (p, ip_ct)
unfolding look_at
look_at-some params iplist ipct pos zct p ip_ct lt e =
    let ip = byte iplist pos in
    let counted = count_v4 iplist ipct (last_of zct ip) ipct (pos + 1) 1 in
    let here : counted ≡ (p, ip_ct) =
      if_some (ltb (skip_above params zct (first_of zct ip)) ip) counted (p, ip_ct) e in
    subst (λ c. IsCounted iplist ipct (last_of zct ip) pos c) here
      (count_v4_lem iplist ipct (last_of zct ip) pos lt)

-- A line of the output names the block of the address at `pos`, the addresses up to `next` lie in it,
-- and the one at `next` lies above it.
abbrev pub IsRound : List ℕ → ℕ → ℕ → Printed → ℕ → Type 0
IsRound iplist ipct pos line next =
    (pos < next)
    × (next ≤ ipct)
    × (line.ip_start ≡ first_of line.zct_best (byte iplist pos))
    × (line.zct_best < 32)
    × ((q : ℕ) → pos ≤ q → q < next → Holds line (byte iplist q))
    × (next < ipct → line.ip_start + 2 ^ line.zct_best ≤ byte iplist next)

pub ascending_le :
    (iplist : List ℕ) (ipct : ℕ)
    → IsAscending iplist ipct
    → (i j : ℕ) → i ≤ j
    → j < ipct
    → byte iplist i ≤ byte iplist j
ascending_le iplist ipct (word, ascending) i j le lt = elim (dec_lt i j) [
  | yes before ↦ omega (arith, ascending i j before lt)
  | no same ↦
      let e : byte iplist i ≡ byte iplist j = ap (byte iplist) (omega arith) in omega (arith, e)
]

pub round_lem :
    (params : Params) (iplist : List ℕ) (ipct pos : ℕ)
    → IsAcceptedV4 params
    → IsAscending iplist ipct
    → pos < ipct
    → (best : Best)
    → IsFound
        (look_v4 params iplist ipct pos)
        (threshold_v4 params)
        params.zct_min
        params.zct_max
        best
    → IsRound iplist ipct pos (printed_v4 best (byte iplist pos)) (next_pos best pos)
unfolding printed_v4 next_pos
round_lem params iplist ipct pos (low, high) (word, ascending) lt best (inl (z, n)) =
    let single : (best.zct_best == 0) ≡ true = ground arith in
    rw single (
      omega arith,
      omega arith,
      omega arith,
      omega arith,
      λ q l u.
          let same : byte iplist q ≡ byte iplist pos = ap (byte iplist) (omega arith) in
          (omega arith, omega arith),
      λ more. omega (arith, ascending pos (pos + 1) (omega arith) more),
    )
round_lem params iplist ipct pos (low, high) (word, ascending) lt best
      (inr (nz, least, le, seen, enough, many)) =
    let subnet : (best.zct_best == 0) ≡ false = ground arith in
    let ip = byte iplist pos in
    let block = in_block (2 ^ best.zct_best) ip (pow_pos best.zct_best) in
    let seen_at =
      sym (look_v4_lem params iplist ipct pos best.zct_best (omega arith) (word pos lt)) ∙ seen in
    let counted =
      look_at-some params iplist ipct pos best.zct_best best.pos_end best.ip_ct_best lt seen_at in
    let start = bit_and-mask_from_bitcount best.zct_best ip (omega arith) (word pos lt) in
    let hold : (q : ℕ)
        → pos ≤ q
        → q < best.pos_end
        → Holds (record { ip_start = first_of best.zct_best ip; zct_best = best.zct_best })
            (byte iplist q) =
      λ q l u.
        let above = ascending_le iplist ipct (word, ascending) pos q l (omega (arith, counted.1)) in
        (
          omega (arith, block.0, above),
          elim (dec_lt pos q) [
            | yes after ↦ omega (arith, counted.3 q after u, pow_pos best.zct_best)
            | no same ↦
                let here : byte iplist q ≡ ip = ap (byte iplist) (omega arith) in
                omega (arith, block.1, here, pow_pos best.zct_best)
          ],
        ) in
    rw (subnet, start)
      (
        counted.0,
        counted.1,
        refl,
        omega arith,
        hold,
        λ more. omega (arith, counted.4 more, pow_pos best.zct_best),
      )

-- The search finds nothing, or what it has looked at; so the round is as described.
pub best_v4-IsFound :
    (params : Params) (iplist : List ℕ) (ipct pos : ℕ)
    → IsFound
        (look_v4 params iplist ipct pos)
        (threshold_v4 params)
        params.zct_min
        params.zct_max
        (best_v4 params iplist ipct pos)
unfolding best_v4
best_v4-IsFound params iplist ipct pos =
    search-IsFound (look_v4 params iplist ipct pos) (threshold_v4 params) params.zct_min
      params.zct_max params.zct_max (nothing_found (pos + 1)) (omega arith) (inl (refl, refl))

printed_v4-zct : (best : Best) (ip : ℕ) → (printed_v4 best ip).zct_best ≡ best.zct_best
unfolding printed_v4
printed_v4-zct best ip = elim (Bool-cases (best.zct_best == 0)) [
  | inl t ↦ rw t (ground arith)
  | inr f ↦ rw f refl
]

pub group_v4_done :
    (params : Params) (iplist : List ℕ) (ipct fuel pos : ℕ)
    → ¬ pos < ipct
    → group_v4 params iplist ipct (suc fuel) pos ≡ []
unfolding group_v4
group_v4_done params iplist ipct fuel pos h =
    let f : ltb pos ipct ≡ false = ground arith in rw (f, group_v4) refl

module _ (params : Params) (iplist : List ℕ) (ipct : ℕ) (accepted : IsAcceptedV4 params)
    (ascending : IsAscending iplist ipct) where
  pub line_at : ℕ → Printed
  line_at pos = printed_v4 (best_v4 params iplist ipct pos) (byte iplist pos)

  pub after : ℕ → ℕ
  after pos = next_pos (best_v4 params iplist ipct pos) pos

  pub line_at-IsRound : (pos : ℕ) → pos < ipct → IsRound iplist ipct pos (line_at pos) (after pos)
  unfolding line_at after
  line_at-IsRound pos lt =
      round_lem params iplist ipct pos accepted ascending lt (best_v4 params iplist ipct pos)
        (best_v4-IsFound params iplist ipct pos)

  pub line_at-zct : (pos : ℕ) → (line_at pos).zct_best ≡ (best_v4 params iplist ipct pos).zct_best
  unfolding line_at
  line_at-zct pos = printed_v4-zct (best_v4 params iplist ipct pos) (byte iplist pos)

  pub after_is : (pos : ℕ) → after pos ≡ next_pos (best_v4 params iplist ipct pos) pos
  unfolding after
  after_is pos = refl

  pub group_v4_round :
      (fuel pos : ℕ)
      → pos < ipct
      → group_v4 params iplist ipct (suc fuel) pos
        ≡ line_at pos ∷ group_v4 params iplist ipct fuel (after pos)
  unfolding group_v4 line_at after
  group_v4_round fuel pos lt = rw (lt→ltb pos ipct lt, group_v4) refl

  covers_from :
      (fuel pos q : ℕ)
      → ipct ≤ fuel + pos
      → pos ≤ q
      → q < ipct
      → Covered (byte iplist q) (group_v4 params iplist ipct fuel pos)
  covers_from zero pos q enough le lt = absurd (omega arith)
  covers_from (suc fuel) pos q enough le lt =
      let here : pos < ipct = omega arith in
      let round = line_at-IsRound pos here in
      rw (group_v4_round fuel pos here) (elim (dec_lt q (after pos)) [
        | yes before ↦ inl (round.4 q le before)
        | no later ↦ inr (covers_from fuel (after pos) q (omega (arith, round.0)) (omega arith) lt)
      ])

  -- When the options are accepted and the list is ascending, then each of its addresses lies in a
  -- subnet, or is one of the addresses, that is printed; `ipct` rounds are enough.
  pub group_v4_covers :
      (q : ℕ) → q < ipct → Covered (byte iplist q) (group_v4 params iplist ipct ipct 0)
  group_v4_covers q lt = covers_from ipct 0 q (omega arith) (omega arith) lt
