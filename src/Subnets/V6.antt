-- ===== src/Subnets/V6.antt =====
-- The IPv6 part of `main` of ip2net/ip2net.c. An address is its 16 bytes in network order.
pub mod Network
use native.Mathlib.Decide.{dec_lt}
use fog_prime.Base.{
  ℕ, zero, suc, ◌+◌, ◌-◌, ◌/◌, ◌%◌, ◌^◌, ◌≤◌, ◌<◌, ◌≡◌, ◌⊎◌, inl, inr, refl, sym, ap, subst, true,
  false, ◌&&◌, ◌==◌, ltb, leb, if◌then◌else◌, List, [], ◌∷◌, ◌++◌, Option, some, get_or, replicate,
  bytes_eq, bytes_eq_iff, bit_and, u8, arith, Bool-cases, lt→ltb,
}
use fog_prime.Subnets.Options.{Params}
use fog_prime.Subnets.{Best, search, nothing_found, next_pos}
use fog_prime.Subnets.Find.{IsFound, search-IsFound}

-- ip6_mask[zct], as mask_from_bitcount6_make fills it
unfoldable pub mask_from_bitcount6 : ℕ → List ℕ
mask_from_bitcount6 zct =
    if leb 128 zct
    then replicate 16 0
    else (let n = (127 - zct) / 8 in
        replicate n 255 ++ (u8 (2 ^ 32 - 1 - (2 ^ (zct % 8) - 1)) ∷ replicate (15 - n) 0))

unfoldable pub ip6_and : List ℕ → List ℕ → List ℕ
ip6_and [] ys = []
ip6_and (a ∷ xs) [] = []
ip6_and (a ∷ xs) (b ∷ ys) = bit_and a b ∷ ip6_and xs ys

abbrev pub address_at : List (List ℕ) → ℕ → List ℕ
address_at iplist p = get_or iplist p []

-- The loop that counts the addresses with the same masked bytes.
unfoldable pub count_v6 : List (List ℕ) → ℕ → List ℕ → List ℕ → ℕ → ℕ → ℕ → ℕ × ℕ
unfolding ip6_and
count_v6 iplist ipct mask ip_start zero p ip_ct = (p, ip_ct)
count_v6 iplist ipct mask ip_start (suc fuel) p ip_ct =
    elim (ltb p ipct && bytes_eq ip_start (ip6_and (address_at iplist p) mask)) [
      | true ↦ count_v6 iplist ipct mask ip_start fuel (p + 1) (ip_ct + 1)
      | false ↦ (p, ip_ct)
    ]

unfoldable pub look_v6 : List (List ℕ) → ℕ → ℕ → ℕ → Option (ℕ × ℕ)
unfolding mask_from_bitcount6 ip6_and count_v6
look_v6 iplist ipct pos zct =
    let mask = mask_from_bitcount6 zct in
    some (count_v6 iplist ipct mask (ip6_and (address_at iplist pos) mask) ipct (pos + 1) 1)

-- The search, with `pos_end = pos + 1` and the threshold of --v6-threshold.
unfoldable pub best_v6 : Params → List (List ℕ) → ℕ → ℕ → Best
unfolding look_v6
best_v6 params iplist ipct pos =
    search (look_v6 iplist ipct pos) (λ zct. params.v6_threshold) params.zct_min params.zct_max
      (nothing_found (pos + 1))

-- The address that is printed and, for a subnet, its zct_best.
pub record Printed6 : Type 0 where
  pub ip_start : List ℕ
  pub zct_best : ℕ

unfoldable pub printed_v6 : Best → List ℕ → Printed6
unfolding mask_from_bitcount6 ip6_and
printed_v6 best ip = if best.zct_best == 0 then record { ip_start = ip; zct_best = 0 } else record {
  ip_start = ip6_and ip (mask_from_bitcount6 best.zct_best);
  zct_best = best.zct_best;
}

unfoldable pub group_v6 : Params → List (List ℕ) → ℕ → ℕ → ℕ → List Printed6
unfolding best_v6 printed_v6
group_v6 params iplist ipct zero pos = []
group_v6 params iplist ipct (suc fuel) pos = elim (ltb pos ipct) [
  | true ↦
      let best = best_v6 params iplist ipct pos in
      printed_v6 best (address_at iplist pos) ∷ group_v6 params iplist ipct fuel (next_pos best pos)
  | false ↦ []
]

-- A single address, or one with the masked bytes of the line.
abbrev pub Holds6 : Printed6 → List ℕ → Type 0
Holds6 line ip =
    ((line.zct_best ≡ 0) × (ip ≡ line.ip_start))
    ⊎ (ip6_and ip (mask_from_bitcount6 line.zct_best) ≡ line.ip_start)

abbrev pub Covered6 : List ℕ → List Printed6 → Type 0
Covered6 ip [] = ⊥
Covered6 ip (line ∷ lines) = Holds6 line ip ⊎ Covered6 ip lines

abbrev IsCounted6 : List (List ℕ) → ℕ → List ℕ → List ℕ → ℕ → ℕ × ℕ → Type 0
IsCounted6 iplist ipct mask ip_start pos (p, ip_ct) =
    (pos < p)
    × (p ≤ ipct)
    × ((q : ℕ) → pos < q → q < p → ip6_and (address_at iplist q) mask ≡ ip_start)

count_v6_lem :
    (iplist : List (List ℕ)) (ipct : ℕ) (mask ip_start : List ℕ) (pos fuel p ip_ct : ℕ)
    → pos < p
    → p ≤ ipct
    → ((q : ℕ) → pos < q → q < p → ip6_and (address_at iplist q) mask ≡ ip_start)
    → IsCounted6 iplist ipct mask ip_start pos (count_v6 iplist ipct mask ip_start fuel p ip_ct)
unfolding count_v6
count_v6_lem iplist ipct mask ip_start pos zero p ip_ct lt le same = (lt, le, same)
count_v6_lem iplist ipct mask ip_start pos (suc fuel) p ip_ct lt le same =
    elim (Bool-cases (ltb p ipct && bytes_eq ip_start (ip6_and (address_at iplist p) mask))) [
      | inl t ↦
          let here : ip6_and (address_at iplist p) mask ≡ ip_start =
            sym ((bytes_eq_iff ip_start (ip6_and (address_at iplist p) mask)).0 (ground arith)) in
          rw (t, count_v6)
            (count_v6_lem iplist ipct mask ip_start pos fuel (p + 1) (ip_ct + 1) (omega arith)
              (ground arith)
              (λ q l h. elim (dec_lt q p) [
                | yes before ↦ same q l before
                | no at ↦
                    let e : p ≡ q = omega arith in
                    subst (λ i. ip6_and (address_at iplist i) mask ≡ ip_start) e here
              ]))
      | inr f ↦ rw (f, count_v6) (lt, le, same)
    ]

look_v6_lem :
    (iplist : List (List ℕ)) (ipct pos zct p ip_ct : ℕ)
    → pos < ipct
    → look_v6 iplist ipct pos zct ≡ some (p, ip_ct)
    → IsCounted6 iplist ipct
        (mask_from_bitcount6 zct)
        (ip6_and (address_at iplist pos) (mask_from_bitcount6 zct))
        pos
        (p, ip_ct)
unfolding look_v6
look_v6_lem iplist ipct pos zct p ip_ct lt e =
    let mask = mask_from_bitcount6 zct in
    let start = ip6_and (address_at iplist pos) mask in
    let counted = count_v6 iplist ipct mask start ipct (pos + 1) 1 in
    let same : counted ≡ (p, ip_ct) = cc in
    subst (IsCounted6 iplist ipct mask start pos) same (
      count_v6_lem iplist ipct mask start pos ipct (pos + 1) 1 (omega arith) (omega arith)
        (λ q l h. absurd (omega arith)))

-- A round passes only addresses that its line holds.
abbrev IsRound6 : List (List ℕ) → ℕ → ℕ → Printed6 → ℕ → Type 0
IsRound6 iplist ipct pos line next =
    (pos < next)
    × (next ≤ ipct)
    × ((q : ℕ) → pos ≤ q → q < next → Holds6 line (address_at iplist q))

round_v6_lem :
    (params : Params) (iplist : List (List ℕ)) (ipct pos : ℕ) (best : Best)
    → pos < ipct
    → IsFound
        (look_v6 iplist ipct pos)
        (λ zct. params.v6_threshold)
        params.zct_min
        params.zct_max
        best
    → IsRound6 iplist ipct pos (printed_v6 best (address_at iplist pos)) (next_pos best pos)
unfolding printed_v6 next_pos
round_v6_lem params iplist ipct pos best lt (inl (z, n)) =
    let single : (best.zct_best == 0) ≡ true = ground arith in
    rw single (
      omega arith,
      omega arith,
      λ q l u. let e : q ≡ pos = omega arith in inl (refl, ap (address_at iplist) e),
    )
round_v6_lem params iplist ipct pos best lt (inr (nz, least, le, seen, enough, many)) =
    let subnet : (best.zct_best == 0) ≡ false = ground arith in
    let mask = mask_from_bitcount6 best.zct_best in
    let counted = look_v6_lem iplist ipct pos best.zct_best best.pos_end best.ip_ct_best lt seen in
    rw subnet (
      counted.0,
      counted.1,
      λ q l u. elim (dec_lt pos q) [
        | yes after ↦ inr (counted.2 q after u)
        | no at ↦
            let e : q ≡ pos = omega arith in inr (ap (λ i. ip6_and (address_at iplist i) mask) e)
      ],
    )

covers6_from :
    (params : Params) (iplist : List (List ℕ)) (ipct fuel pos q : ℕ)
    → ipct ≤ fuel + pos
    → pos ≤ q
    → q < ipct
    → Covered6 (address_at iplist q) (group_v6 params iplist ipct fuel pos)
unfolding group_v6 best_v6
covers6_from params iplist ipct zero pos q enough le lt = absurd (omega arith)
covers6_from params iplist ipct (suc fuel) pos q enough le lt =
    let best = best_v6 params iplist ipct pos in
    let found =
      search-IsFound (look_v6 iplist ipct pos) (λ zct. params.v6_threshold) params.zct_min
        params.zct_max params.zct_max (nothing_found (pos + 1)) (omega arith) (inl (refl, refl)) in
    let round = round_v6_lem params iplist ipct pos best (omega arith) found in
    rw (lt→ltb pos ipct (omega arith), group_v6)
      (elim (dec_lt q (next_pos best pos)) [
        | yes before ↦ inl (round.2 q le before)
        | no later ↦ inr (
            covers6_from params iplist ipct fuel (next_pos best pos) q (omega (arith, round.0))
              (omega arith) lt)
      ])

-- Each address of the list is printed, or has under the mask of a printed subnet the bytes that are
-- printed for it; `ipct` rounds are enough.
pub group_v6_masked :
    (params : Params) (iplist : List (List ℕ)) (ipct q : ℕ)
    → q < ipct
    → Covered6 (address_at iplist q) (group_v6 params iplist ipct ipct 0)
group_v6_masked params iplist ipct q lt =
    covers6_from params iplist ipct ipct 0 q (omega arith) (omega arith) lt
