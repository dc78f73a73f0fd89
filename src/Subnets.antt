-- ===== src/Subnets.antt =====
-- ip2net/ip2net.c: a sorted list of addresses is grouped into subnets. The IPv4 part of `main`
-- stands here, on the array `iplist` of `ipct` addresses; the parameters and the IPv6 part are child
-- modules.
pub mod Options
pub mod Mask
pub mod Blocks
pub mod Count
pub mod Find
pub mod Cover
pub mod Nested
pub mod Apart
pub mod Full
pub mod Whole
pub mod V6
mod Tests
use fog_prime.Base.{
  ℕ, zero, suc, ◌+◌, ◌-◌, ◌*◌, ◌/◌, ◌^◌, Bool, true, false, ◌&&◌, ◌||◌, ◌==◌, ltb, leb,
  if◌then◌else◌, List, [], ◌∷◌, Option, none, some, byte, bit_and, bit_or, u32, add32, sub32,
}
use fog_prime.Subnets.Options.{Params}

-- ~x at 32 bits
abbrev pub not32 : ℕ → ℕ
not32 x = 2 ^ 32 - 1 - x

unfoldable pub mask_from_bitcount : ℕ → ℕ
mask_from_bitcount zct = if ltb zct 32 then not32 (2 ^ zct - 1) else 0

-- subnet_ct = ~mask + 1
unfoldable pub subnet_count : ℕ → ℕ
unfolding mask_from_bitcount
subnet_count zct = add32 (not32 (mask_from_bitcount zct)) 1

-- subnet_ct*params.pctmult / params.pctdiv
unfoldable pub threshold_v4 : Params → ℕ → ℕ
unfolding subnet_count
threshold_v4 params zct = u32 (subnet_count zct * params.pctmult) / params.pctdiv

-- The bound above which the address is skipped.
unfoldable pub skip_above : Params → ℕ → ℕ → ℕ
unfolding subnet_count
skip_above params zct ip_start =
    add32 ip_start (u32 (subnet_count zct * sub32 params.pctdiv params.pctmult) / params.pctdiv)

-- for (; p < ipct && iplist[p] <= ip_end; p++) ip_ct++;
unfoldable pub count_v4 : List ℕ → ℕ → ℕ → ℕ → ℕ → ℕ → ℕ × ℕ
count_v4 iplist ipct ip_end zero p ip_ct = (p, ip_ct)
count_v4 iplist ipct ip_end (suc fuel) p ip_ct = elim (ltb p ipct && leb (byte iplist p) ip_end) [
  | true ↦ count_v4 iplist ipct ip_end fuel (p + 1) (ip_ct + 1)
  | false ↦ (p, ip_ct)
]

-- One round of the search for the address at `pos`, up to the count: `none` is the `continue`.
unfoldable pub look_v4 : Params → List ℕ → ℕ → ℕ → ℕ → Option (ℕ × ℕ)
unfolding mask_from_bitcount skip_above count_v4
look_v4 params iplist ipct pos zct =
    let mask = mask_from_bitcount zct in
    let ip_start = bit_and (byte iplist pos) mask in
    if ltb (skip_above params zct ip_start) (byte iplist pos)
    then none
    else some (count_v4 iplist ipct (bit_or ip_start (not32 mask)) ipct (pos + 1) 1)

pub record Best : Type 0 where
  pub ip_ct_best : ℕ
  pub zct_best : ℕ
  pub pos_end : ℕ

pub data Verdict : Type 0 where
  pass : Verdict
  stop : Verdict
  keep : Best → Verdict

-- What a round does with the count: `pass` goes on, `stop` is a `break`.
unfoldable pub judge : ℕ → ℕ → Option (ℕ × ℕ) → Best → Verdict
judge threshold zct none best = pass
judge threshold zct (some (p, ip_ct)) best =
    if ip_ct == 1
    then stop
    else if leb threshold ip_ct
    then (if best.ip_ct_best == 0 || ip_ct == best.ip_ct_best
        then keep (record { ip_ct_best = ip_ct; zct_best = zct; pos_end = p })
        else stop)
    else pass

abbrev pub follow : Verdict → Best → (Best → Best) → Best
follow pass best rest = rest best
follow stop best rest = best
follow (keep found) best rest = rest found

-- for (zct = params.zct_max; zct >= params.zct_min; zct--), which IPv4 and IPv6 share. The loop
-- ends before `zct` wraps, since parse_params leaves 1 <= zct_min.
unfoldable pub search : (ℕ → Option (ℕ × ℕ)) → (ℕ → ℕ) → ℕ → ℕ → Best → Best
unfolding judge
search look threshold zct_min zero best = best
search look threshold zct_min (suc zct) best =
    if leb zct_min (suc zct)
    then follow (judge (threshold (suc zct)) (suc zct) (look (suc zct)) best) best
        (search look threshold zct_min zct)
    else best

-- A line of the output: a subnet, or with zct_best = 0 a single address.
pub record Printed : Type 0 where
  pub ip_start : ℕ
  pub zct_best : ℕ

abbrev pub nothing_found : ℕ → Best
nothing_found pos_end = record { ip_ct_best = 0; zct_best = 0; pos_end = pos_end }

-- The search for the address at `pos`. The source leaves `pos_end` without a value here, and sets it
-- before it reads it.
unfoldable pub best_v4 : Params → List ℕ → ℕ → ℕ → Best
unfolding search look_v4 threshold_v4
best_v4 params iplist ipct pos =
    search (look_v4 params iplist ipct pos) (threshold_v4 params) params.zct_min params.zct_max
      (nothing_found (pos + 1))

unfoldable pub printed_v4 : Best → ℕ → Printed
unfolding mask_from_bitcount
printed_v4 best ip = if best.zct_best == 0 then record { ip_start = ip; zct_best = 0 } else record {
  ip_start = bit_and ip (mask_from_bitcount best.zct_best);
  zct_best = best.zct_best;
}

unfoldable pub next_pos : Best → ℕ → ℕ
next_pos best pos = if best.zct_best == 0 then pos + 1 else best.pos_end

-- while (pos < ipct), in `fuel` rounds at most
unfoldable pub group_v4 : Params → List ℕ → ℕ → ℕ → ℕ → List Printed
unfolding best_v4 printed_v4 next_pos
group_v4 params iplist ipct zero pos = []
group_v4 params iplist ipct (suc fuel) pos = elim (ltb pos ipct) [
  | true ↦
      let best = best_v4 params iplist ipct pos in
      printed_v4 best (byte iplist pos) ∷ group_v4 params iplist ipct fuel (next_pos best pos)
  | false ↦ []
]
