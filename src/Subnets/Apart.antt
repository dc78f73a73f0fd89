-- ===== src/Subnets/Apart.antt =====
-- The output of ip2net/ip2net.c for IPv4 is ascending, and its subnets are apart.
use native.Mathlib.Decide.{dec_lt}
use fog_prime.Base.{
  ℕ, zero, suc, ◌+◌, ◌-◌, ◌*◌, ◌/◌, ◌^◌, ◌≤◌, ◌<◌, ◌≡◌, ◌≢◌, inl, inr, refl, sym, ap, ◌∙◌, subst,
  List, [], ◌∷◌, byte, arith, Option-cases,
}
use fog_prime.Subnets.Options.{Params}
use fog_prime.Subnets.{
  Best, Printed, look_v4, threshold_v4, best_v4, next_pos, group_v4, nothing_found,
}
use fog_prime.Subnets.Mask.{pow_pos}
use fog_prime.Subnets.Blocks.{last_of, in_block, last_of_mono, apart_or_larger}
use fog_prime.Subnets.Count.{IsCounted}
use fog_prime.Subnets.Find.{IsFound, IsLarger, search-wins}
use fog_prime.Subnets.Nested.{count_grows, count_earlier, not_skipped}
use fog_prime.Subnets.Cover.{
  IsAcceptedV4, IsAscending, look_at, look_v4_lem, look_at-some, ascending_le, best_v4-IsFound,
  line_at, after, line_at-IsRound, line_at-zct, after_is, group_v4_round, group_v4_done,
}

-- Each line ends below the start of the next.
abbrev pub BelowHead : Printed → List Printed → Type 0
BelowHead line [] = Unit
BelowHead line (next ∷ lines) = line.ip_start + 2 ^ line.zct_best ≤ next.ip_start

abbrev pub IsApart : List Printed → Type 0
IsApart [] = Unit
IsApart (line ∷ lines) = BelowHead line lines × IsApart lines

module _ (params : Params) (iplist : List ℕ) (ipct : ℕ) (accepted : IsAcceptedV4 params)
    (ascending : IsAscending iplist ipct) where
  look_same :
      (pos zct : ℕ)
      → zct < 32
      → pos < ipct
      → look_v4 params iplist ipct pos zct ≡ look_at params iplist ipct pos zct
  look_same pos zct h lt = look_v4_lem params iplist ipct pos zct h (ascending.0 pos lt)

  -- What is seen of a larger subnet has as many addresses.
  IsLarger-seen :
      (pos zct w p ip_ct : ℕ)
      → pos < ipct
      → zct ≤ w
      → w < 32
      → IsCounted iplist ipct (last_of zct (byte iplist pos)) pos (p, ip_ct)
      → IsLarger (look_v4 params iplist ipct pos) ip_ct w
  IsLarger-seen pos zct w p ip_ct lt le h counted =
      elim (Option-cases (look_v4 params iplist ipct pos w)) [
        | inl skipped ↦ inl skipped
        | inr ((p2, ip_ct2), e) ↦
            let counted2 =
              look_at-some params iplist ipct pos w p2 ip_ct2 lt (sym (look_same pos w h lt) ∙ e) in
            inr (
              p2,
              ip_ct2,
              e,
              count_grows iplist ipct pos (last_of zct (byte iplist pos))
                  (last_of w (byte iplist pos)) p ip_ct p2 ip_ct2
                  (last_of_mono zct w (byte iplist pos) le) counted counted2,
            )
      ]

  -- A subnet found for the address at `next` would have been found for the one at `pos`, had that one
  -- been in it.
  reaches :
      (pos next : ℕ) (best : Best)
      → pos < next
      → next < ipct
      → IsFound
          (look_v4 params iplist ipct next)
          (threshold_v4 params)
          params.zct_min
          params.zct_max
          best
      → best.zct_best ≢ 0
      → byte iplist pos / 2 ^ best.zct_best ≡ byte iplist next / 2 ^ best.zct_best
      → next < pos + (best_v4 params iplist ipct pos).ip_ct_best
  unfolding best_v4
  reaches pos next best lt more (inl (z, n)) found same = absurd (found z)
  reaches pos next best lt more (inr (nz, least, le, seen, enough, many)) found same =
      let zct = best.zct_best in
      let small : zct < 32 = omega (arith, accepted.1) in
      let start = byte iplist pos in
      let here : pos < ipct = omega arith in
      let at_next = sym (look_same next zct small more) ∙ seen in
      let counted2 =
        look_at-some params iplist ipct next zct best.pos_end best.ip_ct_best more at_next in
      let up = ascending_le iplist ipct ascending pos next (omega arith) more in
      let look =
        not_skipped params iplist ipct pos next zct (best.pos_end, best.ip_ct_best) up same
          at_next in
      let counted = look_at-some params iplist ipct pos zct look.0 look.1 here look.2 in
      let end : last_of zct (byte iplist next) ≡ last_of zct start =
        ap (λ q. q * 2 ^ zct + (2 ^ zct - 1)) (sym same) in
      let further : best.pos_end ≤ look.0 =
        count_earlier iplist ipct pos next (last_of zct start) look.0 look.1 best.pos_end
          best.ip_ct_best ascending lt more
          (omega (arith, end, (in_block (2 ^ zct) (byte iplist next) (pow_pos zct)).1)) counted
          (subst (λ l. IsCounted iplist ipct l next (best.pos_end, best.ip_ct_best)) end
            counted2) in
      let wins =
        search-wins (look_v4 params iplist ipct pos) (threshold_v4 params) params.zct_min zct look.0
          look.1 (look_same pos zct small here ∙ look.2) least
          (omega (arith, enough, further, counted.2, counted2.2))
          (omega (arith, further, counted.2, counted2.0)) params.zct_max (nothing_found (pos + 1))
          le (omega (arith, accepted.0)) refl
          (λ w l u.
            IsLarger-seen pos zct w look.0 look.1 here l (omega (arith, accepted.1)) counted) in
      omega (arith, wins, further, counted.2, counted2.0)

  passed :
      (pos : ℕ) (best : Best)
      → pos < ipct
      → IsFound
          (look_v4 params iplist ipct pos)
          (threshold_v4 params)
          params.zct_min
          params.zct_max
          best
      → (pos + best.ip_ct_best ≤ next_pos best pos) × (best.zct_best ≢ 0 → 2 ≤ best.ip_ct_best)
  unfolding next_pos
  passed pos best lt (inl (z, n)) = (ground arith, λ ne. absurd (ne z))
  passed pos best lt (inr (nz, least, le, seen, enough, many)) =
      let zct = best.zct_best in
      let seen_at = sym (look_same pos zct (omega (arith, accepted.1)) lt) ∙ seen in
      let counted =
        look_at-some params iplist ipct pos zct best.pos_end best.ip_ct_best lt seen_at in
      (ground (arith, counted.2), λ ne. omega (arith, counted.0, counted.2))

  -- The addresses counted for the best subnet are those that the round passes.
  pub after-ge :
      (pos : ℕ)
      → pos < ipct
      → pos + (best_v4 params iplist ipct pos).ip_ct_best
        ≤ after params iplist ipct accepted ascending pos
  after-ge pos lt =
      let best = best_v4 params iplist ipct pos in
      omega (
        arith,
        after_is params iplist ipct accepted ascending pos,
        (passed pos best lt (best_v4-IsFound params iplist ipct pos)).0,
      )

  pub found_many :
      (pos : ℕ)
      → pos < ipct
      → (best_v4 params iplist ipct pos).zct_best ≢ 0
      → 2 ≤ (best_v4 params iplist ipct pos).ip_ct_best
  found_many pos lt =
      let best = best_v4 params iplist ipct pos in
      (passed pos best lt (best_v4-IsFound params iplist ipct pos)).1

  apart_step :
      (pos : ℕ)
      → pos < ipct
      → after params iplist ipct accepted ascending pos < ipct
      → BelowHead (line_at params iplist ipct accepted ascending pos) (
          line_at params iplist ipct accepted ascending
            (after params iplist ipct accepted ascending pos)
          ∷ [])
  apart_step pos lt more =
      let next = after params iplist ipct accepted ascending pos in
      let line = line_at params iplist ipct accepted ascending pos in
      let line2 = line_at params iplist ipct accepted ascending next in
      let best2 = best_v4 params iplist ipct next in
      let round = line_at-IsRound params iplist ipct accepted ascending pos lt in
      let round2 = line_at-IsRound params iplist ipct accepted ascending next more in
      elim (apart_or_larger line.zct_best line2.zct_best (byte iplist pos) (byte iplist next)
        (omega (arith, round.2, round.5 more))) [
          | inl apart ↦ omega (arith, apart, round.2, round2.2)
          | inr (larger, same) ↦
              let size = line_at-zct params iplist ipct accepted ascending next in
              let reached =
                reaches pos next best2 round.0 more (best_v4-IsFound params iplist ipct next)
                  (omega (arith, size, larger))
                  (subst (λ z. byte iplist pos / 2 ^ z ≡ byte iplist next / 2 ^ z) size same) in
              absurd (omega (arith, reached, after-ge pos lt))
        ]

  head_apart :
      (fuel pos : ℕ)
      → pos < ipct
      → BelowHead
          (line_at params iplist ipct accepted ascending pos)
          (group_v4 params iplist ipct fuel (after params iplist ipct accepted ascending pos))
  unfolding group_v4
  head_apart zero pos lt = tt
  head_apart (suc fuel) pos lt =
      let next = after params iplist ipct accepted ascending pos in
      elim (dec_lt next ipct) [
        | yes more ↦
            rw (group_v4_round params iplist ipct accepted ascending fuel next more)
              (apart_step pos lt more)
        | no done ↦ rw (group_v4_done params iplist ipct fuel next done) tt
      ]

  IsApart-from : (fuel pos : ℕ) → IsApart (group_v4 params iplist ipct fuel pos)
  unfolding group_v4
  IsApart-from zero pos = tt
  IsApart-from (suc fuel) pos = elim (dec_lt pos ipct) [
    | yes lt ↦ rw (group_v4_round params iplist ipct accepted ascending fuel pos lt) (
      head_apart fuel pos lt,
      IsApart-from fuel (after params iplist ipct accepted ascending pos),
    )
    | no done ↦ rw (group_v4_done params iplist ipct fuel pos done) tt
  ]

  -- When the options are accepted and the list is ascending, then each subnet or address that is
  -- printed ends below the start of the next one: no two of them meet.
  pub group_v4-IsApart : IsApart (group_v4 params iplist ipct ipct 0)
  group_v4-IsApart = IsApart-from ipct 0
