-- ===== src/Subnets/Find.antt =====
-- The search of ip2net/ip2net.c for the best subnet of an address, which IPv4 and IPv6 share.
use native.Mathlib.Decide.{ℕ_discrete}
use fog_prime.Base.{
  ℕ, zero, suc, ◌≤◌, ◌<◌, ◌≡◌, ◌≢◌, ◌⊎◌, inl, inr, refl, ap, sym, ◌∙◌, ◌||◌, ◌==◌, leb, leb→le,
  true, Option, none, some, arith, Bool-cases,
}
use fog_prime.Subnets.{Best, Verdict, pass, stop, keep, judge, follow, search}

-- What a verdict says of the count that was looked at.
abbrev IsJudged : ℕ → ℕ → Option (ℕ × ℕ) → Best → Verdict → Type 0
IsJudged threshold zct seen best pass = (p ip_ct : ℕ) → seen ≡ some (p, ip_ct) → ip_ct < threshold
IsJudged threshold zct seen best stop =
    (p ip_ct : ℕ) × (seen ≡ some (p, ip_ct)) × ((ip_ct ≡ 1) ⊎ (best.ip_ct_best ≢ 0))
IsJudged threshold zct seen best (keep found) =
    (seen ≡ some (found.pos_end, found.ip_ct_best))
    × (found.zct_best ≡ zct)
    × (threshold ≤ found.ip_ct_best)
    × (found.ip_ct_best ≢ 1)
    × ((best.ip_ct_best ≡ 0) ⊎ (found.ip_ct_best ≡ best.ip_ct_best))

judge_lem :
    (threshold zct : ℕ) (seen : Option (ℕ × ℕ)) (best : Best)
    → IsJudged threshold zct seen best (judge threshold zct seen best)
unfolding judge
judge_lem t zct none best = λ p c e. cc
judge_lem t zct (some (p, c)) best = elim (Bool-cases (c == 1)) [
  | inl one ↦ rw one (p, c, refl, inl (ground arith))
  | inr more ↦ elim (Bool-cases (leb t c)) [
    | inr few ↦ rw (more, few) (λ p2 c2 e. ground arith)
    | inl enough ↦ elim (Bool-cases (best.ip_ct_best == 0 || c == best.ip_ct_best)) [
      | inl better ↦
          rw (more, enough, better) (refl, refl, ground arith, ground arith, ground arith)
      | inr worse ↦ rw (more, enough, worse) (p, c, refl, inr (ground arith))
    ]
  ]
]

le→leb : (a b : ℕ) → a ≤ b → leb a b ≡ true
le→leb a b h = ground arith

-- A subnet of this size is skipped, or has `ip_ct` addresses at least.
abbrev pub IsLarger : (ℕ → Option (ℕ × ℕ)) → ℕ → ℕ → Type 0
IsLarger look ip_ct zct =
    (look zct ≡ none) ⊎ ((p2 ip_ct2 : ℕ) × (look zct ≡ some (p2, ip_ct2)) × (ip_ct ≤ ip_ct2))

not_none : (x : ℕ × ℕ) → none ≢ some x
not_none x e = cc

same_count : (x y : ℕ × ℕ) → some x ≡ some y → x.1 ≡ y.1
same_count x y e = cc

module _ (look : ℕ → Option (ℕ × ℕ)) (threshold : ℕ → ℕ) (zct_min : ℕ) where
  -- Nothing was found yet, or what a round has seen, which meets the threshold.
  abbrev pub IsFound : ℕ → Best → Type 0
  IsFound zct_max best =
      ((best.zct_best ≡ 0) × (best.ip_ct_best ≡ 0))
      ⊎ ((best.zct_best ≢ 0)
          × (zct_min ≤ best.zct_best)
          × (best.zct_best ≤ zct_max)
          × (look best.zct_best ≡ some (best.pos_end, best.ip_ct_best))
          × (threshold best.zct_best ≤ best.ip_ct_best)
          × (best.ip_ct_best ≢ 1))

  follow-IsFound :
      (v : Verdict) (zct zct_max : ℕ) (best : Best) (rest : Best → Best)
      → zct_min ≤ suc zct
      → suc zct ≤ zct_max
      → IsJudged (threshold (suc zct)) (suc zct) (look (suc zct)) best v
      → IsFound zct_max best
      → ((b : Best) → IsFound zct_max b → IsFound zct_max (rest b))
      → IsFound zct_max (follow v best rest)
  follow-IsFound pass zct zct_max best rest low le j h ih = ih best h
  follow-IsFound stop zct zct_max best rest low le j h ih = h
  follow-IsFound (keep found) zct zct_max best rest low le (seen, at, enough, many, better) h ih =
      ih found (inr (omega arith, omega arith, omega arith, rw at seen, rw at enough, many))

  pub search-IsFound :
      (zct zct_max : ℕ) (best : Best)
      → zct ≤ zct_max
      → IsFound zct_max best
      → IsFound zct_max (search look threshold zct_min zct best)
  unfolding search
  search-IsFound zero zct_max best le h = h
  search-IsFound (suc zct) zct_max best le h = elim (Bool-cases (leb zct_min (suc zct))) [
    | inl t ↦ rw t (
        follow-IsFound (judge (threshold (suc zct)) (suc zct) (look (suc zct)) best) zct zct_max
          best (search look threshold zct_min zct) (leb→le zct_min (suc zct) t) le
          (judge_lem (threshold (suc zct)) (suc zct) (look (suc zct)) best) h
          (λ b hb. search-IsFound zct zct_max b (omega arith) hb))
    | inr f ↦ rw f h
  ]

  -- Once a subnet is found, only one with as many addresses takes its place.
  follow-found :
      (v : Verdict) (zct : ℕ) (best : Best) (rest : Best → Best)
      → IsJudged (threshold (suc zct)) (suc zct) (look (suc zct)) best v
      → best.ip_ct_best ≢ 0
      → ((b : Best) → b.ip_ct_best ≢ 0 → (rest b).ip_ct_best ≡ b.ip_ct_best)
      → (follow v best rest).ip_ct_best ≡ best.ip_ct_best
  follow-found pass zct best rest j some_found ih = ih best some_found
  follow-found stop zct best rest j some_found ih = refl
  follow-found (keep found) zct best rest (seen, at, enough, many, inl z) some_found ih =
      absurd (some_found z)
  follow-found (keep found) zct best rest (seen, at, enough, many, inr e) some_found ih =
      ih found (ground arith) ∙ e

  search-found :
      (zct : ℕ) (best : Best)
      → best.ip_ct_best ≢ 0
      → (search look threshold zct_min zct best).ip_ct_best ≡ best.ip_ct_best
  unfolding search
  search-found zero best h = refl
  search-found (suc zct) best h = elim (Bool-cases (leb zct_min (suc zct))) [
    | inl t ↦ rw t (
        follow-found (judge (threshold (suc zct)) (suc zct) (look (suc zct)) best) zct best
          (search look threshold zct_min zct)
          (judge_lem (threshold (suc zct)) (suc zct) (look (suc zct)) best) h
          (λ b hb. search-found zct b hb))
    | inr f ↦ rw f refl
  ]

  -- A subnet that meets the threshold is not passed over for one with fewer addresses, if the larger
  -- ones that are looked at have as many.
  module _ (at p ip_ct : ℕ) (seen : look at ≡ some (p, ip_ct)) (low : zct_min ≤ at)
      (enough : threshold at ≤ ip_ct) (many : 2 ≤ ip_ct) where
    larger_has :
        (zct p2 ip_ct2 : ℕ)
        → IsLarger look ip_ct zct
        → look zct ≡ some (p2, ip_ct2)
        → ip_ct ≤ ip_ct2
    larger_has zct p2 ip_ct2 (inl skipped) e = absurd (not_none (p2, ip_ct2) (sym skipped ∙ e))
    larger_has zct p2 ip_ct2 (inr (p3, ip_ct3, e3, le)) e =
        omega (arith, same_count (p3, ip_ct3) (p2, ip_ct2) (sym e3 ∙ e), le)

    follow-wins :
        (v : Verdict) (zct : ℕ) (best : Best) (rest : Best → Best)
        → IsJudged (threshold (suc zct)) (suc zct) (look (suc zct)) best v
        → best.ip_ct_best ≡ 0
        → IsLarger look ip_ct (suc zct)
        → ((b : Best) → b.ip_ct_best ≢ 0 → (rest b).ip_ct_best ≡ b.ip_ct_best)
        → (at ≢ suc zct → ip_ct ≤ (rest best).ip_ct_best)
        → ip_ct ≤ (follow v best rest).ip_ct_best
    follow-wins pass zct best rest j none_found larger kept ih = elim (ℕ_discrete at (suc zct)) [
      | yes same ↦
          let seen_here : look (suc zct) ≡ some (p, ip_ct) = ap look (sym same) ∙ seen in
          let few : ip_ct < threshold (suc zct) = j p ip_ct seen_here in
          let same_threshold : threshold at ≡ threshold (suc zct) = ap threshold same in
          absurd (omega arith)
      | no differ ↦ ih differ
    ]
    follow-wins stop zct best rest (p2, ip_ct2, e, inl one) none_found larger kept ih =
        absurd (omega (arith, larger_has (suc zct) p2 ip_ct2 larger e, one))
    follow-wins stop zct best rest (p2, ip_ct2, e, inr found) none_found larger kept ih =
        absurd (found none_found)
    follow-wins (keep found) zct best rest (e, z, _, _, _) none_found larger kept ih =
        let le = larger_has (suc zct) found.pos_end found.ip_ct_best larger e in
        let same = kept found (omega arith) in omega arith

    pub search-wins :
        (zct : ℕ) (best : Best)
        → at ≤ zct
        → 0 < at
        → best.ip_ct_best ≡ 0
        → ((w : ℕ) → at ≤ w → w ≤ zct → IsLarger look ip_ct w)
        → ip_ct ≤ (search look threshold zct_min zct best).ip_ct_best
    unfolding search
    search-wins zero best le pos h larger = absurd (omega arith)
    search-wins (suc zct) best le pos h larger = rw (le→leb zct_min (suc zct) (omega arith)) (
        follow-wins (judge (threshold (suc zct)) (suc zct) (look (suc zct)) best) zct best
          (search look threshold zct_min zct)
          (judge_lem (threshold (suc zct)) (suc zct) (look (suc zct)) best) h
          (larger (suc zct) le (omega arith)) (λ b hb. search-found zct b hb)
          (λ ne. search-wins zct best (omega arith) pos h (λ w l u. larger w l (omega arith))))
