-- ===== src/Subnets/Nested.antt =====
-- Counts of one subnet of ip2net/ip2net.c from two addresses, and of two subnets from one address.
use native.Mathlib.Decide.{dec_le}
use fog_prime.Base.{
  ℕ, ◌+◌, ◌*◌, ◌/◌, ◌^◌, ◌≤◌, ◌<◌, ◌≡◌, ◌≢◌, inl, inr, refl, ap, true, false, ltb, List, none, some,
  byte, arith, Bool, Bool-cases, lt→ltb, ltb→lt, if◌then◌else◌,
}
use fog_prime.Subnets.Options.{Params}
use fog_prime.Subnets.{skip_above, count_v4}
use fog_prime.Subnets.Blocks.{first_of, last_of}
use fog_prime.Subnets.Count.{IsCounted}
use fog_prime.Subnets.Cover.{IsAscending, look_at, ascending_le}

-- A larger subnet has no fewer addresses from `pos` on; nor has one subnet from an earlier address.
pub count_grows :
    (iplist : List ℕ) (ipct pos low high p ip_ct p2 ip_ct2 : ℕ)
    → low ≤ high
    → IsCounted iplist ipct low pos (p, ip_ct)
    → IsCounted iplist ipct high pos (p2, ip_ct2)
    → ip_ct ≤ ip_ct2
count_grows iplist ipct pos low high p ip_ct p2 ip_ct2 le a b = elim (dec_le p p2) [
  | yes h ↦ omega (arith, a.2, b.2)
  | no h ↦ absurd (omega (arith, a.1, a.3 p2 b.0 (omega arith), b.4 (omega (arith, a.1))))
]

pub count_earlier :
    (iplist : List ℕ) (ipct pos next end p ip_ct p2 ip_ct2 : ℕ)
    → IsAscending iplist ipct
    → pos < next
    → next < ipct
    → byte iplist next ≤ end
    → IsCounted iplist ipct end pos (p, ip_ct)
    → IsCounted iplist ipct end next (p2, ip_ct2)
    → p2 ≤ p
count_earlier iplist ipct pos next end p ip_ct p2 ip_ct2 ascending lt more inside a b =
    elim (dec_le p2 p) [
      | yes h ↦ h
      | no h ↦ absurd (
          let above = a.4 (omega (arith, b.1)) in
          elim (dec_le p next) [
            | yes before ↦
                omega (arith, above, ascending_le iplist ipct ascending p next before more)
            | no behind ↦ omega (arith, above, b.3 p (omega arith) (omega arith))
          ])
    ]

if_none : {A : Type 0} (b : Bool) (c d : A) → b ≡ true → (if b then none else some c) ≢ some d
if_none true c d t e = cc
if_none false c d t e = cc

-- A subnet that is not skipped for an address is not skipped for a smaller one in it.
pub not_skipped :
    (params : Params) (iplist : List ℕ) (ipct pos next zct : ℕ) (seen : ℕ × ℕ)
    → byte iplist pos ≤ byte iplist next
    → byte iplist pos / 2 ^ zct ≡ byte iplist next / 2 ^ zct
    → look_at params iplist ipct next zct ≡ some seen
    → (p ip_ct : ℕ) × (look_at params iplist ipct pos zct ≡ some (p, ip_ct))
unfolding look_at
not_skipped params iplist ipct pos next zct seen le same e =
    let a = byte iplist pos in
    let b = byte iplist next in
    let start : first_of zct a ≡ first_of zct b = ap (λ q. q * 2 ^ zct) same in
    let bound : skip_above params zct (first_of zct a) ≡ skip_above params zct (first_of zct b) =
      ap (skip_above params zct) start in
    elim (Bool-cases (ltb (skip_above params zct (first_of zct a)) a)) [
      | inl t ↦ absurd (
          if_none (ltb (skip_above params zct (first_of zct b)) b)
            (count_v4 iplist ipct (last_of zct b) ipct (next + 1) 1) seen
            (lt→ltb (skip_above params zct (first_of zct b)) b (omega (arith, ltb→lt _ a t))) e)
      | inr f ↦ rw f (
        (count_v4 iplist ipct (last_of zct a) ipct (pos + 1) 1).0,
        (count_v4 iplist ipct (last_of zct a) ipct (pos + 1) 1).1,
        refl,
      )
    ]
