-- ===== src/Subnets/Count.antt =====
-- The counting loops of ip2net/ip2net.c.
use fog_prime.Base.{
  ℕ, zero, suc, ◌+◌, ◌≤◌, ◌<◌, ◌≡◌, ◌&&◌, ltb, leb, List, byte, arith, Bool-cases, inl, inr,
}
use fog_prime.Subnets.{count_v4}

-- The loop has passed every address up to `ip_end`, and none above it.
abbrev pub IsCounted : List ℕ → ℕ → ℕ → ℕ → ℕ × ℕ → Type 0
IsCounted iplist ipct ip_end pos (p, ip_ct) =
    (pos < p)
    × (p ≤ ipct)
    × (ip_ct + pos ≡ p)
    × ((q : ℕ) → pos < q → q < p → byte iplist q ≤ ip_end)
    × (p < ipct → ip_end < byte iplist p)

count_from :
    (iplist : List ℕ) (ipct ip_end pos fuel p ip_ct : ℕ)
    → pos < p
    → p ≤ ipct
    → ip_ct + pos ≡ p
    → ipct ≤ fuel + p
    → ((q : ℕ) → pos < q → q < p → byte iplist q ≤ ip_end)
    → IsCounted iplist ipct ip_end pos (count_v4 iplist ipct ip_end fuel p ip_ct)
unfolding count_v4
count_from iplist ipct ip_end pos zero p ip_ct lt le eq enough below =
    (lt, le, eq, below, λ more. absurd (omega arith))
count_from iplist ipct ip_end pos (suc fuel) p ip_ct lt le eq enough below =
    elim (Bool-cases (ltb p ipct && leb (byte iplist p) ip_end)) [
      | inl t ↦
          rw (t, count_v4)
            (count_from iplist ipct ip_end pos fuel (p + 1) (ip_ct + 1) (omega arith) (ground arith)
              (omega arith) (omega arith) (λ q l h. ground (arith, below q, t)))
      | inr f ↦ rw (f, count_v4) (lt, le, eq, below, λ more. ground arith)
    ]

pub count_v4_lem :
    (iplist : List ℕ) (ipct ip_end pos : ℕ)
    → pos < ipct
    → IsCounted iplist ipct ip_end pos (count_v4 iplist ipct ip_end ipct (pos + 1) 1)
count_v4_lem iplist ipct ip_end pos h =
    count_from iplist ipct ip_end pos ipct (pos + 1) 1 (omega arith) (omega arith) (omega arith)
      (omega arith) (λ q l r. absurd (omega arith))
