-- ===== src/Ipset/Tests.antt =====
-- The theorem about nfq/ipset.c at concrete inputs.
use fog_prime.Base.{◌≡◌, ◌⊎◌, ◌↔◌, true, leb, [], ◌∷◌, none, some}
use fog_prime.Ipset.{ipv4, Ipset, ipset_check}
use fog_prime.Ipset.Check.{IsIn, Included, ipset_check_lem}

-- 10.0.0.0/8 and what is behind it, and 10.0.0.0
abbrev private : Ipset
private = record { ips4 = some (λ a. leb 167772160 a); ips6 = none }

abbrev one : Ipset
one = record { ips4 = some (λ a. leb a 167772160); ips6 = none }

ipset_check_lem_example : (ipset_check true (private ∷ []) (one ∷ []) (ipv4 167772161) ≡ true) ↔ (
    ((private ∷ [] ≡ []) × (one ∷ [] ≡ []))
    ⊎ ((true ≡ true)
        × (IsIn (one ∷ []) (ipv4 167772161) → ⊥)
        × Included (private ∷ []) (ipv4 167772161)))
ipset_check_lem_example = ipset_check_lem true (private ∷ []) (one ∷ []) (ipv4 167772161)
