-- ===== src/Helpers/Bytes/RoundTrip.antt =====
-- A number that phton16, phton24 or phton64 stores is read back by the pntoh of its width.
use fog_prime.Base.{ℕ, ◌^◌, ◌<◌, ◌≡◌, List, ◌++◌, some, rd, arith, ap}
use fog_prime.Helpers.Bytes.{pntoh16, pntoh24, pntoh64, phton16, phton24, phton64}

-- A number below 2 ^ 16 (2 ^ 24, 2 ^ 64) that phton16 (phton24, phton64) stores is what pntoh16
-- (pntoh24, pntoh64) reads at that place, whatever bytes follow.
pub pntoh-phton :
    (rest : List ℕ)
    → ((v : ℕ) → v < 2 ^ 16 → pntoh16 (phton16 v ++ rest) 0 ≡ some v)
      × ((v : ℕ) → v < 2 ^ 24 → pntoh24 (phton24 v ++ rest) 0 ≡ some v)
      × ((v : ℕ) → v < 2 ^ 64 → pntoh64 (phton64 v ++ rest) 0 ≡ some v)
unfolding pntoh16 pntoh24 pntoh64 phton16 phton24 phton64 rd
pntoh-phton rest =
    (λ v h. ap some (omega arith), λ v h. ap some (omega arith), λ v h. ap some (omega arith))
