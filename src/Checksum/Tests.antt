-- ===== src/Checksum/Tests.antt =====
-- The theorems about nfq/checksum.c at concrete inputs, and runs of its functions.
use fog_prime.Base.{ℕ, ◌+◌, ◌-◌, ◌/◌, ◌%◌, ◌^◌, ◌<◌, ◌≡◌, ◌↔◌, refl, arith, List, [], ◌∷◌, Ensures}
use fog_prime.Checksum.{from64to16, do_csum}
use fog_prime.Checksum.Fold.{halves, from64to16_iff}
use fog_prime.Checksum.Sum.{IsNear, do_csum_lem}

from64to16_iff_example :
    (from64to16 (2 ^ 33 - 1) % 65535 ≡ (2 ^ 33 - 1) % 65535)
    ↔ (halves (2 ^ 33 - 1) % 2 ^ 16 + halves (2 ^ 33 - 1) / 2 ^ 16 < 2 ^ 16)
from64to16_iff_example = from64to16_iff (2 ^ 33 - 1) (omega arith)

-- The 33 bits set are 1 modulo 65535.
from64to16_loses : from64to16 (2 ^ 33 - 1) ≡ 0
unfolding from64to16
from64to16_loses = refl

abbrev bytes : List ℕ
bytes = 1 ∷ 2 ∷ 255 ∷ 0 ∷ 17 ∷ 9 ∷ 200 ∷ []

do_csum_lem_example : Ensures (IsNear 256 bytes) (do_csum 1 bytes 7)
do_csum_lem_example = do_csum_lem 1 bytes (
  omega arith,
  (omega arith, (omega arith, (omega arith, (omega arith, (omega arith, (omega arith, tt)))))),
)
