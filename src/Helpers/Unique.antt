-- ===== src/Helpers/Unique.antt =====
-- unique_size_t of nfq/helpers.c (the same code as `unique` of ip2net/ip2net.c): it makes the sorted
-- array `pu[0..ct)` unique in place and returns the number of items kept. Both loops count `j`
-- towards `ct`, so `ct` rounds are enough for each.
pub mod InPlace
use fog_prime.Base.{
  ℕ, zero, suc, ◌+◌, ◌&&◌, ◌==◌, ltb, if◌then◌else◌, List, true, false, byte, set, length,
}

-- for (; j < ct && pu[j] == u; j++);
unfoldable pub skip_equal : List ℕ → ℕ → ℕ → ℕ → ℕ → ℕ
skip_equal pu ct u zero j = j
skip_equal pu ct u (suc fuel) j = elim (ltb j ct && byte pu j == u) [
  | true ↦ skip_equal pu ct u fuel (j + 1)
  | false ↦ j
]

unfoldable pub unique_loop : ℕ → ℕ → ℕ → ℕ → List ℕ → ℕ × List ℕ
unique_loop ct zero i j pu = (i, pu)
unique_loop ct (suc fuel) i j pu = elim (ltb j ct) [
  | true ↦
      unique_loop ct fuel (i + 1) (skip_equal pu ct (byte pu j) ct (j + 1)) (set pu i (byte pu j))
  | false ↦ (i, pu)
]

unfoldable pub unique_size_t : List ℕ → ℕ → ℕ × List ℕ
unfolding unique_loop skip_equal
unique_size_t pu ct = unique_loop ct ct 0 0 pu
