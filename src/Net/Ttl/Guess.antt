-- ===== src/Net/Ttl/Guess.antt =====
-- The guessed distance and the fake time to live.
use fog_prime.Base.{ℕ, ◌+◌, ◌-◌, ◌≤◌, ◌<◌, ◌≡◌, ◌≢◌, ◌⊎◌, arith}
use fog_prime.Net.Ttl.{hop_count_guess, AutoTtl, autottl_eval}

-- An IP packet that was sent with a time to live of 255, 128 or 64 and has passed fewer than 32
-- routers is found to have passed exactly that many.
pub hop_count_guess_lem :
    (orig hops : ℕ)
    → (orig ≡ 255) ⊎ (orig ≡ 128) ⊎ (orig ≡ 64)
    → hops < 32
    → hop_count_guess (orig - hops) ≡ hops
unfolding hop_count_guess
hop_count_guess_lem orig hops o h = ground arith

-- With `min ≤ max ≤ 255`, a fake time to live other than 0 lies in `min..max`. It does not reach a
-- target `hop_count` away if delta is negative, and reaches it otherwise; and if hop_count + delta
-- lies in the range, the fake is that number or 0.
pub autottl_eval_lem :
    (hop_count : ℕ) (attl : AutoTtl)
    → attl.min_ttl ≤ attl.max_ttl
    → attl.max_ttl ≤ 255
    → (attl.up ≡ 0) ⊎ (attl.down ≡ 0)
    → autottl_eval hop_count attl ≢ 0
    → (attl.min_ttl ≤ autottl_eval hop_count attl)
      × (autottl_eval hop_count attl ≤ attl.max_ttl)
      × (0 < attl.down → autottl_eval hop_count attl < hop_count)
      × (attl.down ≡ 0 → hop_count ≤ autottl_eval hop_count attl)
      × (attl.min_ttl + attl.down ≤ hop_count + attl.up
          → hop_count + attl.up ≤ attl.max_ttl + attl.down
          → autottl_eval hop_count attl + attl.down ≡ hop_count + attl.up)
unfolding autottl_eval
autottl_eval_lem hop_count attl le small sign ne = ground arith
