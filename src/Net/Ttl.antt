-- ===== src/Net/Ttl.antt =====
-- Time to live: hop_count_guess and autottl_eval of nfq/darkmagic.c. `delta` is an int8_t; its
-- value is the difference `up - down` of the two fields, one of which is 0.
pub mod Guess
use fog_prime.Base.{ℕ, ◌+◌, ◌-◌, ◌&&◌, ◌||◌, Bool, true, false, ltb, leb, ◌==◌, if◌then◌else◌, u8}

unfoldable pub hop_count_guess : ℕ → ℕ
hop_count_guess ttl =
    if ltb 223 ttl
    then 255 - ttl
    else if ltb ttl 128 && ltb 96 ttl
    then 128 - ttl
    else if ltb ttl 64 && ltb 32 ttl
    then 64 - ttl
    else 0

pub record AutoTtl : Type 0 where
  pub up : ℕ
  pub down : ℕ
  pub min_ttl : ℕ
  pub max_ttl : ℕ

-- `d` is hop_count + delta as an int: `hop_count + up - down`. It is compared with `min` and `max`
-- on the side `+ down`, and is not negative where it is stored.
unfoldable pub autottl_fake : ℕ → AutoTtl → ℕ
autottl_fake hop_count attl =
    if ltb (hop_count + attl.up) (attl.min_ttl + attl.down)
    then attl.min_ttl
    else if ltb (attl.max_ttl + attl.down) (hop_count + attl.up)
    then attl.max_ttl
    else u8 (hop_count + attl.up - attl.down)

unfoldable pub autottl_eval : ℕ → AutoTtl → ℕ
unfolding autottl_fake
autottl_eval hop_count attl =
    let fake = autottl_fake hop_count attl in
    if ltb 0 attl.down && leb hop_count fake || attl.down == 0 && ltb fake hop_count
    then 0
    else fake
