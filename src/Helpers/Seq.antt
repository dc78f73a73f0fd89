-- ===== src/Helpers/Seq.antt =====
-- seq_within of nfq/helpers.c: membership of a TCP sequence number in a range that may wrap.
use fog_prime.Base.{ℕ, ◌^◌, ◌<◌, ◌≤◌, ◌≡◌, ◌↔◌, Bool, true, ◌&&◌, ◌||◌, leb, ltb, sub32, arith}

unfoldable pub seq_within : ℕ → ℕ → ℕ → Bool
seq_within s s1 s2 = leb s1 s2 && leb s1 s && leb s s2 || ltb s2 s1 && (leb s s2 || leb s1 s)

-- On 32-bit sequence numbers `s` is within `s1..s2` exactly when going forward from `s1`, with
-- wrap-around, `s` comes no later than `s2`.
pub seq_within_iff :
    (s s1 s2 : ℕ)
    → s < 2 ^ 32
    → s1 < 2 ^ 32
    → s2 < 2 ^ 32
    → (seq_within s s1 s2 ≡ true) ↔ (sub32 s s1 ≤ sub32 s2 s1)
unfolding seq_within
seq_within_iff s s1 s2 h h1 h2 = (λ e. ground arith, λ e. ground arith)
