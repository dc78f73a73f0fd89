-- ===== src/Net/TcpOptions.antt =====
-- tcp_find_option of nfq/darkmagic.c and its users. A header stands in a buffer at the position
-- `tcp`; a pointer result is a position, and `none` inside is NULL. Every round of the loop moves on
-- by at least one byte, so the number of option bytes is enough fuel.
pub mod Walks
use fog_prime.Base.{
  ℕ, zero, suc, ◌+◌, ◌-◌, ◌*◌, ◌/◌, Bool, true, false, ◌&&◌, ◌||◌, ◌==◌, ltb, leb, if◌then◌else◌,
  List, Option, none, some, rd, ◌>>=◌,
}
use fog_prime.Net.Headers.{scale_none}

module _ (buf : List ℕ) (end kind : ℕ) where
  -- The default case of the switch, `c` the byte at `t`; `next` is the rest of the loop.
  unfoldable pub find_option_kind : ℕ → ℕ → (ℕ → Option (Option ℕ)) → Option (Option ℕ)
  find_option_kind t c next = elim (leb end (t + 1)) [
    | true ↦ some none
    | false ↦ rd buf (t + 1) >>= λ l. elim (ltb l 2 || ltb end (t + l)) [
      | true ↦ some none
      | false ↦ elim (c == kind) [ true ↦ some (some t) | false ↦ next (t + l) ]
    ]
  ]

  unfoldable pub find_option_loop : ℕ → ℕ → Option (Option ℕ)
  find_option_loop zero t = some none
  find_option_loop (suc fuel) t = elim (ltb t end) [
    | false ↦ some none
    | true ↦ rd buf t >>= λ c. elim (c == 0) [
      | true ↦ some none
      | false ↦ elim (c == 1) [
        | true ↦ find_option_loop fuel (t + 1)
        | false ↦ find_option_kind t c (find_option_loop fuel)
      ]
    ]
  ]

-- (uint8_t*)tcp + (tcp->th_off<<2); th_off is the upper half of byte 12.
unfoldable pub tcp_find_option : List ℕ → ℕ → ℕ → Option (Option ℕ)
unfolding find_option_loop find_option_kind
tcp_find_option buf tcp kind = do
  off ← rd buf (tcp + 12)
  let end = tcp + off / 16 * 4
  find_option_loop buf end kind (end - (tcp + 20)) (tcp + 20)

-- scale && scale[1]==3 ? scale[2] : SCALE_NONE
unfoldable pub scale_at : List ℕ → Option ℕ → Option ℕ
scale_at buf none = some scale_none
scale_at buf (some t) =
    rd buf (t + 1) >>= λ l. elim (l == 3) [ true ↦ rd buf (t + 2) | false ↦ some scale_none ]

unfoldable pub tcp_find_scale_factor : List ℕ → ℕ → Option ℕ
unfolding tcp_find_option scale_at
tcp_find_scale_factor buf tcp = tcp_find_option buf tcp 3 >>= scale_at buf

-- The position of the timestamps, tcp_find_timestamps.
unfoldable pub timestamps_at : List ℕ → Option ℕ → Option (Option ℕ)
timestamps_at buf none = some none
timestamps_at buf (some t) = rd buf (t + 1) >>= λ l. some (if l == 10 then some (t + 2) else none)

unfoldable pub tcp_find_timestamps : List ℕ → ℕ → Option (Option ℕ)
unfolding tcp_find_option timestamps_at
tcp_find_timestamps buf tcp = tcp_find_option buf tcp 8 >>= timestamps_at buf

unfoldable pub tcp_has_sack : List ℕ → ℕ → Option Bool
unfolding tcp_find_option
tcp_has_sack buf tcp =
    tcp_find_option buf tcp 4 >>= λ o. some (elim o [ some _ ↦ true | none ↦ false ])
