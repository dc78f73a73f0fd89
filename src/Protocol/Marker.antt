-- ===== src/Protocol/Marker.antt =====
-- Split positions, nfq/protocol.c: a marker with a signed offset names a byte of the data. The byte
-- 0 stands for "no position". Pointers are positions of the buffer `buf`.
pub mod Domain
pub mod Bounds
use fog_prime.Base.{
  ℕ, zero, suc, ◌+◌, ◌-◌, ◌*◌, ◌/◌, Bool, true, false, ◌||◌, ◌&&◌, ◌==◌, not, ltb, leb,
  if◌then◌else◌, List, Option, none, some, rd, ◌>>=◌,
}

-- An ssize_t: `negsuc n` is -1 - n.
pub data ℤ : Type 0 where
  pos negsuc : ℕ → ℤ

-- A size_t plus an offset.
unfoldable pub shift : ℕ → ℤ → ℤ
shift base (pos n) = pos (base + n)
shift base (negsuc n) = if ltb n base then pos (base - suc n) else negsuc (n - base)

-- The codes PM_ABS to PM_SNI_EXT.
pub data Marker : Type 0 where
  abs host host_end host_sld host_midsld host_endsld http_method sni_ext : Marker

unfoldable pub is_host_marker : Marker → Bool
is_host_marker host = true
is_host_marker host_end = true
is_host_marker host_sld = true
is_host_marker host_midsld = true
is_host_marker host_endsld = true
is_host_marker abs = false
is_host_marker http_method = false
is_host_marker sni_ext = false

unfoldable pub check_pos : ℕ → ℤ → ℕ
check_pos sz (pos n) = if ltb n sz then n else 0
check_pos sz (negsuc n) = 0

unfoldable pub any_proto_pos : Marker → ℤ → ℕ → ℕ
unfolding shift check_pos
any_proto_pos abs (pos n) sz = check_pos sz (pos n)
any_proto_pos abs (negsuc n) sz = check_pos sz (shift sz (negsuc n))
any_proto_pos _ _ sz = 0

-- `for (; p>dom && *p!='.'; p--)`, with `k` the distance p - dom.
unfoldable pub back_to_dot : List ℕ → ℕ → ℕ → Option ℕ
back_to_dot buf dom zero = some 0
back_to_dot buf dom (suc k) = rd buf (dom + suc k) >>= λ c. elim (c == 46) [
  | true ↦ some (suc k)
  | false ↦ back_to_dot buf dom k
]

-- The first loop of FindNLD, `rounds` times. `k` is p2 - dom; `none` inside is the return.
unfoldable pub up_levels : List ℕ → ℕ → ℕ → ℕ → Option (Option ℕ)
unfolding back_to_dot
up_levels buf dom zero k = some (some k)
up_levels buf dom (suc rounds) k = elim (ltb 0 k) [
  | false ↦ some none
  | true ↦ back_to_dot buf dom (k - 1) >>= λ k'. elim (k' == 0) [
    | true ↦ some none
    | false ↦ up_levels buf dom rounds k'
  ]
]

-- The N level domain: its start and its length. The caller gives a domain with `0 < dlen`: with
-- dlen = 0 and level 1 the code reads the byte before the domain, a fault here.
unfoldable pub find_nld : List ℕ → ℕ → ℕ → ℕ → Option (Option (ℕ × ℕ))
unfolding up_levels back_to_dot
find_nld buf dom dlen level = up_levels buf dom (level - 1) dlen >>= λ o. elim o [
  | none ↦ some none
  | some k2 ↦ elim (ltb 0 k2) [
    | false ↦ none
    | true ↦ back_to_dot buf dom (k2 - 1) >>= λ k. rd buf (dom + k) >>= λ c.
        (let k1 = if c == 46 then suc k else k in some (some (dom + k1, k2 - k1)))
  ]
]

-- The part of the second level domain that a marker names.
unfoldable pub sld_offset : Marker → ℕ → ℕ → ℕ
sld_offset host_sld p slen = p
sld_offset host_endsld p slen = p + slen
sld_offset _ p slen = if slen == 1 then p + 1 else p + slen / 2

-- The switch has no other markers: its callers pass only the five of `is_host_marker`.
unfoldable pub host_pos : Marker → ℤ → List ℕ → ℕ → ℕ → ℕ → Option ℕ
unfolding check_pos shift find_nld sld_offset
host_pos host o buf sz offset_host len_host = some (check_pos sz (shift offset_host o))
host_pos host_end o buf sz offset_host len_host =
    some (check_pos sz (shift (offset_host + len_host) o))
host_pos m o buf sz offset_host len_host = elim (leb (offset_host + len_host) sz) [
  | false ↦ some (check_pos sz (pos 0))
  | true ↦ find_nld buf offset_host len_host 2 >>= λ r. elim r [
    | none ↦ some (check_pos sz (pos 0))
    | some (p, slen) ↦ some (check_pos sz (shift (sld_offset m p slen) o))
  ]
]
