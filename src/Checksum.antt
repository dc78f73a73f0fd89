-- ===== src/Checksum.antt =====
-- The Internet checksum, nfq/checksum.c, on a little-endian machine. The pointer `buff` is the list
-- of the bytes from it on, `addr` its address, of which the code looks at the low three bits. A read
-- behind the list is a fault.
pub mod Fold
pub mod Words
pub mod Sum
mod Tests
use fog_prime.Base.{
  ℕ, zero, suc, ◌+◌, ◌-◌, ◌*◌, ◌/◌, ◌%◌, ◌^◌, Bool, true, false, ◌==◌, ltb, if◌then◌else◌, List, [],
  ◌∷◌, Option, none, some, ◌>>=◌, u8, u16, u32, u64, set,
}

unfoldable pub from64to16 : ℕ → ℕ
from64to16 x =
    let u = u16 x + u16 (x / 2 ^ 16) + u16 (x / 2 ^ 32) + u16 (x / 2 ^ 48) in
    u16 (u16 u + u16 (u / 2 ^ 16))

-- *(uint16_t*)buff and the pointer behind it; likewise 32 and 64 bits.
abbrev pub read16 : List ℕ → Option (ℕ × List ℕ)
read16 (a ∷ b ∷ rest) = some (a + b * 256, rest)
read16 _ = none

abbrev pub read32 : List ℕ → Option (ℕ × List ℕ)
read32 (a ∷ b ∷ c ∷ d ∷ rest) = some (a + b * 256 + (c + d * 256) * 2 ^ 16, rest)
read32 _ = none

abbrev pub read64 : List ℕ → Option (ℕ × List ℕ)
read64 (a ∷ b ∷ c ∷ d ∷ e ∷ f ∷ g ∷ h ∷ rest) =
    some
      (a + b * 256 + (c + d * 256) * 2 ^ 16 + (e + f * 256) * 2 ^ 32 + (g + h * 256) * 2 ^ 48, rest)
read64 _ = none

-- The loop over 64-bit words: result, carry and pointer.
unfoldable pub loop64 : ℕ → ℕ → ℕ → List ℕ → Option (ℕ × ℕ × List ℕ)
loop64 zero result carry buff = some (result, carry, buff)
loop64 (suc count) result carry buff = read64 buff >>= λ (w, rest).
    loop64 count (u64 (u64 (result + carry) + w))
      (if ltb (u64 (u64 (result + carry) + w)) w then 1 else 0) rest

-- What stands behind the loop, and the fold of the sum.
unfoldable pub sum64 : ℕ → ℕ → List ℕ → Option (ℕ × List ℕ)
unfolding loop64
sum64 count result buff = loop64 count result 0 buff >>= λ (r, carry, rest).
    some (u64 (u64 (r + carry) % 2 ^ 32 + u64 (r + carry) / 2 ^ 32), rest)

-- `if (test) { result += *(uintN_t*)buff; buff += N/8; }`
abbrev pub add_word : Bool → (List ℕ → Option (ℕ × List ℕ)) → ℕ → List ℕ → Option (ℕ × List ℕ)
add_word true read result buff = read buff >>= λ (w, rest). some (u64 (result + w), rest)
add_word false read result buff = some (result, buff)

-- The block for 32-bit words, with `count` > 0 of them: the alignment to 8 bytes, the loop, the rest.
unfoldable pub sum32 : ℕ → ℕ → ℕ → ℕ → List ℕ → Option (ℕ × List ℕ)
unfolding sum64
sum32 addr count len result buff =
    let odd4 = addr / 4 % 2 == 1 in
    let count' = if odd4 then count - 1 else count in
    let len' = if odd4 then len - 4 else len in
    add_word odd4 read32 result buff >>= λ (r1, b1).
    (if count' / 2 == 0 then some (r1, b1) else sum64 (count' / 2) r1 b1) >>= λ (r2, b2).
    add_word (len' / 4 % 2 == 1) read32 r2 b2

-- The block for 16-bit words, with `count` > 0 of them.
unfoldable pub sum16 : ℕ → ℕ → ℕ → ℕ → List ℕ → Option (ℕ × List ℕ)
unfolding sum32
sum16 addr count len result buff =
    let odd2 = addr / 2 % 2 == 1 in
    let addr' = if odd2 then addr + 2 else addr in
    let count' = if odd2 then count - 1 else count in
    let len' = if odd2 then len - 2 else len in
    add_word odd2 read16 result buff >>= λ (r1, b1).
    (if count' / 2 == 0 then some (r1, b1) else sum32 addr' (count' / 2) len' r1 b1) >>= λ (r2, b2).
    add_word (len' / 2 % 2 == 1) read16 r2 b2

abbrev pub read8 : List ℕ → Option (ℕ × List ℕ)
read8 (a ∷ rest) = some (a, rest)
read8 _ = none

-- From an even address on: the 16-bit words and the last byte.
unfoldable pub sum8 : ℕ → ℕ → ℕ → List ℕ → Option ℕ
unfolding sum16
sum8 addr len result buff =
    (if len / 2 == 0 then some (result, buff) else sum16 addr (len / 2) len result buff)
    >>= λ (r, b). add_word (len % 2 == 1) read8 r b >>= λ (r', b'). some r'

-- From an odd address on, the first byte is the upper half of a word, and the halves of the sum
-- are swapped in the end.
unfoldable pub do_csum : ℕ → List ℕ → ℕ → Option ℕ
unfolding sum8 from64to16
do_csum addr buff len =
    if len == 0
    then some 0
    else (if addr % 2 == 1
        then (read8 buff >>= λ (b, rest). sum8 (addr + 1) (len - 1) (b * 256) rest >>= λ r.
            some (from64to16 r / 256 % 256 + from64to16 r % 256 * 256))
        else (sum8 addr len 0 buff >>= λ r. some (from64to16 r)))

-- htonl on a little-endian machine.
abbrev pub htonl : ℕ → ℕ
htonl x = x / 2 ^ 24 % 256 + x / 2 ^ 16 % 256 * 2 ^ 8 + x / 2 ^ 8 % 256 * 2 ^ 16 + x % 256 * 2 ^ 24

-- `~x` as a uint16_t.
abbrev pub not16 : ℕ → ℕ
not16 x = 2 ^ 16 - 1 - u16 x

unfoldable pub csum_tcpudp_magic : ℕ → ℕ → ℕ → ℕ → ℕ → ℕ
unfolding from64to16
csum_tcpudp_magic saddr daddr len proto sum =
    not16 (from64to16 (u64 (saddr + daddr + sum + htonl (u32 (len + proto)))))

unfoldable pub ip4_compute_csum : ℕ → List ℕ → ℕ → Option ℕ
unfolding do_csum from64to16
ip4_compute_csum addr buff len = do_csum addr buff len >>= λ s. some (not16 (from64to16 s))

-- The two addresses as the list of their 32-bit words.
unfoldable pub csum_ipv6_magic : List ℕ → ℕ → ℕ → ℕ → ℕ
unfolding from64to16
csum_ipv6_magic words len proto sum =
    not16 (from64to16 (u64 (sum + htonl (u32 (len + proto)) + total words)))
  where
    total : List ℕ → ℕ
    total [] = 0
    total (w ∷ ws) = w + total ws

-- ip4_fix_checksum: the header, `ip_hl << 2` bytes of it, with bytes 10 and 11 set.
unfoldable pub ip4_fix_checksum : ℕ → List ℕ → ℕ → Option (List ℕ)
unfolding ip4_compute_csum
ip4_fix_checksum addr ip hl = ip4_compute_csum addr (set (set ip 10 0) 11 0) (hl * 4) >>= λ s.
    some (set (set ip 10 (s % 256)) 11 (s / 256))

-- tcp4_fix_checksum and udp4_fix_checksum: the field stands at `off`, 16 for TCP and 6 for UDP.
unfoldable pub l4_fix_checksum4 : ℕ → ℕ → ℕ → List ℕ → ℕ → ℕ → ℕ → Option (List ℕ)
unfolding do_csum csum_tcpudp_magic
l4_fix_checksum4 off proto addr hdr len saddr daddr =
    do_csum addr (set (set hdr off 0) (off + 1) 0) len >>= λ p.
    let s = csum_tcpudp_magic saddr daddr len proto p in
    some (set (set hdr off (s % 256)) (off + 1) (s / 256))

-- tcp6_fix_checksum and udp6_fix_checksum.
unfoldable pub l4_fix_checksum6 : ℕ → ℕ → ℕ → List ℕ → ℕ → List ℕ → Option (List ℕ)
unfolding do_csum csum_ipv6_magic
l4_fix_checksum6 off proto addr hdr len words =
    do_csum addr (set (set hdr off 0) (off + 1) 0) len >>= λ p.
    let s = csum_ipv6_magic words len proto p in
    some (set (set hdr off (s % 256)) (off + 1) (s / 256))
