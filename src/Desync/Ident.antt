-- ===== src/Desync/Ident.antt =====
-- The identification of IPv4 packets: IP4_IP_ID_FIX and IP4_IP_ID_ADD of nfq/desync.c, net16_add of
-- nfq/darkmagic.c on a little-endian machine, and pos_normalize. `random` is what random() returns.
pub mod Cycle
use fog_prime.Base.{
  ℕ, ◌+◌, ◌-◌, ◌*◌, ◌/◌, ◌%◌, ◌==◌, Bool, true, false, ltb, leb, ◌&&◌, if◌then◌else◌, Option, none,
  some, u16,
}

-- t_ip_id_mode
pub data IpIdMode : Type 0 where
  ipid_seq ipid_seq_group ipid_rnd ipid_zero ipid_same : IpIdMode

-- htons and ntohs
abbrev pub swap16 : ℕ → ℕ
swap16 x = x / 256 % 256 + x % 256 * 256

unfoldable pub net16_add : ℕ → ℕ → ℕ
net16_add netorder_value cpuorder_increment =
    swap16 (u16 (swap16 netorder_value + cpuorder_increment))

abbrev random_id : ℕ → ℕ
random_id random = u16 (random % 65535 + 1)

unfoldable pub ip4_ip_id_fix : ℕ → Option ℕ → IpIdMode → ℕ
ip4_ip_id_fix random none mode = 0
ip4_ip_id_fix random (some ip_id) ipid_seq = if ip_id == 0 then u16 random else ip_id
ip4_ip_id_fix random (some ip_id) ipid_seq_group = if ip_id == 0 then u16 random else ip_id
ip4_ip_id_fix random (some ip_id) ipid_same = ip_id
ip4_ip_id_fix random (some ip_id) ipid_rnd = random_id random
ip4_ip_id_fix random (some ip_id) ipid_zero = 0

-- The sum, which is not allowed to be zero: then 1 more, or 1 less for an increment that is negative
-- as an int16_t.
unfoldable pub add_not_zero : ℕ → ℕ → ℕ
unfolding net16_add
add_not_zero ip_id inc =
    let sum = u16 (net16_add ip_id inc) in
    if ip_id == 0
    then ip_id
    else if sum == 0
    then u16 (net16_add sum (if leb 32768 inc then 65535 else 1))
    else sum

unfoldable pub ip4_ip_id_add : ℕ → ℕ → ℕ → IpIdMode → ℕ
unfolding add_not_zero
ip4_ip_id_add random ip_id inc ipid_seq = add_not_zero ip_id inc
ip4_ip_id_add random ip_id inc ipid_seq_group = add_not_zero ip_id inc
ip4_ip_id_add random ip_id inc ipid_same = ip_id
ip4_ip_id_add random ip_id inc ipid_rnd = random_id random
ip4_ip_id_add random ip_id inc ipid_zero = 0

-- IP4_IP_ID_NEXT
abbrev pub ip4_ip_id_next : ℕ → ℕ → IpIdMode → ℕ
ip4_ip_id_next random ip_id mode = ip4_ip_id_add random ip_id 1 mode

unfoldable pub pos_normalize : ℕ → ℕ → ℕ → ℕ
pos_normalize split_pos reasm_offset len_payload =
    if ltb reasm_offset split_pos && ltb (split_pos - reasm_offset) len_payload
    then split_pos - reasm_offset
    else 0
