-- ===== src/Net/Fragment.antt =====
-- The split of an IPv4 packet into two fragments, ip_frag4 of nfq/darkmagic.c. The positions of the
-- two results in memory are parameters, since the checksum depends on whether they are odd. A write
-- behind a fragment that is shorter than the header that it changes is left out.
pub mod Lists
pub mod Header
pub mod Join
use fog_prime.Base.{
  ℕ, ◌+◌, ◌-◌, ◌*◌, ◌/◌, ◌%◌, ◌^◌, Bool, true, false, not, ◌&&◌, ◌||◌, ◌==◌, ltb, leb,
  if◌then◌else◌, List, [], ◌∷◌, ◌++◌, length, take, drop, set, Option, none, some, rd, ◌>>=◌, u16,
}
use fog_prime.Helpers.Bytes.{pntoh16}
use fog_prime.Checksum.{ip4_fix_checksum}

-- A uint16_t field in network byte order.
abbrev pub set_be16 : List ℕ → ℕ → ℕ → List ℕ
set_be16 buf at v = set (set buf at (v / 256 % 256)) (at + 1) (v % 256)

-- ip_off, ip_len, and ip_id, which is stored as it is unless `ident` is -1.
unfoldable pub frag_header : List ℕ → ℕ → ℕ → ℕ → List ℕ
frag_header buf off len ident =
    let b = set_be16 (set_be16 buf 6 off) 2 (u16 len) in
    if ident == 2 ^ 32 - 1 then b else set (set b 4 (ident % 256)) 5 (ident / 256 % 256)

-- ip4_fix_checksum on a packet whose header has `hdrlen` bytes.
unfoldable pub fix_packet : ℕ → ℕ → List ℕ → Option (List ℕ)
unfolding ip4_fix_checksum
fix_packet addr hdrlen p =
    ip4_fix_checksum addr (take hdrlen p) (hdrlen / 4) >>= λ h. some (h ++ drop hdrlen p)

-- IP_MF is 0x2000, IP_OFFMASK 0x1fff.
unfoldable pub make_fragments : ℕ → ℕ → List ℕ → ℕ → ℕ → ℕ → ℕ → Option (List ℕ × List ℕ)
unfolding frag_header fix_packet
make_fragments addr1 addr2 pkt frag_pos ident hdrlen payload_len =
    fix_packet addr1 hdrlen
      (frag_header (take (hdrlen + frag_pos) pkt) 8192 (hdrlen + frag_pos) ident)
    >>= λ pkt1.
        fix_packet addr2 hdrlen (
          frag_header
            (take hdrlen pkt ++ take (payload_len - frag_pos) (drop (hdrlen + frag_pos) pkt))
            (u16 frag_pos / 8 % 8192) (hdrlen + payload_len - frag_pos) ident)
        >>= λ pkt2. some (pkt1, pkt2)

-- The sizes of the buffers are `pkt1_size` and `pkt2_size`; `some none` is the result false.
unfoldable pub ip_frag4 : ℕ → ℕ → List ℕ → ℕ → ℕ → ℕ → ℕ → Option (Option (List ℕ × List ℕ))
unfolding make_fragments pntoh16
ip_frag4 addr1 addr2 pkt frag_pos ident pkt1_size pkt2_size =
    if not (frag_pos % 8 == 0) || ltb (length pkt) 20
    then some none
    else (pntoh16 pkt 2 >>= λ total. rd pkt 0 >>= λ b.
        let hdrlen = b % 16 * 4 in
        if ltb (length pkt) total || ltb (length pkt) hdrlen || ltb total hdrlen
        then some none
        else if leb (total - hdrlen) frag_pos
            || ltb pkt1_size (hdrlen + frag_pos)
            || ltb pkt2_size (total - frag_pos)
        then some none
        else (make_fragments addr1 addr2 pkt frag_pos ident hdrlen (total - hdrlen) >>= λ r.
            some (some r)))
