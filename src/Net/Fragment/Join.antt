-- ===== src/Net/Fragment/Join.antt =====
-- What a receiver makes of the fragments.
use fog_prime.Base.{
  ℕ, not, ◌||◌, ◌+◌, ◌-◌, ◌*◌, ◌/◌, ◌%◌, ◌^◌, ◌<◌, ◌≤◌, ◌≡◌, refl, ap, ◌∙◌, false, ◌==◌, ltb, leb,
  List, ◌++◌, length, take, drop, Option, none, some, byte, ◌>>=◌, u16, arith, length-take,
  length-append, length-drop, Ensures, Ensures-bind, rd_lem,
}
use fog_prime.Checksum.Words.{AllBytes}
use fog_prime.Net.Fragment.{frag_header, fix_packet, make_fragments, ip_frag4}
use fog_prime.Net.Fragment.Lists.{
  drop-append, drop-take, AllBytes-take, AllBytes-drop, AllBytes-append, drop-drop, take_split,
  byte-small,
}
use fog_prime.Helpers.Bytes.{pntoh16}
use fog_prime.Net.Fragment.Header.{IsFragment, fragment_lem}

-- Two fragments of a packet that receivers put together to its payload: each has the length that its
-- header tells; the first has offset 0 and more fragments follow, the second has the offset
-- `frag_pos`, in units of 8 bytes, and is the last.
abbrev pub IsSplit : List ℕ → ℕ → ℕ → ℕ → Option (List ℕ × List ℕ) → Type 0
IsSplit pkt hdrlen total frag_pos none = ⊥
IsSplit pkt hdrlen total frag_pos (some (p1, p2)) =
    (drop hdrlen p1 ++ drop hdrlen p2 ≡ take (total - hdrlen) (drop hdrlen pkt))
    × (length p1 ≡ hdrlen + frag_pos)
    × (length p2 ≡ total - frag_pos)
    × (byte p1 2 * 256 + byte p1 3 ≡ length p1)
    × (byte p2 2 * 256 + byte p2 3 ≡ length p2)
    × (byte p1 6 * 256 + byte p1 7 ≡ 8192)
    × ((byte p2 6 * 256 + byte p2 7) * 8 ≡ frag_pos)

module _ (addr1 addr2 : ℕ) (pkt : List ℕ) (frag_pos ident w total : ℕ) (bytes : AllBytes pkt)
    (aligned : frag_pos % 8 ≡ 0) (header : 5 ≤ w) (small : total < 2 ^ 16)
    (inside : total ≤ length pkt) (cut : w * 4 + frag_pos < total) where
  abbrev hl : ℕ
  hl = w * 4

  abbrev first : List ℕ
  first = take (hl + frag_pos) pkt

  abbrev second : List ℕ
  second = take hl pkt ++ take (total - hl - frag_pos) (drop (hl + frag_pos) pkt)

  joined :
      (p1 p2 : List ℕ)
      → IsFragment hl 8192 (hl + frag_pos) first p1
      → IsFragment hl (u16 frag_pos / 8 % 8192) (hl + (total - hl) - frag_pos) second p2
      → IsSplit pkt hl total frag_pos (some (p1, p2))
  joined p1 p2 f1 f2 =
      let first_len : length first ≡ hl + frag_pos =
        omega (arith, length-take (hl + frag_pos) pkt, inside, cut) in
      let head_len : length (take hl pkt) ≡ hl = omega (arith, length-take hl pkt, inside, cut) in
      let rest = take (total - hl - frag_pos) (drop (hl + frag_pos) pkt) in
      let rest_len : length rest ≡ total - hl - frag_pos = omega (
        arith,
        length-take (total - hl - frag_pos) (drop (hl + frag_pos) pkt),
        length-drop (hl + frag_pos) pkt,
        inside,
        cut,
      ) in
      let second_len : length second ≡ total - frag_pos =
        omega (arith, length-append (take hl pkt) rest, head_len, rest_len, cut) in
      let d1 : drop hl p1 ≡ take frag_pos (drop hl pkt) =
        f1.payload ∙ drop-take hl (hl + frag_pos) frag_pos pkt refl in
      let d2 : drop hl p2 ≡ take (total - hl - frag_pos) (drop frag_pos (drop hl pkt)) =
        f2.payload
        ∙ drop-append hl (take hl pkt) rest head_len
        ∙ ap (λ l. take (total - hl - frag_pos) l)
            (drop-drop hl frag_pos (hl + frag_pos) pkt refl) in
      (
        ap (λ l. l ++ drop hl p2) d1
            ∙ ap (λ l. take frag_pos (drop hl pkt) ++ l) d2
            ∙ take_split frag_pos (total - hl - frag_pos) (total - hl) (drop hl pkt)
                (omega (arith, cut)),
        f1.size ∙ first_len,
        f2.size ∙ second_len,
        omega (arith, f1.header.len_high, f1.header.len_low, f1.size, first_len, small, cut),
        omega (arith, f2.header.len_high, f2.header.len_low, f2.size, second_len, small, cut),
        omega (arith, f1.header.offset_high, f1.header.offset_low),
        omega (arith, f2.header.offset_high, f2.header.offset_low, small, cut, aligned),
      )

  fragments_lem :
      Ensures
        (λ r. IsSplit pkt hl total frag_pos (some r))
        (make_fragments addr1 addr2 pkt frag_pos ident hl (total - hl))
  unfolding make_fragments
  fragments_lem =
      let first_len : length first ≡ hl + frag_pos =
        omega (arith, length-take (hl + frag_pos) pkt, inside, cut) in
      let off2 = u16 frag_pos / 8 % 8192 in
      let rest = take (total - hl - frag_pos) (drop (hl + frag_pos) pkt) in
      let second_len : hl ≤ length second =
        omega (arith, length-append (take hl pkt) rest, length-take hl pkt, inside, cut) in
      let bytes2 = AllBytes-append (take hl pkt) rest (AllBytes-take hl pkt bytes) (
        AllBytes-take (total - hl - frag_pos) (drop (hl + frag_pos) pkt)
          (AllBytes-drop (hl + frag_pos) pkt bytes)) in
      Ensures-bind (IsFragment hl 8192 (hl + frag_pos) first)
        (λ r. IsSplit pkt hl total frag_pos (some r))
        (fix_packet addr1 hl (frag_header first 8192 (hl + frag_pos) ident))
        (λ p1.
          fix_packet addr2 hl (frag_header second off2 (hl + (total - hl) - frag_pos) ident)
          >>= λ p2. some (p1, p2))
        (fragment_lem addr1 w first 8192 (hl + frag_pos) ident header (omega (arith, first_len))
          (AllBytes-take (hl + frag_pos) pkt bytes))
        (λ p1 f1.
          Ensures-bind (IsFragment hl off2 (hl + (total - hl) - frag_pos) second)
            (λ r. IsSplit pkt hl total frag_pos (some r))
            (fix_packet addr2 hl (frag_header second off2 (hl + (total - hl) - frag_pos) ident))
            (λ p2. some (p1, p2))
            (fragment_lem addr2 w second off2 (hl + (total - hl) - frag_pos) ident header second_len
              bytes2)
            (λ p2 f2. joined p1 p2 f1 f2))

-- ip_hl, in bytes, and ip_len
abbrev pub header_len : List ℕ → ℕ
header_len pkt = byte pkt 0 % 16 * 4

abbrev pub total_len : List ℕ → ℕ
total_len pkt = byte pkt 2 * 2 ^ 8 + byte pkt 3

total_read : (pkt : List ℕ) → 20 ≤ length pkt → pntoh16 pkt 2 ≡ some (total_len pkt)
unfolding pntoh16
total_read pkt h = rw (rd_lem pkt 2 (omega (arith, h)), rd_lem pkt 3 (omega (arith, h))) refl

-- An IPv4 packet of bytes whose header has at least 20 of them, which is all there, a position that
-- is a multiple of 8 inside of its payload, and buffers that are large enough: then ip_frag4 reads
-- nothing outside of the packet and returns two fragments with the lengths and offsets that their
-- headers tell, of which the payloads make up that of the packet.
pub ip_frag4_lem :
    (addr1 addr2 : ℕ) (pkt : List ℕ) (frag_pos ident pkt1_size pkt2_size : ℕ)
    → AllBytes pkt
    → 20 ≤ length pkt
    → 20 ≤ header_len pkt
    → total_len pkt ≤ length pkt
    → frag_pos % 8 ≡ 0
    → header_len pkt + frag_pos < total_len pkt
    → header_len pkt + frag_pos ≤ pkt1_size
    → total_len pkt - frag_pos ≤ pkt2_size
    → Ensures
        (IsSplit pkt (header_len pkt) (total_len pkt) frag_pos)
        (ip_frag4 addr1 addr2 pkt frag_pos ident pkt1_size pkt2_size)
unfolding ip_frag4
ip_frag4_lem addr1 addr2 pkt frag_pos ident pkt1_size pkt2_size bytes h20 hh inside aligned cut s1
      s2 =
    let hl = header_len pkt in
    let total = total_len pkt in
    let small : total < 2 ^ 16 = omega (arith, byte-small pkt 2 bytes, byte-small pkt 3 bytes) in
    let start : (not (frag_pos % 8 == 0) || ltb (length pkt) 20) ≡ false = ground arith in
    let there : (ltb (length pkt) total || ltb (length pkt) hl || ltb total hl) ≡ false =
      ground arith in
    let fits : (leb (total - hl) frag_pos
          || ltb pkt1_size (hl + frag_pos)
          || ltb pkt2_size (total - frag_pos))
        ≡ false =
      ground arith in
    rw (start, total_read pkt h20, rd_lem pkt 0 (omega (arith, h20)), there, fits)
      (Ensures-bind (λ r. IsSplit pkt hl total frag_pos (some r)) (IsSplit pkt hl total frag_pos)
        (make_fragments addr1 addr2 pkt frag_pos ident hl (total - hl)) (λ r. some (some r))
        (fragments_lem addr1 addr2 pkt frag_pos ident (byte pkt 0 % 16) total bytes aligned
          (omega (arith, hh)) small inside cut)
        (λ r s. s))
