-- ===== src/Net/Fragment/Header.antt =====
-- The header of a fragment.
use fog_prime.Base.{
  ℕ, ◌-◌, ◌*◌, ◌/◌, ◌%◌, ◌^◌, ◌<◌, ◌≤◌, ◌≡◌, inl, inr, refl, sym, ◌∙◌, false, ◌==◌, if◌then◌else◌,
  List, ◌++◌, length, take, drop, set, some, byte, u16, arith, length-set, length-take,
  length-append, length-drop, Ensures, Ensures-bind, Ensures-weaken, Bool-cases,
}
use fog_prime.Checksum.{ip4_fix_checksum, ip4_compute_csum, do_csum, from64to16, not16}
use fog_prime.Checksum.Words.{AllBytes}
use fog_prime.Checksum.Sum.{IsNear, do_csum_lem}
use fog_prime.Net.Fragment.{set_be16, frag_header, fix_packet}
use fog_prime.Net.Fragment.Lists.{
  drop-set, drop-append, byte-append, byte-take, byte-set_self, byte-set_ne, AllBytes-take,
  AllBytes-set,
}

-- The bytes of the header that the receiver reads.
pub record IsHeader (off len : ℕ) (r : List ℕ) : Type 0 where
  pub offset_high : byte r 6 ≡ off / 256 % 256
  pub offset_low : byte r 7 ≡ off % 256
  pub len_high : byte r 2 ≡ u16 len / 256 % 256
  pub len_low : byte r 3 ≡ u16 len % 256

abbrev with_len : List ℕ → ℕ → ℕ → List ℕ
with_len buf off len = set_be16 (set_be16 buf 6 off) 2 (u16 len)

pub frag_header-byte :
    (buf : List ℕ) (off len ident j : ℕ)
    → (4 == j) ≡ false
    → (5 == j) ≡ false
    → byte (frag_header buf off len ident) j ≡ byte (with_len buf off len) j
unfolding frag_header
frag_header-byte buf off len ident j h4 h5 = elim (Bool-cases (ident == 2 ^ 32 - 1)) [
  | inl e ↦ rw e refl
  | inr e ↦
      let b = with_len buf off len in
      rw e (
        byte-set_ne (set b 4 (ident % 256)) 5 (ident / 256 % 256) j h5
        ∙ byte-set_ne b 4 (ident % 256) j h4)
]

pub with_len-IsHeader :
    (buf : List ℕ) (off len : ℕ) → 8 ≤ length buf → IsHeader off len (with_len buf off len)
with_len-IsHeader buf off len h =
    let b6 = set buf 6 (off / 256 % 256) in
    let b7 = set b6 7 (off % 256) in
    let b2 = set b7 2 (u16 len / 256 % 256) in
    let l6 = length-set buf 6 (off / 256 % 256) in
    let l7 = length-set b6 7 (off % 256) in
    let l2 = length-set b7 2 (u16 len / 256 % 256) in
    record {
      offset_high =
          byte-set_ne b2 3 (u16 len % 256) 6 refl
          ∙ byte-set_ne b7 2 (u16 len / 256 % 256) 6 refl
          ∙ byte-set_ne b6 7 (off % 256) 6 refl
          ∙ byte-set_self buf 6 (off / 256 % 256) (omega (arith, h));
      offset_low =
          byte-set_ne b2 3 (u16 len % 256) 7 refl
          ∙ byte-set_ne b7 2 (u16 len / 256 % 256) 7 refl
          ∙ byte-set_self b6 7 (off % 256) (omega (arith, h, l6));
      len_high =
          byte-set_ne b2 3 (u16 len % 256) 2 refl
          ∙ byte-set_self b7 2 (u16 len / 256 % 256) (omega (arith, h, l6, l7));
      len_low = byte-set_self b2 3 (u16 len % 256) (omega (arith, h, l6, l7, l2));
    }

pub frag_header-IsHeader :
    (buf : List ℕ) (off len ident : ℕ)
    → 8 ≤ length buf
    → IsHeader off len (frag_header buf off len ident)
frag_header-IsHeader buf off len ident h =
    let w = with_len-IsHeader buf off len h in
    let same = frag_header-byte buf off len ident in
    record {
      offset_high = same 6 refl refl ∙ w.offset_high;
      offset_low = same 7 refl refl ∙ w.offset_low;
      len_high = same 2 refl refl ∙ w.len_high;
      len_low = same 3 refl refl ∙ w.len_low;
    }

-- The checksum of a header is computed without a read behind it.
pub csum_total :
    (addr n : ℕ) (b : List ℕ)
    → AllBytes b
    → length b ≡ n
    → Ensures (λ s. Unit) (ip4_compute_csum addr b n)
unfolding ip4_compute_csum
csum_total addr n b a e = rw (sym e) (
    Ensures-bind (IsNear (if addr % 2 == 1 then 256 else 1) b) (λ s. Unit)
      (do_csum addr b (length b)) (λ s. some (not16 (from64to16 s))) (do_csum_lem addr b a)
      (λ s h. tt))

-- What a header keeps when its checksum is set, and what stands behind it.
pub record IsFixed (hdrlen : ℕ) (p r : List ℕ) : Type 0 where
  pub same_length : length r ≡ length p
  pub same_payload : drop hdrlen r ≡ drop hdrlen p
  pub same_byte : (j : ℕ) → j < hdrlen → (10 == j) ≡ false → (11 == j) ≡ false → byte r j ≡ byte p j

pub header_lem :
    (addr w : ℕ) (h : List ℕ)
    → length h ≡ w * 4
    → AllBytes h
    → Ensures
        (λ r.
          (length r ≡ w * 4)
          × ((j : ℕ) → (10 == j) ≡ false → (11 == j) ≡ false → byte r j ≡ byte h j))
        (ip4_fix_checksum addr h w)
unfolding ip4_fix_checksum
header_lem addr w h e a =
    let z = set (set h 10 0) 11 0 in
    let len : length z ≡ w * 4 = length-set (set h 10 0) 11 0 ∙ length-set h 10 0 ∙ e in
    let bytes =
      AllBytes-set (set h 10 0) 11 0 (omega arith) (AllBytes-set h 10 0 (omega arith) a) in
    Ensures-bind (λ s. Unit)
      (λ r.
        (length r ≡ w * 4)
        × ((j : ℕ) → (10 == j) ≡ false → (11 == j) ≡ false → byte r j ≡ byte h j))
      (ip4_compute_csum addr z (w * 4)) (λ s. some (set (set h 10 (s % 256)) 11 (s / 256)))
      (csum_total addr (w * 4) z bytes len)
      (λ s u. (
        length-set (set h 10 (s % 256)) 11 (s / 256) ∙ length-set h 10 (s % 256) ∙ e,
        λ j h10 h11.
            byte-set_ne (set h 10 (s % 256)) 11 (s / 256) j h11 ∙ byte-set_ne h 10 (s % 256) j h10,
      ))

pub fix_packet_lem :
    (addr w : ℕ) (p : List ℕ)
    → w * 4 ≤ length p
    → AllBytes p
    → Ensures (IsFixed (w * 4) p) (fix_packet addr (w * 4) p)
unfolding fix_packet
fix_packet_lem addr w p le a =
    let n = w * 4 in
    let len : length (take n p) ≡ n = omega (arith, length-take n p, le) in
    let total = header_lem addr w (take n p) len (AllBytes-take n p a) in
    let words : n / 4 ≡ w = omega arith in
    rw words (
      Ensures-bind
        (λ r.
          (length r ≡ n)
          × ((j : ℕ) → (10 == j) ≡ false → (11 == j) ≡ false → byte r j ≡ byte (take n p) j))
        (IsFixed n p) (ip4_fix_checksum addr (take n p) w) (λ h. some (h ++ drop n p)) total
        (λ h (l, same). record {
          same_length = omega (arith, length-append h (drop n p), length-drop n p, l, le);
          same_payload = drop-append n h (drop n p) l;
          same_byte = λ j lt h10 h11.
              byte-append h (drop n p) j (omega (arith, l, lt))
              ∙ same j h10 h11
              ∙ byte-take n p j lt;
        }))

pub drop-frag_header :
    (n : ℕ) (buf : List ℕ) (off len ident : ℕ)
    → 8 ≤ n
    → drop n (frag_header buf off len ident) ≡ drop n buf
unfolding frag_header
drop-frag_header n buf off len ident h =
    let b6 = set buf 6 (off / 256 % 256) in
    let b7 = set b6 7 (off % 256) in
    let b2 = set b7 2 (u16 len / 256 % 256) in
    let b3 = set b2 3 (u16 len % 256) in
    let same : drop n b3 ≡ drop n buf =
      drop-set n 3 b2 (u16 len % 256) (omega (arith, h))
      ∙ drop-set n 2 b7 (u16 len / 256 % 256) (omega (arith, h))
      ∙ drop-set n 7 b6 (off % 256) (omega (arith, h))
      ∙ drop-set n 6 buf (off / 256 % 256) (omega (arith, h)) in
    elim (Bool-cases (ident == 2 ^ 32 - 1)) [
      | inl e ↦ rw e same
      | inr e ↦ rw e (
          drop-set n 5 (set b3 4 (ident % 256)) (ident / 256 % 256) (omega (arith, h))
          ∙ drop-set n 4 b3 (ident % 256) (omega (arith, h))
          ∙ same)
    ]

pub length-frag_header :
    (buf : List ℕ) (off len ident : ℕ) → length (frag_header buf off len ident) ≡ length buf
unfolding frag_header
length-frag_header buf off len ident =
    let b6 = set buf 6 (off / 256 % 256) in
    let b7 = set b6 7 (off % 256) in
    let b2 = set b7 2 (u16 len / 256 % 256) in
    let b3 = set b2 3 (u16 len % 256) in
    let same =
      length-set b2 3 (u16 len % 256)
      ∙ length-set b7 2 (u16 len / 256 % 256)
      ∙ length-set b6 7 (off % 256)
      ∙ length-set buf 6 (off / 256 % 256) in
    elim (Bool-cases (ident == 2 ^ 32 - 1)) [
      | inl e ↦ rw e same
      | inr e ↦ rw e (
          length-set (set b3 4 (ident % 256)) 5 (ident / 256 % 256)
          ∙ length-set b3 4 (ident % 256)
          ∙ same)
    ]

pub frag_header-AllBytes :
    (buf : List ℕ) (off len ident : ℕ) → AllBytes buf → AllBytes (frag_header buf off len ident)
unfolding frag_header
frag_header-AllBytes buf off len ident a =
    let b6 = set buf 6 (off / 256 % 256) in
    let b7 = set b6 7 (off % 256) in
    let b2 = set b7 2 (u16 len / 256 % 256) in
    let b3 = set b2 3 (u16 len % 256) in
    let a3 = AllBytes-set b2 3 (u16 len % 256) (omega arith) (
      AllBytes-set b7 2 (u16 len / 256 % 256) (omega arith) (
        AllBytes-set b6 7 (off % 256) (omega arith)
          (AllBytes-set buf 6 (off / 256 % 256) (omega arith) a))) in
    elim (Bool-cases (ident == 2 ^ 32 - 1)) [
      | inl e ↦ rw e a3
      | inr e ↦ rw e (
          AllBytes-set (set b3 4 (ident % 256)) 5 (ident / 256 % 256) (omega arith)
            (AllBytes-set b3 4 (ident % 256) (omega arith) a3))
    ]

-- A packet with a new header, whose checksum is set.
pub record IsFragment (hdrlen off len : ℕ) (buf r : List ℕ) : Type 0 where
  pub size : length r ≡ length buf
  pub payload : drop hdrlen r ≡ drop hdrlen buf
  pub header : IsHeader off len r

pub fragment_lem :
    (addr w : ℕ) (buf : List ℕ) (off len ident : ℕ)
    → 5 ≤ w
    → w * 4 ≤ length buf
    → AllBytes buf
    → Ensures
        (IsFragment (w * 4) off len buf)
        (fix_packet addr (w * 4) (frag_header buf off len ident))
fragment_lem addr w buf off len ident h5 le a =
    let p = frag_header buf off len ident in
    let same = length-frag_header buf off len ident in
    let h = frag_header-IsHeader buf off len ident (omega (arith, h5, le)) in
    Ensures-weaken (IsFixed (w * 4) p) (IsFragment (w * 4) off len buf) (fix_packet addr (w * 4) p)
      (fix_packet_lem addr w p (omega (arith, same, le)) (frag_header-AllBytes buf off len ident a))
      (λ r f. record {
        size = f.same_length ∙ same;
        payload = f.same_payload ∙ drop-frag_header (w * 4) buf off len ident (omega (arith, h5));
        header = record {
          offset_high = f.same_byte 6 (omega (arith, h5)) refl refl ∙ h.offset_high;
          offset_low = f.same_byte 7 (omega (arith, h5)) refl refl ∙ h.offset_low;
          len_high = f.same_byte 2 (omega (arith, h5)) refl refl ∙ h.len_high;
          len_low = f.same_byte 3 (omega (arith, h5)) refl refl ∙ h.len_low;
        };
      })
