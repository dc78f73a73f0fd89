-- ===== src/Tamper/Records.antt =====
-- The two records that tamper_out makes carry the payload of the one it was given.
use fog_prime.Base.{
  ℕ, ◌+◌, ◌-◌, ◌*◌, ◌/◌, ◌^◌, ◌≤◌, ◌<◌, ◌≡◌, refl, sym, ap, ◌∙◌, true, ltb, leb, if◌then◌else◌,
  List, [], ◌∷◌, ◌++◌, Option, none, some, length, take, drop, byte, u8, u16, arith, length-append,
  length-take, length-drop, take-append_left, take-append-drop,
}
use fog_prime.Net.Fragment.Lists.{drop-append, drop-take, drop-drop, take_split}
use fog_prime.Helpers.Bytes.{phton16}
use fog_prime.Tamper.Split.{record_len, clamp_tpos, two_records, tamper_tls}

-- A TLS record, as its receiver reads it: type and version, payload, and what follows.
pub data Record : Type 0 where
  a_record : List ℕ → List ℕ → List ℕ → Record

pub read_record : List ℕ → Option Record
read_record (t ∷ a ∷ b ∷ hi ∷ lo ∷ rest) =
    if leb (hi * 256 + lo) (length rest)
    then some (a_record (t ∷ a ∷ b ∷ []) (take (hi * 256 + lo) rest) (drop (hi * 256 + lo) rest))
    else none
read_record xs = none

read_written :
    (t a b n : ℕ) (payload rest : List ℕ)
    → n < 2 ^ 16
    → length payload ≡ n
    → read_record (t ∷ a ∷ b ∷ (phton16 (u16 n) ++ (payload ++ rest)))
      ≡ some (a_record (t ∷ a ∷ b ∷ []) payload rest)
unfolding read_record phton16
read_written t a b n payload rest lt e =
    let value : u8 (u16 n / 2 ^ 8) * 256 + u8 (u16 n) ≡ n = omega arith in
    let room : leb n (length (payload ++ rest)) ≡ true =
      ground (arith, length-append payload rest) in
    rw (value, room, take-append_left n payload rest e, drop-append n payload rest e) refl

-- A record was cut in two: both carry something, and together what the one carried; what followed it
-- follows the second one.
abbrev pub IsCutRecord : List ℕ → List ℕ → List ℕ → List ℕ → Type 0
IsCutRecord type payload rest out =
    (p1 p2 out2 : List ℕ) × (read_record out ≡ some (a_record type p1 out2))
    × (read_record out2 ≡ some (a_record type p2 rest))
    × (p1 ++ p2 ≡ payload)
    × (0 < length p1)
    × (0 < length p2)

-- The position lies in the payload, and leaves something of it.
clamp_lem : (l tpos : ℕ) → 2 ≤ l → 5 < tpos → (5 < clamp_tpos l tpos) × (clamp_tpos l tpos - 5 < l)
clamp_lem l tpos two behind = ground arith

module _ (t a b hi lo : ℕ) (body : List ℕ) where
  abbrev pub segment : List ℕ
  segment = t ∷ a ∷ b ∷ hi ∷ lo ∷ body

  pub written :
      (n at l : ℕ)
      → at ≡ 5 + n
      → record_len segment ≡ l
      → two_records segment at
        ≡ t
          ∷ a
          ∷ b
          ∷ (phton16 (u16 n)
              ++ (take n body ++ (t ∷ a ∷ b ∷ (phton16 (u16 (l - n)) ++ drop n body))))
  unfolding two_records byte
  written n at l e len =
      let back : at - 5 ≡ n = omega arith in
      let front : drop 5 (take at segment) ≡ take n body = drop-take 5 at n segment e in
      let tail : drop at segment ≡ drop n body = drop-drop 5 n at segment e in
      rw (back, front, tail, len) refl

  record_len_is : record_len segment ≡ hi * 2 ^ 8 + lo
  unfolding byte
  record_len_is = refl

  cut_lem :
      (n at l : ℕ)
      → at ≡ 5 + n
      → record_len segment ≡ l
      → l < 2 ^ 16
      → 0 < n
      → n < l
      → l ≤ length body
      → IsCutRecord (t ∷ a ∷ b ∷ []) (take l body) (drop l body) (two_records segment at)
  cut_lem n at l e len word pos lt le =
      let p1 = take n body in
      let p2 = take (l - n) (drop n body) in
      let rest = drop (l - n) (drop n body) in
      let out2 = t ∷ a ∷ b ∷ (phton16 (u16 (l - n)) ++ drop n body) in
      let n1 : length p1 ≡ n = omega (arith, length-take n body) in
      let n2 : length p2 ≡ l - n =
        omega (arith, length-take (l - n) (drop n body), length-drop n body) in
      let shape = written n at l e len in
      let first = read_written t a b n p1 out2 (omega arith) n1 in
      let second = read_written t a b (l - n) p2 rest (omega arith) n2 in
      let whole : p2 ++ rest ≡ drop n body = take-append-drop (l - n) (drop n body) in
      let tail : rest ≡ drop l body = sym (drop-drop n (l - n) l body (omega arith)) in
      (
        p1,
        p2,
        out2,
        ap read_record shape ∙ first,
        ap (λ d. read_record (t ∷ a ∷ b ∷ (phton16 (u16 (l - n)) ++ d))) (sym whole)
            ∙ second
            ∙ ap (λ r. some (a_record (t ∷ a ∷ b ∷ []) p2 r)) tail,
        take_split n (l - n) l body (omega arith),
        omega (arith, n1),
        omega (arith, n2),
      )

  -- A record of two bytes or more that lies whole in the segment, with room for five more bytes and a
  -- position behind its header, becomes two records of the same type and version, both with a part
  -- of the payload, which is in order and complete; what follows the record is kept.
  pub tamper_tls_lem :
      (size tpos : ℕ) (splits : List ℕ)
      → hi < 256
      → lo < 256
      → 2 ≤ hi * 2 ^ 8 + lo
      → hi * 2 ^ 8 + lo ≤ length body
      → 10 + length body ≤ size
      → 5 < tpos
      → IsCutRecord
          (t ∷ a ∷ b ∷ [])
          (take (hi * 2 ^ 8 + lo) body)
          (drop (hi * 2 ^ 8 + lo) body)
          (tamper_tls size tpos segment splits).0
  unfolding tamper_tls byte
  tamper_tls_lem size tpos splits h1 h2 two le room behind =
      let l = hi * 2 ^ 8 + lo in
      let len = record_len_is in
      let at = clamp_tpos l tpos in
      let fits : leb (5 + length segment) size ≡ true = ground arith in
      let far : ltb 5 tpos ≡ true = ground arith in
      let many : leb 2 l ≡ true = ground arith in
      let inside : (5 < at) × (at - 5 < l) = clamp_lem l tpos two behind in
      rw (fits, far, len, many)
        (cut_lem (at - 5) at l (omega (arith, inside.0)) len (omega arith) (omega (arith, inside.0))
          inside.1 le)
