-- ===== src/Tamper/Pad.antt =====
-- The padding headers of tamper_out, tpws/tamper.c. What rand gives is a parameter: the seven
-- characters `name k` that snprintf makes for the header number k, and the letter `fill k`.
use fog_prime.Base.{
  ℕ, zero, suc, ◌+◌, ◌-◌, ◌%◌, ◌^◌, ◌≤◌, ◌<◌, ◌≡◌, Bool, true, false, ltb, ◌==◌, if◌then◌else◌,
  List, [], ◌∷◌, ◌++◌, length, replicate, length-append, length-replicate, arith, inl, inr, ◌⊎◌,
}

-- a - b on size_t
abbrev pub size_sub : ℕ → ℕ → ℕ
size_sub a b = (a + 2 ^ 64 - b % 2 ^ 64) % 2 ^ 64

-- "XXXXX: " and an end of line
abbrev pub hsize : Bool → ℕ
hsize unixeol = if unixeol then 8 else 9

abbrev pub end_of_line : Bool → List ℕ
end_of_line unixeol = if unixeol then 10 ∷ [] else 13 ∷ 10 ∷ []

-- The filling of the next header, of at most MAX_HDR_SIZE bytes unless the rest is too short for
-- another header.
unfoldable pub pad_size : Bool → ℕ → ℕ
pad_size unixeol hostpad =
    let full = if ltb (hsize unixeol) hostpad then hostpad - hsize unixeol else 0 in
    let padsize = if ltb 2048 full then 2048 else full in
    let left = size_sub (size_sub hostpad padsize) (hsize unixeol) in
    if ltb left (hsize unixeol) then padsize + left else padsize

-- while(hostpad), in `fuel` rounds at most; `k` counts the headers.
unfoldable pub pad_headers : (ℕ → List ℕ) → (ℕ → ℕ) → Bool → ℕ → ℕ → ℕ → List ℕ
unfolding pad_size
pad_headers name fill unixeol zero k hostpad = []
pad_headers name fill unixeol (suc fuel) k hostpad =
    let padsize = pad_size unixeol hostpad in
    let rest =
      pad_headers name fill unixeol fuel (suc k) (size_sub hostpad (hsize unixeol + padsize)) in
    if hostpad == 0
    then []
    else name k ++ (replicate padsize (fill k) ++ (end_of_line unixeol ++ rest))

-- A header takes part of the padding, and leaves nothing or enough for another one.
abbrev IsCut : Bool → ℕ → ℕ → Type 0
IsCut unixeol hostpad padsize =
    (hsize unixeol + padsize ≤ hostpad)
    × ((size_sub hostpad (hsize unixeol + padsize) ≡ 0)
        ⊎ (hsize unixeol ≤ size_sub hostpad (hsize unixeol + padsize)))

pad_size_lem :
    (unixeol : Bool) (hostpad : ℕ)
    → hsize unixeol ≤ hostpad
    → hostpad < 2 ^ 64
    → IsCut unixeol hostpad (pad_size unixeol hostpad)
unfolding pad_size
pad_size_lem true hostpad le lt = ground arith
pad_size_lem false hostpad le lt = ground arith

hsize_pos : (unixeol : Bool) → 0 < hsize unixeol
hsize_pos true = omega arith
hsize_pos false = omega arith

-- One round: the header's bytes and the rest.
length-header :
    (unixeol : Bool) (name fill : List ℕ) (rest : List ℕ)
    → length name ≡ 7
    → length (name ++ (fill ++ (end_of_line unixeol ++ rest)))
      ≡ hsize unixeol + length fill + length rest
length-header true name fill rest e = omega (
  arith,
  length-append name (fill ++ (end_of_line true ++ rest)),
  length-append fill (end_of_line true ++ rest),
)
length-header false name fill rest e = omega (
  arith,
  length-append name (fill ++ (end_of_line false ++ rest)),
  length-append fill (end_of_line false ++ rest),
)

-- The bytes that make up whole headers, each with seven characters, a filling and an end of line.
pub data IsHeaders (unixeol : Bool) : List ℕ → Type 0 where
  no_header : IsHeaders unixeol []
  one_header :
      (name : List ℕ) (n c : ℕ) (rest : List ℕ)
      → length name ≡ 7
      → IsHeaders unixeol rest
      → IsHeaders unixeol (name ++ (replicate n c ++ (end_of_line unixeol ++ rest)))

module _ (name : ℕ → List ℕ) (fill : ℕ → ℕ) (unixeol : Bool)
    (seven : (k : ℕ) → length (name k) ≡ 7) where
  pad_from :
      (fuel k hostpad : ℕ)
      → hostpad ≤ fuel
      → hostpad < 2 ^ 64
      → (hostpad ≡ 0) ⊎ (hsize unixeol ≤ hostpad)
      → (length (pad_headers name fill unixeol fuel k hostpad) ≡ hostpad)
        × IsHeaders unixeol (pad_headers name fill unixeol fuel k hostpad)
  unfolding pad_headers
  pad_from zero k hostpad le lt h = (omega arith, no_header)
  pad_from (suc fuel) k hostpad le lt (inl z) =
      let t : (hostpad == 0) ≡ true = ground arith in rw t (omega (arith, z), no_header)
  pad_from (suc fuel) k hostpad le lt (inr enough) =
      let pos : 0 < hsize unixeol = hsize_pos unixeol in
      let f : (hostpad == 0) ≡ false = ground arith in
      let n = pad_size unixeol hostpad in
      let left = size_sub hostpad (hsize unixeol + n) in
      let cut = pad_size_lem unixeol hostpad enough lt in
      let exact : left + (hsize unixeol + n) ≡ hostpad = omega (arith, cut.0) in
      let (size, headers) = pad_from fuel (suc k) left (omega arith) (omega arith) cut.1 in
      let rest = pad_headers name fill unixeol fuel (suc k) left in
      rw f (
        omega (
          arith,
          length-header unixeol (name k) (replicate n (fill k)) rest (seven k),
          length-replicate n (fill k),
          size,
        ),
        one_header (name k) n (fill k) rest (seven k) headers,
      )

  -- When there is room for a header, then the padding is made of whole headers and takes exactly the
  -- bytes that were set aside for it; `hostpad` rounds are enough.
  pub pad_headers_lem :
      (k hostpad : ℕ)
      → hsize unixeol ≤ hostpad
      → hostpad < 2 ^ 64
      → (length (pad_headers name fill unixeol hostpad k hostpad) ≡ hostpad)
        × IsHeaders unixeol (pad_headers name fill unixeol hostpad k hostpad)
  pad_headers_lem k hostpad enough lt = pad_from hostpad k hostpad (omega arith) lt (inr enough)
