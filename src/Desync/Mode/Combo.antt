-- ===== src/Desync/Mode/Combo.antt =====
-- Which combinations of modes the option accepts, and how they are written.
use fog_prime.Base.{
  ℕ, ◌≡◌, refl, ap, ◌∙◌, Bool, true, false, not, ◌&&◌, ◌||◌, if◌then◌else◌, List, ◌∷◌, ◌++◌, Option,
  none, some, arith,
}
use fog_prime.Desync.Mode.{
  DesyncMode, none_mode, invalid, fake, fake_known, rst, rstack, synack, syndata, faked_split,
  faked_disorder, multisplit, multidisorder, hostfakesplit, ipfrag2, hopbyhop, destopt, ipfrag1,
  udplen, tamper, desync_valid_zero_stage, desync_valid_first_stage, desync_valid_second_stage,
  desync_mode_from_string, check_combo, parse_dpi_desync, is_none_mode, is_invalid,
  desync_only_first_stage, desync_valid_second_stage_tcp, desync_valid_second_stage_udp,
}
use fog_prime.Desync.Mode.Words.{word, has_word, word-read, cut_between, cut_end}

-- The stages of a mode: those of the first stage and the second one have words, and are not of stage
-- zero.
stages :
    (m : DesyncMode)
    → ((not (desync_valid_first_stage m) || has_word m && not (desync_valid_zero_stage m))
        && (not (desync_valid_zero_stage m) || has_word m)
        && (not (desync_valid_second_stage m && not (is_none_mode m)) || has_word m))
      ≡ true
unfolding desync_valid_first_stage desync_valid_zero_stage desync_valid_second_stage
    desync_valid_second_stage_tcp desync_valid_second_stage_udp
stages none_mode = refl
stages invalid = refl
stages fake = refl
stages fake_known = refl
stages rst = refl
stages rstack = refl
stages synack = refl
stages syndata = refl
stages faked_split = refl
stages faked_disorder = refl
stages multisplit = refl
stages multidisorder = refl
stages hostfakesplit = refl
stages ipfrag2 = refl
stages hopbyhop = refl
stages destopt = refl
stages ipfrag1 = refl
stages udplen = refl
stages tamper = refl

valid : (m : DesyncMode) → has_word m ≡ true → is_invalid m ≡ false
valid none_mode h = refl
valid invalid h = cc
valid fake h = refl
valid fake_known h = refl
valid rst h = refl
valid rstack h = refl
valid synack h = refl
valid syndata h = refl
valid faked_split h = refl
valid faked_disorder h = refl
valid multisplit h = refl
valid multidisorder h = refl
valid hostfakesplit h = refl
valid ipfrag2 h = refl
valid hopbyhop h = refl
valid destopt h = refl
valid ipfrag1 h = refl
valid udplen h = refl
valid tamper h = refl

-- A first mode and a second one.
abbrev pub is_combo : DesyncMode → DesyncMode → Bool
is_combo m1 m2 =
    desync_valid_first_stage m1 && (desync_valid_second_stage m2 && not (is_none_mode m2))

check_lem :
    (m0 m1 m2 : DesyncMode)
    → is_invalid m0 ≡ false
    → is_combo m1 m2 ≡ true
    → check_combo m0 (some (word m1)) (some (word m2)) none ≡ some (m0, m1, m2)
unfolding check_combo desync_only_first_stage
check_lem m0 m1 m2 v c =
    let s1 = stages m1 in
    let s2 = stages m2 in
    let h1 : has_word m1 ≡ true = ground arith in
    let h2 : has_word m2 ≡ true = ground arith in
    let first : desync_valid_first_stage m1 ≡ true = ground arith in
    let second : desync_valid_second_stage m2 ≡ true = ground arith in
    let real : is_none_mode m2 ≡ false = ground arith in
    rw (word-read m1 h1, word-read m2 h2, v, valid m1 h1, valid m2 h2, first, second, real) refl

abbrev pub pair : DesyncMode → DesyncMode → List ℕ
pair m1 m2 = word m1 ++ 44 ∷ word m2

take_else :
    (b : Bool) (x y : Option (DesyncMode × DesyncMode × DesyncMode))
    → b ≡ false
    → (if b then x else y) ≡ y
take_else b x y e = rw e refl

two_lem :
    (m1 m2 : DesyncMode)
    → is_combo m1 m2 ≡ true
    → parse_dpi_desync (pair m1 m2) ≡ some (none_mode, m1, m2)
unfolding parse_dpi_desync
two_lem m1 m2 c =
    let s1 = stages m1 in
    let h1 : has_word m1 ≡ true = ground arith in
    let later : desync_valid_zero_stage m1 ≡ false = ground arith in
    let b = desync_valid_zero_stage (desync_mode_from_string (some (word m1))) in
    rw (cut_between m1 (word m2), cut_end m2)
      (take_else b
          (check_combo (desync_mode_from_string (some (word m1))) (some (word m2)) none none)
          (check_combo none_mode (some (word m1)) (some (word m2)) none)
          (ap desync_valid_zero_stage (word-read m1 h1) ∙ later)
        ∙ check_lem none_mode m1 m2 refl c)

three_lem :
    (m0 m1 m2 : DesyncMode)
    → desync_valid_zero_stage m0 ≡ true
    → is_combo m1 m2 ≡ true
    → parse_dpi_desync (word m0 ++ 44 ∷ pair m1 m2) ≡ some (m0, m1, m2)
unfolding parse_dpi_desync
three_lem m0 m1 m2 z c =
    let s0 = stages m0 in
    let h0 : has_word m0 ≡ true = ground arith in
    rw (cut_between m0 (pair m1 m2), cut_between m1 (word m2), word-read m0 h0, z)
      (check_lem m0 m1 m2 (valid m0 h0) c)

-- The words of a mode of the first stage and one of the second, with a comma between them, are read
-- as these two modes; and with the word of a mode of stage zero and a comma before them, as the three.
pub combo_read :
    (m0 m1 m2 : DesyncMode)
    → desync_valid_zero_stage m0 ≡ true
    → is_combo m1 m2 ≡ true
    → (parse_dpi_desync (pair m1 m2) ≡ some (none_mode, m1, m2))
      × (parse_dpi_desync (word m0 ++ 44 ∷ pair m1 m2) ≡ some (m0, m1, m2))
combo_read m0 m1 m2 z c = (two_lem m1 m2 c, three_lem m0 m1 m2 z c)
