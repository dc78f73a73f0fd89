-- ===== src/Desync/Mode.antt =====
-- Desync modes, nfq/desync.c: desync_valid_zero_stage to desync_mode_from_string, and the option
-- --dpi-desync of nfq/nfqws.c, which names up to three of them.
pub mod Words
pub mod Combo
use fog_prime.Base.{
  ℕ, Bool, true, false, not, ◌&&◌, ◌||◌, ◌==◌, if◌then◌else◌, List, [], ◌∷◌, Option, none, some,
  bytes_eq,
}

-- enum dpi_desync_mode
pub data DesyncMode : Type 0 where
  none_mode invalid fake fake_known rst rstack synack syndata faked_split faked_disorder multisplit
        multidisorder hostfakesplit ipfrag2 hopbyhop destopt ipfrag1 udplen tamper :
      DesyncMode

unfoldable pub desync_valid_zero_stage : DesyncMode → Bool
desync_valid_zero_stage none_mode = false
desync_valid_zero_stage invalid = false
desync_valid_zero_stage fake = false
desync_valid_zero_stage fake_known = false
desync_valid_zero_stage rst = false
desync_valid_zero_stage rstack = false
desync_valid_zero_stage synack = true
desync_valid_zero_stage syndata = true
desync_valid_zero_stage faked_split = false
desync_valid_zero_stage faked_disorder = false
desync_valid_zero_stage multisplit = false
desync_valid_zero_stage multidisorder = false
desync_valid_zero_stage hostfakesplit = false
desync_valid_zero_stage ipfrag2 = false
desync_valid_zero_stage hopbyhop = false
desync_valid_zero_stage destopt = false
desync_valid_zero_stage ipfrag1 = false
desync_valid_zero_stage udplen = false
desync_valid_zero_stage tamper = false

unfoldable pub desync_valid_first_stage : DesyncMode → Bool
desync_valid_first_stage none_mode = false
desync_valid_first_stage invalid = false
desync_valid_first_stage fake = true
desync_valid_first_stage fake_known = true
desync_valid_first_stage rst = true
desync_valid_first_stage rstack = true
desync_valid_first_stage synack = false
desync_valid_first_stage syndata = false
desync_valid_first_stage faked_split = false
desync_valid_first_stage faked_disorder = false
desync_valid_first_stage multisplit = false
desync_valid_first_stage multidisorder = false
desync_valid_first_stage hostfakesplit = false
desync_valid_first_stage ipfrag2 = false
desync_valid_first_stage hopbyhop = true
desync_valid_first_stage destopt = true
desync_valid_first_stage ipfrag1 = true
desync_valid_first_stage udplen = false
desync_valid_first_stage tamper = false

unfoldable pub desync_only_first_stage : DesyncMode → Bool
desync_only_first_stage m = false

unfoldable pub desync_valid_second_stage_tcp : DesyncMode → Bool
desync_valid_second_stage_tcp none_mode = true
desync_valid_second_stage_tcp invalid = false
desync_valid_second_stage_tcp fake = false
desync_valid_second_stage_tcp fake_known = false
desync_valid_second_stage_tcp rst = false
desync_valid_second_stage_tcp rstack = false
desync_valid_second_stage_tcp synack = false
desync_valid_second_stage_tcp syndata = false
desync_valid_second_stage_tcp faked_split = true
desync_valid_second_stage_tcp faked_disorder = true
desync_valid_second_stage_tcp multisplit = true
desync_valid_second_stage_tcp multidisorder = true
desync_valid_second_stage_tcp hostfakesplit = true
desync_valid_second_stage_tcp ipfrag2 = true
desync_valid_second_stage_tcp hopbyhop = false
desync_valid_second_stage_tcp destopt = false
desync_valid_second_stage_tcp ipfrag1 = false
desync_valid_second_stage_tcp udplen = false
desync_valid_second_stage_tcp tamper = false

unfoldable pub desync_valid_second_stage_udp : DesyncMode → Bool
desync_valid_second_stage_udp none_mode = true
desync_valid_second_stage_udp invalid = false
desync_valid_second_stage_udp fake = false
desync_valid_second_stage_udp fake_known = false
desync_valid_second_stage_udp rst = false
desync_valid_second_stage_udp rstack = false
desync_valid_second_stage_udp synack = false
desync_valid_second_stage_udp syndata = false
desync_valid_second_stage_udp faked_split = false
desync_valid_second_stage_udp faked_disorder = false
desync_valid_second_stage_udp multisplit = false
desync_valid_second_stage_udp multidisorder = false
desync_valid_second_stage_udp hostfakesplit = false
desync_valid_second_stage_udp ipfrag2 = true
desync_valid_second_stage_udp hopbyhop = false
desync_valid_second_stage_udp destopt = false
desync_valid_second_stage_udp ipfrag1 = false
desync_valid_second_stage_udp udplen = true
desync_valid_second_stage_udp tamper = true

unfoldable pub desync_valid_second_stage : DesyncMode → Bool
unfolding desync_valid_second_stage_tcp desync_valid_second_stage_udp
desync_valid_second_stage m = desync_valid_second_stage_tcp m || desync_valid_second_stage_udp m

-- The words, in the order of the comparisons.
abbrev pub mode_words : List (List ℕ × DesyncMode)
mode_words =
    -- fake
    (102 ∷ 97 ∷ 107 ∷ 101 ∷ [], fake)
    ∷
        -- fakeknown
        (102 ∷ 97 ∷ 107 ∷ 101 ∷ 107 ∷ 110 ∷ 111 ∷ 119 ∷ 110 ∷ [], fake_known)
    ∷
        -- rst
        (114 ∷ 115 ∷ 116 ∷ [], rst)
    ∷
        -- rstack
        (114 ∷ 115 ∷ 116 ∷ 97 ∷ 99 ∷ 107 ∷ [], rstack)
    ∷
        -- synack
        (115 ∷ 121 ∷ 110 ∷ 97 ∷ 99 ∷ 107 ∷ [], synack)
    ∷
        -- syndata
        (115 ∷ 121 ∷ 110 ∷ 100 ∷ 97 ∷ 116 ∷ 97 ∷ [], syndata)
    ∷
        -- fakeddisorder
        (
          102 ∷ 97 ∷ 107 ∷ 101 ∷ 100 ∷ 100 ∷ 105 ∷ 115 ∷ 111 ∷ 114 ∷ 100 ∷ 101 ∷ 114 ∷ [],
          faked_disorder,
        )
    ∷
        -- disorder
        (100 ∷ 105 ∷ 115 ∷ 111 ∷ 114 ∷ 100 ∷ 101 ∷ 114 ∷ [], faked_disorder)
    ∷
        -- fakedsplit
        (102 ∷ 97 ∷ 107 ∷ 101 ∷ 100 ∷ 115 ∷ 112 ∷ 108 ∷ 105 ∷ 116 ∷ [], faked_split)
    ∷
        -- split
        (115 ∷ 112 ∷ 108 ∷ 105 ∷ 116 ∷ [], faked_split)
    ∷
        -- multisplit
        (109 ∷ 117 ∷ 108 ∷ 116 ∷ 105 ∷ 115 ∷ 112 ∷ 108 ∷ 105 ∷ 116 ∷ [], multisplit)
    ∷
        -- split2
        (115 ∷ 112 ∷ 108 ∷ 105 ∷ 116 ∷ 50 ∷ [], multisplit)
    ∷
        -- multidisorder
        (
          109 ∷ 117 ∷ 108 ∷ 116 ∷ 105 ∷ 100 ∷ 105 ∷ 115 ∷ 111 ∷ 114 ∷ 100 ∷ 101 ∷ 114 ∷ [],
          multidisorder,
        )
    ∷
        -- disorder2
        (100 ∷ 105 ∷ 115 ∷ 111 ∷ 114 ∷ 100 ∷ 101 ∷ 114 ∷ 50 ∷ [], multidisorder)
    ∷
        -- hostfakesplit
        (
          104 ∷ 111 ∷ 115 ∷ 116 ∷ 102 ∷ 97 ∷ 107 ∷ 101 ∷ 115 ∷ 112 ∷ 108 ∷ 105 ∷ 116 ∷ [],
          hostfakesplit,
        )
    ∷
        -- ipfrag2
        (105 ∷ 112 ∷ 102 ∷ 114 ∷ 97 ∷ 103 ∷ 50 ∷ [], ipfrag2)
    ∷
        -- hopbyhop
        (104 ∷ 111 ∷ 112 ∷ 98 ∷ 121 ∷ 104 ∷ 111 ∷ 112 ∷ [], hopbyhop)
    ∷
        -- destopt
        (100 ∷ 101 ∷ 115 ∷ 116 ∷ 111 ∷ 112 ∷ 116 ∷ [], destopt)
    ∷
        -- ipfrag1
        (105 ∷ 112 ∷ 102 ∷ 114 ∷ 97 ∷ 103 ∷ 49 ∷ [], ipfrag1)
    ∷
        -- udplen
        (117 ∷ 100 ∷ 112 ∷ 108 ∷ 101 ∷ 110 ∷ [], udplen)
    ∷
        -- tamper
        (116 ∷ 97 ∷ 109 ∷ 112 ∷ 101 ∷ 114 ∷ [], tamper)
    ∷ []

unfoldable pub first_word : List (List ℕ × DesyncMode) → List ℕ → DesyncMode
first_word [] s = invalid
first_word ((w, m) ∷ words) s = if bytes_eq s w then m else first_word words s

unfoldable pub desync_mode_from_string : Option (List ℕ) → DesyncMode
unfolding first_word
desync_mode_from_string none = none_mode
desync_mode_from_string (some s) = first_word mode_words s

-- `strchr(s, ',')`, a 0 written over the comma: what stands before it, and behind it if there is one.
unfoldable pub cut_comma : List ℕ → List ℕ × Option (List ℕ)
cut_comma [] = ([], none)
cut_comma (c ∷ s) =
    let (word, rest) = cut_comma s in if c == 44 then ([], some s) else (c ∷ word, rest)

abbrev pub is_mode : Option (List ℕ) → Bool
is_mode none = false
is_mode (some s) = true

abbrev pub is_invalid : DesyncMode → Bool
is_invalid none_mode = false
is_invalid invalid = true
is_invalid fake = false
is_invalid fake_known = false
is_invalid rst = false
is_invalid rstack = false
is_invalid synack = false
is_invalid syndata = false
is_invalid faked_split = false
is_invalid faked_disorder = false
is_invalid multisplit = false
is_invalid multidisorder = false
is_invalid hostfakesplit = false
is_invalid ipfrag2 = false
is_invalid hopbyhop = false
is_invalid destopt = false
is_invalid ipfrag1 = false
is_invalid udplen = false
is_invalid tamper = false

abbrev pub is_none_mode : DesyncMode → Bool
is_none_mode none_mode = true
is_none_mode invalid = false
is_none_mode fake = false
is_none_mode fake_known = false
is_none_mode rst = false
is_none_mode rstack = false
is_none_mode synack = false
is_none_mode syndata = false
is_none_mode faked_split = false
is_none_mode faked_disorder = false
is_none_mode multisplit = false
is_none_mode multidisorder = false
is_none_mode hostfakesplit = false
is_none_mode ipfrag2 = false
is_none_mode hopbyhop = false
is_none_mode destopt = false
is_none_mode ipfrag1 = false
is_none_mode udplen = false
is_none_mode tamper = false

-- The tests behind the words; `none` is the exit with an error.
unfoldable pub check_combo :
    DesyncMode
    → Option (List ℕ)
    → Option (List ℕ)
    → Option (List ℕ)
    → Option (DesyncMode × DesyncMode × DesyncMode)
unfolding desync_mode_from_string desync_valid_first_stage desync_valid_second_stage
    desync_only_first_stage
check_combo m0 mode mode2 mode3 =
    let m1 = desync_mode_from_string mode in
    let m2 = desync_mode_from_string mode2 in
    if is_invalid m0 || is_invalid m1 || is_invalid m2
    then none
    else if is_mode mode3
    then none
    else if not (is_none_mode m2)
        && (desync_only_first_stage m1
            || not (desync_valid_first_stage m1 && desync_valid_second_stage m2))
    then none
    else some (m0, m1, m2)

-- Without a comma in the text there is no second word.
abbrev second_cut : Option (List ℕ) → Option (List ℕ) × Option (List ℕ)
second_cut none = (none, none)
second_cut (some s) = let (word, rest) = cut_comma s in (some word, rest)

unfoldable pub parse_dpi_desync : List ℕ → Option (DesyncMode × DesyncMode × DesyncMode)
unfolding cut_comma desync_mode_from_string desync_valid_zero_stage check_combo
parse_dpi_desync text =
    let (mode, tail) = cut_comma text in
    let (mode2, mode3) = second_cut tail in
    let m0 = desync_mode_from_string (some mode) in
    if desync_valid_zero_stage m0
    then check_combo m0 mode2 mode3 none
    else check_combo none_mode (some mode) mode2 mode3
