-- ===== src/Subnets/Options.antt =====
-- parse_params of ip2net/ip2net.c, on the numbers that sscanf has read.
use fog_prime.Base.{
  ℕ, ◌-◌, ◌<◌, ◌≤◌, ◌^◌, ◌≡◌, Bool, true, false, not, ◌&&◌, ◌||◌, ◌==◌, ltb, if◌then◌else◌, List,
  [], ◌∷◌, Option, none, some, u32, subst, arith, Option-cases, inl, inr,
}

pub record Params : Type 0 where
  pub ipv6 : Bool
  pub pctmult : ℕ
  pub pctdiv : ℕ
  pub zct_min : ℕ
  pub zct_max : ℕ
  pub v6_threshold : ℕ

-- What sscanf has read: at most two numbers.
pub data Scanned : Type 0 where
  nothing_read : Scanned
  one_read : ℕ → Scanned
  two_read : ℕ → ℕ → Scanned

-- The options of the command line; those that print the help end the program.
pub data Argument : Type 0 where
  opt_help opt_4 opt_6 : Argument
  opt_prefix_length : Scanned → Argument
  opt_v4_threshold : Scanned → Argument
  opt_v6_threshold : Scanned → Argument

pub record Parsing : Type 0 where
  pub params : Params
  pub plen1 : ℕ
  pub plen2 : ℕ

-- (uint32_t)-1
abbrev pub unset : ℕ
unset = 2 ^ 32 - 1

unfoldable pub set_plen : Parsing → ℕ → ℕ → Option Parsing
set_plen s plen1 plen2 =
    if ltb plen2 plen1 || plen1 == 0 || plen2 == 0
    then none
    else some (record s { plen1 = plen1; plen2 = plen2 })

-- One option; `none` is exit(1).
unfoldable pub parse_option : Parsing → Argument → Option Parsing
unfolding set_plen
parse_option s opt_help = none
parse_option s opt_4 = some (record s { params = record s.params { ipv6 = false } })
parse_option s opt_6 = some (record s { params = record s.params { ipv6 = true } })
parse_option s (opt_prefix_length nothing_read) = none
parse_option s (opt_prefix_length (one_read a)) = set_plen s (u32 a) (u32 a)
parse_option s (opt_prefix_length (two_read a b)) = set_plen s (u32 a) (u32 b)
parse_option s (opt_v4_threshold (two_read a b)) =
    if ltb (u32 b) 2 || ltb (u32 a) 1 || not (ltb (u32 a) (u32 b))
    then none
    else some (record s { params = record s.params { pctmult = u32 a; pctdiv = u32 b } })
parse_option s (opt_v4_threshold nothing_read) = none
parse_option s (opt_v4_threshold (one_read a)) = none
parse_option s (opt_v6_threshold (one_read a)) =
    if ltb (u32 a) 1
    then none
    else some (record s { params = record s.params { v6_threshold = u32 a } })
parse_option s (opt_v6_threshold nothing_read) = none
parse_option s (opt_v6_threshold (two_read a b)) = none

unfoldable pub parse_options : Parsing → List Argument → Option Parsing
unfolding parse_option
parse_options s [] = some s
parse_options s (o ∷ os) = elim (parse_option s o) [ none ↦ none | some s2 ↦ parse_options s2 os ]

-- The defaults: 3/4, and 5 addresses for IPv6.
abbrev pub initial : Parsing
initial = record {
  params = record {
    ipv6 = false;
    pctmult = 3;
    pctdiv = 4;
    zct_min = 0;
    zct_max = 0;
    v6_threshold = 5;
  };
  plen1 = unset;
  plen2 = unset;
}

abbrev pub zct_of : Bool → ℕ → ℕ → ℕ → ℕ
zct_of ipv6 plen default6 default4 =
    if ipv6
    then (if plen == unset then default6 else 128 - plen)
    else if plen == unset
    then default4
    else 32 - plen

-- After the options: the prefix lengths must fit the address, and give the numbers of zero bits.
unfoldable pub finish : Parsing → Option Params
finish s =
    if not (s.plen1 == unset)
      && ((not s.params.ipv6 && (ltb 31 s.plen1 || ltb 31 s.plen2))
          || (s.params.ipv6 && (ltb 127 s.plen1 || ltb 127 s.plen2)))
    then none
    else some (record s.params {
      zct_min = zct_of s.params.ipv6 s.plen2 64 2;
      zct_max = zct_of s.params.ipv6 s.plen1 72 10;
    })

unfoldable pub parse_params : List Argument → Option Params
unfolding parse_options finish
parse_params args = elim (parse_options initial args) [ none ↦ none | some s ↦ finish s ]

abbrev IsParsing : Parsing → Type 0
IsParsing s =
    (0 < s.plen1)
    × (s.plen1 ≤ s.plen2)
    × (s.plen2 ≤ unset)
    × (0 < s.params.pctmult)
    × (s.params.pctmult < s.params.pctdiv)
    × (0 < s.params.v6_threshold)

set_plen_lem :
    (s s2 : Parsing) (a b : ℕ) → b ≤ unset → IsParsing s → set_plen s a b ≡ some s2 → IsParsing s2
unfolding set_plen
set_plen_lem s s2 a b small h e = ground arith

option_lem :
    (s s2 : Parsing) (o : Argument) → IsParsing s → parse_option s o ≡ some s2 → IsParsing s2
unfolding parse_option
option_lem s s2 opt_help h e = absurd cc
option_lem s s2 opt_4 h e = ground arith
option_lem s s2 opt_6 h e = ground arith
option_lem s s2 (opt_prefix_length nothing_read) h e = absurd cc
option_lem s s2 (opt_prefix_length (one_read a)) h e =
    set_plen_lem s s2 (u32 a) (u32 a) (omega arith) h e
option_lem s s2 (opt_prefix_length (two_read a b)) h e =
    set_plen_lem s s2 (u32 a) (u32 b) (omega arith) h e
option_lem s s2 (opt_v4_threshold nothing_read) h e = absurd cc
option_lem s s2 (opt_v4_threshold (one_read a)) h e = absurd cc
option_lem s s2 (opt_v4_threshold (two_read a b)) h e = ground arith
option_lem s s2 (opt_v6_threshold nothing_read) h e = absurd cc
option_lem s s2 (opt_v6_threshold (one_read a)) h e = ground arith
option_lem s s2 (opt_v6_threshold (two_read a b)) h e = absurd cc

options_lem :
    (os : List Argument) (s s2 : Parsing)
    → IsParsing s
    → parse_options s os ≡ some s2
    → IsParsing s2
unfolding parse_options
options_lem [] s s2 h e = let same : s ≡ s2 = cc in subst IsParsing same h
options_lem (o ∷ os) s s2 h e = elim (Option-cases (parse_option s o)) [
  | inl n ↦ absurd (let no : none ≡ some s2 = rw (n, parse_options) at e in cc)
  | inr (s3, p) ↦ options_lem os s3 s2 (option_lem s s3 o h p) (rw (p, parse_options) at e)
]

-- What the search relies on.
abbrev pub IsUsable : Params → Type 0
IsUsable params =
    (0 < params.zct_min)
    × (params.zct_min ≤ params.zct_max)
    × (params.zct_max < (if params.ipv6 then 128 else 32))
    × (0 < params.pctmult)
    × (params.pctmult < params.pctdiv)
    × (0 < params.v6_threshold)

finish_lem :
    (s : Parsing) (params : Params) → IsParsing s → finish s ≡ some params → IsUsable params
unfolding finish
finish_lem s params h e = ground arith

-- Whatever the options are, if they are accepted then the numbers of zero bits that are searched are
-- at least 1, ascending and below the length of the address, so that the search ends before they
-- wrap; the IPv4 threshold is a fraction between 0 and 1, and the IPv6 threshold is positive.
pub parse_params_lem :
    (args : List Argument) (params : Params) → parse_params args ≡ some params → IsUsable params
unfolding parse_params
parse_params_lem args params e = elim (Option-cases (parse_options initial args)) [
  | inl n ↦ absurd (let no : none ≡ some params = rw (n, parse_params) at e in cc)
  | inr (s, p) ↦
      finish_lem s params (options_lem args initial s (ground arith) p) (rw (p, parse_params) at e)
]
