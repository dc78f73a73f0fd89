-- ===== src/Hostlist/Load.antt =====
-- addpool, AppendHostlistItem and the loops of AppendHostList, nfq/hostlist.c: a text of names is added
-- to a pool. HostlistPoolAddStrLen of nfq/pools.c is the parameter `add`, `none` where memory is out.
pub mod Lines
pub mod Names
use fog_prime.Base.{
  ℕ, zero, suc, ◌+◌, ◌≤◌, ◌<◌, ◌≡◌, ◌≢◌, refl, sym, ap, ◌∙◌, Bool, true, false, not, ◌&&◌, ◌||◌,
  ◌==◌, leb, if◌then◌else◌, List, [], ◌∷◌, map, Option, none, some, length, take, drop, ◌>>=◌,
  arith, Bool-cases, Option-cases, inl, inr,
}

abbrev pub tolower : ℕ → ℕ
tolower c = if leb 65 c && leb c 90 then c + 32 else c

-- !*p || *p=='\r' || *p=='\n'
abbrev pub is_eol : ℕ → Bool
is_eol c = c == 0 || c == 13 || c == 10

-- '#', ';', '/' and the ends of lines
abbrev pub is_comment : ℕ → Bool
is_comment c = c == 35 || c == 59 || c == 47 || c == 13 || c == 10

-- for (; p<end && *p && *p!='\r' && *p != '\n'; p++): what is passed, and what is left.
abbrev pub line_of : List ℕ → List ℕ
line_of [] = []
line_of (c ∷ cs) = let more = line_of cs in if is_eol c then [] else c ∷ more

abbrev pub after_line : List ℕ → List ℕ
after_line [] = []
after_line (c ∷ cs) = let more = after_line cs in if is_eol c then c ∷ cs else more

abbrev pub skip_eols : List ℕ → List ℕ
skip_eols [] = []
skip_eols (c ∷ cs) = let more = skip_eols cs in if is_eol c then more else c ∷ cs

-- HOSTLIST_POOL_FLAG_STRICT_MATCH is 1.
abbrev pub add_name : {P : Type 0} → (P → List ℕ → ℕ → Option P) → P → List ℕ → Option P
add_name add pool [] = add pool [] 0
add_name add pool (c ∷ cs) =
    if c == 94 then add pool (map tolower cs) 1 else add pool (map tolower (c ∷ cs)) 0

abbrev pub starts_comment : List ℕ → Bool
starts_comment [] = false
starts_comment (c ∷ cs) = is_comment c

-- The pool and the position of the next line.
unfoldable pub addpool :
    {P : Type 0} → (P → List ℕ → ℕ → Option P) → P → List ℕ → Option (P × List ℕ)
addpool add pool s =
    if starts_comment s
    then some (pool, skip_eols (after_line s))
    else (add_name add pool (line_of s) >>= λ pool2. some (pool2, skip_eols (after_line s)))

unfoldable pub append_hostlist_item :
    {P : Type 0} → (P → List ℕ → ℕ → Option P) → P → List ℕ → Option P
unfolding addpool
append_hostlist_item add pool s = addpool add pool s >>= λ r. some r.0

-- while(p<e) on a decompressed text, in `fuel` rounds at most
unfoldable pub append_text : {P : Type 0} → (P → List ℕ → ℕ → Option P) → ℕ → P → List ℕ → Option P
unfolding addpool
append_text add fuel pool [] = some pool
append_text add zero pool (c ∷ cs) = some pool
append_text add (suc fuel) pool (c ∷ cs) =
    addpool add pool (c ∷ cs) >>= λ r. append_text add fuel r.0 r.1
