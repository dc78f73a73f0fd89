-- ===== src/Hostlist/Load/Names.antt =====
-- The names that a text of nfq/hostlist.c holds, as the manual describes them, and that the code adds
-- exactly these to a pool.
use fog_prime.Base.{
  ℕ, ◌+◌, ◌-◌, ◌≡◌, refl, ap, ◌∙◌, Bool, false, ◌==◌, ◌||◌, ltb, ◌&&◌, if◌then◌else◌, List, [], ◌∷◌,
  ◌++◌, map, Option, some, length, ◌>>=◌, arith, Bool-cases, inl, inr,
}
use fog_prime.Hostlist.Load.{is_eol, is_comment, tolower, append_text}
use fog_prime.Hostlist.Load.Lines.{
  lines, bind_same, on_first, add_line, add_lines, NotNul, append_text_by_lines,
}

abbrev pub is_one_of : List ℕ → ℕ → Bool
is_one_of [] c = false
is_one_of (x ∷ xs) c = x == c || is_one_of xs c

-- The text cut at each NUL, LF and CR.
pub cut_lines : List ℕ → List (List ℕ)
cut_lines [] = [] ∷ []
cut_lines (c ∷ cs) =
    let more = cut_lines cs in if is_one_of (0 ∷ 10 ∷ 13 ∷ []) c then [] ∷ more else on_first c more

-- A to Z as a to z
abbrev pub in_lower : ℕ → ℕ
in_lower c = if ltb 64 c && ltb c 91 then 97 + (c - 65) else c

-- The name and the flags of a line: none for an empty line and behind '#', ';' and '/', the flag 1
-- behind '^', which is not part of the name.
pub name_of : List ℕ → List (List ℕ × ℕ)
name_of [] = []
name_of (c ∷ cs) =
    if is_one_of (35 ∷ 47 ∷ 59 ∷ []) c
    then []
    else if c == 94
    then (map in_lower cs, 1) ∷ []
    else (map in_lower (c ∷ cs), 0) ∷ []

pub names : List (List ℕ) → List (List ℕ × ℕ)
names [] = []
names (l ∷ ls) = name_of l ++ names ls

pub add_names : {P : Type 0} → (P → List ℕ → ℕ → Option P) → P → List (List ℕ × ℕ) → Option P
add_names add pool [] = some pool
add_names add pool ((name, flags) ∷ rest) =
    add pool name flags >>= λ pool2. add_names add pool2 rest

-- No byte of a line ends a line.
abbrev IsLine : List ℕ → Type 0
IsLine [] = Unit
IsLine (c ∷ cs) = (is_eol c ≡ false) × IsLine cs

abbrev AreLines : List (List ℕ) → Type 0
AreLines [] = Unit
AreLines (l ∷ ls) = IsLine l × AreLines ls

lower_map : (cs : List ℕ) → map tolower cs ≡ map in_lower cs
lower_map [] = refl
lower_map (c ∷ cs) =
    let here : tolower c ≡ in_lower c = ground arith in rw (here, lower_map cs) refl

same_cut : (cs : List ℕ) → lines cs ≡ cut_lines cs
unfolding lines cut_lines
same_cut [] = refl
same_cut (c ∷ cs) =
    let here : is_eol c ≡ is_one_of (0 ∷ 10 ∷ 13 ∷ []) c = ground arith in
    rw (here, same_cut cs) refl

on_first-AreLines :
    (c : ℕ) (ls : List (List ℕ)) → is_eol c ≡ false → AreLines ls → AreLines (on_first c ls)
on_first-AreLines c [] e h = ((e, tt), tt)
on_first-AreLines c (l ∷ ls) e h = ((e, h.0), h.1)

lines-AreLines : (cs : List ℕ) → AreLines (lines cs)
unfolding lines
lines-AreLines [] = (tt, tt)
lines-AreLines (c ∷ cs) = elim (Bool-cases (is_eol c)) [
  | inl e ↦ rw e (tt, lines-AreLines cs)
  | inr n ↦ rw n (on_first-AreLines c (lines cs) n (lines-AreLines cs))
]

module _ {P : Type 0} (add : P → List ℕ → ℕ → Option P) where
  abbrev go_on : List (List ℕ × ℕ) → Option P → Option P
  go_on rest m = m >>= λ pool2. add_names add pool2 rest

  line_is :
      (l : List ℕ) (rest : List (List ℕ × ℕ)) (pool : P)
      → IsLine l
      → go_on rest (add_line add pool l) ≡ add_names add pool (name_of l ++ rest)
  unfolding add_line name_of add_names
  line_is [] rest pool h = refl
  line_is (c ∷ cs) rest pool (h, hs) =
      let mark : is_comment c ≡ is_one_of (35 ∷ 47 ∷ 59 ∷ []) c = ground arith in
      elim (Bool-cases (is_one_of (35 ∷ 47 ∷ 59 ∷ []) c)) [
        | inl e ↦ rw (mark, e) refl
        | inr n ↦ elim (Bool-cases (c == 94)) [
          | inl s ↦ rw (mark, n, s, lower_map cs) refl
          | inr s ↦ rw (mark, n, s, lower_map (c ∷ cs)) refl
        ]
      ]

  add_lines_is :
      (ls : List (List ℕ)) (pool : P)
      → AreLines ls
      → add_lines add pool ls ≡ add_names add pool (names ls)
  unfolding add_lines names add_names
  add_lines_is [] pool h = refl
  add_lines_is (l ∷ ls) pool (h, hs) =
      bind_same (add_line add pool l) (λ p. add_lines add p ls) (λ p. add_names add p (names ls))
        (λ p. add_lines_is ls p hs)
      ∙ line_is l (names ls) pool h

  -- A text that does not start with a NUL adds to a pool, in as many rounds as it has bytes, the
  -- names of its lines in their order, and fails where one of them cannot be added. A line ends at a
  -- NUL, LF or CR; it has no name if it is empty or starts with '#', ';' or '/'; otherwise the name
  -- is the line with the letters A to Z made lower case, or what follows a '^', which makes it strict.
  pub append_text_lem :
      (cs : List ℕ) (pool : P)
      → NotNul add cs
      → append_text add (length cs) pool cs ≡ add_names add pool (names (cut_lines cs))
  append_text_lem cs pool nul =
      append_text_by_lines add cs pool nul
      ∙ add_lines_is (lines cs) pool (lines-AreLines cs)
      ∙ ap (λ ls. add_names add pool (names ls)) (same_cut cs)
