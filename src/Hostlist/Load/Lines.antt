-- ===== src/Hostlist/Load/Lines.antt =====
-- The texts of nfq/hostlist.c read line by line: what addpool and its loop add to a pool.
use fog_prime.Base.{
  ℕ, zero, suc, ◌≤◌, ◌≡◌, ◌≢◌, refl, sym, ap, ◌∙◌, true, false, if◌then◌else◌, List, [], ◌∷◌,
  Option, none, some, length, ◌>>=◌, arith, Bool-cases, inl, inr,
}
use fog_prime.Hostlist.Load.{
  is_eol, is_comment, line_of, after_line, skip_eols, add_name, addpool, append_text,
}

-- The text as its lines, an end of a line between any two of them.
abbrev pub on_first : ℕ → List (List ℕ) → List (List ℕ)
on_first c [] = (c ∷ []) ∷ []
on_first c (l ∷ ls) = (c ∷ l) ∷ ls

unfoldable pub lines : List ℕ → List (List ℕ)
lines [] = [] ∷ []
lines (c ∷ cs) = let more = lines cs in if is_eol c then [] ∷ more else on_first c more

-- A line that is empty or a comment adds nothing, another one a name in lower case, strict behind '^'.
unfoldable pub add_line : {P : Type 0} → (P → List ℕ → ℕ → Option P) → P → List ℕ → Option P
add_line add pool [] = some pool
add_line add pool (c ∷ cs) = if is_comment c then some pool else add_name add pool (c ∷ cs)

unfoldable pub add_lines : {P : Type 0} → (P → List ℕ → ℕ → Option P) → P → List (List ℕ) → Option P
add_lines add pool [] = some pool
add_lines add pool (l ∷ ls) = add_line add pool l >>= λ pool2. add_lines add pool2 ls

lines_eol : (c : ℕ) (cs : List ℕ) → is_eol c ≡ true → lines (c ∷ cs) ≡ [] ∷ lines cs
unfolding lines
lines_eol c cs e = rw e refl

lines_more : (c : ℕ) (cs : List ℕ) → is_eol c ≡ false → lines (c ∷ cs) ≡ on_first c (lines cs)
unfolding lines
lines_more c cs e = rw e refl

-- The lines behind the first one, from the end of that on.
abbrev rest_lines : List ℕ → List (List ℕ)
rest_lines [] = []
rest_lines (c ∷ cs) = lines cs

lines_split : (cs : List ℕ) → lines cs ≡ line_of cs ∷ rest_lines (after_line cs)
unfolding lines
lines_split [] = refl
lines_split (c ∷ cs) = elim (Bool-cases (is_eol c)) [
  | inl e ↦ lines_eol c cs e ∙ rw e refl
  | inr n ↦ lines_more c cs n ∙ ap (on_first c) (lines_split cs) ∙ rw n refl
]

pub bind_same :
    {A : Type 0} (m : Option A) (f g : A → Option A) → ((a : A) → f a ≡ g a) → (m >>= f) ≡ (m >>= g)
bind_same none f g h = refl
bind_same (some a) f g h = h a

module _ {P : Type 0} (add : P → List ℕ → ℕ → Option P) where
  empty_first :
      (ls : List (List ℕ)) (pool : P) → add_lines add pool ([] ∷ ls) ≡ add_lines add pool ls
  unfolding add_lines add_line
  empty_first ls pool = refl

  after_line_lem :
      (cs : List ℕ) (pool : P)
      → add_lines add pool (lines (after_line cs)) ≡ add_lines add pool (rest_lines (after_line cs))
  unfolding lines add_lines add_line
  after_line_lem [] pool = refl
  after_line_lem (c ∷ cs) pool = elim (Bool-cases (is_eol c)) [
    | inl e ↦ rw e (ap (add_lines add pool) (lines_eol c cs e) ∙ empty_first (lines cs) pool)
    | inr n ↦ rw n (after_line_lem cs pool)
  ]

  skip_eols_lem :
      (cs : List ℕ) (pool : P)
      → add_lines add pool (lines (skip_eols cs)) ≡ add_lines add pool (lines cs)
  skip_eols_lem [] pool = refl
  skip_eols_lem (c ∷ cs) pool = elim (Bool-cases (is_eol c)) [
    | inl e ↦
        let here : skip_eols (c ∷ cs) ≡ skip_eols cs = rw e refl in
        ap (λ t. add_lines add pool (lines t)) here
        ∙ skip_eols_lem cs pool
        ∙ sym (ap (add_lines add pool) (lines_eol c cs e) ∙ empty_first (lines cs) pool)
    | inr n ↦
        let here : skip_eols (c ∷ cs) ≡ c ∷ cs = rw n refl in
        ap (λ t. add_lines add pool (lines t)) here
  ]

  -- From the end of the first line on, the next line is where the code goes on.
  next_lines :
      (cs : List ℕ) (pool : P)
      → add_lines add pool (lines (skip_eols (after_line cs)))
        ≡ add_lines add pool (rest_lines (after_line cs))
  next_lines cs pool = skip_eols_lem (after_line cs) pool ∙ after_line_lem cs pool

  add_line_nil : (pool : P) → add_line add pool [] ≡ some pool
  unfolding add_line
  add_line_nil pool = refl

  add_line_comment :
      (c : ℕ) (cs : List ℕ) (pool : P)
      → is_comment c ≡ true
      → add_line add pool (c ∷ cs) ≡ some pool
  unfolding add_line
  add_line_comment c cs pool e = rw e refl

  add_line_name :
      (c : ℕ) (cs : List ℕ) (pool : P)
      → is_comment c ≡ false
      → add_line add pool (c ∷ cs) ≡ add_name add pool (c ∷ cs)
  unfolding add_line
  add_line_name c cs pool e = rw e refl

  abbrev keep_rest : List ℕ → Option P → Option (P × List ℕ)
  keep_rest rest m = m >>= λ pool2. some (pool2, skip_eols rest)

  -- What one call adds is the first line, unless the text starts with a NUL.
  abbrev pub NotNul : List ℕ → Type 0
  NotNul [] = Unit
  NotNul (c ∷ cs) = c ≢ 0

  addpool_is :
      (c : ℕ) (cs : List ℕ) (pool : P)
      → c ≢ 0
      → addpool add pool (c ∷ cs)
        ≡ add_line add pool (line_of (c ∷ cs)) >>= λ pool2.
            some (pool2, skip_eols (after_line (c ∷ cs)))
  unfolding addpool
  addpool_is c cs pool nul = elim (Bool-cases (is_comment c)) [
    | inl e ↦ elim (Bool-cases (is_eol c)) [
      | inl eol ↦ rw (e, eol) (sym (ap (keep_rest (c ∷ cs)) (add_line_nil pool)))
      | inr on ↦
          rw (e, on) (sym (ap (keep_rest (after_line cs)) (add_line_comment c (line_of cs) pool e)))
    ]
    | inr n ↦
        let on : is_eol c ≡ false = ground arith in
        rw (n, on) (sym (ap (keep_rest (after_line cs)) (add_line_name c (line_of cs) pool n)))
  ]

  skip-NotNul : (cs : List ℕ) → NotNul (skip_eols cs)
  skip-NotNul [] = tt
  skip-NotNul (c ∷ cs) = elim (Bool-cases (is_eol c)) [
    | inl e ↦ rw e (skip-NotNul cs)
    | inr n ↦ rw n (ground arith)
  ]

  skip-le : (cs : List ℕ) → length (skip_eols cs) ≤ length cs
  skip-le [] = omega arith
  skip-le (c ∷ cs) = ground (arith, skip-le cs)

  after-le : (cs : List ℕ) → length (after_line cs) ≤ length cs
  after-le [] = omega arith
  after-le (c ∷ cs) = ground (arith, after-le cs)

  -- Each call passes a byte at least.
  shorter : (c : ℕ) (cs : List ℕ) → length (skip_eols (after_line (c ∷ cs))) ≤ length cs
  shorter c cs = elim (Bool-cases (is_eol c)) [
    | inl e ↦ rw (e, e) (skip-le cs)
    | inr n ↦ rw n (omega (arith, skip-le (after_line cs), after-le cs))
  ]

  bind_assoc :
      (m : Option P) (rest : List ℕ) (f : P × List ℕ → Option P)
      → ((m >>= λ pool2. some (pool2, rest)) >>= f) ≡ (m >>= λ pool2. f (pool2, rest))
  bind_assoc none rest f = refl
  bind_assoc (some pool) rest f = refl

  append_from :
      (fuel : ℕ) (cs : List ℕ) (pool : P)
      → length cs ≤ fuel
      → NotNul cs
      → append_text add fuel pool cs ≡ add_lines add pool (lines cs)
  unfolding append_text lines add_lines add_line
  append_from zero [] pool le nul = refl
  append_from (suc fuel) [] pool le nul = refl
  append_from zero (c ∷ cs) pool le nul = absurd (omega arith)
  append_from (suc fuel) (c ∷ cs) pool le nul =
      let rest = skip_eols (after_line (c ∷ cs)) in
      let first = add_line add pool (line_of (c ∷ cs)) in
      ap (λ (m : Option (P × List ℕ)). m >>= λ r. append_text add fuel r.0 r.1)
        (addpool_is c cs pool nul)
      ∙ bind_assoc first rest (λ r. append_text add fuel r.0 r.1)
      ∙ bind_same first (λ pool2. append_text add fuel pool2 rest)
          (λ pool2. add_lines add pool2 (rest_lines (after_line (c ∷ cs))))
          (λ pool2.
            append_from fuel rest pool2 (omega (arith, shorter c cs))
              (skip-NotNul (after_line (c ∷ cs)))
            ∙ next_lines (c ∷ cs) pool2)
      ∙ sym (ap (add_lines add pool) (lines_split (c ∷ cs)))

  -- The loop adds the lines of a text one by one; as many rounds as it has bytes are enough.
  pub append_text_by_lines :
      (cs : List ℕ) (pool : P)
      → NotNul cs
      → append_text add (length cs) pool cs ≡ add_lines add pool (lines cs)
  append_text_by_lines cs pool nul = append_from (length cs) cs pool (omega arith) nul
