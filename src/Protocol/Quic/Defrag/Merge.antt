-- ===== src/Protocol/Quic/Defrag/Merge.antt =====
-- Merged ranges cover the same bytes, and a single range from 0 on leaves no gap.
use fog_prime.Base.{
  ℕ, ◌+◌, ◌-◌, ◌≤◌, ◌<◌, ◌≡◌, refl, ◌↔◌, ◌⊎◌, inl, inr, true, leb, max, List, [], ◌∷◌, arith,
  Bool-cases,
}
use fog_prime.Protocol.Quic.Defrag.{Range, merge_loop, merge_ranges, is_one_from_zero}

abbrev pub Covers : ℕ → Range → Type 0
Covers x r = (r.offset ≤ x) × (x < r.offset + r.len)

-- A byte lies in one of the ranges.
abbrev pub Covered : ℕ → List Range → Type 0
Covered x [] = ⊥
Covered x (r ∷ rs) = Covers x r ⊎ Covered x rs

-- In ascending order of the offsets, from `o` on.
abbrev pub SortedFrom : ℕ → List Range → Type 0
SortedFrom o [] = Unit
SortedFrom o (r ∷ rs) = (o ≤ r.offset) × SortedFrom r.offset rs

-- The end of the last byte.
abbrev pub max_end : List Range → ℕ
max_end [] = 0
max_end (r ∷ rs) = max (r.offset + r.len) (max_end rs)

SortedFrom-weaken : (o o' : ℕ) (rs : List Range) → o ≤ o' → SortedFrom o' rs → SortedFrom o rs
SortedFrom-weaken o o' [] le s = tt
SortedFrom-weaken o o' (r ∷ rs) le (h, s) = (omega arith, s)

abbrev joined : Range → Range → Range
joined r next = record r { len = max (next.offset + next.len) (r.offset + r.len) - r.offset }

joined_iff :
    (x : ℕ) (r next : Range)
    → r.offset ≤ next.offset
    → next.offset ≤ r.offset + r.len
    → Covers x (joined r next) ↔ (Covers x r ⊎ Covers x next)
joined_iff x r next h h' = ground arith

regroup : {A B C D : Type 0} → (A ↔ (B ⊎ C)) → ((A ⊎ D) ↔ (B ⊎ (C ⊎ D)))
regroup e = ground arith

trans_iff : {A B C : Type 0} → (A ↔ B) → (B ↔ C) → (A ↔ C)
trans_iff e f = ground arith

right_iff : {A B C : Type 0} → (B ↔ C) → ((A ⊎ B) ↔ (A ⊎ C))
right_iff e = ground arith

pub merge_loop_covers :
    (x : ℕ) (r : Range) (rest : List Range)
    → SortedFrom r.offset rest
    → Covered x (merge_loop r rest) ↔ Covered x (r ∷ rest)
unfolding merge_loop
merge_loop_covers x r [] s = ((λ c. c), (λ c. c))
merge_loop_covers x r (next ∷ rest) (h, s) =
    elim (Bool-cases (leb next.offset (r.offset + r.len))) [
      | inl e ↦
          rw (e, merge_loop)
            (trans_iff
              (merge_loop_covers x (joined r next) rest
                (SortedFrom-weaken r.offset next.offset rest h s))
              (regroup (joined_iff x r next h (ground arith))))
      | inr e ↦ rw (e, merge_loop) (right_iff (merge_loop_covers x next rest s))
    ]

merge_loop_end :
    (r : Range) (rest : List Range)
    → SortedFrom r.offset rest
    → max_end (merge_loop r rest) ≡ max_end (r ∷ rest)
unfolding merge_loop
merge_loop_end r [] s = refl
merge_loop_end r (next ∷ rest) (h, s) = elim (Bool-cases (leb next.offset (r.offset + r.len))) [
  | inl e ↦
      rw
        (
          e,
          merge_loop,
          merge_loop_end (joined r next) rest (SortedFrom-weaken r.offset next.offset rest h s),
        )
        (omega arith)
  | inr e ↦ rw (e, merge_loop, merge_loop_end next rest s) refl
]

one_from_zero_covers :
    (rs : List Range) (x : ℕ) → is_one_from_zero rs ≡ true → x < max_end rs → Covered x rs
unfolding is_one_from_zero
one_from_zero_covers [] x e lt = absurd (ground arith)
one_from_zero_covers (r ∷ []) x e lt = inl (ground arith, ground arith)
one_from_zero_covers (r ∷ r' ∷ rs) x e lt = cc

-- If merging sorted pieces leaves a single range that starts at 0, every byte before the greatest end
-- of a piece lies in one of the pieces.
pub merge_ranges-is_one_from_zero :
    (rs : List Range) (x : ℕ)
    → SortedFrom 0 rs
    → is_one_from_zero (merge_ranges rs) ≡ true
    → x < max_end rs
    → Covered x rs
unfolding merge_ranges
merge_ranges-is_one_from_zero [] x s e lt = absurd (omega arith)
merge_ranges-is_one_from_zero (r ∷ rest) x (h, s) e lt =
    let (to, from) = merge_loop_covers x r rest s in
    to (one_from_zero_covers (merge_loop r rest) x e (rw (merge_loop_end r rest s) lt))
