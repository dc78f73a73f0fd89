-- ===== src/Helpers/Unique/InPlace.antt =====
-- What unique_size_t leaves in the array.
use native.Mathlib.Numerals.{add-one}
use fog_prime.Base.{
  ℕ, zero, suc, ◌+◌, ◌≤◌, ◌<◌, ◌≡◌, ◌≢◌, refl, sym, ap, ◌∙◌, ◌⊎◌, ◌↔◌, inl, inr, true, false, ◌&&◌,
  ◌==◌, ltb, List, [], ◌∷◌, ◌++◌, append-nil, append_assoc, take, length, set, byte, length-set,
  arith, Bool-cases, ==_iff,
}
use fog_prime.Helpers.Unique.{skip_equal, unique_loop, unique_size_t}

-- The list without adjacent duplicates, that of an item equal to `u` before it included.
pub dedup_from : ℕ → List ℕ → List ℕ
dedup_from u [] = []
dedup_from u (y ∷ ys) = elim (y == u) [ true ↦ dedup_from u ys | false ↦ y ∷ dedup_from y ys ]

pub dedup : List ℕ → List ℕ
dedup [] = []
dedup (x ∷ xs) = x ∷ dedup_from x xs

-- the `n` items from index `j` on
seg : List ℕ → ℕ → ℕ → List ℕ
seg pu j zero = []
seg pu j (suc n) = byte pu j ∷ seg pu (j + 1) n

byte-set_self : (pu : List ℕ) (i x : ℕ) → i < length pu → byte (set pu i x) i ≡ x
unfolding byte
byte-set_self [] i x h = absurd (omega arith)
byte-set_self (y ∷ pu) zero x h = refl
byte-set_self (y ∷ pu) (suc i) x h = byte-set_self pu i x (omega arith)

byte-set_ne : (pu : List ℕ) (i j x : ℕ) → i ≢ j → byte (set pu i x) j ≡ byte pu j
unfolding byte
byte-set_ne [] i j x h = refl
byte-set_ne (y ∷ pu) zero zero x h = absurd (h refl)
byte-set_ne (y ∷ pu) zero (suc j) x h = refl
byte-set_ne (y ∷ pu) (suc i) zero x h = refl
byte-set_ne (y ∷ pu) (suc i) (suc j) x h = byte-set_ne pu i j x (λ e. h (ap suc e))

seg-set_above : (pu : List ℕ) (i x j n : ℕ) → i < j → seg (set pu i x) j n ≡ seg pu j n
unfolding seg
seg-set_above pu i x j zero h = refl
seg-set_above pu i x j (suc n) h =
    rw (byte-set_ne pu i j x (omega arith), seg-set_above pu i x (j + 1) n (omega arith))

seg-set_below : (pu : List ℕ) (i x j n : ℕ) → j + n ≤ i → seg (set pu i x) j n ≡ seg pu j n
unfolding seg
seg-set_below pu i x j zero h = refl
seg-set_below pu i x j (suc n) h =
    rw (byte-set_ne pu i j x (omega arith), seg-set_below pu i x (j + 1) n (omega arith))

seg-suc : (pu : List ℕ) (j n k : ℕ) → j + n ≡ k → seg pu j (suc n) ≡ seg pu j n ++ (byte pu k ∷ [])
unfolding seg
seg-suc pu j zero k e = ap (λ i. byte pu i ∷ []) (omega arith)
seg-suc pu j (suc n) k e = ap (λ t. byte pu j ∷ t) (seg-suc pu (j + 1) n k (omega arith))

seg-cons : (x : ℕ) (xs : List ℕ) (j n : ℕ) → seg (x ∷ xs) (suc j) n ≡ seg xs j n
unfolding seg byte
seg-cons x xs j zero = refl
seg-cons x xs j (suc n) = rw (add-one, add-one, seg-cons x xs (suc j) n)

seg-eq-take : (pu : List ℕ) (n : ℕ) → n ≤ length pu → seg pu 0 n ≡ take n pu
unfolding seg byte
seg-eq-take pu zero h = refl
seg-eq-take [] (suc n) h = absurd (omega arith)
seg-eq-take (x ∷ xs) (suc n) h =
    ap (λ t. x ∷ t) (seg-cons x xs 0 n ∙ seg-eq-take xs n (omega arith))

dedup_from-eq : (u y : ℕ) (ys : List ℕ) → (y == u) ≡ true → dedup_from u (y ∷ ys) ≡ dedup_from u ys
unfolding dedup_from
dedup_from-eq u y ys e = rw (e, dedup_from)

dedup_from-ne : (u y : ℕ) (ys : List ℕ) → (y == u) ≡ false → dedup_from u (y ∷ ys) ≡ dedup (y ∷ ys)
unfolding dedup_from dedup
dedup_from-ne u y ys e = rw (e, dedup_from)

seg-nil : (pu : List ℕ) (j : ℕ) → dedup (seg pu j 0) ≡ []
unfolding dedup seg
seg-nil pu j = refl

dedup_from-seg_nil : (pu : List ℕ) (u j : ℕ) → dedup_from u (seg pu j 0) ≡ []
unfolding dedup_from seg
dedup_from-seg_nil pu u j = refl

seg-step : (pu : List ℕ) (j n : ℕ) → seg pu j (suc n) ≡ byte pu j ∷ seg pu (j + 1) n
unfolding seg
seg-step pu j n = refl

dedup-cons : (x : ℕ) (xs : List ℕ) → dedup (x ∷ xs) ≡ x ∷ dedup_from x xs
unfolding dedup
dedup-cons x xs = refl

module _ (pu : List ℕ) (ct u : ℕ) where
  skip_equal-stop :
      (fuel j : ℕ) → (ltb j ct && byte pu j == u) ≡ false → skip_equal pu ct u fuel j ≡ j
  unfolding skip_equal
  skip_equal-stop zero j e = refl
  skip_equal-stop (suc fuel) j e = rw (e, skip_equal)

  skip_equal-step :
      (fuel j : ℕ)
      → (ltb j ct && byte pu j == u) ≡ true
      → skip_equal pu ct u (suc fuel) j ≡ skip_equal pu ct u fuel (j + 1)
  unfolding skip_equal
  skip_equal-step fuel j e = rw (e, skip_equal)

  -- The inner loop skips what `dedup_from` drops.
  skip_equal_lem :
      (fuel n j : ℕ)
      → j + n ≡ ct
      → n ≤ fuel
      → (m : ℕ) × (skip_equal pu ct u fuel j + m ≡ ct)
        × (m ≤ n)
        × (dedup_from u (seg pu j n) ≡ dedup (seg pu (skip_equal pu ct u fuel j) m))
  skip_equal_lem fuel zero j e h =
      rw (skip_equal-stop fuel j (ground arith))
        (0, e, omega arith, dedup_from-seg_nil pu u j ∙ sym (seg-nil pu j))
  skip_equal_lem zero (suc n) j e h = absurd (omega arith)
  skip_equal_lem (suc fuel) (suc n) j e h = elim (Bool-cases (byte pu j == u)) [
    | inl same ↦
        let (m, e', le, d) = skip_equal_lem fuel n (j + 1) (omega arith) (omega arith) in
        rw (skip_equal-step fuel j (ground arith)) (
          m,
          e',
          omega arith,
          ap (dedup_from u) (seg-step pu j n)
              ∙ dedup_from-eq u (byte pu j) (seg pu (j + 1) n) same
              ∙ d,
        )
    | inr other ↦ rw (skip_equal-stop (suc fuel) j (ground arith)) (
      suc n,
      e,
      omega arith,
      ap (dedup_from u) (seg-step pu j n)
          ∙ dedup_from-ne u (byte pu j) (seg pu (j + 1) n) other
          ∙ ap dedup (sym (seg-step pu j n)),
    )
  ]

-- One round's move, read in the array before it.
moved :
    (pu : List ℕ) (i j n r m : ℕ)
    → i < r
    → i < length pu
    → dedup_from (byte pu j) (seg pu (j + 1) n) ≡ dedup (seg pu r m)
    → seg (set pu i (byte pu j)) 0 (i + 1) ++ dedup (seg (set pu i (byte pu j)) r m)
      ≡ seg pu 0 i ++ dedup (seg pu j (suc n))
moved pu i j n r m lt h d =
    rw
      (
        add-one,
        seg-suc (set pu i (byte pu j)) 0 i i (omega arith),
        seg-set_below pu i (byte pu j) 0 i (omega arith),
        byte-set_self pu i (byte pu j) h,
        seg-set_above pu i (byte pu j) r m lt,
        seg-step pu j n,
        dedup-cons,
        d,
      )
      (append_assoc (seg pu 0 i) (byte pu j ∷ []) (dedup (seg pu r m)))

module _ (ct : ℕ) where
  unique_loop-stop :
      (fuel i j : ℕ) (pu : List ℕ) → ltb j ct ≡ false → unique_loop ct fuel i j pu ≡ (i, pu)
  unfolding unique_loop
  unique_loop-stop zero i j pu e = refl
  unique_loop-stop (suc fuel) i j pu e = rw (e, unique_loop)

  unique_loop-step :
      (fuel i j : ℕ) (pu : List ℕ)
      → ltb j ct ≡ true
      → unique_loop ct (suc fuel) i j pu
        ≡ unique_loop ct fuel
            (i + 1)
            (skip_equal pu ct (byte pu j) ct (j + 1))
            (set pu i (byte pu j))
  unfolding unique_loop
  unique_loop-step fuel i j pu e = rw (e, unique_loop)

  -- Each round moves the item at `j` to `i` and leaves the items from the next `j` on alone.
  unique_loop_lem :
      (fuel n i j : ℕ) (pu : List ℕ)
      → j + n ≡ ct
      → i ≤ j
      → n ≤ fuel
      → ct ≤ length pu
      → let (i', pu') = unique_loop ct fuel i j pu in
        (seg pu' 0 i' ≡ seg pu 0 i ++ dedup (seg pu j n)) × (i' ≤ ct) × (length pu' ≡ length pu)
  unique_loop_lem fuel zero i j pu e le f h =
      rw (unique_loop-stop fuel i j pu (ground arith), seg-nil, append-nil)
        (refl, omega arith, refl)
  unique_loop_lem zero (suc n) i j pu e le f h = absurd (omega arith)
  unique_loop_lem (suc fuel) (suc n) i j pu e le f h =
      let x = byte pu j in
      let r = skip_equal pu ct x ct (j + 1) in
      let (m, e', le', d) = skip_equal_lem pu ct x ct n (j + 1) (omega arith) (omega arith) in
      let (s, b, l) =
        unique_loop_lem fuel m (i + 1) r (set pu i x) e' (omega arith) (omega arith)
          (rw (length-set pu i x) h) in
      rw (unique_loop-step fuel i j pu (ground arith))
        (s ∙ moved pu i j n r m (omega arith) (omega arith) d, b, l ∙ length-set pu i x)

-- The first `i` items of the array, `i` the number returned, are the first `ct` ones without
-- adjacent duplicates; the array keeps its length.
pub unique-dedup :
    (pu : List ℕ) (ct : ℕ)
    → ct ≤ length pu
    → let (i, pu') = unique_size_t pu ct in
      (take i pu' ≡ dedup (take ct pu)) × (i ≤ ct) × (length pu' ≡ length pu)
unfolding unique_size_t dedup seg
unique-dedup pu ct h =
    let (s, b, l) = unique_loop_lem ct ct ct 0 0 pu (omega arith) (omega arith) (omega arith) h in
    let (i, pu') = unique_size_t pu ct in
    (sym (seg-eq-take pu' i (omega arith)) ∙ s ∙ ap dedup (seg-eq-take pu ct h), b, l)

-- Every item is at least `lo`, and none is below the one before it.
abbrev pub SortedFrom : ℕ → List ℕ → Type 0
SortedFrom lo [] = Unit
SortedFrom lo (x ∷ xs) = (lo ≤ x) × SortedFrom x xs

-- Every item is above `lo` and above the one before it.
abbrev pub StrictFrom : ℕ → List ℕ → Type 0
StrictFrom lo [] = Unit
StrictFrom lo (x ∷ xs) = (lo < x) × StrictFrom x xs

abbrev pub IsStrict : List ℕ → Type 0
IsStrict [] = Unit
IsStrict (x ∷ xs) = StrictFrom x xs

abbrev pub Has : ℕ → List ℕ → Type 0
Has a [] = ⊥
Has a (x ∷ xs) = (a ≡ x) ⊎ Has a xs

dedup_from-StrictFrom : (u : ℕ) (xs : List ℕ) → SortedFrom u xs → StrictFrom u (dedup_from u xs)
unfolding dedup_from
dedup_from-StrictFrom u [] h = tt
dedup_from-StrictFrom u (y ∷ ys) (le, h) = elim (Bool-cases (y == u)) [
  | inl e ↦ rw (e, dedup_from) (dedup_from-StrictFrom u ys (rw ((==_iff y u).0 e) at h))
  | inr e ↦ rw (e, dedup_from) (ground arith, dedup_from-StrictFrom y ys h)
]

Has-dedup_from :
    (a u : ℕ) (xs : List ℕ) → ((a ≡ u) ⊎ Has a (dedup_from u xs)) ↔ ((a ≡ u) ⊎ Has a xs)
unfolding dedup_from
Has-dedup_from a u [] = (λ h. h, λ h. h)
Has-dedup_from a u (y ∷ ys) = elim (Bool-cases (y == u)) [
  | inl e ↦
      let ih = Has-dedup_from a u ys in
      rw (e, dedup_from)
        (
          λ h. elim (ih.0 h) [ inl p ↦ inl p | inr q ↦ inr (inr q) ],
          λ h. ih.1 (elim h [
            | inl p ↦ inl p
            | inr (inl p) ↦ inl (p ∙ (==_iff y u).0 e)
            | inr (inr q) ↦ inr q
          ]),
        )
  | inr e ↦
      let ih = Has-dedup_from a y ys in
      rw (e, dedup_from)
        (
          λ h. elim h [ inl p ↦ inl p | inr q ↦ inr (ih.0 q) ],
          λ h. elim h [ inl p ↦ inl p | inr q ↦ inr (ih.1 q) ],
        )
]

-- unique_size_t on an array whose first `ct` items are sorted keeps a strictly increasing array of
-- the same numbers: what stands in the first `i` items, `i` the number returned, is exactly what
-- stood in the first `ct`.
pub unique_size_t_lem :
    (pu : List ℕ) (ct : ℕ)
    → ct ≤ length pu
    → SortedFrom 0 (take ct pu)
    → let (i, pu') = unique_size_t pu ct in
      IsStrict (take i pu') × ((a : ℕ) → Has a (take i pu') ↔ Has a (take ct pu)) × (i ≤ ct)
unique_size_t_lem pu ct h s =
    let (d, b, l) = unique-dedup pu ct h in
    rw d (strict (take ct pu) s, λ a. same a (take ct pu), b)
  where
    strict : (xs : List ℕ) → SortedFrom 0 xs → IsStrict (dedup xs)
    strict [] h = unfold dedup in tt
    strict (x ∷ xs) h = unfold dedup in dedup_from-StrictFrom x xs h.1

    same : (a : ℕ) (xs : List ℕ) → Has a (dedup xs) ↔ Has a xs
    same a [] = unfold dedup in (λ h. h, λ h. h)
    same a (x ∷ xs) = unfold dedup in Has-dedup_from a x xs
