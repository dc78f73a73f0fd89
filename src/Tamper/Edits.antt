-- ===== src/Tamper/Edits.antt =====
-- The edits of tamper_out in tpws/tamper.c one by one: where they read, and the lengths they leave.
use fog_prime.Base.{
  ℕ, ◌⊎◌, ◌<◌, zero, suc, ◌%◌, ◌≢◌, ◌∙◌, Ensures-rd, set, length-set, ◌+◌, ◌≤◌, ◌≡◌, refl, Bool,
  true, false, ◌||◌, ◌==◌, ltb, if◌then◌else◌, List, [], ◌∷◌, length, take, drop, byte,
  length-append, length-take, length-drop, arith, Bool-cases, inl, inr, Ensures, Ensures-weaken,
}
use fog_prime.Tamper.{HttpProfile, Request}
use fog_prime.Tamper.Http.{
  unix_eol, do_unixeol, do_methodeol, insert_at, line_end, tolower, toupper, mix_case,
}

pub unix_eol-le : (straight : Bool) (xs : List ℕ) → length (unix_eol straight xs) ≤ length xs
unfolding unix_eol
unix_eol-le straight [] = omega arith
unix_eol-le straight (c ∷ []) = omega arith
unix_eol-le true (c ∷ d ∷ rest) = ground (arith, unix_eol-le false (d ∷ rest))
unix_eol-le false (c ∷ d ∷ rest) =
    ground (arith, unix_eol-le true rest, unix_eol-le false (d ∷ rest))

-- A request starts with its method, which has no end of line.
abbrev pub StartsPlain : ℕ → List ℕ → Type 0
StartsPlain zero xs = Unit
StartsPlain (suc n) [] = ⊥
StartsPlain (suc n) (c ∷ cs) = (c ≢ 13) × StartsPlain n cs

plain-le : (n : ℕ) (xs : List ℕ) → StartsPlain n xs → n ≤ length xs
plain-le zero xs h = omega arith
plain-le (suc n) [] h = absurd h
plain-le (suc n) (c ∷ cs) (ne, h) = omega (arith, plain-le n cs h)

unix_eol-StartsPlain :
    (n : ℕ) (straight : Bool) (xs : List ℕ) → StartsPlain n xs → n ≤ length (unix_eol straight xs)
unfolding unix_eol
unix_eol-StartsPlain zero straight xs h = omega arith
unix_eol-StartsPlain (suc n) straight [] h = absurd h
unix_eol-StartsPlain (suc n) straight (c ∷ []) (ne, h) = omega (arith, plain-le n [] h)
unix_eol-StartsPlain (suc n) straight (c ∷ d ∷ rest) (ne, h) =
    ground (arith, unix_eol-StartsPlain n false (d ∷ rest) h)

-- The method is there when the space goes behind it.
pub method_there :
    (dp : HttpProfile) (size n : ℕ) (r : Request)
    → StartsPlain n r.segment
    → n ≤ length (do_methodeol dp size (do_unixeol dp r)).segment
unfolding do_methodeol do_unixeol
method_there dp size n r h =
    ground (arith, plain-le n r.segment h, unix_eol-StartsPlain n true r.segment h)

pub insert_at_lem :
    (pos c : ℕ) (xs : List ℕ)
    → pos ≤ length xs
    → Ensures (λ s. length s ≡ suc (length xs)) (insert_at pos c xs)
unfolding insert_at
insert_at_lem pos c xs le =
    let inside : ltb (length xs) pos ≡ false = ground arith in
    rw inside (
      omega (
        arith,
        length-append (take pos xs) (c ∷ drop pos xs),
        length-take pos xs,
        length-drop pos xs,
      ))

-- A byte that ends the line, or the end of the segment.
abbrev pub IsLineEnd : List ℕ → ℕ → ℕ → Type 0
IsLineEnd segment p q =
    (p ≤ q)
    × ((q < length segment → (byte segment q ≡ 13) ⊎ (byte segment q ≡ 10)) × (q ≤ length segment))

-- As many rounds as there are bytes left find the end of the line, with reads in the segment.
pub line_end_lem :
    (segment : List ℕ) (fuel p : ℕ)
    → p ≤ length segment
    → length segment ≤ p + fuel
    → Ensures (IsLineEnd segment p) (line_end segment fuel p)
unfolding line_end
line_end_lem segment zero p le enough = (omega arith, (λ h. absurd (omega arith), le))
line_end_lem segment (suc fuel) p le enough = elim (Bool-cases (ltb p (length segment))) [
  | inr f ↦ rw (f, line_end) (omega arith, (λ h. absurd (ground arith), le))
  | inl t ↦
      rw (t, line_end)
        (Ensures-rd (IsLineEnd segment p) segment p _ (ground arith)
          (elim (Bool-cases (byte segment p == 13 || byte segment p == 10)) [
            | inl e ↦ rw e (omega arith, (λ h. ground arith, le))
            | inr e ↦ rw e (
                Ensures-weaken (IsLineEnd segment (p + 1)) (IsLineEnd segment p)
                  (line_end segment fuel (p + 1))
                  (line_end_lem segment fuel (p + 1) (ground arith) (omega arith))
                  (λ q l. (omega (arith, l.0), l.1)))
          ]))
]

pub mix_case_lem :
    (base fuel p : ℕ) (segment : List ℕ)
    → Ensures (λ s. length s ≡ length segment) (mix_case base fuel p segment)
unfolding mix_case
mix_case_lem base zero p segment = refl
mix_case_lem base (suc fuel) p segment = elim (Bool-cases (ltb p (length segment))) [
  | inr f ↦ rw (f, mix_case) refl
  | inl t ↦
      rw (t, mix_case)
        (Ensures-rd (λ s. length s ≡ length segment) segment p _ (ground arith)
          (elim (Bool-cases (byte segment p == 13 || byte segment p == 10)) [
            | inl e ↦ rw e refl
            | inr e ↦
                let c = byte segment p in
                let written =
                  set segment p (if (base + p) % 2 == 1 then tolower c else toupper c) in
                let same : length written ≡ length segment = length-set segment p _ in
                rw e (
                  Ensures-weaken (λ s. length s ≡ length written) (λ s. length s ≡ length segment)
                    (mix_case base fuel (p + 1) written) (mix_case_lem base fuel (p + 1) written)
                    (λ s l. l ∙ same))
          ]))
]
