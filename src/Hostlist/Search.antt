-- ===== src/Hostlist/Search.antt =====
-- What a search in a host list finds.
use fog_prime.Base.{
  ℕ, zero, suc, ◌<◌, ◌≡◌, ◌⊎◌, ◌↔◌, inl, inr, refl, Bool, true, false, ◌&&◌, not, ◌==◌, List, [],
  ◌∷◌, length, none, some, arith, Bool-cases, Option-cases, sym, ◌∙◌, ==_iff,
}
use fog_prime.Hostlist.{Pool, after_dot, is_strict, is_positive, search_loop, search_host_list}

-- What follows one of the dots of a name.
abbrev pub IsParent : List ℕ → List ℕ → Type 0
IsParent s [] = ⊥
IsParent s (c ∷ p) = ((c ≡ 46) × (s ≡ p)) ⊎ IsParent s p

after_dot-dot : (c : ℕ) (p : List ℕ) → (c == 46) ≡ true → after_dot (c ∷ p) ≡ some p
unfolding after_dot
after_dot-dot c p e = rw (e, after_dot)

after_dot-other : (c : ℕ) (p : List ℕ) → (c == 46) ≡ false → after_dot (c ∷ p) ≡ after_dot p
unfolding after_dot
after_dot-other c p e = rw (e, after_dot)

IsParent-none : (p s : List ℕ) → after_dot p ≡ none → IsParent s p → ⊥
IsParent-none [] s e h = h
IsParent-none (c ∷ p) s e h = elim (Bool-cases (c == 46)) [
  | inl q ↦ absurd (clash (sym (after_dot-dot c p q) ∙ e))
  | inr q ↦ elim h [
    | inl (d, f) ↦ absurd (ground arith)
    | inr later ↦ IsParent-none p s (sym (after_dot-other c p q) ∙ e) later
  ]
]
  where
    clash : some p ≡ none → ⊥
    clash e = cc

after_dot-nil : (q : List ℕ) → after_dot [] ≡ some q → ⊥
unfolding after_dot
after_dot-nil q e = cc

some_eq : {A : Type 0} (a b : A) → some a ≡ some b → a ≡ b
some_eq a b e = cc

IsParent-some :
    (p q : List ℕ)
    → after_dot p ≡ some q
    → (length q < length p) × ((s : List ℕ) → IsParent s p ↔ ((s ≡ q) ⊎ IsParent s q))
IsParent-some [] q e = absurd (after_dot-nil q e)
IsParent-some (c ∷ p) q e = elim (Bool-cases (c == 46)) [
  | inl d ↦
      let same = some_eq p q (sym (after_dot-dot c p d) ∙ e) in
      rw (sym same) (
        omega arith,
        λ s. (
          (λ h. elim h [ inl (a, b) ↦ inl b | inr b ↦ inr b ]),
          (λ h. elim h [ inl b ↦ inl ((==_iff c 46).0 d, b) | inr b ↦ inr b ]),
        ),
      )
  | inr d ↦
      let (less, same) = IsParent-some p q (sym (after_dot-other c p d) ∙ e) in
      (
        omega arith,
        λ s. (
          (λ h. elim h [ inl (a, b) ↦ absurd (ground arith) | inr b ↦ (same s).0 b ]),
          (λ h. inr ((same s).1 h)),
        ),
      )
]

-- An entry of the name that is not strict, or that need not be.
abbrev pub Entry : Pool → Bool → List ℕ → Type 0
Entry pool full s = (f : ℕ) × (pool s ≡ some f) × ((full ≡ true) ⊎ (is_strict f ≡ false))

is_positive_iff :
    (pool : Pool) (full : Bool) (s : List ℕ)
    → (is_positive full (pool s) ≡ true) ↔ Entry pool full s
unfolding is_positive
is_positive_iff pool full s = elim (Option-cases (pool s)) [
  | inl e ↦ rw (e, is_positive) ((λ q. cc), (λ (f, eq, h). cc))
  | inr (f, e) ↦ rw (e, is_positive) (to f full, (λ (g, eq, h). from f full (h' f g full eq h)))
]
  where
    to :
        (f : ℕ) (full : Bool)
        → not (is_strict f && not full) ≡ true
        → (g : ℕ) × (some f ≡ some g) × ((full ≡ true) ⊎ (is_strict g ≡ false))
    to f full q = (f, refl, ground arith)

    h' :
        (f g : ℕ) (full : Bool)
        → some f ≡ some g
        → (full ≡ true) ⊎ (is_strict g ≡ false)
        → (full ≡ true) ⊎ (is_strict f ≡ false)
    h' f g full e h = rw (some_eq f g e) h

    from :
        (f : ℕ) (full : Bool)
        → (full ≡ true) ⊎ (is_strict f ≡ false)
        → not (is_strict f && not full) ≡ true
    from f full h = ground arith

module _ (pool : Pool) where
  -- The name at hand has an entry, or one of its parents has one that is not strict.
  abbrev pub Found : Bool → Bool → List ℕ → Type 0
  Found no_match full p =
      Entry pool full p ⊎ ((no_match ≡ false) × ((s : List ℕ) × IsParent s p × Entry pool false s))

  differ : {b : Bool} → b ≡ true → b ≡ false → ⊥
  differ e f = cc

  search_loop_lem :
      (no_match : Bool) (fuel : ℕ) (full : Bool) (p : List ℕ)
      → length p < fuel
      → (search_loop pool no_match fuel full p ≡ true) ↔ Found no_match full p
  unfolding search_loop
  search_loop_lem no_match zero full p h = absurd (omega arith)
  search_loop_lem true (suc fuel) full p h =
      let (to, from) = is_positive_iff pool full p in
      elim (Bool-cases (is_positive full (pool p))) [
        | inl e ↦ rw (e, search_loop) ((λ q. inl (to e)), (λ f. refl))
        | inr e ↦
            rw (e, search_loop)
              (
                (λ q. cc),
                (λ f. elim f [
                  | inl n ↦ absurd (differ (from n) e)
                  | inr (x, y) ↦ absurd (differ refl x)
                ]),
              )
      ]
  search_loop_lem false (suc fuel) full p h =
      let (to, from) = is_positive_iff pool full p in
      elim (Bool-cases (is_positive full (pool p))) [
        | inl e ↦ rw (e, search_loop) ((λ q. inl (to e)), (λ f. refl))
        | inr e ↦ elim (Option-cases (after_dot p)) [
          | inl n ↦
              rw (e, search_loop, n)
                (
                  (λ q. cc),
                  (λ f. elim f [
                    | inl ent ↦ absurd (differ (from ent) e)
                    | inr (x, (s, par, ent)) ↦ absurd (IsParent-none p s n par)
                  ]),
                )
          | inr (p', n) ↦
              let (less, same) = IsParent-some p p' n in
              let ih = search_loop_lem false fuel false p' (omega arith) in
              rw (e, search_loop, n)
                (
                  (λ q. elim (ih.0 q) [
                    | inl ent ↦ inr (refl, (p', (same p').1 (inl refl), ent))
                    | inr (x, (s, par, ent)) ↦ inr (refl, (s, (same s).1 (inr par), ent))
                  ]),
                  (λ f. elim f [
                    | inl ent ↦ absurd (differ (from ent) e)
                    | inr (x, (s, par, ent)) ↦ ih.1 (elim ((same s).0 par) [
                      | inl eq ↦ inl (rw eq at ent)
                      | inr later ↦ inr (refl, (s, later, ent))
                    ])
                  ]),
                )
        ]
      ]

  -- A search in a list answers true exactly if the name has an entry, strict or not, or subdomains
  -- match and what follows one of the name's dots has an entry that is not strict.
  pub search_host_list_lem :
      (name : List ℕ) (no_match : Bool)
      → (search_host_list (some pool) name no_match ≡ true) ↔ Found no_match true name
  unfolding search_host_list
  search_host_list_lem name no_match =
      search_loop_lem no_match (suc (length name)) true name (omega arith)
