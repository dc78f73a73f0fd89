-- ===== src/Helpers/Ports/Meaning.antt =====
-- What a parsed port filter accepts.
use fog_prime.Base.{
  ℕ, ap, ◌≡◌, refl, Bool, true, false, not, xor, ◌&&◌, ◌==◌, leb, if◌then◌else◌, List, [], ◌∷◌,
  Option, none, some, arith, Option-cases, inl, inr, Bool-cases, ==_iff,
}
use fog_prime.Helpers.Ports.{
  PortFilter, pf_in_range, pf_parse_body, pf_parse, deny_all, port_filters_deny_if_empty,
  any_in_range, port_filters_in_range,
}

-- What the text of a filter denotes: a bound pair, inverted or not, where the pair 0-0 is empty.
abbrev pub denotes : Bool → ℕ → ℕ → ℕ → Bool
denotes neg a b port =
    not (port == 0) && not (a == 0 && b == 0) && xor (leb a port && leb port b) neg

-- the sign and the rest of a filter's text
abbrev pub sign : List ℕ → Bool
sign [] = false
sign (c ∷ s) = c == b'~'

abbrev pub unsigned : List ℕ → List ℕ
unsigned [] = []
unsigned (c ∷ s) = if c == b'~' then s else c ∷ s

module _ (scan_range : List ℕ → Option (ℕ × ℕ)) (scan_num : List ℕ → Option ℕ) where
  -- The bounds that sscanf finds.
  abbrev pub bounds : List ℕ → Option (ℕ × ℕ)
  bounds s = elim (scan_range s) [
    | some p ↦ some p
    | none ↦ elim (scan_num s) [ some v ↦ some (v, v) | none ↦ none ]
  ]

  body_meaning :
      (s : List ℕ) (pf0 : PortFilter) (a b port : ℕ)
      → bounds s ≡ some (a, b)
      → let (done, pf) = pf_parse_body scan_range scan_num s pf0 in
        (done ≡ (leb a b && leb b 65535))
        × (done ≡ true → pf_in_range port pf ≡ denotes pf0.neg a b port)
  unfolding pf_parse_body pf_in_range deny_all
  body_meaning s pf0 a b port h = elim (Option-cases (scan_range s)) [
    | inl e ↦ elim (Option-cases (scan_num s)) [
      | inl e' ↦ ground arith
      | inr (v, e') ↦ ground arith
    ]
    | inr (p, e) ↦ ground arith
  ]

  -- A text other than "*" in which sscanf finds the bounds `a` and `b` (one number is both) is
  -- accepted exactly if `a ≤ b ≤ 65535`, and then the filter passes a port exactly if the text
  -- denotes it: the port is not 0, the bounds are not 0-0, and the port lies within them, or
  -- outside of them after a leading '~'.
  pub pf_parse_meaning :
      (s : List ℕ) (pf0 : PortFilter) (a b port : ℕ)
      → bounds (unsigned s) ≡ some (a, b)
      → (s ≡ b'*' ∷ [] → ⊥)
      → let (done, pf) = pf_parse scan_range scan_num (some s) pf0 in
        (done ≡ (leb a b && leb b 65535))
        × (done ≡ true → pf_in_range port pf ≡ denotes (sign s) a b port)
  unfolding pf_parse
  pf_parse_meaning [] pf0 a b port h ns = body_meaning [] (record pf0 { neg = false }) a b port h
  pf_parse_meaning (c ∷ []) pf0 a b port h ns = elim (Bool-cases (c == b'*')) [
    | inl e ↦ absurd (ns (ap (λ x. x ∷ []) ((==_iff c b'*').0 e)))
    | inr e ↦ elim (Bool-cases (c == b'~')) [
      | inl e' ↦ rw (e, e') (body_meaning [] (record pf0 { neg = true }) a b port (rw e' at h))
      | inr e' ↦
          rw (e, e') (body_meaning (c ∷ []) (record pf0 { neg = false }) a b port (rw e' at h))
    ]
  ]
  pf_parse_meaning (c ∷ d ∷ s) pf0 a b port h ns = elim (Bool-cases (c == b'~')) [
    | inl e' ↦ rw e' (body_meaning (d ∷ s) (record pf0 { neg = true }) a b port (rw e' at h))
    | inr e' ↦ rw e' (body_meaning (c ∷ d ∷ s) (record pf0 { neg = false }) a b port (rw e' at h))
  ]

  -- An empty list passes every port. Once port_filters_deny_if_empty has run on it with success,
  -- no port passes, if sscanf reads "0" as the number 0; a list with filters is left alone.
  pub deny_if_empty_meaning :
      (mem : Bool) (held : PortFilter) (head : List PortFilter) (port : ℕ)
      → scan_range (b'0' ∷ []) ≡ none
      → scan_num (b'0' ∷ []) ≡ some 0
      → let (done, head') = port_filters_deny_if_empty scan_range scan_num mem held head in
        (head ≡ [] → done ≡ true → port_filters_in_range head' port ≡ false)
        × (head ≡ [] → port_filters_in_range head port ≡ true)
        × ((head ≡ [] → ⊥) → head' ≡ head)
  unfolding port_filters_deny_if_empty port_filters_in_range any_in_range pf_in_range pf_parse
      deny_all pf_parse_body
  deny_if_empty_meaning mem held [] port h k = (ground arith, ground arith, λ e. absurd (e refl))
  deny_if_empty_meaning mem held (pf ∷ head) port h k = (λ e. cc, λ e. cc, λ e. refl)
