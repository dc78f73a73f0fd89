-- ===== src/Ipset/Check.antt =====
-- Which addresses pass the sets of a profile.
use fog_prime.Base.{
  ℕ, Option, none, some, ◌≡◌, ◌↔◌, ◌⊎◌, inl, inr, refl, Bool, true, false, not, if◌then◌else◌, List,
  [], ◌∷◌, Bool-cases,
}
use fog_prime.Ipset.{
  Address, ipv4, ipv6, Ipset, has, search_ipset, any_ipset, ipset_empty, ipset_collection_is_empty,
  ipset_check_lists, ipset_check,
}

-- A tree is there and has the address.
abbrev pub IsInTree : Option (ℕ → Bool) → ℕ → Type 0
IsInTree none a = ⊥
IsInTree (some tree) a = tree a ≡ true

-- A set has the address in its tree for the version of the protocol.
abbrev pub IsInSet : Ipset → Address → Type 0
IsInSet ips (ipv4 a) = IsInTree ips.ips4 a
IsInSet ips (ipv6 a) = IsInTree ips.ips6 a

-- Some set of the list has the address.
abbrev pub IsIn : List Ipset → Address → Type 0
IsIn [] a = ⊥
IsIn (ips ∷ list) a = IsInSet ips a ⊎ IsIn list a

-- No set has been given, or none has a tree for IPv4 or for IPv6.
abbrev pub IsVoid : List Ipset → Type 0
IsVoid [] = Unit
IsVoid (ips ∷ list) = ((ips.ips4 ≡ none) × (ips.ips6 ≡ none)) × IsVoid list

has_iff : (tree : Option (ℕ → Bool)) (a : ℕ) → (has tree a ≡ true) ↔ IsInTree tree a
has_iff none a = (λ e. cc, λ h. absurd h)
has_iff (some tree) a = (λ e. e, λ h. h)

search_ipset_iff : (ips : Ipset) (a : Address) → (search_ipset ips a ≡ true) ↔ IsInSet ips a
unfolding search_ipset
search_ipset_iff ips (ipv4 a) = has_iff ips.ips4 a
search_ipset_iff ips (ipv6 a) = has_iff ips.ips6 a

void_iff :
    (ips : Ipset) (t4 t6 : Option (ℕ → Bool))
    → ips ≡ (record { ips4 = t4; ips6 = t6 })
    → (ipset_empty ips ≡ true) ↔ ((ips.ips4 ≡ none) × (ips.ips6 ≡ none))
void_iff ips none none e = rw e (λ _. (refl, refl), λ _. refl)
void_iff ips none (some t) e = rw e (λ h. cc, λ h. cc)
void_iff ips (some t) t6 e = rw e (λ h. cc, λ h. cc)

differ : {b : Bool} → b ≡ true → b ≡ false → ⊥
differ e f = cc

IsIn-iff : (list : List Ipset) (a : Address) → (any_ipset list a ≡ true) ↔ IsIn list a
unfolding any_ipset
IsIn-iff [] a = (λ e. absurd (differ refl (no e)), λ h. absurd h)
  where
    no : false ≡ true → true ≡ false
    no e = cc
IsIn-iff (ips ∷ list) a = elim (Bool-cases (search_ipset ips a)) [
  | inl e ↦ rw (e, any_ipset) (λ h. inl ((search_ipset_iff ips a).0 e), λ h. refl)
  | inr e ↦
      rw (e, any_ipset)
        (
          λ h. inr ((IsIn-iff list a).0 h),
          λ h. elim h [
            | inl x ↦ absurd (differ ((search_ipset_iff ips a).1 x) e)
            | inr y ↦ (IsIn-iff list a).1 y
          ],
        )
]

IsVoid-iff : (list : List Ipset) → (ipset_collection_is_empty list ≡ true) ↔ IsVoid list
unfolding ipset_collection_is_empty
IsVoid-iff [] = (λ e. tt, λ h. refl)
IsVoid-iff (ips ∷ list) = elim (Bool-cases (ipset_empty ips)) [
  | inl e ↦ rw e (
    λ h. ((void_iff ips ips.ips4 ips.ips6 refl).0 e, (IsVoid-iff list).0 h),
    λ (x, y). (IsVoid-iff list).1 y,
  )
  | inr e ↦ rw e (λ h. cc, λ (x, y). absurd (differ ((void_iff ips ips.ips4 ips.ips6 refl).1 x) e))
]

-- An including set has the address, or all including sets are empty.
abbrev pub Included : List Ipset → Address → Type 0
Included ips a = IsIn ips a ⊎ IsVoid ips

included :
    (ips : List Ipset) (a : Address)
    → ((if not (ipset_collection_is_empty ips) then any_ipset ips a else true) ≡ true)
      ↔ Included ips a
included ips a =
    let (void, from_void) = IsVoid-iff ips in
    let (in_list, from_in) = IsIn-iff ips a in
    elim (Bool-cases (ipset_collection_is_empty ips)) [
      | inl e ↦ rw e (λ h. inr (void e), λ h. refl)
      | inr e ↦ rw e (
        λ h. inl (in_list h),
        λ h. elim h [ inl x ↦ from_in x | inr y ↦ absurd (differ (from_void y) e) ],
      )
    ]

lists_lem :
    (loaded : Bool) (ips exclude : List Ipset) (a : Address)
    → (ipset_check_lists loaded ips exclude a ≡ true)
      ↔ ((loaded ≡ true) × (IsIn exclude a → ⊥) × Included ips a)
unfolding ipset_check_lists
lists_lem false ips exclude a = (λ h. cc, λ (l, n, i). cc)
lists_lem true ips exclude a =
    let (to, from) = IsIn-iff exclude a in
    elim (Bool-cases (any_ipset exclude a)) [
      | inl e ↦ rw e (λ h. cc, λ (l, n, i). absurd (n (to e)))
      | inr e ↦ rw e (
        λ h. (refl, (λ x. differ (from x) e), (included ips a).0 h),
        λ (l, n, i). (included ips a).1 i,
      )
    ]

not_nil : {A : Type 0} (x : A) (xs : List A) → ◌≡◌ {A = List A} (x ∷ xs) [] → ⊥
not_nil x xs e = cc

-- An address passes the sets of a profile exactly if no sets were given at all, or the changed files
-- could be loaded, no excluding set has the address, and an including set has it or all including
-- sets are empty. A set has an address in its tree for the version of the protocol, and is empty
-- without a tree for either.
pub ipset_check_lem :
    (loaded : Bool) (ips exclude : List Ipset) (a : Address)
    → (ipset_check loaded ips exclude a ≡ true)
      ↔ (((ips ≡ []) × (exclude ≡ [])) ⊎ ((loaded ≡ true) × (IsIn exclude a → ⊥) × Included ips a))
unfolding ipset_check
ipset_check_lem loaded [] [] a = (λ h. inl (refl, refl), λ h. refl)
ipset_check_lem loaded [] (x ∷ exclude) a =
    let (to, from) = lists_lem loaded [] (x ∷ exclude) a in
    (λ h. inr (to h), λ h. elim h [ inl (e, f) ↦ absurd (not_nil x exclude f) | inr r ↦ from r ])
ipset_check_lem loaded (x ∷ ips) exclude a =
    let (to, from) = lists_lem loaded (x ∷ ips) exclude a in
    (λ h. inr (to h), λ h. elim h [ inl (e, f) ↦ absurd (not_nil x ips e) | inr r ↦ from r ])
