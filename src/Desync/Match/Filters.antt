-- ===== src/Desync/Match/Filters.antt =====
-- What each filter of a profile asks of a packet, beside the tests of dp_match in nfq/desync.c.
use fog_prime.Base.{
  ℕ, ◌≡◌, ◌↔◌, ◌⊎◌, inl, inr, refl, Bool, true, false, ◌&&◌, ◌||◌, List, [], ◌∷◌, Option, none,
  some, Bool-cases, arith, ◌≢◌, ◌==◌, bit_and,
}
use fog_prime.Helpers.Ports.{PortFilter, pf_in_range, any_in_range, port_filters_in_range}
use fog_prime.Hostlist.{
  Pool, search_host_list, any_list, hostlist_check, hostlist_collection_is_empty,
}
use fog_prime.Ipset.{Address, ipv4, ipv6}
use fog_prime.Ipset.Check.{IsIn, Included}
use fog_prime.Protocol.Resolve.{L7proto, l7_bit, l7_proto_match}
use fog_prime.Desync.Profile.{Profile}
use fog_prime.Desync.Match.{Candidate, Target, l3_passes, l4_passes, l7_passes}

-- The lists accept the name, if it is known.
abbrev pub is_accepted : Candidate → Target → Option (List ℕ) → Bool
is_accepted c t none = false
is_accepted c t (some h) = (hostlist_check c.hl c.hl_exclude h t.no_subdom).0

pub differ : {b : Bool} → b ≡ true → b ≡ false → ⊥
differ e f = cc

-- Some filter of the list has the port in its range, or outside of it after a '~'.
abbrev pub IsInSome : List PortFilter → ℕ → Type 0
IsInSome [] port = ⊥
IsInSome (pf ∷ head) port = (pf_in_range port pf ≡ true) ⊎ IsInSome head port

-- A packet of this protocol passes only with a port of the filters; none are as good as all ports.
abbrev pub PassesPorts : List PortFilter → ℕ → Type 0
PassesPorts head port = (head ≡ []) ⊎ IsInSome head port

abbrev pub PassesVersion : Profile → Address → Type 0
PassesVersion dp (ipv4 a) = dp.filter_ipv4 ≡ true
PassesVersion dp (ipv6 a) = dp.filter_ipv6 ≡ true

abbrev pub PassesSets : Candidate → Address → Type 0
PassesSets c a =
    ((c.ips ≡ []) × (c.ips_exclude ≡ []))
    ⊎ ((c.sets_loaded ≡ true) × (IsIn c.ips_exclude a → ⊥) × Included c.ips a)

-- No list of the collection has entries.
abbrev pub AreEmpty : List (Option Pool) → Type 0
AreEmpty [] = Unit
AreEmpty (l ∷ lists) = (l ≡ none) × AreEmpty lists

-- A list of the collection finds the name.
abbrev pub FindsName : List (Option Pool) → List ℕ → Bool → Type 0
FindsName [] name no_subdom = ⊥
FindsName (l ∷ lists) name no_subdom =
    (search_host_list l name no_subdom ≡ true) ⊎ FindsName lists name no_subdom

abbrev pub PassesName : Candidate → Bool → Option (List ℕ) → Type 0
PassesName c no_subdom none = ⊥
PassesName c no_subdom (some name) =
    (FindsName c.hl_exclude name no_subdom → ⊥) × (AreEmpty c.hl ⊎ FindsName c.hl name no_subdom)

-- What the filters of a profile ask of a packet.
abbrev pub Passes : Candidate → Target → Type 0
Passes c t =
    (c.hosts_loaded ≡ true)
    × PassesVersion c.dp t.dest
    × (t.l3proto ≡ 6 → PassesPorts c.dp.pf_tcp t.port)
    × (t.l3proto ≡ 17 → PassesPorts c.dp.pf_udp t.port)
    × ((c.dp.filter_l7 ≡ 0) ⊎ (bit_and c.dp.filter_l7 (l7_bit t.l7proto) ≢ 0))
    × PassesSets c t.dest
    × ((c.dp.hostlist_auto ≡ true)
        ⊎ ((AreEmpty c.hl × AreEmpty c.hl_exclude) ⊎ PassesName c t.no_subdom t.hostname))

IsInSome-iff :
    (head : List PortFilter) (port : ℕ) → (any_in_range head port ≡ true) ↔ IsInSome head port
unfolding any_in_range
IsInSome-iff [] port = (λ e. cc, λ h. absurd h)
IsInSome-iff (pf ∷ head) port =
    let (to, from) = IsInSome-iff head port in
    elim (Bool-cases (pf_in_range port pf)) [
      | inl e ↦ rw (e, any_in_range) (λ _. inl refl, λ _. refl)
      | inr e ↦ rw (e, any_in_range) (λ h. inr (to h), λ h. elim h [ inl x ↦ cc | inr y ↦ from y ])
    ]

PassesPorts-iff :
    (head : List PortFilter) (port : ℕ)
    → (port_filters_in_range head port ≡ true) ↔ PassesPorts head port
unfolding port_filters_in_range
PassesPorts-iff [] port = (λ _. inl refl, λ _. refl)
PassesPorts-iff (pf ∷ head) port =
    let (to, from) = IsInSome-iff (pf ∷ head) port in
    (λ e. inr (to e), λ h. elim h [ inl x ↦ cc x | inr y ↦ from y ])

pub PassesVersion-iff : (dp : Profile) (a : Address) → (l3_passes dp a ≡ true) ↔ PassesVersion dp a
PassesVersion-iff dp (ipv4 a) = (λ e. e, λ e. e)
PassesVersion-iff dp (ipv6 a) = (λ e. e, λ e. e)

pub ports_iff :
    (dp : Profile) (l3proto port : ℕ)
    → (l4_passes dp l3proto port ≡ true)
      ↔ ((l3proto ≡ 6 → PassesPorts dp.pf_tcp port) × (l3proto ≡ 17 → PassesPorts dp.pf_udp port))
ports_iff dp l3proto port =
    let tcp = PassesPorts-iff dp.pf_tcp port in
    let udp = PassesPorts-iff dp.pf_udp port in
    (
      λ e. (λ x. tcp.0 (ground arith), λ x. udp.0 (ground arith)),
      λ h. elim (Bool-cases (l3proto == 6)) [
        | inl x ↦ let y = tcp.1 (h.0 (ground arith)) in ground arith
        | inr x ↦ elim (Bool-cases (l3proto == 17)) [
          | inl z ↦ let y = udp.1 (h.1 (ground arith)) in ground arith
          | inr z ↦ ground arith
        ]
      ],
    )

pub l7_iff :
    (dp : Profile) (l7 : L7proto)
    → (l7_passes dp l7 ≡ true) ↔ ((dp.filter_l7 ≡ 0) ⊎ (bit_and dp.filter_l7 (l7_bit l7) ≢ 0))
unfolding l7_proto_match
l7_iff dp l7 = (λ e. ground arith, λ h. elim h [ inl x ↦ ground arith | inr y ↦ ground arith ])

pub AreEmpty-iff :
    (lists : List (Option Pool)) → (hostlist_collection_is_empty lists ≡ true) ↔ AreEmpty lists
unfolding hostlist_collection_is_empty
AreEmpty-iff [] = (λ _. tt, λ _. refl)
AreEmpty-iff (none ∷ lists) =
    let (to, from) = AreEmpty-iff lists in (λ e. (refl, to e), λ h. from h.1)
AreEmpty-iff (some p ∷ lists) = (λ e. cc, λ h. cc h.0)

FindsName-iff :
    (lists : List (Option Pool)) (name : List ℕ) (no_subdom : Bool)
    → (any_list lists name no_subdom ≡ true) ↔ FindsName lists name no_subdom
unfolding any_list
FindsName-iff [] name no_subdom = (λ e. cc, λ h. absurd h)
FindsName-iff (l ∷ lists) name no_subdom =
    let (to, from) = FindsName-iff lists name no_subdom in
    elim (Bool-cases (search_host_list l name no_subdom)) [
      | inl e ↦ rw (e, any_list) (λ _. inl refl, λ _. refl)
      | inr e ↦ rw (e, any_list) (λ h. inr (to h), λ h. elim h [ inl x ↦ cc | inr y ↦ from y ])
    ]

pub PassesName-iff :
    (c : Candidate) (t : Target) (h : Option (List ℕ))
    → (is_accepted c t h ≡ true) ↔ PassesName c t.no_subdom h
unfolding hostlist_check
PassesName-iff c t none = (λ e. cc, λ h. absurd h)
PassesName-iff c t (some name) =
    let (out, from_out) = FindsName-iff c.hl_exclude name t.no_subdom in
    let (in_list, from_in) = FindsName-iff c.hl name t.no_subdom in
    let (void, from_void) = AreEmpty-iff c.hl in
    elim (Bool-cases (any_list c.hl_exclude name t.no_subdom)) [
      | inl e ↦ rw (e, is_accepted, hostlist_check) (λ h. cc, λ h. absurd (h.0 (out e)))
      | inr e ↦ elim (Bool-cases (hostlist_collection_is_empty c.hl)) [
        | inl v ↦
            rw (e, v, is_accepted, hostlist_check)
              (λ _. (λ x. differ (from_out x) e, inl (void v)), λ _. refl)
        | inr v ↦
            rw (e, v, is_accepted, hostlist_check)
              (
                λ h. (λ x. differ (from_out x) e, inr (in_list h)),
                λ h. elim h.1 [ inl x ↦ absurd (differ (from_void x) v) | inr y ↦ from_in y ],
              )
      ]
    ]

pub and_iff :
    {A B : Type 0} (a b : Bool) → (a ≡ true) ↔ A → (b ≡ true) ↔ B → ((a && b) ≡ true) ↔ (A × B)
and_iff true true p q = (λ _. (p.0 refl, q.0 refl), λ _. refl)
and_iff true false p q = (λ e. cc, λ h. q.1 h.1)
and_iff false b p q = (λ e. cc, λ h. p.1 h.0)

pub or_iff :
    {A B : Type 0} (a b : Bool) → (a ≡ true) ↔ A → (b ≡ true) ↔ B → ((a || b) ≡ true) ↔ (A ⊎ B)
or_iff true b p q = (λ _. inl (p.0 refl), λ _. refl)
or_iff false b p q = (λ e. inr (q.0 e), λ h. elim h [ inl x ↦ cc (p.1 x) | inr y ↦ q.1 y ])
