-- ===== src/Desync/Match/First.antt =====
-- Which profile is chosen.
use fog_prime.Base.{
  ℕ, suc, ◌≡◌, ◌↔◌, ◌⊎◌, inl, inr, refl, sym, ap, ◌∙◌, Bool, true, false, not, ◌&&◌, ◌||◌,
  if◌then◌else◌, List, [], ◌∷◌, Option, none, some, Bool-cases, arith,
}
use fog_prime.Ipset.{ipset_check}
use fog_prime.Ipset.Check.{ipset_check_lem}
use fog_prime.Desync.Match.{
  Candidate, Target, Checks, l3_passes, l4_passes, l7_passes, hostlists_empty, is_known, match_host,
  dp_match, find_from, dp_find,
}
use fog_prime.Desync.Match.Filters.{
  is_accepted, differ, Passes, PassesVersion-iff, ports_iff, l7_iff, AreEmpty-iff, PassesName-iff,
  and_iff, or_iff,
}

match_host_lem :
    (c : Candidate) (t : Target) (k : Checks) (h : Option (List ℕ))
    → (match_host c t k h).0 ≡ is_accepted c t h
unfolding match_host
match_host_lem c t k none = refl
match_host_lem c t k (some h) = refl

unknown_fails :
    (c : Candidate) (t : Target) (h : Option (List ℕ))
    → is_known h ≡ false
    → is_accepted c t h ≡ false
unknown_fails c t none e = refl
unknown_fails c t (some h) e = cc

-- A filter that must let the packet pass.
guard :
    (b : Bool) (k : Checks) (x : Bool × Checks) (r : Bool)
    → x.0 ≡ r
    → (if not b then (false, k) else x).0 ≡ (b && r)
guard true k x r e = e
guard false k x r e = refl

-- A test that only saves the work of the filters behind it.
shortcut :
    (a : Bool) (k : Checks) (x : Bool × Checks) (r : Bool)
    → (a ≡ true → r ≡ false)
    → x.0 ≡ r
    → (if a then (false, k) else x).0 ≡ r
shortcut true k x r h e = sym (h refl)
shortcut false k x r h e = e

win :
    (b : Bool) (k : Checks) (x : Bool × Checks) (r : Bool)
    → x.0 ≡ r
    → (if b then (true, k) else x).0 ≡ (b || r)
win true k x r e = refl
win false k x r e = e

-- The last filters, which the shortcut skips.
abbrev last : Candidate → Target → Bool
last c t =
    ipset_check c.sets_loaded c.ips c.ips_exclude t.dest
    && (c.dp.hostlist_auto || (hostlists_empty c || is_accepted c t t.hostname))

-- As a test: every filter of the profile lets the packet pass: the files could be loaded, the version of the
-- protocol, the port, the application protocol, the sets of addresses; and the profile has an
-- automatic list or no lists of names, or its lists accept the name.
abbrev passes : Candidate → Target → Bool
passes c t =
    c.hosts_loaded
    && (l3_passes c.dp t.dest
        && (l4_passes c.dp t.l3proto t.port && (l7_passes c.dp t.l7proto && last c t)))

skipped :
    (c : Candidate) (t : Target)
    → (not c.dp.hostlist_auto && not (is_known t.hostname) && not (hostlists_empty c)) ≡ true
    → last c t ≡ false
skipped c t e =
    let u = unknown_fails c t t.hostname in
    let unknown : is_known t.hostname ≡ false = ground arith in ground (arith, u unknown)

pub dp_match_lem : (c : Candidate) (t : Target) (k : Checks) → (dp_match c t k).0 ≡ passes c t
unfolding dp_match
dp_match_lem c t k0 =
    let k = record k0 { done = false } in
    let at_host = match_host c t k t.hostname in
    let lists = if hostlists_empty c then (true, k) else at_host in
    let auto = if c.dp.hostlist_auto then (true, k) else lists in
    let set = ipset_check c.sets_loaded c.ips c.ips_exclude t.dest in
    let r1 = is_accepted c t t.hostname in
    let w1 = win (hostlists_empty c) k at_host r1 (match_host_lem c t k t.hostname) in
    let w2 = win c.dp.hostlist_auto k lists (hostlists_empty c || r1) w1 in
    let w3 = guard set k auto (c.dp.hostlist_auto || (hostlists_empty c || r1)) w2 in
    let x4 = if not set then (false, k) else auto in
    let skip = not c.dp.hostlist_auto && not (is_known t.hostname) && not (hostlists_empty c) in
    let w4 = shortcut skip k x4 (last c t) (skipped c t) w3 in
    let x5 = if skip then (false, k) else x4 in
    let w5 = guard (l7_passes c.dp t.l7proto) k x5 (last c t) w4 in
    let x6 = if not (l7_passes c.dp t.l7proto) then (false, k) else x5 in
    let w6 =
      guard (l4_passes c.dp t.l3proto t.port) k x6 (l7_passes c.dp t.l7proto && last c t) w5 in
    let x7 = if not (l4_passes c.dp t.l3proto t.port) then (false, k) else x6 in
    let w7 =
      guard (l3_passes c.dp t.dest) k x7
        (l4_passes c.dp t.l3proto t.port && (l7_passes c.dp t.l7proto && last c t)) w6 in
    guard c.hosts_loaded k (if not (l3_passes c.dp t.dest) then (false, k) else x7)
      (l3_passes c.dp t.dest
        && (l4_passes c.dp t.l3proto t.port && (l7_passes c.dp t.l7proto && last c t)))
      w7

same_iff : {A : Type 0} → A ↔ A
same_iff = (λ a. a, λ a. a)

Passes-iff : (c : Candidate) (t : Target) → (passes c t ≡ true) ↔ Passes c t
Passes-iff c t =
    let empty = and_iff _ _ (AreEmpty-iff c.hl) (AreEmpty-iff c.hl_exclude) in
    let named = or_iff _ _ same_iff (or_iff _ _ empty (PassesName-iff c t t.hostname)) in
    let sets = and_iff _ _ (ipset_check_lem c.sets_loaded c.ips c.ips_exclude t.dest) named in
    let rest = and_iff _ _ (l7_iff c.dp t.l7proto) sets in
    let ports = and_iff _ _ (ports_iff c.dp t.l3proto t.port) rest in
    let all = and_iff _ _ same_iff (and_iff _ _ (PassesVersion-iff c.dp t.dest) ports) in
    (
      λ e.
          let (a, x) = all.0 e in
          let (b, y) = x in
          let ((d, f), z) = y in let (g, u) = z in let (s, n) = u in (a, b, d, f, g, s, n),
      λ (a, b, d, f, g, s, n). all.1 (a, (b, ((d, f), (g, (s, n))))),
    )

-- `i` is the number of the first profile that the packet passes, counted from `n`.
abbrev pub IsFirst : ℕ → List Candidate → Target → ℕ → Type 0
IsFirst n [] t i = ⊥
IsFirst n (c ∷ rest) t i = (Passes c t × (i ≡ n)) ⊎ ((Passes c t → ⊥) × IsFirst (suc n) rest t i)

take_if :
    (b : Bool) (x y : Option ℕ × Checks)
    → (b ≡ true → (if b then x else y) ≡ x) × (b ≡ false → (if b then x else y) ≡ y)
take_if true x y = (λ e. refl, λ e. absurd (differ refl e))
take_if false x y = (λ e. absurd (differ e refl), λ e. refl)

some_eq : (a b : ℕ) → ◌≡◌ {A = Option ℕ} (some a) (some b) → b ≡ a
some_eq a b e = cc

find_from_lem :
    (n : ℕ) (head : List Candidate) (t : Target) (k : Checks) (i : ℕ)
    → ((find_from n head t k).0 ≡ some i) ↔ IsFirst n head t i
unfolding find_from
find_from_lem n [] t k i = (λ e. absurd (clash e), λ h. absurd h)
  where
    clash : ◌≡◌ {A = Option ℕ} none (some i) → ⊥
    clash e = cc
find_from_lem n (c ∷ rest) t k i =
    let r = dp_match c t k in
    let (taken, left) = take_if r.0 (some n, r.1) (find_from (suc n) rest t r.1) in
    let (to, from) = find_from_lem (suc n) rest t r.1 i in
    let same = dp_match_lem c t k in
    let allowed = Passes-iff c t in
    elim (Bool-cases (passes c t)) [
      | inl e ↦
          let first = ap (λ x. x.0) (taken (same ∙ e)) in
          (
            λ h. inl (allowed.0 e, some_eq n i (sym first ∙ h)),
            λ h. elim h [
              | inl (p, q) ↦ first ∙ ap (λ m. some m) (sym q)
              | inr (p, q) ↦ absurd (p (allowed.0 e))
            ],
          )
      | inr e ↦
          let later = ap (λ x. x.0) (left (same ∙ e)) in
          (
            λ h. inr (λ p. differ (allowed.1 p) e, to (sym later ∙ h)),
            λ h. elim h [
              | inl (p, q) ↦ absurd (differ (allowed.1 p) e)
              | inr (p, q) ↦ later ∙ from q
            ],
          )
    ]

-- dp_find returns a profile exactly if the packet passes all its filters and fails one of each
-- profile before it. The filters: the list files could be loaded; the address is of a version that
-- is not filtered out; the port of a TCP packet (protocol 6) is in the TCP filters, that of a UDP
-- packet (17) in the UDP filters, none given meaning all ports; the application protocol is one of
-- the wanted, none meaning all; no sets of addresses are given, or their files could be loaded, no
-- excluding set has the address, and an including one has it or all are empty; and the profile has
-- an automatic list, or no lists of names with entries, or the name is known, no excluding list
-- finds it, and an including one does or all are empty.
pub dp_find_lem :
    (head : List Candidate) (t : Target) (k : Checks) (i : ℕ)
    → ((dp_find head t k).0 ≡ some i) ↔ IsFirst 0 head t i
unfolding dp_find
dp_find_lem head t k i = find_from_lem 0 head t (record k { done = false }) i
