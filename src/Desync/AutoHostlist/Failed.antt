-- ===== src/Desync/AutoHostlist/Failed.antt =====
-- What one failure of a name does to the counters and the lists.
use fog_prime.Base.{
  ℕ, ◌+◌, ◌<◌, ◌≤◌, ◌≡◌, ◌⊎◌, inl, inr, Bool-cases, refl, ap, subst, Bool, true, false, leb, Option,
  none, some, arith, List,
}
use fog_prime.Table.{HashTable}
use fog_prime.Desync.AutoHostlist.{
  HostFail, host_fail_pool_add, host_fail_pool_new, find_or_add, Lists, Outside, count_failure,
  auto_hostlist_failed, recheck_and_add,
}

abbrev pub count_of : Option HostFail → ℕ
count_of none = 0
count_of (some e) = e.counter

-- The counter, if there is one, does not expire before `deadline`.
abbrev pub IsLate : ℕ → Option HostFail → Type 0
IsLate deadline none = Unit
IsLate deadline (some e) = deadline ≤ e.expire

module _ (Hosts : HashTable (List ℕ) ℕ) (Fails : HashTable (List ℕ) HostFail)
    (threshold fail_time : ℕ) (host : List ℕ) (no_subdom : Bool) where
  abbrev pub failed : Outside Hosts → Fails.Table × Lists Hosts → Fails.Table × Lists Hosts
  failed o s = auto_hostlist_failed Hosts Fails o threshold fail_time host no_subdom s

  -- The element that is found or made: from there on, the code counts the failure.
  record Entered (o : Outside Hosts) (s : Fails.Table × Lists Hosts) : Type 0 where
    pub table : Fails.Table
    pub element : HostFail
    pub found : Fails.find table host ≡ some element
    pub same_count : element.counter ≡ count_of (Fails.find s.0 host)
    pub late :
        (deadline : ℕ)
        → IsLate deadline (Fails.find s.0 host)
        → deadline ≤ o.now + fail_time
        → deadline ≤ element.expire
    pub others : (j : List ℕ) → Fails.key_eq host j ≡ false → Fails.find table j ≡ Fails.find s.0 j
    pub goes_on :
        find_or_add Hosts Fails o fail_time host s.0 (Fails.find s.0 host) ≡ some (table, element)

  same_key : Fails.key_eq host host ≡ true
  same_key = (Fails.key_eq_iff host host).1 refl

  enter_found :
      (o : Outside Hosts) (s : Fails.Table × Lists Hosts) (e : HostFail)
      → Fails.find s.0 host ≡ some e
      → Entered o s
  unfolding find_or_add
  enter_found o s e h = record {
    table = s.0;
    element = e;
    found = h;
    same_count = rw h refl;
    late = λ d l _. subst (IsLate d) h l;
    others = λ j _. refl;
    goes_on = rw h refl;
  }

  enter :
      (o : Outside Hosts) (s : Fails.Table × Lists Hosts) (x : Option HostFail)
      → o.fail_memory ≡ true
      → Fails.find s.0 host ≡ x
      → Entered o s
  unfolding find_or_add host_fail_pool_add
  enter o s (some e) m h = enter_found o s e h
  enter o s none m h = record {
    table = Fails.add s.0 host (host_fail_pool_new o.now fail_time);
    element = host_fail_pool_new o.now fail_time;
    found = rw (Fails.find-add s.0 host (host_fail_pool_new o.now fail_time) host h, same_key) refl;
    same_count = rw h refl;
    late = λ d _ l. l;
    others = λ j d. rw (Fails.find-add s.0 host (host_fail_pool_new o.now fail_time) j h, d) refl;
    goes_on = rw (h, m) refl;
  }

  failed_lem :
      (o : Outside Hosts) (s : Fails.Table × Lists Hosts) (e : Entered o s)
      → failed o s
        ≡ count_failure Hosts Fails o threshold host no_subdom s (some (e.table, e.element))
  unfolding auto_hostlist_failed
  failed_lem o s e = ap (count_failure Hosts Fails o threshold host no_subdom s) e.goes_on

  pub step_below :
      (o : Outside Hosts) (s : Fails.Table × Lists Hosts) (k : ℕ)
      → o.fail_memory ≡ true
      → count_of (Fails.find s.0 host) ≡ k
      → k + 1 < threshold
      → (count_of (Fails.find (failed o s).0 host) ≡ k + 1)
        × ((failed o s).1 ≡ s.1)
        × ((deadline : ℕ)
            → IsLate deadline (Fails.find s.0 host)
            → deadline ≤ o.now + fail_time
            → IsLate deadline (Fails.find (failed o s).0 host))
  unfolding count_failure
  step_below o s k m c h =
      let e = enter o s (Fails.find s.0 host) m refl in
      let new = record (e.element) { counter = e.element.counter + 1 } in
      let below : leb threshold (e.element.counter + 1) ≡ false =
        ground (arith, e.same_count, c, h) in
      rw (failed_lem o s e, below)
        (rw (Fails.find-store e.table host new e.element host e.found, same_key)
          (omega (arith, e.same_count, c), refl, λ d l le. e.late d l le))

  pub step_at :
      (o : Outside Hosts) (s : Fails.Table × Lists Hosts) (k : ℕ)
      → o.fail_memory ≡ true
      → count_of (Fails.find s.0 host) ≡ k
      → threshold ≤ k + 1
      → (Fails.find (failed o s).0 host ≡ none)
        × ((failed o s).1 ≡ recheck_and_add Hosts o s.1 host no_subdom)
  unfolding count_failure
  step_at o s k m c h =
      let e = enter o s (Fails.find s.0 host) m refl in
      let new = record (e.element) { counter = e.element.counter + 1 } in
      let reached : leb threshold (e.element.counter + 1) ≡ true =
        ground (arith, e.same_count, c, h) in
      rw (failed_lem o s e, reached)
        (rw (Fails.find-del (Fails.store e.table host new) host host, same_key) refl, refl)

  -- Without memory for an element, nothing is counted.
  may_enter :
      (o : Outside Hosts) (s : Fails.Table × Lists Hosts) (x : Option HostFail)
      → Fails.find s.0 host ≡ x
      → Entered o s ⊎ (failed o s ≡ s)
  unfolding auto_hostlist_failed find_or_add count_failure
  may_enter o s (some e) h = inl (enter_found o s e h)
  may_enter o s none h = elim (Bool-cases o.fail_memory) [
    | inl m ↦ inl (enter o s none m h)
    | inr m ↦ inr (rw (h, m) refl)
  ]

  pub step_lists :
      (o : Outside Hosts) (s : Fails.Table × Lists Hosts)
      → ((failed o s).1 ≡ s.1) ⊎ ((failed o s).1 ≡ recheck_and_add Hosts o s.1 host no_subdom)
  unfolding count_failure
  step_lists o s = elim (may_enter o s (Fails.find s.0 host) refl) [
    | inr same ↦ inl (ap (λ r. r.1) same)
    | inl e ↦ elim (Bool-cases (leb threshold (e.element.counter + 1))) [
      | inl q ↦ inr (rw (failed_lem o s e, q) refl)
      | inr q ↦ inl (rw (failed_lem o s e, q) refl)
    ]
  ]

  pub step_others :
      (o : Outside Hosts) (s : Fails.Table × Lists Hosts) (j : List ℕ)
      → Fails.key_eq host j ≡ false
      → Fails.find (failed o s).0 j ≡ Fails.find s.0 j
  unfolding count_failure
  step_others o s j d = elim (may_enter o s (Fails.find s.0 host) refl) [
    | inr same ↦ ap (λ r. Fails.find r.0 j) same
    | inl e ↦
        let new = record (e.element) { counter = e.element.counter + 1 } in
        let stored = Fails.find-store e.table host new e.element j e.found in
        elim (Bool-cases (leb threshold (e.element.counter + 1))) [
          | inl q ↦
              rw
                (
                  failed_lem o s e,
                  q,
                  Fails.find-del (Fails.store e.table host new) host j,
                  d,
                  stored,
                  d,
                )
                (e.others j d)
          | inr q ↦ rw (failed_lem o s e, q, stored, d) (e.others j d)
        ]
  ]
