-- ===== src/Desync/AutoHostlist/Learning.antt =====
-- Repeated failures of a name, and when it gets on the automatic host list.
use fog_prime.Base.{
  ℕ, ◌+◌, ◌<◌, ◌≡◌, inl, inr, refl, sym, ap, ◌∙◌, subst, Bool, true, false, ◌||◌, none, some, arith,
  List, [], ◌∷◌, ◌++◌,
}
use fog_prime.Table.{HashTable}
use fog_prime.Hostlist.{any_list, hostlist_check}
use fog_prime.Desync.AutoHostlist.{
  HostFail, host_fail_pool_purge_rate_limited, Lists, Outside, hl_collection, recheck_and_add,
}
use fog_prime.Desync.AutoHostlist.Failed.{
  count_of, IsLate, failed, step_below, step_at, step_lists, step_others,
}
use fog_prime.Desync.AutoHostlist.Recheck.{
  recheck_added, recheck_unloaded, excluded_checked, recheck_kept, learned_checked,
}
use fog_prime.Desync.AutoHostlist.Events.{
  Event, packet, elsewhere, failure, failures, without_failures, HasMemory, IsQuiet, IsWithin,
  run_events, purge_late, purge_same, purge_prev,
}

module _ (Hosts : HashTable (List ℕ) ℕ) (Fails : HashTable (List ℕ) HostFail)
    (threshold fail_time : ℕ) (host : List ℕ) (no_subdom : Bool) where
  abbrev step : Outside Hosts → Fails.Table × Lists Hosts → Fails.Table × Lists Hosts
  step o s = failed Hosts Fails threshold fail_time host no_subdom o s

  abbrev after :
      List (Event Hosts) → ℕ → Fails.Table × Lists Hosts → ℕ × (Fails.Table × Lists Hosts)
  after es prev s = run_events Hosts Fails threshold fail_time host no_subdom es prev s

  below :
      (es : List (Event Hosts)) (prev : ℕ) (s : Fails.Table × Lists Hosts) (k start : ℕ)
      → HasMemory Hosts es
      → IsWithin Hosts start fail_time es
      → count_of (Fails.find s.0 host) ≡ k
      → IsLate (start + fail_time) (Fails.find s.0 host)
      → k + failures Hosts es < threshold
      → (count_of (Fails.find (after es prev s).1.0 host) ≡ k + failures Hosts es)
        × ((after es prev s).1.1 ≡ s.1)
  unfolding run_events
  below [] prev s k start m w c late h = (omega (arith, c), refl)
  below (packet now ∷ es) prev s k start m (lt, w) c late h =
      let r = host_fail_pool_purge_rate_limited Fails now prev s.0 in
      let same = purge_late Fails now prev (start + fail_time) host s.0 late lt in
      below es r.0 (r.1, s.1) k start m w (ap count_of same ∙ c)
        (subst (IsLate (start + fail_time)) (sym same) late) h
  below (elsewhere now ∷ es) prev s k start m w c late h = below es now s k start m w c late h
  below (failure o ∷ es) prev s k start (m, ms) (le, _, w) c late h =
      let (c1, l1, late1) =
        step_below Hosts Fails threshold fail_time host no_subdom o s k m c (omega (arith, h)) in
      let (c2, l2) =
        below es prev (step o s) (k + 1) start ms w c1
          (late1 (start + fail_time) late (omega (arith, le))) (omega (arith, h)) in
      (omega (arith, c2), l2 ∙ l1)

  -- For a name without a counter, which the lists of the profile neither have nor exclude, and an
  -- automatic list that is not a null pointer: when the name fails as often as the threshold says, all
  -- these failures and the packets of the profile in between, which have expired counters purged, come
  -- within the fail time from some moment on, no success resets the counter in between, there is
  -- memory for the counter each time, and the last time for the list, its file is writable and no list
  -- file has changed, then the lists stay as they were up to the last failure; after it the counter is
  -- gone, the name's line is the last of the file, and the check accepts the name.
  pub learned_at_threshold :
      (es : List (Event Hosts)) (o : Outside Hosts) (prev start : ℕ) (s : Fails.Table × Lists Hosts)
      (a : Hosts.Table)
      → HasMemory Hosts (failure o ∷ es)
      → IsWithin Hosts start fail_time (failure o ∷ es)
      → o.list_memory ≡ true
      → o.writable ≡ true
      → o.reload s.1 ≡ (s.1, true)
      → failures Hosts es + 1 ≡ threshold
      → Fails.find s.0 host ≡ none
      → s.1.auto ≡ some a
      → hostlist_check (hl_collection Hosts s.1) s.1.exclude host no_subdom ≡ (false, false)
      → let r = (after es prev s).1 in
        let r' = step o r in
        (r.1 ≡ s.1)
        × (Fails.find r'.0 host ≡ none)
        × (r'.1.file ≡ s.1.file ++ host ∷ [])
        × (hostlist_check (hl_collection Hosts r'.1) r'.1.exclude host no_subdom ≡ (true, false))
  learned_at_threshold es o prev start s a (m, ms) (_, _, w) lm wr q n f e c =
      let (cnt, same) =
        below es prev s 0 start ms w (rw f refl) (subst (IsLate (start + fail_time)) (sym f) tt)
          (omega (arith, n)) in
      let r = (after es prev s).1 in
      let (gone, then_) =
        step_at Hosts Fails threshold fail_time host no_subdom o r (0 + failures Hosts es) m cnt
          (omega (arith, n)) in
      let known =
        then_
        ∙ ap (λ l. recheck_and_add Hosts o l host no_subdom) same
        ∙ recheck_added Hosts o host no_subdom s.1 a e q lm wr c in
      (
        same,
        gone,
        ap (λ l. l.file) known,
        rw known (learned_checked Hosts o host no_subdom s.1 a e c),
      )

  -- Two runs of which the counter of another name cannot be told apart.
  others_same :
      (es : List (Event Hosts)) (prev prev' : ℕ) (s u : Fails.Table × Lists Hosts) (j : List ℕ)
      → prev ≡ prev'
      → Fails.key_eq host j ≡ false
      → Fails.find s.0 j ≡ Fails.find u.0 j
      → Fails.find (after es prev s).1.0 j
        ≡ Fails.find (after (without_failures Hosts es) prev' u).1.0 j
  unfolding run_events
  others_same [] prev prev' s u j q d same = same
  others_same (packet now ∷ es) prev prev' s u j q d same =
      let r = host_fail_pool_purge_rate_limited Fails now prev s.0 in
      let r' = host_fail_pool_purge_rate_limited Fails now prev' u.0 in
      others_same es r.0 r'.0 (r.1, s.1) (r'.1, u.1) j
        (purge_prev Fails now prev s.0 u.0
          ∙ ap (λ p. (host_fail_pool_purge_rate_limited Fails now p u.0).0) q)
        d
        (purge_same Fails now prev s.0 u.0 j same
          ∙ ap (λ p. Fails.find (host_fail_pool_purge_rate_limited Fails now p u.0).1 j) q)
  others_same (elsewhere now ∷ es) prev prev' s u j q d same =
      others_same es now now s u j refl d same
  others_same (failure o ∷ es) prev prev' s u j q d same =
      others_same es prev prev' (step o s) u j q d
        (step_others Hosts Fails threshold fail_time host no_subdom o s j d ∙ same)

  lists_stay :
      (es : List (Event Hosts)) (prev : ℕ) (s : Fails.Table × Lists Hosts) (a : Hosts.Table)
      (b x : Bool)
      → IsQuiet Hosts s.1 es
      → s.1.auto ≡ some a
      → hostlist_check (hl_collection Hosts s.1) s.1.exclude host no_subdom ≡ (b, x)
      → (b || x) ≡ true
      → (after es prev s).1.1 ≡ s.1
  unfolding run_events
  lists_stay [] prev s a b x q e c h = refl
  lists_stay (packet now ∷ es) prev s a b x q e c h =
      let r = host_fail_pool_purge_rate_limited Fails now prev s.0 in
      lists_stay es r.0 (r.1, s.1) a b x q e c h
  lists_stay (elsewhere now ∷ es) prev s a b x q e c h = lists_stay es now s a b x q e c h
  lists_stay (failure o ∷ es) prev s a b x (q, qs) e c h =
      let kept : (step o s).1 ≡ s.1 =
        elim (step_lists Hosts Fails threshold fail_time host no_subdom o s) [
          | inl same ↦ same
          | inr r ↦ r ∙ recheck_kept Hosts o host no_subdom s.1 a b x e q c h
        ] in
      lists_stay es prev (step o s) a b x (subst (λ l. IsQuiet Hosts l es) (sym kept) qs)
        (rw kept e) (rw kept c) h
      ∙ kept

  -- As long as no list file changes and the automatic list is not a null pointer, a name that the
  -- lists of the profile have or exclude never changes the lists, however often it fails, whether
  -- there is memory or not and whatever packets come in between; and its failures change the counter
  -- of no other name, which is as after the other packets alone.
  pub protected_stays :
      (es : List (Event Hosts)) (prev : ℕ) (s : Fails.Table × Lists Hosts) (a : Hosts.Table)
      (b x : Bool)
      → IsQuiet Hosts s.1 es
      → s.1.auto ≡ some a
      → hostlist_check (hl_collection Hosts s.1) s.1.exclude host no_subdom ≡ (b, x)
      → (b || x) ≡ true
      → ((after es prev s).1.1 ≡ s.1)
        × ((j : List ℕ)
            → Fails.key_eq host j ≡ false
            → Fails.find (after es prev s).1.0 j
              ≡ Fails.find (after (without_failures Hosts es) prev s).1.0 j)
  protected_stays es prev s a b x q e c h =
      (lists_stay es prev s a b x q e c h, λ j d. others_same es prev prev s s j refl d refl)

  -- When a list file has changed and cannot be loaded at the failure that reaches the threshold, and
  -- the automatic list is then not a null pointer and does not have the name, while a list that is
  -- in memory excludes the name, the name is added to the automatic list and its file, with memory
  -- for the counter and the list and the file writable; the check then still excludes it.
  pub learned_unchecked :
      (o : Outside Hosts) (s : Fails.Table × Lists Hosts) (l' : Lists Hosts) (a : Hosts.Table)
      → o.fail_memory ≡ true
      → o.list_memory ≡ true
      → o.writable ≡ true
      → o.reload s.1 ≡ (l', false)
      → l'.auto ≡ some a
      → Hosts.find a host ≡ none
      → any_list l'.exclude host no_subdom ≡ true
      → count_of (Fails.find s.0 host) + 1 ≡ threshold
      → let r = step o s in
        (r.1.auto ≡ some (Hosts.add a host 0))
        × (r.1.file ≡ l'.file ++ host ∷ [])
        × (hostlist_check (hl_collection Hosts r.1) r.1.exclude host no_subdom ≡ (false, true))
  learned_unchecked o s l' a m lm w q e n x c =
      let (gone, then_) =
        step_at Hosts Fails threshold fail_time host no_subdom o s (count_of (Fails.find s.0 host))
          m refl (omega (arith, c)) in
      let known = then_ ∙ recheck_unloaded Hosts o host no_subdom s.1 l' a q e n lm w in
      (
        ap (λ l. l.auto) known,
        ap (λ l. l.file) known,
        rw known (
            excluded_checked Hosts o host no_subdom
              (record l' { auto = some (Hosts.add a host 0); file = l'.file ++ host ∷ [] }) x),
      )
