-- ===== src/Desync/AutoHostlist/Events.antt =====
-- What happens to the counters of nfq/desync.c over time: packets, each of which has the expired
-- counters purged, and failures of a name.
use fog_prime.Base.{
  ℕ, ◌+◌, ◌≤◌, ◌<◌, not, leb, ◌==◌, Bool-cases, Option, ◌≡◌, inl, inr, refl, ap, Bool, true, false,
  none, some, arith, List, [], ◌∷◌,
}
use fog_prime.Table.{HashTable, kept}
use fog_prime.Desync.AutoHostlist.{HostFail, host_fail_pool_purge_rate_limited, Lists, Outside}
use fog_prime.Desync.AutoHostlist.Failed.{IsLate, failed}

module _ (Hosts : HashTable (List ℕ) ℕ) where
  -- A packet of the profile, or of another one, arrives at a time; or the name fails.
  pub data Event : Type 0 where
    packet : ℕ → Event
    elsewhere : ℕ → Event
    failure : Outside Hosts → Event

  abbrev pub failures : List Event → ℕ
  failures [] = 0
  failures (packet now ∷ es) = failures es
  failures (elsewhere now ∷ es) = failures es
  failures (failure o ∷ es) = failures es + 1

  abbrev pub without_failures : List Event → List Event
  without_failures [] = []
  without_failures (packet now ∷ es) = packet now ∷ without_failures es
  without_failures (elsewhere now ∷ es) = elsewhere now ∷ without_failures es
  without_failures (failure o ∷ es) = without_failures es

  -- What holds of each failure.
  abbrev pub AtFailures : (Outside Hosts → Type 0) → List Event → Type 0
  AtFailures p [] = Unit
  AtFailures p (packet now ∷ es) = AtFailures p es
  AtFailures p (elsewhere now ∷ es) = AtFailures p es
  AtFailures p (failure o ∷ es) = p o × AtFailures p es

  abbrev pub HasMemory : List Event → Type 0
  HasMemory = AtFailures (λ o. o.fail_memory ≡ true)

  -- No list file has changed.
  abbrev pub IsQuiet : Lists Hosts → List Event → Type 0
  IsQuiet l = AtFailures (λ o. o.reload l ≡ (l, true))

  -- The failures and the packets of the profile all come in less than `fail_time` seconds from `start`.
  abbrev pub IsWithin : ℕ → ℕ → List Event → Type 0
  IsWithin start fail_time [] = Unit
  IsWithin start fail_time (packet now ∷ es) =
      (now < start + fail_time) × IsWithin start fail_time es
  IsWithin start fail_time (elsewhere now ∷ es) = IsWithin start fail_time es
  IsWithin start fail_time (failure o ∷ es) =
      (start ≤ o.now) × (o.now < start + fail_time) × IsWithin start fail_time es

module _ (Hosts : HashTable (List ℕ) ℕ) (Fails : HashTable (List ℕ) HostFail)
    (threshold fail_time : ℕ) (host : List ℕ) (no_subdom : Bool) where
  abbrev pub fail : Outside Hosts → Fails.Table × Lists Hosts → Fails.Table × Lists Hosts
  fail o s = failed Hosts Fails threshold fail_time host no_subdom o s

  -- The time of the last purge, the counters and the lists, after events in their order.
  unfoldable pub run_events :
      List (Event Hosts) → ℕ → Fails.Table × Lists Hosts → ℕ × (Fails.Table × Lists Hosts)
  run_events [] prev s = (prev, s)
  run_events (packet now ∷ es) prev s =
      let r = host_fail_pool_purge_rate_limited Fails now prev s.0 in run_events es r.0 (r.1, s.1)
  run_events (elsewhere now ∷ es) prev s = run_events es now s
  run_events (failure o ∷ es) prev s = run_events es prev (fail o s)

module _ (Fails : HashTable (List ℕ) HostFail) where
  -- A purge leaves a counter that does not expire before a later time.
  kept_late :
      (now deadline : ℕ) (j : List ℕ) (x : Option HostFail)
      → IsLate deadline x
      → now < deadline
      → kept (λ s e. not (leb e.expire now)) j x ≡ x
  kept_late now deadline j none late h = refl
  kept_late now deadline j (some e) late h =
      let stays : leb e.expire now ≡ false = ground arith in rw stays refl

  pub purge_late :
      (now prev deadline : ℕ) (host : List ℕ) (t : Fails.Table)
      → IsLate deadline (Fails.find t host)
      → now < deadline
      → Fails.find (host_fail_pool_purge_rate_limited Fails now prev t).1 host ≡ Fails.find t host
  unfolding host_fail_pool_purge_rate_limited
  purge_late now prev deadline host t late h = elim (Bool-cases (prev == now)) [
    | inl e ↦ rw e refl
    | inr e ↦
        rw (e, Fails.find-keep (λ s x. not (leb x.expire now)) t host)
          (kept_late now deadline host (Fails.find t host) late h)
  ]

  -- The purge of a counter depends on nothing but that counter.
  pub purge_same :
      (now prev : ℕ) (t u : Fails.Table) (j : List ℕ)
      → Fails.find t j ≡ Fails.find u j
      → Fails.find (host_fail_pool_purge_rate_limited Fails now prev t).1 j
        ≡ Fails.find (host_fail_pool_purge_rate_limited Fails now prev u).1 j
  unfolding host_fail_pool_purge_rate_limited
  purge_same now prev t u j same = elim (Bool-cases (prev == now)) [
    | inl e ↦ rw e same
    | inr e ↦
        let p : List ℕ → HostFail → Bool = λ s x. not (leb x.expire now) in
        rw (e, Fails.find-keep p t j, Fails.find-keep p u j) (ap (kept p j) same)
  ]

  pub purge_prev :
      (now prev : ℕ) (t u : Fails.Table)
      → (host_fail_pool_purge_rate_limited Fails now prev t).0
        ≡ (host_fail_pool_purge_rate_limited Fails now prev u).0
  unfolding host_fail_pool_purge_rate_limited
  purge_prev now prev t u = elim (Bool-cases (prev == now)) [
    | inl e ↦ rw e refl
    | inr e ↦ rw e refl
  ]
