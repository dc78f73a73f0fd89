-- ===== src/Desync/AutoHostlist/Retrans/Count.antt =====
-- How often the trigger of the retransmissions fires.
use fog_prime.Base.{
  ℕ, ◌+◌, ◌<◌, ◌≤◌, ◌≡◌, refl, sym, ◌∙◌, subst, Bool, true, false, not, ◌&&◌, ◌||◌, ◌==◌, leb, ltb,
  some, arith, List, if◌then◌else◌, u8, zero, suc, Bool-cases, inl, inr,
}
use fog_prime.Table.{HashTable}
use fog_prime.Conntrack.Track.{Ctrack}
use fog_prime.Desync.Profile.{Profile}
use fog_prime.Desync.Cutoff.{set_cutoffs, maybe_cutoff}
use fog_prime.Desync.Cutoff.Window.{maybe_gen}
use fog_prime.Desync.AutoHostlist.Retrans.{
  retrans_counter_stop, set_retrans_counter, ctrack_stop_retrans_counter, count_retrans,
  is_counting, in_request, auto_hostlist_retrans,
}
use fog_prime.Desync.AutoHostlist.{HostFail}

module _ (dps : ℕ → Profile) where
  if_true : {A : Type 0} (b : Bool) (x y : A) → b ≡ true → (if b then x else y) ≡ x
  if_true b x y e = rw e refl

  if_false : {A : Type 0} (b : Bool) (x y : A) → b ≡ false → (if b then x else y) ≡ y
  if_false b x y e = rw e refl

  -- A packet that the code counts as a retransmission, where the counter has not stopped.
  abbrev pub is_retrans : Bool → Ctrack → Bool
  is_retrans is_tcp t =
      not is_tcp || t.app.req_seq_finalized && not t.app.req_seq_abandoned && in_request dps t

  module _ (Fails : HashTable (List ℕ) HostFail) (i threshold : ℕ) (is_tcp : Bool) where
    -- After `k` retransmissions.
    pub record IsCounted (k : ℕ) (t : Ctrack) : Type 0 where
      pub profile : t.app.dp ≡ some i
      pub checked : t.app.hostname_ah_check ≡ true
      pub retrans : is_retrans is_tcp t ≡ true
      pub counter :
          t.app.req_retrans_counter ≡ (if ltb k threshold then k else retrans_counter_stop)

    abbrev pub retrans_step : Ctrack → Fails.Table → (Ctrack × Bool) × Fails.Table
    retrans_step t f = auto_hostlist_retrans dps Fails is_tcp threshold t f

    step_active :
        (t : Ctrack) (f : Fails.Table)
        → is_counting dps t ≡ true
        → is_retrans is_tcp t ≡ true
        → retrans_step t f ≡ (count_retrans dps threshold t, f)
    unfolding auto_hostlist_retrans
    step_active t f c r =
        let followed : (is_tcp && (not t.app.req_seq_finalized || t.app.req_seq_abandoned))
            ≡ false =
          ground arith in
        let inside : (is_tcp && not (in_request dps t)) ≡ false = ground arith in
        rw (c, followed, inside) refl

    step_stopped :
        (t : Ctrack) (f : Fails.Table)
        → is_counting dps t ≡ false
        → retrans_step t f ≡ ((t, false), f)
    unfolding auto_hostlist_retrans
    step_stopped t f c = rw c refl

    IsCounted-stop :
        (k : ℕ) (t : Ctrack)
        → threshold ≤ k
        → t.app.dp ≡ some i
        → t.app.hostname_ah_check ≡ true
        → is_retrans is_tcp t ≡ true
        → IsCounted k (ctrack_stop_retrans_counter dps t)
    unfolding ctrack_stop_retrans_counter maybe_cutoff set_cutoffs
    IsCounted-stop k t h p c r =
        let t' = set_retrans_counter retrans_counter_stop t in
        subst (IsCounted k)
          (sym (
            if_true t.app.hostname_ah_check (maybe_cutoff dps true t') t c
            ∙ maybe_gen dps i true t' t'.app.dp p))
          (record { profile = p; checked = c; retrans = r; counter = ground arith })

    counting :
        (k : ℕ) (t : Ctrack) → threshold < 256 → IsCounted k t → is_counting dps t ≡ ltb k threshold
    counting k t h c = rw (c.profile, c.checked) (ground (arith, c.counter))

    -- The counting below the threshold.
    count_below :
        (k : ℕ) (t : Ctrack)
        → k + 1 < threshold
        → threshold < 256
        → IsCounted k t
        → IsCounted (k + 1) (count_retrans dps threshold t).0
          × ((count_retrans dps threshold t).1 ≡ false)
    unfolding count_retrans
    count_below k t h1 h2 c =
        let n = u8 (t.app.req_retrans_counter + 1) in
        let same : t.app.req_retrans_counter ≡ k = ground (arith, c.counter) in
        let low : leb threshold n ≡ false = ground (arith, same) in
        let e =
          if_false {A = Ctrack × Bool} (leb threshold n)
            (ctrack_stop_retrans_counter dps (set_retrans_counter n t), true)
            (set_retrans_counter n t, false) low in
        rw e (
          record {
            profile = c.profile;
            checked = c.checked;
            retrans = c.retrans;
            counter = ground (arith, same);
          },
          refl,
        )

    count_at :
        (k : ℕ) (t : Ctrack)
        → k + 1 ≡ threshold
        → threshold < 256
        → IsCounted k t
        → IsCounted (k + 1) (count_retrans dps threshold t).0
          × ((count_retrans dps threshold t).1 ≡ true)
    unfolding count_retrans
    count_at k t h1 h2 c =
        let n = u8 (t.app.req_retrans_counter + 1) in
        let same : t.app.req_retrans_counter ≡ k = ground (arith, c.counter) in
        let reached : leb threshold n ≡ true = ground (arith, same) in
        let e =
          if_true {A = Ctrack × Bool} (leb threshold n)
            (ctrack_stop_retrans_counter dps (set_retrans_counter n t), true)
            (set_retrans_counter n t, false) reached in
        rw e (
          IsCounted-stop (k + 1) (set_retrans_counter n t) (omega (arith, h1)) c.profile c.checked
              c.retrans,
          refl,
        )

    count_step :
        (k : ℕ) (t : Ctrack) (f : Fails.Table)
        → 1 ≤ threshold
        → threshold < 256
        → IsCounted k t
        → IsCounted (k + 1) (retrans_step t f).0.0
          × ((retrans_step t f).0.1 ≡ (k + 1 == threshold))
          × ((retrans_step t f).1 ≡ f)
    count_step k t f h1 h2 c = elim (Bool-cases (ltb k threshold)) [
      | inr past ↦ rw (step_stopped t f (counting k t h2 c ∙ past)) (
        record {
          profile = c.profile;
          checked = c.checked;
          retrans = c.retrans;
          counter = ground (arith, c.counter, past);
        },
        ground (arith, past),
        refl,
      )
      | inl more ↦
          let e = step_active t f (counting k t h2 c ∙ more) c.retrans in
          elim (Bool-cases (k + 1 == threshold)) [
            | inl last ↦
                let (c', r) = count_at k t (ground arith) h2 c in rw e (c', r ∙ sym last, refl)
            | inr before ↦
                let (c', r) = count_below k t (ground arith) h2 c in rw e (c', r ∙ sym before, refl)
          ]
    ]

    -- After `k` calls.
    pub retrans_run : ℕ → Ctrack → Fails.Table → Ctrack × Fails.Table
    retrans_run zero t f = (t, f)
    retrans_run (suc k) t f =
        let (t', f') = retrans_run k t f in let r = retrans_step t' f' in (r.0.0, r.1)

    run_lem :
        (k : ℕ) (t : Ctrack) (f : Fails.Table)
        → 1 ≤ threshold
        → threshold < 256
        → IsCounted 0 t
        → IsCounted k (retrans_run k t f).0 × ((retrans_run k t f).1 ≡ f)
    unfolding retrans_run
    run_lem zero t f h1 h2 c = (c, refl)
    run_lem (suc k) t f h1 h2 c =
        let (c1, f1) = run_lem k t f h1 h2 c in
        let r = retrans_run k t f in
        let (c2, x, f2) = count_step k r.0 r.1 h1 h2 c1 in
        (subst (λ n. IsCounted n (retrans_step r.0 r.1).0.0) (omega arith) c2, f2 ∙ f1)

    -- For a threshold from 1 to 255 and a track whose counter is 0, with a profile, a name that was
    -- checked for the automatic list, and a packet in hand that is one of its request: of any number
    -- of retransmissions, exactly the one with the number `threshold` fires the trigger, and none
    -- resets the counters of failures.
    pub retrans_fires_once :
        (k : ℕ) (t : Ctrack) (f : Fails.Table)
        → 1 ≤ threshold
        → threshold < 256
        → t.app.dp ≡ some i
        → t.app.hostname_ah_check ≡ true
        → is_retrans is_tcp t ≡ true
        → t.app.req_retrans_counter ≡ 0
        → let r = retrans_run k t f in
          ((retrans_step r.0 r.1).0.1 ≡ (k + 1 == threshold)) × ((retrans_step r.0 r.1).1 ≡ f)
    retrans_fires_once k t f h1 h2 p a q z =
        let start : IsCounted 0 t = record {
          profile = p;
          checked = a;
          retrans = q;
          counter = ground arith;
        } in
        let (c, f1) = run_lem k t f h1 h2 start in
        let r = retrans_run k t f in let (c', x, f2) = count_step k r.0 r.1 h1 h2 c in (x, f2 ∙ f1)
