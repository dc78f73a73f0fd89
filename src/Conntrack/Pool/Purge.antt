-- ===== src/Conntrack/Pool/Purge.antt =====
-- What ConntrackPoolPurge and ConntrackPoolDrop remove.
use fog_prime.Base.{
  ℕ, ◌+◌, ◌≤◌, ◌<◌, ◌≡◌, ◌≢◌, ◌↔◌, refl, sym, ◌∙◌, Bool, true, false, not, leb, Option, none, some,
  arith, Option-cases, Bool-cases, inl, inr, ◌⊎◌,
}
use fog_prime.Table.{HashTable, kept}
use fog_prime.Net.Headers.{Packet}
use fog_prime.Conntrack.Conn.{Conn, connswap, conntrack_extract_conn}
use fog_prime.Conntrack.Track.{ConnState, syn, established, fin, Ctrack}
use fog_prime.Conntrack.Pool.{
  ConntrackPool, conntrack_pool_purge, conntrack_pool_drop, conntrack_pool_double_search, timed_out,
}
use fog_prime.Conntrack.Pool.Flow.{OneWay, IsDirected, search_hit, search_miss}

module _ (H : HashTable Conn Ctrack) where
  kept_iff :
      (p : Conn → Ctrack → Bool) (c : Conn) (v : Ctrack) (o : Option Ctrack)
      → (kept p c o ≡ some v) ↔ ((o ≡ some v) × (p c v ≡ true))
  kept_iff p c v none = (λ e. cc, λ e. cc e.0)
  kept_iff p c v (some w) = elim (Bool-cases (p c w)) [
    | inl e ↦ rw e (λ q. (q, cc), λ q. q.0)
    | inr e ↦ rw e (λ q. cc, λ q. cc)
  ]

  kept-none :
      (p : Conn → Ctrack → Bool) (c : Conn) (o : Option Ctrack) → o ≡ none → kept p c o ≡ none
  kept-none p c none e = refl
  kept-none p c (some w) e = cc

  -- The timeout of a TCP connection goes by its state.
  abbrev pub tcp_timeout : ConntrackPool H → ConnState → ℕ
  tcp_timeout p syn = p.timeout_syn
  tcp_timeout p established = p.timeout_established
  tcp_timeout p fin = p.timeout_fin

  -- Cut off, or TCP (6) or UDP (17) and without a packet for the timeout.
  abbrev pub IsStale : ℕ → ConntrackPool H → Conn → Ctrack → Type 0
  IsStale now p c t =
      (t.app.b_cutoff ≡ true)
      ⊎ (((c.l4proto ≡ 6) × (t.t_last + tcp_timeout p t.state ≤ now))
          ⊎ ((c.l4proto ≡ 17) × (t.t_last + p.timeout_udp ≤ now)))

  tcp_test :
      (now : ℕ) (p : ConntrackPool H) (last : ℕ) (s : ConnState)
      → (elim s [
        | syn ↦ leb (last + p.timeout_syn) now
        | established ↦ leb (last + p.timeout_established) now
        | fin ↦ leb (last + p.timeout_fin) now
      ])
        ≡ leb (last + tcp_timeout p s) now
  tcp_test now p last syn = refl
  tcp_test now p last established = refl
  tcp_test now p last fin = refl

  to_stale :
      (now : ℕ) (p : ConntrackPool H) (c : Conn) (t : Ctrack)
      → timed_out H now p c t ≡ true
      → IsStale now p c t
  unfolding timed_out
  to_stale now p c t e = ground (arith, tcp_test now p t.t_last t.state)

  from_stale :
      (now : ℕ) (p : ConntrackPool H) (c : Conn) (t : Ctrack)
      → IsStale now p c t
      → timed_out H now p c t ≡ true
  unfolding timed_out
  from_stale now p c t (inl x) = rw x refl
  from_stale now p c t (inr (inl (l4, le))) = ground (arith, tcp_test now p t.t_last t.state)
  from_stale now p c t (inr (inr (l4, le))) = ground arith

  not-IsStale :
      (now : ℕ) (p : ConntrackPool H) (c : Conn) (t : Ctrack)
      → (timed_out H now p c t ≡ false) ↔ (IsStale now p c t → ⊥)
  not-IsStale now p c t = (
    λ e s. cc (from_stale now p c t s),
    λ n. elim (Bool-cases (timed_out H now p c t)) [
      | inl e ↦ absurd (n (to_stale now p c t e))
      | inr e ↦ e
    ],
  )

  -- A purge is due once the interval has passed since the last one. If it is not due, nothing
  -- changes. If it is, the time is noted, and the tracks that stay are exactly those that were there
  -- and were neither cut off nor without a packet for the timeout of their protocol and, for TCP,
  -- their state. Either way no connection becomes tracked in both directions.
  pub purge_lem :
      (now : ℕ) (p : ConntrackPool H)
      → let p' = conntrack_pool_purge H now p in
        (now < p.t_last_purge + p.t_purge_interval → p' ≡ p)
        × (p.t_last_purge + p.t_purge_interval ≤ now
            → (p'.t_last_purge ≡ now)
              × ((c : Conn) (v : Ctrack)
                  → (H.find p'.pool c ≡ some v)
                    ↔ ((H.find p.pool c ≡ some v) × (IsStale now p c v → ⊥))))
        × (OneWay H p.pool → OneWay H p'.pool)
  purge_lem now p = elim (Bool-cases (leb (p.t_last_purge + p.t_purge_interval) now)) [
    | inr e ↦ rw (late e) (λ _. refl, λ h. absurd (ground arith), λ o. o)
    | inl e ↦ rw (due e) (
      λ h. absurd (ground arith),
      λ _. (refl, λ c v. left c v),
      λ o c ne. (elim (o c ne) [
        | inl n ↦ inl (H.find-keep live p.pool c ∙ kept-none live c (H.find p.pool c) n)
        | inr n ↦ inr (
            H.find-keep live p.pool (connswap c)
            ∙ kept-none live (connswap c) (H.find p.pool (connswap c)) n)
      ]),
    )
  ]
    where
      live : Conn → Ctrack → Bool
      live = λ c t. not (timed_out H now p c t)

      due :
          leb (p.t_last_purge + p.t_purge_interval) now ≡ true
          → conntrack_pool_purge H now p
            ≡ (record p { t_last_purge = now; pool = H.keep live p.pool })
      due e = unfold conntrack_pool_purge in rw (e, conntrack_pool_purge)

      late :
          leb (p.t_last_purge + p.t_purge_interval) now ≡ false → conntrack_pool_purge H now p ≡ p
      late e = unfold conntrack_pool_purge in rw (e, conntrack_pool_purge)

      left :
          (c : Conn) (v : Ctrack)
          → (H.find (H.keep live p.pool) c ≡ some v)
            ↔ ((H.find p.pool c ≡ some v) × (IsStale now p c v → ⊥))
      left c v =
          let k = kept_iff live c v (H.find p.pool c) in
          (
            λ e. (
              (k.0 (sym (H.find-keep live p.pool c) ∙ e)).0,
              (not-IsStale now p c v).0
                  (ground (arith, (k.0 (sym (H.find-keep live p.pool c) ∙ e)).1)),
            ),
            λ e.
                H.find-keep live p.pool c
                ∙ k.1 (e.0, ground (arith, (not-IsStale now p c v).1 e.1)),
          )

  -- For a packet whose key is not the same with source and destination exchanged, and a table in which
  -- no connection is tracked in both directions, dropping the packet's connection succeeds exactly if
  -- a search finds it; afterwards no search does, and every other connection's track is as before.
  pub drop_lem :
      (p : Packet) (t : H.Table)
      → OneWay H t
      → IsDirected H p
      → let (dropped, t') = conntrack_pool_drop H p t in
        ((dropped ≡ true) ↔ (conntrack_pool_double_search H p t ≢ none))
        × (conntrack_pool_double_search H p t' ≡ none)
        × ((j : Conn)
            → j ≢ conntrack_extract_conn false p
            → j ≢ connswap (conntrack_extract_conn false p)
            → H.find t' j ≡ H.find t j)
  drop_lem p t o dir = elim (Option-cases (H.find t c)) [
    | inr (v, e) ↦ rw (hit v e) (
      (λ _ n. cc (search_hit H p t v e), λ _. refl),
      gone c (find-del_self c)
          (elim (o c dir) [ inl n ↦ cc | inr n ↦ find-del_none c (connswap c) n ]),
      λ j n n'. find-del_ne c j n,
    )
    | inl e ↦ elim (Option-cases (H.find t (connswap c))) [
      | inr (v, e') ↦ rw (miss v e e') (
        (λ _ n. cc (search_miss H p t v e e'), λ _. refl),
        gone (connswap c) (find-del_none (connswap c) c e) (find-del_self (connswap c)),
        λ j n n'. find-del_ne (connswap c) j n',
      )
      | inl e' ↦
          rw (none_there e e')
            ((λ q. cc, λ n. absurd (n (search_none t e e'))), search_none t e e', λ j n n'. refl)
    ]
  ]
    where
      c : Conn
      c = conntrack_extract_conn false p

      search_none :
          (t' : H.Table)
          → H.find t' c ≡ none
          → H.find t' (connswap c) ≡ none
          → conntrack_pool_double_search H p t' ≡ none
      search_none t' e e' =
          unfold conntrack_pool_double_search in rw (e, e', conntrack_pool_double_search)

      find-del_self : (k : Conn) → H.find (H.del t k) k ≡ none
      find-del_self k = H.find-del t k k ∙ (rw ((H.key_eq_iff k k).1 refl))

      find-del_none : (k j : Conn) → H.find t j ≡ none → H.find (H.del t k) j ≡ none
      find-del_none k j n = ground (arith, H.find-del t k j)

      find-del_ne : (k j : Conn) → j ≢ k → H.find (H.del t k) j ≡ H.find t j
      find-del_ne k j n = ground (arith, H.find-del t k j, H.key_eq_iff k j)

      gone :
          (k : Conn)
          → H.find (H.del t k) c ≡ none
          → H.find (H.del t k) (connswap c) ≡ none
          → conntrack_pool_double_search H p (H.del t k) ≡ none
      gone k e e' = search_none (H.del t k) e e'

      hit : (v : Ctrack) → H.find t c ≡ some v → conntrack_pool_drop H p t ≡ (true, H.del t c)
      hit v e = unfold conntrack_pool_drop in rw (e, conntrack_pool_drop)

      miss :
          (v : Ctrack)
          → H.find t c ≡ none
          → H.find t (connswap c) ≡ some v
          → conntrack_pool_drop H p t ≡ (true, H.del t (connswap c))
      miss v e e' = unfold conntrack_pool_drop in rw (e, e', conntrack_pool_drop)

      none_there :
          H.find t c ≡ none → H.find t (connswap c) ≡ none → conntrack_pool_drop H p t ≡ (false, t)
      none_there e e' = unfold conntrack_pool_drop in rw (e, e', conntrack_pool_drop)
