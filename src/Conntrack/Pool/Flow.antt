-- ===== src/Conntrack/Pool/Flow.antt =====
-- One track for each flow: the two directions of a connection find the same track.
use fog_prime.Base.{
  ℕ, ◌≡◌, ◌≢◌, refl, sym, ap, ◌∙◌, Bool, true, false, not, ◌||◌, if◌then◌else◌, Option, none, some,
  arith, Option-cases, Bool-cases, inl, inr, ◌⊎◌,
}
use mathlib.Core.Option
use fog_prime.Table.{HashTable}
use fog_prime.Net.Headers.{Packet, tcp_syn_segment, tcp_synack_segment}
use fog_prime.Conntrack.Conn.{Conn, connswap, conntrack_extract_conn, connswap-connswap}
use fog_prime.Conntrack.Track.{Ctrack, conntrack_init_track, conntrack_feed_packet}
use fog_prime.Conntrack.Pool.{
  conntrack_pool_double_search, conntrack_pool_feed, feed_unknown, feed_found, feed_created,
  conntrack_new, tcp_and, present,
}

module _ (H : HashTable Conn Ctrack) where
  -- No connection is tracked in both directions.
  abbrev pub OneWay : H.Table → Type 0
  OneWay t = (c : Conn) → c ≢ connswap c → (H.find t c ≡ none) ⊎ (H.find t (connswap c) ≡ none)

  -- The packet's connection is not its own reverse.
  abbrev pub IsDirected : Packet → Type 0
  IsDirected p = conntrack_extract_conn false p ≢ connswap (conntrack_extract_conn false p)

  -- A write to a track that is there leaves the keys as they are.
  module _ (t : H.Table) (k : Conn) (v w : Ctrack) (h : H.find t k ≡ some w) where
    find-store_self : H.find (H.store t k v) k ≡ some v
    find-store_self = ground (arith, H.find-store t k v w k h, H.key_eq_iff k k)

    find-store_none : (j : Conn) → H.find t j ≡ none → H.find (H.store t k v) j ≡ none
    find-store_none j e = ground (arith, H.find-store t k v w j h, H.key_eq_iff k j)

    store-OneWay : OneWay t → OneWay (H.store t k v)
    store-OneWay o c ne = elim (o c ne) [
      | inl e ↦ inl (find-store_none c e)
      | inr e ↦ inr (find-store_none (connswap c) e)
    ]

  -- A new key whose reverse is not there.
  module _ (t : H.Table) (k : Conn) (v : Ctrack) (h : H.find t k ≡ none) where
    find-add_self : H.find (H.add t k v) k ≡ some v
    find-add_self = ground (arith, H.find-add t k v k h, H.key_eq_iff k k)

    find-add_ne : (j : Conn) → k ≢ j → H.find (H.add t k v) j ≡ H.find t j
    find-add_ne j ne = ground (arith, H.find-add t k v j h, H.key_eq_iff k j)

    add-OneWay : H.find t (connswap k) ≡ none → OneWay t → OneWay (H.add t k v)
    add-OneWay h' o c ne = elim (Bool-cases (H.key_eq k c)) [
      | inl e ↦
          let same : k ≡ c = (H.key_eq_iff k c).0 e in
          inr (rw (find-add_ne (connswap c) (λ q. ne (sym same ∙ q))) (rw same at h'))
      | inr e ↦
          let other : k ≢ c = λ q. cc ((H.key_eq_iff k c).1 q) in
          elim (Bool-cases (H.key_eq k (connswap c))) [
            | inl e' ↦
                let same : connswap k ≡ c =
                  ap connswap ((H.key_eq_iff k (connswap c)).0 e') ∙ connswap-connswap c in
                inl (find-add_ne c other ∙ (rw same at h'))
            | inr e' ↦
                let other' : k ≢ connswap c = λ q. cc ((H.key_eq_iff k (connswap c)).1 q) in
                (elim (o c ne) [
                  | inl q ↦ inl (find-add_ne c other ∙ q)
                  | inr q ↦ inr (find-add_ne (connswap c) other' ∙ q)
                ])
          ]
    ]

  -- What a feed that returns true leaves: the track is there, under the packet's key or the swapped
  -- one as the direction says, and no connection is tracked in both directions.
  abbrev pub Fed : Packet → Option (Conn × Bool) × H.Table → Type 0
  Fed p (none, t') = OneWay t'
  Fed p (some (k, rev), t') =
      OneWay t'
      × ((v : Ctrack) × (H.find t' k ≡ some v))
      × (k ≡ (
          if rev
          then connswap (conntrack_extract_conn false p)
          else conntrack_extract_conn false p))

  feed_created-Fed :
      (now : ℕ) (rev : Bool) (p : Packet) (len : ℕ) (mem : Bool) (k : Conn) (t : H.Table)
      → OneWay t
      → H.find t k ≡ none
      → H.find t (connswap k) ≡ none
      → k ≡ (
          if rev then connswap (conntrack_extract_conn false p) else conntrack_extract_conn false p)
      → Fed p (feed_created H now rev p len k (conntrack_new H mem now k t) t)
  unfolding feed_created conntrack_new feed_found
  feed_created-Fed now rev p len false k t o h h' e = o
  feed_created-Fed now rev p len true k t o h h' e =
      let t1 = H.add t k (conntrack_init_track now) in
      let found = find-add_self t k (conntrack_init_track now) h in
      (
        store-OneWay t1 k (conntrack_feed_packet now rev p.tcp len (conntrack_init_track now))
            (conntrack_init_track now) found (add-OneWay t k (conntrack_init_track now) h h' o),
        (
          conntrack_feed_packet now rev p.tcp len (conntrack_init_track now),
          find-store_self t1 k (conntrack_feed_packet now rev p.tcp len (conntrack_init_track now))
              (conntrack_init_track now) found,
        ),
        e,
      )

  -- The three ways through ConntrackPoolFeedPool.
  module _ (mem : Bool) (now : ℕ) (p : Packet) (len : ℕ) (t : H.Table) where
    feed_forward :
        (v : Ctrack)
        → H.find t (conntrack_extract_conn false p) ≡ some v
        → conntrack_pool_feed H mem now p len t ≡ (
          some (conntrack_extract_conn false p, false),
          feed_found H now false p len (conntrack_extract_conn false p) v t,
        )
    unfolding conntrack_pool_feed
    feed_forward v e = rw (e, conntrack_pool_feed)

    feed_reverse :
        (v : Ctrack)
        → H.find t (conntrack_extract_conn false p) ≡ none
        → H.find t (connswap (conntrack_extract_conn false p)) ≡ some v
        → conntrack_pool_feed H mem now p len t ≡ (
          some (connswap (conntrack_extract_conn false p), true),
          feed_found H now true p len (connswap (conntrack_extract_conn false p)) v t,
        )
    unfolding conntrack_pool_feed
    feed_reverse v e e' = rw (e, e', conntrack_pool_feed)

    feed_new :
        H.find t (conntrack_extract_conn false p) ≡ none
        → H.find t (connswap (conntrack_extract_conn false p)) ≡ none
        → conntrack_pool_feed H mem now p len t ≡ feed_unknown H mem now p len t
    unfolding conntrack_pool_feed
    feed_new e e' = rw (e, e', conntrack_pool_feed)

  feed_unknown-Fed :
      (mem : Bool) (now : ℕ) (p : Packet) (len : ℕ) (t : H.Table)
      → OneWay t
      → H.find t (conntrack_extract_conn false p) ≡ none
      → H.find t (connswap (conntrack_extract_conn false p)) ≡ none
      → Fed p (feed_unknown H mem now p len t)
  unfolding feed_unknown
  feed_unknown-Fed mem now p len t o e e' =
      elim (Bool-cases
        (tcp_and tcp_syn_segment p.tcp || tcp_and tcp_synack_segment p.tcp || present p.udp)) [
          | inr none_of ↦ rw (none_of, feed_unknown) o
          | inl some_of ↦
              rw (some_of, feed_unknown)
                (elim (Bool-cases (tcp_and tcp_synack_segment p.tcp)) [
                  | inl r ↦ rw r (
                      feed_created-Fed now true p len mem
                        (connswap (conntrack_extract_conn false p)) t o e'
                        (ap (H.find t) (connswap-connswap (conntrack_extract_conn false p)) ∙ e)
                        refl)
                  | inr r ↦ rw r (
                      feed_created-Fed now false p len mem (conntrack_extract_conn false p) t o e e'
                        refl)
                ])
        ]

  feed_found-Fed :
      (now : ℕ) (rev : Bool) (p : Packet) (len : ℕ) (k : Conn) (v : Ctrack) (t : H.Table)
      → OneWay t
      → H.find t k ≡ some v
      → k ≡ (
          if rev then connswap (conntrack_extract_conn false p) else conntrack_extract_conn false p)
      → Fed p (some (k, rev), feed_found H now rev p len k v t)
  unfolding feed_found
  feed_found-Fed now rev p len k v t o h e =
      let v' = conntrack_feed_packet now rev p.tcp len v in
      (store-OneWay t k v' v h o, (v', find-store_self t k v' v h), e)

  feed-Fed :
      (mem : Bool) (now : ℕ) (p : Packet) (len : ℕ) (t : H.Table)
      → OneWay t
      → Fed p (conntrack_pool_feed H mem now p len t)
  feed-Fed mem now p len t o = elim (Option-cases (H.find t (conntrack_extract_conn false p))) [
    | inr (v, e) ↦
        rw (feed_forward mem now p len t v e)
          (feed_found-Fed now false p len (conntrack_extract_conn false p) v t o e refl)
    | inl e ↦ elim (Option-cases (H.find t (connswap (conntrack_extract_conn false p)))) [
      | inr (v, e') ↦
          rw (feed_reverse mem now p len t v e e') (
            feed_found-Fed now true p len (connswap (conntrack_extract_conn false p)) v t o e' refl)
      | inl e' ↦ rw (feed_new mem now p len t e e') (feed_unknown-Fed mem now p len t o e e')
    ]
  ]

  pub search_hit :
      (p : Packet) (t : H.Table) (v : Ctrack)
      → H.find t (conntrack_extract_conn false p) ≡ some v
      → conntrack_pool_double_search H p t ≡ some (conntrack_extract_conn false p, false)
  unfolding conntrack_pool_double_search
  search_hit p t v e = rw (e, conntrack_pool_double_search)

  pub search_miss :
      (p : Packet) (t : H.Table) (v : Ctrack)
      → H.find t (conntrack_extract_conn false p) ≡ none
      → H.find t (connswap (conntrack_extract_conn false p)) ≡ some v
      → conntrack_pool_double_search H p t ≡ some (connswap (conntrack_extract_conn false p), true)
  unfolding conntrack_pool_double_search
  search_miss p t v e e' = rw (e, e', conntrack_pool_double_search)

  -- A track under a packet's key is found by the packet forward and by its reply in reverse, and
  -- one under the swapped key the other way round.
  search_lem :
      (p q : Packet) (t : H.Table) (k : Conn) (rev : Bool) (v : Ctrack)
      → conntrack_extract_conn false q ≡ connswap (conntrack_extract_conn false p)
      → IsDirected p
      → OneWay t
      → H.find t k ≡ some v
      → k ≡ (
          if rev then connswap (conntrack_extract_conn false p) else conntrack_extract_conn false p)
      → (conntrack_pool_double_search H p t ≡ some (k, rev))
        × (conntrack_pool_double_search H q t ≡ some (k, not rev))
  search_lem p q t k false v eq dir o h e =
      let c = conntrack_extract_conn false p in
      let here : H.find t c ≡ some v = ap (H.find t) (sym e) ∙ h in
      let back : connswap (conntrack_extract_conn false q) ≡ c =
        ap connswap eq ∙ connswap-connswap c in
      let away : H.find t (connswap c) ≡ none = elim (o c dir) [ inl n ↦ cc | inr n ↦ n ] in
      (
        search_hit p t v here ∙ ap (λ x. some (x, false)) (sym e),
        search_miss q t v (ap (H.find t) eq ∙ away) (ap (H.find t) back ∙ here)
            ∙ ap (λ x. some (x, true)) (back ∙ sym e),
      )
  search_lem p q t k true v eq dir o h e =
      let c = conntrack_extract_conn false p in
      let here : H.find t (connswap c) ≡ some v = ap (H.find t) (sym e) ∙ h in
      let away : H.find t c ≡ none = elim (o c dir) [ inl n ↦ n | inr n ↦ cc ] in
      (
        search_miss p t v away here ∙ ap (λ x. some (x, true)) (sym e),
        search_hit q t v (ap (H.find t) eq ∙ here) ∙ ap (λ x. some (x, false)) (eq ∙ sym e),
      )

  Fed-search :
      (p q : Packet) (r : Option (Conn × Bool) × H.Table)
      → Fed p r
      → IsDirected p
      → conntrack_extract_conn false q ≡ connswap (conntrack_extract_conn false p)
      → OneWay r.1
        × ((k : Conn) (rev : Bool)
            → r.0 ≡ some (k, rev)
            → (conntrack_pool_double_search H p r.1 ≡ some (k, rev))
              × (conntrack_pool_double_search H q r.1 ≡ some (k, not rev)))
  Fed-search p q (none, t') f dir eq = (f, λ k rev e. cc)
  Fed-search p q (some (k', rev'), t') (o, (v, h), e) dir eq = (o, λ k rev e'. same k rev e')
    where
      found :
          (conntrack_pool_double_search H p t' ≡ some (k', rev'))
          × (conntrack_pool_double_search H q t' ≡ some (k', not rev'))
      found = search_lem p q t' k' rev' v eq dir o h e

      same :
          (k : Conn) (rev : Bool)
          → ◌≡◌ {A = Option (Conn × Bool)} (some (k', rev')) (some (k, rev))
          → (conntrack_pool_double_search H p t' ≡ some (k, rev))
            × (conntrack_pool_double_search H q t' ≡ some (k, not rev))
      same k rev e' =
          (found.0 ∙ e', found.1 ∙ ap (Option.map (λ (x : Conn × Bool). (x.0, not x.1))) e')

  -- When a packet whose key is not the same with source and destination exchanged is fed to a table
  -- in which no connection is tracked in both directions, that stays so. If a track took the packet,
  -- the packet itself and every reply to it, a packet with source and destination exchanged, find
  -- that same track, the reply in the opposite direction.
  pub feed_search :
      (mem : Bool) (now : ℕ) (p q : Packet) (len : ℕ) (t : H.Table)
      → OneWay t
      → IsDirected p
      → conntrack_extract_conn false q ≡ connswap (conntrack_extract_conn false p)
      → let (taken, t') = conntrack_pool_feed H mem now p len t in
        OneWay t'
        × ((k : Conn) (rev : Bool)
            → taken ≡ some (k, rev)
            → (conntrack_pool_double_search H p t' ≡ some (k, rev))
              × (conntrack_pool_double_search H q t' ≡ some (k, not rev)))
  feed_search mem now p q len t o dir eq =
      Fed-search p q (conntrack_pool_feed H mem now p len t) (feed-Fed mem now p len t o) dir eq
