-- ===== src/IpCache/Keep.antt =====
-- A name that is put into the cache of addresses stays there.
use fog_prime.Base.{
  ℕ, ◌+◌, ◌≤◌, ◌<◌, ◌≡◌, refl, sym, ap, ◌∙◌, Bool, true, false, not, ◌&&◌, ◌==◌, if◌then◌else◌,
  List, [], ◌∷◌, none, some, arith, Bool-cases, inl, inr, ◌⊎◌, subst,
}
use fog_prime.Table.{HashTable, kept}
use fog_prime.Ipset.{Address, ipv4, ipv6}
use fog_prime.IpCache.{
  Key, IpCacheItem, ipcache_key, expired, IpCache, ipcache_write, put_found, ipcache_put_hostname,
  put, got, ipcache_get_hostname, ipcache_purge, ipcache_purge_rate_limited, is_name,
}
use fog_prime.IpCache.Touch.{
  same_item, item_at, fresh, IsTouched, touch_cases, touched_there, write_lem,
}
use fog_prime.Net.Ttl.{hop_count_guess}
use fog_prime.IpCache.Hops.{discovered, TtlProfile, TtlTrack, discover_found, autottl_discover}

-- The calls on the cache, with what the system answers.
pub data Call : Type 0 where
  call_put : Bool → Bool → Bool → ℕ → Address → List ℕ → Bool → Call
  call_get : Bool → Bool → ℕ → Address → ℕ → Call
  call_discover : Bool → Bool → ℕ → TtlProfile → Address → List ℕ → TtlTrack → Call
  call_purge : ℕ → ℕ → Call

module _ (H : HashTable Key IpCacheItem) where
  -- One call; the state is the cache and ipcache_purge_prev.
  unfoldable pub call : Call → IpCache H × ℕ → IpCache H × ℕ
  call (call_put cache_hostname room dup now b name is_ip) (c, prev) =
      ((ipcache_put_hostname H cache_hostname room dup now c b name is_ip).1, prev)
  call (call_get cache_hostname room now b buf_len) (c, prev) =
      ((ipcache_get_hostname H cache_hostname room now c b buf_len false).1, prev)
  call (call_discover present room now dp b iface track) (c, prev) =
      ((autottl_discover H present room now dp b iface track c).1, prev)
  call (call_purge now lifetime) (c, prev) = ipcache_purge_rate_limited H now lifetime prev c

  unfoldable pub calls : List Call → IpCache H × ℕ → IpCache H × ℕ
  calls [] s = s
  calls (o ∷ os) s = calls os (call o s)

  same_item_lem :
      (c : IpCache H) (b a : Address) (k j : Key)
      → same_item H b k a j ≡ true
      → item_at H c b k ≡ item_at H c a j
  same_item_lem c (ipv4 b) (ipv4 a) k j e = ap (H.find c.ipcache4) ((H.key_eq_iff k j).0 e)
  same_item_lem c (ipv4 b) (ipv6 a) k j e = absurd cc
  same_item_lem c (ipv6 b) (ipv4 a) k j e = absurd cc
  same_item_lem c (ipv6 b) (ipv6 a) k j e = ap (H.find c.ipcache6) ((H.key_eq_iff k j).0 e)

  kept_at :
      (a : Address) (p : Key → IpCacheItem → Bool) (c : IpCache H)
      → item_at H
          (record { ipcache4 = H.keep p c.ipcache4; ipcache6 = H.keep p c.ipcache6 })
          a
          (ipcache_key a [])
        ≡ kept p (ipcache_key a []) (item_at H c a (ipcache_key a []))
  kept_at (ipv4 b) p c = H.find-keep p c.ipcache4 (ipcache_key (ipv4 b) [])
  kept_at (ipv6 b) p c = H.find-keep p c.ipcache6 (ipcache_key (ipv6 b) [])

  module _ (a : Address) (name : List ℕ) (start : ℕ) where
    -- The name of `a` is in the cache, and was touched at `start` or later.
    abbrev pub Held : IpCache H → Type 0
    Held c =
        (item : IpCacheItem) × (item_at H c a (ipcache_key a []) ≡ some item)
        × (item.hostname ≡ some name)
        × (start ≤ item.last)

    -- The item of `a` was not written, or a name that is held there still is.
    change-Held :
        (c c2 : IpCache H) (same : Bool) (item : IpCacheItem)
        → item_at H c2 a (ipcache_key a [])
          ≡ (if same then some item else item_at H c a (ipcache_key a []))
        → (same ≡ true → (item.hostname ≡ some name) × (start ≤ item.last))
        → Held c
        → Held c2
    change-Held c c2 true item e kept_here h =
        let (named, late) = kept_here refl in (item, e, named, late)
    change-Held c c2 false item e kept_here (old, at, named, late) = (old, e ∙ at, named, late)

    -- What a touched item of `a` still says.
    abbrev Says : IpCacheItem → Type 0
    Says item = (item.hostname ≡ some name) × (start ≤ item.last)

    fresh-Says :
        (now : ℕ) (c : IpCache H)
        → start ≤ now
        → Held c
        → Says (fresh H now (item_at H c a (ipcache_key a [])))
    fresh-Says now c le (old, at, named, late) = rw at (named, le)

    touched-Says :
        (now : ℕ) (c : IpCache H) (b : Address) (iface : List ℕ) (r : IpCache H × IpCacheItem)
        → start ≤ now
        → Held c
        → IsTouched H now c b iface r
        → same_item H b (ipcache_key b iface) a (ipcache_key a []) ≡ true
        → Says r.1
    touched-Says now c b iface (c2, item) le h (is_item, at) same =
        let here = same_item_lem c b a (ipcache_key b iface) (ipcache_key a []) same in
        subst Says (sym (is_item ∙ ap (fresh H now) here)) (fresh-Says now c le h)

    touched-Held :
        (now : ℕ) (c : IpCache H) (b : Address) (iface : List ℕ) (r : IpCache H × IpCacheItem)
        → start ≤ now
        → Held c
        → IsTouched H now c b iface r
        → Held r.0
    touched-Held now c b iface (c2, item) le h (is_item, at) =
        change-Held c c2 (same_item H b (ipcache_key b iface) a (ipcache_key a [])) item
          (at a (ipcache_key a [])) (touched-Says now c b iface (c2, item) le h (is_item, at)) h

    -- A write through the pointer after a touch.
    written-Held :
        (now : ℕ) (c : IpCache H) (b : Address) (iface : List ℕ) (r : IpCache H × IpCacheItem)
        (item : IpCacheItem)
        → start ≤ now
        → Held c
        → IsTouched H now c b iface r
        → item_at H r.0 b (ipcache_key b iface) ≡ some r.1
        → (same_item H b (ipcache_key b iface) a (ipcache_key a []) ≡ true → Says item)
        → Held (ipcache_write H r.0 b iface item)
    written-Held now c b iface (c2, old) item le h t there says =
        change-Held c2 (ipcache_write H c2 b iface item)
          (same_item H b (ipcache_key b iface) a (ipcache_key a [])) item
          (write_lem H c2 b iface old item there a (ipcache_key a [])) says
          (touched-Held now c b iface (c2, old) le h t)

    -- The calls that leave a name: none puts another name for `a`, none is earlier than `start`, and no
    -- purge comes when the lifetime since then is over.
    abbrev pub IsHarmless : Call → Type 0
    IsHarmless (call_put cache_hostname room dup now b other is_ip) =
        (start ≤ now) × (same_item H b (ipcache_key b []) a (ipcache_key a []) ≡ false)
    IsHarmless (call_get cache_hostname room now b buf_len) = start ≤ now
    IsHarmless (call_discover present room now dp b iface track) = start ≤ now
    IsHarmless (call_purge now lifetime) = (lifetime ≡ 0) ⊎ (now < start + lifetime)

    abbrev pub AllHarmless : List Call → Type 0
    AllHarmless [] = Unit
    AllHarmless (o ∷ os) = IsHarmless o × AllHarmless os

    pub put-Held :
        (cache_hostname room dup : Bool) (now : ℕ) (c : IpCache H) (b : Address) (other : List ℕ)
        (is_ip : Bool)
        → start ≤ now
        → same_item H b (ipcache_key b []) a (ipcache_key a []) ≡ false
        → Held c
        → Held (ipcache_put_hostname H cache_hostname room dup now c b other is_ip).1
    unfolding ipcache_put_hostname put_found
    put-Held false room dup now c b other is_ip le differ h = h
    put-Held true room dup now c b other is_ip le differ h =
        touch_cases H room now c b [] (λ o. Held (put H dup b other is_ip c o).1) (λ e f. h)
          (λ r t.
            let write = λ (item : IpCacheItem).
              written-Held now c b [] r item le h t (touched_there H now c b [] r t)
                (λ same. absurd (let no : true ≡ false = sym same ∙ differ in cc)) in
            let stays = touched-Held now c b [] r le h t in
            elim (Bool-cases (is_name H r.1.hostname other)) [
              | inl same ↦ rw (same, put_found) stays
              | inr new ↦ elim (Bool-cases dup) [
                | inl ok ↦
                    rw (new, ok, put_found)
                      (write (record r.1 { hostname = some other; hostname_is_ip = is_ip }))
                | inr full ↦ rw (new, full, put_found) (write (record r.1 { hostname = none }))
              ]
            ])

    pub get-Held :
        (cache_hostname room : Bool) (now : ℕ) (c : IpCache H) (b : Address) (buf_len : ℕ)
        (was_ip : Bool)
        → start ≤ now
        → Held c
        → Held (ipcache_get_hostname H cache_hostname room now c b buf_len was_ip).1
    unfolding ipcache_get_hostname
    get-Held false room now c b buf_len was_ip le h = h
    get-Held true room now c b buf_len was_ip le h =
        touch_cases H room now c b [] (λ o. Held (got H buf_len was_ip c o).1) (λ e f. h)
          (λ r t. touched-Held now c b [] r le h t)

    found-Held :
        (now : ℕ) (dp : TtlProfile) (b : Address) (iface : List ℕ) (track : TtlTrack)
        (c : IpCache H)
        → start ≤ now
        → Held c
        → (r : IpCache H × IpCacheItem) → IsTouched H now c b iface r
        → Held (discover_found H dp b iface track r.0 r.1).1
    unfolding discover_found
    found-Held now dp b iface track c le h r t = elim (Bool-cases (track.incoming_ttl == 0)) [
      | inl unknown ↦ rw unknown (touched-Held now c b iface r le h t)
      | inr known ↦ rw known (
          written-Held now c b iface r (record r.1 { hops = hop_count_guess track.incoming_ttl }) le
            h t (touched_there H now c b iface r t) (touched-Says now c b iface r le h t))
    ]

    pub discover-Held :
        (present room : Bool) (now : ℕ) (dp : TtlProfile) (b : Address) (iface : List ℕ)
        (track : TtlTrack) (c : IpCache H)
        → start ≤ now
        → Held c
        → Held (autottl_discover H present room now dp b iface track c).1
    unfolding autottl_discover
    discover-Held present room now dp b iface track c le h =
        elim (Bool-cases (present && not track.b_autottl_discovered)) [
          | inr f ↦ rw f h
          | inl t ↦ rw t (
              touch_cases H room now c b iface (λ o. Held (discovered H dp b iface track c o).1)
                (λ e f. h) (λ r touch. found-Held now dp b iface track c le h r touch))
        ]

    pub purge-Held :
        (now lifetime : ℕ) (c : IpCache H)
        → (lifetime ≡ 0) ⊎ (now < start + lifetime)
        → Held c
        → Held (ipcache_purge H now lifetime c)
    unfolding ipcache_purge
    purge-Held now lifetime c ok (item, at, named, late) = elim (Bool-cases (lifetime == 0)) [
      | inl off ↦ rw off (item, at, named, late)
      | inr on ↦
          let stays : not (expired now lifetime item) ≡ true = ground arith in
          let here : kept (λ k i. not (expired now lifetime i)) (ipcache_key a []) (some item)
              ≡ some item =
            rw stays refl in
          rw on (
            item,
            kept_at a (λ k i. not (expired now lifetime i)) c
                ∙ ap (kept (λ k i. not (expired now lifetime i)) (ipcache_key a [])) at
                ∙ here,
            named,
            late,
          )
    ]
