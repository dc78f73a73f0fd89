-- ===== src/IpCache/Name.antt =====
-- From a name that is put into the cache of addresses to the answer that it gives later.
use fog_prime.Base.{
  ℕ, ◌+◌, ◌-◌, ◌≤◌, ◌<◌, ◌≡◌, refl, sym, ap, ◌∙◌, Bool, true, false, ◌==◌, if◌then◌else◌, List, [],
  ◌∷◌, take, Option, none, some, arith, Bool-cases, inl, inr, ◌⊎◌, bytes_eq_iff,
}
use fog_prime.Table.{HashTable}
use fog_prime.Ipset.{Address}
use fog_prime.IpCache.{
  Key, IpCacheItem, ipcache_key, IpCache, ipcache_write, put_found, put, ipcache_put_hostname, got,
  ipcache_get_hostname, ipcache_purge_rate_limited, is_name,
}
use fog_prime.IpCache.Touch.{
  item_at, fresh, IsTouched, touch_cases, touched_there, write_lem, same_self,
}
use fog_prime.IpCache.Keep.{
  Call, call_put, call_get, call_discover, call_purge, call, calls, Held, IsHarmless, AllHarmless,
  put-Held, get-Held, discover-Held, purge-Held,
}

module _ (H : HashTable Key IpCacheItem) (a : Address) (name : List ℕ) (start : ℕ) where
  rate_limited-Held :
      (now lifetime prev : ℕ) (c : IpCache H)
      → (lifetime ≡ 0) ⊎ (now < start + lifetime)
      → Held H a name start c
      → Held H a name start (ipcache_purge_rate_limited H now lifetime prev c).0
  unfolding ipcache_purge_rate_limited
  rate_limited-Held now lifetime prev c ok h = elim (Bool-cases (prev == now)) [
    | inl again ↦ rw again h
    | inr later ↦ rw later (purge-Held H a name start now lifetime c ok h)
  ]

  call-Held :
      (o : Call) (s : IpCache H × ℕ)
      → IsHarmless H a name start o
      → Held H a name start s.0
      → Held H a name start (call H o s).0
  unfolding call
  call-Held (call_put on room dup now b other is_ip) (c, prev) (le, differ) h =
      put-Held H a name start on room dup now c b other is_ip le differ h
  call-Held (call_get on room now b buf_len) (c, prev) le h =
      get-Held H a name start on room now c b buf_len false le h
  call-Held (call_discover present room now dp b iface track) (c, prev) le h =
      discover-Held H a name start present room now dp b iface track c le h
  call-Held (call_purge now lifetime) (c, prev) ok h = rate_limited-Held now lifetime prev c ok h

  calls-Held :
      (os : List Call) (s : IpCache H × ℕ)
      → AllHarmless H a name start os
      → Held H a name start s.0
      → Held H a name start (calls H os s).0
  unfolding calls
  calls-Held [] s ok h = h
  calls-Held (o ∷ os) s (ok, oks) h = calls-Held os (call H o s) oks (call-Held o s ok h)

  fresh-last : (o : Option IpCacheItem) → (fresh H start o).last ≡ start
  fresh-last none = refl
  fresh-last (some item) = refl

  is_name_lem : (o : Option (List ℕ)) → is_name H o name ≡ true → o ≡ some name
  is_name_lem none e = absurd cc
  is_name_lem (some old) e = ap some ((bytes_eq_iff old name).0 e)

  -- What a successful put leaves.
  put_found-Held :
      (dup is_ip : Bool) (c : IpCache H) (r : IpCache H × IpCacheItem)
      → IsTouched H start c a [] r
      → (put_found H dup a name is_ip r.0 r.1).0 ≡ true
      → Held H a name start (put_found H dup a name is_ip r.0 r.1).1
  unfolding put_found
  put_found-Held dup is_ip c (c2, item) t =
      let k = ipcache_key a [] in
      let there = touched_there H start c a [] (c2, item) t in
      let late : start ≤ item.last =
        omega (arith, fresh-last (item_at H c a k), ap (λ (i : IpCacheItem). i.last) t.0) in
      elim (Bool-cases (is_name H item.hostname name)) [
        | inl same ↦
            rw (same, put_found) (λ ok. (item, there, is_name_lem item.hostname same, late))
        | inr new ↦ elim (Bool-cases dup) [
          | inr full ↦ rw (new, full, put_found) (λ ok. absurd cc)
          | inl room ↦
              let item2 = record item { hostname = some name; hostname_is_ip = is_ip } in
              let written : item_at H (ipcache_write H c2 a [] item2) a k ≡ some item2 =
                write_lem H c2 a [] item item2 there a k
                ∙ ap (λ b. if b then some item2 else item_at H c2 a k) (same_self H a k) in
              rw (new, room, put_found) (λ ok. (item2, written, refl, late))
        ]
      ]

  put_starts :
      (room dup is_ip : Bool) (c : IpCache H)
      → (ipcache_put_hostname H true room dup start c a name is_ip).0 ≡ true
      → Held H a name start (ipcache_put_hostname H true room dup start c a name is_ip).1
  unfolding ipcache_put_hostname
  put_starts room dup is_ip c =
      touch_cases H room start c a []
        (λ o.
          (put H dup a name is_ip c o).0 ≡ true
          → Held H a name start (put H dup a name is_ip c o).1)
        (λ e f no. absurd cc) (λ r t. put_found-Held dup is_ip c r t)

  -- The answer for a name that is held.
  name_given :
      (room was_ip : Bool) (now buf_len : ℕ) (c : IpCache H)
      → Held H a name start c
      → (ipcache_get_hostname H true room now c a buf_len was_ip).0.1 ≡ take (buf_len - 1) name
  unfolding ipcache_get_hostname
  name_given room was_ip now buf_len c (old, at, named, late) =
      touch_cases H room now c a [] (λ o. (got H buf_len was_ip c o).0.1 ≡ take (buf_len - 1) name)
        (λ absent f. absurd (let no : none ≡ some old = sym absent ∙ at in cc))
        (λ (c2, item) t.
          let same : item.hostname ≡ some name =
            ap (λ (i : IpCacheItem). i.hostname) (t.0 ∙ ap (fresh H now) at) ∙ named in
          rw same refl)

  -- A name that was put for an address is given for it later, cut to the buffer, whatever calls come
  -- between: names put for other addresses, names and hop counts looked up, and purges before the
  -- lifetime since the put is over. It takes no memory then.
  pub put_get_lem :
      (room dup is_ip : Bool) (c : IpCache H) (prev : ℕ) (os : List Call) (room2 was_ip : Bool)
      (now buf_len : ℕ)
      → (ipcache_put_hostname H true room dup start c a name is_ip).0 ≡ true
      → AllHarmless H a name start os
      → (ipcache_get_hostname H true room2 now
          (calls H os ((ipcache_put_hostname H true room dup start c a name is_ip).1, prev)).0
          a
          buf_len
          was_ip).0.1
        ≡ take (buf_len - 1) name
  put_get_lem room dup is_ip c prev os room2 was_ip now buf_len ok harmless =
      let after = ipcache_put_hostname H true room dup start c a name is_ip in
      name_given room2 was_ip now buf_len (calls H os (after.1, prev)).0
        (calls-Held os (after.1, prev) harmless (put_starts room dup is_ip c ok))
