-- ===== src/IpCache/Touch.antt =====
-- What ipcacheTouch and a write through its result do to the tables of nfq/pools.c.
use fog_prime.Base.{
  ℕ, ◌≡◌, refl, sym, ap, ◌∙◌, Bool, true, false, ◌&&◌, if◌then◌else◌, List, Option, none, some,
  Option-cases, Bool-cases, inl, inr,
}
use fog_prime.Table.{HashTable}
use fog_prime.Ipset.{Address, ipv4, ipv6}
use fog_prime.IpCache.{
  Key, IpCacheItem, ipcache_key, ipcache_item_init, ipcache_item_touch, IpCache, table_of,
  with_table, ipcache_add, ipcache_touch, ipcache_write,
}

abbrev pub same_family : Address → Address → Bool
same_family (ipv4 a) (ipv4 b) = true
same_family (ipv4 a) (ipv6 b) = false
same_family (ipv6 a) (ipv4 b) = false
same_family (ipv6 a) (ipv6 b) = true

module _ (H : HashTable Key IpCacheItem) where
  -- Is the item of the address `b` under the key `j` that of `a` under `k`?
  abbrev pub same_item : Address → Key → Address → Key → Bool
  same_item a k b j = same_family a b && H.key_eq k j

  abbrev pub item_at : IpCache H → Address → Key → Option IpCacheItem
  item_at c a k = H.find (table_of H a c) k

  key_eq_self : (k : Key) → H.key_eq k k ≡ true
  key_eq_self k = (H.key_eq_iff k k).1 refl

  -- A table in which one element is written.
  abbrev IsWritten : H.Table → Key → IpCacheItem → H.Table → Type 0
  IsWritten t k item t2 = (j : Key) → H.find t2 j ≡ (if H.key_eq k j then some item else H.find t j)

  at_item :
      (c : IpCache H) (a b : Address) (k j : Key) (t2 : H.Table) (item : IpCacheItem)
      → IsWritten (table_of H a c) k item t2
      → item_at (with_table H a c t2) b j ≡ (if same_item a k b j then some item else item_at c b j)
  at_item c (ipv4 a) (ipv4 b) k j t2 item w = w j
  at_item c (ipv4 a) (ipv6 b) k j t2 item w = refl
  at_item c (ipv6 a) (ipv4 b) k j t2 item w = refl
  at_item c (ipv6 a) (ipv6 b) k j t2 item w = w j

  add-IsWritten :
      (t : H.Table) (k : Key) (new item : IpCacheItem)
      → H.find t k ≡ none
      → IsWritten t k item (H.store (H.add t k new) k item)
  add-IsWritten t k new item absent j =
      let there : H.find (H.add t k new) k ≡ some new =
        H.find-add t k new k absent
        ∙ ap (λ b. if b then some new else H.find t k) (key_eq_self k) in
      H.find-store (H.add t k new) k item new j there
      ∙ ap (λ o. if H.key_eq k j then some item else o) (H.find-add t k new j absent)
      ∙ once (H.key_eq k j) (some item) (some new) (H.find t j)
    where
      once :
          (b : Bool) (x y z : Option IpCacheItem)
          → (if b then x else (if b then y else z)) ≡ (if b then x else z)
      once true x y z = refl
      once false x y z = refl

  -- The item after a touch: the old one or a new one, with the time of the touch.
  abbrev pub fresh : ℕ → Option IpCacheItem → IpCacheItem
  fresh now none = ipcache_item_touch now (ipcache_item_init now)
  fresh now (some item) = ipcache_item_touch now item

  abbrev pub IsTouched : ℕ → IpCache H → Address → List ℕ → IpCache H × IpCacheItem → Type 0
  IsTouched now c a iface (c2, item) =
      (item ≡ fresh now (item_at c a (ipcache_key a iface)))
      × ((b : Address) (j : Key)
          → item_at c2 b j
            ≡ (if same_item a (ipcache_key a iface) b j then some item else item_at c b j))

  -- A touch fails only where a new item finds no room; else it writes that one item.
  pub touch_cases :
      (room : Bool) (now : ℕ) (c : IpCache H) (a : Address) (iface : List ℕ)
      (P : Option (IpCache H × IpCacheItem) → Type 0)
      → (item_at c a (ipcache_key a iface) ≡ none → room ≡ false → P none)
      → ((r : IpCache H × IpCacheItem) → IsTouched now c a iface r → P (some r))
      → P (ipcache_touch H room now c a iface)
  unfolding ipcache_touch ipcache_add
  touch_cases room now c a iface P fails works =
      let k = ipcache_key a iface in
      let t = table_of H a c in
      elim (Option-cases (H.find t k)) [
        | inr (item, e) ↦
            let new = ipcache_item_touch now item in
            let stored = H.store t k new in
            rw (e, ipcache_touch, ipcache_add)
              (works (with_table H a c stored, new)
                (
                  ap (fresh now) (sym e),
                  λ b j. at_item c a b k j stored new (λ i. H.find-store t k new item i e),
                ))
        | inl e ↦
            let first = ipcache_item_init now in
            let new = ipcache_item_touch now first in
            let stored = H.store (H.add t k first) k new in
            elim (Bool-cases room) [
              | inr f ↦ rw (e, f, ipcache_touch, ipcache_add) (fails e f)
              | inl r ↦
                  rw (e, r, ipcache_touch, ipcache_add)
                    (works (with_table H a c stored, new)
                      (
                        ap (fresh now) (sym e),
                        λ b j. at_item c a b k j stored new (add-IsWritten t k first new e),
                      ))
            ]
      ]

  -- A write through the pointer, to an item that is there.
  pub write_lem :
      (c : IpCache H) (a : Address) (iface : List ℕ) (old item : IpCacheItem)
      → item_at c a (ipcache_key a iface) ≡ some old
      → (b : Address) (j : Key)
      → item_at (ipcache_write H c a iface item) b j
        ≡ (if same_item a (ipcache_key a iface) b j then some item else item_at c b j)
  unfolding ipcache_write
  write_lem c a iface old item there b j =
      let k = ipcache_key a iface in
      at_item c a b k j (H.store (table_of H a c) k item) item
        (λ i. H.find-store (table_of H a c) k item old i there)

  pub same_self : (a : Address) (k : Key) → same_item a k a k ≡ true
  same_self (ipv4 a) k = key_eq_self k
  same_self (ipv6 a) k = key_eq_self k

  -- The item that the pointer leads to is in the cache.
  pub touched_there :
      (now : ℕ) (c : IpCache H) (a : Address) (iface : List ℕ) (r : IpCache H × IpCacheItem)
      → IsTouched now c a iface r
      → item_at r.0 a (ipcache_key a iface) ≡ some r.1
  touched_there now c a iface (c2, item) (is_item, at) =
      at a (ipcache_key a iface)
      ∙ ap (λ b. if b then some item else item_at c a (ipcache_key a iface))
          (same_self a (ipcache_key a iface))
