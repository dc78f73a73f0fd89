-- ===== src/IpCache.antt =====
-- The cache of addresses: ip_cache of nfq/pools.c, and its use in nfq/desync.c for names and hop
-- counts. The two hash tables are those of an interface; `now` is what time() returns, `room` whether
-- malloc and HASH_ADD succeed, `dup` whether strdup does.
pub mod Touch
pub mod Hops
pub mod Keep
pub mod Name
mod Tests
use fog_prime.Base.{
  ℕ, ◌+◌, ◌-◌, Bool, true, false, not, ◌&&◌, ◌||◌, ◌==◌, leb, if◌then◌else◌, List, [], take, Option,
  none, some, bytes_eq,
}
use fog_prime.Table.{HashTable}
use fog_prime.Ipset.{Address, ipv4, ipv6}
use fog_prime.Net.Ttl.{AutoTtl, hop_count_guess, autottl_eval}

-- ip4if and ip6if: the name of the interface, empty for NULL, and the address.
pub record Key : Type 0 where
  pub iface : List ℕ
  pub addr : ℕ

pub record IpCacheItem : Type 0 where
  pub last : ℕ
  pub hostname : Option (List ℕ)
  pub hostname_is_ip : Bool
  pub hops : ℕ

-- snprintf cuts the name at IFNAMSIZ - 1 characters.
unfoldable pub ipcache_key : Address → List ℕ → Key
ipcache_key (ipv4 a) iface = record { iface = take 15 iface; addr = a }
ipcache_key (ipv6 a) iface = record { iface = take 15 iface; addr = a }

abbrev pub ipcache_item_init : ℕ → IpCacheItem
ipcache_item_init now = record { last = now; hostname = none; hostname_is_ip = false; hops = 0 }

abbrev pub ipcache_item_touch : ℕ → IpCacheItem → IpCacheItem
ipcache_item_touch now item = record item { last = now }

-- Is the time of an element over?
abbrev pub expired : ℕ → ℕ → IpCacheItem → Bool
expired now lifetime item = leb (item.last + lifetime) now

module _ (H : HashTable Key IpCacheItem) where
  pub record IpCache : Type 0 where
    pub ipcache4 : H.Table
    pub ipcache6 : H.Table

  abbrev pub table_of : Address → IpCache → H.Table
  table_of (ipv4 a) c = c.ipcache4
  table_of (ipv6 a) c = c.ipcache6

  abbrev pub with_table : Address → IpCache → H.Table → IpCache
  with_table (ipv4 a) c t = record c { ipcache4 = t }
  with_table (ipv6 a) c t = record c { ipcache6 = t }

  -- ipcache4Add and ipcache6Add; `none` is NULL.
  unfoldable pub ipcache_add : Bool → ℕ → H.Table → Key → Option (H.Table × IpCacheItem)
  ipcache_add room now t k = elim (H.find t k) [
    | some item ↦ some (t, item)
    | none ↦ if room then some (H.add t k (ipcache_item_init now), ipcache_item_init now) else none
  ]

  abbrev pub touched : ℕ → IpCache → Address → Key → H.Table × IpCacheItem → IpCache × IpCacheItem
  touched now c a k (t, item) =
      (with_table a c (H.store t k (ipcache_item_touch now item)), ipcache_item_touch now item)

  -- The cache and the item that the pointer leads to.
  unfoldable pub ipcache_touch :
      Bool → ℕ → IpCache → Address → List ℕ → Option (IpCache × IpCacheItem)
  unfolding ipcache_add ipcache_key
  ipcache_touch room now c a iface =
      let k = ipcache_key a iface in
      elim (ipcache_add room now (table_of a c) k) [
        | none ↦ none
        | some added ↦ some (touched now c a k added)
      ]

  -- A write through that pointer.
  unfoldable pub ipcache_write : IpCache → Address → List ℕ → IpCacheItem → IpCache
  unfolding ipcache_key
  ipcache_write c a iface item = with_table a c (H.store (table_of a c) (ipcache_key a iface) item)

  abbrev pub is_name : Option (List ℕ) → List ℕ → Bool
  is_name none name = false
  is_name (some old) name = bytes_eq old name

  unfoldable pub put_found : Bool → Address → List ℕ → Bool → IpCache → IpCacheItem → Bool × IpCache
  unfolding ipcache_write
  put_found dup a name is_ip c item =
      if is_name item.hostname name
      then (true, c)
      else if dup
      then (
        true,
        ipcache_write c a [] (record item { hostname = some name; hostname_is_ip = is_ip }),
      )
      else (false, ipcache_write c a [] (record item { hostname = none }))

  abbrev pub put :
      Bool → Address → List ℕ → Bool → IpCache → Option (IpCache × IpCacheItem) → Bool × IpCache
  put dup a name is_ip c none = (false, c)
  put dup a name is_ip c (some (c2, item)) = put_found dup a name is_ip c2 item

  -- `cache_hostname` is the option of that name.
  unfoldable pub ipcache_put_hostname :
      Bool → Bool → Bool → ℕ → IpCache → Address → List ℕ → Bool → Bool × IpCache
  unfolding ipcache_touch put_found
  ipcache_put_hostname cache_hostname room dup now c a name is_ip =
      if not cache_hostname
      then (true, c)
      else put dup a name is_ip c (ipcache_touch room now c a [])

  -- What is returned, the name, empty if there is none, and the flag, which a missing name leaves.
  abbrev pub name_of : ℕ → Bool → IpCacheItem → Bool × List ℕ × Bool
  name_of buf_len was_ip item = elim item.hostname [
    | none ↦ (true, [], was_ip)
    | some name ↦ (true, take (buf_len - 1) name, item.hostname_is_ip)
  ]

  abbrev pub got :
      ℕ → Bool → IpCache → Option (IpCache × IpCacheItem) → (Bool × List ℕ × Bool) × IpCache
  got buf_len was_ip c none = ((false, [], was_ip), c)
  got buf_len was_ip c (some (c2, item)) = (name_of buf_len was_ip item, c2)

  unfoldable pub ipcache_get_hostname :
      Bool → Bool → ℕ → IpCache → Address → ℕ → Bool → (Bool × List ℕ × Bool) × IpCache
  unfolding ipcache_touch
  ipcache_get_hostname cache_hostname room now c a buf_len was_ip =
      if not cache_hostname
      then ((true, [], was_ip), c)
      else got buf_len was_ip c (ipcache_touch room now c a [])

  -- 0 = no expire
  unfoldable pub ipcache_purge : ℕ → ℕ → IpCache → IpCache
  ipcache_purge now lifetime c = if lifetime == 0 then c else record {
    ipcache4 = H.keep (λ k item. not (expired now lifetime item)) c.ipcache4;
    ipcache6 = H.keep (λ k item. not (expired now lifetime item)) c.ipcache6;
  }

  -- The cache and ipcache_purge_prev.
  unfoldable pub ipcache_purge_rate_limited : ℕ → ℕ → ℕ → IpCache → IpCache × ℕ
  unfolding ipcache_purge
  ipcache_purge_rate_limited now lifetime prev c =
      if not (prev == now) then (ipcache_purge now lifetime c, now) else (c, prev)
