-- ===== src/IpCache/Tests.antt =====
-- The theorem about the cache of addresses at concrete calls, and runs of it.
use fog_prime.Base.{
  ℕ, ◌≡◌, ◌↔◌, refl, Bool, true, false, ◌&&◌, ◌==◌, List, [], ◌∷◌, take, inr, arith, bytes_eq,
  bytes_eq_iff,
}
use fog_prime.Table.{HashTable}
use fog_prime.Table.Function.{functions}
use fog_prime.Ipset.{ipv4}
use fog_prime.Net.Ttl.{AutoTtl, hop_count_guess, autottl_eval}
use fog_prime.IpCache.{
  Key, IpCacheItem, IpCache, ipcache_put_hostname, ipcache_get_hostname, ipcache_purge,
}
use fog_prime.IpCache.Hops.{TtlProfile, TtlTrack, autottl_discover}
use fog_prime.IpCache.Keep.{Call, call_put, call_discover, call_purge, calls}
use fog_prime.IpCache.Name.{put_get_lem}

key_eq : Key → Key → Bool
key_eq k j = k.addr == j.addr && bytes_eq k.iface j.iface

key_eq_iff : (k j : Key) → (key_eq k j ≡ true) ↔ (k ≡ j)
unfolding key_eq
key_eq_iff k j = (
  (λ e.
      let addr : k.addr ≡ j.addr = ground arith in
      let iface : k.iface ≡ j.iface = (bytes_eq_iff k.iface j.iface).0 (ground arith) in
      λ i. record { iface = iface i; addr = addr i }),
  (λ e.
      let addr : k.addr ≡ j.addr = λ i. (e i).addr in
      let iface : bytes_eq k.iface j.iface ≡ true =
        (bytes_eq_iff k.iface j.iface).1 (λ i. (e i).iface) in
      ground arith),
)

abbrev table : HashTable Key IpCacheItem
table = functions key_eq key_eq_iff

abbrev nothing_cached : IpCache table
nothing_cached = record { ipcache4 = table.empty; ipcache6 = table.empty }

-- "a.ru" and "b.ru"
abbrev name : List ℕ
name = 97 ∷ 46 ∷ 114 ∷ 117 ∷ []

abbrev other_name : List ℕ
other_name = 98 ∷ 46 ∷ 114 ∷ 117 ∷ []

abbrev off : AutoTtl
off = record { up = 0; down = 0; min_ttl = 0; max_ttl = 0 }

abbrev profile : TtlProfile
profile = record {
  desync_autottl = record off { down = 2; min_ttl = 3; max_ttl = 20 };
  desync_autottl6 = off;
  orig_autottl = off;
  orig_autottl6 = off;
  dup_autottl = off;
  dup_autottl6 = off;
}

abbrev track : TtlTrack
track = record {
  b_autottl_discovered = false;
  incoming_ttl = 52;
  desync_ttl = 0;
  orig_ttl = 0;
  dup_ttl = 0;
}

-- After the name of 1 is put at 100 with a lifetime of 60: another address gets one, the hops of 1 are
-- found, and a purge comes at 159.
abbrev between : List Call
between =
    call_put true true true 110 (ipv4 2) other_name false
    ∷ call_discover true true 120 profile (ipv4 1) [] track
    ∷ call_purge 159 60
    ∷ []

put_get_lem_example :
    (ipcache_get_hostname table true false 159
      (calls table between
        ((ipcache_put_hostname table true true true 100 nothing_cached (ipv4 1) name false).1, 0)).0
      (ipv4 1)
      256
      false).0.1
    ≡ take 255 name
unfolding ipcache_put_hostname key_eq
put_get_lem_example =
    put_get_lem table (ipv4 1) name 100 true true false nothing_cached 0 between false false 159 256
      refl ((omega arith, refl), (omega arith, (inr (omega arith), tt)))

-- The hops of a reply with TTL 52 are 12; the fake packets get 10.
discover_runs :
    (autottl_discover table true true 120 profile (ipv4 1) [] track nothing_cached).0.desync_ttl
    ≡ 10
unfolding autottl_discover hop_count_guess autottl_eval
discover_runs = refl

-- At 160 the name is gone, and with no memory for an item there is no answer.
purge_runs :
    (ipcache_get_hostname table true false 160
      (ipcache_purge table 160 60
        (ipcache_put_hostname table true true true 100 nothing_cached (ipv4 1) name false).1)
      (ipv4 1)
      256
      false).0
    ≡ (false, [], false)
unfolding ipcache_put_hostname ipcache_purge ipcache_get_hostname key_eq
purge_runs = refl
