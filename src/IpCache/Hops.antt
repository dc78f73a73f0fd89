-- ===== src/IpCache/Hops.antt =====
-- autottl_guess, autottl_discover and autottl_rediscover of nfq/desync.c: the hop count of an address
-- and the TTLs that follow from it.
use fog_prime.Base.{
  ℕ, Bool, true, false, not, ◌&&◌, ◌||◌, ◌==◌, if◌then◌else◌, List, Option, none, some,
}
use fog_prime.Table.{HashTable}
use fog_prime.Ipset.{Address, ipv4, ipv6}
use fog_prime.Net.Ttl.{AutoTtl, hop_count_guess, autottl_eval}
use fog_prime.IpCache.{Key, IpCacheItem, IpCache, ipcache_touch, ipcache_write}

-- AUTOTTL_ENABLED, where the delta is `up - down`
abbrev pub autottl_enabled : AutoTtl → Bool
autottl_enabled attl =
    not (attl.up == attl.down) || not (attl.min_ttl == 0) || not (attl.max_ttl == 0)

unfoldable pub autottl_guess : AutoTtl → ℕ → ℕ
autottl_guess attl hop_count = if autottl_enabled attl then autottl_eval hop_count attl else 0

-- The members of the profile, for IPv4 and for IPv6.
pub record TtlProfile : Type 0 where
  pub desync_autottl : AutoTtl
  pub desync_autottl6 : AutoTtl
  pub orig_autottl : AutoTtl
  pub orig_autottl6 : AutoTtl
  pub dup_autottl : AutoTtl
  pub dup_autottl6 : AutoTtl

-- The members of the connection.
pub record TtlTrack : Type 0 where
  pub b_autottl_discovered : Bool
  pub incoming_ttl : ℕ
  pub desync_ttl : ℕ
  pub orig_ttl : ℕ
  pub dup_ttl : ℕ

abbrev pub by_family : Address → AutoTtl → AutoTtl → AutoTtl
by_family (ipv4 a) attl attl6 = attl
by_family (ipv6 a) attl attl6 = attl6

unfoldable pub set_ttls : TtlProfile → Address → ℕ → TtlTrack → TtlTrack
unfolding autottl_guess
set_ttls dp a hops track =
    if hops == 0 then record track { b_autottl_discovered = true } else record track {
      b_autottl_discovered = true;
      desync_ttl = autottl_guess (by_family a dp.desync_autottl dp.desync_autottl6) hops;
      orig_ttl = autottl_guess (by_family a dp.orig_autottl dp.orig_autottl6) hops;
      dup_ttl = autottl_guess (by_family a dp.dup_autottl dp.dup_autottl6) hops;
    }

module _ (H : HashTable Key IpCacheItem) where
  unfoldable pub discover_found :
      TtlProfile → Address → List ℕ → TtlTrack → IpCache H → IpCacheItem → TtlTrack × IpCache H
  unfolding set_ttls ipcache_write
  discover_found dp a iface track c item =
      if track.incoming_ttl == 0 then (set_ttls dp a item.hops track, c) else (
        set_ttls dp a (hop_count_guess track.incoming_ttl) track,
        ipcache_write H c a iface (record item { hops = hop_count_guess track.incoming_ttl }),
      )

  abbrev pub discovered :
      TtlProfile
      → Address
      → List ℕ
      → TtlTrack
      → IpCache H
      → Option (IpCache H × IpCacheItem)
      → TtlTrack × IpCache H
  discovered dp a iface track c none = (track, c)
  discovered dp a iface track c (some (c2, item)) = discover_found dp a iface track c2 item

  -- `present` is params.autottl_present; the callers' connection is there.
  unfoldable pub autottl_discover :
      Bool → Bool → ℕ → TtlProfile → Address → List ℕ → TtlTrack → IpCache H → TtlTrack × IpCache H
  unfolding ipcache_touch discover_found
  autottl_discover present room now dp a iface track c =
      if present && not track.b_autottl_discovered
      then discovered dp a iface track c (ipcache_touch H room now c a iface)
      else (track, c)

  unfoldable pub autottl_rediscover :
      Bool → Bool → ℕ → TtlProfile → Address → List ℕ → TtlTrack → IpCache H → TtlTrack × IpCache H
  unfolding autottl_discover
  autottl_rediscover present room now dp a iface track c =
      autottl_discover present room now dp a iface (record track { b_autottl_discovered = false }) c
