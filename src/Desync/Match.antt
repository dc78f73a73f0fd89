-- ===== src/Desync/Match.antt =====
-- The choice of a profile for a packet, dp_match and dp_find of nfq/desync.c, without the filter by
-- wireless network, which is compiled on demand. `hosts_loaded` and `sets_loaded` say whether the list
-- files that have changed could be loaded.
pub mod Filters
pub mod First
use fog_prime.Base.{
  ℕ, zero, suc, Bool, true, false, not, ◌&&◌, ◌||◌, ◌==◌, if◌then◌else◌, List, [], ◌∷◌, Option,
  none, some,
}
use fog_prime.Helpers.Ports.{port_filters_in_range}
use fog_prime.Hostlist.{Pool, hostlist_check, hostlist_collection_is_empty}
use fog_prime.Ipset.{Address, ipv4, ipv6, Ipset, ipset_check}
use fog_prime.Protocol.Resolve.{L7proto, l7_proto_match}
use fog_prime.Desync.Profile.{Profile}

-- A profile with its lists.
pub record Candidate : Type 0 where
  pub dp : Profile
  pub hosts_loaded : Bool
  pub sets_loaded : Bool
  pub hl : List (Option Pool)
  pub hl_exclude : List (Option Pool)
  pub ips : List Ipset
  pub ips_exclude : List Ipset

-- What is known of a packet.
pub record Target : Type 0 where
  pub l3proto : ℕ
  pub dest : Address
  pub port : ℕ
  pub hostname : Option (List ℕ)
  pub no_subdom : Bool
  pub l7proto : L7proto

-- bCheckDone, bCheckResult and bExcluded
pub record Checks : Type 0 where
  pub done : Bool
  pub result : Bool
  pub excluded : Bool

abbrev pub l3_passes : Profile → Address → Bool
l3_passes dp (ipv4 a) = dp.filter_ipv4
l3_passes dp (ipv6 a) = dp.filter_ipv6

abbrev pub l4_passes : Profile → ℕ → ℕ → Bool
l4_passes dp l3proto port = not (
    l3proto == 6 && not (port_filters_in_range dp.pf_tcp port)
    || l3proto == 17 && not (port_filters_in_range dp.pf_udp port))

abbrev pub l7_passes : Profile → L7proto → Bool
l7_passes dp l7 = not (not (dp.filter_l7 == 0) && not (l7_proto_match l7 dp.filter_l7))

abbrev pub is_known : Option (List ℕ) → Bool
is_known none = false
is_known (some h) = true

-- PROFILE_HOSTLISTS_EMPTY
abbrev pub hostlists_empty : Candidate → Bool
hostlists_empty c = hostlist_collection_is_empty c.hl && hostlist_collection_is_empty c.hl_exclude

-- The end of dp_match.
unfoldable pub match_host : Candidate → Target → Checks → Option (List ℕ) → Bool × Checks
match_host c t k none = (false, k)
match_host c t k (some h) =
    let (b, x) = hostlist_check c.hl c.hl_exclude h t.no_subdom in
    (b, record { done = true; result = b; excluded = x })

unfoldable pub dp_match : Candidate → Target → Checks → Bool × Checks
unfolding match_host
dp_match c t k0 =
    let k = record k0 { done = false } in
    if not c.hosts_loaded
    then (false, k)
    else if not (l3_passes c.dp t.dest)
    then (false, k)
    else if not (l4_passes c.dp t.l3proto t.port)
    then (false, k)
    else if not (l7_passes c.dp t.l7proto)
    then (false, k)
    else if not c.dp.hostlist_auto && not (is_known t.hostname) && not (hostlists_empty c)
    then (false, k)
    else if not (ipset_check c.sets_loaded c.ips c.ips_exclude t.dest)
    then (false, k)
    else if c.dp.hostlist_auto
    then (true, k)
    else if hostlists_empty c
    then (true, k)
    else match_host c t k t.hostname

-- The loop, from the profile with the number `n` on.
unfoldable pub find_from : ℕ → List Candidate → Target → Checks → Option ℕ × Checks
unfolding dp_match
find_from n [] t k = (none, k)
find_from n (c ∷ rest) t k =
    let (b, k') = dp_match c t k in if b then (some n, k') else find_from (suc n) rest t k'

unfoldable pub dp_find : List Candidate → Target → Checks → Option ℕ × Checks
unfolding find_from
dp_find head t k = find_from 0 head t (record k { done = false })
