-- ===== src/Ipset.antt =====
-- Sets of addresses, nfq/ipset.c: SearchIpset, IpsetCheck_ and IpsetCheck. A set answers for an
-- address, as kavl_bit_get of nfq/kavl.h does on its tree; `none` is the null pointer. `loaded` says
-- whether the files that have changed could be loaded.
pub mod Check
mod Tests
use fog_prime.Base.{
  ℕ, Bool, true, false, not, ◌&&◌, ◌||◌, if◌then◌else◌, List, [], ◌∷◌, Option, none, some,
}

-- struct in_addr or in6_addr, of which the callers give one
pub data Address : Type 0 where
  ipv4 : ℕ → Address
  ipv6 : ℕ → Address

pub record Ipset : Type 0 where
  pub ips4 : Option (ℕ → Bool)
  pub ips6 : Option (ℕ → Bool)

abbrev pub has : Option (ℕ → Bool) → ℕ → Bool
has none a = false
has (some s) a = s a

unfoldable pub search_ipset : Ipset → Address → Bool
search_ipset ips (ipv4 a) = has ips.ips4 a
search_ipset ips (ipv6 a) = has ips.ips6 a

-- LIST_FOREACH with a search in each set.
unfoldable pub any_ipset : List Ipset → Address → Bool
unfolding search_ipset
any_ipset [] a = false
any_ipset (ips ∷ list) a = if search_ipset ips a then true else any_ipset list a

abbrev is_none : Option (ℕ → Bool) → Bool
is_none none = true
is_none (some s) = false

-- IPSET_EMPTY
abbrev pub ipset_empty : Ipset → Bool
ipset_empty ips = is_none ips.ips4 && is_none ips.ips6

unfoldable pub ipset_collection_is_empty : List Ipset → Bool
ipset_collection_is_empty [] = true
ipset_collection_is_empty (ips ∷ list) =
    if not (ipset_empty ips) then false else ipset_collection_is_empty list

unfoldable pub ipset_check_lists : Bool → List Ipset → List Ipset → Address → Bool
unfolding any_ipset ipset_collection_is_empty
ipset_check_lists loaded ips exclude a =
    if not loaded
    then false
    else if any_ipset exclude a
    then false
    else if not (ipset_collection_is_empty ips)
    then any_ipset ips a
    else true

abbrev absent : List Ipset → Bool
absent [] = true
absent (ips ∷ list) = false

-- With PROFILE_IPSETS_ABSENT.
unfoldable pub ipset_check : Bool → List Ipset → List Ipset → Address → Bool
unfolding ipset_check_lists
ipset_check loaded ips exclude a =
    if absent ips && absent exclude then true else ipset_check_lists loaded ips exclude a
