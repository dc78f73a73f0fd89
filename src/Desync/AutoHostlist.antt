-- ===== src/Desync/AutoHostlist.antt =====
-- Automatic host lists: HostFailPoolAdd to HostFailPoolPurgeRateLimited and HostlistPoolAddStrLen of
-- nfq/pools.c, NonEmptyHostlist and HostlistCheck of nfq/hostlist.c, and auto_hostlist_failed,
-- auto_hostlist_reset_fail_counter of nfq/desync.c. The pools are tables of an interface. `Outside`
-- is what the system answers: whether there is memory, what a reload of the changed list files makes
-- of the lists, and whether the file of the list can be written.
pub mod Recheck
pub mod Failed
pub mod Events
pub mod Learning
pub mod Retrans
use fog_prime.Base.{
  ℕ, ◌+◌, Bool, true, false, not, ◌&&◌, ◌==◌, ltb, leb, if◌then◌else◌, List, [], ◌∷◌, ◌++◌, Option,
  none, some,
}
use fog_prime.Table.{HashTable}
use fog_prime.Hostlist.{Pool, hostlist_check}

pub record HostFail : Type 0 where
  pub counter : ℕ
  pub expire : ℕ

abbrev pub host_fail_pool_new : ℕ → ℕ → HostFail
host_fail_pool_new now fail_time = record { counter = 0; expire = now + fail_time }

module _ (Fails : HashTable (List ℕ) HostFail) where
  unfoldable pub host_fail_pool_add : ℕ → ℕ → List ℕ → Fails.Table → Fails.Table
  host_fail_pool_add now fail_time s t = Fails.add t s (host_fail_pool_new now fail_time)

  unfoldable pub host_fail_pool_purge : ℕ → Fails.Table → Fails.Table
  host_fail_pool_purge now t = Fails.keep (λ s e. not (leb e.expire now)) t

  -- `prev` is host_fail_purge_prev, the time of the last purge of the counters of any profile.
  unfoldable pub host_fail_pool_purge_rate_limited : ℕ → ℕ → Fails.Table → ℕ × Fails.Table
  unfolding host_fail_pool_purge
  host_fail_pool_purge_rate_limited now prev t =
      if not (prev == now) then (now, host_fail_pool_purge now t) else (prev, t)

  -- Without a name, or an element for it, nothing changes.
  unfoldable pub reset_found : List ℕ → Fails.Table → Option HostFail → Fails.Table
  reset_found host t none = t
  reset_found host t (some e) = Fails.del t host

  unfoldable pub auto_hostlist_reset_fail_counter : Option (List ℕ) → Fails.Table → Fails.Table
  unfolding reset_found
  auto_hostlist_reset_fail_counter none t = t
  auto_hostlist_reset_fail_counter (some host) t = reset_found host t (Fails.find t host)

abbrev is_some : Option ℕ → Bool
is_some none = false
is_some (some x) = true

module _ (Hosts : HashTable (List ℕ) ℕ) where
  -- A null pointer is the pool without elements.
  unfoldable pub hostlist_pool_get_str : Option Hosts.Table → List ℕ → Option ℕ
  hostlist_pool_get_str none s = none
  hostlist_pool_get_str (some t) s = Hosts.find t s

  abbrev pub content : Option Hosts.Table → Hosts.Table
  content none = Hosts.empty
  content (some t) = t

  -- The pool and whether there was memory.
  unfoldable pub hostlist_pool_add_str :
      Bool → Option Hosts.Table → List ℕ → ℕ → Option Hosts.Table × Bool
  unfolding hostlist_pool_get_str
  hostlist_pool_add_str memory p s flags =
      if is_some (hostlist_pool_get_str p s)
      then (p, true)
      else if memory
      then (some (Hosts.add (content p) s flags), true)
      else (p, false)

  -- "@&()"
  unfoldable pub non_empty_hostlist : Bool → Option Hosts.Table → Option Hosts.Table × Bool
  unfolding hostlist_pool_add_str
  non_empty_hostlist memory none = hostlist_pool_add_str memory none (64 ∷ 38 ∷ 40 ∷ 41 ∷ []) 0
  non_empty_hostlist memory (some t) = (some t, true)

  -- The lists of a profile: those before and after its automatic list, that list, the lines that
  -- were appended to its file, and the lists that exclude.
  pub record Lists : Type 0 where
    pub before : List (Option Pool)
    pub auto : Option Hosts.Table
    pub after : List (Option Pool)
    pub exclude : List (Option Pool)
    pub file : List (List ℕ)

  abbrev pub answers : Option Hosts.Table → Option Pool
  answers none = none
  answers (some t) = some (Hosts.find t)

  -- hl_collection
  abbrev pub hl_collection : Lists → List (Option Pool)
  hl_collection l = l.before ++ answers l.auto ∷ l.after

  pub record Outside : Type 0 where
    pub fail_memory : Bool
    pub list_memory : Bool
    pub now : ℕ
    -- HostlistsReloadCheck of both collections: the lists, and whether all could be loaded.
    pub reload : Lists → Lists × Bool
    pub writable : Bool

  -- Without `bSkipReloadCheck`: the lists after the reload, the result and `excluded`.
  -- MakeAutolistsNonEmpty, for this profile.
  unfoldable pub make_autolist_non_empty : Outside → Lists → Lists
  unfolding non_empty_hostlist
  make_autolist_non_empty o l = record l { auto = (non_empty_hostlist o.list_memory l.auto).0 }

  unfoldable pub hostlist_check_reload : Outside → Lists → List ℕ → Bool → Lists × (Bool × Bool)
  unfolding make_autolist_non_empty
  hostlist_check_reload o l host no_match_subdomains =
      let r = o.reload l in
      let l' = make_autolist_non_empty o r.0 in
      if r.1
      then (l', hostlist_check (hl_collection l') l'.exclude host no_match_subdomains)
      else (r.0, (false, false))

  -- The part of auto_hostlist_failed that adds the name.
  unfoldable pub add_to_auto : Outside → Lists → List ℕ → Lists
  unfolding hostlist_pool_add_str
  add_to_auto o l host =
      let r = hostlist_pool_add_str o.list_memory l.auto host 0 in
      if r.1 && o.writable
      then record l { auto = r.0; file = l.file ++ host ∷ [] }
      else record l { auto = r.0 }

  unfoldable pub recheck_and_add : Outside → Lists → List ℕ → Bool → Lists
  unfolding hostlist_check_reload add_to_auto
  recheck_and_add o l host no_subdom =
      let c = hostlist_check_reload o l host no_subdom in
      if not c.1.0 && not c.1.1 then add_to_auto o c.0 host else c.0

  module _ (Fails : HashTable (List ℕ) HostFail) where
    -- HostFailPoolFind, and HostFailPoolAdd where it finds nothing; `none` where there is no memory.
    unfoldable pub find_or_add :
        Outside → ℕ → List ℕ → Fails.Table → Option HostFail → Option (Fails.Table × HostFail)
    unfolding host_fail_pool_add
    find_or_add o fail_time host t (some e) = some (t, e)
    find_or_add o fail_time host t none =
        if o.fail_memory
        then some
            (host_fail_pool_add Fails o.now fail_time host t, host_fail_pool_new o.now fail_time)
        else none

    -- From the line `fail_counter->counter++` on.
    unfoldable pub count_failure :
        Outside
        → ℕ
        → List ℕ
        → Bool
        → Fails.Table × Lists
        → Option (Fails.Table × HostFail)
        → Fails.Table × Lists
    unfolding recheck_and_add
    count_failure o threshold host no_subdom s none = s
    count_failure o threshold host no_subdom s (some (t, e)) =
        let counter = e.counter + 1 in
        let t' = Fails.store t host (record e { counter = counter }) in
        if leb threshold counter
        then (Fails.del t' host, recheck_and_add o s.1 host no_subdom)
        else (t', s.1)

    unfoldable pub auto_hostlist_failed :
        Outside → ℕ → ℕ → List ℕ → Bool → Fails.Table × Lists → Fails.Table × Lists
    unfolding find_or_add count_failure
    auto_hostlist_failed o threshold fail_time host no_subdom s =
        count_failure o threshold host no_subdom s
          (find_or_add o fail_time host s.0 (Fails.find s.0 host))
