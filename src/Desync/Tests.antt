-- ===== src/Desync/Tests.antt =====
-- The theorems about nfq/desync.c at concrete inputs, and runs of its functions.
use fog_prime.Base.{
  bytes_eq, bytes_eq_iff, ℕ, not, ◌+◌, ◌≡◌, ◌↔◌, refl, true, false, ◌==◌, Bool, none, some, arith,
  List, [], ◌∷◌, ◌++◌, ◌-◌, ◌%◌,
}
use fog_prime.Desync.Ident.{swap16}
use fog_prime.Desync.Ident.Cycle.{ids, ids_lem}
use fog_prime.Table.{HashTable}
use fog_prime.Table.Function.{functions}
use fog_prime.Helpers.Seq.{seq_within}
use fog_prime.Hostlist.{any_list, hostlist_check}
use fog_prime.Conntrack.Track.{Ctrack, conntrack_init_track}
use fog_prime.Desync.Profile.{Profile, Cutoff, by_packets, by_none}
use fog_prime.Desync.Cutoff.{check_desync_interval}
use fog_prime.Desync.Cutoff.Window.{run, fresh, desync_window}
use fog_prime.Desync.AutoHostlist.{
  host_fail_pool_purge_rate_limited, auto_hostlist_failed, HostFail, Lists, Outside, hl_collection,
}
use fog_prime.Desync.AutoHostlist.Failed.{failed}
use fog_prime.Desync.AutoHostlist.Events.{
  Event, packet, elsewhere, failure, without_failures, run_events,
}
use fog_prime.Desync.AutoHostlist.Learning.{
  learned_at_threshold, learned_unchecked, protected_stays,
}
use fog_prime.Desync.AutoHostlist.Retrans.{auto_hostlist_retrans}
use fog_prime.Desync.AutoHostlist.Retrans.Count.{retrans_run, retrans_fires_once}
use fog_prime.Conntrack.Reasm.{reasm_is_empty}
use fog_prime.Desync.Delayed.{Use, start, feed, delay, stop, apply_all}
use fog_prime.Desync.Delayed.Log.{all_packets}
use fog_prime.Desync.Delayed.Order.{accepted_all, delayed_in_order}
use fog_prime.Ipset.{ipv4}
use fog_prime.Protocol.Resolve.{tls}
use fog_prime.Desync.Match.{Candidate, Target, Checks, dp_find}
use fog_prime.Desync.Match.First.{IsFirst, dp_find_lem}
use fog_prime.Desync.Mode.{
  none_mode, fake, multisplit, syndata, synack, desync_valid_zero_stage, desync_valid_first_stage,
  desync_valid_second_stage, desync_valid_second_stage_tcp, parse_dpi_desync,
  desync_mode_from_string, first_word, check_combo, cut_comma,
}
use fog_prime.Desync.Mode.Words.{word}
use fog_prime.Desync.Mode.Combo.{pair, combo_read}

abbrev no_cutoff : Cutoff
no_cutoff = record { limit = 0; mode = by_none }

-- from the second packet on, before the fourth
abbrev profile : Profile
profile = record {
  wssize_cutoff = no_cutoff;
  desync_start = record { limit = 2; mode = by_packets };
  desync_cutoff = record { limit = 4; mode = by_packets };
  dup_start = no_cutoff;
  dup_cutoff = no_cutoff;
  orig_mod_start = no_cutoff;
  orig_mod_cutoff = no_cutoff;
  filter_ipv4 = true;
  filter_ipv6 = true;
  pf_tcp = [];
  pf_udp = [];
  filter_l7 = 0;
  hostlist_auto = true;
  hostlist_auto_fail_threshold = 2;
  hostlist_auto_fail_time = 60;
  hostlist_auto_retrans_threshold = 3;
}

abbrev profiles : ℕ → Profile
profiles i = profile

abbrev three_packets : List (ℕ × ℕ)
three_packets = (100, 50) ∷ (101, 50) ∷ (103, 40) ∷ []

desync_window_example :
    check_desync_interval
      (some profile)
      (some (run profiles 0 three_packets (fresh profiles 0 100)))
    ≡ true
desync_window_example = desync_window profiles 0 100 three_packets refl refl (omega arith)

abbrev fails : HashTable (List ℕ) HostFail
fails = functions bytes_eq bytes_eq_iff

abbrev hosts : HashTable (List ℕ) ℕ
hosts = functions bytes_eq bytes_eq_iff

-- "a.b" and "b"
abbrev a_b : List ℕ
a_b = 97 ∷ 46 ∷ 98 ∷ []

abbrev b : List ℕ
b = 98 ∷ []

-- The automatic list has the impossible name only.
abbrev lists : Lists hosts
lists = record {
  before = [];
  auto = some (hosts.add hosts.empty (64 ∷ 38 ∷ 40 ∷ 41 ∷ []) 0);
  after = some (hosts.add hosts.empty b 1) ∷ [];
  exclude = none ∷ [];
  file = [];
}

-- The excluding list has "b".
abbrev protected : Lists hosts
protected = record lists { exclude = some (hosts.add hosts.empty b 0) ∷ [] }

abbrev fine : Outside hosts
fine = record {
  fail_memory = true;
  list_memory = true;
  now = 1000;
  reload = λ l. (l, true);
  writable = true;
}

abbrev counters : fails.Table
counters = fails.empty

-- A failure at 1000, and packets in the next minute, two of them of this profile.
abbrev events : List (Event hosts)
events = packet 1000 ∷ failure fine ∷ elsewhere 1030 ∷ packet 1030 ∷ packet 1059 ∷ []

learned_at_threshold_example :
    let r = (run_events hosts fails 2 60 a_b false events 7 (counters, lists)).1 in
    let r' = failed hosts fails 2 60 a_b false fine r in
    (r.1 ≡ lists)
    × (fails.find r'.0 a_b ≡ none)
    × (r'.1.file ≡ [] ++ a_b ∷ [])
    × (hostlist_check (hl_collection hosts r'.1) r'.1.exclude a_b false ≡ (true, false))
unfolding hostlist_check
learned_at_threshold_example =
    learned_at_threshold hosts fails 2 60 a_b false events fine 7 1000 (counters, lists)
      (hosts.add hosts.empty (64 ∷ 38 ∷ 40 ∷ 41 ∷ []) 0) (refl, (refl, tt)) (omega arith) refl refl
      refl (omega arith) refl refl refl

protected_stays_example :
    let es = failure fine ∷ failure fine ∷ events in
    let r = (run_events hosts fails 2 60 a_b false es 7 (counters, protected)).1 in
    (r.1 ≡ protected)
    × ((j : List ℕ)
        → bytes_eq a_b j ≡ false
        → fails.find r.0 j
          ≡ fails.find
              (run_events hosts fails 2 60 a_b false
                (without_failures hosts es)
                7
                (counters, protected)).1.0
              j)
unfolding hostlist_check
protected_stays_example =
    protected_stays hosts fails 2 60 a_b false (failure fine ∷ failure fine ∷ events) 7
      (counters, protected) (hosts.add hosts.empty (64 ∷ 38 ∷ 40 ∷ 41 ∷ []) 0) false true
      (refl, (refl, (refl, tt))) refl refl refl

-- A packet of the profile a minute after the failure has the counter purged.
counter_purged :
    fails.find
      (run_events hosts fails 2 60 a_b false (events ++ packet 1060 ∷ []) 7 (counters, lists)).1.0
      a_b
    ≡ none
unfolding run_events host_fail_pool_purge_rate_limited auto_hostlist_failed
counter_purged = refl

-- A request of the bytes 100 to 120, at whose start the last packet stands.
abbrev requesting : Ctrack
requesting =
    let t = conntrack_init_track 100 in
    record t {
      seq_last = 100;
      app = record (t.app) {
        dp = some 0;
        hostname_ah_check = true;
        req_seq_finalized = true;
        req_seq_start = 100;
        req_seq_end = 120;
      };
    }

retrans_fires_once_example :
    let r = retrans_run profiles fails 0 3 true 2 requesting counters in
    ((auto_hostlist_retrans profiles fails true 3 r.0 r.1).0.1 ≡ (2 + 1 == 3))
    × ((auto_hostlist_retrans profiles fails true 3 r.0 r.1).1 ≡ counters)
unfolding conntrack_init_track seq_within
retrans_fires_once_example =
    retrans_fires_once profiles fails 0 3 true 2 requesting counters (omega arith) (omega arith)
      refl refl refl refl

-- Packets can be sent, the replay drops packet 2, and payloads are 5 bytes.
abbrev can_send : ℕ → Bool
can_send p = true

abbrev replays : ℕ → ℕ → Bool
replays offset p = not (p == 2)

abbrev five : ℕ → ℕ
five p = 5

-- A message in two packets, and one that is cancelled.
abbrev uses : List Use
uses =
    start true (0 ∷ 0 ∷ 0 ∷ 0 ∷ []) false 4 10 (1 ∷ 2 ∷ [])
    ∷ delay true false 1
    ∷ feed false (3 ∷ 4 ∷ [])
    ∷ delay true true 2
    ∷ start true (0 ∷ 0 ∷ []) true 2 10 (7 ∷ [])
    ∷ delay true false 3
    ∷ delay false false 4
    ∷ stop
    ∷ []

delayed_in_order_example :
    let s' = apply_all can_send replays five uses (conntrack_init_track 100, []) in
    (all_packets s' ≡ accepted_all can_send replays five uses (conntrack_init_track 100, []))
    × (reasm_is_empty s'.0.reasm_orig ≡ true → s'.0.delayed ≡ [])
delayed_in_order_example = delayed_in_order can_send replays five 100 uses

abbrev plain : Candidate
plain = record {
  dp = record profile { hostlist_auto = false };
  hosts_loaded = true;
  sets_loaded = true;
  hl = [];
  hl_exclude = [];
  ips = record { ips4 = some (λ a. a == 7); ips6 = none } ∷ [];
  ips_exclude = [];
}

abbrev automatic : Candidate
automatic = record plain { dp = profile; ips = [] }

abbrev target : Target
target = record {
  l3proto = 6;
  dest = ipv4 8;
  port = 443;
  hostname = none;
  no_subdom = false;
  l7proto = tls;
}

abbrev no_checks : Checks
no_checks = record { done = false; result = false; excluded = false }

dp_find_lem_example :
    ((dp_find (plain ∷ automatic ∷ []) target no_checks).0 ≡ some 1)
    ↔ IsFirst 0 (plain ∷ automatic ∷ []) target 1
dp_find_lem_example = dp_find_lem (plain ∷ automatic ∷ []) target no_checks 1

-- A list file has changed and is not readable.
abbrev unreadable : Outside hosts
unreadable = record fine { reload = λ l. (l, false) }

learned_unchecked_example :
    let r = failed hosts fails 1 60 a_b false unreadable (counters, protected) in
    (r.1.auto ≡ some (hosts.add (hosts.add hosts.empty (64 ∷ 38 ∷ 40 ∷ 41 ∷ []) 0) a_b 0))
    × (r.1.file ≡ [] ++ a_b ∷ [])
    × (hostlist_check (hl_collection hosts r.1) r.1.exclude a_b false ≡ (false, true))
unfolding any_list
learned_unchecked_example =
    learned_unchecked hosts fails 1 60 a_b false unreadable (counters, protected) protected
      (hosts.add hosts.empty (64 ∷ 38 ∷ 40 ∷ 41 ∷ []) 0) refl refl refl refl refl refl refl refl

combo_read_example :
    (parse_dpi_desync (pair fake multisplit) ≡ some (none_mode, fake, multisplit))
    × (parse_dpi_desync (word syndata ++ 44 ∷ pair fake multisplit)
        ≡ some (syndata, fake, multisplit))
unfolding desync_valid_zero_stage desync_valid_first_stage desync_valid_second_stage
    desync_valid_second_stage_tcp
combo_read_example = combo_read syndata fake multisplit refl refl

-- A second mode of stage zero is taken for the first stage.
zero_stage_twice :
    parse_dpi_desync (word syndata ++ 44 ∷ word synack) ≡ some (syndata, synack, none_mode)
unfolding parse_dpi_desync desync_mode_from_string first_word desync_valid_zero_stage check_combo
    cut_comma desync_valid_second_stage
zero_stage_twice = refl

-- The number 65534 in network byte order, and 1 after 65535.
ids_lem_example : swap16 (ids 9 65279 3) ≡ (swap16 65279 - 1 + 3) % 65535 + 1
ids_lem_example = ids_lem 9 65279 3 (omega arith) (omega arith)
