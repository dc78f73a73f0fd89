-- ===== src/Conntrack/Tests.antt =====
-- The theorems about nfq/conntrack.c at concrete inputs, and runs of its functions.
use fog_prime.Base.{
  ℕ, ◌^◌, ◌≡◌, ◌≢◌, true, false, List, [], ◌∷◌, ◌++◌, arith, ◌-◌, length, not, ◌&&◌, ◌==◌, ◌+◌,
  add32, Bool, none, some, ◌≤◌, ◌<◌, ◌↔◌, inl, refl, ap,
}
use fog_prime.Net.Headers.{Tcphdr, Packet, tcp_syn_segment, tcp_synack_segment}
use fog_prime.Table.{HashTable}
use fog_prime.Table.Function.{functions}
use fog_prime.Conntrack.Conn.{
  Conn, connswap, extract_ports, extract_addresses, conntrack_extract_conn, conn_eq, conn_eq_iff,
}
use fog_prime.Conntrack.Track.{Ctrack, established, conntrack_init_track, conntrack_feed_packet}
use fog_prime.Conntrack.Track.Step.{
  next_state, feed_packet_state, syn_reuse_count, Counted, feed_run, feed_run_lem,
}
use fog_prime.Conntrack.Pool.{
  ConntrackPool, conntrack_pool_double_search, conntrack_pool_feed, conntrack_pool_drop,
  conntrack_pool_purge,
}
use fog_prime.Conntrack.Pool.Flow.{OneWay, IsDirected, feed_search}
use fog_prime.Conntrack.Pool.Purge.{IsStale, purge_lem, drop_lem}
use fog_prime.Conntrack.Reasm.{Reassemble, reasm_is_full}
use fog_prime.Conntrack.Reasm.Feed.{IsValid, received, feed_all, in_order, concat, feed_all_lem}

-- two bytes of five are there, and the sequence number is about to wrap
abbrev session : Reassemble
session = record { packet = 1 ∷ 2 ∷ 0 ∷ 0 ∷ 0 ∷ []; seq = 2 ^ 32 - 1; size = 5; size_present = 2 }

abbrev chunks : List (List ℕ)
chunks = (3 ∷ 4 ∷ []) ∷ (5 ∷ []) ∷ []

session-IsValid : IsValid session
session-IsValid = omega arith

feed_all_lem_example :
    let (done, r') = feed_all (in_order session.seq chunks) session in
    (done ≡ true)
    × (received r' ≡ received session ++ concat chunks)
    × IsValid r'
    × (reasm_is_full r'
        ≡ not (session.size == 0) && session.size == session.size_present + length (concat chunks))
feed_all_lem_example = feed_all_lem chunks session session-IsValid (omega arith) (omega arith)

-- the table of the tests
abbrev table : HashTable Conn Ctrack
table = functions conn_eq conn_eq_iff

-- a SYN from 1 to 2, port 1000 to port 443
abbrev syn_header : Tcphdr
syn_header = record {
  th_sport = 1000;
  th_dport = 443;
  th_seq = 2 ^ 32 - 1;
  th_ack = 0;
  th_flags = 2;
  th_win = 64240;
  scale = 7;
}

abbrev syn_packet : Packet
syn_packet = record { ip = some (1, 2); ip6 = none; tcp = some syn_header; udp = none }

abbrev reply_header : Tcphdr
reply_header = record {
  th_sport = 443;
  th_dport = 1000;
  th_seq = 7;
  th_ack = 0;
  th_flags = 18;
  th_win = 64240;
  scale = 7;
}

abbrev reply_packet : Packet
reply_packet = record { ip = some (2, 1); ip6 = none; tcp = some reply_header; udp = none }

syn_packet-IsDirected : IsDirected table syn_packet
unfolding conntrack_extract_conn connswap extract_addresses extract_ports
syn_packet-IsDirected e = omega (arith, ap (λ c. c.src) e)

reply_of_syn :
    conntrack_extract_conn false reply_packet ≡ connswap (conntrack_extract_conn false syn_packet)
unfolding conntrack_extract_conn connswap extract_addresses extract_ports
reply_of_syn = refl

empty-OneWay : OneWay table table.empty
empty-OneWay c ne = inl refl

feed_search_example :
    let (taken, t') = conntrack_pool_feed table true 100 syn_packet 0 table.empty in
    OneWay table t'
    × ((k : Conn) (rev : Bool)
        → taken ≡ some (k, rev)
        → (conntrack_pool_double_search table syn_packet t' ≡ some (k, rev))
          × (conntrack_pool_double_search table reply_packet t' ≡ some (k, not rev)))
feed_search_example =
    feed_search table true 100 syn_packet reply_packet 0 table.empty empty-OneWay
      syn_packet-IsDirected reply_of_syn

-- the table after the SYN
abbrev one_track : table.Table
one_track = (conntrack_pool_feed table true 100 syn_packet 0 table.empty).1

one_track-OneWay : OneWay table one_track
one_track-OneWay =
    (feed_search table true 100 syn_packet reply_packet 0 table.empty empty-OneWay
      syn_packet-IsDirected reply_of_syn).0

drop_lem_example :
    let (dropped, t') = conntrack_pool_drop table syn_packet one_track in
    ((dropped ≡ true) ↔ (conntrack_pool_double_search table syn_packet one_track ≢ none))
    × (conntrack_pool_double_search table syn_packet t' ≡ none)
    × ((j : Conn)
        → j ≢ conntrack_extract_conn false syn_packet
        → j ≢ connswap (conntrack_extract_conn false syn_packet)
        → table.find t' j ≡ table.find one_track j)
drop_lem_example = drop_lem table syn_packet one_track one_track-OneWay syn_packet-IsDirected

it_drops : (conntrack_pool_drop table syn_packet one_track).0 ≡ true
unfolding conntrack_pool_drop conntrack_pool_feed conntrack_extract_conn tcp_syn_segment conn_eq
    tcp_synack_segment
it_drops = refl

-- the table after the SYN, 60 seconds between purges
abbrev pool : ConntrackPool table
pool = record {
  timeout_syn = 60;
  timeout_established = 300;
  timeout_fin = 60;
  timeout_udp = 60;
  t_purge_interval = 60;
  t_last_purge = 100;
  pool = (conntrack_pool_feed table true 100 syn_packet 0 table.empty).1;
}

purge_lem_example :
    let p' = conntrack_pool_purge table 200 pool in
    (200 < pool.t_last_purge + pool.t_purge_interval → p' ≡ pool)
    × (pool.t_last_purge + pool.t_purge_interval ≤ 200
        → (p'.t_last_purge ≡ 200)
          × ((c : Conn) (v : Ctrack)
              → (table.find p'.pool c ≡ some v)
                ↔ ((table.find pool.pool c ≡ some v) × (IsStale table 200 pool c v → ⊥))))
    × (OneWay table pool.pool → OneWay table p'.pool)
purge_lem_example = purge_lem table 200 pool

abbrev fresh : Ctrack
fresh = conntrack_init_track 100

feed_packet_state_example :
    let t' = conntrack_feed_packet 101 false (some syn_header) 0 fresh in
    (t'.state ≡ next_state syn_header fresh)
    × (t'.t_last ≡ 101)
    × (false ≡ false
        → (t'.pos_orig ≡ add32 syn_header.th_seq 0)
          × (t'.seq_last ≡ syn_header.th_seq)
          × (t'.pos_reply ≡ syn_header.th_ack)
          × (t'.ack_last ≡ syn_header.th_ack))
    × (false ≡ true
        → (t'.pos_reply ≡ add32 syn_header.th_seq 0)
          × (t'.ack_last ≡ syn_header.th_seq)
          × (t'.pos_orig ≡ syn_header.th_ack)
          × (t'.seq_last ≡ syn_header.th_ack))
feed_packet_state_example = feed_packet_state 101 false syn_header 0 fresh

abbrev used : Ctrack
used = record (conntrack_init_track 100) { state = established }

is_a_syn : tcp_syn_segment syn_header ≡ true
unfolding tcp_syn_segment
is_a_syn = refl

syn_reuse_count_example :
    ((conntrack_feed_packet 101 false (some syn_header) 0 used).pcounter_orig ≡ 0)
    × ((conntrack_feed_packet 101 false
          (some syn_header)
          0
          (conntrack_init_track 100)).pcounter_orig
        ≡ 1)
syn_reuse_count_example = syn_reuse_count 101 100 syn_header 0 used is_a_syn refl

feed_run_lem_example :
    Counted
      ((101, false, 20) ∷ (102, true, 0) ∷ [])
      fresh
      (feed_run ((101, false, 20) ∷ (102, true, 0) ∷ []) fresh)
feed_run_lem_example = feed_run_lem ((101, false, 20) ∷ (102, true, 0) ∷ []) 100
