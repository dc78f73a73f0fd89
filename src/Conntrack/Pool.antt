-- ===== src/Conntrack/Pool.antt =====
-- The connection table of nfq/conntrack.c: t_conntrack and the ConntrackPool functions over the
-- hash table. A pointer to a track is its key. `mem` says whether malloc and the table's growth
-- succeed, `now` is what time() returns.
pub mod Flow
pub mod Purge
use fog_prime.Base.{
  ℕ, ◌+◌, ◌&&◌, ◌||◌, Bool, true, false, not, ◌==◌, leb, if◌then◌else◌, Option, none, some,
}
use fog_prime.Table.{HashTable}
use fog_prime.Net.Headers.{Packet, Tcphdr, Udphdr, tcp_syn_segment, tcp_synack_segment}
use fog_prime.Conntrack.Conn.{Conn, connswap, conntrack_extract_conn, ipproto_tcp, ipproto_udp}
use fog_prime.Conntrack.Track.{
  ConnState, syn, established, fin, Ctrack, conntrack_init_track, conntrack_feed_packet,
}

-- tcphdr && test(tcphdr)
abbrev pub tcp_and : (Tcphdr → Bool) → Option Tcphdr → Bool
tcp_and test none = false
tcp_and test (some h) = test h

abbrev pub present : Option Udphdr → Bool
present none = false
present (some u) = true

module _ (H : HashTable Conn Ctrack) where
  pub record ConntrackPool : Type 0 where
    pub timeout_syn : ℕ
    pub timeout_established : ℕ
    pub timeout_fin : ℕ
    pub timeout_udp : ℕ
    pub t_purge_interval : ℕ
    pub t_last_purge : ℕ
    pub pool : H.Table

unfoldable pub conntrack_pool_init :
    (H : HashTable Conn Ctrack) → ℕ → ℕ → ℕ → ℕ → ℕ → ℕ → ConntrackPool H
conntrack_pool_init H now purge_interval tsyn test tfin tudp = record {
  timeout_syn = tsyn;
  timeout_established = test;
  timeout_fin = tfin;
  timeout_udp = tudp;
  t_purge_interval = purge_interval;
  t_last_purge = now;
  pool = H.empty;
}

module _ (H : HashTable Conn Ctrack) where
  -- The key of the track and whether the packet runs in reverse; `none` is false.
  unfoldable pub conntrack_pool_double_search : Packet → H.Table → Option (Conn × Bool)
  conntrack_pool_double_search p t =
      let conn = conntrack_extract_conn false p in
      elim (H.find t conn) [
        | some _ ↦ some (conn, false)
        | none ↦ elim (H.find t (connswap conn)) [
          | some _ ↦ some (connswap conn, true)
          | none ↦ none
        ]
      ]

  -- ConntrackNew: an element with an initial track under the key.
  unfoldable pub conntrack_new : Bool → ℕ → Conn → H.Table → Option H.Table
  conntrack_new mem now c t = if mem then some (H.add t c (conntrack_init_track now)) else none

  -- ConntrackFeedPacket on the track found under the key.
  unfoldable pub feed_found : ℕ → Bool → Packet → ℕ → Conn → Ctrack → H.Table → H.Table
  feed_found now reverse p len c track t =
      H.store t c (conntrack_feed_packet now reverse p.tcp len track)

  -- A new track under the key, and the packet fed to it.
  unfoldable pub feed_created :
      ℕ → Bool → Packet → ℕ → Conn → Option H.Table → H.Table → Option (Conn × Bool) × H.Table
  unfolding feed_found
  feed_created now rev p len key none t = (none, t)
  feed_created now rev p len key (some t1) t =
      (some (key, rev), feed_found now rev p len key (conntrack_init_track now) t1)

  -- The part after both searches failed.
  unfoldable pub feed_unknown : Bool → ℕ → Packet → ℕ → H.Table → Option (Conn × Bool) × H.Table
  unfolding conntrack_new feed_created
  feed_unknown mem now p len t =
      let conn = conntrack_extract_conn false p in
      let rev = tcp_and tcp_synack_segment p.tcp in
      let key = if rev then connswap conn else conn in
      if tcp_and tcp_syn_segment p.tcp || rev || present p.udp
      then feed_created now rev p len key (conntrack_new mem now key t) t
      else (none, t)

  -- ConntrackPoolFeedPool: the key of the track fed and the direction, and the table after it.
  unfoldable pub conntrack_pool_feed :
      Bool → ℕ → Packet → ℕ → H.Table → Option (Conn × Bool) × H.Table
  unfolding feed_unknown feed_found
  conntrack_pool_feed mem now p len t =
      let conn = conntrack_extract_conn false p in
      elim (H.find t conn) [
        | some track ↦ (some (conn, false), feed_found now false p len conn track t)
        | none ↦ elim (H.find t (connswap conn)) [
          | some track ↦
              (some (connswap conn, true), feed_found now true p len (connswap conn) track t)
          | none ↦ feed_unknown mem now p len t
        ]
      ]

  unfoldable pub conntrack_pool_drop : Packet → H.Table → Bool × H.Table
  conntrack_pool_drop p t =
      let conn = conntrack_extract_conn false p in
      elim (H.find t conn) [
        | some _ ↦ (true, H.del t conn)
        | none ↦ elim (H.find t (connswap conn)) [
          | some _ ↦ (true, H.del t (connswap conn))
          | none ↦ (false, t)
        ]
      ]

  -- The condition of the walk in ConntrackPoolPurge. time_t is signed: `tnow - t_last >= timeout` is
  -- `t_last + timeout ≤ tnow`.
  unfoldable pub timed_out : ℕ → ConntrackPool H → Conn → Ctrack → Bool
  timed_out now p c t =
      t.app.b_cutoff
      || c.l4proto == ipproto_tcp && (elim t.state [
        | syn ↦ leb (t.t_last + p.timeout_syn) now
        | established ↦ leb (t.t_last + p.timeout_established) now
        | fin ↦ leb (t.t_last + p.timeout_fin) now
      ])
      || c.l4proto == ipproto_udp && leb (t.t_last + p.timeout_udp) now

  unfoldable pub conntrack_pool_purge : ℕ → ConntrackPool H → ConntrackPool H
  unfolding timed_out
  conntrack_pool_purge now p =
      if leb (p.t_last_purge + p.t_purge_interval) now
      then (record p {
        t_last_purge = now;
        pool = H.keep (λ c t. not (timed_out now p c t)) p.pool;
      })
      else p
