-- ===== src/Conntrack/Track.antt =====
-- The state of a tracked connection, t_ctrack of nfq/conntrack.h, and its update by a packet,
-- ConntrackFeedPacket of nfq/conntrack.c. What conntrack.c does not read but clears stands in
-- `AppState`: the fields that the packet engine uses. `now` is what time() returns. The profile
-- pointer and a queued packet are numbers.
pub mod Step
use fog_prime.Base.{
  ℕ, ◌+◌, ◌^◌, ◌%◌, Bool, true, false, not, ◌&&◌, ◌==◌, if◌then◌else◌, Option, none, some, List, [],
  u8, u32, u64, add32, sub32, bit_and,
}
use fog_prime.Net.Headers.{Tcphdr, tcp_syn_segment, tcp_synack_segment, scale_none}
use fog_prime.Conntrack.Reasm.{Reassemble, reasm_clear}

pub data ConnState : Type 0 where
  syn established fin : ConnState

pub record AppState : Type 0 where
  pub b_check_done : Bool
  pub b_check_result : Bool
  pub b_check_excluded : Bool
  pub dp : Option ℕ
  pub dp_search_complete : Bool
  pub req_retrans_counter : ℕ
  pub req_seq_present : Bool
  pub req_seq_finalized : Bool
  pub req_seq_abandoned : Bool
  pub req_seq_start : ℕ
  pub req_seq_end : ℕ
  pub incoming_ttl : ℕ
  pub desync_autottl : ℕ
  pub orig_autottl : ℕ
  pub dup_autottl : ℕ
  pub b_autottl_discovered : Bool
  pub b_cutoff : Bool
  pub b_wssize_cutoff : Bool
  pub b_desync_cutoff : Bool
  pub b_dup_cutoff : Bool
  pub b_orig_mod_cutoff : Bool
  pub ip_id : ℕ
  pub l7proto : ℕ
  pub l7proto_discovered : Bool
  pub hostname : Option (List ℕ)
  pub hostname_is_ip : Bool
  pub hostname_discovered : Bool
  pub hostname_ah_check : Bool

pub record Ctrack : Type 0 where
  pub app : AppState
  pub t_start : ℕ
  pub t_last : ℕ
  pub pcounter_orig : ℕ
  pub pcounter_reply : ℕ
  pub pdcounter_orig : ℕ
  pub pdcounter_reply : ℕ
  pub pos_orig : ℕ
  pub pos_reply : ℕ
  pub seq_last : ℕ
  pub ack_last : ℕ
  pub state : ConnState
  pub seq0 : ℕ
  pub ack0 : ℕ
  pub winsize_orig : ℕ
  pub winsize_reply : ℕ
  pub scale_orig : ℕ
  pub scale_reply : ℕ
  pub reasm_orig : Reassemble
  pub delayed : List ℕ

-- memset(t,0,sizeof(*t)) on these fields
abbrev pub app_zero : AppState
app_zero = record {
  b_check_done = false;
  b_check_result = false;
  b_check_excluded = false;
  dp = none;
  dp_search_complete = false;
  req_retrans_counter = 0;
  req_seq_present = false;
  req_seq_finalized = false;
  req_seq_abandoned = false;
  req_seq_start = 0;
  req_seq_end = 0;
  incoming_ttl = 0;
  desync_autottl = 0;
  orig_autottl = 0;
  dup_autottl = 0;
  b_autottl_discovered = false;
  b_cutoff = false;
  b_wssize_cutoff = false;
  b_desync_cutoff = false;
  b_dup_cutoff = false;
  b_orig_mod_cutoff = false;
  ip_id = 0;
  l7proto = 0;
  l7proto_discovered = false;
  hostname = none;
  hostname_is_ip = false;
  hostname_discovered = false;
  hostname_ah_check = false;
}

abbrev pub reasm_zero : Reassemble
reasm_zero = record { packet = []; seq = 0; size = 0; size_present = 0 }

-- The value does not depend on what stood in the memory before.
unfoldable pub conntrack_init_track : ℕ → Ctrack
conntrack_init_track now = record {
  app = app_zero;
  t_start = now;
  t_last = 0;
  pcounter_orig = 0;
  pcounter_reply = 0;
  pdcounter_orig = 0;
  pdcounter_reply = 0;
  pos_orig = 0;
  pos_reply = 0;
  seq_last = 0;
  ack_last = 0;
  state = syn;
  seq0 = 0;
  ack0 = 0;
  winsize_orig = 0;
  winsize_reply = 0;
  scale_orig = scale_none;
  scale_reply = scale_none;
  reasm_orig = reasm_zero;
  delayed = [];
}

unfoldable pub conntrack_clear_hostname : AppState → AppState
conntrack_clear_hostname a = record a { hostname = none; hostname_is_ip = false }

unfoldable pub conntrack_clear_track : Ctrack → Ctrack
unfolding conntrack_clear_hostname reasm_clear
conntrack_clear_track t = record t {
  app = conntrack_clear_hostname t.app;
  reasm_orig = reasm_clear t.reasm_orig;
  delayed = [];
}

-- ConntrackClearTrack frees what the track owns; the memset of ConntrackInitTrack then overwrites
-- every field.
unfoldable pub conntrack_reinit_track : ℕ → Ctrack → Ctrack
unfolding conntrack_init_track
conntrack_reinit_track now t = conntrack_init_track now

abbrev pub is_syn : ConnState → Bool
is_syn syn = true
is_syn established = false
is_syn fin = false

-- !!len_payload
abbrev pub one_if_data : ℕ → ℕ
one_if_data len = if len == 0 then 0 else 1

unfoldable pub count_packet : Bool → ℕ → Ctrack → Ctrack
count_packet true len t = record t {
  pcounter_reply = u64 (t.pcounter_reply + 1);
  pdcounter_reply = u64 (t.pdcounter_reply + one_if_data len);
}
count_packet false len t = record t {
  pcounter_orig = u64 (t.pcounter_orig + 1);
  pdcounter_orig = u64 (t.pdcounter_orig + one_if_data len);
}

-- The branches on the segment's flags: SYN, SYN,ACK, FIN or RST, and any other.
unfoldable pub feed_syn : ℕ → Tcphdr → Ctrack → Ctrack
unfolding conntrack_reinit_track
feed_syn now h t =
    let t1 = if not (is_syn t.state) then conntrack_reinit_track now t else t in
    record t1 { seq0 = h.th_seq }

unfoldable pub feed_synack : ℕ → Tcphdr → Ctrack → Ctrack
unfolding conntrack_reinit_track
feed_synack now h t =
    let seq0 = sub32 h.th_ack 1 in
    let t1 =
      if not (is_syn t.state) && not (t.seq0 == seq0) then conntrack_reinit_track now t else t in
    record t1 { seq0 = if t1.seq0 == 0 then seq0 else t1.seq0; ack0 = h.th_seq }

unfoldable pub feed_established : Bool → Tcphdr → Ctrack → Ctrack
feed_established reverse h t =
    if is_syn t.state
    then (record t {
      state = established;
      ack0 = if not reverse && t.ack0 == 0 then sub32 h.th_ack 1 else t.ack0;
    })
    else t

unfoldable pub feed_state : ℕ → Bool → Tcphdr → Ctrack → Ctrack
unfolding feed_syn feed_synack feed_established
feed_state now reverse h t =
    if tcp_syn_segment h
    then feed_syn now h t
    else if tcp_synack_segment h
    then feed_synack now h t
    else if not (bit_and h.th_flags 5 == 0)
    then record t { state = fin }
    else feed_established reverse h t

-- Positions, window sizes and scale factors.
unfoldable pub feed_positions : Bool → Tcphdr → ℕ → Ctrack → Ctrack
feed_positions true h len t = record t {
  pos_orig = h.th_ack;
  seq_last = h.th_ack;
  ack_last = h.th_seq;
  pos_reply = add32 h.th_seq len;
  winsize_reply = h.th_win;
  scale_reply = if not (h.scale == scale_none) then h.scale else t.scale_reply;
}
feed_positions false h len t = record t {
  seq_last = h.th_seq;
  pos_orig = add32 h.th_seq len;
  pos_reply = h.th_ack;
  ack_last = h.th_ack;
  winsize_orig = h.th_win;
  scale_orig = if not (h.scale == scale_none) then h.scale else t.scale_orig;
}

-- The branch without a TCP header.
unfoldable pub feed_other : Bool → ℕ → Ctrack → Ctrack
feed_other true len t = record t { ack_last = t.pos_reply; pos_reply = add32 t.pos_reply len }
feed_other false len t = record t { seq_last = t.pos_orig; pos_orig = add32 t.pos_orig len }

unfoldable pub feed_header : ℕ → Bool → Option Tcphdr → ℕ → Ctrack → Ctrack
unfolding feed_state feed_positions feed_other
feed_header now reverse (some h) len t = feed_positions reverse h len (feed_state now reverse h t)
feed_header now reverse none len t = feed_other reverse len t

unfoldable pub conntrack_feed_packet : ℕ → Bool → Option Tcphdr → ℕ → Ctrack → Ctrack
unfolding count_packet feed_header
conntrack_feed_packet now reverse tcphdr len_payload t =
    let t1 = feed_header now reverse tcphdr len_payload (count_packet reverse len_payload t) in
    record t1 { t_last = now }
