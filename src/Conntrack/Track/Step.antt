-- ===== src/Conntrack/Track/Step.antt =====
-- What a packet does to a tracked connection.
use fog_prime.Base.{
  ℕ, ◌+◌, ◌<◌, ◌^◌, ◌≡◌, refl, Bool, true, false, not, ◌==◌, if◌then◌else◌, xor, none, some, List,
  [], ◌∷◌, u32, u64, add32, sub32, bit_and, arith,
}
use fog_prime.Net.Headers.{Tcphdr, tcp_syn_segment, tcp_synack_segment}
use fog_prime.Conntrack.Track.{
  ConnState, syn, established, fin, Ctrack, is_syn, conntrack_init_track, conntrack_feed_packet,
  one_if_data,
}

-- The state after a segment, as the comment on t_connstate describes it.
abbrev pub next_state : Tcphdr → Ctrack → ConnState
next_state h t =
    if tcp_syn_segment h
    then syn
    else if tcp_synack_segment h
    then (if t.seq0 == sub32 h.th_ack 1 then t.state else syn)
    else if not (bit_and h.th_flags 5 == 0)
    then fin
    else (if is_syn t.state then established else t.state)

-- A SYN puts the connection in SYN; a SYN,ACK too, unless it answers the SYN that is known, which
-- leaves the state; FIN or RST puts it in FIN; any other segment makes SYN ESTABLISHED and leaves
-- ESTABLISHED and FIN. Afterwards the packet's sequence number is the last one seen in its own
-- direction, where the position is that number and the payload's length modulo 2 ^ 32; its
-- acknowledgement is both the last number and the position in the other direction.
pub feed_packet_state :
    (now : ℕ) (reverse : Bool) (h : Tcphdr) (len : ℕ) (t : Ctrack)
    → let t' = conntrack_feed_packet now reverse (some h) len t in
      (t'.state ≡ next_state h t)
      × (t'.t_last ≡ now)
      × (reverse ≡ false
          → (t'.pos_orig ≡ add32 h.th_seq len)
            × (t'.seq_last ≡ h.th_seq)
            × (t'.pos_reply ≡ h.th_ack)
            × (t'.ack_last ≡ h.th_ack))
      × (reverse ≡ true
          → (t'.pos_reply ≡ add32 h.th_seq len)
            × (t'.ack_last ≡ h.th_seq)
            × (t'.pos_orig ≡ h.th_ack)
            × (t'.seq_last ≡ h.th_ack))
unfolding conntrack_feed_packet
feed_packet_state now true h len t = (ground arith, refl, λ e. cc, λ e. (refl, refl, refl, refl))
feed_packet_state now false h len t = (ground arith, refl, λ e. (refl, refl, refl, refl), λ e. cc)

-- A forward SYN on a connection that has left the SYN state starts a new track in which that SYN is
-- not counted, though the SYN that creates a track is counted as its first packet.
pub syn_reuse_count :
    (now then_ : ℕ) (h : Tcphdr) (len : ℕ) (t : Ctrack)
    → tcp_syn_segment h ≡ true
    → is_syn t.state ≡ false
    → ((conntrack_feed_packet now false (some h) len t).pcounter_orig ≡ 0)
      × ((conntrack_feed_packet now false (some h) len (conntrack_init_track then_)).pcounter_orig
          ≡ 1)
unfolding conntrack_feed_packet
syn_reuse_count now then_ h len t e s = ground arith

-- A run of packets with no TCP header: the time, the direction and the payload length of each.
pub feed_run : List (ℕ × Bool × ℕ) → Ctrack → Ctrack
feed_run [] t = t
feed_run ((now, reverse, len) ∷ ps) t = feed_run ps (conntrack_feed_packet now reverse none len t)

-- The packets of a direction, those with a payload, and the sum of the payload lengths.
abbrev pub packets : Bool → List (ℕ × Bool × ℕ) → ℕ
packets dir [] = 0
packets dir ((now, reverse, len) ∷ ps) = (if xor dir reverse then 0 else 1) + packets dir ps

abbrev pub data_packets : Bool → List (ℕ × Bool × ℕ) → ℕ
data_packets dir [] = 0
data_packets dir ((now, reverse, len) ∷ ps) =
    (if xor dir reverse then 0 else one_if_data len) + data_packets dir ps

abbrev pub payload : Bool → List (ℕ × Bool × ℕ) → ℕ
payload dir [] = 0
payload dir ((now, reverse, len) ∷ ps) = (if xor dir reverse then 0 else len) + payload dir ps

-- The counters and positions are numbers of their width.
abbrev pub IsWord : Ctrack → Type 0
IsWord t =
    (t.pcounter_orig < 2 ^ 64)
    × (t.pcounter_reply < 2 ^ 64)
    × (t.pdcounter_orig < 2 ^ 64)
    × (t.pdcounter_reply < 2 ^ 64)
    × (t.pos_orig < 2 ^ 32)
    × (t.pos_reply < 2 ^ 32)

-- The counters and positions of `t'` are those of `t` and the packets of `ps`.
abbrev pub Counted : List (ℕ × Bool × ℕ) → Ctrack → Ctrack → Type 0
Counted ps t t' =
    (t'.pcounter_orig ≡ u64 (t.pcounter_orig + packets false ps))
    × (t'.pcounter_reply ≡ u64 (t.pcounter_reply + packets true ps))
    × (t'.pdcounter_orig ≡ u64 (t.pdcounter_orig + data_packets false ps))
    × (t'.pdcounter_reply ≡ u64 (t.pdcounter_reply + data_packets true ps))
    × (t'.pos_orig ≡ u32 (t.pos_orig + payload false ps))
    × (t'.pos_reply ≡ u32 (t.pos_reply + payload true ps))

feed_run-Counted : (ps : List (ℕ × Bool × ℕ)) (t : Ctrack) → IsWord t → Counted ps t (feed_run ps t)
unfolding feed_run conntrack_feed_packet
feed_run-Counted [] t w = omega arith
feed_run-Counted ((now, true, len) ∷ ps) t w =
    let ih = feed_run-Counted ps (conntrack_feed_packet now true none len t) (omega arith) in
    omega (arith, ih)
feed_run-Counted ((now, false, len) ∷ ps) t w =
    let ih = feed_run-Counted ps (conntrack_feed_packet now false none len t) (omega arith) in
    omega (arith, ih)

-- On a track that was just created, packets with no TCP header, in any order of directions, leave
-- in each direction's counter the number of its packets, in its data counter the number of those with
-- a payload (both modulo 2 ^ 64), and in its position the sum of all its payload lengths modulo 2 ^ 32.
pub feed_run_lem :
    (ps : List (ℕ × Bool × ℕ)) (created : ℕ)
    → Counted ps (conntrack_init_track created) (feed_run ps (conntrack_init_track created))
unfolding conntrack_init_track
feed_run_lem ps created = feed_run-Counted ps (conntrack_init_track created) (omega arith)
