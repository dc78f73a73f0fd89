-- ===== src/Lib.antt =====
-- A model of the traffic engine of FOG-Prime, FOG.Engine/upstream: of nfq, the code that tracks
-- connections, reads packets, recognizes protocols and chooses the positions at which packets are
-- split; of the transparent proxy tpws, what it changes in a request; and of the tool ip2net, the
-- grouping of addresses into subnets. Paths below are from FOG.Engine/upstream.
--
-- The parts and how they interact. A packet is dissected (nfq/darkmagic.c), its connection is looked
-- up in the table of nfq/conntrack.c, which counts packets, follows the state of a TCP connection and
-- reassembles a message from consecutive segments; the payload is recognized by nfq/protocol.c, which
-- also finds the host's name and the bytes that the split markers stand for. The desync engine
-- (nfq/desync.c) then chooses a profile by its ports, sets of addresses (nfq/ipset.c) and lists of
-- names (nfq/hostlist.c), looks at the counters of the connection to see whether to act, holds packets
-- back while a message is incomplete, and learns names whose connections fail. Helpers for byte order,
-- port filters and sorted arrays are in nfq/helpers.c, nfq/helpers.h and nfq/pools.c; packets that are
-- made or changed get their checksums from nfq/checksum.c. The proxy works on streams instead of
-- packets: tamper_out of tpws/tamper.c finds the header or the record with the code of the same
-- protocol.c and rewrites it in its buffer. ip2net/ip2net.c makes the lists of subnets that the sets of
-- addresses are loaded from.
--
--   Base       shared names, Boolean tests, C arrays as lists, checked reads, machine words
--   Helpers    nfq/helpers.h and nfq/helpers.c: Bytes (pntoh*, phton*), Seq (seq_within), Ports
--              (pf_parse, pf_in_range, the lists of nfq/pools.c), Unique (unique_size_t)
--   Table      what nfq uses of its hash table, as an interface; Table/Function is an instance
--   Net        nfq/darkmagic.c: Headers (tcp_*_segment), TcpOptions (tcp_find_*), Ttl
--              (hop_count_guess, autottl_eval), Dissect (proto_check_*, proto_skip_*,
--              proto_dissect_l3l4), Fragment (ip_frag4)
--   Conntrack  nfq/conntrack.c: Conn (keys), Track (ConntrackFeedPacket), Pool (the table), Reasm
--   Protocol   nfq/protocol.c: Marker (FindNLD, HostPos), Tls, Http, Quic, Detect, Resolve
--              (ResolvePos, ResolveMultiPos)
--   Hostlist   nfq/hostlist.c: SearchHostList and the check of a name against the lists of a profile;
--              Load is addpool and the loop of AppendHostList over a text of names
--   Checksum   nfq/checksum.c: do_csum and the checksums of IPv4, TCP and UDP
--   Ipset      nfq/ipset.c: the check of an address against the sets of a profile
--   Desync     nfq/desync.c: Profile (struct desync_profile), Cutoff (the cutoffs of a flow and the
--              intervals of packets), AutoHostlist (counters of failures and retransmissions, and
--              their purge; Events are the packets and failures over time),
--              Delayed (packets that wait for a reassembly, nfq/packet_queue.c), Match (dp_match,
--              dp_find), Mode (desync modes and the option --dpi-desync of nfq/nfqws.c),
--              Ident (IP4_IP_ID_FIX, IP4_IP_ID_ADD)
--   IpCache    the cache of addresses of nfq/pools.c with its names and hop counts, which nfq/desync.c
--              looks up; Touch, Keep and Name carry the proofs, Hops has autottl_discover
--   Subnets    ip2net/ip2net.c: Options (parse_params); the search and the loop for IPv4, which Whole
--              joins with the sort and unique, and V6; Mask, Blocks, Count, Find, Cover, Nested, Apart
--              and Full carry the proofs
--   Tamper     tpws/tamper.c, tamper_out: Http (one function for each option), Pad (the padding
--              headers), Split (the TLS record that becomes two); Edits, Bounds, Records and Positions
--              carry the proofs
--
-- Functions keep the names of the C code in snake case; each file says which functions it models.
--
-- Memory. A buffer is a list of numbers, a pointer into it a position. A read outside of the buffer
-- is a fault, the value `none` of an option; a function that returns a flag and a result is an option
-- inside that one. A size of w bits keeps its wrap-around (`% 2 ^ w`) where the code can reach it.
-- What a call of the operating system or of a library returns (time, the success of malloc, sscanf,
-- qsort, rand, the hash table) is a parameter.
--
-- Fuel. The loops that are not structural run on fuel, which is a bound on the bytes or items left:
-- the header's length for TCP options, the packet's length for IPv6 headers, the number of items for
-- unique_size_t, the length of the list for TLS extensions, the packet's length for QUIC frames, the
-- number of addresses for the loops of ip2net, the bytes of padding for the padding headers, the
-- length of the segment for the loops over a host's name in tpws, the length of the text for a list
-- of names. Each round uses up at least one of them.
--
-- Not modelled: raw sockets, the netfilter queue, logging, files, Windows, the key derivation and
-- decryption of QUIC packets, which call a crypto library, the sockets and the event loop of tpws, the
-- lines that ip2net reads and prints, and the resolver mdig. The agent and its user interface are
-- written in C#. Of the desync engine
-- the decisions are here, not the handlers of packets that send.
pub mod Base
pub mod Helpers
pub mod Table
pub mod Net
pub mod Conntrack
pub mod Protocol
pub mod Hostlist
pub mod Checksum
pub mod Ipset
pub mod Desync
pub mod IpCache
pub mod Subnets
pub mod Tamper
