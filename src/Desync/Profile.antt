-- ===== src/Desync/Profile.antt =====
-- What nfq/desync.c reads of a profile, struct desync_profile of nfq/params.h. A cutoff and its mode are one value here.
use fog_prime.Base.{ℕ, Bool, List}
use fog_prime.Helpers.Ports.{PortFilter}

-- The letters n, d, s, and any other.
pub data CutoffMode : Type 0 where
  by_packets by_data by_seq by_none : CutoffMode

pub record Cutoff : Type 0 where
  pub limit : ℕ
  pub mode : CutoffMode

pub record Profile : Type 0 where
  pub wssize_cutoff : Cutoff
  pub desync_start : Cutoff
  pub desync_cutoff : Cutoff
  pub dup_start : Cutoff
  pub dup_cutoff : Cutoff
  pub orig_mod_start : Cutoff
  pub orig_mod_cutoff : Cutoff
  pub filter_ipv4 : Bool
  pub filter_ipv6 : Bool
  pub pf_tcp : List PortFilter
  pub pf_udp : List PortFilter
  pub filter_l7 : ℕ
  pub hostlist_auto : Bool
  pub hostlist_auto_fail_threshold : ℕ
  pub hostlist_auto_fail_time : ℕ
  pub hostlist_auto_retrans_threshold : ℕ
