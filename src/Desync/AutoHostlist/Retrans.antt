-- ===== src/Desync/AutoHostlist/Retrans.antt =====
-- Counting the retransmissions of a request: ctrack_stop_retrans_counter, auto_hostlist_retrans and
-- process_retrans_fail of nfq/desync.c. `fails` is the table of the profile of the track, which is
-- there. The counter is one byte.
pub mod Count
use fog_prime.Base.{
  ℕ, ◌+◌, ◌<◌, ◌≤◌, ◌≡◌, refl, sym, ap, ◌∙◌, subst, Bool, true, false, not, ◌&&◌, ◌||◌, ◌==◌, leb,
  ltb, none, some, arith, List, [], ◌∷◌, Option, if◌then◌else◌, u8, zero, suc, Bool-cases, inl, inr,
}
use fog_prime.Table.{HashTable}
use fog_prime.Helpers.Seq.{seq_within}
use fog_prime.Conntrack.Track.{Ctrack}
use fog_prime.Desync.Profile.{Profile}
use fog_prime.Desync.Cutoff.{set_cutoffs, maybe_cutoff}
use fog_prime.Desync.Cutoff.Window.{maybe_gen}
use fog_prime.Desync.AutoHostlist.{
  HostFail, Lists, Outside, auto_hostlist_reset_fail_counter, auto_hostlist_failed,
}

-- RETRANS_COUNTER_STOP
abbrev pub retrans_counter_stop : ℕ
retrans_counter_stop = 255

abbrev pub set_retrans_counter : ℕ → Ctrack → Ctrack
set_retrans_counter n t = record t { app = record (t.app) { req_retrans_counter = n } }

abbrev has_profile : Option ℕ → Bool
has_profile none = false
has_profile (some i) = true

module _ (dps : ℕ → Profile) where
  unfoldable pub ctrack_stop_retrans_counter : Ctrack → Ctrack
  unfolding maybe_cutoff
  ctrack_stop_retrans_counter t =
      if t.app.hostname_ah_check
      then maybe_cutoff dps true (set_retrans_counter retrans_counter_stop t)
      else t

  -- The counting of auto_hostlist_retrans, and whether the trigger fires.
  unfoldable pub count_retrans : ℕ → Ctrack → Ctrack × Bool
  unfolding ctrack_stop_retrans_counter
  count_retrans threshold t =
      let n = u8 (t.app.req_retrans_counter + 1) in
      let t' = set_retrans_counter n t in
      if leb threshold n then (ctrack_stop_retrans_counter t', true) else (t', false)

  abbrev pub is_counting : Ctrack → Bool
  is_counting t =
      has_profile t.app.dp
      && t.app.hostname_ah_check
      && not (t.app.req_retrans_counter == retrans_counter_stop)

  abbrev pub in_request : Ctrack → Bool
  in_request t = seq_within t.seq_last t.app.req_seq_start t.app.req_seq_end

  module _ (Fails : HashTable (List ℕ) HostFail) where
    unfoldable pub auto_hostlist_retrans :
        Bool → ℕ → Ctrack → Fails.Table → (Ctrack × Bool) × Fails.Table
    unfolding count_retrans ctrack_stop_retrans_counter
    auto_hostlist_retrans is_tcp threshold t fails =
        if not (is_counting t)
        then ((t, false), fails)
        else if is_tcp && (not t.app.req_seq_finalized || t.app.req_seq_abandoned)
        then ((t, false), fails)
        else if is_tcp && not (in_request t)
        then (
          (ctrack_stop_retrans_counter t, false),
          auto_hostlist_reset_fail_counter Fails t.app.hostname fails,
        )
        else (count_retrans threshold t, fails)

    module _ (Hosts : HashTable (List ℕ) ℕ) where
      unfoldable pub process_found :
          Outside Hosts
          → Bool
          → Ctrack
          → Fails.Table × Lists Hosts
          → Option ℕ
          → Option (List ℕ)
          → Ctrack × (Fails.Table × Lists Hosts)
      unfolding auto_hostlist_retrans
      process_found o is_tcp t s (some i) (some host) =
          let r = auto_hostlist_retrans is_tcp (dps i).hostlist_auto_retrans_threshold t s.0 in
          if r.0.1
          then (
            r.0.0,
            auto_hostlist_failed Hosts Fails o (dps i).hostlist_auto_fail_threshold
                (dps i).hostlist_auto_fail_time host t.app.hostname_is_ip (r.1, s.1),
          )
          else (r.0.0, (r.1, s.1))
      process_found o is_tcp t s (some i) none = (t, s)
      process_found o is_tcp t s none host = (t, s)

      unfoldable pub process_retrans_fail :
          Outside Hosts
          → Bool
          → Ctrack
          → Fails.Table × Lists Hosts
          → Ctrack × (Fails.Table × Lists Hosts)
      unfolding process_found
      process_retrans_fail o is_tcp t s = process_found o is_tcp t s t.app.dp t.app.hostname
