-- ===== src/Desync/Cutoff.antt =====
-- Cutoffs, nfq/desync.c: cutoff_get_limit to forced_wssize_cutoff and the checks of the three
-- intervals. A pointer to a profile is a number, `dps` what it points to; a null pointer to a track
-- is `none`.
pub mod Window
use fog_prime.Base.{
  ℕ, Bool, true, false, not, ◌&&◌, ◌||◌, ◌==◌, leb, Option, none, some, if◌then◌else◌, sub32,
}
use fog_prime.Conntrack.Track.{Ctrack, AppState}
use fog_prime.Desync.Profile.{Profile, Cutoff, CutoffMode, by_packets, by_data, by_seq, by_none}

unfoldable pub cutoff_get_limit : Ctrack → CutoffMode → ℕ
cutoff_get_limit t by_packets = t.pcounter_orig
cutoff_get_limit t by_data = t.pdcounter_orig
cutoff_get_limit t by_seq = sub32 t.seq_last t.seq0
cutoff_get_limit t by_none = 0

unfoldable pub cutoff_test : Ctrack → Cutoff → Bool
unfolding cutoff_get_limit
cutoff_test t c = not (c.limit == 0) && leb c.limit (cutoff_get_limit t c.mode)

-- Where the profile is there.
unfoldable pub set_cutoffs : Profile → Bool → Ctrack → Ctrack
unfolding cutoff_test
set_cutoffs dp is_tcp t = record t {
  app = record (t.app) {
    b_wssize_cutoff = t.app.b_wssize_cutoff || is_tcp && cutoff_test t dp.wssize_cutoff;
    b_desync_cutoff = t.app.b_desync_cutoff || cutoff_test t dp.desync_cutoff;
    b_dup_cutoff = t.app.b_dup_cutoff || cutoff_test t dp.dup_cutoff;
    b_orig_mod_cutoff = t.app.b_orig_mod_cutoff || cutoff_test t dp.orig_mod_cutoff;
  };
}

unfoldable pub maybe_cutoff : (ℕ → Profile) → Bool → Ctrack → Ctrack
unfolding set_cutoffs
maybe_cutoff dps is_tcp t = elim (t.app.dp) [ none ↦ t | some i ↦ set_cutoffs (dps i) is_tcp t ]

unfoldable pub wssize_cutoff : (ℕ → Profile) → Ctrack → Ctrack
unfolding maybe_cutoff
wssize_cutoff dps t =
    maybe_cutoff dps true (record t { app = record (t.app) { b_wssize_cutoff = true } })

unfoldable pub forced_wssize_cutoff : (ℕ → Profile) → Ctrack → Ctrack
unfolding wssize_cutoff
forced_wssize_cutoff dps t = elim (t.app.dp) [
  | none ↦ t
  | some i ↦ if t.app.b_wssize_cutoff then t else wssize_cutoff dps t
]

-- The two tests of a check: the start, and the cutoff, of which the track's flag tells whether it
-- has been reached. With a limit set, a track must be there.
abbrev pub is_started : Cutoff → Option Ctrack → Bool
is_started c none = c.limit == 0
is_started c (some t) = c.limit == 0 || cutoff_test t c

abbrev pub is_open : Cutoff → (AppState → Bool) → Option Ctrack → Bool
is_open c flag none = c.limit == 0
is_open c flag (some t) = c.limit == 0 || not (flag t.app)

unfoldable pub check_desync_interval : Option Profile → Option Ctrack → Bool
unfolding cutoff_test
check_desync_interval none t = true
check_desync_interval (some dp) t =
    is_started dp.desync_start t && is_open dp.desync_cutoff (λ a. a.b_desync_cutoff) t

unfoldable pub check_dup_interval : Option Profile → Option Ctrack → Bool
unfolding cutoff_test
check_dup_interval none t = true
check_dup_interval (some dp) t =
    is_started dp.dup_start t && is_open dp.dup_cutoff (λ a. a.b_dup_cutoff) t

unfoldable pub check_orig_mod_interval : Option Profile → Option Ctrack → Bool
unfolding cutoff_test
check_orig_mod_interval none t = true
check_orig_mod_interval (some dp) t =
    is_started dp.orig_mod_start t && is_open dp.orig_mod_cutoff (λ a. a.b_orig_mod_cutoff) t
