-- ===== src/Desync/Cutoff/Window.antt =====
-- The packets of a flow on which a profile acts.
use fog_prime.Base.{
  ℕ, ◌+◌, ◌^◌, ◌<◌, ◌≡◌, refl, sym, subst, Bool, false, not, ◌&&◌, ◌||◌, ◌==◌, leb, Option, none,
  some, arith, List, [], ◌∷◌, length,
}
use fog_prime.Conntrack.Track.{Ctrack, conntrack_init_track, conntrack_feed_packet}
use fog_prime.Desync.Profile.{Profile, Cutoff, by_packets}
use fog_prime.Desync.Cutoff.{
  cutoff_get_limit, cutoff_test, set_cutoffs, maybe_cutoff, check_desync_interval,
}

test_by_packets :
    (t : Ctrack) (c : Cutoff)
    → c.mode ≡ by_packets
    → cutoff_test t c ≡ (not (c.limit == 0) && leb c.limit t.pcounter_orig)
unfolding cutoff_test cutoff_get_limit
test_by_packets t c e = rw (e, cutoff_get_limit) refl

pub maybe_gen :
    (dps : ℕ → Profile) (i : ℕ) (is_tcp : Bool) (t : Ctrack) (o : Option ℕ)
    → o ≡ some i
    → ◌≡◌ {A = Ctrack}
        (elim o [ none ↦ t | some j ↦ set_cutoffs (dps j) is_tcp t ])
        (set_cutoffs (dps i) is_tcp t)
maybe_gen dps i is_tcp t none e = absurd (no e)
  where
    no : none ≡ some i → ⊥
    no e = cc
maybe_gen dps i is_tcp t (some j) e = cc

module _ (dps : ℕ → Profile) (i : ℕ) where
  -- A forward UDP packet, the time and the length of its payload: the track is fed, and then the
  -- cutoffs are looked at.
  pub step : ℕ × ℕ → Ctrack → Ctrack
  step (now, len) t = maybe_cutoff dps false (conntrack_feed_packet now false none len t)

  pub run : List (ℕ × ℕ) → Ctrack → Ctrack
  run [] t = t
  run (p ∷ ps) t = run ps (step p t)

  -- After `k` packets.
  pub record IsAfter (k : ℕ) (t : Ctrack) : Type 0 where
    pub has_profile : t.app.dp ≡ some i
    pub counted : t.pcounter_orig ≡ k
    pub flagged :
        t.app.b_desync_cutoff
        ≡ (not ((dps i).desync_cutoff.limit == 0) && leb (dps i).desync_cutoff.limit k)

  module _ (by_number : (dps i).desync_cutoff.mode ≡ by_packets) where
    set-IsAfter :
        (k : ℕ) (t : Ctrack)
        → t.app.dp ≡ some i
        → t.pcounter_orig ≡ k + 1
        → t.app.b_desync_cutoff
          ≡ (not ((dps i).desync_cutoff.limit == 0) && leb (dps i).desync_cutoff.limit k)
        → IsAfter (k + 1) (set_cutoffs (dps i) false t)
    unfolding set_cutoffs
    set-IsAfter k t p c f = record {
      has_profile = p;
      counted = c;
      flagged = ground (arith, f, c, test_by_packets t (dps i).desync_cutoff by_number);
    }

    step-IsAfter :
        (k : ℕ) (p : ℕ × ℕ) (t : Ctrack) → k + 1 < 2 ^ 64 → IsAfter k t → IsAfter (k + 1) (step p t)
    unfolding step maybe_cutoff conntrack_feed_packet
    step-IsAfter k (now, len) t h a =
        let t1 = conntrack_feed_packet now false none len t in
        subst (IsAfter (k + 1)) (sym (maybe_gen dps i false t1 t1.app.dp a.has_profile))
          (set-IsAfter k t1 a.has_profile (omega (arith, a.counted)) a.flagged)

    run-IsAfter :
        (ps : List (ℕ × ℕ)) (k : ℕ) (t : Ctrack)
        → k + length ps < 2 ^ 64
        → IsAfter k t
        → IsAfter (k + length ps) (run ps t)
    unfolding run
    run-IsAfter [] k t h a = subst (λ n. IsAfter n t) (omega arith) a
    run-IsAfter (p ∷ ps) k t h a =
        subst (λ n. IsAfter n (run (p ∷ ps) t)) (omega arith)
          (run-IsAfter ps (k + 1) (step p t) (omega (arith, h))
            (step-IsAfter k p t (omega (arith, h)) a))

  -- A track at its first packet, its profile found.
  abbrev pub fresh : ℕ → Ctrack
  fresh now = record (conntrack_init_track now) {
    app = record ((conntrack_init_track now).app) { dp = some i };
  }

  fresh-IsAfter : (now : ℕ) → IsAfter 0 (fresh now)
  unfolding conntrack_init_track
  fresh-IsAfter now = record { has_profile = refl; counted = refl; flagged = ground arith }

  check_lem :
      (k : ℕ) (t : Ctrack)
      → (dps i).desync_start.mode ≡ by_packets
      → IsAfter k t
      → check_desync_interval (some (dps i)) (some t) ≡ (
          ((dps i).desync_start.limit == 0 || leb (dps i).desync_start.limit k)
          && ((dps i).desync_cutoff.limit == 0 || not (leb (dps i).desync_cutoff.limit k)))
  unfolding check_desync_interval
  check_lem k t m a = ground (arith, a.flagged, a.counted, test_by_packets t (dps i).desync_start m)

  -- For a profile whose start `s` and cutoff `c` count packets: after a flow's first `n` forward UDP
  -- packets, each fed to the track and followed by the test of the cutoffs, and fewer than 2^64 of
  -- them, desync is on for the flow exactly if `s` is zero or at most `n`, and `c` is zero or more
  -- than `n`.
  pub desync_window :
      (now : ℕ) (ps : List (ℕ × ℕ))
      → (dps i).desync_start.mode ≡ by_packets
      → (dps i).desync_cutoff.mode ≡ by_packets
      → length ps < 2 ^ 64
      → check_desync_interval (some (dps i)) (some (run ps (fresh now))) ≡ (
          ((dps i).desync_start.limit == 0 || leb (dps i).desync_start.limit (length ps))
          && ((dps i).desync_cutoff.limit == 0
              || not (leb (dps i).desync_cutoff.limit (length ps))))
  desync_window now ps m m' h = check_lem (length ps) (run ps (fresh now)) m (
      subst (λ n. IsAfter n (run ps (fresh now))) (omega arith)
        (run-IsAfter m' ps 0 (fresh now) (omega (arith, h)) (fresh-IsAfter now)))
