-- ===== src/Desync/Delayed/Order.antt =====
-- The order in which delayed packets go out.
use fog_prime.Base.{
  ℕ, ◌≡◌, refl, sym, ap, ◌∙◌, Bool, true, false, not, Bool-cases, inl, inr, if◌then◌else◌, List, [],
  ◌∷◌, ◌++◌, append-nil, append_assoc, ◌||◌, u32, ◌==◌, subst, leb,
}
use fog_prime.Conntrack.Track.{Ctrack, conntrack_init_track}
use fog_prime.Conntrack.Reasm.{Reassemble, reasm_clear, reasm_init, reasm_feed, reasm_is_empty}
use fog_prime.Desync.Delayed.{
  Event, Use, start, feed, delay, stop, rawpacket_queue, replay_queue, send_delayed,
  reasm_orig_start, reasm_orig_feed, reasm_orig_stop, delay_packet, start_or_stop, apply, apply_all,
}
use fog_prime.Desync.Delayed.Log.{packets, all_packets, Emptied, send_lem, stop_lem, replay_lem}

module _ (send : ℕ → Bool) (play : ℕ → ℕ → Bool) (payload : ℕ → ℕ) where
  -- No packet waits where nothing is reassembled.
  pub IsOrderly : Ctrack × List Event → Type 0
  IsOrderly (t, log) = reasm_is_empty t.reasm_orig ≡ true → t.delayed ≡ []

  -- The packet that is taken to wait.
  pub accepted : Use → Ctrack × List Event → List ℕ
  accepted (start memory fresh is_tcp sz max chunk) s = []
  accepted (feed is_tcp chunk) s = []
  accepted (delay memory full p) (t, log) =
      if reasm_is_empty t.reasm_orig || not memory then [] else p ∷ []
  accepted stop s = []

  pub accepted_all : List Use → Ctrack × List Event → List ℕ
  accepted_all [] s = []
  accepted_all (u ∷ us) s = accepted u s ++ accepted_all us (apply send play payload u s)

  -- No packet is lost or overtaken: `more` are the packets that are new.
  pub record Kept (s : Ctrack × List Event) (more : List ℕ) (s' : Ctrack × List Event)
      : Type 0 where
    pub orderly : IsOrderly s'
    pub all_there : all_packets s' ≡ all_packets s ++ more

  module _ (s : Ctrack × List Event) (more : List ℕ) where
    Kept-if :
        (b : Bool) (x y : Ctrack × List Event)
        → (b ≡ true → Kept s more x)
        → (b ≡ false → Kept s more y)
        → Kept s more (if b then x else y)
    Kept-if true x y f g = f refl
    Kept-if false x y f g = g refl

    Kept-if_pair :
        (b : Bool) (x y : Bool × (Ctrack × List Event))
        → (b ≡ true → Kept s more x.1)
        → (b ≡ false → Kept s more y.1)
        → Kept s more (if b then x else y).1
    Kept-if_pair true x y f g = f refl
    Kept-if_pair false x y f g = g refl

  differ : {b : Bool} → b ≡ true → b ≡ false → ⊥
  differ e f = cc

  kept_same : (s : Ctrack × List Event) → IsOrderly s → Kept s [] s
  kept_same s o = record { orderly = o; all_there = sym (append-nil (all_packets s)) }

  kept_empty : (s s' : Ctrack × List Event) → Emptied send play payload s s' → Kept s [] s'
  unfolding IsOrderly
  kept_empty s s' r = record {
    orderly = λ e. r.none_waits;
    all_there = r.all_there ∙ sym (append-nil (all_packets s));
  }

  -- A track that differs in what is reassembled only.
  kept_reasm :
      (t : Ctrack) (log : List Event) (r : Reassemble)
      → (reasm_is_empty r ≡ true → t.delayed ≡ [])
      → Kept (t, log) [] (record t { reasm_orig = r }, log)
  unfolding IsOrderly
  kept_reasm t log r o = record { orderly = o; all_there = sym (append-nil (all_packets (t, log))) }

  feed_size : (seq : ℕ) (chunk : List ℕ) (r : Reassemble) → (reasm_feed seq chunk r).1.size ≡ r.size
  unfolding reasm_feed
  feed_size seq chunk r = elim (Bool-cases (r.seq == seq)) [
    | inl e ↦ rw (e, reasm_feed) refl
    | inr e ↦ rw (e, reasm_feed) refl
  ]

  kept_feed :
      (is_tcp : Bool) (chunk : List ℕ) (s : Ctrack × List Event)
      → IsOrderly s
      → Kept s [] (reasm_orig_feed send play payload is_tcp chunk s).1
  unfolding reasm_orig_feed IsOrderly reasm_is_empty
  kept_feed is_tcp chunk (t, log) o =
      let seq = if is_tcp then t.seq_last else u32 t.reasm_orig.size_present in
      let fed = reasm_feed seq chunk t.reasm_orig in
      let cleared = record t { reasm_orig = reasm_clear fed.1 } in
      let r = send_lem send play payload (cleared, log) in
      Kept-if_pair (t, log) [] (reasm_is_empty t.reasm_orig) (false, (t, log))
        (if fed.0
          then (true, (record t { reasm_orig = fed.1 }, log))
          else (false, send_delayed send play payload (cleared, log)))
        (λ e. kept_same (t, log) o)
        (λ e.
          Kept-if_pair (t, log) [] fed.0 (true, (record t { reasm_orig = fed.1 }, log))
            (false, send_delayed send play payload (cleared, log))
            (λ f.
              kept_reasm t log fed.1
                (λ h. o (ap (λ n. n == 0) (sym (feed_size seq chunk t.reasm_orig)) ∙ h)))
            (λ f. record {
              orderly = λ h. r.none_waits;
              all_there = r.all_there ∙ sym (append-nil (all_packets (t, log)));
            }))

  kept_wait :
      (memory full : Bool) (p : ℕ) (t : Ctrack) (log : List Event)
      → reasm_is_empty t.reasm_orig ≡ false
      → Kept
          (t, log)
          (if not memory then [] else p ∷ [])
          (delay_packet send play payload memory full p (t, log)).1
  unfolding delay_packet rawpacket_queue IsOrderly
  kept_wait false full p t log e =
      kept_empty (t, log) (reasm_orig_stop send play payload (t, log))
        (stop_lem send play payload (t, log))
  kept_wait true true p t log e =
      let log' = (replay_queue send play payload 0 (t.delayed ++ p ∷ []) log).1 in
      let r = stop_lem send play payload (record t { delayed = [] }, log') in
      record {
        orderly = λ e. r.none_waits;
        all_there =
            r.all_there
            ∙ append-nil (packets log')
            ∙ replay_lem send play payload 0 (t.delayed ++ p ∷ []) log
            ∙ sym (append_assoc (packets log) t.delayed (p ∷ []));
      }
  kept_wait true false p t log e = record {
    orderly = λ e'. absurd (differ e' e);
    all_there = sym (append_assoc (packets log) t.delayed (p ∷ []));
  }

  accepted_none :
      (memory full : Bool) (p : ℕ) (t : Ctrack) (log : List Event)
      → reasm_is_empty t.reasm_orig ≡ true
      → accepted (delay memory full p) (t, log) ≡ []
  unfolding accepted
  accepted_none memory full p t log e = rw e refl

  accepted_waits :
      (memory full : Bool) (p : ℕ) (t : Ctrack) (log : List Event)
      → reasm_is_empty t.reasm_orig ≡ false
      → accepted (delay memory full p) (t, log) ≡ (if not memory then [] else p ∷ [])
  unfolding accepted
  accepted_waits memory full p t log e = rw e refl

  kept_delay :
      (memory full : Bool) (p : ℕ) (s : Ctrack × List Event)
      → IsOrderly s
      → Kept s (accepted (delay memory full p) s) (apply send play payload (delay memory full p) s)
  unfolding apply
  kept_delay memory full p (t, log) o =
      Kept-if (t, log) (accepted (delay memory full p) (t, log)) (reasm_is_empty t.reasm_orig)
        (t, log) (delay_packet send play payload memory full p (t, log)).1
        (λ e.
          subst (λ more. Kept (t, log) more (t, log)) (sym (accepted_none memory full p t log e))
            (kept_same (t, log) o))
        (λ e.
          subst
            (λ more. Kept (t, log) more (delay_packet send play payload memory full p (t, log)).1)
            (sym (accepted_waits memory full p t log e)) (kept_wait memory full p t log e))

  start_delayed :
      (memory : Bool) (fresh : List ℕ) (is_tcp : Bool) (sz max : ℕ) (chunk : List ℕ) (t : Ctrack)
      → (reasm_orig_start send play payload memory fresh is_tcp sz max chunk t).1.delayed
        ≡ t.delayed
  unfolding reasm_orig_start reasm_init
  start_delayed true fresh is_tcp sz max chunk t = elim (Bool-cases (leb sz max)) [
    | inl e ↦ rw e refl
    | inr e ↦ rw e refl
  ]
  start_delayed false fresh is_tcp sz max chunk t = elim (Bool-cases (leb sz max)) [
    | inl e ↦ rw e refl
    | inr e ↦ rw e refl
  ]

  kept_begun :
      (t : Ctrack) (log : List Event) (b : Bool × Ctrack)
      → b.1.delayed ≡ t.delayed
      → t.delayed ≡ []
      → Kept (t, log) [] (start_or_stop send play payload b log)
  unfolding start_or_stop IsOrderly
  kept_begun t log (true, t') d z = record {
    orderly = λ e. d ∙ z;
    all_there = ap (λ q. packets log ++ q) d ∙ sym (append-nil (packets log ++ t.delayed));
  }
  kept_begun t log (false, t') d z =
      let r = stop_lem send play payload (t', log) in
      record {
        orderly = λ e. r.none_waits;
        all_there =
            r.all_there
            ∙ ap (λ q. packets log ++ q) d
            ∙ sym (append-nil (packets log ++ t.delayed));
      }

  kept_start :
      (memory : Bool) (fresh : List ℕ) (is_tcp : Bool) (sz max : ℕ) (chunk : List ℕ)
      (s : Ctrack × List Event)
      → IsOrderly s
      → Kept s [] (apply send play payload (start memory fresh is_tcp sz max chunk) s)
  unfolding apply IsOrderly
  kept_start memory fresh is_tcp sz max chunk (t, log) o =
      Kept-if (t, log) [] (reasm_is_empty t.reasm_orig)
        (start_or_stop send play payload
          (reasm_orig_start send play payload memory fresh is_tcp sz max chunk t) log)
        (t, log)
        (λ e.
          kept_begun t log (reasm_orig_start send play payload memory fresh is_tcp sz max chunk t)
            (start_delayed memory fresh is_tcp sz max chunk t) (o e))
        (λ e. kept_same (t, log) o)

  kept :
      (u : Use) (s : Ctrack × List Event)
      → IsOrderly s
      → Kept s (accepted u s) (apply send play payload u s)
  unfolding apply accepted
  kept stop s o = kept_empty s (reasm_orig_stop send play payload s) (stop_lem send play payload s)
  kept (feed is_tcp chunk) s o = kept_feed is_tcp chunk s o
  kept (start memory fresh is_tcp sz max chunk) s o =
      kept_start memory fresh is_tcp sz max chunk s o
  kept (delay memory full p) s o = kept_delay memory full p s o

  kept_all :
      (us : List Use) (s : Ctrack × List Event)
      → IsOrderly s
      → Kept s (accepted_all us s) (apply_all send play payload us s)
  unfolding apply_all accepted_all
  kept_all [] s o = kept_same s o
  kept_all (u ∷ us) s o =
      let a = kept u s o in
      let b = kept_all us (apply send play payload u s) a.orderly in
      record {
        orderly = b.orderly;
        all_there =
            b.all_there
            ∙ ap (λ l. l ++ accepted_all us (apply send play payload u s)) a.all_there
            ∙ append_assoc (all_packets s) (accepted u s)
                (accepted_all us (apply send play payload u s));
      }

  -- Whatever the handlers do with the reassembly of a flow, from its first packet on: the packets
  -- that were taken to wait are, in the order in which they came, those that were sent or replayed so
  -- far, followed by those that still wait; and none waits where no message is being reassembled.
  pub delayed_in_order :
      (now : ℕ) (us : List Use)
      → let s' = apply_all send play payload us (conntrack_init_track now, []) in
        (all_packets s' ≡ accepted_all us (conntrack_init_track now, []))
        × (reasm_is_empty s'.0.reasm_orig ≡ true → s'.0.delayed ≡ [])
  unfolding conntrack_init_track IsOrderly
  delayed_in_order now us =
      let k = kept_all us (conntrack_init_track now, []) (λ e. refl) in (k.all_there, k.orderly)
