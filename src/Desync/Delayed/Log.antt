-- ===== src/Desync/Delayed/Log.antt =====
-- What the log holds after the queue of delayed packets was sent or replayed.
use fog_prime.Base.{
  ℕ, ◌+◌, ◌≡◌, refl, sym, ap, ◌∙◌, Bool, true, Bool-cases, inl, inr, List, [], ◌∷◌, ◌++◌,
  append-nil,
}
use fog_prime.Conntrack.Track.{Ctrack}
use fog_prime.Conntrack.Reasm.{reasm_clear, reasm_is_empty}
use fog_prime.Desync.Delayed.{
  Event, sent, replayed, rawpacket_queue_empty, rawsend_queue, replay_queue, send_delayed,
  reasm_orig_stop,
}

abbrev pub packet_of : Event → ℕ
packet_of (sent p) = p
packet_of (replayed offset p b) = p

abbrev pub packets : List Event → List ℕ
packets [] = []
packets (e ∷ log) = packet_of e ∷ packets log

packets-append :
    (a : List Event) (e : Event) (q : List ℕ)
    → packets (a ++ e ∷ []) ++ q ≡ packets a ++ packet_of e ∷ q
packets-append [] e q = refl
packets-append (x ∷ a) e q = ap (λ l. packet_of x ∷ l) (packets-append a e q)

-- All packets so far: those of the log and those that wait.
abbrev pub all_packets : Ctrack × List Event → List ℕ
all_packets (t, log) = packets log ++ t.delayed

module _ (send : ℕ → Bool) (play : ℕ → ℕ → Bool) (payload : ℕ → ℕ) where
  pub rawsend_lem :
      (q : List ℕ) (log : List Event)
      → packets (rawsend_queue send play payload q log).1 ≡ packets log ++ q
  unfolding rawsend_queue
  rawsend_lem [] log = sym (append-nil (packets log))
  rawsend_lem (p ∷ q) log = rawsend_lem q (log ++ sent p ∷ []) ∙ packets-append log (sent p) q

  pub replay_lem :
      (offset : ℕ) (q : List ℕ) (log : List Event)
      → packets (replay_queue send play payload offset q log).1 ≡ packets log ++ q
  unfolding replay_queue
  replay_lem offset [] log = sym (append-nil (packets log))
  replay_lem offset (p ∷ q) log =
      let e = replayed offset p (play offset p) in
      replay_lem (offset + payload p) q (log ++ e ∷ []) ∙ packets-append log e q

  -- Nothing waits, and no packet is lost.
  pub record Emptied (s s' : Ctrack × List Event) : Type 0 where
    pub none_waits : s'.0.delayed ≡ []
    pub all_there : all_packets s' ≡ all_packets s

  empty_queue : (q : List ℕ) → rawpacket_queue_empty q ≡ true → q ≡ []
  unfolding rawpacket_queue_empty
  empty_queue [] e = refl
  empty_queue (p ∷ q) e = cc

  pub send_lem : (s : Ctrack × List Event) → Emptied s (send_delayed send play payload s)
  unfolding send_delayed
  send_lem (t, log) = elim (Bool-cases (rawpacket_queue_empty t.delayed)) [
    | inl e ↦ rw e (record { none_waits = empty_queue t.delayed e; all_there = refl })
    | inr e ↦ rw e (record {
      none_waits = refl;
      all_there =
          append-nil (packets (rawsend_queue send play payload t.delayed log).1)
          ∙ rawsend_lem t.delayed log;
    })
  ]

  pub stop_lem : (s : Ctrack × List Event) → Emptied s (reasm_orig_stop send play payload s)
  unfolding reasm_orig_stop
  stop_lem (t, log) = elim (Bool-cases (reasm_is_empty t.reasm_orig)) [
    | inl e ↦ rw e (send_lem (t, log))
    | inr e ↦
        let r = send_lem (record t { reasm_orig = reasm_clear t.reasm_orig }, log) in
        rw e (record { none_waits = r.none_waits; all_there = r.all_there })
  ]
