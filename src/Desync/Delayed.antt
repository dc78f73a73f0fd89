-- ===== src/Desync/Delayed.antt =====
-- Packets that wait for the reassembly of a message: nfq/packet_queue.c, rawsend_queue of
-- nfq/darkmagic.c, and send_delayed, reasm_start, reasm_feed, reasm_orig_stop and replay_queue of
-- nfq/desync.c. A packet is a number; what the engine does with it stands in a log. `send` says
-- whether a packet could be sent, `play` whether the replay lets it go out, `payload` how long its
-- payload is. Replaying changes nothing of the queue.
pub mod Log
pub mod Order
use fog_prime.Base.{
  ℕ, ◌+◌, Bool, true, false, not, ◌&&◌, leb, if◌then◌else◌, List, [], ◌∷◌, ◌++◌, length, u32, none,
  some, Option,
}
use fog_prime.Conntrack.Track.{Ctrack}
use fog_prime.Conntrack.Reasm.{Reassemble, reasm_clear, reasm_init, reasm_feed, reasm_is_empty}

pub data Event : Type 0 where
  sent : ℕ → Event
  -- the offset in the message, the packet, and whether it was sent after the replay
  replayed : ℕ → ℕ → Bool → Event

-- The uses of the functions below in the handlers, with the tests that stand before them: the start of
-- a reassembly, cancelled if it fails; the payload of a further packet; a packet that waits; the
-- end of the reassembly.
pub data Use : Type 0 where
  start : Bool → List ℕ → Bool → ℕ → ℕ → List ℕ → Use
  feed : Bool → List ℕ → Use
  delay : Bool → Bool → ℕ → Use
  stop : Use

unfoldable pub rawpacket_queue : Bool → ℕ → List ℕ → List ℕ × Bool
rawpacket_queue memory p q = if memory then (q ++ p ∷ [], true) else (q, false)

unfoldable pub rawpacket_dequeue : List ℕ → Option (ℕ × List ℕ)
rawpacket_dequeue [] = none
rawpacket_dequeue (p ∷ q) = some (p, q)

unfoldable pub rawpacket_queue_empty : List ℕ → Bool
rawpacket_queue_empty [] = true
rawpacket_queue_empty (p ∷ q) = false

module _ (send : ℕ → Bool) (play : ℕ → ℕ → Bool) (payload : ℕ → ℕ) where
  -- The result and the log; the queue ends up empty.
  unfoldable pub rawsend_queue : List ℕ → List Event → Bool × List Event
  rawsend_queue [] log = (true, log)
  rawsend_queue (p ∷ q) log =
      let (b, log') = rawsend_queue q (log ++ sent p ∷ []) in (send p && b, log')

  unfoldable pub replay_queue : ℕ → List ℕ → List Event → Bool × List Event
  replay_queue offset [] log = (true, log)
  replay_queue offset (p ∷ q) log =
      let (b, log') =
        replay_queue (offset + payload p) q (log ++ replayed offset p (play offset p) ∷ []) in
      ((if play offset p then send p else true) && b, log')

  unfoldable pub send_delayed : Ctrack × List Event → Ctrack × List Event
  unfolding rawpacket_queue_empty rawsend_queue
  send_delayed (t, log) =
      if not (rawpacket_queue_empty t.delayed)
      then (record t { delayed = [] }, (rawsend_queue t.delayed log).1)
      else (t, log)

  -- Whether it was started; `fresh` is the memory that malloc returns.
  unfoldable pub reasm_orig_start : Bool → List ℕ → Bool → ℕ → ℕ → List ℕ → Ctrack → Bool × Ctrack
  unfolding reasm_clear reasm_init reasm_feed
  reasm_orig_start memory fresh is_tcp sz max chunk t =
      let r = reasm_clear t.reasm_orig in
      let seq = if is_tcp then t.seq_last else 0 in
      let (ok, r') = reasm_init memory fresh sz seq r in
      if leb sz max
      then (if ok
          then (true, record t { reasm_orig = (reasm_feed seq chunk r').1 })
          else (false, record t { reasm_orig = r' }))
      else (false, record t { reasm_orig = r })

  -- Whether the payload was fed.
  unfoldable pub reasm_orig_feed :
      Bool → List ℕ → Ctrack × List Event → Bool × (Ctrack × List Event)
  unfolding reasm_is_empty reasm_clear reasm_feed send_delayed
  reasm_orig_feed is_tcp chunk (t, log) =
      let seq = if is_tcp then t.seq_last else u32 t.reasm_orig.size_present in
      let (ok, r) = reasm_feed seq chunk t.reasm_orig in
      if reasm_is_empty t.reasm_orig
      then (false, (t, log))
      else if ok
      then (true, (record t { reasm_orig = r }, log))
      else (false, send_delayed (record t { reasm_orig = reasm_clear r }, log))

  -- reasm_orig_cancel and reasm_orig_fin, which log different lines.
  unfoldable pub reasm_orig_stop : Ctrack × List Event → Ctrack × List Event
  unfolding reasm_is_empty reasm_clear send_delayed
  reasm_orig_stop (t, log) =
      if not (reasm_is_empty t.reasm_orig)
      then send_delayed (record t { reasm_orig = reasm_clear t.reasm_orig }, log)
      else send_delayed (t, log)

  -- What both packet handlers do with a packet of a message that is being reassembled; whether the
  -- packet waits, and is not to be sent now. `full` is the handler's test of the end of the message.
  unfoldable pub delay_packet : Bool → Bool → ℕ → Ctrack × List Event → Bool × (Ctrack × List Event)
  unfolding rawpacket_queue replay_queue reasm_orig_stop
  delay_packet memory full p (t, log) =
      let (q, ok) = rawpacket_queue memory p t.delayed in
      if not ok
      then (false, reasm_orig_stop (t, log))
      else if full
      then (true, reasm_orig_stop (record t { delayed = [] }, (replay_queue 0 q log).1))
      else (true, (record t { delayed = q }, log))

  unfoldable pub start_or_stop : Bool × Ctrack → List Event → Ctrack × List Event
  unfolding reasm_orig_stop
  start_or_stop (ok, t) log = if ok then (t, log) else reasm_orig_stop (t, log)

  unfoldable pub apply : Use → Ctrack × List Event → Ctrack × List Event
  unfolding reasm_is_empty reasm_orig_start start_or_stop reasm_orig_feed delay_packet
      reasm_orig_stop
  apply (start memory fresh is_tcp sz max chunk) (t, log) =
      if reasm_is_empty t.reasm_orig
      then start_or_stop (reasm_orig_start memory fresh is_tcp sz max chunk t) log
      else (t, log)
  apply (feed is_tcp chunk) s = (reasm_orig_feed is_tcp chunk s).1
  apply (delay memory full p) (t, log) =
      if reasm_is_empty t.reasm_orig then (t, log) else (delay_packet memory full p (t, log)).1
  apply stop s = reasm_orig_stop s

  unfoldable pub apply_all : List Use → Ctrack × List Event → Ctrack × List Event
  unfolding apply
  apply_all [] s = s
  apply_all (u ∷ us) s = apply_all us (apply u s)
