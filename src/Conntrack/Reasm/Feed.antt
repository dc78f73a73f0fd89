-- ===== src/Conntrack/Reasm/Feed.antt =====
-- Reassembly: the invariant of a session, and what a run of consecutive packets leaves in it.
use fog_prime.Base.{
  ℕ, ◌+◌, ◌-◌, ◌≤◌, ◌<◌, ◌≡◌, refl, Bool, true, false, List, [], ◌∷◌, ◌++◌, length, take, drop, u32,
  arith, not, ◌==◌, ltb, if◌then◌else◌, ◌^◌, min, ◌≢◌, length-append, length-take, length-drop,
  take-append_left, take_all, take-min, append_assoc', ◌&&◌, append-nil, append_assoc, ap, ◌∙◌, sym,
  ==_iff,
}
use native.Mathlib.Decide.{ℕ_discrete}
use fog_prime.Conntrack.Reasm.{Reassemble, reasm_feed, reasm_is_empty, reasm_is_full, memcpy_at}

-- The buffer holds `size` bytes, no more than those are counted present, and the sequence number
-- is 32 bits wide.
pub record IsValid (r : Reassemble) : Type 0 where
  pub allocated : length r.packet ≡ r.size
  pub within : r.size_present ≤ r.size
  pub word : r.seq < 2 ^ 32

-- The bytes received so far.
abbrev pub received : Reassemble → List ℕ
received r = take r.size_present r.packet

-- A run of packets, each with the sequence number that follows the one before. A packet out of
-- sequence ends the run with false.
pub feed_all : List (ℕ × List ℕ) → Reassemble → Bool × Reassemble
feed_all [] r = (true, r)
feed_all ((seq, payload) ∷ ps) r =
    let (done, r') = reasm_feed seq payload r in
    let rest = feed_all ps r' in if done then rest else (false, r')

-- The packets of a stream that is cut into `chunks`, from sequence number `seq` on.
abbrev pub in_order : ℕ → List (List ℕ) → List (ℕ × List ℕ)
in_order seq [] = []
in_order seq (c ∷ cs) = (seq, c) ∷ in_order (u32 (seq + length c)) cs

abbrev pub concat : List (List ℕ) → List ℕ
concat [] = []
concat (c ∷ cs) = c ++ concat cs

module _ (buf : List ℕ) (at n : ℕ) (src : List ℕ) (fits : at + n ≤ length buf)
    (has : n ≤ length src) where
  head_length : length (take at buf ++ take n src) ≡ at + n
  head_length =
      omega (arith, length-append (take at buf) (take n src), length-take at buf, length-take n src)

  pub length-memcpy_at : length (memcpy_at buf at src n) ≡ length buf
  length-memcpy_at = rw (append_assoc' (take at buf) (take n src) (drop (at + n) buf)) (
      omega (
        arith,
        head_length,
        length-append (take at buf ++ take n src) (drop (at + n) buf),
        length-drop (at + n) buf,
      ))

  take-memcpy_at : take (at + n) (memcpy_at buf at src n) ≡ take at buf ++ take n src
  take-memcpy_at =
      rw (append_assoc' (take at buf) (take n src) (drop (at + n) buf))
        (take-append_left (at + n) (take at buf ++ take n src) (drop (at + n) buf) head_length)

-- how many bytes of a payload are stored
abbrev pub stored : Reassemble → List ℕ → ℕ
stored r payload = min (length payload) (r.size - r.size_present)

if_ltb-eq-min : (a b : ℕ) → (if ltb a b then a else b) ≡ min a b
if_ltb-eq-min a b = ground arith

-- The session after a packet that it accepts.
abbrev fed : List ℕ → Reassemble → Reassemble
fed payload r = record r {
  packet = memcpy_at r.packet r.size_present payload (stored r payload);
  size_present = r.size_present + stored r payload;
  seq = u32 (r.seq + u32 (stored r payload));
}

feed-eq : (payload : List ℕ) (r : Reassemble) → reasm_feed r.seq payload r ≡ (true, fed payload r)
unfolding reasm_feed
feed-eq payload r = rw (
  (==_iff r.seq r.seq).1 refl,
  reasm_feed,
  if_ltb-eq-min (length payload) (r.size - r.size_present),
)

feed-ne :
    (seq : ℕ) (payload : List ℕ) (r : Reassemble)
    → r.seq ≢ seq
    → reasm_feed seq payload r ≡ (false, r)
unfolding reasm_feed
feed-ne seq payload r ne = ground arith

-- A packet with the expected sequence number is accepted: the invariant stays, the bytes received
-- are followed by as much of the payload as there is room for, and the size expected stays. Any other
-- packet is refused and changes nothing.
pub reasm_feed_lem :
    (seq : ℕ) (payload : List ℕ) (r : Reassemble)
    → IsValid r
    → let (done, r') = reasm_feed seq payload r in
      IsValid r'
      × (r.seq ≡ seq
          → (done ≡ true)
            × (received r' ≡ received r ++ take (r.size - r.size_present) payload)
            × (r'.size ≡ r.size))
      × (r.seq ≢ seq → (done ≡ false) × (r' ≡ r))
reasm_feed_lem seq payload r v = elim (ℕ_discrete r.seq seq) [
  | yes e ↦
      rw (← e, feed-eq payload r)
        (
          record {
            allocated = length-memcpy_at r.packet r.size_present k payload room few ∙ v.allocated;
            within = omega arith;
            word = omega arith;
          },
          λ _. (
            refl,
            take-memcpy_at r.packet r.size_present k payload room few
                ∙ ap (λ t. received r ++ t) (take-min (r.size - r.size_present) payload),
            refl,
          ),
          λ ne. absurd (ne refl),
        )
  | no ne ↦ rw (feed-ne seq payload r ne) (v, λ e. absurd (ne e), λ _. (refl, refl))
]
  where
    k : ℕ
    k = stored r payload

    room : r.size_present + k ≤ length r.packet
    room = omega arith

    few : k ≤ length payload
    few = omega arith

feed_all-step :
    (r : Reassemble) (c : List ℕ) (ps : List (ℕ × List ℕ))
    → feed_all ((r.seq, c) ∷ ps) r ≡ feed_all ps (fed c r)
unfolding feed_all
feed_all-step r c ps = rw (feed-eq c r)

fed_seq :
    (c : List ℕ) (r : Reassemble)
    → r.size < 2 ^ 32
    → IsValid r
    → r.size_present + length c ≤ r.size
    → (fed c r).seq ≡ u32 (r.seq + length c)
fed_seq c r s v h = omega arith

-- A stream cut into packets in any way, each fed with the sequence number that follows the one
-- before, is accepted whole if it fits: the bytes received are followed by the stream, the invariant
-- stays, and the session counts as full exactly if a message is expected and no room is left.
pub feed_all_lem :
    (chunks : List (List ℕ)) (r : Reassemble)
    → IsValid r
    → r.size < 2 ^ 32
    → r.size_present + length (concat chunks) ≤ r.size
    → let (done, r') = feed_all (in_order r.seq chunks) r in
      (done ≡ true)
      × (received r' ≡ received r ++ concat chunks)
      × IsValid r'
      × (reasm_is_full r' ≡ not (r.size == 0) && r.size == r.size_present + length (concat chunks))
feed_all_lem [] r v s h =
    unfold feed_all reasm_is_full reasm_is_empty in (refl, sym (append-nil _), v, ground arith)
feed_all_lem (c ∷ cs) r v s h =
    let r1 = fed c r in
    let (v1, ok, _) = reasm_feed_lem r.seq c r v in
    let v2 : IsValid r1 = rw (feed-eq c r) at v1 in
    let bytes : received r1 ≡ received r ++ take (r.size - r.size_present) c =
      rw (feed-eq c r) at (ok refl).1 in
    let (done, rec, valid, full) =
      feed_all_lem cs r1 v2 s (omega (arith, length-append c (concat cs))) in
    rw
      (
        feed_all-step r c (in_order (u32 (r.seq + length c)) cs),
        ← fed_seq c r s v (omega (arith, length-append c (concat cs))),
      )
      (
        done,
        rec
            ∙ ap (λ t. t ++ concat cs)
                (bytes
                  ∙ ap (λ t. received r ++ t)
                      (take_all (r.size - r.size_present) c
                        (omega (arith, length-append c (concat cs)))))
            ∙ append_assoc (received r) c (concat cs),
        valid,
        full
            ∙ ap (λ k. not (r.size == 0) && r.size == k)
                (omega (arith, length-append c (concat cs))),
      )
