-- ===== src/Protocol/Quic/Defrag/Bounds.antt =====
-- QUICDefragCrypto stays inside its buffers.
use fog_prime.Base.{
  ℕ, zero, suc, ◌+◌, ◌-◌, ◌≤◌, ◌<◌, ◌≡◌, refl, ◌∙◌, Bool, true, false, ◌&&◌, ◌==◌, ltb, leb,
  if◌then◌else◌, max, List, [], ◌∷◌, ◌++◌, length, replicate, length-replicate, length-append,
  Option, none, some, rd, byte, rd_lem, ◌>>=◌, Ensures, Ensures-bind, Ensures-rd, arith, Bool-cases,
  inl, inr,
}
use fog_prime.Helpers.Bytes.{phton64}
use fog_prime.Conntrack.Reasm.{memcpy_at}
use fog_prime.Conntrack.Reasm.Feed.{length-memcpy_at}
use fog_prime.Protocol.Tls.{guarded}
use fog_prime.Protocol.Quic.Varint.{IsVarint, varint_lem, copy_lem}
use fog_prime.Protocol.Quic.{tvb_get_size, tvb_get_varint, copy}
use fog_prime.Protocol.Quic.Defrag.{
  Range, Defrag, is_duplicate, put_piece, add_piece, crypto_frame, defrag_loop, defrag_header,
  quic_defrag_crypto,
}
use fog_prime.Protocol.Quic.Defrag.Merge.{max_end}

module _ (clean : List ℕ) (clean_len capacity room : ℕ) (fits : clean_len ≤ length clean)
    (enough : capacity ≤ room) where
  -- What holds between the rounds: the greatest end is known and the buffer has room for it.
  abbrev pub IsWithin : Defrag → Type 0
  IsWithin d = (d.szmax ≡ max_end d.ranges) × (d.szmax ≤ capacity) × (length d.defrag_data ≡ room)

  max_end-snoc :
      (rs : List Range) (r : Range) → max_end (rs ++ r ∷ []) ≡ max (max_end rs) (r.offset + r.len)
  max_end-snoc [] r = omega arith
  max_end-snoc (r' ∷ rs) r = omega (arith, max_end-snoc rs r)

  zeros_length :
      (d : Defrag) (r : Range)
      → length d.defrag_data ≡ room
      → r.offset ≤ room
      → length (
          if ltb d.zeropos r.offset
          then memcpy_at d.defrag_data d.zeropos
              (replicate (r.offset - d.zeropos) 0)
              (r.offset - d.zeropos)
          else d.defrag_data)
        ≡ room
  zeros_length d r e h = elim (Bool-cases (ltb d.zeropos r.offset)) [
    | inr q ↦ rw q e
    | inl q ↦ rw q (
        length-memcpy_at d.defrag_data d.zeropos (r.offset - d.zeropos)
          (replicate (r.offset - d.zeropos) 0) (ground arith)
          (omega (arith, length-replicate {A = ℕ} (r.offset - d.zeropos) 0))
        ∙ e)
  ]

  add_piece_lem :
      (r : Range) (bytes : List ℕ) (d : Defrag)
      → IsWithin d
      → r.offset + r.len ≤ capacity
      → length bytes ≡ r.len
      → IsWithin (add_piece r bytes d)
  unfolding add_piece put_piece
  add_piece_lem r bytes d (e, le, l) h n = elim (Bool-cases (is_duplicate r d.ranges)) [
    | inl q ↦ rw q (e, le, l)
    | inr q ↦
        rw (q, max_end-snoc d.ranges r)
          (
            ground arith,
            ground arith,
            length-memcpy_at
                  (if ltb d.zeropos r.offset
                    then memcpy_at d.defrag_data d.zeropos (replicate (r.offset - d.zeropos) 0)
                        (r.offset - d.zeropos)
                    else d.defrag_data)
                  r.offset r.len bytes (omega (arith, zeros_length d r l (omega arith)))
                  (omega arith)
                ∙ zeros_length d r l (omega arith),
          )
  ]

  -- A frame's bytes lie in the packet, and its piece in the buffer.
  abbrev IsFrame : Option (Range × ℕ) → Type 0
  IsFrame none = Unit
  IsFrame (some (r, at)) = (at + r.len ≤ clean_len) × (r.offset + r.len ≤ capacity)

  crypto_frame_lem :
      (pos : ℕ) → pos < clean_len → Ensures IsFrame (crypto_frame clean clean_len pos capacity)
  unfolding crypto_frame
  crypto_frame_lem pos lt =
      Ensures-rd IsFrame clean pos _ (omega arith)
        (elim (Bool-cases (ltb (pos + tvb_get_size (byte clean pos)) clean_len)) [
          | inr e ↦ rw (e, Ensures) tt
          | inl e ↦ rw e (
              Ensures-bind (IsVarint (byte clean pos)) IsFrame (tvb_get_varint clean pos) _
                (varint_lem clean pos (ground arith))
                (λ (n, offset) small. second n offset (ground arith)))
        ])
    where
      second :
          (n offset : ℕ)
          → pos + n < clean_len
          → Ensures IsFrame (
              rd clean (pos + n) >>= λ b'. guarded (leb (pos + n + tvb_get_size b') clean_len) (
                tvb_get_varint clean (pos + n) >>= λ (n', sz).
                guarded
                  (leb (pos + n + n' + sz) clean_len && leb (offset + sz) capacity)
                  (some (some (record { offset = offset; len = sz }, pos + n + n')))))
      second n offset in_range =
          Ensures-rd IsFrame clean (pos + n) _ (omega arith)
            (elim (Bool-cases (leb (pos + n + tvb_get_size (byte clean (pos + n))) clean_len)) [
              | inr e ↦ rw (e, Ensures) tt
              | inl e ↦ rw e (
                  Ensures-bind (IsVarint (byte clean (pos + n))) IsFrame
                    (tvb_get_varint clean (pos + n)) _ (varint_lem clean (pos + n) (ground arith))
                    (λ (n', sz) small.
                      elim (Bool-cases
                        (leb (pos + n + n' + sz) clean_len && leb (offset + sz) capacity)) [
                          | inr q ↦ rw (q, Ensures) tt
                          | inl q ↦ rw (q, Ensures) (ground arith, ground arith)
                        ]))
            ])

  abbrev Within : Option Defrag → Type 0
  Within none = Unit
  Within (some d) = IsWithin d

  defrag_loop_lem :
      (fuel pos : ℕ) (d : Defrag)
      → IsWithin d
      → Ensures Within (defrag_loop clean clean_len capacity fuel pos d)
  unfolding defrag_loop
  defrag_loop_lem zero pos d w = w
  defrag_loop_lem (suc fuel) pos d w = elim (Bool-cases (ltb pos clean_len)) [
    | inr e ↦ rw (e, defrag_loop, Ensures) w
    | inl e ↦
        rw (e, defrag_loop, rd_lem clean pos (ground arith))
          (elim (Bool-cases (leb (byte clean pos) 1)) [
            | inl e1 ↦ rw (e1, Ensures) (defrag_loop_lem fuel (pos + 1) d w)
            | inr e1 ↦
                rw (e1, Ensures)
                  (elim (Bool-cases
                    (byte clean pos == 6 && ltb (pos + 1) clean_len && ltb (length d.ranges) 128)) [
                      | inr e2 ↦ rw (e2, Ensures) tt
                      | inl e2 ↦ rw e2 (
                          Ensures-bind IsFrame Within
                            (crypto_frame clean clean_len (pos + 1) capacity) _
                            (crypto_frame_lem (pos + 1) (ground arith))
                            (elim [
                              | none ↦ λ f. tt
                              | some (r, at) ↦ λ (le, room_left).
                                  Ensures-bind (λ s. length s ≡ r.len) Within (copy clean at r.len)
                                    _ (copy_lem clean r.len at (omega arith))
                                    (λ bytes n.
                                      defrag_loop_lem fuel (at + r.len) (add_piece r bytes d)
                                        (add_piece_lem r bytes d w room_left n))
                            ]))
                    ])
          ])
  ]

-- A packet's frames put together: the number of bytes returned is at most that of the buffer, whose
-- size is unchanged.
abbrev pub Fits : ℕ → Option (List ℕ × ℕ × Bool) → Type 0
Fits defrag_len none = Unit
Fits defrag_len (some (out, n, full)) = (length out ≡ defrag_len) × (10 ≤ n) × (n ≤ defrag_len)

header_length : (n : ℕ) → length (defrag_header n) ≡ 10
unfolding defrag_header phton64
header_length n = refl

-- On a packet whose `clean_len` bytes lie in the buffer `clean`, QUICDefragCrypto reads no byte
-- outside of it, whatever qsort does. If it puts pieces together, it writes inside the output buffer
-- of `defrag_len` bytes, header included, and the length that it returns is from 10 to `defrag_len`.
pub quic_defrag_crypto_lem :
    (qsort : List Range → List Range) (clean : List ℕ) (clean_len : ℕ) (old : List ℕ)
    (defrag_len : ℕ)
    → clean_len ≤ length clean
    → length old + 10 ≡ defrag_len
    → Ensures (Fits defrag_len) (quic_defrag_crypto qsort clean clean_len old defrag_len)
unfolding quic_defrag_crypto
quic_defrag_crypto_lem qsort clean clean_len old defrag_len fits size =
    rw (ten, guarded)
      (Ensures-bind (Within clean clean_len (defrag_len - 10) (length old) fits enough)
        (Fits defrag_len) (defrag_loop clean clean_len (defrag_len - 10) clean_len 0 start) _
        (defrag_loop_lem clean clean_len (defrag_len - 10) (length old) fits enough clean_len 0
          start (refl, omega arith, refl))
        (elim [
          | none ↦ λ w. tt
          | some d ↦ λ (e, le, l). elim (Bool-cases d.found) [
            | inr q ↦ rw (q, Ensures) tt
            | inl q ↦
                rw (q, Ensures)
                  (
                    length-append (defrag_header d.szmax) d.defrag_data
                        ∙ (omega (arith, header_length d.szmax)),
                    omega arith,
                    omega arith,
                  )
          ]
        ]))
  where
    ten : leb 10 defrag_len ≡ true
    ten = ground arith

    enough : defrag_len - 10 ≤ length old
    enough = omega arith

    start : Defrag
    start = record { ranges = []; zeropos = 0; szmax = 0; found = false; defrag_data = old }
