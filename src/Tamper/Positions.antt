-- ===== src/Tamper/Positions.antt =====
-- The split positions that tamper_out of tpws/tamper.c corrects after it has cut a TLS record.
use fog_prime.Base.{
  ℕ, zero, suc, ◌+◌, ◌-◌, ◌≤◌, ◌<◌, ◌≡◌, ◌≢◌, refl, sym, ap, ◌∙◌, List, [], ◌∷◌, ◌++◌, length, take,
  drop, byte, u16, arith, length-take,
}
use native.Mathlib.Decide.{dec_lt}
use fog_prime.Helpers.Bytes.{phton16}
use fog_prime.Net.Fragment.Lists.{drop-append, byte-append, byte-take}
use fog_prime.Tamper.Split.{two_records, record_len, fix_split}
use fog_prime.Tamper.Records.{segment, written}

byte-drop : (n j k : ℕ) (xs : List ℕ) → k ≡ n + j → byte xs k ≡ byte (drop n xs) j
unfolding byte
byte-drop zero j k xs e = ap (byte xs) (omega (arith, e))
byte-drop (suc n) j zero xs e = absurd (omega (arith, e))
byte-drop (suc n) j (suc k) [] e = refl
byte-drop (suc n) j (suc k) (x ∷ xs) e = byte-drop n j k xs (omega (arith, e))

-- The payload of a record, behind its header of five bytes.
payload_byte :
    (t a b v : ℕ) (rest : List ℕ) (j k : ℕ)
    → k ≡ 5 + j
    → byte (t ∷ a ∷ b ∷ (phton16 v ++ rest)) k ≡ byte rest j
unfolding phton16
payload_byte t a b v rest j k e = byte-drop 5 j k (t ∷ a ∷ b ∷ (phton16 v ++ rest)) e

fix_below : (at p : ℕ) → p < at → fix_split at p ≡ p
unfolding fix_split
fix_below at p h = ground arith

fix_above : (at p : ℕ) → at < p → fix_split at p ≡ p + 5
unfolding fix_split
fix_above at p h = ground arith

module _ (t a b hi lo : ℕ) (body : List ℕ) where
  below :
      (n at j p : ℕ)
      → at ≡ 5 + n
      → p ≡ 5 + j
      → j < n
      → n ≤ length body
      → byte (two_records (segment t a b hi lo body) at) p ≡ byte (segment t a b hi lo body) p
  below n at j p e e2 lt le =
      let l = record_len (segment t a b hi lo body) in
      let p1 = take n body in
      let out2 = t ∷ a ∷ b ∷ (phton16 (u16 (l - n)) ++ drop n body) in
      let inside : j < length p1 = omega (arith, length-take n body) in
      ap (λ xs. byte xs p) (written t a b hi lo body n at l e refl)
      ∙ payload_byte t a b (u16 n) (p1 ++ out2) j p e2
      ∙ byte-append p1 out2 j inside
      ∙ byte-take n body j lt
      ∙ sym (byte-drop 5 j p (segment t a b hi lo body) e2)

  above :
      (n at i p q : ℕ)
      → at ≡ 5 + n
      → p ≡ 5 + (n + i)
      → q ≡ p + 5
      → n ≤ length body
      → byte (two_records (segment t a b hi lo body) at) q ≡ byte (segment t a b hi lo body) p
  above n at i p q e e2 e3 le =
      let l = record_len (segment t a b hi lo body) in
      let p1 = take n body in
      let out2 = t ∷ a ∷ b ∷ (phton16 (u16 (l - n)) ++ drop n body) in
      let size : length p1 ≡ n = omega (arith, length-take n body) in
      ap (λ xs. byte xs q) (written t a b hi lo body n at l e refl)
      ∙ payload_byte t a b (u16 n) (p1 ++ out2) (n + (5 + i)) q (omega arith)
      ∙ byte-drop n (5 + i) (n + (5 + i)) (p1 ++ out2) refl
      ∙ ap (λ xs. byte xs (5 + i)) (drop-append n p1 out2 size)
      ∙ payload_byte t a b (u16 (l - n)) (drop n body) i (5 + i) refl
      ∙ sym (byte-drop n i (n + i) body refl)
      ∙ sym (byte-drop 5 (n + i) p (segment t a b hi lo body) e2)

  -- After the cut at `at`, which lies in the payload, a split position in the payload other than the
  -- cut itself names the byte that it named before.
  pub fix_split_lem :
      (at p : ℕ)
      → 5 < at
      → at ≤ 5 + length body
      → 5 ≤ p
      → p ≢ at
      → byte (two_records (segment t a b hi lo body) at) (fix_split at p)
        ≡ byte (segment t a b hi lo body) p
  fix_split_lem at p far le behind differ = elim (dec_lt p at) [
    | yes h ↦
        ap (byte (two_records (segment t a b hi lo body) at)) (fix_below at p h)
        ∙ below (at - 5) at (p - 5) p (omega arith) (omega arith) (omega arith) (omega arith)
    | no h ↦
        ap (byte (two_records (segment t a b hi lo body) at)) (fix_above at p (omega arith))
        ∙ above (at - 5) at (p - at) p (p + 5) (omega arith) (omega arith) refl (omega arith)
  ]
