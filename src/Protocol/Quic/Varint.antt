-- ===== src/Protocol/Quic/Varint.antt =====
-- Reads of the variable-length integers of QUIC, and of a run of bytes.
use fog_prime.Base.{
  ℕ, zero, suc, ◌+◌, ◌/◌, ◌^◌, ◌≤◌, ◌<◌, ◌≡◌, refl, ap, true, ◌==◌, List, length, byte, rd_lem,
  Ensures, Ensures-bind, arith, Bool-cases, ==_iff, inl, inr,
}
use fog_prime.Helpers.Bytes.{pntoh16, pntoh32, pntoh64}
use fog_prime.Protocol.Quic.{tvb_get_size, tvb_get_varint, copy}

size_is : (b k : ℕ) → (b / 64 == k) ≡ true → tvb_get_size b ≡ 2 ^ k
unfolding tvb_get_size
size_is b k e = ap (λ n. 2 ^ n) ((==_iff (b / 64) k).0 e)

pow_pos : (n : ℕ) → 0 < 2 ^ n
pow_pos zero = omega arith
pow_pos (suc n) = omega (arith, pow_pos n)

size_pos : (b : ℕ) → 0 < tvb_get_size b
unfolding tvb_get_size
size_pos b = pow_pos (b / 64)

-- A number that lies in the buffer is read without a fault, and is as long as its first byte says.
abbrev pub IsVarint : ℕ → ℕ × ℕ → Type 0
IsVarint b (n, v) = n ≤ tvb_get_size b

pub varint_lem :
    (buf : List ℕ) (at : ℕ)
    → at + tvb_get_size (byte buf at) ≤ length buf
    → Ensures (IsVarint (byte buf at)) (tvb_get_varint buf at)
unfolding tvb_get_varint pntoh16 pntoh32 pntoh64
varint_lem buf at h =
    let s = size_pos (byte buf at) in
    rw (rd_lem buf at (omega arith)) (elim (Bool-cases (byte buf at / 64 == 0)) [
      | inl e ↦ rw (e, Ensures) (omega (arith, size_is (byte buf at) 0 e))
      | inr e ↦ rw e (elim (Bool-cases (byte buf at / 64 == 1)) [
        | inl e1 ↦
            let z = size_is (byte buf at) 1 e1 in
            rw (e1, rd_lem buf (at + 1) (omega (arith, z)), Ensures) (omega (arith, z))
        | inr e1 ↦ rw e1 (elim (Bool-cases (byte buf at / 64 == 2)) [
          | inl e2 ↦
              let z = size_is (byte buf at) 2 e2 in
              rw
                (
                  e2,
                  rd_lem buf (at + 1) (omega (arith, z)),
                  rd_lem buf (at + 2) (omega (arith, z)),
                  rd_lem buf (at + 3) (omega (arith, z)),
                  Ensures,
                )
                (omega (arith, z))
          | inr e2 ↦ rw e2 (elim (Bool-cases (byte buf at / 64 == 3)) [
            | inl e3 ↦
                let z = size_is (byte buf at) 3 e3 in
                rw
                  (
                    e3,
                    rd_lem buf (at + 1) (omega (arith, z)),
                    rd_lem buf (at + 2) (omega (arith, z)),
                    rd_lem buf (at + 3) (omega (arith, z)),
                    rd_lem buf (at + 4) (omega (arith, z)),
                    rd_lem buf (at + 5) (omega (arith, z)),
                    rd_lem buf (at + 6) (omega (arith, z)),
                    rd_lem buf (at + 7) (omega (arith, z)),
                    Ensures,
                  )
                  (omega (arith, z))
            | inr e3 ↦ rw (e3, Ensures) (omega arith)
          ])
        ])
      ])
    ])

pub copy_lem :
    (buf : List ℕ) (n at : ℕ) → at + n ≤ length buf → Ensures (λ s. length s ≡ n) (copy buf at n)
unfolding copy
copy_lem buf zero at h = refl
copy_lem buf (suc n) at h =
    rw (rd_lem buf at (omega arith), copy)
      (Ensures-bind (λ s. length s ≡ n) (λ s. length s ≡ suc n) (copy buf (at + 1) n) _
        (copy_lem buf n (at + 1) (omega arith)) (λ s e. omega arith))
