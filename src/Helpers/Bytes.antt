-- ===== src/Helpers/Bytes.antt =====
-- Big-endian reads and writes: pntoh16, pntoh24, pntoh32 and the phton functions of nfq/helpers.h,
-- pntoh64 and phton64 of nfq/helpers.c. A read takes the buffer and the position of its first byte,
-- and faults outside the buffer; a write is the list of the bytes stored.
pub mod RoundTrip
use fog_prime.Base.{
  ℕ, zero, suc, ◌+◌, ◌*◌, ◌/◌, ◌^◌, List, [], ◌∷◌, Option, none, some, rd, u8, u16, u32, ◌>>=◌,
}

unfoldable pub pntoh16 : List ℕ → ℕ → Option ℕ
pntoh16 p i = do a ← rd p i; b ← rd p (i + 1); some (a * 2 ^ 8 + b)

unfoldable pub pntoh24 : List ℕ → ℕ → Option ℕ
pntoh24 p i = do a ← rd p i; b ← rd p (i + 1); c ← rd p (i + 2); some (a * 2 ^ 16 + b * 2 ^ 8 + c)

unfoldable pub pntoh32 : List ℕ → ℕ → Option ℕ
pntoh32 p i = do
  a ← rd p i
  b ← rd p (i + 1)
  c ← rd p (i + 2)
  d ← rd p (i + 3)
  some (a * 2 ^ 24 + b * 2 ^ 16 + c * 2 ^ 8 + d)

unfoldable pub pntoh64 : List ℕ → ℕ → Option ℕ
pntoh64 p i = do
  a ← rd p i
  b ← rd p (i + 1)
  c ← rd p (i + 2)
  d ← rd p (i + 3)
  e ← rd p (i + 4)
  f ← rd p (i + 5)
  g ← rd p (i + 6)
  h ← rd p (i + 7)
  some (a * 2 ^ 56 + b * 2 ^ 48 + c * 2 ^ 40 + d * 2 ^ 32 + e * 2 ^ 24 + f * 2 ^ 16 + g * 2 ^ 8 + h)

unfoldable pub phton16 : ℕ → List ℕ
phton16 v = u8 (v / 2 ^ 8) ∷ u8 v ∷ []

unfoldable pub phton24 : ℕ → List ℕ
phton24 v = u8 (v / 2 ^ 16) ∷ u8 (v / 2 ^ 8) ∷ u8 v ∷ []

unfoldable pub phton64 : ℕ → List ℕ
phton64 v =
    u8 (v / 2 ^ 56)
    ∷ u8 (v / 2 ^ 48)
    ∷ u8 (v / 2 ^ 40)
    ∷ u8 (v / 2 ^ 32)
    ∷ u8 (v / 2 ^ 24)
    ∷ u8 (v / 2 ^ 16)
    ∷ u8 (v / 2 ^ 8)
    ∷ u8 v
    ∷ []
