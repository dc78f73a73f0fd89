-- ===== src/Protocol/Quic/Defrag.antt =====
-- Crypto frames put together, nfq/protocol.c QUICDefragCrypto. The output starts with 10 bytes of
-- header; positions of pieces count from the 10th byte on.
pub mod Merge
pub mod Bounds
use fog_prime.Base.{
  ℕ, zero, suc, ◌+◌, ◌-◌, ◌*◌, ◌^◌, Bool, true, false, ◌||◌, ◌&&◌, ◌==◌, not, ltb, leb, max,
  if◌then◌else◌, List, [], ◌∷◌, ◌++◌, length, replicate, Option, none, some, rd, ◌>>=◌, and_then,
  bit_or, u8,
}
use fog_prime.Helpers.Bytes.{phton64}
use fog_prime.Conntrack.Reasm.{memcpy_at}
use fog_prime.Protocol.Tls.{guarded}
use fog_prime.Protocol.Quic.{tvb_get_size, tvb_get_varint, copy}

-- struct range64
pub record Range : Type 0 where
  pub offset : ℕ
  pub len : ℕ

-- The local variables: the pieces in the order of their arrival, and the output's data.
pub record Defrag : Type 0 where
  pub ranges : List Range
  pub zeropos : ℕ
  pub szmax : ℕ
  pub found : Bool
  pub defrag_data : List ℕ

unfoldable pub is_duplicate : Range → List Range → Bool
is_duplicate r [] = false
is_duplicate r (r' ∷ ranges) =
    let rest = is_duplicate r ranges in r'.offset == r.offset && r'.len == r.len || rest

-- The bytes of a piece that is not there yet, with zeros in the gap before it.
unfoldable pub put_piece : Range → List ℕ → Defrag → Defrag
put_piece r bytes d = record {
  ranges = d.ranges ++ r ∷ [];
  zeropos = if ltb d.zeropos (r.offset + r.len) then r.offset + r.len else d.zeropos;
  szmax = if ltb d.szmax (r.offset + r.len) then r.offset + r.len else d.szmax;
  found = true;
  defrag_data =
      memcpy_at
        (if ltb d.zeropos r.offset
          then memcpy_at d.defrag_data d.zeropos (replicate (r.offset - d.zeropos) 0)
              (r.offset - d.zeropos)
          else d.defrag_data)
        r.offset bytes r.len;
}

unfoldable pub add_piece : Range → List ℕ → Defrag → Defrag
unfolding is_duplicate put_piece
add_piece r bytes d = if is_duplicate r d.ranges then d else put_piece r bytes d

-- A frame of type 6 from `pos` on: the piece and the position of its bytes.
unfoldable pub crypto_frame : List ℕ → ℕ → ℕ → ℕ → Option (Option (Range × ℕ))
unfolding tvb_get_size tvb_get_varint
crypto_frame clean clean_len pos capacity = rd clean pos >>= λ b.
    guarded (ltb (pos + tvb_get_size b) clean_len) (
      tvb_get_varint clean pos >>= λ (n, offset). rd clean (pos + n) >>= λ b'.
      guarded (leb (pos + n + tvb_get_size b') clean_len) (
        tvb_get_varint clean (pos + n) >>= λ (n', sz).
        guarded (leb (pos + n + n' + sz) clean_len && leb (offset + sz) capacity)
          (some (some (record { offset = offset; len = sz }, pos + n + n')))))

-- The loop; each round moves `pos` on. MAX_DEFRAG_PIECES is 128.
unfoldable pub defrag_loop : List ℕ → ℕ → ℕ → ℕ → ℕ → Defrag → Option (Option Defrag)
unfolding crypto_frame add_piece copy
defrag_loop clean clean_len capacity zero pos d = some (some d)
defrag_loop clean clean_len capacity (suc fuel) pos d = elim (ltb pos clean_len) [
  | false ↦ some (some d)
  | true ↦ rd clean pos >>= λ ft. elim (leb ft 1) [
    | true ↦ defrag_loop clean clean_len capacity fuel (pos + 1) d
    | false ↦ guarded (ft == 6 && ltb (pos + 1) clean_len && ltb (length d.ranges) 128) (
        crypto_frame clean clean_len (pos + 1) capacity >>= λ o. elim o [
          | none ↦ some none
          | some (r, at) ↦ copy clean at r.len >>= λ bytes.
              defrag_loop clean clean_len capacity fuel (at + r.len) (add_piece r bytes d)
        ])
  ]
]

-- The loop over the sorted pieces, for ranges[j] = r: the ranges from j on that it leaves.
unfoldable pub merge_loop : Range → List Range → List Range
merge_loop r [] = r ∷ []
merge_loop r (next ∷ rest) = elim (leb next.offset (r.offset + r.len)) [
  | true ↦
      merge_loop (record r { len = max (next.offset + next.len) (r.offset + r.len) - r.offset })
        rest
  | false ↦ r ∷ merge_loop next rest
]

unfoldable pub merge_ranges : List Range → List Range
unfolding merge_loop
merge_ranges [] = []
merge_ranges (r ∷ rest) = merge_loop r rest

-- `range==1 && !ranges[0].offset`
unfoldable pub is_one_from_zero : List Range → Bool
is_one_from_zero (r ∷ []) = r.offset == 0
is_one_from_zero _ = false

-- defrag[0..9], with the length as a varint of 8 bytes.
unfoldable pub defrag_header : ℕ → List ℕ
unfolding phton64
defrag_header szmax = 6 ∷ 0 ∷ set_top (phton64 szmax)
  where
    set_top : List ℕ → List ℕ
    set_top [] = []
    set_top (b ∷ rest) = bit_or b 192 ∷ rest

-- `qsort` sorts the ranges by their offsets. `old` is what the output's buffer held. The result:
-- the output without what follows its length, and bFull.
unfoldable pub quic_defrag_crypto :
    (List Range → List Range) → List ℕ → ℕ → List ℕ → ℕ → Option (Option (List ℕ × ℕ × Bool))
unfolding defrag_loop merge_ranges is_one_from_zero defrag_header
quic_defrag_crypto qsort clean clean_len old defrag_len = guarded (leb 10 defrag_len) (
    defrag_loop clean clean_len (defrag_len - 10) clean_len 0
      (record { ranges = []; zeropos = 0; szmax = 0; found = false; defrag_data = old })
    >>= λ o. elim o [
      | none ↦ some none
      | some d ↦ guarded d.found (
          some (
            some (
              defrag_header d.szmax ++ d.defrag_data,
              d.szmax + 10,
              is_one_from_zero (merge_ranges (qsort d.ranges)),
            )))
    ])
