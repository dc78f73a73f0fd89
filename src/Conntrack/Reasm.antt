-- ===== src/Conntrack/Reasm.antt =====
-- The t_reassemble of nfq/conntrack.h and the Reasm functions of nfq/conntrack.c. `packet` holds
-- the allocated bytes; `present` says whether the pointer is not NULL. malloc and realloc give
-- bytes of any content, hence the parameter `fresh`, and may fail, hence `mem`.
pub mod Feed
use fog_prime.Base.{
  ℕ, ◌+◌, ◌-◌, ◌&&◌, ◌==◌, Bool, true, false, not, ltb, leb, if◌then◌else◌, List, [], ◌++◌, length,
  take, drop, u32, min,
}

pub record Reassemble : Type 0 where
  pub packet : List ℕ
  pub seq : ℕ
  pub size : ℕ
  pub size_present : ℕ

unfoldable pub reasm_clear : Reassemble → Reassemble
reasm_clear r = record r { packet = []; size = 0; size_present = 0 }

-- `fresh` is the memory that malloc returns, `size_requested` bytes of it.
unfoldable pub reasm_init : Bool → List ℕ → ℕ → ℕ → Reassemble → Bool × Reassemble
reasm_init mem fresh size_requested seq_start r =
    if mem
    then (
      true,
      record r { packet = fresh; size = size_requested; size_present = 0; seq = seq_start },
    )
    else (false, record r { packet = [] })

-- realloc keeps the bytes up to the smaller size; `fresh` follows them.
unfoldable pub reasm_resize : Bool → List ℕ → ℕ → Reassemble → Bool × Reassemble
reasm_resize mem fresh new_size r =
    if mem
    then (
      true,
      record r {
        packet = take new_size (r.packet ++ fresh);
        size = new_size;
        size_present = if ltb new_size r.size_present then new_size else r.size_present;
      },
    )
    else (false, r)

-- memcpy(buf + at, src, n)
abbrev pub memcpy_at : List ℕ → ℕ → List ℕ → ℕ → List ℕ
memcpy_at buf at src n = take at buf ++ (take n src ++ drop (at + n) buf)

unfoldable pub reasm_feed : ℕ → List ℕ → Reassemble → Bool × Reassemble
reasm_feed seq payload r =
    if not (r.seq == seq)
    then (false, r)
    else let room = r.size - r.size_present in
      let szcopy = if ltb (length payload) room then length payload else room in
      (
        true,
        record r {
          packet = memcpy_at r.packet r.size_present payload szcopy;
          size_present = r.size_present + szcopy;
          seq = u32 (r.seq + u32 szcopy);
        },
      )

unfoldable pub reasm_has_space : ℕ → Reassemble → Bool
reasm_has_space len r = leb (r.size_present + len) r.size

unfoldable pub reasm_is_empty : Reassemble → Bool
reasm_is_empty r = r.size == 0

unfoldable pub reasm_is_full : Reassemble → Bool
unfolding reasm_is_empty
reasm_is_full r = not (reasm_is_empty r) && r.size == r.size_present
