-- ===== src/Base/Reads.antt =====
-- Reads of a byte buffer through a pointer. A read outside the buffer is a fault, `none`; a
-- computation that reads is an option, chained by `do`.
use Prim.Native.Nat.{ℕ, zero, suc, ◌<◌}
use mathlib.Core.Path.{◌≡◌, refl}
use mathlib.Core.Bool.{Bool, true, false}
use mathlib.Core.List.{List, [], ◌∷◌}
use mathlib.Core.Option.{Option, none, some}
use native.Mathlib.Omega.{arith}
use fog_prime.Base.Lists.{length, get_elem?, get_or}

infixl 5 ◌>>=◌ ◌>>◌
abbrev pub ◌>>=◌ {ℓ κ} : {A : Type ℓ} {B : Type κ} → Option A → (A → Option B) → Option B
none >>= f = none
some a >>= f = f a

abbrev pub ◌>>◌ {ℓ} : {B : Type ℓ} → Option (Unit {0}) → Option B → Option B
m >> k = m >>= λ _. k

-- The byte at `buf + i`.
unfoldable pub rd : List ℕ → ℕ → Option ℕ
rd buf i = get_elem? buf i

-- The same byte where the read is in range.
unfoldable pub byte : List ℕ → ℕ → ℕ
byte buf i = get_or buf i 0

pub rd_lem : (buf : List ℕ) (i : ℕ) → i < length buf → rd buf i ≡ some (byte buf i)
unfolding rd byte
rd_lem [] i h = absurd (omega arith)
rd_lem (x ∷ xs) zero h = refl
rd_lem (x ∷ xs) (suc i) h = rd_lem xs i (omega arith)

-- C's `a && b` and `a || b` where the second operand reads.
abbrev pub and_then : Bool → Option Bool → Option Bool
and_then true m = m
and_then false m = some false

abbrev pub or_else : Bool → Option Bool → Option Bool
or_else true m = some true
or_else false m = m

-- The computation ends without a fault, and its result satisfies `P`.
abbrev pub Ensures {ℓ} : {A : Type ℓ} → (A → Type 0) → Option A → Type 0
Ensures P none = ⊥
Ensures P (some a) = P a

-- A computation that ends in `P` has a value, and the value satisfies `P`.
pub Ensures-some {ℓ} :
    {A : Type ℓ} (P : A → Type 0) (m : Option A) → Ensures P m → (a : A) × (m ≡ some a) × P a
Ensures-some P none h = absurd h
Ensures-some P (some a) h = (a, refl, h)

-- The rule for a read in range, then the rest.
pub Ensures-rd {ℓ} :
    {A : Type ℓ} (P : A → Type 0) (buf : List ℕ) (i : ℕ) (k : ℕ → Option A)
    → i < length buf
    → Ensures P (k (byte buf i))
    → Ensures P (rd buf i >>= k)
Ensures-rd P buf i k h e = rw (rd_lem buf i h) e

-- The rule for a sequence.
pub Ensures-bind {ℓ κ} :
    {A : Type ℓ} {B : Type κ} (Q : A → Type 0) (P : B → Type 0) (m : Option A) (k : A → Option B)
    → Ensures Q m
    → ((a : A) → Q a → Ensures P (k a))
    → Ensures P (m >>= k)
Ensures-bind Q P none k h f = absurd h
Ensures-bind Q P (some a) k h f = f a h

-- A weaker promise.
pub Ensures-weaken {ℓ} :
    {A : Type ℓ} (P Q : A → Type 0) (m : Option A)
    → Ensures P m
    → ((a : A) → P a → Q a)
    → Ensures Q m
Ensures-weaken P Q none h f = h
Ensures-weaken P Q (some a) h f = f a h

-- The rule for C's `&&`.
pub Ensures-and_then :
    (P : Bool → Type 0) (b : Bool) (m : Option Bool)
    → P false
    → Ensures P m
    → Ensures P (and_then b m)
Ensures-and_then P true m f h = h
Ensures-and_then P false m f h = f
