-- ===== src/Net/Fragment/Lists.antt =====
-- Bytes of a packet that is cut and changed.
use fog_prime.Base.{
  ℕ, zero, suc, ◌+◌, ◌<◌, ◌≡◌, refl, sym, ap, false, ◌==◌, List, [], ◌∷◌, ◌++◌, length, take, drop,
  set, byte, arith,
}
use fog_prime.Checksum.Words.{AllBytes}

pub drop-set : (n i : ℕ) (xs : List ℕ) (v : ℕ) → i < n → drop n (set xs i v) ≡ drop n xs
drop-set zero i xs v h = absurd (omega arith)
drop-set (suc n) i [] v h = refl
drop-set (suc n) zero (x ∷ xs) v h = refl
drop-set (suc n) (suc i) (x ∷ xs) v h = drop-set n i xs v (omega arith)

pub drop-append : (n : ℕ) (xs ys : List ℕ) → length xs ≡ n → drop n (xs ++ ys) ≡ ys
drop-append zero [] ys e = refl
drop-append (suc n) [] ys e = absurd (omega arith)
drop-append zero (x ∷ xs) ys e = absurd (omega arith)
drop-append (suc n) (x ∷ xs) ys e = drop-append n xs ys (omega arith)

pub take-nil : (m : ℕ) → take {A = ℕ} m [] ≡ []
take-nil zero = refl
take-nil (suc m) = refl

pub drop-take : (n k m : ℕ) (xs : List ℕ) → k ≡ n + m → drop n (take k xs) ≡ take m (drop n xs)
drop-take zero k m xs e = ap (λ j. take j xs) (omega (arith, e))
drop-take (suc n) zero m xs e = absurd (omega (arith, e))
drop-take (suc n) (suc k) m [] e = sym (take-nil m)
drop-take (suc n) (suc k) m (x ∷ xs) e = drop-take n k m xs (omega (arith, e))

pub byte-append : (xs ys : List ℕ) (i : ℕ) → i < length xs → byte (xs ++ ys) i ≡ byte xs i
unfolding byte
byte-append [] ys i h = absurd (omega arith)
byte-append (x ∷ xs) ys zero h = refl
byte-append (x ∷ xs) ys (suc i) h = byte-append xs ys i (omega arith)

pub byte-take : (n : ℕ) (xs : List ℕ) (i : ℕ) → i < n → byte (take n xs) i ≡ byte xs i
unfolding byte
byte-take zero xs i h = absurd (omega arith)
byte-take (suc n) [] i h = refl
byte-take (suc n) (x ∷ xs) zero h = refl
byte-take (suc n) (x ∷ xs) (suc i) h = byte-take n xs i (omega arith)

pub byte-set_self : (xs : List ℕ) (i v : ℕ) → i < length xs → byte (set xs i v) i ≡ v
unfolding byte
byte-set_self [] i v h = absurd (omega arith)
byte-set_self (x ∷ xs) zero v h = refl
byte-set_self (x ∷ xs) (suc i) v h = byte-set_self xs i v (omega arith)

pub byte-set_ne : (xs : List ℕ) (i v j : ℕ) → (i == j) ≡ false → byte (set xs i v) j ≡ byte xs j
unfolding byte
byte-set_ne [] i v j h = refl
byte-set_ne (x ∷ xs) zero v zero h = absurd (ground arith)
byte-set_ne (x ∷ xs) zero v (suc j) h = refl
byte-set_ne (x ∷ xs) (suc i) v zero h = refl
byte-set_ne (x ∷ xs) (suc i) v (suc j) h = byte-set_ne xs i v j (ground arith)

pub AllBytes-take : (n : ℕ) (xs : List ℕ) → AllBytes xs → AllBytes (take n xs)
AllBytes-take zero xs b = tt
AllBytes-take (suc n) [] b = tt
AllBytes-take (suc n) (x ∷ xs) (a, b) = (a, AllBytes-take n xs b)

pub AllBytes-set : (xs : List ℕ) (i v : ℕ) → v < 256 → AllBytes xs → AllBytes (set xs i v)
AllBytes-set [] i v h b = tt
AllBytes-set (x ∷ xs) zero v h (a, b) = (h, b)
AllBytes-set (x ∷ xs) (suc i) v h (a, b) = (a, AllBytes-set xs i v h b)

pub AllBytes-drop : (n : ℕ) (xs : List ℕ) → AllBytes xs → AllBytes (drop n xs)
AllBytes-drop zero xs b = b
AllBytes-drop (suc n) [] b = tt
AllBytes-drop (suc n) (x ∷ xs) (a, b) = AllBytes-drop n xs b

pub AllBytes-append : (xs ys : List ℕ) → AllBytes xs → AllBytes ys → AllBytes (xs ++ ys)
AllBytes-append [] ys a b = b
AllBytes-append (x ∷ xs) ys (h, a) b = (h, AllBytes-append xs ys a b)

drop-nil : (m : ℕ) → drop {A = ℕ} m [] ≡ []
drop-nil zero = refl
drop-nil (suc m) = refl

pub drop-drop : (n m k : ℕ) (xs : List ℕ) → k ≡ n + m → drop k xs ≡ drop m (drop n xs)
drop-drop zero m k xs e = ap (λ j. drop j xs) (omega (arith, e))
drop-drop (suc n) m zero xs e = absurd (omega (arith, e))
drop-drop (suc n) m (suc k) [] e = sym (drop-nil m)
drop-drop (suc n) m (suc k) (x ∷ xs) e = drop-drop n m k xs (omega (arith, e))

pub take_split : (a b c : ℕ) (xs : List ℕ) → c ≡ a + b → take a xs ++ take b (drop a xs) ≡ take c xs
take_split zero b c xs e = ap (λ j. take j xs) (omega (arith, e))
take_split (suc a) b zero xs e = absurd (omega (arith, e))
take_split (suc a) b (suc c) [] e = take-nil b
take_split (suc a) b (suc c) (x ∷ xs) e = ap (λ t. x ∷ t) (take_split a b c xs (omega (arith, e)))

pub byte-small : (xs : List ℕ) (j : ℕ) → AllBytes xs → byte xs j < 256
unfolding byte
byte-small [] j a = omega arith
byte-small (x ∷ xs) zero (h, a) = h
byte-small (x ∷ xs) (suc j) (h, a) = byte-small xs j a
