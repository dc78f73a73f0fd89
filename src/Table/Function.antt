-- ===== src/Table/Function.antt =====
-- A table that meets the interface: a function from keys. It shows that the laws can hold, and the
-- tests run on it.
use fog_prime.Base.{◌≡◌, refl, ◌↔◌, Bool, true, Option, none, some, if◌then◌else◌}
use fog_prime.Table.{HashTable, kept}

-- The table that differs from `t` at the key `k` only.
abbrev pub update : {K V : Type 0} → (K → K → Bool) → (K → Option V) → K → Option V → K → Option V
update eq t k v j = if eq k j then v else t j

module _ {K V : Type 0} (eq : K → K → Bool) (eq_iff : (a b : K) → (eq a b ≡ true) ↔ (a ≡ b)) where
  abbrev pub functions : HashTable K V
  functions = record {
    Table = K → Option V;
    key_eq = eq;
    empty = λ j. none;
    find = λ t k. t k;
    add = λ t k v. update eq t k (some v);
    store = λ t k v. update eq t k (some v);
    del = λ t k. update eq t k none;
    keep = λ p t j. kept p j (t j);
    key_eq_iff = eq_iff;
    find-empty = λ j. refl;
    find-add = λ t k v j h. refl;
    find-store = λ t k v w j h. refl;
    find-del = λ t k j. refl;
    find-keep = λ p t j. refl;
  }
