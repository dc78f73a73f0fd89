-- ===== src/Table.antt =====
-- The calls of nfq/uthash.h, a hash table library, as an interface: what HASH_FIND, HASH_ADD,
-- HASH_DEL and a walk by HASH_ITER promise. An element is a key and a value; `store` is a write
-- through the pointer that HASH_FIND returned.

pub mod Function
use fog_prime.Base.{◌≡◌, ◌↔◌, Bool, true, Option, none, some, if◌then◌else◌}

-- What a walk leaves of an element: `p` tells the elements that stay.
abbrev pub kept : {K V : Type 0} → (K → V → Bool) → K → Option V → Option V
kept p k none = none
kept p k (some v) = if p k v then some v else none

pub record HashTable (K V : Type 0) : Type 1 where
  pub Table : Type 0
  pub key_eq : K → K → Bool
  pub empty : Table
  pub find : Table → K → Option V
  pub add : Table → K → V → Table
  pub store : Table → K → V → Table
  pub del : Table → K → Table
  pub keep : (K → V → Bool) → Table → Table
  pub key_eq_iff : (a b : K) → (key_eq a b ≡ true) ↔ (a ≡ b)
  pub find-empty : (j : K) → find empty j ≡ none
  pub find-add :
      (t : Table) (k : K) (v : V) (j : K)
      → find t k ≡ none
      → find (add t k v) j ≡ (if key_eq k j then some v else find t j)
  pub find-store :
      (t : Table) (k : K) (v w : V) (j : K)
      → find t k ≡ some w
      → find (store t k v) j ≡ (if key_eq k j then some v else find t j)
  pub find-del : (t : Table) (k j : K) → find (del t k) j ≡ (if key_eq k j then none else find t j)
  pub find-keep : (p : K → V → Bool) (t : Table) (j : K) → find (keep p t) j ≡ kept p j (find t j)
