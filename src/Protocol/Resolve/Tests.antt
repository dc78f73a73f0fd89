-- ===== src/Protocol/Resolve/Tests.antt =====
-- Insertion sort as an instance of qsort, and the splits of a request.
use fog_prime.Base.{
  ℕ, ◌+◌, ◌≤◌, ◌≡◌, ◌⊎◌, ◌↔◌, inl, inr, true, false, leb, List, [], ◌∷◌, length, arith, Bool-cases,
  Ensures,
}
use fog_prime.Helpers.Unique.InPlace.{SortedFrom, IsStrict, Has}
use fog_prime.Protocol.Marker.{pos, negsuc, host, host_end, http_method}
use fog_prime.Protocol.Resolve.{http, ProtoPos, resolve_multi_pos}
use fog_prime.Protocol.Resolve.Order.{Sorts, Splits, resolve_multi_pos_lem}

insert : ℕ → List ℕ → List ℕ
insert a [] = a ∷ []
insert a (x ∷ xs) = elim (leb a x) [ true ↦ a ∷ x ∷ xs | false ↦ x ∷ insert a xs ]

sort : List ℕ → List ℕ
unfolding insert
sort [] = []
sort (x ∷ xs) = insert x (sort xs)

insert-SortedFrom :
    (lo a : ℕ) (xs : List ℕ) → lo ≤ a → SortedFrom lo xs → SortedFrom lo (insert a xs)
unfolding insert
insert-SortedFrom lo a [] h s = (h, tt)
insert-SortedFrom lo a (x ∷ xs) h (le, s) = elim (Bool-cases (leb a x)) [
  | inl e ↦ rw (e, insert) (h, (ground arith, s))
  | inr e ↦ rw (e, insert) (le, insert-SortedFrom x a xs (ground arith) s)
]

sort-SortedFrom : (xs : List ℕ) → SortedFrom 0 (sort xs)
unfolding sort
sort-SortedFrom [] = tt
sort-SortedFrom (x ∷ xs) = insert-SortedFrom 0 x (sort xs) (omega arith) (sort-SortedFrom xs)

swap_iff : {A B C D : Type 0} → (D ↔ (A ⊎ C)) → ((B ⊎ D) ↔ (A ⊎ (B ⊎ C)))
swap_iff e = ground arith

under_iff : {A C D : Type 0} → (C ↔ D) → ((A ⊎ C) ↔ (A ⊎ D))
under_iff e = ground arith

trans_iff : {A B C : Type 0} → (A ↔ B) → (B ↔ C) → (A ↔ C)
trans_iff e f = ground arith

Has-insert : (p a : ℕ) (xs : List ℕ) → Has p (insert a xs) ↔ ((p ≡ a) ⊎ Has p xs)
unfolding insert
Has-insert p a [] = ((λ h. h), (λ h. h))
Has-insert p a (x ∷ xs) = elim (Bool-cases (leb a x)) [
  | inl e ↦ rw (e, insert) ((λ h. h), (λ h. h))
  | inr e ↦ rw (e, insert) (swap_iff (Has-insert p a xs))
]

Has-sort : (xs : List ℕ) (p : ℕ) → Has p (sort xs) ↔ Has p xs
unfolding sort
Has-sort [] p = ((λ h. h), (λ h. h))
Has-sort (x ∷ xs) p = trans_iff (Has-insert p x (sort xs)) (under_iff (Has-sort xs p))

sort-Sorts : Sorts sort
sort-Sorts = record { ascending = sort-SortedFrom; same = Has-sort }

-- "GET / \nHost:ya.ru\n" and the two bytes behind it
abbrev request : List ℕ
request =
    71 ∷ 69 ∷ 84 ∷ 32 ∷ 47 ∷ 32 ∷ 10 ∷ 72 ∷ 111 ∷ 115 ∷ 116 ∷ 58 ∷ 121 ∷ 97 ∷ 46 ∷ 114 ∷ 117 ∷ 10
    ∷ 0 ∷ 0 ∷ []

request-fits : 18 + 2 ≤ length request
request-fits = omega arith

-- method+2, endhost-1, host
abbrev splits : List ProtoPos
splits =
    record { marker = http_method; offset = pos 2 }
    ∷ record { marker = host_end; offset = negsuc 0 }
    ∷ record { marker = host; offset = pos 0 }
    ∷ []

resolve_multi_pos_lem_example :
    Ensures
      (λ ps. IsStrict ps × Splits request 18 request-fits ps)
      (resolve_multi_pos sort request 18 http splits)
resolve_multi_pos_lem_example =
    resolve_multi_pos_lem request 18 request-fits sort sort-Sorts http splits
