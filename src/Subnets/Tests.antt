-- ===== src/Subnets/Tests.antt =====
-- The theorems about ip2net/ip2net.c at concrete lists, with an insertion sort for gnu_quicksort.
use fog_prime.Base.{
  ℕ, suc, ◌≤◌, ◌<◌, ◌^◌, ◌≡◌, ◌↔◌, inl, inr, refl, Bool-cases, true, false, leb, if◌then◌else◌,
  List, [], ◌∷◌, ◌++◌, some, none, byte, length, replicate, arith,
}
use fog_prime.Helpers.Unique.{unique_size_t}
use fog_prime.Helpers.Unique.InPlace.{SortedFrom, Has}
use fog_prime.Subnets.Options.{
  Params, Argument, opt_prefix_length, opt_v4_threshold, two_read, parse_params, parse_params_lem,
  IsUsable,
}
use fog_prime.Subnets.{search, next_pos, group_v4, threshold_v4, look_v4}
use fog_prime.Subnets.Cover.{Covered, IsAscending}
use fog_prime.Subnets.Apart.{IsApart}
use fog_prime.Subnets.Full.{AllFull, group_v4_full}
use fog_prime.Subnets.Whole.{main_v4, main_v4_lem, strict-IsAscending, Sorts}
use fog_prime.Subnets.V6.{address_at, group_v6}
use fog_prime.Subnets.V6.Network.{IsAddress6, IsContained6, group_v6_covers}

insert : ℕ → List ℕ → List ℕ
insert a [] = a ∷ []
insert a (x ∷ xs) = let rest = insert a xs in if leb a x then a ∷ x ∷ xs else x ∷ rest

sort : List ℕ → List ℕ
sort [] = []
sort (x ∷ xs) = insert x (sort xs)

insert-SortedFrom :
    (a lo : ℕ) (xs : List ℕ) → lo ≤ a → SortedFrom lo xs → SortedFrom lo (insert a xs)
unfolding insert
insert-SortedFrom a lo [] le h = (le, tt)
insert-SortedFrom a lo (x ∷ xs) le (le2, h) = elim (Bool-cases (leb a x)) [
  | inl t ↦ rw t (le, (ground arith, h))
  | inr f ↦ rw f (le2, insert-SortedFrom a x xs (ground arith) h)
]

length-insert : (a : ℕ) (xs : List ℕ) → length (insert a xs) ≡ suc (length xs)
unfolding insert
length-insert a [] = refl
length-insert a (x ∷ xs) = elim (Bool-cases (leb a x)) [
  | inl t ↦ rw t refl
  | inr f ↦ rw f (omega (arith, length-insert a xs))
]

Has-insert : (b a : ℕ) (xs : List ℕ) → Has b (insert a xs) ↔ Has b (a ∷ xs)
unfolding insert
Has-insert b a [] = (λ h. h, λ h. h)
Has-insert b a (x ∷ xs) = elim (Bool-cases (leb a x)) [
  | inl t ↦ rw t ((λ h. h, λ h. h))
  | inr f ↦
      let ih = Has-insert b a xs in
      rw f (
        λ h. elim h [
          | inl e ↦ inr (inl e)
          | inr r ↦ elim (ih.0 r) [ inl e ↦ inl e | inr s ↦ inr (inr s) ]
        ],
        λ h. elim h [
          | inl e ↦ inr (ih.1 (inl e))
          | inr (inl e) ↦ inl e
          | inr (inr s) ↦ inr (ih.1 (inr s))
        ],
      )
]

sort-Sorts : Sorts sort
unfolding sort
sort-Sorts [] = (tt, refl, λ a. (λ h. h, λ h. h))
sort-Sorts (x ∷ xs) =
    let (sorted, size, same) = sort-Sorts xs in
    (
      insert-SortedFrom x 0 (sort xs) (omega arith) sorted,
      omega (arith, length-insert x (sort xs), size),
      λ a.
          let ins = Has-insert a x (sort xs) in
          (
            λ h. elim (ins.0 h) [ inl e ↦ inl e | inr r ↦ inr ((same a).0 r) ],
            λ h. ins.1 (elim h [ inl e ↦ inl e | inr r ↦ inr ((same a).1 r) ]),
          ),
    )

-- 10.0.0.0 to 10.0.0.3 out of order and one of them twice, and 0.0.0.5
abbrev read_ips : List ℕ
read_ips = 167772163 ∷ 167772160 ∷ 167772161 ∷ 167772160 ∷ 5 ∷ 167772162 ∷ []

-- --prefix-length=22-30 --v4-threshold=3/4
abbrev arguments : List Argument
arguments = opt_prefix_length (two_read 22 30) ∷ opt_v4_threshold (two_read 3 4) ∷ []

abbrev settings : Params
settings = record {
  ipv6 = false;
  pctmult = 3;
  pctdiv = 4;
  zct_min = 2;
  zct_max = 10;
  v6_threshold = 5;
}

settings_parsed : parse_params arguments ≡ some settings
unfolding parse_params
settings_parsed = refl

read_words : (a : ℕ) → Has a read_ips → a < 2 ^ 32
read_words a h = ground arith

main_v4_lem_example :
    ((a : ℕ) → Has a read_ips → Covered a (main_v4 sort settings read_ips))
    × IsApart (main_v4 sort settings read_ips)
main_v4_lem_example =
    main_v4_lem sort arguments settings read_ips sort-Sorts settings_parsed refl read_words

-- 10.0.0.0/30 and 0.0.0.5
main_v4_runs :
    main_v4 sort settings read_ips
    ≡ record { ip_start = 5; zct_best = 0 } ∷ record { ip_start = 167772160; zct_best = 2 } ∷ []
unfolding main_v4 sort insert byte group_v4 unique_size_t
main_v4_runs = refl

parse_params_lem_example : IsUsable settings
parse_params_lem_example = parse_params_lem arguments settings settings_parsed

-- The same addresses in order, each once.
abbrev in_order : List ℕ
in_order = 5 ∷ 167772160 ∷ 167772161 ∷ 167772162 ∷ 167772163 ∷ []

in_order-IsAscending : IsAscending in_order 5
in_order-IsAscending =
    strict-IsAscending in_order (omega arith, (omega arith, (omega arith, (omega arith, tt))))
      (λ a h. ground arith)

group_v4_full_example : AllFull settings in_order 5 (group_v4 settings in_order 5 5 0)
group_v4_full_example =
    group_v4_full settings in_order 5 (omega arith, omega arith) in_order-IsAscending (omega arith)

-- 2001:db8::1 and ::2 under --prefix-length=64 --v6-threshold=2, of which the first is looked up.
abbrev address : ℕ → List ℕ
address last = 32 ∷ 1 ∷ 13 ∷ 184 ∷ (replicate 11 0 ++ (last ∷ []))

abbrev settings6 : Params
settings6 = record settings { ipv6 = true; zct_min = 64; zct_max = 64; v6_threshold = 2 }

address-IsAddress6 : IsAddress6 (address 1)
address-IsAddress6 = (refl, ground arith)

group_v6_covers_example :
    IsContained6
      (address_at (address 1 ∷ address 2 ∷ []) 0)
      (group_v6 settings6 (address 1 ∷ address 2 ∷ []) 2 2 0)
group_v6_covers_example =
    group_v6_covers settings6 (address 1 ∷ address 2 ∷ []) 2 0 (omega arith) address-IsAddress6

group_v6_runs :
    group_v6 settings6 (address 1 ∷ address 2 ∷ []) 2 2 0
    ≡ record { ip_start = address 0; zct_best = 64 } ∷ []
unfolding group_v6 search next_pos
group_v6_runs = refl

-- --prefix-length=1 with 3/4: the threshold of a /1 is computed as 2^29, since 2^31 * 3 wraps.
threshold_wraps : threshold_v4 (record settings { zct_min = 31; zct_max = 31 }) 31 ≡ 2 ^ 29
unfolding threshold_v4
threshold_wraps = refl

-- With 2/3 the third address of a /30 is skipped, though with the fourth it meets the threshold
-- 4 * 2 / 3 = 2.
skips_enough : look_v4 (record settings { pctmult = 2; pctdiv = 3 }) (2 ∷ 3 ∷ []) 2 0 2 ≡ none
unfolding look_v4 byte
skips_enough = refl

threshold_of_four : threshold_v4 (record settings { pctmult = 2; pctdiv = 3 }) 2 ≡ 2
unfolding threshold_v4
threshold_of_four = refl
