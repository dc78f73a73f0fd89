-- ===== src/Subnets/Whole.antt =====
-- `main` of ip2net/ip2net.c for IPv4, on the addresses that were read: sort, make unique, group.
use fog_prime.Base.{
  ℕ, zero, suc, ◌<◌, ◌^◌, ◌≡◌, ◌↔◌, inl, inr, refl, sym, ◌∙◌, subst, false, List, [], ◌∷◌, some,
  byte, length, take, length-take, take_all, arith,
}
use fog_prime.Helpers.Unique.{unique_size_t}
use fog_prime.Helpers.Unique.InPlace.{
  unique_size_t_lem, unique-dedup, SortedFrom, StrictFrom, IsStrict, Has,
}
use fog_prime.Net.Fragment.Lists.{byte-take}
use fog_prime.Subnets.Options.{Params, Argument, parse_params, parse_params_lem, IsUsable}
use fog_prime.Subnets.{Printed, group_v4}
use fog_prime.Subnets.Cover.{Covered, IsAscending, IsAcceptedV4, group_v4_covers}
use fog_prime.Subnets.Apart.{IsApart, group_v4-IsApart}

-- `unique`, the code of unique_size_t on uint32_t items
unfoldable pub unique : List ℕ → ℕ → ℕ × List ℕ
unique pu ct = unique_size_t pu ct

-- `sort` stands for gnu_quicksort with ucmp.
unfoldable pub main_v4 : (List ℕ → List ℕ) → Params → List ℕ → List Printed
unfolding unique
main_v4 sort params ips =
    let (ipct, iplist) = unique (sort ips) (length ips) in group_v4 params iplist ipct ipct 0

-- What the code relies on: the sort orders the items, and keeps each of them.
abbrev pub Sorts : (List ℕ → List ℕ) → Type 0
Sorts sort =
    (xs : List ℕ)
    → SortedFrom 0 (sort xs)
      × (length (sort xs) ≡ length xs)
      × ((a : ℕ) → Has a (sort xs) ↔ Has a xs)

Has-byte : (xs : List ℕ) (q : ℕ) → q < length xs → Has (byte xs q) xs
unfolding byte
Has-byte [] q h = absurd (omega arith)
Has-byte (x ∷ xs) zero h = inl refl
Has-byte (x ∷ xs) (suc q) h = inr (Has-byte xs q (omega arith))

position : (xs : List ℕ) (a : ℕ) → Has a xs → (q : ℕ) × (q < length xs) × (byte xs q ≡ a)
unfolding byte
position [] a h = absurd h
position (x ∷ xs) a (inl e) = (0, omega arith, sym e)
position (x ∷ xs) a (inr h) = let (q, lt, e) = position xs a h in (suc q, omega arith, e)

strict_above : (lo : ℕ) (xs : List ℕ) (q : ℕ) → StrictFrom lo xs → q < length xs → lo < byte xs q
unfolding byte
strict_above lo [] q s h = absurd (omega arith)
strict_above lo (x ∷ xs) zero s h = s.0
strict_above lo (x ∷ xs) (suc q) s h = omega (arith, s.0, strict_above x xs q s.1 (omega arith))

strict_items : (xs : List ℕ) (i j : ℕ) → IsStrict xs → i < j → j < length xs → byte xs i < byte xs j
unfolding byte
strict_items [] i j s lt h = absurd (omega arith)
strict_items (x ∷ xs) zero zero s lt h = absurd (omega arith)
strict_items (x ∷ xs) (suc i) zero s lt h = absurd (omega arith)
strict_items (x ∷ xs) zero (suc j) s lt h = strict_above x xs j s (omega arith)
strict_items (x ∷ xs) (suc i) (suc j) s lt h =
    strict_items xs i j (weaken xs s) (omega arith) (omega arith)
  where
    weaken : (ys : List ℕ) → StrictFrom x ys → IsStrict ys
    weaken [] s = tt
    weaken (y ∷ ys) s = s.1

pub strict-IsAscending :
    (xs : List ℕ) → IsStrict xs → ((a : ℕ) → Has a xs → a < 2 ^ 32) → IsAscending xs (length xs)
strict-IsAscending xs strict words =
    (λ i lt. words (byte xs i) (Has-byte xs i lt), λ i j lt h. strict_items xs i j strict lt h)

-- The array after `unique`: ascending, and with the addresses that were read.
abbrev IsPrepared : List ℕ → ℕ × List ℕ → Type 0
IsPrepared ips (ipct, iplist) =
    IsAscending iplist ipct × ((a : ℕ) → Has a ips → (q : ℕ) × (q < ipct) × (byte iplist q ≡ a))

prepared :
    (ips : List ℕ) (ipct : ℕ) (iplist : List ℕ)
    → length (take ipct iplist) ≡ ipct
    → IsStrict (take ipct iplist)
    → ((a : ℕ) → Has a (take ipct iplist) ↔ Has a ips)
    → ((a : ℕ) → Has a ips → a < 2 ^ 32)
    → IsPrepared ips (ipct, iplist)
prepared ips ipct iplist size strict read words =
    let xs = take ipct iplist in
    let (word, up) = strict-IsAscending xs strict (λ a h. words a ((read a).0 h)) in
    (
      (
        λ i lt. omega (arith, word i (omega (arith, size)), byte-take ipct iplist i lt),
        λ i j lt h. omega (
          arith,
          up i j lt (omega (arith, size)),
          byte-take ipct iplist i (omega arith),
          byte-take ipct iplist j h,
        ),
      ),
      λ a h.
          let (q, lt, e) = position xs a ((read a).1 h) in
          (q, omega (arith, size), sym (byte-take ipct iplist q (omega (arith, size))) ∙ e),
    )

unique-IsPrepared :
    (sort : List ℕ → List ℕ) (ips : List ℕ)
    → Sorts sort
    → ((a : ℕ) → Has a ips → a < 2 ^ 32)
    → IsPrepared ips (unique (sort ips) (length ips))
unfolding unique
unique-IsPrepared sort ips sorts words =
    let (sorted, same_length, same) = sorts ips in
    let xs = sort ips in
    let ct = length ips in
    let (ipct, iplist) = unique_size_t xs ct in
    let whole : take ct xs ≡ xs = take_all ct xs (omega (arith, same_length)) in
    let (strict, kept, le) =
      unique_size_t_lem xs ct (omega (arith, same_length))
        (subst (SortedFrom 0) (sym whole) sorted) in
    let same_size : length iplist ≡ length xs =
      (unique-dedup xs ct (omega (arith, same_length))).2 in
    let size : length (take ipct iplist) ≡ ipct =
      omega (arith, length-take ipct iplist, same_size, same_length, le) in
    let read : (a : ℕ) → Has a (take ipct iplist) ↔ Has a ips = λ a. (
      λ h. (same a).0 (subst (Has a) whole ((kept a).0 h)),
      λ h. (kept a).1 (subst (Has a) (sym whole) ((same a).1 h)),
    ) in
    prepared ips ipct iplist size strict read words

-- The loop on a prepared array.
abbrev IsGrouped : List ℕ → List Printed → Type 0
IsGrouped ips lines = ((a : ℕ) → Has a ips → Covered a lines) × IsApart lines

group_v4-IsGrouped :
    (params : Params) (ips : List ℕ) (array : ℕ × List ℕ)
    → IsAcceptedV4 params
    → IsPrepared ips array
    → IsGrouped ips (group_v4 params array.1 array.0 array.0 0)
group_v4-IsGrouped params ips (ipct, iplist) accepted (ascending, read) = (
  λ a h.
      let (q, lt, e) = read a h in
      subst (λ b. Covered b (group_v4 params iplist ipct ipct 0)) e
        (group_v4_covers params iplist ipct accepted ascending q lt),
  group_v4-IsApart params iplist ipct accepted ascending,
)

accepted_v4 : (params : Params) → params.ipv6 ≡ false → IsUsable params → IsAcceptedV4 params
accepted_v4 params v4 usable = ground arith

-- When the options are accepted and ask for IPv4, the addresses read are 32-bit numbers, and the sort
-- orders them and keeps each, then each address that was read lies in a line that is printed, and
-- each line ends below the start of the next one: no two of them meet.
pub main_v4_lem :
    (sort : List ℕ → List ℕ) (args : List Argument) (params : Params) (ips : List ℕ)
    → Sorts sort
    → parse_params args ≡ some params
    → params.ipv6 ≡ false
    → ((a : ℕ) → Has a ips → a < 2 ^ 32)
    → ((a : ℕ) → Has a ips → Covered a (main_v4 sort params ips))
      × IsApart (main_v4 sort params ips)
unfolding main_v4
main_v4_lem sort args params ips sorts parsed v4 words =
    group_v4-IsGrouped params ips (unique (sort ips) (length ips))
      (accepted_v4 params v4 (parse_params_lem args params parsed))
      (unique-IsPrepared sort ips sorts words)
