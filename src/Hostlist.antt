-- ===== src/Hostlist.antt =====
-- Host lists, SearchHostList and HostlistCheck_ of nfq/hostlist.c. A list is what its pool answers
-- for a name, the flags of the entry; a file without entries has no pool. Load adds a text of names
-- to a pool; that the files are read again when they change is not modelled: the check starts where
-- it has succeeded or is skipped.
pub mod Search
pub mod Load
mod Tests
use fog_prime.Base.{
  ℕ, zero, suc, ◌%◌, Bool, true, false, ◌&&◌, not, ◌==◌, List, [], ◌∷◌, length, Option, none, some,
}

-- HostlistPoolGetStr
abbrev pub Pool : Type 0
Pool = List ℕ → Option ℕ

-- `p = strchr(p, '.'); if (p) p++;`
unfoldable pub after_dot : List ℕ → Option (List ℕ)
after_dot [] = none
after_dot (c ∷ p) = let rest = after_dot p in elim (c == 46) [ true ↦ some p | false ↦ rest ]

-- HOSTLIST_POOL_FLAG_STRICT_MATCH is 1.
abbrev pub is_strict : ℕ → Bool
is_strict flags = flags % 2 == 1

-- An entry that is found counts unless it is strict and `p` is not the full name.
unfoldable pub is_positive : Bool → Option ℕ → Bool
is_positive full none = false
is_positive full (some flags) = not (is_strict flags && not full)

unfoldable pub search_loop : Pool → Bool → ℕ → Bool → List ℕ → Bool
unfolding after_dot is_positive
search_loop pool no_match_subdomains zero full p = false
search_loop pool no_match_subdomains (suc fuel) full p = elim (is_positive full (pool p)) [
  | true ↦ true
  | false ↦ elim no_match_subdomains [
    | true ↦ false
    | false ↦ elim (after_dot p) [
      | none ↦ false
      | some p' ↦ search_loop pool no_match_subdomains fuel false p'
    ]
  ]
]

-- Each round passes a dot.
unfoldable pub search_host_list : Option Pool → List ℕ → Bool → Bool
unfolding search_loop
search_host_list none name no_match_subdomains = false
search_host_list (some pool) name no_match_subdomains =
    search_loop pool no_match_subdomains (suc (length name)) true name

-- LIST_FOREACH with a search in each list.
unfoldable pub any_list : List (Option Pool) → List ℕ → Bool → Bool
unfolding search_host_list
any_list [] name no_match_subdomains = false
any_list (l ∷ lists) name no_match_subdomains =
    let rest = any_list lists name no_match_subdomains in
    elim (search_host_list l name no_match_subdomains) [ true ↦ true | false ↦ rest ]

-- No list has entries.
unfoldable pub hostlist_collection_is_empty : List (Option Pool) → Bool
hostlist_collection_is_empty [] = true
hostlist_collection_is_empty (l ∷ lists) =
    let rest = hostlist_collection_is_empty lists in elim l [ some p ↦ false | none ↦ rest ]

-- The result and `excluded`.
unfoldable pub hostlist_check :
    List (Option Pool) → List (Option Pool) → List ℕ → Bool → Bool × Bool
unfolding any_list hostlist_collection_is_empty
hostlist_check lists exclude name no_match_subdomains =
    elim (any_list exclude name no_match_subdomains) [
      | true ↦ (false, true)
      | false ↦ elim (hostlist_collection_is_empty lists) [
        | true ↦ (true, false)
        | false ↦ (any_list lists name no_match_subdomains, false)
      ]
    ]
