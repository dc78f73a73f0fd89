-- ===== src/Hostlist/Tests.antt =====
-- The theorem about nfq/hostlist.c at a concrete list.
use fog_prime.Base.{
  ℕ, ◌≡◌, ◌↔◌, true, false, List, [], ◌∷◌, ◌==◌, none, some, Option, length, arith, if◌then◌else◌,
  ◌&&◌, refl,
}
use fog_prime.Hostlist.{Pool, search_host_list}
use fog_prime.Hostlist.Load.{append_text}
use fog_prime.Hostlist.Load.Names.{add_names, names, cut_lines, append_text_lem}
use fog_prime.Hostlist.Search.{Found, search_host_list_lem}

-- the list with the one entry "ru"
abbrev only_ru : Pool
only_ru (r ∷ u ∷ []) = if r == 114 && u == 117 then some 0 else none
only_ru _ = none

-- "ya.ru"
abbrev name : List ℕ
name = 121 ∷ 97 ∷ 46 ∷ 114 ∷ 117 ∷ []

search_host_list_lem_example :
    (search_host_list (some only_ru) name false ≡ true) ↔ Found only_ru false true name
search_host_list_lem_example = search_host_list_lem only_ru name false

-- A pool as the list of its entries, the last one first; there is always memory.
abbrev Entries : Type 0
Entries = List (List ℕ × ℕ)

abbrev remember : Entries → List ℕ → ℕ → Option Entries
remember pool entry flags = some ((entry, flags) ∷ pool)

-- "#a", "Ya.ru", an empty line and "^b.c"
abbrev text : List ℕ
text = 35 ∷ 97 ∷ 10 ∷ 89 ∷ 97 ∷ 46 ∷ 114 ∷ 117 ∷ 13 ∷ 10 ∷ 10 ∷ 94 ∷ 98 ∷ 46 ∷ 99 ∷ 10 ∷ []

append_text_lem_example :
    append_text remember (length text) [] text ≡ add_names remember [] (names (cut_lines text))
append_text_lem_example = append_text_lem remember text [] (ground arith)

append_text_runs :
    append_text remember (length text) [] text ≡ some ((98 ∷ 46 ∷ 99 ∷ [], 1) ∷ (name, 0) ∷ [])
unfolding append_text
append_text_runs = refl
