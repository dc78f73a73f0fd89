-- ===== src/Desync/AutoHostlist/Recheck.antt =====
-- What the check of a name says of a profile's lists, and what it makes of them.
use fog_prime.Base.{
  ℕ, ◌≡◌, refl, sym, ◌∙◌, ap, Bool, true, false, ◌||◌, Option, none, some, List, [], ◌∷◌, ◌++◌,
  Bool-cases, Option-cases, inl, inr,
}
use fog_prime.Table.{HashTable}
use fog_prime.Hostlist.{
  Pool, any_list, search_host_list, hostlist_collection_is_empty, hostlist_check,
}
use fog_prime.Hostlist.Search.{search_host_list_lem}
use fog_prime.Desync.AutoHostlist.{
  Lists, Outside, hl_collection, make_autolist_non_empty, non_empty_hostlist, hostlist_check_reload,
  hostlist_pool_add_str, hostlist_pool_get_str, add_to_auto, recheck_and_add,
}

search_hit :
    (p : Pool) (name : List ℕ) (f : ℕ) (no_match : Bool)
    → p name ≡ some f
    → search_host_list (some p) name no_match ≡ true
search_hit p name f no_match e = (search_host_list_lem p name no_match).1 (inl (f, e, inl refl))

any_list-hit :
    (a b : List (Option Pool)) (p : Option Pool) (name : List ℕ) (no_match : Bool)
    → search_host_list p name no_match ≡ true
    → any_list (a ++ p ∷ b) name no_match ≡ true
unfolding any_list
any_list-hit [] b p name no_match e = rw (e, any_list) refl
any_list-hit (x ∷ a) b p name no_match e = elim (Bool-cases (search_host_list x name no_match)) [
  | inl h ↦ rw (h, any_list) refl
  | inr h ↦ rw (h, any_list) (any_list-hit a b p name no_match e)
]

is_empty-hit :
    (a b : List (Option Pool)) (p : Pool) → hostlist_collection_is_empty (a ++ some p ∷ b) ≡ false
unfolding hostlist_collection_is_empty
is_empty-hit [] b p = refl
is_empty-hit (none ∷ a) b p = is_empty-hit a b p
is_empty-hit (some x ∷ a) b p = refl

module _ (lists exclude : List (Option Pool)) (name : List ℕ) (no_match : Bool) where
  check_false_exclude :
      hostlist_check lists exclude name no_match ≡ (false, false)
      → any_list exclude name no_match ≡ false
  unfolding hostlist_check
  check_false_exclude h = elim (Bool-cases (any_list exclude name no_match)) [
    | inl e ↦ absurd (clash (rw (e, hostlist_check) at h))
    | inr e ↦ e
  ]
    where
      clash : ◌≡◌ {A = Bool × Bool} (false, true) (false, false) → ⊥
      clash h = cc

  check_hit :
      any_list exclude name no_match ≡ false
      → hostlist_collection_is_empty lists ≡ false
      → any_list lists name no_match ≡ true
      → hostlist_check lists exclude name no_match ≡ (true, false)
  unfolding hostlist_check
  check_hit e n a = rw (e, hostlist_check, n, a) refl

module _ (Hosts : HashTable (List ℕ) ℕ) (o : Outside Hosts) (host : List ℕ) (no_match : Bool) where
  -- The files of the lists have not changed.
  abbrev pub IsQuiet : Lists Hosts → Type 0
  IsQuiet l = o.reload l ≡ (l, true)

  abbrev pub checked : Lists Hosts → Bool × Bool
  checked l = hostlist_check (hl_collection Hosts l) l.exclude host no_match

  make_same :
      (l : Lists Hosts) (a : Hosts.Table) → l.auto ≡ some a → make_autolist_non_empty Hosts o l ≡ l
  unfolding make_autolist_non_empty
  make_same l a e = ap (λ x. record l { auto = x }) same
    where
      same : (non_empty_hostlist Hosts o.list_memory l.auto).0 ≡ l.auto
      same = rw (e, non_empty_hostlist) refl

  recheck_lem :
      (l : Lists Hosts) (a : Hosts.Table)
      → l.auto ≡ some a
      → IsQuiet l
      → hostlist_check_reload Hosts o l host no_match ≡ (l, checked l)
  unfolding hostlist_check_reload
  recheck_lem l a e q = rw q (ap (λ l'. (l', checked l')) (make_same l a e))

  pub recheck_kept :
      (l : Lists Hosts) (a : Hosts.Table) (b x : Bool)
      → l.auto ≡ some a
      → IsQuiet l
      → checked l ≡ (b, x)
      → (b || x) ≡ true
      → recheck_and_add Hosts o l host no_match ≡ l
  unfolding recheck_and_add
  recheck_kept l a true x e q c h = rw (recheck_lem l a e q, c) refl
  recheck_kept l a false true e q c h = rw (recheck_lem l a e q, c) refl
  recheck_kept l a false false e q c h = absurd (no h)
    where
      no : false ≡ true → ⊥
      no h = cc

  collection_hit :
      (l : Lists Hosts) (a : Hosts.Table) (f : ℕ)
      → l.auto ≡ some a
      → Hosts.find a host ≡ some f
      → any_list l.exclude host no_match ≡ false
      → checked l ≡ (true, false)
  collection_hit l a f e found ex = rw e (
      check_hit (l.before ++ some (Hosts.find a) ∷ l.after) l.exclude host no_match ex
        (is_empty-hit l.before l.after (Hosts.find a))
        (any_list-hit l.before l.after (some (Hosts.find a)) host no_match
          (search_hit (Hosts.find a) host f no_match found)))

  not_there :
      (l : Lists Hosts) (a : Hosts.Table)
      → l.auto ≡ some a
      → checked l ≡ (false, false)
      → Hosts.find a host ≡ none
  not_there l a e c = elim (Option-cases (Hosts.find a host)) [
    | inl n ↦ n
    | inr (f, found) ↦ absurd (
        clash (
          sym (
            collection_hit l a f e found
              (check_false_exclude (hl_collection Hosts l) l.exclude host no_match c))
          ∙ c))
  ]
    where
      clash : ◌≡◌ {A = Bool × Bool} (true, false) (false, false) → ⊥
      clash h = cc

  abbrev pub learned : Lists Hosts → Hosts.Table → Lists Hosts
  learned l a = record l { auto = some (Hosts.add a host 0); file = l.file ++ host ∷ [] }

  pub recheck_added :
      (l : Lists Hosts) (a : Hosts.Table)
      → l.auto ≡ some a
      → IsQuiet l
      → o.list_memory ≡ true
      → o.writable ≡ true
      → checked l ≡ (false, false)
      → recheck_and_add Hosts o l host no_match ≡ learned l a
  unfolding recheck_and_add add_to_auto hostlist_pool_add_str hostlist_pool_get_str
  recheck_added l a e q m w c =
      rw (recheck_lem l a e q, c, e, hostlist_pool_get_str, not_there l a e c, m, w) refl

  pub learned_checked :
      (l : Lists Hosts) (a : Hosts.Table)
      → l.auto ≡ some a
      → checked l ≡ (false, false)
      → checked (learned l a) ≡ (true, false)
  learned_checked l a e c =
      collection_hit (learned l a) (Hosts.add a host 0) 0 refl found
        (check_false_exclude (hl_collection Hosts l) l.exclude host no_match c)
    where
      found : Hosts.find (Hosts.add a host 0) host ≡ some 0
      found =
          rw (Hosts.find-add a host 0 host (not_there l a e c), (Hosts.key_eq_iff host host).1 refl)
            refl

  pub recheck_unloaded :
      (l l' : Lists Hosts) (a : Hosts.Table)
      → o.reload l ≡ (l', false)
      → l'.auto ≡ some a
      → Hosts.find a host ≡ none
      → o.list_memory ≡ true
      → o.writable ≡ true
      → recheck_and_add Hosts o l host no_match ≡ learned l' a
  unfolding recheck_and_add add_to_auto hostlist_pool_add_str hostlist_pool_get_str
      hostlist_check_reload
  recheck_unloaded l l' a q e n m w = rw (q, e, hostlist_pool_get_str, n, m, w) refl

  pub excluded_checked :
      (l : Lists Hosts) → any_list l.exclude host no_match ≡ true → checked l ≡ (false, true)
  unfolding hostlist_check
  excluded_checked l e = rw (e, hostlist_check) refl
