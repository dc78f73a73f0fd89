-- ===== src/Helpers/Ports.antt =====
-- Port filters: pf_in_range, pf_parse and pf_is_empty of nfq/helpers.c, and the filter lists of
-- nfq/pools.c. A text is the list of its characters without the final 0; a LIST is a list, and
-- LIST_INSERT_HEAD is `∷`. The two calls of sscanf are parameters: `scan_range s` is what
-- sscanf(s,"%u-%u%c",..) stores when it returns 2, `scan_num s` what sscanf(s,"%u%c",..) stores
-- when it returns 1, and `none` any other return.
pub mod Meaning
use fog_prime.Base.{
  ℕ, ◌≤◌, Bool, true, false, not, xor, ◌&&◌, ◌||◌, ◌==◌, leb, ltb, if◌then◌else◌, List, [], ◌∷◌,
  Option, none, some, u16,
}

pub record PortFilter : Type 0 where
  pub from : ℕ
  pub to : ℕ
  pub neg : Bool

unfoldable pub pf_in_range : ℕ → PortFilter → Bool
pf_in_range port pf =
    not (port == 0) && xor (pf.from == 0 && pf.to == 0 || leb pf.from port && leb port pf.to) pf.neg

unfoldable pub pf_is_empty : PortFilter → Bool
pf_is_empty pf = not pf.neg && pf.from == 0 && pf.to == 0

-- "deny all case" at the end of pf_parse
unfoldable pub deny_all : PortFilter → PortFilter
deny_all pf = if pf.from == 0 && pf.to == 0 then record pf { neg = true } else pf

module _ (scan_range : List ℕ → Option (ℕ × ℕ)) (scan_num : List ℕ → Option ℕ) where
  -- What follows the prefix, with `neg` already stored in the filter.
  unfoldable pub pf_parse_body : List ℕ → PortFilter → Bool × PortFilter
  unfolding deny_all
  pf_parse_body s pf = elim (scan_range s) [
    | some (v1, v2) ↦
        if ltb 65535 v1 || ltb 65535 v2 || ltb v2 v1
        then (false, pf)
        else (true, deny_all (record pf { from = u16 v1; to = u16 v2 }))
    | none ↦ elim (scan_num s) [
      | some v1 ↦
          if ltb 65535 v1
          then (false, pf)
          else (true, deny_all (record pf { from = u16 v1; to = u16 v1 }))
      | none ↦ (false, pf)
    ]
  ]

  unfoldable pub pf_parse_text : List ℕ → PortFilter → Bool × PortFilter
  unfolding pf_parse_body
  pf_parse_text [] pf = pf_parse_body [] (record pf { neg = false })
  pf_parse_text (c ∷ []) pf =
      if c == b'*'
      then (true, record pf { from = 1; to = 65535 })
      else if c == b'~'
      then pf_parse_body [] (record pf { neg = true })
      else pf_parse_body (c ∷ []) (record pf { neg = false })
  pf_parse_text (c ∷ d ∷ s) pf =
      if c == b'~'
      then pf_parse_body (d ∷ s) (record pf { neg = true })
      else pf_parse_body (c ∷ d ∷ s) (record pf { neg = false })

  -- `none` is a null pointer. The filter given is what the caller's variable held before.
  unfoldable pub pf_parse : Option (List ℕ) → PortFilter → Bool × PortFilter
  unfolding pf_parse_text
  pf_parse none pf = (false, pf)
  pf_parse (some s) pf = pf_parse_text s pf

  -- `held` is what the local variable `pf` held, `mem` whether malloc succeeds.
  unfoldable pub port_filters_deny_if_empty :
      Bool → PortFilter → List PortFilter → Bool × List PortFilter
  unfolding pf_parse
  port_filters_deny_if_empty mem held (pf ∷ head) = (true, pf ∷ head)
  port_filters_deny_if_empty mem held [] =
      let (parsed, pf) = pf_parse (some (b'0' ∷ [])) held in
      if parsed && mem then (true, pf ∷ []) else (false, [])

-- The loop of port_filters_in_range.
unfoldable pub any_in_range : List PortFilter → ℕ → Bool
any_in_range [] port = false
any_in_range (pf ∷ head) port = pf_in_range port pf || any_in_range head port

unfoldable pub port_filters_in_range : List PortFilter → ℕ → Bool
port_filters_in_range [] port = true
port_filters_in_range (pf ∷ head) port = any_in_range (pf ∷ head) port
