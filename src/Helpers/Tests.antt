-- ===== src/Helpers/Tests.antt =====
-- The theorems about nfq/helpers.c at concrete inputs, and runs of its functions.
use fog_prime.Base.{
  ℕ, ◌^◌, ◌≡◌, refl, true, false, List, [], ◌∷◌, Option, none, some, leb, ◌&&◌, ◌==◌, if◌then◌else◌,
  ◌-◌, byte,
}
use fog_prime.Helpers.Seq.{seq_within}
use fog_prime.Helpers.Ports.{PortFilter, pf_parse, pf_in_range}
use fog_prime.Helpers.Ports.Meaning.{denotes, sign, pf_parse_meaning}
use fog_prime.Helpers.Unique.{unique_size_t}

seq_within_wraps : seq_within 5 (2 ^ 32 - 10) 20 ≡ true
unfolding seq_within
seq_within_wraps = refl

-- sscanf as far as these tests use it: "~1-9" and "0".
abbrev scan_range : List ℕ → Option (ℕ × ℕ)
scan_range (a ∷ b ∷ c ∷ s) = if b == b'-' then some (a - 48, c - 48) else none
scan_range s = none

abbrev scan_num : List ℕ → Option ℕ
scan_num (a ∷ []) = some (a - 48)
scan_num s = none

abbrev no_filters : List PortFilter
no_filters = []

abbrev held : PortFilter
held = record { from = 0; to = 0; neg = false }

abbrev text : List ℕ
text = b'~' ∷ b'1' ∷ b'-' ∷ b'9' ∷ []

pf_parse_meaning_example :
    let (done, pf) = pf_parse scan_range scan_num (some text) held in
    (done ≡ (leb 1 9 && leb 9 65535))
    × (done ≡ true → pf_in_range 80 pf ≡ denotes (sign text) 1 9 80)
pf_parse_meaning_example = pf_parse_meaning scan_range scan_num text held 1 9 80 refl (λ e. cc)

abbrev sorted : List ℕ
sorted = 1 ∷ 1 ∷ 2 ∷ 3 ∷ 3 ∷ 9 ∷ []

unique_size_t_runs : unique_size_t sorted 5 ≡ (3, 1 ∷ 2 ∷ 3 ∷ 3 ∷ 3 ∷ 9 ∷ [])
unfolding unique_size_t byte
unique_size_t_runs = refl
