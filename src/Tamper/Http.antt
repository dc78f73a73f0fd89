-- ===== src/Tamper/Http.antt =====
-- The HTTP case of tamper_out, tpws/tamper.c, one function for each option, in the order in which
-- they apply.
use fog_prime.Base.{
  ℕ, suc, ◌+◌, ◌-◌, ◌%◌, Bool, true, false, not, ◌&&◌, ◌||◌, ◌==◌, ltb, leb, if◌then◌else◌, List,
  [], ◌∷◌, ◌++◌, Option, none, some, length, take, drop, rd, set, and_then, zero, ◌>>=◌,
}
use fog_prime.Protocol.Http.{http_find_host}
use fog_prime.Tamper.{HttpProfile, Request}
use fog_prime.Tamper.Pad.{hsize, pad_headers}

-- memmem finds each "\r\n", which becomes "\n"; an end of line straight after the last one, or at the
-- start, is the last that is replaced. `straight` says that nothing stands between.
unfoldable pub unix_eol : Bool → List ℕ → List ℕ
unix_eol straight [] = []
unix_eol straight (c ∷ []) = c ∷ []
unix_eol straight (c ∷ d ∷ rest) =
    let here = unix_eol true rest in
    let on = unix_eol false (d ∷ rest) in
    if c == 13 && d == 10 then 10 ∷ (if straight then rest else here) else c ∷ on

unfoldable pub do_unixeol : HttpProfile → Request → Request
unfolding unix_eol
do_unixeol dp r =
    if dp.unixeol then record { segment = unix_eol true r.segment; host = none } else r

unfoldable pub do_methodeol : HttpProfile → ℕ → Request → Request
do_methodeol dp size r =
    if dp.methodeol && leb (length r.segment + 1 + (if dp.unixeol then 0 else 1)) size
    then record {
      segment = (if dp.unixeol then 10 ∷ [] else 13 ∷ 10 ∷ []) ++ r.segment;
      host = none;
    }
    else r

-- memmove of `*size - pos` bytes and a byte in the gap; behind the segment's end that count wraps.
unfoldable pub insert_at : ℕ → ℕ → List ℕ → Option (List ℕ)
insert_at pos c xs = if ltb (length xs) pos then none else some (take pos xs ++ (c ∷ drop pos xs))

abbrev pub host_moved : Option ℕ → Option ℕ
host_moved none = none
host_moved (some h) = some (h + 1)

unfoldable pub do_methodspace : HttpProfile → ℕ → ℕ → Request → Option Request
unfolding insert_at
do_methodspace dp size method_len r =
    if dp.methodspace && ltb (length r.segment) size
    then (insert_at (method_len + 1) 32 r.segment >>= λ s.
        some (record { segment = s; host = host_moved r.host }))
    else some r

-- HttpFindHost(&pHost,segment,*size), and what is done at the position of the header.
unfoldable pub at_host : (ℕ → List ℕ → Option Request) → Request → Option Request
at_host change r = http_find_host r.host r.segment (length r.segment) >>= λ o. elim o [
  | none ↦ some (record r { host = none })
  | some h ↦ change h r.segment
]

abbrev pub found : ℕ → List ℕ → Request
found h segment = record { segment = segment; host = some h }

-- The end of the line or of the segment, from `p` on; a round for each byte of the segment is enough.
unfoldable pub line_end : List ℕ → ℕ → ℕ → Option ℕ
line_end segment zero p = some p
line_end segment (suc fuel) p = elim (ltb p (length segment)) [
  | false ↦ some p
  | true ↦ rd segment p >>= λ c. elim (c == 13 || c == 10) [
    | true ↦ some p
    | false ↦ line_end segment fuel (p + 1)
  ]
]

unfoldable pub add_dot : HttpProfile → ℕ → List ℕ → Option Request
unfolding insert_at line_end
add_dot dp h segment = line_end segment (length segment) (h + 5) >>= λ p.
    if ltb p (length segment)
    then (insert_at p (if dp.hostdot then 46 else 9) segment >>= λ s. some (found h s))
    else some (found h segment)

unfoldable pub do_hostdot : HttpProfile → ℕ → Request → Option Request
unfolding at_host add_dot
do_hostdot dp size r =
    if (dp.hostdot || dp.hosttab) && ltb (length r.segment) size
    then at_host (add_dot dp) r
    else some r

-- tolower and toupper of ASCII letters
abbrev pub tolower : ℕ → ℕ
tolower c = if leb 65 c && leb c 90 then c + 32 else c

abbrev pub toupper : ℕ → ℕ
toupper c = if leb 97 c && leb c 122 then c - 32 else c

-- The case goes by the parity of the address of the byte, `base + p`; a round for each byte of the
-- segment is enough.
unfoldable pub mix_case : ℕ → ℕ → ℕ → List ℕ → Option (List ℕ)
mix_case base zero p segment = some segment
mix_case base (suc fuel) p segment = elim (ltb p (length segment)) [
  | false ↦ some segment
  | true ↦ rd segment p >>= λ c. elim (c == 13 || c == 10) [
    | true ↦ some segment
    | false ↦
        mix_case base fuel (p + 1)
          (set segment p (if (base + p) % 2 == 1 then tolower c else toupper c))
  ]
]

unfoldable pub mix_host : ℕ → ℕ → List ℕ → Option Request
unfolding mix_case
mix_host base h segment = mix_case base (length segment) (h + 5) segment >>= λ s. some (found h s)

unfoldable pub do_domcase : HttpProfile → ℕ → Request → Option Request
unfolding at_host mix_host
do_domcase dp base r = if dp.domcase then at_host (mix_host base) r else some r

unfoldable pub cut_space : ℕ → List ℕ → Option Request
cut_space h segment =
    and_then (ltb (h + 5) (length segment)) (rd segment (h + 5) >>= λ c. some (c == 32)) >>= λ cut.
    some (if cut then found h (take (h + 5) segment ++ drop (h + 6) segment) else found h segment)

unfoldable pub do_hostnospace : HttpProfile → Request → Option Request
unfolding at_host cut_space
do_hostnospace dp r = if dp.hostnospace then at_host cut_space r else some r

unfoldable pub spell_host : List ℕ → ℕ → List ℕ → Option Request
spell_host spell h segment =
    some (found h (take h segment ++ (take 4 spell ++ drop (h + 4) segment)))

unfoldable pub do_hostcase : HttpProfile → Request → Option Request
unfolding at_host spell_host
do_hostcase dp r = if dp.hostcase then at_host (spell_host dp.hostspell) r else some r

-- The room that the padding takes: at least a header, at most what the buffer has left.
unfoldable pub pad_room : HttpProfile → ℕ → ℕ → ℕ
pad_room dp size len =
    let wanted = if ltb dp.hostpad (hsize dp.unixeol) then hsize dp.unixeol else dp.hostpad in
    if ltb size (wanted + len) then size - len else wanted

unfoldable pub pad_host : (ℕ → List ℕ) → (ℕ → ℕ) → HttpProfile → ℕ → ℕ → List ℕ → Option Request
unfolding pad_headers pad_room
pad_host name fill dp size h segment =
    let room = pad_room dp size (length segment) in
    if ltb size (hsize dp.unixeol + length segment)
    then some (found h segment)
    else some (record {
      segment = take h segment ++ (pad_headers name fill dp.unixeol room 0 room ++ drop h segment);
      host = none;
    })

unfoldable pub do_hostpad : (ℕ → List ℕ) → (ℕ → ℕ) → HttpProfile → ℕ → Request → Option Request
unfolding at_host pad_host
do_hostpad name fill dp size r =
    if not (dp.hostpad == 0) then at_host (pad_host name fill dp size) r else some r

-- case HTTP, up to the split positions. `base` is the address of the segment, `size` the size of its
-- buffer.
unfoldable pub tamper_http :
    (ℕ → List ℕ) → (ℕ → ℕ) → HttpProfile → ℕ → ℕ → ℕ → Request → Option Request
unfolding do_unixeol do_methodeol do_methodspace do_hostdot do_domcase do_hostnospace do_hostcase
    do_hostpad
tamper_http name fill dp base size method_len r = do
  m ← do_methodspace dp size method_len (do_methodeol dp size (do_unixeol dp r))
  a ← do_hostdot dp size m
  b ← do_domcase dp base a
  c ← do_hostnospace dp b
  d ← do_hostcase dp c
  do_hostpad name fill dp size d
