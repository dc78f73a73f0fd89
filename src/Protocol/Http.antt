-- ===== src/Protocol/Http.antt =====
-- HTTP requests and replies, nfq/protocol.c: the method, the host, a header, the reply code and the
-- split positions. Loops run over what is left of the buffer.
pub mod FindHost
pub mod Positions
use fog_prime.Base.{
  ℕ, zero, suc, ◌+◌, ◌-◌, ◌*◌, Bool, true, false, ◌||◌, ◌&&◌, ◌==◌, not, ltb, leb, if◌then◌else◌,
  List, [], ◌∷◌, length, Option, none, some, rd, ◌>>=◌, and_then, drop, not,
}
use fog_prime.Protocol.Marker.{
  ℤ, pos, negsuc, shift, find_nld, Marker, host, http_method, is_host_marker, check_pos,
  any_proto_pos, host_pos,
}
use fog_prime.Protocol.Tls.{tolower, copy_lower}

-- `!memcmp(buf + at, text, length text)`
unfoldable pub mem_equal : List ℕ → ℕ → List ℕ → Option Bool
mem_equal buf at [] = some true
mem_equal buf at (c ∷ text) =
    rd buf at >>= λ b. mem_equal buf (at + 1) text >>= λ rest. some (b == c && rest)

-- "GET /", "POST /", "HEAD /", "OPTIONS ", "PUT /", "DELETE /", "CONNECT ", "TRACE /"
abbrev pub http_methods : List (List ℕ)
http_methods =
    (71 ∷ 69 ∷ 84 ∷ 32 ∷ 47 ∷ [])
    ∷ (80 ∷ 79 ∷ 83 ∷ 84 ∷ 32 ∷ 47 ∷ [])
    ∷ (72 ∷ 69 ∷ 65 ∷ 68 ∷ 32 ∷ 47 ∷ [])
    ∷ (79 ∷ 80 ∷ 84 ∷ 73 ∷ 79 ∷ 78 ∷ 83 ∷ 32 ∷ [])
    ∷ (80 ∷ 85 ∷ 84 ∷ 32 ∷ 47 ∷ [])
    ∷ (68 ∷ 69 ∷ 76 ∷ 69 ∷ 84 ∷ 69 ∷ 32 ∷ 47 ∷ [])
    ∷ (67 ∷ 79 ∷ 78 ∷ 78 ∷ 69 ∷ 67 ∷ 84 ∷ 32 ∷ [])
    ∷ (84 ∷ 82 ∷ 65 ∷ 67 ∷ 69 ∷ 32 ∷ 47 ∷ [])
    ∷ []

-- The loop of HttpMethod.
unfoldable pub first_method : List (List ℕ) → List ℕ → ℕ → Option (Option (List ℕ))
unfolding mem_equal
first_method [] buf len = some none
first_method (m ∷ methods) buf len = and_then (leb (length m) len) (mem_equal buf 0 m) >>= λ b.
    elim b [ true ↦ some (some m) | false ↦ first_method methods buf len ]

unfoldable pub http_method_of : List ℕ → ℕ → Option (Option (List ℕ))
unfolding first_method
http_method_of buf len = first_method http_methods buf len

unfoldable pub is_http : List ℕ → ℕ → Option Bool
unfolding http_method_of
is_http buf len = http_method_of buf len >>= λ m. some (elim m [ none ↦ false | some t ↦ true ])

-- "\nHost:" with the four letters in either case
unfoldable pub is_host_at : List ℕ → ℕ → Option Bool
is_host_at buf p = do
  c0 ← rd buf p
  and_then (c0 == 10) (do
    c1 ← rd buf (p + 1)
    and_then (c1 == 72 || c1 == 104) (do
      c2 ← rd buf (p + 2)
      and_then (c2 == 111 || c2 == 79) (do
        c3 ← rd buf (p + 3)
        and_then (c3 == 115 || c3 == 83) (do
          c4 ← rd buf (p + 4)
          and_then (c4 == 116 || c4 == 84) (do c5 ← rd buf (p + 5); some (c5 == 58))))))

-- `for (; pos <= bs; pos++)`, with `rounds` positions left.
unfoldable pub find_host_loop : List ℕ → ℕ → ℕ → Option (Option ℕ)
unfolding is_host_at
find_host_loop buf zero p = some none
find_host_loop buf (suc rounds) p = is_host_at buf p >>= λ b. elim b [
  | true ↦ some (some p)
  | false ↦ find_host_loop buf rounds (p + 1)
]

unfoldable pub find_host_in : List ℕ → ℕ → Option (Option ℕ)
unfolding find_host_loop
find_host_in buf bs = if ltb bs 6 then some none else find_host_loop buf (bs - 5) 0

-- The new value of *pHost. The function returns whether that is a position.
unfoldable pub http_find_host : Option ℕ → List ℕ → ℕ → Option (Option ℕ)
unfolding find_host_in
http_find_host (some p) buf bs = some (some p)
http_find_host none buf bs =
    find_host_in buf bs >>= λ o. some (elim o [ none ↦ none | some p ↦ some (p + 1) ])

abbrev pub is_digit : ℕ → Bool
is_digit c = leb 48 c && leb c 57

-- The code compares 7 bytes with "HTTP/1.".
unfoldable pub is_http_reply : List ℕ → ℕ → Option Bool
unfolding mem_equal
is_http_reply buf len = and_then (ltb 14 len) (do
  p ← mem_equal buf 0 (72 ∷ 84 ∷ 84 ∷ 80 ∷ 47 ∷ 49 ∷ 46 ∷ [])
  and_then p (do
    minor ← rd buf 7
    and_then (minor == 48 || minor == 49) (do
      c8 ← rd buf 8
      and_then (c8 == 32) (do
        c9 ← rd buf 9
        and_then (is_digit c9) (do
          c10 ← rd buf 10
          and_then (is_digit c10) (do c11 ← rd buf 11; some (is_digit c11)))))))

-- (data[9]-'0')*100 + (data[10]-'0')*10 + (data[11]-'0')
unfoldable pub http_reply_code : List ℕ → Option ℤ
unfolding shift
http_reply_code buf = do
  c9 ← rd buf 9
  c10 ← rd buf 10
  c11 ← rd buf 11
  some (shift (c9 * 100 + c10 * 10 + c11) (negsuc 5327))

-- `while (p < e && ...) p++` of HttpExtractHeader, over the `left` bytes up to e.
unfoldable pub skip_while : (ℕ → Bool) → List ℕ → ℕ → ℕ → Option ℕ
skip_while test buf zero p = some p
skip_while test buf (suc left) p =
    rd buf p >>= λ c. elim (test c) [ true ↦ skip_while test buf left (p + 1) | false ↦ some p ]

abbrev pub is_blank : ℕ → Bool
is_blank c = c == 32 || c == 9

abbrev pub is_word : ℕ → Bool
is_word c = not (c == 13 || c == 10 || c == 32 || c == 9)

-- toupper in the C locale.
abbrev pub toupper : ℕ → ℕ
toupper c = if leb 97 c && leb c 122 then c - 32 else c

-- `!strncasecmp(buf + at, text, length text)` for a text without 0; it ends at the first difference.
unfoldable pub case_equal : List ℕ → ℕ → List ℕ → Option Bool
case_equal buf at [] = some true
case_equal buf at (c ∷ text) = rd buf at >>= λ b. elim (tolower b == tolower c) [
  | true ↦ case_equal buf (at + 1) text
  | false ↦ some false
]

-- The two loops of strncasestr in nfq/helpers.c, with `slen` bytes left, for the text c ∷ find.
unfoldable pub search_loop : List ℕ → ℕ → List ℕ → ℕ → ℕ → Option (Option ℕ)
unfolding case_equal
search_loop buf c find zero s = some none
search_loop buf c find (suc slen) s = rd buf s >>= λ sc. elim (sc == 0) [
  | true ↦ some none
  | false ↦ elim (toupper c == toupper sc) [
    | false ↦ search_loop buf c find slen (s + 1)
    | true ↦ elim (ltb slen (length find)) [
      | true ↦ some none
      | false ↦ case_equal buf (s + 1) find >>= λ b. elim b [
        | true ↦ some (some s)
        | false ↦ search_loop buf c find slen (s + 1)
      ]
    ]
  ]
]

-- The position of `find` in the first `slen` bytes.
unfoldable pub strncasestr : List ℕ → List ℕ → ℕ → Option (Option ℕ)
unfolding search_loop
strncasestr buf [] slen = some (some 0)
strncasestr buf (c ∷ find) slen = search_loop buf c find slen 0

-- The value of a header as a string without its final 0, cut to `len_buf` > 0 bytes.
unfoldable pub http_extract_header : List ℕ → ℕ → List ℕ → ℕ → Option (Option (List ℕ))
unfolding strncasestr skip_while copy_lower
http_extract_header buf len header len_buf = strncasestr buf header len >>= λ o. elim o [
  | none ↦ some none
  | some p ↦ skip_while is_blank buf (len - (p + length header)) (p + length header) >>= λ start.
      skip_while is_word buf (len - start) start >>= λ stop. elim (ltb start stop) [
        | false ↦ some none
        | true ↦
            copy_lower buf start (if leb len_buf (stop - start) then len_buf - 1 else stop - start)
            >>= λ value. some (some value)
      ]
]

-- "\nHost:"
unfoldable pub http_extract_host : List ℕ → ℕ → ℕ → Option (Option (List ℕ))
unfolding http_extract_header
http_extract_host buf len len_host =
    http_extract_header buf len (10 ∷ 72 ∷ 111 ∷ 115 ∷ 116 ∷ 58 ∷ []) len_host

-- What follows a text that the string starts with.
unfoldable pub after : List ℕ → List ℕ → Option (List ℕ)
after [] s = some s
after (c ∷ text) [] = none
after (c ∷ text) (d ∷ s) = elim (c == d) [ true ↦ after text s | false ↦ none ]

-- strncmp with "http://" and "https://": the redirect's host and what follows.
unfoldable pub after_scheme : List ℕ → Option (List ℕ)
unfolding after
after_scheme loc = elim (after (104 ∷ 116 ∷ 116 ∷ 112 ∷ 58 ∷ 47 ∷ 47 ∷ []) loc) [
  | some rest ↦ some rest
  | none ↦ after (104 ∷ 116 ∷ 116 ∷ 112 ∷ 115 ∷ 58 ∷ 47 ∷ 47 ∷ []) loc
]

-- `for (p=redirect_host; *p && *p!='/'; p++); *p=0;`
unfoldable pub up_to_slash : List ℕ → List ℕ
up_to_slash [] = []
up_to_slash (c ∷ rest) = let cut = up_to_slash rest in if c == 47 || c == 0 then [] else c ∷ cut

-- `!strcasecmp`
unfoldable pub same_case : List ℕ → List ℕ → Bool
same_case [] [] = true
same_case (a ∷ left) (b ∷ right) = tolower a == tolower b && same_case left right
same_case _ _ = false

abbrev pub is_redirect : ℤ → Bool
is_redirect (pos n) = n == 302 || n == 307
is_redirect (negsuc n) = false

-- The comparison of the second level domains; `host` and `redirect` are strings of their own.
unfoldable pub other_domain : List ℕ → List ℕ → Option Bool
unfolding find_nld same_case
other_domain [] redirect = some false
other_domain _ [] = some false
other_domain name redirect = find_nld name 0 (length name) 2 >>= λ o. elim o [
  | none ↦ some false
  | some (d, _) ↦ find_nld redirect 0 (length redirect) 2 >>= λ o'.
      some
        (elim o' [ none ↦ false | some (d', _) ↦ not (same_case (drop d name) (drop d' redirect)) ])
]

-- "\nLocation:"; the value is cut to 255 bytes.
unfoldable pub http_reply_looks_like_dpi_redirect : List ℕ → ℕ → List ℕ → Option Bool
unfolding http_reply_code http_extract_header after_scheme up_to_slash other_domain
http_reply_looks_like_dpi_redirect buf len [] = some false
http_reply_looks_like_dpi_redirect buf len name = http_reply_code buf >>= λ code.
    and_then (is_redirect code) (
      http_extract_header buf len (10 ∷ 76 ∷ 111 ∷ 99 ∷ 97 ∷ 116 ∷ 105 ∷ 111 ∷ 110 ∷ 58 ∷ []) 256
      >>= λ o. elim o [
        | none ↦ some false
        | some loc ↦ elim (after_scheme loc) [
          | none ↦ some false
          | some redirect ↦ other_domain name (up_to_slash redirect)
        ]
      ])

-- The loop over i and p of PM_HTTP_METHOD: the letters from `p` on, at most `left`.
abbrev pub is_upper : ℕ → Bool
is_upper c = leb 65 c && leb c 90

abbrev pub is_newline : ℕ → Bool
is_newline c = c == 10 || c == 13

-- PM_HTTP_METHOD: at most two newline characters, then 3 to 9 capitals and a space.
unfoldable pub method_pos : ℤ → List ℕ → ℕ → Option ℕ
unfolding skip_while check_pos shift
method_pos o buf sz = elim (ltb sz 10) [
  | true ↦ some 0
  | false ↦ do
    c0 ← rd buf 0
    let m1 = if is_newline c0 then 1 else 0
    c1 ← rd buf m1
    let m2 = if is_newline c1 then m1 + 1 else m1
    p ← skip_while is_upper buf 9 m2
    elim (ltb (p - m2) 3) [
      | true ↦ some 0
      | false ↦ rd buf p >>= λ c. some (if c == 32 then check_pos sz (shift m2 o) else 0)
    ]
]

-- The end of the host; PM_HOST takes a length of 0.
unfoldable pub line_end : Marker → List ℕ → ℕ → ℕ → Option ℕ
unfolding skip_while
line_end host buf left at = some at
line_end m buf left at = skip_while (λ c. not (is_newline c)) buf left at

-- The markers of the host: `h` is the position after the newline.
unfoldable pub http_host_pos : Marker → ℤ → List ℕ → ℕ → ℕ → Option ℕ
unfolding line_end host_pos
http_host_pos m o buf sz h = elim (ltb (h + 7) sz) [
  | false ↦ some 0
  | true ↦ do
    c ← rd buf (h + 5)
    let at = if is_blank c then h + 6 else h + 5
    end ← line_end m buf (sz - at) at
    host_pos m o buf sz at (end - at)
]

unfoldable pub http_pos : Marker → ℤ → List ℕ → ℕ → Option ℕ
unfolding method_pos find_host_in http_host_pos any_proto_pos
http_pos http_method o buf sz = method_pos o buf sz
http_pos m o buf sz = elim (is_host_marker m) [
  | false ↦ some (any_proto_pos m o sz)
  | true ↦ http_find_host none buf sz >>= λ r. elim r [
    | none ↦ some 0
    | some h ↦ http_host_pos m o buf sz h
  ]
]
