-- ===== src/Tamper/Tests.antt =====
-- The theorems about tpws/tamper.c at concrete requests.
use fog_prime.Base.{
  ℕ, ◌≡◌, refl, true, false, List, ◌>>=◌, [], ◌∷◌, some, none, take, drop, byte, arith, Ensures, rd,
}
use fog_prime.Helpers.Bytes.{phton16}
use fog_prime.Protocol.Http.{http_find_host}
use fog_prime.Tamper.{HttpProfile, Request}
use fog_prime.Tamper.Http.{tamper_http, do_methodspace, do_methodeol}
use fog_prime.Tamper.Bounds.{Fits, tamper_http_lem}
use fog_prime.Tamper.Split.{tamper_tls, two_records, fix_split}
use fog_prime.Tamper.Records.{IsCutRecord, segment, tamper_tls_lem}
use fog_prime.Tamper.Positions.{fix_split_lem}

-- "GET / HTTP/1.1", "Host: a.ru" and an empty line
abbrev get : List ℕ
get =
    71 ∷ 69 ∷ 84 ∷ 32 ∷ 47 ∷ 32 ∷ 72 ∷ 84 ∷ 84 ∷ 80 ∷ 47 ∷ 49 ∷ 46 ∷ 49 ∷ 13 ∷ 10 ∷ 72 ∷ 111 ∷ 115
    ∷ 116 ∷ 58 ∷ 32 ∷ 97 ∷ 46 ∷ 114 ∷ 117 ∷ 13 ∷ 10 ∷ 13 ∷ 10 ∷ []

abbrev request : Request
request = record { segment = get; host = none }

abbrev plain : HttpProfile
plain = record {
  unixeol = false;
  methodeol = false;
  methodspace = false;
  hostdot = false;
  hosttab = false;
  domcase = false;
  hostnospace = false;
  hostcase = false;
  hostspell = 104 ∷ 111 ∷ 115 ∷ 116 ∷ [];
  hostpad = 0;
}

-- All but the ends of lines.
abbrev busy : HttpProfile
busy = record plain {
  methodeol = true;
  methodspace = true;
  hostdot = true;
  domcase = true;
  hostnospace = true;
  hostcase = true;
  hostpad = 20;
}

-- "abcde: "
abbrev name : ℕ → List ℕ
name k = 97 ∷ 98 ∷ 99 ∷ 100 ∷ 101 ∷ 58 ∷ 32 ∷ []

tamper_http_lem_example : Ensures (Fits 64) (tamper_http name (λ k. 120) busy 0 64 3 request)
tamper_http_lem_example =
    tamper_http_lem name (λ k. 120) (λ k. refl) busy 0 64 3 request refl (omega arith)
      (ground arith) (omega arith, tt)

-- --hostdot --hostnospace --hostcase: "host:a.ru."
tamper_http_runs :
    tamper_http name
      (λ k. 120)
      (record plain { hostdot = true; hostnospace = true; hostcase = true })
      0
      64
      3
      request
    ≡ some (record {
      segment =
          71 ∷ 69 ∷ 84 ∷ 32 ∷ 47 ∷ 32 ∷ 72 ∷ 84 ∷ 84 ∷ 80 ∷ 47 ∷ 49 ∷ 46 ∷ 49 ∷ 13 ∷ 10 ∷ 104 ∷ 111
          ∷ 115 ∷ 116 ∷ 58 ∷ 97 ∷ 46 ∷ 114 ∷ 117 ∷ 46 ∷ 13 ∷ 10 ∷ 13 ∷ 10 ∷ [];
      host = some 16;
    })
unfolding tamper_http http_find_host rd byte
tamper_http_runs = refl

-- --methodeol --methodspace: the space is counted from the start of the segment, where the end of the
-- line now stands, and so falls into the method: "GE T".
method_is_cut :
    do_methodspace busy 64 3 (do_methodeol busy 64 request) >>= (λ r. some (take 8 r.segment))
    ≡ some (13 ∷ 10 ∷ 71 ∷ 69 ∷ 32 ∷ 84 ∷ 32 ∷ 47 ∷ [])
unfolding do_methodspace do_methodeol
method_is_cut = refl

-- A record of six bytes of payload and a byte behind it, cut after two.
abbrev payload : List ℕ
payload = 1 ∷ 2 ∷ 3 ∷ 4 ∷ 5 ∷ 6 ∷ 7 ∷ []

tamper_tls_lem_example :
    IsCutRecord
      (22 ∷ 3 ∷ 1 ∷ [])
      (take 6 payload)
      (drop 6 payload)
      (tamper_tls 17 7 (segment 22 3 1 0 6 payload) (9 ∷ [])).0
tamper_tls_lem_example =
    tamper_tls_lem 22 3 1 0 6 payload 17 7 (9 ∷ []) (omega arith) (omega arith) (omega arith)
      (omega arith) (omega arith) (omega arith)

tamper_tls_runs :
    tamper_tls 17 7 (segment 22 3 1 0 6 payload) (9 ∷ 7 ∷ [])
    ≡ (22 ∷ 3 ∷ 1 ∷ 0 ∷ 2 ∷ 1 ∷ 2 ∷ 22 ∷ 3 ∷ 1 ∷ 0 ∷ 4 ∷ 3 ∷ 4 ∷ 5 ∷ 6 ∷ 7 ∷ [], 14 ∷ 7 ∷ [])
unfolding tamper_tls byte phton16
tamper_tls_runs = refl

fix_split_lem_example :
    byte (two_records (segment 22 3 1 0 6 payload) 7) (fix_split 7 9)
    ≡ byte (segment 22 3 1 0 6 payload) 9
fix_split_lem_example =
    fix_split_lem 22 3 1 0 6 payload 7 9 (omega arith) (omega arith) (omega arith) (omega arith)
