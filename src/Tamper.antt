-- ===== src/Tamper.antt =====
-- tamper_out of tpws/tamper.c: what the transparent proxy changes in an HTTP request or a TLS
-- ClientHello before it is sent on. `segment` is the list of the `size` bytes of the request, in a
-- buffer of `segment_buffer_size` bytes; HttpFindHost is the code of nfq/protocol.c.
pub mod Pad
pub mod Http
pub mod Split
pub mod Edits
pub mod Bounds
pub mod Records
pub mod Positions
mod Tests
use fog_prime.Base.{
  ℕ, suc, ◌+◌, Bool, true, false, not, ◌&&◌, ◌||◌, ◌==◌, ltb, leb, if◌then◌else◌, List, [], ◌∷◌,
  ◌++◌, map, Option, none, some, length, take, drop, byte, ◌>>=◌,
}
use fog_prime.Protocol.Http.{http_find_host}

-- The members of struct desync_profile that change a request.
pub record HttpProfile : Type 0 where
  pub unixeol : Bool
  pub methodeol : Bool
  pub methodspace : Bool
  pub hostdot : Bool
  pub hosttab : Bool
  pub domcase : Bool
  pub hostnospace : Bool
  pub hostcase : Bool
  pub hostspell : List ℕ
  pub hostpad : ℕ

-- The segment and `pHost`, its position or NULL.
pub record Request : Type 0 where
  pub segment : List ℕ
  pub host : Option ℕ
