-- ===== src/Protocol/Resolve/Order.antt =====
-- The positions of a list of splits.
use fog_prime.Base.{
  ℕ, ◌+◌, ◌≤◌, ◌<◌, ◌≡◌, ◌↔◌, ◌==◌, List, [], ◌∷◌, length, take, take_all, Ensures, Ensures-bind,
  arith, Bool-cases, inl, inr,
}
use fog_prime.Helpers.Unique.InPlace.{SortedFrom, IsStrict, Has, unique_size_t_lem}
use fog_prime.Protocol.Marker.Domain.{IsPos}
use fog_prime.Protocol.Marker.Bounds.{any_proto_pos-IsPos}
use fog_prime.Protocol.Tls.Positions.{tls_pos_lem}
use fog_prime.Protocol.Http.Positions.{http_pos_lem}
use fog_prime.Protocol.Resolve.{
  L7proto, unknown, http, tls, quic, wireguard, dht, discord, stun, ProtoPos, resolve_pos,
  resolve_loop, resolve_multi_pos,
}

-- What qsort does: an ascending array of the same length and the same numbers.
pub record Sorts (qsort : List ℕ → List ℕ) : Type 0 where
  pub ascending : (xs : List ℕ) → SortedFrom 0 (qsort xs)
  pub same : (xs : List ℕ) (a : ℕ) → Has a (qsort xs) ↔ Has a xs

module _ (buf : List ℕ) (sz : ℕ) (fits : sz + 2 ≤ length buf) where
  resolve_pos_lem : (l7 : L7proto) (sp : ProtoPos) → Ensures (IsPos sz) (resolve_pos buf sz l7 sp)
  unfolding resolve_pos
  resolve_pos_lem http sp = http_pos_lem buf sz fits sp.marker sp.offset
  resolve_pos_lem tls sp = tls_pos_lem buf sz (omega arith) sp.marker sp.offset
  resolve_pos_lem unknown sp = any_proto_pos-IsPos sp.marker sp.offset sz
  resolve_pos_lem quic sp = any_proto_pos-IsPos sp.marker sp.offset sz
  resolve_pos_lem wireguard sp = any_proto_pos-IsPos sp.marker sp.offset sz
  resolve_pos_lem dht sp = any_proto_pos-IsPos sp.marker sp.offset sz
  resolve_pos_lem discord sp = any_proto_pos-IsPos sp.marker sp.offset sz
  resolve_pos_lem stun sp = any_proto_pos-IsPos sp.marker sp.offset sz

  -- Every position splits the packet into two parts that are not empty.
  abbrev pub Splits : List ℕ → Type 0
  Splits ps = (p : ℕ) → Has p ps → (0 < p) × (p < sz)

  resolve_loop_lem :
      (l7 : L7proto) (splits : List ProtoPos) → Ensures Splits (resolve_loop buf sz l7 splits)
  unfolding resolve_loop
  resolve_loop_lem l7 [] = λ p h. absurd h
  resolve_loop_lem l7 (sp ∷ splits) =
      Ensures-bind (IsPos sz) Splits (resolve_pos buf sz l7 sp) _ (resolve_pos_lem l7 sp) (λ p ok.
        Ensures-bind Splits Splits (resolve_loop buf sz l7 splits) _ (resolve_loop_lem l7 splits)
          (λ rest all. elim (Bool-cases (p == 0)) [
            | inl e ↦ rw (e, Ensures) all
            | inr e ↦
                rw (e, Ensures)
                  (λ q h. elim h [
                    | inl same ↦ (ground arith, ground arith)
                    | inr later ↦ all q later
                  ])
          ]))

  -- Where two bytes behind the packet can be read and qsort sorts, ResolveMultiPos reads no byte
  -- outside of the buffer, and its positions are strictly increasing and lie inside the packet, after
  -- its first byte.
  pub resolve_multi_pos_lem :
      (qsort : List ℕ → List ℕ)
      → Sorts qsort
      → (l7 : L7proto) (splits : List ProtoPos)
      → Ensures (λ ps. IsStrict ps × Splits ps) (resolve_multi_pos qsort buf sz l7 splits)
  unfolding resolve_multi_pos
  resolve_multi_pos_lem qsort sorts l7 splits =
      Ensures-bind Splits (λ ps. IsStrict ps × Splits ps) (resolve_loop buf sz l7 splits) _
        (resolve_loop_lem l7 splits)
        (λ found all.
          let sorted = qsort found in
          let whole : take (length sorted) sorted ≡ sorted =
            take_all (length sorted) sorted (omega arith) in
          let (strict, same, le) =
            unique_size_t_lem sorted (length sorted) (omega arith)
              (rw whole (sorts.ascending found)) in
          (
            strict,
            λ p h. let back = (same p).0 h in all p ((sorts.same found p).0 (rw whole at back)),
          ))
