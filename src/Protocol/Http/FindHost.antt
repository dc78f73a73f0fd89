-- ===== src/Protocol/Http/FindHost.antt =====
-- The search for the Host header in protocol.c: it reads inside of the buffer, and what it finds lies
-- there with its five characters.
use fog_prime.Base.{
  ℕ, zero, suc, ◌+◌, ◌-◌, ◌≤◌, ◌<◌, Bool, true, false, ◌||◌, ◌==◌, ltb, List, length, Option, none,
  some, byte, Ensures, Ensures-bind, Ensures-rd, Ensures-and_then, arith, Bool-cases, inl, inr,
}
use fog_prime.Protocol.Http.{is_host_at, find_host_loop, find_host_in, http_find_host}

abbrev pub IsHost : ℕ → Option ℕ → Type 0
IsHost sz none = Unit
IsHost sz (some h) = (0 < h) × (h + 5 ≤ sz)

abbrev IsBefore : ℕ → Option ℕ → Type 0
IsBefore sz none = Unit
IsBefore sz (some p) = p + 6 ≤ sz

module _ (buf : List ℕ) (sz : ℕ) (fits : sz ≤ length buf) where
  host_at_lem : (p : ℕ) → p + 6 ≤ sz → Ensures (λ (b : Bool). Unit {0}) (is_host_at buf p)
  unfolding is_host_at
  host_at_lem p h =
      Ensures-rd (λ (b : Bool). Unit {0}) buf p _ (omega arith)
        (Ensures-and_then (λ (b : Bool). Unit {0}) (byte buf p == 10) _ tt
          (Ensures-rd (λ (b : Bool). Unit {0}) buf (p + 1) _ (omega arith)
            (Ensures-and_then (λ (b : Bool). Unit {0})
              (byte buf (p + 1) == 72 || byte buf (p + 1) == 104) _ tt
              (Ensures-rd (λ (b : Bool). Unit {0}) buf (p + 2) _ (omega arith)
                (Ensures-and_then (λ (b : Bool). Unit {0})
                  (byte buf (p + 2) == 111 || byte buf (p + 2) == 79) _ tt
                  (Ensures-rd (λ (b : Bool). Unit {0}) buf (p + 3) _ (omega arith)
                    (Ensures-and_then (λ (b : Bool). Unit {0})
                      (byte buf (p + 3) == 115 || byte buf (p + 3) == 83) _ tt
                      (Ensures-rd (λ (b : Bool). Unit {0}) buf (p + 4) _ (omega arith)
                        (Ensures-and_then (λ (b : Bool). Unit {0})
                          (byte buf (p + 4) == 116 || byte buf (p + 4) == 84) _ tt
                          (Ensures-rd (λ (b : Bool). Unit {0}) buf (p + 5) _ (omega arith)
                            tt))))))))))

  find_host_loop_lem :
      (rounds p : ℕ) → p + rounds + 5 ≤ sz → Ensures (IsBefore sz) (find_host_loop buf rounds p)
  unfolding find_host_loop
  find_host_loop_lem zero p h = tt
  find_host_loop_lem (suc rounds) p h =
      Ensures-bind (λ (b : Bool). Unit {0}) (IsBefore sz) (is_host_at buf p) _
        (host_at_lem p (omega arith))
        (elim [
          | true ↦ λ u. omega arith
          | false ↦ λ u. find_host_loop_lem rounds (p + 1) (omega arith)
        ])

  pub find_host_lem : Ensures (IsHost sz) (http_find_host none buf sz)
  unfolding http_find_host find_host_in
  find_host_lem = elim (Bool-cases (ltb sz 6)) [
    | inl e ↦ rw (e, Ensures) tt
    | inr e ↦ rw e (
        Ensures-bind (IsBefore sz) (IsHost sz) (find_host_loop buf (sz - 5) 0) _
          (find_host_loop_lem (sz - 5) 0 (ground arith))
          (elim [ none ↦ λ u. tt | some p ↦ λ h. (omega arith, omega arith) ]))
  ]
