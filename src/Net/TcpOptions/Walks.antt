-- ===== src/Net/TcpOptions/Walks.antt =====
-- tcp_find_option reads inside the header only, and finds an option exactly if the list of options
-- has it.
use fog_prime.Base.{
  sym, subst, ℕ, zero, suc, ◌+◌, ◌-◌, ◌*◌, ◌/◌, ◌≤◌, ◌<◌, ◌⊎◌, ◌≡◌, ◌≢◌, refl, true, ◌||◌, ◌==◌,
  ltb, leb, List, Option, none, some, byte, rd_lem, length, Ensures, Ensures-bind, arith,
  Bool-cases, inl, inr, ==_iff,
}
use fog_prime.Net.Headers.{scale_none}
use fog_prime.Net.TcpOptions.{
  find_option_kind, find_option_loop, tcp_find_option, tcp_find_scale_factor, scale_at,
}

module _ (buf : List ℕ) (end : ℕ) where
  -- Going over whole options, and single bytes 1, from one position of the header to another.
  pub data Walk : ℕ → ℕ → Type 0 where
    here : (t : ℕ) → Walk t t
    noop : (t p : ℕ) → t < end → byte buf t ≡ 1 → Walk (t + 1) p → Walk t p
    option :
        (t p l : ℕ)
        → t + 1 < end
        → byte buf t ≢ 0
        → byte buf t ≢ 1
        → byte buf (t + 1) ≡ l
        → 2 ≤ l
        → t + l ≤ end
        → Walk (t + l) p
        → Walk t p

  -- A whole option of that kind stands at the position.
  pub record IsOption (kind p : ℕ) : Type 0 where
    pub has_length : p + 1 < end
    pub is_kind : byte buf p ≡ kind
    pub at_least : 2 ≤ byte buf (p + 1)
    pub inside : p + byte buf (p + 1) ≤ end

  Walk-le : {t p : ℕ} → Walk t p → t ≤ p
  Walk-le (here t) = omega arith
  Walk-le (noop t p lt e w) = omega (arith, Walk-le w)
  Walk-le (option t p l lt n0 n1 e ge inside w) = omega (arith, Walk-le w)

  module _ (kind : ℕ) (not_end : kind ≢ 0) (not_noop : kind ≢ 1) where
    abbrev pub Outcome : ℕ → Option ℕ → Type 0
    Outcome t none = (p : ℕ) → Walk t p → IsOption kind p → ⊥
    Outcome t (some p) = Walk t p × IsOption kind p

    -- the ways to stop at `t` with nothing found
    stuck_end : (t : ℕ) → end ≤ t + 1 → byte buf t ≢ 1 → Outcome t none
    stuck_end t h n p (here _) o = omega (arith, o.has_length)
    stuck_end t h n p (noop _ _ lt e w) o = n e
    stuck_end t h n p (option _ _ l lt n0 n1 e ge inside w) o = omega arith

    past_end : (t : ℕ) → end ≤ t → Outcome t none
    past_end t h p w o = omega (arith, Walk-le w, o.has_length)

    stuck_zero : (t : ℕ) → byte buf t ≡ 0 → Outcome t none
    stuck_zero t z p (here _) o = not_end (omega (arith, o.is_kind))
    stuck_zero t z p (noop _ _ lt e w) o = omega arith
    stuck_zero t z p (option _ _ l lt n0 n1 e ge inside w) o = n0 z

    stuck_length :
        (t : ℕ)
        → byte buf t ≢ 1
        → (ltb (byte buf (t + 1)) 2 || ltb end (t + byte buf (t + 1))) ≡ true
        → Outcome t none
    stuck_length t n b p (here _) o = ground (arith, o.at_least, o.inside)
    stuck_length t n b p (noop _ _ lt e w) o = n e
    stuck_length t n b p (option _ _ l lt n0 n1 e ge inside w) o = ground arith

    noop_rest : (t p : ℕ) → byte buf t ≡ 1 → Walk t p → IsOption kind p → Walk (t + 1) p
    noop_rest t p e (here _) o = absurd (not_noop (omega (arith, o.is_kind)))
    noop_rest t p e (noop _ _ lt e' w) o = w
    noop_rest t p e (option _ _ l lt n0 n1 e' ge inside w) o = absurd (n1 e)

    after_noop : (t : ℕ) (r : Option ℕ) → t < end → byte buf t ≡ 1 → Outcome (t + 1) r → Outcome t r
    after_noop t none lt e h = λ p w o. h p (noop_rest t p e w o) o
    after_noop t (some q) lt e h = (noop t q lt e h.0, h.1)

    option_rest :
        (t p : ℕ)
        → byte buf t ≢ 1
        → byte buf t ≢ kind
        → Walk t p
        → IsOption kind p
        → Walk (t + byte buf (t + 1)) p
    option_rest t p n1 ne (here _) o = absurd (ne o.is_kind)
    option_rest t p n1 ne (noop _ _ lt e w) o = absurd (n1 e)
    option_rest t p n1 ne (option _ _ l lt n0 n e ge inside w) o =
        subst (λ k. Walk (t + k) p) (sym e) w

    after_option :
        (t : ℕ) (r : Option ℕ)
        → t + 1 < end
        → byte buf t ≢ 0
        → byte buf t ≢ 1
        → byte buf t ≢ kind
        → 2 ≤ byte buf (t + 1)
        → t + byte buf (t + 1) ≤ end
        → Outcome (t + byte buf (t + 1)) r
        → Outcome t r
    after_option t none lt n0 n1 ne ge inside h = λ p w o. h p (option_rest t p n1 ne w o) o
    after_option t (some q) lt n0 n1 ne ge inside h =
        (option t q (byte buf (t + 1)) lt n0 n1 refl ge inside h.0, h.1)

    Ensures-mono :
        (t u : ℕ) (m : Option (Option ℕ))
        → ((r : Option ℕ) → Outcome u r → Outcome t r)
        → Ensures (Outcome u) m
        → Ensures (Outcome t) m
    Ensures-mono t u none f h = h
    Ensures-mono t u (some r) f h = f r h

    find_option_kind_lem :
        (t : ℕ) (next : ℕ → Option (Option ℕ))
        → end ≤ length buf
        → byte buf t ≢ 0
        → byte buf t ≢ 1
        → ((u : ℕ) → t + 2 ≤ u → Ensures (Outcome u) (next u))
        → Ensures (Outcome t) (find_option_kind buf end kind t (byte buf t) next)
    unfolding find_option_kind
    find_option_kind_lem t next h n0 n1 rest = elim (Bool-cases (leb end (t + 1))) [
      | inl e ↦ rw (e, find_option_kind) (stuck_end t (ground arith) n1)
      | inr e ↦
          rw (e, find_option_kind, rd_lem buf (t + 1) (ground arith))
            (elim (Bool-cases (ltb (byte buf (t + 1)) 2 || ltb end (t + byte buf (t + 1)))) [
              | inl b ↦ rw (b, Ensures) (stuck_length t n1 b)
              | inr b ↦
                  rw (b, Ensures)
                    (elim (Bool-cases (byte buf t == kind)) [
                      | inl k ↦ rw k (
                        here t,
                        record {
                          has_length = ground arith;
                          is_kind = (==_iff (byte buf t) kind).0 k;
                          at_least = ground arith;
                          inside = ground arith;
                        },
                      )
                      | inr k ↦ rw k (
                          Ensures-mono t (t + byte buf (t + 1)) (next (t + byte buf (t + 1)))
                            (λ r.
                              after_option t r (ground arith) n0 n1 (ground arith) (ground arith)
                                (ground arith))
                            (rest (t + byte buf (t + 1)) (ground arith)))
                    ])
            ])
    ]

    find_option_loop_lem :
        (fuel t : ℕ)
        → end ≤ length buf
        → end ≤ t + fuel
        → Ensures (Outcome t) (find_option_loop buf end kind fuel t)
    unfolding find_option_loop
    find_option_loop_lem zero t h f = past_end t (omega arith)
    find_option_loop_lem (suc fuel) t h f = elim (Bool-cases (ltb t end)) [
      | inr e ↦ rw (e, find_option_loop) (past_end t (ground arith))
      | inl e ↦
          rw (e, find_option_loop, rd_lem buf t (ground arith))
            (elim (Bool-cases (byte buf t == 0)) [
              | inl z ↦ rw (z, Ensures) (stuck_zero t ((==_iff (byte buf t) 0).0 z))
              | inr z ↦
                  rw (z, Ensures)
                    (elim (Bool-cases (byte buf t == 1)) [
                      | inl n ↦ rw n (
                          Ensures-mono t (t + 1) (find_option_loop buf end kind fuel (t + 1))
                            (λ r. after_noop t r (ground arith) ((==_iff (byte buf t) 1).0 n))
                            (find_option_loop_lem fuel (t + 1) h (omega arith)))
                      | inr n ↦ rw n (
                          find_option_kind_lem t (find_option_loop buf end kind fuel) h
                            (ground arith) (ground arith)
                            (λ u le. find_option_loop_lem fuel u h (omega arith)))
                    ])
            ])
    ]

-- The header of a segment whose data offset is within the buffer: its end.
abbrev pub header_end : List ℕ → ℕ → ℕ
header_end buf tcp = tcp + byte buf (tcp + 12) / 16 * 4

-- If the whole header, as long as its data offset says, lies in the buffer, then tcp_find_option
-- reads no byte outside of the buffer, and for a kind other than 0 and 1 it returns the position of a
-- whole option of that kind that is reached from byte 20 over whole options and padding bytes, or
-- NULL if no such option is reached.
pub tcp_find_option_lem :
    (buf : List ℕ) (tcp kind : ℕ)
    → tcp + 12 < length buf
    → header_end buf tcp ≤ length buf
    → (not_end : kind ≢ 0) (not_noop : kind ≢ 1)
    → Ensures
        (Outcome buf (header_end buf tcp) kind not_end not_noop (tcp + 20))
        (tcp_find_option buf tcp kind)
unfolding tcp_find_option
tcp_find_option_lem buf tcp kind h h' n0 n1 = rw (rd_lem buf (tcp + 12) h) (
    find_option_loop_lem buf (header_end buf tcp) kind n0 n1 (header_end buf tcp - (tcp + 20))
      (tcp + 20) h' (omega arith))

-- A scale factor comes from an option of kind 3 and length 3 in the header.
abbrev pub IsScale : List ℕ → ℕ → ℕ → Type 0
IsScale buf tcp s =
    (p : ℕ) × Walk buf (header_end buf tcp) (tcp + 20) p
    × IsOption buf (header_end buf tcp) 3 p
    × (byte buf (p + 1) ≡ 3)
    × (byte buf (p + 2) ≡ s)

scale_at_lem :
    (buf : List ℕ) (tcp : ℕ) (r : Option ℕ)
    → header_end buf tcp ≤ length buf
    → (n0 : ◌≢◌ {A = ℕ} 3 0) (n1 : ◌≢◌ {A = ℕ} 3 1)
    → Outcome buf (header_end buf tcp) 3 n0 n1 (tcp + 20) r
    → Ensures (λ s. (s ≡ scale_none) ⊎ IsScale buf tcp s) (scale_at buf r)
unfolding scale_at
scale_at_lem buf tcp none h n0 n1 o = inl refl
scale_at_lem buf tcp (some p) h n0 n1 (w, o) =
    let next : p + 1 < length buf = omega (arith, o.has_length) in
    rw (rd_lem buf (p + 1) next, Ensures)
      (elim (Bool-cases (byte buf (p + 1) == 3)) [
        | inr e ↦ rw (e, Ensures) (inl refl)
        | inl e ↦
            let three = (==_iff (byte buf (p + 1)) 3).0 e in
            let last : p + 2 < length buf = omega (arith, o.inside) in
            rw (e, Ensures, rd_lem buf (p + 2) last) (inr (p, w, o, three, refl))
      ])

-- If the whole header lies in the buffer, tcp_find_scale_factor reads inside the buffer, and what it returns is
-- SCALE_NONE or the third byte of an option of kind 3 and length 3 in the header.
pub tcp_find_scale_factor_lem :
    (buf : List ℕ) (tcp : ℕ)
    → tcp + 12 < length buf
    → header_end buf tcp ≤ length buf
    → Ensures (λ s. (s ≡ scale_none) ⊎ IsScale buf tcp s) (tcp_find_scale_factor buf tcp)
unfolding tcp_find_scale_factor
tcp_find_scale_factor_lem buf tcp h h' =
    let n0 : ◌≢◌ {A = ℕ} 3 0 = omega arith in
    let n1 : ◌≢◌ {A = ℕ} 3 1 = omega arith in
    Ensures-bind (Outcome buf (header_end buf tcp) 3 n0 n1 (tcp + 20))
      (λ s. (s ≡ scale_none) ⊎ IsScale buf tcp s) (tcp_find_option buf tcp 3) (scale_at buf)
      (tcp_find_option_lem buf tcp 3 h h' n0 n1) (λ r. scale_at_lem buf tcp r h' n0 n1)
