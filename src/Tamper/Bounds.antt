-- ===== src/Tamper/Bounds.antt =====
-- What tamper_out does to an HTTP request stays in its buffer.
use fog_prime.Base.{
  ℕ, suc, rd_lem, ◌+◌, ◌≤◌, ◌<◌, ◌^◌, ◌≡◌, true, false, ◌&&◌, ◌||◌, ◌==◌, ltb, if◌then◌else◌, List,
  ◌++◌, Option, none, some, length, take, drop, byte, length-append, length-take, length-drop,
  arith, Bool-cases, inl, inr, Ensures, Ensures-bind, Ensures-weaken,
}
use fog_prime.Protocol.Http.{http_find_host}
use fog_prime.Protocol.Http.FindHost.{IsHost, find_host_lem}
use fog_prime.Tamper.{HttpProfile, Request}
use fog_prime.Tamper.Pad.{hsize, pad_headers, pad_headers_lem}
use fog_prime.Tamper.Http.{
  do_unixeol, do_methodeol, host_moved, do_methodspace, at_host, add_dot, do_hostdot, mix_host,
  do_domcase, cut_space, do_hostnospace, spell_host, do_hostcase, pad_room, pad_host, do_hostpad,
  tamper_http,
}
use fog_prime.Tamper.Edits.{
  StartsPlain, unix_eol-le, method_there, insert_at_lem, line_end_lem, IsLineEnd, mix_case_lem,
}

-- The segment fits its buffer, and the header that `pHost` points to lies in the segment.
abbrev HostFits : ℕ → Option ℕ → Type 0
HostFits len none = Unit
HostFits len (some h) = h + 5 ≤ len

abbrev pub Fits : ℕ → Request → Type 0
Fits size r = (length r.segment ≤ size) × HostFits (length r.segment) r.host

-- --hostspell takes four letters.
abbrev pub IsSpelling : HttpProfile → Type 0
IsSpelling dp = length dp.hostspell ≡ 4

unixeol-Fits :
    (dp : HttpProfile) (size : ℕ) (r : Request) → Fits size r → Fits size (do_unixeol dp r)
unfolding do_unixeol
unixeol-Fits dp size r h = ground (arith, unix_eol-le true r.segment)

methodeol-Fits :
    (dp : HttpProfile) (size : ℕ) (r : Request) → Fits size r → Fits size (do_methodeol dp size r)
unfolding do_methodeol
methodeol-Fits dp size r h = ground arith

moved-Fits : (len : ℕ) (o : Option ℕ) → HostFits len o → HostFits (suc len) (host_moved o)
moved-Fits len none h = tt
moved-Fits len (some p) h = omega arith

methodspace-Fits :
    (dp : HttpProfile) (size method_len : ℕ) (r : Request)
    → method_len + 1 ≤ length r.segment
    → Fits size r
    → Ensures (Fits size) (do_methodspace dp size method_len r)
unfolding do_methodspace
methodspace-Fits dp size method_len r there h =
    elim (Bool-cases (dp.methodspace && ltb (length r.segment) size)) [
      | inl t ↦ rw t (
          Ensures-bind (λ s. length s ≡ suc (length r.segment)) (Fits size) _ _
            (insert_at_lem (method_len + 1) 32 r.segment there)
            (λ s grown. rw grown (ground arith, moved-Fits (length r.segment) r.host h.1)))
      | inr f ↦ rw f h
    ]

-- HttpFindHost finds a header that lies in the segment, so a change that keeps the bounds there does.
at_host-Fits :
    (size : ℕ) (change : ℕ → List ℕ → Option Request) (r : Request)
    → Fits size r
    → ((h : ℕ) → h + 5 ≤ length r.segment → Ensures (Fits size) (change h r.segment))
    → Ensures (Fits size) (at_host change r)
unfolding at_host
at_host-Fits size change r h kept =
    Ensures-bind (HostFits (length r.segment)) (Fits size)
      (http_find_host r.host r.segment (length r.segment)) _ (sought r.host h.1)
      (elim [ none ↦ λ u. (h.0, tt) | some p ↦ λ le. kept p le ])
  where
    inside : (o : Option ℕ) → IsHost (length r.segment) o → HostFits (length r.segment) o
    inside none u = tt
    inside (some p) le = le.1

    sought :
        (o : Option ℕ)
        → HostFits (length r.segment) o
        → Ensures (HostFits (length r.segment)) (http_find_host o r.segment (length r.segment))
    sought none u =
        Ensures-weaken (IsHost (length r.segment)) (HostFits (length r.segment))
          (http_find_host none r.segment (length r.segment))
          (find_host_lem r.segment (length r.segment) (omega arith)) inside
    sought (some p) le = unfold http_find_host in le

-- Each option keeps the bounds.
hostdot-Fits :
    (dp : HttpProfile) (size : ℕ) (r : Request)
    → Fits size r
    → Ensures (Fits size) (do_hostdot dp size r)
unfolding do_hostdot add_dot
hostdot-Fits dp size r h =
    elim (Bool-cases ((dp.hostdot || dp.hosttab) && ltb (length r.segment) size)) [
      | inr f ↦ rw f h
      | inl t ↦ rw t (
          at_host-Fits size (add_dot dp) r h (λ p le.
            Ensures-bind (IsLineEnd r.segment (p + 5)) (Fits size) _ _
              (line_end_lem r.segment (length r.segment) (p + 5) le (omega arith))
              (λ at _. elim (Bool-cases (ltb at (length r.segment))) [
                | inr f2 ↦ rw f2 (h.0, le)
                | inl t2 ↦ rw t2 (
                    Ensures-bind (λ s. length s ≡ suc (length r.segment)) (Fits size) _ _
                      (insert_at_lem at (if dp.hostdot then 46 else 9) r.segment (ground arith))
                      (λ s grown. rw grown (ground arith, omega arith)))
              ])))
    ]

domcase-Fits :
    (dp : HttpProfile) (size base : ℕ) (r : Request)
    → Fits size r
    → Ensures (Fits size) (do_domcase dp base r)
unfolding do_domcase mix_host
domcase-Fits dp size base r h = elim (Bool-cases dp.domcase) [
  | inr f ↦ rw f h
  | inl t ↦ rw t (
      at_host-Fits size (mix_host base) r h (λ p le.
        Ensures-bind (λ s. length s ≡ length r.segment) (Fits size) _ _
          (mix_case_lem base (length r.segment) (p + 5) r.segment) (λ s same. rw same (h.0, le))))
]

hostnospace-Fits :
    (dp : HttpProfile) (size : ℕ) (r : Request)
    → Fits size r
    → Ensures (Fits size) (do_hostnospace dp r)
unfolding do_hostnospace cut_space
hostnospace-Fits dp size r h = elim (Bool-cases dp.hostnospace) [
  | inr f ↦ rw f h
  | inl t ↦ rw t (
      at_host-Fits size cut_space r h (λ p le.
        let front = take (p + 5) r.segment in
        let back = drop (p + 6) r.segment in
        let cut = length-append front back in
        let a = length-take (p + 5) r.segment in
        let b = length-drop (p + 6) r.segment in
        elim (Bool-cases (ltb (p + 5) (length r.segment))) [
          | inr f2 ↦ rw f2 (h.0, le)
          | inl t2 ↦
              let inside : p + 5 < length r.segment = ground arith in
              rw (t2, rd_lem r.segment (p + 5) inside)
                (elim (Bool-cases (byte r.segment (p + 5) == 32)) [
                  | inl s ↦ rw s (omega (arith, h.0), omega arith)
                  | inr s ↦ rw s (h.0, le)
                ])
        ]))
]

hostcase-Fits :
    (dp : HttpProfile) (size : ℕ) (r : Request)
    → IsSpelling dp
    → Fits size r
    → Ensures (Fits size) (do_hostcase dp r)
unfolding do_hostcase spell_host
hostcase-Fits dp size r four h = elim (Bool-cases dp.hostcase) [
  | inr f ↦ rw f h
  | inl t ↦ rw t (
      at_host-Fits size (spell_host dp.hostspell) r h (λ p le.
        let front = take p r.segment in
        let back = drop (p + 4) r.segment in
        let same : length (front ++ (take 4 dp.hostspell ++ back)) ≡ length r.segment = omega (
          arith,
          length-append front (take 4 dp.hostspell ++ back),
          length-append (take 4 dp.hostspell) back,
          length-take 4 dp.hostspell,
          length-take p r.segment,
          length-drop (p + 4) r.segment,
          four,
        ) in
        rw same (h.0, le)))
]

-- The room is enough for a header and fits the buffer.
pad_room_lem :
    (dp : HttpProfile) (size len : ℕ)
    → dp.hostpad < 2 ^ 31
    → ltb size (hsize dp.unixeol + len) ≡ false
    → (hsize dp.unixeol ≤ pad_room dp size len)
      × (pad_room dp size len + len ≤ size)
      × (pad_room dp size len < 2 ^ 64)
unfolding pad_room
pad_room_lem dp size len small f = ground arith

module _ (name : ℕ → List ℕ) (fill : ℕ → ℕ) (seven : (k : ℕ) → length (name k) ≡ 7) where
  hostpad-Fits :
      (dp : HttpProfile) (size : ℕ) (r : Request)
      → dp.hostpad < 2 ^ 31
      → Fits size r
      → Ensures (Fits size) (do_hostpad name fill dp size r)
  unfolding do_hostpad pad_host
  hostpad-Fits dp size r small h = elim (Bool-cases (dp.hostpad == 0)) [
    | inl f ↦ rw f h
    | inr t ↦ rw t (
        at_host-Fits size (pad_host name fill dp size) r h (λ p le.
          let len = length r.segment in
          let room = pad_room dp size len in
          elim (Bool-cases (ltb size (hsize dp.unixeol + len))) [
            | inl full ↦ rw full (h.0, le)
            | inr free ↦
                let fits = pad_room_lem dp size len small free in
                let pads = pad_headers name fill dp.unixeol room 0 room in
                let exact = (pad_headers_lem name fill dp.unixeol seven 0 room fits.0 fits.2).0 in
                rw free (
                  omega (
                    arith,
                    length-append (take p r.segment) (pads ++ drop p r.segment),
                    length-append pads (drop p r.segment),
                    length-take p r.segment,
                    length-drop p r.segment,
                    exact,
                    fits.1,
                    le,
                  ),
                  tt,
                )
          ]))
  ]

  -- A request that fits its buffer still fits after all the changes of tamper_out, which read inside
  -- of the segment and never write past the buffer. The request starts with its method and one byte
  -- more, none of them a CR; the spelling has four letters, the padding is a positive int, and the
  -- names of the padding headers have the seven characters that snprintf writes.
  pub tamper_http_lem :
      (dp : HttpProfile) (base size method_len : ℕ) (r : Request)
      → IsSpelling dp
      → dp.hostpad < 2 ^ 31
      → StartsPlain (method_len + 1) r.segment
      → Fits size r
      → Ensures (Fits size) (tamper_http name fill dp base size method_len r)
  unfolding tamper_http
  tamper_http_lem dp base size method_len r four small plain h =
      let start =
        methodspace-Fits dp size method_len (do_methodeol dp size (do_unixeol dp r))
          (method_there dp size (method_len + 1) r plain)
          (methodeol-Fits dp size (do_unixeol dp r) (unixeol-Fits dp size r h)) in
      Ensures-bind (Fits size) (Fits size) _ _ start (λ m hm.
        Ensures-bind (Fits size) (Fits size) (do_hostdot dp size m) _ (hostdot-Fits dp size m hm)
          (λ a ha.
            Ensures-bind (Fits size) (Fits size) (do_domcase dp base a) _
              (domcase-Fits dp size base a ha)
              (λ b hb.
                Ensures-bind (Fits size) (Fits size) (do_hostnospace dp b) _
                  (hostnospace-Fits dp size b hb)
                  (λ c hc.
                    Ensures-bind (Fits size) (Fits size) (do_hostcase dp c) _
                      (hostcase-Fits dp size c four hc)
                      (λ d hd. hostpad-Fits dp size d small hd)))))
