-- ===== src/Tamper/Split.antt =====
-- The TLS case of tamper_out, tpws/tamper.c: one TLS record becomes two. `tpos` is what ResolvePos
-- finds for --tlsrec, `splits` are the split positions that ResolveMultiPos has found.
use fog_prime.Base.{
  ℕ, ◌+◌, ◌-◌, ◌*◌, ◌^◌, ltb, leb, if◌then◌else◌, List, [], ◌∷◌, ◌++◌, map, length, take, drop,
  byte, u16,
}
use fog_prime.Helpers.Bytes.{phton16}

-- The first three bytes of a record: its type and version.
abbrev pub record_type : List ℕ → List ℕ
record_type segment = byte segment 0 ∷ byte segment 1 ∷ byte segment 2 ∷ []

-- pntoh16(segment+3)
abbrev pub record_len : List ℕ → ℕ
record_len segment = byte segment 3 * 2 ^ 8 + byte segment 4

-- if ((tpos-5)>=l) tpos=5+1;
abbrev pub clamp_tpos : ℕ → ℕ → ℕ
clamp_tpos l tpos = if leb l (tpos - 5) then 6 else tpos

-- The bytes from `tpos` on move up by the five of a header, which is written between; the length of
-- the first record is written in its own header.
unfoldable pub two_records : List ℕ → ℕ → List ℕ
two_records segment tpos =
    record_type segment
    ++ (phton16 (u16 (tpos - 5))
        ++ (drop 5 (take tpos segment)
            ++ (record_type segment
                ++ (phton16 (u16 (record_len segment - (tpos - 5))) ++ drop tpos segment))))

-- if (multisplit_pos[i]>tpos) multisplit_pos[i]+=5;
unfoldable pub fix_split : ℕ → ℕ → ℕ
fix_split tpos p = if ltb tpos p then p + 5 else p

unfoldable pub tamper_tls : ℕ → ℕ → List ℕ → List ℕ → List ℕ × List ℕ
unfolding two_records fix_split
tamper_tls size tpos segment splits =
    if leb (5 + length segment) size
    then (if ltb 5 tpos
        then (let l = record_len segment in
            let at = clamp_tpos l tpos in
            if leb 2 l
            then (two_records segment at, map (fix_split at) splits)
            else (segment, splits))
        else (segment, splits))
    else (segment, splits)
