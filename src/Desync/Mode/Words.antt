-- ===== src/Desync/Mode/Words.antt =====
-- The words of the desync modes.
use fog_prime.Base.{ℕ, ◌≡◌, refl, Bool, true, false, List, [], ◌∷◌, ◌++◌, none, some}
use fog_prime.Desync.Mode.{
  DesyncMode, none_mode, invalid, fake, fake_known, rst, rstack, synack, syndata, faked_split,
  faked_disorder, multisplit, multidisorder, hostfakesplit, ipfrag2, hopbyhop, destopt, ipfrag1,
  udplen, tamper, desync_mode_from_string, cut_comma,
}

-- The word that stands for a mode in the documentation.
abbrev pub word : DesyncMode → List ℕ
word none_mode = []
word invalid = []
word fake = 102 ∷ 97 ∷ 107 ∷ 101 ∷ []
word fake_known = 102 ∷ 97 ∷ 107 ∷ 101 ∷ 107 ∷ 110 ∷ 111 ∷ 119 ∷ 110 ∷ []
word rst = 114 ∷ 115 ∷ 116 ∷ []
word rstack = 114 ∷ 115 ∷ 116 ∷ 97 ∷ 99 ∷ 107 ∷ []
word synack = 115 ∷ 121 ∷ 110 ∷ 97 ∷ 99 ∷ 107 ∷ []
word syndata = 115 ∷ 121 ∷ 110 ∷ 100 ∷ 97 ∷ 116 ∷ 97 ∷ []
word faked_split = 102 ∷ 97 ∷ 107 ∷ 101 ∷ 100 ∷ 115 ∷ 112 ∷ 108 ∷ 105 ∷ 116 ∷ []
word faked_disorder =
    102 ∷ 97 ∷ 107 ∷ 101 ∷ 100 ∷ 100 ∷ 105 ∷ 115 ∷ 111 ∷ 114 ∷ 100 ∷ 101 ∷ 114 ∷ []
word multisplit = 109 ∷ 117 ∷ 108 ∷ 116 ∷ 105 ∷ 115 ∷ 112 ∷ 108 ∷ 105 ∷ 116 ∷ []
word multidisorder =
    109 ∷ 117 ∷ 108 ∷ 116 ∷ 105 ∷ 100 ∷ 105 ∷ 115 ∷ 111 ∷ 114 ∷ 100 ∷ 101 ∷ 114 ∷ []
word hostfakesplit = 104 ∷ 111 ∷ 115 ∷ 116 ∷ 102 ∷ 97 ∷ 107 ∷ 101 ∷ 115 ∷ 112 ∷ 108 ∷ 105 ∷ 116 ∷ []
word ipfrag2 = 105 ∷ 112 ∷ 102 ∷ 114 ∷ 97 ∷ 103 ∷ 50 ∷ []
word hopbyhop = 104 ∷ 111 ∷ 112 ∷ 98 ∷ 121 ∷ 104 ∷ 111 ∷ 112 ∷ []
word destopt = 100 ∷ 101 ∷ 115 ∷ 116 ∷ 111 ∷ 112 ∷ 116 ∷ []
word ipfrag1 = 105 ∷ 112 ∷ 102 ∷ 114 ∷ 97 ∷ 103 ∷ 49 ∷ []
word udplen = 117 ∷ 100 ∷ 112 ∷ 108 ∷ 101 ∷ 110 ∷ []
word tamper = 116 ∷ 97 ∷ 109 ∷ 112 ∷ 101 ∷ 114 ∷ []

-- A mode that has a word.
abbrev pub has_word : DesyncMode → Bool
has_word none_mode = false
has_word invalid = false
has_word fake = true
has_word fake_known = true
has_word rst = true
has_word rstack = true
has_word synack = true
has_word syndata = true
has_word faked_split = true
has_word faked_disorder = true
has_word multisplit = true
has_word multidisorder = true
has_word hostfakesplit = true
has_word ipfrag2 = true
has_word hopbyhop = true
has_word destopt = true
has_word ipfrag1 = true
has_word udplen = true
has_word tamper = true

pub word-read : (m : DesyncMode) → has_word m ≡ true → desync_mode_from_string (some (word m)) ≡ m
unfolding desync_mode_from_string
word-read none_mode h = cc
word-read invalid h = cc
word-read fake h = refl
word-read fake_known h = refl
word-read rst h = refl
word-read rstack h = refl
word-read synack h = refl
word-read syndata h = refl
word-read faked_split h = refl
word-read faked_disorder h = refl
word-read multisplit h = refl
word-read multidisorder h = refl
word-read hostfakesplit h = refl
word-read ipfrag2 h = refl
word-read hopbyhop h = refl
word-read destopt h = refl
word-read ipfrag1 h = refl
word-read udplen h = refl
word-read tamper h = refl

pub cut_between :
    (m : DesyncMode) (rest : List ℕ) → cut_comma (word m ++ 44 ∷ rest) ≡ (word m, some rest)
unfolding cut_comma
cut_between none_mode rest = refl
cut_between invalid rest = refl
cut_between fake rest = refl
cut_between fake_known rest = refl
cut_between rst rest = refl
cut_between rstack rest = refl
cut_between synack rest = refl
cut_between syndata rest = refl
cut_between faked_split rest = refl
cut_between faked_disorder rest = refl
cut_between multisplit rest = refl
cut_between multidisorder rest = refl
cut_between hostfakesplit rest = refl
cut_between ipfrag2 rest = refl
cut_between hopbyhop rest = refl
cut_between destopt rest = refl
cut_between ipfrag1 rest = refl
cut_between udplen rest = refl
cut_between tamper rest = refl

pub cut_end : (m : DesyncMode) → cut_comma (word m) ≡ (word m, none)
unfolding cut_comma
cut_end none_mode = refl
cut_end invalid = refl
cut_end fake = refl
cut_end fake_known = refl
cut_end rst = refl
cut_end rstack = refl
cut_end synack = refl
cut_end syndata = refl
cut_end faked_split = refl
cut_end faked_disorder = refl
cut_end multisplit = refl
cut_end multidisorder = refl
cut_end hostfakesplit = refl
cut_end ipfrag2 = refl
cut_end hopbyhop = refl
cut_end destopt = refl
cut_end ipfrag1 = refl
cut_end udplen = refl
cut_end tamper = refl
