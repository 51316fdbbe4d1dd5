-- ===== src/Format/Tests.antt =====
-- Numerals of a few numbers.
use illinix_os.Base.{◌≡◌, refl, some, [], ◌∷◌, arith, replicate}
use illinix_os.Format.{strrev, printf, word}
use illinix_os.Format.Reversing.{strrev_lem}

strrev_lem_example :
    strrev (0x61 ∷ 0x62 ∷ 0x63 ∷ 0 ∷ 5 ∷ []) ≡ some (0x63 ∷ 0x62 ∷ 0x61 ∷ 0 ∷ 5 ∷ [])
strrev_lem_example =
    strrev_lem (0x61 ∷ 0x62 ∷ 0x63 ∷ []) (5 ∷ [])
      ((λ e. omega arith), ((λ e. omega arith), ((λ e. omega arith), tt)))

-- printf("%u: %#x", 42, 14).
prints :
    printf
      (replicate 64 7)
      (0x25 ∷ 0x75 ∷ 0x3A ∷ 0x20 ∷ 0x25 ∷ 0x23 ∷ 0x78 ∷ 0 ∷ [])
      (word 42 ∷ word 14 ∷ [])
    ≡ some
        (7, 0x34 ∷ 0x32 ∷ 0x3A ∷ 0x20 ∷ 0x30 ∷ 0x30 ∷ 0x30 ∷ 0x30 ∷ 0x30 ∷ 0x30 ∷ 0x30 ∷ 0x45 ∷ [])
unfolding printf illinix_os.Libc.strlen strrev
prints = refl
