-- ===== src/Libc/Tests.antt =====
-- The string functions at work.
use illinix_os.Base.{ℕ, List, [], ◌∷◌, arith}
use illinix_os.Libc.Lengths.{HasNoNul}

-- "ab" and "ac".
abbrev ab : List ℕ
ab = 0x61 ∷ 0x62 ∷ []

abbrev ac : List ℕ
ac = 0x61 ∷ 0x63 ∷ []

ab-HasNoNul : HasNoNul ab
ab-HasNoNul = ((λ e. omega arith), ((λ e. omega arith), tt))

ac-HasNoNul : HasNoNul ac
ac-HasNoNul = ((λ e. omega arith), ((λ e. omega arith), tt))

abbrev memory : List ℕ
memory = 9 ∷ 8 ∷ 7 ∷ 6 ∷ []
