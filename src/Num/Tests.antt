-- ===== src/Num/Tests.antt =====
-- Runs of the rounding of internal/num/num.go, some of them rows of its testdata/rounding.json.
use ddcore.Common.{ℕ, ◌≡◌, refl, true, none, some, length, ◌++◌, ◌∷◌, ◌^◌, ◌-◌, arith}
use ddcore.Text.{Text, codes, value_from}
use ddcore.Num.{half_away_from_zero, half_to_even, round}
use ddcore.Num.Pointed.{IsDecimal}
use ddcore.Num.Nearest.{IsNearest, signed, round-IsNearest}

commercial : round (codes "2.345") 2 half_away_from_zero ≡ some (codes "2.35")
unfolding round
commercial = refl

bankers : round (codes "2.345") 2 half_to_even ≡ some (codes "2.34")
unfolding round
bankers = refl

typed : round (codes "-1.005") 2 half_away_from_zero ≡ some (codes "-1.01")
unfolding round
typed = refl

carried : round (codes "999.5") 0 half_away_from_zero ≡ some (codes "1000")
unfolding round
carried = refl

small : round (codes "0.0051") 2 half_to_even ≡ some (codes "0.01")
unfolding round
small = refl

exact : round (codes "12.5") 2 half_to_even ≡ none
unfolding round
exact = refl

round-IsNearest_example :
    (out : Text) × (n : ℕ) × (round (signed true (codes "2" ++ (46 ∷ codes "355"))) 2 half_to_even
      ≡ some (signed true out))
    × IsDecimal 2 out n
    × IsNearest half_to_even
        (10 ^ (length (codes "355") - 2))
        (value_from 0 (codes "2" ++ codes "355"))
        n
round-IsNearest_example =
    round-IsNearest 2 half_to_even true (codes "2") (codes "355") (refl, tt)
      (refl, (refl, (refl, tt))) (omega arith) (omega arith)
