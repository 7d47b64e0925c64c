-- ===== src/Text/Decimal.antt =====
-- `str(n)` for a number: decimal digits, and that no two numbers share them.
use proyecto_1_back.Prelude.{
  ℕ, zero, suc, ◌+◌, ◌-◌, ◌*◌, ◌/◌, ◌%◌, ◌<◌, ◌≡◌, refl, ap, sym, ◌∙◌, List, [], ◌∷◌, ◌++◌, arith,
  ltb, if◌then◌else◌,
}

-- Digits, the highest first. `n < suc n` rounds are more than the number of digits.
digits : ℕ → ℕ → List ℕ
digits zero n = []
digits (suc fuel) n =
    let higher = digits fuel (n / 10) in
    if ltb n 10 then (48 + n) ∷ [] else higher ++ (48 + n % 10) ∷ []

unfoldable pub decimal : ℕ → List ℕ
unfolding digits
decimal n = digits (suc n) n

-- What the digits read as.
value : List ℕ → ℕ → ℕ
value [] acc = acc
value (d ∷ ds) acc = value ds (acc * 10 + (d - 48))

value-append : (ds es : List ℕ) (acc : ℕ) → value (ds ++ es) acc ≡ value es (value ds acc)
unfolding value
value-append [] es acc = refl
value-append (d ∷ ds) es acc = value-append ds es (acc * 10 + (d - 48))

value-digits : (fuel n : ℕ) → n < fuel → value (digits fuel n) 0 ≡ n
unfolding digits value
value-digits zero n h = absurd (omega arith)
value-digits (suc fuel) n h =
    ground (
      arith,
      value-digits fuel (n / 10),
      value-append (digits fuel (n / 10)) ((48 + n % 10) ∷ []) 0,
    )

pub decimal-injective : (m n : ℕ) → decimal m ≡ decimal n → m ≡ n
unfolding decimal
decimal-injective m n e =
    sym (value-digits (suc m) m (omega arith))
    ∙ ap (λ ds. value ds 0) e
    ∙ value-digits (suc n) n (omega arith)

decimal_test : decimal 1070 ≡ 49 ∷ 48 ∷ 55 ∷ 48 ∷ []
unfolding decimal
decimal_test = refl
