-- ===== src/Prelude/Decimals.antt =====
-- The decimal text of a number determines it.
use Prim.Native.Nat.{ℕ, zero, suc, ◌+◌, ◌-◌, ◌*◌, ◌/◌, ◌%◌, ◌^◌, ◌<◌}
use mathlib.Core.Path.{◌≡◌, refl, sym, ap, ◌∙◌}
use mathlib.Core.Bool.{false}
use mathlib.Core.List.{[], ◌∷◌, ◌++◌}
use native.Mathlib.Omega.{arith}
use alice_core.Prelude.Tests.{leb, ltb, if_cases, if_of_false}
use alice_core.Prelude.Text.{Str, decimal, decimal_digits}

-- The number that digits write, after those that are worth `n`.
abbrev value : ℕ → Str → ℕ
value n [] = n
value n (c ∷ cs) = value (n * 10 + (c - 48)) cs

value-append : (n : ℕ) (s t : Str) → value n (s ++ t) ≡ value (value n s) t
value-append n [] t = refl
value-append n (c ∷ s) t = value-append (n * 10 + (c - 48)) s t

-- `n` has at most `fuel + 1` digits.
abbrev Fits : ℕ → ℕ → Type 0
Fits zero n = n < 10
Fits (suc fuel) n = Fits fuel (n / 10)

value-decimal_digits : (fuel n : ℕ) → Fits fuel n → value 0 (decimal_digits fuel n) ≡ n
value-decimal_digits zero n h = omega (arith, h)
value-decimal_digits (suc fuel) n h =
    if_cases (λ s. value 0 s ≡ n) (ltb n 10) _ _ (λ e. omega arith)
      (λ e.
        value-append 0 (decimal_digits fuel (n / 10)) ((48 + n % 10) ∷ [])
        ∙ omega (arith, value-decimal_digits fuel (n / 10) h))

not_negative : (n : ℕ) → n < 2 ^ 63 → leb (2 ^ 63) n ≡ false
not_negative n h = ground arith

pub decimal-inj : (m n : ℕ) → m < 2 ^ 63 → n < 2 ^ 63 → decimal m ≡ decimal n → m ≡ n
unfolding decimal
decimal-inj m n hm hn e =
    sym (value-decimal_digits 20 m (omega (arith, hm)))
    ∙ ap (value 0) (
        sym (if_of_false (leb (2 ^ 63) m) _ _ (not_negative m hm))
        ∙ e
        ∙ if_of_false (leb (2 ^ 63) n) _ _ (not_negative n hn))
    ∙ value-decimal_digits 20 n (omega (arith, hn))
