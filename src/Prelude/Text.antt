-- ===== src/Prelude/Text.antt =====
-- Go strings: byte sequences.
use Prim.Native.Nat.{ℕ, zero, suc, ◌+◌, ◌-◌, ◌/◌, ◌%◌, ◌^◌}
use Prim.Native.Char.{code}
use Prim.Native.String.{String}
use mathlib.Core.Path.{◌≡◌, refl}
use mathlib.Core.Bool.{Bool, true, false, ◌&&◌}
use mathlib.Core.Logic.{◌↔◌, ◌≢◌, inl, inr}
use mathlib.Core.List.{List, [], ◌∷◌, ◌++◌}
use native.Mathlib.Omega.{arith}
use alice_core.Prelude.Tests.{Bool-cases, leb, ltb, ◌==◌, if◌then◌else◌}

abbrev pub Str : Type 0
Str = List ℕ

-- The bytes of an ASCII literal.
abbrev pub codes : String → Str
codes String.[] = []
codes (String.◌∷◌ c s) = code c ∷ codes s

abbrev pub str_eq : Str → Str → Bool
str_eq [] [] = true
str_eq [] (b ∷ t) = false
str_eq (a ∷ s) [] = false
str_eq (a ∷ s) (b ∷ t) = (a == b) && str_eq s t

pub str_eq_refl : (s : Str) → str_eq s s ≡ true
str_eq_refl [] = refl
str_eq_refl (a ∷ s) = ground (arith, str_eq_refl s)

pub str_eq→eq : (s t : Str) → str_eq s t ≡ true → s ≡ t
str_eq→eq [] [] h = refl
str_eq→eq [] (b ∷ t) h = ground arith
str_eq→eq (a ∷ s) [] h = ground arith
str_eq→eq (a ∷ s) (b ∷ t) h = ground (arith, str_eq→eq s t)

pub str_eq_iff : (s t : Str) → (str_eq s t ≡ true) ↔ (s ≡ t)
str_eq_iff s t = (str_eq→eq s t, λ e. rw e (str_eq_refl t))

-- `strconv` digits of a number below 10 ^ (fuel + 1); 20 digits hold every 64-bit word.
abbrev pub decimal_digits : ℕ → ℕ → Str
decimal_digits zero n = (48 + n % 10) ∷ []
decimal_digits (suc fuel) n =
    let rest = decimal_digits fuel (n / 10) in
    if ltb n 10 then (48 + n) ∷ [] else rest ++ (48 + n % 10) ∷ []

-- `%d` of an `int`.
unfoldable pub decimal : ℕ → Str
decimal n = if leb (2 ^ 63) n then b'-' ∷ decimal_digits 20 (2 ^ 64 - n) else decimal_digits 20 n

-- Go's `<` on strings: lexicographic by bytes.
abbrev pub str_lt : Str → Str → Bool
str_lt s [] = false
str_lt [] (b ∷ t) = true
str_lt (a ∷ s) (b ∷ t) = if a == b then str_lt s t else ltb a b

decimal_test : decimal 1205 ≡ codes "1205"
unfolding decimal
decimal_test = refl

decimal_neg_test : decimal (2 ^ 64 - 7) ≡ codes "-7"
unfolding decimal
decimal_neg_test = refl

pub str_ne : (s t : Str) → s ≢ t → str_eq s t ≡ false
str_ne s t h = elim (Bool-cases (str_eq s t)) [ inl e ↦ absurd (h (str_eq→eq s t e)) | inr e ↦ e ]
