-- ===== src/Prelude/Word.antt =====
-- Go's `int` on a 64-bit machine: a bit pattern below 2 ^ 64, in two's complement.
use Prim.Native.Nat.{ℕ, ◌+◌, ◌-◌, ◌%◌, ◌^◌, ◌<◌}
use mathlib.Core.Path.{◌≡◌, refl}
use mathlib.Core.Bool.{Bool, true, false, ◌||◌}
use native.Mathlib.Omega.{arith}
use alice_core.Prelude.Tests.{ltb, leb}

abbrev pub word_mod : ℕ
word_mod = 2 ^ 64

abbrev pub sign_bit : ℕ
sign_bit = 2 ^ 63

-- `a + b` wraps around.
abbrev pub add_int : ℕ → ℕ → ℕ
add_int a b = (a + b) % word_mod

-- `a < b` on signed values: adding the sign bit carries their order to the order of ℕ.
abbrev pub slt : ℕ → ℕ → Bool
slt a b = ltb ((a + sign_bit) % word_mod) ((b + sign_bit) % word_mod)

-- `a <= b`
abbrev pub sle : ℕ → ℕ → Bool
sle a b = leb ((a + sign_bit) % word_mod) ((b + sign_bit) % word_mod)

-- `i` is no index of a slice of `n` elements: `i < 0 || i >= n`.
abbrev pub out_of_range : ℕ → ℕ → Bool
out_of_range i n = slt i 0 || sle n i

pub in_range-lt : (i n : ℕ) → i < word_mod → n < sign_bit → out_of_range i n ≡ false → i < n
in_range-lt i n hi hn h = ground arith

pub slt-lt : (a b : ℕ) → a < sign_bit → b < sign_bit → slt a b ≡ true → a < b
slt-lt a b ha hb h = ground arith

test_neg : slt (2 ^ 64 - 1) 0 ≡ true
test_neg = refl
