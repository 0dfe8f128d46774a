-- ===== src/Prelude/Float.antt =====
-- Go's float64, as far as its finite numbers go: a number that is not negative is so many times
-- 2^-1074, the least one. Where Go overflows to an infinity, a result here is as large, and
-- compares as it does. Each operation rounds on its own, as on amd64, where none are fused.
use Prim.Native.Nat.{ℕ, zero, suc, ◌+◌, ◌-◌, ◌*◌, ◌/◌, ◌%◌, ◌^◌}
use mathlib.Core.Bool.{true, false, ◌&&◌, ◌||◌}
use mathlib.Core.Path.{◌≡◌, refl}
use leave_safe.Prelude.Tests.{ltb, ◌==◌, if◌then◌else◌}

abbrev pub units : ℕ
units = 2 ^ 1074

-- The binary digits of a number; there are no more of them than the fuel, where that is the number.
digits_of : ℕ → ℕ → ℕ
digits_of zero n = 0
digits_of (suc fuel) n = elim (n == 0) [ true ↦ 0 | false ↦ suc (digits_of fuel (n / 2)) ]

-- The quotient, rounded to the nearest and to the even one of two.
nearest : ℕ → ℕ → ℕ
nearest n d =
    let q = n / d in
    let twice = n % d * 2 in if ltb d twice || (twice == d && q % 2 == 1) then q + 1 else q

-- The quotient in 53 binary digits, and so many zeros behind them as it takes.
unfoldable pub rounded : ℕ → ℕ → ℕ
unfolding digits_of nearest
rounded n d = let step = 2 ^ (digits_of (n / d) (n / d) - 53) in nearest n (d * step) * step

-- A constant, or an integer.
unfoldable pub float_of : ℕ → ℕ → ℕ
unfolding rounded
float_of n d = rounded (n * units) d

unfoldable pub float_add : ℕ → ℕ → ℕ
unfolding rounded
float_add x y = rounded (x + y) 1

-- The size of a difference that is this large.
unfoldable pub float_apart : ℕ → ℕ
unfolding rounded
float_apart x = rounded x 1

unfoldable pub float_mul : ℕ → ℕ → ℕ
unfolding rounded
float_mul x y = rounded (x * y) units

unfoldable pub float_div : ℕ → ℕ → ℕ
unfolding rounded
float_div x y = rounded (x * units) y

tenth : float_of 1 10 ≡ 3602879701896397 * 2 ^ 1019
unfolding float_of rounded digits_of nearest
tenth = refl
