-- ===== src/Auth/Luhn.antt =====
-- internal/auth/luhn.go. The loop is a recursion over the bytes that counts their positions.
pub mod Errors
pub mod Swaps
use leave_safe.Prelude.{
  ℕ, suc, ◌+◌, ◌-◌, ◌*◌, ◌%◌, ◌≤◌, Bool, true, false, ◌&&◌, ◌||◌, [], ◌∷◌, Bytes, ltb, leb, ◌==◌,
  if◌then◌else◌, length, take, get_or,
}

abbrev pub IsDigit : ℕ → Type 0
IsDigit c = (b'0' ≤ c) × (c ≤ b'9')

-- `int(digits[i] - '0')`: the subtraction is one of bytes.
pub digit_value : ℕ → ℕ
digit_value c = (c + 256 - b'0') % 256

-- What one digit adds to the sum: doubled, less nine if that has two digits, or as it is.
pub weigh : Bool → ℕ → ℕ
weigh true d = let e = d * 2 in if ltb 9 e then e - 9 else e
weigh false d = d

pub luhn_sum : ℕ → ℕ → ℕ → Bytes → ℕ
unfolding digit_value weigh
luhn_sum parity i sum [] = sum
luhn_sum parity i sum (c ∷ s) =
    luhn_sum parity (suc i) (sum + weigh (i % 2 == parity) (digit_value c)) s

unfoldable pub luhn_check_digit : Bytes → ℕ
unfolding luhn_sum
luhn_check_digit digits =
    let sum = luhn_sum (length digits % 2) 0 0 digits in b'0' + (10 - sum % 10) % 10

all_digits : Bytes → Bool
all_digits [] = true
all_digits (c ∷ s) = let rest = all_digits s in if ltb c b'0' || ltb b'9' c then false else rest

unfoldable pub luhn_valid : Bytes → Bool
unfolding all_digits
luhn_valid digits =
    let n = length digits in
    if ltb n 2
    then false
    else if all_digits digits
    then get_or digits (n - 1) 0 == luhn_check_digit (take (n - 1) digits)
    else false
