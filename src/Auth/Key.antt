-- ===== src/Auth/Key.antt =====
-- The texts of internal/auth/auth.go: how a pairing key and a token are drawn, written and read.
pub mod Accepted
use leave_safe.Prelude.{
  ◌-◌, ℕ, zero, suc, ◌+◌, ◌/◌, ◌%◌, Bool, Option, none, some, List, [], ◌∷◌, ◌++◌, Bytes, ltb, ◌==◌,
  if◌then◌else◌, take, drop,
}
use leave_safe.Auth.Luhn.{luhn_check_digit}

abbrev pub key_digits : ℕ
key_digits = 15

-- `stripDashes`, and `strings.ReplaceAll(s, "-", "")`.
unfoldable pub strip_dashes : Bytes → Bytes
strip_dashes [] = []
strip_dashes (c ∷ s) = let rest = strip_dashes s in if c == b'-' then rest else c ∷ rest

-- `fmt.Sprintf("%s-%s-%s-%s", k[0:4], k[4:8], k[8:12], k[12:16])`.
unfoldable pub format_key : Bytes → Bytes
format_key k =
    take 4 k
    ++ (b'-' ∷ take 4 (drop 4 k) ++ (b'-' ∷ take 4 (drop 8 k) ++ (b'-' ∷ take 4 (drop 12 k))))

-- The digits that `rand.Int(rand.Reader, 10)` gives in turn, `none` for a failing source.
draw_digits : ℕ → List (Option ℕ) → Option Bytes
draw_digits zero draws = some []
draw_digits (suc n) [] = none
draw_digits (suc n) (none ∷ draws) = none
draw_digits (suc n) (some d ∷ draws) = elim (draw_digits n draws) [
  | none ↦ none
  | some s ↦ some ((b'0' + d) ∷ s)
]

unfoldable pub generate_pairing_key : List (Option ℕ) → Option Bytes
unfolding draw_digits
generate_pairing_key draws = elim (draw_digits key_digits draws) [
  | none ↦ none
  | some digits ↦ some (digits ++ luhn_check_digit digits ∷ [])
]

unfoldable pub hex_digit : ℕ → ℕ
hex_digit d = if ltb d 10 then b'0' + d else b'a' + (d - 10)

-- `hex.EncodeToString`.
unfoldable pub hex_encode : Bytes → Bytes
unfolding hex_digit
hex_encode [] = []
hex_encode (b ∷ s) = hex_digit (b / 16) ∷ hex_digit (b % 16) ∷ hex_encode s

-- `generateSessionToken` and `generatePairingSalt`: what `rand.Read` filled 32 bytes with, or `none`.
unfoldable pub encode_random : Option Bytes → Option Bytes
encode_random none = none
encode_random (some b) = some (hex_encode b)
