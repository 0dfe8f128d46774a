-- ===== src/Auth/Key/Accepted.antt =====
-- A generated key is one that the manager accepts, in either of the forms in which it is written.
use leave_safe.Prelude.{
  ℕ, zero, suc, ◌<◌, ◌≡◌, refl, true, Option, none, some, List, [], ◌∷◌, ◌++◌, Bytes, arith, length,
  length-append, length-drop, drop-drop, take-append-drop, take_all, All-take, All-drop, sym, take,
  drop, All, All-append, Option-cases, inl, inr,
}
use leave_safe.Auth.Luhn.{IsDigit, luhn_check_digit, luhn_valid}
use leave_safe.Auth.Luhn.Errors.{luhn_valid-check_digit, check_IsDigit}
use leave_safe.Auth.Key.{strip_dashes, format_key, draw_digits, generate_pairing_key, key_digits}

-- What `rand.Int` promises of a draw below ten.
abbrev pub BelowTen : Option ℕ → Type 0
BelowTen none = Unit {0}
BelowTen (some d) = d < 10

draw_digits_sound :
    (n : ℕ) (draws : List (Option ℕ)) {s : Bytes}
    → All BelowTen draws
    → draw_digits n draws ≡ some s
    → (length s ≡ n) × All IsDigit s
unfolding draw_digits
draw_digits_sound zero draws b h = ground arith
draw_digits_sound (suc n) [] b h = cc
draw_digits_sound (suc n) (none ∷ draws) b h = cc
draw_digits_sound (suc n) (some d ∷ draws) {s} b h = elim (Option-cases (draw_digits n draws)) [
  | inl e ↦ ground arith
  | inr (t, e) ↦ ground (arith, draw_digits_sound n draws {s = t} b.1 e)
]

-- Every key that is drawn, from whatever digits, has sixteen digits and a valid check digit.
pub generate_pairing_key_valid :
    (draws : List (Option ℕ)) {key : Bytes}
    → All BelowTen draws
    → generate_pairing_key draws ≡ some key
    → (length key ≡ 16) × All IsDigit key × (luhn_valid key ≡ true)
unfolding generate_pairing_key
generate_pairing_key_valid draws {key} b h = elim (Option-cases (draw_digits key_digits draws)) [
  | inl e ↦ ground arith
  | inr (s, e) ↦
      let (n, d) = draw_digits_sound key_digits draws {s = s} b e in
      let k : s ++ luhn_check_digit s ∷ [] ≡ key = ground arith in
      rw (← k) (
        omega (arith, n, length-append s (luhn_check_digit s ∷ [])),
        All-append IsDigit s (luhn_check_digit s ∷ []) d (check_IsDigit s, tt),
        luhn_valid-check_digit s (omega (arith, n)) d,
      )
]

strip_dashes-append : (s t : Bytes) → strip_dashes (s ++ t) ≡ strip_dashes s ++ strip_dashes t
unfolding strip_dashes
strip_dashes-append [] t = refl
strip_dashes-append (c ∷ s) t = ground (arith, strip_dashes-append s t)

-- Digits hold no dash.
strip_dashes_digits : (s : Bytes) → All IsDigit s → strip_dashes s ≡ s
unfolding strip_dashes
strip_dashes_digits [] h = refl
strip_dashes_digits (c ∷ s) h = ground (arith, strip_dashes_digits s h.1)

-- One group and its dash.
strip_group :
    (s rest : Bytes) → All IsDigit s → strip_dashes (s ++ b'-' ∷ rest) ≡ s ++ strip_dashes rest
unfolding strip_dashes
strip_group s rest h = rw (strip_dashes-append s (b'-' ∷ rest), strip_dashes_digits s h)

four_groups :
    (key : Bytes)
    → length key ≡ 16
    → take 4 key ++ (take 4 (drop 4 key) ++ (take 4 (drop 8 key) ++ take 4 (drop 12 key))) ≡ key
four_groups key n = rw (take_all 4 (drop 12 key) (omega (arith, length-drop 12 key))) (
    rw (sym (drop-drop 4 8 key), take-append-drop 4 (drop 8 key))
      (rw (sym (drop-drop 4 4 key), take-append-drop 4 (drop 4 key)) (take-append-drop 4 key)))

-- The groups that the panel shows read back as the key that they show.
pub strip_dashes-format_key :
    (key : Bytes) → length key ≡ 16 → All IsDigit key → strip_dashes (format_key key) ≡ key
unfolding format_key
strip_dashes-format_key key n d =
    let group = λ (k : ℕ). All-take IsDigit 4 (drop k key) (All-drop IsDigit k key d) in
    rw
      (
        strip_group _ _ (All-take IsDigit 4 key d),
        strip_group _ _ (group 4),
        strip_group _ _ (group 8),
        strip_dashes_digits _ (group 12),
      )
      (four_groups key n)
