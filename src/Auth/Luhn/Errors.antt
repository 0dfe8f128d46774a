-- ===== src/Auth/Luhn/Errors.antt =====
-- Which mistakes in a key the check digit catches.
use leave_safe.Prelude.{
  ℕ, suc, ◌+◌, ◌-◌, ◌%◌, ◌≤◌, ◌<◌, ◌≡◌, ◌≢◌, refl, sym, ap, subst, ◌∙◌, ◌⊎◌, inl, inr, Bool, true,
  false, [], ◌∷◌, ◌++◌, append_assoc, Bytes, ◌==◌, arith, length, length-append, take_prefix,
  get_or_next, All, All-append, Bool-cases,
}
use leave_safe.Auth.Luhn.{
  IsDigit, digit_value, weigh, luhn_sum, luhn_check_digit, all_digits, luhn_valid,
}

all_digits_sound : (s : Bytes) → all_digits s ≡ true → All IsDigit s
unfolding all_digits
all_digits_sound [] h = tt
all_digits_sound (c ∷ s) h = ground (arith, all_digits_sound s)

all_digits_complete : (s : Bytes) → All IsDigit s → all_digits s ≡ true
unfolding all_digits
all_digits_complete [] h = refl
all_digits_complete (c ∷ s) h = ground (arith, all_digits_complete s)

pub luhn_sum-append :
    (p i k : ℕ) (xs ys : Bytes)
    → luhn_sum p i k (xs ++ ys) ≡ luhn_sum p (i + length xs) (luhn_sum p i k xs) ys
unfolding luhn_sum
luhn_sum-append p i k [] ys = ap (λ j. luhn_sum p j k ys) (omega arith)
luhn_sum-append p i k (x ∷ xs) ys =
    luhn_sum-append p (suc i) _ xs ys
    ∙ ap (λ j. luhn_sum p j (luhn_sum p i k (x ∷ xs)) ys) (omega arith)

-- The sum so far is added to what the rest contributes.
pub luhn_sum_acc : (p i k : ℕ) (s : Bytes) → luhn_sum p i k s ≡ k + luhn_sum p i 0 s
unfolding luhn_sum
luhn_sum_acc p i k [] = omega arith
luhn_sum_acc p i k (c ∷ s) = omega (
  arith,
  luhn_sum_acc p (suc i) (k + weigh (i % 2 == p) (digit_value c)) s,
  luhn_sum_acc p (suc i) (0 + weigh (i % 2 == p) (digit_value c)) s,
)

pub weigh_le : (b : Bool) (c : ℕ) → IsDigit c → weigh b (digit_value c) ≤ 9
unfolding weigh digit_value
weigh_le b c h = ground arith

weigh_inj :
    (b : Bool) (c d : ℕ)
    → IsDigit c
    → IsDigit d
    → weigh b (digit_value c) ≡ weigh b (digit_value d)
    → c ≡ d
unfolding weigh digit_value
weigh_inj b c d h k e = ground arith

pub check_IsDigit : (s : Bytes) → IsDigit (luhn_check_digit s)
unfolding luhn_check_digit
check_IsDigit s = ground arith

length-concat : (s : Bytes) (c : ℕ) → length (s ++ c ∷ []) - 1 ≡ length s
length-concat s c = omega (arith, length-append s (c ∷ []))

-- The tests of `luhnValid` on a text given as its payload and its last byte.
pub valid_parts :
    (s : Bytes) (c : ℕ)
    → luhn_valid (s ++ c ∷ []) ≡ true
    → (0 < length s) × All IsDigit (s ++ c ∷ []) × (c ≡ luhn_check_digit s)
unfolding luhn_valid
valid_parts s c =
    rw (length-concat s c, take_prefix s (c ∷ []), get_or_next s [] c 0)
      λ h. (
        ground (arith, length-append s (c ∷ [])),
        all_digits_sound (s ++ c ∷ []) (ground arith),
        ground arith,
      )

pub valid_of_parts :
    (s : Bytes) (c : ℕ)
    → 0 < length s
    → All IsDigit (s ++ c ∷ [])
    → c ≡ luhn_check_digit s
    → luhn_valid (s ++ c ∷ []) ≡ true
unfolding luhn_valid
valid_of_parts s c =
    rw (length-concat s c, take_prefix s (c ∷ []), get_or_next s [] c 0)
      λ h d e. ground (arith, length-append s (c ∷ []), all_digits_complete (s ++ c ∷ []) d)

-- A digit string completed by its check digit is valid.
pub luhn_valid-check_digit :
    (s : Bytes) → 0 < length s → All IsDigit s → luhn_valid (s ++ luhn_check_digit s ∷ []) ≡ true
luhn_valid-check_digit s h d =
    valid_of_parts s (luhn_check_digit s) h (All-append IsDigit s _ d (check_IsDigit s, tt)) refl

-- The sum with one byte singled out.
sum_split :
    (p : ℕ) (pre post : Bytes) (a : ℕ)
    → luhn_sum p 0 0 (pre ++ a ∷ post)
      ≡ luhn_sum p 0 0 pre
        + weigh (length pre % 2 == p) (digit_value a)
        + luhn_sum p (suc (length pre)) 0 post
unfolding luhn_sum
sum_split p pre post a = omega (
  arith,
  luhn_sum-append p 0 0 pre (a ∷ post),
  ap (λ n. luhn_sum p n (luhn_sum p 0 0 pre) (a ∷ post))
      (let e : 0 + length pre ≡ length pre = omega arith in e),
  luhn_sum_acc p (suc (length pre))
      (luhn_sum p 0 0 pre + weigh (length pre % 2 == p) (digit_value a)) post,
)

-- A list is empty or ends in an element.
last_view : (s : Bytes) → (s ≡ []) ⊎ ((t : Bytes) × (c : ℕ) × (s ≡ t ++ c ∷ []))
last_view [] = inl refl
last_view (x ∷ s) = elim (last_view s) [
  | inl e ↦ inr ([], x, ap (λ r. x ∷ r) e)
  | inr (t, c, e) ↦ inr (x ∷ t, c, ap (λ r. x ∷ r) e)
]

pub All-middle : (pre post : Bytes) (a : ℕ) → All IsDigit (pre ++ a ∷ post) → IsDigit a
All-middle [] post a h = h.0
All-middle (x ∷ pre) post a h = All-middle pre post a h.1

-- Two payloads that differ in one digit have different check digits.
check_digit_inj :
    (pre post : Bytes) (a b : ℕ)
    → IsDigit a
    → IsDigit b
    → luhn_check_digit (pre ++ a ∷ post) ≡ luhn_check_digit (pre ++ b ∷ post)
    → a ≡ b
unfolding luhn_check_digit
check_digit_inj pre post a b ha hb =
    rw (sum_length a, sum_length b)
      λ h.
        let p = suc (length pre + length post) % 2 in
        let w = length pre % 2 == p in
        weigh_inj w a b ha hb (
          omega (
            arith,
            h,
            weigh_le w a ha,
            weigh_le w b hb,
            sum_split p pre post a,
            sum_split p pre post b,
          ))
  where
    sum_length : (c : ℕ) → length (pre ++ c ∷ post) ≡ suc (length pre + length post)
    sum_length c = omega (arith, length-append pre (c ∷ post))

one_digit :
    (pre post : Bytes) (a b : ℕ)
    → luhn_valid (pre ++ a ∷ post) ≡ true
    → luhn_valid (pre ++ b ∷ post) ≡ true
    → a ≡ b
one_digit pre post a b h k = elim (last_view post) [
  | inl e ↦
      let ha = subst (λ r. luhn_valid (pre ++ a ∷ r) ≡ true) e h in
      let kb = subst (λ r. luhn_valid (pre ++ b ∷ r) ≡ true) e k in
      (valid_parts pre a ha).2 ∙ sym (valid_parts pre b kb).2
  | inr (t, c, e) ↦
      let va = valid_parts (pre ++ a ∷ t) c (subst (λ r. luhn_valid r ≡ true) (assoc a t c e) h) in
      let vb = valid_parts (pre ++ b ∷ t) c (subst (λ r. luhn_valid r ≡ true) (assoc b t c e) k) in
      check_digit_inj pre t a b (All-middle pre (t ++ c ∷ []) a (rw append_assoc at va.1))
        (All-middle pre (t ++ c ∷ []) b (rw append_assoc at vb.1)) (sym va.2 ∙ vb.2)
]
  where
    assoc :
        (x : ℕ) (t : Bytes) (c : ℕ)
        → post ≡ t ++ c ∷ []
        → pre ++ x ∷ post ≡ (pre ++ x ∷ t) ++ c ∷ []
    assoc x t c e = rw (e, append_assoc)

-- A valid key with one of its digits changed, the check digit included, is no longer valid.
pub luhn_valid_one_digit :
    (pre post : Bytes) (a b : ℕ)
    → luhn_valid (pre ++ a ∷ post) ≡ true
    → a ≢ b
    → luhn_valid (pre ++ b ∷ post) ≡ false
luhn_valid_one_digit pre post a b h ne = elim (Bool-cases (luhn_valid (pre ++ b ∷ post))) [
  | inl k ↦ absurd (ne (one_digit pre post a b h k))
  | inr k ↦ k
]
