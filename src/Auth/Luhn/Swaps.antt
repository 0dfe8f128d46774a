-- ===== src/Auth/Luhn/Swaps.antt =====
-- What the check digit says of two neighbouring digits typed in the wrong order.
use leave_safe.Prelude.{
  ℕ, suc, ◌+◌, ◌%◌, ◌≡◌, ◌≢◌, sym, ap, subst, ◌∙◌, ◌⊎◌, inl, inr, true, false, [], ◌∷◌, ◌++◌,
  append_assoc, Bool, not, Bytes, ◌==◌, arith, length, length-append, All-left, All-append,
  Bool-cases,
}
use leave_safe.Auth.Luhn.{IsDigit, digit_value, weigh, luhn_sum, luhn_check_digit, luhn_valid}
use leave_safe.Auth.Luhn.Errors.{
  luhn_sum-append, luhn_sum_acc, valid_parts, valid_of_parts, All-middle,
}

-- The sum with two neighbouring bytes singled out: exactly one of the two is doubled.
pair_split :
    (p : ℕ) (pre post : Bytes) (a b : ℕ)
    → luhn_sum p 0 0 (pre ++ a ∷ b ∷ post)
      ≡ luhn_sum p 0 0 pre
        + weigh (length pre % 2 == p) (digit_value a)
        + weigh (suc (length pre) % 2 == p) (digit_value b)
        + luhn_sum p (suc (suc (length pre))) 0 post
unfolding luhn_sum
pair_split p pre post a b = omega (
  arith,
  luhn_sum-append p 0 0 pre (a ∷ b ∷ post),
  ap (λ n. luhn_sum p n (luhn_sum p 0 0 pre) (a ∷ b ∷ post))
      (let e : 0 + length pre ≡ length pre = omega arith in e),
  luhn_sum_acc p (suc (suc (length pre)))
      (luhn_sum p 0 0 pre
        + weigh (length pre % 2 == p) (digit_value a)
        + weigh (suc (length pre) % 2 == p) (digit_value b))
      post,
)

-- 0 and 9 weigh the same when doubled, so the pair of them is the one that the sum is blind to.
abbrev pub IsBlindPair : ℕ → ℕ → Type 0
IsBlindPair a b = ((a ≡ b'0') × (b ≡ b'9')) ⊎ ((a ≡ b'9') × (b ≡ b'0'))

weigh_pair :
    (a b : ℕ)
    → IsDigit a
    → IsDigit b
    → (weigh true (digit_value a) + weigh false (digit_value b)) % 10
      ≡ (weigh true (digit_value b) + weigh false (digit_value a)) % 10
    → (a ≡ b) ⊎ IsBlindPair a b
unfolding weigh digit_value
weigh_pair a b ha hb e = ground arith

weigh_flip :
    (w : Bool) (a b : ℕ)
    → IsDigit a
    → IsDigit b
    → (weigh w (digit_value a) + weigh (not w) (digit_value b)) % 10
      ≡ (weigh w (digit_value b) + weigh (not w) (digit_value a)) % 10
    → (a ≡ b) ⊎ IsBlindPair a b
weigh_flip true a b ha hb e = weigh_pair a b ha hb e
weigh_flip false a b ha hb e = weigh_pair a b ha hb (omega (arith, e))

parity_flip : (i n : ℕ) → (suc i % 2 == n % 2) ≡ not (i % 2 == n % 2)
parity_flip i n = ground arith

length-pair :
    (pre post : Bytes) (a b : ℕ) → length (pre ++ a ∷ b ∷ post) ≡ length pre + 2 + length post
length-pair pre post a b = omega (arith, length-append pre (a ∷ b ∷ post))

check_digit_swap :
    (pre post : Bytes) (a b : ℕ)
    → IsDigit a
    → IsDigit b
    → luhn_check_digit (pre ++ a ∷ b ∷ post) ≡ luhn_check_digit (pre ++ b ∷ a ∷ post)
    → (a ≡ b) ⊎ IsBlindPair a b
unfolding luhn_check_digit
check_digit_swap pre post a b ha hb =
    rw (length-pair pre post a b, length-pair pre post b a)
      λ h.
        let n = length pre + 2 + length post in
        let flip = λ (c : ℕ). ap (λ v. weigh v (digit_value c)) (parity_flip (length pre) n) in
        weigh_flip (length pre % 2 == n % 2) a b ha hb (
          omega (
            arith,
            h,
            flip a,
            flip b,
            pair_split (n % 2) pre post a b,
            pair_split (n % 2) pre post b a,
          ))

-- In a valid key, two neighbouring digits before the check digit that change places leave an
-- invalid one, unless they are equal or are a 0 and a 9.
pub luhn_valid_swap :
    (pre post : Bytes) (a b c : ℕ)
    → luhn_valid ((pre ++ a ∷ b ∷ post) ++ c ∷ []) ≡ true
    → a ≢ b
    → ¬ IsBlindPair a b
    → luhn_valid ((pre ++ b ∷ a ∷ post) ++ c ∷ []) ≡ false
luhn_valid_swap pre post a b c h ne blind =
    elim (Bool-cases (luhn_valid ((pre ++ b ∷ a ∷ post) ++ c ∷ []))) [
      | inl k ↦
          let va = valid_parts (pre ++ a ∷ b ∷ post) c h in
          let vb = valid_parts (pre ++ b ∷ a ∷ post) c k in
          let ha = All-middle pre (b ∷ post ++ c ∷ []) a (rw append_assoc at va.1) in
          let hb = All-middle pre (a ∷ post ++ c ∷ []) b (rw append_assoc at vb.1) in
          elim (check_digit_swap pre post a b ha hb (sym va.2 ∙ vb.2)) [
            | inl e ↦ absurd (ne e)
            | inr e ↦ absurd (blind e)
          ]
      | inr k ↦ k
    ]

weigh_last : (n d : ℕ) → weigh (n % 2 == suc n % 2) d ≡ d
unfolding weigh
weigh_last n d = ground arith

last_sum :
    (s : Bytes) (a : ℕ)
    → luhn_sum (suc (length s) % 2) 0 0 (s ++ a ∷ [])
      ≡ luhn_sum (suc (length s) % 2) 0 0 s + digit_value a
unfolding luhn_sum
last_sum s a = omega (
  arith,
  luhn_sum-append (suc (length s) % 2) 0 0 s (a ∷ []),
  ap (λ n. luhn_sum (suc (length s) % 2) n (luhn_sum (suc (length s) % 2) 0 0 s) (a ∷ []))
      (let e : 0 + length s ≡ length s = omega arith in e),
  weigh_last (length s) (digit_value a),
)

check_last :
    (s : Bytes) (a b : ℕ)
    → IsDigit a
    → IsDigit b
    → b ≡ luhn_check_digit (s ++ a ∷ [])
    → a ≡ luhn_check_digit (s ++ b ∷ [])
unfolding luhn_check_digit digit_value
check_last s a b ha hb = rw (count a, count b) λ h. omega (arith, h, last_sum s a, last_sum s b)
  where
    count : (c : ℕ) → length (s ++ c ∷ []) ≡ suc (length s)
    count c = omega (arith, length-append s (c ∷ []))

-- The digit before the check digit is not doubled, so a valid key whose last two digits change
-- places is valid again, whatever they are.
pub luhn_valid_swap_last :
    (s : Bytes) (a b : ℕ)
    → luhn_valid (s ++ a ∷ b ∷ []) ≡ true
    → luhn_valid (s ++ b ∷ a ∷ []) ≡ true
luhn_valid_swap_last s a b h =
    let v = valid_parts (s ++ a ∷ []) b (rw append_assoc h) in
    let ha = All-middle s (b ∷ []) a (rw append_assoc at v.1) in
    let hb = All-middle (s ++ a ∷ []) [] b v.1 in
    let hs = All-left IsDigit s (a ∷ []) (All-left IsDigit (s ++ a ∷ []) (b ∷ []) v.1) in
    let swapped =
      All-append IsDigit (s ++ b ∷ []) (a ∷ []) (All-append IsDigit s _ hs (hb, tt)) (ha, tt) in
    subst (λ r. luhn_valid r ≡ true) (append_assoc s (b ∷ []) (a ∷ []))
      (valid_of_parts (s ++ b ∷ []) a (omega (arith, length-append s (b ∷ []))) swapped
        (check_last s a b ha hb v.2))
