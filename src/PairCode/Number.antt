-- ===== src/PairCode/Number.antt =====
-- The key as a number in seven bytes, and back.
use leave_safe.Prelude.{
  ℕ, zero, suc, ◌+◌, ◌-◌, ◌*◌, ◌/◌, ◌%◌, ◌^◌, ◌<◌, ◌≡◌, refl, ap, subst, ◌∙◌, inl, inr,
  Option-cases, some, [], ◌∷◌, ◌++◌, Bytes, arith, length, length-append, All, All-append,
}
use native.Mathlib.Nat.{pow-suc}
use leave_safe.Auth.Luhn.{IsDigit}
use leave_safe.PairCode.Base32.{IsByte}
use leave_safe.PairCode.{scan_digits, key_number, be_bytes, be_number, zero_padded}

be_number-concat :
    (n b : ℕ) (s : Bytes) → be_number n (s ++ b ∷ []) ≡ (be_number n s * 256 + b) % 2 ^ 64
unfolding be_number
be_number-concat n b [] = refl
be_number-concat n b (c ∷ s) = be_number-concat ((n * 256 + c) % 2 ^ 64) b s

pub be_bytes-IsByte : (k n : ℕ) → All IsByte (be_bytes k n)
unfolding be_bytes
be_bytes-IsByte zero n = tt
be_bytes-IsByte (suc k) n =
    All-append IsByte (be_bytes k (n / 256)) _ (be_bytes-IsByte k (n / 256)) (omega arith, tt)

length-be_bytes : (k n : ℕ) → length (be_bytes k n) ≡ k
unfolding be_bytes
length-be_bytes zero n = refl
length-be_bytes (suc k) n =
    omega
      (arith, length-append (be_bytes k (n / 256)) ((n % 256) ∷ []), length-be_bytes k (n / 256))

high_bytes : (k n : ℕ) → n < 256 ^ suc k → n / 256 < 256 ^ k
high_bytes k n = rw (pow-suc 256 k) λ h. omega (arith, h)

-- Up to eight bytes hold every number that fits in them.
pub be_number-be_bytes : (k n : ℕ) → n < 256 ^ k → n < 2 ^ 64 → be_number 0 (be_bytes k n) ≡ n
unfolding be_bytes be_number
be_number-be_bytes zero n h l = let h' : n < 1 = h in omega arith
be_number-be_bytes (suc k) n h l =
    be_number-concat 0 (n % 256) (be_bytes k (n / 256))
    ∙ ap (λ q. (q * 256 + n % 256) % 2 ^ 64)
        (be_number-be_bytes k (n / 256) (high_bytes k n h) (omega (arith, l)))
    ∙ omega (arith, l)

scan_last :
    (n c : ℕ) (s : Bytes) (v : ℕ)
    → scan_digits n (s ++ c ∷ []) ≡ some v
    → (q : ℕ) × (scan_digits n s ≡ some q) × IsDigit c × (v ≡ q * 10 + (c - b'0'))
unfolding scan_digits
scan_last n c [] v e = (n, refl, ground arith, ground arith)
scan_last n c (d ∷ s) v e =
    let step : scan_digits (n * 10 + (d - b'0')) (s ++ c ∷ []) ≡ some v = ground arith in
    let (q, f, h, k) = scan_last (n * 10 + (d - b'0')) c s v step in (q, ground arith, h, k)

last_split :
    (x : ℕ) (s : Bytes) → (r : Bytes) × (c : ℕ) × (x ∷ s ≡ r ++ c ∷ []) × (length r ≡ length s)
last_split x [] = ([], x, refl, refl)
last_split x (y ∷ s) =
    let (r, c, e, k) = last_split y s in (x ∷ r, c, ap (λ t. x ∷ t) e, ap (λ n. suc n) k)

-- What is read of a text of digits is printed as the text that was read.
zero_padded-scan_digits :
    (k : ℕ) (s : Bytes) (v : ℕ)
    → length s ≡ k
    → scan_digits 0 s ≡ some v
    → (zero_padded k v ≡ s) × (v < 10 ^ k)
unfolding zero_padded scan_digits
zero_padded-scan_digits zero [] v h e = (refl, let z : v ≡ 0 = ground arith in omega arith)
zero_padded-scan_digits zero (x ∷ s) v h e = absurd (omega arith)
zero_padded-scan_digits (suc k) [] v h e = absurd (omega arith)
zero_padded-scan_digits (suc k) (x ∷ s) v h e =
    let (r, c, cut, same) = last_split x s in
    let (q, f, hc, val) = scan_last 0 c r v (subst (λ t. scan_digits 0 t ≡ some v) cut e) in
    let (print, small) = zero_padded-scan_digits k r q (omega arith) f in
    let tens : v / 10 ≡ q = omega arith in
    let units : b'0' + v % 10 ≡ c = omega arith in
    (rw (tens, units, print, cut), rw (pow-suc 10 k) omega arith)

-- A key that is accepted is below 10^16, and it is its number printed.
pub key_number_sound :
    (key : Bytes) (v : ℕ) → key_number key ≡ some v → (zero_padded 16 v ≡ key) × (v < 10 ^ 16)
unfolding key_number
key_number_sound key v = elim (Option-cases (scan_digits 0 key)) [
  | inl e ↦ rw e λ h. absurd (ground arith)
  | inr (n, e) ↦ rw e λ h. zero_padded-scan_digits 16 key v (ground arith) (e ∙ ground arith)
]

scan_total : (n : ℕ) (s : Bytes) → All IsDigit s → (v : ℕ) × (scan_digits n s ≡ some v)
unfolding scan_digits
scan_total n [] h = (n, refl)
scan_total n (c ∷ s) h = let (v, e) = scan_total (n * 10 + (c - b'0')) s h.1 in (v, ground arith)

-- Every text of sixteen digits is accepted.
pub key_number_total :
    (key : Bytes) → length key ≡ 16 → All IsDigit key → (v : ℕ) × (key_number key ≡ some v)
unfolding key_number
key_number_total key h d =
    let (v, e) = scan_total 0 key d in
    (v, let small = zero_padded-scan_digits 16 key v h e in rw e ground arith)

scan_sound : (n : ℕ) (s : Bytes) (v : ℕ) → scan_digits n s ≡ some v → All IsDigit s
unfolding scan_digits
scan_sound n [] v e = tt
scan_sound n (c ∷ s) v e =
    let step : scan_digits (n * 10 + (c - b'0')) s ≡ some v = ground arith in
    (ground arith, scan_sound (n * 10 + (c - b'0')) s v step)

-- No other text is.
pub key_number_digits :
    (key : Bytes) (v : ℕ) → key_number key ≡ some v → (length key ≡ 16) × All IsDigit key
unfolding key_number
key_number_digits key v = elim (Option-cases (scan_digits 0 key)) [
  | inl e ↦ rw e λ h. absurd (ground arith)
  | inr (n, e) ↦ rw e λ h. (ground arith, scan_sound 0 key n e)
]
