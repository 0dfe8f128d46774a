-- ===== src/PairCode/Clean.antt =====
-- What `clean` forgives: separators, lower case, and the letters that look like digits.
use leave_safe.Prelude.{
  ℕ, zero, suc, ◌+◌, ◌-◌, ◌*◌, ◌/◌, ◌%◌, ◌^◌, ◌≤◌, ◌≡◌, refl, sym, ap, subst, ◌∙◌, ◌⊎◌, inl, inr,
  Bool, true, ◌&&◌, none, some, [], ◌∷◌, Bytes, leb, arith, All, All-append, ◌==◌, Bool-cases, ltb,
}
use leave_safe.PairCode.{
  char, emit, encode_from, encode32, clean_char, put, clean, group_from, group,
}
use leave_safe.PairCode.Base32.{is_some_of, is_some_of_eq, all_below, all_below_sound, char_mod}

abbrev pub IsSeparator : ℕ → Type 0
IsSeparator c =
    (c ≡ b'-') ⊎ ((c ≡ b' ') ⊎ ((c ≡ b'\t') ⊎ ((c ≡ b'\n') ⊎ ((c ≡ b'\r') ⊎ (c ≡ b'_')))))

-- A text that a person may type for the code that is shown.
pub data TypedFor : Bytes → Bytes → Type 0 where
  done : TypedFor [] []
  same : {c : ℕ} {s t : Bytes} → TypedFor s t → TypedFor (c ∷ s) (c ∷ t)
  lower :
      {c : ℕ} {s t : Bytes} → b'A' ≤ c → c ≤ b'Z' → TypedFor s t → TypedFor ((c + 32) ∷ s) (c ∷ t)
  added : {c : ℕ} {s t : Bytes} → IsSeparator c → TypedFor s t → TypedFor (c ∷ s) t
  omitted : {c : ℕ} {s t : Bytes} → IsSeparator c → TypedFor s t → TypedFor s (c ∷ t)
  zero_as :
      {c : ℕ} {s t : Bytes} → (c ≡ b'O') ⊎ (c ≡ b'o') → TypedFor s t → TypedFor (c ∷ s) (b'0' ∷ t)
  one_as :
      {c : ℕ} {s t : Bytes}
      → (c ≡ b'I') ⊎ ((c ≡ b'i') ⊎ ((c ≡ b'L') ⊎ (c ≡ b'l')))
      → TypedFor s t
      → TypedFor (c ∷ s) (b'1' ∷ t)

clean_char_separator : (c : ℕ) → IsSeparator c → clean_char c ≡ none
unfolding clean_char
clean_char_separator c h = ground arith

clean_char_lower : (c : ℕ) → b'A' ≤ c → c ≤ b'Z' → clean_char (c + 32) ≡ clean_char c
unfolding clean_char
clean_char_lower c h k = ground arith

clean_char_zero : (c : ℕ) → (c ≡ b'O') ⊎ (c ≡ b'o') → clean_char c ≡ some b'0'
unfolding clean_char
clean_char_zero c h = ground arith

clean_char_one :
    (c : ℕ) → (c ≡ b'I') ⊎ ((c ≡ b'i') ⊎ ((c ≡ b'L') ⊎ (c ≡ b'l'))) → clean_char c ≡ some b'1'
unfolding clean_char
clean_char_one c h = ground arith

clean_same_head :
    (c d : ℕ) (s t : Bytes)
    → clean_char c ≡ clean_char d
    → clean s ≡ clean t
    → clean (c ∷ s) ≡ clean (d ∷ t)
unfolding clean
clean_same_head c d s t h k = ap (λ o. put o (clean s)) h ∙ ap (λ r. put (clean_char d) r) k

clean_separator : (c : ℕ) (s : Bytes) → IsSeparator c → clean (c ∷ s) ≡ clean s
unfolding clean put
clean_separator c s h = ap (λ o. put o (clean s)) (clean_char_separator c h)

-- All such texts are cleaned to the same characters.
pub clean_typed : {s t : Bytes} → TypedFor s t → clean s ≡ clean t
unfolding clean_char
clean_typed done = refl
clean_typed (same {c} r) = clean_same_head c c _ _ refl (clean_typed r)
clean_typed (lower {c} h k r) =
    clean_same_head (c + 32) c _ _ (clean_char_lower c h k) (clean_typed r)
clean_typed (added {c} h r) = clean_separator c _ h ∙ clean_typed r
clean_typed (omitted {c} h r) = clean_typed r ∙ sym (clean_separator c _ h)
clean_typed (zero_as {c} h r) = clean_same_head c b'0' _ _ (clean_char_zero c h) (clean_typed r)
clean_typed (one_as {c} h r) = clean_same_head c b'1' _ _ (clean_char_one c h) (clean_typed r)

clean-group_from : (i : ℕ) (s : Bytes) → clean (group_from i s) ≡ clean s
unfolding group_from
clean-group_from i [] = refl
clean-group_from i (c ∷ s) =
    let head : clean (c ∷ group_from (suc i) s) ≡ clean (c ∷ s) =
      clean_same_head c c _ _ refl (clean-group_from (suc i) s) in
    elim (Bool-cases (ltb 0 i && i % 4 == 0)) [
      | inl e ↦ rw e (clean_separator b'-' _ (inl refl) ∙ head)
      | inr e ↦ rw e head
    ]

-- A character that `clean` leaves as it is.
abbrev IsSettled : ℕ → Type 0
IsSettled c = clean_char c ≡ some c

abbrev is_settled : ℕ → Bool
is_settled c = is_some_of c (clean_char c)

settled_table : all_below 32 (λ v. is_settled (char v)) ≡ true
unfolding clean_char char
settled_table = refl

char-IsSettled : (v : ℕ) → IsSettled (char v)
char-IsSettled v =
    subst (λ c. clean_char c ≡ some c) (sym (char_mod v))
      (is_some_of_eq (char (v % 32)) _
        (all_below_sound 32 (λ x. is_settled (char x)) (v % 32) settled_table (omega arith)))

emit-IsSettled : (fuel buffer bits : ℕ) → All IsSettled (emit fuel buffer bits).0
unfolding emit
emit-IsSettled zero buffer bits = tt
emit-IsSettled (suc fuel) buffer bits = elim (Bool-cases (leb 5 bits)) [
  | inl e ↦ rw e (char-IsSettled (buffer / 2 ^ (bits - 5)), emit-IsSettled fuel buffer (bits - 5))
  | inr e ↦ rw e tt
]

encode_from-IsSettled : (w n : ℕ) (s : Bytes) → All IsSettled (encode_from w n s)
unfolding encode_from
encode_from-IsSettled w n [] = elim (Bool-cases (ltb 0 n)) [
  | inl e ↦ rw e (char-IsSettled (w * 2 ^ (5 - n) % 65536), tt)
  | inr e ↦ rw e tt
]
encode_from-IsSettled w n (b ∷ s) = All-append IsSettled _ _ (emit-IsSettled (n + 8) _ (n + 8)) (
    encode_from-IsSettled ((w * 256 + b) % 65536) (emit (n + 8) ((w * 256 + b) % 65536) (n + 8)).1
      s)

clean-IsSettled : (s : Bytes) → All IsSettled s → clean s ≡ s
unfolding clean put
clean-IsSettled [] h = refl
clean-IsSettled (c ∷ s) h = ap (λ o. put o (clean s)) h.0 ∙ ap (λ r. c ∷ r) (clean-IsSettled s h.1)

-- What is shown is cleaned to the characters that were written.
pub clean-group-encode32 : (s : Bytes) → clean (group (encode32 s)) ≡ encode32 s
unfolding group encode32
clean-group-encode32 s = clean-group_from 0 _ ∙ clean-IsSettled _ (encode_from-IsSettled 0 0 s)
