-- ===== src/PairCode/Base32.antt =====
-- The characters of `encode32` read back as the bytes that they were written from.
use leave_safe.Prelude.{
  ℕ, zero, suc, ◌+◌, ◌-◌, ◌*◌, ◌/◌, ◌%◌, ◌^◌, ◌<◌, ◌≡◌, refl, ap, ◌∙◌, Bool, true, false, ◌&&◌,
  Option, none, some, [], ◌∷◌, Bytes, leb, if◌then◌else◌, ◌==◌, arith, All, get_or,
}
use leave_safe.PairCode.{alphabet, char, emit, encode_from, value_of, push, decode_from, encode32}

abbrev pub IsByte : ℕ → Type 0
IsByte b = b < 256

abbrev pub is_some_of : ℕ → Option ℕ → Bool
is_some_of v none = false
is_some_of v (some w) = v == w

abbrev pub all_below : ℕ → (ℕ → Bool) → Bool
all_below zero p = true
all_below (suc n) p = p n && all_below n p

pub all_below_sound : (n : ℕ) (p : ℕ → Bool) (x : ℕ) → all_below n p ≡ true → x < n → p x ≡ true
all_below_sound zero p x h lt = absurd (omega arith)
all_below_sound (suc n) p x h lt = ground (arith, all_below_sound n p x)

char_table : all_below 32 (λ v. is_some_of v (value_of (char v))) ≡ true
unfolding value_of char
char_table = refl

pub is_some_of_eq : (v : ℕ) (o : Option ℕ) → is_some_of v o ≡ true → o ≡ some v
is_some_of_eq v none h = cc
is_some_of_eq v (some w) h = ground arith

-- A character depends on the low five bits.
pub char_mod : (v : ℕ) → char v ≡ char (v % 32)
unfolding char
char_mod v = ap (λ w. get_or alphabet w 0) twice
  where
    twice : v % 32 ≡ v % 32 % 32
    twice = omega arith

-- Each of the thirty-two characters stands for its place.
value_of-char : (v : ℕ) → value_of (char v) ≡ some (v % 32)
value_of-char v =
    ap value_of (char_mod v)
    ∙ is_some_of_eq (v % 32) _ (
        all_below_sound 32 (λ x. is_some_of x (value_of (char x))) (v % 32) char_table
          (omega arith))

-- What one character does to the reader.
left_after : ℕ → ℕ
left_after n = if leb 8 (n + 5) then n + 5 - 8 else n + 5

dec_char :
    (d n v : ℕ) (s : Bytes)
    → decode_from d n (char v ∷ s)
      ≡ push
          (leb 8 (n + 5))
          ((d * 32 + v % 32) % 65536 / 2 ^ left_after n % 256)
          (decode_from ((d * 32 + v % 32) % 65536) (left_after n) s)
unfolding decode_from left_after
dec_char d n v s = rw (value_of-char v, decode_from)

-- A character that completes a byte, and one that does not.
dec_full :
    (d n v x : ℕ) (s t : Bytes)
    → leb 8 (n + 5) ≡ true
    → (d * 32 + v % 32) % 65536 / 2 ^ left_after n % 256 ≡ x
    → decode_from ((d * 32 + v % 32) % 65536) (left_after n) s ≡ some t
    → decode_from d n (char v ∷ s) ≡ some (x ∷ t)
unfolding push
dec_full d n v x s t full e h = dec_char d n v s ∙ rw (full, e, h)

dec_part :
    (d n v : ℕ) (s t : Bytes)
    → leb 8 (n + 5) ≡ false
    → decode_from ((d * 32 + v % 32) % 65536) (left_after n) s ≡ some t
    → decode_from d n (char v ∷ s) ≡ some t
unfolding push
dec_part d n v s t part h = dec_char d n v s ∙ rw (part, h)

dec_nil : (d n : ℕ) → decode_from d n [] ≡ some []
unfolding decode_from
dec_nil d n = refl

abbrev after_byte : ℕ → ℕ → ℕ
after_byte w b = (w * 256 + b) % 65536

abbrev after_char : ℕ → ℕ → ℕ
after_char d v = (d * 32 + v % 32) % 65536

-- `w` is the writer's buffer and `d` the reader's. With `k` bits of a byte still to write, the
-- reader holds its other bits; a phase for each number of bits that can be left.
mutual
  unfolding encode_from emit left_after

  phase_0 : (s : Bytes) (w d : ℕ) → All IsByte s → decode_from d 0 (encode_from w 0 s) ≡ some s
  phase_0 [] w d h = dec_nil d 0
  phase_0 (b ∷ s) w d h =
      let w1 = after_byte w b in
      dec_part d 0 (w1 / 8) (encode_from w1 3 s) (b ∷ s) refl
        (phase_3 s b w1 (after_char d (w1 / 8)) h.0 h.1 (omega arith) (omega arith))

  phase_3 :
      (s : Bytes) (a w d : ℕ)
      → IsByte a
      → All IsByte s
      → w % 8 ≡ a % 8
      → d % 32 ≡ a / 8
      → decode_from d 5 (encode_from w 3 s) ≡ some (a ∷ s)
  phase_3 [] a w d ha h e f = dec_full d 5 (w * 4 % 65536) a [] [] refl (omega arith) (dec_nil _ _)
  phase_3 (b ∷ s) a w d ha h e f =
      let w1 = after_byte w b in
      let d1 = after_char d (w1 / 64) in
      dec_full d 5 (w1 / 64) a _ (b ∷ s) refl (omega arith) (
        dec_part d1 2 (w1 / 2) (encode_from w1 1 s) (b ∷ s) refl
          (phase_1 s b w1 (after_char d1 (w1 / 2)) h.0 h.1 (omega arith) (omega arith)))

  phase_1 :
      (s : Bytes) (a w d : ℕ)
      → IsByte a
      → All IsByte s
      → w % 2 ≡ a % 2
      → d % 128 ≡ a / 2
      → decode_from d 7 (encode_from w 1 s) ≡ some (a ∷ s)
  phase_1 [] a w d ha h e f = dec_full d 7 (w * 16 % 65536) a [] [] refl (omega arith) (dec_nil _ _)
  phase_1 (b ∷ s) a w d ha h e f =
      let w1 = after_byte w b in
      dec_full d 7 (w1 / 16) a (encode_from w1 4 s) (b ∷ s) refl (omega arith)
        (phase_4 s b w1 (after_char d (w1 / 16)) h.0 h.1 (omega arith) (omega arith))

  phase_4 :
      (s : Bytes) (a w d : ℕ)
      → IsByte a
      → All IsByte s
      → w % 16 ≡ a % 16
      → d % 16 ≡ a / 16
      → decode_from d 4 (encode_from w 4 s) ≡ some (a ∷ s)
  phase_4 [] a w d ha h e f = dec_full d 4 (w * 2 % 65536) a [] [] refl (omega arith) (dec_nil _ _)
  phase_4 (b ∷ s) a w d ha h e f =
      let w1 = after_byte w b in
      let d1 = after_char d (w1 / 128) in
      dec_full d 4 (w1 / 128) a _ (b ∷ s) refl (omega arith) (
        dec_part d1 1 (w1 / 4) (encode_from w1 2 s) (b ∷ s) refl
          (phase_2 s b w1 (after_char d1 (w1 / 4)) h.0 h.1 (omega arith) (omega arith)))

  phase_2 :
      (s : Bytes) (a w d : ℕ)
      → IsByte a
      → All IsByte s
      → w % 4 ≡ a % 4
      → d % 64 ≡ a / 4
      → decode_from d 6 (encode_from w 2 s) ≡ some (a ∷ s)
  phase_2 [] a w d ha h e f = dec_full d 6 (w * 8 % 65536) a [] [] refl (omega arith) (dec_nil _ _)
  phase_2 (b ∷ s) a w d ha h e f =
      let w1 = after_byte w b in
      let d1 = after_char d (w1 / 32) in
      dec_full d 6 (w1 / 32) a _ (b ∷ s) refl (omega arith) (
        dec_full d1 3 (w1 / 1) b (encode_from w1 0 s) s refl (omega arith)
          (phase_0 s w1 (after_char d1 (w1 / 1)) h.1))

-- Every sequence of bytes reads back from the characters that it is written in.
pub decode_from-encode32 : (s : Bytes) → All IsByte s → decode_from 0 0 (encode32 s) ≡ some s
unfolding encode32
decode_from-encode32 s h = phase_0 s 0 0 h
