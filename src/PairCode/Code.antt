-- ===== src/PairCode/Code.antt =====
-- `Encode` against `Decode`.
use leave_safe.Prelude.{
  ℕ, ◌+◌, ◌*◌, ◌/◌, ◌%◌, ◌^◌, ◌≤◌, ◌<◌, ◌≡◌, refl, subst, ◌∙◌, ◌↔◌, inl, inr, false, some, [], ◌∷◌,
  ◌++◌, Bytes, leb, arith, length, All, All-append, Option-cases,
}
use leave_safe.Auth.Luhn.{IsDigit}
use leave_safe.Auth.Policy.{ℤ, pos, negsuc}
use leave_safe.PairCode.{
  encode32, group, decode32, key_number, port_bytes, be_bytes, be_number, encode_parts,
  payload_parts, decode_parts,
}
use leave_safe.PairCode.Base32.{IsByte, decode_from-encode32}
use leave_safe.PairCode.Clean.{TypedFor, clean_typed, clean-group-encode32}
use leave_safe.PairCode.Number.{
  be_number-be_bytes, be_bytes-IsByte, key_number_sound, key_number_total, key_number_digits,
}

abbrev address : ℕ → ℕ → ℕ → ℕ → Bytes
address a b c d = a ∷ b ∷ c ∷ d ∷ []

abbrev payload : Bytes → ℕ → ℕ → Bytes
payload v4 port n = v4 ++ (port_bytes port ++ be_bytes 7 n)

encode_accepted :
    (v4 : Bytes) (port n : ℕ) (key : Bytes)
    → port ≤ 65535
    → key_number key ≡ some n
    → encode_parts (some v4) (pos port) key ≡ some (group (encode32 (payload v4 port n)))
unfolding encode_parts
encode_accepted v4 port n key h e = rw e ground arith

encode_some :
    (v4 : Bytes) (port : ℕ) (key code : Bytes)
    → encode_parts (some v4) (pos port) key ≡ some code
    → (n : ℕ) × (port ≤ 65535)
      × (key_number key ≡ some n)
      × (code ≡ group (encode32 (payload v4 port n)))
unfolding encode_parts
encode_some v4 port key code = elim (Option-cases (key_number key)) [
  | inl e ↦ rw e λ h. absurd (ground arith)
  | inr (n, e) ↦ rw e λ h. (n, ground arith, refl, ground arith)
]

payload-IsByte : (port n : ℕ) → All IsByte (port_bytes port ++ be_bytes 7 n)
unfolding port_bytes
payload-IsByte port n = (omega arith, (omega arith, be_bytes-IsByte 7 n))

length-payload : (a b c d port n : ℕ) → length (payload (address a b c d) port n) ≡ 13
unfolding port_bytes be_bytes
length-payload a b c d port n = refl

length-encode32 : (a b c d port n : ℕ) → length (encode32 (payload (address a b c d) port n)) ≡ 21
unfolding encode32 port_bytes be_bytes
length-encode32 a b c d port n = refl

decode32_typed :
    (s t : Bytes)
    → length s ≡ 13
    → length (encode32 s) ≡ 21
    → All IsByte s
    → TypedFor t (group (encode32 s))
    → decode32 t ≡ some s
unfolding decode32
decode32_typed s t h k bytes r =
    rw (clean_typed r ∙ clean-group-encode32 s, k, decode_from-encode32 s bytes, h) refl

payload_parts-payload :
    (a b c d port n : ℕ) (key : Bytes)
    → port ≤ 65535
    → key_number key ≡ some n
    → payload_parts (payload (address a b c d) port n) ≡ some (address a b c d, port, key)
unfolding payload_parts port_bytes
payload_parts-payload a b c d port n key h e =
    let (printed, small) = key_number_sound key n e in
    let number : be_number 0 (be_bytes 7 n) ≡ n =
      be_number-be_bytes 7 n (let s : n < 10000000000000000 = small in omega arith)
        (let s : n < 10000000000000000 = small in omega arith) in
    let whole : port / 256 % 256 * 256 + port % 256 ≡ port = omega arith in
    let fits : leb (10 ^ 16) n ≡ false = ground arith in rw (number, fits, whole, printed) refl

-- For an address of four bytes, every text that a person may type for the code that encoding gives
-- (lower case, separators added or left out, O for 0, I or L for 1) decodes to the address, port and
-- key that were encoded.
pub decode_parts-encode_parts :
    (a b c d port : ℕ) (key code typed : Bytes)
    → All IsByte (address a b c d)
    → encode_parts (some (address a b c d)) (pos port) key ≡ some code
    → TypedFor typed code
    → decode_parts typed ≡ some (address a b c d, port, key)
unfolding decode_parts
decode_parts-encode_parts a b c d port key code typed bytes e r =
    let (n, h, number, shown) = encode_some (address a b c d) port key code e in
    let read : decode32 typed ≡ some (payload (address a b c d) port n) =
      decode32_typed (payload (address a b c d) port n) typed (length-payload a b c d port n)
        (length-encode32 a b c d port n)
        (All-append IsByte (address a b c d) _ bytes (payload-IsByte port n))
        (subst (λ t. TypedFor typed t) shown r) in
    rw (decode_parts, read) (payload_parts-payload a b c d port n key h number)

-- A port of sixteen bits.
pub IsPort : ℤ → Type 0
IsPort (pos n) = n ≤ 65535
IsPort (negsuc n) = 1 ≤ 0

-- For a host that is an IPv4 address, there is a code exactly when the port, which may be negative,
-- has sixteen bits and the key is sixteen digits.
pub encode_parts_iff :
    (v4 : Bytes) (port : ℤ) (key : Bytes)
    → (IsPort port × (length key ≡ 16) × All IsDigit key)
      ↔ ((code : Bytes) × (encode_parts (some v4) port key ≡ some code))
unfolding IsPort
encode_parts_iff v4 (negsuc p) key =
    (λ h. absurd (omega (arith, h.0)), λ h. absurd (unfold encode_parts in cc (h.1)))
encode_parts_iff v4 (pos port) key = (
  λ h.
      let (n, e) = key_number_total key h.1 h.2 in
      (group (encode32 (payload v4 port n)), encode_accepted v4 port n key h.0 e),
  λ h.
      let (n, small, number, shown) = encode_some v4 port key h.0 h.1 in
      let (whole, read) = key_number_digits key n number in (small, whole, read),
)
