-- ===== src/Auth/Pin.antt =====
-- internal/auth/pin.go. The two key derivations stand outside this repository and are parameters:
-- scrypt of golang.org/x/crypto, and SHA-256. The parsing of a stored hash is here in full.
pub mod Verify
use leave_safe.Prelude.{
  ℕ, suc, ◌+◌, ◌-◌, ◌*◌, ◌^◌, Bool, true, false, ◌&&◌, ◌||◌, not, Option, none, some, List, [], ◌∷◌,
  ◌++◌, Bytes, codes, bytes_eq, ltb, leb, ◌==◌, if◌then◌else◌, length,
}
use Prim.Native.Nat.{bit_and}
use leave_safe.Auth.Policy.{ℤ, pos, negsuc}
use leave_safe.Auth.Key.{hex_encode}

-- `scrypt pin salt N r p len`, which may return an error, and `sha256`.
pub record Crypto : Type 0 where
  pub scrypt : Bytes → Bytes → ℕ → ℕ → ℕ → ℕ → Option Bytes
  pub sha256 : Bytes → Bytes

abbrev pub scrypt_n : ℕ
scrypt_n = 2 ^ 17

abbrev pub scrypt_r : ℕ
scrypt_r = 8

abbrev pub scrypt_p : ℕ
scrypt_p = 1

abbrev pub scrypt_key_len : ℕ
scrypt_key_len = 32

-- `strings.Split(s, sep)`: there is always a first part.
unfoldable pub split : ℕ → Bytes → Bytes × List Bytes
split sep [] = ([], [])
split sep (c ∷ s) =
    let (part, parts) = split sep s in if c == sep then ([], part ∷ parts) else (c ∷ part, parts)

-- The digits of `strconv.Atoi` behind `n`.
unfoldable pub scan : ℕ → Bytes → Option ℕ
scan n [] = some n
scan n (c ∷ s) =
    let rest = scan (n * 10 + (c - b'0')) s in if ltb c b'0' || ltb b'9' c then none else rest

unfoldable pub digits : Bytes → Option ℕ
unfolding scan
digits [] = none
digits (c ∷ s) = scan 0 (c ∷ s)

-- A number read, within the range of a 64-bit `int`.
unfoldable pub signed : Bool → ℕ → Option ℤ
signed true n =
    if n == 0 then some (pos 0) else if leb n (2 ^ 63) then some (negsuc (n - 1)) else none
signed false n = if ltb n (2 ^ 63) then some (pos n) else none

unfoldable pub read_signed : Bool → Bytes → Option ℤ
unfolding digits signed
read_signed negative s = elim (digits s) [ none ↦ none | some n ↦ signed negative n ]

-- `strconv.Atoi`.
unfoldable pub atoi : Bytes → Option ℤ
unfolding read_signed
atoi [] = none
atoi (c ∷ s) =
    if c == b'-'
    then read_signed true s
    else if c == b'+'
    then read_signed false s
    else read_signed false (c ∷ s)

unfoldable pub hex_value : ℕ → Option ℕ
hex_value c =
    if leb b'0' c && leb c b'9'
    then some (c - b'0')
    else if leb b'a' c && leb c b'f'
    then some (c - b'a' + 10)
    else if leb b'A' c && leb c b'F'
    then some (c - b'A' + 10)
    else none

unfoldable pub hex_pair : Option ℕ → Option ℕ → Option Bytes → Option Bytes
hex_pair (some a) (some b) (some s) = some ((a * 16 + b) ∷ s)
hex_pair _ _ _ = none

-- `hex.DecodeString`.
unfoldable pub hex_decode : Bytes → Option Bytes
unfolding hex_value hex_pair
hex_decode [] = some []
hex_decode (a ∷ []) = none
hex_decode (a ∷ b ∷ s) = hex_pair (hex_value a) (hex_value b) (hex_decode s)

-- The parameters that a hash carries, as numbers: `none` for one that is negative.
abbrev natural : Option ℤ → Option ℕ
natural (some (pos n)) = some n
natural _ = none

-- The bounds on the parameters of a stored hash.
unfoldable pub good_params : ℕ → ℕ → ℕ → Bool
good_params n r p = not (
    ltb n 2
    || (ltb (2 ^ 22) n
        || (not (bit_and n (n - 1) == 0) || (ltb r 1 || (ltb 64 r || (ltb p 1 || ltb 16 p))))))

module _ (crypto : Crypto) where
  unfoldable pub compare_scrypt : Bytes → Option Bytes → Option Bytes → ℕ → ℕ → ℕ → Bool
  compare_scrypt pin (some salt) (some []) n r p = false
  compare_scrypt pin (some salt) (some (c ∷ want)) n r p =
      elim (crypto.scrypt pin salt n r p (length (c ∷ want))) [
        | none ↦ false
        | some got ↦ bytes_eq got (c ∷ want)
      ]
  compare_scrypt pin _ _ n r p = false

  unfoldable pub with_params : Bytes → Option ℕ → Option ℕ → Option ℕ → Bytes → Bytes → Bool
  unfolding compare_scrypt
  with_params pin (some n) (some r) (some p) salt digest =
      if good_params n r p
      then compare_scrypt pin (hex_decode salt) (hex_decode digest) n r p
      else false
  with_params pin _ _ _ salt digest = false

  -- `verifyScrypt`, on the parts behind the first. A number that is negative fails the bounds.
  unfoldable pub verify_scrypt : Bytes → List Bytes → Bool
  unfolding with_params
  verify_scrypt pin (n ∷ r ∷ p ∷ salt ∷ digest ∷ []) =
      with_params pin (natural (atoi n)) (natural (atoi r)) (natural (atoi p)) salt digest
  verify_scrypt pin _ = false

  unfoldable pub compare_sha256 : Bytes → Option Bytes → Option Bytes → Bool
  compare_sha256 pin (some salt) (some want) = bytes_eq (crypto.sha256 (salt ++ pin)) want
  compare_sha256 pin _ _ = false

  -- `verifyLegacySHA256`, on the parts behind the first.
  unfoldable pub verify_legacy : Bytes → List Bytes → Bool
  unfolding compare_sha256
  verify_legacy pin (salt ∷ digest ∷ []) = compare_sha256 pin (hex_decode salt) (hex_decode digest)
  verify_legacy pin _ = false

  -- The `switch` of `VerifyPinHash` on the scheme that the first part names.
  unfoldable pub verify_parts : Bytes → Bytes × List Bytes → Bool
  unfolding verify_scrypt verify_legacy
  verify_parts pin (scheme, parts) =
      if bytes_eq scheme (codes "scrypt")
      then verify_scrypt pin parts
      else if bytes_eq scheme (codes "sha256")
      then verify_legacy pin parts
      else false

  -- `VerifyPinHash`.
  unfoldable pub verify_pin_hash : Bytes → Bytes → Bool
  unfolding verify_parts
  verify_pin_hash pin encoded = verify_parts pin (split b'$' encoded)

  -- `HashPin`, with the salt that the random source gives.
  unfoldable pub hash_pin : Bytes → Option Bytes → Option Bytes
  hash_pin pin none = none
  hash_pin pin (some salt) =
      elim (crypto.scrypt pin salt scrypt_n scrypt_r scrypt_p scrypt_key_len) [
        | none ↦ none
        | some digest ↦
            some (codes "scrypt$131072$8$1$" ++ (hex_encode salt ++ b'$' ∷ hex_encode digest))
      ]

weaker : Option ℤ → Option ℤ → Option ℤ → Bool
weaker (some (pos n)) (some (pos r)) (some (pos p)) =
    ltb n scrypt_n || (ltb r scrypt_r || ltb p scrypt_p)
weaker _ _ _ = true

params_weaker : List Bytes → Bool
unfolding weaker
params_weaker (n ∷ r ∷ p ∷ salt ∷ digest ∷ []) = weaker (atoi n) (atoi r) (atoi p)
params_weaker _ = true

rehash_parts : Bytes × List Bytes → Bool
unfolding params_weaker
rehash_parts (scheme, parts) =
    if bytes_eq scheme (codes "scrypt") then params_weaker parts else true

-- `NeedsRehash`: a number that does not parse or is negative asks for one too.
unfoldable pub needs_rehash : Bytes → Bool
unfolding rehash_parts
needs_rehash encoded = rehash_parts (split b'$' encoded)
