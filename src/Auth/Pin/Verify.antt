-- ===== src/Auth/Pin/Verify.antt =====
-- A PIN verifies against the hash that is made of it, and such a hash is current.
use leave_safe.Prelude.{
  ℕ, ◌/◌, ◌%◌, ◌<◌, ◌≡◌, ◌≢◌, refl, ap, subst, true, false, some, [], ◌∷◌, ◌++◌, Bytes, codes,
  bytes_eq_refl, arith, length, All, Option-cases, inl, inr, ◌∙◌,
}
use leave_safe.Auth.Addr.Ports.{Lacks}
use leave_safe.Auth.Key.{hex_digit, hex_encode}
use leave_safe.Auth.Pin.{
  Crypto, good_params, scrypt_n, scrypt_r, scrypt_p, scrypt_key_len, split, atoi, hex_value,
  hex_decode, verify_pin_hash, hash_pin, needs_rehash, compare_scrypt, verify_parts, rehash_parts,
}

abbrev pub IsByte : ℕ → Type 0
IsByte b = b < 256

split_part :
    (sep : ℕ) (s t : Bytes)
    → Lacks sep s
    → split sep (s ++ sep ∷ t) ≡ (s, (split sep t).0 ∷ (split sep t).1)
unfolding split
split_part sep [] t h = ground arith
split_part sep (c ∷ s) t h = ground (arith, split_part sep s t h.1)

split_end : (sep : ℕ) (s : Bytes) → Lacks sep s → split sep s ≡ (s, [])
unfolding split
split_end sep [] h = refl
split_end sep (c ∷ s) h = ground (arith, split_end sep s h.1)

hex_digit-Lacks : (d : ℕ) → d < 16 → hex_digit d ≢ b'$'
unfolding hex_digit
hex_digit-Lacks d h = ground arith

hex_encode-Lacks : (s : Bytes) → All IsByte s → Lacks b'$' (hex_encode s)
unfolding hex_encode
hex_encode-Lacks [] h = tt
hex_encode-Lacks (b ∷ s) h = (
  hex_digit-Lacks (b / 16) (omega (arith, h.0)),
  (hex_digit-Lacks (b % 16) (omega arith), hex_encode-Lacks s h.1),
)

hex_value-hex_digit : (d : ℕ) → d < 16 → hex_value (hex_digit d) ≡ some d
unfolding hex_value hex_digit
hex_value-hex_digit d h = ground arith

-- Hexadecimal reads back as the bytes that it was written from.
pub hex_decode-hex_encode : (s : Bytes) → All IsByte s → hex_decode (hex_encode s) ≡ some s
unfolding hex_decode hex_encode
hex_decode-hex_encode [] h = refl
hex_decode-hex_encode (b ∷ s) h = ground (
  arith,
  hex_value-hex_digit (b / 16) (omega (arith, h.0)),
  hex_value-hex_digit (b % 16) (omega arith),
  hex_decode-hex_encode s h.1,
)

-- What stands in front of the two texts of a new hash.
abbrev preset : Bytes
preset = codes "scrypt$131072$8$1$"

split_hash :
    (salt digest : Bytes)
    → All IsByte salt
    → All IsByte digest
    → split b'$' (preset ++ (hex_encode salt ++ b'$' ∷ hex_encode digest)) ≡ (
      codes "scrypt",
      codes "131072" ∷ codes "8" ∷ codes "1" ∷ hex_encode salt ∷ hex_encode digest ∷ [],
    )
split_hash salt digest hs hd =
    front (hex_encode salt ++ b'$' ∷ hex_encode digest)
    ∙ rw (
      split_part b'$' (hex_encode salt) (hex_encode digest) (hex_encode-Lacks salt hs),
      split_end b'$' (hex_encode digest) (hex_encode-Lacks digest hd),
    )
  where
    front :
        (t : Bytes)
        → split b'$' (preset ++ t) ≡ (
          codes "scrypt",
          codes "131072" ∷ codes "8" ∷ codes "1" ∷ (split b'$' t).0 ∷ (split b'$' t).1,
        )
    front t = unfold split in refl

module _ (crypto : Crypto) (pin salt digest : Bytes) (hs : All IsByte salt)
    (hd : All IsByte digest) where
  verify_split :
      length digest ≡ scrypt_key_len
      → crypto.scrypt pin salt scrypt_n scrypt_r scrypt_p scrypt_key_len ≡ some digest
      → verify_pin_hash crypto pin (preset ++ (hex_encode salt ++ b'$' ∷ hex_encode digest)) ≡ true
  unfolding verify_pin_hash atoi good_params
  verify_split n e =
      ap (verify_parts crypto pin) (split_hash salt digest hs hd)
      ∙ rw (hex_decode-hex_encode salt hs, hex_decode-hex_encode digest hd) (compared digest n e)
    where
      compared :
          (want : Bytes)
          → length want ≡ scrypt_key_len
          → crypto.scrypt pin salt scrypt_n scrypt_r scrypt_p scrypt_key_len ≡ some want
          → compare_scrypt crypto pin (some salt) (some want) scrypt_n scrypt_r scrypt_p ≡ true
      compared [] k f = absurd (omega (arith, k))
      compared (c ∷ want) k f = ground (
        arith,
        k,
        f,
        ap (crypto.scrypt pin salt scrypt_n scrypt_r scrypt_p) k,
        bytes_eq_refl (c ∷ want),
      )

-- What scrypt promises: as many bytes as it is asked for.
abbrev pub IsDigest : Crypto → Type 0
IsDigest crypto =
    (pin salt : Bytes) (n r p len : ℕ) (digest : Bytes)
    → crypto.scrypt pin salt n r p len ≡ some digest
    → (length digest ≡ len) × All IsByte digest

-- A PIN verifies against every hash that `HashPin` makes of it, and no such hash asks to be made
-- anew.
pub verify_pin_hash-hash_pin :
    (crypto : Crypto) (pin salt : Bytes) {hash : Bytes}
    → IsDigest crypto
    → All IsByte salt
    → hash_pin crypto pin (some salt) ≡ some hash
    → (verify_pin_hash crypto pin hash ≡ true) × (needs_rehash hash ≡ false)
unfolding hash_pin atoi
verify_pin_hash-hash_pin crypto pin salt {hash} law hs h =
    elim (Option-cases (crypto.scrypt pin salt scrypt_n scrypt_r scrypt_p scrypt_key_len)) [
      | inl e ↦ absurd (ground arith)
      | inr (digest, e) ↦
          let (n, hd) = law pin salt scrypt_n scrypt_r scrypt_p scrypt_key_len digest e in
          let k : preset ++ (hex_encode salt ++ b'$' ∷ hex_encode digest) ≡ hash = ground arith in
          subst (λ x. (verify_pin_hash crypto pin x ≡ true) × (needs_rehash x ≡ false)) k
            (
              verify_split crypto pin salt digest hs hd n e,
              unfold needs_rehash in ap rehash_parts (split_hash salt digest hs hd),
            )
    ]
