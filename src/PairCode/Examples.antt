-- ===== src/PairCode/Examples.antt =====
-- Runs of internal/paircode on one address, port and key.
use leave_safe.Prelude.{◌≡◌, ◌↔◌, refl, inl, inr, some, [], ◌∷◌, Bytes, codes, arith, length, All}
use leave_safe.Auth.Luhn.{IsDigit}
use leave_safe.Auth.Policy.{pos}
use leave_safe.PairCode.{encode_parts, decode_parts}
use leave_safe.PairCode.Clean.{TypedFor, same, lower, added, omitted, zero_as, one_as, done}
use leave_safe.PairCode.Code.{IsPort, decode_parts-encode_parts, encode_parts_iff}

abbrev key : Bytes
key = codes "1234567890123452"

abbrev shown : Bytes
shown = codes "1800-01S4-WC26-5N9W-HAXB-R"

as_shown : (s : Bytes) → TypedFor s s
as_shown [] = done
as_shown (c ∷ s) = same (as_shown s)

typed-TypedFor : TypedFor (codes "l8oo 01s4wc26-5N9W-HAXB-R") shown
typed-TypedFor = one_as (inr (inr (inr refl))) (
    same (
      zero_as (inr refl) (
        zero_as (inr refl) (
          added (inr (inl refl)) (
            omitted (inl refl) (
              same (
                same (
                  lower (omega arith) (omega arith) (
                    same (
                      omitted (inl refl) (
                        lower (omega arith) (omega arith) (
                          lower (omega arith) (omega arith)
                            (as_shown (codes "26-5N9W-HAXB-R"))))))))))))))

decode_parts-encode_parts_example :
    decode_parts (codes "l8oo 01s4wc26-5N9W-HAXB-R") ≡ some (10 ∷ 0 ∷ 0 ∷ 7 ∷ [], 9443, key)
unfolding encode_parts
decode_parts-encode_parts_example =
    decode_parts-encode_parts 10 0 0 7 9443 key shown (codes "l8oo 01s4wc26-5N9W-HAXB-R")
      (ground arith) refl typed-TypedFor

encode_parts_iff_example :
    (IsPort (pos 9443) × (length key ≡ 16) × All IsDigit key)
    ↔ ((code : Bytes) × (encode_parts (some (10 ∷ [])) (pos 9443) key ≡ some code))
encode_parts_iff_example = encode_parts_iff (10 ∷ []) (pos 9443) key
