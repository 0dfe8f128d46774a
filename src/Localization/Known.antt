-- ===== src/Localization/Known.antt =====
-- A language that is known is left as it is.
use leave_safe.Prelude.{
  Bool, true, false, ◌&&◌, ◌||◌, some, ◌≡◌, inl, inr, refl, subst, List, [], ◌∷◌, Bytes, bytes_eq,
  bytes_eq→eq, codes, if◌then◌else◌, Option-cases, arith,
}
use leave_safe.Auth.Pin.{split}
use leave_safe.Localization.{
  languages, to_lower, lower_char, dashed, first_language, by_base, by_alias, by_tag, normalize,
  has_prefix, is_chinese, is_punjabi, is_cantonese, is_filipino,
}

pub is_one_of : Bytes → List Bytes → Bool
is_one_of s [] = false
is_one_of s (c ∷ cs) = bytes_eq s c || is_one_of s cs

-- No language, or one of those that the program has.
abbrev pub IsLanguage : Bytes → Type 0
IsLanguage s = is_one_of s ([] ∷ languages) ≡ true

pub none-IsLanguage : IsLanguage []
unfolding is_one_of
none-IsLanguage = refl

IsKnown : Bytes → Type 0
IsKnown s = (normalize s ≡ s) × IsLanguage s

all_known : List Bytes → Bool
all_known [] = true
all_known (c ∷ cs) = bytes_eq (normalize c) c && is_one_of c ([] ∷ languages) && all_known cs

languages_known : all_known languages ≡ true
unfolding all_known is_one_of normalize by_tag first_language to_lower split lower_char dashed
    by_alias by_base has_prefix
languages_known = refl

known : (s : Bytes) → bytes_eq (normalize s) s ≡ true → IsLanguage s → IsKnown s
unfolding IsKnown
known s h l = (bytes_eq→eq (normalize s) s h, l)

no_language_known : IsKnown []
unfolding IsKnown is_one_of normalize by_tag first_language to_lower split lower_char dashed
    by_alias by_base has_prefix
no_language_known = (refl, refl)

alias_known :
    (c : Bytes) (b : Bool) (s : Bytes) → IsKnown c → IsKnown s → IsKnown (if b then c else s)
alias_known c true s h k = h
alias_known c false s h k = k

picked-IsKnown :
    (p : Bytes → Bool) (cs : List Bytes) (s : Bytes)
    → all_known cs ≡ true
    → first_language p cs ≡ some s
    → IsKnown s × (p s ≡ true)
unfolding first_language all_known IsKnown
picked-IsKnown p [] s h e = absurd cc
picked-IsKnown p (c ∷ cs) s h e = ground (arith, picked-IsKnown p cs s, bytes_eq→eq (normalize c) c)

by_base-IsKnown : (base : Bytes) → IsKnown (by_base base)
unfolding by_base
by_base-IsKnown base =
    let p : Bytes → Bool = λ c. bytes_eq c base in
    elim (Option-cases (first_language p languages)) [
      | inl e ↦ rw e no_language_known
      | inr (c, e) ↦
          let h = picked-IsKnown p languages c languages_known e in
          rw e (subst IsKnown (bytes_eq→eq c base h.1) h.0)
    ]

by_alias-IsKnown : (lower : Bytes) → IsKnown (by_alias lower)
unfolding by_alias all_known is_one_of normalize by_tag first_language to_lower split lower_char
    dashed
by_alias-IsKnown lower =
    alias_known (codes "zh-Hans") (is_chinese lower) _ (known (codes "zh-Hans") refl refl) (
      alias_known (codes "pnb-Arab") (is_punjabi lower) _ (known (codes "pnb-Arab") refl refl) (
        alias_known (codes "yue-Hant") (is_cantonese lower) _ (known (codes "yue-Hant") refl refl) (
          alias_known (codes "tl") (is_filipino lower) _ (known (codes "tl") refl refl)
            (by_base-IsKnown (split b'-' lower).0))))

by_tag-IsKnown : (tag : Bytes) → IsKnown (by_tag tag)
unfolding by_tag
by_tag-IsKnown tag =
    let p : Bytes → Bool = λ c. bytes_eq (to_lower c) (to_lower tag) in
    elim (Option-cases (first_language p languages)) [
      | inl e ↦ rw (e, by_tag) (by_alias-IsKnown (to_lower tag))
      | inr (c, e) ↦ rw (e, by_tag) (picked-IsKnown p languages c languages_known e).0
    ]

normalize-IsKnown : (value : Bytes) → IsKnown (normalize value)
unfolding normalize
normalize-IsKnown value = by_tag-IsKnown (dashed (split b'@' (split b'.' value).0).0)

-- What the normalization gives, it leaves as it is.
pub normalize_idempotent : (value : Bytes) → normalize (normalize value) ≡ normalize value
unfolding IsKnown
normalize_idempotent value = (normalize-IsKnown value).0

-- It gives a language that the program has, or none.
pub normalize-IsLanguage : (value : Bytes) → IsLanguage (normalize value)
unfolding IsKnown
normalize-IsLanguage value = (normalize-IsKnown value).1
