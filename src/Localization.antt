-- ===== src/Localization.antt =====
-- `Normalize` of internal/localization/localization.go, on texts that are ASCII.
pub mod Known
use leave_safe.Prelude.{
  ℕ, ◌+◌, Bool, true, false, ◌&&◌, ◌||◌, Option, none, some, List, [], ◌∷◌, map, Bytes, codes,
  bytes_eq, leb, ◌==◌, if◌then◌else◌,
}
use leave_safe.Auth.Pin.{split}

-- The codes of `Languages`.
abbrev pub languages : List Bytes
languages = map codes (
    "tr" ∷ "en" ∷ "zh-Hans" ∷ "hi" ∷ "es" ∷ "ar" ∷ "fr" ∷ "bn" ∷ "pt" ∷ "id" ∷ "ur" ∷ "ru" ∷ "de"
    ∷ "ja" ∷ "pcm" ∷ "arz" ∷ "mr" ∷ "vi" ∷ "te" ∷ "sw" ∷ "ha" ∷ "pnb-Arab" ∷ "tl" ∷ "ta"
    ∷ "yue-Hant" ∷ [])

lower_char : ℕ → ℕ
lower_char c = if leb b'A' c && leb c b'Z' then c + 32 else c

-- `strings.ToLower`.
unfoldable pub to_lower : Bytes → Bytes
unfolding lower_char
to_lower s = map lower_char s

-- `strings.HasPrefix`.
unfoldable pub has_prefix : Bytes → Bytes → Bool
has_prefix s [] = true
has_prefix [] (p ∷ ps) = false
has_prefix (c ∷ s) (p ∷ ps) = c == p && has_prefix s ps

-- `strings.ReplaceAll(s, "_", "-")`.
dashed : Bytes → Bytes
dashed s = map (λ c. if c == b'_' then b'-' else c) s

-- The first language that a test picks.
unfoldable pub first_language : (Bytes → Bool) → List Bytes → Option Bytes
first_language p [] = none
first_language p (c ∷ cs) = if p c then some c else first_language p cs

unfoldable pub by_base : Bytes → Bytes
unfolding first_language split
by_base base = elim (first_language (λ c. bytes_eq c base) languages) [ none ↦ [] | some c ↦ base ]

is_chinese : Bytes → Bool
unfolding has_prefix
is_chinese lower =
    bytes_eq lower (codes "zh")
    || (bytes_eq lower (codes "zh-cn")
        || (bytes_eq lower (codes "zh-sg") || has_prefix lower (codes "zh-hans-")))

is_punjabi : Bytes → Bool
unfolding has_prefix
is_punjabi lower =
    bytes_eq lower (codes "pnb")
    || (bytes_eq lower (codes "pa-arab")
        || (has_prefix lower (codes "pa-arab-") || has_prefix lower (codes "pnb-")))

is_cantonese : Bytes → Bool
unfolding has_prefix
is_cantonese lower = bytes_eq lower (codes "yue") || has_prefix lower (codes "yue-")

is_filipino : Bytes → Bool
unfolding has_prefix
is_filipino lower = bytes_eq lower (codes "fil") || has_prefix lower (codes "fil-")

-- The `switch` on the lower-case tag, and what follows it.
unfoldable pub by_alias : Bytes → Bytes
unfolding by_base split is_chinese is_punjabi is_cantonese is_filipino
by_alias lower =
    if is_chinese lower
    then codes "zh-Hans"
    else if is_punjabi lower
    then codes "pnb-Arab"
    else if is_cantonese lower
    then codes "yue-Hant"
    else if is_filipino lower
    then codes "tl"
    else by_base (split b'-' lower).0

unfoldable pub by_tag : Bytes → Bytes
unfolding first_language to_lower by_alias
by_tag tag = elim (first_language (λ c. bytes_eq (to_lower c) (to_lower tag)) languages) [
  | some c ↦ c
  | none ↦ by_alias (to_lower tag)
]

-- `Normalize`.
unfoldable pub normalize : Bytes → Bytes
unfolding by_tag split dashed
normalize value = by_tag (dashed (split b'@' (split b'.' value).0).0)
