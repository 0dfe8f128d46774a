-- ===== src/Update.antt =====
-- internal/update/update.go: which release is offered to a copy of the program. What the releases
-- endpoint answers is an argument, none where it fails, and so is `url.Parse`. Text is ASCII.
pub mod Order
pub mod Newest
mod Examples
use leave_safe.Prelude.{
  ℕ, zero, suc, ◌-◌, Bool, true, false, ◌&&◌, ◌||◌, not, Option, none, some, List, [], ◌∷◌, Bytes,
  codes, bytes_eq, leb, ◌==◌, if◌then◌else◌,
}
use leave_safe.Auth.Policy.{ℤ, pos, negsuc}
use leave_safe.Auth.Pin.{split, atoi}
use leave_safe.Localization.{to_lower}

pub record Release : Type 0 where
  pub tag_name : Bytes
  pub html_url : Bytes
  pub draft : Bool
  pub prerelease : Bool

pub record Result : Type 0 where
  pub available : Bool
  pub latest : Bytes
  pub url : Bytes

abbrev pub channel_stable : Bytes
channel_stable = codes "stable"

abbrev pub channel_beta : Bytes
channel_beta = codes "beta"

abbrev pub releases_page_url : Bytes
releases_page_url = codes "https://github.com/atakankizilyuce/LeaveSafe/releases/latest"

is_space : ℕ → Bool
is_space c = c == 32 || (leb 9 c && leb c 13)

trim_left : Bytes → Bytes
unfolding is_space
trim_left [] = []
trim_left (c ∷ s) = let rest = trim_left s in if is_space c then rest else c ∷ s

trim_right : Bytes → Bytes
unfolding is_space
trim_right [] = []
trim_right (c ∷ s) =
    let rest = trim_right s in if is_space c && bytes_eq rest [] then [] else c ∷ rest

-- `strings.TrimSpace`.
trim_space : Bytes → Bytes
unfolding trim_left trim_right
trim_space s = trim_right (trim_left s)

-- `strings.TrimPrefix(v, "v")`.
trim_v : Bytes → Bytes
trim_v [] = []
trim_v (c ∷ s) = if c == b'v' then s else c ∷ s

-- `IsRelease`.
unfoldable pub is_release : Bytes → Bool
unfolding trim_space trim_v split atoi
is_release v =
    let bare = trim_v (trim_space v) in
    if bytes_eq bare [] || bytes_eq bare (codes "dev")
    then false
    else elim (atoi (split b'.' bare).0) [ none ↦ false | some n ↦ true ]

-- `NormalizeChannel`.
pub normalize_channel : Bytes → Bytes
unfolding to_lower trim_space
normalize_channel c =
    if bytes_eq (to_lower (trim_space c)) channel_beta then channel_beta else channel_stable

begins_suffix : ℕ → Bool
begins_suffix c = c == b'-' || c == b'+'

any_suffix : Bytes → Bool
unfolding begins_suffix
any_suffix [] = false
any_suffix (c ∷ s) = begins_suffix c || any_suffix s

-- `hasPrerelease`.
unfoldable pub has_prerelease : Bytes → Bool
unfolding any_suffix trim_v trim_space
has_prerelease v = any_suffix (trim_v (trim_space v))

cut_suffix : Bytes → Bytes
unfolding begins_suffix
cut_suffix [] = []
cut_suffix (c ∷ s) = let rest = cut_suffix s in if begins_suffix c then [] else c ∷ rest

-- A part that is a number. No part holds a sign, since the text ends before the first.
part_number : Bytes → Option ℕ
unfolding atoi
part_number f = elim (atoi f) [ none ↦ none | some z ↦ elim z [ pos n ↦ some n | negsuc n ↦ none ] ]

-- The loop of `versionParts`, which stops at the first part that is no number.
leading_numbers : List Bytes → List ℕ
unfolding part_number
leading_numbers [] = []
leading_numbers (f ∷ fs) =
    let rest = leading_numbers fs in elim (part_number f) [ none ↦ [] | some n ↦ n ∷ rest ]

-- `versionParts`.
unfoldable pub version_parts : Bytes → List ℕ
unfolding split cut_suffix trim_v trim_space leading_numbers
version_parts v =
    let (part, parts) = split b'.' (cut_suffix (trim_v (trim_space v))) in
    leading_numbers (part ∷ parts)

unfoldable pub int_sub : ℕ → ℕ → ℤ
int_sub x y = if leb y x then pos (x - y) else negsuc (y - x - 1)

-- The loop of `compareVersions`: a part that is missing counts as 0.
unfoldable pub first_difference : List ℕ → List ℕ → Option ℤ
unfolding int_sub
first_difference [] [] = none
first_difference [] (y ∷ ys) =
    let rest = first_difference [] ys in if 0 == y then rest else some (int_sub 0 y)
first_difference (x ∷ xs) [] =
    let rest = first_difference xs [] in if x == 0 then rest else some (int_sub x 0)
first_difference (x ∷ xs) (y ∷ ys) =
    let rest = first_difference xs ys in if x == y then rest else some (int_sub x y)

unfoldable pub by_suffix : Bool → Bool → ℤ
by_suffix a b = if a && not b then negsuc 0 else if not a && b then pos 1 else pos 0

unfoldable pub or_else : Option ℤ → ℤ → ℤ
or_else none z = z
or_else (some d) z = d

-- `compareVersions`.
unfoldable pub compare_versions : Bytes → Bytes → ℤ
unfolding first_difference version_parts by_suffix has_prerelease or_else
compare_versions a b =
    or_else (first_difference (version_parts a) (version_parts b))
      (by_suffix (has_prerelease a) (has_prerelease b))

unfoldable pub is_positive : ℤ → Bool
is_positive (pos zero) = false
is_positive (pos (suc n)) = true
is_positive (negsuc n) = false

-- Whether `compareVersions` is above 0.
unfoldable pub sorts_after : Bytes → Bytes → Bool
unfolding compare_versions is_positive
sorts_after a b = is_positive (compare_versions a b)

-- `IsNewer`.
pub is_newer : Bytes → Bytes → Bool
unfolding is_release sorts_after
is_newer latest current = is_release latest && is_release current && sorts_after latest current

is_digit : ℕ → Bool
is_digit c = leb b'0' c && leb c b'9'

skip_digits : Bytes → Bytes
unfolding is_digit
skip_digits [] = []
skip_digits (c ∷ s) = let rest = skip_digits s in if is_digit c then rest else c ∷ s

-- What stands behind one digit or more.
behind_digits : Bytes → Option Bytes
unfolding is_digit skip_digits
behind_digits [] = none
behind_digits (c ∷ s) = if is_digit c then some (skip_digits s) else none

all_suffix_chars : Bytes → Bool
unfolding is_digit
all_suffix_chars [] = true
all_suffix_chars (c ∷ s) =
    (is_digit c
      || (leb b'A' c && leb c b'Z')
      || (leb b'a' c && leb c b'z')
      || c == b'.'
      || c == b'-')
    && all_suffix_chars s

-- `(-[0-9A-Za-z.-]+)?$`.
ends_tag : Bytes → Bool
unfolding all_suffix_chars
ends_tag [] = true
ends_tag (c ∷ s) = c == b'-' && not (bytes_eq s []) && all_suffix_chars s

-- At most so many further parts, and the end.
parts_of_tag : ℕ → Bytes → Bool
unfolding behind_digits ends_tag
parts_of_tag zero s = ends_tag s
parts_of_tag (suc n) [] = true
parts_of_tag (suc n) (c ∷ s) =
    if c == b'.'
    then elim (behind_digits s) [ none ↦ false | some rest ↦ parts_of_tag n rest ]
    else ends_tag (c ∷ s)

-- `tagPattern`.
tag_pattern : Bytes → Bool
unfolding trim_v behind_digits parts_of_tag
tag_pattern s = elim (behind_digits (trim_v s)) [ none ↦ false | some rest ↦ parts_of_tag 3 rest ]

-- `eligible`, of a checker on a channel.
unfoldable pub eligible : Bytes → Release → Bool
unfolding tag_pattern
eligible channel rel =
    if rel.draft || bytes_eq rel.tag_name []
    then false
    else if rel.prerelease && not (bytes_eq channel channel_beta)
    then false
    else tag_pattern rel.tag_name

unfoldable pub is_better : Release → Option Release → Bool
unfolding sorts_after
is_better rel none = true
is_better rel (some best) = sorts_after rel.tag_name best.tag_name

-- The loop of `Check`.
unfoldable pub best_release : Bytes → List Release → Option Release → Option Release
unfolding eligible is_better
best_release channel [] best = best
best_release channel (rel ∷ rels) best =
    best_release channel rels
      (if eligible channel rel && is_better rel best then some rel else best)

module _ (parse_url : Bytes → Option (Bytes × Bytes)) where
  -- `releaseURL`; a URL is its scheme and its host.
  unfoldable pub release_url : Bytes → Bytes
  release_url raw = if bytes_eq raw [] then releases_page_url else elim (parse_url raw) [
    | none ↦ releases_page_url
    | some u ↦
        if bytes_eq u.0 (codes "https") && bytes_eq u.1 (codes "github.com")
        then raw
        else releases_page_url
  ]

  -- What `Check` makes of the best release.
  unfoldable pub offer : Bytes → Option Release → Result
  unfolding release_url sorts_after
  offer current none = record { available = false; latest = []; url = [] }
  offer current (some best) =
      if sorts_after best.tag_name current
      then record { available = true; latest = best.tag_name; url = release_url best.html_url }
      else record { available = false; latest = []; url = [] }

  -- `Check`, none where it returns an error.
  unfoldable pub check : Bytes → Bytes → Option (List Release) → Option Result
  unfolding offer best_release is_release
  check channel current fetched =
      if not (is_release current) then some (offer current none) else elim fetched [
        | none ↦ none
        | some rels ↦ some (offer current (best_release channel rels none))
      ]
