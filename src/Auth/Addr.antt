-- ===== src/Auth/Addr.antt =====
-- `normalizeAddr` of internal/auth/auth.go, with `net.SplitHostPort` of Go's library as it uses it.
pub mod Ports
use leave_safe.Prelude.{
  ℕ, suc, ◌+◌, Bool, true, false, ◌||◌, Option, none, some, ◌≡◌, refl, [], ◌∷◌, Bytes, codes,
  bytes_eq, ◌==◌, if◌then◌else◌, length, take, drop, get_or,
}

-- `UnknownAddr`.
abbrev pub unknown_addr : Bytes
unknown_addr = codes "local"

-- The first place of a byte, counted from `i`.
pub index_from : ℕ → ℕ → Bytes → Option ℕ
index_from i b [] = none
index_from i b (c ∷ s) = let rest = index_from (suc i) b s in if c == b then some i else rest

-- The last place of a byte, counted from `i`.
pub last_index_from : ℕ → ℕ → Bytes → Option ℕ
last_index_from i b [] = none
last_index_from i b (c ∷ s) = elim (last_index_from (suc i) b s) [
  | some j ↦ some j
  | none ↦ if c == b then some i else none
]

unfoldable pub has_byte : ℕ → Bytes → Bool
has_byte b [] = false
has_byte b (c ∷ s) = c == b || has_byte b s

-- The host of an address in brackets, `[host]:port`, whose last colon is at `i`.
bracketed : Bytes → ℕ → Option Bytes
unfolding index_from has_byte
bracketed s i = elim (index_from 0 b']' s) [
  | none ↦ none
  | some end ↦
      if end + 1 == length s
      then none
      else if end + 1 == i
      then if has_byte b'[' (drop 1 s) || has_byte b']' (drop (end + 1) s)
        then none
        else some (drop 1 (take end s))
      else none
]

-- The host of an address without brackets.
plain : Bytes → ℕ → Option Bytes
unfolding has_byte
plain s i =
    if has_byte b':' (take i s) || (has_byte b'[' s || has_byte b']' s)
    then none
    else some (take i s)

-- `host` of `net.SplitHostPort`, or `none` where it returns an error.
pub split_host : Bytes → Option Bytes
unfolding last_index_from bracketed plain
split_host s = elim (last_index_from 0 b':' s) [
  | none ↦ none
  | some i ↦ if get_or s 0 0 == b'[' then bracketed s i else plain s i
]

unfoldable pub normalize_addr : Bytes → Bytes
unfolding split_host
normalize_addr [] = unknown_addr
normalize_addr (c ∷ s) = elim (split_host (c ∷ s)) [
  | none ↦ c ∷ s
  | some host ↦ if bytes_eq host [] then c ∷ s else host
]

from_lan : normalize_addr (codes "192.168.1.24:51000") ≡ codes "192.168.1.24"
unfolding normalize_addr
from_lan = refl

from_v6 : normalize_addr (codes "[fe80::1]:51000") ≡ codes "fe80::1"
unfolding normalize_addr
from_v6 = refl

bare_v6 : normalize_addr (codes "fe80::1") ≡ codes "fe80::1"
unfolding normalize_addr
bare_v6 = refl
