-- ===== src/Config/Ranges.antt =====
-- What `Validate` makes true of every configuration, and that it finds nothing to do again.
use leave_safe.Prelude.{
  ℕ, zero, suc, ◌≤◌, ◌<◌, true, false, Bool, ◌&&◌, not, ap, Option, none, some, ◌≡◌, ◌⊎◌, inl, inr,
  refl, List, [], ◌∷◌, Bytes, codes, bytes_eq, bytes_eq→eq, arith, All, Bool-cases, ltb,
}
use leave_safe.Auth.Policy.{ℤ, pos, negsuc}
use leave_safe.Localization.{normalize}
use leave_safe.Localization.Known.{
  IsLanguage, none-IsLanguage, normalize-IsLanguage, normalize_idempotent,
}
use leave_safe.Config.{AlarmLevel, Config}
use leave_safe.Config.Validate.{
  Setting, Note, clamp_int, clamp_nonzero, clamp_levels, correct_language, correct_channel,
  is_https, drop_insecure, delay_seconds, volume_percent,
}

-- A number between two bounds, and so not negative.
abbrev pub Within : ℕ → ℕ → ℤ → Type 0
Within lo hi (pos n) = (lo ≤ n) × (n ≤ hi)
Within lo hi (negsuc n) = 1 ≤ 0

-- The same, or 0.
abbrev pub WithinOrZero : ℕ → ℕ → ℤ → Type 0
WithinOrZero lo hi (pos zero) = Unit
WithinOrZero lo hi (pos (suc n)) = Within lo hi (pos (suc n))
WithinOrZero lo hi (negsuc n) = Within lo hi (negsuc n)

module _ (name : Setting) (lo hi fallback : ℕ) (h : lo ≤ fallback) (k : fallback ≤ hi)
    (p : 0 < hi) where
  pub clamp_int-Within : (z : ℤ) → Within lo hi (clamp_int name lo hi fallback z).0
  unfolding clamp_int
  clamp_int-Within (negsuc n) = (h, k)
  clamp_int-Within (pos n) = elim (Bool-cases (ltb n lo)) [
    | inl e ↦ rw e (h, k)
    | inr e ↦ elim (Bool-cases (ltb hi n)) [ inl f ↦ ground arith | inr f ↦ ground arith ]
  ]

  pub clamp_int_settled : (z : ℤ) → Within lo hi z → clamp_int name lo hi fallback z ≡ (z, [])
  unfolding clamp_int
  clamp_int_settled (pos n) w = ground arith
  clamp_int_settled (negsuc n) w = absurd (omega (arith, w))

  or_zero : (z : ℤ) → Within lo hi z → WithinOrZero lo hi z
  or_zero (pos zero) w = tt
  or_zero (pos (suc n)) w = w
  or_zero (negsuc n) w = w

  pub clamp_nonzero-WithinOrZero :
      (z : ℤ) → WithinOrZero lo hi (clamp_nonzero name lo hi fallback z).0
  unfolding clamp_nonzero
  clamp_nonzero-WithinOrZero (pos zero) = tt
  clamp_nonzero-WithinOrZero (pos (suc n)) =
      or_zero (clamp_int name lo hi fallback (pos (suc n))).0 (clamp_int-Within (pos (suc n)))
  clamp_nonzero-WithinOrZero (negsuc n) = or_zero (pos fallback) (h, k)

  pub clamp_nonzero_settled :
      (z : ℤ) → WithinOrZero lo hi z → clamp_nonzero name lo hi fallback z ≡ (z, [])
  unfolding clamp_nonzero
  clamp_nonzero_settled (pos zero) w = refl
  clamp_nonzero_settled (pos (suc n)) w = clamp_int_settled (pos (suc n)) w
  clamp_nonzero_settled (negsuc n) w = clamp_int_settled (negsuc n) w

-- What the alarm can act on: a delay of at most a day, and a volume in percent or none.
pub IsLevel : AlarmLevel → Type 0
IsLevel l = Within 0 86_400 l.delay_seconds × WithinOrZero 1 100 l.volume_percent

-- An endpoint is the default one or read as https with a host that is not empty.
pub IsSecure : (Bytes → Option (Bytes × Bytes)) → Bytes → Type 0
IsSecure parse_url url =
    (url ≡ [])
    ⊎ ((host : Bytes) × (parse_url url ≡ some (codes "https", host)) × (bytes_eq host [] ≡ false))

pub IsChannel : Bytes → Type 0
IsChannel channel = (channel ≡ []) ⊎ ((channel ≡ codes "stable") ⊎ (channel ≡ codes "beta"))

-- The settings that the program can run with.
pub record IsValid (parse_url : Bytes → Option (Bytes × Bytes)) (c : Config) : Type 0 where
  pub a_port : Within 0 65_535 c.port
  pub some_sessions : Within 1 100 c.max_sessions
  pub some_attempts : Within 1 1000 c.max_auth_attempts
  pub a_lockout : Within 1 3600 c.lockout_seconds
  pub a_heartbeat : Within 1 3600 c.heartbeat_seconds
  pub a_grace : Within 0 3600 c.disconnect_grace_seconds
  pub a_threshold : Within 1 10_000 c.input_threshold
  pub a_ttl : Within 0 43_200 c.session_ttl_minutes
  pub an_idle : Within 0 43_200 c.session_idle_minutes
  pub a_poll : WithinOrZero 15 86_400 c.location.poll_seconds
  pub some_hours : WithinOrZero 6 168 c.update_check_hours
  pub all_levels : All IsLevel c.alarm.levels
  pub secure_geolocate : IsSecure parse_url c.location.geolocate_url
  pub secure_lookup : IsSecure parse_url c.location.ip_lookup_url
  pub a_language : IsLanguage c.language
  pub a_normal_language : normalize c.language ≡ c.language
  pub a_channel : IsChannel c.update_channel

pub clamp_levels-IsLevel : (i : ℕ) (ls : List AlarmLevel) → All IsLevel (clamp_levels i ls).0
unfolding clamp_levels IsLevel
clamp_levels-IsLevel i [] = tt
clamp_levels-IsLevel i (l ∷ ls) = (
  (
    clamp_int-Within (delay_seconds i) 0 86_400 0 (omega arith) (omega arith) (omega arith)
        l.delay_seconds,
    clamp_nonzero-WithinOrZero (volume_percent i) 1 100 100 (omega arith) (omega arith)
        (omega arith) l.volume_percent,
  ),
  clamp_levels-IsLevel (suc i) ls,
)

pub clamp_levels_settled :
    (i : ℕ) (ls : List AlarmLevel) → All IsLevel ls → clamp_levels i ls ≡ (ls, [])
unfolding clamp_levels IsLevel
clamp_levels_settled i [] a = refl
clamp_levels_settled i (l ∷ ls) a =
    rw
      (
        clamp_int_settled (delay_seconds i) 0 86_400 0 (omega arith) (omega arith) (omega arith)
            l.delay_seconds a.0.0,
        clamp_nonzero_settled (volume_percent i) 1 100 100 (omega arith) (omega arith) (omega arith)
            l.volume_percent a.0.1,
        clamp_levels_settled (suc i) ls a.1,
      )
      refl

pub correct_language-normal :
    (s : Bytes) → normalize (correct_language s).0 ≡ (correct_language s).0
unfolding correct_language normalize
correct_language-normal s = elim (Bool-cases (bytes_eq s [])) [
  | inl e ↦ rw (bytes_eq→eq s [] e) refl
  | inr e ↦ rw e (normalize_idempotent s)
]

pub correct_language-IsLanguage : (s : Bytes) → IsLanguage (correct_language s).0
unfolding correct_language normalize
correct_language-IsLanguage s = elim (Bool-cases (bytes_eq s [])) [
  | inl e ↦ rw (bytes_eq→eq s [] e) none-IsLanguage
  | inr e ↦ rw e (normalize-IsLanguage s)
]

pub correct_language_settled : (s : Bytes) → normalize s ≡ s → correct_language s ≡ (s, [])
unfolding correct_language
correct_language_settled s h = ground (arith, h)

pub correct_channel-IsChannel : (s : Bytes) → IsChannel (correct_channel s).0
unfolding correct_channel IsChannel
correct_channel-IsChannel s =
    ground (arith, bytes_eq→eq s [], bytes_eq→eq s (codes "stable"), bytes_eq→eq s (codes "beta"))

pub correct_channel_settled : (s : Bytes) → IsChannel s → correct_channel s ≡ (s, [])
unfolding correct_channel IsChannel
correct_channel_settled s (inl e) = rw e refl
correct_channel_settled s (inr (inl e)) = rw e refl
correct_channel_settled s (inr (inr e)) = rw e refl

both_so : (a b : Bool) → (a && not b) ≡ true → (a ≡ true) × (b ≡ false)
both_so a b h = ground arith

https_parts :
    (o : Option (Bytes × Bytes))
    → elim o [
      | none ↦ false
      | some (scheme, host) ↦ bytes_eq scheme (codes "https") && not (bytes_eq host [])
    ]
      ≡ true
    → (host : Bytes) × (o ≡ some (codes "https", host)) × (bytes_eq host [] ≡ false)
https_parts none h = absurd cc
https_parts (some (scheme, host)) h =
    let (e, f) = both_so (bytes_eq scheme (codes "https")) (bytes_eq host []) h in
    (host, ap (λ x. some (x, host)) (bytes_eq→eq scheme (codes "https") e), f)

module _ (parse_url : Bytes → Option (Bytes × Bytes)) where
  read_https :
      (s : Bytes)
      → is_https parse_url s ≡ true
      → (host : Bytes) × (parse_url s ≡ some (codes "https", host)) × (bytes_eq host [] ≡ false)
  unfolding is_https
  read_https s h = https_parts (parse_url s) h

  https_read :
      (s host : Bytes)
      → parse_url s ≡ some (codes "https", host)
      → bytes_eq host [] ≡ false
      → is_https parse_url s ≡ true
  unfolding is_https
  https_read s host e f = rw (e, is_https) (rw f refl)

  pub drop_insecure-IsSecure :
      (note : Bytes → Note) (s : Bytes) → IsSecure parse_url (drop_insecure parse_url note s).0
  unfolding drop_insecure IsSecure
  drop_insecure-IsSecure note s = elim (Bool-cases (bytes_eq s [])) [
    | inl e ↦ rw e (inl (bytes_eq→eq s [] e))
    | inr e ↦ elim (Bool-cases (is_https parse_url s)) [
      | inl y ↦ rw (e, y) (inr (read_https s y))
      | inr n ↦ rw (e, n) (inl refl)
    ]
  ]

  pub drop_insecure_settled :
      (note : Bytes → Note) (s : Bytes)
      → IsSecure parse_url s
      → drop_insecure parse_url note s ≡ (s, [])
  unfolding drop_insecure IsSecure
  drop_insecure_settled note s (inl e) = rw e refl
  drop_insecure_settled note s (inr (host, read, some_host)) =
      let secure = https_read s host read some_host in ground (arith, secure)
