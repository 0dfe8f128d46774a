-- ===== src/Config/Validate.antt =====
-- `Validate` of internal/config/config.go, with each adjustment as a value in place of its text.
-- `url.Parse` is a parameter: the scheme and the host that it reads, none where it fails.
use leave_safe.Prelude.{
  ℕ, zero, suc, ◌*◌, Bool, false, ◌&&◌, ◌||◌, not, Option, none, some, List, [], ◌∷◌, ◌++◌, Bytes,
  codes, bytes_eq, ltb, if◌then◌else◌,
}
use leave_safe.Auth.Policy.{ℤ, pos, negsuc}
use leave_safe.Localization.{normalize}
use leave_safe.Config.{AlarmLevel, Config, default_update_check_hours}

pub data Setting : Type 0 where
  port : Setting
  max_sessions : Setting
  max_auth_attempts : Setting
  lockout_seconds : Setting
  heartbeat_seconds : Setting
  disconnect_grace_seconds : Setting
  input_threshold : Setting
  session_ttl_minutes : Setting
  session_idle_minutes : Setting
  poll_seconds : Setting
  update_check_hours : Setting
  delay_seconds : ℕ → Setting
  volume_percent : ℕ → Setting

-- A note of `adjustments`: what the setting was, the bound that it broke and what it is now.
pub data Note : Type 0 where
  below_minimum : Setting → ℤ → ℕ → ℕ → Note
  above_maximum : Setting → ℤ → ℕ → Note
  insecure_geolocate_url : Bytes → Note
  insecure_ip_lookup_url : Bytes → Note
  unsupported_language : Bytes → Note
  unknown_channel : Bytes → Note

-- `clampInt`. The bounds that it is called with are none of them negative.
unfoldable pub clamp_int : Setting → ℕ → ℕ → ℕ → ℤ → ℤ × List Note
clamp_int name minimum maximum fallback (negsuc n) =
    (pos fallback, below_minimum name (negsuc n) minimum fallback ∷ [])
clamp_int name minimum maximum fallback (pos n) =
    if ltb n minimum
    then (pos fallback, below_minimum name (pos n) minimum fallback ∷ [])
    else if ltb 0 maximum && ltb maximum n
    then (pos maximum, above_maximum name (pos n) maximum ∷ [])
    else (pos n, [])

-- The settings that are clamped only when they are not zero.
unfoldable pub clamp_nonzero : Setting → ℕ → ℕ → ℕ → ℤ → ℤ × List Note
unfolding clamp_int
clamp_nonzero name minimum maximum fallback (pos zero) = (pos 0, [])
clamp_nonzero name minimum maximum fallback (pos (suc n)) =
    clamp_int name minimum maximum fallback (pos (suc n))
clamp_nonzero name minimum maximum fallback (negsuc n) =
    clamp_int name minimum maximum fallback (negsuc n)

-- `clampNumbers`.
unfoldable pub clamp_numbers : Config → Config × List Note
unfolding clamp_int clamp_nonzero
clamp_numbers c =
    let (v1, n1) = clamp_int port 0 65_535 0 c.port in
    let (v2, n2) = clamp_int max_sessions 1 100 3 c.max_sessions in
    let (v3, n3) = clamp_int max_auth_attempts 1 1000 5 c.max_auth_attempts in
    let (v4, n4) = clamp_int lockout_seconds 1 3600 60 c.lockout_seconds in
    let (v5, n5) = clamp_int heartbeat_seconds 1 3600 15 c.heartbeat_seconds in
    let (v6, n6) = clamp_int disconnect_grace_seconds 0 3600 30 c.disconnect_grace_seconds in
    let (v7, n7) = clamp_int input_threshold 1 10_000 1 c.input_threshold in
    let (v8, n8) = clamp_int session_ttl_minutes 0 (60 * 24 * 30) 0 c.session_ttl_minutes in
    let (v9, n9) = clamp_int session_idle_minutes 0 (60 * 24 * 30) 0 c.session_idle_minutes in
    let (v10, n10) = clamp_nonzero poll_seconds 15 86_400 60 c.location.poll_seconds in
    let (v11, n11) =
      clamp_nonzero update_check_hours 6 (24 * 7) default_update_check_hours c.update_check_hours in
    (
      record c {
        port = v1;
        max_sessions = v2;
        max_auth_attempts = v3;
        lockout_seconds = v4;
        heartbeat_seconds = v5;
        disconnect_grace_seconds = v6;
        input_threshold = v7;
        session_ttl_minutes = v8;
        session_idle_minutes = v9;
        location = record c.location { poll_seconds = v10 };
        update_check_hours = v11;
      },
      n1 ++ n2 ++ n3 ++ n4 ++ n5 ++ n6 ++ n7 ++ n8 ++ n9 ++ n10 ++ n11,
    )

-- `clampAlarmLevels`, from the level numbered `i` on.
unfoldable pub clamp_levels : ℕ → List AlarmLevel → List AlarmLevel × List Note
unfolding clamp_int clamp_nonzero
clamp_levels i [] = ([], [])
clamp_levels i (l ∷ ls) =
    let (delay, n1) = clamp_int (delay_seconds i) 0 86_400 0 l.delay_seconds in
    let (volume, n2) = clamp_nonzero (volume_percent i) 1 100 100 l.volume_percent in
    let (rest, n3) = clamp_levels (suc i) ls in
    (record l { delay_seconds = delay; volume_percent = volume } ∷ rest, n1 ++ n2 ++ n3)

unfoldable pub clamp_alarm_levels : Config → Config × List Note
unfolding clamp_levels
clamp_alarm_levels c =
    let (levels, notes) = clamp_levels 0 c.alarm.levels in
    (record c { alarm = record c.alarm { levels = levels } }, notes)

-- The language of `correctUnknownChoices`.
unfoldable pub correct_language : Bytes → Bytes × List Note
correct_language language = if bytes_eq language [] then (language, []) else (
  normalize language,
  if bytes_eq (normalize language) [] then unsupported_language language ∷ [] else [],
)

-- Its channel.
unfoldable pub correct_channel : Bytes → Bytes × List Note
correct_channel channel =
    if bytes_eq channel [] || (bytes_eq channel (codes "stable") || bytes_eq channel (codes "beta"))
    then (channel, [])
    else (codes "stable", unknown_channel channel ∷ [])

unfoldable pub correct_unknown_choices : Config → Config × List Note
unfolding correct_language correct_channel
correct_unknown_choices c =
    let (language, n1) = correct_language c.language in
    let (channel, n2) = correct_channel c.update_channel in
    (record c { language = language; update_channel = channel }, n1 ++ n2)

-- The next rule, on what the rules before it left and noted.
unfoldable pub and_then : (Config → Config × List Note) → Config × List Note → Config × List Note
and_then rule (c, notes) = let (c', more) = rule c in (c', notes ++ more)

module _ (parse_url : Bytes → Option (Bytes × Bytes)) where
  -- `isHTTPS`.
  unfoldable pub is_https : Bytes → Bool
  is_https raw = elim (parse_url raw) [
    | none ↦ false
    | some (scheme, host) ↦ bytes_eq scheme (codes "https") && not (bytes_eq host [])
  ]

  -- One of the two endpoints: the empty text stands for the default.
  unfoldable pub drop_insecure : (Bytes → Note) → Bytes → Bytes × List Note
  unfolding is_https
  drop_insecure note url =
      if not (bytes_eq url []) && not (is_https url) then ([], note url ∷ []) else (url, [])

  -- `dropInsecureURLs`.
  unfoldable pub drop_insecure_urls : Config → Config × List Note
  unfolding drop_insecure
  drop_insecure_urls c =
      let (geolocate, n1) = drop_insecure insecure_geolocate_url c.location.geolocate_url in
      let (lookup, n2) = drop_insecure insecure_ip_lookup_url c.location.ip_lookup_url in
      (
        record c {
          location = record c.location { geolocate_url = geolocate; ip_lookup_url = lookup };
        },
        n1 ++ n2,
      )

  -- `Validate`.
  unfoldable pub validate : Config → Config × List Note
  unfolding and_then clamp_numbers drop_insecure_urls correct_unknown_choices clamp_alarm_levels
  validate c =
      and_then clamp_alarm_levels
        (and_then correct_unknown_choices (and_then drop_insecure_urls (clamp_numbers c)))
