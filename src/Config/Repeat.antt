-- ===== src/Config/Repeat.antt =====
-- `Validate` as a whole: what it leaves is in range, and in what is in range it changes nothing.
use leave_safe.Prelude.{Option, List, ◌≡◌, refl, [], Bytes, arith}
use leave_safe.Config.{Config}
use leave_safe.Config.Validate.{
  clamp_numbers, drop_insecure_urls, correct_unknown_choices, clamp_alarm_levels, validate,
  and_then, Note, insecure_geolocate_url, insecure_ip_lookup_url, poll_seconds, update_check_hours,
  port, max_sessions, max_auth_attempts, lockout_seconds, heartbeat_seconds,
  disconnect_grace_seconds, input_threshold, session_ttl_minutes, session_idle_minutes,
}
use leave_safe.Config.Ranges.{
  IsValid, clamp_int-Within, clamp_int_settled, clamp_nonzero-WithinOrZero, clamp_nonzero_settled,
  clamp_levels-IsLevel, clamp_levels_settled, correct_language-IsLanguage, correct_language-normal,
  correct_language_settled, correct_channel-IsChannel, correct_channel_settled,
  drop_insecure-IsSecure, drop_insecure_settled,
}

module _ (parse_url : Bytes → Option (Bytes × Bytes)) where
  -- Whatever the settings were, after Validate every number lies in its range, every step of the
  -- alarm as well, both endpoints are the default or parsed as https with a host that is not empty,
  -- the language is one of those that the program has or none, and the channel is none, stable or
  -- beta.
  pub validate-IsValid : (c : Config) → IsValid parse_url (validate parse_url c).0
  unfolding validate and_then clamp_numbers drop_insecure_urls correct_unknown_choices
      clamp_alarm_levels
  validate-IsValid c = record {
    a_port = clamp_int-Within port 0 65_535 0 (omega arith) (omega arith) (omega arith) c.port;
    some_sessions =
        clamp_int-Within max_sessions 1 100 3 (omega arith) (omega arith) (omega arith)
          c.max_sessions;
    some_attempts =
        clamp_int-Within max_auth_attempts 1 1000 5 (omega arith) (omega arith) (omega arith)
          c.max_auth_attempts;
    a_lockout =
        clamp_int-Within lockout_seconds 1 3600 60 (omega arith) (omega arith) (omega arith)
          c.lockout_seconds;
    a_heartbeat =
        clamp_int-Within heartbeat_seconds 1 3600 15 (omega arith) (omega arith) (omega arith)
          c.heartbeat_seconds;
    a_grace =
        clamp_int-Within disconnect_grace_seconds 0 3600 30 (omega arith) (omega arith)
          (omega arith) c.disconnect_grace_seconds;
    a_threshold =
        clamp_int-Within input_threshold 1 10_000 1 (omega arith) (omega arith) (omega arith)
          c.input_threshold;
    a_ttl =
        clamp_int-Within session_ttl_minutes 0 43_200 0 (omega arith) (omega arith) (omega arith)
          c.session_ttl_minutes;
    an_idle =
        clamp_int-Within session_idle_minutes 0 43_200 0 (omega arith) (omega arith) (omega arith)
          c.session_idle_minutes;
    a_poll =
        clamp_nonzero-WithinOrZero poll_seconds 15 86_400 60 (omega arith) (omega arith)
          (omega arith) c.location.poll_seconds;
    some_hours =
        clamp_nonzero-WithinOrZero update_check_hours 6 168 24 (omega arith) (omega arith)
          (omega arith) c.update_check_hours;
    all_levels = clamp_levels-IsLevel 0 c.alarm.levels;
    secure_geolocate =
        drop_insecure-IsSecure parse_url insecure_geolocate_url c.location.geolocate_url;
    secure_lookup =
        drop_insecure-IsSecure parse_url insecure_ip_lookup_url c.location.ip_lookup_url;
    a_language = correct_language-IsLanguage c.language;
    a_normal_language = correct_language-normal c.language;
    a_channel = correct_channel-IsChannel c.update_channel;
  }

  clamp_numbers_settled : (c : Config) → IsValid parse_url c → clamp_numbers c ≡ (c, [])
  unfolding clamp_numbers
  clamp_numbers_settled c v =
      rw
        (
          clamp_int_settled port 0 65_535 0 (omega arith) (omega arith) (omega arith) c.port
              v.a_port,
          clamp_int_settled max_sessions 1 100 3 (omega arith) (omega arith) (omega arith)
              c.max_sessions v.some_sessions,
          clamp_int_settled max_auth_attempts 1 1000 5 (omega arith) (omega arith) (omega arith)
              c.max_auth_attempts v.some_attempts,
          clamp_int_settled lockout_seconds 1 3600 60 (omega arith) (omega arith) (omega arith)
              c.lockout_seconds v.a_lockout,
          clamp_int_settled heartbeat_seconds 1 3600 15 (omega arith) (omega arith) (omega arith)
              c.heartbeat_seconds v.a_heartbeat,
          clamp_int_settled disconnect_grace_seconds 0 3600 30 (omega arith) (omega arith)
              (omega arith) c.disconnect_grace_seconds v.a_grace,
          clamp_int_settled input_threshold 1 10_000 1 (omega arith) (omega arith) (omega arith)
              c.input_threshold v.a_threshold,
          clamp_int_settled session_ttl_minutes 0 43_200 0 (omega arith) (omega arith) (omega arith)
              c.session_ttl_minutes v.a_ttl,
          clamp_int_settled session_idle_minutes 0 43_200 0 (omega arith) (omega arith)
              (omega arith) c.session_idle_minutes v.an_idle,
          clamp_nonzero_settled poll_seconds 15 86_400 60 (omega arith) (omega arith) (omega arith)
              c.location.poll_seconds v.a_poll,
          clamp_nonzero_settled update_check_hours 6 168 24 (omega arith) (omega arith)
              (omega arith) c.update_check_hours v.some_hours,
        )
        refl

  drop_insecure_urls_settled :
      (c : Config) → IsValid parse_url c → drop_insecure_urls parse_url c ≡ (c, [])
  unfolding drop_insecure_urls
  drop_insecure_urls_settled c v =
      rw
        (
          drop_insecure_settled parse_url insecure_geolocate_url c.location.geolocate_url
              v.secure_geolocate,
          drop_insecure_settled parse_url insecure_ip_lookup_url c.location.ip_lookup_url
              v.secure_lookup,
        )
        refl

  correct_unknown_choices_settled :
      (c : Config) → IsValid parse_url c → correct_unknown_choices c ≡ (c, [])
  unfolding correct_unknown_choices
  correct_unknown_choices_settled c v =
      rw
        (
          correct_language_settled c.language v.a_normal_language,
          correct_channel_settled c.update_channel v.a_channel,
        )
        refl

  clamp_alarm_levels_settled : (c : Config) → IsValid parse_url c → clamp_alarm_levels c ≡ (c, [])
  unfolding clamp_alarm_levels
  clamp_alarm_levels_settled c v = rw (clamp_levels_settled 0 c.alarm.levels v.all_levels) refl

  and_then_settled :
      (rule : Config → Config × List Note) (c : Config) (p : Config × List Note)
      → p ≡ (c, [])
      → rule c ≡ (c, [])
      → and_then rule p ≡ (c, [])
  unfolding and_then
  and_then_settled rule c p e f = rw (e, f) refl

  -- Settings that are in range are left as they are, and no adjustment is reported.
  pub validate_settled : (c : Config) → IsValid parse_url c → validate parse_url c ≡ (c, [])
  unfolding validate
  validate_settled c v =
      and_then_settled clamp_alarm_levels c _
        (and_then_settled correct_unknown_choices c _
          (and_then_settled (drop_insecure_urls parse_url) c _ (clamp_numbers_settled c v)
            (drop_insecure_urls_settled c v))
          (correct_unknown_choices_settled c v))
        (clamp_alarm_levels_settled c v)

  -- Validating a second time changes nothing and reports no adjustment.
  pub validate_twice :
      (c : Config) → validate parse_url (validate parse_url c).0 ≡ ((validate parse_url c).0, [])
  validate_twice c = validate_settled (validate parse_url c).0 (validate-IsValid c)
