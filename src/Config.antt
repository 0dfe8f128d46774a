-- ===== src/Config.antt =====
-- internal/config/config.go: the settings, and how `Validate` brings them into range.
pub mod Validate
pub mod Ranges
pub mod Repeat
mod Examples
use leave_safe.Prelude.{
  ℕ, zero, suc, ◌*◌, Bool, true, false, Option, none, some, List, [], ◌∷◌, Bytes, codes,
}
use leave_safe.Prelude.Map.{Map}
use leave_safe.Auth.Policy.{ℤ, pos, negsuc, seconds}

pub record AlarmLevel : Type 0 where
  pub delay_seconds : ℤ
  pub action : Bytes
  pub volume_percent : ℤ

pub record AlarmConfig : Type 0 where
  pub escalation_enabled : Bool
  pub levels : List AlarmLevel

pub record PinProtection : Type 0 where
  pub enabled : Bool
  pub pin : Bytes
  pub pin_hash : Bytes

pub record Location : Type 0 where
  pub enabled : Bool
  pub poll_seconds : ℤ
  pub phone_anchor : Bool
  pub ip_fallback : Bool
  pub ip_lookup_url : Bytes
  pub wifi_enabled : Bool
  pub geolocate_url : Bytes
  pub geolocate_key : Bytes

-- A nil pointer and a nil map are `none`.
pub record Config : Type 0 where
  pub port : ℤ
  pub max_sessions : ℤ
  pub max_auth_attempts : ℤ
  pub lockout_seconds : ℤ
  pub heartbeat_seconds : ℤ
  pub disconnect_grace_seconds : ℤ
  pub session_ttl_minutes : ℤ
  pub session_idle_minutes : ℤ
  pub auto_arm_on_lock : Bool
  pub input_threshold : ℤ
  pub restore_armed_state : Bool
  pub update_check : Option Bool
  pub update_channel : Bytes
  pub update_check_hours : ℤ
  pub language : Bytes
  pub alarm : AlarmConfig
  pub pin_protection : PinProtection
  pub enabled_sensors : Option (Map Bool)
  pub location : Location

level : ℕ → Bytes → ℕ → AlarmLevel
level delay action volume = record {
  delay_seconds = pos delay;
  action = action;
  volume_percent = pos volume;
}

-- `Default`.
unfoldable pub default_config : Config
unfolding level
default_config = record {
  port = pos 0;
  max_sessions = pos 3;
  max_auth_attempts = pos 5;
  lockout_seconds = pos 60;
  heartbeat_seconds = pos 15;
  disconnect_grace_seconds = pos 30;
  session_ttl_minutes = pos (24 * 60);
  session_idle_minutes = pos (8 * 60);
  auto_arm_on_lock = false;
  input_threshold = pos 1;
  restore_armed_state = false;
  update_check = none;
  update_channel = [];
  update_check_hours = pos 0;
  language = [];
  alarm = record {
    escalation_enabled = false;
    levels =
        level 0 (codes "notify_phone_only") 0
        ∷ level 15 (codes "medium_volume") 50
        ∷ level 30 (codes "full_volume") 100
        ∷ [];
  };
  pin_protection = record { enabled = false; pin = []; pin_hash = [] };
  enabled_sensors = none;
  location = record {
    enabled = false;
    poll_seconds = pos 60;
    phone_anchor = true;
    ip_fallback = true;
    ip_lookup_url = [];
    wifi_enabled = false;
    geolocate_url = [];
    geolocate_key = [];
  };
}

checks_updates : Option Bool → Bool
checks_updates none = true
checks_updates (some b) = b

-- `UpdateCheckEnabled`.
unfoldable pub update_check_enabled : Config → Bool
unfolding checks_updates
update_check_enabled c = checks_updates c.update_check

abbrev pub default_update_check_hours : ℕ
default_update_check_hours = 24

hours_or_default : ℤ → ℕ
hours_or_default (pos zero) = default_update_check_hours
hours_or_default (pos (suc n)) = suc n
hours_or_default (negsuc n) = default_update_check_hours

-- `UpdateCheckInterval`, in nanoseconds.
unfoldable pub update_check_interval : Config → ℕ
unfolding hours_or_default
update_check_interval c = seconds (hours_or_default c.update_check_hours * 3600)
