-- ===== src/Ws/Message.antt =====
-- internal/ws/messages.go: what phone and laptop say to each other. A nil pointer and a nil map are
-- `none`, a message carries the fields that its type uses, and times are nanoseconds until they are
-- sent as seconds. A position is left to the location tracker.
use leave_safe.Prelude.{
  ℕ, ◌/◌, Bool, ◌&&◌, not, Option, none, some, List, [], Bytes, codes, ◌==◌, if◌then◌else◌,
}
use leave_safe.Prelude.Map.{Map}
use leave_safe.Auth.Policy.{ℤ, seconds}
use leave_safe.Config.{AlarmConfig}

pub data MsgType : Type 0 where
  auth : MsgType
  arm : MsgType
  disarm : MsgType
  disarm_with_pin : MsgType
  configure : MsgType
  ping : MsgType
  test_alert : MsgType
  dismiss_alarm : MsgType
  dismiss_alarm_pause : MsgType
  dismiss_alarm_disable : MsgType
  trigger_sensor : MsgType
  get_config : MsgType
  update_config : MsgType
  reset_config : MsgType
  location_anchor : MsgType
  get_location : MsgType
  push_subscribe : MsgType
  unknown_type : MsgType

pub record PinProtectionPayload : Type 0 where
  pub enabled : Bool
  pub has_pin : Bool
  pub pin : Bytes

pub record LocationConfigPayload : Type 0 where
  pub enabled : Bool
  pub poll_seconds : ℤ
  pub phone_anchor : Bool
  pub ip_fallback : Bool
  pub wifi_enabled : Bool
  pub geolocate_url : Bytes
  pub has_key : Bool
  pub geolocate_key : Bytes

pub record ConfigPayload : Type 0 where
  pub port : ℤ
  pub max_sessions : ℤ
  pub max_auth_attempts : ℤ
  pub lockout_seconds : ℤ
  pub heartbeat_seconds : ℤ
  pub disconnect_grace_seconds : ℤ
  pub auto_arm_on_lock : Bool
  pub input_threshold : ℤ
  pub update_check : Bool
  pub update_channel : Bytes
  pub update_check_hours : ℤ
  pub alarm : AlarmConfig
  pub pin_protection : PinProtectionPayload
  pub enabled_sensors : Option (Map Bool)
  pub location : LocationConfigPayload

pub record PushSub : Type 0 where
  pub endpoint : Bytes
  pub key : Bytes
  pub auth_secret : Bytes

pub record ClientMessage : Type 0 where
  pub kind : MsgType
  pub nonce : Bytes
  pub proof : Bytes
  pub encrypt : Bytes
  pub pin : Bytes
  pub sensors : Option (Map Bool)
  pub sensor : Bytes
  pub duration : ℤ
  pub config : Option ConfigPayload
  pub push : Option PushSub

pub record SensorInfo : Type 0 where
  pub name : Bytes
  pub display_name : Bytes
  pub available : Bool
  pub enabled : Bool
  pub failure : Bytes

pub record SensorState : Type 0 where
  pub enabled : Bool
  pub status : Bytes
  pub failure : Bytes

pub record UpdatePayload : Type 0 where
  pub running : Bytes
  pub latest : Bytes
  pub url : Bytes
  pub channel : Bytes
  pub command : Bytes

-- What `auth_ok` carries.
pub record AuthOk : Type 0 where
  pub token : Bytes
  pub version : Bytes
  pub proof : Bytes
  pub encrypt : Bytes
  pub sensors : List SensorInfo
  pub addresses : List Bytes
  pub armed : Bool
  pub armed_since : Option ℕ
  pub push_key : Bytes

-- `alert` has the sensor, the level and the message; `alarm_active` has no level. The last number
-- of a message is its time in seconds.
pub data ServerMessage : Type 0 where
  hello : Bytes → Bytes → Bytes → ℕ → ServerMessage
  auth_ok : AuthOk → ServerMessage
  auth_fail : Bytes → ℕ → ServerMessage
  alert : Bytes → Bytes → Bytes → ℕ → ServerMessage
  status : Bool → Map SensorState → ℕ → ServerMessage
  pong : ServerMessage
  alarm_active : Bytes → Bytes → ℕ → ServerMessage
  alarm_cleared : ℕ → ServerMessage
  pin_required : ServerMessage
  config_data : ConfigPayload → ServerMessage
  location_view : ℕ → ServerMessage
  update_available : UpdatePayload → ServerMessage

-- `SensorSystem`.
abbrev pub sensor_system : Bytes
sensor_system = codes "system"

-- `Time.Unix`.
abbrev pub unix : ℕ → ℕ
unix t = t / seconds 1

-- `NewAlert`.
abbrev pub new_alert : Bytes → Bytes → Bytes → ℕ → ServerMessage
new_alert sensor level message now = alert sensor level message (unix now)

-- `NewHello`.
abbrev pub new_hello : Bytes → Bytes → Bytes → ℕ → ServerMessage
new_hello version nonce salt now = hello version nonce salt (unix now)

-- `NewAuthOK`, without the fields that its caller fills in. Time 0 is the zero time.
abbrev pub new_auth_ok : Bytes → List SensorInfo → Bytes → Bool → ℕ → AuthOk
new_auth_ok token sensors version armed armed_at = record {
  token = token;
  version = version;
  proof = [];
  encrypt = [];
  sensors = sensors;
  addresses = [];
  armed = armed;
  armed_since = if armed && not (armed_at == 0) then some (unix armed_at) else none;
  push_key = [];
}

-- `NewAlarmActiveAt`, and `NewAlarmActive` with the time of the clock.
abbrev pub new_alarm_active : Bytes → Bytes → ℕ → ServerMessage
new_alarm_active sensor message at = alarm_active sensor message (unix at)

-- `NewStatus`.
abbrev pub new_status : Bool → Map SensorState → ℕ → ServerMessage
new_status armed states now = status armed states (unix now)
