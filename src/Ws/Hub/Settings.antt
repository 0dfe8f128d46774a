-- ===== src/Ws/Hub/Settings.antt =====
-- The settings that a phone sends: `applyConfigUpdate` of internal/ws/hub.go and its parts, on the
-- configuration alone, and what a phone is shown of it.
use leave_safe.Prelude.{
  zero, suc, Bool, true, false, ◌&&◌, ◌||◌, not, Option, none, some, [], ◌∷◌, Bytes, codes,
  bytes_eq, ◌==◌, if◌then◌else◌,
}
use leave_safe.Prelude.Map.{Map}
use leave_safe.Auth.Policy.{ℤ, pos, negsuc}
use leave_safe.Auth.Pin.{Crypto, hash_pin}
use leave_safe.Localization.{has_prefix}
use leave_safe.Config.{Config, PinProtection, Location, update_check_enabled}
use leave_safe.Monitor.Manager.{SensorManager, is_enabled}
use leave_safe.Ws.Message.{ConfigPayload, LocationConfigPayload}

unfoldable pub int_eq : ℤ → ℤ → Bool
int_eq (pos m) (pos n) = m == n
int_eq (negsuc m) (negsuc n) = m == n
int_eq _ _ = false

unfoldable pub same : Bool → Bool → Bool
same true b = b
same false b = not b

-- `applyServerSettings`: whether a restart is needed goes with the settings.
unfoldable pub apply_server_settings : Config → ConfigPayload → Config × Bool
unfolding int_eq
apply_server_settings c p = (
  record c {
    port = p.port;
    max_sessions = p.max_sessions;
    max_auth_attempts = p.max_auth_attempts;
    lockout_seconds = p.lockout_seconds;
    heartbeat_seconds = p.heartbeat_seconds;
    disconnect_grace_seconds = p.disconnect_grace_seconds;
    auto_arm_on_lock = p.auto_arm_on_lock;
    input_threshold = p.input_threshold;
    alarm = p.alarm;
    update_check = some p.update_check;
    update_channel =
        if bytes_eq p.update_channel (codes "stable") || bytes_eq p.update_channel (codes "beta")
        then p.update_channel
        else c.update_channel;
  },
  not (int_eq p.port c.port),
)

-- The new hash of `applyPinSettings`: where the PIN is empty or cannot be hashed, nothing is stored.
unfoldable pub store_pin : Option Bytes → PinProtection → PinProtection
store_pin none q = q
store_pin (some hash) q = record q { pin_hash = hash; pin = [] }

-- `applyPinSettings`, with the salt that the random source gives.
unfoldable pub apply_pin_settings : Crypto → Option Bytes → Config → ConfigPayload → Config
unfolding store_pin hash_pin
apply_pin_settings crypto salt c p =
    let new =
      if bytes_eq p.pin_protection.pin []
      then none
      else hash_pin crypto p.pin_protection.pin salt in
    record c {
      pin_protection = record (store_pin new c.pin_protection) {
        enabled = p.pin_protection.enabled;
      };
    }

-- `sensorsWouldChange`.
unfoldable pub sensors_would_change : SensorManager → Map Bool → Bool
unfolding same
sensors_would_change m [] = false
sensors_would_change m ((name, enabled) ∷ want) =
    not (same (is_enabled name m) enabled) || sensors_would_change m want

-- `applySensorSettings`: what to tell the sensor manager, and whether the change was refused.
unfoldable pub apply_sensor_settings :
    Bool → SensorManager → Config → ConfigPayload → Config × Option (Map Bool) × Bool
unfolding sensors_would_change
apply_sensor_settings armed m c p = elim p.enabled_sensors [
  | none ↦ (c, none, false)
  | some want ↦
      if armed && sensors_would_change m want
      then (c, none, true)
      else (record c { enabled_sensors = some want }, some want, false)
]

-- `applyGeolocateURL`.
unfoldable pub apply_geolocate_url : Location → LocationConfigPayload → Location × Bool
unfolding has_prefix
apply_geolocate_url l p =
    if bytes_eq p.geolocate_url [] || bytes_eq p.geolocate_url l.geolocate_url
    then (l, true)
    else if not (has_prefix p.geolocate_url (codes "https://"))
    then (l, false)
    else (
      record l {
        geolocate_url = p.geolocate_url;
        geolocate_key = if bytes_eq p.geolocate_key [] then [] else l.geolocate_key;
      },
      true,
    )

positive : ℤ → ℤ → ℤ
positive old (pos zero) = old
positive old (pos (suc n)) = pos (suc n)
positive old (negsuc n) = old

-- `applyLocationSettings`, on the settings of the location: whether they changed, and whether the
-- endpoint was refused.
unfoldable pub apply_location : Location → LocationConfigPayload → Location × Bool × Bool
unfolding apply_geolocate_url positive same int_eq
apply_location l p =
    let changed =
      not (same p.enabled l.enabled)
      || (not (same p.wifi_enabled l.wifi_enabled)
          || (not (same p.ip_fallback l.ip_fallback)
              || not (int_eq p.poll_seconds l.poll_seconds))) in
    let (l1, taken) =
      apply_geolocate_url
        (record l {
          enabled = p.enabled;
          phone_anchor = p.phone_anchor;
          ip_fallback = p.ip_fallback;
          wifi_enabled = p.wifi_enabled;
          poll_seconds = positive l.poll_seconds p.poll_seconds;
        })
        p in
    (
      record l1 {
        geolocate_key = if bytes_eq p.geolocate_key [] then l1.geolocate_key else p.geolocate_key;
      },
      changed,
      not taken,
    )

unfoldable pub apply_location_settings : Config → ConfigPayload → Config × Bool × Bool
unfolding apply_location
apply_location_settings c p =
    let (l, changed, rejected) = apply_location c.location p.location in
    (record c { location = l }, changed, rejected)

-- `configToPayload`.
unfoldable pub config_to_payload : Config → ConfigPayload
config_to_payload c = record {
  port = c.port;
  max_sessions = c.max_sessions;
  max_auth_attempts = c.max_auth_attempts;
  lockout_seconds = c.lockout_seconds;
  heartbeat_seconds = c.heartbeat_seconds;
  disconnect_grace_seconds = c.disconnect_grace_seconds;
  auto_arm_on_lock = c.auto_arm_on_lock;
  input_threshold = c.input_threshold;
  update_check = update_check_enabled c;
  update_channel = c.update_channel;
  update_check_hours = c.update_check_hours;
  alarm = c.alarm;
  pin_protection = record {
    enabled = c.pin_protection.enabled;
    has_pin = not (bytes_eq c.pin_protection.pin_hash []);
    pin = [];
  };
  enabled_sensors = c.enabled_sensors;
  location = record {
    enabled = c.location.enabled;
    poll_seconds = c.location.poll_seconds;
    phone_anchor = c.location.phone_anchor;
    ip_fallback = c.location.ip_fallback;
    wifi_enabled = c.location.wifi_enabled;
    geolocate_url = c.location.geolocate_url;
    has_key = not (bytes_eq c.location.geolocate_key []);
    geolocate_key = [];
  };
}
