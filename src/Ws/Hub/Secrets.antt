-- ===== src/Ws/Hub/Secrets.antt =====
-- What the settings give away: the stored API key, the PIN, and the sensors behind a test alarm.
use leave_safe.Prelude.{
  ℕ, Bool, true, false, ◌≡◌, refl, ap, ◌∙◌, [], Bytes, codes, bytes_eq, bytes_eq→eq, bytes_eq_refl,
  arith,
}
use leave_safe.Prelude.Map.{Map, lookup, insert, lookup-insert}
use leave_safe.Localization.{has_prefix}
use leave_safe.Config.{Config, Location, update_check_enabled}
use leave_safe.Monitor.Manager.{is_enabled, or_false}
use leave_safe.Ws.Message.{LocationConfigPayload}
use leave_safe.Ws.Hub.{Hub, emit, emit_all, push_alert}
use leave_safe.Ws.Hub.Arming.{disable_alarm_sensor, no_alarm}
use leave_safe.Ws.Hub.Alerts.{trigger_test, trigger_sensor_test, record_alarm, display_name_of}
use leave_safe.Ws.Hub.Settings.{apply_location, apply_geolocate_url, config_to_payload}
use leave_safe.Ws.Hub.View.{View, view}
use leave_safe.Ws.Hub.View.Alarms
use leave_safe.Ws.Hub.Machine.Answers.{else_eq}

-- Where an update changes the endpoint of the lookup, the new one starts with https:// and the key
-- is the one that the update carries, none if it carries none: the stored key does not go to an
-- endpoint that a phone chose.
pub apply_location_key :
    (l : Location) (p : LocationConfigPayload)
    → bytes_eq (apply_location l p).0.geolocate_url l.geolocate_url ≡ false
    → (has_prefix (apply_location l p).0.geolocate_url (codes "https://") ≡ true)
      × ((apply_location l p).0.geolocate_key ≡ p.geolocate_key)
unfolding apply_location apply_geolocate_url
apply_location_key l p h =
    ground (arith, bytes_eq_refl l.geolocate_url, bytes_eq→eq p.geolocate_key [])

-- Two configurations that differ in their secrets alone: which secrets are set is not one.
pub differ_in_secrets : Config → Bytes → Bytes → Bytes → Config
differ_in_secrets c pin hash key = record c {
  pin_protection = record c.pin_protection { pin = pin; pin_hash = hash };
  location = record c.location { geolocate_key = key };
}

-- Two configurations that differ in the PIN, its hash and the API key alone, and agree on whether a
-- hash and whether a key is set, are shown to a phone alike.
pub config_to_payload_secrets :
    (c : Config) (pin hash key : Bytes)
    → bytes_eq hash [] ≡ bytes_eq c.pin_protection.pin_hash []
    → bytes_eq key [] ≡ bytes_eq c.location.geolocate_key []
    → config_to_payload (differ_in_secrets c pin hash key) ≡ config_to_payload c
unfolding config_to_payload update_check_enabled differ_in_secrets
config_to_payload_secrets c pin hash key e f = rw (e, f) refl

test_armed :
    (now : ℕ) (name display : Bytes) (h : Hub)
    → (trigger_test now name display h).watch.armed ≡ h.watch.armed
unfolding view
test_armed now name display h =
    ap (λ (v : View). v.armed) (Alarms.trigger_test-IsButAlarm now name display h)

found_off :
    (sensor name : Bytes) (m : Map Bool)
    → sensor ≡ name
    → or_false (lookup name (insert sensor false m)) ≡ false
unfolding or_false
found_off sensor name m e = rw (e, lookup-insert name name false m, bytes_eq_refl name) refl

recorded :
    (now : ℕ) (name display : Bytes) (h : Hub)
    → h.watch.armed ≡ true
    → h.watch.alarm.active ≡ false
    → (trigger_test now name display h).watch.alarm.sensor ≡ name
unfolding trigger_test push_alert emit_all emit record_alarm
recorded now name display h a n = ground (arith, a, n)

-- The answer that stops using the sensor of the alarm, where it has the name of one.
sensor_answered :
    (u : ℕ) (name : Bytes) (h : Hub)
    → bytes_eq name [] ≡ false
    → h.watch.alarm.sensor ≡ name
    → (is_enabled name (disable_alarm_sensor u h).watch.sensors ≡ false)
      × ((disable_alarm_sensor u h).watch.armed ≡ h.watch.armed)
unfolding is_enabled view or_false
sensor_answered u name h n e =
    let cleared : View = record (view h) { alarm = no_alarm } in
    let sensor = h.watch.alarm.sensor in
    let off : View = record cleared { switched = insert sensor false cleared.switched } in
    let there : bytes_eq sensor [] ≡ false = rw e n in
    let after : view (disable_alarm_sensor u h) ≡ off =
      Alarms.view-disable_alarm_sensor u h ∙ else_eq (bytes_eq sensor []) cleared off there in
    (
      ap (λ (v : View). or_false (lookup name v.switched)) after
          ∙ found_off sensor name h.watch.sensors.enabled e,
      ap (λ (v : View). v.armed) after,
    )

-- On an armed machine on which no alarm sounds, a test of a sensor and then the answer that stops
-- using it switch that sensor off, whichever it is, and leave the machine armed: no PIN is asked for.
-- The sensor has a name and a name to display.
pub tested_sensor_off :
    (t u : ℕ) (name : Bytes) (h : Hub)
    → h.watch.armed ≡ true
    → h.watch.alarm.active ≡ false
    → bytes_eq name [] ≡ false
    → bytes_eq (display_name_of name h.watch.sensors.sensors) [] ≡ false
    → let after : Hub = disable_alarm_sensor u (trigger_sensor_test t name h).0 in
      (is_enabled name after.watch.sensors ≡ false) × (after.watch.armed ≡ true)
unfolding trigger_sensor_test
tested_sensor_off t u name h a n named shown =
    let display = display_name_of name h.watch.sensors.sensors in
    let tested : Hub = trigger_test t name display h in
    let (off, armed) = sensor_answered u name tested named (recorded t name display h a n) in
    rw shown (off, armed ∙ test_armed t name display h ∙ a)
