-- ===== src/Ws/Hub/View.antt =====
-- What the hub decides by: the watch, with the sensors that are switched on in place of what else the
-- sensor manager knows. Here, the calls that only report leave it alone.
pub mod Clients
pub mod Alarms
use leave_safe.Prelude.{
  ℕ, Bool, true, false, ◌&&◌, ◌||◌, not, Option, none, some, ◌≡◌, refl, sym, ap, ◌∙◌, List, [], ◌∷◌,
  Bytes, if◌then◌else◌, arith,
}
use leave_safe.Prelude.Map.{Map, lookup}
use leave_safe.Config.{Config}
use leave_safe.Monitor.Manager.{Sensor, SensorManager, available_now, or_false}
use leave_safe.Monitor.Manager.Running.{start_enabled_enabled}
use leave_safe.Ws.Message.{ServerMessage, SensorState}
use leave_safe.Ws.Hub.{
  Hub, Watch, Alarm, emit_all, set_watch, set_sensors, push_alert, sensor_states, sensor_infos,
  broadcast_status, get_sensor_infos,
}
use leave_safe.Ws.Hub.Arming.{start_sensors}

pub record View : Type 0 where
  pub armed : Bool
  pub armed_at : ℕ
  pub auto_arm_on_lock : Bool
  pub pin_enabled : Bool
  pub pin_hash : Bytes
  pub alarm : Alarm
  pub suppressed_sensors : Map ℕ
  pub cfg : Option Config
  pub switched : Map Bool

abbrev pub view_of : Watch → Map Bool → View
view_of w switched = record {
  armed = w.armed;
  armed_at = w.armed_at;
  auto_arm_on_lock = w.auto_arm_on_lock;
  pin_enabled = w.pin_enabled;
  pin_hash = w.pin_hash;
  alarm = w.alarm;
  suppressed_sensors = w.suppressed_sensors;
  cfg = w.cfg;
  switched = switched;
}

unfoldable pub view : Hub → View
view h = view_of h.watch h.watch.sensors.enabled

available_now_enabled : (s : Sensor) (m : SensorManager) → (available_now s m).0.enabled ≡ m.enabled
unfolding available_now
available_now_enabled s m = ground arith

sensor_states_enabled :
    (ss : List Sensor) (m : SensorManager) (states : Map SensorState)
    → (sensor_states ss m states).0.enabled ≡ m.enabled
unfolding sensor_states
sensor_states_enabled [] m states = refl
sensor_states_enabled (s ∷ ss) m states =
    sensor_states_enabled ss (available_now s m).0 _ ∙ available_now_enabled s m

sensor_infos_enabled :
    (ss : List Sensor) (m : SensorManager) → (sensor_infos ss m).0.enabled ≡ m.enabled
unfolding sensor_infos
sensor_infos_enabled [] m = refl
sensor_infos_enabled (s ∷ ss) m =
    sensor_infos_enabled ss (available_now s m).0 ∙ available_now_enabled s m

pub view-broadcast_status : (now : ℕ) (h : Hub) → view (broadcast_status now h) ≡ view h
unfolding view broadcast_status emit_all set_sensors set_watch
view-broadcast_status now h =
    ap (λ (e : Map Bool). view_of h.watch e)
      (sensor_states_enabled h.watch.sensors.sensors h.watch.sensors [])

pub view-get_sensor_infos : (h : Hub) → view (get_sensor_infos h).0 ≡ view h
unfolding view get_sensor_infos set_sensors set_watch
view-get_sensor_infos h =
    ap (λ (e : Map Bool). view_of h.watch e)
      (sensor_infos_enabled h.watch.sensors.sensors h.watch.sensors)

pub view-start_sensors : (h : Hub) → view (start_sensors h) ≡ view h
unfolding view start_sensors set_sensors set_watch
view-start_sensors h =
    ap (λ (e : Map Bool). view_of h.watch e) (start_enabled_enabled h.watch.sensors)

pub view-push_alert : (m : ServerMessage) (h : Hub) → view (push_alert m h) ≡ view h
unfolding view push_alert emit_all
view-push_alert m h = refl
