-- ===== src/Ws/Hub.antt =====
-- `Hub` of internal/ws/hub.go: its state, and how it tells the phones. A client is a number; what the
-- pointer leads to is in `conns`, so that the table of the hub and a connection share it. What a
-- call makes happen outside the hub is an `Effect`, in order. A callback or a backend that is nil is
-- one that does nothing with its effect.
pub mod Arming
pub mod Alerts
pub mod Settings
pub mod Update
pub mod Reconfigure
pub mod Sockets
pub mod Pairing
pub mod Handle
pub mod Steps
pub mod View
pub mod Guard
pub mod Machine
pub mod Entry
pub mod Secrets
mod Examples
use leave_safe.Prelude.{
  ℕ, ◌-◌, Bool, true, false, not, Option, none, some, List, [], ◌∷◌, ◌++◌, map, Bytes, codes,
  bytes_eq, ◌==◌, if◌then◌else◌, keep,
}
use leave_safe.Prelude.Map.{Map, insert}
use leave_safe.Auth.Manager.{Manager, AuthError}
use leave_safe.Auth.Pin.{Crypto}
use leave_safe.Config.{Config}
use leave_safe.Monitor.Alerting.{Alert}
use leave_safe.Monitor.Manager.{Sensor, SensorManager, available_now, is_enabled, failure}
use leave_safe.Ws.Pending.{PendingConns}
use leave_safe.Ws.Client.{Client}
use leave_safe.Ws.Message.{
  ServerMessage, SensorState, SensorInfo, UpdatePayload, alert, new_status, PushSub,
}
use leave_safe.Ws.Session.{Session, Wire}
use leave_safe.Ws.Handshake.{Proofs}

-- What the hub has from outside itself: two key derivations and the library behind a session,
-- `url.Parse`, the text of an error, whose numbers `fmt` prints, the addresses that a phone can
-- reach, and the key of the push notifier, empty where there is none.
pub record Env : Type 0 where
  pub crypto : Crypto
  pub proofs : Proofs
  pub wire : Wire
  pub parse_url : Bytes → Option (Bytes × Bytes)
  pub error_text : AuthError → Bytes
  pub addresses : List Bytes
  pub push_key : Bytes

-- What a step finds: the time, and what the random source gives.
pub record Moment : Type 0 where
  pub now : ℕ
  pub random : Option Bytes

pub data EventType : Type 0 where
  event_arm : EventType
  event_disarm : EventType
  event_alert : EventType
  event_connect : EventType
  event_disconnect : EventType
  event_auth_fail : EventType
  event_pin_fail : EventType

pub data Effect : Type 0 where
  sent : ℕ → ServerMessage → Effect
  accepted : ℕ → ServerMessage → Session → Effect
  closed : ℕ → Effect
  notified : Bytes → Effect
  subscribed : PushSub → Effect
  logged : EventType → Bytes → Bytes → Effect
  saved_armed : Bool → Effect
  saved_config : Config → Effect
  tracking_started : Effect
  tracking_stopped : Effect
  anchor_offered : Effect
  alarm_triggered : Effect
  alarm_dismissed : Effect
  unpause_in : Bytes → ℕ → Effect
  client_changed : ℕ → Bool → Effect
  client_removed : ℕ → Effect
  gone_check_in : ℕ → Effect
  all_disconnected : Effect

-- What the hub reads and writes of a `Client`; `socket` is the part of it that client.go itself uses.
pub record Conn : Type 0 where
  pub remote_addr : Bytes
  pub authenticated : Bool
  pub token : Bytes
  pub server_nonce : Bytes
  pub pending_held : Bool
  pub removed : Bool
  pub socket : Client

pub record Alarm : Type 0 where
  pub active : Bool
  pub sensor : Bytes
  pub message : Bytes
  pub at : ℕ

-- What decides whether the machine is watched: the fields of `Hub` that are about it.
pub record Watch : Type 0 where
  pub armed : Bool
  pub armed_at : ℕ
  pub auto_arm_on_lock : Bool
  pub pin_enabled : Bool
  pub pin_hash : Bytes
  pub alarm : Alarm
  pub suppressed_sensors : Map ℕ
  pub cfg : Option Config
  pub sensors : SensorManager

pub record Hub : Type 0 where
  pub watch : Watch
  pub clients : List ℕ
  pub conns : ℕ → Conn
  pub auth : Manager
  pub pending : PendingConns
  pub version : Bytes
  pub heartbeat_interval : ℕ
  pub disconnect_grace_period : ℕ
  pub auth_deadline : ℕ
  pub update_available : Option UpdatePayload
  -- The alert that `dispatchAlert` has found the machine armed for, and has not claimed yet.
  pub in_hand : Option Alert
  pub effects : List Effect

unfoldable pub emit : Effect → Hub → Hub
emit e h = record h { effects = h.effects ++ e ∷ [] }

unfoldable pub emit_all : List Effect → Hub → Hub
emit_all es h = record h { effects = h.effects ++ es }

-- `logEvent` of an event without a sensor.
unfoldable pub log_event : EventType → Bytes → Hub → Hub
unfolding emit
log_event kind message h = emit (logged kind [] message) h

-- `client.send`.
unfoldable pub send_to : ℕ → ServerMessage → Hub → Hub
unfolding emit
send_to i m h = emit (sent i m) h

unfoldable pub set_watch : Watch → Hub → Hub
set_watch w h = record h { watch = w }

unfoldable pub set_sensors : SensorManager → Hub → Hub
unfolding set_watch
set_sensors m h = set_watch (record h.watch { sensors = m }) h

unfoldable pub set_conn : ℕ → Conn → Hub → Hub
set_conn i c h = record h { conns = λ j. if i == j then c else h.conns j }

-- The clients that a message to every phone goes to.
unfoldable pub targets : Hub → List ℕ
targets h = keep (λ i. (h.conns i).authenticated) h.clients

-- What an alert has for the phones that are not connected.
unfoldable pub notices : ServerMessage → List Effect
notices (alert sensor level message at) = if bytes_eq message [] then [] else notified message ∷ []
notices (ServerMessage.alarm_active sensor message at) =
    if bytes_eq message [] then [] else notified message ∷ []
notices _ = []

-- `PushAlert`.
unfoldable pub push_alert : ServerMessage → Hub → Hub
unfolding emit_all targets notices
push_alert m h = emit_all (map (λ i. sent i m) (targets h) ++ notices m) h

sensor_status : Bool → Bytes → Bytes
sensor_status available failing =
    if not available
    then codes "unavailable"
    else if not (bytes_eq failing [])
    then codes "failed"
    else codes "ok"

-- The loop of `broadcastStatus`.
unfoldable pub sensor_states :
    List Sensor → SensorManager → Map SensorState → SensorManager × Map SensorState
unfolding sensor_status
sensor_states [] m states = (m, states)
sensor_states (s ∷ ss) m states =
    let (m1, available, known) = available_now s m in
    let state : SensorState = record {
      enabled = is_enabled s.name m1;
      status = sensor_status available (failure s.name m);
      failure = failure s.name m;
    } in
    sensor_states ss m1 (insert s.name state states)

-- `broadcastStatus`.
unfoldable pub broadcast_status : ℕ → Hub → Hub
unfolding sensor_states set_sensors set_watch emit_all targets
broadcast_status now h =
    let (m, states) = sensor_states h.watch.sensors.sensors h.watch.sensors [] in
    emit_all (map (λ i. sent i (new_status h.watch.armed states now)) (targets h)) (set_sensors m h)

-- The loop of `GetSensorInfos`.
unfoldable pub sensor_infos : List Sensor → SensorManager → SensorManager × List SensorInfo
sensor_infos [] m = (m, [])
sensor_infos (s ∷ ss) m =
    let (m1, available, known) = available_now s m in
    let (m2, infos) = sensor_infos ss m1 in
    (
      m2,
      record {
        name = s.name;
        display_name = s.display_name;
        available = available;
        enabled = is_enabled s.name m1;
        failure = failure s.name m1;
      }
          ∷ infos,
    )

-- `GetSensorInfos`.
unfoldable pub get_sensor_infos : Hub → Hub × List SensorInfo
unfolding sensor_infos set_sensors set_watch
get_sensor_infos h =
    let (m, infos) = sensor_infos h.watch.sensors.sensors h.watch.sensors in
    (set_sensors m h, infos)
