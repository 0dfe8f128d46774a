-- ===== src/Ws/Hub/Arming.antt =====
-- The part of internal/ws/hub.go that arms and disarms the machine, and that calls an alarm off.
use leave_safe.Prelude.{
  ℕ, ◌+◌, zero, suc, Bool, true, false, ◌&&◌, not, [], Bytes, codes, bytes_eq, ltb, ◌==◌,
  if◌then◌else◌,
}
use leave_safe.Prelude.Map.{insert}
use leave_safe.Auth.Policy.{ℤ, pos, negsuc, seconds}
use leave_safe.Monitor.Manager.{enable, disable, start_enabled, stop_all}
use leave_safe.Ws.Message.{alarm_cleared, unix}
use leave_safe.Ws.Hub.{
  Hub, Alarm, event_arm, event_disarm, saved_armed, tracking_started, tracking_stopped,
  alarm_dismissed, unpause_in, emit, log_event, set_watch, set_sensors, push_alert,
  broadcast_status,
}

abbrev pub no_alarm : Alarm
no_alarm = record { active = false; sensor = []; message = []; at = 0 }

positive_or : ℕ → ℤ → ℕ
positive_or old (pos zero) = old
positive_or old (pos (suc n)) = suc n
positive_or old (negsuc n) = old

-- `SetAuthDeadline`.
pub set_auth_deadline : ℤ → Hub → Hub
unfolding positive_or
set_auth_deadline d h = record h { auth_deadline = positive_or h.auth_deadline d }

-- `SetTimings`.
pub set_timings : ℤ → ℤ → Hub → Hub
unfolding positive_or
set_timings heartbeat grace h = record h {
  heartbeat_interval = positive_or h.heartbeat_interval heartbeat;
  disconnect_grace_period = positive_or h.disconnect_grace_period grace;
}

-- `SetPinProtection`.
unfoldable pub set_pin_protection : Bool → Bytes → Hub → Hub
unfolding set_watch
set_pin_protection enabled hash h =
    set_watch (record h.watch { pin_enabled = enabled; pin_hash = hash }) h

-- `SetAutoArmOnLock`.
unfoldable pub set_auto_arm_on_lock : Bool → Hub → Hub
unfolding set_watch
set_auto_arm_on_lock enabled h = set_watch (record h.watch { auto_arm_on_lock = enabled }) h

-- `PinRequired`.
unfoldable pub pin_required_now : Hub → Bool
pin_required_now h = h.watch.pin_enabled && not (bytes_eq h.watch.pin_hash [])

-- `StartEnabled` of the sensor manager, on the hub's.
unfoldable pub start_sensors : Hub → Hub
unfolding set_sensors
start_sensors h = set_sensors (start_enabled h.watch.sensors) h

-- `RestoreArmed`.
pub restore_armed : ℕ → ℕ → Hub → Hub
unfolding set_watch start_sensors emit broadcast_status log_event
restore_armed since now h =
    let started = if since == 0 then now else since in
    log_event event_arm (codes "Armed state restored after restart") (
      broadcast_status now (
        emit tracking_started
          (start_sensors (set_watch (record h.watch { armed = true; armed_at = started }) h))))

-- `Arm`.
unfoldable pub arm : ℕ → Hub → Hub
unfolding set_watch start_sensors emit broadcast_status log_event
arm now h = log_event event_arm (codes "System armed") (
    broadcast_status now (
      emit tracking_started (
        start_sensors (
          emit (saved_armed true)
            (set_watch (record h.watch { armed = true; armed_at = now }) h)))))

-- `clearAlarm`: the sensor that raised the alarm, empty where none did.
unfoldable pub clear_alarm : ℕ → Hub → Hub × Bytes
unfolding set_watch emit push_alert
clear_alarm now h = (
  push_alert (alarm_cleared (unix now))
      (emit alarm_dismissed (set_watch (record h.watch { alarm = no_alarm }) h)),
  h.watch.alarm.sensor,
)

-- `DismissAlarm`.
abbrev pub dismiss_alarm_everywhere : ℕ → Hub → Hub
dismiss_alarm_everywhere now h = (clear_alarm now h).0

-- `Disarm`.
unfoldable pub disarm : ℕ → Hub → Hub
unfolding set_watch set_sensors emit clear_alarm broadcast_status log_event
disarm now h =
    let h1 = set_watch (record h.watch { armed = false; armed_at = 0 }) h in
    let h2 = set_sensors (stop_all h1.watch.sensors) (emit (saved_armed false) h1) in
    let h3 = (clear_alarm now (emit tracking_stopped h2)).0 in
    log_event event_disarm (codes "System disarmed") (broadcast_status now h3)

-- `dismissAlarm`.
unfoldable pub dismiss_alarm : ℕ → Hub → Hub
unfolding clear_alarm set_watch
dismiss_alarm now h =
    let (h1, sensor) = clear_alarm now h in
    if bytes_eq sensor (codes "input")
    then set_watch
        (record h1.watch {
          suppressed_sensors = insert (codes "input") (now + seconds 5) h1.watch.suppressed_sensors;
        })
        h1
    else h1

abbrev pub default_pause_seconds : ℕ
default_pause_seconds = 5

abbrev pub max_pause_seconds : ℕ
max_pause_seconds = 300

-- `clampPauseSeconds`.
unfoldable pub clamp_pause_seconds : ℤ → ℕ
clamp_pause_seconds (pos zero) = default_pause_seconds
clamp_pause_seconds (pos (suc n)) =
    if ltb max_pause_seconds (suc n) then max_pause_seconds else suc n
clamp_pause_seconds (negsuc n) = default_pause_seconds

-- `pauseAlarmSensor`: the goroutine that it starts is an effect, and `unpause_sensor` is its end.
unfoldable pub pause_alarm_sensor : ℕ → ℤ → Hub → Hub
unfolding clear_alarm set_sensors emit broadcast_status clamp_pause_seconds
pause_alarm_sensor now duration h =
    let (h1, sensor) = clear_alarm now h in
    if bytes_eq sensor []
    then h1
    else broadcast_status now (
        emit (unpause_in sensor (clamp_pause_seconds duration))
          (set_sensors (disable sensor h1.watch.sensors) h1))

-- `unpauseSensor`, once it has slept.
unfoldable pub unpause_sensor : ℕ → Bytes → Hub → Hub
unfolding set_sensors start_sensors broadcast_status
unpause_sensor now sensor h =
    let h1 = set_sensors (enable sensor h.watch.sensors) h in
    broadcast_status now (if h1.watch.armed then start_sensors h1 else h1)

-- `disableAlarmSensor`.
unfoldable pub disable_alarm_sensor : ℕ → Hub → Hub
unfolding clear_alarm set_sensors broadcast_status
disable_alarm_sensor now h =
    let (h1, sensor) = clear_alarm now h in
    if bytes_eq sensor []
    then h1
    else broadcast_status now (set_sensors (disable sensor h1.watch.sensors) h1)
