-- ===== src/Ws/Hub/View/Alarms.antt =====
-- What arming, disarming and the answers to an alarm do to what the hub decides by.
use leave_safe.Prelude.{
  ℕ, Bool, true, false, Option, none, some, ◌≡◌, refl, ◌∙◌, [], Bytes, bytes_eq, if◌then◌else◌,
  arith, Bool-cases, inl, inr,
}
use leave_safe.Prelude.Map.{lookup, insert}
use leave_safe.Auth.Policy.{ℤ}
use leave_safe.Monitor.Alerting.{Alert}
use leave_safe.Monitor.Manager.{stop_all, disable, enable}
use leave_safe.Ws.Hub.{
  Hub, emit, emit_all, log_event, set_watch, set_sensors, push_alert, broadcast_status, saved_armed,
  tracking_started, tracking_stopped, unpause_in,
}
use leave_safe.Ws.Hub.Arming.{
  arm, disarm, clear_alarm, dismiss_alarm, pause_alarm_sensor, unpause_sensor, disable_alarm_sensor,
  start_sensors, no_alarm, clamp_pause_seconds,
}
use leave_safe.Ws.Hub.Alerts.{
  trigger_test, trigger_sensor_test, record_alarm, claim, claim_after, on_watch, unless_done,
  end_grace, claim_alarm, raise_alarm, display_name_of,
}
use leave_safe.Ws.Hub.View.{View, view, view-broadcast_status, view-start_sensors}
use leave_safe.Ws.Hub.View.Clients.{if_view}

pub view-arm :
    (now : ℕ) (h : Hub) → view (arm now h) ≡ record (view h) { armed = true; armed_at = now }
unfolding arm view emit log_event set_watch
view-arm now h =
    let h1 : Hub =
      emit (saved_armed true) (set_watch (record h.watch { armed = true; armed_at = now }) h) in
    view-broadcast_status now (emit tracking_started (start_sensors h1)) ∙ view-start_sensors h1

pub view-clear_alarm :
    (now : ℕ) (h : Hub) → view (clear_alarm now h).0 ≡ record (view h) { alarm = no_alarm }
unfolding view clear_alarm push_alert emit_all emit set_watch
view-clear_alarm now h = refl

pub view-disarm :
    (now : ℕ) (h : Hub)
    → view (disarm now h) ≡ record (view h) { armed = false; armed_at = 0; alarm = no_alarm }
unfolding disarm view emit log_event set_watch set_sensors stop_all clear_alarm push_alert emit_all
view-disarm now h =
    let h1 : Hub = set_watch (record h.watch { armed = false; armed_at = 0 }) h in
    let h2 : Hub = set_sensors (stop_all h1.watch.sensors) (emit (saved_armed false) h1) in
    view-broadcast_status now (clear_alarm now (emit tracking_stopped h2)).0

-- The sensor that is switched off, if there is one.
abbrev pub switched_off : Bytes → View → View
switched_off sensor v =
    if bytes_eq sensor [] then v else record v { switched = insert sensor false v.switched }

disabled_view :
    (now : ℕ) (sensor : Bytes) (h : Hub)
    → view (broadcast_status now (set_sensors (disable sensor h.watch.sensors) h))
      ≡ record (view h) { switched = insert sensor false (view h).switched }
unfolding view set_sensors set_watch disable
disabled_view now sensor h =
    view-broadcast_status now (set_sensors (disable sensor h.watch.sensors) h)

pub view-disable_alarm_sensor :
    (now : ℕ) (h : Hub)
    → view (disable_alarm_sensor now h)
      ≡ switched_off h.watch.alarm.sensor (record (view h) { alarm = no_alarm })
unfolding disable_alarm_sensor clear_alarm view push_alert emit_all emit set_watch
view-disable_alarm_sensor now h = elim (Bool-cases (bytes_eq h.watch.alarm.sensor [])) [
  | inl e ↦ rw e refl
  | inr e ↦ rw e (disabled_view now h.watch.alarm.sensor (clear_alarm now h).0)
]

pub view-pause_alarm_sensor :
    (now : ℕ) (d : ℤ) (h : Hub)
    → view (pause_alarm_sensor now d h)
      ≡ switched_off h.watch.alarm.sensor (record (view h) { alarm = no_alarm })
unfolding pause_alarm_sensor clear_alarm view push_alert emit_all emit set_watch set_sensors disable
view-pause_alarm_sensor now d h = elim (Bool-cases (bytes_eq h.watch.alarm.sensor [])) [
  | inl e ↦ rw e refl
  | inr e ↦
      let h1 : Hub = (clear_alarm now h).0 in
      let h2 : Hub = set_sensors (disable h.watch.alarm.sensor h1.watch.sensors) h1 in
      rw e (
        view-broadcast_status now
          (emit (unpause_in h.watch.alarm.sensor (clamp_pause_seconds d)) h2))
]

pub view-unpause_sensor :
    (now : ℕ) (sensor : Bytes) (h : Hub)
    → view (unpause_sensor now sensor h)
      ≡ record (view h) { switched = insert sensor true (view h).switched }
unfolding unpause_sensor view set_sensors set_watch enable
view-unpause_sensor now sensor h =
    let h1 : Hub = set_sensors (enable sensor h.watch.sensors) h in
    view-broadcast_status now (if h1.watch.armed then start_sensors h1 else h1)
    ∙ if_view h1.watch.armed (start_sensors h1) h1 (view h1) (view-start_sensors h1) refl

pub view-dismiss_alarm :
    (now : ℕ) (h : Hub)
    → view (dismiss_alarm now h) ≡ record (view h) {
      alarm = no_alarm;
      suppressed_sensors = (view (dismiss_alarm now h)).suppressed_sensors;
    }
unfolding view dismiss_alarm clear_alarm push_alert emit_all emit set_watch
view-dismiss_alarm now h = ground arith

-- A hub that differs in nothing but its alarm.
abbrev pub IsButAlarm : View → Hub → Type 0
IsButAlarm v h = view h ≡ record v { alarm = (view h).alarm }

pub trigger_test-IsButAlarm :
    (now : ℕ) (name display : Bytes) (h : Hub)
    → IsButAlarm (view h) (trigger_test now name display h)
unfolding view trigger_test push_alert emit_all emit record_alarm set_watch
trigger_test-IsButAlarm now name display h = ground arith

either-IsButAlarm :
    (b : Bool) (x y : Hub × Bool) (v : View)
    → IsButAlarm v x.0
    → IsButAlarm v y.0
    → IsButAlarm v (if b then x else y).0
either-IsButAlarm true x y v e f = e
either-IsButAlarm false x y v e f = f

-- Whatever sensor a test names, it sets nothing but the alarm.
pub trigger_sensor_test-IsButAlarm :
    (now : ℕ) (name : Bytes) (h : Hub) → IsButAlarm (view h) (trigger_sensor_test now name h).0
unfolding trigger_sensor_test
trigger_sensor_test-IsButAlarm now name h =
    let display = display_name_of name h.watch.sensors.sensors in
    either-IsButAlarm (bytes_eq display []) (h, false) (trigger_test now name display h, true)
      (view h) refl (trigger_test-IsButAlarm now name display h)

pub view-raise_alarm :
    (now : ℕ) (location : Bool) (a : Alert) (h : Hub) → view (raise_alarm now location a h) ≡ view h
unfolding view raise_alarm push_alert emit_all emit
view-raise_alarm now location a h = ground arith

-- A claim sets nothing but the alarm and the grace periods.
view-claim_after :
    (now : ℕ) (a : Alert) (o : Option ℕ) (h : Hub)
    → view (claim_after now a o h).0 ≡ record (view h) {
      alarm = (view (claim_after now a o h).0).alarm;
      suppressed_sensors = (view (claim_after now a o h).0).suppressed_sensors;
    }
unfolding view claim_after claim end_grace record_alarm set_watch
view-claim_after now a none h = ground arith
view-claim_after now a (some until) h = ground arith

pub view-claim_alarm :
    (now : ℕ) (a : Alert) (h : Hub)
    → view (claim_alarm now a h).0 ≡ record (view h) {
      alarm = (view (claim_alarm now a h).0).alarm;
      suppressed_sensors = (view (claim_alarm now a h).0).suppressed_sensors;
    }
unfolding claim_alarm
view-claim_alarm now a h = view-claim_after now a (lookup a.sensor h.watch.suppressed_sensors) h

view-on_watch : (a : Alert) (h : Hub) → view (on_watch a h) ≡ view h
unfolding on_watch view
view-on_watch a h = if_view h.watch.armed (record h { in_hand = some a }) h (view h) refl refl

-- Taking an alert in hand is nothing that the watch is about.
pub view-unless_done : (a : Alert) (p : Hub × Bool) → view (unless_done a p) ≡ view p.0
unfolding unless_done
view-unless_done a (h, done) = if_view done h (on_watch a h) (view h) refl (view-on_watch a h)
