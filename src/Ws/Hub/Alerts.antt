-- ===== src/Ws/Hub/Alerts.antt =====
-- The part of internal/ws/hub.go that turns what a sensor reports into an alarm.
use leave_safe.Prelude.{
  ℕ, Bool, true, false, ◌&&◌, ◌||◌, not, Option, none, some, List, [], ◌∷◌, ◌++◌, Bytes, codes,
  bytes_eq, ltb, ◌==◌, if◌then◌else◌, length,
}
use leave_safe.Prelude.Map.{lookup, erase}
use leave_safe.Localization.{has_prefix}
use leave_safe.Monitor.Alerting.{Alert, AlertLevel, alert_warning, alert_critical}
use leave_safe.Monitor.Manager.{Sensor}
use leave_safe.Ws.Message.{new_alert, new_alarm_active, location_view, unix}
use leave_safe.Ws.Hub.{Hub, event_alert, logged, alarm_triggered, emit, set_watch, push_alert}
use leave_safe.Ws.Hub.Arming.{arm, disarm}

-- `strings.Contains`.
pub contains : Bytes → Bytes → Bool
unfolding has_prefix
contains [] p = has_prefix [] p
contains (c ∷ s) p = has_prefix (c ∷ s) p || contains s p

level_text : AlertLevel → Bytes
level_text alert_warning = codes "warning"
level_text alert_critical = codes "critical"

-- The display name that `TriggerSensorTest` looks for, empty where no sensor has the name.
unfoldable pub display_name_of : Bytes → List Sensor → Bytes
display_name_of name [] = []
display_name_of name (s ∷ ss) =
    if bytes_eq s.name name then s.display_name else display_name_of name ss

-- An alarm is recorded.
unfoldable pub record_alarm : ℕ → Bytes → Bytes → Hub → Hub
unfolding set_watch
record_alarm now sensor message h =
    set_watch
      (record h.watch {
        alarm = record { active = true; sensor = sensor; message = message; at = now };
      })
      h

-- `TriggerSensorTest`, on the name that it found.
unfoldable pub trigger_test : ℕ → Bytes → Bytes → Hub → Hub
unfolding push_alert record_alarm emit
trigger_test now name display h =
    let message = display ++ codes " triggered (manual test)" in
    let h1 = push_alert (new_alert name (codes "critical") message now) h in
    if h1.watch.armed && not h1.watch.alarm.active
    then push_alert (new_alarm_active name message now)
        (emit alarm_triggered (record_alarm now name message h1))
    else h1

unfoldable pub trigger_sensor_test : ℕ → Bytes → Hub → Hub × Bool
unfolding display_name_of trigger_test
trigger_sensor_test now name h =
    let display = display_name_of name h.watch.sensors.sensors in
    if bytes_eq display [] then (h, false) else (trigger_test now name display h, true)

-- `autoArmed`. `ClientCount` is the number of the clients.
unfoldable pub auto_armed : ℕ → Alert → Hub → Hub × Bool
unfolding arm disarm
auto_armed now a h =
    if not h.watch.auto_arm_on_lock
      || (not (bytes_eq a.sensor (codes "screen")) || (length h.clients == 0))
    then (h, false)
    else if contains a.message (codes "off") && not h.watch.armed
    then (arm now h, true)
    else if contains a.message (codes "on") && h.watch.armed
    then (disarm now h, true)
    else (h, false)

-- The end of `claimAlarm`, where no grace period is left.
unfoldable pub claim : ℕ → Alert → Hub → Hub × Bool
unfolding record_alarm
claim now a h =
    if h.watch.alarm.active then (h, false) else (record_alarm now a.sensor a.message h, true)

unfoldable pub end_grace : Bytes → Hub → Hub
unfolding set_watch
end_grace sensor h =
    set_watch (record h.watch { suppressed_sensors = erase sensor h.watch.suppressed_sensors }) h

unfoldable pub claim_after : ℕ → Alert → Option ℕ → Hub → Hub × Bool
unfolding claim end_grace
claim_after now a none h = claim now a h
claim_after now a (some until) h =
    if ltb now until then (h, false) else claim now a (end_grace a.sensor h)

-- `claimAlarm`.
unfoldable pub claim_alarm : ℕ → Alert → Hub → Hub × Bool
unfolding claim_after
claim_alarm now a h = claim_after now a (lookup a.sensor h.watch.suppressed_sensors) h

-- `raiseAlarm`. `location` says whether the position is known to the phones.
unfoldable pub raise_alarm : ℕ → Bool → Alert → Hub → Hub
unfolding push_alert emit level_text
raise_alarm now location a h =
    let h1 = push_alert (new_alert a.sensor (level_text a.level) a.message now) h in
    let h2 = push_alert (new_alarm_active a.sensor a.message now) (emit alarm_triggered h1) in
    let h3 = emit (logged event_alert a.sensor a.message) h2 in
    if location then push_alert (location_view (unix now)) h3 else h3

unfoldable pub raise_claimed : ℕ → Bool → Alert → Hub × Bool → Hub
unfolding raise_alarm
raise_claimed now location a (h, claimed) = if claimed then raise_alarm now location a h else h

-- The second question of `dispatchAlert`: an alert is taken in hand while the machine is armed.
unfoldable pub on_watch : Alert → Hub → Hub
on_watch a h = if h.watch.armed then record h { in_hand = some a } else h

unfoldable pub unless_done : Alert → Hub × Bool → Hub
unfolding on_watch
unless_done a (h, done) = if done then h else on_watch a h

-- `dispatchAlert`, up to the moment at which `IsArmed` gives the lock back.
unfoldable pub take_alert : ℕ → Alert → Hub → Hub
unfolding auto_armed unless_done
take_alert now a h = unless_done a (auto_armed now a h)

unfoldable pub put_down : Hub → Hub
put_down h = record h { in_hand = none }

unfoldable pub claim_taken : ℕ → Bool → Option Alert → Hub → Hub
unfolding claim_alarm raise_claimed
claim_taken now location none h = h
claim_taken now location (some a) h = raise_claimed now location a (claim_alarm now a h)

-- The rest of it, which takes the lock anew: whether the machine is still armed is not asked again.
unfoldable pub finish_alert : ℕ → Bool → Hub → Hub
unfolding claim_taken put_down
finish_alert now location h = claim_taken now location h.in_hand (put_down h)
