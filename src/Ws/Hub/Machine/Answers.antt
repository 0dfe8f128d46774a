-- ===== src/Ws/Hub/Machine/Answers.antt =====
-- Arming, disarming, the answers to an alarm and the alerts, as runs of the machine.
use leave_safe.Prelude.{
  ℕ, Bool, true, false, ◌&&◌, not, Option, none, some, ◌≡◌, refl, ◌∙◌, [], ◌++◌, ltb, Bytes, codes,
  bytes_eq, if◌then◌else◌, arith, Bool-cases, inl, inr,
}
use leave_safe.Prelude.Map.{lookup, insert, erase}
use leave_safe.Monitor.Alerting.{Alert}
use leave_safe.Ws.Hub.{Hub, emit, emit_all, set_watch, push_alert}
use leave_safe.Ws.Hub.Arming
use leave_safe.Ws.Hub.Alerts
use leave_safe.Ws.Hub.View.{View, view}
use leave_safe.Ws.Hub.View.Clients
use leave_safe.Ws.Hub.View.Alarms
use leave_safe.Ws.Hub.Machine.{
  arms, disarms, clears, answers, raises, graces, Run, stays, goes, one, Run-along, staying,
}

pub if_Run :
    {o : View} (b : Bool) (v : View) (x y : Hub)
    → Run o v (view x)
    → Run o v (view y)
    → Run o v (view (if b then x else y))
if_Run true v x y r s = r
if_Run false v x y r s = s

pub arm-Run :
    {o : View} (now : ℕ) (h : Hub)
    → (view h).armed ≡ o.armed
    → Run o (view h) (view (Arming.arm now h))
arm-Run now h e =
    Run-along (view h) _ (view (Arming.arm now h)) (Alarms.view-arm now h)
      (one (view h) _ (arms (view h) now e))

pub disarm-Run : {o : View} (now : ℕ) (h : Hub) → Run o (view h) (view (Arming.disarm now h))
disarm-Run now h =
    Run-along (view h) _ (view (Arming.disarm now h)) (Alarms.view-disarm now h)
      (one (view h) _ (disarms (view h)))

then_eq : (b : Bool) (v w : View) → b ≡ true → (if b then v else w) ≡ v
then_eq true v w e = refl
then_eq false v w e = absurd cc

pub else_eq : (b : Bool) (v w : View) → b ≡ false → (if b then v else w) ≡ w
else_eq true v w e = absurd cc
else_eq false v w e = refl

-- An answer to the alarm calls it off, and switches its sensor off if there is one.
pub answered-Run :
    {o : View} (x h : Hub)
    → view x
      ≡ Alarms.switched_off h.watch.alarm.sensor (record (view h) { alarm = Arming.no_alarm })
    → h.watch.alarm.sensor ≡ o.alarm.sensor
    → Run o (view h) (view x)
unfolding view
answered-Run x h e found =
    let cleared : View = record (view h) { alarm = Arming.no_alarm } in
    let off : View = record cleared {
      switched = insert h.watch.alarm.sensor false cleared.switched;
    } in
    elim (Bool-cases (bytes_eq h.watch.alarm.sensor [])) [
      | inl n ↦
          Run-along (view h) cleared (view x)
            (e ∙ then_eq (bytes_eq h.watch.alarm.sensor []) cleared off n)
            (one (view h) cleared (clears (view h)))
      | inr n ↦
          Run-along (view h) off (view x)
            (e ∙ else_eq (bytes_eq h.watch.alarm.sensor []) cleared off n)
            (one (view h) off (answers (view h) found))
    ]

pub dismiss-Run :
    {o : View} (now : ℕ) (h : Hub) → Run o (view h) (view (Arming.dismiss_alarm now h))
dismiss-Run now h =
    let cleared : View = record (view h) { alarm = Arming.no_alarm } in
    let s = (view (Arming.dismiss_alarm now h)).suppressed_sensors in
    Run-along (view h) (record cleared { suppressed_sensors = s })
      (view (Arming.dismiss_alarm now h)) (Alarms.view-dismiss_alarm now h)
      (goes (view h) cleared _ (clears (view h)) (one cleared _ (graces cleared s)))

-- An alarm that is recorded where one may be.
record-Run :
    {o : View} (now : ℕ) (sensor text : Bytes) (h : Hub)
    → h.watch.alarm.active ≡ false
    → Run o (view h) (view (Alerts.record_alarm now sensor text h))
unfolding Alerts.record_alarm set_watch view
record-Run now sensor text h n =
    one (view h) _
      (raises (view h) (record { active = true; sensor = sensor; message = text; at = now }) n)

both : (a b : Bool) → (a && not b) ≡ true → (a ≡ true) × (b ≡ false)
both a b h = ground arith

trigger_test-Run :
    {o : View} (now : ℕ) (name display : Bytes) (h : Hub)
    → Run o (view h) (view (Alerts.trigger_test now name display h))
unfolding Alerts.trigger_test push_alert emit_all emit view
trigger_test-Run now name display h =
    let text : Bytes = display ++ codes " triggered (manual test)" in
    elim (Bool-cases (h.watch.armed && not h.watch.alarm.active)) [
      | inl e ↦
          let (a, n) = both h.watch.armed h.watch.alarm.active e in
          Run-along (view h) (view (Alerts.record_alarm now name text h))
            (view (Alerts.trigger_test now name display h))
            (Clients.then_view (h.watch.armed && not h.watch.alarm.active) _ _ _ e
              (unfold Alerts.record_alarm set_watch in refl))
            (record-Run now name text h n)
      | inr e ↦
          staying (view h) (view (Alerts.trigger_test now name display h))
            (Clients.else_view (h.watch.armed && not h.watch.alarm.active) _ _ _ e refl)
    ]

pub pick-Run :
    {o : View} {A : Type 0} (b : Bool) (v : View) (x y : Hub × A)
    → Run o v (view x.0)
    → Run o v (view y.0)
    → Run o v (view (if b then x else y).0)
pick-Run true v x y r s = r
pick-Run false v x y r s = s

pub trigger-Run :
    {o : View} (now : ℕ) (name : Bytes) (h : Hub)
    → Run o (view h) (view (Alerts.trigger_sensor_test now name h).0)
unfolding Alerts.trigger_sensor_test
trigger-Run now name h =
    let display = Alerts.display_name_of name h.watch.sensors.sensors in
    pick-Run (bytes_eq display []) (view h) (h, false)
      (Alerts.trigger_test now name display h, true) (stays (view h))
      (trigger_test-Run now name display h)

decide-Run :
    {o : View} (b : Bool) (v : View) (x y : Hub × Bool)
    → (b ≡ true → Run o v (view x.0))
    → (b ≡ false → Run o v (view y.0))
    → Run o v (view (if b then x else y).0)
decide-Run true v x y r s = r refl
decide-Run false v x y r s = s refl

claim-Run :
    {o : View} (now : ℕ) (a : Alert) (h : Hub) → Run o (view h) (view (Alerts.claim now a h).0)
unfolding Alerts.claim
claim-Run now a h =
    decide-Run h.watch.alarm.active (view h) (h, false)
      (Alerts.record_alarm now a.sensor a.message h, true) (λ n. stays (view h))
      (λ n. record-Run now a.sensor a.message h n)

claim_after-Run :
    {o : View} (now : ℕ) (a : Alert) (grace : Option ℕ) (h : Hub)
    → Run o (view h) (view (Alerts.claim_after now a grace h).0)
unfolding Alerts.claim_after Alerts.end_grace set_watch view
claim_after-Run now a none h = claim-Run now a h
claim_after-Run now a (some until) h =
    let h1 : Hub = Alerts.end_grace a.sensor h in
    pick-Run (ltb now until) (view h) (h, false) (Alerts.claim now a h1) (stays (view h))
      (goes (view h) (view h1) (view (Alerts.claim now a h1).0)
        (graces (view h) (erase a.sensor h.watch.suppressed_sensors)) (claim-Run now a h1))

raise_claimed-view :
    (now : ℕ) (location : Bool) (a : Alert) (p : Hub × Bool)
    → view (Alerts.raise_claimed now location a p) ≡ view p.0
unfolding Alerts.raise_claimed
raise_claimed-view now location a p =
    Clients.if_view p.1 (Alerts.raise_alarm now location a p.0) p.0 (view p.0)
      (Alarms.view-raise_alarm now location a p.0) refl

taken-Run :
    {o : View} (now : ℕ) (location : Bool) (taken : Option Alert) (h : Hub)
    → Run o (view h) (view (Alerts.claim_taken now location taken h))
unfolding Alerts.claim_taken Alerts.claim_alarm
taken-Run now location none h = stays (view h)
taken-Run now location (some a) h =
    Run-along (view h) (view (Alerts.claim_alarm now a h).0)
      (view (Alerts.claim_taken now location (some a) h))
      (raise_claimed-view now location a (Alerts.claim_alarm now a h))
      (claim_after-Run now a (lookup a.sensor h.watch.suppressed_sensors) h)

pub finish-Run :
    {o : View} (now : ℕ) (location : Bool) (h : Hub)
    → Run o (view h) (view (Alerts.finish_alert now location h))
unfolding Alerts.finish_alert Alerts.claim_taken Alerts.claim_alarm Alerts.put_down view
finish-Run now location h = taken-Run now location h.in_hand (Alerts.put_down h)

auto_armed-Run :
    {o : View} (now : ℕ) (a : Alert) (h : Hub)
    → (view h).armed ≡ o.armed
    → Run o (view h) (view (Alerts.auto_armed now a h).0)
unfolding Alerts.auto_armed
auto_armed-Run now a h e =
    pick-Run _ (view h) (h, false) _ (stays (view h))
      (pick-Run _ (view h) (Arming.arm now h, true) _ (arm-Run now h e)
        (pick-Run _ (view h) (Arming.disarm now h, true) (h, false) (disarm-Run now h)
          (stays (view h))))

pub take_alert-Run :
    {o : View} (now : ℕ) (a : Alert) (h : Hub)
    → (view h).armed ≡ o.armed
    → Run o (view h) (view (Alerts.take_alert now a h))
unfolding Alerts.take_alert
take_alert-Run now a h e =
    Run-along (view h) (view (Alerts.auto_armed now a h).0) (view (Alerts.take_alert now a h))
      (Alarms.view-unless_done a (Alerts.auto_armed now a h)) (auto_armed-Run now a h e)
