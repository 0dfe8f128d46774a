-- ===== src/Ws/Hub/Guard/Messages.antt =====
-- A message of a paired client without the PIN leaves the machine armed and the PIN in force.
use leave_safe.Prelude.{
  ℕ, Bool, true, false, ◌&&◌, Option, none, some, ◌≡◌, refl, ◌∙◌, [], Bytes, bytes_eq,
  if◌then◌else◌, arith, Bool-cases, inl, inr,
}
use leave_safe.Auth.Pin.{verify_pin_hash}
use leave_safe.Config.{Config}
use leave_safe.Ws.Message.{
  ClientMessage, ConfigPayload, PushSub, MsgType, auth, ping, test_alert, configure,
  disarm_with_pin, trigger_sensor, get_config, location_anchor, get_location, update_config,
  reset_config, dismiss_alarm_pause, dismiss_alarm_disable, push_subscribe, unknown_type,
}
use leave_safe.Ws.Hub.{Env, Moment, Hub, emit, push_alert, send_to, emit_all}
use leave_safe.Ws.Hub.Arming
use leave_safe.Ws.Hub.Alerts.{trigger_sensor_test}
use leave_safe.Ws.Hub.Update.{
  handle_get_config, show_config, handle_disarm, handle_disarm_pin, handle_configure,
}
use leave_safe.Ws.Hub.Reconfigure
use leave_safe.Ws.Hub.Reconfigure.{
  pin_active, changing_pin, apply_settings, update_settings, handle_update_config,
  handle_reset_config, Outcome, update_given, reset_given,
}
use leave_safe.Ws.Hub.Handle
use leave_safe.Ws.Hub.View.{View, view}
use leave_safe.Ws.Hub.View.Clients.{else_view}
use leave_safe.Ws.Hub.View.Alarms
use leave_safe.Ws.Hub.Guard.{
  stored_pin, IsGuarded, IsGuardedView, by_view, apply_settings_pin, apply_settings_forced,
}
use leave_safe.Ws.Hub.Guard.Refused

-- The stored PIN of a guarded hub, on its configuration.
stored_some :
    (hash : Bytes) (c : Config)
    → stored_pin (some c) ≡ some (true, hash)
    → (c.pin_protection.enabled ≡ true) × (c.pin_protection.pin_hash ≡ hash)
stored_some hash c e = ground (arith, e)

pub view-show_config :
    (i : ℕ) (stored : Option Config) (h : Hub) → view (show_config i stored h) ≡ view h
unfolding show_config send_to emit view
view-show_config i none h = refl
view-show_config i (some c) h = refl

pub subscribe_view :
    (o : Option PushSub) (h : Hub) → view (Handle.handle_push_subscribe o h) ≡ view h
unfolding Handle.handle_push_subscribe emit view
subscribe_view none h = refl
subscribe_view (some p) h = refl

module _ (env : Env) (hash : Bytes) (some_hash : bytes_eq hash [] ≡ false) where
  pub asks : (h : Hub) → IsGuarded hash h → Arming.pin_required_now h ≡ true
  unfolding Arming.pin_required_now view
  asks h g = ground (arith, g.1, g.2, some_hash)

  active :
      (c : Config) → stored_pin (some c) ≡ some (true, hash) → pin_active c.pin_protection ≡ true
  unfolding pin_active
  active c e = let (a, b) = stored_some hash c e in ground (arith, a, b, some_hash)

  update_settings_kept :
      (t : Moment) (p : ConfigPayload) (c : Config) (h : Hub)
      → stored_pin (some c) ≡ some (true, hash)
      → changing_pin c p ≡ false
      → IsGuarded hash h
      → IsGuarded hash (update_settings env t p c h)
  unfolding view
  update_settings_kept t p c h e n g =
      let out : Outcome = apply_settings env t p h.watch.armed h.watch.sensors c in
      let (on, its) = stored_some hash c e in
      let q = apply_settings_pin env t p h.watch.armed h.watch.sensors c n in
      let (f1, f2) = apply_settings_forced env t p h.watch.armed h.watch.sensors c in
      let enabled : out.snapshot.pin_protection.enabled ≡ true = rw q on in
      let hashed : out.snapshot.pin_protection.pin_hash ≡ hash = rw q its in
      by_view hash (update_settings env t p c h) (Refused.followed out h.watch.sensors (view h))
        (Refused.view-update_settings env t p c h)
        (g.0, f1 ∙ enabled, f2 ∙ hashed, rw (enabled, hashed) refl)

  update_given_kept :
      (t : Moment) (i : ℕ) (msg : ClientMessage) (o : Option ConfigPayload) (stored : Option Config)
      (h : Hub)
      → verify_pin_hash env.crypto msg.pin hash ≡ false
      → stored_pin stored ≡ some (true, hash)
      → IsGuarded hash h
      → IsGuarded hash (update_given env t i msg o stored h)
  unfolding update_given
  update_given_kept t i msg none stored h v e g = g
  update_given_kept t i msg (some p) none h v e g = g
  update_given_kept t i msg (some p) (some c) h v e g = elim (Bool-cases (changing_pin c p)) [
    | inl n ↦
        let w : verify_pin_hash env.crypto msg.pin c.pin_protection.pin_hash ≡ false =
          rw (stored_some hash c e).1 v in
        by_view hash (Reconfigure.update_config env t i msg p c h) (view h)
          (Refused.update_refused env t i msg p c h (rw (active c e, n) refl) w) g
    | inr n ↦
        by_view hash (Reconfigure.update_config env t i msg p c h)
          (view (update_settings env t p c h))
          (unfold Reconfigure.update_config in
            else_view (pin_active c.pin_protection && changing_pin c p) _ _ _
              (rw (active c e, n) refl) refl)
          (update_settings_kept t p c h e n g)
  ]

  reset_given_kept :
      (t : Moment) (i : ℕ) (msg : ClientMessage) (stored : Option Config) (h : Hub)
      → verify_pin_hash env.crypto msg.pin hash ≡ false
      → stored_pin stored ≡ some (true, hash)
      → IsGuarded hash h
      → IsGuarded hash (reset_given env t i msg stored h)
  unfolding reset_given
  reset_given_kept t i msg none h v e g = g
  reset_given_kept t i msg (some c) h v e g =
      let w : verify_pin_hash env.crypto msg.pin c.pin_protection.pin_hash ≡ false =
        rw (stored_some hash c e).1 v in
      by_view hash (Reconfigure.reset_config env t i msg c h) (view h)
        (Refused.reset_refused env t i msg c h (active c e) w) g

  either_guarded :
      (b : Bool) (v w : View)
      → IsGuardedView hash v
      → IsGuardedView hash w
      → IsGuardedView hash (if b then v else w)
  either_guarded true v w g k = g
  either_guarded false v w g k = k

  pub if_kept :
      (b : Bool) (x y : Hub)
      → IsGuarded hash x
      → IsGuarded hash y
      → IsGuarded hash (if b then x else y)
  if_kept true x y g k = g
  if_kept false x y g k = k

  -- An answer to the alarm.
  answered_kept :
      (x h : Hub)
      → view x
        ≡ Alarms.switched_off h.watch.alarm.sensor (record (view h) { alarm = Arming.no_alarm })
      → IsGuarded hash h
      → IsGuarded hash x
  answered_kept x h e g =
      by_view hash x _ e (either_guarded (bytes_eq h.watch.alarm.sensor []) _ _ g g)

  test_kept :
      (now : ℕ) (name : Bytes) (h : Hub)
      → IsGuarded hash h
      → IsGuarded hash (trigger_sensor_test now name h).0
  test_kept now name h g =
      by_view hash (trigger_sensor_test now name h).0 _
        (Alarms.trigger_sensor_test-IsButAlarm now name h) g

  -- A message of a paired client.
  pub paired_kept :
      (t : Moment) (i : ℕ) (msg : ClientMessage) (kind : MsgType) (h : Hub)
      → verify_pin_hash env.crypto msg.pin hash ≡ false
      → IsGuarded hash h
      → IsGuarded hash (Handle.handle_paired env t i msg kind h)
  unfolding Handle.handle_paired view emit send_to push_alert emit_all handle_update_config
      handle_reset_config handle_get_config
  paired_kept t i msg MsgType.arm h v g =
      by_view hash (Arming.arm t.now h) _ (Alarms.view-arm t.now h) (refl, g.1, g.2, g.3)
  paired_kept t i msg MsgType.disarm h v g =
      by_view hash (handle_disarm env t i h) (view h) (Refused.disarm_refused env t i h (asks h g))
        g
  paired_kept t i msg disarm_with_pin h v g =
      by_view hash (handle_disarm_pin env t i msg h) (view h)
        (Refused.disarm_pin_refused env t i msg h (asks h g) (rw g.2 v)) g
  paired_kept t i msg configure h v g =
      by_view hash (handle_configure t.now msg h) (view h)
        (Refused.configure_refused env t.now msg h g.0) g
  paired_kept t i msg test_alert h v g = g
  paired_kept t i msg trigger_sensor h v g =
      if_kept (bytes_eq msg.sensor []) h (trigger_sensor_test t.now msg.sensor h).0 g
        (test_kept t.now msg.sensor h g)
  paired_kept t i msg get_config h v g =
      by_view hash (show_config i h.watch.cfg h) (view h) (view-show_config i h.watch.cfg h) g
  paired_kept t i msg location_anchor h v g = g
  paired_kept t i msg get_location h v g = g
  paired_kept t i msg update_config h v g =
      update_given_kept t i msg msg.config h.watch.cfg h v g.3 g
  paired_kept t i msg reset_config h v g = reset_given_kept t i msg h.watch.cfg h v g.3 g
  paired_kept t i msg MsgType.dismiss_alarm h v g =
      by_view hash (Arming.dismiss_alarm t.now h) _ (Alarms.view-dismiss_alarm t.now h) g
  paired_kept t i msg dismiss_alarm_pause h v g =
      answered_kept (Arming.pause_alarm_sensor t.now msg.duration h) h
        (Alarms.view-pause_alarm_sensor t.now msg.duration h) g
  paired_kept t i msg dismiss_alarm_disable h v g =
      answered_kept (Arming.disable_alarm_sensor t.now h) h
        (Alarms.view-disable_alarm_sensor t.now h) g
  paired_kept t i msg push_subscribe h v g =
      by_view hash (Handle.handle_push_subscribe msg.push h) (view h) (subscribe_view msg.push h) g
  paired_kept t i msg auth h v g = g
  paired_kept t i msg ping h v g = g
  paired_kept t i msg unknown_type h v g = g
