-- ===== src/Ws/Hub/Machine/Messages.antt =====
-- The messages of the clients, as runs of the machine.
use leave_safe.Prelude.{
  ℕ, ◌&&◌, ◌||◌, not, Option, none, some, ◌≡◌, ap, ◌∙◌, [], Bytes, codes, bytes_eq,
}
use leave_safe.Auth.Manager.{Manager, AuthError}
use leave_safe.Auth.Methods.{check_pin}
use leave_safe.Auth.Pin.{hash_pin, needs_rehash}
use leave_safe.Config.{Config}
use leave_safe.Ws.Message.{
  ClientMessage, ConfigPayload, MsgType, auth, ping, pong, auth_fail, test_alert, configure,
  disarm_with_pin, trigger_sensor, get_config, location_anchor, get_location, update_config,
  reset_config, dismiss_alarm_pause, dismiss_alarm_disable, push_subscribe, unknown_type,
}
use leave_safe.Ws.Hub.{
  Env, Moment, Hub, emit, emit_all, send_to, set_watch, push_alert, event_pin_fail,
}
use leave_safe.Ws.Hub.Arming
use leave_safe.Ws.Hub.Alerts
use leave_safe.Ws.Hub.Update
use leave_safe.Ws.Hub.Reconfigure
use leave_safe.Ws.Hub.Pairing.{handle_auth}
use leave_safe.Ws.Hub.Handle
use leave_safe.Ws.Hub.View.{View, view}
use leave_safe.Ws.Hub.View.Clients
use leave_safe.Ws.Hub.View.Alarms
use leave_safe.Ws.Hub.Guard.Refused
use leave_safe.Ws.Hub.Guard.Messages.{view-show_config, subscribe_view}
use leave_safe.Ws.Hub.Guard.Kept.{session_view, rate_view}
use leave_safe.Ws.Hub.Machine.{settles, Run, stays, goes, one, Run-trans, Run-along, staying}
use leave_safe.Ws.Hub.Machine.Answers.{
  if_Run, arm-Run, disarm-Run, answered-Run, dismiss-Run, trigger-Run, pick-Run,
}
use leave_safe.Ws.Hub.Machine.Settings.{update-Run, reset-Run, configure-Run}

module _ (env : Env) where
  log_view :
      (prefix : Bytes) (err : AuthError) (h : Hub)
      → view (Update.log_auth_failure env event_pin_fail prefix err h) ≡ view h
  log_view prefix err h = Clients.view-log_auth_failure env event_pin_fail prefix err h

  store_hash-Run :
      {o : View} (updated : Bytes) (stored : Option Config) (h : Hub)
      → Run o (view h) (view (Update.store_hash updated stored h))
  unfolding Update.store_hash Update.set_cfg set_watch emit view
  store_hash-Run updated none h = stays (view h)
  store_hash-Run updated (some c) h =
      one (view h) _
        (settles (view h) _ h.watch.pin_enabled h.watch.pin_hash h.watch.auto_arm_on_lock)

  rehash-Run :
      {o : View} (given : Option Bytes) (h : Hub) → Run o (view h) (view (Update.rehash given h))
  unfolding Update.rehash set_watch view
  rehash-Run none h = stays (view h)
  rehash-Run (some updated) h =
      let h1 : Hub = set_watch (record h.watch { pin_hash = updated }) h in
      goes (view h) (view h1) (view (Update.store_hash updated h.watch.cfg h1))
        (settles (view h) h.watch.cfg h.watch.pin_enabled updated h.watch.auto_arm_on_lock)
        (store_hash-Run updated h.watch.cfg h1)

  checked-Run :
      {o : View} (t : Moment) (pin hash : Bytes) (given : Option AuthError) (h : Hub)
      → Run o (view h) (view (Update.checked env t pin hash given h).0)
  unfolding Update.checked Update.upgrade_pin_hash
  checked-Run t pin hash (some err) h =
      staying (view h) _ (log_view (codes "Disarm refused: ") err h)
  checked-Run t pin hash none h =
      let h1 : Hub = Update.upgrade_pin_hash env t pin hash h in
      Run-trans (view h) (view h1) (view (Arming.disarm t.now h1))
        (if_Run (bytes_eq hash [] || not (needs_rehash hash)) (view h) h _ (stays (view h))
          (rehash-Run (hash_pin env.crypto pin t.random) h))
        (disarm-Run t.now h1)

  pub disarm_with_pin-Run :
      {o : View} (t : Moment) (addr pin : Bytes) (h : Hub)
      → Run o (view h) (view (Update.disarm_with_pin env t addr pin h).0)
  unfolding Update.disarm_with_pin Update.checked_by Update.set_auth view
  disarm_with_pin-Run t addr pin h =
      let (m, err) = check_pin env.crypto h.auth addr pin h.watch.pin_hash t.now in
      pick-Run (Arming.pin_required_now h) (view h) _ (Arming.disarm t.now h, none)
        (checked-Run t pin h.watch.pin_hash err (Update.set_auth m h)) (disarm-Run t.now h)

  -- What is allowed runs on, and what is refused changes nothing.
  if_allowed-Run :
      {o : View} (i : ℕ) (prefix : Bytes) (p : Manager × Option AuthError) (change : Hub → Hub)
      (h : Hub)
      → ((k : Hub) → Run o (view k) (view (change k)))
      → Run o (view h) (view (Reconfigure.if_allowed env i prefix p change h))
  unfolding Reconfigure.if_allowed Update.set_auth send_to emit view
  if_allowed-Run i prefix (m, none) change h r = r (Update.set_auth m h)
  if_allowed-Run i prefix (m, some err) change h r =
      staying (view h) _ (log_view prefix err (Update.set_auth m h))

  update_given-Run :
      {o : View} (t : Moment) (i : ℕ) (msg : ClientMessage) (given : Option ConfigPayload)
      (stored : Option Config) (h : Hub)
      → Run o (view h) (view (Reconfigure.update_given env t i msg given stored h))
  unfolding Reconfigure.update_given Reconfigure.update_config
  update_given-Run t i msg none stored h = stays (view h)
  update_given-Run t i msg (some p) none h = stays (view h)
  update_given-Run t i msg (some p) (some c) h =
      let prefix = codes "PIN settings change refused: " in
      let asked =
        check_pin env.crypto h.auth (h.conns i).remote_addr msg.pin c.pin_protection.pin_hash
          t.now in
      if_Run (Reconfigure.pin_active c.pin_protection && Reconfigure.changing_pin c p) (view h)
        (Reconfigure.if_allowed env i prefix asked (Reconfigure.update_settings env t p c) h)
        (Reconfigure.update_settings env t p c h)
        (if_allowed-Run i prefix asked (Reconfigure.update_settings env t p c) h
          (λ k. update-Run env t p c k))
        (update-Run env t p c h)

  reset_given-Run :
      {o : View} (t : Moment) (i : ℕ) (msg : ClientMessage) (stored : Option Config) (h : Hub)
      → Run o (view h) (view (Reconfigure.reset_given env t i msg stored h))
  unfolding Reconfigure.reset_given Reconfigure.reset_config
  reset_given-Run t i msg none h = stays (view h)
  reset_given-Run t i msg (some c) h =
      let prefix = codes "Config reset refused: " in
      let asked =
        check_pin env.crypto h.auth (h.conns i).remote_addr msg.pin c.pin_protection.pin_hash
          t.now in
      if_Run (Reconfigure.pin_active c.pin_protection) (view h)
        (Reconfigure.if_allowed env i prefix asked (Reconfigure.reset_settings env t i c) h)
        (Reconfigure.reset_settings env t i c h)
        (if_allowed-Run i prefix asked (Reconfigure.reset_settings env t i c) h
          (λ k. reset-Run env t i c k))
        (reset-Run env t i c h)

  paired-Run :
      {o : View} (t : Moment) (i : ℕ) (msg : ClientMessage) (kind : MsgType) (h : Hub)
      → view h ≡ o
      → Run o (view h) (view (Handle.handle_paired env t i msg kind h))
  unfolding Handle.handle_paired view emit send_to push_alert emit_all Update.handle_disarm
      Update.handle_disarm_pin Reconfigure.handle_update_config Reconfigure.handle_reset_config
      Update.handle_get_config
  paired-Run t i msg MsgType.arm h e = arm-Run t.now h (ap (λ (v : View). v.armed) e)
  paired-Run t i msg MsgType.disarm h e =
      if_Run (Arming.pin_required_now h) (view h) _ (Arming.disarm t.now h) (stays (view h))
        (disarm-Run t.now h)
  paired-Run t i msg disarm_with_pin h e =
      Run-along (view h) _ (view (Update.handle_disarm_pin env t i msg h))
        (Refused.view-answer_pin env i
          (Update.disarm_with_pin env t (h.conns i).remote_addr msg.pin h))
        (disarm_with_pin-Run t (h.conns i).remote_addr msg.pin h)
  paired-Run t i msg configure h e = configure-Run t.now msg h
  paired-Run t i msg test_alert h e = stays (view h)
  paired-Run t i msg trigger_sensor h e =
      if_Run (bytes_eq msg.sensor []) (view h) h (Alerts.trigger_sensor_test t.now msg.sensor h).0
        (stays (view h)) (trigger-Run t.now msg.sensor h)
  paired-Run t i msg get_config h e =
      staying (view h) (view (Update.show_config i h.watch.cfg h))
        (view-show_config i h.watch.cfg h)
  paired-Run t i msg location_anchor h e = stays (view h)
  paired-Run t i msg get_location h e = stays (view h)
  paired-Run t i msg update_config h e = update_given-Run t i msg msg.config h.watch.cfg h
  paired-Run t i msg reset_config h e = reset_given-Run t i msg h.watch.cfg h
  paired-Run t i msg MsgType.dismiss_alarm h e = dismiss-Run t.now h
  paired-Run t i msg dismiss_alarm_pause h e =
      answered-Run (Arming.pause_alarm_sensor t.now msg.duration h) h
        (Alarms.view-pause_alarm_sensor t.now msg.duration h) (ap (λ (v : View). v.alarm.sensor) e)
  paired-Run t i msg dismiss_alarm_disable h e =
      answered-Run (Arming.disable_alarm_sensor t.now h) h
        (Alarms.view-disable_alarm_sensor t.now h) (ap (λ (v : View). v.alarm.sensor) e)
  paired-Run t i msg push_subscribe h e =
      staying (view h) (view (Handle.handle_push_subscribe msg.push h)) (subscribe_view msg.push h)
  paired-Run t i msg auth h e = stays (view h)
  paired-Run t i msg ping h e = stays (view h)
  paired-Run t i msg unknown_type h e = stays (view h)

  if_paired-Run :
      {o : View} (t : Moment) (i : ℕ) (msg : ClientMessage) (h : Hub)
      → view h ≡ o
      → Run o (view h) (view (Handle.if_paired env t i msg h))
  unfolding Handle.if_paired send_to emit view
  if_paired-Run t i msg h e =
      if_Run (h.conns i).authenticated (view h) (Handle.handle_paired env t i msg msg.kind h)
        (send_to i (auth_fail (codes "not authenticated") 0) h) (paired-Run t i msg msg.kind h e)
        (stays (view h))

  route-Run :
      {o : View} (t : Moment) (i : ℕ) (msg : ClientMessage) (h : Hub)
      → view h ≡ o
      → Run o (view h) (view (Handle.route env t i msg h))
  unfolding Handle.route send_to emit view
  route-Run t i msg h e =
      if_Run (Handle.is_auth msg.kind) (view h) (handle_auth env t i msg h) _
        (staying (view h) (view (handle_auth env t i msg h))
          (Clients.view-handle_auth env t i msg h))
        (if_Run (Handle.is_ping msg.kind) (view h) (send_to i pong h)
          (Handle.if_paired env t i msg h) (stays (view h)) (if_paired-Run t i msg h e))

  pub message-Run :
      (t : Moment) (i : ℕ) (msg : ClientMessage) (h : Hub)
      → Run (view h) (view h) (view (Handle.handle_message env t i msg h))
  unfolding Handle.handle_message
  message-Run t i msg h =
      let (h1, live) = Handle.session_still_live t i msg h in
      let (h2, allowed) = Handle.within_rate_limit t i msg h1 in
      let r1 = staying (view h) (view h1) (session_view t i msg h) in
      let r2 = staying (view h) (view h2) (rate_view t i msg h1 ∙ session_view t i msg h) in
      if_Run (not live) (view h) h1 _ r1 (
        if_Run (not allowed) (view h) h2 (Handle.route env t i msg h2) r2 (
          Run-trans (view h) (view h2) (view (Handle.route env t i msg h2)) r2
            (route-Run t i msg h2 (rate_view t i msg h1 ∙ session_view t i msg h))))
