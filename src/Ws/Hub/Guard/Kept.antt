-- ===== src/Ws/Hub/Guard/Kept.antt =====
-- Whatever reaches the hub without the PIN, the machine stays armed and the PIN in force.
use leave_safe.Prelude.{
  ℕ, Bool, true, false, ◌||◌, not, Option, none, some, ◌≡◌, refl, ap, ◌∙◌, List, [], ◌∷◌, Bytes,
  codes, bytes_eq, Bool-cases, inl, inr, All,
}
use leave_safe.Auth.Pin.{verify_pin_hash}
use leave_safe.Auth.Methods.{touch_session}
use leave_safe.Monitor.Alerting.{Alert}
use leave_safe.Ws.Message.{ClientMessage, auth_fail, pong}
use leave_safe.Ws.Hub.{
  Env, Moment, Hub, emit, emit_all, push_alert, send_to, set_conn, broadcast_status,
}
use leave_safe.Ws.Hub.Arming.{arm, clear_alarm, unpause_sensor}
use leave_safe.Ws.Hub.Alerts.{
  auto_armed, claim_alarm, raise_alarm, raise_claimed, take_alert, finish_alert, claim_taken,
  put_down, trigger_sensor_test,
}
use leave_safe.Ws.Hub.Update.{set_auth, disarm_with_pin}
use leave_safe.Ws.Hub.Pairing.{handle_auth}
use leave_safe.Ws.Hub.Sockets.{expire, connect, disconnect, drop_expired_sessions, gone_check}
use leave_safe.Ws.Hub.Handle
use leave_safe.Ws.Hub.Steps.{
  Step, message, alerted, claimed, unpaused, connected, disconnected, gone_for_good, heartbeat,
  console_arm, console_disarm, console_stop, console_trigger, console_test, arm_from_console,
  disarm_from_console, test_from_console, take_step, take_steps,
}
use leave_safe.Ws.Hub.View.{view, view-broadcast_status}
use leave_safe.Ws.Hub.View.Clients
use leave_safe.Ws.Hub.View.Alarms
use leave_safe.Ws.Hub.Guard.{IsGuarded, by_view}
use leave_safe.Ws.Hub.Guard.Refused
use leave_safe.Ws.Hub.Guard.Messages.{asks, paired_kept, if_kept}

-- A step that brings no PIN which verifies, and that is no report of the screen.
unfoldable pub IsWithoutPin : Env → Bytes → Step → Type 0
IsWithoutPin env hash (message t i msg) = verify_pin_hash env.crypto msg.pin hash ≡ false
IsWithoutPin env hash (alerted now a) = bytes_eq a.sensor (codes "screen") ≡ false
IsWithoutPin env hash (unpaused now sensor) = Unit
IsWithoutPin env hash (connected now random i) = Unit
IsWithoutPin env hash (disconnected i) = Unit
IsWithoutPin env hash gone_for_good = Unit
IsWithoutPin env hash (heartbeat now) = Unit
IsWithoutPin env hash (claimed now location) = Unit
IsWithoutPin env hash (console_arm now) = Unit
IsWithoutPin env hash (console_disarm t pin) = verify_pin_hash env.crypto pin hash ≡ false
IsWithoutPin env hash (console_stop now) = Unit
IsWithoutPin env hash (console_trigger now name) = Unit
IsWithoutPin env hash (console_test now) = Unit

pub session_view :
    (t : Moment) (i : ℕ) (msg : ClientMessage) (h : Hub)
    → view (Handle.session_still_live t i msg h).0 ≡ view h
unfolding Handle.session_still_live set_auth view
session_view t i msg h =
    let c = h.conns i in
    let (m, live) = touch_session h.auth c.token t.now in
    let h1 : Hub = set_auth m h in
    Clients.either_view (not c.authenticated || Handle.is_auth msg.kind) (h, true) _ (view h) refl
      (Clients.either_view live (h1, true) (expire i h1, false) (view h) refl
        (Clients.view-expire i h1))

pub rate_view :
    (t : Moment) (i : ℕ) (msg : ClientMessage) (h : Hub)
    → view (Handle.within_rate_limit t i msg h).0 ≡ view h
unfolding Handle.within_rate_limit set_conn view
rate_view t i msg h = refl

module _ (env : Env) (hash : Bytes) (some_hash : bytes_eq hash [] ≡ false) where
  if_paired_kept :
      (t : Moment) (i : ℕ) (msg : ClientMessage) (h : Hub)
      → verify_pin_hash env.crypto msg.pin hash ≡ false
      → IsGuarded hash h
      → IsGuarded hash (Handle.if_paired env t i msg h)
  unfolding Handle.if_paired send_to emit view
  if_paired_kept t i msg h v g =
      if_kept env hash some_hash (h.conns i).authenticated
        (Handle.handle_paired env t i msg msg.kind h)
        (send_to i (auth_fail (codes "not authenticated") 0) h)
        (paired_kept env hash some_hash t i msg msg.kind h v g) g

  route_kept :
      (t : Moment) (i : ℕ) (msg : ClientMessage) (h : Hub)
      → verify_pin_hash env.crypto msg.pin hash ≡ false
      → IsGuarded hash h
      → IsGuarded hash (Handle.route env t i msg h)
  unfolding Handle.route send_to emit view
  route_kept t i msg h v g =
      if_kept env hash some_hash (Handle.is_auth msg.kind) (handle_auth env t i msg h) _
        (by_view hash (handle_auth env t i msg h) (view h) (Clients.view-handle_auth env t i msg h)
          g)
        (if_kept env hash some_hash (Handle.is_ping msg.kind) (send_to i pong h)
          (Handle.if_paired env t i msg h) g (if_paired_kept t i msg h v g))

  message_kept :
      (t : Moment) (i : ℕ) (msg : ClientMessage) (h : Hub)
      → verify_pin_hash env.crypto msg.pin hash ≡ false
      → IsGuarded hash h
      → IsGuarded hash (Handle.handle_message env t i msg h)
  unfolding Handle.handle_message
  message_kept t i msg h v g =
      let (h1, live) = Handle.session_still_live t i msg h in
      let (h2, allowed) = Handle.within_rate_limit t i msg h1 in
      let g1 = by_view hash h1 (view h) (session_view t i msg h) g in
      let g2 = by_view hash h2 (view h1) (rate_view t i msg h1) g1 in
      if_kept env hash some_hash (not live) h1 _ g1 (
        if_kept env hash some_hash (not allowed) h2 (Handle.route env t i msg h2) g2
          (route_kept t i msg h2 v g2))

  auto_armed_other :
      (now : ℕ) (a : Alert) (h : Hub)
      → bytes_eq a.sensor (codes "screen") ≡ false
      → auto_armed now a h ≡ (h, false)
  unfolding auto_armed
  auto_armed_other now a h s = elim (Bool-cases h.watch.auto_arm_on_lock) [
    | inl e ↦ rw (e, s) refl
    | inr e ↦ rw e refl
  ]

  take_kept :
      (now : ℕ) (a : Alert) (h : Hub)
      → bytes_eq a.sensor (codes "screen") ≡ false
      → IsGuarded hash h
      → IsGuarded hash (take_alert now a h)
  unfolding take_alert
  take_kept now a h s g =
      by_view hash (take_alert now a h) (view h)
        (Alarms.view-unless_done a (auto_armed now a h)
          ∙ ap (λ (p : Hub × Bool). view p.0) (auto_armed_other now a h s))
        g

  claim_kept :
      (now : ℕ) (location : Bool) (taken : Option Alert) (h : Hub)
      → IsGuarded hash h
      → IsGuarded hash (claim_taken now location taken h)
  unfolding claim_taken raise_claimed
  claim_kept now location none h g = g
  claim_kept now location (some a) h g =
      let (h1, won) = claim_alarm now a h in
      let g1 = by_view hash h1 _ (Alarms.view-claim_alarm now a h) g in
      if_kept env hash some_hash won (raise_alarm now location a h1) h1
        (by_view hash (raise_alarm now location a h1) (view h1)
          (Alarms.view-raise_alarm now location a h1) g1)
        g1

  finish_kept :
      (now : ℕ) (location : Bool) (h : Hub)
      → IsGuarded hash h
      → IsGuarded hash (finish_alert now location h)
  unfolding finish_alert put_down view
  finish_kept now location h g = claim_kept now location h.in_hand (put_down h) g

  console_kept :
      (t : Moment) (pin : Bytes) (h : Hub)
      → verify_pin_hash env.crypto pin hash ≡ false
      → IsGuarded hash h
      → IsGuarded hash (disarm_from_console env t pin h)
  unfolding disarm_from_console view
  console_kept t pin h v g =
      if_kept env hash some_hash h.watch.armed (disarm_with_pin env t (codes "console") pin h).0 h
        (by_view hash (disarm_with_pin env t (codes "console") pin h).0 (view h)
          (Refused.disarm_with_pin_refused env t (codes "console") pin h
            (asks env hash some_hash h g) (rw g.2 v))
          g)
        g

  step_kept :
      (s : Step) (h : Hub)
      → IsWithoutPin env hash s
      → IsGuarded hash h
      → IsGuarded hash (take_step env s h)
  unfolding take_step IsWithoutPin arm_from_console test_from_console push_alert emit_all view
  step_kept (message t i msg) h w g = message_kept t i msg h w g
  step_kept (alerted now a) h w g = take_kept now a h w g
  step_kept (claimed now location) h w g = finish_kept now location h g
  step_kept (console_arm now) h w g =
      if_kept env hash some_hash h.watch.armed h (arm now h) g
        (by_view hash (arm now h) _ (Alarms.view-arm now h) (refl, g.1, g.2, g.3))
  step_kept (console_disarm t pin) h w g = console_kept t pin h w g
  step_kept (console_stop now) h w g =
      by_view hash (clear_alarm now h).0 _ (Alarms.view-clear_alarm now h) g
  step_kept (console_trigger now name) h w g =
      by_view hash (trigger_sensor_test now name h).0 _
        (Alarms.trigger_sensor_test-IsButAlarm now name h) g
  step_kept (console_test now) h w g = g
  step_kept (unpaused now sensor) h w g =
      by_view hash (unpause_sensor now sensor h) _ (Alarms.view-unpause_sensor now sensor h) g
  step_kept (connected now random i) h w g =
      by_view hash (connect now random i h) (view h) (Clients.view-connect now random i h) g
  step_kept (disconnected i) h w g =
      by_view hash (disconnect i h) (view h) (Clients.view-disconnect i h) g
  step_kept gone_for_good h w g = by_view hash (gone_check h) (view h) (Clients.view-gone_check h) g
  step_kept (heartbeat now) h w g =
      by_view hash (broadcast_status now (drop_expired_sessions now h)) (view h)
        (view-broadcast_status now (drop_expired_sessions now h)
          ∙ Clients.view-drop_expired_sessions now h)
        g

-- A machine that is armed, with the PIN in force both in the hub and in its configuration under a
-- hash that is not empty, stays so through every sequence of messages, commands of the console,
-- alerts, pauses, heartbeats and sockets that come and go, as long as no PIN that verifies is given
-- and no report of the screen arrives.
pub take_steps-IsGuarded :
    (env : Env) (hash : Bytes) (steps : List Step) (h : Hub)
    → bytes_eq hash [] ≡ false
    → All (IsWithoutPin env hash) steps
    → IsGuarded hash h
    → IsGuarded hash (take_steps env steps h)
unfolding take_steps
take_steps-IsGuarded env hash [] h n a g = g
take_steps-IsGuarded env hash (s ∷ steps) h n a g =
    take_steps-IsGuarded env hash steps (take_step env s h) n a.1 (step_kept env hash n s h a.0 g)
