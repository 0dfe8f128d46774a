-- ===== src/Ws/Hub/Handle.antt =====
-- `handleMessage` of internal/ws/hub.go, and the steps that reach the hub from elsewhere.
use leave_safe.Prelude.{
  ℕ, Bool, true, false, ◌||◌, not, Option, none, some, [], codes, bytes_eq, if◌then◌else◌,
}
use leave_safe.Auth.Policy.{pos}
use leave_safe.Auth.Methods.{touch_session}
use leave_safe.Ws.Client.{allow_message, allow_auth}
use leave_safe.Ws.Message.{
  MsgType, ClientMessage, PushSub, auth, ping, pong, auth_fail, new_alert, location_view, unix,
  disarm_with_pin, configure, test_alert, trigger_sensor, get_config, location_anchor, get_location,
  update_config, reset_config, dismiss_alarm_pause, dismiss_alarm_disable, push_subscribe,
  unknown_type,
}
use leave_safe.Ws.Hub.{
  Env, Moment, Hub, subscribed, anchor_offered, emit, send_to, set_conn, push_alert,
}
use leave_safe.Ws.Hub.Arming
use leave_safe.Ws.Hub.Alerts.{trigger_sensor_test}
use leave_safe.Ws.Hub.Update.{
  set_auth, handle_configure, handle_get_config, handle_disarm, handle_disarm_pin,
}
use leave_safe.Ws.Hub.Reconfigure.{handle_update_config, handle_reset_config}
use leave_safe.Ws.Hub.Pairing.{handle_auth}
use leave_safe.Ws.Hub.Sockets.{expire}

-- Whether a message is a pairing attempt.
unfoldable pub is_auth : MsgType → Bool
is_auth auth = true
is_auth _ = false

unfoldable pub is_ping : MsgType → Bool
is_ping ping = true
is_ping _ = false

-- `sessionStillLive`.
unfoldable pub session_still_live : Moment → ℕ → ClientMessage → Hub → Hub × Bool
unfolding is_auth set_auth expire
session_still_live t i msg h =
    let c = h.conns i in
    if not c.authenticated || is_auth msg.kind
    then (h, true)
    else let (m, live) = touch_session h.auth c.token t.now in
      if live then (set_auth m h, true) else (expire i (set_auth m h), false)

-- `withinRateLimit`.
unfoldable pub within_rate_limit : Moment → ℕ → ClientMessage → Hub → Hub × Bool
unfolding is_auth set_conn
within_rate_limit t i msg h =
    let c = h.conns i in
    let (s, ok) =
      if is_auth msg.kind
      then allow_auth (pos h.auth.opts.max_attempts) c.socket t.now
      else allow_message c.socket t.now in
    (set_conn i (record c { socket = s }) h, ok)

-- `handlePushSubscribe`, where there is a notifier.
unfoldable pub handle_push_subscribe : Option PushSub → Hub → Hub
unfolding emit
handle_push_subscribe none h = h
handle_push_subscribe (some p) h = emit (subscribed p) h

module _ (env : Env) where
  -- `handlePairedMessage`. What becomes of an offered position is up to the location tracker.
  unfoldable pub handle_paired : Moment → ℕ → ClientMessage → MsgType → Hub → Hub
  handle_paired t i msg MsgType.arm h = Arming.arm t.now h
  handle_paired t i msg MsgType.disarm h = handle_disarm env t i h
  handle_paired t i msg disarm_with_pin h = handle_disarm_pin env t i msg h
  handle_paired t i msg configure h = handle_configure t.now msg h
  handle_paired t i msg test_alert h =
      push_alert (new_alert (codes "test") (codes "warning") (codes "Test alert triggered") t.now) h
  handle_paired t i msg trigger_sensor h =
      if bytes_eq msg.sensor [] then h else (trigger_sensor_test t.now msg.sensor h).0
  handle_paired t i msg get_config h = handle_get_config i h
  handle_paired t i msg location_anchor h = emit anchor_offered h
  handle_paired t i msg get_location h = send_to i (location_view (unix t.now)) h
  handle_paired t i msg update_config h = handle_update_config env t i msg h
  handle_paired t i msg reset_config h = handle_reset_config env t i msg h
  handle_paired t i msg MsgType.dismiss_alarm h = Arming.dismiss_alarm t.now h
  handle_paired t i msg dismiss_alarm_pause h = Arming.pause_alarm_sensor t.now msg.duration h
  handle_paired t i msg dismiss_alarm_disable h = Arming.disable_alarm_sensor t.now h
  handle_paired t i msg push_subscribe h = handle_push_subscribe msg.push h
  handle_paired t i msg auth h = h
  handle_paired t i msg ping h = h
  handle_paired t i msg unknown_type h = h

  unfoldable pub if_paired : Moment → ℕ → ClientMessage → Hub → Hub
  unfolding send_to handle_paired
  if_paired t i msg h =
      if (h.conns i).authenticated
      then handle_paired t i msg msg.kind h
      else send_to i (auth_fail (codes "not authenticated") 0) h

  -- The `switch` of `handleMessage`.
  unfoldable pub route : Moment → ℕ → ClientMessage → Hub → Hub
  unfolding is_auth is_ping send_to handle_auth if_paired
  route t i msg h =
      if is_auth msg.kind
      then handle_auth env t i msg h
      else if is_ping msg.kind
      then send_to i pong h
      else if_paired t i msg h

  -- `handleMessage`.
  unfoldable pub handle_message : Moment → ℕ → ClientMessage → Hub → Hub
  unfolding session_still_live within_rate_limit route
  handle_message t i msg h =
      let (h1, live) = session_still_live t i msg h in
      let (h2, allowed) = within_rate_limit t i msg h1 in
      if not live then h1 else if not allowed then h2 else route t i msg h2
