-- ===== src/Ws/Hub/Steps.antt =====
-- What reaches the hub while it runs, one step after another: the messages of the clients, the commands
-- of the console, the alerts of the sensors, the end of a pause, sockets that open and close, and
-- the heartbeat. The setters that the program calls while it starts are no steps.
use leave_safe.Prelude.{ℕ, Bool, List, [], ◌∷◌, Bytes, codes, if◌then◌else◌}
use leave_safe.Monitor.Alerting.{Alert}
use leave_safe.Ws.Message.{ClientMessage, new_alert}
use leave_safe.Ws.Hub.{Env, Moment, Hub, broadcast_status, push_alert}
use leave_safe.Ws.Hub.Arming.{arm, unpause_sensor, dismiss_alarm_everywhere}
use leave_safe.Ws.Hub.Alerts.{take_alert, finish_alert, trigger_sensor_test}
use leave_safe.Ws.Hub.Update.{disarm_with_pin}
use leave_safe.Ws.Hub.Sockets.{connect, disconnect, drop_expired_sessions, gone_check}
use leave_safe.Ws.Hub.Handle.{handle_message}

pub data Step : Type 0 where
  message : Moment → ℕ → ClientMessage → Step
  -- `dispatchAlert` is two steps, between which any other may come.
  alerted : ℕ → Alert → Step
  claimed : ℕ → Bool → Step
  unpaused : ℕ → Bytes → Step
  connected : ℕ → Bytes → ℕ → Step
  disconnected : ℕ → Step
  gone_for_good : Step
  heartbeat : ℕ → Step
  console_arm : ℕ → Step
  -- With the PIN that is typed, empty where none is asked for.
  console_disarm : Moment → Bytes → Step
  console_stop : ℕ → Step
  console_trigger : ℕ → Bytes → Step
  console_test : ℕ → Step

-- `consoleArm`, as far as the hub goes.
unfoldable pub arm_from_console : ℕ → Hub → Hub
arm_from_console now h = if h.watch.armed then h else arm now h

-- The alert of `consoleTest`.
unfoldable pub test_from_console : ℕ → Hub → Hub
test_from_console now h =
    push_alert (new_alert (codes "test") (codes "warning") (codes "Test alert from console") now) h

module _ (env : Env) where
  -- `consoleDisarm`, as far as the hub goes.
  unfoldable pub disarm_from_console : Moment → Bytes → Hub → Hub
  disarm_from_console t pin h =
      if h.watch.armed then (disarm_with_pin env t (codes "console") pin h).0 else h

  -- One round of `RunHeartbeat` is `dropExpiredSessions` and a broadcast.
  unfoldable pub take_step : Step → Hub → Hub
  take_step (message t i msg) h = handle_message env t i msg h
  take_step (alerted now a) h = take_alert now a h
  take_step (claimed now location) h = finish_alert now location h
  take_step (unpaused now sensor) h = unpause_sensor now sensor h
  take_step (connected now random i) h = connect now random i h
  take_step (disconnected i) h = disconnect i h
  take_step gone_for_good h = gone_check h
  take_step (heartbeat now) h = broadcast_status now (drop_expired_sessions now h)
  take_step (console_arm now) h = arm_from_console now h
  take_step (console_disarm t pin) h = disarm_from_console t pin h
  take_step (console_stop now) h = dismiss_alarm_everywhere now h
  take_step (console_trigger now name) h = (trigger_sensor_test now name h).0
  take_step (console_test now) h = test_from_console now h

  unfoldable pub take_steps : List Step → Hub → Hub
  unfolding take_step
  take_steps [] h = h
  take_steps (s ∷ ss) h = take_steps ss (take_step s h)
