-- ===== src/Ws/Hub/Machine/Refines.antt =====
-- Every step of the hub is a run of the machine.
use leave_safe.Prelude.{codes, ◌∙◌, refl}
use leave_safe.Ws.Hub.{Env, Hub, emit_all, push_alert, broadcast_status}
use leave_safe.Ws.Hub.Arming.{arm, clear_alarm, unpause_sensor}
use leave_safe.Ws.Hub.Update.{disarm_with_pin}
use leave_safe.Ws.Hub.Sockets.{connect, disconnect, drop_expired_sessions, gone_check}
use leave_safe.Ws.Hub.Steps.{
  Step, message, alerted, claimed, unpaused, connected, disconnected, gone_for_good, heartbeat,
  console_arm, console_disarm, console_stop, console_trigger, console_test, arm_from_console,
  disarm_from_console, test_from_console, take_step,
}
use leave_safe.Ws.Hub.View.{view, view-broadcast_status}
use leave_safe.Ws.Hub.View.Clients
use leave_safe.Ws.Hub.View.Alarms.{view-unpause_sensor, view-clear_alarm}
use leave_safe.Ws.Hub.Machine.{switches_on, clears, Run, stays, one, Run-along, staying}
use leave_safe.Ws.Hub.Machine.Answers.{if_Run, arm-Run, trigger-Run, take_alert-Run, finish-Run}
use leave_safe.Ws.Hub.Machine.Messages.{message-Run, disarm_with_pin-Run}

module _ (env : Env) where
  pub take_step-Run : (s : Step) (h : Hub) → Run (view h) (view h) (view (take_step env s h))
  unfolding take_step arm_from_console disarm_from_console test_from_console push_alert emit_all
      view
  take_step-Run (message t i msg) h = message-Run env t i msg h
  take_step-Run (alerted now a) h = take_alert-Run now a h refl
  take_step-Run (claimed now location) h = finish-Run now location h
  take_step-Run (unpaused now sensor) h =
      Run-along (view h) _ (view (unpause_sensor now sensor h)) (view-unpause_sensor now sensor h)
        (one (view h) _ (switches_on (view h) sensor))
  take_step-Run (connected now random i) h =
      staying (view h) (view (connect now random i h)) (Clients.view-connect now random i h)
  take_step-Run (disconnected i) h =
      staying (view h) (view (disconnect i h)) (Clients.view-disconnect i h)
  take_step-Run gone_for_good h = staying (view h) (view (gone_check h)) (Clients.view-gone_check h)
  take_step-Run (heartbeat now) h =
      let h1 : Hub = drop_expired_sessions now h in
      staying (view h) (view (broadcast_status now h1))
        (view-broadcast_status now h1 ∙ Clients.view-drop_expired_sessions now h)
  take_step-Run (console_arm now) h =
      if_Run h.watch.armed (view h) h (arm now h) (stays (view h)) (arm-Run now h refl)
  take_step-Run (console_disarm t pin) h =
      if_Run h.watch.armed (view h) (disarm_with_pin env t (codes "console") pin h).0 h
        (disarm_with_pin-Run env t (codes "console") pin h) (stays (view h))
  take_step-Run (console_stop now) h =
      Run-along (view h) _ (view (clear_alarm now h).0) (view-clear_alarm now h)
        (one (view h) _ (clears (view h)))
  take_step-Run (console_trigger now name) h = trigger-Run now name h
  take_step-Run (console_test now) h = stays (view h)
