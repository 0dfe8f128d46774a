-- ===== src/Ws/Hub/Update.antt =====
-- The part of internal/ws/hub.go that asks for the PIN: disarming with one, and the messages that
-- change the settings or reset them.
use leave_safe.Prelude.{
  ℕ, Bool, true, false, ◌||◌, not, Option, none, some, [], ◌∷◌, ◌++◌, Bytes, codes, bytes_eq,
  if◌then◌else◌,
}
use leave_safe.Prelude.Map.{Map, insert}
use leave_safe.Auth.Manager.{
  Manager, AuthError, locked_out, max_connections, invalid_secret, invalid_secret_locked,
  token_source,
}
use leave_safe.Auth.Methods.{check_pin}
use leave_safe.Auth.Pin.{hash_pin, needs_rehash}
use leave_safe.Config.{Config}
use leave_safe.Monitor.Manager.{SensorManager, enable, disable}
use leave_safe.Ws.Message.{
  ClientMessage, new_alert, sensor_system, auth_fail, pin_required, config_data,
}
use leave_safe.Ws.Hub.{
  Env, Moment, Hub, EventType, event_pin_fail, saved_config, emit, log_event, send_to, set_watch,
  set_sensors, push_alert, broadcast_status,
}
use leave_safe.Ws.Hub.Arming.{disarm, pin_required_now}
use leave_safe.Ws.Hub.Settings.{config_to_payload}

unfoldable pub is_lockout : AuthError → Bool
is_lockout (locked_out left) = true
is_lockout max_connections = false
is_lockout invalid_secret = false
is_lockout invalid_secret_locked = false
is_lockout token_source = false

unfoldable pub set_cfg : Config → Hub → Hub
unfolding set_watch
set_cfg c h = set_watch (record h.watch { cfg = some c }) h

unfoldable pub set_auth : Manager → Hub → Hub
set_auth m h = record h { auth = m }

-- Each sensor of a map is switched on or off.
unfoldable pub switch_all : Map Bool → SensorManager → SensorManager
switch_all [] m = m
switch_all ((name, enabled) ∷ want) m =
    switch_all want (if enabled then enable name m else disable name m)

unfoldable pub insert_all : Map Bool → Map Bool → Map Bool
insert_all [] kept = kept
insert_all ((name, enabled) ∷ want) kept = insert_all want (insert name enabled kept)

unfoldable pub or_no_sensors : Option (Map Bool) → Map Bool
or_no_sensors none = []
or_no_sensors (some m) = m

-- What `handleConfigure` stores.
unfoldable pub store_sensors : Map Bool → Option Config → Hub → Hub
unfolding set_cfg emit insert_all or_no_sensors
store_sensors want none h = h
store_sensors want (some c) h =
    let c1 : Config = record c {
      enabled_sensors = some (insert_all want (or_no_sensors c.enabled_sensors));
    } in
    emit (saved_config c1) (set_cfg c1 h)

-- `handleConfigure` on a machine that is not armed.
unfoldable pub configured : ℕ → Map Bool → Hub → Hub
unfolding set_sensors switch_all store_sensors broadcast_status
configured now want h =
    broadcast_status now
      (store_sensors want h.watch.cfg (set_sensors (switch_all want h.watch.sensors) h))

unfoldable pub configure_given : ℕ → Option (Map Bool) → Hub → Hub
unfolding push_alert configured
configure_given now none h = h
configure_given now (some want) h =
    if h.watch.armed
    then push_alert
        (new_alert sensor_system (codes "warning")
          (codes "Cannot change sensors while armed — disarm first") now)
        h
    else configured now want h

-- `handleConfigure`.
unfoldable pub handle_configure : ℕ → ClientMessage → Hub → Hub
unfolding configure_given
handle_configure now msg h = configure_given now msg.sensors h

unfoldable pub show_config : ℕ → Option Config → Hub → Hub
unfolding send_to config_to_payload
show_config i none h = h
show_config i (some c) h = send_to i (config_data (config_to_payload c)) h

-- `handleGetConfig`.
unfoldable pub handle_get_config : ℕ → Hub → Hub
unfolding show_config
handle_get_config i h = show_config i h.watch.cfg h

-- The hash goes into the configuration as well, if there is one.
unfoldable pub store_hash : Bytes → Option Config → Hub → Hub
unfolding set_cfg emit
store_hash updated none h = h
store_hash updated (some c) h =
    let c1 : Config = record c {
      pin_protection = record c.pin_protection { pin_hash = updated };
    } in
    emit (saved_config c1) (set_cfg c1 h)

unfoldable pub rehash : Option Bytes → Hub → Hub
unfolding set_watch store_hash
rehash none h = h
rehash (some updated) h =
    store_hash updated h.watch.cfg (set_watch (record h.watch { pin_hash = updated }) h)

module _ (env : Env) where
  -- `logAuthFailure`.
  unfoldable pub log_auth_failure : EventType → Bytes → AuthError → Hub → Hub
  unfolding log_event is_lockout
  log_auth_failure kind prefix err h =
      if is_lockout err then h else log_event kind (prefix ++ env.error_text err) h

  -- `upgradePinHash`.
  unfoldable pub upgrade_pin_hash : Moment → Bytes → Bytes → Hub → Hub
  unfolding rehash hash_pin needs_rehash
  upgrade_pin_hash t pin current h =
      if bytes_eq current [] || not (needs_rehash current)
      then h
      else rehash (hash_pin env.crypto pin t.random) h

  -- `DisarmWithPin` behind `CheckPin`.
  unfoldable pub checked : Moment → Bytes → Bytes → Option AuthError → Hub → Hub × Option AuthError
  unfolding log_auth_failure upgrade_pin_hash disarm
  checked t pin hash (some err) h =
      (log_auth_failure event_pin_fail (codes "Disarm refused: ") err h, some err)
  checked t pin hash none h = (disarm t.now (upgrade_pin_hash t pin hash h), none)

  unfoldable pub checked_by :
      Moment → Bytes → Bytes → Manager × Option AuthError → Hub → Hub × Option AuthError
  unfolding checked set_auth
  checked_by t pin hash (m, err) h = checked t pin hash err (set_auth m h)

  -- `DisarmWithPin`.
  unfoldable pub disarm_with_pin : Moment → Bytes → Bytes → Hub → Hub × Option AuthError
  unfolding checked_by pin_required_now disarm
  disarm_with_pin t source pin h =
      if pin_required_now h
      then checked_by t pin h.watch.pin_hash
          (check_pin env.crypto h.auth source pin h.watch.pin_hash t.now) h
      else (disarm t.now h, none)

  -- `handleDisarm`.
  unfoldable pub handle_disarm : Moment → ℕ → Hub → Hub
  unfolding pin_required_now send_to disarm
  handle_disarm t i h = if pin_required_now h then send_to i pin_required h else disarm t.now h

  -- What the client hears of it.
  unfoldable pub answer_pin : ℕ → Hub × Option AuthError → Hub
  unfolding send_to
  answer_pin i (h, none) = h
  answer_pin i (h, some err) = send_to i (auth_fail (env.error_text err) 0) h

  unfoldable pub handle_disarm_pin : Moment → ℕ → ClientMessage → Hub → Hub
  unfolding disarm_with_pin answer_pin
  handle_disarm_pin t i msg h = answer_pin i (disarm_with_pin t (h.conns i).remote_addr msg.pin h)
