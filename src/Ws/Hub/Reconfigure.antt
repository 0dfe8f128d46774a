-- ===== src/Ws/Hub/Reconfigure.antt =====
-- The part of internal/ws/hub.go that changes the settings for a phone, or resets them.
use leave_safe.Prelude.{
  ℕ, Bool, ◌&&◌, ◌||◌, not, Option, none, some, List, [], ◌∷◌, Bytes, codes, bytes_eq,
  if◌then◌else◌,
}
use leave_safe.Prelude.Map.{Map}
use leave_safe.Auth.Manager.{Manager, AuthError}
use leave_safe.Auth.Methods.{check_pin}
use leave_safe.Config.{Config, PinProtection, default_config}
use leave_safe.Config.Validate.{Note, validate}
use leave_safe.Monitor.Manager.{Sensor, SensorManager, enable}
use leave_safe.Ws.Message.{
  ClientMessage, ConfigPayload, new_alert, sensor_system, pin_required, config_data,
}
use leave_safe.Ws.Hub.{
  Env, Moment, Hub, event_pin_fail, saved_config, emit, send_to, set_sensors, push_alert,
  broadcast_status,
}
use leave_safe.Ws.Hub.Arming.{set_pin_protection, set_auto_arm_on_lock, start_sensors}
use leave_safe.Ws.Hub.Settings.{
  same, int_eq, apply_server_settings, apply_pin_settings, apply_sensor_settings,
  apply_location_settings, config_to_payload,
}
use leave_safe.Ws.Hub.Update.{set_cfg, set_auth, switch_all, log_auth_failure, or_no_sensors}

-- `configOutcome`.
pub record Outcome : Type 0 where
  pub snapshot : Config
  pub adjustments : List Note
  pub pin_enabled : Bool
  pub pin_hash : Bytes
  pub auto_arm : Bool
  pub sensors : Option (Map Bool)
  pub sensors_refused : Bool
  pub needs_restart : Bool
  pub location_changed : Bool
  pub geo_url_rejected : Bool

-- The PIN protection that is in force in a configuration.
unfoldable pub pin_active : PinProtection → Bool
pin_active q = q.enabled && not (bytes_eq q.pin_hash [])

unfoldable pub changing_pin : Config → ConfigPayload → Bool
unfolding same
changing_pin c p =
    not (same p.pin_protection.enabled c.pin_protection.enabled)
    || not (bytes_eq p.pin_protection.pin [])

unfoldable pub warn : ℕ → Bytes → Hub → Hub
unfolding push_alert
warn now message h = push_alert (new_alert sensor_system (codes "warning") message now) h

unfoldable pub warn_if : Bool → ℕ → Bytes → Hub → Hub
unfolding warn
warn_if b now message h = if b then warn now message h else h

-- `announceConfigChanges`.
unfoldable pub announce_config_changes : ℕ → Outcome → Hub → Hub
unfolding warn_if
announce_config_changes now out h =
    let h1 =
      warn_if out.sensors_refused now (codes "Cannot change sensors while armed — disarm first")
        h in
    let h2 =
      warn_if out.needs_restart now (codes "The port changed — restart required to take effect")
        h1 in
    let h3 =
      warn_if out.geo_url_rejected now
        (codes "Geolocation endpoint must use https:// — change ignored") h2 in
    warn_if out.location_changed now
      (codes "Location settings changed — restart required to take effect") h3

-- `Enable` of every registered sensor.
unfoldable pub enable_all : List Sensor → SensorManager → SensorManager
enable_all [] m = m
enable_all (s ∷ ss) m = enable_all ss (enable s.name m)

-- The settings of `handleUpdateConfig` that are carried out of the lock.
unfoldable pub carry : Outcome → Hub → Hub
unfolding emit set_pin_protection set_auto_arm_on_lock set_sensors switch_all or_no_sensors
carry out h =
    let h1 = emit (saved_config out.snapshot) h in
    let h2 =
      set_auto_arm_on_lock out.auto_arm (set_pin_protection out.pin_enabled out.pin_hash h1) in
    set_sensors (switch_all (or_no_sensors out.sensors) h2.watch.sensors) h2

-- The end of `handleUpdateConfig`, on what `applyConfigUpdate` left.
unfoldable pub carry_out : ℕ → Outcome → Hub → Hub
unfolding carry broadcast_status announce_config_changes
carry_out now out h = announce_config_changes now out (broadcast_status now (carry out h))

unfoldable pub store_defaults : Hub → Hub
unfolding default_config set_cfg emit set_pin_protection set_auto_arm_on_lock
store_defaults h = set_auto_arm_on_lock default_config.auto_arm_on_lock (
    set_pin_protection default_config.pin_protection.enabled default_config.pin_protection.pin_hash
      (emit (saved_config default_config) (set_cfg default_config h)))

unfoldable pub enable_sensors : Hub → Hub
unfolding set_sensors enable_all
enable_sensors h = set_sensors (enable_all h.watch.sensors.sensors h.watch.sensors) h

unfoldable pub restart_if_armed : Hub → Hub
unfolding start_sensors
restart_if_armed h = if h.watch.armed then start_sensors h else h

module _ (env : Env) where
  -- The end of `applyConfigUpdate`, once the PIN is settled.
  unfoldable pub apply_settings : Moment → ConfigPayload → Bool → SensorManager → Config → Outcome
  unfolding apply_server_settings apply_pin_settings apply_sensor_settings apply_location_settings
      validate
  apply_settings t p armed m c =
      let (c1, needs_restart) = apply_server_settings c p in
      let c2 = apply_pin_settings env.crypto t.random c1 p in
      let (c3, sensors, refused) = apply_sensor_settings armed m c2 p in
      let (c4, location_changed, rejected) = apply_location_settings c3 p in
      let (c5, notes) = validate env.parse_url c4 in
      record {
        snapshot = c5;
        adjustments = notes;
        pin_enabled = c5.pin_protection.enabled;
        pin_hash = c5.pin_protection.pin_hash;
        auto_arm = c5.auto_arm_on_lock;
        sensors = sensors;
        sensors_refused = refused;
        needs_restart = needs_restart;
        location_changed = location_changed;
        geo_url_rejected = rejected;
      }

  -- A change that nothing stands in the way of.
  unfoldable pub update_settings : Moment → ConfigPayload → Config → Hub → Hub
  unfolding apply_settings carry_out set_cfg
  update_settings t p c h =
      let out = apply_settings t p h.watch.armed h.watch.sensors c in
      carry_out t.now out (set_cfg out.snapshot h)

  -- What follows `CheckPin` in both messages: the refusal, or the change.
  unfoldable pub if_allowed : ℕ → Bytes → Manager × Option AuthError → (Hub → Hub) → Hub → Hub
  unfolding set_auth log_auth_failure send_to
  if_allowed i prefix (m, none) change h = change (set_auth m h)
  if_allowed i prefix (m, some err) change h =
      send_to i pin_required (log_auth_failure env event_pin_fail prefix err (set_auth m h))

  unfoldable pub update_config : Moment → ℕ → ClientMessage → ConfigPayload → Config → Hub → Hub
  unfolding pin_active changing_pin if_allowed update_settings
  update_config t i msg p c h =
      if pin_active c.pin_protection && changing_pin c p
      then if_allowed i (codes "PIN settings change refused: ")
          (check_pin env.crypto h.auth (h.conns i).remote_addr msg.pin c.pin_protection.pin_hash
            t.now)
          (update_settings t p c) h
      else update_settings t p c h

  unfoldable pub update_given :
      Moment → ℕ → ClientMessage → Option ConfigPayload → Option Config → Hub → Hub
  unfolding update_config
  update_given t i msg none _ h = h
  update_given t i msg (some p) none h = h
  update_given t i msg (some p) (some c) h = update_config t i msg p c h

  -- `handleUpdateConfig`, with `applyConfigUpdate`.
  unfoldable pub handle_update_config : Moment → ℕ → ClientMessage → Hub → Hub
  unfolding update_given
  handle_update_config t i msg h = update_given t i msg msg.config h.watch.cfg h

  -- The end of `handleResetConfig`.
  unfoldable pub reset_settings : Moment → ℕ → Config → Hub → Hub
  unfolding default_config store_defaults enable_sensors restart_if_armed send_to config_to_payload
      broadcast_status warn_if
  reset_settings t i c h =
      let h1 = restart_if_armed (enable_sensors (store_defaults h)) in
      let h2 =
        broadcast_status t.now (send_to i (config_data (config_to_payload default_config)) h1) in
      warn_if (not (int_eq c.port default_config.port)) t.now
        (codes "The port changed — restart required to take effect") h2

  unfoldable pub reset_config : Moment → ℕ → ClientMessage → Config → Hub → Hub
  unfolding pin_active if_allowed reset_settings
  reset_config t i msg c h =
      if pin_active c.pin_protection
      then if_allowed i (codes "Config reset refused: ")
          (check_pin env.crypto h.auth (h.conns i).remote_addr msg.pin c.pin_protection.pin_hash
            t.now)
          (reset_settings t i c) h
      else reset_settings t i c h

  unfoldable pub reset_given : Moment → ℕ → ClientMessage → Option Config → Hub → Hub
  unfolding reset_config
  reset_given t i msg none h = h
  reset_given t i msg (some c) h = reset_config t i msg c h

  -- `handleResetConfig`.
  unfoldable pub handle_reset_config : Moment → ℕ → ClientMessage → Hub → Hub
  unfolding reset_given
  handle_reset_config t i msg h = reset_given t i msg h.watch.cfg h
