-- ===== src/Ws/Hub/Machine/Settings.antt =====
-- The messages about settings and sensors, as moves of the machine.
use leave_safe.Prelude.{
  ℕ, Bool, true, false, not, Option, none, some, ◌≡◌, refl, ◌∙◌, List, [], ◌∷◌, Bytes, bytes_eq_iff,
  if◌then◌else◌, arith, Option-cases, Bool-cases, inl, inr,
}
use leave_safe.Prelude.Map.{Map, lookup-insert}
use leave_safe.Config.{Config, default_config}
use leave_safe.Monitor.Manager.{Sensor, SensorManager, is_enabled, or_false, enable, disable}
use leave_safe.Ws.Message.{config_data, ClientMessage, ConfigPayload}
use leave_safe.Ws.Hub.{
  Env, Moment, Hub, emit, send_to, Watch, set_watch, set_sensors, emit_all, push_alert,
  broadcast_status,
}
use leave_safe.Ws.Hub.Arming
use leave_safe.Ws.Hub.Settings.{
  same, int_eq, config_to_payload, sensors_would_change, apply_sensor_settings,
  apply_server_settings, apply_pin_settings,
}
use leave_safe.Ws.Hub.Update.{
  switch_all, or_no_sensors, set_cfg, store_sensors, configured, configure_given, handle_configure,
}
use leave_safe.Ws.Hub.Reconfigure.{
  Outcome, apply_settings, update_settings, enable_all, reset_settings, store_defaults,
  enable_sensors, restart_if_armed,
}
use leave_safe.Ws.Hub.View.{View, view, view_of, view-broadcast_status, view-start_sensors}
use leave_safe.Ws.Hub.View.Clients.{if_view, then_view, else_view}
use leave_safe.Ws.Hub.Guard.Refused.{view-update_settings, view-warn_if}
use leave_safe.Ws.Hub.Machine.{
  Move, Run, settles, chooses, rewrites, goes, one, stays, Run-along, staying, switches_on,
}

switch_one : Bytes → Bool → SensorManager → SensorManager
switch_one n e m = if e then enable n m else disable n m

unchanged :
    (n : Bytes) (e : Bool) (m : SensorManager) (name : Bytes)
    → same (is_enabled n m) e ≡ true
    → is_enabled name (switch_one n e m) ≡ is_enabled name m
unfolding switch_one same is_enabled enable disable or_false
unchanged n true m name h =
    ground (arith, lookup-insert n name true m.enabled, bytes_eq_iff n name, h)
unchanged n false m name h =
    ground (arith, lookup-insert n name false m.enabled, bytes_eq_iff n name, h)

would_change_ext :
    (want : Map Bool) (m k : SensorManager)
    → ((name : Bytes) → is_enabled name m ≡ is_enabled name k)
    → sensors_would_change m want ≡ sensors_would_change k want
unfolding sensors_would_change
would_change_ext [] m k f = refl
would_change_ext ((n, e) ∷ want) m k f = rw (f n, would_change_ext want m k f) refl

head_agrees :
    (n : Bytes) (e : Bool) (want : Map Bool) (m : SensorManager)
    → sensors_would_change m ((n, e) ∷ want) ≡ false
    → (same (is_enabled n m) e ≡ true) × (sensors_would_change m want ≡ false)
unfolding sensors_would_change
head_agrees n e want m h = ground arith

-- Switching each sensor to what it is already leaves them all as they are.
pub switch_all_same :
    (want : Map Bool) (m : SensorManager) (name : Bytes)
    → sensors_would_change m want ≡ false
    → is_enabled name (switch_all want m) ≡ is_enabled name m
unfolding switch_all switch_one
switch_all_same [] m name h = refl
switch_all_same ((n, e) ∷ want) m name h =
    let (agrees, rest) = head_agrees n e want m h in
    let m1 : SensorManager = switch_one n e m in
    let same1 : (k : Bytes) → is_enabled k m1 ≡ is_enabled k m = λ k. unchanged n e m k agrees in
    switch_all_same want m1 name (would_change_ext want m1 m same1 ∙ rest) ∙ same1 name

-- While armed, the sensors of an update say what is so already.
armed_sensors :
    (m : SensorManager) (c : Config) (p : ConfigPayload) (name : Bytes)
    → is_enabled name (switch_all (or_no_sensors (apply_sensor_settings true m c p).1) m)
      ≡ is_enabled name m
unfolding apply_sensor_settings or_no_sensors switch_all
armed_sensors m c p name = elim (Option-cases p.enabled_sensors) [
  | inl e ↦ rw (e, apply_sensor_settings) refl
  | inr (want, e) ↦ elim (Bool-cases (sensors_would_change m want)) [
    | inl w ↦ rw (e, apply_sensor_settings, w) refl
    | inr w ↦ rw (e, apply_sensor_settings, w) (switch_all_same want m name w)
  ]
]

module _ (env : Env) where
  outcome_sensors :
      (t : Moment) (p : ConfigPayload) (armed : Bool) (m : SensorManager) (c : Config)
      (name : Bytes)
      → armed ≡ true
      → is_enabled name (switch_all (or_no_sensors (apply_settings env t p armed m c).sensors) m)
        ≡ is_enabled name m
  unfolding apply_settings
  outcome_sensors t p true m c name a =
      armed_sensors m (apply_pin_settings env.crypto t.random (apply_server_settings c p).0 p) p
        name
  outcome_sensors t p false m c name a = absurd cc

  -- An update that goes through: the settings are stored, and the sensors are chosen or say the same.
  pub update-Run :
      {o : View} (t : Moment) (p : ConfigPayload) (c : Config) (h : Hub)
      → Run o (view h) (view (update_settings env t p c h))
  unfolding view is_enabled
  update-Run {o} t p c h =
      let out : Outcome = apply_settings env t p h.watch.armed h.watch.sensors c in
      let stored : View = record (view h) {
        cfg = some out.snapshot;
        pin_enabled = out.pin_enabled;
        pin_hash = out.pin_hash;
        auto_arm_on_lock = out.auto_arm;
      } in
      let m : Map Bool = (switch_all (or_no_sensors out.sensors) h.watch.sensors).enabled in
      let last : View = record stored { switched = m } in
      let first : Move o (view h) stored =
        settles (view h) (some out.snapshot) out.pin_enabled out.pin_hash out.auto_arm in
      let second : Move o stored last = elim (Bool-cases h.watch.armed) [
        | inl a ↦
            rewrites stored m (λ name. outcome_sensors t p h.watch.armed h.watch.sensors c name a)
        | inr a ↦ chooses stored m a
      ] in
      Run-along (view h) last (view (update_settings env t p c h))
        (view-update_settings env t p c h)
        (goes (view h) stored last first (one stored last second))

  -- A reset: the defaults are stored, and every sensor is switched on.
  enable_all-Run :
      {o : View} (ss : List Sensor) (m : SensorManager) (w : Watch)
      → Run o (view_of w m.enabled) (view_of w (enable_all ss m).enabled)
  unfolding enable_all enable
  enable_all-Run [] m w = stays (view_of w m.enabled)
  enable_all-Run (s ∷ ss) m w =
      goes (view_of w m.enabled) (view_of w (enable s.name m).enabled)
        (view_of w (enable_all ss (enable s.name m)).enabled)
        (switches_on (view_of w m.enabled) s.name) (enable_all-Run ss (enable s.name m) w)

  pub reset-Run :
      {o : View} (t : Moment) (i : ℕ) (c : Config) (h : Hub)
      → Run o (view h) (view (reset_settings env t i c h))
  unfolding reset_settings view set_sensors set_watch set_cfg emit send_to store_defaults
      enable_sensors restart_if_armed Arming.set_pin_protection Arming.set_auto_arm_on_lock
  reset-Run {o} t i c h =
      let h1 : Hub = store_defaults h in
      let h2 : Hub = enable_sensors h1 in
      let h3 : Hub = restart_if_armed h2 in
      let h4 : Hub = send_to i (config_data (config_to_payload default_config)) h3 in
      let same1 : view h3 ≡ view h2 =
        if_view h2.watch.armed (Arming.start_sensors h2) h2 (view h2) (view-start_sensors h2)
          refl in
      let same2 : view (reset_settings env t i c h) ≡ view h2 =
        view-warn_if (not (int_eq c.port default_config.port)) t.now _ (broadcast_status t.now h4)
        ∙ view-broadcast_status t.now h4
        ∙ same1 in
      let first : Move o (view h) (view h1) =
        settles (view h) (some default_config) default_config.pin_protection.enabled
          default_config.pin_protection.pin_hash default_config.auto_arm_on_lock in
      Run-along (view h) (view h2) (view (reset_settings env t i c h)) same2 (
        goes (view h) (view h1) (view h2) first
          (enable_all-Run h1.watch.sensors.sensors h1.watch.sensors h1.watch))

-- Where the machine is not armed, the sensors of a message are chosen and stored.
store-Run :
    {o : View} (want : Map Bool) (stored : Option Config) (h : Hub)
    → Run o (view h) (view (store_sensors want stored h))
unfolding store_sensors set_cfg set_watch emit view
store-Run want none h = stays (view h)
store-Run want (some c) h =
    one (view h) _
      (settles (view h) _ h.watch.pin_enabled h.watch.pin_hash h.watch.auto_arm_on_lock)

configured-Run :
    {o : View} (now : ℕ) (want : Map Bool) (h : Hub)
    → h.watch.armed ≡ false
    → Run o (view h) (view (configured now want h))
unfolding configured set_sensors set_watch view
configured-Run now want h a =
    let m : SensorManager = switch_all want h.watch.sensors in
    let h1 : Hub = set_sensors m h in
    let h2 : Hub = store_sensors want h.watch.cfg h1 in
    Run-along (view h) (view h2) (view (broadcast_status now h2)) (view-broadcast_status now h2) (
      goes (view h) (view h1) (view h2) (chooses (view h) m.enabled a)
        (store-Run want h.watch.cfg h1))

configure_given-Run :
    {o : View} (now : ℕ) (want : Option (Map Bool)) (h : Hub)
    → Run o (view h) (view (configure_given now want h))
unfolding configure_given push_alert emit_all view
configure_given-Run now none h = stays (view h)
configure_given-Run now (some want) h = elim (Bool-cases h.watch.armed) [
  | inl a ↦
      staying (view h) (view (configure_given now (some want) h))
        (then_view h.watch.armed _ _ (view h) a refl)
  | inr a ↦
      Run-along (view h) (view (configured now want h)) (view (configure_given now (some want) h))
        (else_view h.watch.armed _ _ _ a refl) (configured-Run now want h a)
]

pub configure-Run :
    {o : View} (now : ℕ) (msg : ClientMessage) (h : Hub)
    → Run o (view h) (view (handle_configure now msg h))
unfolding handle_configure
configure-Run now msg h = configure_given-Run now msg.sensors h
