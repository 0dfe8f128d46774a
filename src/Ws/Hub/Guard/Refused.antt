-- ===== src/Ws/Hub/Guard/Refused.antt =====
-- What is refused for want of the PIN changes nothing that the hub decides by.
use leave_safe.Prelude.{
  ℕ, Bool, true, false, ◌&&◌, Option, none, some, ◌≡◌, refl, ◌∙◌, Bytes, codes, arith,
}
use leave_safe.Prelude.Map.{Map}
use leave_safe.Auth.Manager.{Manager, AuthError}
use leave_safe.Auth.Methods.{check_pin}
use leave_safe.Auth.Pin.{verify_pin_hash}
use leave_safe.Config.{Config}
use leave_safe.Monitor.Manager.{SensorManager}
use leave_safe.Ws.Message.{ClientMessage, ConfigPayload}
use leave_safe.Ws.Hub.{
  Env, Moment, Hub, emit, emit_all, set_watch, set_sensors, send_to, push_alert, broadcast_status,
  event_pin_fail,
}
use leave_safe.Ws.Hub.Arming
use leave_safe.Ws.Hub.Update.{
  set_cfg, set_auth, switch_all, handle_configure, configure_given, handle_disarm,
  handle_disarm_pin, answer_pin, disarm_with_pin, checked, checked_by, or_no_sensors,
}
use leave_safe.Ws.Hub.Reconfigure.{
  pin_active, changing_pin, apply_settings, carry, carry_out, update_settings, update_config,
  if_allowed, reset_config, announce_config_changes, Outcome, warn_if, warn,
}
use leave_safe.Ws.Hub.View.{View, view, view-broadcast_status}
use leave_safe.Ws.Hub.View.Clients.{then_view, view-log_auth_failure}
use leave_safe.Ws.Hub.Guard.{check_pin_refuses}

pub view-warn_if : (b : Bool) (now : ℕ) (m : Bytes) (h : Hub) → view (warn_if b now m h) ≡ view h
unfolding warn_if warn view push_alert emit_all
view-warn_if b now m h = ground arith

announce_view :
    (now : ℕ) (out : Outcome) (h : Hub) → view (announce_config_changes now out h) ≡ view h
unfolding announce_config_changes
announce_view now out h =
    view-warn_if out.location_changed now _ _
    ∙ view-warn_if out.geo_url_rejected now _ _
    ∙ view-warn_if out.needs_restart now _ _
    ∙ view-warn_if out.sensors_refused now _ h

-- What an update that goes through makes of what the hub decides by.
abbrev pub followed : Outcome → SensorManager → View → View
followed out m v = record v {
  cfg = some out.snapshot;
  pin_enabled = out.pin_enabled;
  pin_hash = out.pin_hash;
  auto_arm_on_lock = out.auto_arm;
  switched = (switch_all (or_no_sensors out.sensors) m).enabled;
}

module _ (env : Env) where
  -- A refusal by `CheckPin` changes nothing that the hub decides by.
  pub checked_by_refused :
      (t : Moment) (pin hash : Bytes) (p : Manager × Option AuthError) (err : AuthError) (h : Hub)
      → p.1 ≡ some err
      → (view (checked_by env t pin hash p h).0 ≡ view h)
        × ((checked_by env t pin hash p h).1 ≡ some err)
  unfolding checked_by checked set_auth view
  checked_by_refused t pin hash p err h e = rw e (
    view-log_auth_failure env event_pin_fail (codes "Disarm refused: ") err (set_auth p.0 h),
    refl,
  )

  pub if_allowed_refused :
      (i : ℕ) (prefix : Bytes) (p : Manager × Option AuthError) (err : AuthError)
      (change : Hub → Hub) (h : Hub)
      → p.1 ≡ some err
      → view (if_allowed env i prefix p change h) ≡ view h
  unfolding if_allowed set_auth send_to emit view
  if_allowed_refused i prefix p err change h e =
      rw e (view-log_auth_failure env event_pin_fail prefix err (set_auth p.0 h))

  pub view-answer_pin : (i : ℕ) (p : Hub × Option AuthError) → view (answer_pin env i p) ≡ view p.0
  unfolding answer_pin send_to emit view
  view-answer_pin i (h, none) = refl
  view-answer_pin i (h, some err) = refl

  pub disarm_with_pin_refused :
      (t : Moment) (addr pin : Bytes) (h : Hub)
      → Arming.pin_required_now h ≡ true
      → verify_pin_hash env.crypto pin h.watch.pin_hash ≡ false
      → view (disarm_with_pin env t addr pin h).0 ≡ view h
  unfolding disarm_with_pin view
  disarm_with_pin_refused t addr pin h a v =
      let p = check_pin env.crypto h.auth addr pin h.watch.pin_hash t.now in
      let (err, e) = check_pin_refuses env.crypto h.auth addr pin h.watch.pin_hash t.now v in
      rw a ((checked_by_refused t pin h.watch.pin_hash p err h e).0)

  pub disarm_pin_refused :
      (t : Moment) (i : ℕ) (msg : ClientMessage) (h : Hub)
      → Arming.pin_required_now h ≡ true
      → verify_pin_hash env.crypto msg.pin h.watch.pin_hash ≡ false
      → view (handle_disarm_pin env t i msg h) ≡ view h
  unfolding handle_disarm_pin
  disarm_pin_refused t i msg h a v =
      view-answer_pin i (disarm_with_pin env t (h.conns i).remote_addr msg.pin h)
      ∙ disarm_with_pin_refused t (h.conns i).remote_addr msg.pin h a v

  pub disarm_refused :
      (t : Moment) (i : ℕ) (h : Hub)
      → Arming.pin_required_now h ≡ true
      → view (handle_disarm env t i h) ≡ view h
  unfolding handle_disarm send_to emit view
  disarm_refused t i h a = rw a refl

  configure_given_refused :
      (now : ℕ) (o : Option (Map Bool)) (h : Hub)
      → h.watch.armed ≡ true
      → view (configure_given now o h) ≡ view h
  unfolding configure_given push_alert emit_all view
  configure_given_refused now none h a = refl
  configure_given_refused now (some want) h a = then_view h.watch.armed _ _ (view h) a refl

  pub configure_refused :
      (now : ℕ) (msg : ClientMessage) (h : Hub)
      → h.watch.armed ≡ true
      → view (handle_configure now msg h) ≡ view h
  unfolding handle_configure
  configure_refused now msg h a = configure_given_refused now msg.sensors h a

  pub reset_refused :
      (t : Moment) (i : ℕ) (msg : ClientMessage) (c : Config) (h : Hub)
      → pin_active c.pin_protection ≡ true
      → verify_pin_hash env.crypto msg.pin c.pin_protection.pin_hash ≡ false
      → view (reset_config env t i msg c h) ≡ view h
  unfolding reset_config
  reset_refused t i msg c h a v =
      let addr = (h.conns i).remote_addr in
      let hash = c.pin_protection.pin_hash in
      let p = check_pin env.crypto h.auth addr msg.pin hash t.now in
      let (err, e) = check_pin_refuses env.crypto h.auth addr msg.pin hash t.now v in
      then_view (pin_active c.pin_protection) _ _ (view h) a
        (if_allowed_refused i (codes "Config reset refused: ") p err _ h e)

  pub update_refused :
      (t : Moment) (i : ℕ) (msg : ClientMessage) (p : ConfigPayload) (c : Config) (h : Hub)
      → (pin_active c.pin_protection && changing_pin c p) ≡ true
      → verify_pin_hash env.crypto msg.pin c.pin_protection.pin_hash ≡ false
      → view (update_config env t i msg p c h) ≡ view h
  unfolding update_config
  update_refused t i msg p c h a v =
      let addr = (h.conns i).remote_addr in
      let hash = c.pin_protection.pin_hash in
      let (err, e) = check_pin_refuses env.crypto h.auth addr msg.pin hash t.now v in
      then_view (pin_active c.pin_protection && changing_pin c p) _ _ (view h) a (
        if_allowed_refused i (codes "PIN settings change refused: ")
          (check_pin env.crypto h.auth addr msg.pin hash t.now) err _ h e)

  pub view-update_settings :
      (t : Moment) (p : ConfigPayload) (c : Config) (h : Hub)
      → view (update_settings env t p c h)
        ≡ followed (apply_settings env t p h.watch.armed h.watch.sensors c) h.watch.sensors (view h)
  unfolding update_settings carry_out carry set_cfg set_watch set_sensors emit
      Arming.set_pin_protection Arming.set_auto_arm_on_lock view
  view-update_settings t p c h =
      let out : Outcome = apply_settings env t p h.watch.armed h.watch.sensors c in
      let h1 : Hub = carry out (set_cfg out.snapshot h) in
      announce_view t.now out (broadcast_status t.now h1) ∙ view-broadcast_status t.now h1
