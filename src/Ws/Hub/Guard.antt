-- ===== src/Ws/Hub/Guard.antt =====
-- The PIN between a paired client and an armed machine: in the hub and in the configuration alike.
-- Here, the messages that come up against it.
pub mod Refused
pub mod Messages
pub mod Kept
use leave_safe.Prelude.{
  ℕ, ◌-◌, ltb, Bool, true, false, ◌&&◌, ◌||◌, not, Option, none, some, ◌≡◌, refl, sym, ap, ◌∙◌,
  subst, List, [], ◌∷◌, Bytes, codes, bytes_eq, bytes_eq→eq, if◌then◌else◌, arith, Option-cases,
  Bool-cases, inl, inr,
}
use leave_safe.Prelude.Map.{Map}
use leave_safe.Auth.Manager.{Manager, AuthError, locked_out, looked_up}
use leave_safe.Auth.Addr.{normalize_addr}
use leave_safe.Auth.Methods.{check_pin, wrong_pin}
use leave_safe.Auth.Pin.{Crypto, verify_pin_hash}
use leave_safe.Config.{Config, PinProtection}
use leave_safe.Config.Validate
use leave_safe.Monitor.Manager.{SensorManager}
use leave_safe.Ws.Message.{ClientMessage, ConfigPayload}
use leave_safe.Ws.Hub.{Env, Moment, Hub}
use leave_safe.Ws.Hub.Settings.{
  same, apply_server_settings, apply_pin_settings, store_pin, apply_sensor_settings,
  apply_location_settings,
}
use leave_safe.Ws.Hub.Reconfigure.{pin_active, changing_pin, apply_settings, Outcome}
use leave_safe.Ws.Hub.View.{View, view}

abbrev pub stored_pin : Option Config → Option (Bool × Bytes)
stored_pin none = none
stored_pin (some c) = some (c.pin_protection.enabled, c.pin_protection.pin_hash)

-- Armed, with disarming and the settings under the PIN of this hash.
abbrev pub IsGuardedView : Bytes → View → Type 0
IsGuardedView hash v =
    (v.armed ≡ true)
    × (v.pin_enabled ≡ true)
    × (v.pin_hash ≡ hash)
    × (stored_pin v.cfg ≡ some (true, hash))

abbrev pub IsGuarded : Bytes → Hub → Type 0
IsGuarded hash h = IsGuardedView hash (view h)

pub by_view :
    (hash : Bytes) (h : Hub) (v : View) → view h ≡ v → IsGuardedView hash v → IsGuarded hash h
by_view hash h v e g = subst (IsGuardedView hash) (sym e) g

-- Validation leaves the PIN alone.
validate_pin :
    (parse_url : Bytes → Option (Bytes × Bytes)) (c : Config)
    → (Validate.validate parse_url c).0.pin_protection ≡ c.pin_protection
unfolding Validate.validate Validate.and_then Validate.clamp_numbers Validate.drop_insecure_urls
    Validate.correct_unknown_choices Validate.clamp_alarm_levels
validate_pin parse_url c = refl

apply_sensor_settings_pin :
    (armed : Bool) (m : SensorManager) (c : Config) (p : ConfigPayload)
    → (apply_sensor_settings armed m c p).0.pin_protection ≡ c.pin_protection
unfolding apply_sensor_settings
apply_sensor_settings_pin armed m c p = ground arith

same_eq : (a b : Bool) → same a b ≡ true → a ≡ b
unfolding same
same_eq true b h = sym h
same_eq false true h = absurd cc
same_eq false false h = refl

nothing_changes :
    (c : Config) (p : ConfigPayload)
    → changing_pin c p ≡ false
    → (same p.pin_protection.enabled c.pin_protection.enabled ≡ true)
      × (bytes_eq p.pin_protection.pin [] ≡ true)
unfolding changing_pin
nothing_changes c p h = ground arith

apply_pin_settings_same :
    (crypto : Crypto) (salt : Option Bytes) (c : Config) (p : ConfigPayload)
    → changing_pin c p ≡ false
    → (apply_pin_settings crypto salt c p).pin_protection ≡ c.pin_protection
unfolding apply_pin_settings store_pin
apply_pin_settings_same crypto salt c p h =
    let (e, f) = nothing_changes c p h in
    rw f (
      ap (λ (b : Bool). record c.pin_protection { enabled = b })
        (same_eq p.pin_protection.enabled c.pin_protection.enabled e))

-- An update that asks for no change of the PIN makes none.
pub apply_settings_pin :
    (env : Env) (t : Moment) (p : ConfigPayload) (armed : Bool) (m : SensorManager) (c : Config)
    → changing_pin c p ≡ false
    → (apply_settings env t p armed m c).snapshot.pin_protection ≡ c.pin_protection
unfolding apply_settings apply_location_settings apply_server_settings changing_pin
apply_settings_pin env t p armed m c h =
    let c1 : Config = (apply_server_settings c p).0 in
    let c2 : Config = apply_pin_settings env.crypto t.random c1 p in
    let c3 : Config = (apply_sensor_settings armed m c2 p).0 in
    let c4 : Config = (apply_location_settings c3 p).0 in
    validate_pin env.parse_url c4
    ∙ apply_sensor_settings_pin armed m c2 p
    ∙ apply_pin_settings_same env.crypto t.random c1 p h

-- A PIN that does not verify is refused.
pub check_pin_refuses :
    (crypto : Crypto) (m : Manager) (addr pin hash : Bytes) (now : ℕ)
    → verify_pin_hash crypto pin hash ≡ false
    → (err : AuthError) × ((check_pin crypto m addr pin hash now).1 ≡ some err)
unfolding check_pin wrong_pin
check_pin_refuses crypto m addr pin hash now h =
    let (r, m1) = looked_up m (normalize_addr addr) now in
    elim (Bool-cases (ltb now r.locked_until)) [
      | inl e ↦ rw e (locked_out (r.locked_until - now), refl)
      | inr e ↦ rw (e, h) (_, refl)
    ]

pub apply_settings_forced :
    (env : Env) (t : Moment) (p : ConfigPayload) (armed : Bool) (m : SensorManager) (c : Config)
    → let out : Outcome = apply_settings env t p armed m c in
      (out.pin_enabled ≡ out.snapshot.pin_protection.enabled)
      × (out.pin_hash ≡ out.snapshot.pin_protection.pin_hash)
unfolding apply_settings
apply_settings_forced env t p armed m c = (refl, refl)
