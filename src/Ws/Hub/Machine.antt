-- ===== src/Ws/Hub/Machine.antt =====
-- The watch as a state machine: what a step of the hub may do to what it decides by, whoever asks.
pub mod Settings
pub mod Answers
pub mod Messages
pub mod Refines
pub mod Kept
use leave_safe.Prelude.{
  ℕ, Bool, true, false, Option, none, some, ◌≡◌, refl, sym, subst, [], Bytes, bytes_eq,
}
use leave_safe.Prelude.Map.{Map, lookup, insert}
use leave_safe.Config.{Config}
use leave_safe.Monitor.Manager.{or_false}
use leave_safe.Ws.Hub.{Alarm}
use leave_safe.Ws.Hub.Arming.{no_alarm}
use leave_safe.Ws.Hub.View.{View}

-- Whether a sensor is switched on.
abbrev pub is_on : Bytes → Map Bool → Bool
is_on name switched = or_false (lookup name switched)

-- What one step of the hub may do to the watch, where `o` is the watch that the step finds: it is
-- armed only as the step found it, and the alarm that is answered is the one that the step found.
pub data Move (o : View) : View → View → Type 0 where
  -- The machine is armed.
  arms :
      (v : View) (now : ℕ)
      → v.armed ≡ o.armed
      → Move o v (record v { armed = true; armed_at = now })
  -- It is disarmed, and the alarm ends with the watch.
  disarms : (v : View) → Move o v (record v { armed = false; armed_at = 0; alarm = no_alarm })
  -- The alarm is called off.
  clears : (v : View) → Move o v (record v { alarm = no_alarm })
  -- It is called off, and its sensor is switched off.
  answers :
      (v : View)
      → v.alarm.sensor ≡ o.alarm.sensor
      → Move o v (record v { alarm = no_alarm; switched = insert v.alarm.sensor false v.switched })
  -- An alarm begins, where none sounds.
  raises : (v : View) (a : Alarm) → v.alarm.active ≡ false → Move o v (record v { alarm = a })
  -- A grace period begins or is over.
  graces : (v : View) (s : Map ℕ) → Move o v (record v { suppressed_sensors = s })
  -- Settings are stored that are not about sensors.
  settles :
      (v : View) (c : Option Config) (enabled : Bool) (hash : Bytes) (auto : Bool)
      → Move o v
          (record v { cfg = c; pin_enabled = enabled; pin_hash = hash; auto_arm_on_lock = auto })
  -- Sensors are chosen, where the machine is not armed.
  chooses : (v : View) (m : Map Bool) → v.armed ≡ false → Move o v (record v { switched = m })
  -- The map of the sensors is written again, and says the same.
  rewrites :
      (v : View) (m : Map Bool)
      → ((name : Bytes) → is_on name m ≡ is_on name v.switched)
      → Move o v (record v { switched = m })
  -- A sensor is switched on.
  switches_on :
      (v : View) (sensor : Bytes) → Move o v (record v { switched = insert sensor true v.switched })

-- Moves one after another.
pub data Run (o : View) : View → View → Type 0 where
  stays : (v : View) → Run o v v
  goes : (v w x : View) → Move o v w → Run o w x → Run o v x

module _ {o : View} where
  pub one : (v w : View) → Move o v w → Run o v w
  one v w m = goes v w w m (stays w)

  pub Run-trans : (v w x : View) → Run o v w → Run o w x → Run o v x
  Run-trans v _ x (stays _) s = s
  Run-trans v w x (goes _ u _ m r) s = goes v u x m (Run-trans u w x r s)

  -- A run to a view is one to whatever is equal to it.
  pub Run-along : (v w x : View) → x ≡ w → Run o v w → Run o v x
  Run-along v w x e r = subst (λ u. Run o v u) (sym e) r

  pub staying : (v x : View) → x ≡ v → Run o v x
  staying v x e = Run-along v v x e (stays v)
