-- ===== src/Monitor/Examples.antt =====
-- Runs of internal/monitor on small inputs.
use leave_safe.Prelude.{
  ℕ, ◌≤◌, ◌≡◌, leb, refl, Bool, true, false, Option, none, some, [], ◌∷◌, arith, codes, All,
}
use leave_safe.Prelude.Float.{float_of, float_add, float_apart, float_mul}
use leave_safe.Auth.Policy.{pos, negsuc}
use leave_safe.Monitor.Manager.{SensorManager, start_enabled}
use leave_safe.Monitor.Manager.Running.{covered, start_enabled_covers}
use leave_safe.Monitor.Alerting.{lid_alert}
use leave_safe.Monitor.Poll.{StateWatch, Tick, stopped, run}
use leave_safe.Monitor.Poll.Changes.{alternating, flipped, latest, run_alternates}
use leave_safe.Monitor.Activity.{ActivityWatch, is_quiet}
use leave_safe.Monitor.Activity.Once.{alerts, quiet_readings, alerts_silent, alerts_once}
use leave_safe.Monitor.Motion.{MotionReading, MotionDetector, Look, jolt, distance, session}
use leave_safe.Monitor.Motion.Session.{attempts, attempts_once}

abbrev docked : StateWatch
docked = record { known = true; last = true }

abbrev heard : Option Bool → Tick
heard r = record { reading = r; listening = true }

run_alternates_example :
    (n : ℕ) × (run lid_alert docked (some false) (heard none ∷ heard (some true) ∷ [])
      ≡ stopped
          (record { known = true; last = latest false (heard none ∷ heard (some true) ∷ []) })
          (alternating lid_alert false n))
    × (flipped n false ≡ latest false (heard none ∷ heard (some true) ∷ []))
run_alternates_example =
    run_alternates lid_alert docked false (heard none ∷ heard (some true) ∷ []) (refl, (refl, tt))

abbrev said : ActivityWatch
said = record { threshold = 3; busy = 0; quiet = 0; alerted = true }

alerts_silent_example : alerts said (negsuc 0 ∷ pos 0 ∷ pos 5 ∷ []) ≡ 0
unfolding quiet_readings is_quiet
alerts_silent_example = alerts_silent said (negsuc 0 ∷ pos 0 ∷ pos 5 ∷ []) refl (omega arith)

abbrev alone : ActivityWatch
alone = record { threshold = 3; busy = 0; quiet = 9; alerted = false }

alerts_once_example : alerts alone (pos 0 ∷ pos 1 ∷ pos 2 ∷ pos 3 ∷ []) ≡ 1
unfolding is_quiet
alerts_once_example =
    alerts_once alone (pos 0 ∷ pos 1 ∷ pos 2 ∷ pos 3 ∷ []) refl (refl, (refl, (refl, (refl, tt))))
      (omega arith)

abbrev on_table : MotionReading
on_table = record { x = pos 0; y = pos 0; z = pos (float_of 1 1); at = 5 }

abbrev lifted : MotionReading
lifted = record { x = pos (float_of 7 10); y = negsuc 9; z = pos (float_of 1 1); at = 6 }

abbrev still : MotionReading
still = record { x = pos (float_of 2 1000); y = negsuc 9; z = pos (float_of 1 1); at = 6 }

abbrev look : MotionReading → Look
look r = record { reading = some r; now = 7; listening = true }

abbrev armed : MotionDetector
armed = record { reference = on_table; consecutive = 0; triggered = false }

attempts_once_example :
    (attempts
      (session none true on_table)
      ((on_table, look lifted ∷ []) ∷ (still, look lifted ∷ []) ∷ [])).1
    ≤ 1
attempts_once_example =
    attempts_once on_table ((on_table, look lifted ∷ []) ∷ (still, look lifted ∷ []) ∷ [])

-- A reading of 1.65 g is 0.65 g from one of 1 g, and float64 finds it nearer.
rounding_counts :
    leb jolt (distance (record on_table { z = pos (float_of 165 100) }) on_table) ≡ false
unfolding distance float_of float_add float_apart float_mul
rounding_counts = refl

-- A lid that is switched on and works, and a screen that is switched off.
abbrev two_sensors : SensorManager
two_sensors = record {
  sensors =
      record { name = codes "lid"; display_name = codes "Lid"; works = true; reports_ready = false }
      ∷ record {
        name = codes "screen";
        display_name = codes "Screen";
        works = true;
        reports_ready = false;
      }
      ∷ [];
  enabled = (codes "lid", true) ∷ (codes "screen", false) ∷ [];
  cancels = [];
  failures = [];
  availability = [];
  probing = [];
}

start_enabled_covers_example :
    All (λ s. covered (start_enabled two_sensors) s ≡ true) (start_enabled two_sensors).sensors
start_enabled_covers_example = start_enabled_covers two_sensors
