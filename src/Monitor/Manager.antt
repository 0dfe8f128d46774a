-- ===== src/Monitor/Manager.antt =====
-- internal/monitor/manager.go and availability.go: which sensors are switched on, which run, and
-- what is known of each. The lock makes each method a step of its own; `cancels` keeps the names
-- under which a cancel function stands, of which only that it is there matters, and a run of a sensor ends when its entry does.
pub mod Running
use leave_safe.Prelude.{
  Bool, true, false, ◌&&◌, ◌||◌, not, Option, none, some, List, [], ◌∷◌, ◌++◌, Bytes, codes,
  if◌then◌else◌,
}
use leave_safe.Prelude.Map.{Map, lookup, insert, erase}

-- What the manager asks of a sensor. `works` is what `Available` answers, and `reports_ready` says
-- that the driver has `StartWithReady`.
pub record Sensor : Type 0 where
  pub name : Bytes
  pub display_name : Bytes
  pub works : Bool
  pub reports_ready : Bool

pub data CancelFunc : Type 0 where
  cancel : CancelFunc

pub record SensorManager : Type 0 where
  pub sensors : List Sensor
  pub enabled : Map Bool
  pub cancels : Map CancelFunc
  pub failures : Map Bytes
  pub availability : Map Bool
  pub probing : Map Bool

-- `NewManager`.
pub new_sensor_manager : SensorManager
new_sensor_manager = record {
  sensors = [];
  enabled = [];
  cancels = [];
  failures = [];
  availability = [];
  probing = [];
}

-- A missing key reads as the zero value of its type.
unfoldable pub or_false : Option Bool → Bool
or_false none = false
or_false (some b) = b

or_empty : Option Bytes → Bytes
or_empty none = []
or_empty (some s) = s

unfoldable pub is_present : Option CancelFunc → Bool
is_present none = false
is_present (some _) = true

-- `recordFailure`.
pub record_failure : Bytes → Bytes → SensorManager → SensorManager
record_failure name err m = record m { failures = insert name err m.failures }

-- `clearFailure`.
pub clear_failure : Bytes → SensorManager → SensorManager
clear_failure name m = record m { failures = erase name m.failures }

-- `Failure`.
pub failure : Bytes → SensorManager → Bytes
unfolding or_empty
failure name m = or_empty (lookup name m.failures)

-- `Register`.
pub register : Sensor → SensorManager → SensorManager
register s m = record m { sensors = m.sensors ++ s ∷ [] }

-- `IsEnabled`.
unfoldable pub is_enabled : Bytes → SensorManager → Bool
unfolding or_false
is_enabled name m = or_false (lookup name m.enabled)

unfoldable pub is_running : Bytes → SensorManager → Bool
unfolding is_present
is_running name m = is_present (lookup name m.cancels)

-- `Enable`.
unfoldable pub enable : Bytes → SensorManager → SensorManager
enable name m = record m { enabled = insert name true m.enabled }

-- `Disable`: deleting a name that has no entry changes nothing.
unfoldable pub disable : Bytes → SensorManager → SensorManager
disable name m = record m {
  enabled = insert name false m.enabled;
  cancels = erase name m.cancels;
  failures = erase name m.failures;
}

-- `probe`.
pub probe : Sensor → SensorManager → SensorManager
probe s m = record m {
  availability = insert s.name s.works m.availability;
  probing = erase s.name m.probing;
}

-- `AvailableNow`: what it answers, whether that is known, and whether a probe begins.
unfoldable pub available_now : Sensor → SensorManager → SensorManager × Bool × Bool
unfolding or_false
available_now s m = elim (lookup s.name m.availability) [
  | some a ↦ (m, a, true)
  | none ↦
      if or_false (lookup s.name m.probing)
      then (m, false, false)
      else (record m { probing = insert s.name true m.probing }, false, false)
]

-- The probes of `availabilityFor` and `PrimeAvailability`, of the sensors that `asked` picks.
probe_all : (Sensor → Bool) → List Sensor → SensorManager → SensorManager
probe_all asked [] m = m
probe_all asked (s ∷ ss) m = probe_all asked ss (if asked s then probe s m else m)

-- A sensor that nobody has asked yet.
unsettled : SensorManager → Sensor → Bool
unsettled m s = elim (lookup s.name m.availability) [ none ↦ true | some a ↦ false ]

-- `availabilityFor` of every sensor: the manager it leaves holds the answers.
unfoldable pub availability_for : SensorManager → SensorManager
unfolding probe_all unsettled
availability_for m = probe_all (unsettled m) m.sensors m

-- `PrimeAvailability`.
pub prime_availability : SensorManager → SensorManager
unfolding probe_all
prime_availability m = probe_all (λ s. true) m.sensors m

-- One sensor of `StartEnabled`, once the answers are in.
unfoldable pub start_one : Sensor → SensorManager → SensorManager
unfolding or_false is_enabled is_running
start_one s m =
    if not (is_enabled s.name m) || not (or_false (lookup s.name m.availability))
    then m
    else if is_running s.name m
    then m
    else record m {
      cancels = insert s.name cancel m.cancels;
      failures =
          if s.reports_ready
          then insert s.name (codes "waiting for live sensor readings") m.failures
          else m.failures;
    }

unfoldable pub start_each : List Sensor → SensorManager → SensorManager
unfolding start_one
start_each [] m = m
start_each (s ∷ ss) m = start_each ss (start_one s m)

-- `StartEnabled`.
unfoldable pub start_enabled : SensorManager → SensorManager
unfolding availability_for start_each
start_enabled m = let m1 = availability_for m in start_each m1.sensors m1

erase_named : Map CancelFunc → Map Bytes → Map Bytes
erase_named [] failures = failures
erase_named ((name, _) ∷ cancels) failures = erase_named cancels (erase name failures)

-- `StopAll`.
unfoldable pub stop_all : SensorManager → SensorManager
unfolding erase_named
stop_all m = record m { cancels = []; failures = erase_named m.cancels m.failures }

-- `startSensor` begins a run of a sensor: one that reports later keeps its failure until then.
pub start_sensor : Sensor → SensorManager → SensorManager
unfolding clear_failure
start_sensor s m = if s.reports_ready then m else clear_failure s.name m

-- What the driver reports once it has live data, while the run it belongs to is `live`.
pub went_ready : Bool → Sensor → SensorManager → SensorManager
went_ready live s m = if live then record m { failures = erase s.name m.failures } else m

-- How a run ends, `none` where the driver gives no error: the failure, if there is one to retry.
pub run_ended : Bool → Sensor → Option Bytes → SensorManager → SensorManager × Bool
unfolding record_failure
run_ended live s err m =
    if live
    then (
      elim err [
        | some e ↦ record_failure s.name e m
        | none ↦
            record_failure s.name (codes "the sensor stopped watching without being asked to") m
      ],
      true,
    )
    else (m, false)
