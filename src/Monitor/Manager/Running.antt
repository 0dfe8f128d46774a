-- ===== src/Monitor/Manager/Running.antt =====
-- Which sensors run: none that is switched off, and after a start every one that can.
use leave_safe.Prelude.{
  Bool, true, false, ◌&&◌, ◌||◌, not, ◌≡◌, refl, ◌∙◌, List, [], ◌∷◌, Bytes, bytes_eq_iff,
  bytes_eq_refl, if◌then◌else◌, arith, Bool-cases, inl, inr, All,
}
use leave_safe.Prelude.Map.{lookup, lookup-insert, lookup-erase}
use leave_safe.Monitor.Manager.{
  Sensor, SensorManager, cancel, or_false, is_present, is_enabled, is_running, enable, disable,
  start_one, start_each, start_enabled, stop_all, probe, unsettled, probe_all, availability_for,
}

-- Whatever runs is switched on.
pub IsWatched : SensorManager → Type 0
IsWatched m = (name : Bytes) → is_running name m ≡ true → is_enabled name m ≡ true

pub enable-IsWatched : (n : Bytes) (m : SensorManager) → IsWatched m → IsWatched (enable n m)
unfolding IsWatched is_running is_enabled enable or_false
enable-IsWatched n m w name r = ground (arith, lookup-insert n name true m.enabled, w name r)

pub disable-IsWatched : (n : Bytes) (m : SensorManager) → IsWatched m → IsWatched (disable n m)
unfolding IsWatched is_running is_enabled disable or_false is_present
disable-IsWatched n m w name r =
    ground (arith, lookup-insert n name false m.enabled, lookup-erase n name m.cancels, w name)

pub start_one-IsWatched : (s : Sensor) (m : SensorManager) → IsWatched m → IsWatched (start_one s m)
unfolding IsWatched is_running is_enabled start_one or_false is_present
start_one-IsWatched s m w name r =
    ground (arith, lookup-insert s.name name cancel m.cancels, bytes_eq_iff s.name name, w name)

pub start_each-IsWatched :
    (ss : List Sensor) (m : SensorManager) → IsWatched m → IsWatched (start_each ss m)
unfolding start_each
start_each-IsWatched [] m w = w
start_each-IsWatched (s ∷ ss) m w =
    start_each-IsWatched ss (start_one s m) (start_one-IsWatched s m w)

probe-IsWatched : (s : Sensor) (m : SensorManager) → IsWatched m → IsWatched (probe s m)
unfolding IsWatched is_running is_enabled probe
probe-IsWatched s m w = w

probe_all-IsWatched :
    (asked : Sensor → Bool) (ss : List Sensor) (m : SensorManager)
    → IsWatched m
    → IsWatched (probe_all asked ss m)
unfolding probe_all
probe_all-IsWatched asked [] m w = w
probe_all-IsWatched asked (s ∷ ss) m w = elim (Bool-cases (asked s)) [
  | inl e ↦ rw e (probe_all-IsWatched asked ss (probe s m) (probe-IsWatched s m w))
  | inr e ↦ rw e (probe_all-IsWatched asked ss m w)
]

pub start_enabled-IsWatched : (m : SensorManager) → IsWatched m → IsWatched (start_enabled m)
unfolding start_enabled availability_for
start_enabled-IsWatched m w =
    start_each-IsWatched (availability_for m).sensors (availability_for m)
      (probe_all-IsWatched (unsettled m) m.sensors m w)

pub stop_all-IsWatched : (m : SensorManager) → IsWatched (stop_all m)
unfolding IsWatched is_running is_present stop_all lookup
stop_all-IsWatched m name r = absurd cc

probed_enabled :
    (b : Bool) (s : Sensor) (m : SensorManager) → (if b then probe s m else m).enabled ≡ m.enabled
unfolding probe
probed_enabled true s m = refl
probed_enabled false s m = refl

-- Probing and starting switch no sensor on or off.
probe_all_enabled :
    (asked : Sensor → Bool) (ss : List Sensor) (m : SensorManager)
    → (probe_all asked ss m).enabled ≡ m.enabled
unfolding probe_all probe
probe_all_enabled asked [] m = refl
probe_all_enabled asked (s ∷ ss) m =
    probe_all_enabled asked ss (if asked s then probe s m else m) ∙ probed_enabled (asked s) s m

start_one_enabled : (s : Sensor) (m : SensorManager) → (start_one s m).enabled ≡ m.enabled
unfolding start_one
start_one_enabled s m = ground arith

start_each_enabled : (ss : List Sensor) (m : SensorManager) → (start_each ss m).enabled ≡ m.enabled
unfolding start_each
start_each_enabled [] m = refl
start_each_enabled (s ∷ ss) m = start_each_enabled ss (start_one s m) ∙ start_one_enabled s m

pub start_enabled_enabled : (m : SensorManager) → (start_enabled m).enabled ≡ m.enabled
unfolding start_enabled availability_for
start_enabled_enabled m =
    start_each_enabled (availability_for m).sensors (availability_for m)
    ∙ probe_all_enabled (unsettled m) m.sensors m

-- A sensor that is switched on and works is running.
pub covered : SensorManager → Sensor → Bool
covered m s =
    not (is_enabled s.name m && or_false (lookup s.name m.availability)) || is_running s.name m

start_one_covers : (s : Sensor) (m : SensorManager) → covered (start_one s m) s ≡ true
unfolding covered start_one is_enabled is_running or_false is_present
start_one_covers s m =
    ground (arith, lookup-insert s.name s.name cancel m.cancels, bytes_eq_refl s.name)

start_one_keeps :
    (s t : Sensor) (m : SensorManager) → covered m t ≡ true → covered (start_one s m) t ≡ true
unfolding covered start_one is_enabled is_running or_false is_present
start_one_keeps s t m c = ground (arith, lookup-insert s.name t.name cancel m.cancels, c)

start_each_keeps :
    (ss : List Sensor) (t : Sensor) (m : SensorManager)
    → covered m t ≡ true
    → covered (start_each ss m) t ≡ true
unfolding start_each
start_each_keeps [] t m c = c
start_each_keeps (s ∷ ss) t m c = start_each_keeps ss t (start_one s m) (start_one_keeps s t m c)

start_each_covers :
    (ss : List Sensor) (m : SensorManager) → All (λ s. covered (start_each ss m) s ≡ true) ss
unfolding start_each
start_each_covers [] m = tt
start_each_covers (s ∷ ss) m = (
  start_each_keeps ss s (start_one s m) (start_one_covers s m),
  start_each_covers ss (start_one s m),
)

start_one_sensors : (s : Sensor) (m : SensorManager) → (start_one s m).sensors ≡ m.sensors
unfolding start_one
start_one_sensors s m = ground arith

start_each_sensors : (ss : List Sensor) (m : SensorManager) → (start_each ss m).sensors ≡ m.sensors
unfolding start_each
start_each_sensors [] m = refl
start_each_sensors (s ∷ ss) m = start_each_sensors ss (start_one s m) ∙ start_one_sensors s m

-- After a start every registered sensor that is switched on and was found to work is running.
pub start_enabled_covers :
    (m : SensorManager) → All (λ s. covered (start_enabled m) s ≡ true) (start_enabled m).sensors
unfolding start_enabled
start_enabled_covers m =
    rw (start_each_sensors (availability_for m).sensors (availability_for m))
      (start_each_covers (availability_for m).sensors (availability_for m))
