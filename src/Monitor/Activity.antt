-- ===== src/Monitor/Activity.antt =====
-- internal/monitor/input_activity.go. A reading is a whole number of nanoseconds, where the code has
-- seconds as a float64; a negative one says that the system could not be asked.
pub mod Once
use leave_safe.Prelude.{ℕ, ◌+◌, Bool, true, false, ◌&&◌, ltb, leb, if◌then◌else◌}
use leave_safe.Auth.Policy.{ℤ, pos, negsuc, seconds}

pub record ActivityWatch : Type 0 where
  pub threshold : ℕ
  pub busy : ℕ
  pub quiet : ℕ
  pub alerted : Bool

abbrev pub activity_quiet : ℕ
activity_quiet = seconds 2

-- The test with which `sample` begins.
unfoldable pub is_quiet : ℤ → Bool
is_quiet (pos idle) = leb activity_quiet idle
is_quiet (negsuc n) = true

pub quiet_sample : ActivityWatch → ActivityWatch
quiet_sample w =
    let quiet = w.quiet + 1 in
    record w {
      busy = 0;
      quiet = quiet;
      alerted = if w.alerted && leb 5 quiet then false else w.alerted;
    }

pub busy_sample : ActivityWatch → ActivityWatch × Bool
busy_sample w =
    let w1 = record w { quiet = 0 } in
    if w.alerted
    then (w1, false)
    else if ltb (w.busy + 1) w.threshold
    then (record w1 { busy = w.busy + 1 }, false)
    else (record w1 { busy = 0; alerted = true }, true)

pub sample : ActivityWatch → ℤ → ActivityWatch × Bool
unfolding is_quiet
sample w idle = if is_quiet idle then (quiet_sample w, false) else busy_sample w
