-- ===== src/Monitor/Motion.antt =====
-- internal/monitor/motion.go. Accelerations are float64 (Prelude/Float) with a sign; NaN and
-- infinity, which `valid` refuses, are no such numbers. Time 0 is Go's zero time.
pub mod Session
use leave_safe.Prelude.{
  ℕ, ◌+◌, ◌-◌, ◌*◌, Bool, true, false, ◌&&◌, ◌||◌, not, Option, none, some, List, [], ◌∷◌, ltb, leb,
  ◌==◌, if◌then◌else◌,
}
use leave_safe.Prelude.Float.{float_of, float_add, float_apart, float_mul}
use leave_safe.Auth.Policy.{ℤ, pos, negsuc, seconds}

pub record MotionReading : Type 0 where
  pub x : ℤ
  pub y : ℤ
  pub z : ℤ
  pub at : ℕ

-- `valid`: less than a second old, and no more than one ahead.
unfoldable pub valid : MotionReading → ℕ → Bool
valid r now = not (r.at == 0) && (leb r.at (now + seconds 1) && ltb now (r.at + seconds 1))

pub record MotionDetector : Type 0 where
  pub reference : MotionReading
  pub consecutive : ℕ
  pub triggered : Bool

-- The size of a difference, before it is rounded.
apart : ℤ → ℤ → ℕ
apart (pos m) (pos n) = (m - n) + (n - m)
apart (pos m) (negsuc n) = m + n + 1
apart (negsuc m) (pos n) = m + n + 1
apart (negsuc m) (negsuc n) = (m - n) + (n - m)

-- `dx*dx`, of two coordinates.
squared : ℤ → ℤ → ℕ
unfolding apart float_apart float_mul
squared m n = let d = float_apart (apart m n) in float_mul d d

unfoldable pub distance : MotionReading → MotionReading → ℕ
unfolding squared float_add
distance r s = float_add (float_add (squared r.x s.x) (squared r.y s.y)) (squared r.z s.z)

-- `0.18*0.18` and `0.65*0.65`, which the compiler works out before it rounds.
abbrev pub nudge : ℕ
nudge = float_of 324 10_000

abbrev pub jolt : ℕ
jolt = float_of 4225 10_000

pub moved : MotionDetector → MotionReading → MotionDetector × Bool
moved d r =
    let far = distance r d.reference in
    let n = if leb nudge far then d.consecutive + 1 else 0 in
    if d.triggered then (d, false) else (record d { consecutive = n }, leb jolt far || leb 3 n)

-- `session`: the detector of the arm context, or a new one; `same_arm` says that the context is the one
-- for which the detector was made.
pub session : Option MotionDetector → Bool → MotionReading → MotionDetector
session (some d) true reference = record d { consecutive = 0 }
session _ _ reference = record { reference = reference; consecutive = 0; triggered = false }

-- One tick of `watch`: what `read` returns, none for an error, the time, and whether an alert gets
-- through before the context is done.
pub record Look : Type 0 where
  pub reading : Option MotionReading
  pub now : ℕ
  pub listening : Bool

-- What a reading newer than the last makes of the detector, and whether an alert is sent, and
-- whether the loop goes on.
judged : MotionDetector → MotionReading → Bool → MotionDetector × Bool × Bool
unfolding moved
judged d r listening =
    let (d', hit) = moved d r in
    if hit
    then if listening then (record d' { triggered = true }, true, true) else (d', false, false)
    else (d', false, true)

-- `watch`, until the context is done or the sensor fails: the detector it leaves, and how many
-- alerts it sent. `last` is the time of the last reading that counted.
pub watch : MotionDetector → ℕ → List Look → MotionDetector × ℕ
unfolding judged
watch d last [] = (d, 0)
watch d last (l ∷ ls) = elim l.reading [
  | none ↦ (d, 0)
  | some r ↦
      let (d', sent, on) = judged d r l.listening in
      let (d2, n) = watch d' r.at ls in
      if valid r l.now
      then if leb r.at last
        then watch d last ls
        else if on
        then if sent then (d2, n + 1) else (d2, n)
        else (d', 0)
      else (d, 0)
]
