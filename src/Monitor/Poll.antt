-- ===== src/Monitor/Poll.antt =====
-- internal/monitor/state_watch.go and poll.go, on readings that are true or false, which is how
-- the charger, the lid and the screen are watched.
pub mod Changes
use leave_safe.Prelude.{ℕ, Bool, true, false, Option, none, some, List, [], ◌∷◌, if◌then◌else◌}
use leave_safe.Monitor.Alerting.{Alert}

pub record StateWatch : Type 0 where
  pub known : Bool
  pub last : Bool

same_reading : Bool → Bool → Bool
same_reading true b = b
same_reading false true = false
same_reading false false = true

-- `stateWatch.sample`.
pub sample : StateWatch → Bool → StateWatch × Bool
unfolding same_reading
sample w now =
    if w.known
    then if same_reading now w.last then (w, false) else (record w { last = now }, true)
    else (record { known = true; last = now }, false)

-- `forget`.
pub forget : StateWatch → StateWatch
forget w = record w { known = false }

-- One tick: what `read` returns, none for an error, and whether `sendAlert` gets an alert through
-- before the context is done.
pub record Tick : Type 0 where
  pub reading : Option Bool
  pub listening : Bool

-- The loop of `run`, until the context is done: the watch it leaves and the alerts that it sent.
poll_loop : (Bool → Alert) → StateWatch → List Tick → StateWatch × List Alert
unfolding sample
poll_loop alert w [] = (w, [])
poll_loop alert w (t ∷ ts) = elim t.reading [
  | none ↦ poll_loop alert w ts
  | some now ↦
      let (w', changed) = sample w now in
      let (w2, sent) = poll_loop alert w' ts in
      if changed then if t.listening then (w2, alert now ∷ sent) else (w', []) else (w2, sent)
]

pub data PollResult : Type 0 where
  unreadable : StateWatch → PollResult
  stopped : StateWatch → List Alert → PollResult

-- `poll.run`.
pub run : (Bool → Alert) → StateWatch → Option Bool → List Tick → PollResult
unfolding forget poll_loop sample
run alert w none ts = unreadable (forget w)
run alert w (some now) ts =
    let (w', sent) = poll_loop alert (sample (forget w) now).0 ts in stopped w' sent
