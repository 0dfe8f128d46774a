-- ===== src/Ws/Hub/Machine/Kept.antt =====
-- What a run of the machine leaves as it was.
use leave_safe.Prelude.{◌≡◌, refl, ◌∙◌, true, false, Bytes, bytes_eq, arith, Bool-cases, inl, inr}
use leave_safe.Prelude.Map.{lookup-insert}
use leave_safe.Monitor.Manager.{is_enabled, or_false}
use leave_safe.Ws.Hub.{Env, Hub}
use leave_safe.Ws.Hub.Steps.{Step, take_step}
use leave_safe.Ws.Hub.View.{View, view}
use leave_safe.Ws.Hub.Machine.{
  Move, arms, disarms, clears, answers, raises, graces, settles, chooses, rewrites, switches_on,
  Run, stays, goes, is_on,
}
use leave_safe.Ws.Hub.Machine.Refines.{take_step-Run}

module _ (o : View) (was_armed : o.armed ≡ true) where
  -- In a step that found the machine armed, nothing arms it once it is disarmed.
  Move-disarmed : (v w : View) → Move o v w → v.armed ≡ false → w.armed ≡ false
  Move-disarmed v _ (arms _ now e) f = absurd (cc (e, f, was_armed))
  Move-disarmed v _ (disarms _) f = refl
  Move-disarmed v _ (clears _) f = f
  Move-disarmed v _ (answers _ e) f = f
  Move-disarmed v _ (raises _ a n) f = f
  Move-disarmed v _ (graces _ s) f = f
  Move-disarmed v _ (settles _ c e h a) f = f
  Move-disarmed v _ (chooses _ m a) f = f
  Move-disarmed v _ (rewrites _ m k) f = f
  Move-disarmed v _ (switches_on _ s) f = f

  Run-disarmed : (v w : View) → Run o v w → v.armed ≡ false → w.armed ≡ false
  Run-disarmed v _ (stays _) f = f
  Run-disarmed v w (goes _ u _ m r) f = Run-disarmed u w r (Move-disarmed v u m f)

  module _ (name : Bytes) (other : bytes_eq o.alarm.sensor name ≡ false) where
    -- What a move that leaves the machine armed does to a sensor that is on.
    Move-keeps_on :
        (v w : View)
        → Move o v w
        → w.armed ≡ true
        → is_on name v.switched ≡ true
        → is_on name w.switched ≡ true
    unfolding or_false
    Move-keeps_on v _ (arms _ now e) a on = on
    Move-keeps_on v _ (disarms _) a on = on
    Move-keeps_on v _ (clears _) a on = on
    Move-keeps_on v _ (answers _ e) a on =
        let apart : bytes_eq v.alarm.sensor name ≡ false = rw e other in
        ground (arith, lookup-insert v.alarm.sensor name false v.switched, apart, on)
    Move-keeps_on v _ (raises _ x n) a on = on
    Move-keeps_on v _ (graces _ s) a on = on
    Move-keeps_on v _ (settles _ c e h x) a on = on
    Move-keeps_on v _ (chooses _ m f) a on = absurd (cc (a, f))
    Move-keeps_on v _ (rewrites _ m k) a on = k name ∙ on
    Move-keeps_on v _ (switches_on _ s) a on =
        ground (arith, lookup-insert s name true v.switched, on)

    Run-keeps_on :
        (v w : View)
        → Run o v w
        → w.armed ≡ true
        → is_on name v.switched ≡ true
        → is_on name w.switched ≡ true
    Run-keeps_on v _ (stays _) a on = on
    Run-keeps_on v w (goes _ u _ m r) a on = elim (Bool-cases u.armed) [
      | inl y ↦ Run-keeps_on u w r a (Move-keeps_on v u m y on)
      | inr n ↦ absurd (cc (Run-disarmed u w r n, a))
    ]

-- A step that runs with none beside it, finds the machine armed and leaves it armed leaves every
-- sensor on that was on, save the one that the step finds recorded as having raised the alarm.
pub take_step-keeps_on :
    (env : Env) (s : Step) (h : Hub) (name : Bytes)
    → h.watch.armed ≡ true
    → (take_step env s h).watch.armed ≡ true
    → bytes_eq h.watch.alarm.sensor name ≡ false
    → is_enabled name h.watch.sensors ≡ true
    → is_enabled name (take_step env s h).watch.sensors ≡ true
unfolding is_enabled view
take_step-keeps_on env s h name a b other on =
    Run-keeps_on (view h) a name other (view h) (view (take_step env s h)) (take_step-Run env s h) b
      on
