-- ===== src/Monitor/Activity/Once.antt =====
-- One alert for each time that somebody comes to the machine.
use leave_safe.Prelude.{
  ℕ, suc, ◌+◌, ◌≤◌, ◌<◌, ◌≡◌, refl, ap, ◌∙◌, true, false, List, [], ◌∷◌, ltb, leb, if◌then◌else◌,
  arith, length, All, Bool-cases, dec_lt, inl, inr,
}
use leave_safe.Auth.Policy.{ℤ}
use leave_safe.Monitor.Activity.{ActivityWatch, is_quiet, quiet_sample, busy_sample, sample}

-- How many alerts the readings complete.
pub alerts : ActivityWatch → List ℤ → ℕ
alerts w [] = 0
alerts w (idle ∷ is) =
    let rest = alerts (sample w idle).0 is in if (sample w idle).1 then rest + 1 else rest

unfoldable pub quiet_readings : List ℤ → ℕ
quiet_readings [] = 0
quiet_readings (idle ∷ is) =
    let rest = quiet_readings is in if is_quiet idle then rest + 1 else rest

-- What each kind of reading does to the watch.
quiet_held :
    (w : ActivityWatch) (idle : ℤ)
    → is_quiet idle ≡ true
    → w.alerted ≡ true
    → w.quiet + 1 < 5
    → sample w idle ≡ (record w { busy = 0; quiet = w.quiet + 1 }, false)
unfolding sample quiet_sample
quiet_held w idle q h few =
    let more : leb 5 (w.quiet + 1) ≡ false = ground arith in rw (q, h, more) refl

busy_held :
    (w : ActivityWatch) (idle : ℤ)
    → is_quiet idle ≡ false
    → w.alerted ≡ true
    → sample w idle ≡ (record w { quiet = 0 }, false)
unfolding sample busy_sample
busy_held w idle b h = rw (b, h) refl

busy_below :
    (w : ActivityWatch) (idle : ℤ)
    → is_quiet idle ≡ false
    → w.alerted ≡ false
    → w.busy + 1 < w.threshold
    → sample w idle ≡ (record w { busy = w.busy + 1; quiet = 0 }, false)
unfolding sample busy_sample
busy_below w idle b h few =
    let below : ltb (w.busy + 1) w.threshold ≡ true = ground arith in rw (b, h, below) refl

busy_reached :
    (w : ActivityWatch) (idle : ℤ)
    → is_quiet idle ≡ false
    → w.alerted ≡ false
    → w.threshold ≤ w.busy + 1
    → sample w idle ≡ (record w { busy = 0; quiet = 0; alerted = true }, true)
unfolding sample busy_sample
busy_reached w idle b h full =
    let below : ltb (w.busy + 1) w.threshold ≡ false = ground arith in rw (b, h, below) refl

-- After an alert there is no other one before five more readings have been quiet.
pub alerts_silent :
    (w : ActivityWatch) (is : List ℤ)
    → w.alerted ≡ true
    → w.quiet + quiet_readings is < 5
    → alerts w is ≡ 0
unfolding alerts quiet_readings
alerts_silent w [] h few = refl
alerts_silent w (idle ∷ is) h few = elim (Bool-cases (is_quiet idle)) [
  | inl q ↦
      let n : quiet_readings (idle ∷ is) ≡ quiet_readings is + 1 = rw q refl in
      rw (quiet_held w idle q h (omega (arith, few, n)))
        (alerts_silent (record w { busy = 0; quiet = w.quiet + 1 }) is h (omega (arith, few, n)))
  | inr b ↦
      let n : quiet_readings (idle ∷ is) ≡ quiet_readings is = rw b refl in
      rw (busy_held w idle b h)
        (alerts_silent (record w { quiet = 0 }) is h (omega (arith, few, n)))
]

-- While somebody stays, nothing more is said.
alerts_none :
    (w : ActivityWatch) (is : List ℤ)
    → w.alerted ≡ true
    → All (λ idle. is_quiet idle ≡ false) is
    → alerts w is ≡ 0
unfolding alerts
alerts_none w [] h b = refl
alerts_none w (idle ∷ is) h b =
    rw (busy_held w idle b.0 h) (alerts_none (record w { quiet = 0 }) is h b.1)

-- Somebody who comes to a machine that was left alone raises one alert, with the reading that
-- reaches the threshold, and no other while they stay.
pub alerts_once :
    (w : ActivityWatch) (is : List ℤ)
    → w.alerted ≡ false
    → All (λ idle. is_quiet idle ≡ false) is
    → w.busy < w.threshold
    → alerts w is ≡ (if leb w.threshold (w.busy + length is) then 1 else 0)
unfolding alerts
alerts_once w [] h b lt = ground arith
alerts_once w (idle ∷ is) h b lt = elim (dec_lt (w.busy + 1) w.threshold) [
  | yes below ↦ rw (busy_below w idle b.0 h below) (
      alerts_once (record w { busy = w.busy + 1; quiet = 0 }) is h b.1 below
      ∙ ap (λ n. if leb w.threshold n then 1 else 0) (omega arith))
  | no reached ↦
      let full : leb w.threshold (w.busy + suc (length is)) ≡ true = ground arith in
      rw (busy_reached w idle b.0 h (omega arith), full)
        (ap (λ n. n + 1)
          (alerts_none (record w { busy = 0; quiet = 0; alerted = true }) is refl b.1))
]
