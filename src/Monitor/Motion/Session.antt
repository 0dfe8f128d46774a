-- ===== src/Monitor/Motion/Session.antt =====
-- The alerts of one arm session, through whatever losses of the sensor.
use leave_safe.Prelude.{
  ℕ, ◌+◌, ◌≤◌, ◌<◌, ◌≡◌, refl, ap, ◌∙◌, Bool, true, false, none, some, List, [], ◌∷◌, leb, leb→le,
  arith, All, Bool-cases, Option-cases, inl, inr, subst, ◌⊎◌,
}
use leave_safe.Prelude.Float.{float_of}
use leave_safe.Monitor.Motion.{
  MotionReading, MotionDetector, Look, valid, distance, nudge, jolt, moved, session, judged, watch,
}

-- Each attempt of the supervisor begins with a first reading, and then watches.
pub attempts : MotionDetector → List (MotionReading × List Look) → MotionDetector × ℕ
attempts d [] = (d, 0)
attempts d ((first, looks) ∷ rest) =
    let (d', n) = watch (session (some d) true first) first.at looks in
    let (d2, k) = attempts d' rest in (d2, n + k)

-- Alerts sent, and what the latch says of them.
abbrev Latched : Bool → MotionDetector × ℕ → Type 0
Latched latch r =
    ((r.1 ≡ 0) × (r.0.triggered ≡ latch)) ⊎ ((r.1 ≡ 1) × (latch ≡ false) × (r.0.triggered ≡ true))

judged_cases :
    (d : MotionDetector) (r : MotionReading) (listening : Bool)
    → (((judged d r listening).1 ≡ false) × ((judged d r listening).0.triggered ≡ d.triggered))
      ⊎ (((judged d r listening).1 ≡ true)
          × ((judged d r listening).2 ≡ true)
          × (d.triggered ≡ false)
          × ((judged d r listening).0.triggered ≡ true))
unfolding judged moved
judged_cases d r listening = elim (Bool-cases d.triggered) [
  | inl t ↦ inl (ground (arith, t), ground (arith, t))
  | inr f ↦ ground (arith, f)
]

-- After an alert that went out, the rest of the looks send none.
after_alert :
    {latch : Bool} (r : MotionDetector × ℕ)
    → latch ≡ true
    → Latched latch r
    → (r.1 ≡ 0) × (r.0.triggered ≡ true)
after_alert r h (inl (e, f)) = (e, f ∙ h)
after_alert r h (inr (e, f, g)) = absurd (cc (f, h))

watch-Latched :
    (d : MotionDetector) (last : ℕ) (ls : List Look) → Latched d.triggered (watch d last ls)
unfolding watch
watch-Latched d last [] = inl (refl, refl)
watch-Latched d last (l ∷ ls) = elim (Option-cases l.reading) [
  | inl e ↦ rw (e, watch) (inl (refl, refl))
  | inr (r, e) ↦ elim (Bool-cases (valid r l.now)) [
    | inr f ↦ rw (e, f, watch) (inl (refl, refl))
    | inl f ↦ elim (Bool-cases (leb r.at last)) [
      | inl g ↦ rw (e, f, g, watch) (watch-Latched d last ls)
      | inr g ↦
          let d' = (judged d r l.listening).0 in
          let rest = watch-Latched (judged d r l.listening).0 r.at ls in
          elim (judged_cases d r l.listening) [
            | inl (silent, same) ↦ elim (Bool-cases (judged d r l.listening).2) [
              | inl on ↦
                  rw (e, f, g, silent, on, watch)
                    (subst (λ t. Latched t (watch d' r.at ls)) same rest)
              | inr off ↦ rw (e, f, g, off, watch) (inl (refl, same))
            ]
            | inr (sent, on, free, latch) ↦
                let (none_left, kept) = after_alert (watch d' r.at ls) latch rest in
                rw (e, f, g, sent, on, watch) (inr (omega (arith, none_left), free, kept))
          ]
    ]
  ]
]

attempts-Latched :
    (d : MotionDetector) (rest : List (MotionReading × List Look))
    → Latched d.triggered (attempts d rest)
unfolding attempts session
attempts-Latched d [] = inl (refl, refl)
attempts-Latched d ((first, looks) ∷ rest) =
    let start : MotionDetector = record d { consecutive = 0 } in
    let d' = (watch start first.at looks).0 in
    let later = attempts-Latched d' rest in
    elim (watch-Latched start first.at looks) [
      | inl (e, f) ↦ elim (subst (λ t. Latched t (attempts d' rest)) f later) [
        | inl (k, g) ↦ inl (omega (arith, e, k), g)
        | inr (k, g, h) ↦ inr (omega (arith, e, k), g, h)
      ]
      | inr (e, f, g) ↦
          let (k, h) = after_alert (attempts d' rest) g later in inr (omega (arith, e, k), f, h)
    ]

-- However often the sensor is lost and comes back, and whatever it reads, one arm session sends at
-- most one alert.
pub attempts_once :
    (first : MotionReading) (rest : List (MotionReading × List Look))
    → (attempts (session none true first) rest).1 ≤ 1
attempts_once first rest = elim (attempts-Latched (session none true first) rest) [
  | inl (e, _) ↦ omega (arith, e)
  | inr (e, _, _) ↦ omega (arith, e)
]

-- A look at a reading that counts, while an alert gets through.
pub record IsFresh (last : ℕ) (l : Look) (r : MotionReading) : Type 0 where
  pub read : l.reading ≡ some r
  pub ok : valid r l.now ≡ true
  pub newer : last < r.at
  pub heard : l.listening ≡ true

nudge_below_jolt : nudge ≤ jolt
unfolding float_of
nudge_below_jolt = leb→le nudge jolt refl

judged_near :
    (d : MotionDetector) (r : MotionReading) (listening : Bool)
    → d.consecutive ≡ 0
    → distance r d.reference < nudge
    → judged d r listening ≡ (record d { consecutive = 0 }, false, true)
unfolding judged moved
judged_near d r listening h near =
    let low : leb nudge (distance r d.reference) ≡ false = ground arith in
    let lower : leb jolt (distance r d.reference) ≡ false = ground (arith, nudge_below_jolt) in
    elim (Bool-cases d.triggered) [
      | inl t ↦
          let with_count : ℕ → MotionDetector × Bool × Bool = λ n.
            (record { reference = d.reference; consecutive = n; triggered = true }, false, true) in
          rw t (ap with_count h)
      | inr f ↦ rw (f, low, lower) refl
    ]

-- From a detector that has counted nothing, readings whose distance stays below 0.18 g, as float64
-- works it out, send none.
pub watch_still :
    (d : MotionDetector) (last : ℕ) (ls : List Look)
    → d.consecutive ≡ 0
    → All (λ l. (r : MotionReading) × (l.reading ≡ some r) × (distance r d.reference < nudge)) ls
    → (watch d last ls).1 ≡ 0
unfolding watch
watch_still d last [] h near = refl
watch_still d last (l ∷ ls) h near =
    let (r, read, low) = near.0 in
    elim (Bool-cases (valid r l.now)) [
      | inr e ↦ rw (read, e, watch) refl
      | inl e ↦ elim (Bool-cases (leb r.at last)) [
        | inl f ↦ rw (read, e, f, watch) (watch_still d last ls h near.1)
        | inr f ↦
            rw (read, e, f, watch)
              (rw (judged_near d r l.listening h low, watch)
                (watch_still (record d { consecutive = 0 }) r.at ls refl near.1))
      ]
    ]
