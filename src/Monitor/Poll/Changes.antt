-- ===== src/Monitor/Poll/Changes.antt =====
-- The alerts of a sensor that polls.
use leave_safe.Prelude.{
  ℕ, zero, suc, ◌≡◌, refl, sym, ap, Bool, true, false, not, Option, none, some, List, [], ◌∷◌,
  Option-cases, inl, inr, All, subst,
}
use leave_safe.Monitor.Alerting.{Alert}
use leave_safe.Monitor.Poll.{
  StateWatch, Tick, stopped, sample, same_reading, forget, poll_loop, run,
}

-- The alerts of a state that changes `n` times from `b` on: each says the opposite of the one before.
pub alternating : (Bool → Alert) → Bool → ℕ → List Alert
alternating alert b zero = []
alternating alert b (suc n) = alert (not b) ∷ alternating alert (not b) n

pub flipped : ℕ → Bool → Bool
flipped zero b = b
flipped (suc n) b = flipped n (not b)

-- The last reading that did not fail.
pub latest : Bool → List Tick → Bool
latest b [] = b
latest b (t ∷ ts) = elim t.reading [ none ↦ latest b ts | some now ↦ latest now ts ]

abbrev watching : Bool → StateWatch
watching b = record { known = true; last = b }

abbrev pub Alternates : (Bool → Alert) → Bool → Bool → StateWatch × List Alert → Type 0
Alternates alert b end r =
    (n : ℕ) × (r.1 ≡ alternating alert b n) × (flipped n b ≡ end) × (r.0 ≡ watching end)

-- One reading that did not fail.
one_reading :
    (alert : Bool → Alert) (b now listening : Bool) (ts : List Tick)
    → listening ≡ true
    → Alternates alert now (latest now ts) (poll_loop alert (watching now) ts)
    → let ticks : List Tick = record { reading = some now; listening = listening } ∷ ts in
      Alternates alert b (latest b ticks) (poll_loop alert (watching b) ticks)
unfolding poll_loop alternating flipped latest sample same_reading
one_reading alert true true l ts h v = v
one_reading alert false false l ts h v = v
one_reading alert true false l ts h (n, sent, end, left) =
    (suc n, rw h (ap (λ r. alert false ∷ r) sent), end, rw h left)
one_reading alert false true l ts h (n, sent, end, left) =
    (suc n, rw h (ap (λ r. alert true ∷ r) sent), end, rw h left)

poll_loop-Alternates :
    (alert : Bool → Alert) (b : Bool) (ts : List Tick)
    → All (λ t. t.listening ≡ true) ts
    → Alternates alert b (latest b ts) (poll_loop alert (watching b) ts)
unfolding poll_loop alternating flipped latest
poll_loop-Alternates alert b [] h = (0, refl, refl, refl)
poll_loop-Alternates alert b (t ∷ ts) h = elim (Option-cases t.reading) [
  | inl e ↦
      subst
        (λ (r : Option Bool).
          Alternates alert b (latest b (record t { reading = r } ∷ ts))
            (poll_loop alert (watching b) (record t { reading = r } ∷ ts)))
        (sym e) (poll_loop-Alternates alert b ts h.1)
  | inr (now, e) ↦
      subst
        (λ (r : Option Bool).
          Alternates alert b (latest b (record t { reading = r } ∷ ts))
            (poll_loop alert (watching b) (record t { reading = r } ∷ ts)))
        (sym e) (one_reading alert b now t.listening ts h.0 (poll_loop-Alternates alert now ts h.1))
]

-- A sensor that polls raises no alert for what it finds at the start, whatever it knew before, and
-- none for a reading that fails. While its alerts get through, each one says the opposite of the one before, the
-- first the opposite of the first reading, and the state after them all is the last reading.
pub run_alternates :
    (alert : Bool → Alert) (w : StateWatch) (first : Bool) (ts : List Tick)
    → All (λ t. t.listening ≡ true) ts
    → (n : ℕ) × (run alert w (some first) ts
        ≡ stopped (record { known = true; last = latest first ts }) (alternating alert first n))
      × (flipped n first ≡ latest first ts)
unfolding run sample forget
run_alternates alert w first ts h =
    let (n, sent, end, left) = poll_loop-Alternates alert first ts h in
    (n, rw (left, sent) refl, end)
