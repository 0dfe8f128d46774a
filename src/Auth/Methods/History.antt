-- ===== src/Auth/Methods/History.antt =====
-- The manager over a whole history of calls, each at a time of its own.
use leave_safe.Prelude.{
  ◌≤◌, ◌<◌, ◌≡◌, refl, subst, bytes_eq, length, All, true, ℕ, inl, inr, Option, List, [], ◌∷◌,
  Bytes, arith, Bool-cases, Option-cases,
}
use leave_safe.Prelude.Map.{lookup, insert, erase, length-insert_old, length-erase-le}
use leave_safe.Auth.Key.{generate_pairing_key, encode_random}
use leave_safe.Auth.Pin.{Crypto}
use leave_safe.Auth.Policy.{Options, with_defaults, with_defaults-IsPositive}
use leave_safe.Auth.Luhn.{luhn_valid}
use leave_safe.Auth.Key.{strip_dashes}
use leave_safe.Auth.Key.Accepted.{BelowTen, generate_pairing_key_valid}
use leave_safe.Auth.Manager.{ready, new_manager, new_manager_with_options, with_salt}
use leave_safe.Auth.Methods.Invariant.{new_manager-IsManager}
use leave_safe.Auth.Manager.{Manager, authenticate}
use leave_safe.Auth.Methods.{
  check_pin, valid_session, validate_session, touch_session, sweep_sessions, remove_session,
  regenerate,
}
use leave_safe.Auth.Methods.Invariant.{
  IsManager, authenticate-IsManager, check_pin-IsManager, valid_session-IsManager, sweep-IsManager,
  fewer-IsManager, empty-IsTable,
}

-- A call of a method, with what the random sources give it.
pub data Call : Type 0 where
  authenticates : Bytes → Bytes → Option Bytes → Call
  checks_pin : Bytes → Bytes → Bytes → Call
  validates : Bytes → Call
  touches : Bytes → Call
  sweeps : Call
  removes : Bytes → Call
  regenerates : List (Option ℕ) → Option Bytes → Call

pub step : Crypto → Manager → ℕ × Call → Manager
step crypto m (now, authenticates addr key random) = (authenticate m addr key now random).0
step crypto m (now, checks_pin addr pin hash) = (check_pin crypto m addr pin hash now).0
step crypto m (now, validates token) = (validate_session m token now).0
step crypto m (now, touches token) = (touch_session m token now).0
step crypto m (now, sweeps) = (sweep_sessions m now).0
step crypto m (now, removes token) = remove_session m token
step crypto m (now, regenerates draws random) = (regenerate m draws random).0

pub run : Crypto → Manager → List (ℕ × Call) → Manager
unfolding step
run crypto m [] = m
run crypto m (c ∷ cs) = run crypto (step crypto m c) cs

touched-IsManager :
    (m : Manager) (token : Bytes) (now : ℕ) → IsManager m → IsManager (touch_session m token now).0
unfolding touch_session
touched-IsManager m token now v =
    let v1 = valid_session-IsManager m token now v in
    let m1 = (valid_session m token now).0 in
    elim (Bool-cases (valid_session m token now).1) [
      | inr gone ↦ rw (gone, touch_session) v1
      | inl live ↦ elim (Option-cases (lookup token m1.sessions)) [
        | inl e ↦ rw (live, e, touch_session) v1
        | inr (s, e) ↦
            rw (live, e, touch_session)
              (fewer-IsManager m1 (insert token (record s { last_seen = now }) m1.sessions) v1 (
                omega
                  (arith, length-insert_old token (record s { last_seen = now }) s m1.sessions e)))
      ]
    ]

regenerate-IsManager :
    (m : Manager) (draws : List (Option ℕ)) (random : Option Bytes)
    → IsManager m
    → IsManager (regenerate m draws random).0
unfolding regenerate
regenerate-IsManager m draws random v = elim (Option-cases (generate_pairing_key draws)) [
  | inl e ↦ rw (e, regenerate) v
  | inr (key, e) ↦ elim (Option-cases (encode_random random)) [
    | inl f ↦ rw (e, f, regenerate) v
    | inr (salt, f) ↦
        rw (e, f, regenerate)
          (record { positive = v.positive; table = empty-IsTable m.opts; capped = omega arith })
  ]
]

step-IsManager :
    (crypto : Crypto) (m : Manager) (c : ℕ × Call) → IsManager m → IsManager (step crypto m c)
unfolding step sweep_sessions remove_session
step-IsManager crypto m (now, authenticates addr key random) v =
    authenticate-IsManager m addr key now random v
step-IsManager crypto m (now, checks_pin addr pin hash) v =
    check_pin-IsManager crypto m addr pin hash now v
step-IsManager crypto m (now, validates token) v = valid_session-IsManager m token now v
step-IsManager crypto m (now, touches token) v = touched-IsManager m token now v
step-IsManager crypto m (now, sweeps) v = sweep-IsManager m now v
step-IsManager crypto m (now, removes token) v =
    fewer-IsManager m (erase token m.sessions) v (length-erase-le token m.sessions)
step-IsManager crypto m (now, regenerates draws random) v = regenerate-IsManager m draws random v

pub run-IsManager :
    (crypto : Crypto) (m : Manager) (cs : List (ℕ × Call))
    → IsManager m
    → IsManager (run crypto m cs)
unfolding run
run-IsManager crypto m [] v = v
run-IsManager crypto m (c ∷ cs) v =
    run-IsManager crypto (step crypto m c) cs (step-IsManager crypto m c v)

salt-IsManager :
    (o : Options) (key given : Bytes) (random : Option Bytes) {m : Manager}
    → with_salt o key given random ≡ ready m
    → IsManager m × (m.pairing_key ≡ key)
unfolding with_salt
salt-IsManager o key given random {m} h = elim (Bool-cases (bytes_eq given [])) [
  | inr e ↦ made given (ground arith)
  | inl e ↦ elim (Option-cases (encode_random random)) [
    | inl f ↦ absurd (ground arith)
    | inr (salt, f) ↦ made salt (ground arith)
  ]
]
  where
    made :
        (salt : Bytes)
        → new_manager (with_defaults o) key salt ≡ m
        → IsManager m × (m.pairing_key ≡ key)
    made salt e =
        subst (λ x. IsManager x × (x.pairing_key ≡ key)) e
          (new_manager-IsManager (with_defaults o) key salt (with_defaults-IsPositive o), refl)

setup_key :
    (o : Options) (key salt : Bytes) (draws : List (Option ℕ)) (random : Option Bytes) {m : Manager}
    → All BelowTen draws
    → new_manager_with_options o key salt draws random ≡ ready m
    → IsManager m × (length m.pairing_key ≡ 16) × (luhn_valid m.pairing_key ≡ true)
unfolding new_manager_with_options
setup_key o key salt draws random {m} b h = elim (Bool-cases (bytes_eq (strip_dashes key) [])) [
  | inr e ↦
      let (v, k) = salt-IsManager o (strip_dashes key) salt random {m = m} (ground arith) in
      (v, rw k (ground arith), rw k (ground arith))
  | inl e ↦ elim (Option-cases (generate_pairing_key draws)) [
    | inl f ↦ absurd (ground arith)
    | inr (drawn, f) ↦
        let (v, k) = salt-IsManager o drawn salt random {m = m} (ground arith) in
        let (n, _, l) = generate_pairing_key_valid draws {key = drawn} b f in (v, rw k n, rw k l)
  ]
]

-- A manager that `NewManagerWithOptions` sets up, from any options and with its own key or a
-- given one, holds a key of sixteen digits that passes the check, where the random source draws its
-- digits below ten. After any history of calls it
-- has no more sessions than its cap and tracks no more addresses than its bound, and every
-- record that it tracks has an attempt left.
pub run_bounds :
    (crypto : Crypto) (o : Options) (key salt : Bytes) (draws : List (Option ℕ))
    (random : Option Bytes) (cs : List (ℕ × Call)) {m : Manager}
    → All BelowTen draws
    → new_manager_with_options o key salt draws random ≡ ready m
    → let m' = run crypto m cs in
      (length m.pairing_key ≡ 16)
      × (luhn_valid m.pairing_key ≡ true)
      × (length m'.sessions ≤ m'.opts.max_sessions)
      × (length m'.by_addr ≤ m'.opts.max_tracked_addrs)
      × All (λ e. e.1.failures < m'.opts.max_attempts) m'.by_addr
run_bounds crypto o key salt draws random cs {m} b h =
    let (v, n, l) = setup_key o key salt draws random {m = m} b h in
    let w = run-IsManager crypto m cs v in (n, l, w.capped, w.table.bounded, w.table.allowed)
