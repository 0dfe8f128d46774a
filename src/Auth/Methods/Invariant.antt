-- ===== src/Auth/Methods/Invariant.antt =====
-- What holds of the manager of internal/auth between any two calls.
use leave_safe.Prelude.{
  ℕ, ◌≤◌, ◌<◌, ◌≡◌, ◌≢◌, inl, inr, true, false, ◌&&◌, not, Option, [], ◌∷◌, Bytes, bytes_eq, leb,
  ltb, arith, length, length-keep-le, dec_lt, Bool-cases, Option-cases,
}
use leave_safe.Prelude.Map.{
  Map, lookup, insert, erase, length-insert-le, length-insert_old, length-erase-le,
}
use leave_safe.Auth.Policy.{Policy, IsPositive}
use leave_safe.Auth.Addr.{normalize_addr}
use leave_safe.Auth.Key.{strip_dashes, encode_random}
use leave_safe.Auth.Pin.{Crypto, verify_pin_hash}
use leave_safe.Auth.Table.{Attempts}
use leave_safe.Auth.Table.Bounds.{
  IsTable, RecordFor, insert-IsTable, erase-IsTable, record_for-RecordFor,
}
use leave_safe.Auth.Manager.{
  Session, Manager, session_expired, sweep, count_failure, looked_up, right_key, wrong_key, judge,
  authenticate, new_manager,
}
use leave_safe.Auth.Methods.{check_pin, wrong_pin, valid_session}

pub record IsManager (m : Manager) : Type 0 where
  pub positive : IsPositive m.opts
  pub table : IsTable m.opts m.by_addr
  pub capped : length m.sessions ≤ m.opts.max_sessions

pub normalize_addr-ne-nil : (addr : Bytes) → normalize_addr addr ≢ []
unfolding normalize_addr
normalize_addr-ne-nil [] = cc
normalize_addr-ne-nil (c ∷ s) = ground (arith)

pub empty-IsTable : (p : Policy) → IsTable p []
empty-IsTable p = record { distinct = tt; named = tt; bounded = omega arith; allowed = tt }

pub new_manager-IsManager :
    (p : Policy) (key salt : Bytes) → IsPositive p → IsManager (new_manager p key salt)
new_manager-IsManager p key salt w = record {
  positive = w;
  table = empty-IsTable p;
  capped = omega arith;
}

-- Looking a host up keeps the invariant, and gives its record in the table.
pub looked_up_lem :
    (m : Manager) (host : Bytes) (now : ℕ)
    → IsManager m
    → host ≢ []
    → IsManager (looked_up m host now).1
      × RecordFor
          (looked_up m host now).1.opts
          host
          now
          (looked_up m host now).0
          (looked_up m host now).1.by_addr
unfolding looked_up
looked_up_lem m host now v n =
    let r = record_for-RecordFor m.opts host now m.by_addr v.positive v.table n in
    (record { positive = v.positive; table = r.table; capped = v.capped }, r)

pub sweep-IsManager : (m : Manager) (now : ℕ) → IsManager m → IsManager (sweep m now)
unfolding sweep
sweep-IsManager m now v =
    elim (Bool-cases (leb m.opts.session_ttl 0 && leb m.opts.session_idle 0)) [
      | inl e ↦ rw (e, sweep) v
      | inr e ↦
          rw (e, sweep)
            (record {
              positive = v.positive;
              table = v.table;
              capped = omega (
                arith,
                v.capped,
                length-keep-le (λ (x : Bytes × Session). not (session_expired m.opts now x.1))
                    m.sessions,
              );
            })
    ]

count_failure_left :
    (p : Policy) (now : ℕ) (r : Attempts)
    → 0 < p.max_attempts
    → (count_failure p now r).0.failures < p.max_attempts
unfolding count_failure
count_failure_left p now r h = ground arith

-- A failure is counted in the place of the record that it was counted on.
failed-IsManager :
    (m : Manager) (host : Bytes) (now : ℕ) (r : Attempts)
    → IsManager m
    → RecordFor m.opts host now r m.by_addr
    → host ≢ []
    → IsManager (record m { by_addr = insert host (count_failure m.opts now r).0 m.by_addr })
failed-IsManager m host now r v f n =
    let r' = (count_failure m.opts now r).0 in
    record {
      positive = v.positive;
      table =
          insert-IsTable m.opts host r' m.by_addr v.table n
            (count_failure_left m.opts now r v.positive.some_attempt)
            (omega (arith, v.table.bounded, length-insert_old host r' r m.by_addr f.stands));
      capped = v.capped;
    }

cleared-IsManager :
    (m : Manager) (host : Bytes)
    → IsManager m
    → IsManager (record m { by_addr = erase host m.by_addr })
cleared-IsManager m host v = record {
  positive = v.positive;
  table = erase-IsTable m.opts host m.by_addr v.table;
  capped = v.capped;
}

right_key-IsManager :
    (m : Manager) (host : Bytes) (now : ℕ) (random : Option Bytes)
    → IsManager m
    → length m.sessions < m.opts.max_sessions
    → IsManager (right_key m host now random).0
unfolding right_key
right_key-IsManager m host now random v room = elim (Option-cases (encode_random random)) [
  | inl e ↦ rw (e, right_key) (cleared-IsManager m host v)
  | inr (token, e) ↦
      rw (e, right_key)
        (record {
          positive = v.positive;
          table = erase-IsTable m.opts host m.by_addr v.table;
          capped = omega (
            arith,
            room,
            length-insert-le token (record { created_at = now; last_seen = now }) m.sessions,
          );
        })
]

judge-IsManager :
    (m : Manager) (host key : Bytes) (now : ℕ) (r : Attempts) (random : Option Bytes)
    → IsManager m
    → RecordFor m.opts host now r m.by_addr
    → host ≢ []
    → IsManager (judge m host key now r random).0
unfolding judge wrong_key
judge-IsManager m host key now r random v f n =
    elim (dec_lt (length m.sessions) m.opts.max_sessions) [
      | yes room ↦
          let e : leb m.opts.max_sessions (length m.sessions) ≡ false = ground arith in
          rw (e, judge)
            (elim (Bool-cases (bytes_eq (strip_dashes key) m.pairing_key)) [
              | inl right ↦ rw (right, judge) (right_key-IsManager m host now random v room)
              | inr wrong ↦ rw (wrong, judge) (failed-IsManager m host now r v f n)
            ])
      | no full ↦
          let e : leb m.opts.max_sessions (length m.sessions) ≡ true = ground arith in
          rw (e, judge) v
    ]

-- The sweep leaves the table and the policy alone.
sweep-RecordFor :
    (m : Manager) (host : Bytes) (now : ℕ) (r : Attempts)
    → RecordFor m.opts host now r m.by_addr
    → RecordFor (sweep m now).opts host now r (sweep m now).by_addr
unfolding sweep
sweep-RecordFor m host now r f =
    elim (Bool-cases (leb m.opts.session_ttl 0 && leb m.opts.session_idle 0)) [
      | inl e ↦ rw (e, sweep) f
      | inr e ↦ rw (e, sweep) f
    ]

pub authenticate-IsManager :
    (m : Manager) (addr key : Bytes) (now : ℕ) (random : Option Bytes)
    → IsManager m
    → IsManager (authenticate m addr key now random).0
unfolding authenticate
authenticate-IsManager m addr key now random v =
    let host = normalize_addr addr in
    let (v1, f) = looked_up_lem m host now v (normalize_addr-ne-nil addr) in
    let r = (looked_up m host now).0 in
    let m1 = (looked_up m host now).1 in
    elim (Bool-cases (ltb now r.locked_until)) [
      | inl locked ↦ rw (locked, authenticate) v1
      | inr free ↦
          rw (free, authenticate)
            (judge-IsManager (sweep m1 now) host key now r random (sweep-IsManager m1 now v1)
              (sweep-RecordFor m1 host now r f) (normalize_addr-ne-nil addr))
    ]

pub check_pin-IsManager :
    (crypto : Crypto) (m : Manager) (addr pin hash : Bytes) (now : ℕ)
    → IsManager m
    → IsManager (check_pin crypto m addr pin hash now).0
unfolding check_pin wrong_pin
check_pin-IsManager crypto m addr pin hash now v =
    let host = normalize_addr addr in
    let (v1, f) = looked_up_lem m host now v (normalize_addr-ne-nil addr) in
    let r = (looked_up m host now).0 in
    let m1 = (looked_up m host now).1 in
    elim (Bool-cases (ltb now r.locked_until)) [
      | inl locked ↦ rw (locked, check_pin) v1
      | inr free ↦ elim (Bool-cases (verify_pin_hash crypto pin hash)) [
        | inl right ↦ rw (free, right, check_pin) (cleared-IsManager m1 host v1)
        | inr wrong ↦
            rw (free, wrong, check_pin)
              (failed-IsManager m1 host now r v1 f (normalize_addr-ne-nil addr))
      ]
    ]

-- Fewer sessions keep the invariant.
pub fewer-IsManager :
    (m : Manager) (s : Map Session)
    → IsManager m
    → length s ≤ length m.sessions
    → IsManager (record m { sessions = s })
fewer-IsManager m s v h = record {
  positive = v.positive;
  table = v.table;
  capped = omega (arith, v.capped, h);
}

pub valid_session-IsManager :
    (m : Manager) (token : Bytes) (now : ℕ) → IsManager m → IsManager (valid_session m token now).0
unfolding valid_session
valid_session-IsManager m token now v = elim (Option-cases (lookup token m.sessions)) [
  | inl e ↦ rw (e, valid_session) v
  | inr (s, e) ↦ elim (Bool-cases (session_expired m.opts now s)) [
    | inl gone ↦
        rw (e, gone, valid_session)
          (fewer-IsManager m (erase token m.sessions) v (length-erase-le token m.sessions))
    | inr live ↦ rw (e, live, valid_session) v
  ]
]
