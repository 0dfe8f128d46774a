-- ===== src/Auth/Methods.antt =====
-- The other methods of `Manager` in internal/auth/auth.go.
pub mod Invariant
pub mod History
pub mod Lockout
pub mod Refusals
pub mod Guesses
pub mod Lifetime
use leave_safe.Prelude.{
  ℕ, ◌-◌, Bool, true, false, Option, none, some, List, Bytes, ltb, if◌then◌else◌, length, [],
}
use leave_safe.Prelude.Map.{lookup, insert, erase}
use leave_safe.Auth.Addr.{normalize_addr}
use leave_safe.Auth.Key.{format_key, generate_pairing_key, encode_random}
use leave_safe.Auth.Table.{Attempts}
use leave_safe.Auth.Pin.{Crypto, verify_pin_hash}
use leave_safe.Auth.Manager.{
  Manager, AuthError, locked_out, invalid_secret, invalid_secret_locked, session_expired, sweep,
  count_failure, looked_up,
}

unfoldable pub wrong_pin : Manager → Bytes → ℕ → Attempts → Manager × Option AuthError
wrong_pin m host now r =
    let (r', locked) = count_failure m.opts now r in
    (
      record m { by_addr = insert host r' m.by_addr },
      some (if locked then invalid_secret_locked else invalid_secret),
    )

-- `CheckPin`.
unfoldable pub check_pin : Crypto → Manager → Bytes → Bytes → Bytes → ℕ → Manager × Option AuthError
unfolding wrong_pin
check_pin crypto m addr pin pin_hash now =
    let host = normalize_addr addr in
    let (r, m1) = looked_up m host now in
    if ltb now r.locked_until
    then (m1, some (locked_out (r.locked_until - now)))
    else if verify_pin_hash crypto pin pin_hash
    then (record m1 { by_addr = erase host m1.by_addr }, none)
    else wrong_pin m1 host now r

-- `validSessionLocked`: an expired session is dropped where it is found.
unfoldable pub valid_session : Manager → Bytes → ℕ → Manager × Bool
valid_session m token now = elim (lookup token m.sessions) [
  | none ↦ (m, false)
  | some s ↦
      if session_expired m.opts now s
      then (record m { sessions = erase token m.sessions }, false)
      else (m, true)
]

-- `ValidateSession`.
abbrev pub validate_session : Manager → Bytes → ℕ → Manager × Bool
validate_session = valid_session

-- `TouchSession`. The last line of it writes `m.sessions[token].lastSeen`.
unfoldable pub touch_session : Manager → Bytes → ℕ → Manager × Bool
unfolding valid_session
touch_session m token now =
    let (m1, valid) = valid_session m token now in
    if valid
    then elim (lookup token m1.sessions) [
      | none ↦ (m1, true)
      | some s ↦
          (record m1 { sessions = insert token (record s { last_seen = now }) m1.sessions }, true)
    ]
    else (m1, false)

-- `SweepSessions`.
unfoldable pub sweep_sessions : Manager → ℕ → Manager × ℕ
sweep_sessions m now = let m1 = sweep m now in (m1, length m.sessions - length m1.sessions)

-- `RemoveSession`.
unfoldable pub remove_session : Manager → Bytes → Manager
remove_session m token = record m { sessions = erase token m.sessions }

-- `Regenerate`: `none` where a random source fails, and then nothing has changed.
unfoldable pub regenerate : Manager → List (Option ℕ) → Option Bytes → Manager × Option Bytes
regenerate m draws random = elim (generate_pairing_key draws) [
  | none ↦ (m, none)
  | some key ↦ elim (encode_random random) [
    | none ↦ (m, none)
    | some salt ↦ (
      record m { pairing_key = key; pairing_salt = salt; sessions = []; by_addr = [] },
      some (format_key key),
    )
  ]
]
