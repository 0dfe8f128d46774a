-- ===== src/Auth/Manager.antt =====
-- `Manager` of internal/auth/auth.go: sessions, the pairing key, and who may try it how often.
-- Each method takes the time that `m.now()` gives and what the random source gives, and returns
-- the manager it leaves; the mutex makes each one a step of its own.
use leave_safe.Prelude.{
  ℕ, ◌+◌, ◌-◌, Bool, true, false, ◌&&◌, ◌||◌, not, Option, none, some, List, [], Bytes, bytes_eq,
  ltb, leb, ◌==◌, if◌then◌else◌, length, keep,
}
use leave_safe.Prelude.Map.{Map, insert, erase}
use leave_safe.Auth.Policy.{Options, Policy, with_defaults}
use leave_safe.Auth.Addr.{normalize_addr}
use leave_safe.Auth.Luhn.{luhn_valid}
use leave_safe.Auth.Key.{strip_dashes, generate_pairing_key, encode_random}
use leave_safe.Auth.Table.{Attempts, record_for}

pub record Session : Type 0 where
  pub created_at : ℕ
  pub last_seen : ℕ

pub record Manager : Type 0 where
  pub opts : Policy
  pub pairing_key : Bytes
  pub pairing_salt : Bytes
  pub sessions : Map Session
  pub by_addr : Map Attempts

-- `locked_out` is `ErrLockedOut`, with the nanoseconds that are left of it.
pub data AuthError : Type 0 where
  locked_out : ℕ → AuthError
  max_connections : AuthError
  invalid_secret : AuthError
  invalid_secret_locked : AuthError
  token_source : AuthError

pub data Setup : Type 0 where
  ready : Manager → Setup
  key_source : Setup
  salt_source : Setup
  invalid_key : Setup

-- What `Authenticate` returns: an empty token goes with an error.
pub record Reply : Type 0 where
  pub token : Bytes
  pub remaining : ℕ
  pub error : Option AuthError

abbrev pub refuse : ℕ → AuthError → Reply
refuse n e = record { token = []; remaining = n; error = some e }

abbrev pub new_manager : Policy → Bytes → Bytes → Manager
new_manager p key salt = record {
  opts = p;
  pairing_key = key;
  pairing_salt = salt;
  sessions = [];
  by_addr = [];
}

unfoldable pub with_salt : Options → Bytes → Bytes → Option Bytes → Setup
with_salt o key given random =
    if bytes_eq given []
    then elim (encode_random random) [
      | none ↦ salt_source
      | some salt ↦ ready (new_manager (with_defaults o) key salt)
    ]
    else ready (new_manager (with_defaults o) key given)

-- `NewManagerWithOptions`, with `opts.PairingKey` and `opts.PairingSalt` as its two texts.
unfoldable pub new_manager_with_options :
    Options → Bytes → Bytes → List (Option ℕ) → Option Bytes → Setup
unfolding with_salt
new_manager_with_options o key salt draws random =
    let given = strip_dashes key in
    if bytes_eq given []
    then elim (generate_pairing_key draws) [
      | none ↦ key_source
      | some drawn ↦ with_salt o drawn salt random
    ]
    else if not (length given == 16) || not (luhn_valid given)
    then invalid_key
    else with_salt o given salt random

-- `sessionExpiredLocked`. Each limit is positive where it is compared, so a start in the future
-- has not run out in either reading of the subtraction.
unfoldable pub session_expired : Policy → ℕ → Session → Bool
session_expired p now s =
    (ltb 0 p.session_ttl && leb p.session_ttl (now - s.created_at))
    || (ltb 0 p.session_idle && leb p.session_idle (now - s.last_seen))

-- `sweepSessionsLocked`.
unfoldable pub sweep : Manager → ℕ → Manager
sweep m now =
    if leb m.opts.session_ttl 0 && leb m.opts.session_idle 0
    then m
    else record m { sessions = keep (λ e. not (session_expired m.opts now e.1)) m.sessions }

-- What a wrong key or PIN does to the record of the host that gave it.
unfoldable pub count_failure : Policy → ℕ → Attempts → Attempts × Bool
count_failure p now r =
    if leb p.max_attempts (r.failures + 1)
    then (record r { failures = 0; locked_until = now + p.lockout_period }, true)
    else (record r { failures = r.failures + 1 }, false)

-- The tail of `Authenticate` on a wrong key.
unfoldable pub wrong_key : Manager → Bytes → ℕ → Attempts → Manager × Reply
wrong_key m host now r =
    let (r', locked) = count_failure m.opts now r in
    (
      record m { by_addr = insert host r' m.by_addr },
      if locked
          then refuse 0 invalid_secret_locked
          else refuse (m.opts.max_attempts - r'.failures) invalid_secret,
    )

-- The tail of `Authenticate` on the right key.
unfoldable pub right_key : Manager → Bytes → ℕ → Option Bytes → Manager × Reply
right_key m host now random =
    let cleared = record m { by_addr = erase host m.by_addr } in
    elim (encode_random random) [
      | none ↦ (cleared, refuse m.opts.max_attempts token_source)
      | some token ↦ (
        record cleared {
          sessions = insert token (record { created_at = now; last_seen = now }) m.sessions;
        },
        record { token = token; remaining = m.opts.max_attempts; error = none },
      )
    ]

-- `Authenticate` behind the lockout.
unfoldable pub judge : Manager → Bytes → Bytes → ℕ → Attempts → Option Bytes → Manager × Reply
judge m host key now r random =
    if leb m.opts.max_sessions (length m.sessions)
    then (m, refuse (m.opts.max_attempts - r.failures) max_connections)
    else if bytes_eq (strip_dashes key) m.pairing_key
    then right_key m host now random
    else wrong_key m host now r

-- The manager with the record that a method begins by looking up.
unfoldable pub looked_up : Manager → Bytes → ℕ → Attempts × Manager
looked_up m host now =
    let (r, table) = record_for m.opts host now m.by_addr in (r, record m { by_addr = table })

unfoldable pub authenticate : Manager → Bytes → Bytes → ℕ → Option Bytes → Manager × Reply
authenticate m addr key now random =
    let host = normalize_addr addr in
    let (r, m1) = looked_up m host now in
    if ltb now r.locked_until
    then (m1, refuse 0 (locked_out (r.locked_until - now)))
    else judge (sweep m1 now) host key now r random
