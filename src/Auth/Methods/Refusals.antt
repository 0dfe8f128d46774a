-- ===== src/Auth/Methods/Refusals.antt =====
-- What an address that is locked out gets by trying on.
use leave_safe.Prelude.{
  ℕ, ◌<◌, ◌≡◌, refl, ◌∙◌, Bool, true, false, ◌&&◌, Option, some, List, [], ◌∷◌, Bytes, bytes_eq,
  bytes_eq_refl, All,
}
use leave_safe.Prelude.Map.{lookup, insert, lookup-insert}
use leave_safe.Auth.Addr.{normalize_addr}
use leave_safe.Auth.Pin.{Crypto}
use leave_safe.Auth.Table.{Attempts}
use leave_safe.Auth.Manager.{Manager, AuthError, locked_out, authenticate}
use leave_safe.Auth.Methods.{check_pin}
use leave_safe.Auth.Methods.Lockout.{authenticate_locked, check_pin_locked}

-- A key or a PIN that an address gives at a time; the PIN is checked against a hash.
pub data Try : Type 0 where
  key_tried : ℕ → Bytes → Option Bytes → Try
  pin_tried : ℕ → Bytes → Bytes → Try

abbrev pub tried_at : Try → ℕ
tried_at (key_tried now key random) = now
tried_at (pin_tried now pin hash) = now

is_locked_out : Option AuthError → Bool
is_locked_out (some (locked_out left)) = true
is_locked_out _ = false

-- What is left of a session table by a try, and whether it was refused for the lockout.
try_one : Crypto → Bytes → Try → Manager → Manager × Bool
unfolding is_locked_out
try_one crypto addr (key_tried now key random) m =
    let (m1, r) = authenticate m addr key now random in (m1, is_locked_out r.error)
try_one crypto addr (pin_tried now pin hash) m =
    let (m1, e) = check_pin crypto m addr pin hash now in (m1, is_locked_out e)

pub try_all : Crypto → Bytes → List Try → Manager → Manager × Bool
try_all crypto addr [] m = (m, true)
try_all crypto addr (t ∷ ts) m =
    let (m1, refused) = try_one crypto addr t m in
    let (m2, rest) = try_all crypto addr ts m1 in (m2, refused && rest)

-- The manager once an address has been seen again.
seen_at : Manager → Bytes → Attempts → ℕ → Manager
seen_at m host r now = record m { by_addr = insert host (record r { last_seen = now }) m.by_addr }

try_one_locked :
    (crypto : Crypto) (addr : Bytes) (t : Try) (m : Manager) (r : Attempts)
    → lookup (normalize_addr addr) m.by_addr ≡ some r
    → tried_at t < r.locked_until
    → try_one crypto addr t m ≡ (seen_at m (normalize_addr addr) r (tried_at t), true)
unfolding try_one seen_at
try_one_locked crypto addr (key_tried now key random) m r known early =
    rw (authenticate_locked m addr key now random r known early) refl
try_one_locked crypto addr (pin_tried now pin hash) m r known early =
    rw (check_pin_locked crypto m addr pin hash now r known early) refl

-- The host has its lockout and its failures as they were.
pub IsStillLocked : Bytes → Attempts → Manager → Type 0
IsStillLocked host r m =
    (s : Attempts) × (lookup host m.by_addr ≡ some s)
    × (s.locked_until ≡ r.locked_until)
    × (s.failures ≡ r.failures)

-- However many keys and PINs an address that is locked out gives before its lockout ends, right ones
-- among them: each is refused for the lockout, no session is made or dropped, the record of the
-- address keeps its lockout and its failures, and that of every other address is as it was.
pub locked_out_refuses :
    (crypto : Crypto) (addr : Bytes) (ts : List Try) (m : Manager) (r : Attempts) (other : Bytes)
    → lookup (normalize_addr addr) m.by_addr ≡ some r
    → All (λ t. tried_at t < r.locked_until) ts
    → bytes_eq (normalize_addr addr) other ≡ false
    → let (m2, refused) = try_all crypto addr ts m in
      (refused ≡ true)
      × (m2.sessions ≡ m.sessions)
      × IsStillLocked (normalize_addr addr) r m2
      × (lookup other m2.by_addr ≡ lookup other m.by_addr)
unfolding try_all IsStillLocked seen_at
locked_out_refuses crypto addr [] m r other known early apart =
    (refl, refl, (r, known, refl, refl), refl)
locked_out_refuses crypto addr (t ∷ ts) m r other known early apart =
    let host = normalize_addr addr in
    let again : Attempts = record r { last_seen = tried_at t } in
    let m1 : Manager = seen_at m host r (tried_at t) in
    let known1 : lookup host m1.by_addr ≡ some again =
      lookup-insert host host again m.by_addr ∙ rw (bytes_eq_refl host) refl in
    let same : lookup other m1.by_addr ≡ lookup other m.by_addr =
      lookup-insert host other again m.by_addr ∙ rw apart refl in
    let rest = locked_out_refuses crypto addr ts m1 again other known1 early.1 apart in
    rw (try_one_locked crypto addr t m r known early.0) (rest.0, rest.1, rest.2, rest.3 ∙ same)
