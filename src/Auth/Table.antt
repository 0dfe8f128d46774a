-- ===== src/Auth/Table.antt =====
-- The failure table of internal/auth/auth.go: `record`, `evictLocked` and `oldestUnlockedLocked`.
-- A Go map is iterated in an order of its own choosing; here that is the order of the list, and
-- the theorems hold of every list.
pub mod Evict
pub mod Bounds
use leave_safe.Prelude.{
  ℕ, ◌-◌, Bool, true, false, ◌&&◌, ◌||◌, not, Option, none, some, [], ◌∷◌, Bytes, bytes_eq, ltb,
  leb, if◌then◌else◌, length, keep,
}
use leave_safe.Prelude.Map.{Map, lookup, insert, erase}
use leave_safe.Auth.Policy.{Policy}

pub record Attempts : Type 0 where
  pub failures : ℕ
  pub locked_until : ℕ
  pub last_seen : ℕ

-- `now.After(rec.lockedUntil) && now.Sub(rec.lastSeen) > m.opts.LockoutPeriod`. The period is
-- positive, so a `lastSeen` in the future is not stale in either reading of the subtraction.
pub is_stale : Policy → ℕ → Attempts → Bool
is_stale p now r = ltb r.locked_until now && ltb p.lockout_period (now - r.last_seen)

pub any_stale : Policy → ℕ → Map Attempts → Bool
unfolding is_stale
any_stale p now [] = false
any_stale p now ((h, r) ∷ m) = is_stale p now r || any_stale p now m

-- One round of the loop that looks for the record seen longest ago, among those not locked out.
older : ℕ → Bytes × ℕ → Bytes × Attempts → Bytes × ℕ
older now (host, seen) (h, r) =
    if ltb now r.locked_until
    then (host, seen)
    else if bytes_eq host [] || ltb r.last_seen seen
    then (h, r.last_seen)
    else (host, seen)

oldest_from : ℕ → Bytes × ℕ → Map Attempts → Bytes × ℕ
unfolding older
oldest_from now best [] = best
oldest_from now best (e ∷ m) = oldest_from now (older now best e) m

pub oldest_unlocked : ℕ → Map Attempts → Bytes
unfolding oldest_from
oldest_unlocked now m = (oldest_from now ([], 0) m).0

-- One round of the loop that looks for the lockout with the least time left to run.
sooner : Bytes × ℕ → Bytes × Attempts → Bytes × ℕ
sooner (host, until) (h, r) =
    if bytes_eq host [] || ltb r.locked_until until then (h, r.locked_until) else (host, until)

soonest_from : Bytes × ℕ → Map Attempts → Bytes × ℕ
unfolding sooner
soonest_from best [] = best
soonest_from best (e ∷ m) = soonest_from (sooner best e) m

pub soonest_unlock : Map Attempts → Bytes
unfolding soonest_from
soonest_unlock m = (soonest_from ([], 0) m).0

-- `if host != "" { delete(m.byAddr, host) }`.
erase_named : Bytes → Map Attempts → Map Attempts
erase_named host m = if bytes_eq host [] then m else erase host m

unfoldable pub evict : Policy → ℕ → Map Attempts → Map Attempts
unfolding any_stale erase_named
evict p now m =
    if any_stale p now m
    then keep (λ e. not (is_stale p now e.1)) m
    else if bytes_eq (oldest_unlocked now m) []
    then erase_named (soonest_unlock m) m
    else erase (oldest_unlocked now m) m

unfoldable pub make_room : Policy → ℕ → Map Attempts → Map Attempts
make_room p now m = if leb p.max_tracked_addrs (length m) then evict p now m else m

abbrev pub fresh : ℕ → Attempts
fresh now = record { failures = 0; locked_until = 0; last_seen = now }

-- `record`: the record of a host, and the table in which it stands.
unfoldable pub record_for : Policy → Bytes → ℕ → Map Attempts → Attempts × Map Attempts
record_for p host now m = elim (lookup host m) [
  | some r ↦ (record r { last_seen = now }, insert host (record r { last_seen = now }) m)
  | none ↦ (fresh now, insert host (fresh now) (make_room p now m))
]
