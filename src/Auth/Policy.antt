-- ===== src/Auth/Policy.antt =====
-- `Options` of internal/auth/auth.go. An `int` or a `time.Duration` is an integer here; a duration
-- counts nanoseconds, and so does a time, from Go's zero time on.
use leave_safe.Prelude.{ℕ, zero, suc, ◌*◌, ◌<◌, arith}

-- `negsuc n` is -(n + 1).
pub data ℤ : Type 0 where
  pos : ℕ → ℤ
  negsuc : ℕ → ℤ

pub record Options : Type 0 where
  pub max_sessions : ℤ
  pub max_attempts : ℤ
  pub lockout_period : ℤ
  pub max_tracked_addrs : ℤ
  pub session_ttl : ℤ
  pub session_idle : ℤ

-- The policy in force. The code tests the two session limits by `> 0` alone, so 0 stands for
-- every limit that is not.
pub record Policy : Type 0 where
  pub max_sessions : ℕ
  pub max_attempts : ℕ
  pub lockout_period : ℕ
  pub max_tracked_addrs : ℕ
  pub session_ttl : ℕ
  pub session_idle : ℕ

abbrev pub seconds : ℕ → ℕ
seconds n = n * 1_000_000_000

positive_or : ℕ → ℤ → ℕ
positive_or d (pos zero) = d
positive_or d (pos (suc n)) = suc n
positive_or d (negsuc n) = d

unfoldable pub with_defaults : Options → Policy
unfolding positive_or
with_defaults o = record {
  max_sessions = positive_or 3 o.max_sessions;
  max_attempts = positive_or 5 o.max_attempts;
  lockout_period = positive_or (seconds 60) o.lockout_period;
  max_tracked_addrs = positive_or 256 o.max_tracked_addrs;
  session_ttl = positive_or 0 o.session_ttl;
  session_idle = positive_or 0 o.session_idle;
}

-- What every policy has, from whatever options.
pub record IsPositive (p : Policy) : Type 0 where
  pub some_session : 0 < p.max_sessions
  pub some_attempt : 0 < p.max_attempts
  pub some_lockout : 0 < p.lockout_period
  pub some_addr : 0 < p.max_tracked_addrs

positive_or_pos : (d : ℕ) (z : ℤ) → 0 < d → 0 < positive_or d z
unfolding positive_or
positive_or_pos d (pos zero) h = h
positive_or_pos d (pos (suc n)) h = omega arith
positive_or_pos d (negsuc n) h = h

pub with_defaults-IsPositive : (o : Options) → IsPositive (with_defaults o)
unfolding with_defaults
with_defaults-IsPositive o = record {
  some_session = positive_or_pos 3 o.max_sessions (omega arith);
  some_attempt = positive_or_pos 5 o.max_attempts (omega arith);
  some_lockout = positive_or_pos (seconds 60) o.lockout_period (omega arith);
  some_addr = positive_or_pos 256 o.max_tracked_addrs (omega arith);
}
