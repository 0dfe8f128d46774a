-- ===== src/Ws/RateLimit.antt =====
-- internal/ws/ratelimit.go. Tokens, rates and bursts are float64 (Prelude/Float), and times are
-- nanoseconds. Time 0 is Go's zero time, which `IsZero` tells from a reading of the clock.
pub mod Burst
use leave_safe.Prelude.{
  ℕ, zero, suc, ◌+◌, ◌-◌, ◌/◌, ◌%◌, ◌^◌, Bool, true, false, ltb, ◌==◌, if◌then◌else◌,
}
use leave_safe.Prelude.Float.{float_of, float_add, float_apart, float_mul, float_div}
use leave_safe.Auth.Policy.{ℤ, pos, negsuc}

abbrev pub messages_per_second : ℕ
messages_per_second = 8

abbrev pub message_burst : ℕ
message_burst = 24

abbrev pub auth_attempts_per_second : ℕ
auth_attempts_per_second = 2

abbrev pub auth_attempt_margin : ℕ
auth_attempt_margin = 3

pub record TokenBucket : Type 0 where
  pub tokens : ℕ
  pub rate : ℕ
  pub burst : ℕ
  pub last : ℕ

abbrev pub new_bucket : ℕ → ℕ → TokenBucket
new_bucket rate burst = record { tokens = burst; rate = rate; burst = burst; last = 0 }

pub new_token_bucket : TokenBucket
unfolding float_of
new_token_bucket = new_bucket (float_of messages_per_second 1) (float_of message_burst 1)

at_least_one : ℤ → ℕ
at_least_one (pos zero) = 1
at_least_one (pos (suc n)) = suc n
at_least_one (negsuc n) = 1

pub new_auth_bucket : ℤ → TokenBucket
unfolding at_least_one float_of
new_auth_bucket max_attempts =
    new_bucket (float_of auth_attempts_per_second 1)
      (float_of (at_least_one max_attempts + auth_attempt_margin) 1)

-- The first `if` of `allow`.
started : TokenBucket → ℕ → TokenBucket
started b now = if b.last == 0 then record b { last = now } else b

-- `Sub`, which stops at the longest duration.
duration : ℕ → ℕ → ℕ
duration now last = let d = now - last in if ltb (2 ^ 63 - 1) d then 2 ^ 63 - 1 else d

-- `Seconds`.
elapsed_seconds : ℕ → ℕ
unfolding float_of float_add float_div
elapsed_seconds d =
    float_add (float_of (d / 10 ^ 9) 1) (float_div (float_of (d % 10 ^ 9) 1) (float_of (10 ^ 9) 1))

-- The second: what the time since the last call is worth, up to the burst.
refilled : TokenBucket → ℕ → TokenBucket
unfolding duration elapsed_seconds float_add float_mul
refilled b now =
    let elapsed = elapsed_seconds (duration now b.last) in
    let tokens = float_add b.tokens (float_mul elapsed b.rate) in
    if ltb 0 elapsed
    then record b { last = now; tokens = if ltb b.burst tokens then b.burst else tokens }
    else b

spend : TokenBucket → TokenBucket × Bool
unfolding float_of float_apart
spend b =
    let one = float_of 1 1 in
    if ltb b.tokens one
    then (b, false)
    else (record b { tokens = float_apart (b.tokens - one) }, true)

pub allow : TokenBucket → ℕ → TokenBucket × Bool
unfolding started refilled spend
allow b now = spend (refilled (started b now) now)
