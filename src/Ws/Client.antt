-- ===== src/Ws/Client.antt =====
-- internal/ws/client.go: one connection, and how its messages are limited, sealed and opened. The
-- locks make each function a step of its own. A message is what `json.Marshal` makes of it, none
-- where it fails, and `outgoing` is what was handed to the transport.
pub mod Sealing
use leave_safe.Prelude.{ℕ, Bool, Option, none, some, List, [], ◌∷◌, ◌++◌, Bytes}
use leave_safe.Auth.Policy.{ℤ}
use leave_safe.Ws.RateLimit.{TokenBucket, new_token_bucket, new_auth_bucket, allow}
use leave_safe.Ws.Session.{Wire, Session, Opened, opened, seal, unseal}

pub record Client : Type 0 where
  pub sealed : Option Session
  pub limiter : Option TokenBucket
  pub auth_limiter : Option TokenBucket
  pub outgoing : List Bytes

bucket_or : TokenBucket → Option TokenBucket → TokenBucket
bucket_or b none = b
bucket_or b (some c) = c

pub allow_message : Client → ℕ → Client × Bool
unfolding bucket_or
allow_message c now =
    let (b, ok) = allow (bucket_or new_token_bucket c.limiter) now in
    (record c { limiter = some b }, ok)

-- `max_attempts` is `c.hub.authManager.MaxAttempts()`.
pub allow_auth : ℤ → Client → ℕ → Client × Bool
unfolding bucket_or
allow_auth max_attempts c now =
    let (b, ok) = allow (bucket_or (new_auth_bucket max_attempts) c.auth_limiter) now in
    (record c { auth_limiter = some b }, ok)

module _ (wire : Wire) where
  -- `Client.unseal`.
  pub unseal_from : Client → Bytes → Client × Opened
  unseal_from c frame = elim c.sealed [
    | none ↦ (c, opened frame)
    | some s ↦ let (s', r) = unseal wire s frame in (record c { sealed = some s' }, r)
  ]

  write_sealed : Client → Session × Option Bytes → Client
  write_sealed c (s, none) = record c { sealed = some s }
  write_sealed c (s, some frame) = record c { sealed = some s; outgoing = c.outgoing ++ frame ∷ [] }

  -- `sendLocked`, which `send` calls under the write lock.
  pub send : Client → Option Bytes → Client
  unfolding write_sealed
  send c none = c
  send c (some text) = elim c.sealed [
    | none ↦ record c { outgoing = c.outgoing ++ text ∷ [] }
    | some s ↦ write_sealed c (seal wire s text)
  ]

  pub accept_and_seal : Client → Option Bytes → Session → Client
  accept_and_seal c msg s = record (send c msg) { sealed = some s }
