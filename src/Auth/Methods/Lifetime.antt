-- ===== src/Auth/Methods/Lifetime.antt =====
-- When a session begins, and when it ends.
use leave_safe.Prelude.{
  ℕ, ◌+◌, ◌≤◌, ◌<◌, ◌≡◌, ◌↔◌, refl, sym, ap, ◌∙◌, subst, inl, inr, ◌⊎◌, Bool, true, false, Option,
  none, some, List, [], Bytes, bytes_eq_iff, bytes_eq_refl, ltb, arith, length, All, Option-cases,
}
use leave_safe.Prelude.Map.{lookup, insert, lookup-insert, lookup-erase}
use leave_safe.Auth.Addr.{normalize_addr}
use leave_safe.Auth.Luhn.{luhn_valid}
use leave_safe.Auth.Policy.{Policy}
use leave_safe.Auth.Key.{strip_dashes, hex_encode, encode_random, format_key, generate_pairing_key}
use leave_safe.Auth.Key.Accepted.{BelowTen, generate_pairing_key_valid, strip_dashes-format_key}
use leave_safe.Auth.Table.{Attempts}
use leave_safe.Auth.Manager.{
  Session, Manager, Reply, session_expired, sweep, looked_up, right_key, wrong_key, judge,
  authenticate,
}
use leave_safe.Auth.Methods.{valid_session, touch_session, regenerate}
use leave_safe.Auth.Methods.Lockout.{sweep_rest}

-- A session is within a limit, or the limit is switched off.
abbrev pub Within : ℕ → ℕ → ℕ → Type 0
Within limit start now = (limit ≡ 0) ⊎ (now < start + limit)

session_live :
    (p : Policy) (now : ℕ) (s : Session)
    → (session_expired p now s ≡ false)
      ↔ (Within p.session_ttl s.created_at now × Within p.session_idle s.last_seen now)
unfolding session_expired
session_live p now s = (λ h. ground arith, λ h. ground arith)

-- A session that stands is valid while neither limit has been reached.
pub session_window :
    (m : Manager) (token : Bytes) (now : ℕ) (s : Session)
    → lookup token m.sessions ≡ some s
    → ((valid_session m token now).1 ≡ true)
      ↔ (Within m.opts.session_ttl s.created_at now × Within m.opts.session_idle s.last_seen now)
unfolding valid_session
session_window m token now s found =
    let live = session_live m.opts now s in
    (λ h. live.0 (ground (arith, found)), λ h. let e = live.1 h in ground (arith, found, e))

abbrev Granted : Manager → Bytes → ℕ → Manager × Reply → Type 0
Granted m host now (m', reply) =
    (lookup reply.token m'.sessions ≡ some (record { created_at = now; last_seen = now }))
    × (lookup host m'.by_addr ≡ none)
    × (m'.opts ≡ m.opts)

right_key_grants :
    (m : Manager) (host : Bytes) (now : ℕ) (random : Option Bytes)
    → (right_key m host now random).1.error ≡ none
    → Granted m host now (right_key m host now random)
unfolding right_key
right_key_grants m host now random h = elim (Option-cases (encode_random random)) [
  | inl e ↦ absurd (ground arith)
  | inr (token, e) ↦
      rw (e, right_key)
        (rw (lookup-insert, bytes_eq_refl token), rw (lookup-erase, bytes_eq_refl host), refl)
]

judge_sound :
    (m : Manager) (host key : Bytes) (now : ℕ) (r : Attempts) (random : Option Bytes)
    → (judge m host key now r random).1.error ≡ none
    → (strip_dashes key ≡ m.pairing_key)
      × (length m.sessions < m.opts.max_sessions)
      × (judge m host key now r random ≡ right_key m host now random)
unfolding judge wrong_key
judge_sound m host key now r random h =
    let iff = bytes_eq_iff (strip_dashes key) m.pairing_key in
    (ground (arith, iff), ground (arith, iff), ground (arith, iff))

judge_grants :
    (m : Manager) (host key : Bytes) (now : ℕ) (r : Attempts) (random : Option Bytes)
    → (judge m host key now r random).1.error ≡ none
    → Granted m host now (judge m host key now r random)
judge_grants m host key now r random h =
    let (_, _, e) = judge_sound m host key now r random h in
    rw e (right_key_grants m host now random (subst (λ x. x.1.error ≡ none) e h))

looked_up_rest :
    (m : Manager) (host : Bytes) (now : ℕ)
    → ((looked_up m host now).1.opts ≡ m.opts)
      × ((looked_up m host now).1.pairing_key ≡ m.pairing_key)
      × ((looked_up m host now).1.sessions ≡ m.sessions)
unfolding looked_up
looked_up_rest m host now = (refl, refl, refl)

authenticate_judges :
    (m : Manager) (addr key : Bytes) (now : ℕ) (random : Option Bytes)
    → (authenticate m addr key now random).1.error ≡ none
    → let host = normalize_addr addr in
      let r = (looked_up m host now).0 in
      (r.locked_until ≤ now)
      × (authenticate m addr key now random
          ≡ judge (sweep (looked_up m host now).1 now) host key now r random)
unfolding authenticate
authenticate_judges m addr key now random h = (ground arith, ground arith)

-- An attempt that returns no error came from an address that is not locked out, with the right key.
-- It clears the record of the address, and the token that it returns is valid at a later time
-- exactly while neither of its two limits has been reached.
pub authenticate_sound :
    (m : Manager) (addr key : Bytes) (now later : ℕ) (random : Option Bytes)
    → (authenticate m addr key now random).1.error ≡ none
    → let (m', reply) = authenticate m addr key now random in
      ((looked_up m (normalize_addr addr) now).0.locked_until ≤ now)
      × (strip_dashes key ≡ m.pairing_key)
      × (lookup (normalize_addr addr) m'.by_addr ≡ none)
      × (((valid_session m' reply.token later).1 ≡ true)
          ↔ (Within m.opts.session_ttl now later × Within m.opts.session_idle now later))
authenticate_sound m addr key now later random h =
    let host = normalize_addr addr in
    let m1 = (looked_up m host now).1 in
    let r = (looked_up m host now).0 in
    let (free, e) = authenticate_judges m addr key now random h in
    let k = subst (λ x. x.1.error ≡ none) e h in
    let (right, _, _) = judge_sound (sweep m1 now) host key now r random k in
    let (session, cleared, kept) = judge_grants (sweep m1 now) host key now r random k in
    let (_, opts, pairing_key, _) = sweep_rest m1 now in
    let (opts1, key1, _) = looked_up_rest m host now in
    (
      free,
      right ∙ pairing_key ∙ key1,
      rw e cleared,
      rw e (
          lifetime (judge (sweep m1 now) host key now r random).0
            (judge (sweep m1 now) host key now r random).1.token session (kept ∙ opts ∙ opts1)),
    )
  where
    lifetime :
        (n : Manager) (token : Bytes)
        → lookup token n.sessions ≡ some (record { created_at = now; last_seen = now })
        → n.opts ≡ m.opts
        → ((valid_session n token later).1 ≡ true)
          ↔ (Within m.opts.session_ttl now later × Within m.opts.session_idle now later)
    lifetime n token found same = rw (← same) (session_window n token later _ found)

judge_accepts :
    (m : Manager) (host key : Bytes) (now : ℕ) (r : Attempts) (bytes : Bytes)
    → length m.sessions < m.opts.max_sessions
    → strip_dashes key ≡ m.pairing_key
    → (judge m host key now r (some bytes)).1
      ≡ record { token = hex_encode bytes; remaining = m.opts.max_attempts; error = none }
unfolding judge right_key encode_random
judge_accepts m host key now r bytes room right =
    ground (arith, bytes_eq_iff (strip_dashes key) m.pairing_key)

-- The right key from an address that is not locked out, while there is room for a session and the
-- random source works, is accepted: the reply carries the token and no error.
pub authenticate_accepts :
    (m : Manager) (addr key : Bytes) (now : ℕ) (bytes : Bytes)
    → (looked_up m (normalize_addr addr) now).0.locked_until ≤ now
    → length m.sessions < m.opts.max_sessions
    → strip_dashes key ≡ m.pairing_key
    → (authenticate m addr key now (some bytes)).1
      ≡ record { token = hex_encode bytes; remaining = m.opts.max_attempts; error = none }
unfolding authenticate looked_up
authenticate_accepts m addr key now bytes free room right =
    let host = normalize_addr addr in
    let m1 = (looked_up m host now).1 in
    let r = (looked_up m host now).0 in
    let (same_opts, same_key, same_sessions) = looked_up_rest m host now in
    let (_, opts, pairing_key, fewer) = sweep_rest m1 now in
    let open_now : ltb now r.locked_until ≡ false = ground arith in
    rw (open_now, authenticate)
      (judge_accepts (sweep m1 now) host key now r bytes (rw opts (omega (arith, room, fewer)))
          (right ∙ sym pairing_key)
        ∙ ap
            (λ (p : Policy). record {
              token = hex_encode bytes;
              remaining = p.max_attempts;
              error = none;
            })
            opts)

touched :
    (m : Manager) (token : Bytes) (now : ℕ) (s : Session)
    → lookup token m.sessions ≡ some s
    → (valid_session m token now).1 ≡ true
    → touch_session m token now
      ≡ (record m { sessions = insert token (record s { last_seen = now }) m.sessions }, true)
unfolding touch_session valid_session
touched m token now s found valid = ground (arith, found)

-- Touching a session that is valid succeeds, restarts its idle limit and leaves its lifetime to run
-- from when it was made.
pub touch_session_renews :
    (m : Manager) (token : Bytes) (now later : ℕ) (s : Session)
    → lookup token m.sessions ≡ some s
    → (valid_session m token now).1 ≡ true
    → ((touch_session m token now).1 ≡ true)
      × (((valid_session (touch_session m token now).0 token later).1 ≡ true)
          ↔ (Within m.opts.session_ttl s.created_at later × Within m.opts.session_idle now later))
unfolding touch_session
touch_session_renews m token now later s found valid =
    let e = touched m token now s found valid in
    (
      ap (λ (x : Manager × Bool). x.1) e,
      rw e (
          session_window
            (record m { sessions = insert token (record s { last_seen = now }) m.sessions }) token
            later (record s { last_seen = now }) (rw (lookup-insert, bytes_eq_refl token))),
    )

no_session :
    (m : Manager) (token : Bytes) (now : ℕ)
    → m.sessions ≡ []
    → (valid_session m token now).1 ≡ false
unfolding valid_session lookup
no_session m token now e = ground arith

-- Rotating the key ends every session, forgets every failure, and puts in force the key that is
-- shown, which passes the check.
pub regenerate_revokes :
    (m : Manager) (draws : List (Option ℕ)) (random : Option Bytes) (token : Bytes) (now : ℕ)
    {shown : Bytes}
    → All BelowTen draws
    → (regenerate m draws random).1 ≡ some shown
    → let m' = (regenerate m draws random).0 in
      ((valid_session m' token now).1 ≡ false)
      × (m'.by_addr ≡ [])
      × (strip_dashes shown ≡ m'.pairing_key)
      × (luhn_valid m'.pairing_key ≡ true)
unfolding regenerate
regenerate_revokes m draws random token now {shown} b h =
    elim (Option-cases (generate_pairing_key draws)) [
      | inl e ↦ absurd (ground arith)
      | inr (key, e) ↦ elim (Option-cases (encode_random random)) [
        | inl f ↦ absurd (ground arith)
        | inr (salt, f) ↦
            let (n, d, valid) = generate_pairing_key_valid draws {key = key} b e in
            let k : format_key key ≡ shown = ground arith in
            rw (e, f, regenerate)
              (
                no_session
                    (record m {
                      pairing_key = key;
                      pairing_salt = salt;
                      sessions = [];
                      by_addr = [];
                    })
                    token now refl,
                refl,
                rw (← k) (strip_dashes-format_key key n d),
                valid,
              )
      ]
    ]
