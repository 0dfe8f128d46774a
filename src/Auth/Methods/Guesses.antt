-- ===== src/Auth/Methods/Guesses.antt =====
-- How many guesses at the key one address has.
use leave_safe.Prelude.{
  ℕ, suc, ◌+◌, ◌-◌, ◌≤◌, ◌<◌, ◌≡◌, ◌≢◌, refl, sym, ap, ◌∙◌, subst, false, Option, none, some, List,
  [], ◌∷◌, ◌++◌, Bytes, bytes_eq_iff, bytes_eq_refl, ltb, arith, length, All,
}
use leave_safe.Prelude.Map.{lookup, insert, lookup-insert}
use leave_safe.Auth.Addr.{normalize_addr}
use leave_safe.Auth.Key.{strip_dashes}
use leave_safe.Auth.Policy.{Policy}
use leave_safe.Auth.Table.{Attempts}
use leave_safe.Auth.Manager.{
  Manager, sweep, count_failure, wrong_key, judge, authenticate, refuse, locked_out, Reply,
}
use leave_safe.Auth.Methods.Lockout.{looked_up_known, authenticate_locked, sweep_rest}

-- What stays the same while one address gives wrong keys.
record Guessing (m : Manager) (host : Bytes) (r : Attempts) : Type 0 where
  stands : lookup host m.by_addr ≡ some r
  room : length m.sessions < m.opts.max_sessions

-- The record after one more wrong key.
abbrev pub counted : Policy → ℕ → Attempts → Attempts
counted p now r = (count_failure p now (record r { last_seen = now })).0

wrong_key_lem :
    (m : Manager) (host key : Bytes) (now : ℕ) (r : Attempts) (random : Option Bytes)
    → length m.sessions < m.opts.max_sessions
    → strip_dashes key ≢ m.pairing_key
    → judge m host key now r random ≡ wrong_key m host now r
unfolding judge
wrong_key_lem m host key now r random room wrong =
    ground (arith, bytes_eq_iff (strip_dashes key) m.pairing_key)

-- A wrong key leaves the count in the table, and the rest as it was.
wrong_key-Guessing :
    (m : Manager) (p : Policy) (host : Bytes) (now : ℕ) (r : Attempts)
    → length m.sessions < m.opts.max_sessions
    → m.opts ≡ p
    → Guessing (wrong_key m host now r).0 host (count_failure p now r).0
      × ((wrong_key m host now r).0.opts ≡ p)
      × ((wrong_key m host now r).0.pairing_key ≡ m.pairing_key)
unfolding wrong_key
wrong_key-Guessing m p host now r room e = (
  record {
    stands =
        ap (λ q. lookup host (insert host (count_failure q now r).0 m.by_addr)) e
        ∙ rw (lookup-insert, bytes_eq_refl host);
    room = room;
  },
  e,
  refl,
)

-- One wrong key counts on the record of its address, and changes neither the key nor the policy.
one_guess :
    (m : Manager) (addr key : Bytes) (now : ℕ) (r : Attempts) (random : Option Bytes)
    → Guessing m (normalize_addr addr) r
    → r.locked_until ≤ now
    → strip_dashes key ≢ m.pairing_key
    → let m' = (authenticate m addr key now random).0 in
      Guessing m' (normalize_addr addr) (counted m.opts now r)
      × (m'.opts ≡ m.opts)
      × (m'.pairing_key ≡ m.pairing_key)
unfolding authenticate
one_guess m addr key now r random g free wrong =
    let host = normalize_addr addr in
    let r1 : Attempts = record r { last_seen = now } in
    let m1 : Manager = record m { by_addr = insert host r1 m.by_addr } in
    let (same_table, same_opts, same_key, fewer) = sweep_rest m1 now in
    let open_now : ltb now r.locked_until ≡ false = ground arith in
    let room : length (sweep m1 now).sessions < (sweep m1 now).opts.max_sessions =
      rw same_opts (omega (arith, fewer, g.room)) in
    rw (looked_up_known m host now r g.stands) (
      rw open_now (
        rw (wrong_key_lem (sweep m1 now) host key now r1 random room (rw same_key wrong)) (
          let (g1, o1, k1) = wrong_key-Guessing (sweep m1 now) m.opts host now r1 room same_opts in
          (g1, o1, k1 ∙ same_key))))

-- Guesses one after the other from one address, each at a time of its own.
pub guess_all : Manager → Bytes → List (ℕ × Bytes) → Manager
guess_all m addr [] = m
guess_all m addr ((now, key) ∷ gs) = guess_all (authenticate m addr key now none).0 addr gs

-- Every guess is wrong, and none comes before a given time.
abbrev pub AllWrong : Bytes → ℕ → List (ℕ × Bytes) → Type 0
AllWrong right start = All (λ g. (start ≤ g.0) × (strip_dashes g.1 ≢ right))

counted_below :
    (p : Policy) (now : ℕ) (r : Attempts)
    → r.failures + 1 < p.max_attempts
    → counted p now r
      ≡ record { failures = r.failures + 1; locked_until = r.locked_until; last_seen = now }
unfolding count_failure
counted_below p now r h = ground arith

counted_last :
    (p : Policy) (now : ℕ) (r : Attempts)
    → r.failures + 1 ≡ p.max_attempts
    → counted p now r
      ≡ record { failures = 0; locked_until = now + p.lockout_period; last_seen = now }
unfolding count_failure
counted_last p now r h = ground arith

guess_all_lock :
    (m : Manager) (addr : Bytes) (gs : List (ℕ × Bytes)) (now : ℕ) (key : Bytes) (r : Attempts)
    → Guessing m (normalize_addr addr) r
    → AllWrong m.pairing_key r.locked_until (gs ++ (now, key) ∷ [])
    → r.failures + suc (length gs) ≡ m.opts.max_attempts
    → lookup (normalize_addr addr) (guess_all m addr (gs ++ (now, key) ∷ [])).by_addr
      ≡ some (record { failures = 0; locked_until = now + m.opts.lockout_period; last_seen = now })
unfolding guess_all
guess_all_lock m addr [] now key r g w n =
    let (g1, _, _) = one_guess m addr key now r none g w.0.0 w.0.1 in
    g1.stands ∙ ap some (counted_last m.opts now r (omega (arith, n)))
guess_all_lock m addr ((t, k) ∷ gs) now key r g w n =
    let (g1, o1, k1) = one_guess m addr k t r none g w.0.0 w.0.1 in
    let m1 = (authenticate m addr k t none).0 in
    let r1 : Attempts = record {
      failures = r.failures + 1;
      locked_until = r.locked_until;
      last_seen = t;
    } in
    let c : counted m.opts t r ≡ r1 = counted_below m.opts t r (omega (arith, n)) in
    guess_all_lock m1 addr gs now key r1 (subst (Guessing m1 (normalize_addr addr)) c g1)
      (subst (λ q. AllWrong q r.locked_until (gs ++ (now, key) ∷ [])) (sym k1) w.1)
      (rw o1 (omega (arith, n)))
    ∙ ap
        (λ (q : Policy).
          some (record { failures = 0; locked_until = now + q.lockout_period; last_seen = now }))
        o1

-- An address with a failure record that gives as many wrong keys as it has attempts left, each
-- after its last lockout and while there is room for a session, is locked out for the lockout
-- period from the last of them: until then every key it gives is refused, the right one as well.
pub wrong_keys_lock :
    (m : Manager) (addr : Bytes) (gs : List (ℕ × Bytes)) (now : ℕ) (key : Bytes) (r : Attempts)
    (later : ℕ) (any : Bytes) (random : Option Bytes)
    → lookup (normalize_addr addr) m.by_addr ≡ some r
    → length m.sessions < m.opts.max_sessions
    → AllWrong m.pairing_key r.locked_until (gs ++ (now, key) ∷ [])
    → r.failures + suc (length gs) ≡ m.opts.max_attempts
    → later < now + m.opts.lockout_period
    → (authenticate (guess_all m addr (gs ++ (now, key) ∷ [])) addr any later random).1
      ≡ refuse 0 (locked_out (now + m.opts.lockout_period - later))
wrong_keys_lock m addr gs now key r later any random known room wrong n soon =
    let g : Guessing m (normalize_addr addr) r = record { stands = known; room = room } in
    let locked = guess_all_lock m addr gs now key r g wrong n in
    ap (λ (x : Manager × Reply). x.1)
      (authenticate_locked (guess_all m addr (gs ++ (now, key) ∷ [])) addr any later random _ locked
        soon)
