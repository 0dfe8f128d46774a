-- ===== src/Auth/Methods/Lockout.antt =====
-- Who is refused, and for how long.
use leave_safe.Prelude.{
  ℕ, ◌-◌, ◌≤◌, ◌<◌, ◌≡◌, ◌≢◌, ap, ◌∙◌, inl, inr, ◌⊎◌, true, false, Option, some, Bytes, bytes_eq,
  bytes_eq_iff, ltb, leb, arith, length, length-keep-le, Bool-cases, Option-cases, not,
}
use leave_safe.Prelude.Map.{Map, lookup, insert, erase, lookup-insert, lookup-erase}
use leave_safe.Auth.Addr.{normalize_addr}
use leave_safe.Auth.Key.{strip_dashes, encode_random}
use leave_safe.Auth.Pin.{Crypto, verify_pin_hash}
use leave_safe.Auth.Table.{Attempts, record_for, make_room, fresh}
use leave_safe.Auth.Manager.{
  Session, Manager, locked_out, session_expired, sweep, count_failure, looked_up, right_key,
  wrong_key, judge, authenticate, refuse,
}
use leave_safe.Auth.Methods.{check_pin, wrong_pin}

module _ (m : Manager) (host : Bytes) (now : ℕ) (r : Attempts)
    (known : lookup host m.by_addr ≡ some r) where
  -- A host with a record is looked up in its place.
  pub looked_up_known : looked_up m host now ≡ (
    record r { last_seen = now },
    record m { by_addr = insert host (record r { last_seen = now }) m.by_addr },
  )
  unfolding looked_up record_for
  looked_up_known = rw (known, record_for)

pub authenticate_locked :
    (m : Manager) (addr key : Bytes) (now : ℕ) (random : Option Bytes) (r : Attempts)
    → lookup (normalize_addr addr) m.by_addr ≡ some r
    → now < r.locked_until
    → authenticate m addr key now random ≡ (
      record m { by_addr = insert (normalize_addr addr) (record r { last_seen = now }) m.by_addr },
      refuse 0 (locked_out (r.locked_until - now)),
    )
unfolding authenticate
authenticate_locked m addr key now random r known locked =
    let l : ltb now r.locked_until ≡ true = ground arith in
    rw (looked_up_known m (normalize_addr addr) now r known, authenticate) (rw (l, authenticate))

pub check_pin_locked :
    (crypto : Crypto) (m : Manager) (addr pin pin_hash : Bytes) (now : ℕ) (r : Attempts)
    → lookup (normalize_addr addr) m.by_addr ≡ some r
    → now < r.locked_until
    → check_pin crypto m addr pin pin_hash now ≡ (
      record m { by_addr = insert (normalize_addr addr) (record r { last_seen = now }) m.by_addr },
      some (locked_out (r.locked_until - now)),
    )
unfolding check_pin
check_pin_locked crypto m addr pin pin_hash now r known locked =
    let l : ltb now r.locked_until ≡ true = ground arith in
    rw (looked_up_known m (normalize_addr addr) now r known, check_pin) (rw (l, check_pin))

-- The sweep of sessions touches nothing else.
pub sweep_rest :
    (m : Manager) (now : ℕ)
    → ((sweep m now).by_addr ≡ m.by_addr)
      × ((sweep m now).opts ≡ m.opts)
      × ((sweep m now).pairing_key ≡ m.pairing_key)
      × (length (sweep m now).sessions ≤ length m.sessions)
unfolding sweep
sweep_rest m now =
    let le =
      length-keep-le (λ (x : Bytes × Session). not (session_expired m.opts now x.1)) m.sessions in
    (ground arith, ground arith, ground arith, ground (arith, le))

-- There is a place for the host in the table: its own, or a free one.
abbrev pub HasRoom : Manager → Bytes → Type 0
HasRoom m host =
    ((r : Attempts) × (lookup host m.by_addr ≡ some r))
    ⊎ (length m.by_addr < m.opts.max_tracked_addrs)

module _ (host other : Bytes) (ne : host ≢ other) where
  lookup-insert_ne {ℓ} :
      {V : Type ℓ} (v : V) (t : Map V) → lookup other (insert host v t) ≡ lookup other t
  lookup-insert_ne v t = ground (arith, lookup-insert host other v t, bytes_eq_iff host other)

  lookup-erase_ne {ℓ} : {V : Type ℓ} (t : Map V) → lookup other (erase host t) ≡ lookup other t
  lookup-erase_ne t = ground (arith, lookup-erase host other t, bytes_eq_iff host other)

  known_other :
      (m : Manager) (now : ℕ) (r : Attempts)
      → lookup host m.by_addr ≡ some r
      → lookup other (looked_up m host now).1.by_addr ≡ lookup other m.by_addr
  known_other m now r e =
      ap (λ (x : Attempts × Manager). lookup other x.1.by_addr) (looked_up_known m host now r e)
      ∙ lookup-insert_ne (record r { last_seen = now }) m.by_addr

  looked_up_other :
      (m : Manager) (now : ℕ)
      → HasRoom m host
      → lookup other (looked_up m host now).1.by_addr ≡ lookup other m.by_addr
  unfolding looked_up record_for make_room
  looked_up_other m now (inl (r, e)) = known_other m now r e
  looked_up_other m now (inr room) = elim (Option-cases (lookup host m.by_addr)) [
    | inr (r, e) ↦ known_other m now r e
    | inl e ↦
        let free : leb m.opts.max_tracked_addrs (length m.by_addr) ≡ false = ground arith in
        rw (e, record_for) (rw (free, make_room) (lookup-insert_ne (fresh now) m.by_addr))
  ]

  right_key_other :
      (m : Manager) (now : ℕ) (random : Option Bytes)
      → lookup other (right_key m host now random).0.by_addr ≡ lookup other m.by_addr
  unfolding right_key
  right_key_other m now random = elim (Option-cases (encode_random random)) [
    | inl e ↦ rw (e, right_key) (lookup-erase_ne m.by_addr)
    | inr (t, e) ↦ rw (e, right_key) (lookup-erase_ne m.by_addr)
  ]

  judge_other :
      (m : Manager) (key : Bytes) (now : ℕ) (r : Attempts) (random : Option Bytes)
      → lookup other (judge m host key now r random).0.by_addr ≡ lookup other m.by_addr
  unfolding judge wrong_key
  judge_other m key now r random = elim (Bool-cases (leb m.opts.max_sessions (length m.sessions))) [
    | inl full ↦ rw (full, judge)
    | inr room ↦ elim (Bool-cases (bytes_eq (strip_dashes key) m.pairing_key)) [
      | inl right ↦ rw (room, right, judge) (right_key_other m now random)
      | inr wrong ↦
          rw (room, wrong, judge) (lookup-insert_ne (count_failure m.opts now r).0 m.by_addr)
    ]
  ]

-- What one address does never costs another: its record is left as it is by every attempt on the
-- key and on the PIN that comes from somewhere else, as long as the table has a place for that.
pub attempts_isolated :
    (crypto : Crypto) (m : Manager) (addr secret pin_hash other : Bytes) (now : ℕ)
    (random : Option Bytes)
    → normalize_addr addr ≢ other
    → HasRoom m (normalize_addr addr)
    → (lookup other (authenticate m addr secret now random).0.by_addr ≡ lookup other m.by_addr)
      × (lookup other (check_pin crypto m addr secret pin_hash now).0.by_addr
          ≡ lookup other m.by_addr)
unfolding authenticate check_pin wrong_pin
attempts_isolated crypto m addr secret pin_hash other now random ne room =
    let host = normalize_addr addr in
    let r = (looked_up m host now).0 in
    let m1 = (looked_up m host now).1 in
    let same = looked_up_other host other ne m now room in
    elim (Bool-cases (ltb now r.locked_until)) [
      | inl locked ↦ (rw (locked, authenticate) same, rw (locked, check_pin) same)
      | inr free ↦ (
        rw (free, authenticate)
            (judge_other host other ne (sweep m1 now) secret now r random
              ∙ ap (lookup other) (sweep_rest m1 now).0
              ∙ same),
        rw (free, check_pin)
            (elim (Bool-cases (verify_pin_hash crypto secret pin_hash)) [
              | inl right ↦ rw (right, check_pin) (lookup-erase_ne host other ne m1.by_addr ∙ same)
              | inr wrong ↦
                  rw (wrong, check_pin)
                    (lookup-insert_ne host other ne (count_failure m1.opts now r).0 m1.by_addr
                      ∙ same)
            ]),
      )
    ]
