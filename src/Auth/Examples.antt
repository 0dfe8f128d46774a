-- ===== src/Auth/Examples.antt =====
-- Runs of internal/auth on small inputs.
use leave_safe.Prelude.{
  ℕ, zero, suc, ◌+◌, ◌-◌, ◌≤◌, ◌<◌, ◌≡◌, ◌↔◌, refl, subst, inl, true, false, Option, none, some,
  List, [], ◌∷◌, Bytes, codes, bytes_ne, arith, length, All,
}
use leave_safe.Prelude.Map.{Map, Distinct, lookup}
use leave_safe.Auth.Addr.{normalize_addr}
use leave_safe.Auth.Luhn.{luhn_valid, luhn_check_digit}
use leave_safe.Auth.Luhn.Errors.{luhn_valid_one_digit}
use leave_safe.Auth.Luhn.Swaps.{luhn_valid_swap, luhn_valid_swap_last}
use leave_safe.Auth.Key.{encode_random, strip_dashes, format_key, generate_pairing_key, hex_encode}
use leave_safe.Auth.Key.Accepted.{BelowTen}
use leave_safe.Auth.Policy.{pos, negsuc, Options, Policy, with_defaults}
use leave_safe.Auth.Table.{record_for, Attempts, evict}
use leave_safe.Auth.Table.Evict.{Named, length-evict_lt, evict_keeps_locked}
use leave_safe.Auth.Manager.{
  Manager, new_manager_with_options, with_salt, judge, sweep, session_expired, right_key,
  authenticate, refuse, locked_out, looked_up, new_manager,
}
use leave_safe.Auth.Methods.{check_pin, valid_session, touch_session, regenerate}
use leave_safe.Auth.Methods.Guesses.{guess_all, wrong_keys_lock}
use leave_safe.Auth.Addr.Ports.{normalize_addr_port}
use leave_safe.Auth.Methods.Refusals.{
  Try, key_tried, pin_tried, try_all, IsStillLocked, locked_out_refuses,
}
use leave_safe.Auth.Methods.Lockout.{attempts_isolated}
use leave_safe.Auth.Methods.History.{authenticates, regenerates, run, run_bounds}
use leave_safe.Auth.Pin.{Crypto, hash_pin, verify_pin_hash, needs_rehash}
use leave_safe.Auth.Pin.Verify.{IsByte, IsDigest, verify_pin_hash-hash_pin}
use leave_safe.Auth.Methods.Lifetime.{
  Within, authenticate_sound, authenticate_accepts, touch_session_renews, regenerate_revokes,
}

abbrev small : Policy
small = record {
  max_sessions = 2;
  max_attempts = 2;
  lockout_period = 100;
  max_tracked_addrs = 2;
  session_ttl = 1000;
  session_idle = 50;
}

abbrev right : Bytes
right = codes "0000000000000000"

abbrev lan : Bytes
lan = codes "10.0.0.1:5000"

abbrev lan_host : Bytes
lan_host = codes "10.0.0.1"

abbrev tried : Attempts
tried = record { failures = 0; locked_until = 0; last_seen = 0 }

abbrev barred : Attempts
barred = record { failures = 0; locked_until = 500; last_seen = 3 }

abbrev holding : Attempts → Manager
holding r = record {
  opts = small;
  pairing_key = right;
  pairing_salt = codes "ab";
  sessions = (codes "t", record { created_at = 5; last_seen = 5 }) ∷ [];
  by_addr = (lan_host, r) ∷ [];
}

wrong_keys_lock_example :
    (authenticate
      (guess_all (holding tried) lan ((1, codes "1") ∷ (2, codes "2") ∷ []))
      lan
      right
      50
      none).1
    ≡ refuse 0 (locked_out (2 + 100 - 50))
unfolding strip_dashes normalize_addr lookup
wrong_keys_lock_example =
    wrong_keys_lock (holding tried) lan ((1, codes "1") ∷ []) 2 (codes "2") tried 50 right none refl
      (omega arith) ((omega arith, bytes_ne _ _ refl), ((omega arith, bytes_ne _ _ refl), tt)) refl
      (omega arith)

authenticate_sound_example :
    let (m', reply) = authenticate (holding tried) lan right 7 (some (1 ∷ [])) in
    ((looked_up (holding tried) (normalize_addr lan) 7).0.locked_until ≤ 7)
    × (strip_dashes right ≡ right)
    × (lookup (normalize_addr lan) m'.by_addr ≡ none)
    × (((valid_session m' reply.token 30).1 ≡ true) ↔ (Within 1000 7 30 × Within 50 7 30))
unfolding authenticate looked_up record_for lookup normalize_addr judge sweep session_expired
    strip_dashes right_key encode_random
authenticate_sound_example = authenticate_sound (holding tried) lan right 7 30 (some (1 ∷ [])) refl

authenticate_accepts_example :
    (authenticate (holding tried) lan right 7 (some (1 ∷ []))).1
    ≡ record { token = hex_encode (1 ∷ []); remaining = 2; error = none }
unfolding looked_up record_for lookup normalize_addr strip_dashes
authenticate_accepts_example =
    authenticate_accepts (holding tried) lan right 7 (1 ∷ []) (omega arith) (omega arith) refl

touch_session_renews_example :
    ((touch_session (holding tried) (codes "t") 20).1 ≡ true)
    × (((valid_session (touch_session (holding tried) (codes "t") 20).0 (codes "t") 60).1 ≡ true)
        ↔ (Within 1000 5 60 × Within 50 20 60))
unfolding lookup valid_session session_expired
touch_session_renews_example =
    touch_session_renews (holding tried) (codes "t") 20 60
      (record { created_at = 5; last_seen = 5 }) refl refl

luhn_valid_one_digit_example : luhn_valid (codes "1234567890123450") ≡ false
unfolding luhn_valid luhn_check_digit
luhn_valid_one_digit_example =
    luhn_valid_one_digit (codes "123456789012345") [] b'2' b'0' refl (omega arith)

luhn_valid_swap_example : luhn_valid (codes "2134567890123452") ≡ false
unfolding luhn_valid luhn_check_digit
luhn_valid_swap_example =
    luhn_valid_swap [] (codes "3456789012345") b'1' b'2' b'2' refl (omega arith) (omega arith)

luhn_valid_swap_last_example : luhn_valid (codes "1234567890123425") ≡ true
unfolding luhn_valid luhn_check_digit
luhn_valid_swap_last_example = luhn_valid_swap_last (codes "12345678901234") b'5' b'2' refl

abbrev draws : List (Option ℕ)
draws =
    some 1
    ∷ some 2
    ∷ some 3
    ∷ some 4
    ∷ some 5
    ∷ some 6
    ∷ some 7
    ∷ some 8
    ∷ some 9
    ∷ some 0
    ∷ some 1
    ∷ some 2
    ∷ some 3
    ∷ some 4
    ∷ some 5
    ∷ []

draws-BelowTen : All BelowTen draws
draws-BelowTen = ground arith

abbrev second_host : Bytes
second_host = codes "10.0.0.2"

abbrev full : Map Attempts
full = (lan_host, barred) ∷ (second_host, tried) ∷ []

full-Distinct : Distinct full
unfolding lookup
full-Distinct = (refl, (refl, tt))

full-Named : Named full
full-Named = (bytes_ne _ _ refl, (bytes_ne _ _ refl, tt))

length-evict_lt_example : length (evict small 100 full) < 2
length-evict_lt_example = length-evict_lt small 100 full full-Distinct full-Named (omega arith)

evict_keeps_locked_example : lookup lan_host (evict small 100 full) ≡ some barred
unfolding lookup
evict_keeps_locked_example =
    evict_keeps_locked small 100 full lan_host second_host barred tried full-Distinct full-Named
      refl (omega arith) refl (omega arith)

normalize_addr_port_example : normalize_addr (codes "10.0.0.1:5000") ≡ codes "10.0.0.1"
normalize_addr_port_example =
    normalize_addr_port (codes "10.0.0.1") (codes "5000") (bytes_ne _ _ refl) (ground arith)
      (ground arith)

-- A derivation for the runs: one byte again and again.
repeat : ℕ → ℕ → Bytes
repeat zero b = []
repeat (suc n) b = b ∷ repeat n b

abbrev toy : Crypto
toy = record { scrypt = λ pin salt n r p len. some (repeat len 7); sha256 = λ s. s }

abbrev tries : List Try
tries = key_tried 9 right none ∷ pin_tried 20 right [] ∷ key_tried 8 [] none ∷ []

locked_out_refuses_example :
    let (m2, refused) = try_all toy lan tries (holding barred) in
    (refused ≡ true)
    × (m2.sessions ≡ (holding barred).sessions)
    × IsStillLocked (normalize_addr lan) barred m2
    × (lookup second_host m2.by_addr ≡ none)
unfolding normalize_addr lookup
locked_out_refuses_example =
    locked_out_refuses toy lan tries (holding barred) barred second_host refl
      (omega arith, (omega arith, (omega arith, tt))) refl

attempts_isolated_example :
    (lookup second_host (authenticate (holding tried) lan (codes "1") 9 none).0.by_addr ≡ none)
    × (lookup second_host (check_pin toy (holding tried) lan (codes "1") [] 9).0.by_addr ≡ none)
unfolding lookup normalize_addr
attempts_isolated_example =
    attempts_isolated toy (holding tried) lan (codes "1") [] second_host 9 none (bytes_ne _ _ refl)
      (inl (tried, refl))

abbrev stock : Options
stock = record {
  max_sessions = pos 0;
  max_attempts = pos 0;
  lockout_period = pos 0;
  max_tracked_addrs = negsuc 0;
  session_ttl = pos 0;
  session_idle = pos 0;
}

run_bounds_example :
    let start = new_manager (with_defaults stock) (codes "1234567890123452") (codes "ab") in
    let m =
      run toy start ((1, authenticates lan right none) ∷ (2, regenerates draws (some [])) ∷ []) in
    (length start.pairing_key ≡ 16)
    × (luhn_valid start.pairing_key ≡ true)
    × (length m.sessions ≤ m.opts.max_sessions)
    × (length m.by_addr ≤ m.opts.max_tracked_addrs)
    × All (λ e. e.1.failures < m.opts.max_attempts) m.by_addr
unfolding new_manager_with_options generate_pairing_key luhn_check_digit with_salt strip_dashes
run_bounds_example =
    run_bounds toy stock [] (codes "ab") draws none
      ((1, authenticates lan right none) ∷ (2, regenerates draws (some [])) ∷ []) draws-BelowTen
      refl

regenerate_revokes_example :
    let m = (regenerate (holding tried) draws (some (1 ∷ []))).0 in
    ((valid_session m (codes "t") 6).1 ≡ false)
    × (m.by_addr ≡ [])
    × (strip_dashes (codes "1234-5678-9012-3452") ≡ m.pairing_key)
    × (luhn_valid m.pairing_key ≡ true)
unfolding regenerate generate_pairing_key luhn_check_digit encode_random format_key
regenerate_revokes_example =
    regenerate_revokes (holding tried) draws (some (1 ∷ [])) (codes "t") 6
      {shown = codes "1234-5678-9012-3452"} draws-BelowTen refl

repeat_lem : (n : ℕ) → (length (repeat n 7) ≡ n) × All IsByte (repeat n 7)
unfolding repeat
repeat_lem zero = (refl, tt)
repeat_lem (suc n) = let (k, h) = repeat_lem n in (omega (arith, k), (omega arith, h))

repeat-IsDigest : IsDigest toy
repeat-IsDigest pin salt n r p len digest e =
    let same : repeat len 7 ≡ digest = ground arith in
    subst (λ s. (length s ≡ len) × All IsByte s) same (repeat_lem len)

abbrev toy_hash : Bytes
toy_hash =
    codes "scrypt$131072$8$1$0a$0707070707070707070707070707070707070707070707070707070707070707"

verify_pin_hash-hash_pin_example :
    (verify_pin_hash toy (codes "4711") toy_hash ≡ true) × (needs_rehash toy_hash ≡ false)
unfolding hash_pin repeat hex_encode
verify_pin_hash-hash_pin_example =
    verify_pin_hash-hash_pin toy (codes "4711") (10 ∷ []) {hash = toy_hash} repeat-IsDigest
      (omega arith, tt) refl
