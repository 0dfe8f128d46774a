-- ===== src/Ws/RateLimit/Burst.antt =====
-- How many calls of `allow` at one and the same instant a new bucket lets pass.
use leave_safe.Prelude.{
  ℕ, zero, suc, ◌+◌, ◌-◌, ◌≤◌, ◌≡◌, refl, ◌∙◌, Bool, true, false, ◌&&◌, not, List, [], ◌∷◌, ltb,
  leb, ◌==◌, if◌then◌else◌, arith, ◌⊎◌, inl, inr, Bool-cases,
}
use leave_safe.Prelude.Float.{float_of, float_apart, float_add, float_div}
use leave_safe.Auth.Policy.{pos}
use leave_safe.Ws.RateLimit.{
  TokenBucket, new_token_bucket, new_auth_bucket, at_least_one, started, refilled, duration,
  elapsed_seconds, spend, allow,
}

-- How many of the calls at these times are let pass.
pub passed : TokenBucket → List ℕ → ℕ
passed b [] = 0
passed b (now ∷ ts) =
    let (b', ok) = allow b now in let rest = passed b' ts in if ok then rest + 1 else rest

-- So many calls at one time.
pub at_once : ℕ → ℕ → List ℕ
at_once zero now = []
at_once (suc n) now = now ∷ at_once n now

-- Taking one from a whole number of tokens is exact.
exact : ℕ → Bool
exact k =
    float_apart (float_of (suc k) 1 - float_of 1 1) == float_of k 1
    && not (ltb (float_of (suc k) 1) (float_of 1 1))

exact_below : ℕ → Bool
exact_below zero = true
exact_below (suc k) = exact k && exact_below k

no_time : (now : ℕ) → elapsed_seconds (duration now now) ≡ 0
unfolding elapsed_seconds float_of float_add float_div duration
no_time now = let nothing : now - now ≡ 0 = omega arith in rw nothing refl

holds : ℕ → ℕ → ℕ → ℕ → TokenBucket
holds k rate burst last = record { tokens = float_of k 1; rate = rate; burst = burst; last = last }

refilled_held :
    (k rate burst now : ℕ) → refilled (holds k rate burst now) now ≡ holds k rate burst now
unfolding refilled holds
refilled_held k rate burst now = rw (no_time now) refl

equal : (m n : ℕ) → (m == n) ≡ true → m ≡ n
equal m n h = ground (arith, h)

is_false : (b : Bool) → not b ≡ true → b ≡ false
is_false false h = refl
is_false true h = absurd cc

both : (a b : Bool) → (a && b) ≡ true → (a ≡ true) × (b ≡ true)
both a b h = ground arith

started_held :
    (k rate burst now last : ℕ)
    → (last ≡ 0) ⊎ (last ≡ now)
    → started (holds k rate burst last) now ≡ holds k rate burst now
unfolding started holds
started_held k rate burst now last (inl e) = rw e refl
started_held k rate burst now last (inr e) = elim (Bool-cases (now == 0)) [
  | inl y ↦ rw (e, y) refl
  | inr n ↦ rw (e, n) refl
]

allow_held :
    (k rate burst now last : ℕ)
    → (last ≡ 0) ⊎ (last ≡ now)
    → allow (holds k rate burst last) now ≡ spend (holds k rate burst now)
unfolding allow
allow_held k rate burst now last h =
    rw (started_held k rate burst now last h, refilled_held k rate burst now) refl

spend_none : (rate burst now : ℕ) → spend (holds 0 rate burst now) ≡ (holds 0 rate burst now, false)
unfolding spend holds float_of
spend_none rate burst now = refl

spend_one :
    (k rate burst now : ℕ)
    → exact k ≡ true
    → spend (holds (suc k) rate burst now) ≡ (holds k rate burst now, true)
unfolding spend holds exact
spend_one k rate burst now h =
    let one = float_of 1 1 in
    let tokens = float_of (suc k) 1 in
    let parts = both (float_apart (tokens - one) == float_of k 1) (not (ltb tokens one)) h in
    let paid = equal (float_apart (tokens - one)) (float_of k 1) parts.0 in
    let has = is_false (ltb tokens one) parts.1 in rw (has, paid) refl

burst_passes :
    (k rate burst now last n : ℕ)
    → exact_below k ≡ true
    → (last ≡ 0) ⊎ (last ≡ now)
    → passed (holds k rate burst last) (at_once n now) ≡ (if leb k n then k else n)
unfolding passed at_once exact_below
burst_passes k rate burst now last zero h l = ground arith
burst_passes zero rate burst now last (suc n) h l =
    rw (allow_held zero rate burst now last l, spend_none rate burst now)
      (burst_passes zero rate burst now now n h (inr refl) ∙ ground arith)
burst_passes (suc k) rate burst now last (suc n) h l =
    let (here, rest) = both (exact k) (exact_below k) h in
    rw (allow_held (suc k) rate burst now last l, spend_one k rate burst now here)
      (rw (burst_passes k rate burst now now n rest (inr refl)) (ground arith))

exact_24 : exact_below 24 ≡ true
unfolding exact_below exact float_of float_apart
exact_24 = refl

none_left : (k : ℕ) → k ≤ 0 → k ≡ 0
none_left k le = omega (arith, le)

exact_fewer : (n k : ℕ) → k ≤ n → exact_below n ≡ true → exact_below k ≡ true
unfolding exact_below
exact_fewer zero k le h = rw (none_left k le) refl
exact_fewer (suc n) k le h = elim (Bool-cases (k == suc n)) [
  | inl y ↦ rw (equal k (suc n) y) h
  | inr d ↦ exact_fewer n k (ground (arith, le, d)) (both (exact n) (exact_below n) h).1
]

-- Of any calls that come at one and the same instant, a new message bucket lets 24 pass, all of them
-- if there are fewer, and a new pairing bucket three more than the attempts an address has, where
-- these are from 1 to 21.
pub new_buckets_burst :
    (now n attempts : ℕ)
    → 1 ≤ attempts
    → attempts ≤ 21
    → (passed new_token_bucket (at_once n now) ≡ (if leb 24 n then 24 else n))
      × (passed (new_auth_bucket (pos attempts)) (at_once n now)
          ≡ (if leb (attempts + 3) n then attempts + 3 else n))
new_buckets_burst now n zero h k = omega (arith, h)
new_buckets_burst now n (suc a) h k = (
  (unfold new_token_bucket holds in
      burst_passes 24 (float_of 8 1) (float_of 24 1) now 0 n exact_24 (inl refl)),
  (unfold new_auth_bucket at_least_one holds in
      burst_passes (suc a + 3) (float_of 2 1) (float_of (suc a + 3) 1) now 0 n
        (exact_fewer 24 (suc a + 3) (omega (arith, k)) exact_24) (inl refl)),
)
