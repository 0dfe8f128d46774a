-- ===== src/Ws/Session/Nonces.antt =====
-- No nonce is used twice under one key.
use leave_safe.Prelude.{
  ℕ, ◌+◌, ◌^◌, ◌<◌, ◌≡◌, ◌≢◌, refl, ap, true, false, Option, some, List, [], ◌∷◌, Bytes, arith,
  length, All, get_or,
}
use leave_safe.Ws.Session.{Wire, Session, sealed_type, seal, nonce_for, counter_bytes}

nonce_for-inj : (m n : ℕ) → m < 2 ^ 64 → n < 2 ^ 64 → nonce_for m ≡ nonce_for n → m ≡ n
unfolding nonce_for counter_bytes
nonce_for-inj m n hm hn e =
    let at = λ (i : ℕ). ap (λ s. get_or s i 0) e in
    omega (arith, hm, hn, at 4, at 5, at 6, at 7, at 8, at 9, at 10, at 11)

-- Each of the nonces is another one.
abbrev pub AllDiffer : List Bytes → Type 0
AllDiffer [] = Unit {0}
AllDiffer (n ∷ ns) = All (λ m. n ≢ m) ns × AllDiffer ns

module _ (wire : Wire) where
  -- What `seal` gives for some messages, one after the other.
  pub sealed_all : Session → List Bytes → List (Option Bytes)
  sealed_all s [] = []
  sealed_all s (p ∷ ps) = (seal wire s p).1 ∷ sealed_all (seal wire s p).0 ps

  -- Each of these is a frame whose body is one of the messages, sealed under a key and one of the
  -- nonces.
  pub SealedUnder : Bytes → List Bytes → List Bytes → List (Option Bytes) → Type 0
  SealedUnder key [] [] [] = Unit
  SealedUnder key (n ∷ ns) (p ∷ ps) (frame ∷ frames) =
      ((seq : ℕ) × (extra : Bytes) × (frame
          ≡ some (
              wire.marshal (record {
                kind = sealed_type;
                seq = seq;
                body = wire.encode64 (wire.aead_seal key n p extra);
              }))))
      × SealedUnder key ns ps frames
  SealedUnder _ _ _ _ = true ≡ false

  -- The nonces of so many messages from a number on.
  numbered : ℕ → List Bytes → List Bytes
  numbered k [] = []
  numbered k (p ∷ ps) = nonce_for k ∷ numbered (k + 1) ps

  -- A message that is sealed takes one number, as long as there is one.
  pub seal_counts :
      (s : Session) (p : Bytes)
      → wire.accepts s.send ≡ true
      → s.sent + 1 < 2 ^ 64
      → (seal wire s p).0 ≡ record s { sent = s.sent + 1 }
  unfolding seal
  seal_counts s p ok room = rw ok (ap (λ n. record s { sent = n }) (omega (arith, room)))

  sealed_numbered :
      (s : Session) (ps : List Bytes)
      → wire.accepts s.send ≡ true
      → s.sent + length ps < 2 ^ 64
      → SealedUnder s.send (numbered s.sent ps) ps (sealed_all s ps)
  unfolding sealed_all SealedUnder numbered
  sealed_numbered s [] ok room = tt
  sealed_numbered s (p ∷ ps) ok room =
      let s' : Session = record s { sent = s.sent + 1 } in
      (
        (s.sent, counter_bytes s.sent, unfold seal in rw ok refl),
        rw (seal_counts s p ok (omega (arith, room)))
            (sealed_numbered s' ps ok (omega (arith, room))),
      )

  later_differ :
      (k m : ℕ) (ps : List Bytes)
      → k < m
      → m + length ps < 2 ^ 64
      → All (λ n. nonce_for k ≢ n) (numbered m ps)
  unfolding numbered
  later_differ k m [] h room = tt
  later_differ k m (p ∷ ps) h room = (
    λ e. omega (arith, nonce_for-inj k m (omega (arith, h, room)) (omega (arith, room)) e, h),
    later_differ k (m + 1) ps (omega (arith, h)) (omega (arith, room)),
  )

  numbered_differ : (m : ℕ) (ps : List Bytes) → m + length ps < 2 ^ 64 → AllDiffer (numbered m ps)
  unfolding numbered
  numbered_differ m [] room = tt
  numbered_differ m (p ∷ ps) room = (
    later_differ m (m + 1) ps (omega arith) (omega (arith, room)),
    numbered_differ (m + 1) ps (omega (arith, room)),
  )

  -- What a session with a key that the cipher accepts seals, fewer than 2^64 messages in all, are frames
  -- whose bodies are sealed under its key and under nonces that all differ.
  pub nonces_differ :
      (s : Session) (ps : List Bytes)
      → wire.accepts s.send ≡ true
      → s.sent + length ps < 2 ^ 64
      → (ns : List Bytes) × AllDiffer ns × SealedUnder s.send ns ps (sealed_all s ps)
  nonces_differ s ps ok room =
      (numbered s.sent ps, numbered_differ s.sent ps room, sealed_numbered s ps ok room)
