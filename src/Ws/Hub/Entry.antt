-- ===== src/Ws/Hub/Entry.antt =====
-- Who is let in: a client is paired only on a proof of the pairing key.
use leave_safe.Prelude.{
  ℕ, Bool, true, false, not, Option, none, some, ◌≡◌, refl, sym, ap, ◌∙◌, [], Bytes, bytes_eq,
  bytes_eq→eq, ◌⊎◌, ◌≤◌, if◌then◌else◌, arith, Option-cases, Bool-cases, inl, inr, length,
}
use leave_safe.Auth.Manager.{Manager, AuthError, Reply, authenticate}
use leave_safe.Auth.Key.{strip_dashes}
use leave_safe.Auth.Methods.Lifetime.{authenticate_sound}
use leave_safe.Ws.Message.{ClientMessage}
use leave_safe.Ws.Handshake.{derived, proof_holds, valid_nonce, role_client}
use leave_safe.Ws.Hub.{Env, Moment, Hub, Conn, emit, log_event, send_to}
use leave_safe.Ws.Hub.Update.{set_auth, log_auth_failure}
use leave_safe.Ws.Hub.Pairing.{
  refuse_old_app, auth_key, paired, judge_proof, handle_auth, enc_cha_cha, no_proof, no_seal,
}

refuse_old_app_conns :
    (i j : ℕ) (why : Bytes) (h : Hub) → (refuse_old_app i why h).conns j ≡ h.conns j
unfolding refuse_old_app send_to emit log_event
refuse_old_app_conns i j why h = refl

empty_key : (key want : Bytes) → length want ≡ 16 → key ≡ [] → strip_dashes key ≡ want → 1 ≤ 0
unfolding strip_dashes
empty_key key want k e f =
    let none_left : length want ≡ 0 =
      ap length (sym f) ∙ ap (λ (x : Bytes). length (strip_dashes x)) e in
    omega (arith, k, none_left)

still_out :
    (i : ℕ) (after h : Hub)
    → after.conns i ≡ h.conns i
    → (h.conns i).authenticated ≡ false
    → (after.conns i).authenticated ≡ true
    → 1 ≤ 0
still_out i after h e u w = absurd cc

module _ (env : Env) where
  -- An attempt that fails leaves every connection as it is.
  paired_failed :
      (i j : ℕ) (msg : ClientMessage) (key : Bytes) (r : Reply) (err : AuthError) (h : Hub)
      → r.error ≡ some err
      → (paired env i msg key r h).conns j ≡ h.conns j
  unfolding paired send_to emit log_auth_failure log_event
  paired_failed i j msg key r err h e = rw (e, paired) (ground arith)

  -- The key that is judged is the pairing key only where the proof holds.
  auth_key_cases :
      (h : Hub) (c : Conn) (msg : ClientMessage)
      → bytes_eq (auth_key env h c msg) [] ≡ false
      → (valid_nonce msg.nonce ≡ true)
        × (proof_holds env.proofs
              (derived env.proofs h.auth.pairing_key h.auth.pairing_salt)
              role_client
              c.server_nonce
              msg.nonce
              msg.encrypt
              msg.proof
            ≡ true)
  unfolding auth_key
  auth_key_cases h c msg e = ground (arith, e)

  refused_or_judged :
      (b c : Bool) (x y z : Hub) (i : ℕ) (k : Conn)
      → x.conns i ≡ k
      → y.conns i ≡ k
      → ((if b then x else if not c then y else z).conns i ≡ k)
        ⊎ ((c ≡ true) × ((if b then x else if not c then y else z) ≡ z))
  refused_or_judged true c x y z i k e f = inl e
  refused_or_judged false true x y z i k e f = inr (refl, refl)
  refused_or_judged false false x y z i k e f = inl f

  handle_auth_cases :
      (t : Moment) (i : ℕ) (msg : ClientMessage) (h : Hub)
      → ((handle_auth env t i msg h).conns i ≡ h.conns i)
        ⊎ ((bytes_eq msg.encrypt enc_cha_cha ≡ true)
            × (handle_auth env t i msg h ≡ judge_proof env t i msg h))
  unfolding handle_auth
  handle_auth_cases t i msg h =
      refused_or_judged (bytes_eq msg.proof []) (bytes_eq msg.encrypt enc_cha_cha)
        (refuse_old_app i no_proof h) (refuse_old_app i no_seal h) (judge_proof env t i msg h) i
        (h.conns i) (refuse_old_app_conns i i no_proof h) (refuse_old_app_conns i i no_seal h)

  -- The refused key opens nothing.
  key_offered :
      (m : Manager) (addr key : Bytes) (now : ℕ) (random : Option Bytes)
      → length m.pairing_key ≡ 16
      → (authenticate m addr key now random).1.error ≡ none
      → bytes_eq key [] ≡ false
  key_offered m addr key now random k e =
      let (_, right, _, _) = authenticate_sound m addr key now now random e in
      elim (Bool-cases (bytes_eq key [])) [
        | inr f ↦ f
        | inl f ↦ absurd (omega (arith, empty_key key m.pairing_key k (bytes_eq→eq key [] f) right))
      ]

  judge_proof_cases :
      (t : Moment) (i : ℕ) (msg : ClientMessage) (h : Hub)
      → length h.auth.pairing_key ≡ 16
      → ((judge_proof env t i msg h).conns i ≡ h.conns i)
        ⊎ (bytes_eq (auth_key env h (h.conns i) msg) [] ≡ false)
  unfolding judge_proof set_auth
  judge_proof_cases t i msg h k =
      let c = h.conns i in
      let key = auth_key env h c msg in
      let (m, r) = authenticate h.auth c.remote_addr key t.now t.random in
      let stretched = derived env.proofs h.auth.pairing_key h.auth.pairing_salt in
      elim (Option-cases r.error) [
        | inl e ↦ inr (key_offered h.auth c.remote_addr key t.now t.random k e)
        | inr (err, e) ↦ inl (paired_failed i i msg stretched r err (set_auth m h) e)
      ]

  -- Where the pairing key has sixteen digits: a connection that was not paired is paired by an auth
  -- message only if the message asks for the one construction that seals and carries a nonce of the
  -- right form and a proof that holds, under the stretched key, for the challenge of this connection.
  pub handle_auth_sound :
      (t : Moment) (i : ℕ) (msg : ClientMessage) (h : Hub)
      → length h.auth.pairing_key ≡ 16
      → (h.conns i).authenticated ≡ false
      → ((handle_auth env t i msg h).conns i).authenticated ≡ true
      → (msg.encrypt ≡ enc_cha_cha)
        × (valid_nonce msg.nonce ≡ true)
        × (proof_holds env.proofs
              (derived env.proofs h.auth.pairing_key h.auth.pairing_salt)
              role_client
              (h.conns i).server_nonce
              msg.nonce
              msg.encrypt
              msg.proof
            ≡ true)
  handle_auth_sound t i msg h k u w =
      let after : Hub = handle_auth env t i msg h in
      elim (handle_auth_cases t i msg h) [
        | inl e ↦ absurd (omega (arith, still_out i after h e u w))
        | inr (sealed, e) ↦ elim (judge_proof_cases t i msg h k) [
          | inl f ↦
              absurd (omega (arith, still_out i after h (ap (λ (x : Hub). x.conns i) e ∙ f) u w))
          | inr f ↦
              let (nonce, holds) = auth_key_cases h (h.conns i) msg f in
              (bytes_eq→eq msg.encrypt enc_cha_cha sealed, nonce, holds)
        ]
      ]
