-- ===== src/Ws/Hub/Pairing.antt =====
-- The part of internal/ws/hub.go that pairs a client and lets it go. A key is stretched by the
-- derivation itself, which is what the table of the handshake answers with.
use leave_safe.Prelude.{
  ℕ, true, false, ◌&&◌, ◌||◌, not, Option, none, some, List, [], ◌∷◌, Bytes, codes, bytes_eq, ◌==◌,
  if◌then◌else◌, keep, length,
}
use leave_safe.Auth.Manager.{Reply, authenticate}
use leave_safe.Auth.Methods.{remove_session}
use leave_safe.Ws.Handshake.{
  derived, proof_holds, handshake_proof, valid_nonce, role_client, role_server,
}
use leave_safe.Ws.Session.{Session, new_session}
use leave_safe.Ws.Message.{
  ClientMessage, AuthOk, SensorInfo, auth_ok, auth_fail, new_auth_ok, new_alarm_active,
  update_available, UpdatePayload,
}
use leave_safe.Ws.Hub.{
  Env, Moment, Hub, Conn, Alarm, event_auth_fail, event_connect, accepted, client_changed, emit,
  log_event, send_to, set_conn, get_sensor_infos,
}
use leave_safe.Ws.Hub.Update.{set_auth, log_auth_failure}
use leave_safe.Ws.Hub.Sockets.{release_slot}

-- `encChaCha`.
abbrev pub enc_cha_cha : Bytes
enc_cha_cha = codes "chacha20-poly1305"

abbrev pub refused_key : Bytes
refused_key = []

abbrev pub no_proof : Bytes
no_proof = codes "Pairing refused: the app answered the greeting without a proof"

abbrev pub no_seal : Bytes
no_seal = codes "Pairing refused: the app would not seal the connection"

too_old : Bytes
too_old = codes "this app is too old to pair with this machine — update it"

-- The table with a client.
unfoldable pub add_client : ℕ → List ℕ → List ℕ
add_client i cs = i ∷ keep (λ j. not (i == j)) cs

unfoldable pub send_alarm : ℕ → Alarm → Hub → Hub
unfolding send_to
send_alarm i a h = if a.active then send_to i (new_alarm_active a.sensor a.message a.at) h else h

unfoldable pub send_update : ℕ → Option UpdatePayload → Hub → Hub
unfolding send_to
send_update i none h = h
send_update i (some u) h = send_to i (update_available u) h

unfoldable pub refuse_old_app : ℕ → Bytes → Hub → Hub
unfolding send_to log_event too_old
refuse_old_app i why h =
    log_event event_auth_fail why (send_to i (auth_fail too_old h.auth.opts.max_attempts) h)

unfoldable pub welcome : ℕ → AuthOk → Session → Hub → Hub
unfolding emit send_alarm send_update log_event
welcome i ok sealed h = log_event event_connect (codes "Client authenticated") (
    send_update i h.update_available
      (send_alarm i h.watch.alarm (emit (accepted i (auth_ok ok) sealed) h)))

module _ (env : Env) where
  -- `authKey`.
  unfoldable pub auth_key : Hub → Conn → ClientMessage → Bytes
  auth_key h c msg =
      if bytes_eq c.server_nonce [] || not (valid_nonce msg.nonce)
      then refused_key
      else if proof_holds env.proofs (derived env.proofs h.auth.pairing_key h.auth.pairing_salt)
          role_client c.server_nonce msg.nonce msg.encrypt msg.proof
      then h.auth.pairing_key
      else refused_key

  -- The state of `handleAuth` once the key is accepted: the session that it replaces is given back,
  -- the slot is released and the client is in the table.
  unfoldable pub enrol : ℕ → Bytes → Hub → Hub
  unfolding set_auth set_conn release_slot add_client emit
  enrol i token h =
      let c = h.conns i in
      let h1 =
        if not (bytes_eq c.token []) && not (bytes_eq c.token token)
        then set_auth (remove_session h.auth c.token) h
        else h in
      let h2 = release_slot i (set_conn i (record c { authenticated = true; token = token }) h1) in
      let cs = add_client i h2.clients in
      emit (client_changed (length cs) h2.watch.armed) (record h2 { clients = cs })

  -- The acceptance that answers a message.
  unfoldable pub acceptance : ℕ → Bytes → ClientMessage → Bytes → List SensorInfo → Hub → AuthOk
  acceptance i token msg key infos h =
      record (new_auth_ok token infos h.version h.watch.armed h.watch.armed_at) {
        encrypt = enc_cha_cha;
        proof =
            handshake_proof env.proofs key role_server (h.conns i).server_nonce msg.nonce
              enc_cha_cha;
        push_key = env.push_key;
        addresses = env.addresses;
      }

  -- It goes out, sealed from the next message on, and what the phone has missed follows it.
  unfoldable pub accept : ℕ → Bytes → ClientMessage → Bytes → Session → Hub → Hub
  unfolding get_sensor_infos acceptance welcome
  accept i token msg key sealed h =
      let (h1, infos) = get_sensor_infos h in
      welcome i (acceptance i token msg key infos h1) sealed h1

  -- A session that cannot be derived is a pairing that fails.
  unfoldable pub unseal_failed : ℕ → Bytes → Hub → Hub
  unfolding send_to set_auth set_conn
  unseal_failed i token h =
      let h1 =
        send_to i
          (auth_fail (codes "this machine could not seal the connection") h.auth.opts.max_attempts)
          h in
      set_conn i (record (h1.conns i) { authenticated = false; token = [] })
        (set_auth (remove_session h1.auth token) h1)

  unfoldable pub seal_or_fail : ℕ → Bytes → ClientMessage → Bytes → Option Session → Hub → Hub
  unfolding accept unseal_failed
  seal_or_fail i token msg key none h = unseal_failed i token h
  seal_or_fail i token msg key (some sealed) h = accept i token msg key sealed h

  -- `handleAuth` behind `Authenticate`.
  unfoldable pub paired : ℕ → ClientMessage → Bytes → Reply → Hub → Hub
  unfolding enrol seal_or_fail send_to log_auth_failure
  paired i msg key r h = elim r.error [
    | some err ↦
        log_auth_failure env event_auth_fail (codes "Pairing refused: ") err
          (send_to i (auth_fail (env.error_text err) r.remaining) h)
    | none ↦
        let h1 = enrol i r.token h in
        seal_or_fail i r.token msg key
          (new_session env.wire key (h1.conns i).server_nonce msg.nonce true) h1
  ]

  -- `handleAuth`, for an app that offers a proof and will seal.
  unfoldable pub judge_proof : Moment → ℕ → ClientMessage → Hub → Hub
  unfolding auth_key paired set_auth
  judge_proof t i msg h =
      let c = h.conns i in
      let (m, r) = authenticate h.auth c.remote_addr (auth_key h c msg) t.now t.random in
      paired i msg (derived env.proofs h.auth.pairing_key h.auth.pairing_salt) r (set_auth m h)

  -- `handleAuth`.
  unfoldable pub handle_auth : Moment → ℕ → ClientMessage → Hub → Hub
  unfolding refuse_old_app judge_proof
  handle_auth t i msg h =
      if bytes_eq msg.proof []
      then refuse_old_app i no_proof h
      else if not (bytes_eq msg.encrypt enc_cha_cha)
      then refuse_old_app i no_seal h
      else judge_proof t i msg h
