-- ===== src/Ws/Hub/View/Clients.antt =====
-- Pairing, greeting and letting go of a client change nothing of what the hub decides by.
use leave_safe.Prelude.{
  ℕ, Bool, true, false, not, Option, none, some, ◌≡◌, refl, ◌∙◌, List, [], ◌∷◌, Bytes, codes,
  bytes_eq, if◌then◌else◌, arith, Option-cases, inl, inr,
}
use leave_safe.Auth.Manager.{AuthError, Reply, authenticate}
use leave_safe.Ws.Message.{ClientMessage, UpdatePayload, AuthOk, auth_ok, auth_fail}
use leave_safe.Ws.Session.{Session, new_session}
use leave_safe.Ws.Handshake.{derived}
use leave_safe.Ws.Hub.{
  Env, Moment, Hub, Alarm, EventType, event_auth_fail, accepted, emit, log_event, send_to, set_conn,
  get_sensor_infos,
}
use leave_safe.Ws.Hub.Update.{set_auth, log_auth_failure}
use leave_safe.Ws.Hub.Pairing.{
  send_alarm, send_update, refuse_old_app, auth_key, enrol, accept, unseal_failed, seal_or_fail,
  paired, handle_auth, welcome, acceptance, judge_proof, enc_cha_cha,
}
use leave_safe.Ws.Hub.Sockets.{
  release_slot, remove_client, gone_check, expire, expire_all, stale_clients, drop_expired_sessions,
  greet, connect, disconnect, farewell,
}
use leave_safe.Ws.Hub.View.{View, view, view-get_sensor_infos}

pub if_view :
    (b : Bool) (x y : Hub) (v : View) → view x ≡ v → view y ≡ v → view (if b then x else y) ≡ v
if_view true x y v e f = e
if_view false x y v e f = f

pub either_view :
    (b : Bool) (x y : Hub × Bool) (v : View)
    → view x.0 ≡ v
    → view y.0 ≡ v
    → view (if b then x else y).0 ≡ v
either_view true x y v e f = e
either_view false x y v e f = f

pub then_view :
    (b : Bool) (x y : Hub) (v : View) → b ≡ true → view x ≡ v → view (if b then x else y) ≡ v
then_view true x y v t e = e
then_view false x y v t e = absurd cc

pub else_view :
    (b : Bool) (x y : Hub) (v : View) → b ≡ false → view y ≡ v → view (if b then x else y) ≡ v
else_view true x y v t e = absurd cc
else_view false x y v t e = e

view-remove_client : (i : ℕ) (h : Hub) → view (remove_client i h) ≡ view h
unfolding remove_client view emit log_event set_conn
view-remove_client i h = ground arith

pub view-gone_check : (h : Hub) → view (gone_check h) ≡ view h
unfolding gone_check view emit log_event
view-gone_check h = ground arith

pub view-expire : (i : ℕ) (h : Hub) → view (expire i h) ≡ view h
unfolding expire farewell view emit log_event send_to
view-expire i h = view-remove_client i (farewell i h)

view-expire_all : (cs : List ℕ) (h : Hub) → view (expire_all cs h) ≡ view h
unfolding expire_all
view-expire_all [] h = refl
view-expire_all (i ∷ cs) h = view-expire_all cs (expire i h) ∙ view-expire i h

pub view-drop_expired_sessions : (now : ℕ) (h : Hub) → view (drop_expired_sessions now h) ≡ view h
unfolding drop_expired_sessions set_auth view
view-drop_expired_sessions now h =
    let (m, stale) = stale_clients now h.clients h h.auth in view-expire_all stale (set_auth m h)

pub view-connect :
    (now : ℕ) (random : Bytes) (i : ℕ) (h : Hub) → view (connect now random i h) ≡ view h
unfolding connect view greet set_conn send_to emit
view-connect now random i h = ground arith

pub view-disconnect : (i : ℕ) (h : Hub) → view (disconnect i h) ≡ view h
unfolding disconnect view release_slot set_conn emit
view-disconnect i h = view-remove_client i (release_slot i h)

view-send_alarm : (i : ℕ) (a : Alarm) (h : Hub) → view (send_alarm i a h) ≡ view h
unfolding send_alarm view send_to emit
view-send_alarm i a h = ground arith

view-send_update : (i : ℕ) (u : Option UpdatePayload) (h : Hub) → view (send_update i u h) ≡ view h
unfolding send_update view send_to emit
view-send_update i none h = refl
view-send_update i (some u) h = refl

view-enrol : (env : Env) (i : ℕ) (token : Bytes) (h : Hub) → view (enrol env i token h) ≡ view h
unfolding enrol view set_auth set_conn release_slot emit
view-enrol env i token h = ground arith

pub view-log_auth_failure :
    (env : Env) (kind : EventType) (prefix : Bytes) (err : AuthError) (h : Hub)
    → view (log_auth_failure env kind prefix err h) ≡ view h
unfolding log_auth_failure view log_event emit
view-log_auth_failure env kind prefix err h = ground arith

view-welcome : (i : ℕ) (ok : AuthOk) (s : Session) (h : Hub) → view (welcome i ok s h) ≡ view h
unfolding welcome view log_event emit
view-welcome i ok s h =
    let h1 : Hub = emit (accepted i (auth_ok ok) s) h in
    view-send_update i h.update_available (send_alarm i h.watch.alarm h1)
    ∙ view-send_alarm i h.watch.alarm h1

view-refuse_old_app : (i : ℕ) (why : Bytes) (h : Hub) → view (refuse_old_app i why h) ≡ view h
unfolding refuse_old_app view send_to emit log_event
view-refuse_old_app i why h = refl

module _ (env : Env) where
  view-accept :
      (i : ℕ) (token : Bytes) (msg : ClientMessage) (key : Bytes) (s : Session) (h : Hub)
      → view (accept env i token msg key s h) ≡ view h
  unfolding accept
  view-accept i token msg key s h =
      let (h1, infos) = get_sensor_infos h in
      view-welcome i (acceptance env i token msg key infos h1) s h1 ∙ view-get_sensor_infos h

  view-seal_or_fail :
      (i : ℕ) (token : Bytes) (msg : ClientMessage) (key : Bytes) (o : Option Session) (h : Hub)
      → view (seal_or_fail env i token msg key o h) ≡ view h
  unfolding seal_or_fail unseal_failed view send_to emit set_conn set_auth
  view-seal_or_fail i token msg key none h = refl
  view-seal_or_fail i token msg key (some s) h = view-accept i token msg key s h

  view-paired :
      (i : ℕ) (msg : ClientMessage) (key : Bytes) (r : Reply) (h : Hub)
      → view (paired env i msg key r h) ≡ view h
  unfolding paired view send_to emit
  view-paired i msg key r h = elim (Option-cases r.error) [
    | inl e ↦
        let h1 : Hub = enrol env i r.token h in
        let sealed = new_session env.wire key (h1.conns i).server_nonce msg.nonce true in
        rw (e, paired) (view-seal_or_fail i r.token msg key sealed h1 ∙ view-enrol env i r.token h)
    | inr (err, e) ↦
        let h1 : Hub = send_to i (auth_fail (env.error_text err) r.remaining) h in
        rw (e, paired)
          (view-log_auth_failure env event_auth_fail (codes "Pairing refused: ") err h1)
  ]

  view-judge_proof :
      (t : Moment) (i : ℕ) (msg : ClientMessage) (h : Hub)
      → view (judge_proof env t i msg h) ≡ view h
  unfolding judge_proof set_auth view
  view-judge_proof t i msg h =
      let c = h.conns i in
      let (m, r) = authenticate h.auth c.remote_addr (auth_key env h c msg) t.now t.random in
      view-paired i msg (derived env.proofs h.auth.pairing_key h.auth.pairing_salt) r (set_auth m h)

  pub view-handle_auth :
      (t : Moment) (i : ℕ) (msg : ClientMessage) (h : Hub)
      → view (handle_auth env t i msg h) ≡ view h
  unfolding handle_auth
  view-handle_auth t i msg h =
      if_view (bytes_eq msg.proof []) _ _ (view h) (view-refuse_old_app i _ h) (
        if_view (not (bytes_eq msg.encrypt enc_cha_cha)) _ _ (view h) (view-refuse_old_app i _ h)
          (view-judge_proof t i msg h))
