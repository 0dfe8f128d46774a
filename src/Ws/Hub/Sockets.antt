-- ===== src/Ws/Hub/Sockets.antt =====
-- The part of internal/ws/hub.go that opens sockets and lets clients go.
use leave_safe.Prelude.{
  ℕ, true, false, none, ◌&&◌, not, List, [], ◌∷◌, Bytes, codes, bytes_eq, ◌==◌, if◌then◌else◌, keep,
  length,
}
use leave_safe.Auth.Manager.{Manager}
use leave_safe.Auth.Methods.{validate_session, remove_session}
use leave_safe.Ws.Handshake.{new_nonce}
use leave_safe.Ws.Pending.{acquire_pending, release_pending}
use leave_safe.Ws.Message.{auth_fail, new_hello}
use leave_safe.Ws.Hub.{
  Hub, Conn, event_disconnect, closed, client_changed, client_removed, gone_check_in,
  all_disconnected, emit, log_event, send_to, set_conn,
}
use leave_safe.Ws.Hub.Update.{set_auth}

-- The slot that `releasePending` gives back.
unfoldable pub release_slot : ℕ → Hub → Hub
unfolding set_conn
release_slot i h =
    let c = h.conns i in
    let (p, s) =
      release_pending h.pending
        (record { remote_addr = c.remote_addr; pending_held = c.pending_held }) in
    set_conn i (record c { pending_held = s.pending_held }) (record h { pending = p })

-- The table without a client.
unfoldable pub drop_client : ℕ → List ℕ → List ℕ
drop_client i cs = keep (λ j. not (i == j)) cs

-- `removeClient`: deleting a session that has gone changes nothing. The goroutine at its end is an
-- effect, and `gone_check` is what it does.
unfoldable pub remove_client : ℕ → Hub → Hub
unfolding drop_client set_conn emit log_event
remove_client i h =
    let c = h.conns i in
    let cs = drop_client i h.clients in
    let h1 = record h {
      clients = cs;
      auth = if bytes_eq c.token [] then h.auth else remove_session h.auth c.token;
    } in
    let h2 =
      if c.removed
      then h1
      else emit (client_removed i) (set_conn i (record c { removed = true }) h1) in
    let h3 =
      log_event event_disconnect (codes "Client disconnected")
        (emit (client_changed (length cs) h.watch.armed) h2) in
    if h.watch.armed && (length cs == 0)
    then emit (gone_check_in h.disconnect_grace_period) h3
    else h3

-- What runs once the grace period is over.
unfoldable pub gone_check : Hub → Hub
unfolding emit log_event
gone_check h =
    if (length h.clients == 0) && h.watch.armed
    then emit all_disconnected (
        log_event event_disconnect
          (codes "Every phone disconnected while armed; monitoring continues") h)
    else h

-- What a client hears whose session is over.
unfoldable pub farewell : ℕ → Hub → Hub
unfolding send_to log_event emit
farewell i h = emit (closed i) (
    log_event event_disconnect (codes "Session expired")
      (send_to i (auth_fail (codes "session expired, pair again") h.auth.opts.max_attempts) h))

unfoldable pub expire : ℕ → Hub → Hub
unfolding farewell remove_client
expire i h = remove_client i (farewell i h)

-- The clients that `dropExpiredSessions` finds stale: validating drops an expired session.
unfoldable pub stale_clients : ℕ → List ℕ → Hub → Manager → Manager × List ℕ
stale_clients now [] h m = (m, [])
stale_clients now (i ∷ cs) h m =
    let c = h.conns i in
    let (m1, valid) = validate_session m c.token now in
    let (m2, rest) = stale_clients now cs h (if c.authenticated then m1 else m) in
    (m2, if c.authenticated && not valid then i ∷ rest else rest)

unfoldable pub expire_all : List ℕ → Hub → Hub
unfolding expire
expire_all [] h = h
expire_all (i ∷ cs) h = expire_all cs (expire i h)

-- `dropExpiredSessions`.
unfoldable pub drop_expired_sessions : ℕ → Hub → Hub
unfolding stale_clients expire_all set_auth
drop_expired_sessions now h =
    let (m, stale) = stale_clients now h.clients h h.auth in expire_all stale (set_auth m h)

-- `greet`, with the bytes that the random source gives.
unfoldable pub greet : ℕ → Bytes → ℕ → Hub → Hub
unfolding set_conn send_to
greet now random i h =
    let nonce = new_nonce random in
    send_to i (new_hello h.version nonce h.auth.pairing_salt now)
      (set_conn i (record (h.conns i) { server_nonce = nonce }) h)

-- The `Client` that `HandleConnection` makes for a socket.
unfoldable pub new_client : Bytes → Conn
new_client remote_addr = record {
  remote_addr = remote_addr;
  authenticated = false;
  token = [];
  server_nonce = [];
  pending_held = false;
  removed = false;
  socket = record { sealed = none; limiter = none; auth_limiter = none; outgoing = [] };
}

-- How `HandleConnection` begins, on a socket whose address stands under its number: a socket
-- without a slot is refused and closed.
unfoldable pub connect : ℕ → Bytes → ℕ → Hub → Hub
unfolding set_conn send_to emit greet new_client
connect now random i h =
    let c : Conn = new_client (h.conns i).remote_addr in
    let (p, s, given) =
      acquire_pending h.pending
        (record { remote_addr = c.remote_addr; pending_held = c.pending_held }) in
    let h1 = set_conn i (record c { pending_held = s.pending_held }) (record h { pending = p }) in
    if given
    then greet now random i h1
    else emit (closed i)
        (send_to i (auth_fail (codes "the laptop is busy, try again in a moment") 0) h1)

-- How it ends.
unfoldable pub disconnect : ℕ → Hub → Hub
unfolding release_slot remove_client emit
disconnect i h = emit (closed i) (remove_client i (release_slot i h))
