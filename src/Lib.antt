-- ===== src/Lib.antt =====
-- LeaveSafe: a daemon that guards an unattended laptop, with phones paired to it over the local network.
--
--   Auth (internal/auth)            the pairing key and its check digit (Luhn, Key), the identity of
--     a peer (Addr), the failure table and its eviction (Table), the disarm PIN (Pin), and the
--     manager (Manager, Methods), whose methods authenticate, check_pin, validate_session,
--     touch_session, sweep_sessions, remove_session and regenerate are the Go methods Authenticate,
--     CheckPin, ValidateSession, TouchSession, SweepSessions, RemoveSession and Regenerate
--   PairCode (internal/paircode)    the code typed into a phone: encode_parts and decode_parts are
--     Encode and Decode on the four bytes of an address
--   Config (internal/config)        the settings and their defaults, and Validate (Config/Validate)
--   Localization (internal/localization)  normalize is Normalize, by which Validate reads a language
--   Update (internal/update)        check is Check on what the releases endpoint answered, and
--     compare_versions is compareVersions
--   Monitor (internal/monitor)      what the sensors make of readings: the poll loop with its watch
--     (Poll: run and sample are poll.run and stateWatch.sample), the input sensor (Activity: sample is
--     activityWatch.sample), the motion sensor (Motion: moved, session and watch), the alerts
--     (Alerting), and the registry that switches, starts and stops the sensors (Manager)
--   Ws (internal/ws)                the slots of sockets that have not paired (Pending: acquire and
--     release of pendingConns), the token buckets (RateLimit: allow), the sealed session (Session:
--     new_session, seal and unseal are newSession, seal and open), the connection that uses both
--     (Client: send is sendLocked), the messages (Message), the proofs and the cache of stretched
--     keys (Handshake), and the hub (Hub), which all of these serve
--   Ws/Hub (internal/ws/hub.go)     the state, its effects and what goes to every phone (Hub.antt);
--     arm, disarm and the answers to an alarm (Arming); alerts and the test of a sensor (Alerts);
--     what a settings message changes (Settings, Update, Reconfigure); sockets that come, go and
--     expire (Sockets); the auth message (Pairing); the message switch (Handle: handle_message is
--     handleMessage); everything that reaches the hub, as a sequence of steps (Steps). View is the
--     part of the state by which the hub decides whether the machine is watched. Machine is an
--     abstract state machine on views, of which a step of the hub is a run, and Guard is about a machine armed under a PIN
--   Prelude                         tests, lists, text, Go maps and float64 over the native numbers
--
-- A method takes the state it finds, the time that the clock gives and what the random source gives,
-- and returns the state that it leaves with its results; a mutex makes each one a step of its own, so
-- an interleaving is a list of calls (Auth/Methods/History). A handler of the hub, which takes its
-- lock several times, is one step as well, but for dispatchAlert: that it finds the machine armed and
-- that it claims the alarm are two steps, and any other may come between. What leaves the hub (messages, events, saved files,
-- callbacks) is a list of effects in their order. Times and durations are nanoseconds
-- from Go's zero time on. Text is a list of bytes and is ASCII where the code changes its case; in
-- the texts of warnings a character is one number. A Go map is an association list whose order stands
-- for that of an iteration; what is shown holds of every order. Loops are recursions over their data,
-- and the inner loop of encode32 has as fuel the number of bits left, of which each round takes five.
--
-- Parameters: scrypt and SHA-256 (Auth.Pin.Crypto), with what scrypt documents as a hypothesis
-- (IsDigest); JSON, base64, HKDF and ChaCha20-Poly1305 (Ws.Session.Wire), with what they document in
-- IsWire; HMAC and Argon2 (Ws.Handshake.Proofs); url.Parse, the texts of errors, the addresses of
-- the machine and the key of the push service (Ws.Hub.Env); net.ParseIP and To4, as the four bytes
-- that they give. In the hub a stretched key is the derivation itself, which is what its cache
-- answers (Ws/Handshake/Remembered). A float64 of a bucket or of an acceleration is what
-- Prelude/Float says, a number of units of 2^-1074 that every operation rounds; idle times are exact.
-- Not modelled: the location tracker, the drivers of the sensors and
-- of audio, the stored state, the watcher and the ledger of updates, logs, the network and file
-- I/O around these parts, the terminal interface, and the web client.
mod Prelude
pub mod Localization
pub mod Auth
pub mod Config
pub mod PairCode
pub mod Ws
pub mod Monitor
pub mod Update
