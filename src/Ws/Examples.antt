-- ===== src/Ws/Examples.antt =====
-- Runs of internal/ws on small inputs.
use leave_safe.Prelude.{
  ◌≤◌, ◌≡◌, refl, Bool, true, false, Option, none, some, List, [], ◌∷◌, Bytes, codes, arith, length,
  All,
}
use leave_safe.Prelude.Map.{lookup}
use leave_safe.Auth.Policy.{pos}
use leave_safe.Auth.Addr.{has_byte}
use leave_safe.Ws.Handshake.{Proofs, derived}
use leave_safe.Ws.Handshake.Remembered.{HasNoBar, ask_all, ask_all-derived}
use leave_safe.Ws.Pending.{new_pending_conns, held, acquire}
use leave_safe.Ws.Pending.Holders.{Represents, admit, occurrences, slot, acquire_refines}
use leave_safe.Ws.Pending.Sockets.{arrives, gives_back, traffic, holders, pending_bounds}
use leave_safe.Ws.RateLimit.{new_token_bucket, new_auth_bucket}
use leave_safe.Ws.RateLimit.Burst.{passed, at_once, new_buckets_burst}
use leave_safe.Ws.Session.{
  Wire, SealedFrame, Session, OpenError, sealed_type, failed, opened, new_session, with_keys,
  fresh_session, unseal, open_frame, open_body,
}
use leave_safe.Ws.Session.Nonces.{AllDiffer, sealed_all, SealedUnder, nonces_differ}
use leave_safe.Ws.Session.Delivery.{IsWire, InStep, deliver, arrived, deliver-new_session}
use leave_safe.Ws.Client.{Client, accept_and_seal}
use leave_safe.Ws.Client.Sealing.{send_all, reads, opened_all, accept_and_seal-reads}
use leave_safe.Ws.Session.Replay.{unseal_all, unseal_replay}

abbrev phone : Bytes
phone = codes "10.0.0.9:4000"

pending_bounds_example :
    let (p, cs) =
      traffic
        (new_pending_conns 2 1, [])
        (arrives phone ∷ arrives phone ∷ gives_back 0 ∷ gives_back 0 ∷ []) in
    (p.total ≡ length (holders cs))
    × (p.total ≤ 2)
    × (held p (codes "10.0.0.9") ≡ occurrences (codes "10.0.0.9") (holders cs))
    × (held p (codes "10.0.0.9") ≤ 1)
    × (lookup (codes "10.0.0.9") p.by_addr ≡ slot (occurrences (codes "10.0.0.9") (holders cs)))
pending_bounds_example =
    pending_bounds 2 1 (arrives phone ∷ arrives phone ∷ gives_back 0 ∷ gives_back 0 ∷ [])
      (codes "10.0.0.9")

none-Represents : Represents (new_pending_conns 2 1) []
unfolding lookup slot occurrences
none-Represents = record { counted = refl; entries = λ a. refl }

acquire_refines_example :
    ((acquire (new_pending_conns 2 1) phone).1 ≡ (admit 2 1 [] phone).1)
    × Represents (acquire (new_pending_conns 2 1) phone).0 (admit 2 1 [] phone).0
acquire_refines_example = acquire_refines (new_pending_conns 2 1) [] phone none-Represents

new_buckets_burst_example :
    (passed new_token_bucket (at_once 30 9) ≡ 24)
    × (passed (new_auth_bucket (pos 5)) (at_once 30 9) ≡ 8)
new_buckets_burst_example = new_buckets_burst 9 30 5 (omega arith) (omega arith)

read_frame : Bytes → Option SealedFrame
read_frame [] = none
read_frame (n ∷ body) = some (record { kind = sealed_type; seq = n; body = body })

-- A wire without secrets, on which a key is its own label.
abbrev plain : Wire
plain = record {
  marshal = λ f. f.seq ∷ f.body;
  unmarshal = read_frame;
  encode64 = λ s. s;
  decode64 = λ s. some s;
  hkdf = λ key salt info. some info;
  accepts = λ key. true;
  aead_seal = λ key nonce text ad. text;
  aead_open = λ key nonce text ad. some text;
}

plain-IsWire : IsWire plain
unfolding read_frame
plain-IsWire = record {
  unmarshal-marshal = λ n body h. refl;
  decode64-encode64 = λ s. refl;
  aead_open-aead_seal = λ key nonce text ad h. refl;
  hkdf_accepted = λ key salt info h. refl;
}

abbrev daemon : Session
daemon =
    fresh_session (codes "leavesafe/v2 session server-to-app")
      (codes "leavesafe/v2 session app-to-server")

abbrev app : Session
app =
    fresh_session (codes "leavesafe/v2 session app-to-server")
      (codes "leavesafe/v2 session server-to-app")

abbrev alarms : List (Bytes × Bool)
alarms = (codes "armed", true) ∷ (codes "status", false) ∷ (codes "alarm", true) ∷ []

deliver-new_session_example :
    (deliver plain daemon app alarms ≡ opened (codes "armed") ∷ opened (codes "alarm") ∷ [])
    × (deliver plain app daemon [] ≡ [])
unfolding new_session with_keys arrived
deliver-new_session_example =
    deliver-new_session plain (1 ∷ []) (2 ∷ []) (3 ∷ []) alarms [] {daemon = daemon} {app = app}
      plain-IsWire refl refl (omega arith) (omega arith)

nonces_differ_example :
    (ns : List Bytes) × AllDiffer ns
    × SealedUnder plain daemon.send ns
        (codes "a" ∷ codes "b" ∷ [])
        (sealed_all plain daemon (codes "a" ∷ codes "b" ∷ []))
unfolding fresh_session
nonces_differ_example = nonces_differ plain daemon (codes "a" ∷ codes "b" ∷ []) refl (omega arith)

unseal_replay_example :
    let later = unseal_all plain (unseal plain app (0 ∷ codes "hi")).0 ((7 ∷ codes "ho") ∷ []) in
    (e : OpenError) × (unseal plain later (0 ∷ codes "hi") ≡ (later, failed e))
unfolding unseal open_frame open_body read_frame fresh_session
unseal_replay_example =
    unseal_replay plain app (0 ∷ codes "hi") ((7 ∷ codes "ho") ∷ []) {text = codes "hi"} refl

abbrev joined : Client
joined = record { sealed = none; limiter = none; auth_limiter = none; outgoing = [] }

ends-InStep : InStep daemon app
unfolding fresh_session
ends-InStep = record { same_key = refl; behind = λ s. absurd (cc s) }

accept_and_seal-reads_example :
    (frames : List Bytes) × ((send_all plain
        (accept_and_seal plain joined (some (codes "ok")) daemon)
        (codes "a" ∷ codes "b" ∷ [])).outgoing
      ≡ codes "ok" ∷ frames)
    × (reads plain app frames ≡ opened_all (codes "a" ∷ codes "b" ∷ []))
unfolding fresh_session
accept_and_seal-reads_example =
    accept_and_seal-reads plain joined (codes "ok") daemon app (codes "a" ∷ codes "b" ∷ [])
      plain-IsWire refl ends-InStep refl (omega arith)

-- A derivation that leaves the key as it is.
abbrev plain_proofs : Proofs
plain_proofs = record { hmac = λ key text. text; argon2 = λ key salt t m p len. key }

asked_twice-HasNoBar :
    All
      (HasNoBar plain_proofs)
      ((codes "12", codes "ab") ∷ (codes "34", codes "ab") ∷ (codes "12", codes "ab") ∷ [])
unfolding HasNoBar has_byte
asked_twice-HasNoBar = (refl, (refl, (refl, tt)))

ask_all-derived_example :
    (ask_all plain_proofs
      ((codes "12", codes "ab") ∷ (codes "34", codes "ab") ∷ (codes "12", codes "ab") ∷ [])
      (record { seen = []; order = [] })).1
    ≡ codes "12" ∷ codes "34" ∷ codes "12" ∷ []
unfolding derived
ask_all-derived_example =
    ask_all-derived plain_proofs
      ((codes "12", codes "ab") ∷ (codes "34", codes "ab") ∷ (codes "12", codes "ab") ∷ [])
      asked_twice-HasNoBar
