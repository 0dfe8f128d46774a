-- ===== src/Ws/Session.antt =====
-- internal/ws/session.go: the sealed connection behind a pairing. What it takes from Go's library
-- and from golang.org/x/crypto is a parameter.
pub mod Delivery
pub mod Nonces
pub mod Replay
use leave_safe.Prelude.{
  ℕ, zero, suc, ◌+◌, ◌/◌, ◌%◌, ◌^◌, Bool, true, false, ◌&&◌, ◌||◌, not, Option, none, some, List,
  [], ◌∷◌, ◌++◌, Bytes, codes, bytes_eq, leb, if◌then◌else◌,
}

abbrev pub sealed_type : Bytes
sealed_type = codes "sealed"

abbrev pub info_to_app : Bytes
info_to_app = codes "leavesafe/v2 session server-to-app"

abbrev pub info_to_daemon : Bytes
info_to_daemon = codes "leavesafe/v2 session app-to-server"

-- `body` is the text in base64.
pub record SealedFrame : Type 0 where
  pub kind : Bytes
  pub seq : ℕ
  pub body : Bytes

-- JSON, base64, HKDF with SHA-256 for a key of 32 bytes, and ChaCha20-Poly1305: `accepts` says for
-- which keys `New` makes one, and seal and open take the key, the nonce, the text and the
-- additional data.
pub record Wire : Type 0 where
  pub marshal : SealedFrame → Bytes
  pub unmarshal : Bytes → Option SealedFrame
  pub encode64 : Bytes → Bytes
  pub decode64 : Bytes → Option Bytes
  pub hkdf : Bytes → Bytes → Bytes → Option Bytes
  pub accepts : Bytes → Bool
  pub aead_seal : Bytes → Bytes → Bytes → Bytes → Bytes
  pub aead_open : Bytes → Bytes → Bytes → Bytes → Option Bytes

pub record Session : Type 0 where
  pub send : Bytes
  pub receive : Bytes
  pub sent : ℕ
  pub received : ℕ
  pub seen : Bool

pub data OpenError : Type 0 where
  not_sealed : OpenError
  not_base64 : OpenError
  out_of_order : ℕ → ℕ → OpenError
  opening : OpenError
  did_not_open : OpenError

pub data Opened : Type 0 where
  opened : Bytes → Opened
  failed : OpenError → Opened

-- `binary.BigEndian.PutUint64`.
pub counter_bytes : ℕ → Bytes
counter_bytes n =
    n / 2 ^ 56 % 256
    ∷ n / 2 ^ 48 % 256
    ∷ n / 2 ^ 40 % 256
    ∷ n / 2 ^ 32 % 256
    ∷ n / 2 ^ 24 % 256
    ∷ n / 2 ^ 16 % 256
    ∷ n / 2 ^ 8 % 256
    ∷ n % 256
    ∷ []

pub nonce_for : ℕ → Bytes
unfolding counter_bytes
nonce_for seq = 0 ∷ 0 ∷ 0 ∷ 0 ∷ counter_bytes seq

unfoldable pub fresh_session : Bytes → Bytes → Session
fresh_session send receive = record {
  send = send;
  receive = receive;
  sent = 0;
  received = 0;
  seen = false;
}

-- The two keys that are derived, each of which may fail.
unfoldable pub with_keys : Bool → Option Bytes → Option Bytes → Option Session
unfolding fresh_session
with_keys true (some to_app) (some to_daemon) = some (fresh_session to_app to_daemon)
with_keys false (some to_app) (some to_daemon) = some (fresh_session to_daemon to_app)
with_keys _ _ _ = none

module _ (wire : Wire) where
  -- `newSession`.
  unfoldable pub new_session : Bytes → Bytes → Bytes → Bool → Option Session
  unfolding with_keys
  new_session key server_nonce client_nonce for_server =
      let salt = server_nonce ++ client_nonce in
      if bytes_eq key [] || (bytes_eq server_nonce [] || bytes_eq client_nonce [])
      then none
      else with_keys for_server (wire.hkdf key salt info_to_app) (wire.hkdf key salt info_to_daemon)

  abbrev pub frame_for : Session → Bytes → SealedFrame
  frame_for s plaintext = record {
    kind = sealed_type;
    seq = s.sent;
    body =
        wire.encode64 (wire.aead_seal s.send (nonce_for s.sent) plaintext (counter_bytes s.sent));
  }

  -- `seal`: the counter is a `uint64`.
  pub seal : Session → Bytes → Session × Option Bytes
  seal s plaintext =
      if wire.accepts s.send
      then (record s { sent = (s.sent + 1) % 2 ^ 64 }, some (wire.marshal (frame_for s plaintext)))
      else (s, none)

  -- `open`, behind the decoding of the frame and of its body.
  unfoldable pub open_body : Session → ℕ → Bytes → Session × Opened
  open_body s seq body =
      if s.seen && leb seq s.received
      then (s, failed (out_of_order seq s.received))
      else if wire.accepts s.receive
      then elim (wire.aead_open s.receive (nonce_for seq) body (counter_bytes seq)) [
        | none ↦ (s, failed did_not_open)
        | some plaintext ↦ (record s { received = seq; seen = true }, opened plaintext)
      ]
      else (s, failed opening)

  unfoldable pub open_frame : Session → Option SealedFrame → Session × Opened
  unfolding open_body
  open_frame s none = (s, failed not_sealed)
  open_frame s (some f) =
      if bytes_eq f.kind sealed_type
      then elim (wire.decode64 f.body) [
        | none ↦ (s, failed not_base64)
        | some body ↦ open_body s f.seq body
      ]
      else (s, failed not_sealed)

  -- `open`.
  unfoldable pub unseal : Session → Bytes → Session × Opened
  unfolding open_frame
  unseal s frame = open_frame s (wire.unmarshal frame)
