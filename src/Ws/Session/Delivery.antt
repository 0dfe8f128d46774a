-- ===== src/Ws/Session/Delivery.antt =====
-- What one end seals and the other opens.
use leave_safe.Prelude.{
  ℕ, ◌+◌, ◌^◌, ◌<◌, ◌≡◌, refl, ap, ◌∙◌, subst, Bool, true, false, ◌&&◌, ◌||◌, none, some, List, [],
  ◌∷◌, ◌++◌, Bytes, bytes_eq, leb, if◌then◌else◌, arith, length, Bool-cases, Option-cases, inl, inr,
}
use leave_safe.Ws.Session.{
  Wire, SealedFrame, Session, Opened, sealed_type, opened, failed, opening, frame_for, seal, unseal,
  open_body, open_frame, nonce_for, counter_bytes, new_session, with_keys, fresh_session,
  info_to_app, info_to_daemon,
}
use leave_safe.Ws.Session.Nonces.{seal_counts}

-- What the libraries document: a frame that is written is read back, base64 too, a text that is
-- sealed opens under the same key, nonce and additional data, and HKDF derives a key of the length
-- that the cipher takes.
pub record IsWire (wire : Wire) : Type 0 where
  pub unmarshal-marshal :
      (n : ℕ) (body : Bytes)
      → n < 2 ^ 64
      → let f : SealedFrame = record { kind = sealed_type; seq = n; body = wire.encode64 body } in
        wire.unmarshal (wire.marshal f) ≡ some f
  pub decode64-encode64 : (s : Bytes) → wire.decode64 (wire.encode64 s) ≡ some s
  pub aead_open-aead_seal :
      (key nonce text ad : Bytes)
      → wire.accepts key ≡ true
      → wire.aead_open key nonce (wire.aead_seal key nonce text ad) ad ≡ some text
  pub hkdf_accepted :
      (key salt info : Bytes) {derived : Bytes}
      → wire.hkdf key salt info ≡ some derived
      → wire.accepts derived ≡ true

-- The two ends of one direction: the reader has accepted nothing that the writer has not sent.
pub record InStep (a b : Session) : Type 0 where
  pub same_key : a.send ≡ b.receive
  pub behind : b.seen ≡ true → b.received < a.sent

module _ (wire : Wire) where
  -- Messages that one end seals, each of which may be lost on the way, and what the other end reads.
  pub deliver : Session → Session → List (Bytes × Bool) → List Opened
  deliver a b [] = []
  deliver a b ((text, arrives) ∷ ms) =
      let a' = (seal wire a text).0 in
      elim (seal wire a text).1 [
        | none ↦ failed opening ∷ deliver a' b ms
        | some frame ↦
            let rest = deliver a' (unseal wire b frame).0 ms in
            if arrives then (unseal wire b frame).1 ∷ rest else deliver a' b ms
      ]

-- The messages that were not lost.
unfoldable pub arrived : List (Bytes × Bool) → List Opened
arrived [] = []
arrived ((text, arrives) ∷ ms) =
    let rest = arrived ms in if arrives then opened text ∷ rest else rest

module _ (wire : Wire) (law : IsWire wire) where
  pub unseal-seal :
      (a b : Session) (text : Bytes)
      → InStep a b
      → wire.accepts a.send ≡ true
      → a.sent < 2 ^ 64
      → unseal wire b (wire.marshal (frame_for wire a text))
        ≡ (record b { received = a.sent; seen = true }, opened text)
  unfolding unseal open_frame open_body
  unseal-seal a b text v ok room =
      let in_order : (b.seen && leb a.sent b.received) ≡ false = ground (arith, v.behind) in
      let body = wire.aead_seal a.send (nonce_for a.sent) text (counter_bytes a.sent) in
      let reads : wire.accepts b.receive ≡ true =
        subst (λ k. wire.accepts k ≡ true) v.same_key ok in
      let opens : wire.aead_open b.receive (nonce_for a.sent) body (counter_bytes a.sent)
          ≡ some text =
        subst (λ k. wire.aead_open k (nonce_for a.sent) body (counter_bytes a.sent) ≡ some text)
          v.same_key
          (law.aead_open-aead_seal a.send (nonce_for a.sent) text (counter_bytes a.sent) ok) in
      ap (open_frame wire b) (law.unmarshal-marshal a.sent body room)
      ∙ rw (law.decode64-encode64 body, open_frame) (rw (in_order, reads, opens, open_body) refl)

  pub sealed :
      (a : Session) (text : Bytes)
      → wire.accepts a.send ≡ true
      → a.sent + 1 < 2 ^ 64
      → ((seal wire a text).0 ≡ record a { sent = a.sent + 1 })
        × ((seal wire a text).1 ≡ some (wire.marshal (frame_for wire a text)))
  unfolding seal
  sealed a text ok room = (seal_counts wire a text ok room, rw ok refl)

  deliver-arrived :
      (a b : Session) (ms : List (Bytes × Bool))
      → InStep a b
      → wire.accepts a.send ≡ true
      → a.sent + length ms < 2 ^ 64
      → deliver wire a b ms ≡ arrived ms
  unfolding deliver arrived
  deliver-arrived a b [] v ok room = refl
  deliver-arrived a b ((text, true) ∷ ms) v ok room =
      let (state, frame) = sealed a text ok (omega (arith, room)) in
      let reads = unseal-seal a b text v ok (omega (arith, room)) in
      rw (frame, deliver)
        (rw (state, reads, deliver)
          (ap (λ r. opened text ∷ r)
            (deliver-arrived (record a { sent = a.sent + 1 })
              (record b { received = a.sent; seen = true }) ms
              (record { same_key = v.same_key; behind = λ s. omega arith }) ok
              (omega (arith, room)))))
  deliver-arrived a b ((text, false) ∷ ms) v ok room =
      let (state, frame) = sealed a text ok (omega (arith, room)) in
      rw (frame, deliver)
        (rw (state, deliver)
          (deliver-arrived (record a { sent = a.sent + 1 }) b ms
            (record { same_key = v.same_key; behind = λ s. omega (arith, v.behind s) }) ok
            (omega (arith, room))))

-- Two sessions that nothing has been sent on, each of which reads what the other seals.
abbrev AreEnds : Wire → Session → Session → Type 0
AreEnds wire daemon app =
    InStep daemon app
    × InStep app daemon
    × (wire.accepts daemon.send ≡ true)
    × (wire.accepts app.send ≡ true)
    × (daemon.sent ≡ 0)
    × (app.sent ≡ 0)

fresh-AreEnds :
    (wire : Wire) (k l : Bytes)
    → wire.accepts k ≡ true
    → wire.accepts l ≡ true
    → AreEnds wire (fresh_session k l) (fresh_session l k)
unfolding fresh_session
fresh-AreEnds wire k l h j = (
  record { same_key = refl; behind = λ s. absurd (cc s) },
  record { same_key = refl; behind = λ s. absurd (cc s) },
  h,
  j,
  refl,
  refl,
)

ends :
    (wire : Wire)
    → IsWire wire
    → (key server_nonce client_nonce : Bytes) → {daemon app : Session}
    → new_session wire key server_nonce client_nonce true ≡ some daemon
    → new_session wire key server_nonce client_nonce false ≡ some app
    → AreEnds wire daemon app
unfolding new_session with_keys fresh_session
ends wire law key server_nonce client_nonce {daemon} {app} d a =
    let salt = server_nonce ++ client_nonce in
    elim (Bool-cases (bytes_eq key [] || (bytes_eq server_nonce [] || bytes_eq client_nonce []))) [
      | inl e ↦ absurd (ground arith)
      | inr e ↦ elim (Option-cases (wire.hkdf key salt info_to_app)) [
        | inl f ↦ absurd (ground arith)
        | inr (to_app, f) ↦ elim (Option-cases (wire.hkdf key salt info_to_daemon)) [
          | inl g ↦ absurd (ground arith)
          | inr (to_daemon, g) ↦
              let left : fresh_session to_app to_daemon ≡ daemon = ground arith in
              let right : fresh_session to_daemon to_app ≡ app = ground arith in
              subst (λ x. AreEnds wire x app) left
                (subst (λ y. AreEnds wire (fresh_session to_app to_daemon) y) right
                  (fresh-AreEnds wire to_app to_daemon (law.hkdf_accepted key salt info_to_app f)
                    (law.hkdf_accepted key salt info_to_daemon g)))
        ]
      ]
    ]

-- Two ends that derive a session from the same key and nonces, one as the server and one as the
-- client, read each other: every message of fewer than 2^64 that arrives opens as it was written,
-- in either direction, whichever others are lost.
pub deliver-new_session :
    (wire : Wire) (key server_nonce client_nonce : Bytes) (ms ns : List (Bytes × Bool))
    {daemon app : Session}
    → IsWire wire
    → new_session wire key server_nonce client_nonce true ≡ some daemon
    → new_session wire key server_nonce client_nonce false ≡ some app
    → length ms < 2 ^ 64
    → length ns < 2 ^ 64
    → (deliver wire daemon app ms ≡ arrived ms) × (deliver wire app daemon ns ≡ arrived ns)
deliver-new_session wire key server_nonce client_nonce ms ns {daemon} {app} law d a few few' =
    let (ahead, back, ok, ok', from_zero, from_zero') =
      ends wire law key server_nonce client_nonce {daemon = daemon} {app = app} d a in
    (
      deliver-arrived wire law daemon app ms ahead ok (omega (arith, few, from_zero)),
      deliver-arrived wire law app daemon ns back ok' (omega (arith, few', from_zero')),
    )
