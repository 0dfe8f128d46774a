-- ===== src/Ws/Client/Sealing.antt =====
-- What goes out on a connection that has agreed to seal.
use leave_safe.Prelude.{
  ◌+◌, ◌^◌, ◌<◌, ◌≡◌, refl, ap, ◌∙◌, true, none, some, List, [], ◌∷◌, ◌++◌, append_assoc,
  append-nil, sym, Bytes, arith, length,
}
use leave_safe.Ws.Session.{Wire, Session, Opened, opened, unseal, frame_for}
use leave_safe.Ws.Session.Delivery.{IsWire, InStep, unseal-seal, sealed}
use leave_safe.Ws.Client.{Client, write_sealed, send, accept_and_seal}

module _ (wire : Wire) where
  pub send_all : Client → List Bytes → Client
  send_all c [] = c
  send_all c (m ∷ ms) = send_all (send wire c (some m)) ms

  -- What the other end reads from frames.
  pub reads : Session → List Bytes → List Opened
  reads b [] = []
  reads b (f ∷ fs) = (unseal wire b f).1 ∷ reads (unseal wire b f).0 fs

pub opened_all : List Bytes → List Opened
opened_all [] = []
opened_all (m ∷ ms) = opened m ∷ opened_all ms

module _ (wire : Wire) (law : IsWire wire) where
  send_sealed :
      (c : Client) (s : Session) (m : Bytes)
      → c.sealed ≡ some s
      → wire.accepts s.send ≡ true
      → s.sent + 1 < 2 ^ 64
      → send wire c (some m) ≡ record c {
        sealed = some (record s { sent = s.sent + 1 });
        outgoing = c.outgoing ++ wire.marshal (frame_for wire s m) ∷ [];
      }
  unfolding send write_sealed
  send_sealed c s m h ok room =
      let (state, frame) = sealed wire law s m ok room in
      rw (h, send) (rw (frame, state, write_sealed) refl)

  send_all-reads :
      (c : Client) (s b : Session) (ms : List Bytes)
      → c.sealed ≡ some s
      → InStep s b
      → wire.accepts s.send ≡ true
      → s.sent + length ms < 2 ^ 64
      → (frames : List Bytes) × ((send_all wire c ms).outgoing ≡ c.outgoing ++ frames)
        × (reads wire b frames ≡ opened_all ms)
  unfolding send_all reads opened_all
  send_all-reads c s b [] h v ok room = ([], sym (append-nil c.outgoing), refl)
  send_all-reads c s b (m ∷ ms) h v ok room =
      let frame = wire.marshal (frame_for wire s m) in
      let s' : Session = record s { sent = s.sent + 1 } in
      let b' : Session = record b { received = s.sent; seen = true } in
      let c' : Client = record c { sealed = some s'; outgoing = c.outgoing ++ frame ∷ [] } in
      let reading = unseal-seal wire law s b m v ok (omega (arith, room)) in
      let (frames, out, read) =
        send_all-reads c' s' b' ms refl
          (record { same_key = v.same_key; behind = λ h'. omega arith }) ok (omega (arith, room)) in
      (
        frame ∷ frames,
        ap (λ (x : Client). (send_all wire x ms).outgoing)
              (send_sealed c s m h ok (omega (arith, room)))
            ∙ out
            ∙ append_assoc c.outgoing (frame ∷ []) frames,
        rw reading (ap (λ r. opened m ∷ r) read),
      )

-- On a connection in the clear, the acceptance goes out as it is. Everything that is sent behind it
-- goes out as frames, which the other end of the session reads as the messages that were sent, in
-- their order and with none left out.
pub accept_and_seal-reads :
    (wire : Wire) (c : Client) (accepted : Bytes) (s b : Session) (ms : List Bytes)
    → IsWire wire
    → c.sealed ≡ none
    → InStep s b
    → wire.accepts s.send ≡ true
    → s.sent + length ms < 2 ^ 64
    → (frames : List Bytes) × ((send_all wire
          (accept_and_seal wire c (some accepted) s)
          ms).outgoing
        ≡ c.outgoing ++ accepted ∷ frames)
      × (reads wire b frames ≡ opened_all ms)
unfolding accept_and_seal send
accept_and_seal-reads wire c accepted s b ms law clear v ok room =
    let c' : Client = record c { sealed = some s; outgoing = c.outgoing ++ accepted ∷ [] } in
    let plain : record (send wire c (some accepted)) { sealed = some s } ≡ c' =
      rw (clear, send) refl in
    let (frames, out, read) = send_all-reads wire law c' s b ms refl v ok room in
    (
      frames,
      ap (λ (x : Client). (send_all wire x ms).outgoing) plain
          ∙ out
          ∙ append_assoc c.outgoing (accepted ∷ []) frames,
      read,
    )
