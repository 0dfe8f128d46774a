-- ===== src/Ws/Session/Replay.antt =====
-- A frame that has opened once does not open again.
use leave_safe.Prelude.{
  ℕ, ◌≤◌, ◌≡◌, refl, sym, ap, ◌∙◌, true, false, ◌&&◌, ◌⊎◌, Option, none, some, List, [], ◌∷◌, Bytes,
  bytes_eq, leb, arith, Bool-cases, Option-cases, inl, inr,
}
use leave_safe.Ws.Session.{
  Wire, SealedFrame, Session, OpenError, Opened, sealed_type, opened, failed, out_of_order,
  did_not_open, not_base64, not_sealed, opening, unseal, open_body, open_frame, nonce_for,
  counter_bytes,
}

module _ (wire : Wire) where
  pub unseal_all : Session → List Bytes → Session
  unseal_all s [] = s
  unseal_all s (f ∷ fs) = unseal_all (unseal wire s f).0 fs

  -- A frame is refused and changes nothing, or its number is a new one and is remembered.
  abbrev Outcome : Session → ℕ → Session × Opened → Type 0
  Outcome s seq r =
      ((e : OpenError) × (r ≡ (s, failed e)))
      ⊎ ((text : Bytes) × ((s.seen && leb seq s.received) ≡ false)
          × (r ≡ (record s { received = seq; seen = true }, opened text)))

  open_body-Outcome :
      (s : Session) (seq : ℕ) (body : Bytes) → Outcome s seq (open_body wire s seq body)
  unfolding open_body
  open_body-Outcome s seq body = elim (Bool-cases (s.seen && leb seq s.received)) [
    | inl e ↦ inl (out_of_order seq s.received, rw (e, open_body) refl)
    | inr e ↦ elim (Bool-cases (wire.accepts s.receive)) [
      | inr f ↦ inl (opening, rw (e, f, open_body) refl)
      | inl f ↦
          elim (Option-cases (wire.aead_open s.receive (nonce_for seq) body (counter_bytes seq))) [
            | inl g ↦ inl (did_not_open, rw (e, f, g, open_body) refl)
            | inr (text, g) ↦ inr (text, e, rw (e, f, g, open_body) refl)
          ]
    ]
  ]

  open_frame-Outcome :
      (s : Session) (f : SealedFrame) → Outcome s f.seq (open_frame wire s (some f))
  unfolding open_frame
  open_frame-Outcome s f = elim (Bool-cases (bytes_eq f.kind sealed_type)) [
    | inr e ↦ inl (not_sealed, rw (e, open_frame) refl)
    | inl e ↦ elim (Option-cases (wire.decode64 f.body)) [
      | inl g ↦ inl (not_base64, rw (e, g, open_frame) refl)
      | inr (body, g) ↦ rw (e, g, open_frame) (open_body-Outcome s f.seq body)
    ]
  ]

  unseal-Outcome :
      (s : Session) (frame : Bytes)
      → ((wire.unmarshal frame ≡ none) × (unseal wire s frame ≡ (s, failed not_sealed)))
        ⊎ ((f : SealedFrame) × (wire.unmarshal frame ≡ some f)
            × Outcome s f.seq (unseal wire s frame))
  unfolding unseal open_frame
  unseal-Outcome s frame = elim (Option-cases (wire.unmarshal frame)) [
    | inl e ↦ inl (e, rw (e, open_frame) refl)
    | inr (f, e) ↦ inr (f, e, rw e (open_frame-Outcome s f))
  ]

  -- Every number up to `n` has been used.
  record Past (n : ℕ) (s : Session) : Type 0 where
    seen : s.seen ≡ true
    used : n ≤ s.received

  Outcome-Past :
      (n : ℕ) (s : Session) (seq : ℕ) (r : Session × Opened)
      → Past n s
      → Outcome s seq r
      → Past n r.0
  Outcome-Past n s seq r v (inl (e, h)) = rw h v
  Outcome-Past n s seq r v (inr (text, later, h)) =
      rw h (record { seen = refl; used = ground (arith, v.seen, v.used, later) })

  unseal-Past : (n : ℕ) (s : Session) (frame : Bytes) → Past n s → Past n (unseal wire s frame).0
  unseal-Past n s frame v = elim (unseal-Outcome s frame) [
    | inl (_, h) ↦ rw h v
    | inr (f, _, o) ↦ Outcome-Past n s f.seq (unseal wire s frame) v o
  ]

  unseal_all-Past : (n : ℕ) (s : Session) (fs : List Bytes) → Past n s → Past n (unseal_all s fs)
  unfolding unseal_all
  unseal_all-Past n s [] v = v
  unseal_all-Past n s (f ∷ fs) v = unseal_all-Past n (unseal wire s f).0 fs (unseal-Past n s f v)

  -- A frame that has opened is refused for good and changes nothing, whatever other frames are tried in
  -- between.
  pub unseal_replay :
      (s : Session) (frame : Bytes) (between : List Bytes) {text : Bytes}
      → (unseal wire s frame).1 ≡ opened text
      → let later = unseal_all (unseal wire s frame).0 between in
        (e : OpenError) × (unseal wire later frame ≡ (later, failed e))
  unseal_replay s frame between {text} h = elim (unseal-Outcome s frame) [
    | inl (_, r) ↦ absurd (cc (ap (λ (x : Session × Opened). x.1) r, h))
    | inr (f, read, inl (e, r)) ↦ absurd (cc (ap (λ (x : Session × Opened). x.1) r, h))
    | inr (f, read, inr (t, _, r)) ↦
        let past : Past f.seq (unseal wire s frame).0 =
          rw r (record { seen = refl; used = omega arith }) in
        refused (unseal_all (unseal wire s frame).0 between) f read
          (unseal_all-Past f.seq (unseal wire s frame).0 between past)
  ]
    where
      number : Option SealedFrame → ℕ
      number none = 0
      number (some f) = f.seq

      refused :
          (later : Session) (f : SealedFrame)
          → wire.unmarshal frame ≡ some f
          → Past f.seq later
          → (e : OpenError) × (unseal wire later frame ≡ (later, failed e))
      refused later f read v = elim (unseal-Outcome later frame) [
        | inl (_, r) ↦ (not_sealed, r)
        | inr (g, same, inl (e, r)) ↦ (e, r)
        | inr (g, same, inr (t, new, r)) ↦
            let eq : f.seq ≡ g.seq = ap number (sym read ∙ same) in
            absurd (ground (arith, new, v.seen, v.used, eq))
      ]
