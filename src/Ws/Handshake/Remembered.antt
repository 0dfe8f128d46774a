-- ===== src/Ws/Handshake/Remembered.antt =====
-- The table of stretched keys answers as the derivation would, whatever was asked before.
use leave_safe.Prelude.{
  false, some, ◌≡◌, inl, inr, refl, sym, ap, ◌∙◌, List, [], ◌∷◌, map, Bytes, bytes_eq, bytes_eq→eq,
  if◌then◌else◌, arith, Bool-cases, Option-cases, All,
}
use leave_safe.Prelude.Map.{lookup, lookup-insert, lookup-erase}
use leave_safe.Auth.Addr.{has_byte}
use leave_safe.Ws.Handshake.{
  Proofs, Stretched, derived, remember, name_of, drop_oldest, stretched_key,
}

-- A key without the separator and its salt can be read off the name.
name_injective :
    (k1 s1 k2 s2 : Bytes)
    → has_byte b'|' k1 ≡ false
    → has_byte b'|' k2 ≡ false
    → name_of k1 s1 ≡ name_of k2 s2
    → (k1 ≡ k2) × (s1 ≡ s2)
unfolding has_byte
name_injective [] s1 [] s2 a b e = ground (arith, e)
name_injective [] s1 (c ∷ k2) s2 a b e = ground (arith, e)
name_injective (c ∷ k1) s1 [] s2 a b e = ground (arith, e)
name_injective (c ∷ k1) s1 (d ∷ k2) s2 a b e = ground (arith, e, name_injective k1 s1 k2 s2)

module _ (proofs : Proofs) where
  -- What is remembered for a key is its derivation.
  pub IsFaithful : Stretched → Type 0
  IsFaithful t =
      (key salt got : Bytes)
      → has_byte b'|' key ≡ false
      → lookup (name_of key salt) t.seen ≡ some got
      → got ≡ derived proofs key salt

  drop_oldest-IsFaithful :
      (order : List Bytes) (t : Stretched) → IsFaithful t → IsFaithful (drop_oldest order t)
  unfolding IsFaithful drop_oldest
  drop_oldest-IsFaithful [] t f key salt got h e = f key salt got h e
  drop_oldest-IsFaithful (oldest ∷ rest) t f key salt got h e =
      ground (arith, lookup-erase oldest (name_of key salt) t.seen, f key salt got h)

  remember-IsFaithful :
      (key salt : Bytes) (t : Stretched)
      → has_byte b'|' key ≡ false
      → IsFaithful t
      → IsFaithful (remember (name_of key salt) (derived proofs key salt) t)
  unfolding IsFaithful remember
  remember-IsFaithful key salt t k f key2 salt2 got h e =
      let t1 : Stretched = drop_oldest t.order t in
      let old = drop_oldest-IsFaithful t.order t f key2 salt2 got h in
      let at = name_of key salt in
      let at2 = name_of key2 salt2 in
      let found = lookup-insert at at2 (derived proofs key salt) t1.seen in
      elim (Bool-cases (bytes_eq at at2)) [
        | inl same ↦
            let both = name_injective key salt key2 salt2 k h (bytes_eq→eq at at2 same) in cc
        | inr other ↦ old (
            sym (
              found
              ∙ ap (λ b. if b then some (derived proofs key salt) else lookup at2 t1.seen) other)
            ∙ e)
      ]

  answer-IsFaithful :
      (key salt : Bytes) (t : Stretched)
      → has_byte b'|' key ≡ false
      → IsFaithful t
      → IsFaithful (stretched_key proofs key salt t).0
        × ((stretched_key proofs key salt t).1 ≡ derived proofs key salt)
  unfolding stretched_key IsFaithful
  answer-IsFaithful key salt t k f = elim (Option-cases (lookup (name_of key salt) t.seen)) [
    | inl e ↦ rw (e, stretched_key) (remember-IsFaithful key salt t k f, refl)
    | inr (got, e) ↦ rw (e, stretched_key) (f, f key salt got k e)
  ]

  -- The keys asked for in turn, each under a salt, and the answers to them.
  pub ask_all : List (Bytes × Bytes) → Stretched → Stretched × List Bytes
  ask_all [] t = (t, [])
  ask_all ((key, salt) ∷ asked) t =
      let (t1, got) = stretched_key proofs key salt t in
      let (t2, rest) = ask_all asked t1 in (t2, got ∷ rest)

  unfoldable pub HasNoBar : Bytes × Bytes → Type 0
  HasNoBar (key, salt) = has_byte b'|' key ≡ false

  answers :
      (asked : List (Bytes × Bytes)) (t : Stretched)
      → All HasNoBar asked
      → IsFaithful t
      → (ask_all asked t).1 ≡ map (λ (a : Bytes × Bytes). derived proofs a.0 a.1) asked
  unfolding ask_all HasNoBar
  answers [] t a f = refl
  answers ((key, salt) ∷ asked) t a f =
      let one = answer-IsFaithful key salt t a.0 f in
      let rest = answers asked (stretched_key proofs key salt t).0 a.1 one.0 in
      rw (one.1, rest) refl

  nothing-IsFaithful : IsFaithful (record { seen = []; order = [] })
  unfolding IsFaithful lookup
  nothing-IsFaithful key salt got h e = absurd cc

  -- From an empty table on, and for pairing keys that hold no separator, every answer of the cache
  -- of stretched keys is the one that the derivation gives, whatever was asked before and whatever
  -- has been dropped.
  pub ask_all-derived :
      (asked : List (Bytes × Bytes))
      → All HasNoBar asked
      → (ask_all asked (record { seen = []; order = [] })).1
        ≡ map (λ (a : Bytes × Bytes). derived proofs a.0 a.1) asked
  ask_all-derived asked a = answers asked (record { seen = []; order = [] }) a nothing-IsFaithful
