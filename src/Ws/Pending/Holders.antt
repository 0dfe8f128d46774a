-- ===== src/Ws/Pending/Holders.antt =====
-- The counters of internal/ws/pending.go against the list of the addresses that hold a slot.
use leave_safe.Prelude.{
  ℕ, zero, suc, ◌+◌, ◌-◌, ◌<◌, ◌≡◌, refl, ap, ◌∙◌, Bool, true, false, ◌||◌, Option, none, some,
  List, [], ◌∷◌, Bytes, bytes_eq, bytes_eq_iff, ◌⊎◌, leb, if◌then◌else◌, arith, length, Bool-cases,
  dec_lt, inl, inr,
}
use leave_safe.Prelude.Map.{lookup, insert, lookup-insert, lookup-erase}
use leave_safe.Ws.Pending.{PendingConns, or_zero, held, acquire, release}

unfoldable pub occurrences : Bytes → List Bytes → ℕ
occurrences a [] = 0
occurrences a (b ∷ hs) = let rest = occurrences a hs in if bytes_eq b a then rest + 1 else rest

pub remove_one : Bytes → List Bytes → List Bytes
remove_one a [] = []
remove_one a (b ∷ hs) = let rest = remove_one a hs in if bytes_eq b a then hs else b ∷ rest

-- What is asked of the counters: a slot is given while some are left, in all and for the address.
pub admit : ℕ → ℕ → List Bytes → Bytes → List Bytes × Bool
unfolding occurrences
admit limit per hs a =
    if leb limit (length hs) || leb per (occurrences a hs) then (hs, false) else (a ∷ hs, true)

-- The entry of an address that holds `n` slots: none is kept for 0.
unfoldable pub slot : ℕ → Option ℕ
slot zero = none
slot (suc n) = some (suc n)

pub record Represents (p : PendingConns) (hs : List Bytes) : Type 0 where
  pub counted : p.total ≡ length hs
  pub entries : (a : Bytes) → lookup a p.by_addr ≡ slot (occurrences a hs)

or_zero-slot : (n : ℕ) → or_zero (slot n) ≡ n
unfolding or_zero slot
or_zero-slot zero = refl
or_zero-slot (suc n) = refl

pub held_lem :
    (p : PendingConns) (hs : List Bytes) (a : Bytes) → Represents p hs → held p a ≡ occurrences a hs
unfolding held
held_lem p hs a r = ap or_zero (r.entries a) ∙ or_zero-slot (occurrences a hs)

slot_positive : (n : ℕ) → 0 < n → slot n ≡ some n
unfolding slot
slot_positive zero h = absurd (omega arith)
slot_positive (suc n) h = refl

pub slot_zero : (n : ℕ) → n ≡ 0 → slot n ≡ none
unfolding slot
slot_zero zero h = refl
slot_zero (suc n) h = absurd (omega arith)

pub acquired :
    (p : PendingConns) (hs : List Bytes) (a : Bytes)
    → Represents p hs
    → Represents
        (record p { total = p.total + 1; by_addr = insert a (held p a + 1) p.by_addr })
        (a ∷ hs)
unfolding occurrences
acquired p hs a r = record {
  counted = omega (arith, r.counted);
  entries = λ b. elim (Bool-cases (bytes_eq a b)) [
    | inl t ↦
        let same : held p a ≡ occurrences b hs =
          held_lem p hs a r ∙ ap (λ c. occurrences c hs) ((bytes_eq_iff a b).0 t) in
        ground (
          arith,
          t,
          lookup-insert a b (held p a + 1) p.by_addr,
          same,
          slot_positive (occurrences b hs + 1) (omega arith),
        )
    | inr f ↦ ground (arith, f, lookup-insert a b (held p a + 1) p.by_addr, r.entries b)
  ];
}

-- A slot is given exactly when the holders leave one, and the counters go on counting them.
pub acquire_refines :
    (p : PendingConns) (hs : List Bytes) (a : Bytes)
    → Represents p hs
    → ((acquire p a).1 ≡ (admit p.limit p.per_addr hs a).1)
      × Represents (acquire p a).0 (admit p.limit p.per_addr hs a).0
unfolding acquire admit
acquire_refines p hs a r =
    let same : (leb p.limit p.total || leb p.per_addr (held p a))
        ≡ (leb p.limit (length hs) || leb p.per_addr (occurrences a hs)) =
      rw (r.counted, held_lem p hs a r) refl in
    elim (Bool-cases (leb p.limit (length hs) || leb p.per_addr (occurrences a hs))) [
      | inl full ↦ rw (same ∙ full, full, acquire, admit) (refl, r)
      | inr room ↦ rw (same ∙ room, room, acquire, admit) (refl, acquired p hs a r)
    ]

pub acquire_cases :
    (p : PendingConns) (a : Bytes)
    → (acquire p a ≡ (p, false))
      ⊎ ((acquire p a
            ≡ (record p { total = p.total + 1; by_addr = insert a (held p a + 1) p.by_addr }, true))
          × (p.total < p.limit)
          × (held p a < p.per_addr))
unfolding acquire
acquire_cases p a = ground arith

pub length-remove_one :
    (a : Bytes) (hs : List Bytes) → 0 < occurrences a hs → length (remove_one a hs) + 1 ≡ length hs
unfolding occurrences remove_one
length-remove_one a [] h = absurd (omega arith)
length-remove_one a (b ∷ hs) h = ground (arith, length-remove_one a hs)

pub occurrences-remove_one :
    (a b : Bytes) (hs : List Bytes)
    → occurrences b (remove_one a hs)
      ≡ (if bytes_eq a b then occurrences b hs - 1 else occurrences b hs)
unfolding occurrences remove_one
occurrences-remove_one a b [] = ground arith
occurrences-remove_one a b (c ∷ hs) =
    ground
      (arith, occurrences-remove_one a b hs, bytes_eq_iff a b, bytes_eq_iff c a, bytes_eq_iff c b)

pub release_refines :
    (p : PendingConns) (hs : List Bytes) (a : Bytes)
    → Represents p hs
    → 0 < occurrences a hs
    → Represents (release p a) (remove_one a hs)
unfolding release
release_refines p hs a r h = record {
  counted = ground (arith, r.counted, length-remove_one a hs h);
  entries = λ b. elim (Bool-cases (bytes_eq a b)) [
    | inl t ↦
        let same : held p a ≡ occurrences b hs =
          held_lem p hs a r ∙ ap (λ c. occurrences c hs) ((bytes_eq_iff a b).0 t) in
        rw (occurrences-remove_one a b hs, t)
          (elim (dec_lt 1 (held p a)) [
            | yes more ↦ ground (
              arith,
              t,
              lookup-insert a b (held p a - 1) p.by_addr,
              same,
              slot_positive (occurrences b hs - 1) (omega (arith, same)),
            )
            | no last ↦ ground (
              arith,
              t,
              lookup-erase a b p.by_addr,
              slot_zero (occurrences b hs - 1) (omega (arith, same)),
            )
          ])
    | inr f ↦
        rw (occurrences-remove_one a b hs, f)
          (ground (
            arith,
            f,
            lookup-insert a b (held p a - 1) p.by_addr,
            lookup-erase a b p.by_addr,
            r.entries b,
          ))
  ];
}

-- The order of the holders does not show in the counters.
pub same_count-Represents :
    (p : PendingConns) (hs gs : List Bytes)
    → Represents p hs
    → length hs ≡ length gs
    → ((a : Bytes) → occurrences a hs ≡ occurrences a gs)
    → Represents p gs
same_count-Represents p hs gs r n e = record {
  counted = r.counted ∙ n;
  entries = λ a. r.entries a ∙ ap slot (e a);
}
