-- ===== src/Prelude/Map.antt =====
-- Go's `map[string]V` as an association list, in an order that stands for that of an iteration.
use Prim.Native.Nat.{◌+◌, ◌≤◌, ◌<◌}
use mathlib.Core.Path.{◌≡◌, refl, subst}
use mathlib.Core.Bool.{Bool, true, false}
use mathlib.Core.Logic.{◌≢◌, ◌⊎◌, inl, inr}
use mathlib.Core.Option.{Option, none, some}
use mathlib.Core.List.{List, [], ◌∷◌}
use native.Mathlib.Omega.{arith}
use leave_safe.Prelude.Tests.{if◌then◌else◌}
use leave_safe.Prelude.Lists.{length, keep, All}
use leave_safe.Prelude.Text.{Bytes, bytes_eq, bytes_eq_iff, bytes_eq_refl}

abbrev pub Map {ℓ} : Type ℓ → Type ℓ
Map V = List (Bytes × V)

module _ {ℓ} {V : Type ℓ} where
  unfoldable pub lookup : Bytes → Map V → Option V
  lookup k [] = none
  lookup k ((j, v) ∷ m) = if bytes_eq j k then some v else lookup k m

  -- `m[k] = v`.
  unfoldable pub insert : Bytes → V → Map V → Map V
  insert k v [] = (k, v) ∷ []
  insert k v ((j, w) ∷ m) = if bytes_eq j k then (k, v) ∷ m else (j, w) ∷ insert k v m

  -- `delete(m, k)`.
  unfoldable pub erase : Bytes → Map V → Map V
  erase k [] = []
  erase k ((j, w) ∷ m) = let rest = erase k m in if bytes_eq j k then rest else (j, w) ∷ rest

  pub lookup-insert :
      (k j : Bytes) (v : V) (m : Map V)
      → lookup j (insert k v m) ≡ (if bytes_eq k j then some v else lookup j m)
  unfolding lookup insert
  lookup-insert k j v [] = refl
  lookup-insert k j v ((i, w) ∷ m) =
      ground (arith, bytes_eq_iff k j, bytes_eq_iff i k, bytes_eq_iff i j, lookup-insert k j v m)

  pub lookup-erase :
      (k j : Bytes) (m : Map V) → lookup j (erase k m) ≡ (if bytes_eq k j then none else lookup j m)
  unfolding lookup erase
  lookup-erase k j [] = ground arith
  lookup-erase k j ((i, w) ∷ m) =
      ground (arith, bytes_eq_iff k j, bytes_eq_iff i k, bytes_eq_iff i j, lookup-erase k j m)

  pub length-insert-le : (k : Bytes) (v : V) (m : Map V) → length (insert k v m) ≤ length m + 1
  unfolding insert
  length-insert-le k v [] = omega arith
  length-insert-le k v ((j, w) ∷ m) = ground (arith, length-insert-le k v m)

  pub length-insert_old :
      (k : Bytes) (v w : V) (m : Map V) → lookup k m ≡ some w → length (insert k v m) ≡ length m
  unfolding insert lookup
  length-insert_old k v w [] h = cc
  length-insert_old k v w ((j, u) ∷ m) h = ground (arith, length-insert_old k v w m)

  pub length-erase-le : (k : Bytes) (m : Map V) → length (erase k m) ≤ length m
  unfolding erase
  length-erase-le k [] = omega arith
  length-erase-le k ((j, w) ∷ m) = ground (arith, length-erase-le k m)

  pub length-erase_lt :
      (k : Bytes) (w : V) (m : Map V) → lookup k m ≡ some w → length (erase k m) < length m
  unfolding erase lookup
  length-erase_lt k w [] h = cc
  length-erase_lt k w ((j, u) ∷ m) h = ground (arith, length-erase_lt k w m, length-erase-le k m)

-- Each key stands once, as in every Go map.
abbrev pub Distinct {ℓ} : {V : Type ℓ} → Map V → Type ℓ
Distinct [] = Unit
Distinct ((k, v) ∷ m) = (lookup k m ≡ none) × Distinct m

module _ {ℓ} {V : Type ℓ} where
  pub Distinct-insert : (k : Bytes) (v : V) (m : Map V) → Distinct m → Distinct (insert k v m)
  unfolding insert lookup
  Distinct-insert k v [] d = (refl, tt)
  Distinct-insert k v ((j, w) ∷ m) d =
      ground
        (arith, bytes_eq_iff j k, bytes_eq_iff k j, Distinct-insert k v m, lookup-insert k j v m)

  pub Distinct-erase : (k : Bytes) (m : Map V) → Distinct m → Distinct (erase k m)
  unfolding erase
  Distinct-erase k [] d = tt
  Distinct-erase k ((j, w) ∷ m) d = ground (arith, Distinct-erase k m, lookup-erase k j m)

  pub lookup-keep-none :
      (f : Bytes × V → Bool) (k : Bytes) (m : Map V)
      → lookup k m ≡ none
      → lookup k (keep f m) ≡ none
  unfolding lookup
  lookup-keep-none f k [] h = refl
  lookup-keep-none f k ((j, w) ∷ m) h = ground (arith, lookup-keep-none f k m)

  pub lookup-keep-some :
      (f : Bytes × V → Bool) (k : Bytes) (v : V) (m : Map V)
      → lookup k m ≡ some v
      → f (k, v) ≡ true
      → lookup k (keep f m) ≡ some v
  unfolding lookup
  lookup-keep-some f k v [] h t = cc
  lookup-keep-some f k v ((j, w) ∷ m) h t =
      ground (arith, bytes_eq_iff j k, lookup-keep-some f k v m)

  pub Distinct-keep : (f : Bytes × V → Bool) (m : Map V) → Distinct m → Distinct (keep f m)
  Distinct-keep f [] d = tt
  Distinct-keep f ((j, w) ∷ m) d = ground (arith, Distinct-keep f m, lookup-keep-none f j m)

  -- What a longer map says of a key that its rest holds.
  pub lookup_rest :
      (k j : Bytes) (v w : V) (m : Map V)
      → lookup j m ≡ none
      → lookup k m ≡ some v
      → lookup k ((j, w) ∷ m) ≡ some v
  unfolding lookup
  lookup_rest k j v w m h e = ground (arith, bytes_eq_iff j k)

  -- The other way round: a value that the first entry does not have is in the rest.
  pub lookup_tail :
      (k j : Bytes) (v w : V) (m : Map V)
      → lookup k ((j, w) ∷ m) ≡ some v
      → w ≢ v
      → lookup k m ≡ some v
  unfolding lookup
  lookup_tail k j v w m e ne = ground arith

  pub lookup_cases :
      (k j : Bytes) (v w : V) (m : Map V)
      → lookup k ((j, w) ∷ m) ≡ some v
      → (w ≡ v) ⊎ (lookup k m ≡ some v)
  unfolding lookup
  lookup_cases k j v w m e = ground arith

  -- What holds of every value holds of one that is found.
  pub All-lookup {κ} :
      (P : V → Type κ) (m : Map V) (k : Bytes) (v : V)
      → All (λ e. P e.1) m
      → lookup k m ≡ some v
      → P v
  All-lookup P [] k v a h = absurd (unfold lookup in cc)
  All-lookup P ((j, w) ∷ m) k v a h = elim (lookup_cases k j v w m h) [
    | inl e ↦ subst P e a.0
    | inr e ↦ All-lookup P m k v a.1 e
  ]

  pub lookup-length : (k : Bytes) (v : V) (m : Map V) → lookup k m ≡ some v → 0 < length m
  unfolding lookup
  lookup-length k v [] h = cc
  lookup-length k v (e ∷ m) h = omega arith

  pub lookup_head : (k : Bytes) (v : V) (m : Map V) → lookup k ((k, v) ∷ m) ≡ some v
  unfolding lookup
  lookup_head k v m = rw (bytes_eq_refl k)

module _ {ℓ κ} {V : Type ℓ} (P : Bytes × V → Type κ) where
  pub All-insert : (k : Bytes) (v : V) (m : Map V) → P (k, v) → All P m → All P (insert k v m)
  unfolding insert
  All-insert k v [] h a = (h, tt)
  All-insert k v ((j, w) ∷ m) h a =
      elim (bytes_eq j k) as (λ b. All P (if b then (k, v) ∷ m else (j, w) ∷ insert k v m)) [
        | true ↦ (h, a.1)
        | false ↦ (a.0, All-insert k v m h a.1)
      ]

  pub All-erase : (k : Bytes) (m : Map V) → All P m → All P (erase k m)
  unfolding erase
  All-erase k [] a = tt
  All-erase k ((j, w) ∷ m) a =
      elim (bytes_eq j k) as (λ b. All P (if b then erase k m else (j, w) ∷ erase k m)) [
        | true ↦ All-erase k m a.1
        | false ↦ (a.0, All-erase k m a.1)
      ]
