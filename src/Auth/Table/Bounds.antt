-- ===== src/Auth/Table/Bounds.antt =====
-- The failure table stays within its size, and no record in it has used up its allowance.
use leave_safe.Prelude.{
  ℕ, ◌≤◌, ◌<◌, ◌≡◌, ◌≢◌, refl, true, false, inl, inr, not, some, [], Bytes, bytes_eq_refl, leb,
  arith, length, length-keep-le, All, All-keep, dec_lt, Option-cases,
}
use leave_safe.Prelude.Map.{
  Map, lookup, insert, erase, Distinct, Distinct-insert, Distinct-erase, Distinct-keep,
  lookup-insert, length-insert-le, length-insert_old, length-erase-le, All-insert, All-erase,
  All-lookup,
}
use leave_safe.Auth.Policy.{Policy, IsPositive}
use leave_safe.Auth.Table.{Attempts, is_stale, evict, fresh, make_room, record_for}
use leave_safe.Auth.Table.Evict.{Named, evict_cases, length-evict_lt}

pub record IsTable (p : Policy) (m : Map Attempts) : Type 0 where
  pub distinct : Distinct m
  pub named : Named m
  pub bounded : length m ≤ p.max_tracked_addrs
  pub allowed : All (λ e. e.1.failures < p.max_attempts) m

-- A record is put under its host: into a table with room, or in the place of the one there.
pub insert-IsTable :
    (p : Policy) (host : Bytes) (r : Attempts) (m : Map Attempts)
    → IsTable p m
    → host ≢ []
    → r.failures < p.max_attempts
    → length (insert host r m) ≤ p.max_tracked_addrs
    → IsTable p (insert host r m)
insert-IsTable p host r m v n f l = record {
  distinct = Distinct-insert host r m v.distinct;
  named = All-insert (λ e. e.0 ≢ []) host r m n v.named;
  bounded = l;
  allowed = All-insert (λ e. e.1.failures < p.max_attempts) host r m f v.allowed;
}

pub erase-IsTable :
    (p : Policy) (host : Bytes) (m : Map Attempts) → IsTable p m → IsTable p (erase host m)
erase-IsTable p host m v = record {
  distinct = Distinct-erase host m v.distinct;
  named = All-erase (λ e. e.0 ≢ []) host m v.named;
  bounded = omega (arith, v.bounded, length-erase-le host m);
  allowed = All-erase (λ e. e.1.failures < p.max_attempts) host m v.allowed;
}

evict-IsTable :
    (p : Policy) (now : ℕ) (m : Map Attempts)
    → IsTable p m
    → 0 < length m
    → IsTable p (evict p now m)
evict-IsTable p now m v h = elim (evict_cases p now m v.distinct v.named h) [
  | inl (_, e) ↦ rw e (record {
    distinct = Distinct-keep (λ (x : Bytes × Attempts). not (is_stale p now x.1)) m v.distinct;
    named = All-keep (λ x. x.0 ≢ []) (λ (x : Bytes × Attempts). not (is_stale p now x.1)) m v.named;
    bounded =
        omega
          (arith, v.bounded, length-keep-le (λ (x : Bytes × Attempts). not (is_stale p now x.1)) m);
    allowed =
        All-keep (λ x. x.1.failures < p.max_attempts)
          (λ (x : Bytes × Attempts). not (is_stale p now x.1)) m v.allowed;
  })
  | inr (host, r, _, e, _) ↦ rw e (erase-IsTable p host m v)
]

-- What `record` promises: its record is the one in the table under the host, with allowance left.
pub record RecordFor (p : Policy) (host : Bytes) (now : ℕ) (r : Attempts) (m : Map Attempts)
    : Type 0 where
  pub table : IsTable p m
  pub stands : lookup host m ≡ some r
  pub seen : r.last_seen ≡ now
  pub left : r.failures < p.max_attempts

make_room-IsTable :
    (p : Policy) (now : ℕ) (m : Map Attempts)
    → IsPositive p
    → IsTable p m
    → IsTable p (make_room p now m) × (length (make_room p now m) < p.max_tracked_addrs)
unfolding make_room
make_room-IsTable p now m w v = elim (dec_lt (length m) p.max_tracked_addrs) [
  | yes room ↦ let e : leb p.max_tracked_addrs (length m) ≡ false = ground arith in rw e (v, room)
  | no full ↦
      let e : leb p.max_tracked_addrs (length m) ≡ true = ground arith in
      let some_record : 0 < length m = omega (arith, w.some_addr) in
      rw e (
        evict-IsTable p now m v some_record,
        omega (arith, v.bounded, length-evict_lt p now m v.distinct v.named some_record),
      )
]

RecordFor-known :
    (p : Policy) (host : Bytes) (now : ℕ) (r : Attempts) (m : Map Attempts)
    → IsTable p m
    → host ≢ []
    → lookup host m ≡ some r
    → RecordFor p host now
        (record r { last_seen = now })
        (insert host (record r { last_seen = now }) m)
RecordFor-known p host now r m v n e = record {
  table =
      insert-IsTable p host _ m v n left
        (omega (arith, v.bounded, length-insert_old host (record r { last_seen = now }) r m e));
  stands = rw (lookup-insert, bytes_eq_refl host);
  seen = refl;
  left = left;
}
  where
    left : r.failures < p.max_attempts
    left = All-lookup (λ x. x.failures < p.max_attempts) m host r v.allowed e

RecordFor-new :
    (p : Policy) (host : Bytes) (now : ℕ) (m : Map Attempts)
    → IsPositive p
    → IsTable p m
    → host ≢ []
    → RecordFor p host now (fresh now) (insert host (fresh now) (make_room p now m))
RecordFor-new p host now m w v n =
    let (room, free) = make_room-IsTable p now m w v in
    record {
      table =
          insert-IsTable p host (fresh now) (make_room p now m) room n w.some_attempt
            (omega (arith, free, length-insert-le host (fresh now) (make_room p now m)));
      stands = rw (lookup-insert, bytes_eq_refl host);
      seen = refl;
      left = w.some_attempt;
    }

pub record_for-RecordFor :
    (p : Policy) (host : Bytes) (now : ℕ) (m : Map Attempts)
    → IsPositive p
    → IsTable p m
    → host ≢ []
    → RecordFor p host now (record_for p host now m).0 (record_for p host now m).1
unfolding record_for
record_for-RecordFor p host now m w v n = elim (Option-cases (lookup host m)) [
  | inl e ↦ rw (e, record_for) (RecordFor-new p host now m w v n)
  | inr (r, e) ↦ rw (e, record_for) (RecordFor-known p host now r m v n e)
]
