-- ===== src/Auth/Table/Evict.antt =====
-- What `evictLocked` gives up, and what it keeps.
use leave_safe.Prelude.{
  ℕ, ◌≤◌, ◌<◌, ◌≡◌, ◌≢◌, refl, sym, ap, ◌∙◌, ◌⊎◌, inl, inr, true, false, not, some, [], ◌∷◌, Bytes,
  bytes_eq, bytes_eq_iff, bytes_eq_refl, arith, length, keep, length-keep-le, All, Bool-cases,
  dec_lt, subst,
}
use leave_safe.Prelude.Map.{
  Map, lookup, erase, Distinct, lookup-erase, lookup-keep-some, lookup_rest, lookup_tail,
  lookup-length, All-lookup, lookup_head, length-erase_lt,
}
use leave_safe.Auth.Policy.{Policy}
use leave_safe.Auth.Table.{
  Attempts, is_stale, any_stale, older, oldest_from, oldest_unlocked, sooner, soonest_from,
  soonest_unlock, evict,
}

-- A table of hosts: each stands once, and none is empty, which is what lets the code use "" for none.
abbrev pub Named : Map Attempts → Type 0
Named = All (λ e. e.0 ≢ [])

abbrev pub IsOpen : ℕ → Attempts → Type 0
IsOpen now r = r.locked_until ≤ now

-- What one round of the search makes of its candidate.
older_cases :
    (now : ℕ) (best : Bytes × ℕ) (h : Bytes) (r : Attempts)
    → (older now best (h, r) ≡ best) ⊎ ((older now best (h, r) ≡ (h, r.last_seen)) × IsOpen now r)
unfolding older
older_cases now (b, t) h r = ground arith

-- The search for the oldest record ends at its start or at an open record of the table.
oldest_from_mem :
    (now : ℕ) (best : Bytes × ℕ) (m : Map Attempts)
    → Distinct m
    → (oldest_from now best m ≡ best)
      ⊎ ((r : Attempts) × (lookup (oldest_from now best m).0 m ≡ some r) × IsOpen now r)
unfolding oldest_from
oldest_from_mem now best [] d = inl refl
oldest_from_mem now best ((h, r) ∷ m) d = elim (oldest_from_mem now (older now best (h, r)) m d.1) [
  | inr (s, e, o) ↦ inr (s, lookup_rest _ h s r m d.0 e, o)
  | inl e ↦ elim (older_cases now best h r) [
    | inl same ↦ inl (e ∙ same)
    | inr (new, o) ↦ inr (r, rw (ap (λ (x : Bytes × ℕ). x.0) (e ∙ new)) (lookup_head h r m), o)
  ]
]

-- A candidate that has a name is never lost.
oldest_from-Named :
    (now : ℕ) (best : Bytes × ℕ) (m : Map Attempts)
    → Named m
    → best.0 ≢ []
    → (oldest_from now best m).0 ≢ []
unfolding oldest_from older
oldest_from-Named now best [] n h = h
oldest_from-Named now (b, t) ((k, r) ∷ m) n h =
    oldest_from-Named now (older now (b, t) (k, r)) m n.1 (ground (arith, n.0, h))

older_locked :
    (now : ℕ) (best : Bytes × ℕ) (h : Bytes) (r : Attempts)
    → now < r.locked_until
    → older now best (h, r) ≡ best
unfolding older
older_locked now (b, t) h r l = ground arith

older_first :
    (now t : ℕ) (h : Bytes) (r : Attempts)
    → IsOpen now r
    → older now ([], t) (h, r) ≡ (h, r.last_seen)
unfolding older
older_first now t h r o = ground arith

-- The search finds one where there is an open record.
oldest_from_finds :
    (now t : ℕ) (m : Map Attempts) (host : Bytes) (r : Attempts)
    → Named m
    → lookup host m ≡ some r
    → IsOpen now r
    → (oldest_from now ([], t) m).0 ≢ []
unfolding oldest_from
oldest_from_finds now t [] host r n e o = absurd (unfold lookup in cc)
oldest_from_finds now t ((k, s) ∷ m) host r n e o = elim (dec_lt now s.locked_until) [
  | yes locked ↦
      subst (λ b. (oldest_from now b m).0 ≢ []) (sym (older_locked now ([], t) k s locked))
        (oldest_from_finds now t m host r n.1 (later locked e) o)
  | no unlocked ↦
      subst (λ b. (oldest_from now b m).0 ≢ []) (sym (older_first now t k s (omega arith)))
        (oldest_from-Named now (k, s.last_seen) m n.1 n.0)
]
  where
    later : now < s.locked_until → lookup host ((k, s) ∷ m) ≡ some r → lookup host m ≡ some r
    later l f =
        lookup_tail host k r s m f (λ q. omega (arith, ap (λ (x : Attempts). x.locked_until) q))

-- So the record dropped as the oldest is open.
oldest_unlocked-IsOpen :
    (now : ℕ) (m : Map Attempts)
    → Distinct m
    → oldest_unlocked now m ≢ []
    → (r : Attempts) × (lookup (oldest_unlocked now m) m ≡ some r) × IsOpen now r
unfolding oldest_unlocked
oldest_unlocked-IsOpen now m d h = elim (oldest_from_mem now ([], 0) m d) [
  | inl e ↦ absurd (h (ap (λ (x : Bytes × ℕ). x.0) e))
  | inr found ↦ found
]

sooner_cases :
    (best : Bytes × ℕ) (h : Bytes) (r : Attempts)
    → ((sooner best (h, r) ≡ best) × (best.0 ≢ []) × (best.1 ≤ r.locked_until))
      ⊎ ((sooner best (h, r) ≡ (h, r.locked_until)) × ((best.0 ≡ []) ⊎ (r.locked_until < best.1)))
unfolding sooner
sooner_cases (b, t) h r = ground (arith, bytes_eq_iff b [])

-- The search for the soonest end ends at its start or at a record of the table.
soonest_from_mem :
    (best : Bytes × ℕ) (m : Map Attempts)
    → Distinct m
    → (soonest_from best m ≡ best)
      ⊎ ((r : Attempts) × (lookup (soonest_from best m).0 m ≡ some r)
          × (r.locked_until ≡ (soonest_from best m).1))
unfolding soonest_from
soonest_from_mem best [] d = inl refl
soonest_from_mem best ((h, r) ∷ m) d = elim (soonest_from_mem (sooner best (h, r)) m d.1) [
  | inr (s, e, o) ↦ inr (s, lookup_rest _ h s r m d.0 e, o)
  | inl e ↦ elim (sooner_cases best h r) [
    | inl same ↦ inl (e ∙ same.0)
    | inr new ↦ inr (
      r,
      rw (ap (λ (x : Bytes × ℕ). x.0) (e ∙ new.0)) (lookup_head h r m),
      sym (ap (λ (x : Bytes × ℕ). x.1) (e ∙ new.0)),
    )
  ]
]

sooner_le :
    (best : Bytes × ℕ) (h : Bytes) (r : Attempts)
    → h ≢ []
    → (best.0 ≢ [] → (sooner best (h, r)).1 ≤ best.1)
      × ((sooner best (h, r)).0 ≢ [])
      × ((sooner best (h, r)).1 ≤ r.locked_until)
unfolding sooner
sooner_le (b, t) h r n = (
  λ m. ground (arith, bytes_eq_iff b []),
  ground (arith, bytes_eq_iff b []),
  ground (arith, bytes_eq_iff b []),
)

-- From a named candidate on, the search keeps a name and only finds sooner ends.
soonest_from_le :
    (best : Bytes × ℕ) (m : Map Attempts)
    → Named m
    → best.0 ≢ []
    → ((soonest_from best m).0 ≢ [])
      × ((soonest_from best m).1 ≤ best.1)
      × All (λ e. (soonest_from best m).1 ≤ e.1.locked_until) m
unfolding soonest_from
soonest_from_le best [] n h = (h, omega arith, tt)
soonest_from_le best ((k, r) ∷ m) n h =
    let (less, named, le) = sooner_le best k r n.0 in
    let (some_name, below, all_below) = soonest_from_le (sooner best (k, r)) m n.1 named in
    (some_name, omega (arith, below, less h), (omega (arith, below, le), all_below))

-- In a table with a record, the search names a record whose lockout ends no later than any other.
soonest_unlock_first :
    (m : Map Attempts)
    → Distinct m
    → Named m
    → 0 < length m
    → (soonest_unlock m ≢ [])
      × ((r : Attempts) × (lookup (soonest_unlock m) m ≡ some r)
          × All (λ e. r.locked_until ≤ e.1.locked_until) m)
unfolding soonest_unlock soonest_from
soonest_unlock_first [] d n h = absurd (omega arith)
soonest_unlock_first ((k, s) ∷ m) d n h =
    let best = sooner ([], 0) (k, s) in
    let (less, named, le) = sooner_le ([], 0) k s n.0 in
    let (some_name, below, all_below) = soonest_from_le best m n.1 named in
    elim (soonest_from_mem ([], 0) ((k, s) ∷ m) d) [
      | inl e ↦ absurd (some_name (ap (λ (x : Bytes × ℕ). x.0) e))
      | inr (r, e, u) ↦ (some_name, (r, e, (omega (arith, u, below, le), All_le m r u all_below)))
    ]
  where
    All_le :
        (l : Map Attempts) (r : Attempts) {t : ℕ}
        → r.locked_until ≡ t
        → All (λ e. t ≤ e.1.locked_until) l
        → All (λ e. r.locked_until ≤ e.1.locked_until) l
    All_le l r u a = subst (λ t. All (λ (e : Bytes × Attempts). t ≤ e.1.locked_until) l) (sym u) a

length-keep_lt :
    (p : Policy) (now : ℕ) (m : Map Attempts)
    → any_stale p now m ≡ true
    → length (keep (λ e. not (is_stale p now e.1)) m) < length m
unfolding any_stale
length-keep_lt p now [] h = cc
length-keep_lt p now ((k, r) ∷ m) h = ground (
  arith,
  length-keep_lt p now m,
  length-keep-le (λ (e : Bytes × Attempts). not (is_stale p now e.1)) m,
)

-- Where the search for an open record finds none, every record is locked.
oldest_from_none :
    (now t : ℕ) (m : Map Attempts)
    → Named m
    → (oldest_from now ([], t) m).0 ≡ []
    → All (λ e. now < e.1.locked_until) m
unfolding oldest_from
oldest_from_none now t [] n h = tt
oldest_from_none now t ((k, s) ∷ m) n h = elim (dec_lt now s.locked_until) [
  | yes locked ↦ (
    locked,
    oldest_from_none now t m n.1
        (subst (λ b. (oldest_from now b m).0 ≡ []) (older_locked now ([], t) k s locked) h),
  )
  | no unlocked ↦ absurd (
      oldest_from-Named now (k, s.last_seen) m n.1 n.0
        (subst (λ b. (oldest_from now b m).0 ≡ []) (older_first now t k s (omega arith)) h))
]

abbrev pub AllLocked : ℕ → Map Attempts → Type 0
AllLocked now = All (λ e. now < e.1.locked_until)

-- Why one record was dropped: it is open, or all are locked and its lockout ends first.
abbrev pub MayDrop : ℕ → Map Attempts → Attempts → Type 0
MayDrop now m r = IsOpen now r ⊎ (AllLocked now m × All (λ e. r.locked_until ≤ e.1.locked_until) m)

-- An eviction drops the stale records, or where there are none a single one that it may drop.
pub evict_cases :
    (p : Policy) (now : ℕ) (m : Map Attempts)
    → Distinct m
    → Named m
    → 0 < length m
    → ((any_stale p now m ≡ true) × (evict p now m ≡ keep (λ e. not (is_stale p now e.1)) m))
      ⊎ ((host : Bytes) × (r : Attempts) × (lookup host m ≡ some r)
          × (evict p now m ≡ erase host m)
          × MayDrop now m r)
unfolding evict
evict_cases p now m d n h = elim (Bool-cases (any_stale p now m)) [
  | inl stale ↦ inl (stale, rw stale)
  | inr fresh ↦ inr (elim (Bool-cases (bytes_eq (oldest_unlocked now m) [])) [
    | inl none_open ↦
        let (named, first) = soonest_unlock_first m d n h in
        (
          soonest_unlock m,
          first.0,
          first.1,
          rw (fresh, none_open) (ground (arith, bytes_eq_iff (soonest_unlock m) [])),
          inr (all_locked ((bytes_eq_iff _ []).0 none_open), first.2),
        )
    | inr open_one ↦
        let found = oldest_unlocked-IsOpen now m d (named open_one) in
        (oldest_unlocked now m, found.0, found.1, rw (fresh, open_one), inl found.2)
  ])
]
  where
    named : bytes_eq (oldest_unlocked now m) [] ≡ false → oldest_unlocked now m ≢ []
    named e q = cc (bytes_eq_refl [], e, q)

    all_locked : oldest_unlocked now m ≡ [] → AllLocked now m
    all_locked e = oldest_from_none now 0 m n (unfold oldest_unlocked in e)

locked_fresh :
    (p : Policy) (now : ℕ) (r : Attempts) → now < r.locked_until → not (is_stale p now r) ≡ true
unfolding is_stale
locked_fresh p now r l = ground arith

-- An eviction makes room: it drops a record of every table of named hosts, each standing once, that
-- has one.
pub length-evict_lt :
    (p : Policy) (now : ℕ) (m : Map Attempts)
    → Distinct m
    → Named m
    → 0 < length m
    → length (evict p now m) < length m
length-evict_lt p now m d n h = elim (evict_cases p now m d n h) [
  | inl (stale, e) ↦ rw e (length-keep_lt p now m stale)
  | inr (host, r, found, e, _) ↦ rw e (length-erase_lt host r m found)
]

-- In a table of named hosts, each standing once, a record that is serving a lockout outlives every
-- eviction while the table holds one which is not: with it the penalty would be gone.
pub evict_keeps_locked :
    (p : Policy) (now : ℕ) (m : Map Attempts) (host other : Bytes) (r s : Attempts)
    → Distinct m
    → Named m
    → lookup host m ≡ some r
    → now < r.locked_until
    → lookup other m ≡ some s
    → s.locked_until ≤ now
    → lookup host (evict p now m) ≡ some r
evict_keeps_locked p now m host other r s d n e l f o =
    elim (evict_cases p now m d n (lookup-length host r m e)) [
      | inl (_, k) ↦ rw k (
          lookup-keep-some (λ (x : Bytes × Attempts). not (is_stale p now x.1)) host r m e
            (locked_fresh p now r l))
      | inr (gone, q, found, k, inl unlocked) ↦
          rw (k, lookup-erase gone host m) (ground (arith, bytes_eq_iff gone host))
      | inr (gone, q, found, k, inr all) ↦
          absurd (omega (arith, All-lookup (λ x. now < x.locked_until) m other s all.0 f))
    ]
