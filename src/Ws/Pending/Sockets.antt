-- ===== src/Ws/Pending/Sockets.antt =====
-- Sockets that arrive, pair and go, and the slots that they hold meanwhile.
use leave_safe.Prelude.{
  ℕ, zero, suc, ◌+◌, ◌-◌, ◌≤◌, ◌<◌, ◌≡◌, refl, sym, ap, ◌∙◌, false, ◌⊎◌, inl, inr, List, [], ◌∷◌,
  Bytes, bytes_eq, bytes_eq_iff, bytes_eq_refl, if◌then◌else◌, arith, length, Bool-cases,
}
use leave_safe.Prelude.Map.{lookup}
use leave_safe.Auth.Addr.{normalize_addr}
use leave_safe.Ws.Pending.{
  PendingConns, Socket, new_pending_conns, held, release, acquire_pending, release_pending,
}
use leave_safe.Ws.Pending.Holders.{
  occurrences, remove_one, slot, Represents, held_lem, acquire_cases, acquired, release_refines,
  occurrences-remove_one, length-remove_one, same_count-Represents,
}

-- The addresses of the sockets that hold a slot.
pub holders : List Socket → List Bytes
holders [] = []
holders (c ∷ cs) =
    let rest = holders cs in if c.pending_held then normalize_addr c.remote_addr ∷ rest else rest

-- The slot of one of the sockets is given back, if it holds one: when it pairs, or when it goes.
release_at : PendingConns → List Socket → ℕ → PendingConns × List Socket
release_at p [] i = (p, [])
release_at p (c ∷ cs) zero = let (p', c') = release_pending p c in (p', c' ∷ cs)
release_at p (c ∷ cs) (suc i) = let (p', cs') = release_at p cs i in (p', c ∷ cs')

pub data Traffic : Type 0 where
  arrives : Bytes → Traffic
  gives_back : ℕ → Traffic

-- A socket that is refused a slot is closed at once.
traffic_step : PendingConns × List Socket → Traffic → PendingConns × List Socket
unfolding release_at
traffic_step (p, cs) (arrives addr) =
    let (p', c, given) = acquire_pending p (record { remote_addr = addr; pending_held = false }) in
    (p', if given then c ∷ cs else cs)
traffic_step (p, cs) (gives_back i) = release_at p cs i

pub traffic : PendingConns × List Socket → List Traffic → PendingConns × List Socket
unfolding traffic_step
traffic s [] = s
traffic s (e ∷ es) = traffic (traffic_step s e) es

-- What giving a slot back does: nothing, or one holder less.
abbrev Released : PendingConns → List Socket → PendingConns × List Socket → Type 0
Released p cs (p', cs') =
    ((p' ≡ p) × (holders cs' ≡ holders cs))
    ⊎ ((a : Bytes) × (p' ≡ release p a)
        × (0 < occurrences a (holders cs))
        × (length (holders cs') + 1 ≡ length (holders cs))
        × ((b : Bytes)
            → occurrences b (holders cs') ≡ (
                if bytes_eq a b
                then occurrences b (holders cs) - 1
                else occurrences b (holders cs))))

release_at-Released :
    (p : PendingConns) (cs : List Socket) (i : ℕ) → Released p cs (release_at p cs i)
unfolding release_at release_pending holders occurrences
release_at-Released p [] i = inl (refl, refl)
release_at-Released p (c ∷ cs) zero = elim (Bool-cases c.pending_held) [
  | inr f ↦ rw (f, release_pending) (inl (refl, refl))
  | inl t ↦
      rw (t, release_pending)
        (inr (
          normalize_addr c.remote_addr,
          refl,
          ground (arith, t, bytes_eq_refl (normalize_addr c.remote_addr)),
          ground (arith, t),
          λ b. ground (arith, t),
        ))
]
release_at-Released p (c ∷ cs) (suc i) = elim (release_at-Released p cs i) [
  | inl (e, f) ↦ inl (e, ground (arith, f))
  | inr (a, e, some_left, n, count) ↦ inr (
    a,
    e,
    ground (arith, some_left),
    ground (arith, n),
    λ b. ground (arith, count b, bytes_eq_iff a b, some_left),
  )
]

-- Slots counted and given within the two limits.
record IsSharing (limit per : ℕ) (p : PendingConns) (cs : List Socket) : Type 0 where
  limits : (p.limit ≡ limit) × (p.per_addr ≡ per)
  counts : Represents p (holders cs)
  total_le : length (holders cs) ≤ limit
  share_le : (a : Bytes) → occurrences a (holders cs) ≤ per

share_step :
    (limit per : ℕ) (p : PendingConns) (cs : List Socket) (a : Bytes)
    → IsSharing limit per p cs
    → held p a < p.per_addr
    → (b : Bytes) → occurrences b (a ∷ holders cs) ≤ per
unfolding occurrences
share_step limit per p cs a v share b = elim (Bool-cases (bytes_eq a b)) [
  | inl t ↦
      let same : held p a ≡ occurrences b (holders cs) =
        held_lem p (holders cs) a v.counts
        ∙ ap (λ c. occurrences c (holders cs)) ((bytes_eq_iff a b).0 t) in
      rw t (omega (arith, same, share, v.limits.1))
  | inr f ↦ rw f (v.share_le b)
]

traffic_step-IsSharing :
    (limit per : ℕ) (p : PendingConns) (cs : List Socket) (e : Traffic)
    → IsSharing limit per p cs
    → IsSharing limit per (traffic_step (p, cs) e).0 (traffic_step (p, cs) e).1
unfolding traffic_step release holders acquire_pending
traffic_step-IsSharing limit per p cs (arrives addr) v =
    let a = normalize_addr addr in
    elim (acquire_cases p a) [
      | inl e ↦ rw (e, acquire_pending) v
      | inr (e, room, share) ↦
          rw (e, acquire_pending)
            (record {
              limits = v.limits;
              counts = acquired p (holders cs) a v.counts;
              total_le = omega (arith, v.counts.counted, v.limits.0, room);
              share_le = share_step limit per p cs a v share;
            })
    ]
traffic_step-IsSharing limit per p cs (gives_back i) v = elim (release_at-Released p cs i) [
  | inl (e, f) ↦ rw e (record {
    limits = v.limits;
    counts = rw f v.counts;
    total_le = rw f v.total_le;
    share_le = λ b. rw f (v.share_le b);
  })
  | inr (a, e, some_left, n, count) ↦ rw e (record {
    limits = v.limits;
    counts =
        same_count-Represents (release p a) (remove_one a (holders cs)) _
          (release_refines p (holders cs) a v.counts some_left)
          (omega (arith, n, length-remove_one a (holders cs) some_left))
          (λ b. occurrences-remove_one a b (holders cs) ∙ sym (count b));
    total_le = omega (arith, n, v.total_le);
    share_le = λ b. ground (arith, count b, v.share_le b);
  })
]

traffic-IsSharing :
    (limit per : ℕ) (p : PendingConns) (cs : List Socket) (es : List Traffic)
    → IsSharing limit per p cs
    → IsSharing limit per (traffic (p, cs) es).0 (traffic (p, cs) es).1
unfolding traffic
traffic-IsSharing limit per p cs [] v = v
traffic-IsSharing limit per p cs (e ∷ es) v =
    traffic-IsSharing limit per (traffic_step (p, cs) e).0 (traffic_step (p, cs) e).1 es
      (traffic_step-IsSharing limit per p cs e v)

start-IsSharing : (limit per : ℕ) → IsSharing limit per (new_pending_conns limit per) []
unfolding holders occurrences slot lookup
start-IsSharing limit per = record {
  limits = (refl, refl);
  counts = record { counted = refl; entries = λ a. refl };
  total_le = omega arith;
  share_le = λ a. omega arith;
}

-- Whatever sockets arrive and give their slots back, in any order and however often: the total is
-- the number of sockets that hold a slot, and no more than the limit; no address holds more than
-- its share; and an address whose sockets hold none has no entry in the table.
pub pending_bounds :
    (limit per : ℕ) (es : List Traffic) (a : Bytes)
    → let (p, cs) = traffic (new_pending_conns limit per, []) es in
      (p.total ≡ length (holders cs))
      × (p.total ≤ limit)
      × (held p a ≡ occurrences a (holders cs))
      × (held p a ≤ per)
      × (lookup a p.by_addr ≡ slot (occurrences a (holders cs)))
pending_bounds limit per es a =
    let p = (traffic (new_pending_conns limit per, []) es).0 in
    let cs = (traffic (new_pending_conns limit per, []) es).1 in
    let v =
      traffic-IsSharing limit per (new_pending_conns limit per) [] es (start-IsSharing limit per) in
    (
      v.counts.counted,
      omega (arith, v.counts.counted, v.total_le),
      held_lem p (holders cs) a v.counts,
      omega (arith, held_lem p (holders cs) a v.counts, v.share_le a),
      v.counts.entries a,
    )
