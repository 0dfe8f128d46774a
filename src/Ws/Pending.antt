-- ===== src/Ws/Pending.antt =====
-- internal/ws/pending.go: the sockets that are open and not paired yet.
pub mod Holders
pub mod Sockets
use leave_safe.Prelude.{
  ℕ, zero, suc, ◌+◌, ◌-◌, Bool, true, false, ◌||◌, Option, none, some, [], Bytes, ltb, leb,
  if◌then◌else◌,
}
use leave_safe.Auth.Addr.{normalize_addr}
use leave_safe.Prelude.Map.{Map, lookup, insert, erase}

abbrev pub max_pending_conns : ℕ
max_pending_conns = 32

abbrev pub max_pending_conns_per_adr : ℕ
max_pending_conns_per_adr = 4

pub record PendingConns : Type 0 where
  pub total : ℕ
  pub by_addr : Map ℕ
  pub limit : ℕ
  pub per_addr : ℕ

abbrev pub new_pending_conns : ℕ → ℕ → PendingConns
new_pending_conns limit per_addr = record {
  total = 0;
  by_addr = [];
  limit = limit;
  per_addr = per_addr;
}

-- A missing key reads as 0.
or_zero : Option ℕ → ℕ
or_zero none = 0
or_zero (some n) = n

-- `p.byAddr[addr]`.
pub held : PendingConns → Bytes → ℕ
unfolding or_zero
held p addr = or_zero (lookup addr p.by_addr)

pub acquire : PendingConns → Bytes → PendingConns × Bool
unfolding held
acquire p addr =
    if leb p.limit p.total || leb p.per_addr (held p addr)
    then (p, false)
    else (record p { total = p.total + 1; by_addr = insert addr (held p addr + 1) p.by_addr }, true)

pub release : PendingConns → Bytes → PendingConns
unfolding held
release p addr =
    let n = held p addr in
    record p {
      total = if ltb 0 p.total then p.total - 1 else p.total;
      by_addr = if ltb 1 n then insert addr (n - 1) p.by_addr else erase addr p.by_addr;
    }

-- What `Client` of internal/ws/client.go keeps for the slots.
pub record Socket : Type 0 where
  pub remote_addr : Bytes
  pub pending_held : Bool

-- `Hub.acquirePending` and `Hub.releasePending` of internal/ws/hub.go.
pub acquire_pending : PendingConns → Socket → PendingConns × Socket × Bool
unfolding acquire
acquire_pending p c =
    let (p', given) = acquire p (normalize_addr c.remote_addr) in
    if given then (p', record c { pending_held = true }, true) else (p', c, false)

pub release_pending : PendingConns → Socket → PendingConns × Socket
unfolding release
release_pending p c =
    if c.pending_held
    then (release p (normalize_addr c.remote_addr), record c { pending_held = false })
    else (p, c)
