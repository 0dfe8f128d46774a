-- ===== src/Auth/Addr/Ports.antt =====
-- One peer has one identity, whatever port its socket has.
use leave_safe.Prelude.{
  ℕ, suc, ◌+◌, ◌≡◌, ◌≢◌, refl, sym, ap, ◌∙◌, false, ◌||◌, none, some, [], ◌∷◌, ◌++◌, append_assoc,
  Bytes, bytes_eq_iff, arith, length, length-append, drop, take_prefix, drop_next, All,
}
use leave_safe.Auth.Addr.{
  index_from, last_index_from, has_byte, bracketed, plain, split_host, normalize_addr,
}

-- A text without a given byte.
abbrev pub Lacks : ℕ → Bytes → Type 0
Lacks b = All (λ c. c ≢ b)

has_byte-Lacks : (b : ℕ) (s : Bytes) → Lacks b s → has_byte b s ≡ false
unfolding has_byte
has_byte-Lacks b [] h = refl
has_byte-Lacks b (c ∷ s) h = ground (arith, has_byte-Lacks b s h.1)

last_index-Lacks : (i b : ℕ) (s : Bytes) → Lacks b s → last_index_from i b s ≡ none
unfolding last_index_from
last_index-Lacks i b [] h = refl
last_index-Lacks i b (c ∷ s) h = ground (arith, last_index-Lacks (suc i) b s h.1)

-- The last colon is the one before the port.
last_index_port :
    (i b : ℕ) (s port : Bytes)
    → Lacks b port
    → last_index_from i b (s ++ b ∷ port) ≡ some (i + length s)
unfolding last_index_from
last_index_port i b [] port h = ground (arith, last_index-Lacks (suc i) b port h)
last_index_port i b (c ∷ s) port h = ground (arith, last_index_port (suc i) b s port h)

index_first :
    (i b : ℕ) (s rest : Bytes) → Lacks b s → index_from i b (s ++ b ∷ rest) ≡ some (i + length s)
unfolding index_from
index_first i b [] rest h = ground arith
index_first i b (c ∷ s) rest h = ground (arith, index_first (suc i) b s rest h.1)

-- What a host without brackets may hold, and what a port may.
abbrev pub IsPlain : Bytes → Type 0
IsPlain s = Lacks b':' s × Lacks b'[' s × Lacks b']' s

has_byte-append : (b : ℕ) (s t : Bytes) → has_byte b (s ++ t) ≡ (has_byte b s || has_byte b t)
unfolding has_byte
has_byte-append b [] t = refl
has_byte-append b (c ∷ s) t = ground (arith, has_byte-append b s t)

-- A byte that neither the host nor the port holds is not in the address.
has_byte_addr :
    (b : ℕ) (host port : Bytes)
    → b ≢ b':'
    → Lacks b host
    → Lacks b port
    → has_byte b (host ++ b':' ∷ port) ≡ false
unfolding has_byte
has_byte_addr b host port ne h p =
    ground (
      arith,
      has_byte-append b host (b':' ∷ port),
      has_byte-Lacks b host h,
      has_byte-Lacks b port p,
    )

normalize_of_host :
    (s host : Bytes) → s ≢ [] → split_host s ≡ some host → host ≢ [] → normalize_addr s ≡ host
unfolding normalize_addr
normalize_of_host [] host ne e h = absurd (ne refl)
normalize_of_host (c ∷ s) host ne e h = ground (arith, bytes_eq_iff host [])

plain_host :
    (c : ℕ) (s port : Bytes)
    → IsPlain (c ∷ s)
    → IsPlain port
    → plain (c ∷ s ++ b':' ∷ port) (length (c ∷ s)) ≡ some (c ∷ s)
unfolding plain
plain_host c s port h p = ground (
  arith,
  ap (has_byte b':') (take_prefix (c ∷ s) (b':' ∷ port)),
  take_prefix (c ∷ s) (b':' ∷ port),
  has_byte-Lacks b':' (c ∷ s) h.0,
  has_byte_addr b'[' (c ∷ s) port (omega arith) h.1 p.1,
  has_byte_addr b']' (c ∷ s) port (omega arith) h.2 p.2,
)

split_host_plain :
    (c : ℕ) (s port : Bytes)
    → IsPlain (c ∷ s)
    → IsPlain port
    → split_host (c ∷ s ++ b':' ∷ port) ≡ some (c ∷ s)
unfolding split_host
split_host_plain c s port h p =
    ground (arith, last_index_port 0 b':' (c ∷ s) port p.0, plain_host c s port h p)

-- An address host:port, whose host is not empty and whose host and port hold no colon or bracket, is
-- reduced to its host, and so is the same under every port.
pub normalize_addr_port :
    (host port : Bytes)
    → host ≢ []
    → IsPlain host
    → IsPlain port
    → normalize_addr (host ++ b':' ∷ port) ≡ host
normalize_addr_port [] port ne h p = absurd (ne refl)
normalize_addr_port (c ∷ s) port ne h p =
    normalize_of_host (c ∷ s ++ b':' ∷ port) (c ∷ s) (cc) (split_host_plain c s port h p) ne

bracketed_host :
    (host port : Bytes)
    → Lacks b'[' host
    → Lacks b']' host
    → IsPlain port
    → bracketed (b'[' ∷ host ++ b']' ∷ b':' ∷ port) (suc (length host) + 1) ≡ some host
unfolding bracketed
bracketed_host host port h k p = ground (
  arith,
  index_first 0 b']' (b'[' ∷ host) (b':' ∷ port) (omega arith, k),
  length-append host (b']' ∷ b':' ∷ port),
  has_byte-append b'[' host (b']' ∷ b':' ∷ port),
  has_byte-Lacks b'[' host h,
  has_byte-Lacks b'[' port p.1,
  ap (has_byte b']') (after (suc (length host) + 1) (omega arith)),
  has_byte-Lacks b']' port p.2,
  take_prefix host (b']' ∷ b':' ∷ port),
)
  where
    after :
        (n : ℕ)
        → n ≡ suc (suc (length host))
        → drop n (b'[' ∷ host ++ b']' ∷ b':' ∷ port) ≡ b':' ∷ port
    after n e = rw e (drop_next host (b':' ∷ port) b']')

split_host_bracketed :
    (host port : Bytes)
    → Lacks b'[' host
    → Lacks b']' host
    → IsPlain port
    → split_host (b'[' ∷ host ++ b']' ∷ b':' ∷ port) ≡ some host
unfolding split_host
split_host_bracketed host port h k p = ground (arith, last_colon, bracketed_host host port h k p)
  where
    last_colon :
        last_index_from 0 b':' (b'[' ∷ host ++ b']' ∷ b':' ∷ port) ≡ some (suc (length host) + 1)
    last_colon =
        ap (last_index_from 0 b':') (sym (append_assoc (b'[' ∷ host) (b']' ∷ []) (b':' ∷ port)))
        ∙ last_index_port 0 b':' (b'[' ∷ host ++ b']' ∷ []) port p.0
        ∙ ap some (omega (arith, length-append host (b']' ∷ [])))

-- So is `[host]:port`, whose host may hold colons.
pub normalize_addr_bracketed :
    (host port : Bytes)
    → host ≢ []
    → Lacks b'[' host
    → Lacks b']' host
    → IsPlain port
    → normalize_addr (b'[' ∷ host ++ b']' ∷ b':' ∷ port) ≡ host
normalize_addr_bracketed host port ne h k p =
    normalize_of_host _ host (cc) (split_host_bracketed host port h k p) ne
