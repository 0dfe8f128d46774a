-- ===== src/Ws/Handshake.antt =====
-- internal/ws/handshake.go: the proofs of the pairing, and the key that they are computed under.
-- HMAC-SHA256 and Argon2id stand outside this repository and are parameters.
pub mod Remembered
use leave_safe.Prelude.{
  ℕ, ◌*◌, Bool, true, false, ◌&&◌, ◌||◌, not, Option, none, some, List, [], ◌∷◌, ◌++◌, Bytes, codes,
  bytes_eq, leb, ◌==◌, if◌then◌else◌, length,
}
use leave_safe.Prelude.Map.{Map, lookup, insert, erase}
use leave_safe.Auth.Key.{hex_encode}

abbrev pub proof_domain : Bytes
proof_domain = codes "leavesafe/v2"

abbrev pub role_server : Bytes
role_server = codes "server"

abbrev pub role_client : Bytes
role_client = codes "client"

abbrev pub nonce_bytes : ℕ
nonce_bytes = 32

abbrev pub nonce_hex_len : ℕ
nonce_hex_len = nonce_bytes * 2

abbrev pub salt_domain : Bytes
salt_domain = codes "leavesafe/v2 lan pairing key|"

abbrev pub remembered_keys : ℕ
remembered_keys = 8

-- `hmac key text`, and `argon2 password salt time memory threads length`.
pub record Proofs : Type 0 where
  pub hmac : Bytes → Bytes → Bytes
  pub argon2 : Bytes → Bytes → ℕ → ℕ → ℕ → ℕ → Bytes

-- `newNonce`, from the bytes that the random source gives.
abbrev pub new_nonce : Bytes → Bytes
new_nonce random = hex_encode random

unfoldable pub lower_hex : Bytes → Bool
lower_hex [] = true
lower_hex (c ∷ s) = ((leb b'0' c && leb c b'9') || (leb b'a' c && leb c b'f')) && lower_hex s

-- `validNonce`.
unfoldable pub valid_nonce : Bytes → Bool
unfolding lower_hex
valid_nonce s = length s == nonce_hex_len && lower_hex s

-- What is signed for one role.
abbrev pub proof_text : Bytes → Bytes → Bytes → Bytes → Bytes
proof_text role server_nonce client_nonce encrypt =
    proof_domain ++ b'|' ∷ role ++ b'|' ∷ server_nonce ++ b'|' ∷ client_nonce ++ b'|' ∷ encrypt

-- `stretched`: what is remembered, and in which order it came.
pub record Stretched : Type 0 where
  pub seen : Map Bytes
  pub order : List Bytes

-- The name under which a key and a salt stand in the table.
abbrev pub name_of : Bytes → Bytes → Bytes
name_of key salt = key ++ b'|' ∷ salt

-- The oldest entry goes where the table is full.
unfoldable pub drop_oldest : List Bytes → Stretched → Stretched
drop_oldest [] t = t
drop_oldest (oldest ∷ rest) t =
    if leb remembered_keys (length (oldest ∷ rest))
    then record { seen = erase oldest t.seen; order = rest }
    else t

-- The end of `stretchedKey`, on an answer that was not there.
unfoldable pub remember : Bytes → Bytes → Stretched → Stretched
unfolding drop_oldest
remember at got t =
    let t1 = drop_oldest t.order t in
    record { seen = insert at got t1.seen; order = t1.order ++ at ∷ [] }

module _ (proofs : Proofs) where
  -- `handshakeProof`.
  unfoldable pub handshake_proof : Bytes → Bytes → Bytes → Bytes → Bytes → Bytes
  handshake_proof key role server_nonce client_nonce encrypt =
      hex_encode (proofs.hmac key (proof_text role server_nonce client_nonce encrypt))

  -- `proofHolds`, with `hmac.Equal` up to its running time.
  unfoldable pub proof_holds : Bytes → Bytes → Bytes → Bytes → Bytes → Bytes → Bool
  unfolding handshake_proof
  proof_holds key role server_nonce client_nonce encrypt offered =
      bytes_eq (handshake_proof key role server_nonce client_nonce encrypt) offered

  -- The derivation of `stretchedKey`.
  unfoldable pub derived : Bytes → Bytes → Bytes
  derived key salt = proofs.argon2 key (salt_domain ++ salt) 3 (32 * 1024) 1 32

  -- `stretchedKey`.
  unfoldable pub stretched_key : Bytes → Bytes → Stretched → Stretched × Bytes
  unfolding derived remember
  stretched_key key salt t =
      let at = name_of key salt in
      elim (lookup at t.seen) [
        | some got ↦ (t, got)
        | none ↦ let got = derived key salt in (remember at got t, got)
      ]
