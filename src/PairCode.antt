-- ===== src/PairCode.antt =====
-- internal/paircode/paircode.go: the code that carries an address, a port and the pairing key.
-- Text is ASCII. A shift is a product or a quotient, and where the bits do not meet `|` is a sum;
-- `buffer` is a 16-bit word and `number` a 64-bit one.
pub mod Base32
pub mod Clean
pub mod Number
pub mod Code
mod Examples
use leave_safe.Prelude.{
  ℕ, zero, suc, ◌+◌, ◌-◌, ◌*◌, ◌/◌, ◌%◌, ◌^◌, Bool, true, false, ◌&&◌, ◌||◌, not, Option, none,
  some, [], ◌∷◌, ◌++◌, Bytes, codes, ltb, leb, ◌==◌, if◌then◌else◌, length, get_or, take, drop,
}
use leave_safe.Auth.Policy.{ℤ, pos, negsuc}

abbrev pub alphabet : Bytes
alphabet = codes "0123456789ABCDEFGHJKMNPQRSTVWXYZ"

abbrev pub code_chars : ℕ
code_chars = 21

abbrev pub payload_bytes : ℕ
payload_bytes = 13

abbrev pub max_key_value : ℕ
max_key_value = 9999999999999999

-- `alphabet[v & 0x1f]`.
pub char : ℕ → ℕ
char v = get_or alphabet (v % 32) 0

-- The inner loop of `encode32`: the characters it appends, and the bits left. A round takes five
-- bits, so there are fewer rounds than bits.
emit : ℕ → ℕ → ℕ → Bytes × ℕ
unfolding char
emit zero buffer bits = ([], bits)
emit (suc fuel) buffer bits =
    let (rest, left) = emit fuel buffer (bits - 5) in
    if leb 5 bits then (char (buffer / 2 ^ (bits - 5)) ∷ rest, left) else ([], bits)

encode_from : ℕ → ℕ → Bytes → Bytes
unfolding emit
encode_from buffer bits [] = if ltb 0 bits then char (buffer * 2 ^ (5 - bits) % 65536) ∷ [] else []
encode_from buffer bits (b ∷ s) =
    let buffer' = (buffer * 256 + b) % 65536 in
    let (out, left) = emit (bits + 8) buffer' (bits + 8) in out ++ encode_from buffer' left s

pub encode32 : Bytes → Bytes
unfolding encode_from
encode32 payload = encode_from 0 0 payload

value_in : ℕ → ℕ → Bytes → Option ℕ
value_in i c [] = none
value_in i c (a ∷ s) = let rest = value_in (suc i) c s in if a == c then some i else rest

-- `valueOf`.
pub value_of : ℕ → Option ℕ
unfolding value_in
value_of c = value_in 0 c alphabet

-- Put one byte in front of the rest, if it is complete.
push : Bool → ℕ → Option Bytes → Option Bytes
push true b (some s) = some (b ∷ s)
push false b (some s) = some s
push _ b none = none

pub decode_from : ℕ → ℕ → Bytes → Option Bytes
unfolding push
decode_from buffer bits [] = some []
decode_from buffer bits (c ∷ s) = elim (value_of c) [
  | none ↦ none
  | some v ↦
      let buffer' = (buffer * 32 + v) % 65536 in
      let full = leb 8 (bits + 5) in
      let left = if full then bits + 5 - 8 else bits + 5 in
      push full (buffer' / 2 ^ left % 256) (decode_from buffer' left s)
]

-- What `strings.ToUpper` and the `switch` of `clean` make of one character: none for a separator.
pub clean_char : ℕ → Option ℕ
clean_char c =
    let u = if leb b'a' c && leb c b'z' then c - 32 else c in
    if u == b'-' || (u == b' ' || (u == b'\t' || (u == b'\n' || (u == b'\r' || u == b'_'))))
    then none
    else if u == b'O'
    then some b'0'
    else if u == b'I' || u == b'L'
    then some b'1'
    else some u

put : Option ℕ → Bytes → Bytes
put none s = s
put (some c) s = c ∷ s

pub clean : Bytes → Bytes
unfolding clean_char put
clean [] = []
clean (c ∷ s) = put (clean_char c) (clean s)

decode32 : Bytes → Option Bytes
unfolding decode_from clean
decode32 typed =
    if length (clean typed) == code_chars
    then elim (decode_from 0 0 (clean typed)) [
      | none ↦ none
      | some payload ↦ if length payload == payload_bytes then some payload else none
    ]
    else none

-- `group`: a dash before every fourth character but the first, `i` counting them.
group_from : ℕ → Bytes → Bytes
group_from i [] = []
group_from i (c ∷ s) =
    let rest = group_from (suc i) s in if ltb 0 i && i % 4 == 0 then b'-' ∷ c ∷ rest else c ∷ rest

pub group : Bytes → Bytes
unfolding group_from
group code = group_from 0 code

-- `strconv.ParseUint(key, 10, 64)`, behind `n`.
pub scan_digits : ℕ → Bytes → Option ℕ
scan_digits n [] = some n
scan_digits n (c ∷ s) =
    let rest = scan_digits (n * 10 + (c - b'0')) s in
    if ltb c b'0' || ltb b'9' c then none else rest

-- `keyNumber`. Sixteen digits stay below 2^64, so the parser's own bound does not show.
pub key_number : Bytes → Option ℕ
unfolding scan_digits
key_number key =
    if length key == 16
    then elim (scan_digits 0 key) [
      | none ↦ none
      | some n ↦ if ltb max_key_value n then none else some n
    ]
    else none

-- The low `k` bytes of a number, the least significant last.
pub be_bytes : ℕ → ℕ → Bytes
be_bytes zero n = []
be_bytes (suc k) n = be_bytes k (n / 256) ++ (n % 256) ∷ []

-- `number = number<<8 | uint64(b)` over the bytes.
pub be_number : ℕ → Bytes → ℕ
be_number n [] = n
be_number n (b ∷ s) = be_number ((n * 256 + b) % 2 ^ 64) s

-- `fmt.Sprintf("%016d", number)`, of a number that sixteen digits can spell.
pub zero_padded : ℕ → ℕ → Bytes
zero_padded zero n = []
zero_padded (suc k) n = zero_padded k (n / 10) ++ (b'0' + n % 10) ∷ []

-- `byte(p >> 8)` and `byte(p & 0xff)`.
pub port_bytes : ℕ → Bytes
port_bytes p = p / 256 % 256 ∷ p % 256 ∷ []

-- `Encode`: `v4` is `net.ParseIP(host).To4()`.
pub encode_parts : Option Bytes → ℤ → Bytes → Option Bytes
unfolding encode32 group key_number port_bytes be_bytes
encode_parts none port key = none
encode_parts (some v4) (negsuc n) key = none
encode_parts (some v4) (pos port) key = if ltb 65535 port then none else elim (key_number key) [
  | none ↦ none
  | some digits ↦ some (group (encode32 (v4 ++ (port_bytes port ++ be_bytes 7 digits))))
]

-- The parts of a payload: the four bytes of the address, the port and the key.
pub payload_parts : Bytes → Option (Bytes × ℕ × Bytes)
unfolding be_number zero_padded
payload_parts payload =
    let number = be_number 0 (drop 6 payload) in
    if leb (10 ^ 16) number
    then none
    else some (take 4 payload, get_or payload 4 0 * 256 + get_or payload 5 0, zero_padded 16 number)

-- `Decode`, with the four bytes of the address in the place of their text.
pub decode_parts : Bytes → Option (Bytes × ℕ × Bytes)
unfolding decode32 payload_parts
decode_parts typed = elim (decode32 typed) [ none ↦ none | some payload ↦ payload_parts payload ]
