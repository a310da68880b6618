-- ===== src/Kademlia/Wire.antt =====
-- p2p/kademlia/message.go: `encode` and `decode`, with the sizes of pkg/utils/utils.go. A size in MB
-- is a float64, exact below 2 ^ 53 bytes. `none` is an error, and in `put_uvarint` an index out of
-- range. Encoding with gob is the package's own.
pub mod RoundTrip
use native.Mathlib.Nat.{add-mul, mul_assoc, mul_left_comm, mul_comm}
use supernode.Base.{
  ℕ, zero, suc, ◌+◌, ◌-◌, ◌*◌, ◌/◌, ◌%◌, ◌≤◌, ◌<◌, ◌≡◌, refl, ap, ◌∙◌, Bool, true, false, Option,
  none, some, List, [], ◌∷◌, ◌++◌, append_assoc, Bytes, length, length-append, length-replicate,
  ltb, if◌then◌else◌, take, drop, replicate, arith, Bool-cases, inl, inr, ◌⊎◌, subst,
}
use supernode.Kademlia.HashTable.{◌>>=◌}
use supernode.Kademlia.Messages.{Message}

-- What `gob` makes of a message and of bytes.
pub record Gob : Type 0 where
  pub encode_message : Message → Option Bytes
  pub decode_message : Bytes → Option Message

-- `defaultMaxPayloadSize`, in bytes: 200 MB.
abbrev pub max_payload : ℕ
max_payload = 200 * 1_048_576

-- `utils.BytesIntToMB(n) > defaultMaxPayloadSize`, and the same of `utils.BytesToMB`.
is_too_big : ℕ → Bool
is_too_big n = ltb max_payload n

-- `binary.PutUvarint` into a buffer with that room: seven bits in a byte, the lowest first.
put_uvarint : ℕ → ℕ → Option Bytes
put_uvarint zero x = none
put_uvarint (suc room) x = elim (ltb x 128) [
  | true ↦ some (x ∷ [])
  | false ↦ do rest ← put_uvarint room (x / 128); some ((x % 128 + 128) ∷ rest)
]

-- `var header [8]byte` and `PutUvarint` into it.
put_header : ℕ → Option Bytes
unfolding put_uvarint
put_header n = do written ← put_uvarint 8 n; some (written ++ replicate (8 - length written) 0)

-- `binary.ReadUvarint` where `weight` is 2 to the shift; eight bytes give no overflow.
read_uvarint : ℕ → ℕ → Bytes → Option ℕ
read_uvarint weight x [] = none
read_uvarint weight x (b ∷ rest) = elim (ltb b 128) [
  | true ↦ some (x + b * weight)
  | false ↦ read_uvarint (128 * weight) (x + (b - 128) * weight) rest
]

-- `io.ReadFull` of `n` bytes, and what it leaves in the stream.
read_full : ℕ → Bytes → Option (Bytes × Bytes)
read_full n stream = if ltb (length stream) n then none else some (take n stream, drop n stream)

module _ (gob : Gob) where
  unfoldable pub encode : Message → Option Bytes
  unfolding is_too_big put_header
  encode message = do
    buf ← gob.encode_message message
    if is_too_big (length buf)
        then none
        else (do header ← put_header (length buf); some (header ++ buf))

  -- The message that is next in the stream, and the rest of the stream.
  pub decode : Bytes → Option (Message × Bytes)
  unfolding is_too_big read_full read_uvarint
  decode conn = do
    header ← read_full 8 conn
    size ← read_uvarint 1 0 header.0
    if is_too_big size then none else (do
      body ← read_full size header.1
      message ← gob.decode_message body.0
      some (message, body.1))
