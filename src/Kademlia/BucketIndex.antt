-- ===== src/Kademlia/BucketIndex.antt =====
-- p2p/kademlia/hashtable.go: `hasBit` and `bucketIndex`, which give a node's bucket.
-- A result below 0 stands for no bucket: every caller indexes the route table with it, and panics.
pub mod Distance
use supernode.Base.{
  ℕ, zero, suc, ◌+◌, ◌-◌, ◌*◌, ◌^◌, Bool, true, false, Option, none, some, [], ◌∷◌, bit_xor,
  bit_and, Bytes, ltb, if◌then◌else◌,
}

-- `B` of the source: the bits of an id, and the number of buckets.
abbrev pub bits_b : ℕ
bits_b = 256

-- `1 << (7 - pos)` of a byte; a shift by the wrapped `7 - pos` leaves 0.
unfoldable pub has_bit : ℕ → ℕ → Bool
has_bit n pos = if ltb 7 pos then false else ltb 0 (bit_and n (2 ^ (7 - pos)))

-- The inner loop: `left` rounds remain, from bit `i`.
unfoldable pub first_bit : ℕ → ℕ → ℕ → Option ℕ
unfolding has_bit
first_bit zero i xor = none
first_bit (suc left) i xor = elim (has_bit xor i) [
  | true ↦ some i
  | false ↦ first_bit left (i + 1) xor
]

-- `B - (byteIndex + bitIndex) - 1`.
unfoldable pub bucket_of_bit : ℕ → Option ℕ
bucket_of_bit p = if ltb p bits_b then some (bits_b - p - 1) else none

-- The outer loop, at byte `j`; `id2[j]` panics past the end of `id2`.
unfoldable pub bucket_loop : ℕ → Bytes → Bytes → Option ℕ
unfolding first_bit bucket_of_bit
bucket_loop j [] id2 = some 0
bucket_loop j (a ∷ id1) [] = none
bucket_loop j (a ∷ id1) (b ∷ id2) = elim (first_bit 8 0 (bit_xor a b)) [
  | some i ↦ bucket_of_bit (j * 8 + i)
  | none ↦ bucket_loop (j + 1) id1 id2
]

unfoldable pub bucket_index : Bytes → Bytes → Option ℕ
unfolding bucket_loop
bucket_index id1 id2 = bucket_loop 0 id1 id2
