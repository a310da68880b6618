-- ===== src/Kademlia/BucketIndex/Distance.antt =====
-- The bucket of a node is the binary logarithm of its XOR distance.
use native.Mathlib.Nat.{mul-le-mul_right, mul-le-mul_left}
use supernode.Base.{
  ℕ, suc, ◌+◌, ◌-◌, ◌*◌, ◌^◌, ◌≤◌, ◌<◌, ◌≡◌, ◌≢◌, refl, sym, subst, ap, ap₂, ◌∙◌, Bool, true, ◌&&◌,
  Option, none, some, [], ◌∷◌, bit_xor, Bytes, ltb, leb, ◌==◌, length, All, arith, Option-cases,
  Bool-cases, bytes_eq, bytes_eq_iff, inl, inr, ◌⊎◌,
}
use supernode.Base.Xor.{bit_xor-lt, bit_xor_parts, bit_xor-eq_zero, zero-bit_xor, bit_xor_self}
use supernode.Base.Table.{holds_below, holds_below_at, two_pow-add}
use supernode.Kademlia.Node.{set_bytes_from, distance}
use supernode.Kademlia.BucketIndex.{
  bits_b, has_bit, first_bit, bucket_of_bit, bucket_loop, bucket_index,
}

abbrev IsByte : ℕ → Type 0
IsByte x = x < 256

-- What the scan of a byte finds: its highest bit, counted from the left.
abbrev scan_test : ℕ → Bool
scan_test x = elim (first_bit 8 0 x) [
  | none ↦ x == 0
  | some i ↦ ltb i 8 && (leb (2 ^ (7 - i)) x && ltb x (2 ^ (8 - i)))
]

scan_table : holds_below scan_test 256 ≡ true
unfolding holds_below first_bit has_bit
scan_table = refl

scan_cases :
    (x : ℕ)
    → x < 256
    → ((first_bit 8 0 x ≡ none) × (x ≡ 0))
      ⊎ ((i : ℕ) × (first_bit 8 0 x ≡ some i) × (i < 8) × (2 ^ (7 - i) ≤ x) × (x < 2 ^ (8 - i)))
scan_cases x h = elim (Option-cases (first_bit 8 0 x)) [
  | inl e ↦ inl (e, ground (arith, holds_below_at scan_test 256 x h scan_table))
  | inr (i, e) ↦
      let t : scan_test x ≡ true = holds_below_at scan_test 256 x h scan_table in
      inr (i, e, ground arith, ground arith, ground arith)
]

-- The bytes of the XOR, one by one.
abbrev xor_bytes : Bytes → Bytes → Bytes
xor_bytes [] bs = []
xor_bytes (a ∷ as') [] = []
xor_bytes (a ∷ as') (b ∷ bs) = bit_xor a b ∷ xor_bytes as' bs

set_bytes_from-xor :
    (p q : ℕ) (as' bs : Bytes)
    → All IsByte as'
    → All IsByte bs
    → length as' ≡ length bs
    → bit_xor (set_bytes_from p as') (set_bytes_from q bs)
      ≡ set_bytes_from (bit_xor p q) (xor_bytes as' bs)
unfolding set_bytes_from
set_bytes_from-xor p q [] [] ha hb e = refl
set_bytes_from-xor p q [] (b ∷ bs) ha hb e = absurd (omega arith)
set_bytes_from-xor p q (a ∷ as') [] ha hb e = absurd (omega arith)
set_bytes_from-xor p q (a ∷ as') (b ∷ bs) ha hb e =
    let head : bit_xor (256 * p + a) (256 * q + b) ≡ 256 * bit_xor p q + bit_xor a b =
      ap₂ bit_xor (turn p a) (turn q b)
      ∙ bit_xor_parts 8 p q a b ha.0 hb.0
      ∙ sym (turn (bit_xor p q) (bit_xor a b)) in
    set_bytes_from-xor (256 * p + a) (256 * q + b) as' bs ha.1 hb.1 (omega arith)
    ∙ ap (λ t. set_bytes_from t (xor_bytes as' bs)) head
  where
    turn : (t z : ℕ) → 256 * t + z ≡ t * 2 ^ 8 + z
    turn t z = omega arith

xor_bytes-IsByte : (as' bs : Bytes) → All IsByte as' → All IsByte bs → All IsByte (xor_bytes as' bs)
xor_bytes-IsByte [] bs ha hb = tt
xor_bytes-IsByte (a ∷ as') [] ha hb = tt
xor_bytes-IsByte (a ∷ as') (b ∷ bs) ha hb =
    (bit_xor-lt 8 a b ha.0 hb.0, xor_bytes-IsByte as' bs ha.1 hb.1)

length-xor_bytes : (as' bs : Bytes) → length as' ≡ length bs → length (xor_bytes as' bs) ≡ length bs
length-xor_bytes [] [] e = refl
length-xor_bytes [] (b ∷ bs) e = absurd (omega arith)
length-xor_bytes (a ∷ as') [] e = absurd (omega arith)
length-xor_bytes (a ∷ as') (b ∷ bs) e = omega (arith, length-xor_bytes as' bs (omega arith))

-- The weight of a byte that `n` bytes follow.
abbrev weight : ℕ → ℕ
weight n = 2 ^ (8 * n)

weight-suc : (n : ℕ) → weight (suc n) ≡ 256 * weight n
weight-suc n = ap (λ t. 2 ^ t) (eight n) ∙ two_pow-add 8 (8 * n)
  where
    eight : (n : ℕ) → 8 * suc n ≡ 8 + 8 * n
    eight n = omega arith

set_bytes_from-split :
    (acc : ℕ) (l : Bytes) → set_bytes_from acc l ≡ acc * weight (length l) + set_bytes_from 0 l
unfolding set_bytes_from
set_bytes_from-split acc [] = omega arith
set_bytes_from-split acc (x ∷ l) =
    let w = weight-suc (length l) in
    omega (
      arith,
      set_bytes_from-split (256 * acc + x) l,
      set_bytes_from-split (256 * 0 + x) l,
      ap (λ (t : ℕ). acc * t) w,
    )

set_bytes_from-lt : (l : Bytes) → All IsByte l → set_bytes_from 0 l < weight (length l)
unfolding set_bytes_from
set_bytes_from-lt [] h = omega arith
set_bytes_from-lt (x ∷ l) h =
    let bound : x * weight (length l) ≤ 255 * weight (length l) =
      mul-le-mul_right (weight (length l)) (omega arith) in
    omega
      (arith, set_bytes_from-split (256 * 0 + x) l, set_bytes_from-lt l h.1, weight-suc (length l))

-- `i` is the bucket that the loop finds at distance `v`, which has `i` as its binary logarithm.
abbrev pub Found : Option ℕ → ℕ → ℕ → Type 0
Found r v i = (r ≡ some i) × (2 ^ i ≤ v) × (v < 2 ^ suc i) × (i < bits_b)

-- The first byte that differs decides: `x` is its XOR, `k` its highest bit, `n` bytes follow.
first_byte-bounds :
    (x k n rest : ℕ)
    → k < 8
    → 2 ^ (7 - k) ≤ x
    → x < 2 ^ (8 - k)
    → rest < weight n
    → (2 ^ (8 * n + (7 - k)) ≤ x * weight n + rest)
      × (x * weight n + rest < 2 ^ suc (8 * n + (7 - k)))
first_byte-bounds x k n rest hk lo hi hr = (
  omega (arith, two_pow-add (8 * n) (7 - k), mul-le-mul_left (weight n) lo),
  omega
      (arith, ap (λ t. 2 ^ t) exponent, two_pow-add (8 * n) (8 - k), mul-le-mul_left (weight n) hi),
)
  where
    exponent : suc (8 * n + (7 - k)) ≡ 8 * n + (8 - k)
    exponent = omega arith

head_value :
    (x n : ℕ) (l : Bytes)
    → length l ≡ n
    → set_bytes_from (256 * 0 + x) l ≡ x * weight n + set_bytes_from 0 l
head_value x n l e =
    ap (λ t. set_bytes_from t l) front
    ∙ set_bytes_from-split x l
    ∙ ap (λ m. x * weight m + set_bytes_from 0 l) e
  where
    front : 256 * 0 + x ≡ x
    front = omega arith

module _ (a b : ℕ) (as' bs : Bytes) where
  loop_step-Found :
      (j : ℕ)
      → a < 256
      → b < 256
      → All IsByte as'
      → All IsByte bs
      → length as' ≡ length bs
      → j + suc (length as') ≡ 32
      → (a ≡ b
          → (i : ℕ) × Found (bucket_loop (j + 1) as' bs) (set_bytes_from 0 (xor_bytes as' bs)) i)
      → (i : ℕ) × Found
          (bucket_loop j (a ∷ as') (b ∷ bs))
          (set_bytes_from 0 (xor_bytes (a ∷ as') (b ∷ bs)))
          i
  unfolding bucket_loop bucket_of_bit set_bytes_from
  loop_step-Found j ha hb has hbs e hj later =
      elim (scan_cases (bit_xor a b) (bit_xor-lt 8 a b ha hb)) [
        | inl (same, zero_xor) ↦
            let (i, f) = later (bit_xor-eq_zero 256 a b (omega arith) (omega arith) zero_xor) in
            (i, rw (same, bucket_loop) (rw zero_xor f))
        | inr (k, found, hk, lo, hi) ↦
            let n = length bs in
            let rest = set_bytes_from 0 (xor_bytes as' bs) in
            let bound : rest < weight n =
              subst (λ m. rest < weight m) (length-xor_bytes as' bs e)
                (set_bytes_from-lt (xor_bytes as' bs) (xor_bytes-IsByte as' bs has hbs)) in
            let v = head_value (bit_xor a b) n (xor_bytes as' bs) (length-xor_bytes as' bs e) in
            let bounds = first_byte-bounds (bit_xor a b) k n rest hk lo hi bound in
            (
              8 * n + (7 - k),
              (rw (found, bucket_loop) (ground arith), rw v bounds.0, rw v bounds.1, omega arith),
            )
      ]

loop-Found :
    (j : ℕ) (as' bs : Bytes)
    → All IsByte as'
    → All IsByte bs
    → length as' ≡ length bs
    → j + length as' ≡ 32
    → as' ≢ bs
    → (i : ℕ) × Found (bucket_loop j as' bs) (set_bytes_from 0 (xor_bytes as' bs)) i
loop-Found j [] [] ha hb e hj ne = absurd (ne refl)
loop-Found j [] (b ∷ bs) ha hb e hj ne = absurd (omega arith)
loop-Found j (a ∷ as') [] ha hb e hj ne = absurd (omega arith)
loop-Found j (a ∷ as') (b ∷ bs) ha hb e hj ne =
    loop_step-Found a b as' bs j ha.0 hb.0 ha.1 hb.1 (omega arith) hj λ same.
      loop-Found (j + 1) as' bs ha.1 hb.1 (omega arith) (omega arith) (λ eq. ne (ap₂ ◌∷◌ same eq))

-- For two different ids of 32 bytes `bucketIndex` returns, without a panic, a bucket `i` below 256
-- that is the binary logarithm of their XOR distance: 2 ^ i ≤ distance < 2 ^ (i + 1).
pub bucket_index-distance :
    (id1 id2 : Bytes)
    → All IsByte id1
    → All IsByte id2
    → length id1 ≡ 32
    → length id2 ≡ 32
    → id1 ≢ id2
    → (i : ℕ) × Found (bucket_index id1 id2) (distance id1 id2) i
unfolding bucket_index distance
bucket_index-distance id1 id2 h1 h2 l1 l2 ne =
    let e : length id1 ≡ length id2 = l1 ∙ sym l2 in
    let (i, f) = loop-Found 0 id1 id2 h1 h2 e (omega arith) ne in
    let d : bit_xor (set_bytes_from 0 id1) (set_bytes_from 0 id2)
        ≡ set_bytes_from 0 (xor_bytes id1 id2) =
      set_bytes_from-xor 0 0 id1 id2 h1 h2 e
      ∙ ap (λ t. set_bytes_from t (xor_bytes id1 id2)) (zero-bit_xor 0) in
    (i, rw d f)

-- What the hash function gives: 32 bytes.
abbrev pub IsDigest : Bytes → Type 0
IsDigest d = All IsByte d × (length d ≡ 32)

loop_self : (j : ℕ) (d : Bytes) → All IsByte d → bucket_loop j d d ≡ some 0
unfolding bucket_loop
loop_self j [] h = refl
loop_self j (a ∷ d) h =
    let same : first_bit 8 0 (bit_xor a a) ≡ none =
      rw (bit_xor_self 256 a (omega arith)) scan_zero in
    rw (same, bucket_loop) (loop_self (j + 1) d h.1)
  where
    scan_zero : first_bit 8 0 0 ≡ none
    scan_zero = refl

-- Between two digests there always is a bucket.
pub bucket_index_total :
    (a b : Bytes) → IsDigest a → IsDigest b → (i : ℕ) × (bucket_index a b ≡ some i) × (i < bits_b)
unfolding bucket_index
bucket_index_total a b ha hb = elim (Bool-cases (bytes_eq a b)) [
  | inl same ↦
      let e : a ≡ b = (bytes_eq_iff a b).0 same in (0, rw (← e) (loop_self 0 a ha.0), omega arith)
  | inr ne ↦
      let differ : a ≢ b = λ e. ground (arith, bytes_eq_iff a b) in
      let (i, f) = bucket_index-distance a b ha.0 hb.0 ha.1 hb.1 differ in (i, f.0, f.3)
]
