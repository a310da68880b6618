-- ===== src/Kademlia/Wire/RoundTrip.antt =====
-- A message that is encoded is decoded again, and the stream goes on behind it.
use native.Mathlib.Nat.{add-mul, mul_assoc, mul_left_comm}
use supernode.Base.{
  ℕ, zero, suc, ◌+◌, ◌-◌, ◌*◌, ◌/◌, ◌%◌, ◌≤◌, ◌<◌, ◌≡◌, refl, ap, ◌∙◌, true, false, none, some, [],
  ◌∷◌, ◌++◌, append_assoc, Bytes, length, length-append, length-replicate, ltb, take, drop,
  replicate, arith, Bool-cases, inl, inr, ◌⊎◌, subst,
}
use supernode.Kademlia.Messages.{Message}
use supernode.Kademlia.Wire.{
  Gob, max_payload, is_too_big, put_uvarint, put_header, read_uvarint, read_full, encode, decode,
}

uvarint_weight : (x w : ℕ) → (x % 128) * w + (x / 128) * (128 * w) ≡ x * w
uvarint_weight x w = omega (
  arith,
  ap (λ y. y * w) (split x),
  add-mul (128 * (x / 128)) (x % 128) w,
  mul_assoc 128 (x / 128) w,
  mul_left_comm (x / 128) 128 w,
)
  where
    split : (x : ℕ) → x ≡ 128 * (x / 128) + x % 128
    split x = omega arith

-- Codes for `x` that the reader takes for `x`, whatever follows them.
record IsUvarint (room x : ℕ) (written : Bytes) : Type 0 where
  bounded : length written ≤ room
  read :
      (weight acc : ℕ) (rest : Bytes)
      → read_uvarint weight acc (written ++ rest) ≡ some (acc + x * weight)

limit : ℕ → ℕ
limit zero = 128
limit (suc room) = 128 * limit room

abbrev Written : ℕ → ℕ → Type 0
Written room x = (written : Bytes) × (put_uvarint room x ≡ some written) × IsUvarint room x written

one_byte : (room x : ℕ) → ltb x 128 ≡ true → Written (suc room) x
unfolding put_uvarint read_uvarint
one_byte room x small =
    rw (small, put_uvarint)
      (
        x ∷ [],
        refl,
        record { bounded = omega arith; read = λ weight acc rest. rw (small, read_uvarint) refl },
      )

more_bytes : (room x : ℕ) → ltb x 128 ≡ false → Written room (x / 128) → Written (suc room) x
unfolding put_uvarint read_uvarint
more_bytes room x large (written, e, u) =
    let big : ltb (x % 128 + 128) 128 ≡ false = ground arith in
    let sums : (weight acc : ℕ)
        → acc + (x % 128 + 128 - 128) * weight + (x / 128) * (128 * weight) ≡ acc + x * weight =
      λ weight acc.
        omega (arith, uvarint_weight x weight, ap (λ y. y * weight) (the_low (x % 128))) in
    rw (large, put_uvarint, e)
      (
        (x % 128 + 128) ∷ written,
        refl,
        record {
          bounded = omega (arith, u.bounded);
          read = λ weight acc rest.
              rw (big, read_uvarint) (u.read (128 * weight) _ rest ∙ ap some (sums weight acc));
        },
      )
  where
    the_low : (y : ℕ) → y + 128 - 128 ≡ y
    the_low y = omega arith

put_uvarint-IsUvarint : (room x : ℕ) → x < limit room → Written (suc room) x
unfolding limit
put_uvarint-IsUvarint zero x h = one_byte 0 x (ground (arith, h))
put_uvarint-IsUvarint (suc room) x h = elim (Bool-cases (ltb x 128)) [
  | inl small ↦ one_byte (suc room) x small
  | inr large ↦
      more_bytes (suc room) x large (put_uvarint-IsUvarint room (x / 128) (omega (arith, h)))
]

take-append : (xs ys : Bytes) → take (length xs) (xs ++ ys) ≡ xs
take-append [] ys = refl
take-append (x ∷ xs) ys = ap (◌∷◌ x) (take-append xs ys)

drop-append : (xs ys : Bytes) → drop (length xs) (xs ++ ys) ≡ ys
drop-append [] ys = refl
drop-append (x ∷ xs) ys = drop-append xs ys

read_full-append : (xs ys : Bytes) → read_full (length xs) (xs ++ ys) ≡ some (xs, ys)
unfolding read_full
read_full-append xs ys =
    let long : ltb (length (xs ++ ys)) (length xs) ≡ false = ground (arith, length-append xs ys) in
    rw (long, take-append xs ys, drop-append xs ys) refl

-- A header of 8 bytes that the reader takes for `n`.
put_header-read :
    (n : ℕ)
    → n ≤ max_payload
    → (header : Bytes) × (put_header n ≡ some header)
      × (length header ≡ 8)
      × (read_uvarint 1 0 header ≡ some n)
unfolding put_header limit
put_header-read n h =
    let (written, e, u) = put_uvarint-IsUvarint 7 n (omega (arith, h)) in
    let pad : Bytes = replicate (8 - length written) 0 in
    (
      written ++ pad,
      rw e refl,
      omega (
        arith,
        length-append written pad,
        length-replicate {A = ℕ} (8 - length written) 0,
        u.bounded,
      ),
      u.read 1 0 pad ∙ ap some (omega arith),
    )

module _ (gob : Gob) where
  decode_steps :
      (conn header stream body rest : Bytes) (m : Message)
      → read_full 8 conn ≡ some (header, stream)
      → read_uvarint 1 0 header ≡ some (length body)
      → is_too_big (length body) ≡ false
      → read_full (length body) stream ≡ some (body, rest)
      → gob.decode_message body ≡ some m
      → decode gob conn ≡ some (m, rest)
  unfolding decode
  decode_steps conn header stream body rest m e1 e2 e3 e4 e5 = rw (e1, e2, e3, e4, e5) refl

  -- Where gob decodes the bytes of a message to this message, `encode` of the message is an error
  -- exactly where the bytes are more than 200 MB. Otherwise it gives 8 bytes and these bytes, and
  -- `decode` of a stream that starts with them gives the message and leaves the rest of the stream.
  pub decode-encode :
      (m : Message) (body : Bytes) (rest : Bytes)
      → gob.encode_message m ≡ some body
      → gob.decode_message body ≡ some m
      → ((max_payload < length body) × (encode gob m ≡ none))
        ⊎ ((length body ≤ max_payload)
            × ((data' : Bytes) × (encode gob m ≡ some data')
                × (length data' ≡ 8 + length body)
                × (decode gob (data' ++ rest) ≡ some (m, rest))))
  unfolding encode is_too_big
  decode-encode m body rest e d = elim (Bool-cases (ltb max_payload (length body))) [
    | inl big ↦ inl (ground (arith, big), rw (e, big) refl)
    | inr fits ↦
        let le : length body ≤ max_payload = ground (arith, fits) in
        let (header, h, len, r) = put_header-read (length body) le in
        inr (
          le,
          (
            header ++ body,
            rw (e, fits, h) refl,
            omega (arith, length-append header body, len),
            rw (append_assoc header body rest) (
                decode_steps (header ++ (body ++ rest)) header (body ++ rest) body rest m
                  (subst (λ k. read_full k (header ++ (body ++ rest)) ≡ some (header, body ++ rest))
                    len (read_full-append header (body ++ rest)))
                  r fits (read_full-append body rest) d),
          ),
        )
  ]
