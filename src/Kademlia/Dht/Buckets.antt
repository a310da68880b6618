-- ===== src/Kademlia/Dht/Buckets.antt =====
-- What the operations on one bucket keep.
use mathlib.Core.List.{Perm, perm_middle}
use mathlib.Core.List.Perm
use native.Mathlib.Numerals.{add-one}
use supernode.Base.{
  ℕ, zero, suc, ◌+◌, ◌<◌, ◌≡◌, refl, sym, ap, subst, some, List, [], ◌∷◌, ◌++◌, Bytes, length,
  length-append, get_elem?, take, drop, All, All-append, All-append_left, All-append_right, arith,
  inr, append-nil, append_assoc, ◌⊎◌,
}
use supernode.Kademlia.Node.{Node}
use supernode.Kademlia.HashTable.{move_to_end, offset_of}

-- A list at a position that it has: the elements before, the element, and the elements after.
split_at :
    (o : ℕ) (xs : List Node) (c : Node)
    → get_elem? xs o ≡ some c
    → xs ≡ take o xs ++ c ∷ drop (suc o) xs
split_at zero [] c e = cc
split_at zero (x ∷ xs) c e = cc
split_at (suc o) [] c e = cc
split_at (suc o) (x ∷ xs) c e = ap (◌∷◌ x) (split_at o xs c e)

get_elem?-lt : (o : ℕ) (xs : List Node) → o < length xs → (c : Node) × (get_elem? xs o ≡ some c)
get_elem?-lt o [] h = absurd (omega arith)
get_elem?-lt zero (x ∷ xs) h = (x, refl)
get_elem?-lt (suc o) (x ∷ xs) h = get_elem?-lt o xs (omega arith)

offset_of-lt :
    (xs : List Node) (id : Bytes) (i : ℕ)
    → (offset_of xs id i < i + length xs) ⊎ (offset_of xs id i ≡ 0)
unfolding offset_of
offset_of-lt [] id i = inr refl
offset_of-lt (x ∷ xs) id i = ground (arith, offset_of-lt xs id (i + 1))

moved_perm :
    (front back : List Node) (c : Node) → Perm ((front ++ back) ++ c ∷ []) (front ++ c ∷ back)
moved_perm front back c =
    rw (append_assoc front back (c ∷ []))
      (Perm.append_left front (rw append-nil at (perm_middle {a = c} back [])))

-- What a successful move does: the bucket is some `front ++ c ∷ back`.
pub record Moves (bucket moved : List Node) : Type 0 where
  pub front : List Node
  mover : Node
  back : List Node
  pub before : bucket ≡ front ++ mover ∷ back
  pub after : moved ≡ (front ++ back) ++ mover ∷ []

-- Moving a node to the end of a bucket that is not empty succeeds.
pub move_to_end-Moves :
    (bucket : List Node) (id : Bytes)
    → 0 < length bucket
    → (moved : List Node) × (move_to_end bucket (offset_of bucket id 0) ≡ some moved)
      × Moves bucket moved
unfolding move_to_end
move_to_end-Moves bucket id h =
    let o = offset_of bucket id 0 in
    let lt : o < length bucket = ground (arith, offset_of-lt bucket id 0) in
    let (c, e) = get_elem?-lt o bucket lt in
    (
      (take o bucket ++ drop (suc o) bucket) ++ c ∷ [],
      rw (e, add-one o),
      record {
        front = take o bucket;
        mover = c;
        back = drop (suc o) bucket;
        before = split_at o bucket c e;
        after = refl;
      },
    )

module _ {bucket moved : List Node} (m : Moves bucket moved) where
  pub Moves-perm : Perm bucket moved
  Moves-perm =
      subst (λ b. Perm b moved) (sym m.before)
        (subst (λ b. Perm (m.front ++ m.mover ∷ m.back) b) (sym m.after)
          (Perm.symm (moved_perm m.front m.back m.mover)))

  pub Moves-length : length moved ≡ length bucket
  Moves-length = omega (
    arith,
    ap length m.before,
    ap length m.after,
    length-append (m.front ++ m.back) (m.mover ∷ []),
    length-append m.front m.back,
    length-append m.front (m.mover ∷ m.back),
  )

  pub Moves-All {κ} : (P : Node → Type κ) → All P bucket → All P moved
  Moves-All P all =
      let split = subst (All P) m.before all in
      let later = All-append_right P m.front (m.mover ∷ m.back) split in
      subst (All P) (sym m.after) (
        All-append P (m.front ++ m.back) (m.mover ∷ [])
          (All-append P m.front m.back (All-append_left P m.front (m.mover ∷ m.back) split) later.1)
          (later.0, tt))
