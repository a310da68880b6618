-- ===== src/Kademlia/Dht/Adding.antt =====
-- `addNode`: it never panics, keeps the invariant of the table, and the node is in the table after.
use supernode.Base.{
  ℕ, ◌<◌, ◌≡◌, refl, sym, ap, ◌∙◌, subst, true, false, not, Bool, Option, none, some, List, [], ◌∷◌,
  ◌++◌, Bytes, bytes_eq, bytes_eq_iff, bytes_eq_refl, ◌==◌, length, length-append, get_elem?, set,
  All, All-append, arith, ◌⊎◌, inl, inr, Bool-cases, ltb,
}
use supernode.Kademlia.Node.{Node, set_hashed_id, has_id}
use supernode.Kademlia.Node.Unique.{IsUnique, snoc-IsUnique, has_id-append}
use supernode.Kademlia.Node.Permuted.{IsUnique-perm, has_id-perm}
use supernode.Kademlia.BucketIndex.{bits_b, bucket_index}
use supernode.Kademlia.BucketIndex.Distance.{IsDigest, bucket_index_total}
use supernode.Kademlia.HashTable.{HashTable, ◌>>=◌, has_bucket_node, has_node, refresh_node}
use supernode.Kademlia.Dht.{
  Dht, ReplicationStore, bucket_k, insert_full, insert_node, enter_node, add_node,
  update_replication_node,
}
use supernode.Kademlia.Dht.Buckets.{move_to_end-Moves, Moves-perm, Moves-length, Moves-All}
use supernode.Kademlia.Dht.Table.{
  Belongs, IsBucket, IsRoutable, set-IsRoutable, slot-IsBucket, has_node-set, has_node_self,
}

-- The node carries no hash yet, or its own.
abbrev pub IsHashable : (Bytes → Bytes) → Node → Type 0
IsHashable blake3 n = (n.hashed_id ≡ []) ⊎ (n.hashed_id ≡ blake3 n.id)

module _ (blake3 : Bytes → Bytes) where
  pub set_hashed_id-hashed :
      (n : Node)
      → IsHashable blake3 n
      → ((set_hashed_id blake3 n).hashed_id ≡ blake3 n.id) × ((set_hashed_id blake3 n).id ≡ n.id)
  unfolding set_hashed_id
  set_hashed_id-hashed n (inl e) = rw e (refl, refl)
  set_hashed_id-hashed n (inr e) = elim (Bool-cases (ltb 0 (length n.hashed_id))) [
    | inl long ↦ rw long (e, refl)
    | inr short ↦ rw short (refl, refl)
  ]

length-pos : (b : List Node) (id : Bytes) → has_id b id ≡ true → 0 < length b
unfolding has_id
length-pos [] id h = cc
length-pos (x ∷ b) id h = omega arith

has_id-snoc : (b : List Node) (n : Node) → has_id (b ++ n ∷ []) n.id ≡ true
unfolding has_id
has_id-snoc b n = ground (arith, has_id-append b (n ∷ []) n.id, bytes_eq_refl n.id)

-- The end of a bucket, where the new node goes.
module _ (blake3 : Bytes → Bytes) (self : Node) (i : ℕ) (n : Node)
    (belongs : Belongs blake3 self i n) where
  snoc-IsBucket :
      (b : List Node)
      → IsUnique b
      → length b < bucket_k
      → All (Belongs blake3 self i) b
      → has_id b n.id ≡ false
      → IsBucket blake3 self i (b ++ n ∷ [])
  snoc-IsBucket b u short all new = record {
    distinct = snoc-IsUnique b n u new;
    bounded = omega (arith, length-append b (n ∷ []));
    members = All-append (Belongs blake3 self i) b (n ∷ []) all (belongs, tt);
  }

module _ {S : Type 0} (ops : ReplicationStore S) (blake3 : Bytes → Bytes) (d : Dht S) where
  -- What a step gives: the invariant, and the node in the table.
  pub record Added (id : Bytes) (d' : Dht S) : Type 0 where
    routable : IsRoutable blake3 d'.ht
    present : has_node d'.ht id ≡ true
    same_self : d'.ht.self ≡ d.ht.self

  module _ (r : IsRoutable blake3 d.ht) (i : ℕ) (lt : i < bits_b) (n : Node) where
    abbrev with_slot : List Node → HashTable
    with_slot bucket = record (d.ht) { route_table = set d.ht.route_table i bucket }

    put-Added :
        (d' : Dht S) (bucket : List Node)
        → d'.ht ≡ with_slot bucket
        → IsBucket blake3 d.ht.self i bucket
        → has_id bucket n.id ≡ true
        → Added n.id d'
    put-Added d' bucket e b has = record {
      routable = subst (IsRoutable blake3) (sym e) (set-IsRoutable r i bucket b);
      present =
          subst (λ h. has_node h n.id ≡ true) (sym e)
            (has_node-set n.id d.ht i bucket (omega (arith, r.buckets)) has);
      same_self = ap (λ h. h.self) e;
    }

    -- The result of a step that ended well.
    abbrev Ends : Option (Dht S × Option Node) → Type 0
    Ends res = (d' : Dht S) × (out : Option Node) × (res ≡ some (d', out)) × Added n.id d'

    full-Ends :
        (now : ℕ) (reachable : Node → Bool) (bucket : List Node)
        → length bucket ≡ bucket_k
        → IsBucket blake3 d.ht.self i bucket
        → Belongs blake3 d.ht.self i n
        → has_id bucket n.id ≡ false
        → Ends (insert_full ops blake3 d i n now reachable bucket)
    unfolding insert_full has_id
    full-Ends now reachable [] full b belongs new = absurd (omega arith)
    full-Ends now reachable (first ∷ rest) full b belongs new =
        let b' =
          snoc-IsBucket blake3 d.ht.self i n belongs rest b.distinct.1 (omega arith) b.members.1
            (ground arith) in
        elim (Bool-cases (reachable first)) [
          | inl yes' ↦
              rw yes' (_, none, refl, put-Added _ (rest ++ n ∷ []) refl b' (has_id-snoc rest n))
          | inr no' ↦
              rw no'
                (_, some first, refl, put-Added _ (rest ++ n ∷ []) refl b' (has_id-snoc rest n))
        ]

    insert-Ends :
        (now : ℕ) (reachable : Node → Bool) (bucket : List Node)
        → get_elem? d.ht.route_table i ≡ some bucket
        → IsBucket blake3 d.ht.self i bucket
        → Belongs blake3 d.ht.self i n
        → has_id bucket n.id ≡ false
        → Ends (insert_node ops blake3 d i n now reachable)
    unfolding insert_node
    insert-Ends now reachable bucket e b belongs new =
        elim (Bool-cases (length bucket == bucket_k)) [
          | inl full ↦ rw (e, full) (full-Ends now reachable bucket (ground arith) b belongs new)
          | inr room ↦
              let b' =
                snoc-IsBucket blake3 d.ht.self i n belongs bucket b.distinct
                  (ground (arith, b.bounded)) b.members new in
              rw (e, room)
                (_, none, refl, put-Added _ (bucket ++ n ∷ []) refl b' (has_id-snoc bucket n))
        ]

    refresh-Ends :
        (bucket : List Node)
        → get_elem? d.ht.route_table i ≡ some bucket
        → IsBucket blake3 d.ht.self i bucket
        → bucket_index d.ht.self.hashed_id n.hashed_id ≡ some i
        → has_id bucket n.id ≡ true
        → (ht : HashTable) × (refresh_node d.ht n.hashed_id ≡ some ht)
          × Added n.id (record d { ht = ht })
    unfolding refresh_node
    refresh-Ends bucket e b placed known =
        let (moved, done, m) =
          move_to_end-Moves bucket n.hashed_id (length-pos bucket n.id known) in
        let b' : IsBucket blake3 d.ht.self i moved = record {
          distinct = IsUnique-perm (Moves-perm m) b.distinct;
          bounded = omega (arith, Moves-length m, b.bounded);
          members = Moves-All m (Belongs blake3 d.ht.self i) b.members;
        } in
        (
          with_slot moved,
          rw (placed, ◌>>=◌) (rw (e, done)),
          put-Added _ moved refl b' (sym (has_id-perm n.id (Moves-perm m)) ∙ known),
        )

    enter-Ends :
        (now : ℕ) (reachable : Node → Bool)
        → Belongs blake3 d.ht.self i n
        → Ends (enter_node ops blake3 d i n now reachable)
    unfolding enter_node has_bucket_node
    enter-Ends now reachable belongs =
        let (bucket, e, b) = slot-IsBucket r i lt in
        elim (Bool-cases (has_id bucket n.id)) [
          | inl known ↦
              let (ht, done, added) = refresh-Ends bucket e b belongs.placed known in
              rw (e, known, done) (record d { ht = ht }, none, refl, added)
          | inr new ↦ rw (e, new) (insert-Ends now reachable bucket e b belongs new)
        ]

module _ {S : Type 0} (ops : ReplicationStore S) (blake3 : Bytes → Bytes) where
  -- On a table that keeps the invariant, with digests of 32 bytes, `addNode` of a node that carries
  -- no foreign hash returns without a panic, keeps the invariant, and the node is in the table
  -- afterwards unless it is the table's own node.
  pub add_node-IsRoutable :
      (d : Dht S) (given : Node) (now : ℕ) (reachable : Node → Bool)
      → ((x : Bytes) → IsDigest (blake3 x))
      → IsRoutable blake3 d.ht
      → IsHashable blake3 given
      → (d' : Dht S) × (out : Option Node) × (add_node ops blake3 d given now reachable
          ≡ some (d', out))
        × IsRoutable blake3 d'.ht
        × (has_node d'.ht given.id ≡ not (bytes_eq given.id d.ht.self.id))
  unfolding add_node
  add_node-IsRoutable d given now reachable digest r hashable =
      elim (Bool-cases (bytes_eq given.id d.ht.self.id)) [
        | inl own ↦
            let e : given.id ≡ d.ht.self.id = (bytes_eq_iff given.id d.ht.self.id).0 own in
            rw (own, add_node) (d, none, refl, r, rw e (has_node_self blake3 d.ht r))
        | inr other ↦
            let n = set_hashed_id blake3 given in
            let (hashed, same) = set_hashed_id-hashed blake3 given hashable in
            let digest_self : IsDigest d.ht.self.hashed_id =
              rw r.self_hashed (digest d.ht.self.id) in
            let digest_n : IsDigest n.hashed_id = rw hashed (digest given.id) in
            let (i, placed, lt) =
              bucket_index_total d.ht.self.hashed_id n.hashed_id digest_self digest_n in
            let belongs : Belongs blake3 d.ht.self i n = record {
              other = rw same other;
              hashed = hashed ∙ ap blake3 (sym same);
              placed = placed;
            } in
            let d1 : Dht S = record d {
              store = update_replication_node ops blake3 d.store n true now;
            } in
            let (d', out, done, added) = enter-Ends ops blake3 d1 r i lt n now reachable belongs in
            rw (other, add_node)
              (rw (placed, ◌>>=◌)
                (
                  d',
                  out,
                  done,
                  added.routable,
                  subst (λ x. has_node d'.ht x ≡ true) same added.present,
                ))
      ]
