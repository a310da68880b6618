-- ===== src/Kademlia/Dht/Order.antt =====
-- The order within a bucket: what `addNode` does to it for a known node and for a full bucket.
use supernode.Base.{
  ℕ, ◌∙◌, ◌+◌, ◌≡◌, refl, true, false, Bool, Option, none, some, List, [], ◌∷◌, ◌++◌, Bytes,
  bytes_eq, bytes_eq_iff, ◌==◌, length, get_elem?, set, arith, inl, inr, Bool-cases,
}
use supernode.Kademlia.Node.{Node, set_hashed_id, has_id}
use supernode.Kademlia.BucketIndex.{bucket_index}
use supernode.Kademlia.HashTable.{◌>>=◌, has_bucket_node, refresh_node, move_to_end, offset_of}
use supernode.Kademlia.BanList.{increment_count}
use supernode.Kademlia.BanList.Counts.{failures, failures-increment}
use supernode.Kademlia.Dht.{
  Dht, ReplicationStore, bucket_k, with_bucket, insert_node, enter_node, add_node,
  update_replication_node,
}

offset_of-absent : (b : List Node) (id : Bytes) (i : ℕ) → has_id b id ≡ false → offset_of b id i ≡ 0
unfolding offset_of has_id
offset_of-absent [] id i h = refl
offset_of-absent (n ∷ b) id i h = ground (arith, offset_of-absent b id (i + 1))

-- The state after the replication info is written.
abbrev pub stored : {S : Type 0} → ReplicationStore S → (Bytes → Bytes) → Dht S → Node → ℕ → Dht S
stored ops blake3 d given now = record d {
  store = update_replication_node ops blake3 d.store (set_hashed_id blake3 given) true now;
}

module _ {S : Type 0} (ops : ReplicationStore S) (blake3 : Bytes → Bytes) (d : Dht S) (given : Node)
    (now : ℕ) (reachable : Node → Bool) (i : ℕ) (first : Node) (rest : List Node)
    (other : bytes_eq given.id d.ht.self.id ≡ false)
    (placed : bucket_index d.ht.self.hashed_id (set_hashed_id blake3 given).hashed_id ≡ some i)
    (slot : get_elem? d.ht.route_table i ≡ some (first ∷ rest)) where
  refresh_head :
      has_id (first ∷ rest) (set_hashed_id blake3 given).hashed_id ≡ false
      → refresh_node d.ht (set_hashed_id blake3 given).hashed_id
        ≡ some (record (d.ht) { route_table = set d.ht.route_table i (rest ++ first ∷ []) })
  unfolding refresh_node move_to_end
  refresh_head no_hash =
      rw (placed, ◌>>=◌)
        (rw
          (slot, offset_of-absent (first ∷ rest) (set_hashed_id blake3 given).hashed_id 0 no_hash))

  -- If the node is already in its bucket, and no node of the bucket has the node's hash for an id,
  -- then `addNode` moves the first node of the bucket to the end, whichever node it was called for.
  pub add_node-rotates_first :
      has_id (first ∷ rest) (set_hashed_id blake3 given).id ≡ true
      → has_id (first ∷ rest) (set_hashed_id blake3 given).hashed_id ≡ false
      → add_node ops blake3 d given now reachable
        ≡ some (with_bucket (stored ops blake3 d given now) i (rest ++ first ∷ []), none)
  unfolding add_node enter_node has_bucket_node
  add_node-rotates_first known no_hash =
      rw (other, add_node) (rw (placed, ◌>>=◌) (rw (slot, known, refresh_head no_hash)))

  -- If the bucket is full and the node is not in it, then `addNode` drops the first node of the
  -- bucket and appends the new one, whether the first node answers the ping or not; and it counts
  -- no failure of the first node.
  pub add_node-drops_first :
      length (first ∷ rest) ≡ bucket_k
      → has_id (first ∷ rest) (set_hashed_id blake3 given).id ≡ false
      → (d' : Dht S) × (out : Option Node) × (add_node ops blake3 d given now reachable
          ≡ some (d', out))
        × (d'.ht.route_table ≡ set d.ht.route_table i (rest ++ (set_hashed_id blake3 given) ∷ []))
        × (failures d'.ignorelist.nodes first.id ≡ failures d.ignorelist.nodes first.id)
  unfolding add_node enter_node has_bucket_node has_id increment_count
  add_node-drops_first full new =
      let eq : (length (first ∷ rest) == bucket_k) ≡ true = ground arith in
      let ne : bytes_eq (set_hashed_id blake3 given).id first.id ≡ false = ground (
        arith,
        bytes_eq_iff first.id (set_hashed_id blake3 given).id,
        bytes_eq_iff (set_hashed_id blake3 given).id first.id,
      ) in
      elim (Bool-cases (reachable first)) [
        | inl answers ↦ (
          with_bucket (stored ops blake3 d given now) i (rest ++ (set_hashed_id blake3 given) ∷ []),
          none,
          rw (other, add_node)
              (rw (placed, ◌>>=◌) (rw (slot, new) (rw (slot, insert_node) (rw (eq, answers))))),
          refl,
          refl,
        )
        | inr silent ↦ (
          with_bucket
              (record (stored ops blake3 d given now) {
                ignorelist = increment_count d.ignorelist (set_hashed_id blake3 given) now;
              })
              i (rest ++ (set_hashed_id blake3 given) ∷ []),
          some first,
          rw (other, add_node)
              (rw (placed, ◌>>=◌) (rw (slot, new) (rw (slot, insert_node) (rw (eq, silent))))),
          refl,
          failures-increment d.ignorelist.nodes (set_hashed_id blake3 given) now first.id ∙ rw ne,
        )
      ]
