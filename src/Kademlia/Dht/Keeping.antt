-- ===== src/Kademlia/Dht/Keeping.antt =====
-- `addNode` and the store: what the store's calls for replication keep, `addNode` keeps.
use supernode.Base.{
  ℕ, ◌≡◌, refl, subst, ap, ◌∙◌, true, false, Bool, Option, none, some, List, [], ◌∷◌, Bytes,
  bytes_eq, length, get_elem?, ◌==◌, Bool-cases, Option-cases, inl, inr, if◌then◌else◌,
}
use supernode.Kademlia.Node.{Node, set_hashed_id}
use supernode.Kademlia.BucketIndex.{bucket_index}
use supernode.Kademlia.HashTable.{◌>>=◌, has_bucket_node, refresh_node}
use supernode.Kademlia.Dht.{
  Dht, ReplicationStore, NodeReplicationInfo, update_replication_node, insert_full, insert_node,
  enter_node, add_node, bucket_k,
}

module _ {S : Type 0} (ops : ReplicationStore S) (blake3 : Bytes → Bytes) where
  -- A result, if there is one, has the store.
  abbrev HasStore : S → Option (Dht S × Option Node) → Type 0
  HasStore s none = Unit
  HasStore s (some r) = r.0.store ≡ s

  bind-HasStore :
      {A : Type 0} (s : S) (m : Option A) (g : A → Option (Dht S × Option Node))
      → ((a : A) → HasStore s (g a))
      → HasStore s (m >>= g)
  bind-HasStore s none g h = tt
  bind-HasStore s (some a) g h = h a

  if-HasStore :
      (s : S) (b : Bool) (x y : Option (Dht S × Option Node))
      → HasStore s x
      → HasStore s y
      → HasStore s (if b then x else y)
  if-HasStore s true x y hx hy = hx
  if-HasStore s false x y hx hy = hy

  insert_full-HasStore :
      (d : Dht S) (index : ℕ) (node : Node) (now : ℕ) (reachable : Node → Bool) (bucket : List Node)
      → HasStore d.store (insert_full ops blake3 d index node now reachable bucket)
  unfolding insert_full
  insert_full-HasStore d index node now reachable [] = tt
  insert_full-HasStore d index node now reachable (first ∷ rest) =
      elim (Bool-cases (reachable first)) [ inl yes' ↦ rw yes' refl | inr no' ↦ rw no' refl ]

  enter_node-HasStore :
      (d : Dht S) (index : ℕ) (node : Node) (now : ℕ) (reachable : Node → Bool)
      → HasStore d.store (enter_node ops blake3 d index node now reachable)
  unfolding enter_node insert_node
  enter_node-HasStore d index node now reachable =
      bind-HasStore d.store (has_bucket_node d.ht index node.id) _ (known_or_new)
    where
      known_or_new :
          (known : Bool)
          → HasStore d.store (elim known [
            | true ↦ refresh_node d.ht node.hashed_id >>= λ ht. some (record d { ht = ht }, none)
            | false ↦ insert_node ops blake3 d index node now reachable
          ])
      known_or_new true = bind-HasStore d.store (refresh_node d.ht node.hashed_id) _ (λ ht. refl)
      known_or_new false = bind-HasStore d.store (get_elem? d.ht.route_table index) _ (λ bucket.
          if-HasStore d.store (length bucket == bucket_k) _ _
            (insert_full-HasStore d index node now reachable bucket) refl)

  module _ {X : Type 0} (f : S → X)
      (update : (s : S) (info : NodeReplicationInfo) → f (ops.update_replication_info s info) ≡ f s)
      (add : (s : S) (info : NodeReplicationInfo) → f (ops.add_replication_info s info) ≡ f s) where
    update_replication_node-keeps :
        (s : S) (node : Node) (active : Bool) (now : ℕ)
        → f (update_replication_node ops blake3 s node active now) ≡ f s
    unfolding update_replication_node
    update_replication_node-keeps s node active now =
        elim (Option-cases (ops.record_exists s node.id)) [
          | inl e ↦ rw (e, update_replication_node) refl
          | inr (known, e) ↦ elim (Bool-cases known) [
            | inl k ↦ rw (e, update_replication_node) (rw k (update s _))
            | inr k ↦ rw (e, update_replication_node) (rw k (add s _))
          ]
        ]

    pub add_node-keeps :
        (d : Dht S) (given : Node) (now : ℕ) (reachable : Node → Bool) (d' : Dht S)
        (out : Option Node)
        → add_node ops blake3 d given now reachable ≡ some (d', out)
        → f d'.store ≡ f d.store
    unfolding add_node
    add_node-keeps d given now reachable d' out e =
        elim (Bool-cases (bytes_eq given.id d.ht.self.id)) [
          | inl own ↦
              let kept : HasStore d.store (add_node ops blake3 d given now reachable) =
                rw (own, add_node) refl in
              ap f (subst (HasStore d.store) e kept)
          | inr other ↦
              let node = set_hashed_id blake3 given in
              let d1 : Dht S = record d {
                store = update_replication_node ops blake3 d.store node true now;
              } in
              let kept : HasStore d1.store (add_node ops blake3 d given now reachable) =
                rw (other, add_node)
                  (bind-HasStore d1.store (bucket_index d.ht.self.hashed_id node.hashed_id) _
                    (λ index. enter_node-HasStore d1 index node now reachable)) in
              ap f (subst (HasStore d1.store) e kept)
              ∙ update_replication_node-keeps d.store node true now
        ]
