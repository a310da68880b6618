-- ===== src/Kademlia/RedundantExamples.antt =====
-- The theorems on redundant keys at a small network.
use supernode.Base.{
  ℕ, suc, ◌≡◌, refl, true, Bool, ◌&&◌, not, some, List, [], ◌∷◌, Bytes, leb, length, arith,
}
use supernode.Kademlia.Node.{has_id}
use supernode.Kademlia.Node.Sorting.{insertion_sorter}
use supernode.Kademlia.HashTable.{has_key}
use supernode.Kademlia.Dht.{Dht, NodeReplicationInfo}
use supernode.Kademlia.Lookup.{Env}
use supernode.Kademlia.Redundant.{DelKey, delete_batches, redundant_keys}
use supernode.Kademlia.Redundant.Classified.{has_del_key, nearest, redundant_keys-nearest}
use supernode.Kademlia.Redundant.Deleting.{Deleted, delete_batches-Deleted}
use supernode.Kademlia.Toys.{toy_hash, toy_ops, ann, bob, table_of, dht_of, silent_peers}

abbrev quiet_env : Env (List NodeReplicationInfo)
quiet_env = record {
  ops = toy_ops;
  blake3 = toy_hash;
  sorter = insertion_sorter;
  peers = silent_peers;
  host_ip = [];
}

abbrev pair_dht : Dht (List NodeReplicationInfo)
pair_dht = dht_of (table_of 254 (ann ∷ bob ∷ []))

-- The keys are hex texts.
abbrev key_02 : Bytes
key_02 = b'0' ∷ b'2' ∷ []

redundant_keys-nearest_example :
    let (insert_keys, remove_keys) = redundant_keys quiet_env pair_dht (λ k. 5) (key_02 ∷ []) in
    let ns = (nearest quiet_env pair_dht key_02).nodes in
    (has_del_key insert_keys key_02 ≡ (
      has_key (key_02 ∷ []) key_02 && (leb 3 (length ns) && not (has_id ns pair_dht.ht.self.id))))
    × (has_del_key remove_keys key_02
        ≡ (has_key (key_02 ∷ []) key_02 && (leb 3 (length ns) && has_id ns pair_dht.ht.self.id)))
redundant_keys-nearest_example =
    redundant_keys-nearest quiet_env pair_dht (λ k. 5) (key_02 ∷ []) key_02 (omega arith)

abbrev marked : DelKey
marked = record { key = key_02; created_at = 5; nodes = []; count = 11 }

-- A store that counts its calls.
abbrev counting : ℕ → List Bytes → ℕ × Bool
counting s keys = (suc s, true)

delete_batches-Deleted_example :
    (s' : ℕ) × (rest : List DelKey) × (delete_batches (λ k. some true) counting 1 0 7 (marked ∷ [])
      ≡ some (s', rest))
    × Deleted (λ k. some true) counting 0 7 (marked ∷ []) s' rest
delete_batches-Deleted_example =
    delete_batches-Deleted (λ k. some true) counting 1 0 7 (marked ∷ []) (omega arith)

test_deleted : delete_batches (λ k. some true) counting 1 0 7 (marked ∷ []) ≡ some (8, [])
unfolding delete_batches
test_deleted = refl
