-- ===== src/Kademlia/Examples.antt =====
-- The theorems on the route table and the ban list at concrete nodes, and tests of the code.
use supernode.Base.{
  ℕ, zero, suc, ◌+◌, ◌*◌, ◌≡◌, refl, true, ◌&&◌, not, Option, none, some, List, [], ◌∷◌, ◌++◌, inr,
  bytes_eq, length, set, replicate, min, arith,
}
use supernode.Kademlia.Node.{Node, has_id, set_hashed_id, distance_to, distance, node_ids}
use supernode.Kademlia.Node.Sorting.{insertion_sorter, IsSortedBy}
use supernode.Kademlia.Node.Unique.{IsUnique}
use supernode.Kademlia.BucketIndex.{bucket_index}
use supernode.Kademlia.BucketIndex.Distance.{Found, bucket_index-distance}
use supernode.Kademlia.HashTable.{
  has_node, closest_contacts, closest_contacts_with_including_node,
  closest_contacts_with_including_node_list, total_count,
}
use supernode.Kademlia.HashTable.Closest.{HasIds, closest_contacts-nearest}
use supernode.Kademlia.HashTable.Including.{including_node-ignores_none}
use supernode.Kademlia.BanList.{BanList, is_listed, purge}
use supernode.Kademlia.BanList.Counts.{IsCounted, failures}
use supernode.Kademlia.BanList.Purging.{survivors, purge-survivors}
use supernode.Kademlia.Dht.{Dht, NodeReplicationInfo, add_node, with_bucket}
use supernode.Kademlia.Dht.Table.{IsRoutable}
use supernode.Kademlia.Dht.Adding.{add_node-IsRoutable}
use supernode.Kademlia.Dht.Order.{add_node-rotates_first, add_node-drops_first, stored}
use supernode.Kademlia.Toys.{
  toy_hash, toy_hash-IsDigest, toy_node, me, ann, bob, toy_ops, table_of, dht_of, empty_table,
  empty_table-IsRoutable, two, small_table,
}

closest_contacts-nearest_example :
    (rest : List Node) × IsUnique
      ((closest_contacts insertion_sorter (table_of 249 two.nodes) 1 [] []).0.nodes ++ rest)
    × HasIds
        ((closest_contacts insertion_sorter (table_of 249 two.nodes) 1 [] []).0.nodes ++ rest)
        (λ id. has_node (table_of 249 two.nodes) id && not (has_id [] id))
    × (length (closest_contacts insertion_sorter (table_of 249 two.nodes) 1 [] []).0.nodes
        ≡ min 1 (
            length (
              (closest_contacts insertion_sorter (table_of 249 two.nodes) 1 [] []).0.nodes
              ++ rest)))
    × IsSortedBy
        (distance_to [])
        ((closest_contacts insertion_sorter (table_of 249 two.nodes) 1 [] []).0.nodes ++ rest)
    × ((closest_contacts insertion_sorter (table_of 249 two.nodes) 1 [] []).1
        ≡ total_count (table_of 249 two.nodes))
closest_contacts-nearest_example =
    closest_contacts-nearest insertion_sorter (table_of 249 two.nodes) 1 [] []

bucket_index-distance_example :
    (i : ℕ) × Found
      (bucket_index me.hashed_id ann.hashed_id)
      (distance me.hashed_id ann.hashed_id)
      i
unfolding replicate
bucket_index-distance_example =
    bucket_index-distance me.hashed_id ann.hashed_id (omega arith) (omega arith) refl refl
      (λ e. ground arith)

including_node-ignores_none_example :
    (closest_contacts_with_including_node insertion_sorter small_table 6 [] (ann ∷ []) none
      ≡ closest_contacts_with_including_node insertion_sorter small_table 6 [] [] none)
    × (closest_contacts_with_including_node_list insertion_sorter small_table 6 [] (ann ∷ []) []
        ≡ closest_contacts_with_including_node_list insertion_sorter small_table 6 [] [] [])
including_node-ignores_none_example =
    including_node-ignores_none 1 (omega arith) (ann ∷ []) (refl, tt) insertion_sorter small_table 6
      [] none [] ((refl, tt), ((refl, tt), tt))

add_node-IsRoutable_example :
    (d' : Dht (List NodeReplicationInfo)) × (out : Option Node) × (add_node toy_ops toy_hash
        (dht_of empty_table)
        ann
        7
        (λ n. true)
      ≡ some (d', out))
    × IsRoutable toy_hash d'.ht
    × (has_node d'.ht ann.id ≡ not (bytes_eq ann.id me.id))
add_node-IsRoutable_example =
    add_node-IsRoutable toy_ops toy_hash (dht_of empty_table) ann 7 (λ n. true) toy_hash-IsDigest
      empty_table-IsRoutable (inr refl)

-- `add_node` of `bob`, who is at the end of his bucket, moves `ann` behind him.
add_node-rotates_first_example :
    add_node toy_ops toy_hash (dht_of (table_of 249 (ann ∷ bob ∷ []))) bob 7 (λ n. true)
    ≡ some (
      with_bucket
          (stored toy_ops toy_hash (dht_of (table_of 249 (ann ∷ bob ∷ []))) bob 7)
          249
          (bob ∷ ann ∷ []),
      none,
    )
unfolding bytes_eq replicate has_id bucket_index set_hashed_id
add_node-rotates_first_example =
    add_node-rotates_first toy_ops toy_hash (dht_of (table_of 249 (ann ∷ bob ∷ []))) bob 7
      (λ n. true) 249 ann (bob ∷ []) refl refl refl refl refl

abbrev cal : ℕ → Node
cal k = toy_node (2 ∷ k ∷ [])

abbrev callers : ℕ → List Node
callers zero = []
callers (suc k) = cal k ∷ callers k

add_node-drops_first_example :
    (d' : Dht (List NodeReplicationInfo)) × (out : Option Node) × (add_node toy_ops toy_hash
        (dht_of (table_of 249 (callers 20)))
        bob
        7
        (λ n. true)
      ≡ some (d', out))
    × (d'.ht.route_table
        ≡ set
            (table_of 249 (callers 20)).route_table
            249
            (callers 19 ++ set_hashed_id toy_hash bob ∷ []))
    × (failures d'.ignorelist.nodes (cal 19).id ≡ failures [] (cal 19).id)
unfolding bytes_eq replicate has_id bucket_index set_hashed_id
add_node-drops_first_example =
    add_node-drops_first toy_ops toy_hash (dht_of (table_of 249 (callers 20))) bob 7 (λ n. true) 249
      (cal 19) (callers 19) refl refl refl refl refl

abbrev twice_failed : BanList
twice_failed = record { nodes = record { node = ann; created_at = 5; count = 2 } ∷ [] }

twice_failed-IsCounted : IsCounted twice_failed.nodes
unfolding is_listed
twice_failed-IsCounted = (refl, omega arith, tt)

purge-survivors_example :
    purge twice_failed (λ k. 3 * 3600 * 1_000_000_000 + 6)
    ≡ some (record twice_failed {
      nodes = survivors (λ k. 3 * 3600 * 1_000_000_000 + 6) 0 twice_failed.nodes;
    })
purge-survivors_example = purge-survivors twice_failed (λ k. 3 * 3600 * 1_000_000_000 + 6)

-- The list of ids has an empty text in front for each node.
node_ids_padded : node_ids two ≡ [] ∷ [] ∷ ann.id ∷ bob.id ∷ []
unfolding node_ids replicate
node_ids_padded = refl
