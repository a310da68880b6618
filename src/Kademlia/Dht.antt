-- ===== src/Kademlia/Dht.antt =====
-- p2p/kademlia/dht.go: how nodes enter and leave the route table (`addNode`, `removeNode`,
-- `addKnownNodes`, `NClosestNodes`), and `updateReplicationNode` of replication.go.
-- A call runs with no other call between its steps. `none` is a panic, an index out of range.
-- `reachable first` says whether the ping of `first` is answered, `now` is the time of the call.
pub mod Buckets
pub mod Table
pub mod Adding
pub mod Removing
pub mod Order
pub mod Keeping
use supernode.Base.{
  ℕ, ◌+◌, Bool, true, false, Option, none, some, List, [], ◌∷◌, ◌++◌, Bytes, bytes_eq, ◌==◌,
  if◌then◌else◌, length, get_elem?, set, drop,
}
use supernode.Kademlia.Node.{Node, NodeList, set_hashed_id, has_id}
use supernode.Kademlia.Node.Sorting.{Sorter}
use supernode.Kademlia.BucketIndex.{bucket_index}
use supernode.Kademlia.HashTable.{
  HashTable, ◌>>=◌, has_bucket_node, refresh_node, remove_node, closest_contacts,
  reset_refresh_time,
}
use supernode.Kademlia.BanList.{BanList, increment_count, to_node_list}

-- `K` of the source: the most nodes that a bucket holds.
abbrev pub bucket_k : ℕ
bucket_k = 20

pub record NodeReplicationInfo : Type 0 where
  pub updated_at : ℕ
  pub active : Bool
  pub ip : Bytes
  pub port : ℕ
  pub id : Bytes
  pub last_seen : Option ℕ

-- The three calls of the store that `updateReplicationNode` makes. A store that fails returns
-- `none` for `RecordExists`; the errors of the other two are logged only.
pub record ReplicationStore (S : Type 0) : Type 0 where
  pub record_exists : S → Bytes → Option Bool
  pub update_replication_info : S → NodeReplicationInfo → S
  pub add_replication_info : S → NodeReplicationInfo → S

pub record Dht (S : Type 0) : Type 0 where
  pub ht : HashTable
  pub ignorelist : BanList
  pub store : S

abbrev pub with_bucket : {S : Type 0} → Dht S → ℕ → List Node → Dht S
with_bucket d index bucket = record d {
  ht = record (d.ht) { route_table = set d.ht.route_table index bucket };
}

module _ {S : Type 0} (ops : ReplicationStore S) (blake3 : Bytes → Bytes) where
  unfoldable pub update_replication_node : S → Node → Bool → ℕ → S
  update_replication_node store node is_active now = elim (ops.record_exists store node.id) [
    | none ↦ store
    | some known ↦
        let info : NodeReplicationInfo = record {
          updated_at = now;
          active = is_active;
          ip = node.ip;
          port = node.port;
          id = node.id;
          last_seen = some now;
        } in
        if known
        then ops.update_replication_info store info
        else ops.add_replication_info store info
  ]

  -- The part of `addNode` under the lock: the new node goes to the end of its bucket, and the first
  -- leaves a full one.
  pub insert_full : Dht S → ℕ → Node → ℕ → (Node → Bool) → List Node → Option (Dht S × Option Node)
  insert_full d index node now reachable [] = none
  insert_full d index node now reachable (first ∷ rest) = some (
      if reachable first then (with_bucket d index (rest ++ node ∷ []), none) else (
        with_bucket (record d { ignorelist = increment_count d.ignorelist node now }) index
            (drop 1 ((first ∷ rest) ++ node ∷ [])),
        some first,
      ))

  unfoldable pub insert_node : Dht S → ℕ → Node → ℕ → (Node → Bool) → Option (Dht S × Option Node)
  unfolding insert_full
  insert_node d index node now reachable = do
    bucket ← get_elem? d.ht.route_table index
    if length bucket == bucket_k
        then insert_full d index node now reachable bucket
        else some (with_bucket d index (bucket ++ node ∷ []), none)

  unfoldable pub enter_node : Dht S → ℕ → Node → ℕ → (Node → Bool) → Option (Dht S × Option Node)
  unfolding insert_node
  enter_node d index node now reachable = do
    known ← has_bucket_node d.ht index node.id
    elim known [
      | true ↦ do ht ← refresh_node d.ht node.hashed_id; some (record d { ht = ht }, none)
      | false ↦ insert_node d index node now reachable
    ]

  unfoldable pub add_node : Dht S → Node → ℕ → (Node → Bool) → Option (Dht S × Option Node)
  unfolding enter_node update_replication_node
  add_node d given now reachable = elim (bytes_eq given.id d.ht.self.id) [
    | true ↦ some (d, none)
    | false ↦
        let node = set_hashed_id blake3 given in
        bucket_index d.ht.self.hashed_id node.hashed_id >>= λ index.
        enter_node (record d { store = update_replication_node d.store node true now }) index node
          now reachable
  ]

  pub remove_known_node : Dht S → Node → Option (Dht S)
  remove_known_node d given = elim (bytes_eq given.id d.ht.self.id) [
    | true ↦ some d
    | false ↦
        let node = set_hashed_id blake3 given in
        bucket_index d.ht.self.hashed_id node.hashed_id >>= λ index.
        remove_node d.ht index node.id >>= λ r. some (record d { ht = r.0 })
  ]

  -- `known` lists the nodes of `knownNodes`, a map from ids.
  unfoldable add_known_nodes :
      Dht S → List Node → List Node → ℕ → (Node → Bool) → Option (Dht S × List Node)
  unfolding add_node
  add_known_nodes d [] known now reachable = some (d, known)
  add_known_nodes d (given ∷ rest) known now reachable = elim (has_id known given.id) [
    | true ↦ add_known_nodes d rest known now reachable
    | false ↦ do
      let node = set_hashed_id blake3 given
      added ← add_node d node now reachable
      bucket ← bucket_index d.ht.self.hashed_id node.hashed_id
      ht ← reset_refresh_time added.0.ht bucket now
      add_known_nodes (record (added.0) { ht = ht }) rest (known ++ node ∷ []) now reachable
  ]

  -- The key is given decoded from base58.
  unfoldable n_closest_nodes : Sorter → Dht S → ℕ → Bytes → List Node → List Node
  n_closest_nodes sorter d n key ignores =
      (closest_contacts sorter d.ht n key (ignores ++ to_node_list d.ignorelist)).0.nodes
