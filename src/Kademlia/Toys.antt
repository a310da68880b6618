-- ===== src/Kademlia/Toys.antt =====
-- A small network for the examples.
use supernode.Base.{
  ℕ, ◌%◌, refl, false, some, none, List, [], ◌∷◌, Bytes, set, replicate, length-replicate, arith,
}
use supernode.Kademlia.Node.{Node, NodeList}
use supernode.Kademlia.BucketIndex.{bits_b}
use supernode.Kademlia.BucketIndex.Distance.{IsDigest}
use supernode.Kademlia.HashTable.{HashTable}
use supernode.Kademlia.Lookup.{Peers}
use supernode.Kademlia.Dht.{Dht, ReplicationStore, NodeReplicationInfo}
use supernode.Kademlia.Dht.Table.{IsRoutable}
use supernode.Kademlia.Dht.Removing.{empty-IsTable}

-- A hash that keeps the first byte.
abbrev pub toy_hash : Bytes → Bytes
toy_hash [] = replicate 32 0
toy_hash (x ∷ xs) = (x % 256) ∷ replicate 31 0

pub toy_hash-IsDigest : (x : Bytes) → IsDigest (toy_hash x)
unfolding replicate
toy_hash-IsDigest [] = omega arith
toy_hash-IsDigest (x ∷ xs) = omega arith

abbrev pub toy_node : Bytes → Node
toy_node id = record { id = id; ip = []; port = 4445; hashed_id = toy_hash id }

abbrev pub me : Node
me = toy_node (1 ∷ [])

abbrev pub ann : Node
ann = toy_node (2 ∷ [])

abbrev pub bob : Node
bob = toy_node (3 ∷ [])

abbrev pub toy_ops : ReplicationStore (List NodeReplicationInfo)
toy_ops = record {
  record_exists = λ s id. some false;
  update_replication_info = λ s info. s;
  add_replication_info = λ s info. info ∷ s;
}

abbrev pub table_of : ℕ → List Node → HashTable
table_of i bucket = record {
  self = me;
  route_table = set (replicate bits_b []) i bucket;
  refreshers = replicate bits_b 0;
}

abbrev pub dht_of : HashTable → Dht (List NodeReplicationInfo)
dht_of ht = record { ht = ht; ignorelist = record { nodes = [] }; store = [] }

abbrev pub empty_table : HashTable
empty_table = record {
  self = me;
  route_table = replicate bits_b [];
  refreshers = replicate bits_b 0;
}

pub empty_table-IsRoutable : IsRoutable toy_hash empty_table
empty_table-IsRoutable = record {
  self_hashed = refl;
  buckets = length-replicate bits_b [];
  table = empty-IsTable toy_hash me 0 bits_b;
}

abbrev pub two : NodeList
two = record { nodes = ann ∷ bob ∷ []; comparator = [] }

abbrev pub small_table : HashTable
small_table = record { self = me; route_table = (ann ∷ []) ∷ (bob ∷ []) ∷ []; refreshers = [] }

-- Nobody answers.
abbrev pub silent_peers : Peers
silent_peers = record { call = λ k m. none; arrive = λ k ms. []; arrive-All = λ P k ms h. tt }
