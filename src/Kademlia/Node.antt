-- ===== src/Kademlia/Node.antt =====
-- p2p/kademlia/node.go: the nodes and the node lists that the routing code sorts and cuts.
-- A `[]*Node` is a list of node values. Indices and counts are natural numbers: `sort.Sort` and
-- the callers of `TopN` pass no others. The locks of `NodeList` make each method one step.
pub mod Sorting
pub mod Unique
pub mod Permuted
use supernode.Base.{
  ℕ, zero, suc, ◌+◌, ◌*◌, ◌≤◌, ◌<◌, ◌≡◌, Bool, true, false, ◌&&◌, Option, none, some, List, [], ◌∷◌,
  ◌++◌, map, bit_xor, Bytes, bytes_eq, ltb, if◌then◌else◌, length, get_elem?, set, take, drop,
  replicate,
}
use Sorting.{Sorter}

pub record Node : Type 0 where
  pub id : Bytes
  pub ip : Bytes
  pub port : ℕ
  pub hashed_id : Bytes

-- `blake3` is `utils.Blake3Hash` at a value that it hashes.
module _ (blake3 : Bytes → Bytes) where
  unfoldable pub set_hashed_id : Node → Node
  set_hashed_id s = if ltb 0 (length s.hashed_id) then s else record s { hashed_id = blake3 s.id }

pub record NodeList : Type 0 where
  pub nodes : List Node
  pub comparator : Bytes

-- `append(s.Nodes[:i], s.Nodes[i+1:]...)` at the first node with the id.
unfoldable pub del_first : Bytes → List Node → List Node
del_first id [] = []
del_first id (n ∷ ns) = elim (bytes_eq n.id id) [ true ↦ ns | false ↦ n ∷ del_first id ns ]

pub del_node : NodeList → Node → NodeList
unfolding del_first
del_node s node = record s { nodes = del_first node.id s.nodes }

-- The loops over a slice that stop at a node with the id.
unfoldable pub has_id : List Node → Bytes → Bool
has_id [] id = false
has_id (n ∷ ns) id = elim (bytes_eq n.id id) [ true ↦ true | false ↦ has_id ns id ]

unfoldable have_all_nodes : List Node → List Node → Bool
unfolding has_id
have_all_nodes [] nodes_b = true
have_all_nodes (a ∷ nodes_a) nodes_b = elim (has_id nodes_b a.id) [
  | true ↦ have_all_nodes nodes_a nodes_b
  | false ↦ false
]

unfoldable pub exists : NodeList → Node → Bool
unfolding has_id
exists s node = has_id s.nodes node.id

-- One round of the loop of `AddNodes`.
unfoldable pub add_new : List Node → Node → List Node
unfolding has_id
add_new ns node = if has_id ns node.id then ns else ns ++ node ∷ []

unfoldable pub add_all : List Node → List Node → List Node
unfolding add_new
add_all ns [] = ns
add_all ns (m ∷ ms) = add_all (add_new ns m) ms

unfoldable pub add_nodes : NodeList → List Node → NodeList
unfolding add_all
add_nodes s new = record s { nodes = add_all s.nodes new }

unfoldable add_first : NodeList → Node → NodeList
add_first s node = record s { nodes = node ∷ s.nodes }

unfoldable pub top_n : NodeList → ℕ → NodeList
top_n s n =
    if ltb n (length s.nodes)
    then record s { nodes = take n s.nodes }
    else record s { nodes = take (length s.nodes) s.nodes }

-- `new(big.Int).SetBytes(id)`, most significant byte first.
unfoldable pub set_bytes_from : ℕ → Bytes → ℕ
set_bytes_from acc [] = acc
set_bytes_from acc (b ∷ bs) = set_bytes_from (256 * acc + b) bs

unfoldable pub distance : Bytes → Bytes → ℕ
unfolding set_bytes_from
distance id1 id2 = bit_xor (set_bytes_from 0 id1) (set_bytes_from 0 id2)

unfoldable less : NodeList → ℕ → ℕ → Bool
unfolding distance
less s i j = elim (get_elem? s.nodes i) [
  | none ↦ false
  | some a ↦ elim (get_elem? s.nodes j) [
    | none ↦ false
    | some b ↦ ltb (distance a.hashed_id s.comparator) (distance b.hashed_id s.comparator)
  ]
]

pub swap : NodeList → ℕ → ℕ → NodeList
swap s i j = elim (get_elem? s.nodes i) [
  | none ↦ s
  | some a ↦ elim (get_elem? s.nodes j) [
    | none ↦ s
    | some b ↦ record s { nodes = set (set s.nodes i b) j a }
  ]
]

-- The key by which `Less` compares.
abbrev pub distance_to : Bytes → Node → ℕ
distance_to comparator n = distance n.hashed_id comparator

-- `sort.Sort(s)` compares by `Less` and moves by `Swap`.
unfoldable pub sort : Sorter → NodeList → NodeList
sort sorter s = record s { nodes = sorter.sort_by (distance_to s.comparator) s.nodes }

-- `make([][]byte, len(s.Nodes))`, and then an append for each node.
unfoldable pub node_ids : NodeList → List Bytes
node_ids s = replicate (length s.nodes) [] ++ map (λ n. n.id) s.nodes

unfoldable node_ips : NodeList → List Bytes
node_ips s = replicate (length s.nodes) [] ++ map (λ n. n.ip) s.nodes
