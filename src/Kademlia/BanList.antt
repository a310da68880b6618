-- ===== src/Kademlia/BanList.antt =====
-- p2p/kademlia/banlist.go: the nodes that failed, with a count of failures. Times are numbers of
-- nanoseconds; the lock makes each method one step.
pub mod Counts
pub mod Purging
use supernode.Base.{
  ℕ, zero, suc, ◌+◌, ◌*◌, Bool, true, false, Option, none, some, List, [], ◌∷◌, ◌++◌, Bytes,
  bytes_eq, ltb, if◌then◌else◌, length, get_elem?, take, drop,
}
use supernode.Kademlia.Node.{Node}

abbrev ban_duration : ℕ
ban_duration = 3 * 3600 * 1_000_000_000

abbrev pub threshold : ℕ
threshold = 3

pub record BanNode : Type 0 where
  pub node : Node
  pub created_at : ℕ
  pub count : ℕ

pub record BanList : Type 0 where
  pub nodes : List BanNode

-- The hashed id is not copied.
pub new_ban_node : Node → ℕ → ℕ → BanNode
new_ban_node node created_at count = record {
  node = record { id = node.id; ip = node.ip; port = node.port; hashed_id = [] };
  created_at = created_at;
  count = count;
}

new_ban_list : BanList
new_ban_list = record { nodes = [] }

unfoldable pub add : BanList → Node → ℕ → BanList
unfolding new_ban_node
add s node now = record s { nodes = s.nodes ++ new_ban_node node now 1 ∷ [] }

unfoldable add_with_created_at : BanList → Node → ℕ → ℕ → BanList
unfolding new_ban_node
add_with_created_at s node created_at count = record s {
  nodes = s.nodes ++ new_ban_node node created_at count ∷ [];
}

-- The loop of `IncrementCount`, and the append where no node was found.
pub increment : List BanNode → Node → ℕ → List BanNode
unfolding new_ban_node
increment [] node now = new_ban_node node now 1 ∷ []
increment (b ∷ bs) node now = elim (bytes_eq b.node.id node.id) [
  | true ↦ record b { count = b.count + 1 } ∷ bs
  | false ↦ b ∷ increment bs node now
]

unfoldable pub increment_count : BanList → Node → ℕ → BanList
unfolding increment
increment_count s node now = record s { nodes = increment s.nodes node now }

unfoldable pub is_banned : List BanNode → Bytes → Bool
is_banned [] id = false
is_banned (b ∷ bs) id = elim (bytes_eq b.node.id id) [
  | true ↦ ltb threshold b.count
  | false ↦ is_banned bs id
]

unfoldable pub banned : BanList → Node → Bool
unfolding is_banned
banned s node = is_banned s.nodes node.id

unfoldable pub is_listed : List BanNode → Bytes → Bool
is_listed [] id = false
is_listed (b ∷ bs) id = elim (bytes_eq b.node.id id) [ true ↦ true | false ↦ is_listed bs id ]

unfoldable pub exists : BanList → Node → Bool
unfolding is_listed
exists s node = is_listed s.nodes node.id

pub delete_first : List BanNode → Bytes → List BanNode
delete_first [] id = []
delete_first (b ∷ bs) id = elim (bytes_eq b.node.id id) [
  | true ↦ bs
  | false ↦ b ∷ delete_first bs id
]

pub delete : BanList → Node → BanList
unfolding delete_first
delete s node = record s { nodes = delete_first s.nodes node.id }

pub is_expired : ℕ → BanNode → Bool
is_expired now b = ltb (b.created_at + ban_duration) now

-- The loop of `Purge` at index `i`, where `clock k` is the time that its round `k` reads. Where the
-- node is the last one, `i` is not stepped back, and the loop ends behind the list.
pub purge_loop : ℕ → (ℕ → ℕ) → ℕ → ℕ → List BanNode → Option (List BanNode)
unfolding is_expired
purge_loop zero clock k i nodes = none
purge_loop (suc fuel) clock k i nodes = elim (get_elem? nodes i) [
  | none ↦ some nodes
  | some b ↦ elim (is_expired (clock k) b) [
    | false ↦ purge_loop fuel clock (k + 1) (i + 1) nodes
    | true ↦ elim (ltb (i + 1) (length nodes)) [
      | true ↦ purge_loop fuel clock (k + 1) i (take i nodes ++ drop (i + 1) nodes)
      | false ↦ purge_loop fuel clock (k + 1) (i + 1) (take i nodes)
    ]
  ]
]

-- Each round passes or drops a node, so that one round more than there are nodes is enough.
pub purge : BanList → (ℕ → ℕ) → Option BanList
unfolding purge_loop
purge s clock = elim (purge_loop (suc (length s.nodes)) clock 0 0 s.nodes) [
  | none ↦ none
  | some nodes ↦ some (record s { nodes = nodes })
]

unfoldable pub banned_nodes : List BanNode → List Node
banned_nodes [] = []
banned_nodes (b ∷ bs) = if ltb threshold b.count then b.node ∷ banned_nodes bs else banned_nodes bs

unfoldable pub to_node_list : BanList → List Node
unfolding banned_nodes
to_node_list s = banned_nodes s.nodes
