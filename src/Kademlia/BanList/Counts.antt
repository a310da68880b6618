-- ===== src/Kademlia/BanList/Counts.antt =====
-- The ban list as a count of failures for each id.
use supernode.Base.{
  ℕ, ◌+◌, ◌≡◌, refl, ◌<◌, false, ◌||◌, List, [], ◌∷◌, Bytes, bytes_eq, bytes_eq_iff, ltb,
  if◌then◌else◌, arith,
}
use supernode.Kademlia.Node.{Node, has_id}
use supernode.Kademlia.BanList.{
  BanNode, BanList, threshold, new_ban_node, increment, increment_count, is_banned, banned,
  is_listed, exists, delete_first, delete, banned_nodes, to_node_list,
}

-- The failures counted for an id: 0 if it is not listed.
abbrev pub failures : List BanNode → Bytes → ℕ
failures [] id = 0
failures (b ∷ bs) id = if bytes_eq b.node.id id then b.count else failures bs id

-- No id is listed twice, and each listed node has failed.
abbrev pub IsCounted : List BanNode → Type 0
IsCounted [] = Unit
IsCounted (b ∷ bs) = (is_listed bs b.node.id ≡ false) × (0 < b.count) × IsCounted bs

failures_unlisted : (bs : List BanNode) (id : Bytes) → is_listed bs id ≡ false → failures bs id ≡ 0
unfolding is_listed
failures_unlisted [] id h = refl
failures_unlisted (b ∷ bs) id h = ground (arith, failures_unlisted bs id)

pub failures-increment :
    (bs : List BanNode) (node : Node) (now : ℕ) (id : Bytes)
    → failures (increment bs node now) id
      ≡ (if bytes_eq node.id id then failures bs id + 1 else failures bs id)
unfolding increment new_ban_node
failures-increment [] node now id = ground (arith, bytes_eq_iff node.id id)
failures-increment (b ∷ bs) node now id = ground (
  arith,
  failures-increment bs node now id,
  bytes_eq_iff node.id id,
  bytes_eq_iff b.node.id id,
  bytes_eq_iff b.node.id node.id,
)

is_listed-increment :
    (bs : List BanNode) (node : Node) (now : ℕ) (id : Bytes)
    → is_listed (increment bs node now) id ≡ (is_listed bs id || bytes_eq node.id id)
unfolding increment new_ban_node is_listed
is_listed-increment [] node now id = ground arith
is_listed-increment (b ∷ bs) node now id = ground (
  arith,
  is_listed-increment bs node now id,
  bytes_eq_iff node.id id,
  bytes_eq_iff b.node.id id,
  bytes_eq_iff b.node.id node.id,
)

increment-IsCounted :
    (bs : List BanNode) (node : Node) (now : ℕ) → IsCounted bs → IsCounted (increment bs node now)
unfolding increment new_ban_node is_listed
increment-IsCounted [] node now c = ground arith
increment-IsCounted (b ∷ bs) node now c = ground (
  arith,
  increment-IsCounted bs node now c.2,
  is_listed-increment bs node now b.node.id,
  bytes_eq_iff b.node.id node.id,
  bytes_eq_iff node.id b.node.id,
)

is_listed-delete_first_le :
    (bs : List BanNode) (id j : Bytes)
    → is_listed bs j ≡ false
    → is_listed (delete_first bs id) j ≡ false
unfolding is_listed delete_first
is_listed-delete_first_le [] id j h = refl
is_listed-delete_first_le (b ∷ bs) id j h = ground (arith, is_listed-delete_first_le bs id j)

delete_first-IsCounted :
    (bs : List BanNode) (id : Bytes) → IsCounted bs → IsCounted (delete_first bs id)
unfolding delete_first
delete_first-IsCounted [] id c = tt
delete_first-IsCounted (b ∷ bs) id c =
    ground (arith, delete_first-IsCounted bs id c.2, is_listed-delete_first_le bs id b.node.id)

failures-delete_first :
    (bs : List BanNode) (id j : Bytes)
    → IsCounted bs
    → failures (delete_first bs id) j ≡ (if bytes_eq id j then 0 else failures bs j)
unfolding delete_first
failures-delete_first [] id j c = ground arith
failures-delete_first (b ∷ bs) id j c = ground (
  arith,
  failures-delete_first bs id j c.2,
  failures_unlisted bs j,
  bytes_eq_iff id j,
  bytes_eq_iff b.node.id id,
  bytes_eq_iff b.node.id j,
)

is_banned-failures :
    (bs : List BanNode) (id : Bytes) → is_banned bs id ≡ ltb threshold (failures bs id)
unfolding is_banned
is_banned-failures [] id = ground arith
is_banned-failures (b ∷ bs) id = ground (arith, is_banned-failures bs id)

is_listed-failures :
    (bs : List BanNode) (id : Bytes) → IsCounted bs → is_listed bs id ≡ ltb 0 (failures bs id)
unfolding is_listed
is_listed-failures [] id c = ground arith
is_listed-failures (b ∷ bs) id c = ground (arith, is_listed-failures bs id c.2)

banned_nodes_unlisted :
    (bs : List BanNode) (id : Bytes) → is_listed bs id ≡ false → has_id (banned_nodes bs) id ≡ false
unfolding banned_nodes has_id is_listed
banned_nodes_unlisted [] id h = refl
banned_nodes_unlisted (b ∷ bs) id h = ground (arith, banned_nodes_unlisted bs id)

has_id-banned_nodes :
    (bs : List BanNode) (id : Bytes) → IsCounted bs → has_id (banned_nodes bs) id ≡ is_banned bs id
unfolding banned_nodes has_id is_banned
has_id-banned_nodes [] id c = refl
has_id-banned_nodes (b ∷ bs) id c =
    ground
      (arith, has_id-banned_nodes bs id c.2, banned_nodes_unlisted bs id, bytes_eq_iff b.node.id id)

-- `Banned`, `Exists` and `ToNodeList` agree on a list that counts each id once: a node is banned
-- exactly with more than 3 failures, is listed exactly with at least one, and is in the list of
-- banned nodes exactly if it is banned.
banned-failures :
    (s : BanList) (node : Node)
    → IsCounted s.nodes
    → (banned s node ≡ ltb 3 (failures s.nodes node.id))
      × (exists s node ≡ ltb 0 (failures s.nodes node.id))
      × (has_id (to_node_list s) node.id ≡ banned s node)
unfolding banned exists to_node_list
banned-failures s node c = (
  is_banned-failures s.nodes node.id,
  is_listed-failures s.nodes node.id c,
  has_id-banned_nodes s.nodes node.id c,
)

-- One call of `IncrementCount` or `Delete` on a list that counts each id once keeps it so. The
-- first adds 1 to the failures of the node, the second sets them to 0, and the failures of every
-- other node stay.
failures-update :
    (s : BanList) (node : Node) (now : ℕ) (id : Bytes)
    → IsCounted s.nodes
    → IsCounted (increment_count s node now).nodes
      × (failures (increment_count s node now).nodes id
          ≡ (if bytes_eq node.id id then failures s.nodes id + 1 else failures s.nodes id))
      × IsCounted (delete s node).nodes
      × (failures (delete s node).nodes id
          ≡ (if bytes_eq node.id id then 0 else failures s.nodes id))
unfolding increment_count delete
failures-update s node now id c = (
  increment-IsCounted s.nodes node now c,
  failures-increment s.nodes node now id,
  delete_first-IsCounted s.nodes node.id c,
  failures-delete_first s.nodes node.id id c,
)
