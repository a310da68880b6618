-- ===== src/Kademlia/HashTable.antt =====
-- p2p/kademlia/hashtable.go: the route table. `none` is a panic, an index out of range.
-- The locks of `HashTable` make each method one step. Each slot owns its slice: no other slice of
-- the program shares the array that `append(bucket[:i], bucket[i+1:]...)` writes.
pub mod Closest
pub mod Including
use supernode.Base.{
  ℕ, ◌+◌, ◌≡◌, refl, Bool, true, false, ◌||◌, Option, none, some, List, [], ◌∷◌, ◌++◌, map, Bytes,
  bytes_eq, if◌then◌else◌, length, get_elem?, set, take, drop, replicate, ◌/◌, ◌%◌, ltb,
}
use supernode.Kademlia.Node.{
  Node, NodeList, set_hashed_id, has_id, exists, add_nodes, sort, top_n, del_first,
}
use supernode.Kademlia.Node.Sorting.{Sorter}
use supernode.Kademlia.BucketIndex.{bits_b, bucket_index}

pub record HashTable : Type 0 where
  pub self : Node
  pub route_table : List (List Node)
  pub refreshers : List ℕ

infixl 5 ◌>>=◌
abbrev pub ◌>>=◌ {ℓ κ} : {A : Type ℓ} {B : Type κ} → Option A → (A → Option B) → Option B
none >>= f = none
some a >>= f = f a

pub bind-some {ℓ κ} :
    {A : Type ℓ} {B : Type κ} (m : Option A) (f : A → Option B) (b : B)
    → (m >>= f) ≡ some b
    → (a : A) × (m ≡ some a) × (f a ≡ some b)
bind-some none f b e = cc
bind-some (some a) f b e = (a, refl, e)

pub record Options : Type 0 where
  pub id : Option Bytes
  pub ip : Bytes
  pub port : ℕ

-- `none` is the error "id is nil". Every bucket's refresh time is the time of the call.
unfoldable pub new_hash_table : (Bytes → Bytes) → ℕ → Options → Option HashTable
unfolding set_hashed_id
new_hash_table blake3 now options = do
  id ← options.id
  some (record {
    self =
        set_hashed_id blake3
          (record { id = id; ip = options.ip; port = options.port; hashed_id = [] });
    route_table = replicate bits_b [];
    refreshers = replicate bits_b now;
  })

unfoldable pub reset_refresh_time : HashTable → ℕ → ℕ → Option HashTable
reset_refresh_time ht bucket now = do
  _ ← get_elem? ht.refreshers bucket
  some (record ht { refreshers = set ht.refreshers bucket now })

unfoldable refresh_time : HashTable → ℕ → Option ℕ
refresh_time ht bucket = get_elem? ht.refreshers bucket

-- `offset` of `refreshNode`: it stays 0 where no node of the bucket has the id.
unfoldable pub offset_of : List Node → Bytes → ℕ → ℕ
offset_of [] id i = 0
offset_of (v ∷ vs) id i = elim (bytes_eq v.id id) [ true ↦ i | false ↦ offset_of vs id (i + 1) ]

unfoldable pub move_to_end : List Node → ℕ → Option (List Node)
move_to_end bucket offset = do
  current ← get_elem? bucket offset
  some ((take offset bucket ++ drop (offset + 1) bucket) ++ current ∷ [])

unfoldable pub refresh_node : HashTable → Bytes → Option HashTable
unfolding move_to_end offset_of
refresh_node ht id = do
  index ← bucket_index ht.self.hashed_id id
  bucket ← get_elem? ht.route_table index
  moved ← move_to_end bucket (offset_of bucket id 0)
  some (record ht { route_table = set ht.route_table index moved })

unfoldable pub has_bucket_node : HashTable → ℕ → Bytes → Option Bool
has_bucket_node ht bucket id = do ns ← get_elem? ht.route_table bucket; some (has_id ns id)

unfoldable pub any_bucket_has : List (List Node) → Bytes → Bool
any_bucket_has [] id = false
any_bucket_has (bucket ∷ rest) id = elim (has_id bucket id) [
  | true ↦ true
  | false ↦ any_bucket_has rest id
]

unfoldable pub has_node : HashTable → Bytes → Bool
unfolding any_bucket_has
has_node ht id = any_bucket_has ht.route_table id

-- Membership in `ignoredMap`, whose keys are strings.
unfoldable pub has_key : List Bytes → Bytes → Bool
has_key [] key = false
has_key (x ∷ xs) key = bytes_eq x key || has_key xs key

-- The loops over the route table: the nodes collected so far, and the nodes seen.
unfoldable pub collect_bucket : List Bytes → NodeList × ℕ → List Node → NodeList × ℕ
collect_bucket ignored (nl, counter) [] = (nl, counter)
collect_bucket ignored (nl, counter) (node ∷ rest) =
    collect_bucket ignored
      (if has_key ignored node.id then nl else add_nodes nl (node ∷ []), counter + 1) rest

unfoldable pub collect_table : List Bytes → NodeList × ℕ → List (List Node) → NodeList × ℕ
unfolding collect_bucket
collect_table ignored acc [] = acc
collect_table ignored acc (bucket ∷ rest) =
    collect_table ignored (collect_bucket ignored acc bucket) rest

abbrev pub empty_list : Bytes → NodeList
empty_list target = record { nodes = []; comparator = target }

-- `num` is at least 0 at every call.
unfoldable pub closest_contacts : Sorter → HashTable → ℕ → Bytes → List Node → NodeList × ℕ
closest_contacts sorter ht num target ignored_nodes =
    let (nl, counter) =
      collect_table (map (λ n. n.id) ignored_nodes) (empty_list target, 0) ht.route_table in
    (top_n (sort sorter nl) num, counter)

pub total_count_of : List (List Node) → ℕ → ℕ
total_count_of [] num = num
total_count_of (v ∷ rest) num = total_count_of rest (num + length v)

pub total_count : HashTable → ℕ
unfolding total_count_of
total_count ht = total_count_of ht.route_table 0

append_buckets : List Node → List (List Node) → List Node
append_buckets node_list [] = node_list
append_buckets node_list (v ∷ rest) = append_buckets (node_list ++ v) rest

unfoldable pub nodes : HashTable → List Node
unfolding append_buckets
nodes ht = append_buckets [] ht.route_table

-- `hex.EncodeToString`.
hex_digit : ℕ → ℕ
hex_digit d = if ltb d 10 then d + b'0' else d + 87

pub hex_encode : Bytes → Bytes
unfolding hex_digit
hex_encode [] = []
hex_encode (b ∷ bs) = hex_digit (b / 16) ∷ hex_digit (b % 16) ∷ hex_encode bs

abbrev add_if_any : NodeList → Option Node → NodeList
add_if_any nl none = nl
add_if_any nl (some node) = add_nodes nl (node ∷ [])

pub closest_contacts_with_including_node :
    Sorter → HashTable → ℕ → Bytes → List Node → Option Node → NodeList
closest_contacts_with_including_node sorter ht num target ignored_nodes include_node =
    let ignored = map (λ n. hex_encode n.id) ignored_nodes in
    let nl = (collect_table ignored (empty_list target, 0) ht.route_table).0 in
    top_n (sort sorter (add_if_any nl include_node)) num

not_yet : NodeList → List Node → List Node
not_yet nl [] = []
not_yet nl (node ∷ rest) = if exists nl node then not_yet nl rest else node ∷ not_yet nl rest

pub closest_contacts_with_including_node_list :
    Sorter → HashTable → ℕ → Bytes → List Node → List Node → NodeList
unfolding not_yet
closest_contacts_with_including_node_list sorter ht num target ignored_nodes nodes_to_include =
    let ignored = map (λ n. hex_encode n.id) ignored_nodes in
    let nl = (collect_table ignored (empty_list target, 0) ht.route_table).0 in
    top_n (sort sorter (add_nodes nl (not_yet nl nodes_to_include))) num

unfoldable pub remove_node : HashTable → ℕ → Bytes → Option (HashTable × Bool)
remove_node ht index id = do
  bucket ← get_elem? ht.route_table index
  some (
      if has_id bucket id
      then (record ht { route_table = set ht.route_table index (del_first id bucket) }, true)
      else (ht, false))
