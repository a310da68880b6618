-- ===== src/Kademlia/Redundant.antt =====
-- p2p/kademlia/redundant_data.go: which keys this node need not hold, and their deletion. Keys are
-- hex texts. The disk and the stores are parameters; their errors carry no text here. The loop over
-- a map takes its entries in the order of the list.
pub mod Classified
pub mod Deleting
use supernode.Base.{
  ℕ, zero, suc, ◌+◌, ◌*◌, ◌-◌, min, Bool, true, false, Option, none, some, List, [], ◌∷◌, map,
  Bytes, length, ltb, if◌then◌else◌, take, drop,
}
use supernode.Kademlia.Node.{Node, node_ids, set_hashed_id}
use supernode.Kademlia.Node.Sorting.{Sorter}
use supernode.Kademlia.HashTable.{HashTable, has_key, closest_contacts_with_including_node}
use supernode.Kademlia.BanList.{to_node_list}
use supernode.Kademlia.Dht.{Dht}
use supernode.Kademlia.Dict.{assign_key}
use supernode.Kademlia.Lookup.{alpha, Env}
use supernode.Kademlia.Server.Batches.{hex_value, hex_decode}

pub record DelKey : Type 0 where
  pub key : Bytes
  pub created_at : ℕ
  pub nodes : Bytes
  pub count : ℕ

-- The calls of the meta store; a Boolean is `true` where the call gives no error.
pub record MetaStore (M : Type 0) : Type 0 where
  get_disabled_keys : M → ℕ → Option (List Bytes)
  pub delete_key : M → Bytes → M
  batch_insert_del_keys : M → List DelKey → M × Bool
  batch_delete_del_keys : M → List DelKey → M × Bool
  get_all_to_del_keys : M → ℕ → Option (List DelKey)

-- The bytes that `hex.DecodeString` gives, also beside an error: those before the first bad digit.
unfoldable pub decoded : Bytes → Bytes
unfolding hex_value
decoded [] = []
decoded (a ∷ []) = []
decoded (a ∷ b ∷ rest) = elim (hex_value a) [
  | none ↦ []
  | some high ↦ elim (hex_value b) [ none ↦ [] | some low ↦ (16 * high + low) ∷ decoded rest ]
]

module _ {M : Type 0} (meta_store : MetaStore M) where
  delete_disabled_keys : M → List Bytes → M
  unfolding hex_decode
  delete_disabled_keys m [] = m
  delete_disabled_keys m (key ∷ keys) = elim (hex_decode key) [
    | none ↦ delete_disabled_keys m keys
    | some dec ↦ delete_disabled_keys (meta_store.delete_key m dec) keys
  ]

  -- `now` less `defaultDisabledKeyExpirationInterval`, half an hour; times are in seconds.
  unfoldable cleanup_disabled_keys : M → ℕ → M
  unfolding delete_disabled_keys
  cleanup_disabled_keys m now = elim (meta_store.get_disabled_keys m (now - 1800)) [
    | none ↦ m
    | some keys ↦ delete_disabled_keys m keys
  ]

module _ (sorter : Sorter) (ht : HashTable) (ignores : List Node) (self : Node) where
  pub contacts_of : Bytes → List Bytes
  unfolding decoded node_ids
  contacts_of key =
      node_ids
        (closest_contacts_with_including_node sorter ht alpha (decoded key) ignores (some self))

  -- The loop that fills `closestContactsMap`.
  pub contacts_map : List (Bytes × List Bytes) → List Bytes → List (Bytes × List Bytes)
  unfolding contacts_of assign_key
  contacts_map m [] = m
  contacts_map m (key ∷ keys) = contacts_map (assign_key key (contacts_of key) m) keys

abbrev del_key : (Bytes → ℕ) → Bytes → DelKey
del_key clock key = record { key = key; created_at = clock key; nodes = []; count = 1 }

-- The loop over `closestContactsMap`: `insertKeys` and `removeKeys`. `clock` gives the time at which
-- the loop is at a key.
pub classify : Bytes → (Bytes → ℕ) → List (Bytes × List Bytes) → List DelKey × List DelKey
unfolding has_key
classify self_id clock [] = ([], [])
classify self_id clock (entry ∷ rest) =
    let (insert_keys, remove_keys) = classify self_id clock rest in
    if ltb (length entry.1) alpha
    then (insert_keys, remove_keys)
    else if has_key entry.1 self_id
    then (insert_keys, del_key clock entry.0 ∷ remove_keys)
    else (del_key clock entry.0 ∷ insert_keys, remove_keys)

module _ {M : Type 0} (meta_store : MetaStore M) where
  abbrev then_remove : M × Bool → List DelKey → M
  then_remove (m, false) remove_keys = m
  then_remove (m, true) [] = m
  then_remove (m, true) (key ∷ keys) = (meta_store.batch_delete_del_keys m (key ∷ keys)).0

  abbrev insert_if_any : M → List DelKey → M × Bool
  insert_if_any m [] = (m, true)
  insert_if_any m (key ∷ keys) = meta_store.batch_insert_del_keys m (key ∷ keys)

  unfoldable pub record_del_keys : M → List DelKey × List DelKey → M
  record_del_keys m (insert_keys, remove_keys) =
      then_remove (insert_if_any m insert_keys) remove_keys

module _ {S : Type 0} (env : Env S) where
  -- This node, with the address that the chain has of it.
  abbrev pub self_node : Dht S → Node
  self_node d =
      set_hashed_id env.blake3
        (record { id = d.ht.self.id; ip = env.host_ip; port = d.ht.self.port; hashed_id = [] })

  -- `keys` are those of `GetKeysForReplication`.
  pub redundant_keys : Dht S → (Bytes → ℕ) → List Bytes → List DelKey × List DelKey
  unfolding contacts_map classify
  redundant_keys d clock keys =
      classify d.ht.self.id clock
        (contacts_map env.sorter d.ht (to_node_list d.ignorelist) (self_node d) [] keys)

  unfoldable cleanup_redundant_data :
      {M : Type 0} → MetaStore M → Dht S → M → (Bytes → ℕ) → List Bytes → M
  unfolding redundant_keys record_del_keys
  cleanup_redundant_data meta_store d m clock keys =
      record_del_keys meta_store m (redundant_keys d clock keys)

abbrev pub batch_size : ℕ
batch_size = 100

abbrev del_keys_count_threshold : ℕ
del_keys_count_threshold = 10

-- `batchSize` keys, or all if they are fewer.
abbrev pub batch_end : List DelKey → ℕ
batch_end keys = if ltb (length keys) batch_size then length keys else batch_size

abbrev pub next_batch : List DelKey → List Bytes
next_batch keys = map (λ (k : DelKey). k.key) (take (batch_end keys) keys)

-- `disk k` is what `CheckDiskSpace` gives in round `k`, and `batch_delete` is `BatchDeleteRecords`.
module _ {S : Type 0} (disk : ℕ → Option Bool) (batch_delete : S → List Bytes → S × Bool) where
  -- The loop, and the keys that it leaves; without fuel it gives `none`.
  unfoldable pub delete_batches : ℕ → ℕ → S → List DelKey → Option (S × List DelKey)
  delete_batches fuel k s [] = some (s, [])
  delete_batches zero k s (key ∷ keys) = none
  delete_batches (suc fuel) k s (key ∷ keys) = elim (disk k) [
    | none ↦ some (s, key ∷ keys)
    | some false ↦ some (s, key ∷ keys)
    | some true ↦
        let (s', deleted) = batch_delete s (next_batch (key ∷ keys)) in
        elim deleted [
          | false ↦ some (s', key ∷ keys)
          | true ↦ delete_batches fuel (suc k) s' (drop (batch_end (key ∷ keys)) (key ∷ keys))
        ]
  ]

  unfoldable delete_redundant_data : {M : Type 0} → MetaStore M → M → S → Option (S × List DelKey)
  unfolding delete_batches
  delete_redundant_data meta_store m s =
      elim (meta_store.get_all_to_del_keys m del_keys_count_threshold) [
        | none ↦ some (s, [])
        | some keys ↦ delete_batches (length keys) 0 s keys
      ]
