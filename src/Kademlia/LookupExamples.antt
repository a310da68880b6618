-- ===== src/Kademlia/LookupExamples.antt =====
-- The theorems on the lookups at a small network, and tests of the code.
use supernode.Base.{
  ℕ, ◌≡◌, refl, subst, Bool, true, false, Option, none, some, List, [], ◌∷◌, Bytes, bytes_eq, inl,
  inr, arith, All, take, if◌then◌else◌, replicate, length-replicate,
}
use supernode.Kademlia.Node.{
  Node, add_nodes, add_all, add_new, has_id, sort, top_n, distance, set_bytes_from, set_hashed_id,
}
use supernode.Kademlia.Node.Sorting.{insertion_sorter, insertion_sort, insert}
use supernode.Kademlia.BucketIndex.{
  bits_b, bucket_index, bucket_loop, bucket_of_bit, first_bit, has_bit,
}
use supernode.Kademlia.BanList.{BanList, to_node_list, banned_nodes, banned, is_banned}
use supernode.Kademlia.Dht.{
  Dht, NodeReplicationInfo, add_node, enter_node, insert_node, update_replication_node,
}
use supernode.Kademlia.Messages.{
  Message, Payload, find_value_response, store_data_response, find_node_response, result_ok,
}
use supernode.Kademlia.Lookup.{
  Env, Peers, Arrival, alpha, iterate_store, iterate_find_node, answers, do_multi_workers,
  pick_receivers, lookup_request, new_message, handle_responses, take_typed_response, take_value,
}
use supernode.Kademlia.Lookup.AlphaStore.{
  blocked, store_error, stores, store_to_alpha_nodes, store_to_nodes, start_stores, collect,
  is_accepted, send_store_data, store_response,
}
use supernode.Kademlia.Lookup.Iterate.{
  go_on, iterate, iterate_find_value_of, find_value_rounds, new_closest, is_same,
}
use supernode.Kademlia.Lookup.Contacts.{IsPicked, wanted, do_multi_workers-IsPicked}
use supernode.Kademlia.Lookup.Total.{Ends, IsWelcomed, HasHashableSenders}
use supernode.Kademlia.Lookup.Iterating.{iterate-Ends}
use supernode.Kademlia.Lookup.StoreCount.{any_banned, accepting, store_to_alpha_nodes-accepting}
use supernode.Kademlia.Lookup.Source.{IsSourced, iterate_find_value_of-IsSourced}
use supernode.Kademlia.HashTable.{
  closest_contacts, collect_table, collect_bucket, has_key, has_bucket_node, refresh_node,
  move_to_end, offset_of,
}
use supernode.Kademlia.Activity.{ActivityStore, answers_ping, check_node}
use supernode.Kademlia.Activity.Checked.{Checks, check_node-Checks}
use supernode.Base.Options.{if-cases}
use supernode.Kademlia.Toys.{
  toy_hash-IsDigest, bob, empty_table, empty_table-IsRoutable, two, toy_hash, ann, toy_ops,
  table_of, dht_of,
}

-- The receiver answers a request, for a value with the bytes 7 and 8.
abbrev reply : Payload → Payload
reply (Payload.find_value_request target) =
    find_value_response (record { result = result_ok; err_msg = [] }) [] (7 ∷ 8 ∷ [])
reply (Payload.find_node_request target) =
    find_node_response (record { result = result_ok; err_msg = [] }) (bob ∷ [])
reply (Payload.store_data_request data' typ) =
    store_data_response (record { result = result_ok; err_msg = [] })
reply _ = Payload.no_data

abbrev answer : Message → Message
answer m = record {
  sender = m.receiver;
  receiver = m.sender;
  message_type = m.message_type;
  payload = reply m.payload;
}

abbrev arrive_in_order : List Message → List Arrival
arrive_in_order [] = []
arrive_in_order (m ∷ ms) =
    record { message = m; now = 5; reachable = λ n. true } ∷ arrive_in_order ms

arrive_in_order-All :
    (P : Message → Type 0) (ms : List Message)
    → All P ms
    → All (λ a. P a.message) (arrive_in_order ms)
arrive_in_order-All P [] h = tt
arrive_in_order-All P (m ∷ ms) h = (h.0, arrive_in_order-All P ms h.1)

abbrev is_for : Option Node → Bytes → Bool
is_for none id = false
is_for (some n) id = bytes_eq n.id id

-- Only `ann` answers, and without a hash.
abbrev toy_call : ℕ → Message → Option Message
toy_call k m =
    if is_for m.receiver ann.id
    then some (record (answer m) { sender = some (record (ann) { hashed_id = [] }) })
    else none

abbrev toy_peers : Peers
toy_peers = record {
  call = toy_call;
  arrive = λ k ms. arrive_in_order ms;
  arrive-All = λ P k ms h. arrive_in_order-All P ms h;
}

abbrev toy_env : Env (List NodeReplicationInfo)
toy_env = record {
  ops = toy_ops;
  blake3 = toy_hash;
  sorter = insertion_sorter;
  peers = toy_peers;
  host_ip = [];
}

abbrev toy_dht : Dht (List NodeReplicationInfo)
toy_dht = dht_of (table_of 249 (ann ∷ []))

-- The lookup of a value, and what it leaves.
toy_search : Option (Dht (List NodeReplicationInfo) × Bytes)
toy_search = iterate_find_value_of toy_env toy_dht (9 ∷ [])

abbrev left_by : Option (Dht (List NodeReplicationInfo) × Bytes) → Dht (List NodeReplicationInfo)
left_by none = toy_dht
left_by (some r) = r.0

finds : toy_search ≡ some (left_by toy_search, 7 ∷ 8 ∷ [])
unfolding toy_search iterate_find_value_of find_value_rounds new_closest is_same do_multi_workers
    pick_receivers answers lookup_request new_message handle_responses take_typed_response
    take_value closest_contacts collect_table collect_bucket to_node_list banned_nodes has_key
    add_nodes add_all add_new has_id sort top_n insertion_sort insert distance set_bytes_from
    bytes_eq replicate bucket_index bucket_loop bucket_of_bit first_bit has_bit add_node enter_node
    insert_node update_replication_node has_bucket_node refresh_node move_to_end offset_of
    set_hashed_id
finds = refl

abbrev Welcomed : Option Message → Type 0
Welcomed none = Unit
Welcomed (some m) = IsWelcomed toy_env m.sender

toy_call-hashable : HasHashableSenders toy_env
toy_call-hashable k m r e = elim (if-cases (is_for m.receiver ann.id) _ none (some r) e) [
  | inl (_, same) ↦ subst Welcomed same (inl refl)
  | inr (_, other) ↦ absurd (ground arith)
]

-- A response without a sender is a panic.
panics_without_sender :
    handle_responses toy_env toy_dht two (
      arrive_in_order (
        (record (answer (lookup_request toy_env toy_dht iterate_find_node [] ann)) {
          sender = none;
        })
        ∷ []))
    ≡ none
unfolding handle_responses
panics_without_sender = refl

do_multi_workers-IsPicked_example :
    (picked : List Node) × (contacted' : List Bytes) × (do_multi_workers toy_env 0 toy_dht
        iterate_find_node
        (9 ∷ [])
        two
        (bob.id ∷ [])
        false
      ≡ (arrive_in_order (answers toy_env 0 toy_dht iterate_find_node (9 ∷ []) picked), contacted'))
    × (picked ≡ wanted false alpha (bob.id ∷ []) two.nodes)
    × IsPicked 0 false (bob.id ∷ []) picked contacted'
do_multi_workers-IsPicked_example =
    do_multi_workers-IsPicked toy_env 0 toy_dht iterate_find_node (9 ∷ []) two (bob.id ∷ []) false

iterate-Ends_example :
    Ends toy_env toy_hash-IsDigest toy_call-hashable
      (iterate toy_env iterate_store (dht_of empty_table) (9 ∷ []) (4 ∷ []) 1 8 (λ k. go_on))
iterate-Ends_example =
    iterate-Ends toy_env toy_hash-IsDigest toy_call-hashable iterate_store (dht_of empty_table)
      (9 ∷ []) (4 ∷ []) 1 8 (λ k. go_on) empty_table-IsRoutable (length-replicate bits_b 0)

iterate_find_value_of-IsSourced_example : IsSourced toy_env (9 ∷ []) (7 ∷ 8 ∷ [])
unfolding toy_search
iterate_find_value_of-IsSourced_example =
    iterate_find_value_of-IsSourced toy_env (9 ∷ []) toy_dht (left_by toy_search) (7 ∷ 8 ∷ []) finds
      (omega arith)

store_to_alpha_nodes-accepting_example : store_to_alpha_nodes toy_env 0 toy_dht two (4 ∷ []) 1 ≡ (
    if any_banned toy_dht.ignorelist (take alpha two.nodes)
    then blocked
    else store_error (accepting toy_dht.ignorelist (stores toy_env 0 toy_dht (4 ∷ []) 1) two.nodes))
store_to_alpha_nodes-accepting_example =
    store_to_alpha_nodes-accepting toy_env 0 toy_dht two (4 ∷ []) 1

-- One banned node among the first six: the call never returns.
abbrev ban_of_bob : BanList
ban_of_bob = record { nodes = record { node = bob; created_at = 5; count = 4 } ∷ [] }

waits_for_ever :
    store_to_alpha_nodes toy_env 0 (record toy_dht { ignorelist = ban_of_bob }) two (4 ∷ []) 1
    ≡ blocked
unfolding store_to_alpha_nodes store_to_nodes start_stores collect banned is_banned bytes_eq stores
    is_accepted send_store_data new_message store_response
waits_for_ever = refl

abbrev toy_activity : ActivityStore (List NodeReplicationInfo)
toy_activity = record {
  update_is_active = λ s id is_active adjusted. s;
  update_last_seen = λ s id. s;
}

-- `ann` was down, and answers.
abbrev down_ann : NodeReplicationInfo
down_ann = record {
  updated_at = 4;
  active = false;
  ip = [];
  port = 4445;
  id = ann.id;
  last_seen = none;
}

check_node-Checks_example :
    Checks toy_env toy_activity toy_hash-IsDigest
      (answers_ping toy_env toy_activity 0 (dht_of empty_table) down_ann)
      (dht_of empty_table)
      down_ann
      (check_node toy_env toy_activity 0 (dht_of empty_table) down_ann 5 (λ n. true))
check_node-Checks_example =
    check_node-Checks toy_env toy_activity toy_hash-IsDigest 0 (dht_of empty_table) down_ann 5
      (λ n. true) empty_table-IsRoutable

test_answers : answers_ping toy_env toy_activity 0 (dht_of empty_table) down_ann ≡ true
unfolding answers_ping new_message bytes_eq
test_answers = refl
