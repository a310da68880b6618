-- ===== src/Kademlia/Lookup.antt =====
-- p2p/kademlia/dht.go: the iterative lookups (`doMultiWorkers`, `newMessage`, and the loops over
-- the responses of a round). The network answers as it likes: a call may fail, and the answers
-- of a round arrive in any order. The goroutines of a round run between the lookup's own steps; the
-- list that they range over is fixed when they start. `none` is a panic.
pub mod AlphaStore
pub mod Iterate
pub mod StoreCount
pub mod Contacts
pub mod Total
pub mod Iterating
pub mod Source
pub mod Keeping
use supernode.Base.{
  ℕ, zero, suc, ◌+◌, Bool, true, false, not, ◌&&◌, Option, none, some, List, [], ◌∷◌, Bytes,
  bytes_eq, leb, ◌==◌, length, get_elem?, if◌then◌else◌, ltb, All,
}
use supernode.Kademlia.Node.{Node, NodeList, add_nodes, sort}
use supernode.Kademlia.Node.Sorting.{Sorter}
use supernode.Kademlia.HashTable.{◌>>=◌, closest_contacts, has_key}
use supernode.Kademlia.BanList.{to_node_list}
use supernode.Kademlia.Dht.{Dht, ReplicationStore, add_node}
use supernode.Kademlia.Messages.{
  Message, MessageType, find_node, find_value, store_data, Payload, find_node_request,
  find_node_response, find_value_request, find_value_response, is_ok,
}

abbrev pub alpha : ℕ
alpha = 6

pub data IterativeType : Type 0 where
  iterate_store : IterativeType
  iterate_find_node : IterativeType
  iterate_find_value : IterativeType

-- A response when it is handled: the time, and which nodes answer a ping then.
pub record Arrival : Type 0 where
  pub message : Message
  pub now : ℕ
  pub reachable : Node → Bool

-- What the network does in round `k`: `call` is `network.Call`, `none` an error, and `arrive` puts
-- the answers of the round in the order in which the channel receives them.
-- A channel delivers nothing but what was sent.
pub record Peers : Type 1 where
  pub call : ℕ → Message → Option Message
  pub arrive : ℕ → List Message → List Arrival
  pub arrive-All :
      (P : Message → Type 0) (k : ℕ) (ms : List Message)
      → All P ms
      → All (λ a. P a.message) (arrive k ms)

-- `host_ip` is the address of this node as the chain gives it.
pub record Env (S : Type 0) : Type 1 where
  pub ops : ReplicationStore S
  pub blake3 : Bytes → Bytes
  pub sorter : Sorter
  pub peers : Peers
  pub host_ip : Bytes

-- The nodes that a round contacts, with the ids contacted so far, a map to `true`.
unfoldable pub pick_receivers : ℕ → Bool → List Bytes → List Node → List Node × List Bytes
unfolding has_key
pick_receivers number have_rest contacted [] = ([], contacted)
pick_receivers number have_rest contacted (node ∷ rest) = elim (leb alpha number && not have_rest) [
  | true ↦ ([], contacted)
  | false ↦ elim (has_key contacted node.id) [
    | true ↦ pick_receivers number have_rest contacted rest
    | false ↦
        let (picked, contacted') =
          pick_receivers (number + 1) have_rest (node.id ∷ contacted) rest in
        (node ∷ picked, contacted')
  ]
]

module _ {S : Type 0} (env : Env S) where
  unfoldable pub new_message : Dht S → MessageType → Option Node → Payload → Message
  new_message d message_type receiver payload = record {
    sender =
        some
          (record { id = d.ht.self.id; ip = env.host_ip; port = d.ht.self.port; hashed_id = [] });
    receiver = receiver;
    message_type = message_type;
    payload = payload;
  }

  unfoldable pub lookup_request : Dht S → IterativeType → Bytes → Node → Message
  unfolding new_message
  lookup_request d iterate_store target receiver =
      new_message d find_node (some receiver) (find_node_request target)
  lookup_request d iterate_find_node target receiver =
      new_message d find_node (some receiver) (find_node_request target)
  lookup_request d iterate_find_value target receiver =
      new_message d find_value (some receiver) (find_value_request target)

  -- The answers of the nodes that answer.
  unfoldable pub answers : ℕ → Dht S → IterativeType → Bytes → List Node → List Message
  unfolding lookup_request
  answers k d typ target [] = []
  answers k d typ target (receiver ∷ rest) =
      elim (env.peers.call k (lookup_request d typ target receiver)) [
        | none ↦ answers k d typ target rest
        | some response ↦ response ∷ answers k d typ target rest
      ]

  unfoldable pub do_multi_workers :
      ℕ → Dht S → IterativeType → Bytes → NodeList → List Bytes → Bool → List Arrival × List Bytes
  unfolding pick_receivers answers
  do_multi_workers k d typ target nl contacted have_rest =
      let (receivers, contacted') = pick_receivers 0 have_rest contacted nl.nodes in
      (env.peers.arrive k (answers k d typ target receivers), contacted')

  -- `FindNode` and `StoreData` responses, in both loops over responses.
  pub take_nodes : NodeList → Payload → NodeList
  take_nodes nl (find_node_response status closest) =
      if is_ok status.result && ltb 0 (length closest) then add_nodes nl closest else nl
  take_nodes nl _ = nl

  pub take_typed : NodeList → MessageType → Payload → NodeList
  unfolding take_nodes
  take_typed nl MessageType.find_node p = take_nodes nl p
  take_typed nl MessageType.store_data p = take_nodes nl p
  take_typed nl _ p = nl

  abbrev pub take_closest : NodeList → Message → NodeList
  take_closest nl m = take_typed nl m.message_type m.payload

  -- `addNode` of the sender of a response. Without a sender it is a nil dereference.
  pub add_sender : Dht S → Option Node → ℕ → (Node → Bool) → Option (Dht S × Option Node)
  add_sender d none now reachable = none
  add_sender d (some sender) now reachable = add_node env.ops env.blake3 d sender now reachable

  -- The loop over the responses in `iterate`.
  pub take_responses : Dht S → NodeList → List Arrival → Option (Dht S × NodeList)
  unfolding take_typed add_sender
  take_responses d nl [] = some (d, nl)
  take_responses d nl (a ∷ rest) = do
    added ← add_sender d a.message.sender a.now a.reachable
    take_responses added.0 (take_closest nl a.message) rest

  -- A `FindValue` response: its nodes, or the value.
  unfoldable pub take_value : NodeList → Payload → NodeList × Bytes
  take_value nl (find_value_response status closest value) =
      if is_ok status.result && ltb 0 (length value)
      then (nl, value)
      else (if ltb 0 (length closest) then add_nodes nl closest else nl, [])
  take_value nl _ = (nl, [])

  unfoldable pub take_typed_response : NodeList → MessageType → Payload → NodeList × Bytes
  unfolding take_nodes take_value
  take_typed_response nl MessageType.find_node p = (take_nodes nl p, [])
  take_typed_response nl MessageType.store_data p = (take_nodes nl p, [])
  take_typed_response nl MessageType.find_value p = take_value nl p
  take_typed_response nl _ p = (nl, [])

  abbrev pub take_response : NodeList → Message → NodeList × Bytes
  take_response nl m = take_typed_response nl m.message_type m.payload

  -- `nil` is the empty value; the responses after the value are not handled.
  unfoldable pub handle_responses :
      Dht S → NodeList → List Arrival → Option (Dht S × (NodeList × Bytes))
  unfolding take_typed_response add_sender
  handle_responses d nl [] = some (d, (nl, []))
  handle_responses d nl (a ∷ rest) = do
    added ← add_sender d a.message.sender a.now a.reachable
    let (nl', value) = take_response nl a.message
    if ltb 0 (length value) then some (added.0, (nl', value)) else handle_responses added.0 nl' rest
