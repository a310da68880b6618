-- ===== src/Kademlia/Server.antt =====
-- p2p/kademlia/network.go: the handlers of the server. A handler gives the bytes of its response; `none`
-- in their place is an error, on which `handleConn` closes the connection, and `none` around it a
-- panic. `handlePanic` does not stop it: its `recover` stands in a function that the deferred one
-- calls, where it gives nil. The address of this node in responses is `host_ip`.
pub mod Total
pub mod Batches
pub mod Compression
pub mod Dispatch
pub mod Served
pub mod ReadBack
use supernode.Base.{
  ℕ, Bool, true, false, Option, none, some, List, [], ◌∷◌, ◌++◌, Bytes, bytes_of, bytes_eq, length,
  ltb, if◌then◌else◌,
}
use supernode.Kademlia.Node.{Node, set_hashed_id}
use supernode.Kademlia.HashTable.{HashTable, ◌>>=◌, closest_contacts}
use supernode.Kademlia.Dht.{Dht, add_node, bucket_k}
use supernode.Kademlia.Wire.{Gob, encode}
use supernode.Kademlia.Messages.{
  message_string, Message, MessageType, ping, store_data, find_node, find_value, replicate,
  batch_find_values, batch_store_data, batch_find_node, batch_get_values, Payload, no_data,
  find_node_request, find_node_response, find_value_request, find_value_response,
  store_data_request, store_data_response, replicate_data_request, replicate_data_response,
  batch_find_values_response, batch_find_node_response, batch_get_values_response, ResultType,
  result_ok, result_failed, ResponseStatus,
}
use supernode.Kademlia.Lookup.{Env, new_message}
use supernode.Kademlia.Store.{DataStore, Fallible, failed, done}

pub record Server (S : Type 0) : Type 1 where
  pub env : Env S
  pub data_store : DataStore S
  pub gob : Gob

abbrev pub ok_status : ResponseStatus
ok_status = record { result = result_ok; err_msg = [] }

abbrev pub failed_status : Bytes → ResponseStatus
failed_status err = record { result = result_failed; err_msg = err }

-- The response of `generateResponseMessage`; `none` is the error "unsupported message type".
pub response_payload : MessageType → ResponseStatus → Option Payload
response_payload MessageType.store_data status = some (store_data_response status)
response_payload MessageType.batch_store_data status = some (store_data_response status)
response_payload MessageType.find_node status = some (batch_find_node_response status [])
response_payload MessageType.batch_find_node status = some (batch_find_node_response status [])
response_payload MessageType.find_value status = some (batch_find_values_response status [] false)
response_payload MessageType.batch_find_values status =
    some (batch_find_values_response status [] false)
response_payload MessageType.replicate status = some (replicate_data_response status)
response_payload MessageType.batch_get_values status = some (batch_get_values_response [] status)
response_payload _ status = none

abbrev pub is_held : Fallible Bytes → Bool
is_held (failed err) = false
is_held (done value) = ltb 0 (length value)

module _ {S : Type 0} (server : Server S) where
  pub generate_response_message :
      Dht S → MessageType → Option Node → ResultType → Bytes → Option Bytes
  unfolding response_payload new_message encode
  generate_response_message d t receiver result err_msg = do
    payload ← response_payload t (record { result = result; err_msg = err_msg })
    encode server.gob (new_message server.env d t receiver payload)

  -- `addNode` sets the hash of the sender that it is given.
  pub added_sender : Dht S → Node → Node
  added_sender d sender =
      if bytes_eq sender.id d.ht.self.id then sender else set_hashed_id server.env.blake3 sender

  -- `none` is the nil dereference of a sender that is missing.
  pub enter_sender : Dht S → Option Node → ℕ → (Node → Bool) → Option (Dht S × Node)
  unfolding add_node added_sender
  enter_sender d none now reachable = none
  enter_sender d (some sender) now reachable = do
    added ← add_node server.env.ops server.env.blake3 d sender now reachable
    some (added.0, added_sender d sender)

  -- `closestContacts(K, target, []*Node{message.Sender})`.
  pub closest : Dht S → Bytes → Node → List Node
  unfolding closest_contacts
  closest d target sender =
      (closest_contacts server.env.sorter d.ht bucket_k target (sender ∷ [])).0.nodes

  -- What a handler gives for a message.
  abbrev pub Handled : Type 0
  Handled = Option (Dht S × Option Bytes)

  -- The end of a handler with `encodeMesage`: the error of the encoding is the handler's.
  pub answer : Dht S → MessageType → Option Node → Payload → Handled
  unfolding new_message encode
  answer d t receiver payload =
      some (d, encode server.gob (new_message server.env d t receiver payload))

  pub fail : Dht S → MessageType → Option Node → Bytes → Handled
  unfolding generate_response_message
  fail d t receiver err = some (d, generate_response_message d t receiver result_failed err)

  pub handle_find_node : Dht S → Option Node → Payload → ℕ → (Node → Bool) → Handled
  unfolding enter_sender closest answer
  handle_find_node d sender (find_node_request target) now reachable = do
    (d', sender') ← enter_sender d sender now reachable
    answer d' find_node (some sender')
        (find_node_response ok_status (closest d' (server.env.blake3 target) sender'))
  handle_find_node d sender _ now reachable =
      answer d find_node sender
        (find_node_response (failed_status (bytes_of "invalid FindNodeRequest")) [])

  -- The response to a request for a value, from what the store gives.
  pub value_response : Dht S → Bytes → Node → Fallible Bytes → Payload
  unfolding closest
  value_response d target sender (failed err) =
      find_value_response (failed_status (bytes_of "store retrieve: " ++ err))
        (closest d target sender) []
  value_response d target sender (done value) =
      if ltb 0 (length value)
      then find_value_response ok_status [] value
      else find_value_response ok_status (closest d target sender) []

  pub handle_find_value : Dht S → Option Node → Payload → ℕ → (Node → Bool) → Handled
  unfolding enter_sender value_response answer fail
  handle_find_value d sender (find_value_request target) now reachable = do
    (d', sender') ← enter_sender d sender now reachable
    answer d' find_value (some sender')
        (value_response d' target sender' (server.data_store.retrieve d'.store target))
  handle_find_value d sender _ now reachable =
      fail d find_value sender (bytes_of "invalid FindValueRequest")

  -- The end of a handler that stored something, in the state that the store gives.
  pub stored : Dht S → MessageType → Option Node → Bytes → S × Fallible (Unit {0}) → Handled
  unfolding answer fail
  stored d t sender text (s, failed err) = fail (record d { store = s }) t sender (text ++ err)
  stored d t sender text (s, done _) =
      answer (record d { store = s }) t sender (store_data_response ok_status)

  pub handle_store_data : Dht S → Option Node → Option Node → Payload → ℕ → (Node → Bool) → Handled
  unfolding message_string enter_sender stored answer fail
  handle_store_data d sender receiver (store_data_request value typ) now reachable = do
    _ ← message_string sender receiver
    (d', sender') ← enter_sender d sender now reachable
    let key = server.env.blake3 value
    if is_held (server.data_store.retrieve d'.store key)
        then answer d' store_data (some sender') (store_data_response ok_status)
        else stored d' store_data (some sender') (bytes_of "store the data: ")
            (server.data_store.store_value d'.store key value typ false)
  handle_store_data d sender receiver _ now reachable =
      fail d store_data sender (bytes_of "invalid StoreDataRequest")

  -- `handleReplicateRequest`.
  abbrev pub store_rep_keys : S → Node → Fallible (List Bytes) → S × Fallible (Unit {0})
  store_rep_keys s sender (failed err) =
      (s, failed (bytes_of "unable to retrieve batch replication keys: " ++ err))
  store_rep_keys s sender (done []) = (s, done tt)
  store_rep_keys s sender (done (key ∷ keys)) =
      wrap (server.data_store.store_batch_rep_keys s (key ∷ keys) sender.id sender.ip sender.port)
    where
      wrap : S × Fallible (Unit {0}) → S × Fallible (Unit {0})
      wrap (s', failed err) =
          (s', failed (bytes_of "unable to store batch replication keys: " ++ err))
      wrap (s', done _) = (s', done tt)

  abbrev pub replicated : Dht S → Node → S × Fallible (Unit {0}) → Handled
  replicated d sender (s, failed err) = fail (record d { store = s }) replicate (some sender) err
  replicated d sender (s, done _) =
      answer (record d { store = s }) replicate (some sender) (replicate_data_response ok_status)

  -- With the log of the message, which needs its sender and receiver.
  pub handle_replicate : Dht S → Option Node → Option Node → Payload → Handled
  unfolding answer fail
  handle_replicate d none receiver (replicate_data_request keys) = none
  handle_replicate d (some sender) none (replicate_data_request keys) = none
  handle_replicate d (some sender) (some receiver) (replicate_data_request keys) =
      replicated d sender (
        store_rep_keys d.store sender
          (server.data_store.retrieve_batch_not_exist d.store keys 5000))
  handle_replicate d sender receiver _ =
      fail d replicate sender (bytes_of "invalid ReplicateDataRequest")

  pub handle_ping : Dht S → Option Node → Handled
  unfolding answer
  handle_ping d sender = answer d ping sender no_data
