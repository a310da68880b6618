-- ===== src/Kademlia/Server/Dispatch.antt =====
-- p2p/kademlia/network.go: `handleBatchFindValues`, and `handleConn`, which takes a message to its
-- handler. `is_free` says that the semaphore lets the request in. The text of an error of the
-- compression is left out.
use supernode.Base.{
  ℕ, Bool, true, false, not, ◌||◌, Option, none, some, List, [], ◌∷◌, ◌++◌, Bytes, bytes_of, length,
  ◌==◌,
}
use supernode.Kademlia.Node.{Node}
use supernode.Kademlia.Dht.{Dht}
use supernode.Kademlia.Dict.{assign_key}
use supernode.Kademlia.Messages.{
  MessageType, Payload, batch_find_values_request, batch_find_values_response,
}
use supernode.Kademlia.Store.{Fallible, failed, done}
use supernode.Kademlia.Server.{
  Server, Handled, ok_status, answer, fail, handle_find_node, handle_find_value, handle_store_data,
  handle_replicate, handle_ping,
}
use supernode.Kademlia.Server.Batches.{
  handle_batch_store_data, handle_batch_find_node, handle_get_values,
}
use supernode.Kademlia.Server.Compression.{
  DataMap, non_nil, Compressed, not_compressed, fits, unfinished, is_heavy,
  find_optimal_compression,
}

-- `dataMap[key] = values[i]` for each key; `none` is an index out of range.
make_data_map : DataMap → List Bytes → List Bytes → Option DataMap
unfolding assign_key
make_data_map data_map [] values = some data_map
make_data_map data_map (key ∷ keys) [] = none
make_data_map data_map (key ∷ keys) (value ∷ values) =
    make_data_map (assign_key key value data_map) keys values

module _ {S : Type 0} (server : Server S) (compress : DataMap → Option Bytes) where
  abbrev is_light : Option Bytes → Bool
  is_light none = false
  is_light (some compressed) = not (is_heavy compressed)

  -- The whole map fits, or nothing of it.
  abbrev is_done : DataMap → DataMap → Bool
  is_done data_map sent = is_light (compress data_map) || (length (non_nil sent) == 0)

  -- The loop of the compression gets as many rounds as there are values; where they are too few it
  -- never ends, and there is no response.
  abbrev compressed_response : Dht S → Option Node → DataMap → Compressed → Handled server
  compressed_response d sender data_map not_compressed =
      fail server d MessageType.batch_find_values sender
        (bytes_of "failed to find optimal compression: ")
  compressed_response d sender data_map (fits sent bytes) =
      answer server d MessageType.batch_find_values sender
        (batch_find_values_response ok_status bytes (is_done data_map sent))
  compressed_response d sender data_map unfinished = none

  abbrev found_values :
      Dht S → Option Node → List Bytes → S × Fallible (List Bytes × ℕ) → Handled server
  found_values d sender keys (s, failed err) =
      fail server (record d { store = s }) MessageType.batch_find_values sender
        (bytes_of "failed to retrieve batch values: " ++ err)
  found_values d sender keys (s, done found) = elim (make_data_map [] keys found.0) [
    | none ↦ some (record d { store = s }, none)
    | some data_map ↦
        compressed_response (record d { store = s }) sender data_map
          (find_optimal_compression server.env.sorter compress (length (non_nil data_map)) data_map)
  ]

  -- `message.Sender.IP` panics where there is no sender. The handler recovers from this and from an
  -- index out of range with an error, so that the connection closes without a response.
  handle_batch_find_values : Dht S → Option Node → Payload → Bool → Handled server
  unfolding make_data_map find_optimal_compression answer fail
  handle_batch_find_values d sender p false =
      fail server d MessageType.batch_find_values sender (bytes_of "Busy")
  handle_batch_find_values d none (batch_find_values_request keys) true = some (d, none)
  handle_batch_find_values d (some sender) (batch_find_values_request keys) true =
      found_values d (some sender) keys (server.data_store.retrieve_batch_values d.store keys true)
  handle_batch_find_values d sender _ true =
      fail server d MessageType.batch_find_values sender (bytes_of "invalid BatchFindValueRequest")

  -- The switch of `handleConn`; an unknown type closes the connection without a response.
  unfoldable pub handle_typed :
      (Bytes → Bytes)
      → Dht S
      → MessageType
      → Option Node
      → Option Node
      → Payload
      → Bool
      → ℕ
      → (Node → Bool)
      → Handled server
  unfolding handle_batch_find_values
  handle_typed base58 d MessageType.find_node sender receiver p is_free now reachable =
      handle_find_node server d sender p now reachable
  handle_typed base58 d MessageType.batch_find_node sender receiver p is_free now reachable =
      handle_batch_find_node server base58 d sender p now reachable
  handle_typed base58 d MessageType.find_value sender receiver p is_free now reachable =
      handle_find_value server d sender p now reachable
  handle_typed base58 d MessageType.ping sender receiver p is_free now reachable =
      handle_ping server d sender
  handle_typed base58 d MessageType.store_data sender receiver p is_free now reachable =
      handle_store_data server d sender receiver p now reachable
  handle_typed base58 d MessageType.replicate sender receiver p is_free now reachable =
      handle_replicate server d sender receiver p
  handle_typed base58 d MessageType.batch_find_values sender receiver p is_free now reachable =
      handle_batch_find_values d sender p is_free
  handle_typed base58 d MessageType.batch_store_data sender receiver p is_free now reachable =
      handle_batch_store_data server d sender p now reachable
  handle_typed base58 d MessageType.batch_get_values sender receiver p is_free now reachable =
      handle_get_values server d sender p now reachable
  handle_typed base58 d (MessageType.unknown n) sender receiver p is_free now reachable =
      some (d, none)
