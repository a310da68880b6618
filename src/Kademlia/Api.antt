-- ===== src/Kademlia/Api.antt =====
-- p2p/kademlia/dht.go: the calls of the DHT's clients (`Store`, `Retrieve`, `Delete`, `LocalStore`,
-- `GetValueFromNode`, `NClosestNodesWithIncludingNodelist`). base58 and the meta store's table of
-- disabled keys are parameters. `none` is a panic, or a call that never returns.
pub mod StoreRetrieve
use supernode.Base.{
  ℕ, zero, suc, Bool, true, false, ◌&&◌, Option, none, some, List, [], ◌∷◌, ◌++◌, map, Bytes,
  bytes_of, length, ltb, ◌==◌, if◌then◌else◌,
}
use supernode.Kademlia.Node.{Node, set_hashed_id}
use supernode.Kademlia.BanList.{to_node_list}
use supernode.Kademlia.HashTable.{◌>>=◌, hex_encode, closest_contacts_with_including_node_list}
use supernode.Kademlia.Dht.{Dht}
use supernode.Kademlia.Messages.{
  message_string, Message, MessageType, Payload, find_value_request, find_value_response, is_ok,
}
use supernode.Kademlia.Lookup.{iterate_store, iterate_find_value, new_message}
use supernode.Kademlia.Lookup.AlphaStore.{AlphaOutcome, blocked}
use supernode.Kademlia.Lookup.Iterate.{
  Signal, Outcome, no_result, cancelled_error, value_found, store_ended, iterate,
}
use supernode.Kademlia.Store.{Fallible, failed, done}
use supernode.Kademlia.Server.{Server, is_held}

pub record Base58 : Type 0 where
  pub encode : Bytes → Bytes
  pub decode : Bytes → Bytes

-- What `iterate` returns, without the text of the context's error; a store that blocks does not
-- return.
abbrev pub returned : Outcome → Option (Fallible Bytes)
returned no_result = some (done [])
returned cancelled_error = some (failed (bytes_of "iterate cancelled: "))
returned (value_found value) = some (done value)
returned (store_ended blocked) = none
returned (store_ended _) = some (done [])

abbrev pub wrapped : Bytes → Fallible Bytes → Fallible Bytes
wrapped text (failed err) = failed (text ++ err)
wrapped text (done value) = done value

-- The text of an error that may be nil.
abbrev err_text : Fallible Bytes → Bytes
err_text (failed err) = err
err_text (done value) = bytes_of "%!w(<nil>)"

module _ {S : Type 0} (server : Server S) (base58 : Base58) where
  -- `backoff.Retry`, which tries once and at most `more` times again.
  pub retry_store : ℕ → S → Bytes → Bytes → ℕ → S × Fallible (Unit {0})
  retry_store zero s key value typ = server.data_store.store_value s key value typ true
  retry_store (suc more) s key value typ =
      let (s', res) = server.data_store.store_value s key value typ true in
      elim res [ failed err ↦ retry_store more s' key value typ | done u ↦ (s', done u) ]

  abbrev pub stored_key : Bytes → Fallible Bytes → Fallible Bytes
  stored_key key (failed err) = failed (bytes_of "iterative store data: " ++ err)
  stored_key key (done _) = done (base58.encode key)

  -- The rest of `Store`, after the local store.
  abbrev store_remotely :
      Dht S
      → Bytes
      → Bytes
      → ℕ
      → ℕ
      → (ℕ → Signal)
      → S × Fallible (Unit {0})
      → Option (Dht S × Fallible Bytes)
  store_remotely d key value typ now signal (s, failed err) =
      some
        (record d { store = s }, failed (bytes_of "retry store data to queries storage: " ++ err))
  store_remotely d key value typ now signal (s, done _) =
      iterate server.env iterate_store (record d { store = s }) key value typ now signal >>= λ r.
      returned r.1 >>= λ result. some (r.0, stored_key key result)

  unfoldable pub store : ℕ → Dht S → Bytes → ℕ → ℕ → (ℕ → Signal) → Option (Dht S × Fallible Bytes)
  unfolding retry_store
  store more d value typ now signal =
      let key = server.env.blake3 value in
      store_remotely d key value typ now signal (retry_store more d.store key value typ)

  -- Keys have 32 bytes, `B / 8`.
  abbrev pub is_valid : Bytes → Bool
  is_valid decoded = length decoded == 32

  abbrev invalid_key : Bytes → Fallible Bytes
  invalid_key key = failed (bytes_of "invalid key: " ++ key)

  -- `disabled` says whether the meta store finds a key, where there is one.
  abbrev pub is_disabled : Option (Bytes → Bool) → Bytes → Bool
  is_disabled none db_key = false
  is_disabled (some finds) db_key = finds db_key

  -- The part of `Retrieve` that asks the network.
  abbrev retrieve_remotely : Dht S → Bytes → ℕ → (ℕ → Signal) → Option (Dht S × Fallible Bytes)
  retrieve_remotely d decoded now signal =
      iterate server.env iterate_find_value d decoded [] 0 now signal >>= λ r.
      returned r.1 >>= λ result. some (r.0, wrapped (bytes_of "retrieve from peer: ") result)

  unfoldable pub retrieve :
      Option (Bytes → Bool)
      → Dht S
      → Bytes
      → Bool
      → ℕ
      → (ℕ → Signal)
      → Option (Dht S × Fallible Bytes)
  retrieve disabled d key local_only now signal =
      let decoded = base58.decode key in
      elim (is_valid decoded) [
        | false ↦ some (d, invalid_key key)
        | true ↦ elim (is_disabled disabled (hex_encode decoded)) [
          | true ↦ some (d, failed (bytes_of "key is disabled: " ++ key))
          | false ↦
              let held = server.data_store.retrieve d.store decoded in
              elim (is_held held) [
                | true ↦ some (d, held)
                | false ↦ elim local_only [
                  | true ↦ some (
                    d,
                    failed (bytes_of "queries-only failed to get properly: " ++ err_text held),
                  )
                  | false ↦ retrieve_remotely d decoded now signal
                ]
              ]
        ]
      ]

  unfoldable pub delete : Dht S → Bytes → Dht S × Bool
  delete d key =
      let decoded = base58.decode key in
      elim (is_valid decoded) [
        | false ↦ (d, false)
        | true ↦ (record d { store = server.data_store.delete_value d.store decoded }, true)
      ]

  abbrev stored_locally : Dht S → Bytes → S × Fallible (Unit {0}) → Dht S × Fallible Bytes
  stored_locally d key (s, failed err) =
      (record d { store = s }, failed (bytes_of "retry store data to queries storage: " ++ err))
  stored_locally d key (s, done _) = (record d { store = s }, done key)

  unfoldable local_store : ℕ → Dht S → Bytes → Bytes → Dht S × Fallible Bytes
  unfolding retry_store
  local_store more d key value =
      let decoded = base58.decode key in
      elim (is_valid decoded) [
        | false ↦ (d, invalid_key key)
        | true ↦ stored_locally d key (retry_store more d.store decoded value 0)
      ]

  -- The error that prints the response; `none` is its panic.
  abbrev not_found : Message → Option (Option Bytes)
  not_found m = message_string m.sender m.receiver >>= λ _. some none

  -- The value that a response brings; `some none` is an error.
  abbrev claimed_value : Option Message → Option (Option Bytes)
  claimed_value none = some none
  claimed_value (some m) = value_of m.payload
    where
      value_of : Payload → Option (Option Bytes)
      value_of (find_value_response status closest value) =
          if is_ok status.result && ltb 0 (length value) then some (some value) else not_found m
      value_of _ = not_found m

  unfoldable get_value_from_node : ℕ → Dht S → Bytes → Node → Option (Option Bytes)
  unfolding new_message message_string
  get_value_from_node k d target n = claimed_value (
      server.env.peers.call k
        (new_message server.env d MessageType.find_value (some n) (find_value_request target)))

  unfoldable n_closest_nodes_with_including_node_list :
      Dht S → ℕ → Bytes → List Node → List Node → List Node
  n_closest_nodes_with_including_node_list d n key ignores include_node_list =
      (closest_contacts_with_including_node_list server.env.sorter d.ht n (base58.decode key)
        (ignores ++ to_node_list d.ignorelist)
        (map (λ m. set_hashed_id server.env.blake3 m) include_node_list)).nodes
