-- ===== src/Kademlia/Server/Batches.antt =====
-- p2p/kademlia/network.go: the handlers of batches, and which handler a message gets. `base58` is
-- the encoding of the keys of `ClosestNodes`; maps are lists of keys and values, in the order in
-- which a loop over them runs.
use supernode.Base.{
  ℕ, ◌+◌, ◌-◌, ◌*◌, Bool, true, false, ◌&&◌, Option, none, some, List, [], ◌∷◌, ◌++◌, map, Bytes,
  bytes_of, length, ltb, leb, if◌then◌else◌,
}
use supernode.Kademlia.Node.{Node}
use supernode.Kademlia.HashTable.{◌>>=◌, closest_contacts}
use supernode.Kademlia.Dht.{Dht}
use supernode.Kademlia.Dict.{assign_key}
use supernode.Kademlia.Messages.{
  MessageType, Payload, KeyValWithClosest, batch_store_data_request, batch_find_node_request,
  batch_find_node_response, batch_get_values_request, batch_get_values_response,
}
use supernode.Kademlia.Lookup.{alpha}
use supernode.Kademlia.Store.{Fallible, failed, done}
use supernode.Kademlia.Server.{
  Server, Handled, ok_status, enter_sender, closest, answer, fail, stored,
}

unfoldable pub hex_value : ℕ → Option ℕ
hex_value c =
    if leb b'0' c && leb c b'9'
    then some (c - 48)
    else if leb b'a' c && leb c b'f'
    then some (c - 87)
    else if leb b'A' c && leb c b'F'
    then some (c - 55)
    else none

-- `hex.DecodeString`.
unfoldable pub hex_decode : Bytes → Option Bytes
unfolding hex_value
hex_decode [] = some []
hex_decode (a ∷ []) = none
hex_decode (a ∷ b ∷ rest) = do
  high ← hex_value a
  low ← hex_value b
  bytes ← hex_decode rest
  some ((16 * high + low) ∷ bytes)

-- A round with its key: it stops at an error, and else goes on with the rounds that are left.
abbrev pub fill_step :
    Bytes
    → Fallible KeyValWithClosest
    → Option (Fallible (List (Bytes × KeyValWithClosest)))
    → Option (Fallible (List (Bytes × KeyValWithClosest)))
fill_step key (failed err) rest = some (failed err)
fill_step key (done v) none = none
fill_step key (done v) (some (failed err)) = some (failed err)
fill_step key (done v) (some (done rest)) = some (done ((key, v) ∷ rest))

module _ {S : Type 0} (server : Server S) where
  unfoldable pub handle_batch_store_data :
      Dht S → Option Node → Payload → ℕ → (Node → Bool) → Handled server
  unfolding enter_sender stored fail
  handle_batch_store_data d sender (batch_store_data_request values typ) now reachable = do
    (d', sender') ← enter_sender server d sender now reachable
    stored server d' MessageType.batch_store_data (some sender') (bytes_of "batch store the data: ")
        (server.data_store.store_batch d'.store values 1 false)
  handle_batch_store_data d sender _ now reachable =
      fail server d MessageType.batch_store_data sender (bytes_of "invalid BatchStoreDataRequest")

  module _ (base58 : Bytes → Bytes) where
    closest_map : Dht S → Node → List (Bytes × List Node) → List Bytes → List (Bytes × List Node)
    unfolding closest assign_key
    closest_map d sender found [] = found
    closest_map d sender found (target ∷ rest) =
        closest_map d sender (assign_key (base58 target) (closest server d target sender) found)
          rest

    unfoldable pub handle_batch_find_node :
        Dht S → Option Node → Payload → ℕ → (Node → Bool) → Handled server
    unfolding enter_sender closest_map answer fail
    handle_batch_find_node d sender (batch_find_node_request targets) now reachable = do
      (d', sender') ← enter_sender server d sender now reachable
      answer server d' MessageType.batch_find_node (some sender')
          (batch_find_node_response ok_status (closest_map d' sender' [] targets))
    handle_batch_find_node d sender _ now reachable =
        fail server d MessageType.batch_find_node sender (bytes_of "invalid FindNodeRequest")

  -- One round of the loop that fills the answer; `failed` is an error of `hex.DecodeString`.
  pub value_or_closest : Dht S → Node → Bytes → Bytes → Fallible KeyValWithClosest
  unfolding hex_decode
  value_or_closest d sender key value =
      if ltb 0 (length value)
      then done (record { value = value; closest = [] })
      else elim (hex_decode key) [
        | none ↦ failed (bytes_of "batch find vals: decode key: " ++ key)
        | some target ↦ done (record {
          value = value;
          closest = (closest_contacts server.env.sorter d.ht alpha target (sender ∷ [])).0.nodes;
        })
      ]

  -- `none` is an index out of range of `values`.
  unfoldable pub fill_values :
      Dht S → Node → List Bytes → List Bytes → Option (Fallible (List (Bytes × KeyValWithClosest)))
  unfolding value_or_closest
  fill_values d sender [] values = some (done [])
  fill_values d sender (key ∷ keys) [] = none
  fill_values d sender (key ∷ keys) (value ∷ values) =
      fill_step key (value_or_closest d sender key value) (fill_values d sender keys values)

  abbrev pub filled : Dht S → Node → Fallible (List (Bytes × KeyValWithClosest)) → Handled server
  filled d sender (failed err) = fail server d MessageType.batch_get_values (some sender) err
  filled d sender (done values) =
      answer server d MessageType.batch_get_values (some sender)
        (batch_get_values_response values ok_status)

  abbrev pub got_values : Dht S → Node → List Bytes → S × Fallible (List Bytes × ℕ) → Handled server
  got_values d sender keys (s, failed err) =
      fail server (record d { store = s }) MessageType.batch_get_values (some sender)
        (bytes_of "batch find values: " ++ err)
  got_values d sender keys (s, done found) =
      fill_values (record d { store = s }) sender keys found.0 >>= λ values.
      filled (record d { store = s }) sender values

  unfoldable pub handle_get_values :
      Dht S → Option Node → Payload → ℕ → (Node → Bool) → Handled server
  unfolding enter_sender fill_values fail
  handle_get_values d sender (batch_get_values_request entries) now reachable = do
    (d', sender') ← enter_sender server d sender now reachable
    let keys = map (λ (e : Bytes × KeyValWithClosest). e.0) entries
    got_values d' sender' keys (server.data_store.retrieve_batch_values d'.store keys true)
  handle_get_values d sender _ now reachable =
      fail server d MessageType.batch_get_values sender (bytes_of "invalid BatchGetValuesRequest")
