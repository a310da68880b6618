-- ===== src/Kademlia/Server/Served.antt =====
-- Messages of the known types get a response of their type, as far as it can be encoded.
use supernode.Base.{
  ℕ, ◌≡◌, refl, Bool, true, Option, some, List, [], ◌∷◌, ◌++◌, Bytes, bytes_of, length, arith,
}
use supernode.Kademlia.Node.{Node}
use supernode.Kademlia.BucketIndex.Distance.{IsDigest}
use supernode.Kademlia.HashTable.{◌>>=◌}
use supernode.Kademlia.Dht.{Dht}
use supernode.Kademlia.Dht.Table.{IsRoutable}
use supernode.Kademlia.Dht.Adding.{IsHashable}
use supernode.Kademlia.Messages.{
  MessageType, Payload, KeyValWithClosest, batch_store_data_request, batch_find_node_request,
  batch_get_values_request,
}
use supernode.Kademlia.Store.{Fallible, failed, done}
use supernode.Kademlia.Server.{Server, response_payload, handle_ping}
use supernode.Kademlia.Server.Batches.{
  handle_batch_store_data, handle_batch_find_node, handle_get_values, value_or_closest, fill_values,
  filled, got_values, fill_step,
}
use supernode.Kademlia.Server.Compression.{DataMap}
use supernode.Kademlia.Server.Dispatch.{handle_typed}
use supernode.Kademlia.Server.Total.{
  Responds, answer-Responds, fail-Responds, stored-Responds, enter_sender-Responds,
  handle_find_node-Responds, handle_find_value-Responds, handle_store_data-Responds,
  handle_replicate-Responds,
}

-- The store gives a value for each key that it is asked for.
abbrev pub HasValues : {S : Type 0} → Server S → Type 0
HasValues {S} server =
    (s s' : S) (keys : List Bytes) (cloud : Bool) (values : List Bytes) (count : ℕ)
    → server.data_store.retrieve_batch_values s keys cloud ≡ (s', done (values, count))
    → length values ≡ length keys

-- The types that get a response at once: all but the unknown ones and `BatchFindValues`.
abbrev IsServed : MessageType → Type 0
IsServed MessageType.batch_find_values = ⊥
IsServed (MessageType.unknown n) = ⊥
IsServed _ = Unit

fill_step-some :
    (key : Bytes) (v : Fallible KeyValWithClosest)
    (rest : Fallible (List (Bytes × KeyValWithClosest)))
    → (filled' : Fallible (List (Bytes × KeyValWithClosest))) × (fill_step key v (some rest)
        ≡ some filled')
fill_step-some key (failed err) rest = (failed err, refl)
fill_step-some key (done v) (failed err) = (failed err, refl)
fill_step-some key (done v) (done rest) = (done ((key, v) ∷ rest), refl)

module _ {S : Type 0} (server : Server S)
    (digest : (x : Bytes) → IsDigest (server.env.blake3 x)) where
  -- With as many values as keys the loop over the keys has no index out of range.
  fill_values-some :
      (d : Dht S) (sender : Node) (keys values : List Bytes)
      → length values ≡ length keys
      → (filled' : Fallible (List (Bytes × KeyValWithClosest))) × (fill_values server d sender keys
            values
          ≡ some filled')
  unfolding fill_values
  fill_values-some d sender [] values h = (done [], refl)
  fill_values-some d sender (key ∷ keys) [] h = absurd (omega arith)
  fill_values-some d sender (key ∷ keys) (value ∷ values) h =
      let (rest, e) = fill_values-some d sender keys values (omega arith) in
      let (filled', same) = fill_step-some key (value_or_closest server d sender key value) rest in
      (filled', rw e same)

  module _ (values : HasValues server) (d : Dht S) (sender : Node) (now : ℕ)
      (reachable : Node → Bool) (receiver : Node) (r : IsRoutable server.env.blake3 d.ht)
      (hashable : IsHashable server.env.blake3 sender) where
    batch_store_data-Responds :
        (p : Payload)
        → Responds server digest MessageType.batch_store_data
            (handle_batch_store_data server d (some sender) p now reachable)
    unfolding handle_batch_store_data response_payload
    batch_store_data-Responds (batch_store_data_request vs typ) =
        enter_sender-Responds server digest d sender now reachable _ _ r hashable (λ d' sender' r'.
          stored-Responds server digest d' MessageType.batch_store_data (some sender')
            (bytes_of "batch store the data: ") _ (_, λ status. refl) r')
    batch_store_data-Responds _ =
        fail-Responds server digest d MessageType.batch_store_data (some sender)
          (bytes_of "invalid BatchStoreDataRequest") (_, λ status. refl) r

    batch_find_node-Responds :
        (base58 : Bytes → Bytes) (p : Payload)
        → Responds server digest MessageType.batch_find_node
            (handle_batch_find_node server base58 d (some sender) p now reachable)
    unfolding handle_batch_find_node response_payload
    batch_find_node-Responds base58 (batch_find_node_request targets) =
        enter_sender-Responds server digest d sender now reachable _ _ r hashable
          (λ d' sender' r'. answer-Responds server digest d' _ (some sender') _ r')
    batch_find_node-Responds base58 _ =
        fail-Responds server digest d MessageType.batch_find_node (some sender)
          (bytes_of "invalid FindNodeRequest") (_, λ status. refl) r

    filled-Responds :
        (d' : Dht S) (sender' : Node) (res : Fallible (List (Bytes × KeyValWithClosest)))
        → IsRoutable server.env.blake3 d'.ht
        → Responds server digest MessageType.batch_get_values (filled server d' sender' res)
    unfolding response_payload
    filled-Responds d' sender' (failed err) r' =
        fail-Responds server digest d' MessageType.batch_get_values (some sender') err
          (_, λ status. refl) r'
    filled-Responds d' sender' (done vs) r' = answer-Responds server digest d' _ (some sender') _ r'

    got_values-Responds :
        (d' : Dht S) (sender' : Node) (keys : List Bytes) (res : S × Fallible (List Bytes × ℕ))
        → server.data_store.retrieve_batch_values d'.store keys true ≡ res
        → IsRoutable server.env.blake3 d'.ht
        → Responds server digest MessageType.batch_get_values
            (got_values server d' sender' keys res)
    unfolding response_payload
    got_values-Responds d' sender' keys (s, failed err) e r' =
        fail-Responds server digest (record d' { store = s }) MessageType.batch_get_values
          (some sender') (bytes_of "batch find values: " ++ err) (_, λ status. refl) r'
    got_values-Responds d' sender' keys (s, done found) e r' =
        let (res, same) =
          fill_values-some (record d' { store = s }) sender' keys found.0
            (values d'.store s keys true found.0 found.1 e) in
        rw (same, ◌>>=◌) (filled-Responds (record d' { store = s }) sender' res r')

    get_values-Responds :
        (p : Payload)
        → Responds server digest MessageType.batch_get_values
            (handle_get_values server d (some sender) p now reachable)
    unfolding handle_get_values response_payload
    get_values-Responds (batch_get_values_request entries) =
        enter_sender-Responds server digest d sender now reachable _ _ r hashable
          (λ d' sender' r'. got_values-Responds d' sender' _ _ refl r')
    get_values-Responds _ =
        fail-Responds server digest d MessageType.batch_get_values (some sender)
          (bytes_of "invalid BatchGetValuesRequest") (_, λ status. refl) r

    -- On a table that keeps the invariant, with digests of 32 bytes and a store that gives a value
    -- for each key: a message of any type but `BatchFindValues` and the unknown ones, with a receiver
    -- and a sender without a foreign hash, makes no handler panic, whatever its payload. The handler
    -- leaves a table that keeps the invariant, and gives the encoding of a response of the message's
    -- type: bytes, or the error of the encoding.
    pub handle_typed-Responds :
        (compress : DataMap → Option Bytes) (base58 : Bytes → Bytes) (t : MessageType) (p : Payload)
        (is_free : Bool)
        → IsServed t
        → Responds server digest t (
            handle_typed server compress base58 d t
              (some sender)
              (some receiver)
              p
              is_free
              now
              reachable)
    unfolding handle_typed handle_ping
    handle_typed-Responds compress base58 MessageType.find_node p is_free h =
        handle_find_node-Responds server digest d sender now reachable receiver r hashable p
    handle_typed-Responds compress base58 MessageType.batch_find_node p is_free h =
        batch_find_node-Responds base58 p
    handle_typed-Responds compress base58 MessageType.find_value p is_free h =
        handle_find_value-Responds server digest d sender now reachable receiver r hashable p
    handle_typed-Responds compress base58 MessageType.ping p is_free h =
        answer-Responds server digest d _ (some sender) _ r
    handle_typed-Responds compress base58 MessageType.store_data p is_free h =
        handle_store_data-Responds server digest d sender now reachable receiver r hashable p
    handle_typed-Responds compress base58 MessageType.replicate p is_free h =
        handle_replicate-Responds server digest d sender now reachable receiver r hashable p
    handle_typed-Responds compress base58 MessageType.batch_store_data p is_free h =
        batch_store_data-Responds p
    handle_typed-Responds compress base58 MessageType.batch_get_values p is_free h =
        get_values-Responds p
    handle_typed-Responds compress base58 MessageType.batch_find_values p is_free h = absurd h
    handle_typed-Responds compress base58 (MessageType.unknown n) p is_free h = absurd h
