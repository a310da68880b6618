-- ===== src/Kademlia/Server/Total.antt =====
-- The handlers do not panic at a message with a sender and a receiver, and keep the invariant of the
-- route table.
use supernode.Kademlia.Wire.{encode}
use supernode.Base.{
  ℕ, ◌≡◌, refl, ap, true, false, Bool, Option, some, ◌++◌, Bytes, bytes_of, if◌then◌else◌,
}
use supernode.Kademlia.Node.{Node}
use supernode.Kademlia.BucketIndex.Distance.{IsDigest}
use supernode.Kademlia.HashTable.{◌>>=◌}
use supernode.Kademlia.Dht.{Dht}
use supernode.Kademlia.Dht.Table.{IsRoutable}
use supernode.Kademlia.Dht.Adding.{IsHashable, add_node-IsRoutable}
use supernode.Kademlia.Messages.{
  message_string, Message, MessageType, Payload, find_node_request, find_value_request,
  store_data_request, replicate_data_request, ResponseStatus,
}
use supernode.Kademlia.Lookup.{new_message}
use supernode.Kademlia.Store.{Fallible, failed, done}
use supernode.Kademlia.Server.{
  Server, Handled, failed_status, enter_sender, added_sender, answer, fail, stored, is_held,
  replicated, store_rep_keys, generate_response_message, response_payload, handle_find_node,
  handle_find_value, handle_store_data, handle_replicate,
}

module _ {S : Type 0} (server : Server S)
    (digest : (x : Bytes) → IsDigest (server.env.blake3 x)) where
  -- A handler gives the encoding of a response of that type, and leaves a table that keeps the
  -- invariant.
  abbrev pub Responds : MessageType → Handled server → Type 0
  Responds t h =
      (d : Dht S) × (m : Message) × (h ≡ some (d, encode server.gob m))
      × (m.message_type ≡ t)
      × IsRoutable server.env.blake3 d.ht

  pub answer-Responds :
      (d : Dht S) (t : MessageType) (receiver : Option Node) (p : Payload)
      → IsRoutable server.env.blake3 d.ht
      → Responds t (answer server d t receiver p)
  unfolding answer
  answer-Responds d t receiver p r = (d, new_message server.env d t receiver p, refl, refl, r)

  -- The types of messages for which there is a failure response.
  abbrev HasResponse : MessageType → Type 0
  HasResponse t =
      (p : ResponseStatus → Payload) × ((status : ResponseStatus)
        → response_payload t status ≡ some (p status))

  pub fail-Responds :
      (d : Dht S) (t : MessageType) (receiver : Option Node) (err : Bytes)
      → HasResponse t
      → IsRoutable server.env.blake3 d.ht
      → Responds t (fail server d t receiver err)
  unfolding fail generate_response_message
  fail-Responds d t receiver err (p, e) r =
      let status : ResponseStatus = failed_status err in
      (
        d,
        new_message server.env d t receiver (p status),
        ap
            (λ o.
              some (
                d,
                o >>= λ payload. encode server.gob (new_message server.env d t receiver payload),
              ))
            (e status),
        refl,
        r,
      )

  pub stored-Responds :
      (d : Dht S) (t : MessageType) (receiver : Option Node) (text : Bytes)
      (res : S × Fallible (Unit {0}))
      → HasResponse t
      → IsRoutable server.env.blake3 d.ht
      → Responds t (stored server d t receiver text res)
  unfolding stored
  stored-Responds d t receiver text (s, failed err) has r =
      fail-Responds (record d { store = s }) t receiver (text ++ err) has r
  stored-Responds d t receiver text (s, done _) has r =
      answer-Responds (record d { store = s }) t receiver _ r

  if-Responds :
      (t : MessageType) (b : Bool) (x y : Handled server)
      → Responds t x
      → Responds t y
      → Responds t (if b then x else y)
  if-Responds t true x y hx hy = hx
  if-Responds t false x y hx hy = hy

  -- What follows the sender's entry into the table.
  pub enter_sender-Responds :
      (d : Dht S) (sender : Node) (now : ℕ) (reachable : Node → Bool) (t : MessageType)
      (f : Dht S × Node → Handled server)
      → IsRoutable server.env.blake3 d.ht
      → IsHashable server.env.blake3 sender
      → ((d' : Dht S) (sender' : Node)
          → IsRoutable server.env.blake3 d'.ht
          → Responds t (f (d', sender')))
      → Responds t (enter_sender server d (some sender) now reachable >>= f)
  unfolding enter_sender
  enter_sender-Responds d sender now reachable t f r hashable later =
      let (d', out, e, r', _) =
        add_node-IsRoutable server.env.ops server.env.blake3 d sender now reachable digest r
          hashable in
      rw (e, ◌>>=◌) (later d' (added_sender server d sender) r')

  module _ (d : Dht S) (sender : Node) (now : ℕ) (reachable : Node → Bool) (receiver : Node)
      (r : IsRoutable server.env.blake3 d.ht) (hashable : IsHashable server.env.blake3 sender) where
    pub handle_find_node-Responds :
        (p : Payload)
        → Responds MessageType.find_node (handle_find_node server d (some sender) p now reachable)
    unfolding handle_find_node
    handle_find_node-Responds (find_node_request target) =
        enter_sender-Responds d sender now reachable _ _ r hashable
          (λ d' sender' r'. answer-Responds d' _ (some sender') _ r')
    handle_find_node-Responds _ = answer-Responds d _ (some sender) _ r

    pub handle_find_value-Responds :
        (p : Payload)
        → Responds MessageType.find_value (handle_find_value server d (some sender) p now reachable)
    unfolding handle_find_value response_payload
    handle_find_value-Responds (find_value_request target) =
        enter_sender-Responds d sender now reachable _ _ r hashable
          (λ d' sender' r'. answer-Responds d' _ (some sender') _ r')
    handle_find_value-Responds _ =
        fail-Responds d MessageType.find_value (some sender) (bytes_of "invalid FindValueRequest")
          (_, λ status. refl) r

    pub handle_store_data-Responds :
        (p : Payload)
        → Responds MessageType.store_data
            (handle_store_data server d (some sender) (some receiver) p now reachable)
    unfolding handle_store_data response_payload message_string
    handle_store_data-Responds (store_data_request value typ) =
        enter_sender-Responds d sender now reachable _ _ r hashable (λ d' sender' r'.
          if-Responds MessageType.store_data
            (is_held (server.data_store.retrieve d'.store (server.env.blake3 value))) _ _
            (answer-Responds d' _ (some sender') _ r')
            (stored-Responds d' MessageType.store_data (some sender') (bytes_of "store the data: ")
              _ (_, λ status. refl) r'))
    handle_store_data-Responds _ =
        fail-Responds d MessageType.store_data (some sender) (bytes_of "invalid StoreDataRequest")
          (_, λ status. refl) r

    replicated-Responds :
        (res : S × Fallible (Unit {0}))
        → Responds MessageType.replicate (replicated server d sender res)
    unfolding response_payload
    replicated-Responds (s, failed err) =
        fail-Responds (record d { store = s }) MessageType.replicate (some sender) err
          (_, λ status. refl) r
    replicated-Responds (s, done _) = answer-Responds (record d { store = s }) _ (some sender) _ r

    pub handle_replicate-Responds :
        (p : Payload)
        → Responds MessageType.replicate (handle_replicate server d (some sender) (some receiver) p)
    unfolding handle_replicate response_payload
    handle_replicate-Responds (replicate_data_request keys) = replicated-Responds (
        store_rep_keys server d.store sender
          (server.data_store.retrieve_batch_not_exist d.store keys 5000))
    handle_replicate-Responds _ =
        fail-Responds d MessageType.replicate (some sender)
          (bytes_of "invalid ReplicateDataRequest") (_, λ status. refl) r
