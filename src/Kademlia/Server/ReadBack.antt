-- ===== src/Kademlia/Server/ReadBack.antt =====
-- What `handleStoreData` stored, `handleFindValue` finds.
use supernode.Base.{
  ℕ, ◌<◌, ◌≡◌, ◌⊎◌, refl, sym, ◌∙◌, Bool, true, false, some, [], ◌++◌, Bytes, bytes_of, length, ltb,
  if◌then◌else◌, arith, Bool-cases, inl, inr,
}
use supernode.Kademlia.Node.{Node}
use supernode.Kademlia.BucketIndex.Distance.{IsDigest}
use supernode.Kademlia.HashTable.{◌>>=◌}
use supernode.Kademlia.Dht.{Dht, NodeReplicationInfo}
use supernode.Kademlia.Dht.Table.{IsRoutable}
use supernode.Kademlia.Dht.Adding.{IsHashable, add_node-IsRoutable}
use supernode.Kademlia.Dht.Keeping.{add_node-keeps}
use supernode.Kademlia.Wire.{encode}
use supernode.Kademlia.Messages.{
  message_string, Message, MessageType, Payload, find_value_request, find_value_response,
  store_data_request, store_data_response,
}
use supernode.Kademlia.Lookup.{new_message}
use supernode.Kademlia.Store.{Fallible, failed, done}
use supernode.Kademlia.Server.{
  Server, Handled, ok_status, failed_status, enter_sender, added_sender, answer, fail, stored,
  is_held, value_response, generate_response_message, response_payload, handle_find_value,
  handle_store_data,
}

-- A store that reads back what it stored, where the replication of nodes touches no value.
pub record ReadsBack {S : Type 0} (server : Server S) : Type 0 where
  pub stored_value :
      (s s' : S) (key value : Bytes) (typ : ℕ) (original : Bool)
      → server.data_store.store_value s key value typ original ≡ (s', done tt)
      → server.data_store.retrieve s' key ≡ done value
  pub update_keeps :
      (s : S) (info : NodeReplicationInfo) (key : Bytes)
      → server.data_store.retrieve (server.env.ops.update_replication_info s info) key
        ≡ server.data_store.retrieve s key
  pub add_keeps :
      (s : S) (info : NodeReplicationInfo) (key : Bytes)
      → server.data_store.retrieve (server.env.ops.add_replication_info s info) key
        ≡ server.data_store.retrieve s key

module _ {S : Type 0} (server : Server S) (digest : (x : Bytes) → IsDigest (server.env.blake3 x))
    (lawful : ReadsBack server) where
  -- The entry of a sender: a table that keeps the invariant, and the same values.
  enter_sender-keeps :
      (d : Dht S) (sender : Node) (now : ℕ) (reachable : Node → Bool) (key : Bytes)
      → IsRoutable server.env.blake3 d.ht
      → IsHashable server.env.blake3 sender
      → (d' : Dht S) × (enter_sender server d (some sender) now reachable
          ≡ some (d', added_sender server d sender))
        × IsRoutable server.env.blake3 d'.ht
        × (server.data_store.retrieve d'.store key ≡ server.data_store.retrieve d.store key)
  unfolding enter_sender
  enter_sender-keeps d sender now reachable key r hashable =
      let (d', out, e, r', _) =
        add_node-IsRoutable server.env.ops server.env.blake3 d sender now reachable digest r
          hashable in
      (
        d',
        rw e refl,
        r',
        add_node-keeps server.env.ops server.env.blake3 (λ s. server.data_store.retrieve s key)
            (λ s info. lawful.update_keeps s info key) (λ s info. lawful.add_keeps s info key) d
            sender now reachable d' out e,
      )

  -- A handler's result: the state, and the encoding of a response with the payload.
  abbrev pub Gives : Handled server → Dht S → Payload → Type 0
  Gives h d p = (m : Message) × (h ≡ some (d, encode server.gob m)) × (m.payload ≡ p)

  find_value-held :
      (d : Dht S) (sender : Node) (now : ℕ) (reachable : Node → Bool) (key value : Bytes)
      → IsRoutable server.env.blake3 d.ht
      → IsHashable server.env.blake3 sender
      → server.data_store.retrieve d.store key ≡ done value
      → 0 < length value
      → (d' : Dht S) × Gives
          (handle_find_value server d (some sender) (find_value_request key) now reachable)
          d'
          (find_value_response ok_status [] value)
  unfolding handle_find_value value_response answer
  find_value-held d sender now reachable key value r hashable held pos =
      let (d', e, _, same) = enter_sender-keeps d sender now reachable key r hashable in
      let here : server.data_store.retrieve d'.store key ≡ done value = same ∙ held in
      let long : ltb 0 (length value) ≡ true = ground (arith, pos) in
      (
        d',
        (
          new_message server.env d' MessageType.find_value (some (added_sender server d sender))
              (find_value_response ok_status [] value),
          rw (e, ◌>>=◌) (rw here (rw long refl)),
          refl,
        ),
      )

  -- The value that the handler found at the key, or the one that it stored there.
  record Found (d : Dht S) (key value : Bytes) (res : Handled server) : Type 0 where
    after : Dht S
    held : Bytes
    routable : IsRoutable server.env.blake3 after.ht
    reads : server.data_store.retrieve after.store key ≡ done held
    nonempty : 0 < length held
    whose : (held ≡ value) ⊎ (server.data_store.retrieve d.store key ≡ done held)
    gives : Gives res after (store_data_response ok_status)

  -- The store fails, and the response tells its error.
  pub record Refused (res : Handled server) : Type 0 where
    after : Dht S
    err : Bytes
    gives :
        Gives res after (store_data_response (failed_status (bytes_of "store the data: " ++ err)))

  stored-Found :
      (d d1 : Dht S) (sender : Node) (key value : Bytes) (typ : ℕ) (res : S × Fallible (Unit {0}))
      → server.data_store.store_value d1.store key value typ false ≡ res
      → IsRoutable server.env.blake3 d1.ht
      → 0 < length value
      → (Found d key value
          (stored server d1 MessageType.store_data (some sender) (bytes_of "store the data: ") res))
        ⊎ Refused (
            stored server d1 MessageType.store_data (some sender) (bytes_of "store the data: ") res)
  unfolding stored answer fail generate_response_message response_payload
  stored-Found d d1 sender key value typ (s, failed err) e r pos =
      inr (record { after = record d1 { store = s }; err = err; gives = (_, refl, refl) })
  stored-Found d d1 sender key value typ (s, done _) e r pos = inl (record {
    after = record d1 { store = s };
    held = value;
    routable = r;
    reads = lawful.stored_value d1.store s key value typ false e;
    nonempty = pos;
    whose = inl refl;
    gives = (_, refl, refl);
  })

  held_or_stored :
      (d d1 : Dht S) (sender : Node) (key value : Bytes) (typ : ℕ) (held : Fallible Bytes)
      → server.data_store.retrieve d1.store key ≡ held
      → server.data_store.retrieve d1.store key ≡ server.data_store.retrieve d.store key
      → IsRoutable server.env.blake3 d1.ht
      → 0 < length value
      → let res : Handled server =
          if is_held held
          then answer server d1 MessageType.store_data (some sender) (store_data_response ok_status)
          else stored server d1 MessageType.store_data
              (some sender)
              (bytes_of "store the data: ")
              (server.data_store.store_value d1.store key value typ false) in
        (Found d key value res) ⊎ Refused res
  unfolding answer
  held_or_stored d d1 sender key value typ (failed err) e same r pos =
      stored-Found d d1 sender key value typ _ refl r pos
  held_or_stored d d1 sender key value typ (done w) e same r pos =
      elim (Bool-cases (ltb 0 (length w))) [
        | inr empty ↦ rw empty (stored-Found d d1 sender key value typ _ refl r pos)
        | inl full ↦ rw full (
            inl (record {
              after = d1;
              held = w;
              routable = r;
              reads = e;
              nonempty = ground (arith, full);
              whose = inr (sym same ∙ e);
              gives = (_, refl, refl);
            }))
      ]

  handle_store_data-Found :
      (d : Dht S) (sender receiver : Node) (now : ℕ) (reachable : Node → Bool) (value : Bytes)
      (typ : ℕ)
      → IsRoutable server.env.blake3 d.ht
      → IsHashable server.env.blake3 sender
      → 0 < length value
      → let res =
          handle_store_data server d
            (some sender)
            (some receiver)
            (store_data_request value typ)
            now
            reachable in
        (Found d (server.env.blake3 value) value res) ⊎ Refused res
  unfolding handle_store_data message_string
  handle_store_data-Found d sender receiver now reachable value typ r hashable pos =
      let key = server.env.blake3 value in
      let (d1, e, r1, same) = enter_sender-keeps d sender now reachable key r hashable in
      rw (e, ◌>>=◌)
        (held_or_stored d d1 (added_sender server d sender) key value typ
          (server.data_store.retrieve d1.store key) refl same r1 pos)

  -- The two handlers in sequence: the store's request succeeds, and the next request for the key of
  -- the value gets bytes that are the value, or that the store had at the key before.
  pub record ReadAfter (d : Dht S) (value : Bytes) (res : Handled server)
      (next : Dht S → Handled server) : Type 0 where
    after : Dht S
    last : Dht S
    held : Bytes
    whose :
        (held ≡ value) ⊎ (server.data_store.retrieve d.store (server.env.blake3 value) ≡ done held)
    first : Gives res after (store_data_response ok_status)
    second : Gives (next after) last (find_value_response ok_status [] held)

  -- On a table that keeps the invariant, with digests of 32 bytes, senders without foreign hashes,
  -- and a store that reads back what it stored: where a `StoreData` request with a sender and a
  -- receiver brings a value that is not empty, either the store fails and the response tells its
  -- error, or the response is a success and the next request for the value, by its hash and from any
  -- node, is answered with the value or with what the store had there before. What a handler gives
  -- is the encoding of its response, bytes or an error.
  pub handle_store_data-ReadAfter :
      (d : Dht S) (sender receiver reader : Node) (now later : ℕ) (reachable : Node → Bool)
      (value : Bytes) (typ : ℕ)
      → IsRoutable server.env.blake3 d.ht
      → IsHashable server.env.blake3 sender
      → IsHashable server.env.blake3 reader
      → 0 < length value
      → ReadAfter d value
          (handle_store_data server d
            (some sender)
            (some receiver)
            (store_data_request value typ)
            now
            reachable)
          (λ d'.
            handle_find_value server d'
              (some reader)
              (find_value_request (server.env.blake3 value))
              later
              reachable)
        ⊎ Refused (
            handle_store_data server d
              (some sender)
              (some receiver)
              (store_data_request value typ)
              now
              reachable)
  handle_store_data-ReadAfter d sender receiver reader now later reachable value typ r h h' pos =
      elim (handle_store_data-Found d sender receiver now reachable value typ r h pos) [
        | inr refused ↦ inr refused
        | inl found ↦
            let (last, gives) =
              find_value-held found.after reader later reachable (server.env.blake3 value)
                found.held found.routable h' found.reads found.nonempty in
            inl (record {
              after = found.after;
              last = last;
              held = found.held;
              whose = found.whose;
              first = found.gives;
              second = gives;
            })
      ]
