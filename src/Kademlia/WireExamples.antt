-- ===== src/Kademlia/WireExamples.antt =====
-- The theorems on messages, calls, keys of nodes and the store in memory at small inputs.
use supernode.Base.{
  ◌+◌, ◌≤◌, ◌<◌, ◌≡◌, refl, false, none, some, List, [], ◌∷◌, ◌++◌, Bytes, bytes_of, bytes_eq,
  length, arith, ◌⊎◌, true, replicate,
}
use supernode.Kademlia.Node.{Node}
use supernode.Kademlia.Messages.{Message, MessageType, Payload}
use supernode.Kademlia.Wire.{Gob, max_payload, encode, decode}
use supernode.Kademlia.Wire.RoundTrip.{decode-encode}
use supernode.Kademlia.ConnPool.{ConnPool}
use supernode.Kademlia.Client.{Sockets, Called, call, remote_addr}
use supernode.Kademlia.Client.Pooled.{IsSettled, call-IsSettled}
use supernode.Kademlia.NodeKeys.{
  generate_key_from_node, get_node_from_key, get_node_from_key-generate_key_from_node,
}
use supernode.Kademlia.Dict.{IsMap}
use supernode.Kademlia.MemStore.{new_store, retrieve, found_or_not}
use supernode.Kademlia.MemStore.Refines.{
  Op, store_at, delete_at, batch, run, spec_run, contents_of, run-retrieve,
}
use supernode.SnManager.Gateway.{has_byte}
use supernode.Kademlia.Toys.{ann, bob}

abbrev ping_of_bob : Message
ping_of_bob = record {
  sender = some ann;
  receiver = some bob;
  message_type = MessageType.ping;
  payload = Payload.no_data;
}

-- One message, in two bytes.
abbrev toy_gob : Gob
toy_gob = record {
  encode_message = λ m. some (7 ∷ 8 ∷ []);
  decode_message = λ body. some ping_of_bob;
}

decode-encode_example :
    ((max_payload < 2) × (encode toy_gob ping_of_bob ≡ none))
    ⊎ ((2 ≤ max_payload)
        × ((data' : Bytes) × (encode toy_gob ping_of_bob ≡ some data')
            × (length data' ≡ 8 + 2)
            × (decode toy_gob (data' ++ 9 ∷ []) ≡ some (ping_of_bob, 9 ∷ []))))
decode-encode_example = decode-encode toy_gob ping_of_bob (7 ∷ 8 ∷ []) (9 ∷ []) refl refl

test_encode : encode toy_gob ping_of_bob ≡ some (2 ∷ 0 ∷ 0 ∷ 0 ∷ 0 ∷ 0 ∷ 0 ∷ 0 ∷ 7 ∷ 8 ∷ [])
unfolding encode replicate
test_encode = refl

-- The receiver closes the connection without a response.
abbrev toy_sockets : Sockets
toy_sockets = record {
  establish = λ addr. some 77;
  set_deadline = λ conn timeout. true;
  write = λ conn bytes. true;
  incoming = λ conn. [];
}

abbrev no_conns : ConnPool
no_conns = record { capacity = 256; conns = [] }

call-IsSettled_example :
    ((r : Called) × (call toy_sockets toy_gob no_conns true ping_of_bob false 5 6 7 ≡ some r)
      × IsSettled toy_sockets toy_gob no_conns (remote_addr bob) 5 6 7 r)
    ⊎ ((call toy_sockets toy_gob no_conns true ping_of_bob false 5 6 7 ≡ none)
        × (ping_of_bob.receiver ≡ none))
call-IsSettled_example = call-IsSettled toy_sockets toy_gob no_conns true ping_of_bob false 5 6 7 tt

abbrev toy_peer : Node
toy_peer = record { id = bytes_of "jXa"; ip = bytes_of "10.0.0.1"; port = 4445; hashed_id = [] }

get_node_from_key-generate_key_from_node_example :
    get_node_from_key (generate_key_from_node toy_peer) ≡ some toy_peer
unfolding has_byte
get_node_from_key-generate_key_from_node_example =
    get_node_from_key-generate_key_from_node toy_peer refl refl (omega arith)

abbrev toy_ops' : List Op
toy_ops' = store_at 5 (1 ∷ []) (7 ∷ []) ∷ batch ((2 ∷ []) ∷ []) ∷ delete_at (1 ∷ []) ∷ []

run-retrieve_example :
    IsMap (run toy_ops' new_store).data'
    × (retrieve (run toy_ops' new_store) (2 ∷ [])
        ≡ found_or_not (spec_run toy_ops' (contents_of new_store.data') (2 ∷ [])))
unfolding new_store
run-retrieve_example = run-retrieve toy_ops' new_store (2 ∷ []) tt

test_batch : spec_run toy_ops' (λ key. none) (2 ∷ []) ≡ some (2 ∷ [])
unfolding bytes_eq
test_batch = refl
