-- ===== src/Kademlia/Messages.antt =====
-- p2p/kademlia/message.go: the messages of the DHT. Numbers on the wire that name no type of
-- message are `unknown`; every result other than 0 counts as a failure. `none` as
-- a sender or receiver, and `no_data`, are nil, which gob gives for what a message leaves out.
use supernode.Base.{Option, none, some, ℕ, Bool, true, false, List, Bytes}
use supernode.Kademlia.Node.{Node}

pub data MessageType : Type 0 where
  ping : MessageType
  store_data : MessageType
  find_node : MessageType
  find_value : MessageType
  replicate : MessageType
  batch_find_values : MessageType
  batch_store_data : MessageType
  batch_find_node : MessageType
  batch_get_values : MessageType
  unknown : ℕ → MessageType

pub data ResultType : Type 0 where
  result_ok : ResultType
  result_failed : ResultType

pub record ResponseStatus : Type 0 where
  pub result : ResultType
  pub err_msg : Bytes

pub record KeyValWithClosest : Type 0 where
  pub value : Bytes
  pub closest : List Node

pub data Payload : Type 0 where
  no_data : Payload
  find_node_request : (target : Bytes) → Payload
  find_node_response : (status : ResponseStatus) (closest : List Node) → Payload
  find_value_request : (target : Bytes) → Payload
  find_value_response : (status : ResponseStatus) (closest : List Node) (value : Bytes) → Payload
  store_data_request : (data' : Bytes) (typ : ℕ) → Payload
  store_data_response : (status : ResponseStatus) → Payload
  replicate_data_request : (keys : List Bytes) → Payload
  replicate_data_response : (status : ResponseStatus) → Payload
  batch_find_values_request : (keys : List Bytes) → Payload
  batch_find_values_response : (status : ResponseStatus) (response : Bytes) (done : Bool) → Payload
  batch_store_data_request : (data' : List Bytes) (typ : ℕ) → Payload
  batch_find_node_request : (hashed_target : List Bytes) → Payload
  batch_find_node_response :
      (status : ResponseStatus) (closest_nodes : List (Bytes × List Node)) → Payload
  batch_get_values_request : (data' : List (Bytes × KeyValWithClosest)) → Payload
  batch_get_values_response :
      (data' : List (Bytes × KeyValWithClosest)) (status : ResponseStatus) → Payload

pub record Message : Type 0 where
  pub sender : Option Node
  pub receiver : Option Node
  pub message_type : MessageType
  pub payload : Payload

abbrev pub is_ok : ResultType → Bool
is_ok result_ok = true
is_ok result_failed = false

-- `message.String()`: `none` is the nil dereference of a sender or a receiver that is missing.
unfoldable pub message_string : Option Node → Option Node → Option (Unit {0})
message_string none receiver = none
message_string (some sender) none = none
message_string (some sender) (some receiver) = some tt
