-- ===== src/Kademlia/Client.antt =====
-- p2p/kademlia/network.go: `Call` and `getExecTimeout`. A connection is a number; the lock makes the
-- part that gets the connection one step, and no other call on it runs before this one is over.
-- The deferred function reads the `err` of the outer scope, which the errors of `SetDeadline` and
-- of `Write` do not set. Times are numbers of nanoseconds.
pub mod Pooled
use supernode.Base.{
  ℕ, ◌*◌, ◌+◌, Bool, true, false, Option, none, some, List, [], ◌∷◌, ◌++◌, Bytes, ◌==◌,
  if◌then◌else◌,
}
use supernode.Kademlia.Node.{Node}
use supernode.Kademlia.Messages.{Message, MessageType}
use supernode.Kademlia.ConnPool.{ConnPool, add_conn, get_conn, del_conn}
use supernode.Kademlia.Wire.{Gob, encode, decode}
use supernode.Cascade.IdFiles.{itoa}

abbrev seconds : ℕ → ℕ
seconds n = n * 1_000_000_000

pub get_exec_timeout : MessageType → Bool → ℕ
get_exec_timeout t true = seconds 180
get_exec_timeout MessageType.batch_store_data false = seconds 60
get_exec_timeout MessageType.find_node false = seconds 30
get_exec_timeout MessageType.batch_find_node false = seconds 15
get_exec_timeout t false = seconds 10

-- What happens at the sockets: the handshake, and on a connection the deadline, the write, and the
-- bytes that come back.
pub record Sockets : Type 0 where
  pub establish : Bytes → Option ℕ
  pub set_deadline : ℕ → ℕ → Bool
  pub write : ℕ → Bytes → Bool
  pub incoming : ℕ → Bytes

pub data CallError : Type 0 where
  invalid_receiver_port : CallError
  invalid_sender_port : CallError
  no_credentials : CallError
  not_established : CallError
  no_deadline : CallError
  not_encoded : CallError
  not_written : CallError
  not_read : CallError

pub data CallResult : Type 0 where
  failed : CallError → CallResult
  answered : Message → CallResult

-- The result, the pool, and the connections that were closed.
pub record Called : Type 0 where
  pub result : CallResult
  pub pool : ConnPool
  pub closed : List ℕ

-- `fmt.Sprintf("%s@%s:%d", …)`.
pub remote_addr : Node → Bytes
remote_addr n = n.id ++ b'@' ∷ n.ip ++ b':' ∷ itoa n.port

-- The port of a node that is there is 50052.
pub has_bad_port : Option Node → Bool
has_bad_port none = false
has_bad_port (some n) = n.port == 50052

abbrev pub refused : CallError → ConnPool → Called
refused e pool = record { result = failed e; pool = pool; closed = [] }

module _ (sockets : Sockets) (gob : Gob) where
  -- A new connection goes into the pool.
  abbrev pub install : ConnPool → Bytes → Option ℕ → ℕ → ℕ → (ConnPool × Option ℕ) × List ℕ
  install pool addr none search later = ((pool, none), [])
  install pool addr (some conn) search later = (
    (((add_conn pool addr conn search later).0, some conn)),
    (add_conn pool addr conn search later).1,
  )

  abbrev pub dial : ConnPool × Option ℕ → Bytes → ℕ → ℕ → (ConnPool × Option ℕ) × List ℕ
  dial (pool, some conn) addr search later = ((pool, some conn), [])
  dial (pool, none) addr search later = install pool addr (sockets.establish addr) search later

  -- The connection from the pool, or a new one that goes into it; `now`, `search` and `later` are
  -- the times that `Get` and `Add` read.
  pub connect : ConnPool → Bytes → ℕ → ℕ → ℕ → (ConnPool × Option ℕ) × List ℕ
  connect pool addr now search later = dial (get_conn pool addr now) addr search later

  -- The request on the connection: the result, and whether the deferred function sees an error.
  pub exchange : ℕ → ℕ → Message → CallResult × Bool
  exchange conn timeout request = elim (sockets.set_deadline conn timeout) [
    | false ↦ (failed no_deadline, false)
    | true ↦ elim (encode gob request) [
      | none ↦ (failed not_encoded, true)
      | some bytes ↦ elim (sockets.write conn bytes) [
        | false ↦ (failed not_written, false)
        | true ↦ elim (decode gob (sockets.incoming conn)) [
          | none ↦ (failed not_read, true)
          | some response ↦ (answered response.0, false)
        ]
      ]
    ]
  ]

  -- The deferred function.
  abbrev pub settle : ConnPool → Bytes → List ℕ → ℕ → CallResult × Bool → Called
  settle pool addr closed conn (result, true) = record {
    result = result;
    pool = del_conn pool addr;
    closed = closed ++ conn ∷ [];
  }
  settle pool addr closed conn (result, false) = record {
    result = result;
    pool = pool;
    closed = closed;
  }

  pub finish : ConnPool → Bytes → List ℕ → Option ℕ → Message → Bool → Called
  unfolding exchange get_exec_timeout
  finish pool addr closed none request is_long = record {
    result = failed not_established;
    pool = pool;
    closed = closed;
  }
  finish pool addr closed (some conn) request is_long =
      settle pool addr closed conn
        (exchange conn (get_exec_timeout request.message_type is_long) request)

  -- `none` is the nil dereference of a receiver that is missing, at its address; `has_tc` says that
  -- the client has its transport credentials.
  pub call : ConnPool → Bool → Message → Bool → ℕ → ℕ → ℕ → Option Called
  unfolding connect finish remote_addr has_bad_port
  call pool has_tc request is_long now search later =
      if has_bad_port request.receiver
      then some (refused invalid_receiver_port pool)
      else if has_bad_port request.sender
      then some (refused invalid_sender_port pool)
      else elim request.receiver [
        | none ↦ none
        | some receiver ↦ elim has_tc [
          | false ↦ some (refused no_credentials pool)
          | true ↦
              let addr = remote_addr receiver in
              let ((pool', found), closed) = connect pool addr now search later in
              some (finish pool' addr closed found request is_long)
        ]
      ]
