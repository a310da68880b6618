-- ===== src/Lib.antt =====
-- Models of the supernode: its Kademlia network with the route table, the lookups and stores, the
-- server and its client, its cascade service, and the manager that updates its binary; with theorems
-- about each.
--
-- A supernode stores files for the Lumera chain. p2p/kademlia is its distributed hash table: nodes
-- find each other by the XOR distance of hashed ids and keep each other in a route table of 256
-- buckets. supernode/services/cascade registers a file: it checks an action of the chain, encodes
-- the file to symbols, stores layout and index files in the hash table, and finalizes the action;
-- and it downloads files again. sn-manager runs the supernode's binary and updates it.
--
-- Files and code
-- - Base and its children: numbers, byte strings, lists, tables, XOR, and options in sequence.
-- - Kademlia/Node: p2p/kademlia/node.go. NodeList with AddNodes, DelNode, Exists, TopN and Sort.
--   The interface Sorter stands for sort.Sort, with insertion sort as an instance.
-- - Kademlia/BucketIndex and Kademlia/HashTable: p2p/kademlia/hashtable.go.
-- - Kademlia/BanList: p2p/kademlia/banlist.go.
-- - Kademlia/Dht: addNode, removeNode, addKnownNodes and NClosestNodes of p2p/kademlia/dht.go and
--   updateReplicationNode of p2p/kademlia/replication.go, over the interface ReplicationStore.
-- - Kademlia/ConnPool: the pool of p2p/kademlia/conn_pool.go. Its map is a list of entries.
-- - Kademlia/Messages and Kademlia/Wire: the messages of p2p/kademlia/message.go, and how they stand
--   on a connection. Kademlia/NodeKeys: nodes as keys, of p2p/kademlia/common.go.
-- - Kademlia/Client: Call of p2p/kademlia/network.go, with the pool.
-- - Kademlia/Server: the handlers of p2p/kademlia/network.go, up to the bytes of their responses, or
--   the error of the encoding. No panic of a handler but handleBatchFindValues' is recovered from:
--   handlePanic calls recover in a function that the deferred one calls, where it gives nil. Thus
--   handlePanic has no counterpart. Server/Batches has those of batches,
--   Server/Dispatch the switch of handleConn and handleBatchFindValues, and Server/Compression
--   findOptimalCompression.
-- - Kademlia/Store: the interface of p2p/kademlia/store.go, as far as the DHT and its server call it.
--   Kademlia/MemStore: p2p/kademlia/store/mem/mem.go, an instance of it.
-- - Kademlia/Lookup: doMultiWorkers and the loops over responses of p2p/kademlia/dht.go.
--   Lookup/Iterate has iterate and iterateFindValue, and Lookup/AlphaStore storeToAlphaNodes.
-- - Kademlia/Api: Store, Retrieve, Delete and LocalStore of p2p/kademlia/dht.go.
-- - Kademlia/Redundant: p2p/kademlia/redundant_data.go. Kademlia/Activity: a tick of
--   checkNodeActivity of p2p/kademlia/node_activity.go.
-- - Cascade: the data of supernode/services/cascade. Its record Services has a function for each
--   method that the service calls on the interfaces of supernode/services/cascade/adaptors, and
--   for each package that encodes or hashes. A run passes a log of effects on.
-- - Cascade/IdFiles: metadata.go. Cascade/Signatures and Cascade/Steps: helper.go, with
--   parseRQMetadataFile in Cascade/IdFiles. Cascade/Register: register.go. Cascade/Restore and
--   Cascade/Download: download.go.
-- - SnManager/Version: sn-manager/internal/utils/version.go.
-- - SnManager/Gateway and SnManager/Updater: sn-manager/internal/updater/updater.go. The record
--   World has the results of files, processes and requests, and a call gives a list of effects.
-- The modules below each of these hold the theorems. The modules Examples apply them to concrete
-- data and hold tests.
--
-- Conventions
-- - A text and a slice of bytes is a list of numbers. Errors are `none`, `failed` or a flag, as the
--   comment of a definition says. A panic is `none` in Kademlia and `panicked` in Cascade. The
--   sender and the receiver of a message may be missing, and what dereferences them then panics.
-- - Numbers are not bounded where the code cannot reach the bound. `uint32` counters wrap around,
--   and `atoi` keeps to 64 bits. Times are numbers.
-- - Locks are left out: each method of the route table and of the ban list holds one for its whole
--   body, but addNode, whose parts are taken here without another call between them.
-- - The loop of Purge runs on fuel, one more than there are nodes, which its theorem shows to be
--   enough. The digits of a number run on as much fuel as the number. The rounds of a lookup are 4
--   or 5, as the code limits them. The loop of the compression runs as many rounds as there are
--   values, and the loop that deletes redundant keys as many as there are keys; the theorems show
--   that these are enough, and where no number is. All other loops go over lists.
-- - The network of a lookup is a record Peers: in each round it answers each request or fails, and
--   hands on the answers in any order. The goroutines of a round run between the steps of the lookup.
--
-- Not modelled: the batch calls, the replication workers and the dialling of p2p/kademlia, the loops
-- at its sockets; the SDK; task states; stores
-- in SQL; clients of the chain; the adapted ALTS credentials and the set-up of connections in
-- pkg/net; generated code, commands and servers.
-- Logging has no counterpart.
pub mod Base
pub mod Kademlia
pub mod SnManager
pub mod Cascade
