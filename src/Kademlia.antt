-- ===== src/Kademlia.antt =====
-- The distributed hash table of p2p/kademlia.
pub mod Node
pub mod BucketIndex
pub mod HashTable
pub mod BanList
pub mod Dht
pub mod ConnPool
pub mod Messages
pub mod Wire
pub mod Client
pub mod NodeKeys
pub mod Dict
pub mod Store
pub mod MemStore
pub mod Server
pub mod Lookup
pub mod Redundant
pub mod Api
pub mod Activity
mod Toys
mod Examples
mod LookupExamples
mod WireExamples
mod ServerExamples
mod RedundantExamples
mod PoolExamples
