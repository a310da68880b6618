-- ===== src/Kademlia/MemStore.antt =====
-- p2p/kademlia/store/mem/mem.go: the store in memory. The lock makes each method one step; `now` is
-- the time of the call. The methods that only return nil are those of `mem_data_store`.
pub mod Refines
use supernode.Base.{
  ℕ, ◌+◌, ◌*◌, Bool, false, Option, none, some, List, [], ◌∷◌, Bytes, bytes_of, length,
}
use supernode.Kademlia.Dict.{assign_key, lookup_key, delete_key}
use supernode.Kademlia.Dht.{ReplicationStore}
use supernode.Kademlia.Store.{DataStore, Fallible, failed, done}

pub record MemStore : Type 0 where
  pub data' : List (Bytes × Bytes)
  replications : List (Bytes × ℕ)
  replicate_interval : ℕ

unfoldable pub new_store : MemStore
new_store = record { data' = []; replications = []; replicate_interval = 3600 * 1_000_000_000 }

unfoldable pub store : ℕ → MemStore → Bytes → Bytes → MemStore
unfolding assign_key
store now s key value = record s {
  data' = assign_key key value s.data';
  replications = assign_key key (now + s.replicate_interval) s.replications;
}

abbrev pub found_or_not : Option Bytes → Fallible Bytes
found_or_not none = failed (bytes_of "not found")
found_or_not (some value) = done value

unfoldable pub retrieve : MemStore → Bytes → Fallible Bytes
unfolding lookup_key
retrieve s key = found_or_not (lookup_key key s.data')

unfoldable pub delete : MemStore → Bytes → MemStore
unfolding delete_key
delete s key = record s {
  data' = delete_key key s.data';
  replications = delete_key key s.replications;
}

pub count : MemStore → ℕ
count s = length s.data'

pub delete_all : MemStore → MemStore
delete_all s = record s { data' = []; replications = [] }

-- The loop of `StoreBatch`: each value is stored at itself.
pub store_values : List Bytes → List (Bytes × Bytes) → List (Bytes × Bytes)
unfolding assign_key
store_values [] m = m
store_values (value ∷ values) m = store_values values (assign_key value value m)

pub store_batch : MemStore → List Bytes → MemStore
unfolding store_values
store_batch s values = record s { data' = store_values values s.data' }

unfoldable pub mem_data_store : ℕ → DataStore MemStore
unfolding store retrieve delete store_batch
mem_data_store now = record {
  store_value = λ s key value typ original. (store now s key value, done tt);
  retrieve = retrieve;
  delete_value = delete;
  store_batch = λ s values typ original. (store_batch s values, done tt);
  retrieve_batch_not_exist = λ s keys size. done [];
  retrieve_batch_values = λ s keys cloud. (s, done ([], 0));
  store_batch_rep_keys = λ s keys id ip port. (s, done tt);
}

unfoldable pub mem_replication_store : ReplicationStore MemStore
mem_replication_store = record {
  record_exists = λ s id. some false;
  update_replication_info = λ s info. s;
  add_replication_info = λ s info. s;
}
