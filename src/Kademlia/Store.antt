-- ===== src/Kademlia/Store.antt =====
-- p2p/kademlia/store.go: the calls of the interface `Store` that the DHT and its server make. A call
-- that fails gives the text of its error.
use supernode.Base.{ℕ, Bool, List, Bytes}

pub data Fallible (A : Type 0) : Type 0 where
  failed : (err : Bytes) → Fallible A
  done : A → Fallible A

pub record DataStore (S : Type 0) : Type 0 where
  pub store_value : S → Bytes → Bytes → ℕ → Bool → S × Fallible (Unit {0})
  pub retrieve : S → Bytes → Fallible Bytes
  pub delete_value : S → Bytes → S
  pub store_batch : S → List Bytes → ℕ → Bool → S × Fallible (Unit {0})
  pub retrieve_batch_not_exist : S → List Bytes → ℕ → Fallible (List Bytes)
  pub retrieve_batch_values : S → List Bytes → Bool → S × Fallible (List Bytes × ℕ)
  pub store_batch_rep_keys : S → List Bytes → Bytes → Bytes → ℕ → S × Fallible (Unit {0})
