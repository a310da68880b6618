-- ===== src/Kademlia/ServerExamples.antt =====
-- The theorems on the server at a store in memory, and on the compression at two values.
use supernode.Base.{
  ℕ, ◌*◌, ◌≤◌, ◌≡◌, refl, sym, ap, ◌∙◌, subst, true, false, Option, none, some, List, [], ◌∷◌,
  Bytes, bytes_eq, bytes_eq_refl, length, map, replicate, length-replicate, arith, leb,
  if◌then◌else◌, inl, inr, ◌⊎◌, Bool-cases,
}
use supernode.Kademlia.Node.Sorting.{insertion_sorter}
use supernode.Kademlia.Messages.{MessageType, Payload}
use supernode.Kademlia.Lookup.{Env}
use supernode.Kademlia.Wire.{Gob}
use supernode.Kademlia.Dht.{Dht}
use supernode.Kademlia.Dict.{lookup_key, lookup_key-assign_key}
use supernode.Kademlia.Store.{Fallible, failed, done}
use supernode.Kademlia.MemStore.{
  MemStore, new_store, store, retrieve, found_or_not, mem_data_store, mem_replication_store,
}
use supernode.Kademlia.Server.{Server, handle_store_data, handle_find_value}
use supernode.Kademlia.Server.ReadBack.{ReadsBack, ReadAfter, Refused, handle_store_data-ReadAfter}
use supernode.Kademlia.Server.Total.{Responds}
use supernode.Kademlia.Server.Served.{HasValues, handle_typed-Responds}
use supernode.Kademlia.Server.Dispatch.{handle_typed}
use supernode.Kademlia.Server.Compression.{
  DataMap, non_nil, bytes_int_to_mb, unfinished, find_optimal_compression,
}
use supernode.Kademlia.Server.Compression.Cleared.{HasDistinctKeys, has_entry}
use supernode.Kademlia.Server.Compression.Ends.{
  HasEnded, IsCompressible, find_optimal_compression-HasEnded, find_optimal_compression-unfinished,
}
use supernode.Kademlia.BucketIndex.{bits_b}
use supernode.Kademlia.Lookup.Iterate.{go_on}
use supernode.Kademlia.Lookup.Total.{HasHashableSenders}
use supernode.Kademlia.Api.{Base58}
use supernode.Kademlia.Api.StoreRetrieve.{Stores, store-Stores}
use supernode.Kademlia.Toys.{
  toy_hash, toy_hash-IsDigest, ann, bob, empty_table, empty_table-IsRoutable, silent_peers,
}

abbrev mem_env : Env MemStore
mem_env = record {
  ops = mem_replication_store;
  blake3 = toy_hash;
  sorter = insertion_sorter;
  peers = silent_peers;
  host_ip = [];
}

-- A message stands in two bytes, and none can be read.
abbrev toy_gob : Gob
toy_gob = record { encode_message = λ m. some (7 ∷ 8 ∷ []); decode_message = λ body. none }

abbrev mem_server : Server MemStore
mem_server = record { env = mem_env; data_store = mem_data_store 5; gob = toy_gob }

abbrev mem_dht : Dht MemStore
mem_dht = record { ht = empty_table; ignorelist = record { nodes = [] }; store = new_store }

retrieve-store :
    (s : MemStore) (key value : Bytes) → retrieve (store 5 s key value) key ≡ done value
unfolding retrieve store
retrieve-store s key value =
    let found : lookup_key key (store 5 s key value).data' ≡ some value =
      rw (lookup_key-assign_key key key value s.data', bytes_eq_refl key) refl in
    ap found_or_not found

mem_server-ReadsBack : ReadsBack mem_server
unfolding mem_data_store mem_replication_store
mem_server-ReadsBack = record {
  stored_value = λ s s' key value typ original e.
      subst (λ (x : MemStore × Fallible (Unit {0})). retrieve x.0 key ≡ done value) e
        (retrieve-store s key value);
  update_keeps = λ s info key. refl;
  add_keeps = λ s info key. refl;
}

handle_store_data-ReadAfter_example :
    ReadAfter mem_server toy_hash-IsDigest mem_server-ReadsBack mem_dht
      (7 ∷ 8 ∷ [])
      (handle_store_data mem_server mem_dht
        (some ann)
        (some bob)
        (Payload.store_data_request (7 ∷ 8 ∷ []) 1)
        5
        (λ n. true))
      (λ d'.
        handle_find_value mem_server d'
          (some bob)
          (Payload.find_value_request (toy_hash (7 ∷ 8 ∷ [])))
          9
          (λ n. true))
    ⊎ Refused mem_server toy_hash-IsDigest mem_server-ReadsBack (
        handle_store_data mem_server mem_dht
          (some ann)
          (some bob)
          (Payload.store_data_request (7 ∷ 8 ∷ []) 1)
          5
          (λ n. true))
handle_store_data-ReadAfter_example =
    handle_store_data-ReadAfter mem_server toy_hash-IsDigest mem_server-ReadsBack mem_dht ann bob
      bob 5 9 (λ n. true) (7 ∷ 8 ∷ []) 1 empty_table-IsRoutable (inr refl) (inr refl) (omega arith)

-- A store with an empty value for every key.
abbrev blank_server : Server MemStore
blank_server = record {
  env = mem_env;
  data_store = record (mem_data_store 5) {
    retrieve_batch_values = λ s keys cloud. (s, done (map (λ key. []) keys, 0));
  };
  gob = toy_gob;
}

abbrev values_of : MemStore × Fallible (List Bytes × ℕ) → ℕ
values_of (s, failed err) = 0
values_of (s, done found) = length found.0

length-blank : (keys : List Bytes) → length (map {B = Bytes} (λ key. []) keys) ≡ length keys
length-blank [] = refl
length-blank (key ∷ keys) = omega (arith, length-blank keys)

blank_server-HasValues : HasValues blank_server
blank_server-HasValues s s' keys cloud values count e = sym (ap values_of e) ∙ length-blank keys

handle_typed-Responds_example :
    Responds blank_server toy_hash-IsDigest MessageType.batch_get_values (
      handle_typed blank_server
        (λ m. none)
        (λ b. b)
        mem_dht
        MessageType.batch_get_values
        (some ann)
        (some bob)
        (Payload.batch_get_values_request ((toy_hash [], record { value = []; closest = [] }) ∷ []))
        true
        5
        (λ n. true))
handle_typed-Responds_example =
    handle_typed-Responds blank_server toy_hash-IsDigest blank_server-HasValues mem_dht ann 5
      (λ n. true) bob empty_table-IsRoutable (inr refl) (λ m. none) (λ b. b)
      MessageType.batch_get_values
      (Payload.batch_get_values_request ((toy_hash [], record { value = []; closest = [] }) ∷ []))
      true tt

-- Two values compress to 300 MB, fewer to nothing.
abbrev heavy_pair : DataMap → Option Bytes
heavy_pair m = some (if leb 2 (length (non_nil m)) then replicate (300 * 1_048_576) 0 else [])

abbrev two_values : DataMap
two_values = (1 ∷ [], 7 ∷ []) ∷ (2 ∷ [], 8 ∷ 9 ∷ []) ∷ []

two_values-HasDistinctKeys : HasDistinctKeys two_values
unfolding has_entry bytes_eq
two_values-HasDistinctKeys = (refl, (refl, tt))

heavy_pair-IsCompressible : IsCompressible heavy_pair two_values
unfolding IsCompressible bytes_int_to_mb
heavy_pair-IsCompressible m' compressed c e = elim (Bool-cases (leb 2 (length (non_nil m')))) [
  | inl many ↦
      let more : 2 ≤ length (non_nil m') = ground (arith, many) in
      (inl more, inl (omega (arith, more)))
  | inr few ↦
      let nothing : some [] ≡ some compressed =
        subst (λ b. some (if b then replicate (300 * 1_048_576) 0 else []) ≡ some compressed) few
          e in
      subst
        (λ o.
          ((2 ≤ length (non_nil m')) ⊎ (bytes_int_to_mb (length (from o)) ≤ 400))
          × ((1 ≤ length (non_nil m')) ⊎ (leb 200 (bytes_int_to_mb (length (from o))) ≡ false)))
        nothing (inr (omega arith), inr refl)
]
  where
    from : Option Bytes → Bytes
    from none = []
    from (some b) = b

find_optimal_compression-HasEnded_example :
    HasEnded heavy_pair two_values (
      find_optimal_compression insertion_sorter heavy_pair (length (non_nil two_values)) two_values)
find_optimal_compression-HasEnded_example =
    find_optimal_compression-HasEnded insertion_sorter heavy_pair two_values
      two_values-HasDistinctKeys heavy_pair-IsCompressible

-- One value compresses to 500 MB.
abbrev heavy_value : Bytes
heavy_value = replicate (500 * 1_048_576) 0

abbrev one_value : DataMap
one_value = (1 ∷ [], 7 ∷ []) ∷ []

find_optimal_compression-unfinished_example :
    find_optimal_compression insertion_sorter (λ m. some heavy_value) 100 one_value ≡ unfinished
unfolding non_nil bytes_int_to_mb
find_optimal_compression-unfinished_example =
    find_optimal_compression-unfinished insertion_sorter (λ m. some heavy_value) one_value
      heavy_value refl (omega arith) (omega (arith, length-replicate {A = ℕ} (500 * 1_048_576) 0))
      100

abbrev plain_text : Base58
plain_text = record { encode = λ x. x; decode = λ x. x }

silent_peers-hashable : HasHashableSenders mem_env
silent_peers-hashable k m r e = absurd (ground arith)

store-Stores_example :
    Stores mem_server plain_text mem_server-ReadsBack toy_hash-IsDigest silent_peers-hashable
      (λ x. refl)
      2
      mem_dht
      (7 ∷ 8 ∷ [])
      1
      5
      (λ k. go_on)
store-Stores_example =
    store-Stores mem_server plain_text mem_server-ReadsBack toy_hash-IsDigest silent_peers-hashable
      (λ x. refl) 2 mem_dht (7 ∷ 8 ∷ []) 1 5 (λ k. go_on) empty_table-IsRoutable
      (length-replicate bits_b 0) (omega arith)
