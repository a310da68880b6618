-- ===== src/Kademlia/Server/Compression.antt =====
-- p2p/kademlia/network.go: `findOptimalCompression` and `findTopHeaviestKeys`. A map is a list of
-- entries with distinct keys; a value that is nil has no bytes. `compress` is `compressMap`, `none`
-- an error. A size in MB is rounded up, as `BytesIntToMB` does.
pub mod Cleared
pub mod Ends
use supernode.Base.{
  ℕ, zero, suc, ◌+◌, ◌-◌, ◌*◌, ◌/◌, Bool, true, false, Option, none, some, List, [], ◌∷◌, Bytes,
  bytes_eq, length, ltb, leb, if◌then◌else◌, take, map,
}
use supernode.Kademlia.Node.Sorting.{Sorter}
use supernode.Kademlia.HashTable.{◌>>=◌}

-- `math.Ceil(float64(b) / 1048576.0)`.
unfoldable pub bytes_int_to_mb : ℕ → ℕ
bytes_int_to_mb b = (b + 1_048_575) / 1_048_576

abbrev pub DataMap : Type 0
DataMap = List (Bytes × Bytes)

-- The values that are not nil.
unfoldable pub non_nil : DataMap → DataMap
non_nil [] = []
non_nil (entry ∷ rest) = if ltb 0 (length entry.1) then entry ∷ non_nil rest else non_nil rest

total_length : DataMap → ℕ
total_length [] = 0
total_length (entry ∷ rest) = length entry.1 + total_length rest

-- How many keys a round takes out of the payload.
pub decrement : ℕ → ℕ → ℕ
decrement count size =
    if ltb (2 * 200) size
    then count / 2
    else if leb count 10
    then 1
    else if leb count 50
    then 5
    else 10

-- `sort.Slice` by descending length, which the distance from a bound turns into an ascending order.
pub find_top_heaviest_keys : Sorter → DataMap → ℕ → List Bytes
unfolding non_nil total_length decrement
find_top_heaviest_keys sorter data_map size =
    let entries = non_nil data_map in
    let sorted = sorter.sort_by (λ e. total_length entries - length e.1) entries in
    map (λ (e : Bytes × Bytes). e.0) (take (decrement (length entries) size) sorted)

-- `dataMap[key] = nil` for a key that is there.
pub clear_key : DataMap → Bytes → DataMap
clear_key [] key = []
clear_key (entry ∷ rest) key =
    if bytes_eq entry.0 key then (key, []) ∷ rest else entry ∷ clear_key rest key

pub clear_keys : DataMap → List Bytes → DataMap
unfolding clear_key
clear_keys data_map [] = data_map
clear_keys data_map (key ∷ keys) = clear_keys (clear_key data_map key) keys

-- How a run ends: an error, or the map and its compressed bytes. `unfinished` is no result: the
-- loop has rounds left to do.
pub data Compressed : Type 0 where
  not_compressed : Compressed
  fits : DataMap → Bytes → Compressed
  unfinished : Compressed

abbrev pub is_heavy : Bytes → Bool
is_heavy compressed = leb 200 (bytes_int_to_mb (length compressed))

module _ (sorter : Sorter) (compress : DataMap → Option Bytes) where
  -- The loop, from the compressed bytes of the map.
  pub compression_loop : ℕ → DataMap → Option Bytes → Compressed
  unfolding bytes_int_to_mb find_top_heaviest_keys clear_keys
  compression_loop fuel data_map none = not_compressed
  compression_loop zero data_map (some compressed) =
      if is_heavy compressed then unfinished else fits data_map compressed
  compression_loop (suc fuel) data_map (some compressed) = elim (is_heavy compressed) [
    | false ↦ fits data_map compressed
    | true ↦
        let size = bytes_int_to_mb (length compressed) in
        let smaller = clear_keys data_map (find_top_heaviest_keys sorter data_map size) in
        compression_loop fuel smaller (compress smaller)
  ]

  unfoldable pub find_optimal_compression : ℕ → DataMap → Compressed
  unfolding compression_loop
  find_optimal_compression fuel data_map = compression_loop fuel data_map (compress data_map)
