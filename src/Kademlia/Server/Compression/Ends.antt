-- ===== src/Kademlia/Server/Compression/Ends.antt =====
-- When the loop of `findOptimalCompression` comes to an end.
use supernode.Base.{
  ℕ, zero, suc, ◌-◌, ◌≤◌, ◌<◌, ◌≡◌, ◌⊎◌, refl, sym, ap, ◌∙◌, subst, true, false, Option, none, some,
  List, [], ◌∷◌, map, Bytes, bytes_eq_refl, length, take, arith, Bool-cases, inl, inr,
}
use supernode.Kademlia.Node.Sorting.{Sorter}
use supernode.Kademlia.Server.Compression.{
  bytes_int_to_mb, DataMap, non_nil, total_length, decrement, find_top_heaviest_keys, clear_key,
  clear_keys, Compressed, not_compressed, fits, unfinished, is_heavy, compression_loop,
  find_optimal_compression,
}
use supernode.Kademlia.Server.Compression.Cleared.{
  has_entry, HasDistinctKeys, Cleared, clear_key-fewer, Cleared-refl, Cleared-trans,
  Cleared-HasDistinctKeys, clear_keys-Cleared, clear_keys-le, has_entry-perm,
}

-- A list that holds something has a first key, which it holds.
first_key :
    (n : ℕ) (m : DataMap)
    → 0 < n
    → 0 < length m
    → (key : Bytes) × (rest : List Bytes) × (map (λ (e : Bytes × Bytes). e.0) (take n m)
        ≡ key ∷ rest)
      × (has_entry m key ≡ true)
unfolding has_entry
first_key zero m h h' = absurd (omega arith)
first_key (suc n) [] h h' = absurd (omega arith)
first_key (suc n) (e ∷ m) h h' = (e.0, _, refl, ground (arith, bytes_eq_refl e.0))

has_entry-length : (m : DataMap) (key : Bytes) → has_entry m key ≡ true → 0 < length m
unfolding has_entry
has_entry-length [] key h = cc
has_entry-length (e ∷ m) key h = omega arith

decrement-pos : (count size : ℕ) → 0 < count → (size ≤ 400) ⊎ (2 ≤ count) → 0 < decrement count size
unfolding decrement
decrement-pos count size h or = ground (arith, h, or)

module _ (sorter : Sorter) (m : DataMap) (size : ℕ) where
  abbrev smaller : DataMap
  smaller = clear_keys m (find_top_heaviest_keys sorter m size)

  -- A round that takes at least one key out leaves fewer values.
  smaller-fewer :
      HasDistinctKeys m
      → 0 < length (non_nil m)
      → (size ≤ 400) ⊎ (2 ≤ length (non_nil m))
      → length (non_nil smaller) < length (non_nil m)
  unfolding find_top_heaviest_keys clear_keys
  smaller-fewer d some' or =
      let n = decrement (length (non_nil m)) size in
      let key_of = λ (e : Bytes × Bytes). total_length (non_nil m) - length e.1 in
      let sorted = sorter.sort_by key_of (non_nil m) in
      let perm = sorter.sort_by-perm key_of (non_nil m) in
      let (held, _, _, there) = first_key 1 (non_nil m) (omega arith) some' in
      let filled = has_entry-length sorted held (has_entry-perm held perm ∙ there) in
      let (key, rest, e, first) =
        first_key n sorted (decrement-pos (length (non_nil m)) size some' or) filled in
      let here : has_entry (non_nil m) key ≡ true = sym (has_entry-perm key perm) ∙ first in
      rw e (
        omega (
          arith,
          clear_keys-le (key ∷ rest) m,
          clear_keys-le rest (clear_key m key),
          clear_key-fewer m key d here,
        ))

-- What the package of the compression gives for maps that come from the map `m` when values become
-- nil: with one value left at most 400 MB, and with none left less than 200 MB.
unfoldable pub IsCompressible : (DataMap → Option Bytes) → DataMap → Type 0
IsCompressible compress m =
    (m' : DataMap) (compressed : Bytes)
    → Cleared m m'
    → compress m' ≡ some compressed
    → ((2 ≤ length (non_nil m')) ⊎ (bytes_int_to_mb (length compressed) ≤ 400))
      × ((1 ≤ length (non_nil m')) ⊎ (is_heavy compressed ≡ false))

-- The run ended: an error, or bytes of less than 200 MB that the map gives whose values that are
-- not nil are those of the map `m`.
pub HasEnded : (DataMap → Option Bytes) → DataMap → Compressed → Type 0
HasEnded compress m result =
    (result ≡ not_compressed)
    ⊎ ((m' : DataMap) × (compressed : Bytes) × (result ≡ fits m' compressed)
        × Cleared m m'
        × (compress m' ≡ some compressed)
        × (is_heavy compressed ≡ false))

module _ (sorter : Sorter) (compress : DataMap → Option Bytes) (m0 : DataMap)
    (d : HasDistinctKeys m0) (small : IsCompressible compress m0) where
  loop-HasEnded :
      (fuel : ℕ) (m : DataMap) (compressed : Option Bytes)
      → compress m ≡ compressed
      → Cleared m0 m
      → length (non_nil m) ≤ fuel
      → HasEnded compress m0 (compression_loop sorter compress fuel m compressed)
  unfolding compression_loop HasEnded IsCompressible
  loop-HasEnded fuel m none e c le = inl refl
  loop-HasEnded zero m (some compressed) e c le =
      let light : is_heavy compressed ≡ false = ground (arith, (small m compressed c e).1, le) in
      rw (light, compression_loop) (inr (m, compressed, refl, c, e, light))
  loop-HasEnded (suc fuel) m (some compressed) e c le = elim (Bool-cases (is_heavy compressed)) [
    | inr light ↦ rw (light, compression_loop) (inr (m, compressed, refl, c, e, light))
    | inl heavy ↦
        let size = bytes_int_to_mb (length compressed) in
        let fewer =
          smaller-fewer sorter m size (Cleared-HasDistinctKeys m0 m c d)
            (ground (arith, (small m compressed c e).1, heavy))
            (ground (arith, (small m compressed c e).0)) in
        rw (heavy, compression_loop)
          (loop-HasEnded fuel (smaller sorter m size) (compress (smaller sorter m size)) refl
            (Cleared-trans m0 m (smaller sorter m size) c
              (clear_keys-Cleared (find_top_heaviest_keys sorter m size) m))
            (omega (arith, fewer, le)))
  ]

  -- For a map with distinct keys whose maps with one value left compress to at most 400 MB, and with
  -- none left to less than 200 MB, `findOptimalCompression` comes to an end after at most as many
  -- rounds as the map has values: with an error of the compression, or with bytes of less than
  -- 200 MB that hold the map, some of its values turned to nil.
  pub find_optimal_compression-HasEnded :
      HasEnded compress m0 (find_optimal_compression sorter compress (length (non_nil m0)) m0)
  unfolding find_optimal_compression
  find_optimal_compression-HasEnded =
      loop-HasEnded (length (non_nil m0)) m0 (compress m0) refl (Cleared-refl m0) (omega arith)

module _ (sorter : Sorter) (compress : DataMap → Option Bytes) (m : DataMap) (compressed : Bytes)
    (e : compress m ≡ some compressed) (one : length (non_nil m) ≤ 1)
    (big : 400 < bytes_int_to_mb (length compressed)) where
  no_keys : find_top_heaviest_keys sorter m (bytes_int_to_mb (length compressed)) ≡ []
  unfolding find_top_heaviest_keys decrement
  no_keys =
      let none' : decrement (length (non_nil m)) (bytes_int_to_mb (length compressed)) ≡ 0 =
        ground (arith, one, big) in
      rw none' refl

  loop-unfinished :
      (fuel : ℕ) → compression_loop sorter compress fuel m (some compressed) ≡ unfinished
  unfolding compression_loop clear_keys
  loop-unfinished zero =
      let heavy : is_heavy compressed ≡ true = ground (arith, big) in
      rw (heavy, compression_loop) refl
  loop-unfinished (suc fuel) =
      let heavy : is_heavy compressed ≡ true = ground (arith, big) in
      rw (heavy, compression_loop)
        (subst
          (λ keys.
            compression_loop sorter compress fuel (clear_keys m keys) (compress (clear_keys m keys))
            ≡ unfinished)
          (sym no_keys) (ap (compression_loop sorter compress fuel m) e ∙ loop-unfinished fuel))

  -- Where at most one value is left and its map compresses to more than 400 MB, no number of rounds
  -- is enough for `findOptimalCompression`: half of one is no key, so that the map stays as it is.
  pub find_optimal_compression-unfinished :
      (fuel : ℕ) → find_optimal_compression sorter compress fuel m ≡ unfinished
  unfolding find_optimal_compression
  find_optimal_compression-unfinished fuel =
      ap (compression_loop sorter compress fuel m) e ∙ loop-unfinished fuel
