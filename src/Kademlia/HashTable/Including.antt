-- ===== src/Kademlia/HashTable/Including.antt =====
-- `closestContactsWithInlcudingNode` and `closestContactsWithIncludingNodeList`: the keys of their
-- `ignoredMap` are hex texts, and they look up plain ids.
use supernode.Base.{
  ℕ, ◌+◌, ◌*◌, ◌<◌, ◌≡◌, refl, ap, false, List, [], ◌∷◌, map, Bytes, bytes_eq-false, length, All,
  arith, Option, ◌≢◌,
}
use supernode.Kademlia.Node.{Node, NodeList, add_nodes}
use supernode.Kademlia.Node.Sorting.{Sorter}
use supernode.Kademlia.HashTable.{
  HashTable, has_key, collect_bucket, collect_table, empty_list, hex_encode,
  closest_contacts_with_including_node, closest_contacts_with_including_node_list,
}

length-hex_encode : (b : Bytes) → length (hex_encode b) ≡ 2 * length b
unfolding hex_encode
length-hex_encode [] = omega arith
length-hex_encode (b ∷ bs) = omega (arith, length-hex_encode bs)

module _ (len : ℕ) (long : 0 < len) where
  abbrev HasLength : Node → Type 0
  HasLength n = length n.id ≡ len

  no_hex_key :
      (ignored : List Node) (n : Node)
      → All HasLength ignored
      → HasLength n
      → has_key (map (λ m. hex_encode m.id) ignored) n.id ≡ false
  unfolding has_key
  no_hex_key [] n hs h = refl
  no_hex_key (m ∷ ms) n hs h =
      let differ : hex_encode m.id ≢ n.id =
        λ e. omega (arith, ap length e, length-hex_encode m.id, hs.0) in
      ground (arith, bytes_eq-false (hex_encode m.id) n.id differ, no_hex_key ms n hs.1 h)

  module _ (ignored : List Node) (lens : All HasLength ignored) where
    collect_bucket-unignored :
        (acc : NodeList × ℕ) (bucket : List Node)
        → All HasLength bucket
        → collect_bucket (map (λ m. hex_encode m.id) ignored) acc bucket
          ≡ collect_bucket [] acc bucket
    unfolding collect_bucket has_key
    collect_bucket-unignored (nl, c) [] hs = refl
    collect_bucket-unignored (nl, c) (n ∷ bucket) hs =
        rw (no_hex_key ignored n lens hs.0)
          (collect_bucket-unignored (add_nodes nl (n ∷ []), c + 1) bucket hs.1)

    collect_table-unignored :
        (acc : NodeList × ℕ) (table : List (List Node))
        → All (All HasLength) table
        → collect_table (map (λ m. hex_encode m.id) ignored) acc table ≡ collect_table [] acc table
    unfolding collect_table
    collect_table-unignored acc [] hs = refl
    collect_table-unignored acc (bucket ∷ rest) hs =
        rw (collect_bucket-unignored acc bucket hs.0)
          (collect_table-unignored (collect_bucket [] acc bucket) rest hs.1)

    -- If all ids of the route table and of the ignored nodes have one length above 0, then neither
    -- function ignores any node: the result is that for an empty list of ignored nodes.
    pub including_node-ignores_none :
        (sorter : Sorter) (ht : HashTable) (num : ℕ) (target : Bytes) (include_node : Option Node)
        (include_list : List Node)
        → All (All HasLength) ht.route_table
        → (closest_contacts_with_including_node sorter ht num target ignored include_node
            ≡ closest_contacts_with_including_node sorter ht num target [] include_node)
          × (closest_contacts_with_including_node_list sorter ht num target ignored include_list
              ≡ closest_contacts_with_including_node_list sorter ht num target [] include_list)
    unfolding closest_contacts_with_including_node closest_contacts_with_including_node_list
    including_node-ignores_none sorter ht num target include_node include_list hs =
        let e = collect_table-unignored (empty_list target, 0) ht.route_table hs in (rw e, rw e)
