-- ===== src/Kademlia/HashTable/Closest.antt =====
-- `closestContacts`: what the loops over the route table collect, and what the cut leaves.
use mathlib.Core.List.Perm
use supernode.Base.{
  ℕ, subst, Bool, ◌+◌, ◌≡◌, refl, sym, ap, ◌∙◌, ◌&&◌, ◌||◌, not, true, false, List, [], ◌∷◌, ◌++◌,
  map, min, Bytes, bytes_eq_iff, length, length-take, take, drop, take-append-drop, take-all, arith,
  Bool-cases, inl, inr, ltb,
}
use supernode.Kademlia.Node.{Node, NodeList, has_id, add_nodes, add_all, distance_to, sort, top_n}
use supernode.Kademlia.Node.Sorting.{Sorter, IsSortedBy}
use supernode.Kademlia.Node.Unique.{IsUnique, add_new-IsUnique, has_id-add_new}
use supernode.Kademlia.Node.Permuted.{has_id-perm, IsUnique-perm}
use supernode.Kademlia.HashTable.{
  HashTable, has_key, any_bucket_has, has_node, collect_bucket, collect_table, empty_list,
  closest_contacts, total_count, total_count_of,
}

has_key-map : (ns : List Node) (id : Bytes) → has_key (map (λ n. n.id) ns) id ≡ has_id ns id
unfolding has_key has_id
has_key-map [] id = refl
has_key-map (n ∷ ns) id = ground (arith, has_key-map ns id)

or_later :
    (a b r n : Bool)
    → ((a || (b && n)) || (r && n)) ≡ (a || (elim b [ true ↦ true | false ↦ r ] && n))
or_later a b r n = ground arith

module _ (ignored : List Bytes) where
  collect_bucket-facts :
      (nl : NodeList) (c : ℕ) (bucket : List Node) (id : Bytes)
      → (has_id (collect_bucket ignored (nl, c) bucket).0.nodes id
          ≡ (has_id nl.nodes id || (has_id bucket id && not (has_key ignored id))))
        × ((collect_bucket ignored (nl, c) bucket).1 ≡ c + length bucket)
        × ((collect_bucket ignored (nl, c) bucket).0.comparator ≡ nl.comparator)
  unfolding collect_bucket add_nodes add_all has_id
  collect_bucket-facts nl c [] id = ground arith
  collect_bucket-facts nl c (n ∷ bucket) id = elim (Bool-cases (has_key ignored n.id)) [
    | inl ign ↦
        rw (ign, collect_bucket)
          (ground (arith, collect_bucket-facts nl (c + 1) bucket id, bytes_eq_iff n.id id))
    | inr seen ↦
        rw (seen, collect_bucket)
          (ground (
            arith,
            collect_bucket-facts (add_nodes nl (n ∷ [])) (c + 1) bucket id,
            bytes_eq_iff n.id id,
            has_id-add_new nl.nodes n id,
          ))
  ]

  collect_bucket-IsUnique :
      (nl : NodeList) (c : ℕ) (bucket : List Node)
      → IsUnique nl.nodes
      → IsUnique (collect_bucket ignored (nl, c) bucket).0.nodes
  unfolding collect_bucket add_nodes add_all
  collect_bucket-IsUnique nl c [] u = u
  collect_bucket-IsUnique nl c (n ∷ bucket) u = elim (Bool-cases (has_key ignored n.id)) [
    | inl ign ↦ rw (ign, collect_bucket) (collect_bucket-IsUnique nl (c + 1) bucket u)
    | inr seen ↦
        rw (seen, collect_bucket)
          (collect_bucket-IsUnique (add_nodes nl (n ∷ [])) (c + 1) bucket
            (add_new-IsUnique nl.nodes n u))
  ]

  collect_table-IsUnique :
      (nl : NodeList) (c : ℕ) (table : List (List Node))
      → IsUnique nl.nodes
      → IsUnique (collect_table ignored (nl, c) table).0.nodes
  unfolding collect_table
  collect_table-IsUnique nl c [] u = u
  collect_table-IsUnique nl c (bucket ∷ rest) u =
      collect_table-IsUnique (collect_bucket ignored (nl, c) bucket).0
        (collect_bucket ignored (nl, c) bucket).1 rest (collect_bucket-IsUnique nl c bucket u)

  collect_table-facts :
      (nl : NodeList) (c : ℕ) (table : List (List Node)) (id : Bytes)
      → (has_id (collect_table ignored (nl, c) table).0.nodes id
          ≡ (has_id nl.nodes id || (any_bucket_has table id && not (has_key ignored id))))
        × ((collect_table ignored (nl, c) table).1 ≡ total_count_of table c)
        × ((collect_table ignored (nl, c) table).0.comparator ≡ nl.comparator)
  unfolding collect_table any_bucket_has total_count_of
  collect_table-facts nl c [] id = ground arith
  collect_table-facts nl c (bucket ∷ rest) id =
      let f = collect_bucket-facts nl c bucket id in
      let r =
        collect_table-facts (collect_bucket ignored (nl, c) bucket).0
          (collect_bucket ignored (nl, c) bucket).1 rest id in
      (
        r.0
            ∙ ap (λ b. b || (any_bucket_has rest id && not (has_key ignored id))) f.0
            ∙ or_later (has_id nl.nodes id) (has_id bucket id) _ _,
        r.1 ∙ ap (total_count_of rest) f.1,
        r.2 ∙ f.2,
      )

module _ (sorter : Sorter) (nl : NodeList) (num : ℕ) where
  -- A sorted list cut at `num`, with what the cut dropped.
  pub record Nearest (nodes rest : List Node) : Type 0 where
    pub distinct : IsUnique (nodes ++ rest)
    same_ids : (id : Bytes) → has_id (nodes ++ rest) id ≡ has_id nl.nodes id
    counted : length nodes ≡ min num (length (nodes ++ rest))
    in_order : IsSortedBy (distance_to nl.comparator) (nodes ++ rest)

  sorted_nodes : List Node
  sorted_nodes = sorter.sort_by (distance_to nl.comparator) nl.nodes

  top_n-take : (top_n (sort sorter nl) num).nodes ≡ take num sorted_nodes
  unfolding top_n sort sorted_nodes
  top_n-take = elim (Bool-cases (ltb num (length sorted_nodes))) [
    | inl cut ↦ rw cut
    | inr short ↦
        rw short
          (take-all _ sorted_nodes (omega arith) ∙ sym (take-all num sorted_nodes (ground arith)))
  ]

  cut-Nearest : IsUnique nl.nodes → Nearest (take num sorted_nodes) (drop num sorted_nodes)
  unfolding sorted_nodes
  cut-Nearest u =
      let e = take-append-drop num sorted_nodes in
      let p = sorter.sort_by-perm (distance_to nl.comparator) nl.nodes in
      record {
        distinct = rw e (IsUnique-perm (Perm.symm p) u);
        same_ids = λ id. rw e (has_id-perm id p);
        counted = rw e (length-take num sorted_nodes);
        in_order = rw e (sorter.sort_by-IsSortedBy (distance_to nl.comparator) nl.nodes);
      }

  sort-top_n-Nearest :
      IsUnique nl.nodes → (rest : List Node) × Nearest (top_n (sort sorter nl) num).nodes rest
  sort-top_n-Nearest u = (drop num sorted_nodes, rw top_n-take (cut-Nearest u))

-- The ids of the list are those that pass the test.
abbrev pub HasIds : List Node → (Bytes → Bool) → Type 0
HasIds ns test = (id : Bytes) → has_id ns id ≡ test id

-- `closestContacts` returns the `num` nearest of the nodes that are not ignored, and the size of
-- the table. Beside the returned nodes there are the `rest`: together they have distinct ids, have
-- exactly the ids of the table's nodes that are not ignored, and are sorted by the XOR distance to
-- the target, the returned ones first; `num` are returned, or all if there are fewer.
pub closest_contacts-nearest :
    (sorter : Sorter) (ht : HashTable) (num : ℕ) (target : Bytes) (ignored : List Node)
    → (rest : List Node) × IsUnique
        ((closest_contacts sorter ht num target ignored).0.nodes ++ rest)
      × HasIds
          ((closest_contacts sorter ht num target ignored).0.nodes ++ rest)
          (λ id. has_node ht id && not (has_id ignored id))
      × (length (closest_contacts sorter ht num target ignored).0.nodes
          ≡ min num (length ((closest_contacts sorter ht num target ignored).0.nodes ++ rest)))
      × IsSortedBy
          (distance_to target)
          ((closest_contacts sorter ht num target ignored).0.nodes ++ rest)
      × ((closest_contacts sorter ht num target ignored).1 ≡ total_count ht)
unfolding closest_contacts has_node total_count has_id
closest_contacts-nearest sorter ht num target ignored =
    let keys = map (λ n. n.id) ignored in
    let facts = collect_table-facts keys (empty_list target) 0 ht.route_table in
    let nl = (collect_table keys (empty_list target, 0) ht.route_table).0 in
    let (rest, near) =
      sort-top_n-Nearest sorter nl num
        (collect_table-IsUnique keys (empty_list target) 0 ht.route_table tt) in
    (
      rest,
      near.distinct,
      λ id. near.same_ids id ∙ (facts id).0 ∙ rw (has_key-map ignored id),
      near.counted,
      subst (λ c. IsSortedBy (distance_to c) ((top_n (sort sorter nl) num).nodes ++ rest))
          (facts []).2 near.in_order,
      (facts []).1,
    )
