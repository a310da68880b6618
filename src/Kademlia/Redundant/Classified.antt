-- ===== src/Kademlia/Redundant/Classified.antt =====
-- Which keys the cleanup marks for deletion.
use supernode.Base.{
  ℕ, zero, suc, ◌*◌, ◌<◌, ◌≡◌, refl, ap, ◌∙◌, subst, true, false, Bool, not, ◌&&◌, ◌||◌, Option,
  none, some, List, [], ◌∷◌, ◌++◌, map, Bytes, bytes_eq, bytes_eq_iff, length, length-append,
  length-replicate, leb, replicate, arith, Bool-cases, inl, inr,
}
use supernode.Kademlia.Node.{Node, NodeList, node_ids, has_id}
use supernode.Kademlia.HashTable.{has_key, closest_contacts_with_including_node}
use supernode.Kademlia.BanList.{to_node_list}
use supernode.Kademlia.Dht.{Dht}
use supernode.Kademlia.Dict.{assign_key, lookup_key, IsMap, lookup_key-assign_key, assign_key-IsMap}
use supernode.Kademlia.Lookup.{alpha, Env}
use supernode.Kademlia.Redundant.{
  DelKey, decoded, contacts_of, contacts_map, classify, self_node, redundant_keys,
}

pub has_del_key : List DelKey → Bytes → Bool
has_del_key [] key = false
has_del_key (k ∷ ks) key = bytes_eq k.key key || has_del_key ks key

-- The entry of a key is one that the loop appends to the keys to insert, or to those to remove.
abbrev is_insert : Bytes → Option (List Bytes) → Bool
is_insert self_id none = false
is_insert self_id (some contacts) = leb alpha (length contacts) && not (has_key contacts self_id)

abbrev is_remove : Bytes → Option (List Bytes) → Bool
is_remove self_id none = false
is_remove self_id (some contacts) = leb alpha (length contacts) && has_key contacts self_id

classify-lookup :
    (self_id : Bytes) (clock : Bytes → ℕ) (m : List (Bytes × List Bytes)) (key : Bytes)
    → IsMap m
    → (has_del_key (classify self_id clock m).0 key ≡ is_insert self_id (lookup_key key m))
      × (has_del_key (classify self_id clock m).1 key ≡ is_remove self_id (lookup_key key m))
unfolding classify has_del_key lookup_key
classify-lookup self_id clock [] key h = (refl, refl)
classify-lookup self_id clock (entry ∷ rest) key h =
    let (insert, remove) = classify-lookup self_id clock rest key h.1 in
    elim (Bool-cases (bytes_eq entry.0 key)) [
      | inl same ↦
          let e : entry.0 ≡ key = (bytes_eq_iff entry.0 key).0 same in
          let gone : lookup_key key rest ≡ none = subst (λ k. lookup_key k rest ≡ none) e h.0 in
          let none_insert = insert ∙ ap (is_insert self_id) gone in
          let none_remove = remove ∙ ap (is_remove self_id) gone in
          rw (same, has_del_key)
            (ground (arith, same, none_insert), ground (arith, same, none_remove))
      | inr other ↦
          rw (other, has_del_key) (ground (arith, other, insert), ground (arith, other, remove))
    ]

module _ {S : Type 0} (env : Env S) (d : Dht S) where
  -- The nodes nearest to a key, this node among the candidates.
  abbrev pub nearest : Bytes → NodeList
  nearest key =
      closest_contacts_with_including_node env.sorter d.ht alpha (decoded key)
        (to_node_list d.ignorelist) (some (self_node env d))

  abbrev contacts : Bytes → List Bytes
  contacts = contacts_of env.sorter d.ht (to_node_list d.ignorelist) (self_node env d)

  abbrev all_contacts : List (Bytes × List Bytes) → List Bytes → List (Bytes × List Bytes)
  all_contacts = contacts_map env.sorter d.ht (to_node_list d.ignorelist) (self_node env d)

  abbrev or_else : Bool → List Bytes → Option (List Bytes) → Option (List Bytes)
  or_else true found other = some found
  or_else false found other = other

  either_way : (b : Bool) (found : List Bytes) → or_else b found (some found) ≡ some found
  either_way true found = refl
  either_way false found = refl

  all_contacts-entries :
      (m : List (Bytes × List Bytes)) (keys : List Bytes) (key : Bytes)
      → IsMap m
      → IsMap (all_contacts m keys)
        × (lookup_key key (all_contacts m keys)
            ≡ or_else (has_key keys key) (contacts key) (lookup_key key m))
  unfolding contacts_map has_key
  all_contacts-entries m [] key h = (h, refl)
  all_contacts-entries m (k ∷ keys) key h =
      let m' = assign_key k (contacts k) m in
      let (h', e) = all_contacts-entries m' keys key (assign_key-IsMap k (contacts k) m h) in
      let l = lookup_key-assign_key k key (contacts k) m in
      elim (Bool-cases (bytes_eq k key)) [
        | inl same ↦
            let here : lookup_key key m' ≡ some (contacts key) =
              rw (l, same) (ap (λ x. some (contacts x)) ((bytes_eq_iff k key).0 same)) in
            (
              h',
              e
                  ∙ rw (same, or_else)
                      (ap (or_else (has_key keys key) (contacts key)) here
                        ∙ either_way (has_key keys key) (contacts key)),
            )
        | inr other ↦
            let here : lookup_key key m' ≡ lookup_key key m = rw (l, other) refl in
            (h', e ∙ rw (other, or_else) (ap (or_else (has_key keys key) (contacts key)) here))
      ]

  has_key-ids :
      (ns : List Node) (id : Bytes) → has_key (map (λ (n : Node). n.id) ns) id ≡ has_id ns id
  unfolding has_key has_id
  has_key-ids [] id = refl
  has_key-ids (n ∷ ns) id = ground (arith, has_key-ids ns id)

  length-map : (ns : List Node) → length (map (λ (n : Node). n.id) ns) ≡ length ns
  length-map [] = refl
  length-map (n ∷ ns) = omega (arith, length-map ns)

  has_key-blank :
      (k : ℕ) (keys : List Bytes) (id : Bytes)
      → 0 < length id
      → has_key (replicate k [] ++ keys) id ≡ has_key keys id
  unfolding has_key replicate
  has_key-blank zero keys id pos = refl
  has_key-blank (suc k) keys id pos =
      ground (arith, bytes_eq_iff [] id, has_key-blank k keys id pos)

  -- The entry of a key says twice as many contacts as there are nearest nodes.
  contacts-nearest :
      (key : Bytes)
      → 0 < length d.ht.self.id
      → (length (contacts key) ≡ 2 * length (nearest key).nodes)
        × (has_key (contacts key) d.ht.self.id ≡ has_id (nearest key).nodes d.ht.self.id)
  unfolding contacts_of node_ids
  contacts-nearest key pos =
      let ns = (nearest key).nodes in
      (
        omega (
          arith,
          length-append (replicate (length ns) []) (map (λ (n : Node). n.id) ns),
          length-replicate {A = Bytes} (length ns) [],
          length-map ns,
        ),
        has_key-blank (length ns) (map (λ (n : Node). n.id) ns) d.ht.self.id pos
            ∙ has_key-ids ns d.ht.self.id,
      )

  -- Where this node's id is not empty, the cleanup marks a key for deletion exactly if it is one of
  -- the keys, at least three nodes are nearest to it, and this node is not among them; and it takes
  -- the mark off exactly if this node is among these at least three.
  pub redundant_keys-nearest :
      (clock : Bytes → ℕ) (keys : List Bytes) (key : Bytes)
      → 0 < length d.ht.self.id
      → let (insert_keys, remove_keys) = redundant_keys env d clock keys in
        let ns = (nearest key).nodes in
        (has_del_key insert_keys key
          ≡ (has_key keys key && (leb 3 (length ns) && not (has_id ns d.ht.self.id))))
        × (has_del_key remove_keys key
            ≡ (has_key keys key && (leb 3 (length ns) && has_id ns d.ht.self.id)))
  unfolding redundant_keys lookup_key
  redundant_keys-nearest clock keys key pos =
      let (h, e) = all_contacts-entries [] keys key tt in
      let (insert, remove) = classify-lookup d.ht.self.id clock (all_contacts [] keys) key h in
      let (twice, found) = contacts-nearest key pos in
      elim (Bool-cases (has_key keys key)) [
        | inl listed ↦
            let here : lookup_key key (all_contacts [] keys) ≡ some (contacts key) =
              e ∙ rw (listed, or_else) refl in
            (
              insert ∙ ap (is_insert d.ht.self.id) here ∙ ground (arith, twice, found, listed),
              remove ∙ ap (is_remove d.ht.self.id) here ∙ ground (arith, twice, found, listed),
            )
        | inr unlisted ↦
            let here : lookup_key key (all_contacts [] keys) ≡ none =
              e ∙ rw (unlisted, or_else) refl in
            (
              insert ∙ ap (is_insert d.ht.self.id) here ∙ rw unlisted refl,
              remove ∙ ap (is_remove d.ht.self.id) here ∙ rw unlisted refl,
            )
      ]
