-- ===== src/Kademlia/Node/Unique.antt =====
-- The ids of a node list: what `AddNodes` and `DelNode` do to them.
use supernode.Base.{
  ◌+◌, ◌≡◌, refl, ◌≢◌, true, false, List, [], ◌∷◌, ◌++◌, Bytes, bytes_eq, bytes_eq_iff, length,
  arith, Bool-cases, inl, inr, ◌||◌, ◌&&◌, not,
}
use supernode.Kademlia.Node.{
  Node, NodeList, del_first, del_node, has_id, add_new, add_all, add_nodes, exists,
}

-- No two nodes of the list have one id.
abbrev pub IsUnique : List Node → Type 0
IsUnique [] = Unit
IsUnique (n ∷ ns) = (has_id ns n.id ≡ false) × IsUnique ns

pub has_id-append :
    (xs ys : List Node) (id : Bytes) → has_id (xs ++ ys) id ≡ (has_id xs id || has_id ys id)
unfolding has_id
has_id-append [] ys id = refl
has_id-append (x ∷ xs) ys id = ground (arith, has_id-append xs ys id)

has_id-del_first_ne :
    (id j : Bytes) (xs : List Node) → id ≢ j → has_id (del_first id xs) j ≡ has_id xs j
unfolding has_id del_first
has_id-del_first_ne id j [] ne = refl
has_id-del_first_ne id j (x ∷ xs) ne =
    ground (arith, has_id-del_first_ne id j xs ne, bytes_eq_iff x.id id, bytes_eq_iff x.id j)

has_id-del_first_le :
    (id j : Bytes) (xs : List Node) → has_id xs j ≡ false → has_id (del_first id xs) j ≡ false
unfolding has_id del_first
has_id-del_first_le id j [] h = refl
has_id-del_first_le id j (x ∷ xs) h = ground (arith, has_id-del_first_le id j xs)

has_id-del_first_self :
    (id : Bytes) (xs : List Node) → IsUnique xs → has_id (del_first id xs) id ≡ false
unfolding has_id del_first
has_id-del_first_self id [] u = refl
has_id-del_first_self id (x ∷ xs) u =
    ground (arith, has_id-del_first_self id xs u.1, bytes_eq_iff x.id id)

pub del_first-IsUnique : (id : Bytes) (xs : List Node) → IsUnique xs → IsUnique (del_first id xs)
unfolding del_first
del_first-IsUnique id [] u = tt
del_first-IsUnique id (x ∷ xs) u =
    ground (arith, del_first-IsUnique id xs u.1, has_id-del_first_le id x.id xs u.0)

length-del_first :
    (id : Bytes) (xs : List Node) → has_id xs id ≡ true → length (del_first id xs) + 1 ≡ length xs
unfolding has_id del_first
length-del_first id [] h = ground arith
length-del_first id (x ∷ xs) h = ground (arith, length-del_first id xs)

pub del_first_absent : (id : Bytes) (xs : List Node) → has_id xs id ≡ false → del_first id xs ≡ xs
unfolding has_id del_first
del_first_absent id [] h = refl
del_first_absent id (x ∷ xs) h = ground (arith, del_first_absent id xs)

pub snoc-IsUnique :
    (xs : List Node) (n : Node) → IsUnique xs → has_id xs n.id ≡ false → IsUnique (xs ++ n ∷ [])
unfolding has_id
snoc-IsUnique [] n u h = (refl, tt)
snoc-IsUnique (x ∷ xs) n u h = ground (
  arith,
  snoc-IsUnique xs n u.1,
  has_id-append xs (n ∷ []) x.id,
  bytes_eq_iff x.id n.id,
  bytes_eq_iff n.id x.id,
)

pub add_new-IsUnique : (xs : List Node) (n : Node) → IsUnique xs → IsUnique (add_new xs n)
unfolding add_new
add_new-IsUnique xs n u = ground (arith, snoc-IsUnique xs n u)

pub has_id-add_new :
    (xs : List Node) (n : Node) (id : Bytes)
    → has_id (add_new xs n) id ≡ (has_id xs id || bytes_eq n.id id)
unfolding add_new has_id
has_id-add_new xs n id = ground (arith, has_id-append xs (n ∷ []) id, bytes_eq_iff n.id id)

add_all-IsUnique : (xs ms : List Node) → IsUnique xs → IsUnique (add_all xs ms)
unfolding add_all
add_all-IsUnique xs [] u = u
add_all-IsUnique xs (m ∷ ms) u = add_all-IsUnique (add_new xs m) ms (add_new-IsUnique xs m u)

pub has_id-add_all :
    (xs ms : List Node) (id : Bytes) → has_id (add_all xs ms) id ≡ (has_id xs id || has_id ms id)
unfolding add_all has_id
has_id-add_all xs [] id = ground arith
has_id-add_all xs (m ∷ ms) id =
    ground (arith, has_id-add_all (add_new xs m) ms id, has_id-add_new xs m id)

-- `AddNodes` on a list with distinct ids keeps the ids distinct, and afterwards an id is there
-- exactly if it was there or is the id of an added node.
add_nodes-exists :
    (s : NodeList) (new : List Node) (n : Node)
    → IsUnique s.nodes
    → IsUnique (add_nodes s new).nodes
      × (exists (add_nodes s new) n ≡ (exists s n || has_id new n.id))
unfolding add_nodes exists
add_nodes-exists s new n u = (add_all-IsUnique s.nodes new u, has_id-add_all s.nodes new n.id)

pub has_id-del_first :
    (id j : Bytes) (xs : List Node)
    → IsUnique xs
    → has_id (del_first id xs) j ≡ (has_id xs j && not (bytes_eq id j))
has_id-del_first id j xs u = elim (Bool-cases (bytes_eq id j)) [
  | inl e ↦ ground (arith, has_id-del_first_self id xs u, bytes_eq_iff id j)
  | inr e ↦ ground (arith, has_id-del_first_ne id j xs, bytes_eq_iff id j)
]

-- `DelNode` on a list with distinct ids keeps the ids distinct, and afterwards an id is there
-- exactly if it was there and is not the id of the deleted node.
del_node-exists :
    (s : NodeList) (node n : Node)
    → IsUnique s.nodes
    → IsUnique (del_node s node).nodes
      × (exists (del_node s node) n ≡ (exists s n && not (bytes_eq node.id n.id)))
unfolding del_node exists
del_node-exists s node n u =
    (del_first-IsUnique node.id s.nodes u, has_id-del_first node.id n.id s.nodes u)
