-- ===== src/Kademlia/Dht/Table.antt =====
-- The invariant of the route table, and what one slot's change keeps of it.
use supernode.Base.{
  ℕ, zero, suc, ◌+◌, ◌≤◌, ◌<◌, ◌≡◌, refl, ap, ◌∙◌, subst, true, false, some, List, [], ◌∷◌, Bytes,
  bytes_eq, length, get_elem?, set, All, arith,
}
use supernode.Kademlia.Node.{Node, has_id}
use supernode.Kademlia.Node.Unique.{IsUnique}
use supernode.Kademlia.BucketIndex.{bits_b, bucket_index}
use supernode.Kademlia.HashTable.{HashTable, has_node, any_bucket_has}
use supernode.Kademlia.Dht.{bucket_k}

module _ (blake3 : Bytes → Bytes) (self : Node) where
  -- The node stands in the bucket of its hash, and is not the node itself.
  pub record Belongs (i : ℕ) (n : Node) : Type 0 where
    pub other : bytes_eq n.id self.id ≡ false
    pub hashed : n.hashed_id ≡ blake3 n.id
    pub placed : bucket_index self.hashed_id n.hashed_id ≡ some i

  pub record IsBucket (i : ℕ) (bucket : List Node) : Type 0 where
    pub distinct : IsUnique bucket
    pub bounded : length bucket ≤ bucket_k
    pub members : All (Belongs i) bucket

  -- The buckets from slot `i` on.
  abbrev pub IsTable : ℕ → List (List Node) → Type 0
  IsTable i [] = Unit
  IsTable i (bucket ∷ rest) = IsBucket i bucket × IsTable (suc i) rest

  IsTable-get :
      (i j : ℕ) (table : List (List Node)) (bucket : List Node)
      → IsTable i table
      → get_elem? table j ≡ some bucket
      → IsBucket (i + j) bucket
  IsTable-get i j [] bucket t e = cc
  IsTable-get i zero (b ∷ rest) bucket t e =
      subst (λ k. IsBucket k bucket) (omega arith) (subst (IsBucket i) (ground arith) t.0)
  IsTable-get i (suc j) (b ∷ rest) bucket t e =
      subst (λ k. IsBucket k bucket) (omega arith) (IsTable-get (suc i) j rest bucket t.1 e)

  IsTable-set :
      (i j : ℕ) (table : List (List Node)) (bucket : List Node)
      → IsTable i table
      → IsBucket (i + j) bucket
      → IsTable i (set table j bucket)
  IsTable-set i j [] bucket t b = tt
  IsTable-set i zero (x ∷ rest) bucket t b = (subst (λ k. IsBucket k bucket) (omega arith) b, t.1)
  IsTable-set i (suc j) (x ∷ rest) bucket t b =
      (t.0, IsTable-set (suc i) j rest bucket t.1 (subst (λ k. IsBucket k bucket) (omega arith) b))

-- The route table of a node: 256 buckets of at most 20 nodes with distinct ids, each node in the
-- bucket of its hash.
pub record IsRoutable (blake3 : Bytes → Bytes) (ht : HashTable) : Type 0 where
  pub self_hashed : ht.self.hashed_id ≡ blake3 ht.self.id
  pub buckets : length ht.route_table ≡ bits_b
  pub table : IsTable blake3 ht.self 0 ht.route_table

length-set {ℓ} : {A : Type ℓ} (xs : List A) (i : ℕ) (v : A) → length (set xs i v) ≡ length xs
length-set [] i v = refl
length-set (x ∷ xs) zero v = refl
length-set (x ∷ xs) (suc i) v = ap suc (length-set xs i v)

pub get_elem?-some {ℓ} :
    {A : Type ℓ} (xs : List A) (i : ℕ) → i < length xs → (x : A) × (get_elem? xs i ≡ some x)
get_elem?-some [] i h = absurd (omega arith)
get_elem?-some (x ∷ xs) zero h = (x, refl)
get_elem?-some (x ∷ xs) (suc i) h = get_elem?-some xs i (omega arith)

get_elem?-set_self {ℓ} :
    {A : Type ℓ} (xs : List A) (i : ℕ) (v : A) → i < length xs → get_elem? (set xs i v) i ≡ some v
get_elem?-set_self [] i v h = absurd (omega arith)
get_elem?-set_self (x ∷ xs) zero v h = refl
get_elem?-set_self (x ∷ xs) (suc i) v h = get_elem?-set_self xs i v (omega arith)

module _ {blake3 : Bytes → Bytes} {ht : HashTable} (r : IsRoutable blake3 ht) where
  -- To keep the invariant it is enough to put a good bucket into a slot.
  pub set-IsRoutable :
      (i : ℕ) (bucket : List Node)
      → IsBucket blake3 ht.self i bucket
      → IsRoutable blake3 (record ht { route_table = set ht.route_table i bucket })
  set-IsRoutable i bucket b = record {
    self_hashed = r.self_hashed;
    buckets = length-set ht.route_table i bucket ∙ r.buckets;
    table =
        IsTable-set blake3 ht.self 0 i ht.route_table bucket r.table
          (subst (λ k. IsBucket blake3 ht.self k bucket) (omega arith) b);
  }

  pub slot-IsBucket :
      (i : ℕ)
      → i < bits_b
      → (bucket : List Node) × (get_elem? ht.route_table i ≡ some bucket)
        × IsBucket blake3 ht.self i bucket
  slot-IsBucket i h =
      let (bucket, e) = get_elem?-some ht.route_table i (omega (arith, r.buckets)) in
      (
        bucket,
        e,
        subst (λ k. IsBucket blake3 ht.self k bucket) (omega arith)
            (IsTable-get blake3 ht.self 0 i ht.route_table bucket r.table e),
      )

module _ (id : Bytes) where
  any_bucket_has-set :
      (table : List (List Node)) (i : ℕ) (bucket : List Node)
      → i < length table
      → has_id bucket id ≡ true
      → any_bucket_has (set table i bucket) id ≡ true
  unfolding any_bucket_has
  any_bucket_has-set [] i bucket h e = absurd (omega arith)
  any_bucket_has-set (x ∷ table) zero bucket h e = ground arith
  any_bucket_has-set (x ∷ table) (suc i) bucket h e =
      ground (arith, any_bucket_has-set table i bucket (omega arith) e)

  -- A table whose slot holds the id.
  pub has_node-set :
      (ht : HashTable) (i : ℕ) (bucket : List Node)
      → i < length ht.route_table
      → has_id bucket id ≡ true
      → has_node (record ht { route_table = set ht.route_table i bucket }) id ≡ true
  unfolding has_node
  has_node-set ht i bucket h e = any_bucket_has-set ht.route_table i bucket h e

module _ (blake3 : Bytes → Bytes) (self : Node) where
  self_not_in_bucket :
      (i : ℕ) (bucket : List Node)
      → All (Belongs blake3 self i) bucket
      → has_id bucket self.id ≡ false
  unfolding has_id
  self_not_in_bucket i [] h = refl
  self_not_in_bucket i (n ∷ bucket) h = ground (arith, h.0.other, self_not_in_bucket i bucket h.1)

  self_not_in_table :
      (i : ℕ) (table : List (List Node))
      → IsTable blake3 self i table
      → any_bucket_has table self.id ≡ false
  unfolding any_bucket_has
  self_not_in_table i [] t = refl
  self_not_in_table i (bucket ∷ rest) t =
      ground (arith, self_not_in_bucket i bucket t.0.members, self_not_in_table (suc i) rest t.1)

-- A node never stands in its own table.
pub has_node_self :
    (blake3 : Bytes → Bytes) (ht : HashTable)
    → IsRoutable blake3 ht
    → has_node ht ht.self.id ≡ false
unfolding has_node
has_node_self blake3 ht r = self_not_in_table blake3 ht.self 0 ht.route_table r.table
