-- ===== src/Kademlia/Dht/Removing.antt =====
-- `removeNode`, and the table of `NewHashTable`.
use supernode.Base.{
  ℕ, zero, suc, ◌+◌, ◌≤◌, ◌<◌, ◌≡◌, ◌≢◌, refl, ap, ◌∙◌, subst, false, not, ◌&&◌, none, some, List,
  [], ◌∷◌, Bytes, bytes_eq, bytes_eq_iff, length, get_elem?, set, replicate, length-replicate, All,
  arith, inl, inr, Bool-cases,
}
use supernode.Kademlia.Node.{Node, set_hashed_id, has_id, del_first}
use supernode.Kademlia.Node.Unique.{has_id-del_first, del_first-IsUnique, del_first_absent}
use supernode.Kademlia.BucketIndex.{bits_b, bucket_index}
use supernode.Kademlia.BucketIndex.Distance.{IsDigest, bucket_index_total}
use supernode.Kademlia.HashTable.{
  HashTable, ◌>>=◌, any_bucket_has, has_node, remove_node, new_hash_table,
}
use supernode.Kademlia.Dht.{Dht, ReplicationStore, remove_known_node}
use supernode.Kademlia.Dht.Table.{
  Belongs, IsBucket, IsTable, IsRoutable, set-IsRoutable, slot-IsBucket, has_node_self,
}
use supernode.Kademlia.Dht.Adding.{IsHashable, set_hashed_id-hashed}

module _ (blake3 : Bytes → Bytes) (self : Node) (id : Bytes) (i : ℕ)
    (placed : bucket_index self.hashed_id (blake3 id) ≡ some i) where
  members_lack :
      (k : ℕ) (bucket : List Node)
      → k ≢ i
      → All (Belongs blake3 self k) bucket
      → has_id bucket id ≡ false
  unfolding has_id
  members_lack k [] ne h = refl
  members_lack k (n ∷ bucket) ne h = elim (Bool-cases (bytes_eq n.id id)) [
    | inl same ↦
        let e : n.id ≡ id = (bytes_eq_iff n.id id).0 same in
        let there : bucket_index self.hashed_id (blake3 id) ≡ some k =
          subst (λ x. bucket_index self.hashed_id x ≡ some k) (h.0.hashed ∙ ap blake3 e)
            h.0.placed in
        absurd (ne (ground arith))
    | inr other ↦ rw (other, has_id) (members_lack k bucket ne h.1)
  ]

  table_lacks :
      (s : ℕ) (table : List (List Node))
      → IsTable blake3 self s table
      → i < s
      → any_bucket_has table id ≡ false
  unfolding any_bucket_has
  table_lacks s [] t h = refl
  table_lacks s (b ∷ rest) t h = ground (
    arith,
    members_lack s b (omega arith) t.0.members,
    table_lacks (suc s) rest t.1 (omega arith),
  )

  -- Where the slot of the id loses it, the table loses it, and nothing else.
  table_without :
      (s k : ℕ) (table : List (List Node)) (bucket : List Node) (j : Bytes)
      → IsTable blake3 self s table
      → s + k ≡ i
      → get_elem? table k ≡ some bucket
      → any_bucket_has (set table k (del_first id bucket)) j
        ≡ (any_bucket_has table j && not (bytes_eq id j))
  unfolding any_bucket_has
  table_without s k [] bucket j t e g = cc
  table_without s zero (b ∷ rest) bucket j t e g =
      let same : b ≡ bucket = ground arith in
      rw (← same) (
        ground (
          arith,
          has_id-del_first id j b t.0.distinct,
          bytes_eq_iff id j,
          table_lacks (suc s) rest t.1 (omega arith),
        ))
  table_without s (suc k) (b ∷ rest) bucket j t e g = ground (
    arith,
    members_lack s b (omega arith) t.0.members,
    bytes_eq_iff id j,
    table_without (suc s) k rest bucket j t.1 (omega arith) g,
  )

All-del_first {κ} :
    (P : Node → Type κ) (id : Bytes) (bucket : List Node)
    → All P bucket
    → All P (del_first id bucket)
unfolding del_first
All-del_first P id [] h = tt
All-del_first P id (n ∷ bucket) h = elim (Bool-cases (bytes_eq n.id id)) [
  | inl same ↦ rw (same, del_first) h.1
  | inr other ↦ rw (other, del_first) (h.0, All-del_first P id bucket h.1)
]

length-del_first-le :
    (id : Bytes) (bucket : List Node) → length (del_first id bucket) ≤ length bucket
unfolding del_first
length-del_first-le id [] = omega arith
length-del_first-le id (n ∷ bucket) = ground (arith, length-del_first-le id bucket)

del_first-IsBucket :
    (blake3 : Bytes → Bytes) (self : Node) (i : ℕ) (id : Bytes) (b : List Node)
    → IsBucket blake3 self i b
    → IsBucket blake3 self i (del_first id b)
del_first-IsBucket blake3 self i id b h = record {
  distinct = del_first-IsUnique id b h.distinct;
  bounded = omega (arith, length-del_first-le id b, h.bounded);
  members = All-del_first (Belongs blake3 self i) id b h.members;
}

set_same {ℓ} :
    {A : Type ℓ} (xs : List A) (i : ℕ) (x : A) → get_elem? xs i ≡ some x → set xs i x ≡ xs
set_same [] i x e = refl
set_same (y ∷ xs) zero x e = ground arith
set_same (y ∷ xs) (suc i) x e = ap (◌∷◌ y) (set_same xs i x e)

module _ (blake3 : Bytes → Bytes) where
  -- `RemoveNode` in terms of the first node with the id, also where there is none.
  remove_node-del_first :
      (ht : HashTable) (i : ℕ) (id : Bytes) (bucket : List Node)
      → get_elem? ht.route_table i ≡ some bucket
      → remove_node ht i id
        ≡ some (
          record ht { route_table = set ht.route_table i (del_first id bucket) },
          has_id bucket id,
        )
  unfolding remove_node
  remove_node-del_first ht i id bucket e = elim (Bool-cases (has_id bucket id)) [
    | inl here ↦ rw (e, here)
    | inr absent ↦
        let stays : set ht.route_table i (del_first id bucket) ≡ ht.route_table =
          rw (del_first_absent id bucket absent) (set_same ht.route_table i bucket e) in
        rw (e, absent, stays)
  ]

  -- On a table that keeps the invariant, with digests of 32 bytes, `removeNode` of a node that
  -- carries no foreign hash returns without a panic, keeps the invariant, removes the node's id
  -- from the table, and keeps every other id.
  pub remove_known_node-IsRoutable :
      {S : Type 0} (ops : ReplicationStore S) (d : Dht S) (given : Node) (id : Bytes)
      → ((x : Bytes) → IsDigest (blake3 x))
      → IsRoutable blake3 d.ht
      → IsHashable blake3 given
      → (d' : Dht S) × (remove_known_node ops blake3 d given ≡ some d')
        × IsRoutable blake3 d'.ht
        × (has_node d'.ht id ≡ (has_node d.ht id && not (bytes_eq given.id id)))
  unfolding remove_known_node
  remove_known_node-IsRoutable ops d given id digest r hashable =
      elim (Bool-cases (bytes_eq given.id d.ht.self.id)) [
        | inl own ↦
            let e : given.id ≡ d.ht.self.id = (bytes_eq_iff given.id d.ht.self.id).0 own in
            rw (own, remove_known_node)
              (d, refl, r, ground (arith, has_node_self blake3 d.ht r, bytes_eq_iff given.id id))
        | inr other ↦
            let n = set_hashed_id blake3 given in
            let (hashed, same) = set_hashed_id-hashed blake3 given hashable in
            let digest_self : IsDigest d.ht.self.hashed_id =
              rw r.self_hashed (digest d.ht.self.id) in
            let (i, placed, lt) =
              bucket_index_total d.ht.self.hashed_id n.hashed_id digest_self
                (rw hashed (digest given.id)) in
            let (bucket, e, b) = slot-IsBucket r i lt in
            (
              record d {
                ht = record (d.ht) { route_table = set d.ht.route_table i (del_first n.id bucket) };
              },
              rw (other, remove_known_node)
                  (rw (placed, ◌>>=◌) (rw (remove_node-del_first d.ht i n.id bucket e))),
              set-IsRoutable r i (del_first n.id bucket)
                  (del_first-IsBucket blake3 d.ht.self i n.id bucket b),
              rw same (
                  unfold has_node in
                  table_without blake3 d.ht.self given.id i (rw (← hashed) placed) 0 i
                    d.ht.route_table bucket id r.table (omega arith) e),
            )
      ]

pub empty-IsTable :
    (blake3 : Bytes → Bytes) (self : Node) (i k : ℕ) → IsTable blake3 self i (replicate k [])
unfolding replicate
empty-IsTable blake3 self i zero = tt
empty-IsTable blake3 self i (suc k) = (
  record { distinct = tt; bounded = omega arith; members = tt },
  empty-IsTable blake3 self (suc i) k,
)

-- `NewHashTable` fails exactly without an id. Otherwise it gives a table of 256 empty buckets that
-- keeps the invariant, of the node with that id, with the time of the call for every bucket.
new_hash_table-IsRoutable :
    (blake3 : Bytes → Bytes) (now port : ℕ) (id ip : Bytes)
    → (new_hash_table blake3 now (record { id = none; ip = ip; port = port }) ≡ none)
      × ((ht : HashTable) × (new_hash_table blake3 now
              (record { id = some id; ip = ip; port = port })
            ≡ some ht)
          × IsRoutable blake3 ht
          × (ht.route_table ≡ replicate bits_b [])
          × (ht.refreshers ≡ replicate bits_b now)
          × (ht.self.id ≡ id))
unfolding new_hash_table set_hashed_id
new_hash_table-IsRoutable blake3 now port id ip = (
  refl,
  (
    _,
    refl,
    record {
      self_hashed = refl;
      buckets = length-replicate bits_b [];
      table = empty-IsTable blake3 _ 0 bits_b;
    },
    refl,
    refl,
    refl,
  ),
)
