-- ===== src/Kademlia/Activity/Checked.antt =====
-- What the check of a node does to the route table and the ban list.
use supernode.Base.{
  ℕ, suc, ◌≡◌, refl, true, false, Bool, not, Option, none, some, List, [], ◌∷◌, Bytes, bytes_eq,
  bytes_eq_refl, Bool-cases, inl, inr, arith,
}
use supernode.Kademlia.BucketIndex.Distance.{IsDigest}
use supernode.Kademlia.Node.{Node}
use supernode.Kademlia.HashTable.{◌>>=◌, has_node}
use supernode.Kademlia.Dht.{Dht, NodeReplicationInfo}
use supernode.Kademlia.Dht.Table.{IsRoutable}
use supernode.Kademlia.Dht.Adding.{add_node-IsRoutable}
use supernode.Kademlia.Dht.Removing.{remove_known_node-IsRoutable}
use supernode.Kademlia.Lookup.{Env}
use supernode.Kademlia.BanList.{increment_count, delete}
use supernode.Kademlia.Activity.{
  ActivityStore, node_of, answers_ping, check_silent, check_answered, check_node, check_nodes,
  check_node_activity,
}

module _ {S : Type 0} (env : Env S) (activity : ActivityStore S)
    (digest : (x : Bytes) → IsDigest (env.blake3 x)) where
  -- What the check of a node leaves, by whether it answers and by whether it was active.
  abbrev Leaves : Bool → Bool → Dht S → NodeReplicationInfo → Dht S → Type 0
  Leaves false false d info d' = d' ≡ d
  Leaves false true d info d' = has_node d'.ht info.id ≡ false
  Leaves true true d info d' = d'.ht ≡ d.ht
  Leaves true false d info d' = has_node d'.ht info.id ≡ not (bytes_eq info.id d.ht.self.id)

  abbrev pub Checks : Bool → Dht S → NodeReplicationInfo → Option (Dht S) → Type 0
  Checks answers d info res =
      (d' : Dht S) × (res ≡ some d')
      × IsRoutable env.blake3 d'.ht
      × Leaves answers info.active d info d'

  silent-Checks :
      (d : Dht S) (info : NodeReplicationInfo) (now : ℕ)
      → IsRoutable env.blake3 d.ht
      → Checks false d info (check_silent env activity d info now)
  unfolding check_silent
  silent-Checks d info now r = elim (Bool-cases info.active) [
    | inr off ↦ rw (off, check_silent) (d, refl, r, refl)
    | inl on ↦
        let d1 : Dht S = record d {
          ignorelist = increment_count d.ignorelist (node_of info) now;
        } in
        let (d', e, r', removed) =
          remove_known_node-IsRoutable env.blake3 env.ops d1 (node_of info) info.id digest r
            (inl refl) in
        let gone : has_node d'.ht info.id ≡ false =
          ground (arith, removed, bytes_eq_refl info.id) in
        rw (on, check_silent) (rw (e, ◌>>=◌) (_, refl, r', gone))
  ]

  answered-Checks :
      (d : Dht S) (info : NodeReplicationInfo) (now : ℕ) (reachable : Node → Bool)
      → IsRoutable env.blake3 d.ht
      → Checks true d info (check_answered env activity d info now reachable)
  unfolding check_answered
  answered-Checks d info now reachable r = elim (Bool-cases info.active) [
    | inl on ↦ rw (on, check_answered) (_, refl, r, refl)
    | inr off ↦
        let d1 : Dht S = record d { ignorelist = delete d.ignorelist (node_of info) } in
        let (d', out, e, r', there) =
          add_node-IsRoutable env.ops env.blake3 d1 (node_of info) now reachable digest r
            (inl refl) in
        rw (off, check_answered) (rw (e, ◌>>=◌) (_, refl, r', there))
  ]

  -- On a table that keeps the invariant, with digests of 32 bytes, the check of a node never panics
  -- and keeps the invariant. A node that does not answer is not in the table afterwards if it was
  -- active; if it was not, nothing changes. A node that answers is in the table afterwards, unless it
  -- is this node, if it was not active; if it was, the table does not change.
  pub check_node-Checks :
      (k : ℕ) (d : Dht S) (info : NodeReplicationInfo) (now : ℕ) (reachable : Node → Bool)
      → IsRoutable env.blake3 d.ht
      → Checks
          (answers_ping env activity k d info)
          d
          info
          (check_node env activity k d info now reachable)
  unfolding check_node
  check_node-Checks k d info now reachable r =
      elim (Bool-cases (answers_ping env activity k d info)) [
        | inl yes' ↦ rw (yes', check_node) (answered-Checks d info now reachable r)
        | inr no' ↦ rw (no', check_node) (silent-Checks d info now r)
      ]

  check_nodes-IsRoutable :
      (k : ℕ) (d : Dht S) (infos : List NodeReplicationInfo) (clock : ℕ → ℕ)
      (reachable : ℕ → Node → Bool)
      → IsRoutable env.blake3 d.ht
      → (d' : Dht S) × (check_nodes env activity k d infos clock reachable ≡ some d')
        × IsRoutable env.blake3 d'.ht
  unfolding check_nodes
  check_nodes-IsRoutable k d [] clock reachable r = (d, refl, r)
  check_nodes-IsRoutable k d (info ∷ infos) clock reachable r =
      let (d1, e, r1, _) = check_node-Checks k d info (clock k) (reachable k) r in
      rw (e, ◌>>=◌) (check_nodes-IsRoutable (suc k) d1 infos clock reachable r1)

  -- On a table that keeps the invariant, with digests of 32 bytes, a tick never panics and leaves a
  -- table that keeps the invariant, whatever the store and the network answer.
  check_node_activity-IsRoutable :
      (connected : Bool) (rep_info : Option (List NodeReplicationInfo)) (d : Dht S) (clock : ℕ → ℕ)
      (reachable : ℕ → Node → Bool)
      → IsRoutable env.blake3 d.ht
      → (d' : Dht S) × (check_node_activity env activity connected rep_info d clock reachable
          ≡ some d')
        × IsRoutable env.blake3 d'.ht
  unfolding check_node_activity
  check_node_activity-IsRoutable false rep_info d clock reachable r = (d, refl, r)
  check_node_activity-IsRoutable true none d clock reachable r = (d, refl, r)
  check_node_activity-IsRoutable true (some infos) d clock reachable r =
      check_nodes-IsRoutable 0 d infos clock reachable r
