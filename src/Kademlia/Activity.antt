-- ===== src/Kademlia/Activity.antt =====
-- p2p/kademlia/node_activity.go: `checkNodeActivity`. A tick pings each node that the store knows;
-- `clock`, `reachable` and the call belong to the number of the ping. Errors of the store are only
-- logged. `none` is a panic.
pub mod Checked
use supernode.Base.{
  ℕ, suc, Bool, true, false, Option, none, some, List, [], ◌∷◌, Bytes, if◌then◌else◌,
}
use supernode.Kademlia.Node.{Node}
use supernode.Kademlia.HashTable.{◌>>=◌}
use supernode.Kademlia.BanList.{increment_count, delete}
use supernode.Kademlia.Dht.{Dht, NodeReplicationInfo, add_node, remove_known_node}
use supernode.Kademlia.Messages.{MessageType, Payload}
use supernode.Kademlia.Lookup.{Env, new_message}

pub record ActivityStore (S : Type 0) : Type 0 where
  pub update_is_active : S → Bytes → Bool → Bool → S
  pub update_last_seen : S → Bytes → S

abbrev pub node_of : NodeReplicationInfo → Node
node_of info = record { id = info.id; ip = info.ip; port = info.port; hashed_id = [] }

module _ {S : Type 0} (env : Env S) (activity : ActivityStore S) where
  -- The node answers the ping.
  unfoldable pub answers_ping : ℕ → Dht S → NodeReplicationInfo → Bool
  unfolding new_message
  answers_ping k d info =
      elim (env.peers.call k
        (new_message env d MessageType.ping (some (node_of info)) Payload.no_data)) [
          | none ↦ false
          | some response ↦ true
        ]

  abbrev mark_active : Dht S → NodeReplicationInfo → Bool → Dht S
  mark_active d info is_active = record d {
    store = activity.update_is_active d.store info.id is_active false;
  }

  abbrev mark_seen : Dht S → NodeReplicationInfo → Dht S
  mark_seen d info = record d { store = activity.update_last_seen d.store info.id }

  -- The branch of a ping that fails.
  pub check_silent : Dht S → NodeReplicationInfo → ℕ → Option (Dht S)
  check_silent d info now = elim info.active [
    | false ↦ some d
    | true ↦
        remove_known_node env.ops env.blake3
          (record d { ignorelist = increment_count d.ignorelist (node_of info) now }) (node_of info)
        >>= λ d'. some (mark_active d' info false)
  ]

  -- The branch of a ping that is answered.
  pub check_answered : Dht S → NodeReplicationInfo → ℕ → (Node → Bool) → Option (Dht S)
  check_answered d info now reachable =
      let d1 = record d { ignorelist = delete d.ignorelist (node_of info) } in
      elim info.active [
        | true ↦ some (mark_seen d1 info)
        | false ↦ add_node env.ops env.blake3 d1 (node_of info) now reachable >>= λ added.
            some (mark_seen (mark_active added.0 info true) info)
      ]

  pub check_node : ℕ → Dht S → NodeReplicationInfo → ℕ → (Node → Bool) → Option (Dht S)
  unfolding answers_ping check_silent check_answered
  check_node k d info now reachable = elim (answers_ping k d info) [
    | true ↦ check_answered d info now reachable
    | false ↦ check_silent d info now
  ]

  -- The loop over the nodes, from ping `k` on.
  pub check_nodes :
      ℕ → Dht S → List NodeReplicationInfo → (ℕ → ℕ) → (ℕ → Node → Bool) → Option (Dht S)
  unfolding check_node
  check_nodes k d [] clock reachable = some d
  check_nodes k d (info ∷ infos) clock reachable =
      check_node k d info (clock k) (reachable k) >>= λ d'.
      check_nodes (suc k) d' infos clock reachable

  -- What a tick does: nothing without a connection, and nothing if the store gives no nodes.
  check_node_activity :
      Bool
      → Option (List NodeReplicationInfo)
      → Dht S
      → (ℕ → ℕ)
      → (ℕ → Node → Bool)
      → Option (Dht S)
  unfolding check_nodes
  check_node_activity false rep_info d clock reachable = some d
  check_node_activity true none d clock reachable = some d
  check_node_activity true (some infos) d clock reachable = check_nodes 0 d infos clock reachable
