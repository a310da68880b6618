-- ===== src/Kademlia/Lookup/AlphaStore.antt =====
-- p2p/kademlia/dht.go: `storeToAlphaNodes` and `sendStoreData`. The collector sees the increment of
-- a sender once it has the sender's message; to see it earlier changes no result.
use supernode.Base.{
  ℕ, zero, suc, Bool, true, false, Option, none, some, List, [], ◌∷◌, Bytes, leb, length, min,
  if◌then◌else◌, take, drop,
}
use supernode.Kademlia.Node.{Node, NodeList}
use supernode.Kademlia.BanList.{BanList, banned}
use supernode.Kademlia.Dht.{Dht}
use supernode.Kademlia.Messages.{
  MessageType, Payload, ResponseStatus, store_data_request, store_data_response, is_ok,
}
use supernode.Kademlia.Lookup.{Env, alpha, new_message}

-- What the call comes to: it waits for ever, `nil`, or an error with the count.
pub data AlphaOutcome : Type 0 where
  blocked : AlphaOutcome
  enough : AlphaOutcome
  too_few : ℕ → AlphaOutcome

unfoldable pub store_response : Payload → Option ResponseStatus
store_response (store_data_response status) = some status
store_response _ = none

unfoldable pub is_accepted : Option ResponseStatus → Bool
is_accepted none = false
is_accepted (some status) = is_ok status.result

module _ {S : Type 0} (env : Env S) where
  -- `none` is an error.
  unfoldable pub send_store_data : ℕ → Dht S → Bytes → ℕ → Node → Option ResponseStatus
  unfolding store_response new_message
  send_store_data k d value typ n =
      elim (env.peers.call k
        (new_message env d MessageType.store_data (some n) (store_data_request value typ))) [
          | none ↦ none
          | some response ↦ store_response response.payload
        ]

-- The first loop: the messages of the senders that it starts. `accepts` says which nodes store the
-- data.
unfoldable pub start_stores : BanList → (Node → Bool) → List Node → List Bool
start_stores bans accepts [] = []
start_stores bans accepts (n ∷ ns) = elim (banned bans n) [
  | true ↦ start_stores bans accepts ns
  | false ↦ accepts n ∷ start_stores bans accepts ns
]

pub data Collected : Type 0 where
  waits : Collected
  reached : Collected
  counted : ℕ → Collected

abbrev pub plus_one_if : Bool → ℕ → ℕ
plus_one_if true n = suc n
plus_one_if false n = n

-- The second loop, with the receives that are left and the messages that will come.
unfoldable pub collect : ℕ → List Bool → ℕ → Collected
collect zero alpha_ch store_count = counted store_count
collect (suc n) [] store_count = waits
collect (suc n) (stored ∷ alpha_ch) store_count =
    elim (leb alpha (plus_one_if stored store_count)) [
      | true ↦ reached
      | false ↦ collect n alpha_ch (plus_one_if stored store_count)
    ]

-- The third loop, over the nodes from `Alpha` on.
unfoldable pub store_rest : BanList → (Node → Bool) → List Node → ℕ → ℕ
store_rest bans accepts [] final_store_count = final_store_count
store_rest bans accepts (n ∷ ns) final_store_count = elim (leb alpha final_store_count) [
  | true ↦ final_store_count
  | false ↦ elim (banned bans n) [
    | true ↦ store_rest bans accepts ns final_store_count
    | false ↦ store_rest bans accepts ns (plus_one_if (accepts n) final_store_count)
  ]
]

abbrev pub store_error : ℕ → AlphaOutcome
store_error final_store_count =
    if leb alpha final_store_count then enough else too_few final_store_count

abbrev pub after_collect : BanList → (Node → Bool) → List Node → Collected → AlphaOutcome
after_collect bans accepts rest waits = blocked
after_collect bans accepts rest reached = enough
after_collect bans accepts rest (counted store_count) =
    store_error (store_rest bans accepts rest store_count)

unfoldable pub store_to_nodes : BanList → (Node → Bool) → List Node → AlphaOutcome
unfolding start_stores collect store_rest
store_to_nodes bans accepts nodes =
    after_collect bans accepts (drop alpha nodes)
      (collect (min alpha (length nodes)) (start_stores bans accepts (take alpha nodes)) 0)

module _ {S : Type 0} (env : Env S) where
  -- The node's answer to the request says that it stored the data.
  unfoldable pub stores : ℕ → Dht S → Bytes → ℕ → Node → Bool
  unfolding is_accepted send_store_data
  stores k d value typ n = is_accepted (send_store_data env k d value typ n)

  unfoldable pub store_to_alpha_nodes : ℕ → Dht S → NodeList → Bytes → ℕ → AlphaOutcome
  unfolding stores store_to_nodes
  store_to_alpha_nodes k d nl value typ =
      store_to_nodes d.ignorelist (stores k d value typ) nl.nodes
