-- ===== src/Kademlia/Lookup/Iterate.antt =====
-- p2p/kademlia/dht.go: `iterate` and `iterateFindValue`, each as the rounds that it has left.
-- `none` is a panic.
use supernode.Base.{
  ℕ, zero, suc, Bool, true, false, not, ◌&&◌, ◌||◌, Option, none, some, List, [], ◌∷◌, Bytes,
  bytes_eq, length, if◌then◌else◌, ltb,
}
use supernode.Kademlia.Node.{Node, NodeList, sort}
use supernode.Kademlia.BucketIndex.{bucket_index}
use supernode.Kademlia.HashTable.{◌>>=◌, closest_contacts, reset_refresh_time}
use supernode.Kademlia.BanList.{to_node_list}
use supernode.Kademlia.Dht.{Dht}
use supernode.Kademlia.Lookup.{
  Env, alpha, IterativeType, iterate_find_node, iterate_find_value, iterate_store, do_multi_workers,
  handle_responses, take_responses,
}
use supernode.Kademlia.Lookup.AlphaStore.{AlphaOutcome, store_to_alpha_nodes}

-- What `select` finds at the start of a round.
pub data Signal : Type 0 where
  go_on : Signal
  cancelled : Signal
  timed_out : Signal

-- How an iteration ends. `no_result` is two nils.
pub data Outcome : Type 0 where
  no_result : Outcome
  cancelled_error : Outcome
  value_found : Bytes → Outcome
  store_ended : AlphaOutcome → Outcome

-- What the rounds of `iterate` change.
pub record Search (S : Type 0) : Type 0 where
  pub dht : Dht S
  pub nl : NodeList
  pub contacted : List Bytes
  pub search_rest : Bool
  pub closest_node : Node

-- A round goes on with the next one, or it ends the iteration.
pub data Round (S : Type 0) : Type 0 where
  next : Search S → Round S
  ends : Dht S → Outcome → Round S

abbrev pub follow :
    {S : Type 0} → Round S → (Search S → Option (Dht S × Outcome)) → Option (Dht S × Outcome)
follow (next s) f = f s
follow (ends d outcome) f = some (d, outcome)

abbrev pub max_iterations : ℕ
max_iterations = 4

-- The local `maxIterations` of `iterate`.
abbrev pub iterate_iterations : ℕ
iterate_iterations = 5

abbrev pub is_empty : List Node → Bool
is_empty [] = true
is_empty (_ ∷ _) = false

unfoldable pub is_same : Node → Option Node → Bool
is_same first none = false
is_same first (some n) = bytes_eq first.id n.id

-- The two tests before a round of `iterateFindValue`: `none` where the list is empty, or where its
-- first node is the one of the round before.
unfoldable pub new_closest : List Node → Option Node → Option Node
unfolding is_same
new_closest [] closest_node = none
new_closest (first ∷ _) closest_node = if is_same first closest_node then none else some first

module _ {S : Type 0} (env : Env S) where
  -- The rounds of `iterateFindValue` that are left; `searchRest` of it stays false.
  unfoldable pub find_value_rounds :
      ℕ → ℕ → Dht S → Bytes → NodeList → List Bytes → Option Node → Option (Dht S × Bytes)
  unfolding do_multi_workers handle_responses
  find_value_rounds zero k d target nl contacted closest_node = some (d, [])
  find_value_rounds (suc rounds) k d target nl contacted closest_node =
      elim (new_closest nl.nodes closest_node) [
        | none ↦ some (d, [])
        | some first ↦
            let (responses, contacted') =
              do_multi_workers env k d iterate_find_value target nl contacted false in
            handle_responses env d nl responses >>= λ handled.
            if ltb 0 (length handled.1.1)
            then some (handled.0, handled.1.1)
            else find_value_rounds rounds (suc k) handled.0 target (sort env.sorter handled.1.0)
                contacted' (some first)
      ]

  -- The empty value is `nil`: nothing was found.
  unfoldable pub iterate_find_value_of : Dht S → Bytes → Option (Dht S × Bytes)
  unfolding find_value_rounds
  iterate_find_value_of d target =
      let nl = (closest_contacts env.sorter d.ht alpha target (to_node_list d.ignorelist)).0 in
      find_value_rounds max_iterations 0 d target nl [] none

  -- The switch at the end of a round, where the node list is sorted.
  unfoldable pub conclude : ℕ → IterativeType → Bytes → ℕ → Search S → List Node → Option (Round S)
  unfolding store_to_alpha_nodes
  conclude k iterate_find_node value typ s [] = none
  conclude k iterate_find_node value typ s (first ∷ _) = some (
      if bytes_eq first.id s.closest_node.id || s.search_rest
      then (if s.search_rest then ends s.dht no_result else next (record s { search_rest = true }))
      else next (record s { closest_node = first }))
  conclude k iterate_store value typ s nodes =
      some (ends s.dht (store_ended (store_to_alpha_nodes env k s.dht s.nl value typ)))
  conclude k iterate_find_value value typ s nodes = some (next s)

  -- What follows the loop over the responses.
  unfoldable pub close_round : ℕ → IterativeType → Bytes → Bytes → ℕ → Search S → Option (Round S)
  unfolding conclude
  close_round k iterative target value typ s =
      let sorted = sort env.sorter (record (s.nl) { comparator = target }) in
      if not s.search_rest && is_empty s.nl.nodes
      then some (ends s.dht no_result)
      else conclude k iterative value typ (record s { nl = sorted }) sorted.nodes

  -- A round where `select` takes `default`.
  unfoldable pub search_round : ℕ → IterativeType → Bytes → Bytes → ℕ → Search S → Option (Round S)
  unfolding do_multi_workers take_responses close_round
  search_round k iterative target value typ s =
      let (responses, contacted') =
        do_multi_workers env k s.dht iterative target s.nl s.contacted s.search_rest in
      take_responses env s.dht s.nl responses >>= λ taken.
      close_round k iterative target value typ
        (record s { dht = taken.0; nl = taken.1; contacted = contacted' })

  -- `signal` is what `select` finds in each round.
  unfoldable pub search_rounds :
      ℕ → ℕ → (ℕ → Signal) → IterativeType → Bytes → Bytes → ℕ → Search S → Option (Dht S × Outcome)
  unfolding search_round
  search_rounds zero k signal iterative target value typ s = some (s.dht, no_result)
  search_rounds (suc rounds) k signal iterative target value typ s = elim (signal k) [
    | cancelled ↦ some (s.dht, cancelled_error)
    | timed_out ↦ some (s.dht, no_result)
    | go_on ↦ search_round k iterative target value typ s >>= λ round.
        follow round (λ s'. search_rounds rounds (suc k) signal iterative target value typ s')
  ]

  -- `resetRefreshTime` of the target's bucket, for a lookup of nodes.
  unfoldable pub reset_target_bucket : IterativeType → Dht S → Bytes → ℕ → Option (Dht S)
  reset_target_bucket iterate_find_node d target now = do
    bucket ← bucket_index d.ht.self.hashed_id (env.blake3 target)
    ht ← reset_refresh_time d.ht bucket now
    some (record d { ht = ht })
  reset_target_bucket iterate_store d target now = some d
  reset_target_bucket iterate_find_value d target now = some d

  abbrev found_value : Dht S × Bytes → Dht S × Outcome
  found_value (d, value) = (d, if ltb 0 (length value) then value_found value else no_result)

  unfoldable pub start_search :
      IterativeType
      → Dht S
      → Bytes
      → Bytes
      → ℕ
      → ℕ
      → (ℕ → Signal)
      → NodeList
      → List Node
      → Option (Dht S × Outcome)
  unfolding search_rounds reset_target_bucket
  start_search iterative d target value typ now signal nl [] = some (d, no_result)
  start_search iterative d target value typ now signal nl (first ∷ _) =
      reset_target_bucket iterative d target now >>= λ d'.
      search_rounds iterate_iterations 0 signal iterative target value typ
        (record { dht = d'; nl = nl; contacted = []; search_rest = false; closest_node = first })

  unfoldable pub iterate_nodes :
      IterativeType → Dht S → Bytes → Bytes → ℕ → ℕ → (ℕ → Signal) → Option (Dht S × Outcome)
  unfolding start_search
  iterate_nodes iterative d target value typ now signal =
      let nl = (closest_contacts env.sorter d.ht alpha target (to_node_list d.ignorelist)).0 in
      start_search iterative d target value typ now signal nl nl.nodes

  unfoldable pub iterate :
      IterativeType → Dht S → Bytes → Bytes → ℕ → ℕ → (ℕ → Signal) → Option (Dht S × Outcome)
  unfolding iterate_nodes iterate_find_value_of
  iterate iterate_find_value d target value typ now signal =
      iterate_find_value_of d target >>= λ found. some (found_value found)
  iterate iterate_find_node d target value typ now signal =
      iterate_nodes iterate_find_node d target value typ now signal
  iterate iterate_store d target value typ now signal =
      iterate_nodes iterate_store d target value typ now signal
