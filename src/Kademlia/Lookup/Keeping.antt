-- ===== src/Kademlia/Lookup/Keeping.antt =====
-- A lookup of nodes keeps what the store holds, if the replication of nodes touches no value.
use supernode.Base.{
  ℕ, zero, suc, ◌≡◌, sym, ◌∙◌, subst, true, false, Bool, not, ◌&&◌, ◌||◌, bytes_eq, Option, none,
  some, List, [], ◌∷◌, Bytes, if◌then◌else◌, Bool-cases, inl, inr,
}
use supernode.Base.Options.{option-cases}
use supernode.Kademlia.Node.{Node, NodeList}
use supernode.Kademlia.HashTable.{◌>>=◌}
use supernode.Kademlia.Dht.{Dht, NodeReplicationInfo, add_node}
use supernode.Kademlia.Dht.Keeping.{add_node-keeps}
use supernode.Kademlia.Lookup.{
  Env, Arrival, IterativeType, iterate_store, iterate_find_node, iterate_find_value, take_responses,
  take_closest, add_sender, do_multi_workers,
}
use supernode.Kademlia.Lookup.Iterate.{
  Signal, go_on, cancelled, timed_out, Outcome, no_result, cancelled_error, Search, Round, next,
  ends, follow, is_empty, iterate_iterations, conclude, close_round, search_round, search_rounds,
  reset_target_bucket, start_search, iterate_nodes,
}

module _ {S : Type 0} (env : Env S) {X : Type 0} (f : S → X)
    (update : (s : S) (info : NodeReplicationInfo)
      → f (env.ops.update_replication_info s info) ≡ f s)
    (add : (s : S) (info : NodeReplicationInfo) → f (env.ops.add_replication_info s info) ≡ f s)
    (v : X) where
  abbrev pub Keeps : {B : Type 0} → Option (Dht S × B) → Type 0
  Keeps none = Unit
  Keeps (some r) = f r.0.store ≡ v

  abbrev KeepsRound : Option (Round S) → Type 0
  KeepsRound none = Unit
  KeepsRound (some (next s)) = f s.dht.store ≡ v
  KeepsRound (some (ends d outcome)) = f d.store ≡ v

  bind-Keeps :
      {B C : Type 0} (m : Option (Dht S × B)) (g : Dht S × B → Option (Dht S × C))
      → Keeps m
      → ((r : Dht S × B) → f r.0.store ≡ v → Keeps (g r))
      → Keeps (m >>= g)
  bind-Keeps none g h later = tt
  bind-Keeps (some r) g h later = later r h

  add_node-Keeps :
      (d : Dht S) (given : Node) (now : ℕ) (reachable : Node → Bool)
      → f d.store ≡ v
      → Keeps (add_node env.ops env.blake3 d given now reachable)
  add_node-Keeps d given now reachable h =
      elim (option-cases (add_node env.ops env.blake3 d given now reachable)) [
        | inl e ↦ subst Keeps (sym e) tt
        | inr ((d', out), e) ↦
            subst Keeps (sym e)
              (add_node-keeps env.ops env.blake3 f update add d given now reachable d' out e ∙ h)
      ]

  add_sender-Keeps :
      (d : Dht S) (sender : Option Node) (now : ℕ) (reachable : Node → Bool)
      → f d.store ≡ v
      → Keeps (add_sender env d sender now reachable)
  unfolding add_sender
  add_sender-Keeps d none now reachable h = tt
  add_sender-Keeps d (some sender) now reachable h = add_node-Keeps d sender now reachable h

  take_responses-Keeps :
      (d : Dht S) (nl : NodeList) (arrivals : List Arrival)
      → f d.store ≡ v
      → Keeps (take_responses env d nl arrivals)
  unfolding take_responses
  take_responses-Keeps d nl [] h = h
  take_responses-Keeps d nl (a ∷ rest) h =
      bind-Keeps (add_sender env d a.message.sender a.now a.reachable)
        (λ added. take_responses env added.0 (take_closest env nl a.message) rest)
        (add_sender-Keeps d a.message.sender a.now a.reachable h)
        (λ r h'. take_responses-Keeps r.0 (take_closest env nl a.message) rest h')

  round_if-Keeps :
      (b c : Bool) (d : Dht S) (s1 s2 : Search S)
      → f d.store ≡ v
      → f s1.dht.store ≡ v
      → f s2.dht.store ≡ v
      → KeepsRound (some (if b then (if c then ends d no_result else next s1) else next s2))
  round_if-Keeps true true d s1 s2 h h1 h2 = h
  round_if-Keeps true false d s1 s2 h h1 h2 = h1
  round_if-Keeps false c d s1 s2 h h1 h2 = h2

  conclude-Keeps :
      (k : ℕ) (typ : IterativeType) (value : Bytes) (n : ℕ) (s : Search S) (nodes : List Node)
      → f s.dht.store ≡ v
      → KeepsRound (conclude env k typ value n s nodes)
  unfolding conclude
  conclude-Keeps k iterate_store value n s nodes h = h
  conclude-Keeps k iterate_find_value value n s nodes h = h
  conclude-Keeps k iterate_find_node value n s [] h = tt
  conclude-Keeps k iterate_find_node value n s (first ∷ _) h =
      round_if-Keeps (bytes_eq first.id s.closest_node.id || s.search_rest) s.search_rest s.dht _ _
        h h h

  close_round-Keeps :
      (k : ℕ) (typ : IterativeType) (target value : Bytes) (n : ℕ) (s : Search S)
      → f s.dht.store ≡ v
      → KeepsRound (close_round env k typ target value n s)
  unfolding close_round
  close_round-Keeps k typ target value n s h =
      elim (Bool-cases (not s.search_rest && is_empty s.nl.nodes)) [
        | inl stop ↦ rw stop h
        | inr goes ↦ rw goes (conclude-Keeps k typ value n _ _ h)
      ]

  search_round-Keeps :
      (k : ℕ) (typ : IterativeType) (target value : Bytes) (n : ℕ) (s : Search S)
      → f s.dht.store ≡ v
      → KeepsRound (search_round env k typ target value n s)
  unfolding search_round
  search_round-Keeps k typ target value n s h =
      let workers = do_multi_workers env k s.dht typ target s.nl s.contacted s.search_rest in
      closed (take_responses env s.dht s.nl workers.0) (take_responses-Keeps s.dht s.nl workers.0 h)
    where
      closed :
          (m : Option (Dht S × NodeList))
          → Keeps m
          → KeepsRound (
              m >>= λ taken. close_round env k typ target value n (record s {
                dht = taken.0;
                nl = taken.1;
                contacted =
                    (do_multi_workers env k s.dht typ target s.nl s.contacted s.search_rest).1;
              }))
      closed none h' = tt
      closed (some taken) h' =
          close_round-Keeps k typ target value n
            (record s {
              dht = taken.0;
              nl = taken.1;
              contacted =
                  (do_multi_workers env k s.dht typ target s.nl s.contacted s.search_rest).1;
            })
            h'

  follow-Keeps :
      (m : Option (Round S)) (g : Search S → Option (Dht S × Outcome))
      → KeepsRound m
      → ((s : Search S) → f s.dht.store ≡ v → Keeps (g s))
      → Keeps (m >>= λ round. follow round g)
  follow-Keeps none g h later = tt
  follow-Keeps (some (next s)) g h later = later s h
  follow-Keeps (some (ends d outcome)) g h later = h

  search_rounds-Keeps :
      (rounds k : ℕ) (signal : ℕ → Signal) (typ : IterativeType) (target value : Bytes) (n : ℕ)
      (s : Search S)
      → f s.dht.store ≡ v
      → Keeps (search_rounds env rounds k signal typ target value n s)
  unfolding search_rounds
  search_rounds-Keeps zero k signal typ target value n s h = h
  search_rounds-Keeps (suc rounds) k signal typ target value n s h =
      elim (signal k)
        as (λ g. Keeps (elim g [
          | cancelled ↦ some (s.dht, cancelled_error)
          | timed_out ↦ some (s.dht, no_result)
          | go_on ↦ search_round env k typ target value n s >>= λ round.
              follow round (λ s'. search_rounds env rounds (suc k) signal typ target value n s')
        ])) [
          | cancelled ↦ h
          | timed_out ↦ h
          | go_on ↦
              follow-Keeps (search_round env k typ target value n s) _
                (search_round-Keeps k typ target value n s h)
                (λ s'. search_rounds-Keeps rounds (suc k) signal typ target value n s')
        ]

  -- The lookup of a store: its target's bucket is not refreshed.
  pub iterate_store-Keeps :
      (d : Dht S) (target value : Bytes) (n now : ℕ) (signal : ℕ → Signal)
      → f d.store ≡ v
      → Keeps (iterate_nodes env iterate_store d target value n now signal)
  unfolding iterate_nodes start_search reset_target_bucket
  iterate_store-Keeps d target value n now signal h = started _ _
    where
      started :
          (nl : NodeList) (nodes : List Node)
          → Keeps (start_search env iterate_store d target value n now signal nl nodes)
      started nl [] = h
      started nl (first ∷ rest) =
          search_rounds-Keeps iterate_iterations 0 signal iterate_store target value n
            (record { dht = d; nl = nl; contacted = []; search_rest = false; closest_node = first })
            h
