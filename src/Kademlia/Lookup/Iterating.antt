-- ===== src/Kademlia/Lookup/Iterating.antt =====
-- `iterate` comes to an end without a panic, and keeps the invariant of the route table.
use mathlib.Core.List.Perm
use supernode.Base.{
  ℕ, zero, suc, ◌≡◌, refl, sym, ◌∙◌, true, false, ◌&&◌, not, Bool, Option, some, List, [], ◌∷◌,
  Bytes, bytes_eq_refl, length, if◌then◌else◌, arith, Bool-cases, inl, inr, ltb,
}
use supernode.Kademlia.Node.{Node, NodeList, has_id, add_nodes, sort, distance_to}
use supernode.Kademlia.Node.Unique.{has_id-add_all}
use supernode.Kademlia.Node.Permuted.{has_id-perm}
use supernode.Kademlia.BucketIndex.{bits_b}
use supernode.Kademlia.BucketIndex.Distance.{IsDigest, bucket_index_total}
use supernode.Kademlia.HashTable.{◌>>=◌, bind-some, reset_refresh_time}
use supernode.Kademlia.Dht.{Dht}
use supernode.Kademlia.Dht.Table.{IsRoutable, get_elem?-some}
use supernode.Kademlia.Messages.{MessageType, Payload, is_ok}
use supernode.Kademlia.Lookup.{
  Env, Arrival, IterativeType, iterate_store, iterate_find_node, iterate_find_value, take_nodes,
  take_typed, take_closest, add_sender, take_responses, do_multi_workers,
}
use supernode.Kademlia.Lookup.Iterate.{
  Signal, go_on, cancelled, timed_out, cancelled_error, Outcome, no_result, Search, Round, next,
  ends, follow, is_empty, iterate_iterations, conclude, close_round, search_round, search_rounds,
  reset_target_bucket, start_search, iterate_nodes, iterate,
}
use supernode.Kademlia.Lookup.Total.{
  HasHashableSenders, Ends, bind-Ends, take_responses-Ends, workers-All, iterate_find_value_of-Ends,
}

module _ {S : Type 0} (env : Env S) (id : Bytes) where
  take_nodes-has_id :
      (nl : NodeList) (p : Payload)
      → has_id nl.nodes id ≡ true
      → has_id (take_nodes env nl p).nodes id ≡ true
  unfolding take_nodes add_nodes
  take_nodes-has_id nl (Payload.find_node_response status closest) h =
      elim (Bool-cases (is_ok status.result && ltb 0 (length closest))) [
        | inl yes' ↦ rw (yes', has_id-add_all nl.nodes closest id, h)
        | inr no' ↦ rw (no', h)
      ]
  take_nodes-has_id nl _ h = h

  take_typed-has_id :
      (nl : NodeList) (t : MessageType) (p : Payload)
      → has_id nl.nodes id ≡ true
      → has_id (take_typed env nl t p).nodes id ≡ true
  unfolding take_typed
  take_typed-has_id nl MessageType.find_node p h = take_nodes-has_id nl p h
  take_typed-has_id nl MessageType.store_data p h = take_nodes-has_id nl p h
  take_typed-has_id nl _ p h = h

  take_responses-has_id :
      (d : Dht S) (nl : NodeList) (arrivals : List Arrival) (d' : Dht S) (nl' : NodeList)
      → has_id nl.nodes id ≡ true
      → take_responses env d nl arrivals ≡ some (d', nl')
      → has_id nl'.nodes id ≡ true
  unfolding take_responses
  take_responses-has_id d nl [] d' nl' h e = ground arith
  take_responses-has_id d nl (a ∷ rest) d' nl' h e =
      let (added, e1, e2) =
        bind-some (add_sender env d a.message.sender a.now a.reachable)
          (λ x. take_responses env x.0 (take_closest env nl a.message) rest) _ e in
      take_responses-has_id added.0 (take_closest env nl a.message) rest d' nl'
        (take_typed-has_id nl a.message.message_type a.message.payload h) e2

  -- The lists of the rounds never become empty.
  abbrev Live : Search S → Type 0
  Live s = IsRoutable env.blake3 s.dht.ht × (has_id s.nl.nodes id ≡ true)

  abbrev IsKept : Round S → Type 0
  IsKept (next s) = Live s
  IsKept (ends d outcome) = IsRoutable env.blake3 d.ht

  abbrev Kept : Option (Round S) → Type 0
  Kept res = (round : Round S) × (res ≡ some round) × IsKept round

  round_if :
      (b c : Bool) (d : Dht S) (s1 s2 : Search S)
      → IsRoutable env.blake3 d.ht
      → Live s1
      → Live s2
      → IsKept (if b then (if c then ends d no_result else next s1) else next s2)
  round_if true true d s1 s2 r l1 l2 = r
  round_if true false d s1 s2 r l1 l2 = l1
  round_if false c d s1 s2 r l1 l2 = l2

  conclude-Kept :
      (k : ℕ) (typ : IterativeType) (value : Bytes) (n : ℕ) (s : Search S) (nodes : List Node)
      → Live s
      → has_id nodes id ≡ true
      → Kept (conclude env k typ value n s nodes)
  unfolding conclude has_id
  conclude-Kept k iterate_store value n s nodes (r, l) h = (_, refl, r)
  conclude-Kept k iterate_find_value value n s nodes (r, l) h = (_, refl, (r, l))
  conclude-Kept k iterate_find_node value n s [] live h = cc
  conclude-Kept k iterate_find_node value n s (first ∷ _) (r, l) h =
      (_, refl, round_if _ s.search_rest s.dht _ _ r (r, l) (r, l))

  close_round-Kept :
      (k : ℕ) (typ : IterativeType) (target value : Bytes) (n : ℕ) (s : Search S)
      → Live s
      → Kept (close_round env k typ target value n s)
  unfolding close_round sort
  close_round-Kept k typ target value n s (r, l) =
      let h =
        has_id-perm id (Perm.symm (env.sorter.sort_by-perm (distance_to target) s.nl.nodes)) in
      elim (Bool-cases (not s.search_rest && is_empty s.nl.nodes)) [
        | inl stop ↦ rw stop (ends s.dht no_result, refl, r)
        | inr goes ↦ rw goes (conclude-Kept k typ value n _ _ (r, sym h ∙ l) (sym h ∙ l))
      ]

module _ {S : Type 0} (env : Env S) (digest : (x : Bytes) → IsDigest (env.blake3 x))
    (senders : HasHashableSenders env) where
  search_round-Kept :
      (id : Bytes) (k : ℕ) (typ : IterativeType) (target value : Bytes) (n : ℕ) (s : Search S)
      → Live env id s
      → Kept env id (search_round env k typ target value n s)
  unfolding search_round
  search_round-Kept id k typ target value n s (r, l) =
      let workers = do_multi_workers env k s.dht typ target s.nl s.contacted s.search_rest in
      let (d', nl', e, r') =
        take_responses-Ends env digest senders s.dht s.nl workers.0 r
          (workers-All env digest senders k s.dht typ target s.nl s.contacted s.search_rest) in
      rw (e, ◌>>=◌)
        (close_round-Kept env id k typ target value n
          (record s { dht = d'; nl = nl'; contacted = workers.1 })
          (r', take_responses-has_id env id s.dht s.nl workers.0 d' nl' l e))

  follow-Ends :
      (id : Bytes) (m : Option (Round S)) (f : Search S → Option (Dht S × Outcome))
      → Kept env id m
      → ((s' : Search S) → Live env id s' → Ends env digest senders (f s'))
      → Ends env digest senders (m >>= λ round. follow round f)
  follow-Ends id m f (next s', e, kept) later = rw (e, ◌>>=◌) (later s' kept)
  follow-Ends id m f (ends d outcome, e, kept) later = rw (e, ◌>>=◌) (d, outcome, refl, kept)

  search_rounds-Ends :
      (id : Bytes) (rounds k : ℕ) (signal : ℕ → Signal) (typ : IterativeType) (target value : Bytes)
      (n : ℕ) (s : Search S)
      → Live env id s
      → Ends env digest senders (search_rounds env rounds k signal typ target value n s)
  unfolding search_rounds
  search_rounds-Ends id zero k signal typ target value n s (r, l) = (_, _, refl, r)
  search_rounds-Ends id (suc rounds) k signal typ target value n s (r, l) =
      elim (signal k)
        as (λ g. Ends env digest senders (elim g [
          | cancelled ↦ some (s.dht, cancelled_error)
          | timed_out ↦ some (s.dht, no_result)
          | go_on ↦ search_round env k typ target value n s >>= λ round.
              follow round (λ s'. search_rounds env rounds (suc k) signal typ target value n s')
        ])) [
          | cancelled ↦ (_, _, refl, r)
          | timed_out ↦ (_, _, refl, r)
          | go_on ↦
              follow-Ends id _ _ (search_round-Kept id k typ target value n s (r, l))
                (λ s'. search_rounds-Ends id rounds (suc k) signal typ target value n s')
        ]

  reset_target_bucket-IsRoutable :
      (typ : IterativeType) (d : Dht S) (target : Bytes) (now : ℕ)
      → IsRoutable env.blake3 d.ht
      → length d.ht.refreshers ≡ bits_b
      → (d' : Dht S) × (reset_target_bucket env typ d target now ≡ some d')
        × IsRoutable env.blake3 d'.ht
  unfolding reset_target_bucket reset_refresh_time
  reset_target_bucket-IsRoutable iterate_store d target now r full = (d, refl, r)
  reset_target_bucket-IsRoutable iterate_find_value d target now r full = (d, refl, r)
  reset_target_bucket-IsRoutable iterate_find_node d target now r full =
      let (i, placed, lt) =
        bucket_index_total d.ht.self.hashed_id (env.blake3 target)
          (rw r.self_hashed (digest d.ht.self.id)) (digest target) in
      let (time, e) = get_elem?-some d.ht.refreshers i (omega (arith, full, lt)) in
      rw (placed, e)
        (_, refl, record { self_hashed = r.self_hashed; buckets = r.buckets; table = r.table })

  start_search-Ends :
      (typ : IterativeType) (d : Dht S) (target value : Bytes) (n now : ℕ) (signal : ℕ → Signal)
      (nl : NodeList) (nodes : List Node)
      → nl.nodes ≡ nodes
      → IsRoutable env.blake3 d.ht
      → length d.ht.refreshers ≡ bits_b
      → Ends env digest senders (start_search env typ d target value n now signal nl nodes)
  unfolding start_search has_id
  start_search-Ends typ d target value n now signal nl [] same r full = (d, no_result, refl, r)
  start_search-Ends typ d target value n now signal nl (first ∷ rest) same r full =
      let (d', e, r') = reset_target_bucket-IsRoutable typ d target now r full in
      let here : has_id nl.nodes first.id ≡ true =
        rw same (ground (arith, bytes_eq_refl first.id)) in
      rw (e, ◌>>=◌)
        (search_rounds-Ends first.id iterate_iterations 0 signal typ target value n _ (r', here))

  -- On a table that keeps the invariant, with 256 refresh times and digests of 32 bytes, and where
  -- every response carries a sender without a foreign hash, the search of every kind of `iterate` comes to an end after at most 5
  -- rounds, whatever else the network answers and whenever `select` stops it: it never panics, and the
  -- table that it leaves keeps the invariant. A store at the nearest nodes, which may block, comes
  -- after the search.
  pub iterate-Ends :
      (typ : IterativeType) (d : Dht S) (target value : Bytes) (n now : ℕ) (signal : ℕ → Signal)
      → IsRoutable env.blake3 d.ht
      → length d.ht.refreshers ≡ bits_b
      → Ends env digest senders (iterate env typ d target value n now signal)
  unfolding iterate iterate_nodes
  iterate-Ends iterate_find_value d target value n now signal r full =
      bind-Ends env digest senders _ (iterate_find_value_of-Ends env digest senders d target r)
        (λ d' v r'. (d', _, refl, r'))
  iterate-Ends iterate_store d target value n now signal r full =
      start_search-Ends iterate_store d target value n now signal _ _ refl r full
  iterate-Ends iterate_find_node d target value n now signal r full =
      start_search-Ends iterate_find_node d target value n now signal _ _ refl r full
