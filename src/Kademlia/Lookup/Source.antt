-- ===== src/Kademlia/Lookup/Source.antt =====
-- Where a value that `iterateFindValue` returns comes from.
use supernode.Base.{
  ℕ, zero, suc, ◌<◌, ◌≡◌, refl, sym, ◌∙◌, subst, true, false, ◌&&◌, Option, none, some, List, [],
  ◌∷◌, Bytes, length, if◌then◌else◌, All, arith, Bool-cases, inl, inr, ltb,
}
use supernode.Base.Options.{if-cases, option-cases}
use supernode.Kademlia.Node.{Node, NodeList, sort}
use supernode.Kademlia.HashTable.{◌>>=◌, bind-some}
use supernode.Kademlia.Dht.{Dht}
use supernode.Kademlia.Messages.{
  Message, MessageType, Payload, ResponseStatus, find_value_request, find_value_response, is_ok,
}
use supernode.Kademlia.Lookup.{
  Env, Arrival, iterate_find_value, pick_receivers, lookup_request, answers, add_sender,
  do_multi_workers, take_value, take_typed_response, take_response, handle_responses,
}
use supernode.Kademlia.Lookup.Iterate.{
  new_closest, max_iterations, find_value_rounds, iterate_find_value_of,
}

-- The message is a response that says that it found the value.
pub record Gives (value : Bytes) (m : Message) : Type 0 where
  typed : m.message_type ≡ MessageType.find_value
  status : ResponseStatus
  closest : List Node
  carried : m.payload ≡ find_value_response status closest value
  successful : is_ok status.result ≡ true

module _ {S : Type 0} (env : Env S) (target : Bytes) where
  -- The message answered a request for the target.
  pub record Answers (m : Message) : Type 0 where
    round : ℕ
    request : Message
    asked : request.payload ≡ find_value_request target
    answered : env.peers.call round request ≡ some m

  answers-Answers :
      (k : ℕ) (d : Dht S) (ns : List Node)
      → All Answers (answers env k d iterate_find_value target ns)
  unfolding answers lookup_request
  answers-Answers k d [] = tt
  answers-Answers k d (n ∷ ns) =
      let q = lookup_request env d iterate_find_value target n in
      elim (env.peers.call k q)
          as (λ o.
            (env.peers.call k q ≡ o)
            → All Answers (elim o [
              | none ↦ answers env k d iterate_find_value target ns
              | some response ↦ response ∷ answers env k d iterate_find_value target ns
            ])) [
              | none ↦ λ e. answers-Answers k d ns
              | some response ↦ λ e. (
                record { round = k; request = q; asked = refl; answered = e },
                answers-Answers k d ns,
              )
            ]
        refl

  take_value-Gives :
      (nl : NodeList) (m : Message) (p : Payload)
      → m.message_type ≡ MessageType.find_value
      → m.payload ≡ p
      → 0 < length (take_value env nl p).1
      → Gives (take_value env nl p).1 m
  unfolding take_value
  take_value-Gives nl m (Payload.find_value_response status closest value) t e pos =
      elim (Bool-cases (is_ok status.result && ltb 0 (length value))) [
        | inl found ↦ rw found (record {
          typed = t;
          status = status;
          closest = closest;
          carried = e;
          successful = ground arith;
        })
        | inr not_found ↦ absurd (ground (arith, not_found, pos))
      ]
  take_value-Gives nl m _ t e pos = absurd (omega arith)

  take_response-Gives :
      (nl : NodeList) (m : Message) (t : MessageType)
      → m.message_type ≡ t
      → 0 < length (take_typed_response env nl t m.payload).1
      → Gives (take_typed_response env nl t m.payload).1 m
  unfolding take_typed_response
  take_response-Gives nl m MessageType.find_value e pos = take_value-Gives nl m m.payload e refl pos
  take_response-Gives nl m MessageType.find_node e pos = absurd (omega arith)
  take_response-Gives nl m MessageType.store_data e pos = absurd (omega arith)
  take_response-Gives nl m _ e pos = absurd (omega arith)

  -- A response of the lookup that gives the value.
  pub IsSourced : Bytes → Type 0
  IsSourced value = (m : Message) × Answers m × Gives value m

  handle_responses-IsSourced :
      (d : Dht S) (nl : NodeList) (arrivals : List Arrival) (d' : Dht S) (nl' : NodeList)
      (value : Bytes)
      → All (λ a. Answers a.message) arrivals
      → handle_responses env d nl arrivals ≡ some (d', (nl', value))
      → 0 < length value
      → IsSourced value
  unfolding handle_responses IsSourced
  handle_responses-IsSourced d nl [] d' nl' value h e pos = absurd (ground arith)
  handle_responses-IsSourced d nl (a ∷ rest) d' nl' value h e pos =
      let nl1 = (take_response env nl a.message).0 in
      let found = (take_response env nl a.message).1 in
      let (added, _, e2) =
        bind-some (add_sender env d a.message.sender a.now a.reachable)
          (λ x.
            if ltb 0 (length found)
            then some (x.0, (nl1, found))
            else handle_responses env x.0 nl1 rest)
          _ e in
      elim (if-cases (ltb 0 (length found)) (some (added.0, (nl1, found)))
        (handle_responses env added.0 nl1 rest) _ e2) [
          | inl (long, last) ↦
              let same : found ≡ value = ground arith in
              (
                a.message,
                h.0,
                subst (λ v. Gives v a.message) same
                    (take_response-Gives nl a.message a.message.message_type refl (rw same pos)),
              )
          | inr (_, later) ↦ handle_responses-IsSourced added.0 nl1 rest d' nl' value h.1 later pos
        ]

  workers-Answers :
      (k : ℕ) (d : Dht S) (nl : NodeList) (contacted : List Bytes)
      → All
          (λ a. Answers a.message)
          (do_multi_workers env k d iterate_find_value target nl contacted false).0
  unfolding do_multi_workers
  workers-Answers k d nl contacted =
      env.peers.arrive-All Answers k _
        (answers-Answers k d (pick_receivers 0 false contacted nl.nodes).0)

  -- What follows the responses of a round.
  abbrev go_on :
      ℕ
      → ℕ
      → NodeList
      → List Bytes
      → Node
      → Dht S
      → Dht S × (NodeList × Bytes)
      → Option (Dht S × Bytes)
  go_on rounds k nl contacted first d handled =
      if ltb 0 (length handled.1.1)
      then some (handled.0, handled.1.1)
      else find_value_rounds env rounds (suc k) handled.0 target (sort env.sorter handled.1.0)
          (do_multi_workers env k d iterate_find_value target nl contacted false).1 (some first)

  find_value_rounds-go_on :
      (rounds k : ℕ) (d : Dht S) (nl : NodeList) (contacted : List Bytes)
      (closest_node : Option Node) (first : Node)
      → new_closest nl.nodes closest_node ≡ some first
      → find_value_rounds env (suc rounds) k d target nl contacted closest_node ≡ (
          handle_responses env d nl
            (do_multi_workers env k d iterate_find_value target nl contacted false).0
          >>= go_on rounds k nl contacted first d)
  unfolding find_value_rounds
  find_value_rounds-go_on rounds k d nl contacted closest_node first goes =
      rw (goes, find_value_rounds) refl

  rounds-IsSourced :
      (rounds k : ℕ) (d : Dht S) (nl : NodeList) (contacted : List Bytes)
      (closest_node : Option Node) (d' : Dht S) (value : Bytes)
      → find_value_rounds env rounds k d target nl contacted closest_node ≡ some (d', value)
      → 0 < length value
      → IsSourced value
  unfolding find_value_rounds
  rounds-IsSourced zero k d nl contacted closest_node d' value e pos = absurd (ground arith)
  rounds-IsSourced (suc rounds) k d nl contacted closest_node d' value e pos =
      elim (option-cases (new_closest nl.nodes closest_node)) [
        | inl stop ↦ absurd (ground (arith, stop, e))
        | inr (first, goes) ↦
            let workers = do_multi_workers env k d iterate_find_value target nl contacted false in
            let (handled, e1, e2) =
              bind-some (handle_responses env d nl workers.0)
                (λ handled. go_on rounds k nl contacted first d handled) (d', value)
                (sym (find_value_rounds-go_on rounds k d nl contacted closest_node first goes)
                  ∙ e) in
            elim (if-cases (ltb 0 (length handled.1.1)) (some (handled.0, handled.1.1))
              (find_value_rounds env rounds (suc k) handled.0 target (sort env.sorter handled.1.0)
                workers.1 (some first))
              _ e2) [
                | inl (long, last) ↦
                    let same : handled.1.1 ≡ value = ground arith in
                    handle_responses-IsSourced d nl workers.0 handled.0 handled.1.0 value
                      (workers-Answers k d nl contacted)
                      (subst
                        (λ v.
                          handle_responses env d nl workers.0 ≡ some (handled.0, (handled.1.0, v)))
                        same e1)
                      pos
                | inr (_, later) ↦
                    rounds-IsSourced rounds (suc k) handled.0 (sort env.sorter handled.1.0)
                      workers.1 (some first) d' value later pos
              ]
      ]

  -- A value that `iterateFindValue` returns is not made up: it stands in a successful `FindValue`
  -- response, and a call that asked for the target gave this response.
  pub iterate_find_value_of-IsSourced :
      (d d' : Dht S) (value : Bytes)
      → iterate_find_value_of env d target ≡ some (d', value)
      → 0 < length value
      → IsSourced value
  unfolding iterate_find_value_of
  iterate_find_value_of-IsSourced d d' value e pos =
      rounds-IsSourced max_iterations 0 d _ [] none d' value e pos
