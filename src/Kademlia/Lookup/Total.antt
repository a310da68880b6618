-- ===== src/Kademlia/Lookup/Total.antt =====
-- The lookups never panic, and keep the invariant of the route table.
use supernode.Base.{
  ℕ, zero, suc, ◌≡◌, refl, true, false, Bool, Option, none, some, List, [], ◌∷◌, Bytes, length,
  if◌then◌else◌, All, inl, inr, ltb,
}
use supernode.Base.Options.{option-cases}
use supernode.Kademlia.Node.{Node, NodeList, sort}
use supernode.Kademlia.BucketIndex.Distance.{IsDigest}
use supernode.Kademlia.HashTable.{◌>>=◌}
use supernode.Kademlia.Dht.{Dht}
use supernode.Kademlia.Dht.Table.{IsRoutable}
use supernode.Kademlia.Dht.Adding.{IsHashable, add_node-IsRoutable}
use supernode.Kademlia.Messages.{Message}
use supernode.Kademlia.Lookup.{
  Env, Arrival, IterativeType, iterate_find_value, pick_receivers, lookup_request, answers,
  add_sender, do_multi_workers, take_closest, take_response, take_responses, handle_responses,
}
use supernode.Kademlia.Lookup.Iterate.{
  new_closest, max_iterations, find_value_rounds, iterate_find_value_of,
}

-- A sender is there, without a hash or with its own.
abbrev pub IsWelcomed : {S : Type 0} → Env S → Option Node → Type 0
IsWelcomed env none = ⊥
IsWelcomed env (some sender) = IsHashable env.blake3 sender

-- Every response carries such a sender.
abbrev pub HasHashableSenders : {S : Type 0} → Env S → Type 0
HasHashableSenders env =
    (k : ℕ) (m r : Message) → env.peers.call k m ≡ some r → IsWelcomed env r.sender

module _ {S : Type 0} (env : Env S) (digest : (x : Bytes) → IsDigest (env.blake3 x))
    (senders : HasHashableSenders env) where
  abbrev IsWelcome : Arrival → Type 0
  IsWelcome a = IsWelcomed env a.message.sender

  answers-All :
      (k : ℕ) (d : Dht S) (typ : IterativeType) (target : Bytes) (ns : List Node)
      → All (λ m. IsWelcomed env m.sender) (answers env k d typ target ns)
  unfolding answers
  answers-All k d typ target [] = tt
  answers-All k d typ target (n ∷ ns) =
      elim (env.peers.call k (lookup_request env d typ target n))
          as (λ o.
            (env.peers.call k (lookup_request env d typ target n) ≡ o)
            → All (λ m. IsWelcomed env m.sender)
                (elim o [
                  | none ↦ answers env k d typ target ns
                  | some response ↦ response ∷ answers env k d typ target ns
                ])) [
                  | none ↦ λ e. answers-All k d typ target ns
                  | some response ↦ λ e. (senders k _ response e, answers-All k d typ target ns)
                ]
        refl

  pub workers-All :
      (k : ℕ) (d : Dht S) (typ : IterativeType) (target : Bytes) (nl : NodeList)
      (contacted : List Bytes) (have_rest : Bool)
      → All IsWelcome (do_multi_workers env k d typ target nl contacted have_rest).0
  unfolding do_multi_workers
  workers-All k d typ target nl contacted have_rest =
      env.peers.arrive-All (λ m. IsWelcomed env m.sender) k _
        (answers-All k d typ target (pick_receivers 0 have_rest contacted nl.nodes).0)

  -- A step that ended well: some result, with the invariant of its table.
  abbrev pub Ends : {A : Type 0} → Option (Dht S × A) → Type 0
  Ends {A} res = (d' : Dht S) × (a : A) × (res ≡ some (d', a)) × IsRoutable env.blake3 d'.ht

  if-Ends :
      {A : Type 0} (b : Bool) {x y : Option (Dht S × A)}
      → Ends x
      → Ends y
      → Ends (if b then x else y)
  if-Ends true hx hy = hx
  if-Ends false hx hy = hy

  pub bind-Ends :
      {A B : Type 0} {m : Option (Dht S × A)} (f : Dht S × A → Option (Dht S × B))
      → Ends m
      → ((d' : Dht S) (a : A) → IsRoutable env.blake3 d'.ht → Ends (f (d', a)))
      → Ends (m >>= f)
  bind-Ends f (d', a, e, r') later = rw (e, ◌>>=◌) (later d' a r')

  -- A sender enters the table before its response is handled.
  add_sender-Ends :
      (d : Dht S) (sender : Option Node) (now : ℕ) (reachable : Node → Bool)
      → IsRoutable env.blake3 d.ht
      → IsWelcomed env sender
      → Ends (add_sender env d sender now reachable)
  unfolding add_sender
  add_sender-Ends d none now reachable r welcome = absurd welcome
  add_sender-Ends d (some sender) now reachable r welcome =
      let (d', out, e, r', _) =
        add_node-IsRoutable env.ops env.blake3 d sender now reachable digest r welcome in
      (d', out, e, r')

  pub take_responses-Ends :
      (d : Dht S) (nl : NodeList) (arrivals : List Arrival)
      → IsRoutable env.blake3 d.ht
      → All IsWelcome arrivals
      → Ends (take_responses env d nl arrivals)
  unfolding take_responses
  take_responses-Ends d nl [] r welcome = (d, nl, refl, r)
  take_responses-Ends d nl (a ∷ rest) r welcome =
      bind-Ends (λ added. take_responses env added.0 (take_closest env nl a.message) rest)
        (add_sender-Ends d a.message.sender a.now a.reachable r welcome.0)
        (λ d' _ r'. take_responses-Ends d' (take_closest env nl a.message) rest r' welcome.1)

  handle_responses-Ends :
      (d : Dht S) (nl : NodeList) (arrivals : List Arrival)
      → IsRoutable env.blake3 d.ht
      → All IsWelcome arrivals
      → Ends (handle_responses env d nl arrivals)
  unfolding handle_responses
  handle_responses-Ends d nl [] r welcome = (d, (nl, []), refl, r)
  handle_responses-Ends d nl (a ∷ rest) r welcome =
      let nl' = (take_response env nl a.message).0 in
      let value = (take_response env nl a.message).1 in
      bind-Ends _ (add_sender-Ends d a.message.sender a.now a.reachable r welcome.0) (λ d' _ r'.
        if-Ends (ltb 0 (length value)) (d', (nl', value), refl, r')
          (handle_responses-Ends d' nl' rest r' welcome.1))

  find_value_rounds-Ends :
      (rounds k : ℕ) (d : Dht S) (target : Bytes) (nl : NodeList) (contacted : List Bytes)
      (closest_node : Option Node)
      → IsRoutable env.blake3 d.ht
      → Ends (find_value_rounds env rounds k d target nl contacted closest_node)
  unfolding find_value_rounds
  find_value_rounds-Ends zero k d target nl contacted closest_node r = (d, [], refl, r)
  find_value_rounds-Ends (suc rounds) k d target nl contacted closest_node r =
      elim (option-cases (new_closest nl.nodes closest_node)) [
        | inl stop ↦ rw (stop, find_value_rounds) (d, [], refl, r)
        | inr (first, goes) ↦
            let workers = do_multi_workers env k d iterate_find_value target nl contacted false in
            rw (goes, find_value_rounds)
              (bind-Ends _
                (handle_responses-Ends d nl workers.0 r
                  (workers-All k d iterate_find_value target nl contacted false))
                (λ d' a r'.
                  if-Ends (ltb 0 (length a.1)) (d', a.1, refl, r')
                    (find_value_rounds-Ends rounds (suc k) d' target (sort env.sorter a.0) workers.1
                      (some first) r')))
      ]

  -- On a table that keeps the invariant, with digests of 32 bytes and responses that all carry a
  -- sender without a foreign hash, `iterateFindValue` comes to an end after at most `maxIterations` rounds, whatever the
  -- network answers: it never panics, and the table that it leaves keeps the invariant.
  pub iterate_find_value_of-Ends :
      (d : Dht S) (target : Bytes)
      → IsRoutable env.blake3 d.ht
      → Ends (iterate_find_value_of env d target)
  unfolding iterate_find_value_of
  iterate_find_value_of-Ends d target r =
      find_value_rounds-Ends max_iterations 0 d target _ [] none r
