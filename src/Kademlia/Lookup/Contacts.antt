-- ===== src/Kademlia/Lookup/Contacts.antt =====
-- `doMultiWorkers`: whom a round of a lookup contacts.
use supernode.Base.{
  ℕ, zero, suc, ap, sym, ◌+◌, ◌-◌, ◌≤◌, ◌≡◌, ◌⊎◌, refl, true, false, Bool, ◌||◌, ◌&&◌, not, List,
  [], ◌∷◌, Bytes, bytes_eq, bytes_eq_iff, take, if◌then◌else◌, leb, length, All, arith, Bool-cases,
  inl, inr,
}
use supernode.Kademlia.Node.{Node, NodeList, has_id}
use supernode.Kademlia.Node.Unique.{IsUnique}
use supernode.Kademlia.HashTable.{has_key}
use supernode.Kademlia.Dht.{Dht}
use supernode.Kademlia.Lookup.{Env, alpha, pick_receivers, answers, do_multi_workers, IterativeType}

without : Bytes → List Node → List Node
without id [] = []
without id (n ∷ ns) = let rest = without id ns in if bytes_eq n.id id then rest else n ∷ rest

-- The first node of each id.
firsts : List Node → List Node
unfolding without
firsts [] = []
firsts (n ∷ ns) = n ∷ without n.id (firsts ns)

-- The nodes that were not contacted.
new_ones : List Bytes → List Node → List Node
new_ones contacted [] = []
new_ones contacted (n ∷ ns) =
    let rest = new_ones contacted ns in if has_key contacted n.id then rest else n ∷ rest

-- Whom a round has to contact: of the nodes that were not contacted the first of each id, all of
-- them where the rest is searched, and else `room` of them.
pub wanted : Bool → ℕ → List Bytes → List Node → List Node
unfolding firsts new_ones
wanted have_rest room contacted nodes =
    let fresh = new_ones contacted (firsts nodes) in if have_rest then fresh else take room fresh

new_ones-cons :
    (x : Bytes) (contacted : List Bytes) (ns : List Node)
    → new_ones (x ∷ contacted) ns ≡ new_ones contacted (without x ns)
unfolding new_ones without has_key
new_ones-cons x contacted [] = refl
new_ones-cons x contacted (n ∷ ns) =
    ground (arith, new_ones-cons x contacted ns, bytes_eq_iff n.id x, bytes_eq_iff x n.id)

new_ones-known :
    (x : Bytes) (contacted : List Bytes) (ns : List Node)
    → has_key contacted x ≡ true
    → new_ones contacted (without x ns) ≡ new_ones contacted ns
unfolding new_ones without has_key
new_ones-known x contacted [] h = refl
new_ones-known x contacted (n ∷ ns) h =
    ground (arith, new_ones-known x contacted ns h, bytes_eq_iff n.id x)

-- The nodes that a round contacts after `number` others, and the ids contacted afterwards.
pub record IsPicked (number : ℕ) (have_rest : Bool) (contacted : List Bytes) (picked : List Node)
    (contacted' : List Bytes) : Type 0 where
  few : (have_rest ≡ true) ⊎ (length picked ≤ alpha - number)
  pub fresh : All (λ n. has_key contacted n.id ≡ false) picked
  distinct : IsUnique picked
  recorded : (id : Bytes) → has_key contacted' id ≡ (has_id picked id || has_key contacted id)

fresh-has_id :
    (x : Bytes) (contacted : List Bytes) (ns : List Node)
    → All (λ n. has_key (x ∷ contacted) n.id ≡ false) ns
    → (has_id ns x ≡ false) × All (λ n. has_key contacted n.id ≡ false) ns
unfolding has_key has_id
fresh-has_id x contacted [] h = (refl, tt)
fresh-has_id x contacted (n ∷ ns) h =
    let (r, s) = fresh-has_id x contacted ns h.1 in
    (ground (arith, h.0, r, bytes_eq_iff n.id x, bytes_eq_iff x n.id), (ground (arith, h.0), s))

stops-IsPicked :
    (number : ℕ) (have_rest : Bool) (contacted : List Bytes)
    → IsPicked number have_rest contacted [] contacted
unfolding has_id
stops-IsPicked number have_rest contacted = record {
  few = inr (omega arith);
  fresh = tt;
  distinct = tt;
  recorded = λ id. refl;
}

pick_receivers-IsPicked :
    (number : ℕ) (have_rest : Bool) (contacted : List Bytes) (nodes : List Node)
    → IsPicked number have_rest contacted
        (pick_receivers number have_rest contacted nodes).0
        (pick_receivers number have_rest contacted nodes).1
unfolding pick_receivers has_id has_key
pick_receivers-IsPicked number have_rest contacted [] = stops-IsPicked number have_rest contacted
pick_receivers-IsPicked number have_rest contacted (n ∷ ns) =
    elim (Bool-cases (leb alpha number && not have_rest)) [
      | inl full ↦ rw (full, pick_receivers) (stops-IsPicked number have_rest contacted)
      | inr room ↦ elim (Bool-cases (has_key contacted n.id)) [
        | inl known ↦
            rw (room, pick_receivers)
              (rw (known, pick_receivers) (pick_receivers-IsPicked number have_rest contacted ns))
        | inr new ↦
            let p = pick_receivers-IsPicked (number + 1) have_rest (n.id ∷ contacted) ns in
            let (other, fresh) = fresh-has_id n.id contacted _ p.fresh in
            rw (room, pick_receivers)
              (rw (new, pick_receivers)
                (record {
                  few = ground (arith, p.few, room);
                  fresh = (new, fresh);
                  distinct = (other, p.distinct);
                  recorded = λ id. ground (arith, p.recorded id);
                }))
      ]
    ]

firsts-known :
    (contacted : List Bytes) (n : Node) (ns : List Node)
    → has_key contacted n.id ≡ true
    → new_ones contacted (firsts (n ∷ ns)) ≡ new_ones contacted (firsts ns)
unfolding firsts new_ones
firsts-known contacted n ns h = rw (h, new_ones) (new_ones-known n.id contacted (firsts ns) h)

firsts-new :
    (contacted : List Bytes) (n : Node) (ns : List Node)
    → has_key contacted n.id ≡ false
    → new_ones contacted (firsts (n ∷ ns)) ≡ n ∷ new_ones (n.id ∷ contacted) (firsts ns)
unfolding firsts new_ones
firsts-new contacted n ns h =
    rw (h, new_ones) (ap (λ rest. n ∷ rest) (sym (new_ones-cons n.id contacted (firsts ns))))

take_none : (room : ℕ) (ns : List Node) → room ≡ 0 → take room ns ≡ []
take_none zero ns h = refl
take_none (suc room) ns h = absurd (omega (arith, h))

take_more :
    (number : ℕ) (n : Node) (ns : List Node)
    → leb alpha number ≡ false
    → take (alpha - number) (n ∷ ns) ≡ n ∷ take (alpha - (number + 1)) ns
take_more number n ns h =
    let room : alpha - number ≡ suc (alpha - (number + 1)) = ground (arith, h) in
    ap (λ k. take k (n ∷ ns)) room

pick_receivers-wanted :
    (number : ℕ) (have_rest : Bool) (contacted : List Bytes) (nodes : List Node)
    → (pick_receivers number have_rest contacted nodes).0
      ≡ wanted have_rest (alpha - number) contacted nodes
unfolding pick_receivers wanted firsts new_ones
pick_receivers-wanted number true contacted [] = refl
pick_receivers-wanted number false contacted [] = sym (take_nil (alpha - number))
  where
    take_nil : (room : ℕ) → take {A = Node} room [] ≡ []
    take_nil zero = refl
    take_nil (suc room) = refl
pick_receivers-wanted number true contacted (n ∷ ns) = elim (Bool-cases (has_key contacted n.id)) [
  | inl known ↦ ground (
    arith,
    known,
    firsts-known contacted n ns known,
    pick_receivers-wanted number true contacted ns,
  )
  | inr new ↦ ground (
    arith,
    new,
    firsts-new contacted n ns new,
    pick_receivers-wanted (number + 1) true (n.id ∷ contacted) ns,
  )
]
pick_receivers-wanted number false contacted (n ∷ ns) = elim (Bool-cases (leb alpha number)) [
  | inl full ↦ rw (full, pick_receivers) (sym (take_none (alpha - number) _ (ground (arith, full))))
  | inr room ↦ elim (Bool-cases (has_key contacted n.id)) [
    | inl known ↦ ground (
      arith,
      room,
      known,
      firsts-known contacted n ns known,
      pick_receivers-wanted number false contacted ns,
    )
    | inr new ↦ ground (
      arith,
      room,
      new,
      firsts-new contacted n ns new,
      take_more number n (new_ones (n.id ∷ contacted) (firsts ns)) room,
      pick_receivers-wanted (number + 1) false (n.id ∷ contacted) ns,
    )
  ]
]

module _ {S : Type 0} (env : Env S) where
  -- A round of a lookup asks, of the nodes of its list that were not contacted before, the first of
  -- each id, in the order of the list: all of them if the rest is searched, and else the first
  -- `Alpha`. Each is recorded as contacted, and no other id is. The responses that arrive are the
  -- answers of these nodes.
  pub do_multi_workers-IsPicked :
      (k : ℕ) (d : Dht S) (typ : IterativeType) (target : Bytes) (nl : NodeList)
      (contacted : List Bytes) (have_rest : Bool)
      → (picked : List Node) × (contacted' : List Bytes) × (do_multi_workers env k d typ target nl
            contacted have_rest
          ≡ (env.peers.arrive k (answers env k d typ target picked), contacted'))
        × (picked ≡ wanted have_rest alpha contacted nl.nodes)
        × IsPicked 0 have_rest contacted picked contacted'
  unfolding do_multi_workers
  do_multi_workers-IsPicked k d typ target nl contacted have_rest = (
    (pick_receivers 0 have_rest contacted nl.nodes).0,
    (pick_receivers 0 have_rest contacted nl.nodes).1,
    refl,
    pick_receivers-wanted 0 have_rest contacted nl.nodes,
    pick_receivers-IsPicked 0 have_rest contacted nl.nodes,
  )
