-- ===== src/Kademlia/Lookup/StoreCount.antt =====
-- `storeToAlphaNodes`: when it waits for ever, and what it returns otherwise.
use supernode.Base.{
  Bytes, ℕ, zero, suc, ◌+◌, ◌≤◌, ◌<◌, ◌≡◌, ◌⊎◌, refl, ap, ◌∙◌, subst, true, false, Bool, ◌||◌, List,
  [], ◌∷◌, ◌++◌, leb, length, length-take, min, if◌then◌else◌, take, drop, take-append-drop, arith,
  Bool-cases, inl, inr,
}
use supernode.Kademlia.Node.{Node, NodeList}
use supernode.Kademlia.BanList.{BanList, banned}
use supernode.Kademlia.Dht.{Dht}
use supernode.Kademlia.Lookup.{Env, alpha}
use supernode.Kademlia.Lookup.AlphaStore.{
  blocked, waits, reached, counted, plus_one_if, store_error, after_collect, start_stores, collect,
  store_rest, store_to_nodes, stores, store_to_alpha_nodes,
}

module _ (bans : BanList) where
  pub any_banned : List Node → Bool
  any_banned [] = false
  any_banned (n ∷ ns) = banned bans n || any_banned ns

  -- How many nodes of the list are not banned and store the data.
  pub accepting : (Node → Bool) → List Node → ℕ
  accepting accepts [] = 0
  accepting accepts (n ∷ ns) =
      if banned bans n then accepting accepts ns else plus_one_if (accepts n) (accepting accepts ns)

trues : List Bool → ℕ
trues [] = 0
trues (b ∷ bs) = plus_one_if b (trues bs)

collect-full :
    (ch : List Bool) (c : ℕ)
    → c < alpha
    → collect (length ch) ch c
      ≡ (if leb alpha (c + trues ch) then reached else counted (c + trues ch))
unfolding collect trues
collect-full [] c h = ground arith
collect-full (true ∷ ch) c h = ground (arith, collect-full ch (suc c))
collect-full (false ∷ ch) c h = ground (arith, collect-full ch c)

collect-short :
    (n : ℕ) (ch : List Bool) (c : ℕ)
    → length ch < n
    → c + length ch < alpha
    → collect n ch c ≡ waits
unfolding collect
collect-short zero ch c h small = absurd (omega arith)
collect-short (suc n) [] c h small = refl
collect-short (suc n) (true ∷ ch) c h small =
    ground (arith, collect-short n ch (suc c) (omega arith) (omega arith))
collect-short (suc n) (false ∷ ch) c h small =
    ground (arith, collect-short n ch c (omega arith) (omega arith))

module _ (bans : BanList) (accepts : Node → Bool) where
  start_stores-all :
      (ns : List Node)
      → any_banned bans ns ≡ false
      → (length (start_stores bans accepts ns) ≡ length ns)
        × (trues (start_stores bans accepts ns) ≡ accepting bans accepts ns)
  unfolding start_stores any_banned accepting trues
  start_stores-all [] h = (refl, refl)
  start_stores-all (n ∷ ns) h = ground (arith, start_stores-all ns)

  start_stores-le : (ns : List Node) → length (start_stores bans accepts ns) ≤ length ns
  unfolding start_stores
  start_stores-le [] = omega arith
  start_stores-le (n ∷ ns) = ground (arith, start_stores-le ns)

  start_stores-lt :
      (ns : List Node)
      → any_banned bans ns ≡ true
      → length (start_stores bans accepts ns) < length ns
  unfolding start_stores any_banned
  start_stores-lt [] h = cc
  start_stores-lt (n ∷ ns) h = ground (arith, start_stores-lt ns, start_stores-le ns)

  accepting-append :
      (xs ys : List Node)
      → accepting bans accepts (xs ++ ys) ≡ accepting bans accepts xs + accepting bans accepts ys
  unfolding accepting
  accepting-append [] ys = omega arith
  accepting-append (x ∷ xs) ys = ground (arith, accepting-append xs ys)

  store_rest-store_error :
      (ns : List Node) (c : ℕ)
      → store_error (store_rest bans accepts ns c) ≡ store_error (c + accepting bans accepts ns)
  unfolding store_rest accepting
  store_rest-store_error [] c = ap store_error (omega arith)
  store_rest-store_error (n ∷ ns) c = ground (
    arith,
    store_rest-store_error ns c,
    store_rest-store_error ns (suc c),
    c + accepting bans accepts ns,
  )

  free-store_error :
      (ch : List Bool) (rest : List Node)
      → after_collect bans accepts rest (collect (length ch) ch 0)
        ≡ store_error (trues ch + accepting bans accepts rest)
  free-store_error ch rest =
      ap (after_collect bans accepts rest) (
        subst (λ t. collect (length ch) ch 0 ≡ (if leb alpha t then reached else counted t))
          (omega arith) (collect-full ch 0 (omega arith)))
      ∙ reached_or_counted (Bool-cases (leb alpha (trues ch)))
    where
      reached_or_counted :
          (leb alpha (trues ch) ≡ true) ⊎ (leb alpha (trues ch) ≡ false)
          → after_collect bans accepts rest
              (if leb alpha (trues ch) then reached else counted (trues ch))
            ≡ store_error (trues ch + accepting bans accepts rest)
      reached_or_counted (inl big) = rw big (ground (arith, big))
      reached_or_counted (inr small) = rw small (store_rest-store_error rest (trues ch))

  store_to_nodes-accepting :
      (nodes : List Node)
      → store_to_nodes bans accepts nodes ≡ (
          if any_banned bans (take alpha nodes)
          then blocked
          else store_error (accepting bans accepts nodes))
  unfolding store_to_nodes
  store_to_nodes-accepting nodes =
      let first = take alpha nodes in
      let n : length first ≡ min alpha (length nodes) = length-take alpha nodes in
      elim (Bool-cases (any_banned bans first)) [
        | inl some' ↦ rw some' (
            ap (after_collect bans accepts (drop alpha nodes)) (
              collect-short (min alpha (length nodes)) (start_stores bans accepts first) 0
                (omega (arith, n, start_stores-lt first some'))
                (omega (arith, n, start_stores-lt first some'))))
        | inr none' ↦
            let (len, same) = start_stores-all first none' in
            let sums : trues (start_stores bans accepts first)
                  + accepting bans accepts (drop alpha nodes)
                ≡ accepting bans accepts nodes =
              omega (
                arith,
                same,
                accepting-append first (drop alpha nodes),
                ap (accepting bans accepts) (take-append-drop alpha nodes),
              ) in
            rw (none', ← n, ← len, ← sums)
              (free-store_error (start_stores bans accepts first) (drop alpha nodes))
      ]

module _ {S : Type 0} (env : Env S) where
  -- `storeToAlphaNodes` waits for ever exactly where one of the first `Alpha` nodes of the list is
  -- banned. Otherwise it counts, over the whole list, the nodes that are not banned and store the
  -- data: it succeeds where they are at least `Alpha`, and else fails with their number.
  pub store_to_alpha_nodes-accepting :
      (k : ℕ) (d : Dht S) (nl : NodeList) (value : Bytes) (typ : ℕ)
      → store_to_alpha_nodes env k d nl value typ ≡ (
          if any_banned d.ignorelist (take alpha nl.nodes)
          then blocked
          else store_error (accepting d.ignorelist (stores env k d value typ) nl.nodes))
  unfolding store_to_alpha_nodes
  store_to_alpha_nodes-accepting k d nl value typ =
      store_to_nodes-accepting d.ignorelist (stores env k d value typ) nl.nodes
