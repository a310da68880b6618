-- ===== src/Kademlia/ConnPool/Bounds.antt =====
-- The size of the pool, and what is in it after an addition.
use supernode.Base.{
  ℕ, ◌+◌, ◌≤◌, ◌<◌, ◌≡◌, ◌≢◌, refl, Bool, true, false, ◌||◌, none, some, List, [], ◌∷◌, Bytes,
  bytes_eq, bytes_eq_iff, bytes_eq_refl, leb, length, All, if◌then◌else◌, arith, ◌⊎◌, inl, inr,
  Bool-cases, Option-cases, sym, ap, ◌∙◌,
}
use supernode.Kademlia.ConnPool.{
  ConnectionItem, ConnPool, lookup, delete_addr, assign, oldest_addr, add_conn,
}

unfoldable pub has_addr : Bytes → List ConnectionItem → Bool
has_addr addr [] = false
has_addr addr (c ∷ cs) = bytes_eq c.addr addr || has_addr addr cs

abbrev pub IsDistinct : List ConnectionItem → Type 0
IsDistinct [] = Unit
IsDistinct (c ∷ cs) = (has_addr c.addr cs ≡ false) × IsDistinct cs

abbrev AccessedBefore : ℕ → ConnectionItem → Type 0
AccessedBefore now c = c.last_access < now

oldest_addr-known :
    (access : ℕ) (oldest : Bytes) (cs : List ConnectionItem)
    → (oldest_addr access oldest cs ≡ oldest) ⊎ (has_addr (oldest_addr access oldest cs) cs ≡ true)
unfolding oldest_addr has_addr
oldest_addr-known access oldest [] = inl refl
oldest_addr-known access oldest (c ∷ cs) = ground (
  arith,
  oldest_addr-known access oldest cs,
  oldest_addr-known c.last_access c.addr cs,
  bytes_eq_refl c.addr,
)

length-delete_addr :
    (addr : Bytes) (cs : List ConnectionItem)
    → has_addr addr cs ≡ true
    → length (delete_addr addr cs) + 1 ≡ length cs
unfolding delete_addr has_addr
length-delete_addr addr [] h = ground arith
length-delete_addr addr (c ∷ cs) h = ground (arith, length-delete_addr addr cs)

length-assign :
    (item : ConnectionItem) (cs : List ConnectionItem)
    → length (assign item cs) ≡ (if has_addr item.addr cs then length cs else length cs + 1)
unfolding assign has_addr
length-assign item [] = refl
length-assign item (c ∷ cs) = ground (arith, length-assign item cs)

pub lookup-assign :
    (item : ConnectionItem) (cs : List ConnectionItem)
    → lookup item.addr (assign item cs) ≡ some item
unfolding assign lookup
lookup-assign item [] = ground (arith, bytes_eq_refl item.addr)
lookup-assign item (c ∷ cs) = ground (arith, lookup-assign item cs, bytes_eq_refl item.addr)

lookup-assign_other :
    (item : ConnectionItem) (addr : Bytes) (cs : List ConnectionItem)
    → item.addr ≢ addr
    → lookup addr (assign item cs) ≡ lookup addr cs
unfolding assign lookup
lookup-assign_other item addr [] h = ground (arith, bytes_eq_iff item.addr addr)
lookup-assign_other item addr (c ∷ cs) h = ground (
  arith,
  lookup-assign_other item addr cs h,
  bytes_eq_iff item.addr addr,
  bytes_eq_iff c.addr addr,
  bytes_eq_iff c.addr item.addr,
)

lookup-has_addr :
    (addr : Bytes) (cs : List ConnectionItem) → lookup addr cs ≡ none → has_addr addr cs ≡ false
unfolding lookup has_addr
lookup-has_addr addr [] h = refl
lookup-has_addr addr (c ∷ cs) h = ground (arith, lookup-has_addr addr cs)

lookup-delete_addr_other :
    (addr other : Bytes) (cs : List ConnectionItem)
    → addr ≢ other
    → lookup other (delete_addr addr cs) ≡ lookup other cs
unfolding delete_addr lookup
lookup-delete_addr_other addr other [] h = refl
lookup-delete_addr_other addr other (c ∷ cs) h = ground (
  arith,
  lookup-delete_addr_other addr other cs h,
  bytes_eq_iff c.addr addr,
  bytes_eq_iff c.addr other,
)

-- Where every access lies before `now`, the search finds an entry.
oldest_addr-has_addr :
    (now : ℕ) (cs : List ConnectionItem)
    → cs ≢ []
    → All (AccessedBefore now) cs
    → has_addr (oldest_addr now [] cs) cs ≡ true
unfolding oldest_addr has_addr
oldest_addr-has_addr now [] ne h = absurd (ne refl)
oldest_addr-has_addr now (c ∷ cs) ne h =
    ground (arith, h.0, oldest_addr-known c.last_access c.addr cs, bytes_eq_refl c.addr)

lookup-has_addr-some :
    (addr : Bytes) (cs : List ConnectionItem) (c : ConnectionItem)
    → lookup addr cs ≡ some c
    → has_addr addr cs ≡ true
unfolding lookup has_addr
lookup-has_addr-some addr [] c h = ground arith
lookup-has_addr-some addr (d ∷ cs) c h = ground (arith, lookup-has_addr-some addr cs c)

abbrev evicted : ConnPool → ℕ → List ConnectionItem
evicted pool now = delete_addr (oldest_addr now [] pool.conns) pool.conns

-- A pool within its capacity, which is not 0, stays within it when a connection is added, if every
-- access lies before the time of the call; and the address then has the new connection.
pub add_conn-bounded :
    (pool : ConnPool) (addr : Bytes) (conn now later : ℕ)
    → 0 < pool.capacity
    → length pool.conns ≤ pool.capacity
    → All (AccessedBefore now) pool.conns
    → (length (add_conn pool addr conn now later).0.conns ≤ pool.capacity)
      × (lookup addr (add_conn pool addr conn now later).0.conns
          ≡ some (record { addr = addr; last_access = later; conn = conn }))
unfolding add_conn
add_conn-bounded pool addr conn now later room small h =
    let item : ConnectionItem = record { addr = addr; last_access = later; conn = conn } in
    elim (Option-cases (lookup addr pool.conns)) [
      | inr (old, e) ↦
          rw (e, add_conn)
            (
              ground (
                arith,
                length-assign item pool.conns,
                lookup-has_addr-some addr pool.conns old e,
              ),
              lookup-assign item pool.conns,
            )
      | inl none_there ↦ elim (Bool-cases (leb pool.capacity (length pool.conns))) [
        | inl full ↦
            let ne : pool.conns ≢ [] =
              λ e. let z : length pool.conns ≡ 0 = ap length e in ground arith in
            rw (none_there, add_conn)
              (rw full (
                ground (
                  arith,
                  length-assign item (evicted pool now),
                  length-delete_addr (oldest_addr now [] pool.conns) pool.conns
                      (oldest_addr-has_addr now pool.conns ne h),
                ),
                lookup-assign item (evicted pool now),
              ))
        | inr free ↦
            rw (none_there, add_conn)
              (rw free
                (ground (arith, length-assign item pool.conns), lookup-assign item pool.conns))
      ]
    ]

pub has_addr-delete_addr :
    (addr v : Bytes) (cs : List ConnectionItem)
    → has_addr addr cs ≡ false
    → has_addr addr (delete_addr v cs) ≡ false
unfolding delete_addr has_addr
has_addr-delete_addr addr v [] h = refl
has_addr-delete_addr addr v (c ∷ cs) h = ground (arith, has_addr-delete_addr addr v cs)

-- Where a pool that is not empty and has no room gets a new address, and every access lies before
-- the time of the call, the pool keeps its size, so that one entry leaves it, and no connection is
-- closed. Every other address but that of the oldest access keeps its entry.
pub add_conn-drops_open :
    (pool : ConnPool) (addr other : Bytes) (conn now later : ℕ)
    → pool.conns ≢ []
    → pool.capacity ≤ length pool.conns
    → All (AccessedBefore now) pool.conns
    → lookup addr pool.conns ≡ none
    → other ≢ addr
    → other ≢ oldest_addr now [] pool.conns
    → ((add_conn pool addr conn now later).1 ≡ [])
      × (length (add_conn pool addr conn now later).0.conns ≡ length pool.conns)
      × (lookup other (add_conn pool addr conn now later).0.conns ≡ lookup other pool.conns)
unfolding add_conn
add_conn-drops_open pool addr other conn now later some_conn full h new ne kept =
    let item : ConnectionItem = record { addr = addr; last_access = later; conn = conn } in
    let oldest = oldest_addr now [] pool.conns in
    let is_full : leb pool.capacity (length pool.conns) ≡ true = ground arith in
    let absent =
      has_addr-delete_addr addr oldest pool.conns (lookup-has_addr addr pool.conns new) in
    rw (new, add_conn)
      (
        refl,
        rw is_full (
            ground (
              arith,
              length-assign item (evicted pool now),
              absent,
              length-delete_addr oldest pool.conns
                  (oldest_addr-has_addr now pool.conns some_conn h),
            )),
        rw is_full (
            lookup-assign_other item other (evicted pool now) (λ e. ne (sym e))
            ∙ lookup-delete_addr_other oldest other pool.conns (λ e. kept (sym e))),
      )
