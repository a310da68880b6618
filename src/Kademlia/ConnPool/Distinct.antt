-- ===== src/Kademlia/ConnPool/Distinct.antt =====
-- The addresses of the pool stay distinct.
use supernode.Base.{
  ℕ, ◌≡◌, refl, false, ◌||◌, none, some, List, [], ◌∷◌, Bytes, bytes_eq, bytes_eq_iff, leb, length,
  arith, inl, inr, Bool-cases, Option-cases, subst, if◌then◌else◌,
}
use supernode.Kademlia.ConnPool.{
  ConnectionItem, ConnPool, lookup, delete_addr, assign, oldest_addr, add_conn, get_conn, del_conn,
}
use supernode.Kademlia.ConnPool.Bounds.{IsDistinct, has_addr, has_addr-delete_addr, lookup-assign}

has_addr-assign :
    (item : ConnectionItem) (addr : Bytes) (cs : List ConnectionItem)
    → has_addr addr (assign item cs) ≡ (bytes_eq item.addr addr || has_addr addr cs)
unfolding assign has_addr
has_addr-assign item addr [] = ground arith
has_addr-assign item addr (c ∷ cs) =
    ground (arith, has_addr-assign item addr cs, bytes_eq_iff c.addr item.addr)

assign-IsDistinct :
    (item : ConnectionItem) (cs : List ConnectionItem) → IsDistinct cs → IsDistinct (assign item cs)
unfolding assign has_addr
assign-IsDistinct item [] h = (refl, tt)
assign-IsDistinct item (c ∷ cs) h = elim (Bool-cases (bytes_eq c.addr item.addr)) [
  | inl same ↦
      let e : c.addr ≡ item.addr = (bytes_eq_iff c.addr item.addr).0 same in
      rw (same, assign) (rw (← e) h.0, h.1)
  | inr other ↦
      rw (other, assign)
        (
          ground (
            arith,
            has_addr-assign item c.addr cs,
            bytes_eq_iff c.addr item.addr,
            bytes_eq_iff item.addr c.addr,
            h.0,
          ),
          assign-IsDistinct item cs h.1,
        )
]

delete_addr-IsDistinct :
    (addr : Bytes) (cs : List ConnectionItem) → IsDistinct cs → IsDistinct (delete_addr addr cs)
unfolding delete_addr
delete_addr-IsDistinct addr [] h = tt
delete_addr-IsDistinct addr (c ∷ cs) h = elim (Bool-cases (bytes_eq c.addr addr)) [
  | inl same ↦ rw (same, delete_addr) h.1
  | inr other ↦
      rw (other, delete_addr)
        (has_addr-delete_addr c.addr addr cs h.0, delete_addr-IsDistinct addr cs h.1)
]

has_addr-lookup :
    (addr : Bytes) (cs : List ConnectionItem) → has_addr addr cs ≡ false → lookup addr cs ≡ none
unfolding lookup has_addr
has_addr-lookup addr [] h = refl
has_addr-lookup addr (c ∷ cs) h = ground (arith, has_addr-lookup addr cs, h)

lookup-delete_addr_self :
    (addr : Bytes) (cs : List ConnectionItem)
    → IsDistinct cs
    → lookup addr (delete_addr addr cs) ≡ none
unfolding delete_addr lookup
lookup-delete_addr_self addr [] h = refl
lookup-delete_addr_self addr (c ∷ cs) h = elim (Bool-cases (bytes_eq c.addr addr)) [
  | inl same ↦
      let e : c.addr ≡ addr = (bytes_eq_iff c.addr addr).0 same in
      rw (same, delete_addr) (rw (← e) (has_addr-lookup c.addr cs h.0))
  | inr other ↦ rw (other, delete_addr) (rw (other, lookup) (lookup-delete_addr_self addr cs h.1))
]

lookup-addr :
    (addr : Bytes) (cs : List ConnectionItem) (c : ConnectionItem)
    → lookup addr cs ≡ some c
    → c.addr ≡ addr
unfolding lookup
lookup-addr addr [] c h = cc
lookup-addr addr (d ∷ cs) c h = ground (arith, bytes_eq_iff d.addr addr, lookup-addr addr cs c, h)

-- The pool has this connection at the address.
pub Holds : ConnPool → Bytes → ℕ → Type 0
Holds pool addr conn =
    (item : ConnectionItem) × (lookup addr pool.conns ≡ some item) × (item.conn ≡ conn)

pub add_conn-Holds :
    (pool : ConnPool) (addr : Bytes) (conn now later : ℕ)
    → IsDistinct pool.conns
    → IsDistinct (add_conn pool addr conn now later).0.conns
      × Holds (add_conn pool addr conn now later).0 addr conn
unfolding add_conn Holds
add_conn-Holds pool addr conn now later h =
    let item : ConnectionItem = record { addr = addr; last_access = later; conn = conn } in
    elim (Option-cases (lookup addr pool.conns)) [
      | inr (old, e) ↦
          rw (e, add_conn)
            (assign-IsDistinct item pool.conns h, (item, lookup-assign item pool.conns, refl))
      | inl none_there ↦
          let kept =
            if leb pool.capacity (length pool.conns)
            then delete_addr (oldest_addr now [] pool.conns) pool.conns
            else pool.conns in
          let distinct : IsDistinct kept =
            elim (Bool-cases (leb pool.capacity (length pool.conns))) [
              | inl full ↦
                  rw full (delete_addr-IsDistinct (oldest_addr now [] pool.conns) pool.conns h)
              | inr free ↦ rw free h
            ] in
          rw (none_there, add_conn)
            (assign-IsDistinct item kept distinct, (item, lookup-assign item kept, refl))
    ]

pub get_conn-none :
    (pool : ConnPool) (addr : Bytes) (now : ℕ)
    → lookup addr pool.conns ≡ none
    → get_conn pool addr now ≡ (pool, none)
unfolding get_conn
get_conn-none pool addr now e = rw (e, get_conn) refl

pub get_conn-Holds :
    (pool : ConnPool) (addr : Bytes) (now : ℕ) (old : ConnectionItem)
    → IsDistinct pool.conns
    → lookup addr pool.conns ≡ some old
    → IsDistinct (get_conn pool addr now).0.conns
      × ((get_conn pool addr now).1 ≡ some old.conn)
      × Holds (get_conn pool addr now).0 addr old.conn
unfolding get_conn Holds
get_conn-Holds pool addr now old h e =
    let item : ConnectionItem = record old { last_access = now } in
    let same : item.addr ≡ addr = lookup-addr addr pool.conns old e in
    rw (e, get_conn)
      (
        assign-IsDistinct item pool.conns h,
        refl,
        (
          item,
          subst (λ a. lookup a (assign item pool.conns) ≡ some item) same
              (lookup-assign item pool.conns),
          refl,
        ),
      )

pub del_conn-none :
    (pool : ConnPool) (addr : Bytes)
    → IsDistinct pool.conns
    → IsDistinct (del_conn pool addr).conns × (lookup addr (del_conn pool addr).conns ≡ none)
unfolding del_conn
del_conn-none pool addr h =
    (delete_addr-IsDistinct addr pool.conns h, lookup-delete_addr_self addr pool.conns h)
