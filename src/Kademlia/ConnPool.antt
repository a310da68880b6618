-- ===== src/Kademlia/ConnPool.antt =====
-- p2p/kademlia/conn_pool.go: `ConnPool`. A connection is a number. The map is a list of entries
-- with distinct addresses, in some order; a time is a number.
pub mod Bounds
pub mod Idle
pub mod Distinct
use supernode.Base.{
  ℕ, zero, suc, ◌+◌, ◌*◌, Bool, true, false, Option, none, some, List, [], ◌∷◌, ◌++◌, Bytes,
  bytes_eq, ltb, leb, length, ◌||◌, if◌then◌else◌,
}

pub record ConnectionItem : Type 0 where
  pub addr : Bytes
  pub last_access : ℕ
  pub conn : ℕ

pub record ConnPool : Type 0 where
  pub capacity : ℕ
  pub conns : List ConnectionItem

abbrev default_capacity : ℕ
default_capacity = 256

unfoldable new_conn_pool : ConnPool
new_conn_pool = record { capacity = default_capacity; conns = [] }

unfoldable pub lookup : Bytes → List ConnectionItem → Option ConnectionItem
lookup addr [] = none
lookup addr (c ∷ cs) = if bytes_eq c.addr addr then some c else lookup addr cs

-- `delete(conns, addr)`.
pub delete_addr : Bytes → List ConnectionItem → List ConnectionItem
delete_addr addr [] = []
delete_addr addr (c ∷ cs) = if bytes_eq c.addr addr then cs else c ∷ delete_addr addr cs

-- `conns[item.addr] = item`.
pub assign : ConnectionItem → List ConnectionItem → List ConnectionItem
assign item [] = item ∷ []
assign item (c ∷ cs) = if bytes_eq c.addr item.addr then item ∷ cs else c ∷ assign item cs

-- The loop that looks for the oldest access, from the time and the address so far.
unfoldable pub oldest_addr : ℕ → Bytes → List ConnectionItem → Bytes
oldest_addr access oldest [] = oldest
oldest_addr access oldest (c ∷ cs) = elim (ltb c.last_access access) [
  | true ↦ oldest_addr c.last_access c.addr cs
  | false ↦ oldest_addr access oldest cs
]

-- `Add`, with the connections that it closes. `now` is read for the search, `later` for the entry.
pub add_conn : ConnPool → Bytes → ℕ → ℕ → ℕ → ConnPool × List ℕ
unfolding lookup delete_addr assign oldest_addr
add_conn pool addr conn now later =
    let item : ConnectionItem = record { addr = addr; last_access = later; conn = conn } in
    elim (lookup addr pool.conns) [
      | some old ↦ (record pool { conns = assign item pool.conns }, old.conn ∷ [])
      | none ↦
          let kept =
            if leb pool.capacity (length pool.conns)
            then delete_addr (oldest_addr now [] pool.conns) pool.conns
            else pool.conns in
          (record pool { conns = assign item kept }, [])
    ]

-- `Get`: the connection, whose access is now the last.
pub get_conn : ConnPool → Bytes → ℕ → ConnPool × Option ℕ
unfolding lookup assign
get_conn pool addr now = elim (lookup addr pool.conns) [
  | none ↦ (pool, none)
  | some item ↦ (
    record pool { conns = assign (record item { last_access = now }) pool.conns },
    some item.conn,
  )
]

pub del_conn : ConnPool → Bytes → ConnPool
unfolding delete_addr
del_conn pool addr = record pool { conns = delete_addr addr pool.conns }

all_conns : List ConnectionItem → List ℕ
all_conns [] = []
all_conns (c ∷ cs) = c.conn ∷ all_conns cs

-- `Release`, with the connections that it closes.
unfoldable release : ConnPool → ConnPool × List ℕ
unfolding all_conns
release pool = (record pool { conns = [] }, all_conns pool.conns)

-- `defaultConnDeadline` of p2p/kademlia/network.go, in nanoseconds.
abbrev pub default_conn_deadline : ℕ
default_conn_deadline = 10 * 60 * 1_000_000_000

-- `time.Since(item.lastAccess) > defaultConnDeadline`.
pub is_idle : ℕ → ConnectionItem → Bool
is_idle now c = ltb (c.last_access + default_conn_deadline) now

-- The round of one tick of `StartConnEviction`: the entries that stay, and the connections closed.
-- `clock k` is the time that is read for entry `k`.
pub evict_from : (ℕ → ℕ) → ℕ → List ConnectionItem → List ConnectionItem × List ℕ
unfolding is_idle
evict_from clock k [] = ([], [])
evict_from clock k (c ∷ cs) =
    let (kept, closed) = evict_from clock (k + 1) cs in
    if is_idle (clock k) c then (kept, c.conn ∷ closed) else (c ∷ kept, closed)

unfoldable pub evict_idle : ConnPool → (ℕ → ℕ) → ConnPool × List ℕ
unfolding evict_from
evict_idle pool clock =
    let (kept, closed) = evict_from clock 0 pool.conns in (record pool { conns = kept }, closed)
