-- ===== src/Kademlia/PoolExamples.antt =====
-- The theorems on the connection pool at two connections, and a test.
use supernode.Base.{ℕ, ◌*◌, ◌≤◌, ◌≡◌, refl, some, [], ◌∷◌, length, bytes_eq, arith}
use supernode.Kademlia.ConnPool.Idle.{Evicts, evict_idle-IsActive}
use supernode.Kademlia.ConnPool.{ConnPool, evict_idle, add_conn, lookup, oldest_addr}
use supernode.Kademlia.ConnPool.Bounds.{add_conn-bounded, add_conn-drops_open}

-- A full pool of two connections, and a third one.
abbrev two_conns : ConnPool
two_conns = record {
  capacity = 2;
  conns =
      record { addr = 1 ∷ []; last_access = 5; conn = 51 }
      ∷ record { addr = 2 ∷ []; last_access = 4; conn = 52 }
      ∷ [];
}

add_conn-bounded_example :
    (length (add_conn two_conns (3 ∷ []) 53 8 9).0.conns ≤ 2)
    × (lookup (3 ∷ []) (add_conn two_conns (3 ∷ []) 53 8 9).0.conns
        ≡ some (record { addr = 3 ∷ []; last_access = 9; conn = 53 }))
add_conn-bounded_example =
    add_conn-bounded two_conns (3 ∷ []) 53 8 9 (omega arith) (omega arith) (ground arith)

add_conn-drops_open_example :
    ((add_conn two_conns (3 ∷ []) 53 8 9).1 ≡ [])
    × (length (add_conn two_conns (3 ∷ []) 53 8 9).0.conns ≡ 2)
    × (lookup (1 ∷ []) (add_conn two_conns (3 ∷ []) 53 8 9).0.conns
        ≡ lookup (1 ∷ []) two_conns.conns)
unfolding lookup oldest_addr bytes_eq
add_conn-drops_open_example =
    add_conn-drops_open two_conns (3 ∷ []) (1 ∷ []) 53 8 9 (λ e. ground (arith, e)) (omega arith)
      (ground arith) refl (λ e. ground (arith, e)) (λ e. ground (arith, e))

-- At 700 seconds the first connection is idle, and the second, of 200 seconds, is not.
abbrev idle_pool : ConnPool
idle_pool = record {
  capacity = 2;
  conns =
      record { addr = 1 ∷ []; last_access = 5; conn = 51 }
      ∷ record { addr = 2 ∷ []; last_access = 200 * 1_000_000_000; conn = 52 }
      ∷ [];
}

abbrev at_700 : ℕ → ℕ
at_700 k = 700 * 1_000_000_000

evict_idle-IsActive_example :
    Evicts
      (at_700 0)
      (at_700 0)
      (evict_idle idle_pool at_700).0.conns
      idle_pool.conns
      (evict_idle idle_pool at_700).1
evict_idle-IsActive_example =
    evict_idle-IsActive at_700 (at_700 0) (at_700 0) (λ k. omega arith) (λ k. omega arith) idle_pool

test_evicted : (evict_idle idle_pool at_700).1 ≡ 51 ∷ []
unfolding evict_idle
test_evicted = refl
