-- ===== src/Kademlia/ConnPool/Idle.antt =====
-- What a tick of the eviction does.
use supernode.Base.{
  ℕ, ◌+◌, ◌≤◌, ◌<◌, ◌≡◌, refl, ap, List, [], ◌∷◌, map, All, arith, Bool-cases, inl, inr,
}
use supernode.Kademlia.ConnPool.{
  ConnectionItem, ConnPool, is_idle, evict_from, evict_idle, default_conn_deadline,
}

-- An entry whose last access is not older than the deadline at `now`.
abbrev IsActive : ℕ → ConnectionItem → Type 0
IsActive now c = now ≤ c.last_access + default_conn_deadline

abbrev IsIdle : ℕ → ConnectionItem → Type 0
IsIdle now c = c.last_access + default_conn_deadline < now

-- The entries are the deleted ones and the ones that stay, each in their order.
pub data Parts : List ConnectionItem → List ConnectionItem → List ConnectionItem → Type 0 where
  ended : Parts [] [] []
  deletes :
      (c : ConnectionItem) (deleted kept cs : List ConnectionItem)
      → Parts deleted kept cs
      → Parts (c ∷ deleted) kept (c ∷ cs)
  keeps :
      (c : ConnectionItem) (deleted kept cs : List ConnectionItem)
      → Parts deleted kept cs
      → Parts deleted (c ∷ kept) (c ∷ cs)

-- A tick from `start` to `stop` leaves `kept` of the entries and closes `closed`.
pub record Evicts (start stop : ℕ) (kept cs : List ConnectionItem) (closed : List ℕ) : Type 0 where
  deleted : List ConnectionItem
  parts : Parts deleted kept cs
  closes : closed ≡ map (λ (c : ConnectionItem). c.conn) deleted
  idle : All (IsIdle stop) deleted
  active : All (IsActive start) kept

module _ (clock : ℕ → ℕ) (start stop : ℕ) (after : (k : ℕ) → start ≤ clock k)
    (before : (k : ℕ) → clock k ≤ stop) where
  evict_from-Evicts :
      (k : ℕ) (cs : List ConnectionItem)
      → Evicts start stop (evict_from clock k cs).0 cs (evict_from clock k cs).1
  unfolding evict_from is_idle
  evict_from-Evicts k [] = record {
    deleted = [];
    parts = Parts.ended;
    closes = refl;
    idle = tt;
    active = tt;
  }
  evict_from-Evicts k (c ∷ cs) =
      let rest = evict_from-Evicts (k + 1) cs in
      elim (Bool-cases (is_idle (clock k) c)) [
        | inl old ↦
            rw (old, evict_from)
              (record {
                deleted = c ∷ rest.deleted;
                parts = Parts.deletes c _ _ _ rest.parts;
                closes = ap (λ closed. c.conn ∷ closed) rest.closes;
                idle = (ground (arith, old, before k), rest.idle);
                active = rest.active;
              })
        | inr used ↦
            rw (used, evict_from)
              (record {
                deleted = rest.deleted;
                parts = Parts.keeps c _ _ _ rest.parts;
                closes = rest.closes;
                idle = rest.idle;
                active = (ground (arith, used, after k), rest.active);
              })
      ]

  -- A tick that runs from `start` to `stop` splits the entries in those that it deletes and those
  -- that stay, and closes the connections of the deleted ones, and no other. Each deleted entry is
  -- idle at `stop`, and none that stays was idle at `start`.
  pub evict_idle-IsActive :
      (pool : ConnPool)
      → Evicts start stop (evict_idle pool clock).0.conns pool.conns (evict_idle pool clock).1
  unfolding evict_idle
  evict_idle-IsActive pool = evict_from-Evicts 0 pool.conns
