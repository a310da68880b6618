-- ===== src/Kademlia/Client/Pooled.antt =====
-- What a call leaves in the pool, by its result.
use supernode.Base.{
  ℕ, ◌≡◌, ◌⊎◌, refl, sym, subst, Bool, Option, none, some, List, [], ◌∷◌, ◌++◌, Bytes, inl, inr,
  Bool-cases, Option-cases,
}
use supernode.Kademlia.Node.{Node}
use supernode.Kademlia.Messages.{Message}
use supernode.Kademlia.ConnPool.{ConnPool, lookup, get_conn, del_conn}
use supernode.Kademlia.ConnPool.Bounds.{IsDistinct}
use supernode.Kademlia.ConnPool.Distinct.{
  Holds, add_conn-Holds, get_conn-none, get_conn-Holds, del_conn-none,
}
use supernode.Kademlia.Wire.{Gob, encode, decode}
use supernode.Kademlia.Client.{
  Sockets, not_established, no_deadline, not_encoded, not_written, not_read, CallResult, failed,
  answered, Called, settle, install, dial, connect, exchange, finish, call, remote_addr,
  get_exec_timeout, has_bad_port,
}

module _ (sockets : Sockets) (gob : Gob) (pool : ConnPool) (addr : Bytes)
    (now search later : ℕ) where
  abbrev connected : (ConnPool × Option ℕ) × List ℕ
  connected = connect sockets gob pool addr now search later

  -- The connection that the call used is still in the pool.
  abbrev pub Kept : Called → Type 0
  Kept r = (conn : ℕ) × (connected.0.1 ≡ some conn) × Holds r.pool addr conn

  -- The connection that the call used is closed, and the pool has none at the address.
  abbrev Dropped : Called → Type 0
  Dropped r =
      (conn : ℕ) × (connected.0.1 ≡ some conn)
      × (r.closed ≡ connected.1 ++ conn ∷ [])
      × (lookup addr r.pool.conns ≡ none)

  abbrev Fate : CallResult → Called → Type 0
  Fate (answered response) r = Kept r
  Fate (failed no_deadline) r = Kept r
  Fate (failed not_written) r = Kept r
  Fate (failed not_encoded) r = Dropped r
  Fate (failed not_read) r = Dropped r
  Fate (failed not_established) r = (connected.0.1 ≡ none) × (lookup addr r.pool.conns ≡ none)
  Fate (failed _) r = (r.pool ≡ pool) × (r.closed ≡ [])

  pub record IsSettled (r : Called) : Type 0 where
    distinct : IsDistinct r.pool.conns
    fate : Fate r.result r

  -- What `connect` gives: no connection, or one that the pool holds.
  abbrev Connects : (ConnPool × Option ℕ) × List ℕ → Type 0
  Connects c =
      IsDistinct c.0.0.conns
      × (((c.0.1 ≡ none) × (lookup addr c.0.0.conns ≡ none))
          ⊎ ((conn : ℕ) × (c.0.1 ≡ some conn) × Holds c.0.0 addr conn))

  install-Connects :
      (made : Option ℕ)
      → IsDistinct pool.conns
      → lookup addr pool.conns ≡ none
      → Connects (install sockets gob pool addr made search later)
  install-Connects none h none_there = (h, inl (refl, none_there))
  install-Connects (some conn) h none_there =
      let (d, holds) = add_conn-Holds pool addr conn search later h in (d, inr (conn, refl, holds))

  connect-Connects : IsDistinct pool.conns → Connects connected
  unfolding connect
  connect-Connects h = elim (Option-cases (lookup addr pool.conns)) [
    | inl none_there ↦
        subst (λ x. Connects (dial sockets gob x addr search later))
          (sym (get_conn-none pool addr now none_there))
          (install-Connects (sockets.establish addr) h none_there)
    | inr (old, there) ↦
        let (d, e, holds) = get_conn-Holds pool addr now old h there in
        subst
          (λ found.
            Connects (dial sockets gob ((get_conn pool addr now).0, found) addr search later))
          (sym e) (d, inr (old.conn, refl, holds))
  ]

  module _ (conn : ℕ) (e : connected.0.1 ≡ some conn) (d : IsDistinct connected.0.0.conns)
      (holds : Holds connected.0.0 addr conn) where
    abbrev Settles : CallResult × Bool → Type 0
    Settles x = IsSettled (settle sockets gob connected.0.0 addr connected.1 conn x)

    gone :
        IsDistinct (del_conn connected.0.0 addr).conns
        × (lookup addr (del_conn connected.0.0 addr).conns ≡ none)
    gone = del_conn-none connected.0.0 addr d

    exchange-Settles :
        (timeout : ℕ) (request : Message) → Settles (exchange sockets gob conn timeout request)
    unfolding exchange
    exchange-Settles timeout request = elim (Bool-cases (sockets.set_deadline conn timeout)) [
      | inr late ↦ rw (late, exchange) (record { distinct = d; fate = (conn, e, holds) })
      | inl set_up ↦ elim (Option-cases (encode gob request)) [
        | inl bad ↦
            rw (set_up, exchange)
              (rw bad (record { distinct = gone.0; fate = (conn, e, refl, gone.1) }))
        | inr (bytes, encoded) ↦ elim (Bool-cases (sockets.write conn bytes)) [
          | inr broken ↦
              rw (set_up, exchange)
                (rw encoded
                  (rw (broken, exchange) (record { distinct = d; fate = (conn, e, holds) })))
          | inl written ↦ elim (Option-cases (decode gob (sockets.incoming conn))) [
            | inl bad ↦
                rw (set_up, exchange)
                  (rw encoded (
                    rw (written, exchange)
                      (rw bad (record { distinct = gone.0; fate = (conn, e, refl, gone.1) }))))
            | inr (response, decoded) ↦
                rw (set_up, exchange)
                  (rw encoded (
                    rw (written, exchange)
                      (rw decoded (record { distinct = d; fate = (conn, e, holds) }))))
          ]
        ]
      ]
    ]

  finish-IsSettled :
      (request : Message) (is_long : Bool)
      → IsDistinct pool.conns
      → IsSettled (finish sockets gob connected.0.0 addr connected.1 connected.0.1 request is_long)
  unfolding finish
  finish-IsSettled request is_long h =
      let (d, found) = connect-Connects h in
      elim found [
        | inl (e, lacks) ↦ rw e (record { distinct = d; fate = (e, lacks) })
        | inr (conn, e, holds) ↦ rw e (
            exchange-Settles conn e d holds (get_exec_timeout request.message_type is_long) request)
      ]

module _ (sockets : Sockets) (gob : Gob) where
  -- The address that a call uses, if it has a receiver.
  abbrev addr_of : Option Node → Bytes
  addr_of none = []
  addr_of (some n) = remote_addr n

  -- On a pool with distinct addresses `Call` keeps them distinct. A call that is answered leaves its
  -- connection in the pool. A call that fails to encode the request or to read the response closes
  -- the connection and takes it out of the pool. A call that fails to set the deadline or to write
  -- leaves the connection in the pool, and a call that gets no connection leaves none; with a
  -- refused port or no credentials nothing changes. The call panics only where the request has no
  -- receiver.
  pub call-IsSettled :
      (pool : ConnPool) (has_tc : Bool) (request : Message) (is_long : Bool) (now search later : ℕ)
      → IsDistinct pool.conns
      → ((r : Called) × (call sockets gob pool has_tc request is_long now search later ≡ some r)
          × IsSettled sockets gob pool (addr_of request.receiver) now search later r)
        ⊎ ((call sockets gob pool has_tc request is_long now search later ≡ none)
            × (request.receiver ≡ none))
  unfolding call
  call-IsSettled pool has_tc request is_long now search later h =
      elim (Bool-cases (has_bad_port request.receiver)) [
        | inl bad ↦ rw (bad, call) (inl (_, refl, record { distinct = h; fate = (refl, refl) }))
        | inr fine ↦ elim (Bool-cases (has_bad_port request.sender)) [
          | inl bad ↦
              rw (fine, call) (rw bad (inl (_, refl, record { distinct = h; fate = (refl, refl) })))
          | inr fine' ↦ elim (Option-cases request.receiver) [
            | inl lacks ↦ rw (fine, call) (rw fine' (rw lacks (inr (refl, refl))))
            | inr (receiver, has) ↦ elim (Bool-cases has_tc) [
              | inr without ↦
                  rw (fine, call)
                    (rw fine' (
                      rw has
                        (rw without (inl (_, refl, record { distinct = h; fate = (refl, refl) })))))
              | inl with' ↦
                  rw (fine, call)
                    (rw fine' (
                      rw has (
                        rw with' (
                          inl (
                            _,
                            refl,
                            finish-IsSettled sockets gob pool (remote_addr receiver) now search
                                later request is_long h,
                          )))))
            ]
          ]
        ]
      ]
