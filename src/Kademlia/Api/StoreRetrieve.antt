-- ===== src/Kademlia/Api/StoreRetrieve.antt =====
-- What `Store` and `LocalStore` stored, `Retrieve` finds.
use supernode.Base.{
  ℕ, zero, suc, ◌<◌, ◌≡◌, refl, ap, ◌∙◌, subst, true, false, Bool, Option, none, some, ◌++◌, Bytes,
  bytes_of, length, ltb, arith, ◌⊎◌, inl, inr,
}
use supernode.Kademlia.BucketIndex.Distance.{IsDigest}
use supernode.Kademlia.HashTable.{◌>>=◌, hex_encode}
use supernode.Kademlia.Dht.{Dht}
use supernode.Kademlia.Lookup.{iterate_store}
use supernode.Kademlia.BucketIndex.{bits_b}
use supernode.Kademlia.Dht.Table.{IsRoutable}
use supernode.Kademlia.Lookup.AlphaStore.{blocked, enough, too_few}
use supernode.Kademlia.Lookup.Total.{HasHashableSenders}
use supernode.Kademlia.Lookup.Iterating.{iterate-Ends}
use supernode.Kademlia.Lookup.Iterate.{
  Signal, Outcome, no_result, cancelled_error, value_found, store_ended, iterate,
}
use supernode.Kademlia.Lookup.Keeping.{Keeps, iterate_store-Keeps}
use supernode.Kademlia.Store.{Fallible, failed, done}
use supernode.Kademlia.Server.{Server}
use supernode.Kademlia.Server.ReadBack.{ReadsBack}
use supernode.Kademlia.Api.{
  Base58, returned, retry_store, store, stored_key, is_valid, is_disabled, retrieve,
}

module _ {S : Type 0} (server : Server S) (base58 : Base58) where
  retrieve-held :
      (disabled : Option (Bytes → Bool)) (d : Dht S) (key value : Bytes) (local_only : Bool)
      (now : ℕ) (signal : ℕ → Signal)
      → length (base58.decode key) ≡ 32
      → is_disabled server base58 disabled (hex_encode (base58.decode key)) ≡ false
      → server.data_store.retrieve d.store (base58.decode key) ≡ done value
      → 0 < length value
      → retrieve server base58 disabled d key local_only now signal ≡ some (d, done value)
  unfolding retrieve
  retrieve-held disabled d key value local_only now signal len off held pos =
      let full : is_valid server base58 (base58.decode key) ≡ true = ground (arith, len) in
      let long : ltb 0 (length value) ≡ true = ground (arith, pos) in
      rw (full, retrieve)
        (rw (off, retrieve)
          (rw (held, retrieve) (rw (long, retrieve) (ap (λ h. some (d, h)) held))))

  module _ (lawful : ReadsBack server) where
    -- A retry, where the tries that are left store the value.
    retried :
        (more : ℕ) (s s1 s' : S) (key value : Bytes) (typ : ℕ) (res : Fallible (Unit {0}))
        → server.data_store.store_value s key value typ true ≡ (s1, res)
        → elim res [
          | failed err ↦ retry_store server base58 more s1 key value typ
          | done u ↦ (s1, done u)
        ]
          ≡ (s', done tt)
        → (retry_store server base58 more s1 key value typ ≡ (s', done tt)
            → server.data_store.retrieve s' key ≡ done value)
        → server.data_store.retrieve s' key ≡ done value
    retried more s s1 s' key value typ (failed err) e last later = later last
    retried more s s1 s' key value typ (done u) e last later =
        lawful.stored_value s s' key value typ true (e ∙ last)

    retry_store-stored :
        (more : ℕ) (s s' : S) (key value : Bytes) (typ : ℕ)
        → retry_store server base58 more s key value typ ≡ (s', done tt)
        → server.data_store.retrieve s' key ≡ done value
    unfolding retry_store
    retry_store-stored zero s s' key value typ e = lawful.stored_value s s' key value typ true e
    retry_store-stored (suc more) s s' key value typ e =
        let (s1, res) = server.data_store.store_value s key value typ true in
        retried more s s1 s' key value typ res refl e (retry_store-stored more s1 s' key value typ)

    -- The search of the network keeps the value.
    iterate_store-held :
        (d d' : Dht S) (hash value : Bytes) (typ now : ℕ) (signal : ℕ → Signal) (outcome : Outcome)
        → server.data_store.retrieve d.store hash ≡ done value
        → iterate server.env iterate_store d hash value typ now signal ≡ some (d', outcome)
        → server.data_store.retrieve d'.store hash ≡ done value
    unfolding iterate
    iterate_store-held d d' hash value typ now signal outcome held e =
        subst
          (Keeps server.env (λ x. server.data_store.retrieve x hash)
            (λ x info. lawful.update_keeps x info hash) (λ x info. lawful.add_keeps x info hash)
            (done value))
          e
          (iterate_store-Keeps server.env (λ x. server.data_store.retrieve x hash)
            (λ x info. lawful.update_keeps x info hash) (λ x info. lawful.add_keeps x info hash)
            (done value) d hash value typ now signal held)

    module _ (digest : (x : Bytes) → IsDigest (server.env.blake3 x))
        (senders : HasHashableSenders server.env)
        (decode-encode : (x : Bytes) → base58.decode (base58.encode x) ≡ x) where
      -- The store of `value` in the network, after the local store.
      abbrev remote : Dht S → Bytes → ℕ → ℕ → (ℕ → Signal) → S → Option (Dht S × Outcome)
      remote d value typ now signal s =
          iterate server.env iterate_store (record d { store = s }) (server.env.blake3 value) value
            typ now signal

      -- Every later `Retrieve` of the value's key, unless it is disabled, gives the value from this
      -- node's store, whatever the network does.
      abbrev Retrieves : Dht S → Bytes → Type 0
      Retrieves d value =
          (disabled : Option (Bytes → Bool)) (local_only : Bool) (now : ℕ) (signal : ℕ → Signal)
          → is_disabled server base58 disabled (hex_encode (server.env.blake3 value)) ≡ false
          → retrieve server base58 disabled d (base58.encode (server.env.blake3 value)) local_only
              now signal
            ≡ some (d, done value)

      -- What becomes of the store in the network.
      abbrev Follows : Bytes → Outcome → Dht S → Option (Dht S × Fallible Bytes) → Type 0
      Follows value cancelled_error d res = (err : Bytes) × (res ≡ some (d, failed err))
      Follows value (store_ended blocked) d res = res ≡ none
      Follows value _ d res =
          (res ≡ some (d, done (base58.encode (server.env.blake3 value)))) × Retrieves d value

      abbrev pub Stores : ℕ → Dht S → Bytes → ℕ → ℕ → (ℕ → Signal) → Type 0
      Stores more d value typ now signal =
          ((s : S) × (err : Bytes) × (retry_store server base58 more d.store
                (server.env.blake3 value) value typ
              ≡ (s, failed err))
            × (store server base58 more d value typ now signal
                ≡ some (
                  record d { store = s },
                  failed (bytes_of "retry store data to queries storage: " ++ err),
                )))
          ⊎ ((s : S) × (d' : Dht S) × (outcome : Outcome) × (remote d value typ now signal s
                ≡ some (d', outcome))
              × IsRoutable server.env.blake3 d'.ht
              × Follows value outcome d' (store server base58 more d value typ now signal))

      held-Retrieves :
          (d : Dht S) (value : Bytes)
          → server.data_store.retrieve d.store (server.env.blake3 value) ≡ done value
          → 0 < length value
          → Retrieves d value
      held-Retrieves d value held pos disabled local_only now signal off =
          let there = decode-encode (server.env.blake3 value) in
          retrieve-held disabled d (base58.encode (server.env.blake3 value)) value local_only now
            signal (ap length there ∙ (digest value).1)
            (ap (λ x. is_disabled server base58 disabled (hex_encode x)) there ∙ off)
            (ap (λ x. server.data_store.retrieve d.store x) there ∙ held) pos

      returned-Follows :
          (value : Bytes) (d : Dht S) (outcome : Outcome)
          → Retrieves d value
          → Follows value outcome d (
              returned outcome >>= λ result.
              some (d, stored_key server base58 (server.env.blake3 value) result))
      returned-Follows value d no_result h = (refl, h)
      returned-Follows value d cancelled_error h = (_, refl)
      returned-Follows value d (value_found v) h = (refl, h)
      returned-Follows value d (store_ended blocked) h = refl
      returned-Follows value d (store_ended enough) h = (refl, h)
      returned-Follows value d (store_ended (too_few n)) h = (refl, h)

      -- On a table that keeps the invariant, with 256 refresh times, digests of 32 bytes and where
      -- every response carries a sender without a foreign hash, and where the store reads back what it stored and base58 decodes what
      -- it encodes: `Store` of a value that is not empty gives an error if every try of the local
      -- store fails. Otherwise the search of the network ends on a table that keeps the invariant.
      -- `Store` gives an error if the search was cancelled, and never returns if it blocks at the
      -- nearest nodes. In every other case it returns the value's hash in base58, also where no node
      -- took the value, and then `Retrieve` of that key, unless disabled, gives the value.
      pub store-Stores :
          (more : ℕ) (d : Dht S) (value : Bytes) (typ now : ℕ) (signal : ℕ → Signal)
          → IsRoutable server.env.blake3 d.ht
          → length d.ht.refreshers ≡ bits_b
          → 0 < length value
          → Stores more d value typ now signal
      unfolding store
      store-Stores more d value typ now signal r full pos =
          let (s, res) =
            retry_store server base58 more d.store (server.env.blake3 value) value typ in
          tried s res refl
        where
          tried :
              (s : S) (res : Fallible (Unit {0}))
              → retry_store server base58 more d.store (server.env.blake3 value) value typ
                ≡ (s, res)
              → Stores more d value typ now signal
          tried s (failed err) e = inl (s, err, e, rw (e, store) refl)
          tried s (done _) e =
              let (d', outcome, found, r') =
                iterate-Ends server.env digest senders iterate_store (record d { store = s })
                  (server.env.blake3 value) value typ now signal r full in
              let held : server.data_store.retrieve d'.store (server.env.blake3 value)
                  ≡ done value =
                iterate_store-held (record d { store = s }) d' (server.env.blake3 value) value typ
                  now signal outcome
                  (retry_store-stored more d.store s (server.env.blake3 value) value typ e) found in
              inr (
                s,
                d',
                outcome,
                found,
                r',
                rw (e, store)
                    (rw found
                      (returned-Follows value d' outcome (held-Retrieves d' value held pos))),
              )
