-- ===== src/Kademlia/Redundant/Deleting.antt =====
-- What the deletion of redundant keys deletes.
use supernode.Base.{
  ℕ, zero, suc, ◌+◌, ◌≤◌, ◌<◌, ◌≡◌, ◌≢◌, ◌⊎◌, refl, ap, ◌∙◌, subst, true, false, Bool, Option, none,
  some, List, [], ◌∷◌, ◌++◌, append_assoc, map, Bytes, length, take, drop, take-append-drop,
  length-take, ◌-◌, Bool-cases, All, arith, inl, inr,
}
use supernode.Kademlia.Redundant.{DelKey, batch_size, batch_end, next_batch, delete_batches}

abbrev keys_of : List DelKey → List Bytes
keys_of keys = map (λ (k : DelKey). k.key) keys

abbrev concat : List (List Bytes) → List Bytes
concat [] = []
concat (b ∷ bs) = b ++ concat bs

length-keys_of : (keys : List DelKey) → length (keys_of keys) ≡ length keys
length-keys_of [] = refl
length-keys_of (k ∷ keys) = omega (arith, length-keys_of keys)

keys_of-append : (xs ys : List DelKey) → keys_of xs ++ keys_of ys ≡ keys_of (xs ++ ys)
keys_of-append [] ys = refl
keys_of-append (x ∷ xs) ys = ap (◌∷◌ x.key) (keys_of-append xs ys)

batch-size :
    (keys : List DelKey)
    → 0 < length keys
    → (0 < length (next_batch keys)) × (length (next_batch keys) ≤ batch_size)
batch-size keys pos =
    let n = length-keys_of (take (batch_end keys) keys) in
    let m = length-take (batch_end keys) keys in ground (arith, n, m, pos)

batch-split :
    (keys : List DelKey) → next_batch keys ++ keys_of (drop (batch_end keys) keys) ≡ keys_of keys
batch-split keys =
    keys_of-append (take (batch_end keys) keys) (drop (batch_end keys) keys)
    ∙ ap keys_of (take-append-drop (batch_end keys) keys)

length-drop : (n : ℕ) (keys : List DelKey) → length (drop n keys) ≡ length keys - n
length-drop zero keys = omega arith
length-drop (suc n) [] = omega arith
length-drop (suc n) (k ∷ keys) = omega (arith, length-drop n keys)

module _ {S : Type 0} (disk : ℕ → Option Bool) (batch_delete : S → List Bytes → S × Bool) where
  abbrev run_batches : S → List (List Bytes) → S
  run_batches s [] = s
  run_batches s (b ∷ bs) = run_batches (batch_delete s b).0 bs

  -- The disk is low before each batch, from round `k` on, and the store deletes it.
  abbrev AreDeleted : ℕ → S → List (List Bytes) → Type 0
  AreDeleted k s [] = Unit
  AreDeleted k s (b ∷ bs) =
      (disk k ≡ some true)
      × (((batch_delete s b).1 ≡ true) × AreDeleted (suc k) (batch_delete s b).0 bs)

  -- Why the loop stops in round `k`: no key is left, the disk is not known to be low, or the store
  -- fails.
  abbrev Stops : ℕ → S → List DelKey → S → Type 0
  Stops k s rest s' =
      ((s' ≡ s) × ((rest ≡ []) ⊎ (disk k ≢ some true)))
      ⊎ ((disk k ≡ some true) × (batch_delete s (next_batch rest) ≡ (s', false)))

  pub record Deleted (k : ℕ) (s : S) (keys : List DelKey) (s' : S) (rest : List DelKey)
      : Type 0 where
    batches : List (List Bytes)
    deleted : AreDeleted k s batches
    sizes : All (λ b. (0 < length b) × (length b ≤ batch_size)) batches
    split : concat batches ++ keys_of rest ≡ keys_of keys
    stops : Stops (k + length batches) (run_batches s batches) rest s'

  stopped :
      (k : ℕ) (s : S) (keys : List DelKey) (s' : S) → Stops k s keys s' → Deleted k s keys s' keys
  stopped k s keys s' h = record {
    batches = [];
    deleted = tt;
    sizes = tt;
    split = refl;
    stops = subst (λ n. Stops n s keys s') (omega arith) h;
  }

  module _ (k : ℕ) (s : S) (key : DelKey) (keys : List DelKey) (low : disk k ≡ some true) where
    abbrev left : List DelKey
    left = drop (batch_end (key ∷ keys)) (key ∷ keys)

    abbrev batch : List Bytes
    batch = next_batch (key ∷ keys)

    extended :
        (s' : S) (rest : List DelKey)
        → (batch_delete s batch).1 ≡ true
        → Deleted (suc k) (batch_delete s batch).0 left s' rest
        → Deleted k s (key ∷ keys) s' rest
    extended s' rest ok after = record {
      batches = batch ∷ after.batches;
      deleted = (low, (ok, after.deleted));
      sizes = (batch-size (key ∷ keys) (omega arith), after.sizes);
      split =
          append_assoc batch (concat after.batches) (keys_of rest)
          ∙ ap (λ x. batch ++ x) after.split
          ∙ batch-split (key ∷ keys);
      stops =
          subst (λ n. Stops n (run_batches (batch_delete s batch).0 after.batches) rest s')
            (omega arith) after.stops;
    }

  abbrev Ends : ℕ → ℕ → S → List DelKey → Type 0
  Ends fuel k s keys =
      (s' : S) × (rest : List DelKey) × (delete_batches disk batch_delete fuel k s keys
        ≡ some (s', rest))
      × Deleted k s keys s' rest

  -- A round, where the next one comes to an end.
  round-Ends :
      (fuel k : ℕ) (s : S) (key : DelKey) (keys : List DelKey) (low : Option Bool)
      → disk k ≡ low
      → length (key ∷ keys) ≤ suc fuel
      → ((s1 : S) (keys1 : List DelKey) → length keys1 ≤ fuel → Ends fuel (suc k) s1 keys1)
      → Ends (suc fuel) k s (key ∷ keys)
  unfolding delete_batches
  round-Ends fuel k s key keys none e le next = (
    s,
    key ∷ keys,
    rw (e, delete_batches) refl,
    stopped k s (key ∷ keys) s (inl (refl, inr (λ h. cc))),
  )
  round-Ends fuel k s key keys (some false) e le next = (
    s,
    key ∷ keys,
    rw (e, delete_batches) refl,
    stopped k s (key ∷ keys) s (inl (refl, inr (λ h. ground arith))),
  )
  round-Ends fuel k s key keys (some true) e le next =
      let gone = batch_delete s (next_batch (key ∷ keys)) in
      let shorter : length (left k s key keys e) ≤ fuel =
        ground (arith, le, length-drop (batch_end (key ∷ keys)) (key ∷ keys)) in
      elim (Bool-cases gone.1) [
        | inr bad ↦ (
          gone.0,
          key ∷ keys,
          rw (e, delete_batches) (rw (bad, delete_batches) refl),
          stopped k s (key ∷ keys) gone.0 (inr (e, ap (λ b. (gone.0, b)) bad)),
        )
        | inl ok ↦
            let (s', rest, same, after) = next gone.0 (left k s key keys e) shorter in
            (
              s',
              rest,
              rw (e, delete_batches) (rw (ok, delete_batches) same),
              extended k s key keys e s' rest ok after,
            )
      ]

  -- With as much fuel as there are keys the loop ends. It has deleted the first keys, in batches of
  -- at most 100 and each at a time when the disk was low, until no key was left, the disk was not
  -- known to be low, or the store failed.
  pub delete_batches-Deleted :
      (fuel k : ℕ) (s : S) (keys : List DelKey)
      → length keys ≤ fuel
      → (s' : S) × (rest : List DelKey) × (delete_batches disk batch_delete fuel k s keys
          ≡ some (s', rest))
        × Deleted k s keys s' rest
  unfolding delete_batches
  delete_batches-Deleted fuel k s [] le = (s, [], refl, stopped k s [] s (inl (refl, inl refl)))
  delete_batches-Deleted zero k s (key ∷ keys) le = absurd (omega arith)
  delete_batches-Deleted (suc fuel) k s (key ∷ keys) le =
      round-Ends fuel k s key keys (disk k) refl le
        (λ s1 keys1 le1. delete_batches-Deleted fuel (suc k) s1 keys1 le1)
