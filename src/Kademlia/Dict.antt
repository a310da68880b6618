-- ===== src/Kademlia/Dict.antt =====
-- Go's maps from strings, as lists of keys and values: what the code does with them, and the keys
-- that are there afterwards.
use supernode.Base.{
  ◌≡◌, refl, Option, none, some, List, [], ◌∷◌, Bytes, bytes_eq, bytes_eq_iff, if◌then◌else◌, arith,
  Bool-cases, inl, inr,
}

module _ {V : Type 0} where
  -- `m[key] = v`.
  unfoldable pub assign_key : Bytes → V → List (Bytes × V) → List (Bytes × V)
  assign_key key v [] = (key, v) ∷ []
  assign_key key v (entry ∷ rest) =
      if bytes_eq entry.0 key then (key, v) ∷ rest else entry ∷ assign_key key v rest

  -- `m[key]`, with the second result.
  unfoldable pub lookup_key : Bytes → List (Bytes × V) → Option V
  lookup_key key [] = none
  lookup_key key (entry ∷ rest) = if bytes_eq entry.0 key then some entry.1 else lookup_key key rest

  -- `delete(m, key)`.
  unfoldable pub delete_key : Bytes → List (Bytes × V) → List (Bytes × V)
  delete_key key [] = []
  delete_key key (entry ∷ rest) = if bytes_eq entry.0 key then rest else entry ∷ delete_key key rest

  -- The keys of a map are distinct.
  abbrev pub IsMap : List (Bytes × V) → Type 0
  IsMap [] = Unit
  IsMap (entry ∷ rest) = (lookup_key entry.0 rest ≡ none) × IsMap rest

  pub lookup_key-assign_key :
      (key other : Bytes) (v : V) (m : List (Bytes × V))
      → lookup_key other (assign_key key v m)
        ≡ (if bytes_eq key other then some v else lookup_key other m)
  unfolding lookup_key assign_key
  lookup_key-assign_key key other v [] = refl
  lookup_key-assign_key key other v (entry ∷ rest) = ground (
    arith,
    lookup_key-assign_key key other v rest,
    bytes_eq_iff key other,
    bytes_eq_iff entry.0 other,
    bytes_eq_iff entry.0 key,
  )

  pub assign_key-IsMap :
      (key : Bytes) (v : V) (m : List (Bytes × V)) → IsMap m → IsMap (assign_key key v m)
  unfolding assign_key lookup_key
  assign_key-IsMap key v [] h = (refl, tt)
  assign_key-IsMap key v (entry ∷ rest) h = elim (Bool-cases (bytes_eq entry.0 key)) [
    | inl same ↦
        let e : entry.0 ≡ key = (bytes_eq_iff entry.0 key).0 same in
        rw (same, assign_key) (rw (← e) h.0, h.1)
    | inr other ↦
        rw (other, assign_key)
          (
            ground (
              arith,
              lookup_key-assign_key key entry.0 v rest,
              bytes_eq_iff entry.0 key,
              bytes_eq_iff key entry.0,
              h.0,
            ),
            assign_key-IsMap key v rest h.1,
          )
  ]

  pub lookup_key-delete_key :
      (key other : Bytes) (m : List (Bytes × V))
      → IsMap m
      → lookup_key other (delete_key key m)
        ≡ (if bytes_eq key other then none else lookup_key other m)
  unfolding lookup_key delete_key
  lookup_key-delete_key key other [] h = ground arith
  lookup_key-delete_key key other (entry ∷ rest) h = ground (
    arith,
    lookup_key-delete_key key other rest h.1,
    bytes_eq_iff key other,
    bytes_eq_iff entry.0 other,
    bytes_eq_iff entry.0 key,
    h.0,
  )

  pub delete_key-IsMap : (key : Bytes) (m : List (Bytes × V)) → IsMap m → IsMap (delete_key key m)
  unfolding delete_key
  delete_key-IsMap key [] h = tt
  delete_key-IsMap key (entry ∷ rest) h = elim (Bool-cases (bytes_eq entry.0 key)) [
    | inl same ↦ rw (same, delete_key) h.1
    | inr other ↦
        rw (other, delete_key)
          (
            ground (arith, lookup_key-delete_key key entry.0 rest h.1, h.0),
            delete_key-IsMap key rest h.1,
          )
  ]
