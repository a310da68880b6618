-- ===== src/Kademlia/Node/Sorting.antt =====
-- What `sort.Sort` gives: the elements it got, in the order of their keys. Equal keys may come out
-- in any order. `insertion_sorter` is one such function.
use mathlib.Core.List.Perm
use mathlib.Core.List.{Perm}
use supernode.Base.{
  ℕ, ◌≤◌, true, false, List, [], ◌∷◌, ltb, All, All-map, arith, Bool-cases, inl, inr,
}

abbrev pub IsSortedBy {ℓ} : {A : Type ℓ} → (A → ℕ) → List A → Type 0
IsSortedBy key [] = Unit
IsSortedBy key (x ∷ xs) = All (λ y. key x ≤ key y) xs × IsSortedBy key xs

pub record Sorter : Type 1 where
  pub sort_by : {A : Type 0} → (A → ℕ) → List A → List A
  pub sort_by-perm : {A : Type 0} (key : A → ℕ) (xs : List A) → Perm (sort_by key xs) xs
  pub sort_by-IsSortedBy :
      {A : Type 0} (key : A → ℕ) (xs : List A) → IsSortedBy key (sort_by key xs)

module _ {A : Type 0} (key : A → ℕ) where
  unfoldable pub insert : A → List A → List A
  insert a [] = a ∷ []
  insert a (x ∷ xs) = elim (ltb (key x) (key a)) [ true ↦ x ∷ insert a xs | false ↦ a ∷ x ∷ xs ]

  unfoldable pub insertion_sort : List A → List A
  unfolding insert
  insertion_sort [] = []
  insertion_sort (x ∷ xs) = insert x (insertion_sort xs)

  insert-perm : (a : A) (xs : List A) → Perm (insert a xs) (a ∷ xs)
  unfolding insert
  insert-perm a [] = Perm.refl _
  insert-perm a (x ∷ xs) = elim (Bool-cases (ltb (key x) (key a))) [
    | inl lt ↦ rw (lt, insert) (Perm.trans (Perm.cons x (insert-perm a xs)) (Perm.swap a x xs))
    | inr ge ↦ rw (ge, insert) (Perm.refl _)
  ]

  pub sort-perm : (xs : List A) → Perm (insertion_sort xs) xs
  unfolding insertion_sort
  sort-perm [] = Perm.refl _
  sort-perm (x ∷ xs) = Perm.trans (insert-perm x (insertion_sort xs)) (Perm.cons x (sort-perm xs))

  insert-All :
      (n : ℕ) (a : A) (xs : List A)
      → n ≤ key a
      → All (λ y. n ≤ key y) xs
      → All (λ y. n ≤ key y) (insert a xs)
  unfolding insert
  insert-All n a [] h k = (h, tt)
  insert-All n a (x ∷ xs) h k = ground (arith, insert-All n a xs)

  insert-sorted : (a : A) (xs : List A) → IsSortedBy key xs → IsSortedBy key (insert a xs)
  unfolding insert
  insert-sorted a [] s = (tt, tt)
  insert-sorted a (x ∷ xs) s = elim (Bool-cases (ltb (key x) (key a))) [
    | inl lt ↦ rw (lt, insert) (insert-All (key x) a xs (ground arith) s.0, insert-sorted a xs s.1)
    | inr ge ↦
        rw (ge, insert)
          ((ground arith, All-map (λ y. key x ≤ key y) (λ y h. ground arith) xs s.0), s)
  ]

  pub sort-sorted : (xs : List A) → IsSortedBy key (insertion_sort xs)
  unfolding insertion_sort
  sort-sorted [] = tt
  sort-sorted (x ∷ xs) = insert-sorted x (insertion_sort xs) (sort-sorted xs)

abbrev pub insertion_sorter : Sorter
insertion_sorter = record {
  sort_by = insertion_sort;
  sort_by-perm = sort-perm;
  sort_by-IsSortedBy = sort-sorted;
}
