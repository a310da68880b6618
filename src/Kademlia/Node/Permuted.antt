-- ===== src/Kademlia/Node/Permuted.antt =====
-- A rearrangement of a node list has the same ids, distinct if they were.
use mathlib.Core.List.{Perm, Permᴰ}
use mathlib.Core.Logic.{∥∥₁_elim}
use mathlib.Core.HLevel.{×_prop}
use mathlib.Core.Bool.{Bool-set}
use supernode.Base.{◌≡◌, refl, ◌∙◌, List, [], ◌∷◌, Bytes, bytes_eq_iff, arith, sym}
use supernode.Kademlia.Node.{Node, has_id}
use supernode.Kademlia.Node.Unique.{IsUnique}

has_id-permᴰ : (id : Bytes) {xs ys : List Node} → Permᴰ xs ys → has_id xs id ≡ has_id ys id
unfolding has_id
has_id-permᴰ id Permᴰ.nil = refl
has_id-permᴰ id (Permᴰ.cons {a = a} {b = b} e p) = ground (arith, has_id-permᴰ id p)
has_id-permᴰ id (Permᴰ.swap {a = a} {b = b} e f) = ground arith
has_id-permᴰ id (Permᴰ.trans p q) = has_id-permᴰ id p ∙ has_id-permᴰ id q

pub has_id-perm : (id : Bytes) {xs ys : List Node} → Perm xs ys → has_id xs id ≡ has_id ys id
has_id-perm id {xs} {ys} p = ∥∥₁_elim p (Bool-set _ _) (has_id-permᴰ id)

IsUnique-prop : (xs : List Node) → IsProp (IsUnique xs)
IsUnique-prop [] = hlevel
IsUnique-prop (x ∷ xs) = ×_prop (Bool-set _ _) (IsUnique-prop xs)

IsUnique-permᴰ : {xs ys : List Node} → Permᴰ xs ys → IsUnique xs → IsUnique ys
unfolding has_id
IsUnique-permᴰ Permᴰ.nil u = tt
IsUnique-permᴰ (Permᴰ.cons {a = a} {b = b} {l₂ = ys} e p) u =
    ((rw (← e) (sym (has_id-permᴰ a.id p) ∙ u.0)), IsUnique-permᴰ p u.1)
IsUnique-permᴰ (Permᴰ.swap {a = a} {b = b} e f) u =
    ground (arith, bytes_eq_iff a.id b.id, bytes_eq_iff b.id a.id)
IsUnique-permᴰ (Permᴰ.trans p q) u = IsUnique-permᴰ q (IsUnique-permᴰ p u)

pub IsUnique-perm : {xs ys : List Node} → Perm xs ys → IsUnique xs → IsUnique ys
IsUnique-perm {xs} {ys} p u = ∥∥₁_elim p (IsUnique-prop ys) (λ d. IsUnique-permᴰ d u)
