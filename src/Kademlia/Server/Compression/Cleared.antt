-- ===== src/Kademlia/Server/Compression/Cleared.antt =====
-- Maps whose values are cleared one after the other: what is left of them.
use mathlib.Core.List.{Perm, Permᴰ}
use mathlib.Core.Logic.{∥∥₁_elim}
use mathlib.Core.Bool.{Bool-set}
use supernode.Base.{
  suc, ◌≤◌, ◌≡◌, ◌⊎◌, refl, sym, ◌∙◌, true, false, ◌||◌, Bool, List, [], ◌∷◌, Bytes, bytes_eq,
  bytes_eq_iff, length, arith, Bool-cases, inl, inr,
}
use supernode.Kademlia.Server.Compression.{DataMap, non_nil, clear_key, clear_keys}

unfoldable pub has_entry : DataMap → Bytes → Bool
has_entry [] key = false
has_entry (e ∷ m) key = bytes_eq e.0 key || has_entry m key

abbrev pub HasDistinctKeys : DataMap → Type 0
HasDistinctKeys [] = Unit
HasDistinctKeys (e ∷ m) = (has_entry m e.0 ≡ false) × HasDistinctKeys m

-- The second map has the keys of the first, and each value of it or nil.
abbrev pub Cleared : DataMap → DataMap → Type 0
Cleared [] [] = Unit
Cleared [] (e' ∷ m') = ⊥
Cleared (e ∷ m) [] = ⊥
Cleared (e ∷ m) (e' ∷ m') = (e'.0 ≡ e.0) × ((e'.1 ≡ e.1) ⊎ (e'.1 ≡ [])) × Cleared m m'

has_entry-non_nil :
    (m : DataMap) (key : Bytes) → has_entry m key ≡ false → has_entry (non_nil m) key ≡ false
unfolding has_entry non_nil
has_entry-non_nil [] key h = refl
has_entry-non_nil (e ∷ m) key h = ground (arith, has_entry-non_nil m key)

pub clear_key-fewer :
    (m : DataMap) (key : Bytes)
    → HasDistinctKeys m
    → has_entry (non_nil m) key ≡ true
    → suc (length (non_nil (clear_key m key))) ≡ length (non_nil m)
unfolding has_entry non_nil clear_key
clear_key-fewer [] key d h = ground arith
clear_key-fewer (e ∷ m) key d h =
    ground (arith, clear_key-fewer m key d.1, has_entry-non_nil m key, d.0, bytes_eq_iff e.0 key)

clear_key-le : (m : DataMap) (key : Bytes) → length (non_nil (clear_key m key)) ≤ length (non_nil m)
unfolding non_nil clear_key
clear_key-le [] key = omega arith
clear_key-le (e ∷ m) key = ground (arith, clear_key-le m key)

pub Cleared-refl : (m : DataMap) → Cleared m m
Cleared-refl [] = tt
Cleared-refl (e ∷ m) = (refl, inl refl, Cleared-refl m)

clear_key-Cleared : (m : DataMap) (key : Bytes) → Cleared m (clear_key m key)
unfolding clear_key
clear_key-Cleared [] key = tt
clear_key-Cleared (e ∷ m) key = elim (Bool-cases (bytes_eq e.0 key)) [
  | inl same ↦ rw (same, clear_key) (sym ((bytes_eq_iff e.0 key).0 same), inr refl, Cleared-refl m)
  | inr other ↦ rw (other, clear_key) (refl, inl refl, clear_key-Cleared m key)
]

pub Cleared-trans : (m m' m'' : DataMap) → Cleared m m' → Cleared m' m'' → Cleared m m''
Cleared-trans [] [] [] c c' = tt
Cleared-trans (e ∷ m) (e' ∷ m') (e'' ∷ m'') c c' =
    (c'.0 ∙ c.0, ground (arith, c.1, c'.1), Cleared-trans m m' m'' c.2 c'.2)
Cleared-trans [] [] (e ∷ m) c c' = absurd c'
Cleared-trans [] (e ∷ m) m'' c c' = absurd c
Cleared-trans (e ∷ m) [] m'' c c' = absurd c
Cleared-trans (e ∷ m) (e' ∷ m') [] c c' = absurd c'

Cleared-has_entry :
    (m m' : DataMap) (key : Bytes) → Cleared m m' → has_entry m' key ≡ has_entry m key
unfolding has_entry
Cleared-has_entry [] [] key c = refl
Cleared-has_entry (e ∷ m) (e' ∷ m') key c = rw c.0 (rw (Cleared-has_entry m m' key c.2) refl)
Cleared-has_entry [] (e ∷ m) key c = absurd c
Cleared-has_entry (e ∷ m) [] key c = absurd c

pub Cleared-HasDistinctKeys :
    (m m' : DataMap) → Cleared m m' → HasDistinctKeys m → HasDistinctKeys m'
Cleared-HasDistinctKeys [] [] c d = tt
Cleared-HasDistinctKeys (e ∷ m) (e' ∷ m') c d =
    (rw c.0 (Cleared-has_entry m m' e.0 c.2 ∙ d.0), Cleared-HasDistinctKeys m m' c.2 d.1)
Cleared-HasDistinctKeys [] (e ∷ m) c d = absurd c
Cleared-HasDistinctKeys (e ∷ m) [] c d = absurd c

pub clear_keys-Cleared : (keys : List Bytes) (m : DataMap) → Cleared m (clear_keys m keys)
unfolding clear_keys
clear_keys-Cleared [] m = Cleared-refl m
clear_keys-Cleared (key ∷ keys) m =
    Cleared-trans m (clear_key m key) (clear_keys (clear_key m key) keys) (clear_key-Cleared m key)
      (clear_keys-Cleared keys (clear_key m key))

pub clear_keys-le :
    (keys : List Bytes) (m : DataMap) → length (non_nil (clear_keys m keys)) ≤ length (non_nil m)
unfolding clear_keys
clear_keys-le [] m = omega arith
clear_keys-le (key ∷ keys) m =
    omega (arith, clear_keys-le keys (clear_key m key), clear_key-le m key)

or_swap : (a b c : Bool) → (a || (b || c)) ≡ (b || (a || c))
or_swap a b c = ground arith

has_entry-permᴰ :
    (key : Bytes) {xs ys : DataMap} → Permᴰ xs ys → has_entry xs key ≡ has_entry ys key
unfolding has_entry
has_entry-permᴰ key Permᴰ.nil = refl
has_entry-permᴰ key (Permᴰ.cons {a = a} {b = b} e p) = rw e (rw (has_entry-permᴰ key p) refl)
has_entry-permᴰ key (Permᴰ.swap {a' = a'} {b' = b'} e f) =
    rw (e, f) (or_swap (bytes_eq b'.0 key) (bytes_eq a'.0 key) _)
has_entry-permᴰ key (Permᴰ.trans p q) = has_entry-permᴰ key p ∙ has_entry-permᴰ key q

pub has_entry-perm :
    (key : Bytes) {xs ys : DataMap} → Perm xs ys → has_entry xs key ≡ has_entry ys key
has_entry-perm key {xs} {ys} p = ∥∥₁_elim p (Bool-set _ _) (has_entry-permᴰ key)
