-- ===== src/SnManager/Version/Order.antt =====
-- Is the comparison of versions an order?
use supernode.Base.{
  zero, suc, ◌≡◌, ◌≢◌, refl, ap, ◌∙◌, Bool, true, false, not, ◌&&◌, ◌||◌, Option, none, some, List,
  [], ◌∷◌, ◌++◌, Bytes, bytes_eq, bytes_lt, bytes_eq_refl, bytes_eq_sym, arith,
}
use supernode.Base.Int.{ℤ, pos, negsuc, ltb_ℤ, eq_ℤ}
use supernode.SnManager.Version.{
  SemverParts, atoi, parse_semver, lower, higher, same, compare_ids, compare_pre, compare_lengths,
  compare_prerelease, first_by, compare_parts, compare_versions,
}

compare_pre_self : (xs : List Bytes) → compare_pre xs xs ≡ none
unfolding compare_pre
compare_pre_self [] = refl
compare_pre_self (x ∷ xs) = ground (arith, bytes_eq_refl x, compare_pre_self xs)

compare_prerelease_self : (xs : List Bytes) → compare_prerelease xs xs ≡ same
unfolding compare_prerelease
compare_prerelease_self [] = refl
compare_prerelease_self (x ∷ xs) = ground (arith, compare_pre_self (x ∷ xs))

-- Every version is equal to itself.
pub compare_versions_self : (v : Bytes) → compare_versions v v ≡ same
unfolding compare_versions
compare_versions_self v = ground (arith, compare_prerelease_self (parse_semver v).prerelease)

-- Minus, of a result.
abbrev pub opposite : ℤ → ℤ
opposite (pos zero) = pos 0
opposite (pos (suc n)) = negsuc n
opposite (negsuc n) = pos (suc n)

-- Two texts that differ and that `Atoi` reads as one number, such as "1" and "01".
is_tie : Bytes → Bytes → Bool
is_tie x y = not (bytes_eq x y) && ((atoi x).1 && ((atoi y).1 && eq_ℤ (atoi x).0 (atoi y).0))

-- A tie stands at one place of the two lists, the shorter filled up with empty texts.
unfoldable pub has_tie : List Bytes → List Bytes → Bool
unfolding is_tie
has_tie [] [] = false
has_tie [] (y ∷ ys) = is_tie [] y || has_tie [] ys
has_tie (x ∷ xs) [] = is_tie x [] || has_tie xs []
has_tie (x ∷ xs) (y ∷ ys) = is_tie x y || has_tie xs ys

bytes_lt_total : (a b : Bytes) → bytes_eq a b ≡ false → bytes_lt b a ≡ not (bytes_lt a b)
unfolding bytes_lt bytes_eq
bytes_lt_total [] [] h = cc
bytes_lt_total [] (b ∷ bs) h = refl
bytes_lt_total (a ∷ as') [] h = refl
bytes_lt_total (a ∷ as') (b ∷ bs) h = ground (arith, bytes_lt_total as' bs)

ltb_ℤ_total : (a b : ℤ) → eq_ℤ a b ≡ false → ltb_ℤ b a ≡ not (ltb_ℤ a b)
ltb_ℤ_total a b h = ground arith

compare_ids-opposite :
    (x y : Bytes)
    → bytes_eq x y ≡ false
    → is_tie x y ≡ false
    → compare_ids y x ≡ opposite (compare_ids x y)
unfolding compare_ids is_tie
compare_ids-opposite x y ne tie =
    ground (arith, ltb_ℤ_total (atoi x).0 (atoi y).0, bytes_lt_total x y ne)

abbrev opposite_of : Option ℤ → Option ℤ
opposite_of none = none
opposite_of (some c) = some (opposite c)

compare_pre-opposite :
    (xs ys : List Bytes)
    → has_tie xs ys ≡ false
    → compare_pre ys xs ≡ opposite_of (compare_pre xs ys)
unfolding compare_pre has_tie
compare_pre-opposite [] [] h = refl
compare_pre-opposite [] (y ∷ ys) h =
    ground (arith, bytes_eq_sym [] y, compare_ids-opposite [] y, compare_pre-opposite [] ys)
compare_pre-opposite (x ∷ xs) [] h =
    ground (arith, bytes_eq_sym x [], compare_ids-opposite x [], compare_pre-opposite xs [])
compare_pre-opposite (x ∷ xs) (y ∷ ys) h =
    ground (arith, bytes_eq_sym x y, compare_ids-opposite x y, compare_pre-opposite xs ys)

compare_lengths-opposite :
    (xs ys : List Bytes) → compare_lengths ys xs ≡ opposite (compare_lengths xs ys)
unfolding compare_lengths
compare_lengths-opposite xs ys = ground arith

compare_prerelease-opposite :
    (xs ys : List Bytes)
    → has_tie xs ys ≡ false
    → compare_prerelease ys xs ≡ opposite (compare_prerelease xs ys)
unfolding compare_prerelease
compare_prerelease-opposite [] [] h = refl
compare_prerelease-opposite [] (y ∷ ys) h = refl
compare_prerelease-opposite (x ∷ xs) [] h = refl
compare_prerelease-opposite (x ∷ xs) (y ∷ ys) h =
    ground
      (arith, compare_pre-opposite (x ∷ xs) (y ∷ ys) h, compare_lengths-opposite (x ∷ xs) (y ∷ ys))

-- Two versions compare the opposite way round when they are swapped, unless their pre-release
-- identifiers differ at one place in the spelling of one number.
pub compare_versions-opposite :
    (v1 v2 : Bytes)
    → has_tie (parse_semver v1).prerelease (parse_semver v2).prerelease ≡ false
    → compare_versions v2 v1 ≡ opposite (compare_versions v1 v2)
unfolding compare_versions
compare_versions-opposite v1 v2 h =
    let p = parse_semver v1 in
    let q = parse_semver v2 in
    first_by-opposite p.major q.major _ _ (
      first_by-opposite p.minor q.minor _ _ (
        first_by-opposite p.patch q.patch _ _
          (compare_prerelease-opposite p.prerelease q.prerelease h)))
  where
    first_by-opposite : (a b r s : ℤ) → s ≡ opposite r → first_by b a s ≡ opposite (first_by a b r)
    first_by-opposite a b r s e = ground arith

missing_id-higher : (n : Bytes) → (atoi n).1 ≡ true → compare_ids [] n ≡ higher
unfolding compare_ids
missing_id-higher n h = ground arith

-- A list of identifiers, followed by a numeric one in the second list only.
compare_pre_longer :
    (xs ys : List Bytes) (n : Bytes)
    → (atoi n).1 ≡ true
    → compare_pre xs (xs ++ n ∷ ys) ≡ some higher
unfolding compare_pre
compare_pre_longer [] ys [] h = unfold atoi in cc
compare_pre_longer [] ys (c ∷ n) h = unfold bytes_eq in ap some (missing_id-higher (c ∷ n) h)
compare_pre_longer (x ∷ xs) ys n h = ground (arith, bytes_eq_refl x, compare_pre_longer xs ys n h)

first_by_self : (a r : ℤ) → first_by a a r ≡ r
first_by_self a r = ground arith

compare_prerelease_longer :
    (x n : Bytes) (xs ys : List Bytes)
    → (atoi n).1 ≡ true
    → compare_prerelease (x ∷ xs) ((x ∷ xs) ++ n ∷ ys) ≡ higher
unfolding compare_prerelease
compare_prerelease_longer x n xs ys h = rw (compare_pre_longer (x ∷ xs) ys n h, compare_prerelease)

-- If the second version has the identifiers of the first and then a numeric one, it compares lower.
compare_parts-numeric_suffix :
    (p : SemverParts) (x n : Bytes) (xs ys : List Bytes)
    → p.prerelease ≡ x ∷ xs
    → (atoi n).1 ≡ true
    → compare_parts p (record p { prerelease = (x ∷ xs) ++ n ∷ ys }) ≡ higher
unfolding compare_parts
compare_parts-numeric_suffix p x n xs ys e h =
    first_by_self p.major _
    ∙ first_by_self p.minor _
    ∙ first_by_self p.patch _
    ∙ ap (λ l. compare_prerelease l ((x ∷ xs) ++ n ∷ ys)) e
    ∙ compare_prerelease_longer x n xs ys h

first_by_trans :
    (a b c r s t : ℤ)
    → first_by a b r ≡ lower
    → first_by b c s ≡ lower
    → (r ≡ lower → s ≡ lower → t ≡ lower)
    → first_by a c t ≡ lower
first_by_trans a b c r s t h k later = ground arith

stable-not_lower : (xs ys : List Bytes) → xs ≡ [] → ys ≡ [] → compare_prerelease xs ys ≢ lower
unfolding compare_prerelease
stable-not_lower [] [] hx hy h = cc
stable-not_lower [] (y ∷ ys) hx hy h = cc
stable-not_lower (x ∷ xs) ys hx hy h = cc

abbrev IsStable : Bytes → Type 0
IsStable v = (parse_semver v).prerelease ≡ []

-- Among versions without pre-release identifiers, `lower` is transitive.
compare_versions_trans :
    (u v w : Bytes)
    → IsStable u
    → IsStable v
    → IsStable w
    → compare_versions u v ≡ lower
    → compare_versions v w ≡ lower
    → compare_versions u w ≡ lower
unfolding compare_versions
compare_versions_trans u v w hu hv hw h k =
    let p = parse_semver u in
    let q = parse_semver v in
    let r = parse_semver w in
    first_by_trans p.major q.major r.major _ _ _ h k λ h k.
      first_by_trans p.minor q.minor r.minor _ _ _ h k λ h k.
        first_by_trans p.patch q.patch r.patch _ _ _ h k
          λ h k. absurd (stable-not_lower _ _ hu hv h)
