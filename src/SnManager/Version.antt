-- ===== src/SnManager/Version.antt =====
-- sn-manager/internal/utils/version.go: versions, read from texts and compared.
-- A Go `string` is the list of its bytes. An `int` has 64 bits, which `atoi` keeps to.
pub mod Order
use supernode.Base.{
  ℕ, zero, suc, ◌+◌, ◌-◌, ◌*◌, ◌^◌, Bool, true, false, ◌&&◌, Option, none, some, List, [], ◌∷◌,
  Bytes, bytes_eq, bytes_lt, ltb, leb, ◌==◌, if◌then◌else◌, length,
}
use supernode.Base.Int.{ℤ, pos, negsuc, ltb_ℤ, eq_ℤ}

-- `strings.TrimPrefix(v, "v")`.
unfoldable pub trim_v : Bytes → Bytes
trim_v [] = []
trim_v (c ∷ cs) = if c == b'v' then cs else c ∷ cs

-- The text before the first `c`, and the text behind it if there is one.
unfoldable pub cut : ℕ → Bytes → Bytes × Option Bytes
cut c [] = ([], none)
cut c (x ∷ xs) = elim (x == c) [
  | true ↦ ([], some xs)
  | false ↦ let (before, after) = cut c xs in (x ∷ before, after)
]

abbrev pub push_front : ℕ → List Bytes → List Bytes
push_front x [] = (x ∷ []) ∷ []
push_front x (w ∷ ws) = (x ∷ w) ∷ ws

-- `strings.Split(s, ".")`, which has at least one part.
unfoldable pub split_on : ℕ → Bytes → List Bytes
split_on c [] = [] ∷ []
split_on c (x ∷ xs) = elim (x == c) [
  | true ↦ [] ∷ split_on c xs
  | false ↦ push_front x (split_on c xs)
]

unfoldable pub digits_value : ℕ → Bytes → Option ℕ
digits_value acc [] = some acc
digits_value acc (d ∷ ds) = elim (leb b'0' d && leb d b'9') [
  | true ↦ digits_value (10 * acc + (d - b'0')) ds
  | false ↦ none
]

magnitude : Bytes → Option ℕ
unfolding digits_value
magnitude [] = none
magnitude (d ∷ ds) = digits_value 0 (d ∷ ds)

-- `strconv.Atoi`: the number, and whether there was no error. Out of range the number is the
-- nearest that fits.
atoi_positive : Option ℕ → ℤ × Bool
atoi_positive none = (pos 0, false)
atoi_positive (some n) = if ltb n (2 ^ 63) then (pos n, true) else (pos (2 ^ 63 - 1), false)

atoi_negative : Option ℕ → ℤ × Bool
atoi_negative none = (pos 0, false)
atoi_negative (some zero) = (pos 0, true)
atoi_negative (some (suc n)) =
    if ltb n (2 ^ 63) then (negsuc n, true) else (negsuc (2 ^ 63 - 1), false)

unfoldable pub atoi : Bytes → ℤ × Bool
unfolding magnitude atoi_positive atoi_negative
atoi [] = (pos 0, false)
atoi (c ∷ cs) =
    if c == b'-'
    then atoi_negative (magnitude cs)
    else if c == b'+'
    then atoi_positive (magnitude cs)
    else atoi_positive (magnitude (c ∷ cs))

pub record SemverParts : Type 0 where
  pub major : ℤ
  pub minor : ℤ
  pub patch : ℤ
  pub prerelease : List Bytes

-- `maj, _ = strconv.Atoi(parts[i])` where `parts` is that long, else 0.
part : List Bytes → ℕ → ℤ
unfolding atoi
part [] i = pos 0
part (w ∷ ws) zero = (atoi w).0
part (w ∷ ws) (suc i) = part ws i

pre_ids : Option Bytes → List Bytes
unfolding split_on
pre_ids none = []
pre_ids (some []) = []
pre_ids (some (c ∷ cs)) = split_on b'.' (c ∷ cs)

unfoldable pub parse_semver : Bytes → SemverParts
unfolding trim_v cut split_on part pre_ids
parse_semver v =
    let released = (cut b'+' (trim_v v)).0 in
    let (core, pre) = cut b'-' released in
    let parts = split_on b'.' core in
    record {
      major = part parts 0;
      minor = part parts 1;
      patch = part parts 2;
      prerelease = pre_ids pre;
    }

abbrev pub lower : ℤ
lower = negsuc 0

abbrev pub higher : ℤ
higher = pos 1

abbrev pub same : ℤ
same = pos 0

-- One round of the loop over the identifiers, where they differ.
pub compare_ids : Bytes → Bytes → ℤ
unfolding atoi
compare_ids id1 id2 =
    let (n1, ok1) = atoi id1 in
    let (n2, ok2) = atoi id2 in
    if ok1
    then (if ok2 then (if ltb_ℤ n1 n2 then lower else higher) else lower)
    else (if ok2 then higher else if bytes_lt id1 id2 then lower else higher)

-- The loop. A missing identifier is the empty text. `none` means that all are equal.
pub compare_pre : List Bytes → List Bytes → Option ℤ
unfolding compare_ids
compare_pre [] [] = none
compare_pre [] (y ∷ ys) = elim (bytes_eq [] y) [
  | true ↦ compare_pre [] ys
  | false ↦ some (compare_ids [] y)
]
compare_pre (x ∷ xs) [] = elim (bytes_eq x []) [
  | true ↦ compare_pre xs []
  | false ↦ some (compare_ids x [])
]
compare_pre (x ∷ xs) (y ∷ ys) = elim (bytes_eq x y) [
  | true ↦ compare_pre xs ys
  | false ↦ some (compare_ids x y)
]

pub compare_lengths : List Bytes → List Bytes → ℤ
compare_lengths p1 p2 =
    if ltb (length p1) (length p2)
    then lower
    else if ltb (length p2) (length p1)
    then higher
    else same

pub compare_prerelease : List Bytes → List Bytes → ℤ
unfolding compare_pre compare_lengths
compare_prerelease [] [] = same
compare_prerelease [] (y ∷ ys) = higher
compare_prerelease (x ∷ xs) [] = lower
compare_prerelease (x ∷ xs) (y ∷ ys) = elim (compare_pre (x ∷ xs) (y ∷ ys)) [
  | some c ↦ c
  | none ↦ compare_lengths (x ∷ xs) (y ∷ ys)
]

-- `if a != b { if a < b { return -1 }; return 1 }`, and what follows it.
abbrev pub first_by : ℤ → ℤ → ℤ → ℤ
first_by a b rest = if eq_ℤ a b then rest else if ltb_ℤ a b then lower else higher

pub compare_parts : SemverParts → SemverParts → ℤ
unfolding compare_prerelease
compare_parts p1 p2 = first_by p1.major p2.major (
    first_by p1.minor p2.minor
      (first_by p1.patch p2.patch (compare_prerelease p1.prerelease p2.prerelease)))

unfoldable pub compare_versions : Bytes → Bytes → ℤ
unfolding parse_semver compare_parts
compare_versions v1 v2 = compare_parts (parse_semver v1) (parse_semver v2)

unfoldable pub same_major : Bytes → Bytes → Bool
unfolding parse_semver
same_major v1 v2 = eq_ℤ (parse_semver v1).major (parse_semver v2).major
