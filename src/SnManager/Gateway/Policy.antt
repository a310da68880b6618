-- ===== src/SnManager/Gateway/Policy.antt =====
-- When `ShouldUpdate` says yes.
use supernode.Base.{
  ℕ, ◌≡◌, refl, true, false, not, ◌&&◌, ◌||◌, none, [], ◌∷◌, Bytes, bytes_eq, bytes_eq_refl, arith,
  Bool-cases, inl, inr,
}
use supernode.Base.Int.{eq_ℤ, ltb_ℤ}
use supernode.SnManager.Version.{trim_v, cut, same_major, compare_versions, same}
use supernode.SnManager.Version.Order.{compare_versions_self}
use supernode.SnManager.Gateway.{has_byte, should_update}

cut_absent : (c : ℕ) (s : Bytes) → has_byte c s ≡ false → cut c s ≡ (s, none)
unfolding has_byte cut
cut_absent c [] h = refl
cut_absent c (x ∷ xs) h = ground (arith, cut_absent c xs)

cut_present : (c : ℕ) (s : Bytes) → has_byte c s ≡ true → bytes_eq s (cut c s).0 ≡ false
unfolding has_byte cut bytes_eq
cut_present c [] h = cc
cut_present c (x ∷ xs) h = ground (arith, cut_present c xs)

cut-bytes_eq : (c : ℕ) (s : Bytes) → bytes_eq s (cut c s).0 ≡ not (has_byte c s)
cut-bytes_eq c s = elim (Bool-cases (has_byte c s)) [
  | inl has ↦ rw has (cut_present c s has)
  | inr lacks ↦ rw (lacks, cut_absent c s lacks) (bytes_eq_refl s)
]

-- `ShouldUpdate` says yes exactly if the target is no pre-release, has the major version of the
-- current one, and the current version without its pre-release part is lower than the target, or
-- is equal to it and had such a part. Leading letters `v` do not count.
pub should_update-policy :
    (current latest : Bytes)
    → should_update current latest ≡ (
        not (has_byte b'-' (trim_v latest))
        && (same_major (cut b'-' (trim_v current)).0 (trim_v latest)
            && (ltb_ℤ (compare_versions (cut b'-' (trim_v current)).0 (trim_v latest)) same
                || (eq_ℤ (compare_versions (cut b'-' (trim_v current)).0 (trim_v latest)) same
                    && has_byte b'-' (trim_v current)))))
unfolding should_update
should_update-policy current latest = elim (Bool-cases (has_byte b'-' (trim_v latest))) [
  | inl pre ↦ rw pre
  | inr stable ↦
      rw (cut_absent b'-' (trim_v latest) stable, stable, cut-bytes_eq b'-' (trim_v current))
        (ground arith)
]

-- A version is never updated to itself.
should_update_self : (v : Bytes) → should_update v v ≡ false
should_update_self v = rw (should_update-policy v v) (elim (Bool-cases (has_byte b'-' (trim_v v))) [
  | inl pre ↦ rw pre
  | inr stable ↦
      rw (cut_absent b'-' (trim_v v) stable, stable, compare_versions_self (trim_v v))
        (ground arith)
])
