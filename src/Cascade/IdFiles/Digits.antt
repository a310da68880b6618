-- ===== src/Cascade/IdFiles/Digits.antt =====
-- Texts split at the points, and decimal digits.
use supernode.Base.{
  ℕ, zero, suc, ◌+◌, ◌/◌, ◌%◌, ◌≤◌, ◌≡◌, refl, false, ◌&&◌, leb, ltb, Bool-cases, inl, inr, some,
  [], ◌∷◌, ◌++◌, Bytes, arith,
}
use supernode.SnManager.Version.{split_on, digits_value}
use supernode.SnManager.Gateway.{has_byte}
use supernode.Cascade.IdFiles.{digits, itoa}

pub split_on_whole : (c : ℕ) (s : Bytes) → has_byte c s ≡ false → split_on c s ≡ s ∷ []
unfolding has_byte split_on
split_on_whole c [] h = refl
split_on_whole c (x ∷ xs) h = ground (arith, split_on_whole c xs)

pub split_on-append :
    (c : ℕ) (s t : Bytes) → has_byte c s ≡ false → split_on c (s ++ c ∷ t) ≡ s ∷ split_on c t
unfolding has_byte split_on
split_on-append c [] t h = ground arith
split_on-append c (x ∷ xs) t h = ground (arith, split_on-append c xs t)

-- A byte that is no digit.
abbrev IsNoDigit : ℕ → Type 0
IsNoDigit c = (leb b'0' c && leb c b'9') ≡ false

digits-has_byte :
    (c fuel n : ℕ) (acc : Bytes)
    → IsNoDigit c
    → has_byte c acc ≡ false
    → has_byte c (digits fuel n acc) ≡ false
unfolding digits has_byte
digits-has_byte c zero n acc nd h = ground (arith, nd, h)
digits-has_byte c (suc fuel) n acc nd h =
    ground (arith, digits-has_byte c fuel (n / 10) ((b'0' + n % 10) ∷ acc) nd, nd, h)

pub itoa-has_byte : (c n : ℕ) → IsNoDigit c → has_byte c (itoa n) ≡ false
unfolding itoa has_byte
itoa-has_byte c n nd = digits-has_byte c n n [] nd refl

digit_step :
    (n : ℕ) (acc : Bytes) → digits_value (n / 10) ((b'0' + n % 10) ∷ acc) ≡ digits_value n acc
unfolding digits_value
digit_step n acc = ground arith

digits_value-digits :
    (fuel n : ℕ) (acc : Bytes) → n ≤ fuel → digits_value 0 (digits fuel n acc) ≡ digits_value n acc
unfolding digits digits_value
digits_value-digits zero n acc h = ground arith
digits_value-digits (suc fuel) n acc h =
    ground (arith, digits_value-digits fuel (n / 10) ((b'0' + n % 10) ∷ acc), digit_step n acc)

pub digits_value-itoa : (n : ℕ) → digits_value 0 (itoa n) ≡ some n
unfolding itoa digits_value
digits_value-itoa n = ground (arith, digits_value-digits n n [])

pub append_cancel : (s t u : Bytes) → s ++ t ≡ s ++ u → t ≡ u
append_cancel [] t u e = e
append_cancel (x ∷ xs) t u e = append_cancel xs t u (ground arith)

pub itoa-injective : (m n : ℕ) → itoa m ≡ itoa n → m ≡ n
itoa-injective m n e = ground (arith, digits_value-itoa m, digits_value-itoa n)

digits-cons : (fuel n : ℕ) (acc : Bytes) → (d : ℕ) × (ds : Bytes) × (digits fuel n acc ≡ d ∷ ds)
unfolding digits
digits-cons zero n acc = (_, _, refl)
digits-cons (suc fuel) n acc = elim (Bool-cases (ltb n 10)) [
  | inl small ↦ rw (small, digits) (_, _, refl)
  | inr large ↦ rw (large, digits) (digits-cons fuel (n / 10) ((b'0' + n % 10) ∷ acc))
]

pub itoa-cons : (n : ℕ) → (d : ℕ) × (ds : Bytes) × (itoa n ≡ d ∷ ds)
unfolding itoa
itoa-cons n = digits-cons n n []
