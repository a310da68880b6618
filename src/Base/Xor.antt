-- ===== src/Base/Xor.antt =====
-- Laws of the exclusive or on the native numbers, from the recursion on binary digits.
use Prim.Native.Nat.{digits, bit_xor-bitwise, differ}
use native.Mathlib.Nat.{pow-suc}
use native.Mathlib.Decide.{dec_lt}
use supernode.Base.{
  ℕ, zero, suc, ◌+◌, ◌-◌, ◌*◌, ◌/◌, ◌%◌, ◌^◌, ◌≤◌, ◌<◌, bit_xor, ◌≡◌, refl, ap, ap₂, ◌∙◌, arith,
}

-- The digits of an exclusive or, at most `n` of them.
abbrev xor_digits : ℕ → ℕ → ℕ → ℕ
xor_digits = digits (λ y. y) differ

one_digit_more : (a b n : ℕ) → a ≤ n → xor_digits (suc n) a b ≡ xor_digits n a b
one_digit_more zero b zero h = refl
one_digit_more zero b (suc n) h = refl
one_digit_more (suc a) b zero h = absurd (omega arith)
one_digit_more (suc a) b (suc n) h = rw (one_digit_more (suc a / 2) (b / 2) n (omega arith)) refl

digits_to_spare : (k a b n : ℕ) → n ≡ a + k → xor_digits n a b ≡ xor_digits a a b
digits_to_spare zero a b n e = let same : n ≡ a = omega arith in ap (λ l. xor_digits l a b) same
digits_to_spare (suc k) a b zero e = absurd (omega arith)
digits_to_spare (suc k) a b (suc n) e =
    one_digit_more a b n (omega arith) ∙ digits_to_spare k a b n (omega arith)

pub zero-bit_xor : (b : ℕ) → bit_xor 0 b ≡ b
zero-bit_xor b = bit_xor-bitwise 0 b

bit_xor_step : (a b : ℕ) → bit_xor a b ≡ bit_xor (a / 2) (b / 2) * 2 + differ (a % 2) (b % 2)
bit_xor_step zero b = simp bit_xor-bitwise (omega arith)
bit_xor_step (suc a) b =
    simp bit_xor-bitwise
      (omega (arith, digits_to_spare (a - suc a / 2) (suc a / 2) (b / 2) a (omega arith)))

differ_bound : (a b : ℕ) → a < 2 → b < 2 → differ a b < 2
differ_bound zero b p q = q
differ_bound (suc zero) zero p q = omega arith
differ_bound (suc zero) (suc b) p q = omega arith
differ_bound (suc (suc a)) b p q = absurd (omega arith)

differ_eq : (a b : ℕ) → a < 2 → b < 2 → differ a b ≡ 0 → a ≡ b
differ_eq zero b p q e = omega arith
differ_eq (suc zero) zero p q e = omega arith
differ_eq (suc zero) (suc b) p q e = omega arith
differ_eq (suc (suc a)) b p q e = absurd (omega arith)

pub bit_xor-lt : (k a b : ℕ) → a < 2 ^ k → b < 2 ^ k → bit_xor a b < 2 ^ k
bit_xor-lt zero zero b p q = rw (zero-bit_xor b) q
bit_xor-lt zero (suc a) b p q = absurd (omega arith)
bit_xor-lt (suc k) a b p q =
    let h : 2 ^ suc k ≡ 2 * 2 ^ k = omega (arith, pow-suc 2 k) in
    omega (
      arith,
      bit_xor_step a b,
      bit_xor-lt k (a / 2) (b / 2) (omega arith) (omega arith),
      differ_bound (a % 2) (b % 2) (omega arith) (omega arith),
    )

shifted_twice : (k high : ℕ) → high * 2 ^ suc k ≡ high * 2 ^ k + high * 2 ^ k
shifted_twice k high =
    let power : 2 ^ suc k ≡ 2 ^ k + 2 ^ k = omega (arith, pow-suc 2 k) in
    ap (λ (power : ℕ). high * power) power ∙ omega arith

-- High parts and low parts of `k` digits are combined apart.
pub bit_xor_parts :
    (k a b x y : ℕ)
    → x < 2 ^ k
    → y < 2 ^ k
    → bit_xor (a * 2 ^ k + x) (b * 2 ^ k + y) ≡ bit_xor a b * 2 ^ k + bit_xor x y
bit_xor_parts zero a b zero zero p q = ap₂ bit_xor (unit a) (unit b) ∙ omega (arith, zero-bit_xor 0)
  where
    unit : (t : ℕ) → t * 2 ^ 0 + 0 ≡ t
    unit t = omega arith
bit_xor_parts zero a b zero (suc y) p q = absurd (omega arith)
bit_xor_parts zero a b (suc x) y p q = absurd (omega arith)
bit_xor_parts (suc k) a b x y p q =
    let parity : (t z : ℕ) → (t * 2 ^ suc k + z) % 2 ≡ z % 2 =
      λ t z. omega (arith, shifted_twice k t) in
    let ha = shifted_twice k a in
    let hb = shifted_twice k b in
    let hs : 2 ^ suc k ≡ 2 * 2 ^ k = omega (arith, pow-suc 2 k) in
    let halves : bit_xor ((a * 2 ^ suc k + x) / 2) ((b * 2 ^ suc k + y) / 2)
        ≡ bit_xor (a * 2 ^ k + x / 2) (b * 2 ^ k + y / 2) =
      ap₂ bit_xor (omega arith) (omega arith) in
    let digit : differ ((a * 2 ^ suc k + x) % 2) ((b * 2 ^ suc k + y) % 2)
        ≡ differ (x % 2) (y % 2) =
      ap₂ differ (parity a x) (parity b y) in
    omega (
      arith,
      bit_xor_step (a * 2 ^ suc k + x) (b * 2 ^ suc k + y),
      halves,
      digit,
      shifted_twice k (bit_xor a b),
      bit_xor_step x y,
      bit_xor_parts k a b (x / 2) (y / 2) (omega arith) (omega arith),
    )

pub bit_xor-eq_zero : (k a b : ℕ) → a ≤ k → b ≤ k → bit_xor a b ≡ 0 → a ≡ b
bit_xor-eq_zero zero a b p q e = omega arith
bit_xor-eq_zero (suc k) a b p q e =
    let s = bit_xor_step a b in
    omega (
      arith,
      differ_eq (a % 2) (b % 2) (omega arith) (omega arith) (omega arith),
      bit_xor-eq_zero k (a / 2) (b / 2) (omega arith) (omega arith) (omega arith),
    )

differ_self : (a : ℕ) → differ a a ≡ 0
differ_self zero = refl
differ_self (suc a) = differ_self a

pub bit_xor_self : (k a : ℕ) → a ≤ k → bit_xor a a ≡ 0
bit_xor_self zero a h = rw (zero_of a h) (zero-bit_xor 0)
  where
    zero_of : (t : ℕ) → t ≤ 0 → t ≡ 0
    zero_of t h = omega arith
bit_xor_self (suc k) a h = elim (dec_lt 0 a) [
  | yes pos ↦
      omega (arith, bit_xor_step a a, differ_self (a % 2), bit_xor_self k (a / 2) (omega arith))
  | no none ↦ let e : a ≡ 0 = omega arith in rw e (zero-bit_xor 0)
]
