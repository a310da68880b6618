-- ===== src/Base/Table.antt =====
-- A Boolean test on all numbers below a bound, by evaluation; and sums of exponents.
use Prim.Native.Nat.add
use native.Mathlib.Nat.{pow-suc}
use supernode.Base.{ℕ, zero, suc, ◌+◌, ◌*◌, ◌^◌, ◌<◌, ◌≡◌, ap, Bool, true, ◌&&◌, arith}

unfoldable pub holds_below : (ℕ → Bool) → ℕ → Bool
holds_below test zero = true
holds_below test (suc bound) = holds_below test bound && test bound

pub holds_below_at :
    (test : ℕ → Bool) (bound at : ℕ) → at < bound → holds_below test bound ≡ true → test at ≡ true
unfolding holds_below
holds_below_at test (suc bound) at lt holds = ground (arith, holds_below_at test bound at)
holds_below_at test zero at lt holds = absurd (omega arith)

pub two_pow-add : (a b : ℕ) → 2 ^ (a + b) ≡ 2 ^ a * 2 ^ b
two_pow-add zero b = rw (add.zero b) (omega arith)
two_pow-add (suc a) b =
    rw (add.suc a b)
      (omega (arith, pow-suc 2 (a + b), ap (λ (t : ℕ). t * 2 ^ b) (pow-suc 2 a), two_pow-add a b))
