-- ===== src/Prelude/Doubles.antt =====
-- Numbers as the source computes with them: doubles, of which only those from 0 on are modelled. A
-- double is a natural number over a power of two; a result is the nearest double, and of two that are
-- equally near the one whose last bit is 0.
use Prim.Native.Nat.{ℕ, zero, suc, ◌+◌, ◌*◌, ◌/◌, ◌%◌, ◌^◌, ◌≤◌, ◌<◌}
use mathlib.Core.Bool.{Bool, true, false, not}
use mathlib.Core.Path.{◌≡◌}
use mathlib.Core.Logic.{◌↔◌}
use native.Mathlib.Omega.{arith}
use civitas.Prelude.Tests.{ltb, if◌then◌else◌}

pub record Double : Type 0 where
  pub mantissa : ℕ
  pub scale : ℕ

abbrev pub of_ℕ : ℕ → Double
of_ℕ n = record { mantissa = n; scale = 0 }

-- How often p is doubled until p / q has 53 bits; the smallest double has the scale 1074.
unfoldable scale_of : ℕ → ℕ → ℕ → ℕ
scale_of zero p q = 0
scale_of (suc fuel) p q = elim (ltb p (2 ^ 52 * q)) [
  | true ↦ suc (scale_of fuel (p * 2) q)
  | false ↦ 0
]

-- How often q is doubled until p / q has 53 bits at most.
unfoldable shift_of : ℕ → ℕ → ℕ → ℕ
shift_of zero p q = 0
shift_of (suc fuel) p q = elim (ltb p (2 ^ 53 * q)) [
  | true ↦ 0
  | false ↦ suc (shift_of fuel p (q * 2))
]

-- The nearest natural number to p / q.
abbrev nearest : ℕ → ℕ → ℕ
nearest p q =
    let n = p / q in
    let rest = p % q * 2 in if ltb rest q then n else if ltb q rest then n + 1 else n + n % 2

abbrev finer : ℕ → ℕ → ℕ → Double
finer p q scale = record { mantissa = nearest (p * 2 ^ scale) q; scale = scale }

abbrev coarser : ℕ → ℕ → ℕ → Double
coarser p q shift = record { mantissa = nearest p (q * 2 ^ shift) * 2 ^ shift; scale = 0 }

-- The double nearest to p / q, for a q that is not 0.
unfoldable pub nearest_double : ℕ → ℕ → Double
unfolding scale_of shift_of
nearest_double zero q = of_ℕ 0
nearest_double (suc p) q =
    if ltb (suc p) (2 ^ 53 * q)
    then finer (suc p) q (scale_of 1074 (suc p) q)
    else coarser (suc p) q (shift_of 971 (suc p) q)

-- `a / b` of whole numbers, and `d * n`.
abbrev pub divided : ℕ → ℕ → Double
divided a b = nearest_double a b

abbrev pub times : Double → ℕ → Double
times d n = nearest_double (d.mantissa * n) (2 ^ d.scale)

-- `a > b`, and that `a` is `b` at most or less.
abbrev pub exceeds : Double → Double → Bool
exceeds a b = ltb (b.mantissa * 2 ^ a.scale) (a.mantissa * 2 ^ b.scale)

abbrev pub IsAtMost : Double → Double → Type 0
IsAtMost a b = a.mantissa * 2 ^ b.scale ≤ b.mantissa * 2 ^ a.scale

abbrev pub IsBelow : Double → Double → Type 0
IsBelow a b = a.mantissa * 2 ^ b.scale < b.mantissa * 2 ^ a.scale

not-exceeds : (m n : ℕ) → (not (ltb n m) ≡ true) ↔ (m ≤ n)
not-exceeds m n = ground arith

pub exceeds-IsAtMost : (a b : Double) → (not (exceeds a b) ≡ true) ↔ IsAtMost a b
exceeds-IsAtMost a b = not-exceeds (a.mantissa * 2 ^ b.scale) (b.mantissa * 2 ^ a.scale)

below : (m n : ℕ) → (ltb m n ≡ true) ↔ (m < n)
below m n = ground arith

pub exceeds-IsBelow : (a b : Double) → (exceeds b a ≡ true) ↔ IsBelow a b
exceeds-IsBelow a b = below (a.mantissa * 2 ^ b.scale) (b.mantissa * 2 ^ a.scale)
