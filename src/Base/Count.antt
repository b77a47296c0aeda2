-- ===== src/Base/Count.antt =====
-- Sums over the calls of a trace.
use Prim.Native.Nat.{ℕ, ◌+◌}
use mathlib.Core.Path.{◌≡◌}
use mathlib.Core.List.{List, [], ◌∷◌, ◌++◌}
use native.Mathlib.Omega.{arith}

abbrev pub total : {C : Type 0} → (C → ℕ) → List C → ℕ
total of [] = 0
total of (c ∷ cs) = of c + total of cs

pub total-append :
    {C : Type 0} (of : C → ℕ) (xs ys : List C) → total of (xs ++ ys) ≡ total of xs + total of ys
total-append of [] ys = omega arith
total-append of (x ∷ xs) ys = omega (arith, total-append of xs ys)

pub total-append_append :
    {C : Type 0} (of : C → ℕ) (xs ys zs : List C)
    → total of (xs ++ (ys ++ zs)) ≡ total of xs + total of ys + total of zs
total-append_append of xs ys zs =
    omega (arith, total-append of xs (ys ++ zs), total-append of ys zs)
