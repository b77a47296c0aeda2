-- ===== src/Base/Merges.antt =====
-- Interleavings: what several threads did, in one order.
use mathlib.Core.Path.{◌≡◌, refl}
use mathlib.Core.List.{List, [], ◌∷◌}
use Prim.Native.Nat.{ℕ, ◌+◌}
use native.Mathlib.Omega.{arith}
use android_device_xenvm.Base.Count.{total}

-- The third list holds what the first two hold, each in its order.
pub data Merge {A : Type 0} : List A → List A → List A → Type 0 where
  end : Merge [] [] []
  left : {a : A} {xs ys zs : List A} → Merge xs ys zs → Merge (a ∷ xs) ys (a ∷ zs)
  right : {b : A} {xs ys zs : List A} → Merge xs ys zs → Merge xs (b ∷ ys) (b ∷ zs)

-- The same for any number of lists.
pub data Merges {A : Type 0} : List (List A) → List A → Type 0 where
  none_left : Merges [] []
  with :
      {xs : List A} {tss : List (List A)} (ys : List A) {zs : List A}
      → Merges tss ys
      → Merge xs ys zs
      → Merges (xs ∷ tss) zs

pub total-Merge :
    {A : Type 0} (f : A → ℕ) {xs ys zs : List A}
    → Merge xs ys zs
    → total f zs ≡ total f xs + total f ys
total-Merge f end = refl
total-Merge f (left m) = omega (arith, total-Merge f m)
total-Merge f (right m) = omega (arith, total-Merge f m)
