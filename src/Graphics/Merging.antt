-- ===== src/Graphics/Merging.antt =====
-- What several threads hold together, when each by itself uses only what it holds.
use mathlib.Core.List.{Mem, mem-append_left, perm_middle}
use mathlib.Core.List.Perm
use android_device_xenvm.Base.{List, [], ◌∷◌, ◌++◌, append-nil, Perm, All}
use android_device_xenvm.Base.Merges.{Merge, end, left, right, Merges, none_left, with}
use android_device_xenvm.Graphics.{Handle}
use android_device_xenvm.Graphics.Holding.{
  Act, nothing, gets, gives, uses, Step, Holds, rest, call, Holds-before,
}

Mem-more : (hs L K : List Handle) → All (λ h. Mem h L) hs → All (λ h. Mem h (L ++ K)) hs
Mem-more [] L K a = tt
Mem-more (h ∷ hs) L K a = (mem-append_left K a.0, Mem-more hs L K a.1)

-- A call does not mind what else is held.
Step-frame : (a : Act) (L M K : List Handle) → Step a L M → Step a (L ++ K) (M ++ K)
Step-frame nothing L M K p = Perm.append_right K p
Step-frame (gets h) L M K p = Perm.append_right K p
Step-frame (gives h) L M K p = Perm.append_right K p
Step-frame (uses hs) L M K p = (Mem-more hs L K p.0, Perm.append_right K p.1)

swap : (K L : List Handle) → Perm (K ++ L) (L ++ K)
swap [] L = rw append-nil (Perm.refl L)
swap (h ∷ K) L = Perm.trans (Perm.cons h (swap K L)) (Perm.symm (perm_middle L K))

module _ {C : Type 0} (act : C → Act) where
  uncons :
      {c : C} {zs : List C} {L N : List Handle}
      → Holds act (c ∷ zs) L N
      → (M : List Handle) × Step (act c) L M × Holds act zs M N
  uncons (call M s h) = (M, s, h)

  Holds-nil : {L N : List Handle} → Holds act [] L N → Perm L N
  Holds-nil (rest p) = p

  Holds-merge :
      {xs ys zs : List C} (K K' L L' : List Handle)
      → Merge xs ys zs
      → Holds act xs K K'
      → Holds act ys L L'
      → Holds act zs (K ++ L) (K' ++ L')
  Holds-merge K K' L L' end h k = rest (Perm.append (Holds-nil h) (Holds-nil k))
  Holds-merge K K' L L' (left {a} m) h k =
      let (M, s, h') = uncons h in
      call (M ++ L) (Step-frame (act a) K M L s) (Holds-merge M K' L L' m h' k)
  Holds-merge K K' L L' (right {b} m) h k =
      let (M, s, k') = uncons k in
      Holds-before (swap K L) (
        call (M ++ K) (Step-frame (act b) L M K s)
          (Holds-before (swap M K) (Holds-merge K K' M L' m h k')))

  -- Threads that hold nothing before and after, and together hold nothing.
  pub Holds-merges :
      {tss : List (List C)} {zs : List C}
      → Merges tss zs
      → All (λ xs. Holds act xs [] []) tss
      → Holds act zs [] []
  Holds-merges none_left h = rest (Perm.refl [])
  Holds-merges (with ys ms m) h = Holds-merge [] [] [] [] m h.0 (Holds-merges ms h.1)
