-- ===== src/Gralloc1/Alive.antt =====
-- Gralloc1Hal.h: which descriptor of the driver is alive after a trace of calls.
use android_device_xenvm.Base.{
  ◌≡◌, refl, ap, Option, none, some, List, [], ◌∷◌, ◌++◌, arith, Option-cases, inl, inr, All,
  if◌then◌else◌, ◌==◌, ==_refl,
}
use android_device_xenvm.Gralloc1.Device.{Gralloc1Error, Call, DescriptorId, is_none}

-- No descriptor, or the one that the driver has made.
pub data Life : Type 0 where
  idle : Life
  live : DescriptorId → Life

abbrev pub using : DescriptorId → Life → Option Life
using id idle = none
using id (live j) = if j == id then some (live j) else none

abbrev pub making : Gralloc1Error → DescriptorId → Life → Option Life
making e id idle = if is_none e then some (live id) else some idle
making e id (live j) = none

abbrev pub ending : DescriptorId → Life → Option Life
ending id idle = none
ending id (live j) = if j == id then some idle else none

-- What a call does to the life; `none` is a call on a descriptor that is not alive.
abbrev pub observe : Call → Life → Option Life
observe (Call.created p e id) l = making e id l
observe (Call.destroyed p id) l = ending id l
observe (Call.dimensioned p id w h) l = using id l
observe (Call.formatted p id f) l = using id l
observe (Call.layered p id n) l = using id l
observe (Call.set_up_producer p id u) l = using id l
observe (Call.set_up_consumer p id u) l = using id l
observe (Call.allocated p id e b) l = using id l
observe _ l = some l

abbrev pub watch : List Call → Life → Option Life
watch [] l = some l
watch (c ∷ cs) l = elim (observe c l) [ none ↦ none | some l' ↦ watch cs l' ]

pub watch-append :
    (xs ys : List Call) (l : Life) {m : Life}
    → watch xs l ≡ some m
    → watch (xs ++ ys) l ≡ watch ys m
watch-append [] ys l h = ap (watch ys) (ground arith)
watch-append (x ∷ xs) ys l h = elim (Option-cases (observe x l)) [
  | inl e ↦ absurd (ground arith)
  | inr (l', e) ↦ rw (e, watch) (watch-append xs ys l' (rw (e, watch) at h))
]

pub watch-cons :
    (c : Call) (cs : List Call) (l : Life) {m : Life}
    → observe c l ≡ some m
    → watch (c ∷ cs) l ≡ watch cs m
watch-cons c cs l h = rw (h, watch) refl

-- A trace of calls that each leave the life as it is.
pub watch-still :
    (l : Life) (cs : List Call) → All (λ c. observe c l ≡ some l) cs → watch cs l ≡ some l
watch-still l [] h = refl
watch-still l (c ∷ cs) h = rw (h.0, watch) (watch-still l cs h.1)

abbrev pub Keeps : Life → Call → Type 0
Keeps l c = observe c l ≡ some l

pub using_live : (id : DescriptorId) → using id (live id) ≡ some (live id)
using_live id = rw (==_refl id)

pub ending_live : (id : DescriptorId) → ending id (live id) ≡ some idle
ending_live id = rw (==_refl id)
