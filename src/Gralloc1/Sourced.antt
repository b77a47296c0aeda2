-- ===== src/Gralloc1/Sourced.antt =====
-- Gralloc1Hal.h: the pointers of `mDispatch` are those with which the driver answered.
use mathlib.Core.Path.{subst}
use mathlib.Core.List.{Mem, mem-append_left, mem-append_right, mem-cons_self}
use android_device_xenvm.Base.{
  ℕ, ◌≡◌, refl, sym, ◌==◌, Bool, true, false, not, ◌&&◌, none, some, List, [], ◌∷◌, ◌++◌, arith,
  pure, All, any, Runs, pure-Runs, ask-Runs, bind-Runs, if-Runs, then-Runs, weaken-Runs,
}
use android_device_xenvm.Gralloc1.Device.{
  Gralloc1Device, Call, FunctionDescriptor, Pfn, dump, create_descriptor, destroy_descriptor,
  set_dimensions, set_format, set_layer_count, set_consumer_usage, set_producer_usage, get_stride,
  allocate, release,
}
use android_device_xenvm.Gralloc1.Init.{
  Dispatch, Gralloc1Hal, set_pfn, required, init_function, init_functions, init_dispatch,
  init_with_module,
}
use android_device_xenvm.Gralloc1.Loaded.{slot}

abbrev tag : FunctionDescriptor → ℕ
tag dump = 0
tag create_descriptor = 1
tag destroy_descriptor = 2
tag set_dimensions = 3
tag set_format = 4
tag set_layer_count = 5
tag set_consumer_usage = 6
tag set_producer_usage = 7
tag get_stride = 8
tag allocate = 9
tag release = 10

abbrev same : FunctionDescriptor → FunctionDescriptor → Bool
same f g = tag f == tag g

slot-set_pfn_same : (f : FunctionDescriptor) (p : Pfn) (d : Dispatch) → slot f (set_pfn f p d) ≡ p
unfolding set_pfn
slot-set_pfn_same f p d = ground arith

slot-set_pfn_other :
    (g f : FunctionDescriptor) (p : Pfn) (d : Dispatch)
    → same g f ≡ false
    → slot f (set_pfn g p d) ≡ slot f d
unfolding set_pfn
slot-set_pfn_other dump f p d h = ground arith
slot-set_pfn_other create_descriptor f p d h = ground arith
slot-set_pfn_other destroy_descriptor f p d h = ground arith
slot-set_pfn_other set_dimensions f p d h = ground arith
slot-set_pfn_other set_format f p d h = ground arith
slot-set_pfn_other set_layer_count f p d h = ground arith
slot-set_pfn_other set_consumer_usage f p d h = ground arith
slot-set_pfn_other set_producer_usage f p d h = ground arith
slot-set_pfn_other get_stride f p d h = ground arith
slot-set_pfn_other allocate f p d h = ground arith
slot-set_pfn_other release f p d h = ground arith

-- The driver was asked for the function, and answered with the pointer in its slot.
abbrev pub Sourced : List Call → Gralloc1Hal → FunctionDescriptor → Type 0
Sourced h hal f = Mem (Call.got_function f (slot f hal.dispatch)) h

-- None of the functions is among those that are done, or stands twice.
abbrev fresh_in : List FunctionDescriptor → List FunctionDescriptor → Bool
fresh_in [] done = true
fresh_in (f ∷ fs) done = not (any (same f) done) && fresh_in fs (f ∷ done)

abbrev pub onto : List FunctionDescriptor → List FunctionDescriptor → List FunctionDescriptor
onto [] done = done
onto (f ∷ fs) done = onto fs (f ∷ done)

Sourced-later :
    (h : List Call) (f : FunctionDescriptor) (p : Pfn) (hal : Gralloc1Hal)
    (done : List FunctionDescriptor)
    → any (same f) done ≡ false
    → All (Sourced h hal) done
    → All
        (Sourced
          (h ++ (Call.got_function f p ∷ []))
          (record hal { dispatch = set_pfn f p hal.dispatch }))
        done
Sourced-later h f p hal [] e a = tt
Sourced-later h f p hal (g ∷ done) e a = (
  subst (λ q. Mem (Call.got_function g q) (h ++ (Call.got_function f p ∷ [])))
      (sym (slot-set_pfn_other f g p hal.dispatch (ground (arith)))) (mem-append_left _ a.0),
  Sourced-later h f p hal done (ground (arith)) a.1,
)

-- A step of the initialisation succeeds with the pointers of these functions.
abbrev Points : {D : Type 0} → List FunctionDescriptor → Bool × Gralloc1Hal → List Call → D → Type 0
Points fs r h d = r.0 ≡ true → All (Sourced h r.1) fs

module _ {D : Type 0} (dev : Gralloc1Device D) where
  init_function-Runs :
      (f : FunctionDescriptor) (hal : Gralloc1Hal) (done : List FunctionDescriptor)
      → any (same f) done ≡ false
      → Runs (λ h d. All (Sourced h hal) done) (Points (f ∷ done)) (init_function dev f hal)
  unfolding init_function
  init_function-Runs f hal done e =
      bind-Runs _
        (λ p h d. All (Sourced h (record hal { dispatch = set_pfn f p hal.dispatch })) (f ∷ done)) _
        (ask-Runs _ _ _ _ λ h d a.
          let p = (dev.get_function f d).0 in
          (
            subst (λ q. Mem (Call.got_function f q) (h ++ (Call.got_function f p ∷ [])))
                (sym (slot-set_pfn_same f p hal.dispatch)) (mem-append_right h mem-cons_self),
            Sourced-later h f p hal done e a,
          ))
        answered
    where
      answered :
          (p : Pfn)
          → Runs
              (λ h (d : D).
                All (Sourced h (record hal { dispatch = set_pfn f p hal.dispatch })) (f ∷ done))
              (Points (f ∷ done))
              (pure (elim p [
                | none ↦ (false, hal)
                | some p ↦ (true, record hal { dispatch = set_pfn f (some p) hal.dispatch })
              ]))
      answered none = pure-Runs _ _ λ h d a ok. absurd (ground arith)
      answered (some p) = pure-Runs _ _ λ h d a ok. a

  init_functions-Runs :
      (fs : List FunctionDescriptor) (hal : Gralloc1Hal) (done : List FunctionDescriptor)
      → fresh_in fs done ≡ true
      → Runs (λ h d. All (Sourced h hal) done) (Points (onto fs done)) (init_functions dev fs hal)
  unfolding init_functions
  init_functions-Runs [] hal done e = pure-Runs _ _ λ h d a ok. a
  init_functions-Runs (f ∷ fs) hal done e =
      bind-Runs _ (Points (f ∷ done)) _ (init_function-Runs f hal done (ground (arith))) λ r.
        if-Runs _ _ r.0
          (λ ok. record {
            at = λ h d a. (init_functions-Runs fs r.1 (f ∷ done) (ground (arith))).at h d (a ok);
          })
          (λ bad. pure-Runs _ _ λ h d a ok. absurd (ground (arith)))

  -- What a successful initialisation has of the pointers.
  pub record HasPointers (r : Bool × Gralloc1Hal) (h : List Call) (d : D) : Type 0 where
    pub functions : r.0 ≡ true → All (Sourced h r.1) (onto required [])
    pub layers : r.0 ≡ true → r.1.layered_buffers ≡ true → Sourced h r.1 set_layer_count

  init_dispatch-Runs :
      (hal : Gralloc1Hal) → Runs (λ h d. Unit {0}) HasPointers (init_dispatch dev hal)
  unfolding init_dispatch
  init_dispatch-Runs hal =
      bind-Runs _ (Points (onto required [])) _
        (weaken-Runs {Post = Points (onto required [])} (λ h d u. tt) (λ r h d a. a)
          (init_functions-Runs required hal [] refl))
        λ r.
          if-Runs _ _ (not r.0)
            (λ bad.
              pure-Runs _ _
                λ h d a. record { functions = a; layers = λ ok l. absurd (ground (arith)) })
            (λ good.
              if-Runs _ _ r.1.layered_buffers
                (λ layered.
                  weaken-Runs {Post = Points (set_layer_count ∷ onto required [])}
                    (λ h d a. a (ground (arith)))
                    (λ q h d a. record { functions = λ ok. (a ok).1; layers = λ ok l. (a ok).0 })
                    (init_function-Runs set_layer_count r.1 (onto required []) refl))
                (λ flat.
                  pure-Runs _ _
                    λ h d a. record { functions = a; layers = λ ok l. absurd (ground (arith)) }))

  pub init_with_module-Runs :
      (hal : Gralloc1Hal) → Runs (λ h d. Unit {0}) HasPointers (init_with_module dev hal)
  unfolding init_with_module
  init_with_module-Runs hal =
      bind-Runs _ (λ failed h d. Unit {0}) _ (ask-Runs _ _ _ _ λ h d u. tt)
        λ failed.
          if-Runs _ _ failed (λ e. pure-Runs _ _ λ h d u. none_needed _ h d refl)
            (λ e.
              bind-Runs _ (λ capable h d. Unit {0}) _ (record { at = λ h d u. tt })
                λ capable. bind-Runs _ HasPointers _ (init_dispatch-Runs capable) λ r.
                  if-Runs _ _ r.0 (λ ok. pure-Runs _ _ λ h d a. a)
                    (λ bad.
                      then-Runs _ (λ h d. Unit {0}) _ (ask-Runs _ _ _ _ λ h d a. tt)
                        (pure-Runs _ _ λ h d u. none_needed _ h d refl)))
    where
      none_needed :
          (r : Bool × Gralloc1Hal) (h : List Call) (d : D) → r.0 ≡ false → HasPointers r h d
      none_needed r h d bad = record {
        functions = λ ok. absurd (ground (arith));
        layers = λ ok l. absurd (ground (arith));
      }
