-- ===== src/Gralloc1/Loaded.antt =====
-- `initDispatch` and null pointers: what a successful `initWithModule` guarantees of `mDispatch`,
-- and that the operations then call through no null pointer.
use mathlib.Core.Path.{subst}
use android_device_xenvm.Base.{
  ℕ, ◌≡◌, ◌≢◌, refl, sym, ◌∙◌, true, none, some, List, [], ◌∷◌, arith, pure, ask, ◌>>=◌, ◌>>◌,
  Bool-cases, Option-cases, inl, inr, All,
}
use android_device_xenvm.Gralloc1.Device.{
  Gralloc1Device, FunctionDescriptor, Pfn, dump, create_descriptor, destroy_descriptor,
  set_dimensions, set_format, set_layer_count, set_consumer_usage, set_producer_usage, get_stride,
  allocate, release,
}
use android_device_xenvm.Gralloc1.Init.{
  Dispatch, Gralloc1Hal, set_pfn, required, init_capabilities, init_function, init_functions,
  init_dispatch, init_with_module,
}

-- The member of `mDispatch` for a function.
abbrev pub slot : FunctionDescriptor → Dispatch → Pfn
slot dump d = d.dump_pfn
slot create_descriptor d = d.create_descriptor_pfn
slot destroy_descriptor d = d.destroy_descriptor_pfn
slot set_dimensions d = d.set_dimensions_pfn
slot set_format d = d.set_format_pfn
slot set_layer_count d = d.set_layer_count_pfn
slot set_consumer_usage d = d.set_consumer_usage_pfn
slot set_producer_usage d = d.set_producer_usage_pfn
slot get_stride d = d.get_stride_pfn
slot allocate d = d.allocate_pfn
slot release d = d.release_pfn

abbrev pub Loaded : Gralloc1Hal → FunctionDescriptor → Type 0
Loaded hal f = slot f hal.dispatch ≢ none

slot-set_pfn :
    (f : FunctionDescriptor) (p : ℕ) (d : Dispatch) → slot f (set_pfn f (some p) d) ≢ none
unfolding set_pfn
slot-set_pfn f p d = ground arith

set_pfn-keeps :
    (g f : FunctionDescriptor) (p : ℕ) (d : Dispatch)
    → slot f d ≢ none
    → slot f (set_pfn g (some p) d) ≢ none
unfolding set_pfn
set_pfn-keeps dump f p d h = ground arith
set_pfn-keeps create_descriptor f p d h = ground arith
set_pfn-keeps destroy_descriptor f p d h = ground arith
set_pfn-keeps set_dimensions f p d h = ground arith
set_pfn-keeps set_format f p d h = ground arith
set_pfn-keeps set_layer_count f p d h = ground arith
set_pfn-keeps set_consumer_usage f p d h = ground arith
set_pfn-keeps set_producer_usage f p d h = ground arith
set_pfn-keeps get_stride f p d h = ground arith
set_pfn-keeps allocate f p d h = ground arith
set_pfn-keeps release f p d h = ground arith

-- Every member of `mDispatch` but `setLayerCount` is loaded, and that one where the driver has
-- layers.
pub record IsLoaded (hal : Gralloc1Hal) : Type 0 where
  pub functions : (f : FunctionDescriptor) → f ≢ set_layer_count → Loaded hal f
  pub layers : hal.layered_buffers ≡ true → Loaded hal set_layer_count

-- `initDispatch` asks for every function but the last.
All-required :
    (hal : Gralloc1Hal)
    → All (Loaded hal) required
    → (f : FunctionDescriptor) → f ≢ set_layer_count
    → Loaded hal f
All-required hal h dump other = h.0
All-required hal h create_descriptor other = h.1.0
All-required hal h destroy_descriptor other = h.1.1.0
All-required hal h set_dimensions other = h.1.1.1.0
All-required hal h set_format other = h.1.1.1.1.0
All-required hal h set_layer_count other = absurd (other refl)
All-required hal h set_consumer_usage other = h.1.1.1.1.1.0
All-required hal h set_producer_usage other = h.1.1.1.1.1.1.0
All-required hal h get_stride other = h.1.1.1.1.1.1.1.0
All-required hal h allocate other = h.1.1.1.1.1.1.1.1.0
All-required hal h release other = h.1.1.1.1.1.1.1.1.1.0

-- One more function: what was loaded stays so.
pub record Extends (hal hal' : Gralloc1Hal) : Type 0 where
  pub keeps : (f : FunctionDescriptor) → Loaded hal f → Loaded hal' f
  pub same_device : hal'.has_device ≡ hal.has_device
  pub same_layers : hal'.layered_buffers ≡ hal.layered_buffers

Extends-trans : {a b c : Gralloc1Hal} → Extends a b → Extends b c → Extends a c
Extends-trans x y = record {
  keeps = λ f h. y.keeps f (x.keeps f h);
  same_device = y.same_device ∙ x.same_device;
  same_layers = y.same_layers ∙ x.same_layers;
}

Extends-All :
    {a b : Gralloc1Hal}
    → Extends a b
    → (fs : List FunctionDescriptor) → All (Loaded a) fs
    → All (Loaded b) fs
Extends-All e [] h = tt
Extends-All e (f ∷ fs) h = (e.keeps f h.0, Extends-All e fs h.1)

module _ {D : Type 0} (dev : Gralloc1Device D) where
  init_function-Loaded :
      (desc : FunctionDescriptor) (hal : Gralloc1Hal) (d : D)
      → let r = init_function dev desc hal d in
        r.value.0 ≡ true → Loaded r.value.1 desc × Extends hal r.value.1
  unfolding init_function ◌>>=◌ ask pure
  init_function-Loaded desc hal d = elim (Option-cases (dev.get_function desc d).0) [
    | inl e ↦ rw (e, init_function) (λ h. cc)
    | inr (p, e) ↦
        rw (e, init_function)
          (λ h. (
            slot-set_pfn desc p hal.dispatch,
            record {
              keeps = λ f loaded. set_pfn-keeps desc f p hal.dispatch loaded;
              same_device = refl;
              same_layers = refl;
            },
          ))
  ]

  init_functions-cons :
      (f : FunctionDescriptor) (fs : List FunctionDescriptor) (hal : Gralloc1Hal) (d : D)
      → let one = init_function dev f hal d in
        one.value.0 ≡ true
        → (init_functions dev (f ∷ fs) hal d).value
          ≡ (init_functions dev fs one.value.1 one.state).value
  unfolding init_functions ◌>>=◌
  init_functions-cons f fs hal d ok = rw ok refl

  init_functions-Loaded :
      (descs : List FunctionDescriptor) (hal : Gralloc1Hal) (d : D)
      → let r = init_functions dev descs hal d in
        r.value.0 ≡ true → All (Loaded r.value.1) descs × Extends hal r.value.1
  unfolding init_functions ◌>>=◌ pure
  init_functions-Loaded [] hal d =
      λ h. (tt, record { keeps = λ f l. l; same_device = refl; same_layers = refl })
  init_functions-Loaded (f ∷ fs) hal d =
      let one = init_function dev f hal d in
      elim (Bool-cases one.value.0) [
        | inl ok ↦
            subst (λ v. v.0 ≡ true → All (Loaded v.1) (f ∷ fs) × Extends hal v.1)
              (sym (init_functions-cons f fs hal d ok))
              λ h.
                let (l, e) = init_function-Loaded f hal d ok in
                let (ls, es) = init_functions-Loaded fs one.value.1 one.state h in
                ((es.keeps f l, ls), Extends-trans e es)
        | inr bad ↦ rw (bad, init_functions) (λ h. absurd (ground arith))
      ]

  pub init_dispatch-IsLoaded :
      (hal : Gralloc1Hal) (d : D)
      → let r = init_dispatch dev hal d in
        r.value.0 ≡ true → IsLoaded r.value.1 × (r.value.1.has_device ≡ hal.has_device)
  unfolding init_dispatch ◌>>=◌ pure
  init_dispatch-IsLoaded hal d =
      let base = init_functions dev required hal d in
      elim (Bool-cases base.value.0) [
        | inr bad ↦ rw (bad, init_dispatch) (λ h. absurd (ground arith))
        | inl ok ↦
            let (loaded, base_extends) = init_functions-Loaded required hal d ok in
            elim (Bool-cases base.value.1.layered_buffers) [
              | inr flat ↦
                  rw (ok, flat, init_dispatch)
                    (λ h. (
                      record {
                        functions = All-required base.value.1 loaded;
                        layers = λ l. absurd (ground arith);
                      },
                      base_extends.same_device,
                    ))
              | inl layered ↦
                  rw (ok, layered, init_dispatch)
                    (λ h.
                      let (last, e) =
                        init_function-Loaded set_layer_count base.value.1 base.state h in
                      (
                        record {
                          functions =
                              All-required
                                (init_function dev set_layer_count base.value.1 base.state).value.1
                                (Extends-All e required loaded);
                          layers = λ l. last;
                        },
                        e.same_device ∙ base_extends.same_device,
                      ))
            ]
      ]

  -- When `initWithModule` returns true, the pointer in `mDispatch` of each function that the code
  -- knows but `setLayerCount` is not null, and neither is that of `setLayerCount` if the driver was
  -- found to have layered buffers.
  pub init_with_module-IsLoaded :
      (hal : Gralloc1Hal) (d : D)
      → let r = init_with_module dev hal d in r.value.0 ≡ true → IsLoaded r.value.1
  unfolding init_with_module ◌>>=◌ ◌>>◌ pure ask
  init_with_module-IsLoaded hal d = elim (Bool-cases (dev.open_device d).0) [
    | inl failed ↦ rw (failed, init_with_module) (λ h. absurd (ground arith))
    | inr opened ↦
        let capable =
          init_capabilities dev (record hal { has_device = true }) (dev.open_device d).1 in
        let r = init_dispatch dev capable.value capable.state in
        elim (Bool-cases r.value.0) [
          | inl ok ↦
              rw (opened, ok, init_with_module)
                (λ h. (init_dispatch-IsLoaded capable.value capable.state ok).0)
          | inr bad ↦ rw (opened, bad, init_with_module) (λ h. absurd (ground arith))
        ]
  ]
