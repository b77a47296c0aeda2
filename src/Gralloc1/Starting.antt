-- ===== src/Gralloc1/Starting.antt =====
-- Gralloc1Hal.h on a driver that has what is asked of it: `initWithModule` succeeds.
use android_device_xenvm.Base.{
  ◌≡◌, ◌≢◌, refl, ap, ◌∙◌, true, false, Bool, not, ◌==◌, any, length, none, List, [], ◌∷◌, arith,
  pure, ask, ◌>>=◌, Option-cases, inl, inr, Returns, pure-Returns, ask-Returns, bind-Returns,
  if-Returns, weaken-Returns,
}
use android_device_xenvm.Gralloc1.Device.{Gralloc1Device, FunctionDescriptor, set_layer_count}
use android_device_xenvm.Gralloc1.Init.{
  Gralloc1Hal, fresh, required, init_capabilities, init_function, init_functions, init_dispatch,
  init_with_module,
}
use android_device_xenvm.Gralloc1.Capabilities.{listed, init_capabilities-listed}

-- The device opens, no function is missing, and the capabilities that are listed, as many as the
-- second call counts and no more than the first one did, hold the one for layered buffers or not.
pub record IsComplete {D : Type 0} (dev : Gralloc1Device D) (layered : Bool) : Type 0 where
  pub opens : (d : D) → (dev.open_device d).0 ≡ false
  pub has : (f : FunctionDescriptor) (d : D) → (dev.get_function f d).0 ≢ none
  pub counts : (d : D) → (listed dev d).0 ≡ length (listed dev d).1
  pub lists : (d : D) → any (λ c. c == dev.layered_buffers) (listed dev d).1 ≡ layered

-- A success that leaves the members but `mDispatch` as they were.
abbrev Succeeds : Gralloc1Hal → Bool × Gralloc1Hal → Type 0
Succeeds hal r =
    (r.0 ≡ true) × (r.1.has_device ≡ hal.has_device) × (r.1.layered_buffers ≡ hal.layered_buffers)

module _ {D : Type 0} (dev : Gralloc1Device D) (layered : Bool)
    (complete : IsComplete dev layered) where
  init_function-Succeeds :
      (f : FunctionDescriptor) (hal : Gralloc1Hal)
      → Returns (Succeeds hal) (init_function dev f hal)
  unfolding init_function ◌>>=◌ ask pure
  init_function-Succeeds f hal = record {
    at = λ d. elim (Option-cases (dev.get_function f d).0) [
      | inl missing ↦ absurd (complete.has f d missing)
      | inr (p, e) ↦ rw (e, init_function) (refl, refl, refl)
    ];
  }

  init_functions-Succeeds :
      (fs : List FunctionDescriptor) (hal : Gralloc1Hal)
      → Returns (Succeeds hal) (init_functions dev fs hal)
  unfolding init_functions
  init_functions-Succeeds [] hal = pure-Returns (Succeeds hal) (refl, refl, refl)
  init_functions-Succeeds (f ∷ fs) hal =
      bind-Returns (Succeeds hal) (Succeeds hal) (init_function-Succeeds f hal) λ r (ok, h, l).
        if-Returns (Succeeds hal) r.0
          (λ _.
            weaken-Returns (λ v (k, h', l'). (k, h' ∙ h, l' ∙ l)) (init_functions-Succeeds fs r.1))
          (λ bad. absurd (ground arith))

  init_dispatch-Succeeds : (hal : Gralloc1Hal) → Returns (Succeeds hal) (init_dispatch dev hal)
  unfolding init_dispatch
  init_dispatch-Succeeds hal =
      bind-Returns (Succeeds hal) (Succeeds hal) (init_functions-Succeeds required hal)
        λ r (ok, h, l).
          if-Returns (Succeeds hal) (not r.0) (λ bad. absurd (ground arith))
            λ _.
              if-Returns (Succeeds hal) r.1.layered_buffers
                (λ _.
                  weaken-Returns (λ v (k, h', l'). (k, h' ∙ h, l' ∙ l))
                    (init_function-Succeeds set_layer_count r.1))
                (λ _. pure-Returns (Succeeds hal) (ok, h, l))

  -- What `initWithModule` leaves in a new object.
  abbrev pub Ready : Bool × Gralloc1Hal → Type 0
  Ready r = (r.0 ≡ true) × (r.1.has_device ≡ true) × (r.1.layered_buffers ≡ layered)

  init_capabilities-Ready :
      Returns
        (λ hal. (hal.has_device ≡ true) × (hal.layered_buffers ≡ layered))
        (init_capabilities dev (record fresh { has_device = true }))
  init_capabilities-Ready = record {
    at = λ d.
        let new : Gralloc1Hal = record fresh { has_device = true } in
        let e = (init_capabilities-listed dev new d (complete.counts d)).0 in
        (ap (λ h. h.has_device) e, ap (λ h. h.layered_buffers) e ∙ complete.lists d);
  }

  -- Where the device opens, no function is missing and the driver lists as many capabilities as its
  -- second answer counts, no more than the first one counted, `initWithModule` on a new object
  -- returns true, and leaves it with its device, and with layered buffers on exactly where they are
  -- listed.
  pub init_with_module-Ready : Returns Ready (init_with_module dev fresh)
  unfolding init_with_module
  init_with_module-Ready =
      bind-Returns (λ failed. failed ≡ false) Ready (ask-Returns _ _ _ complete.opens)
        λ failed ok.
          if-Returns Ready failed (λ bad. absurd (ground arith))
            λ _. bind-Returns _ Ready init_capabilities-Ready λ hal (h, l).
              bind-Returns (Succeeds hal) Ready (init_dispatch-Succeeds hal) λ r (k, h', l').
                if-Returns Ready r.0 (λ _. pure-Returns Ready (k, h' ∙ h, l' ∙ l))
                  (λ bad. absurd (ground arith))
