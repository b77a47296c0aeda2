-- ===== src/Gralloc1/Opened.antt =====
-- Gralloc1Hal.h opens and closes the driver's device.
use android_device_xenvm.Base.{
  ℕ, ◌+◌, ◌≡◌, refl, ◌∙◌, Bool, true, false, List, [], ◌∷◌, arith, Done, pure, ask, ◌>>=◌, ◌>>◌,
  Bool-cases, inl, inr, All, if◌then◌else◌,
}
use android_device_xenvm.Base.Count.{total, total-append_append}
use android_device_xenvm.Gralloc1.Device.{Gralloc1Device, Call}
use android_device_xenvm.Gralloc1.Init.{
  Gralloc1Hal, init_capabilities, init_dispatch, init_with_module,
}
use android_device_xenvm.Gralloc1.InitCalls.{OnAsk, init_capabilities-Always, init_dispatch-Always}
use android_device_xenvm.Gralloc1.Loaded.{init_dispatch-IsLoaded}

-- Whether a call opens a device, and whether it closes one.
abbrev pub opens : Call → ℕ
opens (Call.opened failed) = if failed then 0 else 1
opens _ = 0

abbrev pub closes : Call → ℕ
closes Call.closed = 1
closes _ = 0

abbrev Neutral : Call → Type 0
Neutral c = (opens c ≡ 0) × (closes c ≡ 0)

Neutral-total : (cs : List Call) → All Neutral cs → (total opens cs ≡ 0) × (total closes cs ≡ 0)
Neutral-total [] h = (refl, refl)
Neutral-total (c ∷ cs) h = let (o, k) = Neutral-total cs h.1 in (omega arith, omega arith)

module _ {D : Type 0} (dev : Gralloc1Device D) where
  asked : OnAsk dev Neutral
  asked = record {
    counted = λ n. (refl, refl);
    listed = λ n. (refl, refl);
    looked_up = λ f p. (refl, refl);
  }

  init_capabilities-same_device :
      (hal : Gralloc1Hal) (d : D) → (init_capabilities dev hal d).value.has_device ≡ hal.has_device
  unfolding init_capabilities ◌>>=◌ ask pure
  init_capabilities-same_device hal d = ground arith

  -- A run that opens one device more than it closes where it answers true, and closes what it
  -- opened where it answers false; `has_device` says which.
  pub record Opens (r : Done Call D (Bool × Gralloc1Hal)) : Type 0 where
    pub kept :
        r.value.0 ≡ true
        → (total opens r.trace ≡ total closes r.trace + 1) × (r.value.1.has_device ≡ true)
    pub dropped :
        r.value.0 ≡ false
        → (total opens r.trace ≡ total closes r.trace) × (r.value.1.has_device ≡ false)

  -- Whatever the driver answers: where `initWithModule` returns true, it has opened the device
  -- once more than it has closed it, and `mDevice` is set; where it returns false, it has closed
  -- the device as often as it has opened it, and `mDevice` is null.
  pub init_with_module-Opens : (hal : Gralloc1Hal) (d : D) → Opens (init_with_module dev hal d)
  unfolding init_with_module ◌>>=◌ ◌>>◌ ask pure
  init_with_module-Opens hal d = elim (Bool-cases (dev.open_device d).0) [
    | inl failed ↦
        rw (failed, init_with_module)
          (record { kept = λ h. absurd (ground arith); dropped = λ h. (refl, refl) })
    | inr opened ↦
        let capable =
          init_capabilities dev (record hal { has_device = true }) (dev.open_device d).1 in
        let r = init_dispatch dev capable.value capable.state in
        let (co, cc') = Neutral-total capable.trace (
          (init_capabilities-Always dev Neutral asked (record hal { has_device = true })).at
            (dev.open_device d).1) in
        let (ro, rc) =
          Neutral-total r.trace
            ((init_dispatch-Always dev Neutral asked capable.value).at capable.state) in
        elim (Bool-cases r.value.0) [
          | inl ok ↦
              rw (opened, ok, init_with_module)
                (record {
                  kept = λ h. (
                    omega (
                      arith,
                      total-append_append opens capable.trace r.trace [],
                      total-append_append closes capable.trace r.trace [],
                    ),
                    (init_dispatch-IsLoaded dev capable.value capable.state ok).1
                        ∙ init_capabilities-same_device (record hal { has_device = true })
                            (dev.open_device d).1,
                  );
                  dropped = λ h. absurd (ground arith);
                })
          | inr bad ↦
              rw (opened, bad, init_with_module)
                (record {
                  kept = λ h. absurd (ground arith);
                  dropped = λ h. (
                    omega (
                      arith,
                      total-append_append opens capable.trace r.trace (Call.closed ∷ []),
                      total-append_append closes capable.trace r.trace (Call.closed ∷ []),
                    ),
                    refl,
                  );
                })
        ]
  ]
