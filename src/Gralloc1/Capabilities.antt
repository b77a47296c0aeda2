-- ===== src/Gralloc1/Capabilities.antt =====
-- Gralloc1Hal.h: what `initCapabilities` finds.
use android_device_xenvm.Base.{
  ℕ, ◌-◌, ◌≡◌, refl, ap, ◌∙◌, ◌==◌, Bool, true, false, ◌||◌, List, [], ◌∷◌, ◌++◌, append_assoc,
  arith, pure, ask, ◌>>=◌, length, take, take-length, replicate, any, if◌then◌else◌,
}
use android_device_xenvm.Gralloc1.Device.{Gralloc1Device, Call}
use android_device_xenvm.Gralloc1.Init.{Gralloc1Hal, init_capabilities}

-- The flag is set, or left as it is.
flagged :
    (hal : Gralloc1Hal) (b : Bool)
    → (if b then record hal { layered_buffers = true } else hal)
      ≡ record hal { layered_buffers = hal.layered_buffers || b }
flagged hal true = ap (λ l. record hal { layered_buffers = l }) (ground arith)
flagged hal false = ap (λ l. record hal { layered_buffers = l }) (ground arith)

module _ {D : Type 0} (dev : Gralloc1Device D) where
  -- The capabilities that the driver lists when `initCapabilities` asks for them.
  abbrev pub listed : D → ℕ × List ℕ
  listed d = let counted = dev.capability_count d in (dev.get_capabilities counted.0 counted.1).0

  -- Where the second answer of the driver counts the capabilities that it writes, which are no more
  -- than the first answer counted: `initCapabilities` makes two calls, and afterwards layered
  -- buffers are on exactly where they were before or the capability is among those written.
  -- Nothing else of the object changes.
  pub init_capabilities-listed :
      (hal : Gralloc1Hal) (d : D)
      → (listed d).0 ≡ length (listed d).1
      → let r = init_capabilities dev hal d in
        (r.value ≡ record hal {
          layered_buffers = hal.layered_buffers || any (λ c. c == dev.layered_buffers) (listed d).1;
        })
        × (r.trace
            ≡ Call.counted_capabilities (dev.capability_count d).0
              ∷ Call.got_capabilities (listed d).0
              ∷ [])
  unfolding init_capabilities ◌>>=◌ ask pure
  init_capabilities-listed hal d counted =
      let (n, xs) = listed d in
      let count = (dev.capability_count d).0 in
      let padding : List ℕ = replicate (count - length xs) 0 ++ replicate (n - count) 0 in
      (
        ap
              (λ ys.
                if any (λ c. c == dev.layered_buffers) ys
                then record hal { layered_buffers = true }
                else hal)
              (ap (take n) (append_assoc xs _ _)
                ∙ ap (λ m. take m (xs ++ padding)) counted
                ∙ take-length xs padding)
            ∙ flagged hal (any (λ c. c == dev.layered_buffers) xs),
        refl,
      )
