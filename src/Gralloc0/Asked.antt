-- ===== src/Gralloc0/Asked.antt =====
-- Gralloc0Hal.h: what the driver is asked for.
use mathlib.Core.Path.{subst}
use android_device_xenvm.Base.{
  ℕ, ◌<◌, ◌^◌, ◌≡◌, refl, sym, ap, ◌∙◌, false, Option, some, arith, pos, to_int32, to_uint32,
  to_uint32-to_int32, ltb, All,
}
use android_device_xenvm.Graphics.{written, BufferDescriptor, BufferDescriptorInfo}
use android_device_xenvm.Gralloc0.{Gralloc0Device, Call, Unset, allocate_buffers}
use android_device_xenvm.Gralloc0.Calls.{OnAlloc, allocate_buffers-Always}
use android_device_xenvm.Gralloc0.Refusals.{needs_more}

-- A call for the request: `alloc` with its dimensions and its format as ints, and an int that is its
-- whole usage as a uint32_t; or `free`.
abbrev pub AsksFor : BufferDescriptorInfo → Call → Type 0
AsksFor info (Call.allocated width height format usage result buffer) =
    (width ≡ to_int32 (pos info.width))
    × (height ≡ to_int32 (pos info.height))
    × (format ≡ to_int32 (pos info.format))
    × (to_uint32 usage ≡ info.usage)
    × (ltb 1 info.layer_count ≡ false)
AsksFor info (Call.freed buffer) = Unit {0}
AsksFor info _ = ⊥

needs_no_more :
    (info : BufferDescriptorInfo)
    → needs_more info ≡ false
    → (info.usage < 2 ^ 32) × (ltb 1 info.layer_count ≡ false)
needs_no_more info h = ground arith

-- For a descriptor that decodes, `allocateBuffers` calls of the driver only `alloc` and `free`.
-- Each `alloc` is asked for the dimensions and the format of the request converted to int, and for
-- an int that as a uint32_t is the whole 64-bit usage; the request has at most one layer then.
pub allocate_buffers-AsksFor :
    {D : Type 0} (dev : Gralloc0Device D) (decode : BufferDescriptor → Option BufferDescriptorInfo)
    (unset : Unset) (descriptor : BufferDescriptor) (count : ℕ) (info : BufferDescriptorInfo)
    → decode descriptor ≡ some info
    → (d : D) → All (AsksFor info) (allocate_buffers dev decode unset descriptor count d).trace
allocate_buffers-AsksFor dev decode unset descriptor count info e d =
    (allocate_buffers-Always dev (AsksFor info) (λ b. tt) decode unset descriptor count on).at d
  where
    on :
        (other : BufferDescriptorInfo)
        → decode descriptor ≡ some other
        → OnAlloc (AsksFor info) other
    on other e' served result b =
        subst
          (λ i. AsksFor i (
            Call.allocated (to_int32 (pos other.width)) (to_int32 (pos other.height))
              (to_int32 (pos other.format)) (to_int32 (pos other.usage)) result b))
          (ap (λ o. written o info) (sym e' ∙ e))
          (let (small, flat) = needs_no_more other served in
            (refl, refl, refl, to_uint32-to_int32 other.usage small, flat))
