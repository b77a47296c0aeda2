-- ===== src/Gralloc0/Refusals.antt =====
-- Gralloc0Hal.h: requests that a gralloc0 driver cannot serve.
use android_device_xenvm.Base.{
  ℕ, zero, suc, ◌≡◌, refl, Bool, true, not, ◌||◌, Option, none, some, [], arith, pure, ◌>>=◌, ◌>>◌,
  ltb, ◌==◌, ◌/◌, ◌^◌, if◌then◌else◌,
}
use android_device_xenvm.Graphics.{
  Error, BufferDescriptor, BufferDescriptorInfo, allocate_loop, take_reply,
}
use android_device_xenvm.Gralloc0.{
  Gralloc0Device, Unset, allocate_one_buffer, free_buffers, conclude, allocate_buffers,
}

-- It has more than one layer, or a usage beyond 32 bits.
abbrev pub needs_more : BufferDescriptorInfo → Bool
needs_more info = ltb 1 info.layer_count || not (info.usage / 2 ^ 32 == 0)

-- A request for more than one layer, or with a usage beyond 32 bits, reaches the driver with no
-- call and leaves its state. It is answered BAD_VALUE if it asks for a buffer; if it asks for
-- none, it succeeds with no buffers and stride 0.
pub allocate_buffers-needs_more :
    {D : Type 0} (dev : Gralloc0Device D) (decode : BufferDescriptor → Option BufferDescriptorInfo)
    (unset : Unset) (descriptor : BufferDescriptor) (count : ℕ) (info : BufferDescriptorInfo)
    → decode descriptor ≡ some info
    → needs_more info ≡ true
    → (d : D)
    → let r = allocate_buffers dev decode unset descriptor count d in
      (r.trace ≡ [])
      × (r.state ≡ d)
      × (r.value ≡ (if count == 0 then (Error.no_error, some (0, [])) else (Error.bad_value, none)))
unfolding allocate_buffers allocate_loop allocate_one_buffer take_reply conclude free_buffers ◌>>=◌
    ◌>>◌ pure
allocate_buffers-needs_more dev decode unset descriptor zero info e h d =
    rw (e, allocate_buffers) (refl, refl, refl)
allocate_buffers-needs_more dev decode unset descriptor (suc left) info e h d =
    rw (e, h, allocate_buffers) (refl, refl, ground arith)
