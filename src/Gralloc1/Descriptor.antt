-- ===== src/Gralloc1/Descriptor.antt =====
-- Gralloc1Hal.h: `createDescriptor`, which builds a driver's descriptor for a request.
use android_device_xenvm.Base.{
  pos, to_int32, Option, none, some, Proc, pure, ask, ◌>>=◌, ◌>>◌, ltb, if◌then◌else◌,
}
use android_device_xenvm.Graphics.{Error, BufferDescriptorInfo, written}
use android_device_xenvm.Gralloc1.Device.{
  Gralloc1Device, Gralloc1Error, Call, DescriptorId, is_none,
}
use android_device_xenvm.Gralloc1.Convert.{
  UsageFlags, to_error, to_producer_usage, to_consumer_usage,
}
use android_device_xenvm.Gralloc1.Init.{Gralloc1Hal}

-- `if (error == GRALLOC1_ERROR_NONE) { error = …; }`
abbrev pub and_then :
    {D : Type 0} → Gralloc1Error → Proc Call D Gralloc1Error → Proc Call D Gralloc1Error
and_then error step = if is_none error then step else pure error

module _ {D : Type 0} (dev : Gralloc1Device D) (hal : Gralloc1Hal) where
  -- `mDispatch.destroyDescriptor(mDevice, descriptor)`, whose result is dropped.
  abbrev pub destroy_descriptor : DescriptorId → Proc Call D Gralloc1Error
  destroy_descriptor id =
      ask (dev.destroy_descriptor id) (λ _. Call.destroyed hal.dispatch.destroy_descriptor_pfn id)

module _ {D : Type 0} (dev : Gralloc1Device D) (flags : UsageFlags) (hal : Gralloc1Hal) where
  open hal.dispatch use {
    create_descriptor_pfn, set_dimensions_pfn, set_format_pfn, set_layer_count_pfn,
    set_producer_usage_pfn, set_consumer_usage_pfn,
  }

  -- The calls between the creation and the test of the last error.
  unfoldable pub set_up :
      BufferDescriptorInfo → DescriptorId → Gralloc1Error → Proc Call D Gralloc1Error
  set_up info id error = do
    error ← and_then error (
        ask (dev.set_dimensions id info.width info.height)
          (λ _. Call.dimensioned set_dimensions_pfn id info.width info.height))
    error ←
        let format = to_int32 (pos info.format) in
        and_then error
          (ask (dev.set_format id format) (λ _. Call.formatted set_format_pfn id format))
    error ← and_then error (
        if hal.layered_buffers
        then ask (dev.set_layer_count id info.layer_count)
            (λ _. Call.layered set_layer_count_pfn id info.layer_count)
        else if ltb 1 info.layer_count
        then pure Gralloc1Error.unsupported
        else pure error)
    error ← and_then error (
        let usage = to_producer_usage flags info.usage in
        ask (dev.set_producer_usage id usage)
          (λ _. Call.set_up_producer set_producer_usage_pfn id usage))
    and_then error (
        let usage = to_consumer_usage flags info.usage in
        ask (dev.set_consumer_usage id usage)
          (λ _. Call.set_up_consumer set_consumer_usage_pfn id usage))

  -- `unset` is what the local `descriptor` holds before the driver writes it. The second part of
  -- the result is what is written to `*outDescriptor`.
  unfoldable pub create_descriptor :
      BufferDescriptorInfo → DescriptorId → Proc Call D (Error × Option DescriptorId)
  create_descriptor info unset = do
    reply ←
        ask dev.create_descriptor (λ r. Call.created create_descriptor_pfn r.0 (written r.1 unset))
    let id = written reply.1 unset
    error ← set_up info id reply.0
    if is_none error
        then pure (to_error error, some id)
        else (destroy_descriptor dev hal id >> pure (to_error error, none))
