-- ===== src/Gralloc1/Buffers.antt =====
-- Gralloc1Hal.h: `allocateOneBuffer`, `allocateBuffers` and `freeBuffers`.
use android_device_xenvm.Base.{
  ℕ, Option, none, some, List, [], ◌∷◌, Proc, pure, ask, ◌>>=◌, ◌>>◌, ◌&&◌, not, if◌then◌else◌,
}
use android_device_xenvm.Graphics.{
  Error, Handle, Batch, BufferDescriptor, BufferDescriptorInfo, AllocatorHal, written,
  allocate_loop,
}
use android_device_xenvm.Graphics
use android_device_xenvm.Gralloc1.Device.{
  Gralloc1Device, Call, DescriptorId, is_none, is_not_shared, is_undefined,
}
use android_device_xenvm.Gralloc1.Convert.{UsageFlags, to_error}
use android_device_xenvm.Gralloc1.Dump.{dump_debug_info}
use android_device_xenvm.Gralloc1.Init.{Gralloc1Hal}
use android_device_xenvm.Gralloc1.Descriptor.{create_descriptor, destroy_descriptor}

-- What the locals hold that C++ leaves uninitialised: `descriptor` in `createDescriptor`, `desc`
-- in `allocateBuffers`, and `tmpBuffer` and `tmpStride` in its loop.
pub record Unset : Type 0 where
  pub descriptor : DescriptorId
  pub desc : DescriptorId
  pub buffer : Handle
  pub stride : ℕ

module _ {D : Type 0} (dev : Gralloc1Device D) (hal : Gralloc1Hal) where
  open hal.dispatch use {allocate_pfn, get_stride_pfn, release_pfn}

  -- `mDispatch.release(mDevice, buffer)`; a failure is only logged.
  unfoldable pub release_buffer : Handle → Proc Call D (Unit {0})
  release_buffer buffer =
      ask (dev.release buffer) (λ _. Call.released release_pfn buffer) >> pure tt

  unfoldable pub free_buffers : List Handle → Proc Call D (Unit {0})
  unfolding release_buffer
  free_buffers [] = pure tt
  free_buffers (buffer ∷ buffers) = release_buffer buffer >> free_buffers buffers

  -- The part behind a successful `allocate`.
  unfoldable pub measure_buffer : Handle → Proc Call D (Error × Option (Handle × ℕ))
  unfolding release_buffer
  measure_buffer buffer = do
    reply ← ask (dev.get_stride buffer) (λ _. Call.measured get_stride_pfn buffer)
    if not (is_none reply.0) && not (is_undefined reply.0)
        then (release_buffer buffer >> pure (to_error reply.0, none))
        else pure (Error.no_error, some (buffer, written reply.1 0))

  unfoldable pub allocate_one_buffer : DescriptorId → Proc Call D (Error × Option (Handle × ℕ))
  allocate_one_buffer id = do
    reply ← ask (dev.allocate id) (λ r. Call.allocated allocate_pfn id r.0 (written r.1 0))
    if not (is_none reply.0) && not (is_not_shared reply.0)
        then pure (to_error reply.0, none)
        else measure_buffer (written reply.1 0)

  -- The end of `allocateBuffers`: the buffers are returned, or freed.
  unfoldable pub conclude : Batch → Proc Call D (Error × Option (ℕ × List Handle))
  conclude batch =
      if Graphics.is_none batch.error
      then pure (Error.no_error, some (batch.stride, batch.buffers))
      else (free_buffers batch.buffers >> pure (batch.error, none))

  unfoldable pub finish : DescriptorId → Batch → Proc Call D (Error × Option (ℕ × List Handle))
  unfolding conclude
  finish id batch = destroy_descriptor dev hal id >> conclude batch

  -- `allocateBuffers` behind the call of `createDescriptor`, on its result.
  unfoldable pub allocate_with :
      Unset → ℕ → Error × Option DescriptorId → Proc Call D (Error × Option (ℕ × List Handle))
  allocate_with unset count (error, out) =
      let id = written out unset.desc in
      if Graphics.is_none error
      then (allocate_loop (allocate_one_buffer id) (unset.buffer, unset.stride) count
            Graphics.empty_batch
          >>= finish id)
      else pure (error, none)

-- `decode` is `grallocDecodeBufferDescriptor`.
module _ {D : Type 0} (dev : Gralloc1Device D) (flags : UsageFlags) (hal : Gralloc1Hal)
    (decode : BufferDescriptor → Option BufferDescriptorInfo) where
  unfoldable pub allocate_buffers :
      Unset → BufferDescriptor → ℕ → Proc Call D (Error × Option (ℕ × List Handle))
  allocate_buffers unset descriptor count = elim (decode descriptor) [
    | none ↦ pure (Error.bad_descriptor, none)
    | some info ↦ do
      created ← create_descriptor dev flags hal info unset.descriptor
      allocate_with dev hal unset count created
  ]

  -- The object behind the interface.
  abbrev pub gralloc1_hal : Unset → AllocatorHal Call D
  gralloc1_hal unset = record {
    dump_debug_info = dump_debug_info dev hal;
    allocate_buffers = allocate_buffers unset;
    free_buffers = free_buffers dev hal;
  }
