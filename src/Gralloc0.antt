-- ===== src/Gralloc0.antt =====
-- hals/allocator/Gralloc0Hal.h: the HAL on top of a gralloc0 driver.
pub mod Ownership
pub mod Holding
pub mod Calls
pub mod Cost
pub mod Refusals
pub mod Asked
pub mod Text
pub mod Working
use android_device_xenvm.Base.{
  ℕ, ◌/◌, ◌-◌, ◌^◌, ℤ, pos, eq_ℤ, to_int32, to_uint32, Bool, true, false, ◌||◌, not, Option, none,
  some, List, [], ◌∷◌, ◌++◌, Proc, pure, ask, ◌>>=◌, ◌>>◌, ltb, ◌==◌, if◌then◌else◌, length,
  replicate,
}
use android_device_xenvm.Graphics.{
  Error, is_none, Handle, Batch, empty_batch, BufferDescriptor, BufferDescriptorInfo, AllocatorHal,
  written, allocate_loop,
}
use android_device_xenvm.Graphics.CString.{put, c_string}

-- The driver (hardware/gralloc.h) with a state of type D: functions that the repository calls.
-- `alloc` takes width, height, format and usage, all as int, and gives its result with the buffer and the
-- stride where it writes them. `dump` is null or writes bytes into an array of the given size.
pub record Gralloc0Device (D : Type 0) : Type 0 where
  pub minus_einval : ℤ
  pub open_device : D → ℤ × D
  pub close_device : D → D
  pub dump : Option (ℕ → D → List ℕ × D)
  pub alloc : ℤ → ℤ → ℤ → ℤ → D → (ℤ × Option Handle × Option ℤ) × D
  pub free : Handle → D → ℤ × D

-- A call with what the driver answered, and for `alloc` with what it was asked for.
pub data Call : Type 0 where
  opened : ℤ → Call
  closed : Call
  dumped : Call
  allocated : ℤ → ℤ → ℤ → ℤ → ℤ → Handle → Call
  freed : Handle → Call

-- What the locals `tmpBuffer` and `tmpStride` of `allocateBuffers` hold before they are written.
pub record Unset : Type 0 where
  pub buffer : Handle
  pub stride : ℕ

module _ {D : Type 0} (dev : Gralloc0Device D) where
  -- The result says if `mDevice` is set afterwards, which is also what the method returns.
  unfoldable pub init_with_module : Proc Call D Bool
  init_with_module = do result ← ask dev.open_device Call.opened; pure (eq_ℤ result (pos 0))

  -- `~Gralloc0HalImpl()`
  unfoldable pub destroy : Bool → Proc Call D (Unit {0})
  destroy has_device =
      if has_device then ask (λ d. (tt, dev.close_device d)) (λ _. Call.closed) else pure tt

  -- `char buf[4096] = {}`. `none` is a write behind its end.
  unfoldable pub dump_debug_info : Proc Call D (Option (List ℕ))
  dump_debug_info = elim dev.dump [
    | none ↦ pure (some (c_string (replicate 4096 0)))
    | some dump ↦ do
      bytes ← ask (dump 4096) (λ _. Call.dumped)
      pure (
          if ltb 4096 (length bytes)
          then none
          else some (c_string (put 4095 0 (bytes ++ replicate (4096 - length bytes) 0))))
  ]

  -- The `switch` on the result of `alloc`.
  unfoldable pub alloc_result : ℤ × Option Handle × Option ℤ → Error × Option (Handle × ℕ)
  alloc_result reply =
      if eq_ℤ reply.0 (pos 0)
      then (Error.no_error, some (written reply.1 0, to_uint32 (written reply.2 (pos 0))))
      else if eq_ℤ reply.0 dev.minus_einval
      then (Error.bad_value, none)
      else (Error.no_resources, none)

  unfoldable pub allocate_one_buffer :
      BufferDescriptorInfo → Proc Call D (Error × Option (Handle × ℕ))
  allocate_one_buffer info =
      if ltb 1 info.layer_count || not (info.usage / 2 ^ 32 == 0)
      then pure (Error.bad_value, none)
      else do
        let width = to_int32 (pos info.width)
        let height = to_int32 (pos info.height)
        let format = to_int32 (pos info.format)
        let usage = to_int32 (pos info.usage)
        reply ←
            ask (dev.alloc width height format usage)
              (λ r. Call.allocated width height format usage r.0 (written r.1 0))
        pure (alloc_result reply)

  unfoldable pub free_buffers : List Handle → Proc Call D (Unit {0})
  free_buffers [] = pure tt
  free_buffers (buffer ∷ buffers) =
      ask (dev.free buffer) (λ _. Call.freed buffer) >> free_buffers buffers

  -- The end of `allocateBuffers`: the buffers are returned, or freed.
  unfoldable pub conclude : Batch → Proc Call D (Error × Option (ℕ × List Handle))
  conclude batch =
      if is_none batch.error
      then pure (Error.no_error, some (batch.stride, batch.buffers))
      else (free_buffers batch.buffers >> pure (batch.error, none))

  -- `decode` is `grallocDecodeBufferDescriptor`.
  unfoldable pub allocate_buffers :
      (BufferDescriptor → Option BufferDescriptorInfo)
      → Unset
      → BufferDescriptor
      → ℕ
      → Proc Call D (Error × Option (ℕ × List Handle))
  allocate_buffers decode unset descriptor count = elim (decode descriptor) [
    | none ↦ pure (Error.bad_descriptor, none)
    | some info ↦ do
      batch ←
          allocate_loop (allocate_one_buffer info) (unset.buffer, unset.stride) count empty_batch
      conclude batch
  ]

  -- The object behind the interface.
  abbrev pub gralloc0_hal :
      (BufferDescriptor → Option BufferDescriptorInfo) → Unset → AllocatorHal Call D
  gralloc0_hal decode unset = record {
    dump_debug_info = dump_debug_info;
    allocate_buffers = allocate_buffers decode unset;
    free_buffers = free_buffers;
  }
