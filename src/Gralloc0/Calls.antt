-- ===== src/Gralloc0/Calls.antt =====
-- Which calls `allocateBuffers` of Gralloc0Hal.h makes.
use android_device_xenvm.Base.{
  ◌≡◌, false, some, pos, to_int32, ℕ, ◌/◌, ◌^◌, ◌==◌, ltb, ℤ, ◌||◌, not, Option, List, [], ◌∷◌,
  Always, pure-Always, ask-Always, bind-Always, then-Always, if-Always, Option-cases, inl, inr,
}
use android_device_xenvm.Graphics.{is_none, Handle, Batch, BufferDescriptor, BufferDescriptorInfo}
use android_device_xenvm.Gralloc0.Refusals.{needs_more}
use android_device_xenvm.Graphics.Loop.{allocate_loop-Always}
use android_device_xenvm.Gralloc0.{
  Gralloc0Device, Call, Unset, allocate_one_buffer, free_buffers, conclude, allocate_buffers,
}

-- What is to be shown of `alloc` for a request that it can serve.
abbrev pub OnAlloc : (Call → Type 0) → BufferDescriptorInfo → Type 0
OnAlloc P info =
    needs_more info ≡ false
    → (result : ℤ) (b : Handle)
    → P (
        Call.allocated (to_int32 (pos info.width)) (to_int32 (pos info.height))
          (to_int32 (pos info.format)) (to_int32 (pos info.usage)) result b)

module _ {D : Type 0} (dev : Gralloc0Device D) (P : Call → Type 0)
    (freed : (b : Handle) → P (Call.freed b)) where
  allocate_one_buffer-Always :
      (info : BufferDescriptorInfo) → OnAlloc P info → Always P (allocate_one_buffer dev info)
  unfolding allocate_one_buffer
  allocate_one_buffer-Always info on =
      if-Always P (ltb 1 info.layer_count || not (info.usage / 2 ^ 32 == 0)) (λ _. pure-Always P _)
        (λ served. bind-Always P (ask-Always P _ _ λ r. on served _ _) λ r. pure-Always P _)

  pub free_buffers-Always : (bs : List Handle) → Always P (free_buffers dev bs)
  unfolding free_buffers
  free_buffers-Always [] = pure-Always P tt
  free_buffers-Always (b ∷ bs) =
      then-Always P (ask-Always P _ _ λ r. freed b) (free_buffers-Always bs)

  conclude-Always : (batch : Batch) → Always P (conclude dev batch)
  unfolding conclude
  conclude-Always batch =
      if-Always P (is_none batch.error) (λ _. pure-Always P _)
        (λ _. then-Always P (free_buffers-Always batch.buffers) (pure-Always P _))

  -- It calls only `alloc` and `free`.
  pub allocate_buffers-Always :
      (decode : BufferDescriptor → Option BufferDescriptorInfo) (unset : Unset)
      (descriptor : BufferDescriptor) (count : ℕ)
      → ((info : BufferDescriptorInfo) → decode descriptor ≡ some info → OnAlloc P info)
      → Always P (allocate_buffers dev decode unset descriptor count)
  unfolding allocate_buffers
  allocate_buffers-Always decode unset descriptor count on =
      elim (Option-cases (decode descriptor)) [
        | inl e ↦ rw (e, allocate_buffers) (pure-Always P _)
        | inr (info, e) ↦
            rw (e, allocate_buffers)
              (bind-Always P
                (allocate_loop-Always P _ _ (allocate_one_buffer-Always info (on info e)) count _)
                conclude-Always)
      ]
