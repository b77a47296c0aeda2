-- ===== src/Gralloc0/Cost.antt =====
-- Gralloc0Hal.h: how many calls a request costs.
use android_device_xenvm.Base.{
  ℕ, ◌+◌, ◌*◌, ◌≤◌, not, ◌||◌, Option, List, [], ◌∷◌, arith, length, Option-cases, inl, inr, ltb,
  ◌==◌, ◌/◌, ◌^◌, Spends, pure-Spends, ask-Spends, bind-Spends, then-Spends, if-Spends,
}
use android_device_xenvm.Graphics.{
  is_none, Handle, Batch, empty_batch, BufferDescriptor, BufferDescriptorInfo,
}
use android_device_xenvm.Graphics.Cost.{to_free, to_free_all, allocate_loop-Spends}
use android_device_xenvm.Gralloc0.{
  Gralloc0Device, Unset, allocate_one_buffer, free_buffers, conclude, allocate_buffers,
}

-- Nothing is left over.
abbrev spent : {A : Type 0} → A → ℕ
spent a = 0

module _ {D : Type 0} (dev : Gralloc0Device D) where
  free_buffers-Spends : (bs : List Handle) → Spends spent (length bs) (free_buffers dev bs)
  unfolding free_buffers
  free_buffers-Spends [] = pure-Spends spent _ tt (omega arith)
  free_buffers-Spends (b ∷ bs) =
      then-Spends (length bs) spent _ (ask-Spends (λ _. length bs) _ _ _ λ s. omega arith)
        (free_buffers-Spends bs)

  conclude-Spends : (b : Batch) → Spends spent (to_free_all b) (conclude dev b)
  unfolding conclude
  conclude-Spends b =
      if-Spends spent _ (is_none b.error) (λ _. pure-Spends spent _ _ (omega arith))
        (λ _.
          then-Spends 0 spent _ (free_buffers-Spends b.buffers)
            (pure-Spends spent 0 _ (omega arith)))

  allocate_one_buffer-Spends :
      (info : BufferDescriptorInfo) → Spends to_free 2 (allocate_one_buffer dev info)
  unfolding allocate_one_buffer
  allocate_one_buffer-Spends info =
      if-Spends to_free 2 (ltb 1 info.layer_count || not (info.usage / 2 ^ 32 == 0))
        (λ _. pure-Spends to_free _ _ (omega arith))
        (λ _.
          bind-Spends (λ _. 1) to_free 2 (ask-Spends (λ _. 1) _ _ _ λ s. omega arith)
            λ r. pure-Spends to_free 1 _ (ground arith))

  -- `allocateBuffers` for `count` buffers ends after at most 2 * count calls of the driver, however
  -- the driver answers.
  pub allocate_buffers-calls :
      (decode : BufferDescriptor → Option BufferDescriptorInfo) (unset : Unset)
      (descriptor : BufferDescriptor) (count : ℕ) (d : D)
      → length (allocate_buffers dev decode unset descriptor count d).trace ≤ 2 * count
  unfolding allocate_buffers
  allocate_buffers-calls decode unset descriptor count d = omega (arith, cost.at d)
    where
      cost : Spends spent (count * 2 + 0) (allocate_buffers dev decode unset descriptor count)
      cost = elim (Option-cases (decode descriptor)) [
        | inl e ↦ rw (e, allocate_buffers) (pure-Spends spent _ _ (omega arith))
        | inr (info, e) ↦
            rw (e, allocate_buffers)
              (bind-Spends to_free_all spent _
                (allocate_loop-Spends 2 (allocate_one_buffer dev info) _
                  (allocate_one_buffer-Spends info) count empty_batch)
                conclude-Spends)
      ]
