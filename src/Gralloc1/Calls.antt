-- ===== src/Gralloc1/Calls.antt =====
-- Which calls the operations of Gralloc1Hal.h make: a property of every call is shown by showing
-- it of the calls that the operation lists.
use android_device_xenvm.Base.{
  ℤ, ℕ, ◌≡◌, true, Option, List, [], ◌∷◌, Proc, ltb, Always, bind-Always, if-Always, ask-Always,
  pure-Always, then-Always, Option-cases, inl, inr, ◌&&◌, not,
}
use android_device_xenvm.Graphics.{
  Error, Handle, Batch, BufferDescriptor, BufferDescriptorInfo, written, allocate_loop, take_reply,
}
use android_device_xenvm.Graphics.Loop.{allocate_loop-Always}
use android_device_xenvm.Graphics
use android_device_xenvm.Gralloc1.Device.{
  Gralloc1Device, Gralloc1Error, Call, DescriptorId, is_none, is_not_shared, is_undefined,
}
use android_device_xenvm.Gralloc1.Convert.{UsageFlags}
use android_device_xenvm.Gralloc1.Init.{Gralloc1Hal}
use android_device_xenvm.Gralloc1.Descriptor.{and_then, set_up, create_descriptor}
use android_device_xenvm.Gralloc1.Buffers.{
  Unset, release_buffer, free_buffers, measure_buffer, allocate_one_buffer, conclude, finish,
  allocate_with, allocate_buffers,
}

module _ {D : Type 0} (dev : Gralloc1Device D) (flags : UsageFlags) (hal : Gralloc1Hal)
    (P : Call → Type 0) where
  open hal.dispatch use {
    set_dimensions_pfn, set_format_pfn, set_layer_count_pfn, set_producer_usage_pfn,
    set_consumer_usage_pfn,
  }

  -- The calls of `set_up` on descriptor id satisfy P.
  pub record OnSetUp (id : DescriptorId) : Type 0 where
    pub dimensioned : (w h : ℕ) → P (Call.dimensioned set_dimensions_pfn id w h)
    pub formatted : (f : ℤ) → P (Call.formatted set_format_pfn id f)
    pub layered : hal.layered_buffers ≡ true → (n : ℕ) → P (Call.layered set_layer_count_pfn id n)
    pub producer : (u : ℕ) → P (Call.set_up_producer set_producer_usage_pfn id u)
    pub consumer : (u : ℕ) → P (Call.set_up_consumer set_consumer_usage_pfn id u)

  pub set_up-Always :
      (info : BufferDescriptorInfo) (id : DescriptorId) (error : Gralloc1Error)
      → OnSetUp id
      → Always P (set_up dev flags hal info id error)
  unfolding set_up
  set_up-Always info id error on =
      bind-Always P (step error (ask-Always P _ _ λ _. on.dimensioned info.width info.height)) λ e1.
        bind-Always P (step e1 (ask-Always P _ _ λ _. on.formatted _)) λ e2.
          bind-Always P
            (step e2 (
              if-Always P hal.layered_buffers
                (λ h. ask-Always P _ _ λ _. on.layered h info.layer_count)
                (λ _.
                  if-Always P (ltb 1 info.layer_count) (λ _. pure-Always P _)
                    (λ _. pure-Always P _))))
            λ e3.
              bind-Always P (step e3 (ask-Always P _ _ λ _. on.producer _))
                λ e4. step e4 (ask-Always P _ _ λ _. on.consumer _)
    where
      step :
          {m : Proc Call D Gralloc1Error} (e : Gralloc1Error) → Always P m → Always P (and_then e m)
      step e h = if-Always P (is_none e) (λ _. h) (λ _. pure-Always P e)

  -- The calls of `createDescriptor` satisfy P.
  pub record OnCreate : Type 0 where
    pub created :
        (e : Gralloc1Error) (id : DescriptorId)
        → P (Call.created hal.dispatch.create_descriptor_pfn e id)
    pub destroyed : (id : DescriptorId) → P (Call.destroyed hal.dispatch.destroy_descriptor_pfn id)
    pub set_up_calls : (id : DescriptorId) → OnSetUp id

  pub create_descriptor-Always :
      (info : BufferDescriptorInfo) (unset : DescriptorId)
      → OnCreate
      → Always P (create_descriptor dev flags hal info unset)
  unfolding create_descriptor
  create_descriptor-Always info unset on = bind-Always P (ask-Always P _ _ λ r. on.created _ _) λ r.
      bind-Always P (set_up-Always info _ _ (on.set_up_calls _)) λ e.
        if-Always P (is_none e) (λ _. pure-Always P _)
          (λ _. then-Always P (ask-Always P _ _ λ _. on.destroyed _) (pure-Always P _))

  -- The calls on buffers behind `allocate` satisfy P.
  pub record OnBuffers : Type 0 where
    pub measured : (b : Handle) → P (Call.measured hal.dispatch.get_stride_pfn b)
    pub released : (b : Handle) → P (Call.released hal.dispatch.release_pfn b)

  -- The calls of `allocateBuffers` satisfy P.
  pub record OnAllocate : Type 0 where
    pub creating : OnCreate
    pub allocated :
        (id : DescriptorId) (e : Gralloc1Error) (b : Handle)
        → P (Call.allocated hal.dispatch.allocate_pfn id e b)
    pub buffers : OnBuffers

  module _ (on : OnBuffers) where
    release_buffer-Always : (b : Handle) → Always P (release_buffer dev hal b)
    unfolding release_buffer
    release_buffer-Always b = then-Always P (ask-Always P _ _ λ _. on.released b) (pure-Always P _)

    pub free_buffers-Always : (bs : List Handle) → Always P (free_buffers dev hal bs)
    unfolding free_buffers
    free_buffers-Always [] = pure-Always P _
    free_buffers-Always (b ∷ bs) = then-Always P (release_buffer-Always b) (free_buffers-Always bs)

    measure_buffer-Always : (b : Handle) → Always P (measure_buffer dev hal b)
    unfolding measure_buffer
    measure_buffer-Always b = bind-Always P (ask-Always P _ _ λ _. on.measured b) λ r.
        if-Always P (not (is_none r.0) && not (is_undefined r.0))
          (λ _. then-Always P (release_buffer-Always b) (pure-Always P _)) (λ _. pure-Always P _)

    pub allocate_one_buffer-Always :
        (id : DescriptorId)
        → ((e : Gralloc1Error) (b : Handle) → P (Call.allocated hal.dispatch.allocate_pfn id e b))
        → Always P (allocate_one_buffer dev hal id)
    unfolding allocate_one_buffer
    allocate_one_buffer-Always id h = bind-Always P (ask-Always P _ _ λ r. h _ _) λ r.
        if-Always P (not (is_none r.0) && not (is_not_shared r.0)) (λ _. pure-Always P _)
          (λ _. measure_buffer-Always _)

    pub conclude-Always : (batch : Batch) → Always P (conclude dev hal batch)
    unfolding conclude
    conclude-Always batch =
        if-Always P (Graphics.is_none batch.error) (λ _. pure-Always P _)
          (λ _. then-Always P (free_buffers-Always batch.buffers) (pure-Always P _))

  module _ (on : OnAllocate) where
    finish-Always : (id : DescriptorId) (batch : Batch) → Always P (finish dev hal id batch)
    unfolding finish
    finish-Always id batch =
        then-Always P (ask-Always P _ _ λ _. on.creating.destroyed id)
          (conclude-Always on.buffers batch)

    allocate_with-Always :
        (unset : Unset) (count : ℕ) (created : Error × Option DescriptorId)
        → Always P (allocate_with dev hal unset count created)
    unfolding allocate_with
    allocate_with-Always unset count (error, out) =
        let id = written out unset.desc in
        if-Always P (Graphics.is_none error)
          (λ _.
            bind-Always P
              (allocate_loop-Always P _ _
                (allocate_one_buffer-Always on.buffers id (on.allocated id)) count _)
              (finish-Always id))
          (λ _. pure-Always P _)

    pub allocate_buffers-Always :
        (decode : BufferDescriptor → Option BufferDescriptorInfo) (unset : Unset)
        (descriptor : BufferDescriptor) (count : ℕ)
        → Always P (allocate_buffers dev flags hal decode unset descriptor count)
    unfolding allocate_buffers
    allocate_buffers-Always decode unset descriptor count =
        elim (Option-cases (decode descriptor)) [
          | inl e ↦ rw (e, allocate_buffers) (pure-Always P _)
          | inr (info, e) ↦
              rw (e, allocate_buffers)
                (bind-Always P (create_descriptor-Always info _ on.creating)
                  (allocate_with-Always unset count))
        ]
