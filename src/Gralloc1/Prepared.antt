-- ===== src/Gralloc1/Prepared.antt =====
-- Gralloc1Hal.h: what the driver has been told of a request before it allocates a buffer.
use android_device_xenvm.Base.{
  ℕ, ◌≡◌, refl, ap, ◌∙◌, inl, inr, pos, to_int32, true, false, not, ◌||◌, Option, some, List, [],
  ◌∷◌, ◌++◌, append-nil, arith, Done, pure, ask, ◌>>=◌, ◌>>◌, Bool-cases, All, ask-Always,
  bind-Always, then-Always, ltb, if◌then◌else◌,
}
use android_device_xenvm.Graphics.{
  Error, Handle, Batch, BufferDescriptor, BufferDescriptorInfo, written, allocate_loop,
}
use android_device_xenvm.Graphics
use android_device_xenvm.Gralloc1.Device.{
  Gralloc1Device, Gralloc1Error, Call, DescriptorId, IsDocumented, is_none,
}
use android_device_xenvm.Gralloc1.Convert.{UsageFlags, to_producer_usage, to_consumer_usage}
use android_device_xenvm.Gralloc1.Init.{Gralloc1Hal}
use android_device_xenvm.Gralloc1.Descriptor.{set_up, create_descriptor}
use android_device_xenvm.Gralloc1.Errors.{to_error_failed, to_error_ok}
use android_device_xenvm.Gralloc1.Life.{set_up-Returns}
use android_device_xenvm.Gralloc1.Calls.{
  OnBuffers, allocate_one_buffer-Always, conclude-Always, create_descriptor-Always,
}
use android_device_xenvm.Graphics.Loop.{allocate_loop-Always}
use android_device_xenvm.Gralloc1.Buffers.{Unset, finish, allocate_with, allocate_buffers}

module _ (flags : UsageFlags) (hal : Gralloc1Hal) (info : BufferDescriptorInfo) where
  -- The layer count is set where the driver has layered buffers.
  abbrev layering : DescriptorId → List Call
  layering id =
      if hal.layered_buffers
      then Call.layered hal.dispatch.set_layer_count_pfn id info.layer_count ∷ []
      else []

  -- The calls that set up a descriptor for the request, and those with its creation.
  abbrev set_up_calls : DescriptorId → List Call
  set_up_calls id =
      Call.dimensioned hal.dispatch.set_dimensions_pfn id info.width info.height
        ∷ Call.formatted hal.dispatch.set_format_pfn id (to_int32 (pos info.format))
        ∷ layering id
      ++ (Call.set_up_producer hal.dispatch.set_producer_usage_pfn id
            (to_producer_usage flags info.usage)
          ∷ Call.set_up_consumer hal.dispatch.set_consumer_usage_pfn id
              (to_consumer_usage flags info.usage)
          ∷ [])

  abbrev pub recipe : DescriptorId → List Call
  recipe id =
      Call.created hal.dispatch.create_descriptor_pfn Gralloc1Error.no_error id ∷ set_up_calls id

  module _ {D : Type 0} (dev : Gralloc1Device D) where
    set_up-recipe :
        (id : DescriptorId) (error : Gralloc1Error) (d : D)
        → is_none (set_up dev flags hal info id error d).value ≡ true
        → (is_none error ≡ true)
          × ((set_up dev flags hal info id error d).trace ≡ set_up_calls id)
          × ((hal.layered_buffers || not (ltb 1 info.layer_count)) ≡ true)
    unfolding set_up ◌>>=◌ ask pure
    set_up-recipe id error d h = ground arith

is_none_lem : (e : Gralloc1Error) → is_none e ≡ true → e ≡ Gralloc1Error.no_error
is_none_lem Gralloc1Error.no_error h = refl
is_none_lem _ h = cc

-- A call on the buffers of a descriptor, or the end of the descriptor.
abbrev pub Uses : DescriptorId → Call → Type 0
Uses id (Call.allocated p j e b) = j ≡ id
Uses id (Call.destroyed p j) = j ≡ id
Uses id (Call.measured p b) = Unit {0}
Uses id (Call.released p b) = Unit {0}
Uses id _ = ⊥

abbrev pub AllocatesNothing : Call → Type 0
AllocatesNothing (Call.allocated p j e b) = ⊥
AllocatesNothing _ = Unit {0}

-- A run that follows the recipe and then only uses the descriptor, or answers an error and has
-- allocated nothing.
pub data Prepared {A D : Type 0} (hal : Gralloc1Hal) (info : BufferDescriptorInfo)
    (plan : DescriptorId → List Call) (r : Done Call D (Error × A)) : Type 0 where
  ready :
      (id : DescriptorId) (rest : List Call)
      → r.trace ≡ plan id ++ rest
      → (hal.layered_buffers || not (ltb 1 info.layer_count)) ≡ true
      → All (Uses id) rest
      → Prepared hal info plan r
  refused :
      Graphics.is_none r.value.0 ≡ false → All AllocatesNothing r.trace → Prepared hal info plan r

module _ {D : Type 0} (dev : Gralloc1Device D) (flags : UsageFlags) (hal : Gralloc1Hal)
    (info : BufferDescriptorInfo) where
  -- What `createDescriptor` leaves.
  data Made (r : Done Call D (Error × Option DescriptorId)) : Type 0 where
    made :
        (id : DescriptorId)
        → r.value ≡ (Error.no_error, some id)
        → r.trace ≡ recipe flags hal info id
        → (hal.layered_buffers || not (ltb 1 info.layer_count)) ≡ true
        → Made r
    unmade : Graphics.is_none r.value.0 ≡ false → Made r

  create_descriptor-Made :
      IsDocumented dev
      → (unset : DescriptorId) (d : D) → Made (create_descriptor dev flags hal info unset d)
  unfolding create_descriptor ◌>>=◌ ◌>>◌ ask pure
  create_descriptor-Made doc unset d =
      let reply = dev.create_descriptor d in
      let id = written reply.0.1 unset in
      let t = set_up dev flags hal info id reply.0.0 reply.1 in
      elim (Bool-cases (is_none t.value)) [
        | inl good ↦
            let (first, calls, layers) =
              set_up-recipe flags hal info dev id reply.0.0 reply.1 good in
            rw (good, create_descriptor)
              (made id (ap (λ e. (e, some id)) (to_error_ok t.value good))
                (ap (λ e. Call.created hal.dispatch.create_descriptor_pfn e id ∷ (t.trace ++ []))
                    (is_none_lem reply.0.0 first)
                  ∙ ap
                      (λ cs.
                        Call.created hal.dispatch.create_descriptor_pfn Gralloc1Error.no_error id
                        ∷ cs)
                      (append-nil t.trace ∙ calls))
                layers)
        | inr bad ↦
            rw (bad, create_descriptor)
              (unmade (
                to_error_failed t.value
                  ((set_up-Returns dev flags hal doc info id reply.0.0
                      (doc.create_descriptor_error d)).at
                    reply.1)
                  bad))
      ]

  on_buffers : (id : DescriptorId) → OnBuffers dev flags hal (Uses id)
  on_buffers id = record { measured = λ b. tt; released = λ b. tt }

  -- What comes after `createDescriptor`.
  allocate_with-Prepared :
      (unset : Unset) (count : ℕ) (c : Done Call D (Error × Option DescriptorId))
      → All AllocatesNothing c.trace
      → Made c
      → let r = allocate_with dev hal unset count c.value c.state in
        Prepared hal info
          (recipe flags hal info)
          (record { value = r.value; state = r.state; trace = c.trace ++ r.trace })
  unfolding allocate_with finish pure
  allocate_with-Prepared unset count c idle (made id e t layers) =
      rw (e, t)
        (ready id _ refl layers (
          (bind-Always (Uses id)
              (allocate_loop-Always (Uses id) _ _
                (allocate_one_buffer-Always dev flags hal (Uses id) (on_buffers id) id
                  (λ e b. refl))
                count _)
              λ batch.
                then-Always (Uses id) (ask-Always (Uses id) _ _ λ e. refl)
                  (conclude-Always dev flags hal (Uses id) (on_buffers id) batch)).at
            c.state))
  allocate_with-Prepared unset count c idle (unmade e) =
      rw (e, allocate_with) (rw append-nil (refused e idle))

-- On a driver as documented, for a descriptor that decodes: either the calls of `allocateBuffers`
-- begin by creating a driver's descriptor without an error and giving it, in this order, the
-- dimensions and the format of the request, its layer count where the driver has layered buffers,
-- and the producer and consumer usages that its usage converts to, and after that they only
-- allocate from this descriptor, measure and release buffers, and destroy it, and the request has
-- at most one layer if the driver has no layered buffers; or an error is answered and no buffer
-- has been allocated.
pub allocate_buffers-Prepared :
    {D : Type 0} (dev : Gralloc1Device D) (flags : UsageFlags) (hal : Gralloc1Hal)
    (doc : IsDocumented dev) (decode : BufferDescriptor → Option BufferDescriptorInfo)
    (unset : Unset) (descriptor : BufferDescriptor) (count : ℕ) (info : BufferDescriptorInfo)
    → decode descriptor ≡ some info
    → (d : D)
    → Prepared hal info
        (recipe flags hal info)
        (allocate_buffers dev flags hal decode unset descriptor count d)
unfolding allocate_buffers ◌>>=◌
allocate_buffers-Prepared dev flags hal doc decode unset descriptor count info decoded d =
    rw (decoded, allocate_buffers)
      (allocate_with-Prepared dev flags hal info unset count
        (create_descriptor dev flags hal info unset.descriptor d)
        ((create_descriptor-Always dev flags hal AllocatesNothing info unset.descriptor (record {
          created = λ e id. tt;
          destroyed = λ id. tt;
          set_up_calls = λ id. record {
            dimensioned = λ w h. tt;
            formatted = λ f. tt;
            layered = λ h n. tt;
            producer = λ u. tt;
            consumer = λ u. tt;
          };
        })).at
          d)
        (create_descriptor-Made dev flags hal info doc unset.descriptor d))
