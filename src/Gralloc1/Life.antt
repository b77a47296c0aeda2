-- ===== src/Gralloc1/Life.antt =====
-- Gralloc1Hal.h and the life of a driver's descriptor: it is made, used, and destroyed once.
use android_device_xenvm.Base.{
  ℕ, ◌≡◌, ◌≢◌, refl, ap, ◌∙◌, false, Option, none, some, List, [], ◌∷◌, ◌++◌, arith, Done, Proc,
  pure, ask, ◌>>=◌, ◌>>◌, Bool-cases, Option-cases, inl, inr, Returns, pure-Returns, ask-Returns,
  bind-Returns, if-Returns, ltb,
}
use android_device_xenvm.Graphics.{
  Error, Handle, BufferDescriptor, BufferDescriptorInfo, written, allocate_loop,
}
use android_device_xenvm.Graphics
use android_device_xenvm.Graphics.Loop.{allocate_loop-Always}
use android_device_xenvm.Gralloc1.Device.{
  Gralloc1Device, Gralloc1Error, Call, DescriptorId, IsDocumented, is_none,
}
use android_device_xenvm.Gralloc1.Convert.{UsageFlags, to_error}
use android_device_xenvm.Gralloc1.Errors.{to_error_failed, to_error_ok}
use android_device_xenvm.Gralloc1.Init.{Gralloc1Hal}
use android_device_xenvm.Gralloc1.Descriptor.{and_then, set_up, create_descriptor}
use android_device_xenvm.Gralloc1.Buffers.{
  Unset, allocate_one_buffer, conclude, finish, allocate_with, allocate_buffers,
}
use android_device_xenvm.Gralloc1.Calls.{set_up-Always, allocate_one_buffer-Always, conclude-Always}
use android_device_xenvm.Gralloc1.Alive.{
  idle, live, making, watch, watch-append, watch-cons, watch-still, Keeps, using_live, ending_live,
}

module _ {D : Type 0} (dev : Gralloc1Device D) (flags : UsageFlags) (hal : Gralloc1Hal) where
  set_up-watch :
      (info : BufferDescriptorInfo) (id : DescriptorId) (error : Gralloc1Error) (d : D)
      → watch (set_up dev flags hal info id error d).trace (live id) ≡ some (live id)
  set_up-watch info id error d = watch-still (live id) _ (
      (set_up-Always dev flags hal (Keeps (live id)) info id error (record {
        dimensioned = λ w h. using_live id;
        formatted = λ f. using_live id;
        layered = λ h n. using_live id;
        producer = λ u. using_live id;
        consumer = λ u. using_live id;
      })).at
        d)

  -- A documented driver never makes `set_up` end with NOT_SHARED.
  pub set_up-Returns :
      IsDocumented dev
      → (info : BufferDescriptorInfo) (id : DescriptorId) (error : Gralloc1Error)
      → error ≢ Gralloc1Error.not_shared
      → Returns (λ e. e ≢ Gralloc1Error.not_shared) (set_up dev flags hal info id error)
  unfolding set_up
  set_up-Returns doc info id error h =
      bind-Returns Q Q
        (step error h (ask-Returns Q _ _ (doc.set_dimensions_error id info.width info.height)))
        λ e1 h1.
          bind-Returns Q Q (step e1 h1 (ask-Returns Q _ _ (doc.set_format_error id _))) λ e2 h2.
            bind-Returns Q Q
              (step e2 h2 (
                if-Returns Q hal.layered_buffers
                  (λ _. ask-Returns Q _ _ (doc.set_layer_count_error id info.layer_count))
                  (λ _.
                    if-Returns Q (ltb 1 info.layer_count) (λ _. pure-Returns Q (λ e. cc))
                      (λ _. pure-Returns Q h2))))
              λ e3 h3.
                bind-Returns Q Q
                  (step e3 h3 (ask-Returns Q _ _ (doc.set_producer_usage_error id _)))
                  λ e4 h4. step e4 h4 (ask-Returns Q _ _ (doc.set_consumer_usage_error id _))
    where
      Q : Gralloc1Error → Type 0
      Q e = e ≢ Gralloc1Error.not_shared

      step :
          {m : Proc Call D Gralloc1Error} (e : Gralloc1Error)
          → Q e
          → Returns Q m
          → Returns Q (and_then e m)
      step e q h = if-Returns Q (is_none e) (λ _. h) (λ _. pure-Returns Q q)

  -- What `createDescriptor` leaves: a live descriptor that it returns, or none and an error.
  data Made (r : Done Call D (Error × Option DescriptorId)) : Type 0 where
    made :
        (id : DescriptorId)
        → r.value ≡ (Error.no_error, some id)
        → watch r.trace idle ≡ some (live id)
        → Made r
    unmade : Graphics.is_none r.value.0 ≡ false → watch r.trace idle ≡ some idle → Made r

  create_descriptor-Made :
      IsDocumented dev
      → (info : BufferDescriptorInfo) (unset : DescriptorId) (d : D)
      → (dev.create_descriptor d).0.0 ≡ Gralloc1Error.no_error
      → Made (create_descriptor dev flags hal info unset d)
  unfolding create_descriptor ◌>>=◌ ◌>>◌ ask pure
  create_descriptor-Made doc info unset d ok =
      let reply = dev.create_descriptor d in
      let id = written reply.0.1 unset in
      let t = set_up dev flags hal info id reply.0.0 reply.1 in
      let call = Call.created hal.dispatch.create_descriptor_pfn reply.0.0 id in
      let gone = Call.destroyed hal.dispatch.destroy_descriptor_pfn id in
      let begin = λ (rest : List Call).
        watch-cons call (t.trace ++ rest) idle (ap (λ e. making e id idle) ok)
        ∙ watch-append t.trace rest (live id) (set_up-watch info id reply.0.0 reply.1) in
      elim (Bool-cases (is_none t.value)) [
        | inl good ↦
            rw (good, create_descriptor)
              (made id (ap (λ e. (e, some id)) (to_error_ok t.value good)) (begin []))
        | inr bad ↦
            rw (bad, create_descriptor)
              (unmade
                (to_error_failed t.value
                  ((set_up-Returns doc info id reply.0.0 (λ h. ground (arith, ok, h))).at reply.1)
                  bad)
                (begin (gone ∷ []) ∙ watch-cons gone [] (live id) (ending_live id)))
      ]

  allocate_one_buffer-watch :
      (id : DescriptorId) (unset : Handle × ℕ) (count : ℕ) (d : D)
      → let loop =
          allocate_loop (allocate_one_buffer dev hal id) unset count Graphics.empty_batch in
        watch (loop d).trace (live id) ≡ some (live id)
  allocate_one_buffer-watch id unset count d =
      let still = Keeps (live id) in
      watch-still (live id) _ (
        (allocate_loop-Always still (allocate_one_buffer dev hal id) unset
            (allocate_one_buffer-Always dev flags hal still
              (record { measured = λ b. refl; released = λ b. refl }) id (λ e b. using_live id))
            count Graphics.empty_batch).at
          d)

  finish-watch :
      (id : DescriptorId) (b : Graphics.Batch) (d : D)
      → watch (finish dev hal id b d).trace (live id) ≡ some idle
  unfolding finish ◌>>◌ ask
  finish-watch id b d =
      let d' = (dev.destroy_descriptor id d).1 in
      watch-cons (Call.destroyed hal.dispatch.destroy_descriptor_pfn id)
        (conclude dev hal b d').trace (live id) (ending_live id)
      ∙ watch-still idle (conclude dev hal b d').trace (
          (conclude-Always dev flags hal (Keeps idle)
              (record { measured = λ b. refl; released = λ b. refl }) b).at
            d')

  made-watch :
      (unset : Unset) (count : ℕ) (id : DescriptorId) (d : D)
      → watch (allocate_with dev hal unset count (Error.no_error, some id) d).trace (live id)
        ≡ some idle
  unfolding allocate_with ◌>>=◌
  made-watch unset count id d =
      let loop =
        allocate_loop (allocate_one_buffer dev hal id) (unset.buffer, unset.stride) count
          Graphics.empty_batch d in
      watch-append loop.trace _ (live id)
        (allocate_one_buffer-watch id (unset.buffer, unset.stride) count d)
      ∙ finish-watch id loop.value loop.state

  unmade-watch :
      (unset : Unset) (count : ℕ) (created : Error × Option DescriptorId) (d : D)
      → Graphics.is_none created.0 ≡ false
      → watch (allocate_with dev hal unset count created d).trace idle ≡ some idle
  unfolding allocate_with pure
  unmade-watch unset count created d h = rw (h, allocate_with) refl

  -- On a documented driver whose `createDescriptor` would succeed: whatever `allocateBuffers` is
  -- asked for, and however it ends, each call that takes a descriptor is made on the one that is
  -- alive, and at the end none is alive.
  pub allocate_buffers-watch :
      IsDocumented dev
      → (decode : BufferDescriptor → Option BufferDescriptorInfo) (unset : Unset)
        (descriptor : BufferDescriptor) (count : ℕ) (d : D)
      → (dev.create_descriptor d).0.0 ≡ Gralloc1Error.no_error
      → watch (allocate_buffers dev flags hal decode unset descriptor count d).trace idle
        ≡ some idle
  unfolding allocate_buffers ◌>>=◌ pure
  allocate_buffers-watch doc decode unset descriptor count d ok =
      elim (Option-cases (decode descriptor)) [
        | inl e ↦ rw (e, allocate_buffers) refl
        | inr (info, e) ↦
            let r = create_descriptor dev flags hal info unset.descriptor d in
            rw (e, allocate_buffers)
              (elim (create_descriptor-Made doc info unset.descriptor d ok) [
                | made id v w ↦
                    watch-append r.trace _ idle w
                    ∙ ap (λ c. watch (allocate_with dev hal unset count c r.state).trace (live id))
                        v
                    ∙ made-watch unset count id r.state
                | unmade f w ↦
                    watch-append r.trace _ idle w ∙ unmade-watch unset count r.value r.state f
              ])
      ]

  set_up-failed :
      (info : BufferDescriptorInfo) (id : DescriptorId) (e : Gralloc1Error) (d : D)
      → is_none e ≡ false
      → set_up dev flags hal info id e d ≡ pure e d
  unfolding set_up ◌>>=◌ pure
  set_up-failed info id e d bad = rw (bad, bad, bad, bad, bad, set_up) refl

  -- When the driver's `createDescriptor` fails and writes nothing, the method calls
  -- `destroyDescriptor` on whatever the uninitialised local `descriptor` holds, which is no
  -- descriptor that is alive, and then answers the error.
  pub create_descriptor-unset :
      (info : BufferDescriptorInfo) (unset : DescriptorId) (d : D) (e : Gralloc1Error)
      → (dev.create_descriptor d).0 ≡ (e, none)
      → is_none e ≡ false
      → let r = create_descriptor dev flags hal info unset d in
        (r.trace
          ≡ Call.created hal.dispatch.create_descriptor_pfn e unset
            ∷ Call.destroyed hal.dispatch.destroy_descriptor_pfn unset
            ∷ [])
        × (r.value ≡ (to_error e, none))
        × (watch r.trace idle ≡ none)
  unfolding create_descriptor ◌>>=◌ ◌>>◌ ask pure
  create_descriptor-unset info unset d e h bad =
      rw (h, set_up-failed info unset e _ bad, bad, create_descriptor)
        (refl, refl, rw (bad, watch) refl)
