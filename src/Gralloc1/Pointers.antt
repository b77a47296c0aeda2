-- ===== src/Gralloc1/Pointers.antt =====
-- Gralloc1Hal.h: each call goes through the pointer that the driver gave for just that function.
use mathlib.Core.List.{Mem}
use android_device_xenvm.Base.{ℕ, ◌≡◌, Bool, true, Option, List, [], Done, All}
use android_device_xenvm.Graphics.{BufferDescriptor, BufferDescriptorInfo}
use android_device_xenvm.Gralloc1.Device.{
  Gralloc1Device, Call, dump, create_descriptor, destroy_descriptor, set_dimensions, set_format,
  set_layer_count, set_consumer_usage, set_producer_usage, get_stride, allocate, release,
}
use android_device_xenvm.Gralloc1.Convert.{UsageFlags}
use android_device_xenvm.Gralloc1.Init.{Gralloc1Hal, init_with_module}
use android_device_xenvm.Gralloc1.Buffers.{Unset, allocate_buffers}
use android_device_xenvm.Gralloc1.Calls.{OnAllocate, allocate_buffers-Always}
use android_device_xenvm.Gralloc1.Sourced.{HasPointers, init_with_module-Runs}

-- The call goes through a pointer that the driver gave for the function that is called; a call that
-- goes through no pointer of `mDispatch` is none of these.
abbrev pub Through : List Call → Call → Type 0
Through h (Call.dumped p) = Mem (Call.got_function dump p) h
Through h (Call.created p e id) = Mem (Call.got_function create_descriptor p) h
Through h (Call.destroyed p id) = Mem (Call.got_function destroy_descriptor p) h
Through h (Call.dimensioned p id width height) = Mem (Call.got_function set_dimensions p) h
Through h (Call.formatted p id f) = Mem (Call.got_function set_format p) h
Through h (Call.layered p id n) = Mem (Call.got_function set_layer_count p) h
Through h (Call.set_up_producer p id u) = Mem (Call.got_function set_producer_usage p) h
Through h (Call.set_up_consumer p id u) = Mem (Call.got_function set_consumer_usage p) h
Through h (Call.allocated p id e b) = Mem (Call.got_function allocate p) h
Through h (Call.measured p b) = Mem (Call.got_function get_stride p) h
Through h (Call.released p b) = Mem (Call.got_function release p) h
Through h _ = ⊥

module _ {D : Type 0} (dev : Gralloc1Device D) (flags : UsageFlags) (hal : Gralloc1Hal) (d : D)
    (ok : (init_with_module dev hal d).value.0 ≡ true) where
  -- Once `initWithModule` has returned true, `allocateBuffers` calls the driver only through
  -- pointers of `mDispatch`, and each call through the pointer with which `getFunction` answered,
  -- during that initialisation, for just the function that is called.
  pub init_with_module-Through :
      (decode : BufferDescriptor → Option BufferDescriptorInfo) (unset : Unset)
      (descriptor : BufferDescriptor) (count : ℕ) (d' : D)
      → All
          (Through (init_with_module dev hal d).trace)
          (allocate_buffers dev flags
            (init_with_module dev hal d).value.1
            decode
            unset
            descriptor
            count
            d').trace
  init_with_module-Through decode unset descriptor count d' =
      (allocate_buffers-Always dev flags r.value.1 (Through r.trace) on decode unset descriptor
          count).at
        d'
    where
      r : Done Call D (Bool × Gralloc1Hal)
      r = init_with_module dev hal d

      has : HasPointers dev r.value r.trace r.state
      has = (init_with_module-Runs dev hal).at [] d tt

      on : OnAllocate dev flags r.value.1 (Through r.trace)
      on =
          let (
            released,
            (
              allocated,
              (measured, (producer, (consumer, (format, (dims, (destroyed, (created, later))))))),
            ),
          ) =
            has.functions ok in
          record {
            creating = record {
              created = λ e id. created;
              destroyed = λ id. destroyed;
              set_up_calls = λ id. record {
                dimensioned = λ w h. dims;
                formatted = λ f. format;
                layered = λ l n. has.layers ok l;
                producer = λ u. producer;
                consumer = λ u. consumer;
              };
            };
            allocated = λ id e b. allocated;
            buffers = record { measured = λ b. measured; released = λ b. released };
          }
