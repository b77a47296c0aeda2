-- ===== src/Gralloc1/Callable.antt =====
-- With its pointers loaded, Gralloc1Hal.h calls through no null pointer.
use android_device_xenvm.Base.{ℕ, ◌≡◌, ◌≢◌, true, Option, none, some, All}
use android_device_xenvm.Graphics.{BufferDescriptor, BufferDescriptorInfo}
use android_device_xenvm.Gralloc1.Device.{Gralloc1Device, Call, Pfn, FunctionDescriptor}
use android_device_xenvm.Gralloc1.Convert.{UsageFlags}
use android_device_xenvm.Gralloc1.Init.{Gralloc1Hal, init_with_module}
use android_device_xenvm.Gralloc1.Buffers.{Unset, allocate_buffers}
use android_device_xenvm.Gralloc1.Calls.{OnAllocate, allocate_buffers-Always}
use android_device_xenvm.Gralloc1.Loaded.{IsLoaded, init_with_module-IsLoaded}

-- The pointer through which a call goes; `some` stands for a call outside `mDispatch`.
abbrev pfn_of : Call → Pfn
pfn_of (Call.dumped p) = p
pfn_of (Call.created p e id) = p
pfn_of (Call.destroyed p id) = p
pfn_of (Call.dimensioned p id w h) = p
pfn_of (Call.formatted p id f) = p
pfn_of (Call.layered p id n) = p
pfn_of (Call.set_up_producer p id u) = p
pfn_of (Call.set_up_consumer p id u) = p
pfn_of (Call.allocated p id e b) = p
pfn_of (Call.measured p b) = p
pfn_of (Call.released p b) = p
pfn_of _ = some 0

abbrev pub IsCallable : Call → Type 0
IsCallable c = pfn_of c ≢ none

module _ {D : Type 0} (dev : Gralloc1Device D) (flags : UsageFlags) (hal : Gralloc1Hal)
    (loaded : IsLoaded hal) where
  callable : OnAllocate dev flags hal IsCallable
  callable = record {
    creating = record {
      created = λ e id. loaded.functions FunctionDescriptor.create_descriptor (λ e. cc);
      destroyed = λ id. loaded.functions FunctionDescriptor.destroy_descriptor (λ e. cc);
      set_up_calls = λ id. record {
        dimensioned = λ w h. loaded.functions FunctionDescriptor.set_dimensions (λ e. cc);
        formatted = λ f. loaded.functions FunctionDescriptor.set_format (λ e. cc);
        layered = λ h n. loaded.layers h;
        producer = λ u. loaded.functions FunctionDescriptor.set_producer_usage (λ e. cc);
        consumer = λ u. loaded.functions FunctionDescriptor.set_consumer_usage (λ e. cc);
      };
    };
    allocated = λ id e b. loaded.functions FunctionDescriptor.allocate (λ e. cc);
    buffers = record {
      measured = λ b. loaded.functions FunctionDescriptor.get_stride (λ e. cc);
      released = λ b. loaded.functions FunctionDescriptor.release (λ e. cc);
    };
  }

  -- With the pointers loaded no call of `allocateBuffers` goes through a null pointer, whatever
  -- the driver answers.
  pub allocate_buffers-IsCallable :
      (decode : BufferDescriptor → Option BufferDescriptorInfo) (unset : Unset)
      (descriptor : BufferDescriptor) (count : ℕ) (d : D)
      → All IsCallable (allocate_buffers dev flags hal decode unset descriptor count d).trace
  allocate_buffers-IsCallable decode unset descriptor count d =
      (allocate_buffers-Always dev flags hal IsCallable callable decode unset descriptor count).at d

-- Once `initWithModule` has returned true, no `allocateBuffers` of that HAL calls through a null
-- function pointer, whatever it is asked for and whatever the driver answers.
pub init_with_module-IsCallable :
    {D : Type 0} (dev : Gralloc1Device D) (flags : UsageFlags) (hal : Gralloc1Hal) (d : D)
    → let r = init_with_module dev hal d in
      r.value.0 ≡ true
      → (decode : BufferDescriptor → Option BufferDescriptorInfo) (unset : Unset)
        (descriptor : BufferDescriptor) (count : ℕ) (d' : D)
      → All IsCallable (allocate_buffers dev flags r.value.1 decode unset descriptor count d').trace
init_with_module-IsCallable dev flags hal d ok decode unset descriptor count d' =
    allocate_buffers-IsCallable dev flags _ (init_with_module-IsLoaded dev hal d ok) decode unset
      descriptor count d'
