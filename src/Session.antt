-- ===== src/Session.antt =====
-- The life of the allocator's process, as the files of hals/allocator make it up: the HAL that
-- GrallocLoader.h loads for `HIDL_FETCH_IAllocator` of Allocator.cpp, behind `mHal` of Allocator.h.
pub mod Sound
pub mod Idle
pub mod Loading
pub mod Sums
pub mod Whole
pub mod Held
pub mod Owned
pub mod Dumping
pub mod Answers
pub mod Works
use mathlib.Core.List.{map}
use android_device_xenvm.Base.{
  ℕ, Bool, true, false, Option, none, some, List, [], ◌∷◌, Done, Proc, pure, ◌>>=◌, ◌>>◌,
  if◌then◌else◌,
}
use android_device_xenvm.Graphics.{BufferDescriptor, BufferDescriptorInfo, AllocatorHal}
use android_device_xenvm.Gralloc1.Device.{Gralloc1Device}
use android_device_xenvm.Gralloc1.Convert.{UsageFlags}
use android_device_xenvm.Gralloc1.Init
use android_device_xenvm.Gralloc1.Buffers
use android_device_xenvm.Gralloc1.Buffers.{gralloc1_hal}
use android_device_xenvm.Gralloc0.{Gralloc0Device, gralloc0_hal}
use android_device_xenvm.Gralloc0
use android_device_xenvm.Allocator.{AllocatorImpl, on_hal, allocate, dump_debug_info}
use android_device_xenvm.Allocator
use android_device_xenvm.Loader.{
  HwModule, Hal, gralloc1, gralloc0, on_gralloc1, on_gralloc0, on_one, on_zero, load,
}
use android_device_xenvm.Loader

-- The calls of an object of a derived class, among those of the process.
unfoldable pub relabel : {C E D A : Type 0} → (C → E) → Proc C D A → Proc E D A
relabel label m d =
    let r = m d in record { value = r.value; state = r.state; trace = map label r.trace }

abbrev pub as_calls : {C E D : Type 0} → (C → E) → AllocatorHal C D → AllocatorHal E D
as_calls label hal = record {
  dump_debug_info = relabel label hal.dump_debug_info;
  allocate_buffers = λ descriptor count. relabel label (hal.allocate_buffers descriptor count);
  free_buffers = λ buffers. relabel label (hal.free_buffers buffers);
}

-- A call of a method of `IAllocator`: `allocate`, with what its local `stride` holds and its
-- arguments, or `dumpDebugInfo`.
pub data Request : Type 0 where
  allocating : ℕ → BufferDescriptor → ℕ → Request
  dumping : Request

-- `mHal` of the allocator that was fetched, if one was.
abbrev pub fetched_hal : Option (AllocatorImpl Hal) → Option Hal
fetched_hal none = none
fetched_hal (some allocator) = allocator.hal

-- False is a write out of bounds.
unfoldable pub serve_request :
    {C D : Type 0} → AllocatorHal C D → Request → Proc (Allocator.Event C) D Bool
serve_request hal (allocating unset descriptor count) =
    allocate hal unset descriptor count >> pure true
serve_request hal dumping = dump_debug_info hal

-- Requests to the service, one after the other, up to a write out of bounds.
unfoldable pub serve_requests :
    {C D : Type 0} → AllocatorHal C D → List Request → Proc (Allocator.Event C) D Bool
serve_requests hal [] = pure true
serve_requests hal (r ∷ rs) =
    serve_request hal r >>= λ well. if well then serve_requests hal rs else pure false

module _ {D : Type 0} (dev1 : Gralloc1Device D) (dev0 : Gralloc0Device D) where
  -- The destructor of the object; one on gralloc0 has `mDevice` set, since it was loaded.
  unfoldable pub drop : Hal → Proc Loader.Event D (Unit {0})
  drop (gralloc1 hal) = on_one (Init.destroy dev1 hal)
  drop gralloc0 = on_zero (Gralloc0.destroy dev0 true)

  unfoldable pub hidl_fetch_i_allocator :
      (D → Option HwModule × D) → Proc Loader.Event D (Option (AllocatorImpl Hal))
  hidl_fetch_i_allocator hw_get_module = load dev1 dev0 hw_get_module

  module _ (flags : UsageFlags) (decode : BufferDescriptor → Option BufferDescriptorInfo)
      (unset1 : Buffers.Unset) (unset0 : Gralloc0.Unset) where
    -- The methods behind `std::unique_ptr<AllocatorHal>`, by the class of the object.
    unfoldable pub hal_of : Hal → AllocatorHal Loader.Event D
    hal_of (gralloc1 hal) = as_calls on_gralloc1 (gralloc1_hal dev1 flags hal decode unset1)
    hal_of gralloc0 = as_calls on_gralloc0 (gralloc0_hal dev0 decode unset0)

    -- What the process does with the loaded object: it serves the requests and drops the object.
    -- The result says whether there was one; `none` is a write out of bounds, where the run ends.
    unfoldable pub run_allocator :
        Option Hal → List Request → Proc (Allocator.Event Loader.Event) D (Option Bool)
    run_allocator none requests = pure (some false)
    run_allocator (some hal) requests = serve_requests (hal_of hal) requests >>= λ well.
        if well then on_hal (drop hal) >> pure (some true) else pure none

    unfoldable pub session :
        (D → Option HwModule × D)
        → List Request
        → Proc (Allocator.Event Loader.Event) D (Option Bool)
    session hw_get_module requests = do
      fetched ← on_hal (hidl_fetch_i_allocator hw_get_module)
      run_allocator (fetched_hal fetched) requests
