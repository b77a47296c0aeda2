-- ===== src/Loader.antt =====
-- hals/allocator/GrallocLoader.h, with `HIDL_FETCH_IAllocator` of Allocator.cpp: which HAL serves
-- the allocator, by the version of the gralloc module.
pub mod Opened
use mathlib.Core.List.{map}
use android_device_xenvm.Base.{
  ℕ, ◌/◌, ◌%◌, ◌^◌, Bool, true, false, Option, none, some, List, [], ◌∷◌, Done, Proc, pure, ask,
  ◌>>=◌, ◌>>◌, ◌==◌, if◌then◌else◌,
}
use android_device_xenvm.Gralloc1.Device.{Gralloc1Device}
use android_device_xenvm.Gralloc1.Device
use android_device_xenvm.Gralloc1.Init.{Gralloc1Hal, fresh}
use android_device_xenvm.Gralloc1.Init
use android_device_xenvm.Gralloc0.{Gralloc0Device}
use android_device_xenvm.Gralloc0
use android_device_xenvm.Allocator.{AllocatorImpl, new_allocator, init}

-- hw_module_t, as far as the loader reads it: `module_api_version`, a uint16_t.
pub record HwModule : Type 0 where
  pub module_api_version : ℕ

-- The calls that the loader and the HALs make.
pub data Event : Type 0 where
  got_module : Option HwModule → Event
  on_gralloc1 : Device.Call → Event
  on_gralloc0 : Gralloc0.Call → Event

-- The object behind `std::unique_ptr<AllocatorHal>`, by its class.
pub data Hal : Type 0 where
  gralloc1 : Gralloc1Hal → Hal
  gralloc0 : Hal

unfoldable pub on_one : {D A : Type 0} → Proc Device.Call D A → Proc Event D A
on_one m d =
    let r = m d in record { value = r.value; state = r.state; trace = map on_gralloc1 r.trace }

unfoldable pub on_zero : {D A : Type 0} → Proc Gralloc0.Call D A → Proc Event D A
on_zero m d =
    let r = m d in record { value = r.value; state = r.state; trace = map on_gralloc0 r.trace }

-- `(module->module_api_version >> 8) & 0xff`
unfoldable pub get_module_major_api_version : HwModule → ℕ
get_module_major_api_version m = m.module_api_version / 2 ^ 8 % 2 ^ 8

-- `dev1` and `dev0` are what the module is to the two HALs, and `hw_get_module` finds it.
module _ {D : Type 0} (dev1 : Gralloc1Device D) (dev0 : Gralloc0Device D)
    (hw_get_module : D → Option HwModule × D) where
  unfoldable pub load_module : Proc Event D (Option HwModule)
  load_module = ask hw_get_module got_module

  -- A HAL whose `initWithModule` fails is destroyed with its `unique_ptr`.
  unfoldable pub create_gralloc1 : Proc Event D (Option Hal)
  create_gralloc1 = on_one (do
    r ← Init.init_with_module dev1 fresh
    if r.0 then pure (some (gralloc1 r.1)) else (Init.destroy dev1 r.1 >> pure none))

  unfoldable pub create_gralloc0 : Proc Event D (Option Hal)
  create_gralloc0 = on_zero (do
    has_device ← Gralloc0.init_with_module dev0
    if has_device then pure (some gralloc0) else (Gralloc0.destroy dev0 has_device >> pure none))

  unfoldable pub create_hal : HwModule → Proc Event D (Option Hal)
  create_hal m =
      let major = get_module_major_api_version m in
      if major == 1 then create_gralloc1 else if major == 0 then create_gralloc0 else pure none

  -- `init` is asked, and the allocator is dropped if it refuses.
  unfoldable pub create_allocator : Hal → Proc Event D (Option (AllocatorImpl Hal))
  create_allocator hal =
      let r = init hal new_allocator in if r.0 then pure (some r.1) else pure none

  -- What follows once `loadModule` has answered, and once `createHal` has.
  unfoldable pub load_allocator : Option Hal → Proc Event D (Option (AllocatorImpl Hal))
  load_allocator none = pure none
  load_allocator (some hal) = create_allocator hal

  unfoldable pub load_hal : Option HwModule → Proc Event D (Option (AllocatorImpl Hal))
  load_hal none = pure none
  load_hal (some m) = create_hal m >>= load_allocator

  unfoldable pub load : Proc Event D (Option (AllocatorImpl Hal))
  load = load_module >>= load_hal
