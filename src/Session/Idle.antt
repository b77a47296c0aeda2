-- ===== src/Session/Idle.antt =====
-- Serving a request neither opens nor closes a device, and answers once.
use mathlib.Core.List.{map}
use android_device_xenvm.Base.{
  ℕ, ◌≡◌, refl, not, Option, List, [], ◌∷◌, Proc, All, Always, ask-Always, bind-Always, then-Always,
  if-Always,
}
use android_device_xenvm.Graphics.{
  is_none, Handle, BufferDescriptor, BufferDescriptorInfo, AllocatorHal,
}
use android_device_xenvm.Gralloc1.Device.{Gralloc1Device}
use android_device_xenvm.Gralloc1.Convert.{UsageFlags}
use android_device_xenvm.Gralloc1.Buffers
use android_device_xenvm.Gralloc1.Calls.{allocate_buffers-Always, free_buffers-Always}
use android_device_xenvm.Gralloc0
use android_device_xenvm.Gralloc0.{Gralloc0Device}
use android_device_xenvm.Gralloc0.Calls as Calls0
use android_device_xenvm.Allocator.{Event, via_hal, replied, replied_dump, on_hal, allocate}
use android_device_xenvm.Loader.{HwModule, Hal, gralloc1, gralloc0, on_gralloc1, on_gralloc0}
use android_device_xenvm.Loader
use android_device_xenvm.Loader.Opened.{opens, closes}
use android_device_xenvm.Session.{relabel, hal_of}

-- A call that neither opens nor closes a device.
abbrev pub Still : Loader.Event → Type 0
Still e = (opens e ≡ 0) × (closes e ≡ 0)

pub relabel-All :
    {C E : Type 0} (label : C → E) (P : E → Type 0) (cs : List C)
    → All (λ c. P (label c)) cs
    → All P (map label cs)
relabel-All label P [] h = tt
relabel-All label P (c ∷ cs) h = (h.0, relabel-All label P cs h.1)

pub relabel-Always :
    {C E D A : Type 0} (label : C → E) (P : E → Type 0) {m : Proc C D A}
    → Always (λ c. P (label c)) m
    → Always P (relabel label m)
unfolding relabel
relabel-Always label P {m} h = record { at = λ d. relabel-All label P (m d).trace (h.at d) }

module _ {D : Type 0} (dev1 : Gralloc1Device D) (dev0 : Gralloc0Device D) (flags : UsageFlags)
    (decode : BufferDescriptor → Option BufferDescriptorInfo) (unset1 : Buffers.Unset)
    (unset0 : Gralloc0.Unset) where
  pub allocate_buffers-Still :
      (hal : Hal) (descriptor : BufferDescriptor) (count : ℕ)
      → Always Still
          ((hal_of dev1 dev0 flags decode unset1 unset0 hal).allocate_buffers descriptor count)
  unfolding hal_of
  allocate_buffers-Still (gralloc1 hal) descriptor count = relabel-Always on_gralloc1 Still (
      allocate_buffers-Always dev1 flags hal (λ c. Still (on_gralloc1 c))
        (record {
          creating = record {
            created = λ e id. (refl, refl);
            destroyed = λ id. (refl, refl);
            set_up_calls = λ id. record {
              dimensioned = λ w h. (refl, refl);
              formatted = λ f. (refl, refl);
              layered = λ h n. (refl, refl);
              producer = λ u. (refl, refl);
              consumer = λ u. (refl, refl);
            };
          };
          allocated = λ id e b. (refl, refl);
          buffers = record { measured = λ b. (refl, refl); released = λ b. (refl, refl) };
        })
        decode unset1 descriptor count)
  allocate_buffers-Still gralloc0 descriptor count = relabel-Always on_gralloc0 Still (
      Calls0.allocate_buffers-Always dev0 (λ c. Still (on_gralloc0 c)) (λ b. (refl, refl)) decode
        unset0 descriptor count λ info e served r b. (refl, refl))

  pub free_buffers-Still :
      (hal : Hal) (bs : List Handle)
      → Always Still ((hal_of dev1 dev0 flags decode unset1 unset0 hal).free_buffers bs)
  unfolding hal_of
  free_buffers-Still (gralloc1 hal) bs = relabel-Always on_gralloc1 Still (
      free_buffers-Always dev1 flags hal (λ c. Still (on_gralloc1 c))
        (record { measured = λ b. (refl, refl); released = λ b. (refl, refl) }) bs)
  free_buffers-Still gralloc0 bs =
      relabel-Always on_gralloc0 Still
        (Calls0.free_buffers-Always dev0 (λ c. Still (on_gralloc0 c)) (λ b. (refl, refl)) bs)

-- The same of what the service does.
abbrev pub StillEvent : Event Loader.Event → Type 0
StillEvent (via_hal e) = Still e
StillEvent (replied error stride buffers) = Unit {0}
StillEvent (replied_dump text) = Unit {0}

pub on_hal-Always :
    {D A : Type 0} {m : Proc Loader.Event D A} → Always Still m → Always StillEvent (on_hal m)
unfolding on_hal
on_hal-Always {m} h = record { at = λ d. relabel-All via_hal StillEvent (m d).trace (h.at d) }

pub allocate-Still :
    {D : Type 0} (hal : AllocatorHal Loader.Event D)
    → ((descriptor : BufferDescriptor) (count : ℕ)
        → Always Still (hal.allocate_buffers descriptor count))
    → ((bs : List Handle) → Always Still (hal.free_buffers bs))
    → (unset : ℕ) (descriptor : BufferDescriptor) (count : ℕ)
    → Always StillEvent (allocate hal unset descriptor count)
unfolding allocate
allocate-Still hal a f unset descriptor count =
    bind-Always StillEvent (on_hal-Always (a descriptor count)) λ r.
      if-Always StillEvent (not (is_none r.0)) (λ _. ask-Always StillEvent _ _ λ u. tt)
        (λ _. then-Always StillEvent (ask-Always StillEvent _ _ λ u. tt) (on_hal-Always (f _)))
