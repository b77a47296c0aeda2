-- ===== src/Session/Sound.antt =====
-- The loaded HAL keeps the contract of `AllocatorHal`, whichever it is.
use mathlib.Core.List.{map}
use android_device_xenvm.Base.{ℕ, ◌≡◌, refl, ◌∙◌, Option, List, [], ◌∷◌, Done}
use android_device_xenvm.Graphics.{
  Error, Handle, BufferDescriptor, BufferDescriptorInfo, AllocatorHal,
}
use android_device_xenvm.Graphics.Ledger.{gather}
use android_device_xenvm.Graphics.Contract.{Allocates, IsSound}
use android_device_xenvm.Gralloc1.Device.{Gralloc1Device, IsDocumented}
use android_device_xenvm.Gralloc1.Convert.{UsageFlags}
use android_device_xenvm.Gralloc1.Buffers
use android_device_xenvm.Gralloc1.Ownership
use android_device_xenvm.Gralloc0
use android_device_xenvm.Gralloc0.{Gralloc0Device}
use android_device_xenvm.Gralloc0.Ownership as Ownership0
use android_device_xenvm.Loader.{
  HwModule, Hal, gralloc1, gralloc0, on_gralloc1, on_gralloc0, got_module,
}
use android_device_xenvm.Loader
use android_device_xenvm.Session.{relabel, as_calls, hal_of}

-- The buffers that a call of the process hands out, and those that it gives back.
abbrev pub gain : Loader.Event → List Handle
gain (got_module m) = []
gain (on_gralloc1 c) = Ownership.gain c
gain (on_gralloc0 c) = Ownership0.gain c

abbrev pub loss : Loader.Event → List Handle
loss (got_module m) = []
loss (on_gralloc1 c) = Ownership.loss c
loss (on_gralloc0 c) = Ownership0.loss c

module _ {C E : Type 0} (label : C → E) (of : C → List Handle) (of' : E → List Handle)
    (same : (c : C) → of' (label c) ≡ of c) where
  pub gather-map : (cs : List C) → gather of' (map label cs) ≡ gather of cs
  gather-map [] = refl
  gather-map (c ∷ cs) = rw (same c, gather-map cs) refl

module _ {C E S : Type 0} (label : C → E) (gain1 loss1 : C → List Handle)
    (gain2 loss2 : E → List Handle) (gains : (c : C) → gain2 (label c) ≡ gain1 c)
    (losses : (c : C) → loss2 (label c) ≡ loss1 c) where
  as_calls-Allocates :
      (count : ℕ) (r : Done C S (Error × Option (ℕ × List Handle)))
      → Allocates gain1 loss1 count r
      → Allocates gain2 loss2 count
          (record { value = r.value; state = r.state; trace = map label r.trace })
  as_calls-Allocates count r a = record {
    success = λ h.
        let (stride, buffers, out, n, own, kept) = a.success h in
        (
          stride,
          buffers,
          out,
          n,
          rw (gather-map label gain1 gain2 gains r.trace) own,
          rw (gather-map label loss1 loss2 losses r.trace) kept,
        );
    failure = λ h.
        rw (gather-map label gain1 gain2 gains r.trace, gather-map label loss1 loss2 losses r.trace)
          (a.failure h);
  }

  -- The contract does not depend on what the calls are called.
  as_calls-IsSound :
      (hal : AllocatorHal C S) → IsSound gain1 loss1 hal → IsSound gain2 loss2 (as_calls label hal)
  unfolding relabel
  as_calls-IsSound hal sound = record {
    allocates = λ descriptor count s.
        as_calls-Allocates count (hal.allocate_buffers descriptor count s)
          (sound.allocates descriptor count s);
    frees = λ bs s.
        gather-map label loss1 loss2 losses (hal.free_buffers bs s).trace ∙ sound.frees bs s;
    frees_only = λ bs s.
        gather-map label gain1 gain2 gains (hal.free_buffers bs s).trace ∙ sound.frees_only bs s;
  }

module _ {D : Type 0} (dev1 : Gralloc1Device D) (dev0 : Gralloc0Device D) (flags : UsageFlags)
    (decode : BufferDescriptor → Option BufferDescriptorInfo) (unset1 : Buffers.Unset)
    (unset0 : Gralloc0.Unset) (doc : IsDocumented dev1) where
  pub hal_of-IsSound :
      (hal : Hal) → IsSound gain loss (hal_of dev1 dev0 flags decode unset1 unset0 hal)
  unfolding hal_of
  hal_of-IsSound (gralloc1 hal) =
      as_calls-IsSound on_gralloc1 Ownership.gain Ownership.loss gain loss (λ c. refl) (λ c. refl) _
        (Ownership.gralloc1_hal-IsSound dev1 flags hal doc decode unset1)
  hal_of-IsSound gralloc0 =
      as_calls-IsSound on_gralloc0 Ownership0.gain Ownership0.loss gain loss (λ c. refl) (λ c. refl)
        _ (Ownership0.gralloc0_hal-IsSound dev0 decode unset0)
