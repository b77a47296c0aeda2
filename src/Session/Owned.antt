-- ===== src/Session/Owned.antt =====
-- The allocator's process from loading to its end: which buffers it holds at each step.
use mathlib.Core.List.{map}
use mathlib.Core.List.Perm
use android_device_xenvm.Base.{
  ◌≡◌, Option, none, some, List, [], ◌∷◌, append-nil, Bool-cases, inl, inr, pure, ◌>>=◌, ◌>>◌, All,
}
use android_device_xenvm.Graphics.{Handle, BufferDescriptor, BufferDescriptorInfo}
use android_device_xenvm.Graphics.Holding.{nothing, Holds, rest, Holds-append, Idle-Holds}
use android_device_xenvm.Gralloc1.Device.{Gralloc1Device, IsDocumented}
use android_device_xenvm.Gralloc1.Convert.{UsageFlags}
use android_device_xenvm.Gralloc1.Buffers
use android_device_xenvm.Gralloc0
use android_device_xenvm.Gralloc0.{Gralloc0Device}
use android_device_xenvm.Allocator.{via_hal, on_hal}
use android_device_xenvm.Loader.{HwModule, Hal, load}
use android_device_xenvm.Loader
use android_device_xenvm.Session.Loading.{Bufferless, load-Always, drop-Always}
use android_device_xenvm.Session.{
  Request, hal_of, hidl_fetch_i_allocator, drop, serve_requests, run_allocator, fetched_hal,
  session,
}
use android_device_xenvm.Session.Held.{doing, hal_of-IsCareful, serve_requests-Holds}

-- Loading a HAL, and dropping it, leave what is held as it is.
pub Bufferless-Holds :
    (es : List Loader.Event) (L : List Handle)
    → All Bufferless es
    → Holds doing (map via_hal es) L L
Bufferless-Holds es L h = Idle-Holds doing (map via_hal es) L (go es h)
  where
    go :
        (es : List Loader.Event) → All Bufferless es → All (λ e. doing e ≡ nothing) (map via_hal es)
    go [] h = tt
    go (e ∷ es) h = (h.0.2, go es h.1)

module _ {D : Type 0} (dev1 : Gralloc1Device D) (dev0 : Gralloc0Device D) (flags : UsageFlags)
    (hw_get_module : D → Option HwModule × D)
    (decode : BufferDescriptor → Option BufferDescriptorInfo) (unset1 : Buffers.Unset)
    (unset0 : Gralloc0.Unset) (doc : IsDocumented dev1) where
  run_allocator-Holds :
      (hal : Option Hal) (requests : List Request) (d : D) (L : List Handle)
      → Holds doing (run_allocator dev1 dev0 flags decode unset1 unset0 hal requests d).trace L L
  unfolding run_allocator on_hal ◌>>◌ ◌>>=◌ pure
  run_allocator-Holds none requests d L = rest (Perm.refl L)
  run_allocator-Holds (some hal) requests d L =
      let h = hal_of dev1 dev0 flags decode unset1 unset0 hal in
      let s = serve_requests h requests d in
      let served =
        serve_requests-Holds h (hal_of-IsCareful dev1 dev0 flags decode unset1 unset0 doc hal)
          requests d L in
      elim (Bool-cases s.value) [
        | inl well ↦
            rw (well, run_allocator, append-nil)
              (Holds-append served (
                Bufferless-Holds (drop dev1 dev0 hal s.state).trace L
                  ((drop-Always dev1 dev0 hw_get_module hal).at s.state)))
        | inr torn ↦ rw (torn, run_allocator, append-nil) served
      ]

  -- For any module, a gralloc1 driver as documented and any gralloc0 driver, from loading to the
  -- end of the process, or to a dump that is written out of bounds, with no buffer held at the start: each buffer whose stride is asked for,
  -- that an answer carries or that is given back is held at that point, that is, the driver has
  -- handed it out and it has not been given back since; and none is held at the end.
  pub session-Holds :
      (requests : List Request) (d : D)
      → Holds doing
          (session dev1 dev0 flags decode unset1 unset0 hw_get_module requests d).trace
          []
          []
  unfolding session hidl_fetch_i_allocator on_hal ◌>>=◌
  session-Holds requests d =
      let f = load dev1 dev0 hw_get_module d in
      Holds-append (Bufferless-Holds f.trace [] ((load-Always dev1 dev0 hw_get_module).at d))
        (run_allocator-Holds (fetched_hal f.value) requests f.state [])
