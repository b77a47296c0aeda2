-- ===== src/Session/Dumping.antt =====
-- `dumpDebugInfo` of the service: it has to do with no device and no buffer, and answers once
-- where the driver's dump fits.
use mathlib.Core.List.{map}
use mathlib.Core.List.Perm
use android_device_xenvm.Base.{
  ◌≡◌, ◌≢◌, refl, Returns, none, ◌>>◌, pure, true, Option, List, [], ◌∷◌, ◌++◌, arith, Always,
  ask-Always, bind-Always, pure-Always, Option-cases, inl, inr, All, ask, ◌>>=◌,
}
use android_device_xenvm.Base.Count.{total}
use android_device_xenvm.Graphics.{BufferDescriptor, BufferDescriptorInfo, AllocatorHal}
use android_device_xenvm.Gralloc1.Device.{Gralloc1Device, Pfn}
use android_device_xenvm.Gralloc1.Device
use android_device_xenvm.Gralloc1.Init.{Gralloc1Hal}
use android_device_xenvm.Gralloc1.Dump
use android_device_xenvm.Gralloc1.Text as Text1
use android_device_xenvm.Gralloc0.Text as Text0
use android_device_xenvm.Gralloc1.Convert.{UsageFlags}
use android_device_xenvm.Gralloc1.Buffers
use android_device_xenvm.Gralloc0
use android_device_xenvm.Gralloc0.{Gralloc0Device}
use android_device_xenvm.Allocator.{via_hal, replied_dump, on_hal, dump_debug_info, reply_dump}
use android_device_xenvm.Loader.{Hal, gralloc1, gralloc0, on_gralloc1, on_gralloc0}
use android_device_xenvm.Loader
use android_device_xenvm.Loader.Opened.{opens, closes}
use android_device_xenvm.Session.{hal_of, relabel}
use android_device_xenvm.Session.Idle.{Still, relabel-Always}
use android_device_xenvm.Session.Loading.{Bufferless}
use android_device_xenvm.Session.Sums.{Sums, Sums-append, Sums-as, Bufferless-Sums}

module _ {D : Type 0} (P : Loader.Event → Type 0) where
  dump1-Always :
      (dev : Gralloc1Device D) (hal : Gralloc1Hal)
      → ((p : Pfn) → P (on_gralloc1 (Device.Call.dumped p)))
      → Always (λ c. P (on_gralloc1 c)) (Dump.dump_debug_info dev hal)
  unfolding Dump.dump_debug_info
  dump1-Always dev hal on =
      let Q = λ (c : Device.Call). P (on_gralloc1 c) in
      bind-Always Q (ask-Always Q _ _ λ n. on _)
        λ n. bind-Always Q (ask-Always Q _ _ λ r. on _) λ r. pure-Always Q _

  dump0-Always :
      (dev : Gralloc0Device D)
      → P (on_gralloc0 Gralloc0.Call.dumped)
      → Always (λ c. P (on_gralloc0 c)) (Gralloc0.dump_debug_info dev)
  unfolding Gralloc0.dump_debug_info
  dump0-Always dev on =
      let Q = λ (c : Gralloc0.Call). P (on_gralloc0 c) in
      elim (Option-cases dev.dump) [
        | inl e ↦ rw (e, Gralloc0.dump_debug_info) (pure-Always Q _)
        | inr (dump, e) ↦
            rw (e, Gralloc0.dump_debug_info)
              (bind-Always Q (ask-Always Q _ _ λ r. on) λ r. pure-Always Q _)
      ]

-- The service goes on where there is a text.
pub dump_debug_info-value :
    {C D : Type 0} (hal : AllocatorHal C D) (d : D)
    → (hal.dump_debug_info d).value ≢ none
    → (dump_debug_info hal d).value ≡ true
unfolding dump_debug_info reply_dump on_hal ◌>>=◌ ◌>>◌ ask pure
dump_debug_info-value hal d some_text = elim (Option-cases (hal.dump_debug_info d).value) [
  | inl nothing ↦ absurd (some_text nothing)
  | inr (text, e) ↦ rw (e, dump_debug_info) refl
]

-- A call that neither opens nor closes a device, and has to do with no buffer.
abbrev Plain : Loader.Event → Type 0
Plain e = Still e × Bufferless e

Plain-split :
    (es : List Loader.Event)
    → All Plain es
    → (total opens es ≡ 0) × (total closes es ≡ 0) × All Bufferless es
Plain-split [] h = (refl, refl, tt)
Plain-split (e ∷ es) h =
    let (o, c, b) = Plain-split es h.1 in
    (omega (arith, h.0.0.0), omega (arith, h.0.0.1), (h.0.1, b))

module _ {D : Type 0} (dev1 : Gralloc1Device D) (dev0 : Gralloc0Device D) (flags : UsageFlags)
    (decode : BufferDescriptor → Option BufferDescriptorInfo) (unset1 : Buffers.Unset)
    (unset0 : Gralloc0.Unset) where
  dump_debug_info-Plain :
      (hal : Hal) → Always Plain (hal_of dev1 dev0 flags decode unset1 unset0 hal).dump_debug_info
  unfolding hal_of
  dump_debug_info-Plain (gralloc1 hal) =
      relabel-Always on_gralloc1 Plain
        (dump1-Always Plain dev1 hal λ p. ((refl, refl), (refl, refl, refl)))
  dump_debug_info-Plain gralloc0 =
      relabel-Always on_gralloc0 Plain (dump0-Always Plain dev0 ((refl, refl), (refl, refl, refl)))

  -- Where the drivers' dumps fit, there is a text to answer with.
  pub dump_debug_info-text :
      Text1.DumpFits dev1
      → Text0.DumpFits dev0
      → (hal : Hal)
      → Returns
          (λ text. text ≢ none)
          (hal_of dev1 dev0 flags decode unset1 unset0 hal).dump_debug_info
  unfolding hal_of relabel
  dump_debug_info-text fits1 fits0 (gralloc1 hal) = record {
    at = (Text1.dump_debug_info-DumpFits dev1 hal fits1).at;
  }
  dump_debug_info-text fits1 fits0 gralloc0 = record {
    at = (Text0.dump_debug_info-DumpFits dev0 fits0).at;
  }

  pub dump_debug_info-Sums :
      (hal : Hal) (d : D)
      → let h = hal_of dev1 dev0 flags decode unset1 unset0 hal in
        (h.dump_debug_info d).value ≢ none → Sums 0 0 1 (dump_debug_info h d).trace
  unfolding dump_debug_info reply_dump on_hal ◌>>=◌ ◌>>◌ ask pure
  dump_debug_info-Sums hal d some_text =
      let r = (hal_of dev1 dev0 flags decode unset1 unset0 hal).dump_debug_info d in
      let (o, c, b) = Plain-split r.trace ((dump_debug_info-Plain hal).at d) in
      elim (Option-cases r.value) [
        | inl nothing ↦ absurd (some_text nothing)
        | inr (text, e) ↦
            let answer = replied_dump text ∷ [] in
            rw (e, dump_debug_info)
              (Sums-as (map via_hal r.trace ++ answer)
                (Sums-append (map via_hal r.trace) answer (Bufferless-Sums r.trace b) (record {
                  opened_all = refl;
                  closed_all = refl;
                  answered_all = refl;
                  none_held = Perm.refl _;
                }))
                (omega (arith, o)) (omega (arith, c)) refl)
      ]
