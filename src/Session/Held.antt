-- ===== src/Session/Held.antt =====
-- The service answers with buffers that it holds, and gives each back once, over a whole session.
use mathlib.Core.List.{map, Mem, mem-cons_of_mem, mem-cons_self}
use mathlib.Core.List.Perm
use android_device_xenvm.Base.{
  ℕ, ◌≡◌, refl, Option, List, [], ◌∷◌, ◌++◌, Bool-cases, Option-cases, append-nil, inl, inr, pure,
  ask, ◌>>=◌, ◌>>◌, All,
}
use android_device_xenvm.Graphics.{
  is_none, Handle, BufferDescriptor, BufferDescriptorInfo, AllocatorHal,
}
use android_device_xenvm.Graphics.Holding.{
  Act, nothing, uses, Holds, rest, call, Holds-append, IsCareful,
}
use android_device_xenvm.Gralloc1.Device.{Gralloc1Device, IsDocumented}
use android_device_xenvm.Gralloc1.Convert.{UsageFlags}
use android_device_xenvm.Gralloc1.Buffers
use android_device_xenvm.Gralloc1.Holding
use android_device_xenvm.Gralloc0
use android_device_xenvm.Gralloc0.{Gralloc0Device}
use android_device_xenvm.Gralloc0.Holding as Holding0
use android_device_xenvm.Allocator.{
  Event, via_hal, replied, replied_dump, on_hal, allocate, dump_debug_info, reply_dump,
}
use android_device_xenvm.Loader.{
  HwModule, Hal, gralloc1, gralloc0, on_gralloc1, on_gralloc0, got_module,
}
use android_device_xenvm.Loader
use android_device_xenvm.Session.{
  relabel, as_calls, hal_of, Request, allocating, dumping, serve_request, serve_requests,
}

-- What a call of the process does with buffers.
abbrev pub act : Loader.Event → Act
act (got_module m) = nothing
act (on_gralloc1 c) = Holding.act c
act (on_gralloc0 c) = Holding0.act c

-- An answer is made with the buffers that it carries.
abbrev pub doing : Event Loader.Event → Act
doing (via_hal e) = act e
doing (replied error stride buffers) = uses buffers
doing (replied_dump text) = nothing

module _ {C E : Type 0} (label : C → E) (act1 : C → Act) (act2 : E → Act)
    (same : (c : C) → act2 (label c) ≡ act1 c) where
  -- What calls do does not depend on what they are called.
  pub Holds-map :
      {cs : List C} {L M : List Handle} → Holds act1 cs L M → Holds act2 (map label cs) L M
  Holds-map (rest p) = rest p
  Holds-map {L} (call {c} M s h) = call M (rw (same c) s) (Holds-map h)

  as_calls-IsCareful :
      {S : Type 0} (hal : AllocatorHal C S)
      → IsCareful act1 hal
      → IsCareful act2 (as_calls label hal)
  unfolding relabel
  as_calls-IsCareful hal careful = record {
    allocates = λ descriptor count s.
        let a = careful.allocates descriptor count s in
        record {
          success = λ h.
              let (stride, buffers, out, held) = a.success h in
              (stride, buffers, out, λ L. Holds-map (held L));
          failure = λ h L. Holds-map (a.failure h L);
        };
    frees = λ bs s L. Holds-map (careful.frees bs s L);
    dumps = λ s L. Holds-map (careful.dumps s L);
  }

module _ {D : Type 0} (dev1 : Gralloc1Device D) (dev0 : Gralloc0Device D) (flags : UsageFlags)
    (decode : BufferDescriptor → Option BufferDescriptorInfo) (unset1 : Buffers.Unset)
    (unset0 : Gralloc0.Unset) (doc : IsDocumented dev1) where
  pub hal_of-IsCareful :
      (hal : Hal) → IsCareful act (hal_of dev1 dev0 flags decode unset1 unset0 hal)
  unfolding hal_of
  hal_of-IsCareful (gralloc1 hal) =
      as_calls-IsCareful on_gralloc1 Holding.act act (λ c. refl) _
        (Holding.gralloc1_hal-IsCareful dev1 flags hal doc decode unset1)
  hal_of-IsCareful gralloc0 =
      as_calls-IsCareful on_gralloc0 Holding0.act act (λ c. refl) _
        (Holding0.gralloc0_hal-IsCareful dev0 decode unset0)

Mem-front : (hs L : List Handle) → All (λ h. Mem h (hs ++ L)) hs
Mem-front [] L = tt
Mem-front (h ∷ hs) L = (mem-cons_self, go hs hs (Mem-front hs L))
  where
    go : (ks ms : List Handle) → All (λ k. Mem k (ms ++ L)) ks → All (λ k. Mem k (h ∷ (ms ++ L))) ks
    go [] ms a = tt
    go (k ∷ ks) ms a = (mem-cons_of_mem h a.0, go ks ms a.1)

module _ {D : Type 0} (hal : AllocatorHal Loader.Event D) (careful : IsCareful act hal) where
  -- One request: its buffers are held when it is answered, and gone at its end.
  allocate-Holds :
      (unset : ℕ) (descriptor : BufferDescriptor) (count : ℕ) (d : D) (L : List Handle)
      → Holds doing (allocate hal unset descriptor count d).trace L L
  unfolding allocate on_hal ◌>>=◌ ◌>>◌ ask
  allocate-Holds unset descriptor count d L =
      let r = hal.allocate_buffers descriptor count d in
      let a = careful.allocates descriptor count d in
      elim (Bool-cases (is_none r.value.0)) [
        | inr bad ↦
            rw (bad, allocate)
              (Holds-append (Holds-map via_hal act doing (λ c. refl) (a.failure bad L))
                (call L (tt, Perm.refl L) (rest (Perm.refl L))))
        | inl good ↦
            let (stride, buffers, out, held) = a.success good in
            rw (good, out, allocate)
              (Holds-append (Holds-map via_hal act doing (λ c. refl) (held L)) (
                call (buffers ++ L) (Mem-front buffers L, Perm.refl _)
                  (Holds-map via_hal act doing (λ c. refl) (careful.frees buffers r.state L))))
      ]

  serve_request-Holds :
      (r : Request) (d : D) (L : List Handle) → Holds doing (serve_request hal r d).trace L L
  unfolding serve_request dump_debug_info reply_dump on_hal ◌>>=◌ ◌>>◌ ask pure
  serve_request-Holds (allocating unset descriptor count) d L =
      rw append-nil (allocate-Holds unset descriptor count d L)
  serve_request-Holds dumping d L =
      let dumped = Holds-map via_hal act doing (λ c. refl) (careful.dumps d L) in
      elim (Option-cases (hal.dump_debug_info d).value) [
        | inl e ↦ rw (e, dump_debug_info, append-nil) dumped
        | inr (text, e) ↦
            rw (e, dump_debug_info)
              (Holds-append dumped (call L (Perm.refl L) (rest (Perm.refl L))))
      ]

  pub serve_requests-Holds :
      (requests : List Request) (d : D) (L : List Handle)
      → Holds doing (serve_requests hal requests d).trace L L
  unfolding serve_requests ◌>>◌ ◌>>=◌ pure
  serve_requests-Holds [] d L = rest (Perm.refl L)
  serve_requests-Holds (r ∷ rs) d L =
      let first = serve_request hal r d in
      elim (Bool-cases first.value) [
        | inl well ↦
            rw (well, serve_requests)
              (Holds-append (serve_request-Holds r d L) (serve_requests-Holds rs first.state L))
        | inr torn ↦ rw (torn, serve_requests, append-nil) (serve_request-Holds r d L)
      ]
