-- ===== src/Gralloc1/Holding.antt =====
-- Gralloc1Hal.h uses a buffer only while it holds it, and gives it back once.
use mathlib.Core.List.{mem-cons_self}
use mathlib.Core.List.Perm
use android_device_xenvm.Base.{
  ℕ, ◌≡◌, refl, ap, true, false, ◌||◌, Option, none, some, List, [], ◌∷◌, ◌++◌, append-nil, arith,
  if◌then◌else◌, Bool-cases, Option-cases, ◌⊎◌, inl, inr, not, ◌&&◌, ◌>>=◌, ◌>>◌, ask, pure,
}
use android_device_xenvm.Graphics.{
  Error, Handle, Batch, BufferDescriptor, BufferDescriptorInfo, AllocatorHal, written,
  allocate_loop,
}
use android_device_xenvm.Graphics
use android_device_xenvm.Graphics.Holding.{
  Act, nothing, gets, gives, uses, Holds, rest, call, Idle, Idle-Holds, Obtains, Returns, IsCareful,
  allocate_loop-Holds, Returns-finish, Returns-prefix, Returns-refused,
}
use android_device_xenvm.Gralloc1.Device.{
  Gralloc1Device, Gralloc1Error, Call, DescriptorId, IsDocumented, is_none, is_not_shared,
  is_undefined,
}
use android_device_xenvm.Gralloc1.Convert.{UsageFlags}
use android_device_xenvm.Gralloc1.Errors.{to_error_none, to_error_failed}
use android_device_xenvm.Gralloc1.Dump.{dump_debug_info}
use android_device_xenvm.Gralloc1.Init.{Gralloc1Hal}
use android_device_xenvm.Gralloc1.Calls.{OnCreate, create_descriptor-Always}
use android_device_xenvm.Gralloc1.Descriptor.{create_descriptor}
use android_device_xenvm.Gralloc1.Buffers.{
  Unset, release_buffer, free_buffers, measure_buffer, allocate_one_buffer, conclude, finish,
  allocate_with, allocate_buffers, gralloc1_hal,
}

-- An `allocate` that answers NONE or NOT_SHARED hands out a buffer, `getStride` is asked of a
-- buffer, and `release` gives one back.
abbrev pub act : Call → Act
act (Call.allocated p id error buffer) =
    if is_none error || is_not_shared error then gets buffer else nothing
act (Call.measured p buffer) = uses (buffer ∷ [])
act (Call.released p buffer) = gives buffer
act _ = nothing

granted_refused :
    (e : Gralloc1Error)
    → (is_none e || is_not_shared e) ≡ not (not (is_none e) && not (is_not_shared e))
granted_refused e = ground arith

module _ {D : Type 0} (dev : Gralloc1Device D) (hal : Gralloc1Hal) where
  pub free_buffers-Holds :
      (bs : List Handle) (d : D) (L : List Handle)
      → Holds act (free_buffers dev hal bs d).trace (bs ++ L) L
  unfolding free_buffers release_buffer ◌>>◌ ask pure
  free_buffers-Holds [] d L = rest (Perm.refl L)
  free_buffers-Holds (b ∷ bs) d L = call (bs ++ L) (Perm.refl _) (free_buffers-Holds bs _ L)

  dump_debug_info-Holds :
      (d : D) (L : List Handle) → Holds act (dump_debug_info dev hal d).trace L L
  unfolding dump_debug_info ◌>>=◌ ask pure
  dump_debug_info-Holds d L = call L (Perm.refl L) (call L (Perm.refl L) (rest (Perm.refl L)))

  module _ (doc : IsDocumented dev) where
    -- `measure_buffer` keeps the buffer, which it holds, or fails and gives it back.
    measure_buffer-Holds :
        (b : Handle) (d : D)
        → let r = measure_buffer dev hal b d in
          ((t : ℕ) × (r.value ≡ (Error.no_error, some (b, t)))
            × ((L : List Handle) → Holds act r.trace (b ∷ L) (b ∷ L)))
          ⊎ ((Graphics.is_none r.value.0 ≡ false)
              × ((L : List Handle) → Holds act r.trace (b ∷ L) L))
    unfolding measure_buffer release_buffer ◌>>◌ ask pure
    measure_buffer-Holds b d =
        let e = (dev.get_stride b d).0.0 in
        elim (Bool-cases (not (is_none e) && not (is_undefined e))) [
          | inl bad ↦
              rw (bad, measure_buffer)
                (inr (
                  to_error_failed e (doc.get_stride_error b d) (ground arith),
                  λ L.
                      call (b ∷ L) ((mem-cons_self, tt), Perm.refl _)
                        (call L (Perm.refl _) (rest (Perm.refl L))),
                ))
          | inr good ↦
              rw (good, measure_buffer)
                (inl (
                  _,
                  refl,
                  λ L. call (b ∷ L) ((mem-cons_self, tt), Perm.refl _) (rest (Perm.refl _)),
                ))
        ]

    allocate_one_buffer-Obtains :
        (id : DescriptorId) (d : D) → Obtains act (allocate_one_buffer dev hal id d)
    unfolding allocate_one_buffer ◌>>=◌ ask pure
    allocate_one_buffer-Obtains id d =
        let e = (dev.allocate id d).0.0 in
        let b = written (dev.allocate id d).0.1 0 in
        elim (Bool-cases (not (is_none e) && not (is_not_shared e))) [
          | inl bad ↦
              rw (bad, allocate_one_buffer)
                (record {
                  got = λ h. absurd (ground (arith, h, to_error_none e));
                  failed = λ h L.
                      call L (rw (granted_refused e, bad) (Perm.refl L)) (rest (Perm.refl L));
                })
          | inr good ↦
              rw (good, allocate_one_buffer)
                (elim (measure_buffer-Holds b (dev.allocate id d).1) [
                  | inl (t, v, held) ↦ record {
                    got = λ h. (
                      b,
                      t,
                      ap (λ v. v.1) v,
                      λ L. call (b ∷ L) (rw (granted_refused e, good) (Perm.refl _)) (held L),
                    );
                    failed = λ h. absurd (ground (arith, ap (λ v. v.0) v));
                  }
                  | inr (f, given) ↦ record {
                    got = λ h. absurd (ground (arith, h));
                    failed =
                        λ h L. call (b ∷ L) (rw (granted_refused e, good) (Perm.refl _)) (given L);
                  }
                ])
        ]

module _ {D : Type 0} (dev : Gralloc1Device D) (flags : UsageFlags) (hal : Gralloc1Hal) where
  create_descriptor-idle :
      (info : BufferDescriptorInfo) (unset : DescriptorId) (d : D) (L : List Handle)
      → Holds act (create_descriptor dev flags hal info unset d).trace L L
  create_descriptor-idle info unset d L =
      Idle-Holds act _ L ((create_descriptor-Always dev flags hal (Idle act) info unset on).at d)
    where
      on : OnCreate dev flags hal (Idle act)
      on = record {
        created = λ e id. refl;
        destroyed = λ id. refl;
        set_up_calls = λ id. record {
          dimensioned = λ w h. refl;
          formatted = λ f. refl;
          layered = λ h n. refl;
          producer = λ u. refl;
          consumer = λ u. refl;
        };
      }

  -- The end of `allocateBuffers`, begun with the buffers of the batch held.
  finish_kept :
      (id : DescriptorId) (b : Batch) (d : D)
      → Graphics.is_none b.error ≡ true
      → let r = finish dev hal id b d in
        (r.value ≡ (Error.no_error, some (b.stride, b.buffers)))
        × ((L : List Handle) → Holds act r.trace L L)
  unfolding finish conclude ◌>>◌ ask pure
  finish_kept id b d ok = rw (ok, finish) (refl, λ L. call L (Perm.refl L) (rest (Perm.refl L)))

  finish_freed :
      (id : DescriptorId) (b : Batch) (d : D)
      → Graphics.is_none b.error ≡ false
      → let r = finish dev hal id b d in
        (r.value ≡ (b.error, none)) × ((L : List Handle) → Holds act r.trace (b.buffers ++ L) L)
  unfolding finish conclude ◌>>◌ ask pure
  finish_freed id b d bad =
      rw (bad, finish)
        (
          refl,
          λ L.
              call (b.buffers ++ L) (Perm.refl _)
                (rw append-nil (free_buffers-Holds dev hal b.buffers _ L)),
        )

  looped-Returns :
      IsDocumented dev
      → (unset : Handle × ℕ) (id : DescriptorId) (count : ℕ) (d : D)
      → Returns act (
          (allocate_loop (allocate_one_buffer dev hal id) unset count Graphics.empty_batch
              >>= finish dev hal id)
            d)
  unfolding ◌>>=◌
  looped-Returns doc unset id count d =
      let loop =
        allocate_loop (allocate_one_buffer dev hal id) unset count Graphics.empty_batch d in
      let taken = λ (L : List Handle).
        (allocate_loop-Holds act (allocate_one_buffer dev hal id) unset
          (allocate_one_buffer-Obtains dev hal doc id) count Graphics.empty_batch d L).held in
      Returns-finish act loop (finish dev hal id loop.value loop.state) taken
        (finish_kept id loop.value loop.state) (finish_freed id loop.value loop.state)

  allocate_with-Returns :
      IsDocumented dev
      → (unset : Unset) (count : ℕ) (created : Error × Option DescriptorId) (d : D)
      → Returns act (allocate_with dev hal unset count created d)
  unfolding allocate_with pure
  allocate_with-Returns doc unset count (error, out) d =
      elim (Bool-cases (Graphics.is_none error)) [
        | inl ok ↦ rw ok (looped-Returns doc _ (written out unset.desc) count d)
        | inr bad ↦ rw bad (Returns-refused act error d bad)
      ]

  module _ (doc : IsDocumented dev) (decode : BufferDescriptor → Option BufferDescriptorInfo)
      (unset : Unset) where
    allocate_buffers-Returns :
        (descriptor : BufferDescriptor) (count : ℕ) (d : D)
        → Returns act (allocate_buffers dev flags hal decode unset descriptor count d)
    unfolding allocate_buffers ◌>>=◌ pure
    allocate_buffers-Returns descriptor count d = elim (Option-cases (decode descriptor)) [
      | inl e ↦ rw (e, allocate_buffers) (Returns-refused act Error.bad_descriptor d refl)
      | inr (info, e) ↦
          let created = create_descriptor dev flags hal info unset.descriptor d in
          rw (e, allocate_buffers)
            (Returns-prefix act created.trace _ (create_descriptor-idle info unset.descriptor d)
              (allocate_with-Returns doc unset count created.value created.state))
    ]

    pub gralloc1_hal-IsCareful : IsCareful act (gralloc1_hal dev flags hal decode unset)
    gralloc1_hal-IsCareful = record {
      allocates = allocate_buffers-Returns;
      frees = free_buffers-Holds dev hal;
      dumps = dump_debug_info-Holds dev hal;
    }
