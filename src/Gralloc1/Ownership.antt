-- ===== src/Gralloc1/Ownership.antt =====
-- Gralloc1Hal.h keeps track of the driver's buffers.
use mathlib.Core.List.Perm
use android_device_xenvm.Base.{
  ℕ, ◌≡◌, refl, ap, false, ◌||◌, Option, none, some, List, [], ◌∷◌, append-nil, arith, Done,
  if◌then◌else◌, Bool-cases, Option-cases, inl, inr, not, ◌&&◌, ◌>>=◌, ◌>>◌, ask, pure, All,
}
use android_device_xenvm.Graphics.{
  Error, Handle, Batch, BufferDescriptor, BufferDescriptorInfo, AllocatorHal, written,
  allocate_loop,
}
use android_device_xenvm.Graphics
use android_device_xenvm.Graphics.Ledger.{gather, OneBuffer, allocate_loop-Grows}
use android_device_xenvm.Graphics.Contract.{Allocates, IsSound, Allocates-prefix, Allocates-finish}
use android_device_xenvm.Gralloc1.Device.{
  Gralloc1Device, Gralloc1Error, Call, DescriptorId, IsDocumented, is_none, is_not_shared,
  is_undefined,
}
use android_device_xenvm.Gralloc1.Convert.{UsageFlags}
use android_device_xenvm.Gralloc1.Errors.{to_error_none, to_error_failed}
use android_device_xenvm.Gralloc1.Init.{Gralloc1Hal}
use android_device_xenvm.Gralloc1.Calls.{OnCreate, create_descriptor-Always}
use android_device_xenvm.Gralloc1.Descriptor.{create_descriptor}
use android_device_xenvm.Gralloc1.Buffers.{
  Unset, release_buffer, free_buffers, measure_buffer, allocate_one_buffer, finish, allocate_with,
  allocate_buffers, gralloc1_hal,
}

-- An `allocate` that answers NONE or NOT_SHARED hands out a buffer; `release` gives one back.
abbrev pub gain : Call → List Handle
gain (Call.allocated p id error buffer) =
    if is_none error || is_not_shared error then buffer ∷ [] else []
gain _ = []

abbrev pub loss : Call → List Handle
loss (Call.released p buffer) = buffer ∷ []
loss _ = []

granted_refused :
    (e : Gralloc1Error)
    → (is_none e || is_not_shared e) ≡ not (not (is_none e) && not (is_not_shared e))
granted_refused e = ground arith

module _ {D : Type 0} (dev : Gralloc1Device D) (hal : Gralloc1Hal) where
  free_buffers-loss :
      (bs : List Handle) (d : D) → gather loss (free_buffers dev hal bs d).trace ≡ bs
  unfolding free_buffers release_buffer ◌>>◌ ask pure
  free_buffers-loss [] d = refl
  free_buffers-loss (b ∷ bs) d = ap (◌∷◌ b) (free_buffers-loss bs _)

  free_buffers-gain :
      (bs : List Handle) (d : D) → gather gain (free_buffers dev hal bs d).trace ≡ []
  unfolding free_buffers release_buffer ◌>>◌ ask pure
  free_buffers-gain [] d = refl
  free_buffers-gain (b ∷ bs) d = free_buffers-gain bs _

  -- `measure_buffer` keeps the buffer, or fails and gives it back.
  data Measured (b : Handle) (r : Done Call D (Error × Option (Handle × ℕ))) : Type 0 where
    kept :
        (t : ℕ)
        → r.value ≡ (Error.no_error, some (b, t))
        → gather gain r.trace ≡ []
        → gather loss r.trace ≡ []
        → Measured b r
    returned :
        Graphics.is_none r.value.0 ≡ false
        → gather gain r.trace ≡ []
        → gather loss r.trace ≡ b ∷ []
        → Measured b r

  module _ (doc : IsDocumented dev) where
    measure_buffer-Measured : (b : Handle) (d : D) → Measured b (measure_buffer dev hal b d)
    unfolding measure_buffer release_buffer ◌>>◌ ask pure
    measure_buffer-Measured b d =
        let e = (dev.get_stride b d).0.0 in
        elim (Bool-cases (not (is_none e) && not (is_undefined e))) [
          | inl bad ↦
              rw (bad, measure_buffer)
                (returned (to_error_failed e (doc.get_stride_error b d) (ground arith)) refl refl)
          | inr good ↦ rw (good, measure_buffer) (kept _ refl refl refl)
        ]

    allocate_one_buffer-OneBuffer :
        (id : DescriptorId) (d : D) → OneBuffer gain loss (allocate_one_buffer dev hal id d)
    unfolding allocate_one_buffer ◌>>=◌ ask pure
    allocate_one_buffer-OneBuffer id d =
        let e = (dev.allocate id d).0.0 in
        let b = written (dev.allocate id d).0.1 0 in
        elim (Bool-cases (not (is_none e) && not (is_not_shared e))) [
          | inl bad ↦
              rw (bad, allocate_one_buffer)
                (record {
                  got = λ h. absurd (ground (arith, to_error_none e, ap Graphics.is_none h));
                  failed = λ h. rw (granted_refused e, bad) (Perm.refl []);
                })
          | inr good ↦
              rw (good, allocate_one_buffer)
                (elim (measure_buffer-Measured b (dev.allocate id d).1) [
                  | kept t v g l ↦ record {
                    got = λ h. (b, t, ap (λ v. v.1) v, rw (granted_refused e, good, g), l);
                    failed = λ h. absurd (ground (arith, ap (λ v. v.0) v));
                  }
                  | returned f g l ↦ record {
                    got = λ h. absurd (ground (arith, ap Graphics.is_none h));
                    failed = λ h. rw (granted_refused e, good, g, l) (Perm.refl _);
                  }
                ])
        ]

-- A call that moves no buffer.
abbrev Quiet : Call → Type 0
Quiet c = (gain c ≡ []) × (loss c ≡ [])

Quiet-gather : (cs : List Call) → All Quiet cs → (gather gain cs ≡ []) × (gather loss cs ≡ [])
Quiet-gather [] h = (refl, refl)
Quiet-gather (c ∷ cs) h =
    let (g, l) = Quiet-gather cs h.1 in (rw (h.0.0, g) refl, rw (h.0.1, l) refl)

module _ {D : Type 0} (dev : Gralloc1Device D) (flags : UsageFlags) (hal : Gralloc1Hal) where
  create_descriptor-quiet :
      (info : BufferDescriptorInfo) (unset : DescriptorId) (d : D)
      → let r = create_descriptor dev flags hal info unset d in
        (gather gain r.trace ≡ []) × (gather loss r.trace ≡ [])
  create_descriptor-quiet info unset d =
      Quiet-gather _ ((create_descriptor-Always dev flags hal Quiet info unset on).at d)
    where
      on : OnCreate dev flags hal Quiet
      on = record {
        created = λ e id. (refl, refl);
        destroyed = λ id. (refl, refl);
        set_up_calls = λ id. record {
          dimensioned = λ w h. (refl, refl);
          formatted = λ f. (refl, refl);
          layered = λ h n. (refl, refl);
          producer = λ u. (refl, refl);
          consumer = λ u. (refl, refl);
        };
      }

  finish-gain :
      (id : DescriptorId) (b : Batch) (d : D) → gather gain (finish dev hal id b d).trace ≡ []
  unfolding finish ◌>>◌ ask pure
  finish-gain id b d = elim (Bool-cases (Graphics.is_none b.error)) [
    | inl ok ↦ rw (ok, finish) refl
    | inr bad ↦ rw (bad, finish, append-nil) (free_buffers-gain dev hal b.buffers _)
  ]

  finish_kept :
      (id : DescriptorId) (b : Batch) (d : D)
      → b.error ≡ Error.no_error
      → let r = finish dev hal id b d in
        (r.value ≡ (Error.no_error, some (b.stride, b.buffers))) × (gather loss r.trace ≡ [])
  unfolding finish ◌>>◌ ask pure
  finish_kept id b d ok = rw (ok, finish) (refl, refl)

  finish_freed :
      (id : DescriptorId) (b : Batch) (d : D)
      → Graphics.is_none b.error ≡ false
      → let r = finish dev hal id b d in
        (r.value ≡ (b.error, none)) × (gather loss r.trace ≡ b.buffers)
  unfolding finish ◌>>◌ ask pure
  finish_freed id b d bad =
      rw (bad, finish) (refl, rw append-nil (free_buffers-loss dev hal b.buffers _))

  -- The loop over `allocate_one_buffer` with the end of `allocateBuffers`.
  looped-Allocates :
      IsDocumented dev
      → (unset : Handle × ℕ) (id : DescriptorId) (count : ℕ) (d : D)
      → Allocates gain loss count (
          (allocate_loop (allocate_one_buffer dev hal id) unset count Graphics.empty_batch
              >>= finish dev hal id)
            d)
  unfolding ◌>>=◌
  looped-Allocates doc unset id count d =
      let loop =
        allocate_loop (allocate_one_buffer dev hal id) unset count Graphics.empty_batch d in
      Allocates-finish gain loss count loop (finish dev hal id loop.value loop.state)
        (allocate_loop-Grows gain loss (allocate_one_buffer dev hal id) unset
          (allocate_one_buffer-OneBuffer dev hal doc id) count Graphics.empty_batch d refl)
        (finish-gain id loop.value loop.state) (finish_kept id loop.value loop.state)
        (finish_freed id loop.value loop.state)

  allocate_with-Allocates :
      IsDocumented dev
      → (unset : Unset) (count : ℕ) (created : Error × Option DescriptorId) (d : D)
      → Allocates gain loss count (allocate_with dev hal unset count created d)
  unfolding allocate_with pure
  allocate_with-Allocates doc unset count (error, out) d =
      elim (Bool-cases (Graphics.is_none error)) [
        | inl ok ↦ rw ok (looped-Allocates doc _ (written out unset.desc) count d)
        | inr bad ↦ rw bad (record {
          success = λ h. absurd (ground (arith, ap Graphics.is_none h));
          failure = λ h. (Perm.refl [], refl);
        })
      ]

  module _ (doc : IsDocumented dev) (decode : BufferDescriptor → Option BufferDescriptorInfo)
      (unset : Unset) where
    pub allocate_buffers-Allocates :
        (descriptor : BufferDescriptor) (count : ℕ) (d : D)
        → Allocates gain loss count (allocate_buffers dev flags hal decode unset descriptor count d)
    unfolding allocate_buffers ◌>>=◌ pure
    allocate_buffers-Allocates descriptor count d = elim (Option-cases (decode descriptor)) [
      | inl e ↦
          rw (e, allocate_buffers)
            (record { success = λ h. cc; failure = λ h. (Perm.refl [], refl) })
      | inr (info, e) ↦
          let created = create_descriptor dev flags hal info unset.descriptor d in
          rw (e, allocate_buffers)
            (Allocates-prefix gain loss count created.trace _
              (create_descriptor-quiet info unset.descriptor d)
              (allocate_with-Allocates doc unset count created.value created.state))
    ]

    -- On a documented gralloc1 driver the HAL keeps the contract of `AllocatorHal`, whatever it
    -- is asked for: an `allocateBuffers` that succeeds returns `count` buffers, just those that
    -- the driver handed out in the call, and gave none of them back; one that fails has given
    -- back all that it was handed and leaves its results unwritten; `freeBuffers` gives back just
    -- the buffers of its argument, in order, and is handed none.
    pub gralloc1_hal-IsSound : IsSound gain loss (gralloc1_hal dev flags hal decode unset)
    gralloc1_hal-IsSound = record {
      allocates = allocate_buffers-Allocates;
      frees = free_buffers-loss dev hal;
      frees_only = free_buffers-gain dev hal;
    }
