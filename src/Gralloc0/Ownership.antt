-- ===== src/Gralloc0/Ownership.antt =====
-- Gralloc0Hal.h keeps track of the driver's buffers.
use mathlib.Core.List.Perm
use android_device_xenvm.Base.{
  ℕ, ◌/◌, ◌^◌, ◌==◌, ltb, ◌≡◌, refl, ap, ℤ, pos, eq_ℤ, to_uint32, false, ◌||◌, not, Option, none,
  some, List, [], ◌∷◌, append-nil, arith, pure, ask, ◌>>=◌, ◌>>◌, Bool-cases, Option-cases, inl,
  inr, if◌then◌else◌,
}
use android_device_xenvm.Graphics.{
  Error, is_none, Handle, Batch, empty_batch, BufferDescriptor, BufferDescriptorInfo, written,
  allocate_loop,
}
use android_device_xenvm.Graphics.Ledger.{gather, OneBuffer, allocate_loop-Grows}
use android_device_xenvm.Graphics.Contract.{Allocates, IsSound, Allocates-finish}
use android_device_xenvm.Gralloc0.{
  Gralloc0Device, Call, Unset, alloc_result, allocate_one_buffer, free_buffers, conclude,
  allocate_buffers, gralloc0_hal,
}

-- An `alloc` that answers 0 hands out a buffer; `free` gives one back.
abbrev pub gain : Call → List Handle
gain (Call.allocated width height format usage result buffer) =
    if eq_ℤ result (pos 0) then buffer ∷ [] else []
gain _ = []

abbrev pub loss : Call → List Handle
loss (Call.freed buffer) = buffer ∷ []
loss _ = []

module _ {D : Type 0} (dev : Gralloc0Device D) where
  free_buffers-loss : (bs : List Handle) (d : D) → gather loss (free_buffers dev bs d).trace ≡ bs
  unfolding free_buffers ◌>>◌ ask pure
  free_buffers-loss [] d = refl
  free_buffers-loss (b ∷ bs) d = ap (◌∷◌ b) (free_buffers-loss bs _)

  free_buffers-gain : (bs : List Handle) (d : D) → gather gain (free_buffers dev bs d).trace ≡ []
  unfolding free_buffers ◌>>◌ ask pure
  free_buffers-gain [] d = refl
  free_buffers-gain (b ∷ bs) d = free_buffers-gain bs _

  alloc_result_failed :
      (reply : ℤ × Option Handle × Option ℤ)
      → eq_ℤ reply.0 (pos 0) ≡ false
      → is_none (alloc_result dev reply).0 ≡ false
  unfolding alloc_result
  alloc_result_failed reply bad = ground arith

  alloc_result-OneBuffer :
      (w h f u : ℤ) (reply : ℤ × Option Handle × Option ℤ) (d : D)
      → OneBuffer gain loss (record {
        value = alloc_result dev reply;
        state = d;
        trace = Call.allocated w h f u reply.0 (written reply.1 0) ∷ [];
      })
  unfolding alloc_result
  alloc_result-OneBuffer w h f u reply d = elim (Bool-cases (eq_ℤ reply.0 (pos 0))) [
    | inl good ↦ record {
      got = λ h. (
        written reply.1 0,
        to_uint32 (written reply.2 (pos 0)),
        rw (good, alloc_result) refl,
        rw good refl,
        refl,
      );
      failed = λ h. absurd (cc (rw (good, alloc_result) at h));
    }
    | inr bad ↦ record {
      got = λ h. absurd (ground (arith, alloc_result_failed reply bad, ap is_none h));
      failed = λ h. rw bad (Perm.refl []);
    }
  ]

  allocate_one_buffer-OneBuffer :
      (info : BufferDescriptorInfo) (d : D) → OneBuffer gain loss (allocate_one_buffer dev info d)
  unfolding allocate_one_buffer ◌>>=◌ ask pure
  allocate_one_buffer-OneBuffer info d =
      elim (Bool-cases (ltb 1 info.layer_count || not (info.usage / 2 ^ 32 == 0))) [
        | inl refused ↦
            rw (refused, allocate_one_buffer)
              (record { got = λ h. absurd (cc); failed = λ h. Perm.refl [] })
        | inr asked ↦ rw (asked, allocate_one_buffer) (alloc_result-OneBuffer _ _ _ _ _ _)
      ]

  conclude-gain : (b : Batch) (d : D) → gather gain (conclude dev b d).trace ≡ []
  unfolding conclude ◌>>◌ pure
  conclude-gain b d = elim (Bool-cases (is_none b.error)) [
    | inl ok ↦ rw (ok, conclude) refl
    | inr bad ↦ rw (bad, conclude, append-nil) (free_buffers-gain b.buffers d)
  ]

  conclude_kept :
      (b : Batch) (d : D)
      → b.error ≡ Error.no_error
      → let r = conclude dev b d in
        (r.value ≡ (Error.no_error, some (b.stride, b.buffers))) × (gather loss r.trace ≡ [])
  unfolding conclude pure
  conclude_kept b d ok = rw (ok, conclude) (refl, refl)

  conclude_freed :
      (b : Batch) (d : D)
      → is_none b.error ≡ false
      → let r = conclude dev b d in (r.value ≡ (b.error, none)) × (gather loss r.trace ≡ b.buffers)
  unfolding conclude ◌>>◌ pure
  conclude_freed b d bad = rw (bad, conclude) (refl, rw append-nil (free_buffers-loss b.buffers d))

  -- `allocateBuffers` returns, or gives back, each buffer that the driver hands out.
  pub allocate_buffers-Allocates :
      (decode : BufferDescriptor → Option BufferDescriptorInfo) (unset : Unset)
      (descriptor : BufferDescriptor) (count : ℕ) (d : D)
      → Allocates gain loss count (allocate_buffers dev decode unset descriptor count d)
  unfolding allocate_buffers ◌>>=◌ pure
  allocate_buffers-Allocates decode unset descriptor count d =
      elim (Option-cases (decode descriptor)) [
        | inl e ↦
            rw (e, allocate_buffers)
              (record { success = λ h. absurd (cc); failure = λ h. (Perm.refl [], refl) })
        | inr (info, e) ↦
            let loop =
              allocate_loop (allocate_one_buffer dev info) (unset.buffer, unset.stride) count
                empty_batch d in
            rw (e, allocate_buffers)
              (Allocates-finish gain loss count loop (conclude dev loop.value loop.state)
                (allocate_loop-Grows gain loss (allocate_one_buffer dev info)
                  (unset.buffer, unset.stride) (allocate_one_buffer-OneBuffer info) count
                  empty_batch d refl)
                (conclude-gain loop.value loop.state) (conclude_kept loop.value loop.state)
                (conclude_freed loop.value loop.state))
      ]

  -- On every gralloc0 driver the HAL keeps the contract of `AllocatorHal`, whatever it is asked
  -- for: an `allocateBuffers` that succeeds returns `count` buffers, just those that the driver
  -- handed out in the call, and gave none of them back; one that fails has given back all that it
  -- was handed and leaves its results unwritten; `freeBuffers` gives back just the buffers of its
  -- argument, in order, and is handed none.
  pub gralloc0_hal-IsSound :
      (decode : BufferDescriptor → Option BufferDescriptorInfo) (unset : Unset)
      → IsSound gain loss (gralloc0_hal dev decode unset)
  gralloc0_hal-IsSound decode unset = record {
    allocates = allocate_buffers-Allocates decode unset;
    frees = free_buffers-loss;
    frees_only = free_buffers-gain;
  }
