-- ===== src/Gralloc0/Holding.antt =====
-- Gralloc0Hal.h gives back only what it holds, and once.
use mathlib.Core.List.Perm
use android_device_xenvm.Base.{
  ℕ, ℤ, pos, eq_ℤ, to_uint32, ◌/◌, ◌^◌, ◌≡◌, refl, false, true, ◌||◌, not, Option, none, some, List,
  [], ◌∷◌, ◌++◌, append-nil, arith, if◌then◌else◌, Bool-cases, Option-cases, inl, inr, ◌>>=◌, ◌>>◌,
  ask, pure, ltb, ◌==◌,
}
use android_device_xenvm.Graphics.{
  Error, is_none, Handle, Batch, empty_batch, BufferDescriptor, BufferDescriptorInfo, written,
  allocate_loop,
}
use android_device_xenvm.Graphics.Holding.{
  Act, nothing, gets, gives, Holds, rest, call, Obtains, Returns, IsCareful, allocate_loop-Holds,
  Returns-finish, Returns-refused,
}
use android_device_xenvm.Gralloc0.{
  Gralloc0Device, Call, Unset, alloc_result, allocate_one_buffer, free_buffers, conclude,
  allocate_buffers, dump_debug_info, gralloc0_hal,
}

-- An `alloc` that answers 0 hands out a buffer; `free` gives one back.
abbrev pub act : Call → Act
act (Call.allocated w h f u result buffer) = if eq_ℤ result (pos 0) then gets buffer else nothing
act (Call.freed buffer) = gives buffer
act _ = nothing

module _ {D : Type 0} (dev : Gralloc0Device D) where
  free_buffers-Holds :
      (bs : List Handle) (d : D) (L : List Handle)
      → Holds act (free_buffers dev bs d).trace (bs ++ L) L
  unfolding free_buffers ◌>>◌ ask pure
  free_buffers-Holds [] d L = rest (Perm.refl L)
  free_buffers-Holds (b ∷ bs) d L = call (bs ++ L) (Perm.refl _) (free_buffers-Holds bs _ L)

  dump_debug_info-Holds : (d : D) (L : List Handle) → Holds act (dump_debug_info dev d).trace L L
  unfolding dump_debug_info ◌>>=◌ ask pure
  dump_debug_info-Holds d L = elim (Option-cases dev.dump) [
    | inl e ↦ rw (e, dump_debug_info) (rest (Perm.refl L))
    | inr (dump, e) ↦ rw (e, dump_debug_info) (call L (Perm.refl L) (rest (Perm.refl L)))
  ]

  alloc_result-Obtains :
      (w h f u : ℤ) (reply : ℤ × Option Handle × Option ℤ) (d : D)
      → Obtains act (record {
        value = alloc_result dev reply;
        state = d;
        trace = Call.allocated w h f u reply.0 (written reply.1 0) ∷ [];
      })
  unfolding alloc_result
  alloc_result-Obtains w h f u reply d = elim (Bool-cases (eq_ℤ reply.0 (pos 0))) [
    | inl good ↦ record {
      got = λ h. (
        written reply.1 0,
        to_uint32 (written reply.2 (pos 0)),
        rw (good, alloc_result) refl,
        λ L. call (written reply.1 0 ∷ L) (rw good (Perm.refl _)) (rest (Perm.refl _)),
      );
      failed = λ h. absurd (cc (rw (good, alloc_result) at h));
    }
    | inr bad ↦ record {
      got = λ h. absurd (ground arith);
      failed = λ h L. call L (rw bad (Perm.refl L)) (rest (Perm.refl L));
    }
  ]

  allocate_one_buffer-Obtains :
      (info : BufferDescriptorInfo) (d : D) → Obtains act (allocate_one_buffer dev info d)
  unfolding allocate_one_buffer ◌>>=◌ ask pure
  allocate_one_buffer-Obtains info d =
      elim (Bool-cases (ltb 1 info.layer_count || not (info.usage / 2 ^ 32 == 0))) [
        | inl refused ↦
            rw (refused, allocate_one_buffer)
              (record { got = λ h. absurd (cc); failed = λ h L. rest (Perm.refl L) })
        | inr asked ↦ rw (asked, allocate_one_buffer) (alloc_result-Obtains _ _ _ _ _ _)
      ]

  conclude_kept :
      (b : Batch) (d : D)
      → is_none b.error ≡ true
      → let r = conclude dev b d in
        (r.value ≡ (Error.no_error, some (b.stride, b.buffers)))
        × ((L : List Handle) → Holds act r.trace L L)
  unfolding conclude pure
  conclude_kept b d ok = rw (ok, conclude) (refl, λ L. rest (Perm.refl L))

  conclude_freed :
      (b : Batch) (d : D)
      → is_none b.error ≡ false
      → let r = conclude dev b d in
        (r.value ≡ (b.error, none)) × ((L : List Handle) → Holds act r.trace (b.buffers ++ L) L)
  unfolding conclude ◌>>◌ pure
  conclude_freed b d bad =
      rw (bad, conclude) (refl, λ L. rw append-nil (free_buffers-Holds b.buffers d L))

  module _ (decode : BufferDescriptor → Option BufferDescriptorInfo) (unset : Unset) where
    allocate_buffers-Returns :
        (descriptor : BufferDescriptor) (count : ℕ) (d : D)
        → Returns act (allocate_buffers dev decode unset descriptor count d)
    unfolding allocate_buffers ◌>>=◌ pure
    allocate_buffers-Returns descriptor count d = elim (Option-cases (decode descriptor)) [
      | inl e ↦ rw (e, allocate_buffers) (Returns-refused act Error.bad_descriptor d refl)
      | inr (info, e) ↦
          let loop =
            allocate_loop (allocate_one_buffer dev info) (unset.buffer, unset.stride) count
              empty_batch d in
          rw (e, allocate_buffers)
            (Returns-finish act loop (conclude dev loop.value loop.state)
              (λ L.
                (allocate_loop-Holds act (allocate_one_buffer dev info) (unset.buffer, unset.stride)
                  (allocate_one_buffer-Obtains info) count empty_batch d L).held)
              (conclude_kept loop.value loop.state) (conclude_freed loop.value loop.state))
    ]

    pub gralloc0_hal-IsCareful : IsCareful act (gralloc0_hal dev decode unset)
    gralloc0_hal-IsCareful = record {
      allocates = allocate_buffers-Returns;
      frees = free_buffers-Holds;
      dumps = dump_debug_info-Holds;
    }
