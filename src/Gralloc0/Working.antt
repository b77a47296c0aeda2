-- ===== src/Gralloc0/Working.antt =====
-- Gralloc0Hal.h on a driver that works: what each request is answered.
use android_device_xenvm.Base.{
  ℕ, zero, suc, ℤ, pos, to_uint32, ◌≡◌, refl, ap, ◌∙◌, true, false, not, ◌||◌, ltb, ◌==◌, ◌/◌, ◌^◌,
  Option, none, some, List, [], arith, Bool-cases, Option-cases, inl, inr, if◌then◌else◌, Returns,
  pure-Returns, ask-Returns, bind-Returns, if-Returns, weaken-Returns,
}
use android_device_xenvm.Graphics.{
  Error, is_none, Handle, Batch, BufferDescriptor, BufferDescriptorInfo, written,
}
use android_device_xenvm.Graphics.Supply.{shape, stride_after, Supplied, Filled, loop-Filled}
use android_device_xenvm.Gralloc0.{
  Gralloc0Device, Unset, alloc_result, allocate_one_buffer, conclude, allocate_buffers,
}
use android_device_xenvm.Gralloc0.Refusals.{needs_more, allocate_buffers-needs_more}

-- No `alloc` fails, and each gives this stride.
pub record IsWorking {D : Type 0} (dev : Gralloc0Device D) (stride : ℤ) : Type 0 where
  pub hands_out : (w h f u : ℤ) (d : D) → (dev.alloc w h f u d).0.0 ≡ pos 0
  pub strides : (w h f u : ℤ) (d : D) → (dev.alloc w h f u d).0.2 ≡ some stride

-- The answer to a request, by what its descriptor decodes to.
abbrev pub expected_for : ℤ → ℕ → Option BufferDescriptorInfo → Error × ℕ × ℕ
expected_for stride count none = (Error.bad_descriptor, 0, 0)
expected_for stride zero (some info) = (Error.no_error, 0, 0)
expected_for stride (suc n) (some info) =
    if needs_more info then (Error.bad_value, 0, 0) else (Error.no_error, to_uint32 stride, suc n)

module _ {D : Type 0} (dev : Gralloc0Device D) (stride : ℤ) (works : IsWorking dev stride) where
  allocate_one_buffer-Supplied :
      (info : BufferDescriptorInfo)
      → needs_more info ≡ false
      → Returns (Supplied (to_uint32 stride)) (allocate_one_buffer dev info)
  unfolding allocate_one_buffer alloc_result
  allocate_one_buffer-Supplied info served =
      let Q = Supplied (to_uint32 stride) in
      if-Returns Q (ltb 1 info.layer_count || not (info.usage / 2 ^ 32 == 0))
        (λ more. absurd (ground arith))
        λ _.
          bind-Returns (λ r. (r.0 ≡ pos 0) × (r.2 ≡ some stride)) Q
            (ask-Returns _ _ _ λ d. (works.hands_out _ _ _ _ d, works.strides _ _ _ _ d))
            λ r (ok, s). pure-Returns Q (written r.1 0, rw (ok, s) refl)

  conclude-shape :
      (k count : ℕ) (b : Batch)
      → Filled k count b
      → Returns (λ v. shape v ≡ (Error.no_error, k, count)) (conclude dev b)
  unfolding conclude
  conclude-shape k count b (e, s, n) =
      let Q = λ (v : Error × Option (ℕ × List Handle)). shape v ≡ (Error.no_error, k, count) in
      if-Returns Q (is_none b.error) (λ _. pure-Returns Q (rw (s, n) refl))
        (λ bad. absurd (ground (arith, ap is_none e)))

  module _ (decode : BufferDescriptor → Option BufferDescriptorInfo) (unset : Unset) where
    served :
        (descriptor : BufferDescriptor) (count : ℕ) (info : BufferDescriptorInfo)
        → decode descriptor ≡ some info
        → needs_more info ≡ false
        → Returns
            (λ v. shape v ≡ (Error.no_error, stride_after count 0 (to_uint32 stride), count))
            (allocate_buffers dev decode unset descriptor count)
    unfolding allocate_buffers
    served descriptor count info e fine =
        let k = stride_after count 0 (to_uint32 stride) in
        rw (e, allocate_buffers)
          (bind-Returns (Filled k count) (λ v. shape v ≡ (Error.no_error, k, count))
            (loop-Filled (to_uint32 stride) _ (unset.buffer, unset.stride)
              (allocate_one_buffer-Supplied info fine) count)
            λ b f. conclude-shape k count b f)

    decoded :
        (descriptor : BufferDescriptor) (count : ℕ) (info : BufferDescriptorInfo)
        → decode descriptor ≡ some info
        → Returns
            (λ v. shape v ≡ expected_for stride count (some info))
            (allocate_buffers dev decode unset descriptor count)
    decoded descriptor count info e = elim (Bool-cases (needs_more info)) [
      | inl more ↦ record {
        at = λ d.
            ap shape (allocate_buffers-needs_more dev decode unset descriptor count info e more d).2
            ∙ refused count more;
      }
      | inr fine ↦ weaken-Returns (λ v k. k ∙ kept count fine) (served descriptor count info e fine)
    ]
      where
        refused :
            (count : ℕ)
            → needs_more info ≡ true
            → shape (if count == 0 then (Error.no_error, some (0, [])) else (Error.bad_value, none))
              ≡ expected_for stride count (some info)
        refused zero more = refl
        refused (suc n) more = ground (arith, more)

        kept :
            (count : ℕ)
            → needs_more info ≡ false
            → (Error.no_error, stride_after count 0 (to_uint32 stride), count)
              ≡ expected_for stride count (some info)
        kept zero fine = refl
        kept (suc n) fine = rw fine refl

    -- On a driver whose `alloc` does not fail and always gives the same stride, the answer is
    -- settled by the request: BAD_DESCRIPTOR for a descriptor that does not decode, BAD_VALUE where
    -- buffers are asked for with more than one layer or a usage beyond 32 bits, and else NONE with
    -- `count` buffers and their stride, or stride 0 where there are none.
    pub allocate_buffers-expected :
        (descriptor : BufferDescriptor) (count : ℕ)
        → Returns
            (λ v. shape v ≡ expected_for stride count (decode descriptor))
            (allocate_buffers dev decode unset descriptor count)
    unfolding allocate_buffers
    allocate_buffers-expected descriptor count = elim (Option-cases (decode descriptor)) [
      | inl e ↦ rw (e, allocate_buffers) (pure-Returns (λ v. shape v ≡ _) refl)
      | inr (info, e) ↦ rw (e) (decoded descriptor count info e)
    ]
