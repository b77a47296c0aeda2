-- ===== src/Gralloc1/Cost.antt =====
-- Gralloc1Hal.h: how many calls a request costs.
use android_device_xenvm.Base.{
  ℕ, suc, ◌+◌, ◌*◌, ◌≤◌, ◌≡◌, true, not, ◌&&◌, Option, none, List, [], ◌∷◌, arith, Proc, ask,
  length, Option-cases, inl, inr, if◌then◌else◌, ltb, Spends, pure-Spends, ask-Spends, bind-Spends,
  then-Spends, if-Spends, frame-Spends, given-Spends, some, ◌≢◌, pure, ◌>>◌, Bool-cases,
}
use android_device_xenvm.Graphics.{
  Error, Handle, Batch, empty_batch, BufferDescriptor, BufferDescriptorInfo, written, allocate_loop,
}
use android_device_xenvm.Graphics
use android_device_xenvm.Graphics.Cost.{to_free, to_free_all, allocate_loop-Spends}
use android_device_xenvm.Gralloc1.Device.{
  Gralloc1Device, Gralloc1Error, Call, DescriptorId, IsDocumented, is_none, is_not_shared,
  is_undefined,
}
use android_device_xenvm.Gralloc1.Convert.{UsageFlags, to_error}
use android_device_xenvm.Gralloc1.Errors.{to_error_none}
use android_device_xenvm.Gralloc1.Init.{Gralloc1Hal}
use android_device_xenvm.Gralloc1.Descriptor.{
  and_then, set_up, create_descriptor, destroy_descriptor,
}
use android_device_xenvm.Gralloc1.Life.{set_up-Returns}
use android_device_xenvm.Gralloc1.Buffers.{
  Unset, release_buffer, free_buffers, measure_buffer, allocate_one_buffer, conclude, finish,
  allocate_with, allocate_buffers,
}

-- Nothing is left over.
abbrev spent : {A : Type 0} → A → ℕ
spent a = 0

-- So many calls are left over in any case.
abbrev fixed : {A : Type 0} → ℕ → A → ℕ
fixed n a = n

-- NOT_SHARED would be taken for success although the buffer is released.
abbrev after_stride : Gralloc1Error × Option ℕ → ℕ
after_stride r = if is_not_shared r.0 then 2 else 1

after_stride-to_free :
    (e : Gralloc1Error) (t : Option ℕ)
    → (not (is_none e) && not (is_undefined e)) ≡ true
    → suc (to_free (to_error e, none)) ≤ after_stride (e, t)
after_stride-to_free e t h = ground (arith, to_error_none e)

-- A descriptor that is returned is still to be destroyed.
abbrev to_destroy : ℕ → Error × Option DescriptorId → ℕ
to_destroy n r = if Graphics.is_none r.0 then n + 1 else n

-- What is left to `createDescriptor` after the set-up: NOT_SHARED would be taken for success.
abbrev after_set_up : ℕ → Gralloc1Error → ℕ
after_set_up n e = if is_not_shared e then n + 2 else n + 1

module _ {D : Type 0} (dev : Gralloc1Device D) (flags : UsageFlags) (hal : Gralloc1Hal) where
  release_buffer-Spends : (n : ℕ) (b : Handle) → Spends (fixed n) (suc n) (release_buffer dev hal b)
  unfolding release_buffer
  release_buffer-Spends n b =
      then-Spends n (fixed n) _ (ask-Spends (fixed n) _ _ _ λ s. omega arith)
        (pure-Spends (fixed n) _ tt (omega arith))

  free_buffers-Spends : (bs : List Handle) → Spends spent (length bs) (free_buffers dev hal bs)
  unfolding free_buffers
  free_buffers-Spends [] = pure-Spends spent _ tt (omega arith)
  free_buffers-Spends (b ∷ bs) =
      then-Spends (length bs) spent _ (release_buffer-Spends (length bs) b) (free_buffers-Spends bs)

  conclude-Spends : (b : Batch) → Spends spent (to_free_all b) (conclude dev hal b)
  unfolding conclude
  conclude-Spends b =
      if-Spends spent _ (Graphics.is_none b.error) (λ _. pure-Spends spent _ _ (omega arith))
        (λ _.
          then-Spends 0 spent _ (free_buffers-Spends b.buffers)
            (pure-Spends spent 0 _ (omega arith)))

  finish-Spends :
      (id : DescriptorId) (b : Batch) → Spends spent (suc (to_free_all b)) (finish dev hal id b)
  unfolding finish
  finish-Spends id b =
      then-Spends (to_free_all b) spent _
        (ask-Spends (fixed (to_free_all b)) _ _ _ λ s. omega arith) (conclude-Spends b)

  -- A step of `createDescriptor` that is tried while so many calls are left.
  set_up-Spends :
      (n : ℕ) (info : BufferDescriptorInfo) (id : DescriptorId) (error : Gralloc1Error)
      → Spends (fixed n) (n + 5) (set_up dev flags hal info id error)
  unfolding set_up
  set_up-Spends n info id error =
      bind-Spends (fixed (n + 4)) (fixed n) _
        (step (n + 4) (n + 5) (omega arith) error (called _ _ _ _ (omega arith)))
        λ e1.
          bind-Spends (fixed (n + 3)) (fixed n) _
            (step (n + 3) (n + 4) (omega arith) e1 (called _ _ _ _ (omega arith)))
            λ e2.
              bind-Spends (fixed (n + 2)) (fixed n) _
                (step (n + 2) (n + 3) (omega arith) e2 (
                  if-Spends (fixed (n + 2)) (n + 3) hal.layered_buffers
                    (λ _. called _ _ _ _ (omega arith))
                    (λ _.
                      if-Spends (fixed (n + 2)) (n + 3) (ltb 1 info.layer_count)
                        (λ _. pure-Spends _ _ _ (omega arith))
                        (λ _. pure-Spends _ _ _ (omega arith)))))
                λ e3.
                  bind-Spends (fixed (n + 1)) (fixed n) _
                    (step (n + 1) (n + 2) (omega arith) e3 (called _ _ _ _ (omega arith)))
                    λ e4. step n (n + 1) (omega arith) e4 (called _ _ _ _ (omega arith))
    where
      called :
          {A : Type 0} (reply : D → A × D) (record_of : A → Call) (k m : ℕ)
          → m ≡ k + 1
          → Spends (fixed k) m (ask reply record_of)
      called reply record_of k m e = ask-Spends (fixed k) m _ _ λ s. omega arith

      step :
          (k m : ℕ) {p : Proc Call D Gralloc1Error}
          → m ≡ k + 1
          → (e : Gralloc1Error) → Spends (fixed k) m p
          → Spends (fixed k) m (and_then e p)
      step k m h e s =
          if-Spends (fixed k) m (is_none e) (λ _. s) (λ _. pure-Spends _ _ _ (omega arith))

  -- What `createDescriptor` does after the set-up.
  ended :
      (n : ℕ) (id : DescriptorId) (e : Gralloc1Error)
      → Spends (to_destroy n) (after_set_up n e) (
          if is_none e
          then pure (to_error e, some id)
          else (destroy_descriptor dev hal id >> pure (to_error e, none)))
  unfolding destroy_descriptor
  ended n id e =
      if-Spends (to_destroy n) _ (is_none e)
        (λ good. pure-Spends (to_destroy n) _ _ (ground (arith, to_error_none e)))
        (λ bad.
          let left = to_destroy n (to_error e, none) in
          then-Spends left (to_destroy n) _
            (ask-Spends (fixed left) _ _ _ λ s. ground (arith, to_error_none e))
            (pure-Spends (to_destroy n) _ _ (omega arith)))

  module _ (doc : IsDocumented dev) where
    checked :
        (n : ℕ) (info : BufferDescriptorInfo) (id : DescriptorId) (e : Gralloc1Error)
        → Spends
            (after_set_up n)
            (if is_not_shared e then n + 7 else n + 6)
            (set_up dev flags hal info id e)
    checked n info id e = elim (Bool-cases (is_not_shared e)) [
      | inl odd ↦ rw odd (
          frame-Spends (fixed (n + 2)) (after_set_up n) (n + 2 + 5) (n + 7)
            (set_up-Spends (n + 2) info id e) λ a. ground arith)
      | inr plain ↦ rw plain (
          given-Spends (fixed (n + 1)) (after_set_up n) (λ a. a ≢ Gralloc1Error.not_shared) (n + 6)
            (set_up-Returns dev flags hal doc info id e (λ h. ground (arith, plain, h)))
            (frame-Spends (fixed (n + 1)) (fixed (n + 1)) (n + 1 + 5) (n + 6)
              (set_up-Spends (n + 1) info id e) λ a. omega arith)
            λ a other. ground (arith, other))
    ]

    create_descriptor-Spends :
        (n : ℕ) (info : BufferDescriptorInfo) (unset : DescriptorId)
        → Spends (to_destroy n) (n + 7) (create_descriptor dev flags hal info unset)
    unfolding create_descriptor
    create_descriptor-Spends n info unset =
        bind-Spends (λ r. if is_not_shared r.0 then n + 7 else n + 6) (to_destroy n) _
          (ask-Spends _ _ _ _ λ d. ground (arith, doc.create_descriptor_error d))
          λ r. bind-Spends (after_set_up n) (to_destroy n) _ (checked n info _ r.0) (ended n _)

    measure_buffer-Spends : (b : Handle) → Spends to_free 2 (measure_buffer dev hal b)
    unfolding measure_buffer
    measure_buffer-Spends b =
        bind-Spends after_stride to_free 2
          (ask-Spends after_stride 2 _ _ λ s. ground (arith, doc.get_stride_error b s))
          λ r.
            if-Spends to_free _ (not (is_none r.0) && not (is_undefined r.0))
              (λ bad.
                let t = to_free (to_error r.0, none) in
                then-Spends t to_free _
                  (frame-Spends (fixed t) (fixed t) (suc t) _ (release_buffer-Spends t b)
                    λ a. omega (arith, after_stride-to_free r.0 r.1 bad))
                  (pure-Spends to_free _ _ (omega arith)))
              (λ good. pure-Spends to_free _ _ (ground arith))

    allocate_one_buffer-Spends :
        (id : DescriptorId) → Spends to_free 3 (allocate_one_buffer dev hal id)
    unfolding allocate_one_buffer
    allocate_one_buffer-Spends id =
        bind-Spends (fixed 2) to_free 3 (ask-Spends (fixed 2) _ _ _ λ s. omega arith) λ r.
          if-Spends to_free _ (not (is_none r.0) && not (is_not_shared r.0))
            (λ bad. pure-Spends to_free _ _ (ground arith)) (λ good. measure_buffer-Spends _)

    allocate_with-Spends :
        (unset : Unset) (count : ℕ) (c : Error × Option DescriptorId)
        → Spends spent (to_destroy (count * 3) c) (allocate_with dev hal unset count c)
    unfolding allocate_with
    allocate_with-Spends unset count (error, out) =
        if-Spends spent _ (Graphics.is_none error)
          (λ made.
            bind-Spends (λ b. suc (to_free_all b)) spent _
              (frame-Spends to_free_all _ (count * 3 + 0) _
                (allocate_loop-Spends 3 (allocate_one_buffer dev hal _) _
                  (allocate_one_buffer-Spends _) count empty_batch)
                (λ b. ground (arith, made)))
              (finish-Spends _))
          (λ _. pure-Spends spent _ _ (omega arith))

    -- On a driver as documented, `allocateBuffers` for `count` buffers ends after at most
    -- 3 * count + 7 calls of the driver, however the driver answers.
    pub allocate_buffers-cost :
        (decode : BufferDescriptor → Option BufferDescriptorInfo) (unset : Unset)
        (descriptor : BufferDescriptor) (count : ℕ) (d : D)
        → length (allocate_buffers dev flags hal decode unset descriptor count d).trace
          ≤ 3 * count + 7
    unfolding allocate_buffers
    allocate_buffers-cost decode unset descriptor count d = omega (arith, cost.at d)
      where
        cost :
            Spends spent
              (count * 3 + 7)
              (allocate_buffers dev flags hal decode unset descriptor count)
        cost = elim (Option-cases (decode descriptor)) [
          | inl e ↦ rw (e, allocate_buffers) (pure-Spends spent _ _ (omega arith))
          | inr (info, e) ↦
              rw (e, allocate_buffers)
                (bind-Spends (to_destroy (count * 3)) spent _
                  (create_descriptor-Spends (count * 3) info _) (allocate_with-Spends unset count))
        ]
