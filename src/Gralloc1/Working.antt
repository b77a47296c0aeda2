-- ===== src/Gralloc1/Working.antt =====
-- Gralloc1Hal.h on a driver that works: what each request is answered.
use android_device_xenvm.Base.{
  ℕ, ℤ, ◌≡◌, refl, ap, ◌∙◌, true, false, Bool, not, ◌&&◌, ◌||◌, ltb, Option, none, some, List,
  arith, Proc, Bool-cases, Option-cases, inl, inr, if◌then◌else◌, Returns, pure-Returns,
  ask-Returns, bind-Returns, then-Returns, if-Returns, weaken-Returns,
}
use android_device_xenvm.Graphics.{
  Error, Handle, Batch, empty_batch, BufferDescriptor, BufferDescriptorInfo, written, allocate_loop,
}
use android_device_xenvm.Graphics
use android_device_xenvm.Graphics.Supply.{shape, stride_after, Supplied, Filled, loop-Filled}
use android_device_xenvm.Gralloc1.Device.{
  Gralloc1Device, Gralloc1Error, Call, DescriptorId, is_none, is_not_shared,
}
use android_device_xenvm.Gralloc1.Convert.{UsageFlags, to_error}
use android_device_xenvm.Gralloc1.Init.{Gralloc1Hal}
use android_device_xenvm.Gralloc1.Descriptor.{and_then, set_up, create_descriptor}
use android_device_xenvm.Gralloc1.Buffers.{
  Unset, measure_buffer, allocate_one_buffer, conclude, finish, allocate_with, allocate_buffers,
}

-- No call of the driver on a descriptor or a buffer fails, and every buffer has the stride t.
pub record IsWorking {D : Type 0} (dev : Gralloc1Device D) (t : ℕ) : Type 0 where
  pub creates : (d : D) → (dev.create_descriptor d).0.0 ≡ Gralloc1Error.no_error
  pub dimensions : (i w h : ℕ) (d : D) → (dev.set_dimensions i w h d).0 ≡ Gralloc1Error.no_error
  pub formats : (i : ℕ) (f : ℤ) (d : D) → (dev.set_format i f d).0 ≡ Gralloc1Error.no_error
  pub layers : (i n : ℕ) (d : D) → (dev.set_layer_count i n d).0 ≡ Gralloc1Error.no_error
  pub produces : (i u : ℕ) (d : D) → (dev.set_producer_usage i u d).0 ≡ Gralloc1Error.no_error
  pub consumes : (i u : ℕ) (d : D) → (dev.set_consumer_usage i u d).0 ≡ Gralloc1Error.no_error
  pub hands_out :
      (i : ℕ) (d : D)
      → (is_none (dev.allocate i d).0.0 || is_not_shared (dev.allocate i d).0.0) ≡ true
  pub measures : (h : Handle) (d : D) → (dev.get_stride h d).0 ≡ (Gralloc1Error.no_error, some t)

-- The request has more than one layer, which a driver without layered buffers cannot serve.
abbrev pub beyond : Bool → BufferDescriptorInfo → Bool
beyond layered info = not layered && ltb 1 info.layer_count

-- The answer to a request, by what its descriptor decodes to.
abbrev pub expected_for : Bool → ℕ → ℕ → Option BufferDescriptorInfo → Error × ℕ × ℕ
expected_for layered t count none = (Error.bad_descriptor, 0, 0)
expected_for layered t count (some info) =
    if beyond layered info
    then (Error.unsupported, 0, 0)
    else (Error.no_error, stride_after count 0 t, count)

module _ {D : Type 0} (dev : Gralloc1Device D) (t : ℕ) (works : IsWorking dev t)
    (flags : UsageFlags) (hal : Gralloc1Hal) where
  abbrev Is : Gralloc1Error → Gralloc1Error → Type 0
  Is v e = e ≡ v

  -- A step behind a success is made, and behind a failure it is not.
  on_success :
      {Q : Gralloc1Error → Type 0} {m : Proc Call D Gralloc1Error} (e : Gralloc1Error)
      → e ≡ Gralloc1Error.no_error
      → Returns Q m
      → Returns Q (and_then e m)
  on_success e p r = rw p r

  on_failure :
      (m : Proc Call D Gralloc1Error) (e v : Gralloc1Error)
      → is_none v ≡ false
      → e ≡ v
      → Returns (Is v) (and_then e m)
  on_failure m e v bad p = rw (p, bad) (pure-Returns (Is v) {a = v} refl)

  set_up-served :
      (info : BufferDescriptorInfo) (id : DescriptorId) (e : Gralloc1Error)
      → beyond hal.layered_buffers info ≡ false
      → e ≡ Gralloc1Error.no_error
      → Returns (Is Gralloc1Error.no_error) (set_up dev flags hal info id e)
  unfolding set_up
  set_up-served info id e fine p =
      let ok = Is Gralloc1Error.no_error in
      bind-Returns ok ok (on_success e p (ask-Returns ok _ _ (works.dimensions id _ _))) λ e1 p1.
        bind-Returns ok ok (on_success e1 p1 (ask-Returns ok _ _ (works.formats id _))) λ e2 p2.
          bind-Returns ok ok
            (on_success e2 p2 (
              if-Returns ok hal.layered_buffers (λ _. ask-Returns ok _ _ (works.layers id _))
                λ flat.
                  if-Returns ok (ltb 1 info.layer_count) (λ many. absurd (ground arith))
                    (λ _. pure-Returns ok p2)))
            λ e3 p3.
              bind-Returns ok ok (on_success e3 p3 (ask-Returns ok _ _ (works.produces id _)))
                λ e4 p4. on_success e4 p4 (ask-Returns ok _ _ (works.consumes id _))

  set_up-beyond :
      (info : BufferDescriptorInfo) (id : DescriptorId) (e : Gralloc1Error)
      → beyond hal.layered_buffers info ≡ true
      → e ≡ Gralloc1Error.no_error
      → Returns (Is Gralloc1Error.unsupported) (set_up dev flags hal info id e)
  unfolding set_up
  set_up-beyond info id e many p =
      let ok = Is Gralloc1Error.no_error in
      let refused = Is Gralloc1Error.unsupported in
      bind-Returns ok refused (on_success e p (ask-Returns ok _ _ (works.dimensions id _ _)))
        λ e1 p1.
          bind-Returns ok refused (on_success e1 p1 (ask-Returns ok _ _ (works.formats id _)))
            λ e2 p2.
              bind-Returns refused refused
                (on_success e2 p2 (
                  if-Returns refused hal.layered_buffers (λ layered. absurd (ground arith))
                    λ _.
                      if-Returns refused (ltb 1 info.layer_count)
                        (λ _. pure-Returns refused {a = Gralloc1Error.unsupported} refl)
                        (λ one. absurd (ground arith))))
                λ e3 p3.
                  bind-Returns refused refused (on_failure _ e3 Gralloc1Error.unsupported refl p3)
                    λ e4 p4. on_failure _ e4 Gralloc1Error.unsupported refl p4

  -- The error of a result.
  abbrev Fails : {A : Type 0} → Error → Error × Option A → Type 0
  Fails error r = (r.0 ≡ error) × (r.1 ≡ none)

  create_descriptor-served :
      (info : BufferDescriptorInfo) (unset : DescriptorId)
      → beyond hal.layered_buffers info ≡ false
      → Returns (λ r. r.0 ≡ Error.no_error) (create_descriptor dev flags hal info unset)
  unfolding create_descriptor to_error
  create_descriptor-served info unset fine =
      let Q = λ (r : Error × Option DescriptorId). r.0 ≡ Error.no_error in
      bind-Returns (λ r. r.0 ≡ Gralloc1Error.no_error) Q (ask-Returns _ _ _ works.creates)
        λ r p. bind-Returns (Is Gralloc1Error.no_error) Q (set_up-served info _ r.0 fine p) λ e q.
          if-Returns Q (is_none e) (λ _. pure-Returns Q (ap to_error q))
            (λ bad. absurd (ground (arith, ap is_none q)))

  create_descriptor-beyond :
      (info : BufferDescriptorInfo) (unset : DescriptorId)
      → beyond hal.layered_buffers info ≡ true
      → Returns (Fails Error.unsupported) (create_descriptor dev flags hal info unset)
  unfolding create_descriptor to_error
  create_descriptor-beyond info unset many =
      let Q : Error × Option DescriptorId → Type 0 = Fails Error.unsupported in
      bind-Returns (λ r. r.0 ≡ Gralloc1Error.no_error) Q (ask-Returns _ _ _ works.creates)
        λ r p.
          bind-Returns (Is Gralloc1Error.unsupported) Q (set_up-beyond info _ r.0 many p) λ e q.
            if-Returns Q (is_none e) (λ good. absurd (ground (arith, ap is_none q)))
              (λ _. then-Returns Q _ (pure-Returns Q (ap to_error q, refl)))

  allocate_one_buffer-Supplied :
      (id : DescriptorId) → Returns (Supplied t) (allocate_one_buffer dev hal id)
  unfolding allocate_one_buffer measure_buffer
  allocate_one_buffer-Supplied id =
      bind-Returns (λ r. (is_none r.0 || is_not_shared r.0) ≡ true) (Supplied t)
        (ask-Returns _ _ _ (works.hands_out id))
        λ r p.
          if-Returns (Supplied t) (not (is_none r.0) && not (is_not_shared r.0))
            (λ bad. absurd (ground arith))
            λ _.
              bind-Returns (λ m. m ≡ (Gralloc1Error.no_error, some t)) (Supplied t)
                (ask-Returns _ _ _ (works.measures _))
                λ m q. rw q (pure-Returns (Supplied t) (_, refl))

  finish-shape :
      (id : DescriptorId) (stride count : ℕ) (b : Batch)
      → Filled stride count b
      → Returns (λ v. shape v ≡ (Error.no_error, stride, count)) (finish dev hal id b)
  unfolding finish conclude
  finish-shape id stride count b (e, s, n) =
      let Q = λ (v : Error × Option (ℕ × List Handle)). shape v ≡ (Error.no_error, stride, count) in
      then-Returns Q _ (
        if-Returns Q (Graphics.is_none b.error) (λ _. pure-Returns Q (rw (s, n) refl))
          (λ bad. absurd (ground (arith, ap Graphics.is_none e))))

  -- On a driver without a failure, all of whose buffers have one stride, the answer is settled by
  -- the request: BAD_DESCRIPTOR for a descriptor that does not decode, UNSUPPORTED for more than
  -- one layer where the driver has no layered buffers, and else NONE with `count` buffers and
  -- their stride, or stride 0 where there are none.
  pub allocate_buffers-expected :
      (decode : BufferDescriptor → Option BufferDescriptorInfo) (unset : Unset)
      (descriptor : BufferDescriptor) (count : ℕ)
      → Returns
          (λ v. shape v ≡ expected_for hal.layered_buffers t count (decode descriptor))
          (allocate_buffers dev flags hal decode unset descriptor count)
  unfolding allocate_buffers allocate_with
  allocate_buffers-expected decode unset descriptor count =
      elim (Option-cases (decode descriptor)) [
        | inl e ↦ rw (e, allocate_buffers) (pure-Returns (λ v. shape v ≡ _) refl)
        | inr (info, e) ↦
            let Q = λ (v : Error × Option (ℕ × List Handle)).
              shape v ≡ expected_for hal.layered_buffers t count (some info) in
            elim (Bool-cases (beyond hal.layered_buffers info)) [
              | inl many ↦
                  rw (e, allocate_buffers)
                    (bind-Returns (Fails Error.unsupported) Q
                      (create_descriptor-beyond info unset.descriptor many)
                      λ created (p, q).
                        if-Returns Q (Graphics.is_none created.0)
                          (λ good. absurd (ground (arith, ap Graphics.is_none p)))
                          (λ _. pure-Returns Q (rw (many, p) refl)))
              | inr fine ↦
                  rw (e, allocate_buffers)
                    (bind-Returns (λ r. r.0 ≡ Error.no_error) Q
                      (create_descriptor-served info unset.descriptor fine)
                      λ created p.
                        if-Returns Q (Graphics.is_none created.0)
                          (λ _.
                            bind-Returns (Filled (stride_after count 0 t) count) Q
                              (loop-Filled t _ (unset.buffer, unset.stride)
                                (allocate_one_buffer-Supplied _) count)
                              λ b f.
                                weaken-Returns (λ v k. k ∙ rw fine refl)
                                  (finish-shape _ (stride_after count 0 t) count b f))
                          (λ bad. absurd (ground (arith, ap Graphics.is_none p))))
            ]
      ]
