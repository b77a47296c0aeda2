-- ===== src/Session/Answers.antt =====
-- What the clients of the allocator are told, but for the buffers themselves.
use mathlib.Core.List.{map}
use android_device_xenvm.Base.{
  ℕ, ℤ, ◌≡◌, ◌≢◌, true, none, Option-cases, append-nil, ◌∙◌, refl, ap, Bool, Option, List, [], ◌∷◌,
  ◌++◌, length, inl, inr, pure, ask, ◌>>=◌, ◌>>◌, Returns,
}
use android_device_xenvm.Graphics.{Error, BufferDescriptor, BufferDescriptorInfo, AllocatorHal}
use android_device_xenvm.Graphics.Contract.{IsSound, none_cases}
use android_device_xenvm.Graphics.Supply.{shape}
use android_device_xenvm.Gralloc1.Working as Working1
use android_device_xenvm.Gralloc0.Working as Working0
use android_device_xenvm.Allocator.{
  Event, via_hal, replied, replied_dump, on_hal, allocate, dump_debug_info, reply_dump,
}
use android_device_xenvm.Loader
use android_device_xenvm.Session.{Request, allocating, dumping, serve_request, serve_requests}
use android_device_xenvm.Session.Sound.{gain, loss}

-- The answers to `allocate`: the error, the stride, and the number of buffers.
abbrev pub answers : {C : Type 0} → List (Event C) → List (Error × ℕ × ℕ)
answers [] = []
answers (replied error stride buffers ∷ es) = (error, stride, length buffers) ∷ answers es
answers (via_hal c ∷ es) = answers es
answers (replied_dump text ∷ es) = answers es

pub answers-append :
    {C : Type 0} (xs ys : List (Event C)) → answers (xs ++ ys) ≡ answers xs ++ answers ys
answers-append [] ys = refl
answers-append (replied e s bs ∷ xs) ys = ap (◌∷◌ (e, s, length bs)) (answers-append xs ys)
answers-append (via_hal c ∷ xs) ys = answers-append xs ys
answers-append (replied_dump t ∷ xs) ys = answers-append xs ys

pub answers-via_hal : {C : Type 0} (cs : List C) → answers (map via_hal cs) ≡ []
answers-via_hal [] = refl
answers-via_hal (c ∷ cs) = answers-via_hal cs

-- What serves the requests: a gralloc1 driver with or without layered buffers, or a gralloc0 one.
pub data Kind : Type 0 where
  by_gralloc1 : Bool → Kind
  by_gralloc0 : Kind

-- The abstract service, on drivers that do not fail: t and stride are those of all their buffers.
-- It has no state, and an answer depends on nothing but the request.
module _ (decode : BufferDescriptor → Option BufferDescriptorInfo) (t : ℕ) (stride : ℤ) where
  abbrev pub expected : Kind → BufferDescriptor → ℕ → Error × ℕ × ℕ
  expected (by_gralloc1 layered) descriptor count =
      Working1.expected_for layered t count (decode descriptor)
  expected by_gralloc0 descriptor count = Working0.expected_for stride count (decode descriptor)

  abbrev pub expected_all : Kind → List Request → List (Error × ℕ × ℕ)
  expected_all kind [] = []
  expected_all kind (allocating unset descriptor count ∷ rs) =
      expected kind descriptor count ∷ expected_all kind rs
  expected_all kind (dumping ∷ rs) = expected_all kind rs

module _ {D : Type 0} (hal : AllocatorHal Loader.Event D) (sound : IsSound gain loss hal) where
  -- The answer is what the HAL returned, and the only one.
  allocate-answers :
      (unset : ℕ) (descriptor : BufferDescriptor) (count : ℕ) (d : D)
      → answers (allocate hal unset descriptor count d).trace
        ≡ shape (hal.allocate_buffers descriptor count d).value ∷ []
  unfolding allocate on_hal ◌>>=◌ ◌>>◌ ask
  allocate-answers unset descriptor count d =
      let r = hal.allocate_buffers descriptor count d in
      let a = sound.allocates descriptor count d in
      elim (none_cases r.value.0) [
        | inr bad ↦
            rw
              (
                bad,
                allocate,
                answers-append (map via_hal r.trace),
                answers-via_hal r.trace,
                (a.failure bad).1,
              )
              refl
        | inl good ↦
            let (stride, buffers, out, n, own, kept) = a.success good in
            rw
              (
                good,
                out,
                allocate,
                answers-append (map via_hal r.trace),
                answers-via_hal r.trace,
                answers-via_hal (hal.free_buffers buffers r.state).trace,
              )
              refl
      ]

  dump-answers :
      (d : D)
      → (hal.dump_debug_info d).value ≢ none
      → (answers (dump_debug_info hal d).trace ≡ []) × ((dump_debug_info hal d).value ≡ true)
  unfolding dump_debug_info reply_dump on_hal ◌>>=◌ ◌>>◌ ask pure
  dump-answers d some_text = elim (Option-cases (hal.dump_debug_info d).value) [
    | inl nothing ↦ absurd (some_text nothing)
    | inr (text, e) ↦
        rw
          (
            e,
            answers-append (map via_hal (hal.dump_debug_info d).trace),
            answers-via_hal (hal.dump_debug_info d).trace,
          )
          (refl, refl)
  ]

  module _ (decode : BufferDescriptor → Option BufferDescriptorInfo) (t : ℕ) (stride : ℤ)
      (kind : Kind)
      (settled : (descriptor : BufferDescriptor) (count : ℕ)
        → Returns
            (λ v. shape v ≡ expected decode t stride kind descriptor count)
            (hal.allocate_buffers descriptor count))
      (dumps : Returns (λ text. text ≢ none) hal.dump_debug_info) where
    -- The answers are those of the abstract service.
    pub serve_requests-answers :
        (requests : List Request) (d : D)
        → let served = serve_requests hal requests d in
          (served.value ≡ true)
          × (answers served.trace ≡ expected_all decode t stride kind requests)
    unfolding serve_requests serve_request ◌>>◌ ◌>>=◌ pure
    serve_requests-answers [] d = (refl, refl)
    serve_requests-answers (allocating unset descriptor count ∷ rs) d =
        let first = allocate hal unset descriptor count d in
        let (well, more) = serve_requests-answers rs first.state in
        (
          well,
          rw
              (
                append-nil,
                answers-append first.trace,
                allocate-answers unset descriptor count d,
                (settled descriptor count).at d,
                more,
              )
              refl,
        )
    serve_requests-answers (dumping ∷ rs) d =
        let first = dump_debug_info hal d in
        let (silent, well) = dump-answers d (dumps.at d) in
        let (all_well, more) = serve_requests-answers rs first.state in
        rw (well, serve_requests)
          (
            all_well,
            answers-append first.trace _
                ∙ ap (λ xs. xs ++ answers (serve_requests hal rs first.state).trace) silent
                ∙ more,
          )
