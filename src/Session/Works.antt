-- ===== src/Session/Works.antt =====
-- The allocator's process on drivers that work: it serves, and as the abstract service does.
use mathlib.Core.List.{map}
use android_device_xenvm.Base.{
  ℕ, ◌/◌, ◌%◌, ℤ, pos, ◌≡◌, refl, ap, ◌∙◌, Bool, true, false, Option, none, some, List, [], ◌++◌,
  append-nil, ◌==◌, pure, ask, ◌>>=◌, ◌>>◌, if◌then◌else◌, Returns, pure-Returns, bind-Returns,
  if-Returns, weaken-Returns,
}
use android_device_xenvm.Graphics.{Error, BufferDescriptor, BufferDescriptorInfo}
use android_device_xenvm.Graphics.Supply.{shape}
use android_device_xenvm.Gralloc1.Device.{Gralloc1Device, IsDocumented}
use android_device_xenvm.Gralloc1.Convert.{UsageFlags}
use android_device_xenvm.Gralloc1.Buffers
use android_device_xenvm.Gralloc1.Working as Working1
use android_device_xenvm.Gralloc1.Starting.{IsComplete, init_with_module-Ready}
use android_device_xenvm.Gralloc0
use android_device_xenvm.Gralloc0.{Gralloc0Device}
use android_device_xenvm.Gralloc0.Working as Working0
use android_device_xenvm.Allocator.{via_hal, on_hal, init}
use android_device_xenvm.Loader.{
  HwModule, Hal, gralloc1, gralloc0, on_one, on_zero, get_module_major_api_version, load_module,
  create_gralloc1, create_gralloc0, create_hal, create_allocator, load_allocator, load_hal, load,
}
use android_device_xenvm.Session.{
  Request, relabel, hal_of, hidl_fetch_i_allocator, drop, serve_requests, run_allocator,
  fetched_hal, session,
}
use android_device_xenvm.Session.Sound.{hal_of-IsSound}
use android_device_xenvm.Session.Dumping.{dump_debug_info-text}
use android_device_xenvm.Gralloc1.Text as Text1
use android_device_xenvm.Gralloc0.Text as Text0
use android_device_xenvm.Session.Answers.{
  answers, answers-append, answers-via_hal, Kind, by_gralloc1, by_gralloc0, expected, expected_all,
  serve_requests-answers,
}

-- No call of the drivers fails.
pub record AreWorking {D : Type 0} (dev1 : Gralloc1Device D) (dev0 : Gralloc0Device D)
    (layered : Bool) (t : ℕ) (stride : ℤ) : Type 0 where
  pub documented : IsDocumented dev1
  pub complete : IsComplete dev1 layered
  pub works1 : Working1.IsWorking dev1 t
  pub opens0 : (d : D) → (dev0.open_device d).0 ≡ pos 0
  pub works0 : Working0.IsWorking dev0 stride
  pub fits1 : Text1.DumpFits dev1
  pub fits0 : Text0.DumpFits dev0

-- What serves where this module is found: its major version, the second byte of its version, is 1
-- or 0.
abbrev pub kind_for : Bool → Option HwModule → Option Kind
kind_for layered none = none
kind_for layered (some m) =
    let major = m.module_api_version / 256 % 256 in
    if major == 1 then some (by_gralloc1 layered) else if major == 0 then some by_gralloc0 else none

abbrev pub kind_with : Hal → Kind
kind_with (gralloc1 hal) = by_gralloc1 hal.layered_buffers
kind_with gralloc0 = by_gralloc0

abbrev pub kind_of : Option Hal → Option Kind
kind_of none = none
kind_of (some hal) = some (kind_with hal)

abbrev pub serves : Option Kind → Bool
serves none = false
serves (some kind) = true

-- What is answered where this serves, if anything does.
abbrev pub answered :
    (BufferDescriptor → Option BufferDescriptorInfo)
    → ℕ
    → ℤ
    → Option Kind
    → List Request
    → List (Error × ℕ × ℕ)
answered decode t stride none requests = []
answered decode t stride (some kind) requests = expected_all decode t stride kind requests

module _ {D : Type 0} (dev1 : Gralloc1Device D) (dev0 : Gralloc0Device D) (layered : Bool) (t : ℕ)
    (stride : ℤ) (working : AreWorking dev1 dev0 layered t stride)
    (hw_get_module : D → Option HwModule × D) where
  create_gralloc1-kind :
      Returns
        (λ hal. kind_of hal ≡ some (by_gralloc1 layered))
        (create_gralloc1 dev1 dev0 hw_get_module)
  unfolding create_gralloc1 on_one ◌>>=◌ ◌>>◌ pure
  create_gralloc1-kind = record {
    at = λ d.
        let (ok, has, l) = (init_with_module-Ready dev1 layered working.complete).at d in
        rw ok (ap (λ b. some (by_gralloc1 b)) l);
  }

  create_gralloc0-kind :
      Returns (λ hal. kind_of hal ≡ some by_gralloc0) (create_gralloc0 dev1 dev0 hw_get_module)
  unfolding create_gralloc0 on_zero Gralloc0.init_with_module ◌>>=◌ ◌>>◌ ask pure
  create_gralloc0-kind = record { at = λ d. rw (working.opens0 d) refl }

  create_hal-kind :
      (m : HwModule)
      → Returns
          (λ hal. kind_of hal ≡ kind_for layered (some m))
          (create_hal dev1 dev0 hw_get_module m)
  unfolding create_hal get_module_major_api_version
  create_hal-kind m =
      let Q = λ (hal : Option Hal). kind_of hal ≡ kind_for layered (some m) in
      let major = m.module_api_version / 256 % 256 in
      if-Returns Q (major == 1)
        (λ one. weaken-Returns (λ hal k. k ∙ rw one refl) create_gralloc1-kind)
        λ other.
          if-Returns Q (major == 0)
            (λ nil. weaken-Returns (λ hal k. k ∙ rw (other, nil) refl) create_gralloc0-kind)
            (λ more. pure-Returns Q {a = none} (rw (other, more) refl))

  load_allocator-kind :
      (hal : Option Hal)
      → Returns
          (λ f. kind_of (fetched_hal f) ≡ kind_of hal)
          (load_allocator dev1 dev0 hw_get_module hal)
  unfolding load_allocator create_allocator init pure
  load_allocator-kind none = record { at = λ d. refl }
  load_allocator-kind (some hal) = record { at = λ d. refl }

  load_hal-kind :
      (m : Option HwModule)
      → Returns
          (λ f. kind_of (fetched_hal f) ≡ kind_for layered m)
          (load_hal dev1 dev0 hw_get_module m)
  unfolding load_hal
  load_hal-kind none = pure-Returns _ {a = none} refl
  load_hal-kind (some m) =
      bind-Returns _ _ (create_hal-kind m)
        λ hal k. weaken-Returns (λ f e. e ∙ k) (load_allocator-kind hal)

  load-kind :
      (d : D)
      → kind_of (fetched_hal (load dev1 dev0 hw_get_module d).value)
        ≡ kind_for layered (hw_get_module d).0
  unfolding load load_module ◌>>=◌ ask
  load-kind d = (load_hal-kind (hw_get_module d).0).at (hw_get_module d).1

  module _ (flags : UsageFlags) (decode : BufferDescriptor → Option BufferDescriptorInfo)
      (unset1 : Buffers.Unset) (unset0 : Gralloc0.Unset) where
    hal_of-settled :
        (hal : Hal) (descriptor : BufferDescriptor) (count : ℕ)
        → Returns
            (λ v. shape v ≡ expected decode t stride (kind_with hal) descriptor count)
            ((hal_of dev1 dev0 flags decode unset1 unset0 hal).allocate_buffers descriptor count)
    unfolding hal_of relabel
    hal_of-settled (gralloc1 hal) descriptor count = record {
      at =
          (Working1.allocate_buffers-expected dev1 t working.works1 flags hal decode unset1
            descriptor count).at;
    }
    hal_of-settled gralloc0 descriptor count = record {
      at =
          (Working0.allocate_buffers-expected dev0 stride working.works0 decode unset0 descriptor
            count).at;
    }

    run_allocator-answers :
        (hal : Option Hal) (requests : List Request) (d : D)
        → let r = run_allocator dev1 dev0 flags decode unset1 unset0 hal requests d in
          (r.value ≡ some (serves (kind_of hal)))
          × (answers r.trace ≡ answered decode t stride (kind_of hal) requests)
    unfolding run_allocator on_hal ◌>>◌ ◌>>=◌ pure
    run_allocator-answers none requests d = (refl, refl)
    run_allocator-answers (some hal) requests d =
        let h = hal_of dev1 dev0 flags decode unset1 unset0 hal in
        let s = serve_requests h requests d in
        let e = drop dev1 dev0 hal s.state in
        let (well, told) =
          serve_requests-answers h
            (hal_of-IsSound dev1 dev0 flags decode unset1 unset0 working.documented hal) decode t
            stride (kind_with hal) (hal_of-settled hal)
            (dump_debug_info-text dev1 dev0 flags decode unset1 unset0 working.fits1 working.fits0
              hal)
            requests d in
        rw (well, run_allocator)
          (
            refl,
            rw (answers-append s.trace, append-nil, answers-via_hal e.trace, append-nil, told) refl,
          )

    -- On a gralloc1 driver as documented and a gralloc0 driver, no call of which fails, with one
    -- stride for all buffers of each and dumps that fit their arrays: a session comes to its end, and
    -- serves just where a module is found whose major
    -- version is 1 or 0, and then, with a gralloc1 driver for 1 and a gralloc0 driver for 0, each
    -- `allocate` is answered, in order, with the error, the stride and the number of buffers that
    -- the abstract service gives, a function of the request alone; where it does not serve nothing
    -- is answered.
    pub session-answers :
        (requests : List Request) (d : D)
        → let r = session dev1 dev0 flags decode unset1 unset0 hw_get_module requests d in
          let kind = kind_for layered (hw_get_module d).0 in
          (r.value ≡ some (serves kind))
          × (answers r.trace ≡ answered decode t stride kind requests)
    unfolding session hidl_fetch_i_allocator on_hal ◌>>=◌
    session-answers requests d =
        let f = load dev1 dev0 hw_get_module d in
        let hal = fetched_hal f.value in
        let (v, a) = run_allocator-answers hal requests f.state in
        let r = run_allocator dev1 dev0 flags decode unset1 unset0 hal requests f.state in
        (
          v ∙ ap (λ k. some (serves k)) (load-kind d),
          answers-append (map via_hal f.trace) r.trace
              ∙ ap (λ xs. xs ++ answers r.trace) (answers-via_hal f.trace)
              ∙ a
              ∙ ap (λ k. answered decode t stride k requests) (load-kind d),
        )
