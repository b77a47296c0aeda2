-- ===== src/Session/Loading.antt =====
-- Loading a HAL touches no buffer, and the HAL that is loaded has its device.
use android_device_xenvm.Base.{
  ◌≡◌, refl, Bool, true, Option, none, some, [], arith, Proc, pure, ◌>>=◌, ◌>>◌, Always,
  pure-Always, ask-Always, bind-Always, then-Always, if-Always, Returns, pure-Returns, ask-Returns,
  bind-Returns, if-Returns, ◌==◌,
}
use android_device_xenvm.Gralloc1.Device.{Gralloc1Device}
use android_device_xenvm.Gralloc1.Device
use android_device_xenvm.Gralloc1.Init.{fresh}
use android_device_xenvm.Gralloc1.InitCalls.{OnInit, init_with_module-Always, destroy-Always}
use android_device_xenvm.Gralloc1.Opened.{init_with_module-Opens}
use android_device_xenvm.Gralloc0.{Gralloc0Device}
use android_device_xenvm.Gralloc0
use android_device_xenvm.Allocator.{AllocatorImpl, init}
use android_device_xenvm.Loader.{
  HwModule, Hal, gralloc1, gralloc0, Event, on_gralloc1, on_gralloc0, on_one, on_zero,
  get_module_major_api_version, load_module, create_gralloc1, create_gralloc0, create_hal,
  create_allocator, load_allocator, load_hal, load,
}
use android_device_xenvm.Loader.Opened.{held}
use android_device_xenvm.Session.{fetched_hal, drop}
use android_device_xenvm.Session.Sound.{gain, loss}
use android_device_xenvm.Session.Held.{act}
use android_device_xenvm.Graphics.Holding.{nothing}
use android_device_xenvm.Session.Idle.{relabel-All}

-- A call that has to do with no buffer: it hands out none, gives none back and uses none.
abbrev pub Bufferless : Event → Type 0
Bufferless e = (gain e ≡ []) × (loss e ≡ []) × (act e ≡ nothing)

-- The device of a HAL on gralloc1 is set.
abbrev pub IsReady : Option Hal → Type 0
IsReady none = Unit {0}
IsReady (some (gralloc1 hal)) = hal.has_device ≡ true
IsReady (some gralloc0) = Unit {0}

module _ {D : Type 0} (dev1 : Gralloc1Device D) (dev0 : Gralloc0Device D)
    (hw_get_module : D → Option HwModule × D) where
  on_one-Always :
      {A : Type 0} {m : Proc Device.Call D A}
      → Always (λ c. Bufferless (on_gralloc1 c)) m
      → Always Bufferless (on_one m)
  unfolding on_one
  on_one-Always {A} {m} h = record {
    at = λ d. relabel-All on_gralloc1 Bufferless (m d).trace (h.at d);
  }

  on_zero-Always :
      {A : Type 0} {m : Proc Gralloc0.Call D A}
      → Always (λ c. Bufferless (on_gralloc0 c)) m
      → Always Bufferless (on_zero m)
  unfolding on_zero
  on_zero-Always {A} {m} h = record {
    at = λ d. relabel-All on_gralloc0 Bufferless (m d).trace (h.at d);
  }

  on_init : OnInit dev1 (λ c. Bufferless (on_gralloc1 c))
  on_init = record {
    asked = record {
      counted = λ n. (refl, refl, refl);
      listed = λ n. (refl, refl, refl);
      looked_up = λ f p. (refl, refl, refl);
    };
    opened = λ failed. (refl, refl, refl);
    closed = (refl, refl, refl);
  }

  destroy0-Always :
      (has : Bool) → Always (λ c. Bufferless (on_gralloc0 c)) (Gralloc0.destroy dev0 has)
  unfolding Gralloc0.destroy
  destroy0-Always has =
      let P = λ (c : Gralloc0.Call). Bufferless (on_gralloc0 c) in
      if-Always P has (λ _. ask-Always P _ _ λ u. (refl, refl, refl)) (λ _. pure-Always P _)

  create_gralloc1-Always : Always Bufferless (create_gralloc1 dev1 dev0 hw_get_module)
  unfolding create_gralloc1
  create_gralloc1-Always =
      let P = λ (c : Device.Call). Bufferless (on_gralloc1 c) in
      on_one-Always (
        bind-Always P (init_with_module-Always dev1 P on_init fresh) λ r.
          if-Always P r.0 (λ _. pure-Always P _)
            (λ _. then-Always P (destroy-Always dev1 P on_init r.1) (pure-Always P _)))

  create_gralloc0-Always : Always Bufferless (create_gralloc0 dev1 dev0 hw_get_module)
  unfolding create_gralloc0 Gralloc0.init_with_module
  create_gralloc0-Always =
      let P = λ (c : Gralloc0.Call). Bufferless (on_gralloc0 c) in
      on_zero-Always (
        bind-Always P
          (bind-Always P (ask-Always P _ _ λ r. (refl, refl, refl)) λ r. pure-Always P _)
          λ has.
            if-Always P has (λ _. pure-Always P _)
              (λ _. then-Always P (destroy0-Always has) (pure-Always P _)))

  create_hal-Always : (m : HwModule) → Always Bufferless (create_hal dev1 dev0 hw_get_module m)
  unfolding create_hal
  create_hal-Always m =
      let major = get_module_major_api_version m in
      if-Always Bufferless (major == 1) (λ _. create_gralloc1-Always)
        λ _.
          if-Always Bufferless (major == 0) (λ _. create_gralloc0-Always)
            (λ _. pure-Always Bufferless none)

  load_allocator-Always :
      (hal : Option Hal) → Always Bufferless (load_allocator dev1 dev0 hw_get_module hal)
  unfolding load_allocator create_allocator init
  load_allocator-Always none = pure-Always Bufferless _
  load_allocator-Always (some hal) = pure-Always Bufferless _

  load_hal-Always : (m : Option HwModule) → Always Bufferless (load_hal dev1 dev0 hw_get_module m)
  unfolding load_hal
  load_hal-Always none = pure-Always Bufferless _
  load_hal-Always (some m) = bind-Always Bufferless (create_hal-Always m) load_allocator-Always

  pub load-Always : Always Bufferless (load dev1 dev0 hw_get_module)
  unfolding load load_module
  load-Always =
      bind-Always Bufferless (ask-Always Bufferless _ _ λ m. (refl, refl, refl)) load_hal-Always

  pub drop-Always : (hal : Hal) → Always Bufferless (drop dev1 dev0 hal)
  unfolding drop
  drop-Always (gralloc1 hal) =
      on_one-Always (destroy-Always dev1 (λ c. Bufferless (on_gralloc1 c)) on_init hal)
  drop-Always gralloc0 = on_zero-Always (destroy0-Always true)

  create_gralloc1-IsReady : Returns IsReady (create_gralloc1 dev1 dev0 hw_get_module)
  unfolding create_gralloc1 on_one ◌>>=◌ ◌>>◌ pure
  create_gralloc1-IsReady = record {
    at = λ d. let o = init_with_module-Opens dev1 fresh d in ground (arith, o.kept);
  }

  create_gralloc0-IsReady : Returns IsReady (create_gralloc0 dev1 dev0 hw_get_module)
  unfolding create_gralloc0 on_zero ◌>>=◌ ◌>>◌ pure
  create_gralloc0-IsReady = record { at = λ d. ground arith }

  create_hal-IsReady : (m : HwModule) → Returns IsReady (create_hal dev1 dev0 hw_get_module m)
  unfolding create_hal
  create_hal-IsReady m =
      let major = get_module_major_api_version m in
      if-Returns IsReady (major == 1) (λ _. create_gralloc1-IsReady)
        λ _.
          if-Returns IsReady (major == 0) (λ _. create_gralloc0-IsReady)
            (λ _. pure-Returns IsReady {a = none} tt)

  -- The allocator that was loaded has its HAL, with its device.
  abbrev Fetched : Option (AllocatorImpl Hal) → Type 0
  Fetched fetched = (held (fetched_hal fetched) ≡ held fetched) × IsReady (fetched_hal fetched)

  load_allocator-IsReady :
      (hal : Option Hal)
      → IsReady hal
      → Returns Fetched (load_allocator dev1 dev0 hw_get_module hal)
  unfolding load_allocator create_allocator init
  load_allocator-IsReady none h = pure-Returns Fetched {a = none} (refl, tt)
  load_allocator-IsReady (some hal) h = pure-Returns Fetched (refl, h)

  load_hal-IsReady : (m : Option HwModule) → Returns Fetched (load_hal dev1 dev0 hw_get_module m)
  unfolding load_hal
  load_hal-IsReady none = pure-Returns Fetched {a = none} (refl, tt)
  load_hal-IsReady (some m) =
      bind-Returns IsReady Fetched (create_hal-IsReady m) load_allocator-IsReady

  pub load-IsReady : Returns Fetched (load dev1 dev0 hw_get_module)
  unfolding load load_module
  load-IsReady =
      bind-Returns (λ _. Unit {0}) Fetched (ask-Returns (λ _. Unit {0}) _ _ λ d. tt)
        (λ m _. load_hal-IsReady m)
