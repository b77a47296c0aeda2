-- ===== src/Loader/Opened.antt =====
-- The loader keeps the driver's device open exactly when it returns an allocator.
use mathlib.Core.List.{map}
use android_device_xenvm.Base.{
  ℕ, ◌+◌, ◌≡◌, refl, ap, Option, none, some, List, [], ◌∷◌, append-nil, arith, pos, eq_ℤ, Done,
  pure, ask, ◌>>=◌, ◌>>◌, Bool-cases, Option-cases, inl, inr, if◌then◌else◌,
}
use android_device_xenvm.Base.Count.{total}
use android_device_xenvm.Gralloc1.Device.{Gralloc1Device}
use android_device_xenvm.Gralloc1.Device
use android_device_xenvm.Gralloc1.Init.{fresh, init_with_module, destroy}
use android_device_xenvm.Gralloc1.Opened.{init_with_module-Opens}
use android_device_xenvm.Gralloc1.Opened
use android_device_xenvm.Gralloc0.{Gralloc0Device}
use android_device_xenvm.Gralloc0
use android_device_xenvm.Allocator.{init}
use android_device_xenvm.Loader.{
  HwModule, Event, got_module, on_gralloc1, on_gralloc0, on_one, on_zero, load_module,
  create_gralloc1, create_gralloc0, create_hal, create_allocator, load_allocator, load_hal, load,
}

-- Whether a call opens a device, and whether it closes one.
abbrev pub opens : Event → ℕ
opens (got_module m) = 0
opens (on_gralloc1 c) = Opened.opens c
opens (on_gralloc0 (Gralloc0.Call.opened result)) = if eq_ℤ result (pos 0) then 1 else 0
opens (on_gralloc0 c) = 0

abbrev pub closes : Event → ℕ
closes (got_module m) = 0
closes (on_gralloc1 c) = Opened.closes c
closes (on_gralloc0 Gralloc0.Call.closed) = 1
closes (on_gralloc0 c) = 0

opens-map : (cs : List Device.Call) → total opens (map on_gralloc1 cs) ≡ total Opened.opens cs
opens-map [] = refl
opens-map (c ∷ cs) = ap (λ n. Opened.opens c + n) (opens-map cs)

closes-map : (cs : List Device.Call) → total closes (map on_gralloc1 cs) ≡ total Opened.closes cs
closes-map [] = refl
closes-map (c ∷ cs) = ap (λ n. Opened.closes c + n) (closes-map cs)

abbrev pub held : {A : Type 0} → Option A → ℕ
held none = 0
held (some a) = 1

-- The devices that a run opens and does not close number one if it returns something, else none.
abbrev pub Balanced : {A D : Type 0} → Done Event D (Option A) → Type 0
Balanced r = total opens r.trace ≡ total closes r.trace + held r.value

module _ {D : Type 0} (dev1 : Gralloc1Device D) (dev0 : Gralloc0Device D)
    (hw_get_module : D → Option HwModule × D) where
  create_gralloc1-Balanced : (d : D) → Balanced (create_gralloc1 dev1 dev0 hw_get_module d)
  unfolding create_gralloc1 on_one destroy ◌>>=◌ ◌>>◌ pure
  create_gralloc1-Balanced d =
      let r = init_with_module dev1 fresh d in
      let o = init_with_module-Opens dev1 fresh d in
      elim (Bool-cases r.value.0) [
        | inl ok ↦
            rw (ok, create_gralloc1)
              (rw append-nil (omega (arith, opens-map r.trace, closes-map r.trace, (o.kept ok).0)))
        | inr bad ↦
            rw (bad, (o.dropped bad).1, create_gralloc1)
              (rw append-nil
                (omega (arith, opens-map r.trace, closes-map r.trace, (o.dropped bad).0)))
      ]

  create_gralloc0-Balanced : (d : D) → Balanced (create_gralloc0 dev1 dev0 hw_get_module d)
  unfolding create_gralloc0 on_zero Gralloc0.init_with_module Gralloc0.destroy ◌>>=◌ ◌>>◌ ask pure
  create_gralloc0-Balanced d = ground arith

  create_hal-Balanced : (m : HwModule) (d : D) → Balanced (create_hal dev1 dev0 hw_get_module m d)
  unfolding create_hal pure
  create_hal-Balanced m d = ground (arith, create_gralloc1-Balanced d, create_gralloc0-Balanced d)

  load_hal-Balanced :
      (m : Option HwModule) (d : D) → Balanced (load_hal dev1 dev0 hw_get_module m d)
  unfolding load_hal load_allocator create_allocator init ◌>>=◌ pure
  load_hal-Balanced none d = refl
  load_hal-Balanced (some m) d =
      let r = create_hal dev1 dev0 hw_get_module m d in
      elim (Option-cases r.value) [
        | inl e ↦
            rw (e, load_hal, load_allocator)
              (rw append-nil (omega (arith, create_hal-Balanced m d, ap held e)))
        | inr (h, e) ↦
            rw (e, load_hal, load_allocator)
              (rw append-nil (omega (arith, create_hal-Balanced m d, ap held e)))
      ]

  -- Whatever module is found and whatever the drivers answer, `load` has opened a device just
  -- once more than it has closed one if it returns an allocator, and as often as it has closed
  -- one if it returns null.
  pub load-Balanced : (d : D) → Balanced (load dev1 dev0 hw_get_module d)
  unfolding load load_module ◌>>=◌ ask
  load-Balanced d = omega (arith, load_hal-Balanced (hw_get_module d).0 (hw_get_module d).1)
