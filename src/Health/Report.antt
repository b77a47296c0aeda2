-- ===== src/Health/Report.antt =====
-- health/Health.cpp: the report of `getHealthInfo` and the one of `notifyListeners`.
use android_device_xenvm.Base.{
  ◌≡◌, refl, ◌∙◌, ap, [], ◌++◌, arith, pure, ask, reading, change, ◌>>=◌, ◌>>◌,
}
use android_device_xenvm.Health.Types.{Process, System, success, ask_world}
use android_device_xenvm.Health.Methods.{update, get_health_info, notify_listeners, monitor_average}
use android_device_xenvm.Healthd.Wakealarm.{healthd_battery_update_internal, wakealarm_set_interval}
use android_device_xenvm.Health.Callbacks.{told, told-append}
use android_device_xenvm.Health.Registry.{update-callbacks}

module _ {W : Type 0} (sys : System W) where
  update-told : (p : Process W) → told (update sys p).trace ≡ []
  unfolding update healthd_battery_update_internal wakealarm_set_interval ask_world ◌>>=◌ ◌>>◌
      reading change ask pure
  update-told p = ground arith

  -- `getHealthInfo` answers SUCCESS with the report that `notifyListeners` would make right after
  -- the update that it begins with; it leaves the list of callbacks as it was, and tells none of
  -- them.
  pub get_health_info-notify_listeners :
      (p : Process W)
      → let r = get_health_info sys p in
        (r.value ≡ (success, (notify_listeners sys (update sys p).state).value))
        × (r.state.callbacks ≡ p.callbacks)
        × (told r.trace ≡ [])
  unfolding get_health_info notify_listeners monitor_average ◌>>=◌ ◌>>◌ reading change ask_world ask
      pure
  get_health_info-notify_listeners p = (
    refl,
    update-callbacks sys p,
    told-append (update sys p).trace _ ∙ ap (λ cs. cs ++ []) (update-told p),
  )
