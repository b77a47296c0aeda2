-- ===== src/Examples/Service.antt =====
-- The theorems about health at the concrete system.
use android_device_xenvm.Base.{
  ℕ, arith, ◌++◌, length, pos, true, ◌≡◌, refl, negsuc, false, some, [], ◌∷◌, All, ltb, ◌&&◌, take,
}
use android_device_xenvm.Healthd.Uevent.{subsystem, uevent_msg_len, wants_update}
use android_device_xenvm.Healthd.Wakealarm.{healthd_battery_update_internal}
use android_device_xenvm.Healthd.Twice.{healthd_battery_update_internal-twice}
use android_device_xenvm.Healthd.Uevent.Print.{print, wants_update-print}
use android_device_xenvm.HealthService.{serve_all, main}
use android_device_xenvm.HealthService.Ending.{Ended, main-Ended}
use android_device_xenvm.Health.Types.{Process, Result}
use android_device_xenvm.Health.Callbacks.{
  told, Tellings, unregister_callback_lem, register_callback_lem, notify_listeners_lem,
}
use android_device_xenvm.Health.Registry.{
  is_registered, wanted, serve_all-told, unregister_callback-register_callback,
}
use android_device_xenvm.Health.Methods.{
  get_health_info, update, register_callback, unregister_callback, notify_listeners,
}
use android_device_xenvm.Health.Report.{get_health_info-notify_listeners}
use android_device_xenvm.HealthService.Quiet.{Waits, IsSilent}
use android_device_xenvm.HealthService.Guarded.{watch, main-watch}
use android_device_xenvm.HealthService.Received.{requested}
use android_device_xenvm.HealthService.Registered.{main-wanted}
use android_device_xenvm.HealthService.Steady.{main-IsSilent}
use android_device_xenvm.Healthd.Uevent.Fields.{fields, announces, wants_update_lem}
use android_device_xenvm.Examples.{
  system, running, starting, system-IsIdentity, busy, busy-IsIdentity, coming_and_going,
}

wants_update_lem_example :
    (wants_update (pos 3) (97 ∷ 0 ∷ 98 ∷ 99 ∷ [])
      ≡ some (
          ltb 0 3 && (ltb 3 uevent_msg_len && announces (fields (take 3 (97 ∷ 0 ∷ 98 ∷ 99 ∷ []))))))
    × (wants_update (negsuc 3) (97 ∷ 0 ∷ 98 ∷ 99 ∷ []) ≡ some false)
wants_update_lem_example = wants_update_lem 3 (97 ∷ 0 ∷ 98 ∷ 99 ∷ [])

notify_listeners_lem_example :
    let r = notify_listeners system running in
    Tellings r.value running.callbacks r.state.callbacks r.trace
notify_listeners_lem_example = notify_listeners_lem system running

register_callback_lem_example :
    let r = register_callback system (some 9) running in
    (r.state.callbacks ≡ 1 ∷ 2 ∷ 3 ∷ 2 ∷ 9 ∷ []) × (r.value ≡ Result.success)
register_callback_lem_example = register_callback_lem system (some 9) running

unregister_callback_lem_example :
    let r = unregister_callback system (some 2) running in
    (r.state.callbacks ≡ 1 ∷ 3 ∷ [])
    × (r.value ≡ Result.success)
    × ((unregister_callback system (some 2) r.state).value ≡ Result.not_found)
unregister_callback_lem_example = unregister_callback_lem system 2 running

main-IsSilent_example : let r = main system 5 starting in Waits r.state × All IsSilent r.trace
main-IsSilent_example = main-IsSilent system 5 starting refl

main-watch_example :
    (watch (main system 5 starting).trace (some false) ≡ some false)
    × ((q : Process ℕ) → watch (notify_listeners system q).trace (some false) ≡ some false)
main-watch_example = main-watch system 5 starting refl

get_health_info-notify_listeners_example :
    let r = get_health_info system running in
    (r.value ≡ (Result.success, (notify_listeners system (update system running).state).value))
    × (r.state.callbacks ≡ running.callbacks)
    × (told r.trace ≡ [])
get_health_info-notify_listeners_example = get_health_info-notify_listeners system running

main-Ended_example : let r = main system 5 starting in Ended 5 r.value r.trace r.state
main-Ended_example = main-Ended system 5 starting refl refl

serve_all-told_example :
    is_registered system 2
      (told (notify_listeners system (serve_all system coming_and_going running).state).trace)
    ≡ wanted system 2 coming_and_going (is_registered system 2 running.callbacks)
serve_all-told_example = serve_all-told system system-IsIdentity 2 coming_and_going running

unregister_callback-register_callback_example :
    let r = unregister_callback system (some 9) (register_callback system (some 9) running).state in
    (r.state.callbacks ≡ running.callbacks) × (r.value ≡ Result.success)
unregister_callback-register_callback_example =
    unregister_callback-register_callback system system-IsIdentity 9 running refl

main-wanted_example :
    is_registered busy 7 (main busy 2 starting).state.callbacks
    ≡ wanted busy 7 (requested (main busy 2 starting).trace) false
main-wanted_example = main-wanted busy busy-IsIdentity 7 2 starting refl

-- A message of two fields, the second of which names the subsystem.
wants_update-print_example :
    wants_update
      (pos (length (print ((b'a' ∷ b'@' ∷ []) ∷ subsystem ∷ []))))
      (print ((b'a' ∷ b'@' ∷ []) ∷ subsystem ∷ []) ++ (7 ∷ 0 ∷ []))
    ≡ some true
wants_update-print_example =
    wants_update-print ((b'a' ∷ b'@' ∷ []) ∷ subsystem ∷ []) (7 ∷ 0 ∷ []) (refl, (refl, tt))
      (omega arith)

healthd_battery_update_internal-twice_example :
    let once = (healthd_battery_update_internal system true running).state in
    let again = healthd_battery_update_internal system true once in
    (again.trace ≡ []) × (again.state ≡ once)
healthd_battery_update_internal-twice_example =
    healthd_battery_update_internal-twice system true running
