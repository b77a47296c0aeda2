-- ===== src/Health/Methods.antt =====
-- health/Health.cpp: the methods of `Health`, with `get_storage_info`, `get_disk_stats` and
-- `healthd_board_init` of health/HealthServiceCommon.cpp. A method runs on the object that `instance_` points to.
use android_device_xenvm.Base.{
  ℤ, pos, to_int32, Bool, true, false, Option, none, some, List, [], ◌∷◌, ◌++◌, pure, ask, reading,
  change, ◌>>=◌, ◌>>◌, if◌then◌else◌, not, length, ◌==◌,
}
use android_device_xenvm.Health.Types.{
  Result, success, not_supported, unknown, not_found, BatteryStatus, full, good, LegacyInfo, Entry,
  HealthInfo, HealthdConfig, Callback, Transport, dead_object, System, Call, Code, ask_world, lock,
  unlock,
}
use android_device_xenvm.Healthd.Wakealarm.{healthd_battery_update_internal}

-- Each leaves the vector that they are given as it is.
unfoldable pub get_storage_info : List Entry → List Entry
get_storage_info info = info

unfoldable pub get_disk_stats : List Entry → List Entry
get_disk_stats stats = stats

-- It leaves the configuration that `c` points to as it is.
unfoldable pub healthd_board_init : HealthdConfig → HealthdConfig
healthd_board_init config = config

-- kBatteryPropChargeCounter, kBatteryPropCurrentNow, kBatteryPropCurrentAvg, kBatteryPropCapacity
-- and kBatteryPropEnergyCounter
abbrev pub battery_prop : ℤ
battery_prop = pos 1

-- What `debug` writes between its two fixed texts.
abbrev pub written_result : ℤ → Result → HealthInfo → Call
written_result fd Result.success info = Call.wrote_info fd info
written_result fd result info = Call.wrote_result fd result

-- What `getProperty` passes to its callback: the monitor and the id are not looked at.
unfoldable pub get_property : {A : Type 0} → A → Result × A
get_property default_value = (success, default_value)

unfoldable pub get_charge_counter : Result × ℤ
unfolding get_property
get_charge_counter = get_property battery_prop

unfoldable pub get_current_now : Result × ℤ
unfolding get_property
get_current_now = get_property battery_prop

unfoldable pub get_current_average : Result × ℤ
unfolding get_property
get_current_average = get_property battery_prop

unfoldable pub get_capacity : Result × ℤ
unfolding get_property
get_capacity = get_property battery_prop

unfoldable pub get_energy_counter : Result × ℤ
unfolding get_property
get_energy_counter = get_property battery_prop

unfoldable pub get_charge_status : Result × BatteryStatus
unfolding get_property
get_charge_status = get_property full

-- The answer of `getStorageInfo` and of `getDiskStats` for the vector that was filled.
abbrev pub answer_for : List Entry → Result × List Entry
answer_for entries = (if length entries == 0 then not_supported else success, entries)

unfoldable pub get_storage_info_answer : Result × List Entry
unfolding get_storage_info
get_storage_info_answer = answer_for (get_storage_info [])

unfoldable pub get_disk_stats_answer : Result × List Entry
unfolding get_disk_stats
get_disk_stats_answer = answer_for (get_disk_stats [])

-- The `.legacy` part that `notifyListeners` writes.
abbrev pub legacy_info : LegacyInfo
legacy_info = record {
  charger_ac_online = true;
  charger_usb_online = false;
  charger_wireless_online = false;
  max_charging_current = pos 0;
  max_charging_voltage = pos 0;
  battery_present = false;
  battery_level = pos 100;
  battery_voltage = pos 0;
  battery_temperature = pos 0;
  battery_current = pos 0;
  battery_cycle_count = pos 0;
  battery_full_charge = pos 1;
  battery_charge_counter = pos 1;
  battery_status = full;
  battery_health = good;
  battery_technology = "AC";
}

-- The `.legacy` part that `getHealthInfo` writes.
abbrev pub answered_legacy_info : LegacyInfo
answered_legacy_info = record {
  charger_ac_online = true;
  charger_usb_online = false;
  charger_wireless_online = false;
  max_charging_current = pos 0;
  max_charging_voltage = pos 0;
  battery_present = false;
  battery_level = pos 100;
  battery_voltage = pos 0;
  battery_temperature = pos 0;
  battery_current = pos 0;
  battery_cycle_count = pos 0;
  battery_full_charge = pos 1;
  battery_charge_counter = pos 1;
  battery_status = full;
  battery_health = good;
  battery_technology = "AC";
}

-- `currentAvg`, from the answer of the monitor: `some` where the status is OK.
abbrev pub current_average : Option ℤ → ℤ
current_average none = pos 0
current_average (some value) = to_int32 value

module _ {W : Type 0} (sys : System W) where
  unfoldable pub update : Code W Result
  update = do
    ready ← reading (λ p. p.has_battery_update)
    if not ready then pure unknown else (healthd_battery_update_internal sys true >> pure success)

  unfoldable pub register_callback : Option Callback → Code W Result
  register_callback none = pure success
  register_callback (some callback) = do
    lock
    change (λ p. record p { callbacks = p.callbacks ++ (callback ∷ []) })
    unlock
    ask_world (sys.link_to_death callback) (λ _. Call.linked callback)
    update

  -- The loop of `unregisterCallbackInternal`: what is left, and whether anything was erased.
  unfoldable pub erase_equal : Callback → List Callback → List Callback × Bool
  erase_equal callback [] = ([], false)
  erase_equal callback (c ∷ cs) =
      let rest = erase_equal callback cs in
      if sys.interfaces_equal c callback then (rest.0, true) else (c ∷ rest.0, rest.1)

  unfoldable pub unregister_callback_internal : Option Callback → Code W Bool
  unregister_callback_internal none = pure false
  unregister_callback_internal (some callback) = do
    lock
    removed ← reading (λ p. (erase_equal callback p.callbacks).1)
    change (λ p. record p { callbacks = (erase_equal callback p.callbacks).0 })
    ask_world (sys.unlink_to_death callback) (λ _. Call.unlinked callback)
    unlock
    pure removed

  unfoldable pub unregister_callback : Option Callback → Code W Result
  unregister_callback callback = do
    removed ← unregister_callback_internal callback
    pure (if removed then success else not_found)

  -- `who.promote()` may be null.
  unfoldable pub service_died : Option Callback → Code W (Unit {0})
  service_died who = unregister_callback_internal who >> pure tt

  unfoldable pub monitor_average : Code W ℤ
  monitor_average = do
    answer ← ask_world sys.monitor_current_average (λ _. Call.monitor_read)
    pure (current_average answer)

  -- A dead callback is erased from the list.
  unfoldable pub keep_alive : Transport → Callback → List Callback → List Callback
  keep_alive dead_object c rest = rest
  keep_alive _ c rest = c ∷ rest

  -- The loop of `notifyListeners`; the result is what stays in `callbacks_`.
  unfoldable pub notify_all : HealthInfo → List Callback → Code W (List Callback)
  notify_all info [] = pure []
  notify_all info (c ∷ cs) = do
    transport ← ask_world (sys.health_info_changed c info) (Call.notified c info)
    rest ← notify_all info cs
    pure (keep_alive transport c rest)

  -- The result is what is written to `*healthInfo`.
  unfoldable pub notify_listeners : Code W HealthInfo
  unfolding get_storage_info get_disk_stats
  notify_listeners = do
    current_avg ← monitor_average
    let info : HealthInfo = record {
      legacy = legacy_info;
      battery_current_average = current_avg;
      disk_stats = get_disk_stats [];
      storage_infos = get_storage_info [];
    }
    lock
    registered ← reading (λ p. p.callbacks)
    left ← notify_all info registered
    change (λ p. record p { callbacks = left })
    unlock
    pure info

  -- The result is what the answer callback gets.
  unfoldable pub get_health_info : Code W (Result × HealthInfo)
  unfolding get_storage_info get_disk_stats
  get_health_info = do
    update
    current_avg ← monitor_average
    let info : HealthInfo = record {
      legacy = answered_legacy_info;
      battery_current_average = current_avg;
      disk_stats = get_disk_stats [];
      storage_infos = get_storage_info [];
    }
    pure (success, info)

  -- `debug`, for a handle that is null (`none`) or has these descriptors.
  unfoldable pub debug : Option (List ℤ) → Code W (Unit {0})
  debug none = pure tt
  debug (some []) = pure tt
  debug (some (fd ∷ fds)) = do
    ask (λ p. (tt, p)) (λ _. Call.dumped_state fd)
    (result, info) ← get_health_info
    ask (λ p. (tt, p)) (λ _. written_result fd result info)
    ask (λ p. (tt, p)) (λ _. Call.synced fd)

  -- `Health::Health`; `BatteryMonitor::init` may write the configuration.
  unfoldable pub new_health : HealthdConfig → Code W (Unit {0})
  unfolding healthd_board_init
  new_health config = do
    config' ← ask_world (sys.monitor_init (healthd_board_init config)) (λ _. Call.monitor_ready)
    change (λ p. record p { config = config'; has_instance = true; callbacks = [] })

  -- `initInstance`
  unfoldable pub init_instance : Code W (Unit {0})
  init_instance = do
    present ← reading (λ p. p.has_instance)
    if present then pure tt else (reading (λ p. p.config) >>= new_health)

  -- `getImplementation`: the process aborts where there is no instance.
  unfoldable pub get_implementation : Code W Bool
  get_implementation = reading (λ p. p.has_instance)
