-- ===== src/Health/Interface.antt =====
-- health/Health.h: the class `Health` as binder and the service see it.
use android_device_xenvm.Base.{ℤ, Option, List}
use android_device_xenvm.Health.Types.{
  Result, BatteryStatus, Entry, HealthInfo, Callback, System, Code,
}
use android_device_xenvm.Health.Methods

-- The methods of the class. Those that answer by a callback have its arguments for a result.
pub record Health (W : Type 0) : Type 0 where
  pub notify_listeners : Code W HealthInfo
  pub register_callback : Option Callback → Code W Result
  pub unregister_callback : Option Callback → Code W Result
  pub update : Code W Result
  pub get_charge_counter : Result × ℤ
  pub get_current_now : Result × ℤ
  pub get_current_average : Result × ℤ
  pub get_capacity : Result × ℤ
  pub get_energy_counter : Result × ℤ
  pub get_charge_status : Result × BatteryStatus
  pub get_storage_info : Result × List Entry
  pub get_disk_stats : Result × List Entry
  pub get_health_info : Code W (Result × HealthInfo)
  pub debug : Option (List ℤ) → Code W (Unit {0})
  pub service_died : Option Callback → Code W (Unit {0})

-- The object behind the interface.
abbrev pub health : {W : Type 0} → System W → Health W
health sys = record {
  notify_listeners = Methods.notify_listeners sys;
  register_callback = Methods.register_callback sys;
  unregister_callback = Methods.unregister_callback sys;
  update = Methods.update sys;
  get_charge_counter = Methods.get_charge_counter;
  get_current_now = Methods.get_current_now;
  get_current_average = Methods.get_current_average;
  get_capacity = Methods.get_capacity;
  get_energy_counter = Methods.get_energy_counter;
  get_charge_status = Methods.get_charge_status;
  get_storage_info = Methods.get_storage_info_answer;
  get_disk_stats = Methods.get_disk_stats_answer;
  get_health_info = Methods.get_health_info sys;
  debug = Methods.debug sys;
  service_died = Methods.service_died sys;
}
