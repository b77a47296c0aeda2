-- ===== src/Health/Types.antt =====
-- The data of the health service: what IHealth reports, the process-wide variables of
-- health/*.cpp, and the outside world with the calls that are made of it.
use Prim.Native.String.{String}
use android_device_xenvm.Base.{ℕ, ℤ, Bool, Option, List, Proc, ask}

-- V2_0::Result, as far as the code names it.
pub data Result : Type 0 where
  success not_supported unknown not_found : Result

pub data BatteryStatus : Type 0 where
  full : BatteryStatus

pub data BatteryHealth : Type 0 where
  good : BatteryHealth

-- V1_0::HealthInfo
pub record LegacyInfo : Type 0 where
  pub charger_ac_online : Bool
  pub charger_usb_online : Bool
  pub charger_wireless_online : Bool
  pub max_charging_current : ℤ
  pub max_charging_voltage : ℤ
  pub battery_present : Bool
  pub battery_level : ℤ
  pub battery_voltage : ℤ
  pub battery_temperature : ℤ
  pub battery_current : ℤ
  pub battery_cycle_count : ℤ
  pub battery_full_charge : ℤ
  pub battery_charge_counter : ℤ
  pub battery_status : BatteryStatus
  pub battery_health : BatteryHealth
  pub battery_technology : String

-- An entry of `std::vector<StorageInfo>` or `std::vector<DiskStats>`, which is only passed on.
abbrev pub Entry : Type 0
Entry = ℕ

-- V2_0::HealthInfo
pub record HealthInfo : Type 0 where
  pub legacy : LegacyInfo
  pub battery_current_average : ℤ
  pub disk_stats : List Entry
  pub storage_infos : List Entry

-- `sp<IHealthInfoCallback>` and `sp<IBase>`, where they are not null.
abbrev pub Callback : Type 0
Callback = ℕ

-- What a call into a client's process comes back with.
pub data Transport : Type 0 where
  arrived dead_object failed : Transport

-- struct healthd_config
pub record HealthdConfig : Type 0 where
  pub periodic_chores_interval_fast : ℤ
  pub periodic_chores_interval_slow : ℤ
  pub battery_status_path : String
  pub battery_health_path : String
  pub battery_present_path : String
  pub battery_capacity_path : String
  pub battery_voltage_path : String
  pub battery_temperature_path : String
  pub battery_technology_path : String
  pub battery_current_now_path : String
  pub battery_current_avg_path : String
  pub battery_charge_counter_path : String
  pub battery_full_charge_path : String
  pub battery_cycle_count_path : String
  pub has_energy_counter : Bool
  pub boot_min_cap : ℤ
  pub has_screen_on : Bool

-- The functions that are registered with epoll.
pub data Handler : Type 0 where
  uevent_event wakealarm_event binder_event : Handler

-- A call that a client makes over binder, and the news of a client's death. `read` is any of the
-- eight methods from `getChargeCounter` to `getDiskStats` that answer a constant.
pub data Request : Type 0 where
  register unregister : Option Callback → Request
  update get_health_info read : Request
  debug : Option (List ℤ) → Request
  service_died : Option Callback → Request

-- What `epoll_wait` answers: an error, by `errno == EINTR`, or the handlers of the events, none
-- where `data.ptr` is null.
pub data Waited : Type 0 where
  interrupted wait_failed : Waited
  events : List (Option Handler) → Waited

-- The world with a state of type W: the kernel, binder, BatteryMonitor and the clients.
pub record System (W : Type 0) : Type 0 where
  pub interfaces_equal : Callback → Callback → Bool
  pub link_to_death : Callback → W → Bool × W
  pub unlink_to_death : Callback → W → Bool × W
  pub health_info_changed : Callback → HealthInfo → W → Transport × W
  pub monitor_init : HealthdConfig → W → HealthdConfig × W
  pub monitor_current_average : W → Option ℤ × W
  pub epoll_create : W → ℤ × W
  pub epoll_add : ℤ → Bool → W → ℤ × W
  pub epoll_wait : ℕ → ℤ → W → Waited × W
  pub timerfd_create : W → ℤ × W
  pub timerfd_settime : ℤ → ℤ → W → ℤ × W
  pub read_wakealarm : ℤ → W → ℤ × W
  pub uevent_open_socket : W → ℤ × W
  pub uevent_receive : ℤ → W → (ℤ × List ℕ) × W
  pub setup_transport_polling : W → ℤ × W
  pub transport_requests : ℤ → W → List Request × W
  pub register_as_service : String → W → Bool × W

-- A call of the world, with what matters of its arguments and its answer; and the steps of
-- `callbacks_lock_`, which is taken and given back.
pub data Call : Type 0 where
  locked unlocked : Call
  linked : Callback → Call
  unlinked : Callback → Call
  notified : Callback → HealthInfo → Transport → Call
  monitor_ready : Call
  monitor_read : Call
  epoll_created : ℤ → Call
  epoll_added : ℤ → Handler → Bool → ℤ → Call
  epoll_waited : ℕ → ℤ → Waited → Call
  timer_created : ℤ → Call
  timer_set : ℤ → ℤ → Call
  timer_read : ℤ → Call
  socket_opened : ℤ → Call
  received : ℤ → Call
  polling_set_up : ℤ → Call
  polled : List Request → Call
  service_registered : String → Bool → Call
  dumped_state : ℤ → Call
  wrote_info : ℤ → HealthInfo → Call
  wrote_result : ℤ → Result → Call
  synced : ℤ → Call

-- The variables of healthd_common.cpp and HealthServiceCommon.cpp, and `Health::instance_` with the
-- member `callbacks_` of the object that it points to. `has_battery_update` says that
-- `healthd_mode_ops` is set, with its member `battery_update`.
pub record Process (W : Type 0) : Type 0 where
  pub config : HealthdConfig
  pub eventct : ℕ
  pub epollfd : ℤ
  pub uevent_fd : ℤ
  pub wakealarm_fd : ℤ
  pub awake_poll_interval : ℤ
  pub wakealarm_wake_interval : ℤ
  pub has_battery_update : Bool
  pub binder_fd : ℤ
  pub instance_name : String
  pub has_instance : Bool
  pub callbacks : List Callback
  pub world : W

abbrev pub Code : Type 0 → Type 0 → Type 0
Code W A = Proc Call (Process W) A

-- A call of the world from the process.
unfoldable pub ask_world : {W A : Type 0} → (W → A × W) → (A → Call) → Code W A
ask_world reply record_of =
    ask (λ p. let r = reply p.world in (r.0, record p { world = r.1 })) record_of

-- The two ends of the scope of a `lock_guard` on `callbacks_lock_`.
abbrev pub lock : {W : Type 0} → Code W (Unit {0})
lock = ask (λ p. (tt, p)) (λ _. Call.locked)

abbrev pub unlock : {W : Type 0} → Code W (Unit {0})
unlock = ask (λ p. (tt, p)) (λ _. Call.unlocked)
