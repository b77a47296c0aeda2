-- ===== src/Healthd/Wakealarm.antt =====
-- health/healthd_common.cpp: the static configuration, the registration of events, and the periods
-- of the wake alarm and of the poll.
use android_device_xenvm.Base.{
  ◌+◌, ◌*◌, ℤ, pos, negsuc, eq_ℤ, to_int32, Bool, false, pure, reading, change, ◌>>=◌, ◌>>◌,
  if◌then◌else◌, not,
}
use android_device_xenvm.Health.Types.{HealthdConfig, Handler, System, Call, Code, ask_world}

-- DEFAULT_PERIODIC_CHORES_INTERVAL_FAST and DEFAULT_PERIODIC_CHORES_INTERVAL_SLOW
abbrev pub default_periodic_chores_interval_fast : ℤ
default_periodic_chores_interval_fast = pos (60 * 1)

abbrev pub default_periodic_chores_interval_slow : ℤ
default_periodic_chores_interval_slow = pos (60 * 10)

-- The initial value of `healthd_config`.
abbrev pub initial_config : HealthdConfig
initial_config = record {
  periodic_chores_interval_fast = default_periodic_chores_interval_fast;
  periodic_chores_interval_slow = default_periodic_chores_interval_slow;
  battery_status_path = "";
  battery_health_path = "";
  battery_present_path = "";
  battery_capacity_path = "";
  battery_voltage_path = "";
  battery_temperature_path = "";
  battery_technology_path = "";
  battery_current_now_path = "";
  battery_current_avg_path = "";
  battery_charge_counter_path = "";
  battery_full_charge_path = "";
  battery_cycle_count_path = "";
  has_energy_counter = false;
  boot_min_cap = pos 0;
  has_screen_on = false;
}

abbrev pub minus_one : ℤ
minus_one = negsuc 0

-- `n * 1000` in int, with its wrap-around.
abbrev pub milliseconds : ℤ → ℤ
milliseconds (pos n) = to_int32 (pos (n * 1000))
milliseconds (negsuc n) = to_int32 (negsuc (n * 1000 + 999))

module _ {W : Type 0} (sys : System W) where
  -- The handler is stored with the event; the result is 0 or -1.
  unfoldable pub healthd_register_event : ℤ → Handler → Bool → Code W ℤ
  healthd_register_event fd handler wakeup = do
    epollfd ← reading (λ p. p.epollfd)
    result ← ask_world (sys.epoll_add fd wakeup) (Call.epoll_added fd handler wakeup)
    if eq_ℤ result minus_one
        then pure minus_one
        else (change (λ p. record p { eventct = p.eventct + 1 }) >> pure (pos 0))

  unfoldable pub wakealarm_set_interval : ℤ → Code W (Unit {0})
  wakealarm_set_interval interval = do
    fd ← reading (λ p. p.wakealarm_fd)
    if eq_ℤ fd minus_one then pure tt else do
      change (λ p. record p { wakealarm_wake_interval = interval })
      let seconds = if eq_ℤ interval minus_one then pos 0 else interval
      ask_world (sys.timerfd_settime fd seconds) (λ _. Call.timer_set fd seconds)
      pure tt

  -- The value of the assignment to `awake_poll_interval`.
  unfoldable pub poll_interval : ℤ → ℤ → ℤ
  poll_interval fast new =
      if eq_ℤ fast minus_one
      then minus_one
      else if eq_ℤ new fast
      then minus_one
      else milliseconds fast

  unfoldable pub healthd_battery_update_internal : Bool → Code W (Unit {0})
  healthd_battery_update_internal charger_online = do
    p ← reading (λ p. p)
    let fast = p.config.periodic_chores_interval_fast
    let new = if charger_online then fast else p.config.periodic_chores_interval_slow
    (if not (eq_ℤ new p.wakealarm_wake_interval) then wakealarm_set_interval new else pure tt)
    change (λ q. record q { awake_poll_interval = poll_interval fast new })
