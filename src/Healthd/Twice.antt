-- ===== src/Healthd/Twice.antt =====
-- health/healthd_common.cpp: a battery update repeated.
use android_device_xenvm.Base.{
  ◌≡◌, refl, ap, sym, ℤ, eq_ℤ, eq_ℤ_refl, Bool, true, ◌||◌, [], arith, pure, ask, reading, change,
  ◌>>=◌, ◌>>◌, if◌then◌else◌, Bool-cases, inl, inr,
}
use android_device_xenvm.Health.Types.{System, Process, ask_world}
use android_device_xenvm.Healthd.Wakealarm.{
  minus_one, wakealarm_set_interval, poll_interval, healthd_battery_update_internal,
}

abbrev interval : {W : Type 0} → Bool → Process W → ℤ
interval online p =
    if online
    then p.config.periodic_chores_interval_fast
    else p.config.periodic_chores_interval_slow

module _ {W : Type 0} (sys : System W) where
  -- There is no alarm to set, and the poll interval is the one that an update would give.
  record IsUpdated (online : Bool) (p : Process W) : Type 0 where
    pub armed :
        (eq_ℤ (interval online p) p.wakealarm_wake_interval || eq_ℤ p.wakealarm_fd minus_one) ≡ true
    pub polls :
        p.awake_poll_interval
        ≡ poll_interval sys p.config.periodic_chores_interval_fast (interval online p)

  update-IsUpdated :
      (online : Bool) (p : Process W)
      → IsUpdated online (healthd_battery_update_internal sys online p).state
  unfolding healthd_battery_update_internal wakealarm_set_interval ask_world ◌>>=◌ ◌>>◌ reading
      change ask pure
  update-IsUpdated online p = record {
    armed = ground (arith, eq_ℤ_refl (interval online p));
    polls = ground arith;
  }

  IsUpdated-still :
      (online : Bool) (p : Process W)
      → IsUpdated online p
      → let again = healthd_battery_update_internal sys online p in
        (again.trace ≡ []) × (again.state ≡ p)
  unfolding healthd_battery_update_internal wakealarm_set_interval ask_world ◌>>=◌ ◌>>◌ reading
      change ask pure
  IsUpdated-still online p u =
      elim (Bool-cases (eq_ℤ (interval online p) p.wakealarm_wake_interval)) [
        | inl same ↦ rw same (refl, ap (λ a. record p { awake_poll_interval = a }) (sym u.polls))
        | inr other ↦
            let lacking : eq_ℤ p.wakealarm_fd minus_one ≡ true = ground (arith, u.armed) in
            rw (other, lacking) (refl, ap (λ a. record p { awake_poll_interval = a }) (sym u.polls))
      ]

  -- A second battery update right after the first, with the same charger, makes no call and leaves
  -- every variable and the world as they are, whether or not there is a wake alarm.
  pub healthd_battery_update_internal-twice :
      (online : Bool) (p : Process W)
      → let once = (healthd_battery_update_internal sys online p).state in
        let again = healthd_battery_update_internal sys online once in
        (again.trace ≡ []) × (again.state ≡ once)
  healthd_battery_update_internal-twice online p =
      IsUpdated-still online _ (update-IsUpdated online p)
