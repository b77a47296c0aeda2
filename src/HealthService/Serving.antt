-- ===== src/HealthService/Serving.antt =====
-- The requests that clients make between two waits of the loop keep a stable condition.
use android_device_xenvm.Base.{
  ℕ, ◌≡◌, ℤ, eq_ℤ, true, Option, none, some, List, [], ◌∷◌, ◌++◌, append-nil, arith, pure, ask,
  reading, change, ◌>>=◌, ◌>>◌, Bool-cases, inl, inr, Runs, ask-Runs, bind-Runs, then-Runs,
}
use android_device_xenvm.Health.Types.{
  Call, System, Request, Callback, ask_world, lock, unlock, Result, success, not_supported, unknown,
  not_found, HealthInfo,
}
use android_device_xenvm.Health.Methods
use android_device_xenvm.Health.Methods.{
  register_callback, unregister_callback, unregister_callback_internal, service_died, erase_equal,
  monitor_average, written_result,
}
use android_device_xenvm.Healthd.Wakealarm.{
  wakealarm_set_interval, minus_one, poll_interval, healthd_battery_update_internal,
}
use android_device_xenvm.HealthService.{serve, serve_all}
use android_device_xenvm.HealthService.Stable.{
  Condition, IsHarmless, IsStable, Stays, done, look, set, bind, seq, cond,
}

-- The charger is always said to be online.
online_interval : {W : Type 0} (sys : System W) (fast : ℤ) → poll_interval sys fast fast ≡ minus_one
unfolding poll_interval
online_interval sys fast = ground arith

module _ {W : Type 0} (sys : System W) {J failed : ℕ → Condition W} {gone : Condition W}
    (stable : IsStable J failed gone) (n : ℕ) where
  pub hear :
      {A : Type 0} (reply : W → A × W) (record_of : A → Call)
      → ((a : A) → IsHarmless (record_of a))
      → Stays (J n) (ask_world reply record_of)
  unfolding ask_world
  hear reply record_of k =
      ask-Runs (J n) (λ _. J n) _ record_of
        λ h p j.
          stable.heard (record_of (reply p.world).0) (reply p.world).1 (k (reply p.world).0) j

  battery_update_internal-Runs : Stays (J n) (healthd_battery_update_internal sys true)
  unfolding healthd_battery_update_internal wakealarm_set_interval ask_world ◌>>=◌ ◌>>◌ reading
      change ask pure
  battery_update_internal-Runs = record {
    at = λ h p j.
        let fast = p.config.periodic_chores_interval_fast in
        elim (Bool-cases (eq_ℤ fast p.wakealarm_wake_interval)) [
          | inl same ↦
              rw (same, online_interval sys fast, append-nil, healthd_battery_update_internal)
                (stable.settled j)
          | inr other ↦ elim (Bool-cases (eq_ℤ p.wakealarm_fd minus_one)) [
            | inl off ↦
                rw
                  (
                    other,
                    off,
                    online_interval sys fast,
                    append-nil,
                    healthd_battery_update_internal,
                    wakealarm_set_interval,
                  )
                  (stable.settled j)
            | inr on ↦
                rw
                  (
                    other,
                    on,
                    online_interval sys fast,
                    healthd_battery_update_internal,
                    wakealarm_set_interval,
                  )
                  (stable.rearmed _ _ other on j)
          ]
        ];
  }

  pub update-Runs : Stays (J n) (Methods.update sys)
  unfolding Methods.update
  update-Runs =
      bind (J n) (look (J n) _)
        λ ready. cond (J n) _ (done (J n) _) (seq (J n) battery_update_internal-Runs (done (J n) _))

  get_health_info-Runs : Stays (J n) (Methods.get_health_info sys)
  unfolding Methods.get_health_info monitor_average
  get_health_info-Runs =
      seq (J n) update-Runs
        (bind (J n) (bind (J n) (hear _ _ λ a. tt) λ a. done (J n) _) λ a. done (J n) _)

  lock-Runs : Runs (J n) (λ _. stable.held n) lock
  lock-Runs = ask-Runs _ _ _ _ λ h p j. stable.locking j

  unlock-Runs : Runs (stable.held n) (λ _. J n) unlock
  unlock-Runs = ask-Runs _ _ _ _ λ h p j. stable.unlocking j

  -- The list of callbacks changes while the lock is held.
  list-Runs :
      (f : List Callback → List Callback)
      → Stays (stable.held n) (change (λ p. record p { callbacks = f p.callbacks }))
  list-Runs f = set (stable.held n) _ λ h p j. stable.listed (f p.callbacks) j

  register_callback-Runs : (c : Option Callback) → Stays (J n) (register_callback sys c)
  unfolding register_callback
  register_callback-Runs none = done (J n) _
  register_callback-Runs (some c) = then-Runs (J n) (stable.held n) _ lock-Runs (
      then-Runs (stable.held n) (stable.held n) _ (list-Runs (λ cs. cs ++ (c ∷ [])))
        (then-Runs (stable.held n) (J n) _ unlock-Runs (seq (J n) (hear _ _ λ a. tt) update-Runs)))

  unregister_callback_internal-Runs :
      (c : Option Callback) → Stays (J n) (unregister_callback_internal sys c)
  unfolding unregister_callback_internal ask_world
  unregister_callback_internal-Runs none = done (J n) _
  unregister_callback_internal-Runs (some c) =
      let held = stable.held n in
      then-Runs (J n) held _ lock-Runs (
        bind-Runs held (λ _. held) _ (look held _)
          λ removed. then-Runs held held _ (list-Runs (λ cs. (erase_equal sys c cs).0)) (
            then-Runs held held _ (ask-Runs _ _ _ _ λ h p j. stable.unlinking c _ j)
              (then-Runs held (J n) _ unlock-Runs (done (J n) removed))))

  written-IsHarmless :
      (fd : ℤ) (result : Result) (info : HealthInfo) → IsHarmless (written_result fd result info)
  written-IsHarmless fd success info = tt
  written-IsHarmless fd not_supported info = tt
  written-IsHarmless fd unknown info = tt
  written-IsHarmless fd not_found info = tt

  -- A call without an answer.
  say : (call : Call) → IsHarmless call → Stays (J n) (ask (λ p. (tt, p)) (λ _. call))
  say call k = ask-Runs (J n) (λ _. J n) _ _ λ h p j. stable.heard call p.world k j

  debug-Runs : (handle : Option (List ℤ)) → Stays (J n) (Methods.debug sys handle)
  unfolding Methods.debug
  debug-Runs none = done (J n) tt
  debug-Runs (some []) = done (J n) tt
  debug-Runs (some (fd ∷ fds)) = seq (J n) (say (Call.dumped_state fd) tt) (
      bind (J n) get_health_info-Runs λ answer.
        seq (J n) (say _ (written-IsHarmless fd answer.0 answer.1)) (say (Call.synced fd) tt))

  serve-Runs : (r : Request) → Stays (J n) (serve sys r)
  unfolding serve unregister_callback service_died
  serve-Runs (Request.register c) = seq (J n) (register_callback-Runs c) (done (J n) tt)
  serve-Runs (Request.unregister c) =
      seq (J n) (bind (J n) (unregister_callback_internal-Runs c) λ r. done (J n) _) (done (J n) tt)
  serve-Runs Request.update = seq (J n) update-Runs (done (J n) tt)
  serve-Runs Request.get_health_info = seq (J n) get_health_info-Runs (done (J n) tt)
  serve-Runs Request.read = done (J n) tt
  serve-Runs (Request.debug handle) = debug-Runs handle
  serve-Runs (Request.service_died who) =
      seq (J n) (unregister_callback_internal-Runs who) (done (J n) tt)

  pub serve_all-Runs : (rs : List Request) → Stays (J n) (serve_all sys rs)
  unfolding serve_all
  serve_all-Runs [] = done (J n) tt
  serve_all-Runs (r ∷ rs) = seq (J n) (serve-Runs r) (serve_all-Runs rs)
