-- ===== src/HealthService/Arming.antt =====
-- The account of `wakealarm_init` and `uevent_init`.
use android_device_xenvm.Base.{
  ◌≡◌, refl, inl, inr, ℤ, pos, negsuc, eq_ℤ, ltb_ℤ, true, false, arith, pure, ask, reading, change,
  ◌>>=◌, ◌>>◌, if◌then◌else◌, Runs, pure-Runs, reading-Runs, bind-Runs, then-Runs, if-Runs,
  weaken-Runs,
}
use android_device_xenvm.Health.Types.{
  Call, Process, System, uevent_event, wakealarm_event, ask_world,
}
use android_device_xenvm.Healthd.Wakealarm.{wakealarm_set_interval, minus_one}
use android_device_xenvm.Healthd.Main.{uevent_init, wakealarm_init}
use android_device_xenvm.HealthService.Books.{Books-call, Books-as}
use android_device_xenvm.HealthService.Starting.{
  Started, Present, Ready, quiet-Runs, register-Runs, set-Runs,
}

eq_ℤ_refl : (z : ℤ) → eq_ℤ z z ≡ true
eq_ℤ_refl (pos n) = ground arith
eq_ℤ_refl (negsuc n) = ground arith

-- There is a timer, and an instance of Health.
abbrev Timed : {W : Type 0} → Process W → Type 0
Timed p = (p.has_instance ≡ true) × (eq_ℤ p.wakealarm_fd minus_one ≡ false)

module _ {W : Type 0} (sys : System W) where
  -- Setting the alarm to the fast interval, where there is a timer.
  set_interval-Runs :
      (fast : ℤ)
      → Runs
          (Started 2 0 λ p. Timed p × (p.config.periodic_chores_interval_fast ≡ fast))
          (λ _. Started 2 1 Ready)
          (wakealarm_set_interval sys fast)
  unfolding wakealarm_set_interval ask_world ◌>>=◌ ◌>>◌ reading change ask pure
  set_interval-Runs fast = record {
    at = λ h p b.
        let seconds = if eq_ℤ fast minus_one then pos 0 else fast in
        let w = (sys.timerfd_settime p.wakealarm_fd seconds p.world).1 in
        rw (b.1.0.1, wakealarm_set_interval)
          (
            Books-as
                (Books-call (record p { wakealarm_wake_interval = fast; world = w })
                  (Call.timer_set p.wakealarm_fd seconds) (omega arith) b.0.calm b.0)
                refl b.0.calm (omega arith),
            (b.1.0.0, inl (rw b.1.1 (eq_ℤ_refl fast))),
          );
  }

  pub wakealarm_init-Runs : Runs (Started 1 0 Present) (λ _. Started 2 1 Ready) (wakealarm_init sys)
  unfolding wakealarm_init
  wakealarm_init-Runs =
      bind-Runs _ (λ _. Started 1 0 Present) _
        (quiet-Runs sys {most = 1} {arms = 0} {K = Present} (λ p w e k. k) _ _
          (λ a. (refl, refl, refl, refl, refl, refl)))
        λ fd.
          then-Runs _ (Started 1 0 λ p. Present p × (p.wakealarm_fd ≡ fd)) _
            (set-Runs sys Present _ _ (λ p. (refl, refl)) (λ p k. (k, refl)))
            (if-Runs _ _ (eq_ℤ fd minus_one)
              (λ none.
                pure-Runs _ _
                  λ h p b. (Books-as b.0 refl b.0.calm (omega arith), (b.1.0, inr (rw b.1.1 none))))
              (λ some.
                then-Runs _ (Started 2 0 Timed) _
                  (weaken-Runs {Pre = Started 1 0 Timed} {Post = λ _. Started 2 0 Timed}
                    (λ h p b. (b.0, (b.1.0, rw b.1.1 some))) (λ a h p b. b)
                    (register-Runs sys {most = 1} {arms = 0} {K = Timed} (λ p w e k. k) fd
                      wakealarm_event true))
                  (bind-Runs _
                    (λ fast.
                      Started 2 0 λ p. Timed p × (p.config.periodic_chores_interval_fast ≡ fast))
                    _ (reading-Runs _ _ _ λ h p b. (b.0, (b.1, refl))) set_interval-Runs)))

  pub uevent_init-Runs : Runs (Started 2 1 Ready) (λ _. Started 3 1 Ready) (uevent_init sys)
  unfolding uevent_init
  uevent_init-Runs =
      bind-Runs _ (λ _. Started 2 1 Ready) _
        (quiet-Runs sys {most = 2} {arms = 1} {K = Ready} (λ p w e k. k) _ _
          (λ a. (refl, refl, refl, refl, refl, refl)))
        λ fd.
          then-Runs _ (Started 2 1 Ready) _
            (set-Runs sys Ready Ready _ (λ p. (refl, refl)) (λ p k. k))
            (if-Runs _ _ (ltb_ℤ fd (pos 0))
              (λ _. pure-Runs _ _ λ h p b. (Books-as b.0 refl b.0.calm (omega arith), b.1))
              (λ _.
                then-Runs _ (Started 3 1 Ready) _
                  (register-Runs sys {most = 2} {arms = 1} {K = Ready} (λ p w e k. k) fd
                    uevent_event true)
                  (pure-Runs _ _ λ h p b. b)))
