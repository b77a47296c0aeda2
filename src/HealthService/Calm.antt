-- ===== src/HealthService/Calm.antt =====
-- A condition that the start of the health service and its loop keep is kept by `main`.
use android_device_xenvm.Base.{ℕ, ◌≡◌, refl, inl, Bool, true, Option, none, some, List}
use android_device_xenvm.Health.Types.{Call, Process, System}
use android_device_xenvm.Healthd.Main.{
  Outcome, goes_on, aborted, exited, out_of_bounds, healthd_mainloop, enter, healthd_main,
}
use android_device_xenvm.HealthService.{handle_binder, healthd_mode_service_2_0_ops, main}
use android_device_xenvm.HealthService.Stable.{
  Condition, IsStable, After, Stays, done, look, bind, seq, cond,
}
use android_device_xenvm.HealthService.Opening.{IsOpen, put, and_go-Stays, healthd_init-Stays}
use android_device_xenvm.HealthService.Rounds.{Looped, healthd_mainloop-Runs}

-- A condition, where so many events are registered.
abbrev pub With : {W : Type 0} → Condition W → ℕ → ℕ → Condition W
With K count n h p = K h p × (p.eventct ≡ count)

pub record IsCalm {W : Type 0} (K : Condition W) : Type 1 where
  pub opened : IsOpen K
  pub stable : (count : ℕ) → IsStable (With K count) (With K count) (With K count 0)

module _ {W : Type 0} (sys : System W) {K : Condition W} (calm : IsCalm K) where
  -- However the loop ends, the condition holds.
  at_end :
      (count n rounds : ℕ) (r : Outcome (Option Bool)) (h : List Call) (p : Process W)
      → After (Looped sys (calm.stable count) n rounds) (With K count 0) r h p
      → K h p
  at_end count n rounds (goes_on (some idle)) h p j = j.0
  at_end count n rounds (goes_on none) h p (k, le, j) = j.0
  at_end count n rounds aborted h p j = j.0
  at_end count n rounds (exited status) h p j = absurd j
  at_end count n rounds out_of_bounds h p j = absurd j

  mainloop-Stays :
      (rounds : ℕ)
      → Stays K
          (healthd_mainloop sys (healthd_mode_service_2_0_ops sys) (handle_binder sys) rounds true)
  mainloop-Stays rounds = record {
    at = λ h p k.
        at_end p.eventct 0 rounds _ _ _
          ((healthd_mainloop-Runs sys (calm.stable p.eventct) rounds 0 true).at h p (k, refl));
  }

  healthd_main-Stays :
      (rounds : ℕ)
      → Stays K (healthd_main sys (healthd_mode_service_2_0_ops sys) (handle_binder sys) rounds)
  unfolding healthd_main enter
  healthd_main-Stays rounds = bind K (look K _) λ ready. cond K _ (done K _) (
      bind K (healthd_init-Stays sys calm.opened) λ r. and_go-Stays K r _ λ ret.
        cond K _ (done K _)
          (bind K (mainloop-Stays rounds) λ l. and_go-Stays K l _ λ next. done K _))

  pub main-Stays : (rounds : ℕ) → Stays K (main sys rounds)
  unfolding main
  main-Stays rounds =
      seq K (put sys calm.opened _ λ p. (refl, inl refl))
        (seq K (put sys calm.opened _ λ p. (refl, inl refl)) (healthd_main-Stays rounds))
