-- ===== src/HealthService/Handlers.antt =====
-- All that is called between two waits of the loop keeps a stable condition.
use android_device_xenvm.Base.{
  ℕ, ◌≡◌, refl, ◌∙◌, ℤ, pos, negsuc, eq_ℤ, ltb_ℤ, Bool, true, false, Option, none, some, List, [],
  ◌∷◌, pure, Runs, pure-Runs, reading-Runs, bind-Runs, if-Runs, then-Runs, weaken-Runs,
}
use android_device_xenvm.Health.Types.{
  System, Handler, Code, uevent_event, wakealarm_event, binder_event,
}
use android_device_xenvm.Health.Methods.{get_implementation}
use android_device_xenvm.Healthd.Wakealarm.{minus_one}
use android_device_xenvm.Healthd.Uevent
use android_device_xenvm.Healthd.Uevent.Fields.{wants_update_lem}
use android_device_xenvm.Healthd.Main.{
  Outcome, goes_on, healthd_battery_update, periodic_chores, on_uevent, handle_uevent,
  handle_wakealarm, handle, handle_all,
}
use android_device_xenvm.HealthService.{handle_binder, healthd_mode_service_2_0_ops}
use android_device_xenvm.HealthService.Stable.{Condition, IsStable, After, and_go-Runs, look}
use android_device_xenvm.HealthService.Serving.{hear, update-Runs, serve_all-Runs}

module _ {W : Type 0} (sys : System W) {J failed : ℕ → Condition W} {gone : Condition W}
    (stable : IsStable J failed gone) (n : ℕ) where
  -- A handler goes on, or finds no instance of Health.
  abbrev pub Handles : {A : Type 0} → Code W (Outcome A) → Type 0
  Handles m = Runs (J n) (After (λ _. J n) gone) m

  went_on : {A : Type 0} (a : A) → Handles (pure (goes_on a))
  went_on a = pure-Runs (J n) (After (λ _. J n) gone) λ h p j. j

  handle_binder-Runs : Handles (handle_binder sys)
  unfolding handle_binder
  handle_binder-Runs =
      bind-Runs (J n) (λ _. J n) _ (look (J n) _)
        λ fd.
          if-Runs (J n) _ (ltb_ℤ fd (pos 0)) (λ _. went_on tt)
            λ _.
              bind-Runs (J n) (λ _. J n) _ (hear sys stable n _ _ λ a. tt)
                λ requests.
                  then-Runs (J n) (J n) _ (serve_all-Runs sys stable n requests) (went_on tt)

  pub healthd_battery_update-Runs : Handles (healthd_battery_update sys)
  unfolding healthd_battery_update get_implementation
  healthd_battery_update-Runs =
      bind-Runs (J n) (λ present h p. (p.has_instance ≡ present) × J n h p) _
        (reading-Runs (J n) _ _ λ h p j. (refl, j))
        λ present.
          if-Runs _ _ present
            (λ _.
              weaken-Runs (λ h p k. k.1) (λ a h p k. k)
                (then-Runs (J n) (J n) _ (update-Runs sys stable n) (went_on tt)))
            (λ absent. pure-Runs _ _ λ h p k. stable.unheld (k.0 ∙ absent) k.1)

  on_uevent-Runs : (wanted : Bool) → Handles (on_uevent sys (some wanted))
  unfolding on_uevent
  on_uevent-Runs true = healthd_battery_update-Runs
  on_uevent-Runs false = went_on tt

  -- The search in a message comes to an end.
  wants : (count : ℤ) (msg : List ℕ) → (b : Bool) × (Uevent.wants_update count msg ≡ some b)
  wants (pos k) msg = (_, (wants_update_lem k msg).0)
  wants (negsuc k) msg = (_, (wants_update_lem k msg).1)

  handle_uevent-Runs : Handles (handle_uevent sys)
  unfolding handle_uevent
  handle_uevent-Runs =
      bind-Runs (J n) (λ _. J n) _ (look (J n) _)
        λ fd.
          bind-Runs (J n) (λ _. J n) _ (hear sys stable n _ _ λ a. tt)
            λ reply. let (b, e) = wants reply.0 reply.1 in rw e (on_uevent-Runs b)

  handle_wakealarm-Runs : Handles (handle_wakealarm sys)
  unfolding handle_wakealarm periodic_chores
  handle_wakealarm-Runs =
      bind-Runs (J n) (λ _. J n) _ (look (J n) _)
        λ fd.
          bind-Runs (J n) (λ _. J n) _ (hear sys stable n _ _ λ a. tt)
            λ result.
              if-Runs (J n) _ (eq_ℤ result minus_one) (λ _. went_on tt)
                (λ _. healthd_battery_update-Runs)

  handle-Runs :
      (handler : Handler)
      → Handles (handle sys (healthd_mode_service_2_0_ops sys) (handle_binder sys) handler)
  unfolding handle
  handle-Runs uevent_event = handle_uevent-Runs
  handle-Runs wakealarm_event = handle_wakealarm-Runs
  handle-Runs binder_event = handle_binder-Runs

  pub handle_all-Runs :
      (es : List (Option Handler))
      → Handles (handle_all sys (healthd_mode_service_2_0_ops sys) (handle_binder sys) es)
  unfolding handle_all
  handle_all-Runs [] = went_on tt
  handle_all-Runs (none ∷ es) = handle_all-Runs es
  handle_all-Runs (some e ∷ es) =
      bind-Runs (J n) (After (λ _. J n) gone) _ (handle-Runs e)
        (and_go-Runs (λ _. J n) gone (λ _. J n) λ _. handle_all-Runs es)
