-- ===== src/HealthService/Rounds.antt =====
-- The rounds of `healthd_mainloop` under a stable condition: one wait for each round.
use mathlib.Core.Path.{subst}
use android_device_xenvm.Base.{
  ℕ, zero, suc, ◌+◌, ◌≤◌, ◌≡◌, refl, ℤ, Bool, Option, none, some, List, [], ◌∷◌, ◌++◌, arith, pure,
  if◌then◌else◌, Runs, pure-Runs, ask-Runs, reading-Runs, bind-Runs, if-Runs, then-Runs, given-Runs,
  weaken-Runs,
}
use android_device_xenvm.Health.Types.{
  Call, Process, System, Waited, interrupted, wait_failed, events, Code, ask_world,
}
use android_device_xenvm.Healthd.Wakealarm.{minus_one}
use android_device_xenvm.Healthd.Main.{
  Outcome, goes_on, aborted, exited, out_of_bounds, periodic_chores, combined_timeout, after_wait,
  loop_round, go_on, healthd_mainloop,
}
use android_device_xenvm.HealthService.{
  handle_binder, healthd_mode_service_2_0_ops, healthd_mode_service_2_0_preparetowait,
  healthd_mode_service_2_0_heartbeat,
}
use android_device_xenvm.HealthService.Stable.{Condition, IsStable, After, and_go-Runs}
use android_device_xenvm.HealthService.Handlers.{
  Handles, healthd_battery_update-Runs, handle_all-Runs,
}

-- Both timeouts are -1, and so is the one that is used.
pub combined_lem :
    {W : Type 0} (sys : System W) (timeout : ℤ)
    → timeout ≡ minus_one
    → combined_timeout sys timeout minus_one ≡ minus_one
unfolding combined_timeout
combined_lem sys timeout t = rw (t, combined_timeout) refl

module _ {W : Type 0} (sys : System W) {J failed : ℕ → Condition W} {gone : Condition W}
    (stable : IsStable J failed gone) where
  -- The condition behind a wait, by its answer, and behind a round, by what the loop does next.
  abbrev Answered : ℕ → Waited → Condition W
  Answered n interrupted = J n
  Answered n wait_failed = failed n
  Answered n (events es) = J n

  abbrev Next : ℕ → Option Bool → Condition W
  Next n none = failed n
  Next n (some idle) = J n

  after_wait-Runs :
      (n : ℕ) (w : Waited)
      → Runs
          (Answered n w)
          (After (Next n) gone)
          (after_wait sys (healthd_mode_service_2_0_ops sys) (handle_binder sys) w)
  unfolding after_wait
  after_wait-Runs n interrupted = pure-Runs _ _ λ h p j. j
  after_wait-Runs n wait_failed = pure-Runs _ _ λ h p j. j
  after_wait-Runs n (events []) = pure-Runs _ _ λ h p j. j
  after_wait-Runs n (events (e ∷ es)) =
      bind-Runs (J n) (After (λ _. J n) gone) _ (handle_all-Runs sys stable n (e ∷ es))
        (and_go-Runs (λ _. J n) gone (Next n) λ _. pure-Runs _ _ λ h p j. j)

  wait-Runs :
      (n : ℕ)
      → Runs (J n) (Answered (suc n)) (
          ask_world
            (sys.epoll_wait stable.counted minus_one)
            (Call.epoll_waited stable.counted minus_one))
  unfolding ask_world
  wait-Runs n = ask-Runs _ _ _ _ λ h p j.
      answered (sys.epoll_wait stable.counted minus_one p.world).0
        (sys.epoll_wait stable.counted minus_one p.world).1 h p j
    where
      answered :
          (a : Waited) (w : W) (h : List Call) (p : Process W)
          → J n h p
          → Answered
              (suc n)
              a
              (h ++ (Call.epoll_waited stable.counted minus_one a ∷ []))
              (record p { world = w })
      answered interrupted w h p j = stable.waited interrupted w (ground arith) j
      answered wait_failed w h p j = stable.broken w j
      answered (events es) w h p j = stable.waited (events es) w (ground arith) j

  chores-Runs :
      (n : ℕ) (idle : Bool)
      → Handles sys stable n (if idle then periodic_chores sys else pure (goes_on tt))
  unfolding periodic_chores
  chores-Runs n idle =
      if-Runs (J n) _ idle (λ _. healthd_battery_update-Runs sys stable n)
        (λ _. pure-Runs _ _ λ h p j. j)

  loop_round-Runs :
      (n : ℕ) (idle : Bool)
      → Runs
          (J n)
          (After (Next (suc n)) gone)
          (loop_round sys (healthd_mode_service_2_0_ops sys) (handle_binder sys) idle)
  unfolding loop_round healthd_mode_service_2_0_ops healthd_mode_service_2_0_preparetowait
      healthd_mode_service_2_0_heartbeat
  loop_round-Runs n idle =
      bind-Runs (J n) (λ count h p. (count ≡ stable.counted) × J n h p) _
        (reading-Runs (J n) _ _ λ h p j. (stable.counts j, j))
        λ count.
          given-Runs _ (count ≡ stable.counted) (λ h p k. k.0)
            λ c.
              weaken-Runs {Pre = J n} (λ h p k. k.1) (λ a h p k. k)
                (bind-Runs (J n) (λ t h p. (t ≡ minus_one) × J n h p) _
                  (reading-Runs (J n) _ _ λ h p j. (stable.calm j, j))
                  λ timeout.
                    given-Runs _ (timeout ≡ minus_one) (λ h p k. k.0)
                      λ t.
                        weaken-Runs {Pre = J n} (λ h p k. k.1) (λ a h p k. k)
                          (bind-Runs (J n) (After (λ _. J n) gone) _ (chores-Runs n idle) (
                            and_go-Runs (λ _. J n) gone (Next (suc n))
                              λ _. then-Runs (J n) (J n) _ (pure-Runs _ _ λ h p j. j) (
                                bind-Runs (J n) (λ m h p. (m ≡ minus_one) × J n h p) _
                                  (pure-Runs _ _ λ h p j. (refl, j))
                                  λ mode_timeout.
                                    given-Runs _ (mode_timeout ≡ minus_one) (λ h p k. k.0)
                                      λ m.
                                        weaken-Runs {Pre = J n} (λ h p k. k.1) (λ a h p k. k)
                                          (rw (c, m, combined_lem sys timeout t)
                                            (bind-Runs (J n) (Answered (suc n)) _ (wait-Runs n)
                                              (after_wait-Runs (suc n))))))))

  -- After so many rounds, the n-th wait being the last before: each has waited once, or the last
  -- of those that ran has failed.
  abbrev pub Looped : ℕ → ℕ → Option Bool → Condition W
  Looped n rounds (some idle) h p = J (n + rounds) h p
  Looped n rounds none h p = (k : ℕ) × (k ≤ rounds) × failed (n + k) h p

  -- One round more in front.
  Looped-suc :
      (n rounds : ℕ) (next : Option Bool) (h : List Call) (p : Process W)
      → Looped (suc n) rounds next h p
      → Looped n (suc rounds) next h p
  Looped-suc n rounds (some idle) h p j =
      subst (λ m. J m h p) {x = suc n + rounds} {y = n + suc rounds} (omega arith) j
  Looped-suc n rounds none h p (k, le, f) = (
    suc k,
    omega arith,
    subst (λ m. failed m h p) {x = suc n + k} {y = n + suc k} (omega arith) f,
  )

  After-map :
      {A : Type 0} {goes goes' : A → Condition W}
      → ((a : A) (h : List Call) (p : Process W) → goes a h p → goes' a h p)
      → (r : Outcome A) (h : List Call) (p : Process W) → After goes gone r h p
      → After goes' gone r h p
  After-map f (goes_on a) h p x = f a h p x
  After-map f aborted h p x = x
  After-map f (exited n) h p x = x
  After-map f out_of_bounds h p x = x

  go_on-Runs :
      (n rounds : ℕ) {again : Bool → Code W (Outcome (Option Bool))}
      → ((idle : Bool) → Runs (J (suc n)) (After (Looped (suc n) rounds) gone) (again idle))
      → (next : Option Bool)
      → Runs
          (Next (suc n) next)
          (After (Looped n (suc rounds)) gone)
          (go_on sys (healthd_mode_service_2_0_ops sys) (handle_binder sys) next again)
  unfolding go_on
  go_on-Runs n rounds k none =
      pure-Runs _ _
        λ h p f. (1, omega arith, subst (λ m. failed m h p) {x = suc n} {y = n + 1} (omega arith) f)
  go_on-Runs n rounds k (some idle) =
      weaken-Runs (λ h p j. j) (After-map (Looped-suc n rounds)) (k idle)

  pub healthd_mainloop-Runs :
      (rounds n : ℕ) (idle : Bool)
      → Runs
          (J n)
          (After (Looped n rounds) gone)
          (healthd_mainloop sys (healthd_mode_service_2_0_ops sys) (handle_binder sys) rounds idle)
  unfolding healthd_mainloop
  healthd_mainloop-Runs zero n idle =
      pure-Runs _ _ λ h p j. subst (λ m. J m h p) {x = n} {y = n + 0} (omega arith) j
  healthd_mainloop-Runs (suc rounds) n idle =
      bind-Runs (J n) (After (Next (suc n)) gone) _ (loop_round-Runs n idle) (
        and_go-Runs (Next (suc n)) gone (Looped n (suc rounds))
          (go_on-Runs n rounds (healthd_mainloop-Runs rounds (suc n))))
