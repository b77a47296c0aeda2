-- ===== src/HealthService/Ending.antt =====
-- How the health service ends, and what it has registered, armed and waited for by then.
use mathlib.Core.Path.{subst}
use android_device_xenvm.Base.{
  ℕ, ◌+◌, ◌≤◌, ◌≡◌, refl, sym, ◌⊎◌, inl, inr, ℤ, pos, eq_ℤ, Bool, true, not, Option, none, some,
  List, [], ◌∷◌, arith, pure, ◌>>=◌, if◌then◌else◌, All, Runs, pure-Runs, ask-Runs, reading-Runs,
  change-Runs, bind-Runs, then-Runs, if-Runs, weaken-Runs,
}
use android_device_xenvm.Base.Count.{total}
use android_device_xenvm.Health.Types.{Call, Process, System, ask_world}
use android_device_xenvm.Healthd.Wakealarm.{minus_one}
use android_device_xenvm.Healthd.Main.{
  Outcome, goes_on, aborted, exited, out_of_bounds, and_go, healthd_init, healthd_mainloop, enter,
  healthd_main,
}
use android_device_xenvm.HealthService.{healthd_mode_service_2_0_ops, handle_binder, main}
use android_device_xenvm.HealthService.Stable.{Condition, After, and_go-Runs}
use android_device_xenvm.HealthService.Books.{Books, Books-call, Books-as, waiting}
use android_device_xenvm.HealthService.Looping.{
  Asks, Loops, Running, Stopped, Never, Running-IsStable,
}
use android_device_xenvm.HealthService.Rounds.{Looped, healthd_mainloop-Runs}
use android_device_xenvm.HealthService.Starting.{
  Started, Nothing, Present, Ready, Refused, set-Runs, mode_init-Runs,
}
use android_device_xenvm.HealthService.Arming.{wakealarm_init-Runs, uevent_init-Runs}

-- There is no epoll set.
abbrev pub Lacking : {W : Type 0} → Condition W
Lacking h p = Books 0 0 0 0 0 1 h p

-- The end of a run of so many rounds: it goes on, it has been left by `break`, it has exited, or
-- it has aborted.
abbrev pub Ended : {W : Type 0} → ℕ → Outcome (Option ℕ) → Condition W
Ended rounds (goes_on none) h p = Loops p.eventct rounds 0 h p
Ended rounds (goes_on (some status)) h p =
    (status ≡ 3) × (k : ℕ) × (k ≤ rounds) × Loops p.eventct k 1 h p
Ended rounds (exited status) h p = (status ≡ 2) × Lacking h p
Ended rounds aborted h p = Refused h p
Ended rounds out_of_bounds h p = ⊥

-- The account when `healthd_init` has returned.
abbrev Initialised : {W : Type 0} → ℤ → Condition W
Initialised ret h p = ((ret ≡ pos 0) × Started 3 1 Ready h p) ⊎ ((ret ≡ minus_one) × Lacking h p)

-- Where nothing has been waited for, every wait was right.
waits-Asks : (count : ℕ) (h : List Call) → total waiting h ≡ 0 → All (Asks count) h
waits-Asks count [] e = tt
waits-Asks count (c ∷ h) e = (ground (arith), waits-Asks count h (omega arith))

module _ {W : Type 0} (sys : System W) where
  healthd_init-Runs :
      Runs
        (Started 0 0 Nothing)
        (After Initialised Refused)
        (healthd_init sys (healthd_mode_service_2_0_ops sys) (handle_binder sys))
  unfolding healthd_init healthd_mode_service_2_0_ops ask_world
  healthd_init-Runs =
      bind-Runs _ (λ fd h p. Books 0 0 0 0 0 (if eq_ℤ fd minus_one then 1 else 0) h p × Unit {0}) _
        (ask-Runs _ _ _ _ λ h p b.
          let reply = sys.epoll_create p.world in
          (
            Books-as
                (Books-call (record p { world = reply.1 }) (Call.epoll_created reply.0)
                  (omega arith) b.0.calm b.0)
                refl b.0.calm (omega arith),
            tt,
          ))
        λ fd.
          then-Runs _ (λ h p. Books 0 0 0 0 0 (if eq_ℤ fd minus_one then 1 else 0) h p) _
            (change-Runs _ _ _ λ h p b. Books-as b.0 refl b.0.calm (omega arith))
            (if-Runs _ _ (eq_ℤ fd minus_one)
              (λ e. pure-Runs _ _ λ h p b. inr (refl, Books-as b refl b.calm (ground arith)))
              (λ e.
                bind-Runs _ (After (λ _. Started 1 0 Present) Refused) _
                  (weaken-Runs (λ h p b. (Books-as b refl b.calm (ground arith), tt)) (λ a h p b. b)
                    (mode_init-Runs sys))
                  (and_go-Runs (λ _. Started 1 0 Present) Refused Initialised
                    λ _.
                      then-Runs _ (Started 3 1 Ready) _
                        (then-Runs _ (Started 2 1 Ready) _ (wakealarm_init-Runs sys)
                          (uevent_init-Runs sys))
                        (pure-Runs _ _ λ h p b. inl (refl, b)))))

  -- The exit status behind the loop, in the numbers of the loop.
  abbrev Left : ℕ → ℕ → Option ℕ → Condition W
  Left count rounds none h p = Running count rounds h p
  Left count rounds (some status) h p = (status ≡ 3) × (k : ℕ) × (k ≤ rounds) × Stopped count k h p

  Left-Ended :
      (count rounds : ℕ) (r : Outcome (Option ℕ)) (h : List Call) (p : Process W)
      → After (Left count rounds) (Never count) r h p
      → Ended rounds r h p
  Left-Ended count rounds (goes_on none) h p l = subst (λ c. Loops c rounds 0 h p) (sym l.size) l
  Left-Ended count rounds (goes_on (some status)) h p (e, k, le, l) =
      (e, k, le, subst (λ c. Loops c k 1 h p) (sym l.size) l)
  Left-Ended count rounds aborted h p l = absurd l
  Left-Ended count rounds (exited status) h p l = absurd l
  Left-Ended count rounds out_of_bounds h p l = absurd l

  status-Runs :
      (count rounds : ℕ) (next : Option Bool)
      → Runs
          (Looped sys (Running-IsStable {W = W} count) 0 rounds next)
          (After (Left count rounds) (Never count))
          (pure (goes_on (elim next [ none ↦ some 3 | some idle ↦ none ])))
  status-Runs count rounds none = pure-Runs _ _ λ h p (k, le, l).
      (refl, k, le, subst (λ k. Loops count k 1 h p) {x = 0 + k} {y = k} (omega arith) l)
  status-Runs count rounds (some idle) =
      pure-Runs _ _
        λ h p l. subst (λ k. Loops count k 0 h p) {x = 0 + rounds} {y = rounds} (omega arith) l

  -- The loop, from its first round on.
  loop-Runs :
      (count rounds : ℕ)
      → Runs (Running count 0) (Ended rounds) (
          healthd_mainloop sys (healthd_mode_service_2_0_ops sys) (handle_binder sys) rounds true
          >>= λ l.
              and_go l (λ next. pure (goes_on (elim next [ none ↦ some 3 | some idle ↦ none ]))))
  loop-Runs count rounds =
      weaken-Runs {Post = After (Left count rounds) (Never count)} (λ h p j. j)
        (Left-Ended count rounds)
        (bind-Runs _ (After (Looped sys (Running-IsStable count) 0 rounds) (Never count)) _
          (healthd_mainloop-Runs sys (Running-IsStable count) rounds 0 true)
          (and_go-Runs _ (Never count) (Left count rounds) (status-Runs count rounds)))

  Started-Running :
      (h : List Call) (p : Process W) → Started 3 1 Ready h p → Running p.eventct 0 h p
  Started-Running h p b = record {
    books = b.0;
    size = refl;
    present = b.1.0;
    steady = b.1.1;
    asks = waits-Asks p.eventct h b.0.waited;
  }

  enter-Runs :
      (rounds : ℕ) (ret : ℤ)
      → Runs
          (Initialised ret)
          (Ended rounds)
          (enter sys (healthd_mode_service_2_0_ops sys) (handle_binder sys) rounds ret)
  unfolding enter
  enter-Runs rounds ret =
      if-Runs _ _ (not (eq_ℤ ret (pos 0)))
        (λ e.
          pure-Runs _ _
            λ h p i. elim i [ inl (z, b) ↦ absurd (ground (arith)) | inr (z, b) ↦ (refl, b) ])
        (λ e. record {
          at = λ h p i. elim i [
            | inl (z, b) ↦ (loop-Runs p.eventct rounds).at h p (Started-Running h p b)
            | inr (z, b) ↦ absurd (ground (arith))
          ];
        })

  entered-Runs :
      (rounds : ℕ) (r : Outcome ℤ)
      → Runs
          (After {W = W} Initialised Refused r)
          (Ended rounds)
          (and_go r (enter sys (healthd_mode_service_2_0_ops sys) (handle_binder sys) rounds))
  unfolding and_go
  entered-Runs rounds (goes_on ret) = enter-Runs rounds ret
  entered-Runs rounds aborted = pure-Runs _ _ λ h p b. b
  entered-Runs rounds (exited status) = pure-Runs _ _ λ h p b. absurd b
  entered-Runs rounds out_of_bounds = pure-Runs _ _ λ h p b. absurd b

  main-Runs : (rounds : ℕ) → Runs (Started 0 0 Nothing) (Ended rounds) (main sys rounds)
  unfolding main healthd_main
  main-Runs rounds =
      then-Runs _ (Started 0 0 Nothing) _
        (set-Runs sys Nothing Nothing _ (λ p. (refl, refl)) (λ p k. tt))
        (then-Runs _ (Started 0 0 λ p. p.has_battery_update ≡ true) _
          (set-Runs sys Nothing _ _ (λ p. (refl, refl)) (λ p k. refl))
          (bind-Runs _ (λ ready. Started 0 0 λ p. ready ≡ true) _ (reading-Runs _ _ _ λ h p b. b)
            λ ready.
              if-Runs _ _ (not ready) (λ e. pure-Runs _ _ λ h p b. absurd (ground (arith, b.1)))
                (λ e.
                  bind-Runs _ (After Initialised Refused) _
                    (weaken-Runs (λ h p b. (b.0, tt)) (λ a h p b. b) healthd_init-Runs)
                    (entered-Runs rounds))))

  -- However many rounds the service runs, and whatever the world answers, from `eventct` 0 and
  -- `awake_poll_interval` -1: it never reads out of bounds and finds no null `instance_`. It is still
  -- in the loop, after just one wait for each round, none of which has failed; or it returns status
  -- 3, after at most one wait for each round, one of which has failed; or it exits with status 2,
  -- one epoll set having been refused and nothing waited for; or it aborts, one registration of the
  -- service having been refused and nothing waited for. In each case `eventct` is the number of
  -- events that epoll took, which is at most 3 in the loop, and the wake alarm has been set at most
  -- once. In the loop every wait was for `eventct` events, without a timeout.
  pub main-Ended :
      (rounds : ℕ) (p : Process W)
      → p.eventct ≡ 0
      → p.awake_poll_interval ≡ minus_one
      → let r = main sys rounds p in Ended rounds r.value r.trace r.state
  main-Ended rounds p e w = (main-Runs rounds).at [] p (
    record {
      registered = e;
      few = omega (arith, e);
      armed = omega arith;
      waited = refl;
      failed = refl;
      refused = refl;
      lacked = refl;
      calm = w;
    },
    tt,
  )
