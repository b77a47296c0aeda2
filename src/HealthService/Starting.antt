-- ===== src/HealthService/Starting.antt =====
-- The account of the start of the health service, up to its loop.
use Prim.Native.String.{String}
use android_device_xenvm.Base.{
  ℕ, ◌+◌, ◌≡◌, refl, ◌∙◌, ◌⊎◌, inl, inr, ℤ, pos, eq_ℤ, ltb_ℤ, Bool, true, false, arith, pure, ask,
  reading, change, ◌>>=◌, ◌>>◌, if◌then◌else◌, Bool-cases, Runs, pure-Runs, ask-Runs, reading-Runs,
  change-Runs, bind-Runs, then-Runs, if-Runs, weaken-Runs,
}
use android_device_xenvm.Health.Types.{Call, Process, System, Handler, binder_event, ask_world}
use android_device_xenvm.Health.Methods.{init_instance, new_health}
use android_device_xenvm.Healthd.Wakealarm.{healthd_register_event, minus_one}
use android_device_xenvm.Healthd.Main.{goes_on, aborted}
use android_device_xenvm.HealthService.{healthd_mode_service_2_0_init}
use android_device_xenvm.HealthService.Stable.{Condition, After}
use android_device_xenvm.HealthService.Books.{
  Books, Books-call, Books-as, Books-quiet, taken, arming, waiting, failing, refusing, lacking,
}

-- Before the loop: so many events and settings of the alarm at most, and a fact of the process.
abbrev pub Started : {W : Type 0} → ℕ → ℕ → (Process W → Type 0) → Condition W
Started most arms K h p = Books most arms 0 0 0 0 h p × K p

abbrev pub Nothing : {W : Type 0} → Process W → Type 0
Nothing p = Unit {0}

abbrev pub Present : {W : Type 0} → Process W → Type 0
Present p = p.has_instance ≡ true

abbrev pub Ready : {W : Type 0} → Process W → Type 0
Ready p =
    (p.has_instance ≡ true)
    × ((eq_ℤ p.config.periodic_chores_interval_fast p.wakealarm_wake_interval ≡ true)
        ⊎ (eq_ℤ p.wakealarm_fd minus_one ≡ true))

-- The registration of the service was refused.
abbrev pub Refused : {W : Type 0} → Condition W
Refused h p = Books 1 0 0 0 1 0 h p

abbrev IsQuiet : Call → Type 0
IsQuiet c =
    (taken c ≡ 0)
    × (arming c ≡ 0)
    × (waiting c ≡ 0)
    × (failing c ≡ 0)
    × (refusing c ≡ 0)
    × (lacking c ≡ 0)

module _ {W : Type 0} (sys : System W) where
  module _ {most arms : ℕ} {K : Process W → Type 0}
      (keep : (p : Process W) (w : W) (e : ℕ) → K p → K (record p { world = w; eventct = e })) where
    -- A call that counts nothing.
    pub quiet-Runs :
        {A : Type 0} (reply : W → A × W) (record_of : A → Call)
        → ((a : A) → IsQuiet (record_of a))
        → Runs (Started most arms K) (λ _. Started most arms K) (ask_world reply record_of)
    unfolding ask_world
    quiet-Runs reply record_of q = ask-Runs _ _ _ record_of λ h p b. (
      Books-quiet (record p { world = (reply p.world).1 }) (record_of (reply p.world).0)
          (q (reply p.world).0) refl b.0.calm b.0,
      keep p (reply p.world).1 p.eventct b.1,
    )

    -- One event more at most.
    pub register-Runs :
        (fd : ℤ) (handler : Handler) (wakeup : Bool)
        → Runs
            (Started most arms K)
            (λ _. Started (most + 1) arms K)
            (healthd_register_event sys fd handler wakeup)
    unfolding healthd_register_event ask_world ◌>>=◌ ◌>>◌ reading change ask pure
    register-Runs fd handler wakeup = record {
      at = λ h p b.
          let reply = sys.epoll_add fd wakeup p.world in
          let c = Call.epoll_added fd handler wakeup reply.0 in
          elim (Bool-cases (eq_ℤ reply.0 minus_one)) [
            | inl bad ↦
                rw (bad, healthd_register_event)
                  (
                    Books-as
                        (Books-call (record p { world = reply.1 }) c (ground arith) b.0.calm b.0)
                        refl b.0.calm (ground arith),
                    keep p reply.1 p.eventct b.1,
                  )
            | inr good ↦
                rw (good, healthd_register_event)
                  (
                    Books-as
                        (Books-call (record p { world = reply.1; eventct = p.eventct + 1 }) c
                          (ground arith) b.0.calm b.0)
                        refl b.0.calm (ground arith),
                    keep p reply.1 (p.eventct + 1) b.1,
                  )
          ];
    }

  -- Variables that no account looks at.
  pub set-Runs :
      {most arms : ℕ} (K K' : Process W → Type 0) (f : Process W → Process W)
      → ((p : Process W)
          → ((f p).eventct ≡ p.eventct) × ((f p).awake_poll_interval ≡ p.awake_poll_interval))
      → ((p : Process W) → K p → K' (f p))
      → Runs (Started most arms K) (λ _. Started most arms K') (change f)
  set-Runs K K' f same k = change-Runs _ _ f λ h p b. (
    Books-as b.0 (same p).0 ((same p).1 ∙ b.0.calm)
        (omega arith, omega arith, refl, refl, refl, refl),
    k p b.1,
  )

  init_instance-Runs :
      {most arms : ℕ}
      → Runs (Started most arms Nothing) (λ _. Started most arms Present) (init_instance sys)
  unfolding init_instance new_health
  init_instance-Runs {most} {arms} =
      bind-Runs _ (λ present. Started most arms (λ p. p.has_instance ≡ present)) _
        (reading-Runs _ _ _ λ h p b. (b.0, refl))
        λ present.
          if-Runs _ _ present (λ e. pure-Runs _ _ λ h p b. (b.0, b.1 ∙ e))
            λ e.
              bind-Runs _ (λ _. Started most arms Nothing) _
                (reading-Runs (Started most arms (λ p. p.has_instance ≡ present))
                  (λ _. Started most arms Nothing) _ λ h p b. (b.0, tt))
                λ config.
                  bind-Runs _ (λ _. Started most arms Nothing) _
                    (quiet-Runs {most = most} {arms = arms} {K = Nothing} (λ p w e k. tt) _ _
                      (λ a. (refl, refl, refl, refl, refl, refl)))
                    λ config'. set-Runs Nothing Present _ (λ p. (refl, refl)) (λ p k. refl)

  register_service-Runs :
      (name : String)
      → Runs (Started 1 0 Present) (After (λ _. Started 1 0 Present) Refused) (
          ask_world (sys.register_as_service name) (Call.service_registered name) >>= λ ok.
          pure (if ok then goes_on tt else aborted))
  unfolding ask_world
  register_service-Runs name =
      bind-Runs _ (λ ok h p. Books 1 0 0 0 (if ok then 0 else 1) 0 h p × Present p) _
        (ask-Runs _ _ _ _ λ h p b.
          let reply = sys.register_as_service name p.world in
          (
            Books-as
                (Books-call (record p { world = reply.1 }) (Call.service_registered name reply.0)
                  (omega arith) b.0.calm b.0)
                refl b.0.calm (omega arith),
            b.1,
          ))
        answered
    where
      answered :
          (ok : Bool)
          → Runs
              (λ h p. Books 1 0 0 0 (if ok then 0 else 1) 0 h p × Present p)
              (After {W = W} (λ _. Started 1 0 Present) Refused)
              (pure (if ok then goes_on tt else aborted))
      answered true = pure-Runs _ _ λ h p b. b
      answered false = pure-Runs _ _ λ h p b. b.0

  -- The mode's own start registers one event, and ends with an instance of Health, or because the
  -- service was refused.
  pub mode_init-Runs :
      Runs
        (Started 0 0 Nothing)
        (After (λ _. Started 1 0 Present) Refused)
        (healthd_mode_service_2_0_init sys)
  unfolding healthd_mode_service_2_0_init
  mode_init-Runs =
      bind-Runs _ (λ _. Started 0 0 Nothing) _
        (quiet-Runs {most = 0} {arms = 0} {K = Nothing} (λ p w e k. tt) _ _ (λ a. omega arith))
        λ fd.
          then-Runs _ (Started 0 0 Nothing) _
            (set-Runs Nothing Nothing _ (λ p. (refl, refl)) (λ p k. tt))
            (then-Runs _ (Started 1 0 Nothing) _
              (if-Runs _ _ (ltb_ℤ fd (pos 0))
                (λ _. pure-Runs _ _ λ h p b. (
                  Books-as b.0 refl b.0.calm (omega arith, omega arith, refl, refl, refl, refl),
                  tt,
                ))
                (λ _.
                  then-Runs _ (Started 1 0 Nothing) _
                    (weaken-Runs {Post = λ _. Started 1 0 Nothing} (λ h p b. b) (λ a h p b. b)
                      (register-Runs (λ p w e k. tt) fd binder_event false))
                    (pure-Runs _ _ λ h p b. b)))
              (then-Runs _ (Started 1 0 Present) _ init_instance-Runs (
                bind-Runs _ (λ _. Started 1 0 Present) _ (reading-Runs _ _ _ λ h p b. b)
                  λ name. register_service-Runs name)))
