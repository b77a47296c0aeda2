-- ===== src/HealthService/Stable.antt =====
-- What a condition on the history and the process must satisfy so that the loop of the health
-- service, and all that it calls, keeps it.
use android_device_xenvm.Base.{
  ℕ, suc, ◌≡◌, ◌≢◌, ℤ, eq_ℤ, Bool, false, List, [], ◌∷◌, ◌++◌, pure, reading, change, ◌>>=◌, ◌>>◌,
  if◌then◌else◌, Runs, pure-Runs, reading-Runs, change-Runs, bind-Runs, then-Runs, if-Runs,
}
use android_device_xenvm.Health.Types.{Call, Process, Waited, wait_failed, Callback, Code}
use android_device_xenvm.Healthd.Wakealarm.{minus_one}
use android_device_xenvm.Healthd.Main.{Outcome, goes_on, aborted, exited, out_of_bounds, and_go}

-- A condition on the history of calls and the process.
abbrev pub Condition : Type 0 → Type 1
Condition W = List Call → Process W → Type 0

-- The calls that handlers make beside those of the wake alarm, and those of `callbacks_lock_` with
-- what is done while it is held.
abbrev pub IsHarmless : Call → Type 0
IsHarmless Call.locked = ⊥
IsHarmless Call.unlocked = ⊥
IsHarmless (Call.unlinked c) = ⊥
IsHarmless (Call.notified c info t) = ⊥
IsHarmless (Call.epoll_created fd) = ⊥
IsHarmless (Call.epoll_added fd handler wakeup result) = ⊥
IsHarmless (Call.epoll_waited n timeout answer) = ⊥
IsHarmless (Call.timer_set fd seconds) = ⊥
IsHarmless (Call.service_registered name ok) = ⊥
IsHarmless c = Unit {0}

-- `J n` holds after n waits, `failed n` once the n-th one has failed, and `gone` where there is no
-- instance of Health to update. Between the waits the handlers keep `J n`, but for the time that
-- they hold `callbacks_lock_`, when `held n` holds and the list of callbacks may change.
pub record IsStable {W : Type 0} (J : ℕ → Condition W) (failed : ℕ → Condition W)
    (gone : Condition W) : Type 1 where
  pub held : ℕ → Condition W
  pub locking :
      {n : ℕ} {h : List Call} {p : Process W} → J n h p → held n (h ++ (Call.locked ∷ [])) p
  pub unlocking :
      {n : ℕ} {h : List Call} {p : Process W} → held n h p → J n (h ++ (Call.unlocked ∷ [])) p
  pub unlinking :
      {n : ℕ} {h : List Call} {p : Process W} (c : Callback) (w : W)
      → held n h p
      → held n (h ++ (Call.unlinked c ∷ [])) (record p { world = w })
  pub heard :
      {n : ℕ} {h : List Call} {p : Process W} (c : Call) (w : W)
      → IsHarmless c
      → J n h p
      → J n (h ++ (c ∷ [])) (record p { world = w })
  pub listed :
      {n : ℕ} {h : List Call} {p : Process W} (cs : List Callback)
      → held n h p
      → held n h (record p { callbacks = cs })
  pub settled :
      {n : ℕ} {h : List Call} {p : Process W}
      → J n h p
      → J n h (record p { awake_poll_interval = minus_one })
  pub rearmed :
      {n : ℕ} {h : List Call} {p : Process W} (seconds : ℤ) (w : W)
      → eq_ℤ p.config.periodic_chores_interval_fast p.wakealarm_wake_interval ≡ false
      → eq_ℤ p.wakealarm_fd minus_one ≡ false
      → J n h p
      → J n (h ++ (Call.timer_set p.wakealarm_fd seconds ∷ [])) (record p {
        wakealarm_wake_interval = p.config.periodic_chores_interval_fast;
        awake_poll_interval = minus_one;
        world = w;
      })
  pub unheld : {n : ℕ} {h : List Call} {p : Process W} → p.has_instance ≡ false → J n h p → gone h p
  pub counted : ℕ
  pub counts : {n : ℕ} {h : List Call} {p : Process W} → J n h p → p.eventct ≡ counted
  pub calm : {n : ℕ} {h : List Call} {p : Process W} → J n h p → p.awake_poll_interval ≡ minus_one
  pub waited :
      {n : ℕ} {h : List Call} {p : Process W} (answer : Waited) (w : W)
      → answer ≢ wait_failed
      → J n h p
      → J (suc n) (h ++ (Call.epoll_waited counted minus_one answer ∷ [])) (record p { world = w })
  pub broken :
      {n : ℕ} {h : List Call} {p : Process W} (w : W)
      → J n h p
      → failed
          (suc n)
          (h ++ (Call.epoll_waited counted minus_one wait_failed ∷ []))
          (record p { world = w })

-- The condition after a part of the program that cannot exit or read out of bounds.
abbrev pub After : {W A : Type 0} → (A → Condition W) → Condition W → Outcome A → Condition W
After goes gone (goes_on a) h p = goes a h p
After goes gone aborted h p = gone h p
After goes gone (exited n) h p = ⊥
After goes gone out_of_bounds h p = ⊥

pub and_go-Runs :
    {W A B : Type 0} (goes : A → Condition W) (gone : Condition W) (goes' : B → Condition W)
    {next : A → Code W (Outcome B)}
    → ((a : A) → Runs (goes a) (After goes' gone) (next a))
    → (r : Outcome A) → Runs (After goes gone r) (After goes' gone) (and_go r next)
unfolding and_go
and_go-Runs goes gone goes' k (goes_on a) = k a
and_go-Runs goes gone goes' k aborted = pure-Runs _ _ λ h s p. p
and_go-Runs goes gone goes' k (exited n) = pure-Runs _ _ λ h s p. absurd p
and_go-Runs goes gone goes' k out_of_bounds = pure-Runs _ _ λ h s p. absurd p

-- Code that keeps a condition, whatever it returns.
module _ {W : Type 0} (K : Condition W) where
  abbrev pub Stays : {A : Type 0} → Code W A → Type 0
  Stays m = Runs K (λ _. K) m

  pub done : {A : Type 0} (a : A) → Stays (pure a)
  done a = pure-Runs K (λ _. K) λ h s p. p

  pub look : {A : Type 0} (f : Process W → A) → Stays (reading f)
  look f = reading-Runs K (λ _. K) f λ h s p. p

  pub set :
      (f : Process W → Process W)
      → ((h : List Call) (p : Process W) → K h p → K h (f p))
      → Stays (change f)
  set f k = change-Runs K (λ _. K) f k

  pub bind :
      {A B : Type 0} {m : Code W A} {f : A → Code W B}
      → Stays m
      → ((a : A) → Stays (f a))
      → Stays (m >>= f)
  bind hm hf = bind-Runs K (λ _. K) (λ _. K) hm hf

  pub seq : {A B : Type 0} {m : Code W A} {k : Code W B} → Stays m → Stays k → Stays (m >> k)
  seq hm hk = then-Runs K K (λ _. K) hm hk

  pub cond :
      {A : Type 0} (b : Bool) {m k : Code W A} → Stays m → Stays k → Stays (if b then m else k)
  cond b hm hk = if-Runs K (λ _. K) b (λ _. hm) (λ _. hk)
