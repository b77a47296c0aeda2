-- ===== src/HealthService/Books.antt =====
-- An account of a run of the health service: what has been registered, armed, waited for and
-- refused.
use android_device_xenvm.Base.{
  ℕ, ◌+◌, ◌≤◌, ◌≡◌, refl, eq_ℤ, List, [], ◌∷◌, ◌++◌, arith, if◌then◌else◌,
}
use android_device_xenvm.Base.Count.{total, total-append}
use android_device_xenvm.Health.Types.{Call, Process, wait_failed}
use android_device_xenvm.Healthd.Wakealarm.{minus_one}
use android_device_xenvm.HealthService.Stable.{IsHarmless}

-- What a call counts: an event that epoll took, a setting of the wake alarm, a wait, a wait that
-- failed, a registration of the service that failed, and an epoll set that was not made.
abbrev pub taken : Call → ℕ
taken (Call.epoll_added fd handler wakeup result) = if eq_ℤ result minus_one then 0 else 1
taken c = 0

abbrev pub arming : Call → ℕ
arming (Call.timer_set fd seconds) = 1
arming c = 0

abbrev pub waiting : Call → ℕ
waiting (Call.epoll_waited n timeout answer) = 1
waiting c = 0

abbrev pub failing : Call → ℕ
failing (Call.epoll_waited n timeout wait_failed) = 1
failing c = 0

abbrev pub refusing : Call → ℕ
refusing (Call.service_registered name ok) = if ok then 0 else 1
refusing c = 0

abbrev pub lacking : Call → ℕ
lacking (Call.epoll_created fd) = if eq_ℤ fd minus_one then 1 else 0
lacking c = 0

-- At most so many events are registered, and `eventct` is their number; the alarm has been set at
-- most so often; the waits, the failed waits, the refusals and the missing epoll sets are so many.
pub record Books {W : Type 0} (most arms waits fails refusals lacks : ℕ) (h : List Call)
    (p : Process W) : Type 0 where
  pub registered : p.eventct ≡ total taken h
  pub few : p.eventct ≤ most
  pub armed : total arming h ≤ arms
  pub waited : total waiting h ≡ waits
  pub failed : total failing h ≡ fails
  pub refused : total refusing h ≡ refusals
  pub lacked : total lacking h ≡ lacks
  pub calm : p.awake_poll_interval ≡ minus_one

module _ {W : Type 0} where
  -- One call more. `p'` is the process after it.
  pub Books-call :
      {most arms waits fails refusals lacks : ℕ} {h : List Call} {p : Process W} (p' : Process W)
      (c : Call)
      → p'.eventct ≡ p.eventct + taken c
      → p'.awake_poll_interval ≡ minus_one
      → Books most arms waits fails refusals lacks h p
      → Books
          (most + taken c)
          (arms + arming c)
          (waits + waiting c)
          (fails + failing c)
          (refusals + refusing c)
          (lacks + lacking c)
          (h ++ (c ∷ []))
          p'
  Books-call {h} p' c counted calm b = record {
    registered = omega (arith, counted, b.registered, total-append taken h (c ∷ []));
    few = omega (arith, counted, b.few);
    armed = omega (arith, b.armed, total-append arming h (c ∷ []));
    waited = omega (arith, b.waited, total-append waiting h (c ∷ []));
    failed = omega (arith, b.failed, total-append failing h (c ∷ []));
    refused = omega (arith, b.refused, total-append refusing h (c ∷ []));
    lacked = omega (arith, b.lacked, total-append lacking h (c ∷ []));
    calm = calm;
  }

  -- The same account of a process with the same `eventct`, in other numbers.
  pub Books-as :
      {m m' a a' w w' f f' r r' l l' : ℕ} {h : List Call} {p p' : Process W}
      → Books m a w f r l h p
      → p'.eventct ≡ p.eventct
      → p'.awake_poll_interval ≡ minus_one
      → (m ≤ m') × (a ≤ a') × (w ≡ w') × (f ≡ f') × (r ≡ r') × (l ≡ l')
      → Books m' a' w' f' r' l' h p'
  Books-as b e calm (m, a, w, f, r, l) = record {
    registered = omega (arith, e, b.registered);
    few = omega (arith, e, b.few);
    armed = omega (arith, b.armed);
    waited = omega (arith, b.waited);
    failed = omega (arith, b.failed);
    refused = omega (arith, b.refused);
    lacked = omega (arith, b.lacked);
    calm = calm;
  }

-- A call that only counts nothing.
pub harmless-zero :
    (c : Call)
    → IsHarmless c
    → (taken c ≡ 0)
      × (arming c ≡ 0)
      × (waiting c ≡ 0)
      × (failing c ≡ 0)
      × (refusing c ≡ 0)
      × (lacking c ≡ 0)
harmless-zero c h = ground arith

pub Books-quiet :
    {W : Type 0} {m a w f r l : ℕ} {h : List Call} {p : Process W} (p' : Process W) (c : Call)
    → (taken c ≡ 0)
      × (arming c ≡ 0)
      × (waiting c ≡ 0)
      × (failing c ≡ 0)
      × (refusing c ≡ 0)
      × (lacking c ≡ 0)
    → p'.eventct ≡ p.eventct
    → p'.awake_poll_interval ≡ minus_one
    → Books m a w f r l h p
    → Books m a w f r l (h ++ (c ∷ [])) p'
Books-quiet p' c (t, a, w, f, r, l) e calm b =
    Books-as (Books-call p' c (omega (arith, e, t)) calm b) refl calm
      (omega arith, omega arith, omega arith, omega arith, omega arith, omega arith)
