-- ===== src/HealthService/Looping.antt =====
-- The account of the health service's loop.
use android_device_xenvm.Base.{
  ℕ, ◌≡◌, ◌≢◌, refl, ◌⊎◌, ℤ, eq_ℤ, true, List, [], ◌∷◌, ◌++◌, arith, All, All-append,
}
use android_device_xenvm.Health.Types.{Call, Process, Waited, wait_failed}
use android_device_xenvm.Healthd.Wakealarm.{minus_one}
use android_device_xenvm.HealthService.Stable.{Condition, IsHarmless, IsStable}
use android_device_xenvm.HealthService.Books.{
  Books, Books-call, Books-as, Books-quiet, harmless-zero, failing, taken, arming, waiting,
  refusing, lacking,
}

-- A wait is for so many events, and without a timeout.
abbrev pub Asks : ℕ → Call → Type 0
Asks count (Call.epoll_waited n timeout answer) = (n ≡ count) × (timeout ≡ minus_one)
Asks count c = Unit {0}

-- In the loop there is an instance of Health, and the wake alarm is at the fast interval or has no
-- timer. `fails` of the waits have failed.
pub record Loops {W : Type 0} (count waits fails : ℕ) (h : List Call) (p : Process W) : Type 0 where
  pub books : Books 3 1 waits fails 0 0 h p
  pub size : p.eventct ≡ count
  pub present : p.has_instance ≡ true
  pub steady :
      (eq_ℤ p.config.periodic_chores_interval_fast p.wakealarm_wake_interval ≡ true)
      ⊎ (eq_ℤ p.wakealarm_fd minus_one ≡ true)
  pub asks : All (Asks count) h

-- A wait that has not failed counts no failure.
failing-zero :
    (n : ℕ) (timeout : ℤ) (answer : Waited)
    → answer ≢ wait_failed
    → failing (Call.epoll_waited n timeout answer) ≡ 0
failing-zero n timeout answer k = ground arith

Asks-harmless : (count : ℕ) (c : Call) → IsHarmless c → Asks count c
Asks-harmless count c k = ground arith

module _ {W : Type 0} (count : ℕ) where
  abbrev pub Running : ℕ → Condition W
  Running n = Loops count n 0

  abbrev pub Stopped : ℕ → Condition W
  Stopped n = Loops count n 1

  abbrev pub Never : Condition W
  Never h p = ⊥

  -- A call that counts nothing, and is no wait.
  more :
      {n : ℕ} {h : List Call} (p : Process W) (c : Call)
      → (taken c ≡ 0)
        × (arming c ≡ 0)
        × (waiting c ≡ 0)
        × (failing c ≡ 0)
        × (refusing c ≡ 0)
        × (lacking c ≡ 0)
      → Asks count c
      → (w : W) → Running n h p
      → Running n (h ++ (c ∷ [])) (record p { world = w })
  more {h = h} p c zero asks w j = record {
    books = Books-quiet (record p { world = w }) c zero refl j.books.calm j.books;
    size = j.size;
    present = j.present;
    steady = j.steady;
    asks = All-append (Asks count) h (c ∷ []) j.asks (asks, tt);
  }

  pub Running-IsStable : IsStable Running Stopped Never
  Running-IsStable = record {
    held = Running;
    locking = λ {n} {h} {p} j. more p Call.locked (omega arith) tt p.world j;
    unlocking = λ {n} {h} {p} j. more p Call.unlocked (omega arith) tt p.world j;
    unlinking = λ {n} {h} {p} c w j. more p (Call.unlinked c) (omega arith) tt w j;
    heard = λ {n} {h} {p} c w k j. more p c (harmless-zero c k) (Asks-harmless count c k) w j;
    listed = λ {n} {h} {p} cs j. record {
      books = Books-as j.books refl j.books.calm (omega arith);
      size = j.size;
      present = j.present;
      steady = j.steady;
      asks = j.asks;
    };
    settled = λ {n} {h} {p} j. record {
      books = Books-as j.books refl refl (omega arith);
      size = j.size;
      present = j.present;
      steady = j.steady;
      asks = j.asks;
    };
    rearmed = λ {n} {h} {p} seconds w other on j. absurd (ground (arith, j.steady));
    unheld = λ {n} {h} {p} absent j. absurd (ground (arith, j.present));
    counted = count;
    counts = λ {n} {h} {p} j. j.size;
    calm = λ {n} {h} {p} j. j.books.calm;
    waited = λ {n} {h} {p} answer w k j.
        let c = Call.epoll_waited count minus_one answer in
        record {
          books =
              Books-as (Books-call (record p { world = w }) c (omega arith) j.books.calm j.books)
                refl j.books.calm (omega (arith, failing-zero count minus_one answer k));
          size = j.size;
          present = j.present;
          steady = j.steady;
          asks = All-append (Asks count) h (c ∷ []) j.asks ((refl, refl), tt);
        };
    broken = λ {n} {h} {p} w j.
        let c = Call.epoll_waited count minus_one wait_failed in
        record {
          books =
              Books-as (Books-call (record p { world = w }) c (omega arith) j.books.calm j.books)
                refl j.books.calm (omega arith);
          size = j.size;
          present = j.present;
          steady = j.steady;
          asks = All-append (Asks count) h (c ∷ []) j.asks ((refl, refl), tt);
        };
  }
