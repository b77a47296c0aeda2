-- ===== src/HealthService/Quiet.antt =====
-- The health service tells nobody, and waits without a timeout: the condition, and its steps.
use android_device_xenvm.HealthService.Stable.{Condition, IsHarmless, IsStable}
use android_device_xenvm.HealthService.Opening.{IsOpening}
use android_device_xenvm.HealthService.Calm.{With, IsCalm}
use android_device_xenvm.Base.{
  ℕ, refl, All, All-append, ◌≡◌, ◌∙◌, negsuc, List, [], ◌∷◌, ◌++◌, arith,
}
use android_device_xenvm.Health.Types.{wait_failed, Call, Process}
use android_device_xenvm.Healthd.Wakealarm.{minus_one}

-- The process waits without a timeout.
abbrev pub Waits : {W : Type 0} → Process W → Type 0
Waits p = p.awake_poll_interval ≡ negsuc 0

-- No client is told anything, and `epoll_wait` has no timeout.
abbrev pub IsSilent : Call → Type 0
IsSilent (Call.notified c info t) = ⊥
IsSilent (Call.epoll_waited n timeout answer) = timeout ≡ negsuc 0
IsSilent c = Unit {0}

-- A harmless call tells nobody and waits for nothing, and so does a call of the start.
harmless-IsSilent : (c : Call) → IsHarmless c → IsSilent c
harmless-IsSilent c k = ground arith

opening-IsSilent : (c : Call) → IsOpening c → IsSilent c
opening-IsSilent c k = ground arith

module _ {W : Type 0} where
  -- So far nobody has been told, and the next wait is without a timeout.
  abbrev pub Silent : Condition W
  Silent h p = Waits p × All IsSilent h

  -- One call more.
  more :
      (h : List Call) (p : Process W) (c : Call)
      → IsSilent c
      → Silent h p
      → Waits p × All IsSilent (h ++ (c ∷ []))
  more h p c k j = (j.0, All-append IsSilent h (c ∷ []) j.1 (k, tt))

  Silent-IsStable :
      (count : ℕ) → IsStable (With Silent count) (With Silent count) (With Silent count 0)
  Silent-IsStable count = record {
    held = With Silent count;
    locking = λ {n} {h} {p} j. (more h p Call.locked tt j.0, j.1);
    unlocking = λ {n} {h} {p} j. (more h p Call.unlocked tt j.0, j.1);
    unlinking = λ {n} {h} {p} c w j. (more h p (Call.unlinked c) tt j.0, j.1);
    heard = λ {n} {h} {p} c w k j. (more h p c (harmless-IsSilent c k) j.0, j.1);
    listed = λ {n} {h} {p} cs j. j;
    settled = λ {n} {h} {p} j. ((refl, j.0.1), j.1);
    rearmed = λ {n} {h} {p} seconds w other on j.
        ((refl, (more h p (Call.timer_set p.wakealarm_fd seconds) tt j.0).1), j.1);
    unheld = λ {n} {h} {p} absent j. j;
    counted = count;
    counts = λ {n} {h} {p} j. j.1;
    calm = λ {n} {h} {p} j. j.0.0;
    waited = λ {n} {h} {p} answer w k j.
        (more h p (Call.epoll_waited count minus_one answer) refl j.0, j.1);
    broken =
        λ {n} {h} {p} w j. (more h p (Call.epoll_waited count minus_one wait_failed) refl j.0, j.1);
  }

  pub Silent-IsCalm : IsCalm Silent
  Silent-IsCalm = record {
    opened = record {
      opening = λ {h} {p} c w k j. more h p c (opening-IsSilent c k) j;
      setting = λ {h} {p} p' same kept j. (same ∙ j.0, j.1);
    };
    stable = Silent-IsStable;
  }
