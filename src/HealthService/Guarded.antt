-- ===== src/HealthService/Guarded.antt =====
-- `callbacks_lock_` of Health.h: it is never taken twice, and free whenever the service waits.
use android_device_xenvm.Base.{
  ℕ, refl, ◌≡◌, ◌∙◌, ap, Bool, true, false, Option, none, some, List, [], ◌∷◌, ◌++◌, append-nil,
  arith, pure, ask, reading, change, ◌>>=◌, ◌>>◌, if◌then◌else◌,
}
use android_device_xenvm.Health.Types.{
  wait_failed, Call, Process, System, HealthInfo, Callback, ask_world,
}
use android_device_xenvm.Health.Methods.{notify_all, notify_listeners, monitor_average}
use android_device_xenvm.Healthd.Wakealarm.{minus_one}
use android_device_xenvm.HealthService.{main}
use android_device_xenvm.HealthService.Stable.{Condition, IsHarmless, IsStable}
use android_device_xenvm.HealthService.Opening.{IsOpening}
use android_device_xenvm.HealthService.Calm.{With, IsCalm, main-Stays}
use android_device_xenvm.HealthService.Quiet.{Waits}

-- A watchman, who knows whether the lock is held, sees a call. `none` is an offence: the mutex,
-- which is not recursive, is taken while it is held; it is given back, a callback is told, or
-- the link to one's death is undone while it is free; a link is made, or the process waits for
-- events, while it is held.
abbrev pub seen : Call → Bool → Option Bool
seen Call.locked held = if held then none else some true
seen Call.unlocked held = if held then some false else none
seen (Call.notified c info t) held = if held then some true else none
seen (Call.unlinked c) held = if held then some true else none
seen (Call.linked c) held = if held then none else some false
seen (Call.epoll_waited n timeout answer) held = if held then none else some false
seen c held = some held

abbrev pub and_seen : Call → Option Bool → Option Bool
and_seen c none = none
and_seen c (some held) = seen c held

abbrev pub watch : List Call → Option Bool → Option Bool
watch [] held = held
watch (c ∷ cs) held = watch cs (and_seen c held)

watch-append :
    (xs ys : List Call) (held : Option Bool) → watch (xs ++ ys) held ≡ watch ys (watch xs held)
watch-append [] ys held = refl
watch-append (x ∷ xs) ys held = watch-append xs ys (and_seen x held)

harmless-seen : (c : Call) → IsHarmless c → seen c false ≡ some false
harmless-seen c k = ground arith

opening-seen : (c : Call) → IsOpening c → seen c false ≡ some false
opening-seen c k = ground arith

module _ {W : Type 0} where
  -- The lock is held, or free, after a history without an offence.
  abbrev At : Bool → Condition W
  At held h p = Waits p × (watch h (some false) ≡ some held)

  more :
      {held held' : Bool} (h : List Call) (p : Process W) (c : Call)
      → seen c held ≡ some held'
      → At held h p
      → Waits p × (watch (h ++ (c ∷ [])) (some false) ≡ some held')
  more h p c e j = (j.0, watch-append h (c ∷ []) (some false) ∙ ap (and_seen c) j.1 ∙ e)

  Free-IsStable :
      (count : ℕ)
      → IsStable (With (At false) count) (With (At false) count) (With (At false) count 0)
  Free-IsStable count = record {
    held = With (At true) count;
    locking = λ {n} {h} {p} j. (more h p Call.locked refl j.0, j.1);
    unlocking = λ {n} {h} {p} j. (more h p Call.unlocked refl j.0, j.1);
    unlinking = λ {n} {h} {p} c w j. (more h p (Call.unlinked c) refl j.0, j.1);
    heard = λ {n} {h} {p} c w k j. (more h p c (harmless-seen c k) j.0, j.1);
    listed = λ {n} {h} {p} cs j. j;
    settled = λ {n} {h} {p} j. ((refl, j.0.1), j.1);
    rearmed = λ {n} {h} {p} seconds w other on j.
        ((refl, (more h p (Call.timer_set p.wakealarm_fd seconds) refl j.0).1), j.1);
    unheld = λ {n} {h} {p} absent j. j;
    counted = count;
    counts = λ {n} {h} {p} j. j.1;
    calm = λ {n} {h} {p} j. j.0.0;
    waited = λ {n} {h} {p} answer w k j.
        (more h p (Call.epoll_waited count minus_one answer) refl j.0, j.1);
    broken =
        λ {n} {h} {p} w j. (more h p (Call.epoll_waited count minus_one wait_failed) refl j.0, j.1);
  }

  Free-IsCalm : IsCalm (At false)
  Free-IsCalm = record {
    opened = record {
      opening = λ {h} {p} c w k j. more h p c (opening-seen c k) j;
      setting = λ {h} {p} p' same kept j. (same ∙ j.0, j.1);
    };
    stable = Free-IsStable;
  }

module _ {W : Type 0} (sys : System W) where
  notify_all-seen :
      (info : HealthInfo) (cs : List Callback) (p : Process W)
      → watch (notify_all sys info cs p).trace (some true) ≡ some true
  unfolding notify_all ask_world ◌>>=◌ ask pure
  notify_all-seen info [] p = refl
  notify_all-seen info (c ∷ cs) p = rw append-nil (notify_all-seen info cs _)

  -- However many rounds the service runs, and whatever its clients ask and the world answers: if
  -- `awake_poll_interval` is -1 at the start, `callbacks_lock_` is never taken while it is held,
  -- is free at every `epoll_wait` and at the end of the run, and is held where a callback is told
  -- a report or its link to death undone but not where one is made. The same holds of a call of
  -- `notifyListeners` at any time.
  pub main-watch :
      (rounds : ℕ) (p : Process W)
      → Waits p
      → (watch (main sys rounds p).trace (some false) ≡ some false)
        × ((q : Process W) → watch (notify_listeners sys q).trace (some false) ≡ some false)
  unfolding notify_listeners monitor_average ask_world ◌>>=◌ ◌>>◌ reading change ask pure
  main-watch rounds p w = (
    ((main-Stays sys Free-IsCalm rounds).at [] p (w, refl)).1,
    λ q.
        watch-append (notify_all sys _ _ _).trace _ (some true)
        ∙ ap (watch (Call.unlocked ∷ [])) (notify_all-seen _ _ _),
  )
