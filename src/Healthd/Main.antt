-- ===== src/Healthd/Main.antt =====
-- health/healthd_common.cpp: initialisation, the handlers and the main loop.
use android_device_xenvm.Base.{
  ℕ, zero, suc, ℤ, pos, eq_ℤ, ltb_ℤ, Bool, true, false, ◌||◌, ◌&&◌, Option, none, some, List, [],
  ◌∷◌, pure, reading, change, ◌>>=◌, ◌>>◌, not, if◌then◌else◌,
}
use android_device_xenvm.Health.Types.{
  Handler, uevent_event, wakealarm_event, binder_event, Waited, interrupted, wait_failed, events,
  System, Call, Code, ask_world,
}
use android_device_xenvm.Health.Methods.{update, get_implementation}
use android_device_xenvm.Healthd.Wakealarm.{
  healthd_register_event, wakealarm_set_interval, minus_one,
}
use android_device_xenvm.Healthd.Uevent
use android_device_xenvm.Healthd.Uevent.{subsystem}

-- How a part of the program ends: it goes on with a value, or the process stops, by a failed
-- CHECK, by `exit`, or by a read out of bounds.
pub data Outcome (A : Type 0) : Type 0 where
  goes_on : A → Outcome A
  aborted : Outcome A
  exited : ℕ → Outcome A
  out_of_bounds : Outcome A

-- Sequencing: what comes next is run where the process goes on.
unfoldable pub and_go : {W A B : Type 0} → Outcome A → (A → Code W (Outcome B)) → Code W (Outcome B)
and_go (goes_on a) next = next a
and_go aborted next = pure aborted
and_go (exited n) next = pure (exited n)
and_go out_of_bounds next = pure out_of_bounds

-- struct healthd_mode_ops, as far as the loop calls it.
pub record ModeOps (W : Type 0) : Type 0 where
  pub init : Code W (Outcome (Unit {0}))
  pub preparetowait : Code W ℤ
  pub heartbeat : Code W (Unit {0})

module _ {W : Type 0} (sys : System W) where
  -- `Health::getImplementation()->update()`
  unfoldable pub healthd_battery_update : Code W (Outcome (Unit {0}))
  healthd_battery_update = do
    present ← get_implementation sys
    if present then (update sys >> pure (goes_on tt)) else pure aborted

  unfoldable pub periodic_chores : Code W (Outcome (Unit {0}))
  unfolding healthd_battery_update
  periodic_chores = healthd_battery_update

  -- `uevent_event`, with what it decides from the message that came in.
  unfoldable pub on_uevent : Option Bool → Code W (Outcome (Unit {0}))
  on_uevent none = pure out_of_bounds
  on_uevent (some true) = healthd_battery_update
  on_uevent (some false) = pure (goes_on tt)

  unfoldable pub handle_uevent : Code W (Outcome (Unit {0}))
  handle_uevent = do
    fd ← reading (λ p. p.uevent_fd)
    reply ← ask_world (sys.uevent_receive fd) (λ r. Call.received r.0)
    on_uevent (Uevent.wants_update reply.0 reply.1)

  unfoldable pub handle_wakealarm : Code W (Outcome (Unit {0}))
  handle_wakealarm = do
    fd ← reading (λ p. p.wakealarm_fd)
    result ← ask_world (sys.read_wakealarm fd) Call.timer_read
    if eq_ℤ result minus_one then pure (goes_on tt) else periodic_chores

  unfoldable pub uevent_init : Code W (Unit {0})
  uevent_init = do
    fd ← ask_world sys.uevent_open_socket Call.socket_opened
    change (λ p. record p { uevent_fd = fd })
    if ltb_ℤ fd (pos 0)
        then pure tt
        else (healthd_register_event sys fd uevent_event true >> pure tt)

  unfoldable pub wakealarm_init : Code W (Unit {0})
  wakealarm_init = do
    fd ← ask_world sys.timerfd_create Call.timer_created
    change (λ p. record p { wakealarm_fd = fd })
    if eq_ℤ fd minus_one then pure tt else do
      healthd_register_event sys fd wakealarm_event true
      fast ← reading (λ p. p.config.periodic_chores_interval_fast)
      wakealarm_set_interval sys fast

  -- `timeout`, from `awake_poll_interval` and the mode's own.
  unfoldable pub combined_timeout : ℤ → ℤ → ℤ
  combined_timeout timeout mode_timeout =
      if ltb_ℤ timeout (pos 0) || (ltb_ℤ (pos 0) mode_timeout && ltb_ℤ mode_timeout timeout)
      then mode_timeout
      else timeout

  module _ (ops : ModeOps W) (handle_binder : Code W (Outcome (Unit {0}))) where
    unfoldable pub handle : Handler → Code W (Outcome (Unit {0}))
    unfolding handle_uevent handle_wakealarm
    handle uevent_event = handle_uevent
    handle wakealarm_event = handle_wakealarm
    handle binder_event = handle_binder

    -- `for (n = 0; n < nevents; ++n)`; an event whose pointer is null is passed over.
    unfoldable pub handle_all : List (Option Handler) → Code W (Outcome (Unit {0}))
    unfolding handle
    handle_all [] = pure (goes_on tt)
    handle_all (none ∷ es) = handle_all es
    handle_all (some h ∷ es) = do r ← handle h; and_go r (λ _. handle_all es)

    -- What a round of the loop makes of the answer of `epoll_wait`: the next value of
    -- `nevents == 0`, or `none` for `break`.
    unfoldable pub after_wait : Waited → Code W (Outcome (Option Bool))
    after_wait interrupted = pure (goes_on (some false))
    after_wait wait_failed = pure (goes_on none)
    after_wait (events []) = pure (goes_on (some true))
    after_wait (events (e ∷ es)) = do
      r ← handle_all (e ∷ es)
      and_go r (λ _. pure (goes_on (some false)))

    -- One round of `while (1)`; `idle` is `!nevents`.
    unfoldable pub loop_round : Bool → Code W (Outcome (Option Bool))
    loop_round idle = do
      count ← reading (λ p. p.eventct)
      timeout ← reading (λ p. p.awake_poll_interval)
      chores ← if idle then periodic_chores else pure (goes_on tt)
      and_go chores (λ _. do
        ops.heartbeat
        mode_timeout ← ops.preparetowait
        let combined = combined_timeout timeout mode_timeout
        waited ← ask_world (sys.epoll_wait count combined) (Call.epoll_waited count combined)
        after_wait waited)

    -- `break`, or the next round.
    unfoldable pub go_on :
        Option Bool → (Bool → Code W (Outcome (Option Bool))) → Code W (Outcome (Option Bool))
    go_on none again = pure (goes_on none)
    go_on (some idle) again = again idle

    -- The first `rounds` rounds: `some` is the value for the next round, `none` the end by `break`.
    unfoldable pub healthd_mainloop : ℕ → Bool → Code W (Outcome (Option Bool))
    healthd_mainloop zero idle = pure (goes_on (some idle))
    healthd_mainloop (suc rounds) idle = do
      r ← loop_round idle
      and_go r (λ next. go_on next (healthd_mainloop rounds))

    unfoldable pub healthd_init : Code W (Outcome ℤ)
    healthd_init = do
      fd ← ask_world sys.epoll_create Call.epoll_created
      change (λ p. record p { epollfd = fd })
      if eq_ℤ fd minus_one then pure (goes_on minus_one) else do
        r ← ops.init
        and_go r (λ _. (wakealarm_init >> uevent_init) >> pure (goes_on (pos 0)))

    -- `healthd_main` behind `healthd_init`.
    unfoldable pub enter : ℕ → ℤ → Code W (Outcome (Option ℕ))
    enter rounds ret = if not (eq_ℤ ret (pos 0)) then pure (exited 2) else do
      l ← healthd_mainloop rounds true
      and_go l (λ next. pure (goes_on (elim next [ none ↦ some 3 | some idle ↦ none ])))

    -- `healthd_main`, for so many rounds of the loop; the result is the exit status, once the loop
    -- is left. `healthd_mode_ops` is null where `has_battery_update` is false.
    unfoldable pub healthd_main : ℕ → Code W (Outcome (Option ℕ))
    healthd_main rounds = do
      ready ← reading (λ p. p.has_battery_update)
      if not ready then pure (exited 1) else do r ← healthd_init; and_go r (λ ret. enter rounds ret)
