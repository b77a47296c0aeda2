-- ===== src/HealthService.antt =====
-- health/HealthServiceCommon.cpp: the binder event, the mode's operations, and `main`.
pub mod Stable
pub mod Serving
pub mod Handlers
pub mod Rounds
pub mod Books
pub mod Looping
pub mod Starting
pub mod Arming
pub mod Opening
pub mod Calm
pub mod Guarded
pub mod Received
pub mod InStep
pub mod Registered
pub mod Quiet
pub mod Steady
pub mod Ending
use Prim.Native.String.{len}
use android_device_xenvm.Base.{
  ℕ, ℤ, pos, ltb_ℤ, true, false, Option, List, [], ◌∷◌, pure, reading, change, ◌>>=◌, ◌>>◌,
  if◌then◌else◌, ◌==◌,
}
use android_device_xenvm.Health.Types.{
  HealthInfo, binder_event, Request, System, Call, Code, ask_world,
}
use android_device_xenvm.Health.Interface.{health}
use android_device_xenvm.Health.Methods.{init_instance, get_implementation}
use android_device_xenvm.Healthd.Wakealarm.{healthd_register_event, minus_one}
use android_device_xenvm.Healthd.Main.{Outcome, goes_on, aborted, ModeOps, healthd_main}

module _ {W : Type 0} (sys : System W) where
  -- What binder calls for a client's request.
  unfoldable pub serve : Request → Code W (Unit {0})
  serve (Request.register callback) = (health sys).register_callback callback >> pure tt
  serve (Request.unregister callback) = (health sys).unregister_callback callback >> pure tt
  serve Request.update = (health sys).update >> pure tt
  serve Request.get_health_info = (health sys).get_health_info >> pure tt
  serve Request.read = pure tt
  serve (Request.debug handle) = (health sys).debug handle
  serve (Request.service_died who) = (health sys).service_died who

  unfoldable pub serve_all : List Request → Code W (Unit {0})
  unfolding serve
  serve_all [] = pure tt
  serve_all (r ∷ rs) = serve r >> serve_all rs

  -- `binder_event`; `handleTransportPoll` serves the requests that came in.
  unfoldable pub handle_binder : Code W (Outcome (Unit {0}))
  unfolding serve_all
  handle_binder = do
    fd ← reading (λ p. p.binder_fd)
    if ltb_ℤ fd (pos 0) then pure (goes_on tt) else do
      requests ← ask_world (sys.transport_requests fd) Call.polled
      serve_all requests
      pure (goes_on tt)

  unfoldable pub healthd_mode_service_2_0_init : Code W (Outcome (Unit {0}))
  healthd_mode_service_2_0_init = do
    fd ← ask_world sys.setup_transport_polling Call.polling_set_up
    change (λ p. record p { binder_fd = fd })
    if ltb_ℤ fd (pos 0)
        then pure tt
        else (healthd_register_event sys fd binder_event false >> pure tt)
    init_instance sys
    name ← reading (λ p. p.instance_name)
    ok ← ask_world (sys.register_as_service name) (Call.service_registered name)
    pure (if ok then goes_on tt else aborted)

  unfoldable pub healthd_mode_service_2_0_preparetowait : Code W ℤ
  healthd_mode_service_2_0_preparetowait = pure minus_one

  unfoldable pub healthd_mode_service_2_0_heartbeat : Code W (Unit {0})
  healthd_mode_service_2_0_heartbeat = pure tt

  -- The report that `convertToHealthInfo` starts is overwritten by `notifyListeners`.
  unfoldable pub healthd_mode_service_2_0_battery_update : Code W (Outcome HealthInfo)
  healthd_mode_service_2_0_battery_update = do
    present ← get_implementation sys
    if present then (do info ← (health sys).notify_listeners; pure (goes_on info)) else pure aborted

  unfoldable pub healthd_mode_service_2_0_ops : ModeOps W
  unfolding healthd_mode_service_2_0_init healthd_mode_service_2_0_preparetowait
      healthd_mode_service_2_0_heartbeat
  healthd_mode_service_2_0_ops = record {
    init = healthd_mode_service_2_0_init;
    preparetowait = healthd_mode_service_2_0_preparetowait;
    heartbeat = healthd_mode_service_2_0_heartbeat;
  }

  -- `main`, for so many rounds of the loop.
  unfoldable pub main : ℕ → Code W (Outcome (Option ℕ))
  unfolding healthd_mode_service_2_0_ops handle_binder
  main rounds = do
    change (λ p. record p {
      instance_name = if len p.instance_name == 0 then "default" else p.instance_name;
    })
    change (λ p. record p { has_battery_update = true })
    healthd_main sys healthd_mode_service_2_0_ops handle_binder rounds
