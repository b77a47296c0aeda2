-- ===== src/HealthService/Steady.antt =====
-- The health service from `main` on: how it waits, and whom it tells.
use android_device_xenvm.Base.{ℕ, [], All}
use android_device_xenvm.Health.Types.{Process, System}
use android_device_xenvm.HealthService.{main}
use android_device_xenvm.HealthService.Calm.{main-Stays}
use android_device_xenvm.HealthService.Quiet.{Waits, IsSilent, Silent-IsCalm}

module _ {W : Type 0} (sys : System W) where
  -- However many rounds the service runs, and whatever its clients ask and the world answers: if
  -- `awake_poll_interval` is -1 at the start it is -1 at the end, every `epoll_wait` of the run
  -- is called with timeout -1, and no registered callback is told a health report.
  pub main-IsSilent :
      (rounds : ℕ) (p : Process W)
      → Waits p
      → let r = main sys rounds p in Waits r.state × All IsSilent r.trace
  main-IsSilent rounds p w = (main-Stays sys Silent-IsCalm rounds).at [] p (w, tt)
