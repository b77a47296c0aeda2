-- ===== src/HealthService/InStep.antt =====
-- The loop of the health service keeps a client's registration in step with the requests so far.
use android_device_xenvm.Base.{
  ℕ, zero, suc, ◌≡◌, refl, ◌∙◌, ap, sym, ℤ, Bool, true, false, Option, none, some, List, [], ◌∷◌,
  ◌++◌, append-nil, pure, ask, ◌>>=◌, ◌>>◌, Always,
}
use android_device_xenvm.Health.Types.{
  Call, Process, System, Handler, Request, Callback, Code, ask_world, Waited, interrupted,
  wait_failed, events, uevent_event, wakealarm_event, binder_event,
}
use android_device_xenvm.Health.Methods
use android_device_xenvm.Health.Methods.{init_instance, new_health, get_implementation}
use android_device_xenvm.Health.Registry.{
  IsIdentity, is_registered, wanted, update-callbacks, serve_all-wanted,
}
use android_device_xenvm.Healthd.Main.{
  Outcome, goes_on, healthd_battery_update, periodic_chores, on_uevent, handle_uevent,
  handle_wakealarm, handle, handle_all, after_wait, loop_round, go_on, healthd_mainloop,
}
use android_device_xenvm.HealthService.{
  serve_all, handle_binder, healthd_mode_service_2_0_ops, healthd_mode_service_2_0_preparetowait,
  healthd_mode_service_2_0_heartbeat,
}
use android_device_xenvm.HealthService.Stable.{Condition, Stays, done, look, bind, seq, cond}
use android_device_xenvm.HealthService.Opening.{and_go-Stays}
use android_device_xenvm.HealthService.Received.{
  requested, requested-append, requested-Unpolled, IsUnpolled, update-Unpolled, serve_all-Unpolled,
}

module _ {W : Type 0} (sys : System W) (c : Callback) (before : Bool) where
  wanted-append :
      (xs ys : List Request) (b : Bool)
      → wanted sys c (xs ++ ys) b ≡ wanted sys c ys (wanted sys c xs b)
  wanted-append [] ys b = refl
  wanted-append (x ∷ xs) ys b = wanted-append xs ys _

  -- The client is registered exactly where the requests so far say so.
  abbrev pub Agreed : Condition W
  Agreed h p = is_registered sys c p.callbacks ≡ wanted sys c (requested h) before

  -- Code that takes in no request and leaves the callbacks alone.
  quiet :
      {A : Type 0} {m : Code W A}
      → Always IsUnpolled m
      → ((p : Process W) → (m p).state.callbacks ≡ p.callbacks)
      → Stays Agreed m
  quiet {m} unpolled same = record {
    at = λ h p k.
        rw (same p, requested-append h, requested-Unpolled (m p).trace (unpolled.at p), append-nil)
          k;
  }

  hear :
      {A : Type 0} (reply : W → A × W) (record_of : A → Call)
      → ((a : A) → IsUnpolled (record_of a))
      → Stays Agreed (ask_world reply record_of)
  unfolding ask_world ask
  hear reply record_of k = quiet (record { at = λ p. (k (reply p.world).0, tt) }) λ p. refl

  update-Stays : Stays Agreed (Methods.update sys)
  update-Stays = quiet (update-Unpolled sys) (update-callbacks sys)

  healthd_battery_update-Stays : Stays Agreed (healthd_battery_update sys)
  unfolding healthd_battery_update get_implementation
  healthd_battery_update-Stays =
      bind Agreed (look Agreed _)
        λ present. cond Agreed present (seq Agreed update-Stays (done Agreed _)) (done Agreed _)

  on_uevent-Stays : (wanted : Option Bool) → Stays Agreed (on_uevent sys wanted)
  unfolding on_uevent
  on_uevent-Stays none = done Agreed _
  on_uevent-Stays (some true) = healthd_battery_update-Stays
  on_uevent-Stays (some false) = done Agreed _

  module _ (identity : IsIdentity sys) where
    -- The requests of a poll are served before anything else is done.
    polled-Stays :
        (fd : ℤ)
        → Stays Agreed (
            ask_world (sys.transport_requests fd) Call.polled >>= λ requests.
            (serve_all sys requests >> pure (goes_on tt)))
    unfolding ask_world ask ◌>>=◌ ◌>>◌ pure
    polled-Stays fd = record {
      at = λ h p k.
          let reply = sys.transport_requests fd p.world in
          let p' : Process W = record p { world = reply.1 } in
          let t = (serve_all sys reply.0 p').trace in
          let none_more = requested-Unpolled t ((serve_all-Unpolled sys reply.0).at p') in
          serve_all-wanted sys identity c reply.0 p'
          ∙ ap (wanted sys c reply.0) k
          ∙ sym (wanted-append (requested h) reply.0 before)
          ∙ ap (λ xs. wanted sys c xs before)
              (sym (
                requested-append h _
                ∙ ap (λ xs. requested h ++ (reply.0 ++ xs)) (rw append-nil none_more)
                ∙ ap (λ xs. requested h ++ xs) (append-nil reply.0)));
    }

    handle_binder-Stays : Stays Agreed (handle_binder sys)
    unfolding handle_binder
    handle_binder-Stays =
        bind Agreed (look Agreed _) λ fd. cond Agreed _ (done Agreed _) (polled-Stays fd)

    handle-Stays :
        (handler : Handler)
        → Stays Agreed (handle sys (healthd_mode_service_2_0_ops sys) (handle_binder sys) handler)
    unfolding handle handle_uevent handle_wakealarm periodic_chores
    handle-Stays uevent_event =
        bind Agreed (look Agreed _) λ fd. bind Agreed (hear _ _ λ a. tt) λ reply. on_uevent-Stays _
    handle-Stays wakealarm_event = bind Agreed (look Agreed _) λ fd.
        bind Agreed (hear _ _ λ a. tt)
          λ result. cond Agreed _ (done Agreed _) healthd_battery_update-Stays
    handle-Stays binder_event = handle_binder-Stays

    handle_all-Stays :
        (es : List (Option Handler))
        → Stays Agreed (handle_all sys (healthd_mode_service_2_0_ops sys) (handle_binder sys) es)
    unfolding handle_all
    handle_all-Stays [] = done Agreed _
    handle_all-Stays (none ∷ es) = handle_all-Stays es
    handle_all-Stays (some e ∷ es) =
        bind Agreed (handle-Stays e) λ r. and_go-Stays Agreed r _ λ _. handle_all-Stays es

    after_wait-Stays :
        (w : Waited)
        → Stays Agreed (after_wait sys (healthd_mode_service_2_0_ops sys) (handle_binder sys) w)
    unfolding after_wait
    after_wait-Stays interrupted = done Agreed _
    after_wait-Stays wait_failed = done Agreed _
    after_wait-Stays (events []) = done Agreed _
    after_wait-Stays (events (e ∷ es)) =
        bind Agreed (handle_all-Stays (e ∷ es)) λ r. and_go-Stays Agreed r _ λ _. done Agreed _

    loop_round-Stays :
        (idle : Bool)
        → Stays Agreed (loop_round sys (healthd_mode_service_2_0_ops sys) (handle_binder sys) idle)
    unfolding loop_round periodic_chores healthd_mode_service_2_0_ops
        healthd_mode_service_2_0_preparetowait healthd_mode_service_2_0_heartbeat
    loop_round-Stays idle = bind Agreed (look Agreed _) λ count.
        bind Agreed (look Agreed _) λ timeout.
          bind Agreed (cond Agreed idle healthd_battery_update-Stays (done Agreed _)) λ chores.
            and_go-Stays Agreed chores _ λ _. seq Agreed (done Agreed tt) (
              bind Agreed (done Agreed _)
                λ mode_timeout. bind Agreed (hear _ _ λ a. tt) λ w. after_wait-Stays w)

    go_on-Stays :
        (next : Option Bool) (loop : Bool → Code W (Outcome (Option Bool)))
        → ((idle : Bool) → Stays Agreed (loop idle))
        → Stays Agreed (go_on sys (healthd_mode_service_2_0_ops sys) (handle_binder sys) next loop)
    unfolding go_on
    go_on-Stays none loop k = done Agreed _
    go_on-Stays (some idle) loop k = k idle

    pub mainloop-Stays :
        (rounds : ℕ) (idle : Bool)
        → Stays Agreed (
            healthd_mainloop sys (healthd_mode_service_2_0_ops sys) (handle_binder sys) rounds idle)
    unfolding healthd_mainloop
    mainloop-Stays zero idle = done Agreed _
    mainloop-Stays (suc rounds) idle =
        bind Agreed (loop_round-Stays idle) λ r.
          and_go-Stays Agreed r _ λ next. go_on-Stays next _ λ idle'. mainloop-Stays rounds idle'
