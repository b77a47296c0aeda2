-- ===== src/HealthService/Registered.antt =====
-- Who is registered after a run of the health service, from the requests that it received.
use android_device_xenvm.Base.{
  ℕ, ◌≡◌, refl, inl, inr, ◌∙◌, ap, ℤ, true, false, not, List, [], ◌∷◌, ◌++◌, arith, Runs,
  weaken-Runs, then-Runs, bind-Runs, if-Runs,
}
use android_device_xenvm.Health.Types.{Call, Process, System, Callback}
use android_device_xenvm.Health.Registry.{IsIdentity, is_registered, wanted}
use android_device_xenvm.Healthd.Main.{enter, healthd_main}
use android_device_xenvm.HealthService.{handle_binder, healthd_mode_service_2_0_ops, main}
use android_device_xenvm.HealthService.Stable.{Condition, Stays, done, look, bind, cond}
use android_device_xenvm.HealthService.Opening.{
  IsOpening, IsOpen, put, and_go-Stays, healthd_init-Stays,
}
use android_device_xenvm.HealthService.Received.{
  requested, requested-append, requested-Unpolled, IsUnpolled,
}
use android_device_xenvm.HealthService.InStep.{Agreed, mainloop-Stays}

-- Before the loop: nobody is registered and no request has come in.
abbrev Unasked : {W : Type 0} → Condition W
Unasked h p = (p.callbacks ≡ []) × (requested h ≡ [])

opening_lem : (c : Call) → IsOpening c → IsUnpolled c
opening_lem c k = ground arith

Unasked-IsOpen : {W : Type 0} → IsOpen (Unasked {W = W})
Unasked-IsOpen = record {
  opening = λ {h} {p} c w k (none_yet, no_request). (
    none_yet,
    requested-append h (c ∷ [])
        ∙ ap (λ rs. rs ++ requested (c ∷ [])) no_request
        ∙ requested-Unpolled (c ∷ []) (opening_lem c k, tt),
  );
  setting = λ {h} {p} p' same kept (none_yet, no_request).
      ((elim kept [ inl e ↦ e ∙ none_yet | inr e ↦ e ]), no_request);
}

module _ {W : Type 0} (sys : System W) (identity : IsIdentity sys) (c : Callback) where
  -- What holds at the end of a run.
  abbrev AtEnd : {A : Type 0} → A → Condition W
  AtEnd a = Agreed sys c false

  -- With nobody registered and no request, the two agree.
  agree : (h : List Call) (p : Process W) → Unasked h p → Agreed sys c false h p
  agree h p (none_yet, no_request) = rw (none_yet, no_request) refl

  enter-Stays :
      (rounds : ℕ) (ret : ℤ)
      → Stays
          (Agreed sys c false)
          (enter sys (healthd_mode_service_2_0_ops sys) (handle_binder sys) rounds ret)
  unfolding enter
  enter-Stays rounds ret =
      let K = Agreed sys c false in
      cond K _ (done K _) (
        bind K (mainloop-Stays sys c false identity rounds true)
          λ l. and_go-Stays K l _ λ next. done K _)

  healthd_main-Agreed :
      (rounds : ℕ)
      → Runs Unasked AtEnd
          (healthd_main sys (healthd_mode_service_2_0_ops sys) (handle_binder sys) rounds)
  unfolding healthd_main
  healthd_main-Agreed rounds =
      let K = Agreed sys c false in
      bind-Runs Unasked (λ _. Unasked) AtEnd (look Unasked _)
        λ ready.
          if-Runs Unasked AtEnd (not ready) (λ _. weaken-Runs agree (λ a h p k. k) (done K _))
            λ _.
              bind-Runs Unasked (λ _. Unasked) AtEnd (healthd_init-Stays sys Unasked-IsOpen)
                λ r. weaken-Runs agree (λ a h p k. k) (and_go-Stays K r _ (enter-Stays rounds))

  main-Agreed : (rounds : ℕ) → Runs Unasked AtEnd (main sys rounds)
  unfolding main
  main-Agreed rounds =
      then-Runs Unasked Unasked AtEnd (put sys Unasked-IsOpen _ λ p. (refl, inl refl)) (
        then-Runs Unasked Unasked AtEnd (put sys Unasked-IsOpen _ λ p. (refl, inl refl))
          (healthd_main-Agreed rounds))

  -- Where nobody is registered when `main` starts and binder tells equal interfaces apart from
  -- others, a client is registered after any number of rounds exactly where the requests that were
  -- received in the run say so: where its last registration was not followed by an unregistration
  -- or by the death of its interface. The end of the process by an error is included.
  pub main-wanted :
      (rounds : ℕ) (p : Process W)
      → p.callbacks ≡ []
      → is_registered sys c (main sys rounds p).state.callbacks
        ≡ wanted sys c (requested (main sys rounds p).trace) false
  main-wanted rounds p none_yet = (main-Agreed rounds).at [] p (none_yet, refl)
