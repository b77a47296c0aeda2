-- ===== src/HealthService/Opening.antt =====
-- The start of the health service keeps a condition that its calls and its variables keep.
use android_device_xenvm.Base.{
  ◌≡◌, refl, ◌⊎◌, inl, inr, ℤ, Bool, List, [], ◌∷◌, ◌++◌, change, ask-Runs,
}
use android_device_xenvm.Health.Types.{Call, Process, System, Handler, Code, ask_world}
use android_device_xenvm.Health.Methods.{init_instance, new_health}
use android_device_xenvm.Healthd.Wakealarm.{healthd_register_event, wakealarm_set_interval}
use android_device_xenvm.Healthd.Main.{
  Outcome, goes_on, aborted, exited, out_of_bounds, and_go, uevent_init, wakealarm_init,
  healthd_init,
}
use android_device_xenvm.HealthService.{
  handle_binder, healthd_mode_service_2_0_init, healthd_mode_service_2_0_ops,
}
use android_device_xenvm.HealthService.Stable.{Condition, Stays, done, look, set, bind, seq, cond}

-- The calls of the start: no client is called or heard, nothing is waited for and no lock is taken.
abbrev pub IsOpening : Call → Type 0
IsOpening Call.locked = ⊥
IsOpening Call.unlocked = ⊥
IsOpening (Call.linked c) = ⊥
IsOpening (Call.unlinked c) = ⊥
IsOpening (Call.notified c info t) = ⊥
IsOpening (Call.epoll_waited n timeout answer) = ⊥
IsOpening (Call.polled rs) = ⊥
IsOpening c = Unit {0}

-- Code of the start leaves `awake_poll_interval` as it is, and the list of callbacks but where it
-- makes it empty.
pub record IsOpen {W : Type 0} (K : Condition W) : Type 1 where
  pub opening :
      {h : List Call} {p : Process W} (c : Call) (w : W)
      → IsOpening c
      → K h p
      → K (h ++ (c ∷ [])) (record p { world = w })
  pub setting :
      {h : List Call} {p : Process W} (p' : Process W)
      → p'.awake_poll_interval ≡ p.awake_poll_interval
      → (p'.callbacks ≡ p.callbacks) ⊎ (p'.callbacks ≡ [])
      → K h p
      → K h p'

-- What comes next is run where the process goes on.
pub and_go-Stays :
    {W : Type 0} (K : Condition W) {A B : Type 0} (r : Outcome A) (next : A → Code W (Outcome B))
    → ((a : A) → Stays K (next a))
    → Stays K (and_go r next)
unfolding and_go
and_go-Stays K (goes_on a) next h = h a
and_go-Stays K aborted next h = done K _
and_go-Stays K (exited n) next h = done K _
and_go-Stays K out_of_bounds next h = done K _

module _ {W : Type 0} (sys : System W) {K : Condition W} (open_to : IsOpen K) where
  hear :
      {A : Type 0} (reply : W → A × W) (record_of : A → Call)
      → ((a : A) → IsOpening (record_of a))
      → Stays K (ask_world reply record_of)
  unfolding ask_world
  hear reply record_of k =
      ask-Runs K (λ _. K) _ record_of
        λ h p j.
          open_to.opening (record_of (reply p.world).0) (reply p.world).1 (k (reply p.world).0) j

  pub put :
      (f : Process W → Process W)
      → ((p : Process W)
          → ((f p).awake_poll_interval ≡ p.awake_poll_interval)
            × (((f p).callbacks ≡ p.callbacks) ⊎ ((f p).callbacks ≡ [])))
      → Stays K (change f)
  put f same = set K f λ h p j. open_to.setting (f p) (same p).0 (same p).1 j

  wakealarm_set_interval-Stays : (i : ℤ) → Stays K (wakealarm_set_interval sys i)
  unfolding wakealarm_set_interval
  wakealarm_set_interval-Stays i = bind K (look K _) λ fd.
      cond K _ (done K tt)
        (seq K (put _ λ p. (refl, inl refl)) (seq K (hear _ _ λ a. tt) (done K tt)))

  healthd_register_event-Stays :
      (fd : ℤ) (h : Handler) (wakeup : Bool) → Stays K (healthd_register_event sys fd h wakeup)
  unfolding healthd_register_event
  healthd_register_event-Stays fd h wakeup = bind K (look K _) λ epollfd.
      bind K (hear _ _ λ a. tt)
        λ r. cond K _ (done K _) (seq K (put _ λ p. (refl, inl refl)) (done K _))

  uevent_init-Stays : Stays K (uevent_init sys)
  unfolding uevent_init
  uevent_init-Stays = bind K (hear _ _ λ a. tt) λ fd.
      seq K (put _ λ p. (refl, inl refl))
        (cond K _ (done K tt) (seq K (healthd_register_event-Stays _ _ _) (done K tt)))

  wakealarm_init-Stays : Stays K (wakealarm_init sys)
  unfolding wakealarm_init
  wakealarm_init-Stays = bind K (hear _ _ λ a. tt) λ fd. seq K (put _ λ p. (refl, inl refl)) (
      cond K _ (done K tt) (
        seq K (healthd_register_event-Stays _ _ _)
          (bind K (look K _) λ fast. wakealarm_set_interval-Stays fast)))

  init_instance-Stays : Stays K (init_instance sys)
  unfolding init_instance new_health
  init_instance-Stays = bind K (look K _) λ present.
      cond K _ (done K tt) (
        bind K (look K _)
          λ config. bind K (hear _ _ λ a. tt) λ config'. put _ λ p. (refl, inr refl))

  mode_init-Stays : Stays K (healthd_mode_service_2_0_init sys)
  unfolding healthd_mode_service_2_0_init
  mode_init-Stays = bind K (hear _ _ λ a. tt) λ fd. seq K (put _ λ p. (refl, inl refl)) (
      seq K (cond K _ (done K tt) (seq K (healthd_register_event-Stays _ _ _) (done K tt))) (
        seq K init_instance-Stays
          (bind K (look K _) λ name. bind K (hear _ _ λ a. tt) λ ok. done K _)))

  pub healthd_init-Stays :
      Stays K (healthd_init sys (healthd_mode_service_2_0_ops sys) (handle_binder sys))
  unfolding healthd_init healthd_mode_service_2_0_ops
  healthd_init-Stays = bind K (hear _ _ λ a. tt) λ fd. seq K (put _ λ p. (refl, inl refl)) (
      cond K _ (done K _) (
        bind K mode_init-Stays λ r.
          and_go-Stays K r _ λ _. seq K (seq K wakealarm_init-Stays uevent_init-Stays) (done K _)))
