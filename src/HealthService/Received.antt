-- ===== src/HealthService/Received.antt =====
-- The requests that binder hands to the service in a run, and that no method takes in others.
use android_device_xenvm.Base.{
  ◌≡◌, refl, ◌∙◌, ap, sym, ℤ, eq_ℤ, not, Option, none, some, List, [], ◌∷◌, ◌++◌, append_assoc,
  arith, reading, change, All, Always, pure-Always, ask-Always, bind-Always, then-Always, if-Always,
}
use android_device_xenvm.Health.Types.{
  Call, Process, System, Request, Callback, ask_world, Result, HealthInfo, success, not_supported,
  unknown, not_found,
}
use android_device_xenvm.Health.Methods
use android_device_xenvm.Healthd.Wakealarm.{
  minus_one, wakealarm_set_interval, healthd_battery_update_internal,
}
use android_device_xenvm.HealthService.{serve, serve_all}

-- The requests of a poll, and those of all polls, in order.
abbrev pub requests_of : Call → List Request
requests_of (Call.polled rs) = rs
requests_of c = []

abbrev pub requested : List Call → List Request
requested [] = []
requested (c ∷ cs) = requests_of c ++ requested cs

pub requested-append : (xs ys : List Call) → requested (xs ++ ys) ≡ requested xs ++ requested ys
requested-append [] ys = refl
requested-append (c ∷ xs) ys =
    ap (λ rs. requests_of c ++ rs) (requested-append xs ys) ∙ sym (append_assoc (requests_of c) _ _)

-- A call that takes in no request.
abbrev pub IsUnpolled : Call → Type 0
IsUnpolled (Call.polled rs) = ⊥
IsUnpolled c = Unit {0}

unpolled_lem : (c : Call) → IsUnpolled c → requests_of c ≡ []
unpolled_lem c k = ground arith

pub requested-Unpolled : (cs : List Call) → All IsUnpolled cs → requested cs ≡ []
requested-Unpolled [] k = refl
requested-Unpolled (c ∷ cs) k = rw (unpolled_lem c k.0) (requested-Unpolled cs k.1)

module _ {W : Type 0} where
  ask_world-Unpolled :
      {A : Type 0} (reply : W → A × W) (record_of : A → Call)
      → ((a : A) → IsUnpolled (record_of a))
      → Always IsUnpolled (ask_world reply record_of)
  unfolding ask_world
  ask_world-Unpolled reply record_of k = ask-Always IsUnpolled _ record_of k

  look : {A : Type 0} (f : Process W → A) → Always IsUnpolled (reading f)
  unfolding reading
  look f = record { at = λ p. tt }

  set : (f : Process W → Process W) → Always IsUnpolled (change f)
  unfolding change
  set f = record { at = λ p. tt }

module _ {W : Type 0} (sys : System W) where
  interval-Unpolled : (i : ℤ) → Always IsUnpolled (wakealarm_set_interval sys i)
  unfolding wakealarm_set_interval
  interval-Unpolled i =
      let P = IsUnpolled in
      bind-Always P (look _) λ fd.
        if-Always P (eq_ℤ fd minus_one) (λ _. pure-Always P tt)
          λ _.
            then-Always P (set _)
              (then-Always P (ask_world-Unpolled _ _ λ a. tt) (pure-Always P tt))

  pub update-Unpolled : Always IsUnpolled (Methods.update sys)
  unfolding Methods.update healthd_battery_update_internal
  update-Unpolled =
      let P = IsUnpolled in
      bind-Always P (look _) λ ready.
        if-Always P (not ready) (λ _. pure-Always P _)
          λ _.
            then-Always P
              (bind-Always P (look _) λ p.
                then-Always P
                  (if-Always P
                    (not (eq_ℤ p.config.periodic_chores_interval_fast p.wakealarm_wake_interval))
                    (λ _. interval-Unpolled _) (λ _. pure-Always P tt))
                  (set _))
              (pure-Always P _)

  get_health_info-Unpolled : Always IsUnpolled (Methods.get_health_info sys)
  unfolding Methods.get_health_info Methods.monitor_average
  get_health_info-Unpolled =
      let P = IsUnpolled in
      then-Always P update-Unpolled (
        bind-Always P (bind-Always P (ask_world-Unpolled _ _ λ a. tt) λ a. pure-Always P _)
          λ a. pure-Always P _)

  register-Unpolled : (c : Option Callback) → Always IsUnpolled (Methods.register_callback sys c)
  unfolding Methods.register_callback
  register-Unpolled none = pure-Always IsUnpolled _
  register-Unpolled (some c) =
      let P = IsUnpolled in
      then-Always P (ask-Always P _ _ λ a. tt) (
        then-Always P (set _) (
          then-Always P (ask-Always P _ _ λ a. tt)
            (then-Always P (ask_world-Unpolled _ _ λ a. tt) update-Unpolled)))

  unregister-Unpolled :
      (c : Option Callback) → Always IsUnpolled (Methods.unregister_callback_internal sys c)
  unfolding Methods.unregister_callback_internal
  unregister-Unpolled none = pure-Always IsUnpolled _
  unregister-Unpolled (some c) =
      let P = IsUnpolled in
      then-Always P (ask-Always P _ _ λ a. tt) (
        bind-Always P (look _) λ removed. then-Always P (set _) (
          then-Always P (ask_world-Unpolled _ _ λ a. tt)
            (then-Always P (ask-Always P _ _ λ a. tt) (pure-Always P removed))))

  written-Unpolled :
      (fd : ℤ) (result : Result) (info : HealthInfo)
      → IsUnpolled (Methods.written_result fd result info)
  written-Unpolled fd success info = tt
  written-Unpolled fd not_supported info = tt
  written-Unpolled fd unknown info = tt
  written-Unpolled fd not_found info = tt

  debug-Unpolled : (handle : Option (List ℤ)) → Always IsUnpolled (Methods.debug sys handle)
  unfolding Methods.debug
  debug-Unpolled none = pure-Always IsUnpolled tt
  debug-Unpolled (some []) = pure-Always IsUnpolled tt
  debug-Unpolled (some (fd ∷ fds)) =
      let P = IsUnpolled in
      then-Always P (ask-Always P _ _ λ a. tt) (
        bind-Always P get_health_info-Unpolled λ answer.
          then-Always P (ask-Always P _ _ λ a. written-Unpolled fd answer.0 answer.1)
            (ask-Always P _ _ λ a. tt))

  serve-Unpolled : (r : Request) → Always IsUnpolled (serve sys r)
  unfolding serve Methods.unregister_callback Methods.service_died
  serve-Unpolled (Request.register c) =
      then-Always IsUnpolled (register-Unpolled c) (pure-Always IsUnpolled tt)
  serve-Unpolled (Request.unregister c) =
      then-Always IsUnpolled
        (bind-Always IsUnpolled (unregister-Unpolled c) λ r. pure-Always IsUnpolled _)
        (pure-Always IsUnpolled tt)
  serve-Unpolled Request.update = then-Always IsUnpolled update-Unpolled (pure-Always IsUnpolled tt)
  serve-Unpolled Request.get_health_info =
      then-Always IsUnpolled get_health_info-Unpolled (pure-Always IsUnpolled tt)
  serve-Unpolled Request.read = pure-Always IsUnpolled tt
  serve-Unpolled (Request.debug handle) = debug-Unpolled handle
  serve-Unpolled (Request.service_died who) =
      then-Always IsUnpolled (unregister-Unpolled who) (pure-Always IsUnpolled tt)

  -- Serving requests takes in no others.
  pub serve_all-Unpolled : (rs : List Request) → Always IsUnpolled (serve_all sys rs)
  unfolding serve_all
  serve_all-Unpolled [] = pure-Always IsUnpolled tt
  serve_all-Unpolled (r ∷ rs) = then-Always IsUnpolled (serve-Unpolled r) (serve_all-Unpolled rs)
