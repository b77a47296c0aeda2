-- ===== src/Health/Callbacks.antt =====
-- health/Health.cpp: who is in `callbacks_` after each method, and who is told what.
use mathlib.Core.Path.{subst}
use android_device_xenvm.Base.{
  ◌≡◌, refl, ap, sym, ◌∙◌, false, Option, none, some, List, [], ◌∷◌, ◌++◌, append-nil, arith, pure,
  ask, reading, change, ◌>>=◌, ◌>>◌, All, All-append, any, if◌then◌else◌,
}
use android_device_xenvm.Health.Types.{
  success, unknown, not_found, HealthInfo, Callback, Transport, arrived, dead_object, failed,
  System, Call, Process, ask_world,
}
use android_device_xenvm.Healthd.Wakealarm.{healthd_battery_update_internal, wakealarm_set_interval}
use android_device_xenvm.Health.Methods.{
  update, register_callback, erase_equal, unregister_callback_internal, unregister_callback,
  keep_alive, notify_all, notify_listeners, monitor_average, legacy_info, current_average,
  get_disk_stats, get_storage_info,
}

module _ {W : Type 0} (sys : System W) where
  -- The list without the entries that are the same interface as the callback, in order.
  abbrev pub others : Callback → List Callback → List Callback
  others c [] = []
  others c (x ∷ xs) = if sys.interfaces_equal x c then others c xs else (x ∷ others c xs)

  erase_equal_lem :
      (c : Callback) (xs : List Callback)
      → erase_equal sys c xs ≡ (others c xs, any (λ x. sys.interfaces_equal x c) xs)
  unfolding erase_equal
  erase_equal_lem c [] = refl
  erase_equal_lem c (x ∷ xs) = ground (arith, erase_equal_lem c xs)

  -- None of the entries that stay is the same interface as the callback.
  others-different :
      (c : Callback) (xs : List Callback)
      → any (λ x. sys.interfaces_equal x c) (others c xs) ≡ false
  others-different c [] = refl
  others-different c (x ∷ xs) = ground (arith, others-different c xs)

  -- `unregisterCallback` on a callback that is not null erases just its registrations, keeping
  -- the order of the others, and answers SUCCESS if there was one, else NOT_FOUND; a second call
  -- right after it answers NOT_FOUND.
  pub unregister_callback_lem :
      (c : Callback) (p : Process W)
      → let r = unregister_callback sys (some c) p in
        (r.state.callbacks ≡ others c p.callbacks)
        × (r.value
            ≡ (if any (λ x. sys.interfaces_equal x c) p.callbacks then success else not_found))
        × ((unregister_callback sys (some c) r.state).value ≡ not_found)
  unfolding unregister_callback unregister_callback_internal ◌>>=◌ ◌>>◌ reading change ask_world ask
      pure
  unregister_callback_lem c p = (
    ap (λ e. e.0) (erase_equal_lem c p.callbacks),
    ap (λ e. if e.1 then success else not_found) (erase_equal_lem c p.callbacks),
    ap (λ e. if e.1 then success else not_found)
          (ap (erase_equal sys c) (ap (λ e. e.0) (erase_equal_lem c p.callbacks))
            ∙ erase_equal_lem c (others c p.callbacks))
        ∙ ap (λ b. if b then success else not_found) (others-different c p.callbacks),
  )

  -- `registerCallback` stores a callback that is not null behind the others, also where the
  -- update that follows is refused; it then answers UNKNOWN if `healthd_mode_ops` is not ready,
  -- else SUCCESS. A null callback changes no registration and gets SUCCESS.
  pub register_callback_lem :
      (callback : Option Callback) (p : Process W)
      → let r = register_callback sys callback p in
        (r.state.callbacks ≡ p.callbacks ++ elim callback [ none ↦ [] | some c ↦ c ∷ [] ])
        × (r.value ≡ elim callback [
          | none ↦ success
          | some c ↦ if p.has_battery_update then success else unknown
        ])
  unfolding register_callback update healthd_battery_update_internal wakealarm_set_interval ◌>>=◌
      ◌>>◌ reading change ask_world ask pure
  register_callback_lem none p = (sym (append-nil p.callbacks), refl)
  register_callback_lem (some c) p = ground arith

-- The callbacks that a trace tells, and those that answered other than as dead objects.
abbrev pub told : List Call → List Callback
told [] = []
told (Call.notified c info t ∷ cs) = c ∷ told cs
told (c ∷ cs) = told cs

abbrev pub alive : List Call → List Callback
alive [] = []
alive (Call.notified c info dead_object ∷ cs) = alive cs
alive (Call.notified c info t ∷ cs) = c ∷ alive cs
alive (c ∷ cs) = alive cs

-- Each call that tells a callback carries this report.
abbrev pub Tells : HealthInfo → Call → Type 0
Tells info (Call.notified c i t) = i ≡ info
Tells info c = Unit {0}

-- A trace that tells the callbacks of a list, each once and in order, this report; `left` are those
-- of them that were not dead.
abbrev pub Tellings : HealthInfo → List Callback → List Callback → List Call → Type 0
Tellings info cs left trace = (told trace ≡ cs) × (left ≡ alive trace) × All (Tells info) trace

pub told-append : (xs ys : List Call) → told (xs ++ ys) ≡ told xs ++ told ys
told-append [] ys = refl
told-append (x ∷ xs) ys = ground (arith, told-append xs ys)

module _ {W : Type 0} (sys : System W) where
  alive-cons :
      (t : Transport) (c : Callback) (info : HealthInfo) (trace : List Call)
      → keep_alive sys t c (alive trace) ≡ alive (Call.notified c info t ∷ trace)
  unfolding keep_alive
  alive-cons arrived c info trace = refl
  alive-cons dead_object c info trace = refl
  alive-cons failed c info trace = refl

  notify_all_lem :
      (info : HealthInfo) (cs : List Callback) (p : Process W)
      → let r = notify_all sys info cs p in Tellings info cs r.value r.trace
  unfolding notify_all ◌>>=◌ ask_world ask pure
  notify_all_lem info [] p = (refl, refl, tt)
  notify_all_lem info (c ∷ cs) p =
      let reply = sys.health_info_changed c info p.world in
      let rest = notify_all sys info cs (record p { world = reply.1 }) in
      let (t, v, a) =
        subst (Tellings info cs rest.value) (sym (append-nil rest.trace))
          (notify_all_lem info cs (record p { world = reply.1 })) in
      (ap (◌∷◌ c) t, ap (keep_alive sys reply.0 c) v ∙ alive-cons reply.0 c info _, (refl, a))

  -- A call at the end that tells nobody.
  told-last : (trace : List Call) → told (trace ++ (Call.unlocked ∷ [])) ≡ told trace
  told-last [] = refl
  told-last (c ∷ trace) = ground (arith, told-last trace)

  alive-last : (trace : List Call) → alive (trace ++ (Call.unlocked ∷ [])) ≡ alive trace
  alive-last [] = refl
  alive-last (c ∷ trace) = ground (arith, alive-last trace)

  Tellings-last :
      (info : HealthInfo) (cs left : List Callback) (trace : List Call)
      → Tellings info cs left trace
      → Tellings info cs left (trace ++ (Call.unlocked ∷ []))
  Tellings-last info cs left trace (t, v, a) = (
    told-last trace ∙ t,
    v ∙ sym (alive-last trace),
    All-append (Tells info) trace (Call.unlocked ∷ []) a (tt, tt),
  )

  -- `notifyListeners` tells every registered callback, once for each registration and in order,
  -- the one report that it returns; afterwards `callbacks_` holds those that did not answer as
  -- dead objects, in order.
  pub notify_listeners_lem :
      (p : Process W)
      → let r = notify_listeners sys p in Tellings r.value p.callbacks r.state.callbacks r.trace
  unfolding notify_listeners monitor_average ◌>>=◌ ◌>>◌ reading change ask_world ask pure
  notify_listeners_lem p =
      let info : HealthInfo = record {
        legacy = legacy_info;
        battery_current_average = current_average (sys.monitor_current_average p.world).0;
        disk_stats = get_disk_stats [];
        storage_infos = get_storage_info [];
      } in
      let p' : Process W = record p { world = (sys.monitor_current_average p.world).1 } in
      let run = notify_all sys info p.callbacks p' in
      let (t, v, a) =
        Tellings-last info p.callbacks run.value run.trace (notify_all_lem info p.callbacks p') in
      (t, v, (tt, (tt, a)))
