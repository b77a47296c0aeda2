-- ===== src/Health/Registry.antt =====
-- health/Health.cpp: who is registered, as the clients see it.
use android_device_xenvm.Base.{
  ℤ, ◌≡◌, refl, ap, ◌∙◌, Bool, true, false, Option, none, some, List, [], ◌∷◌, ◌++◌, append-nil,
  arith, pure, ask, reading, change, ◌>>=◌, ◌>>◌, any, if◌then◌else◌,
}
use android_device_xenvm.Health.Types.{Result, Process, System, Callback, Request, ask_world}
use android_device_xenvm.Health.Methods.{
  update, register_callback, unregister_callback, unregister_callback_internal, service_died,
  get_health_info, debug, monitor_average, notify_listeners,
}
use android_device_xenvm.Health.Callbacks.{
  others, told, register_callback_lem, unregister_callback_lem, notify_listeners_lem,
}
use android_device_xenvm.Healthd.Wakealarm.{healthd_battery_update_internal, wakealarm_set_interval}
use android_device_xenvm.HealthService.{serve, serve_all}

-- What binder documents of `interfacesEqual`: two proxies of one interface are equal.
pub record IsIdentity {W : Type 0} (sys : System W) : Type 0 where
  pub same : (a : Callback) → sys.interfaces_equal a a ≡ true
  pub swap : (a b : Callback) → sys.interfaces_equal a b ≡ sys.interfaces_equal b a
  pub join :
      (a b c : Callback)
      → sys.interfaces_equal a b ≡ true
      → sys.interfaces_equal a c ≡ sys.interfaces_equal b c

module _ {W : Type 0} (sys : System W) where
  -- The abstract view: whether a client's interface is registered, and what a request makes of it.
  abbrev pub is_registered : Callback → List Callback → Bool
  is_registered c cs = any (λ x. sys.interfaces_equal x c) cs

  abbrev pub wanted_after : Callback → Request → Bool → Bool
  wanted_after c (Request.register (some d)) b = if sys.interfaces_equal d c then true else b
  wanted_after c (Request.unregister (some d)) b = if sys.interfaces_equal d c then false else b
  wanted_after c (Request.service_died (some d)) b = if sys.interfaces_equal d c then false else b
  wanted_after c _ b = b

  abbrev pub wanted : Callback → List Request → Bool → Bool
  wanted c [] b = b
  wanted c (r ∷ rs) b = wanted c rs (wanted_after c r b)

  -- What the methods leave in `callbacks_`.
  abbrev callbacks_after : Request → List Callback → List Callback
  callbacks_after (Request.register (some d)) cs = cs ++ (d ∷ [])
  callbacks_after (Request.unregister (some d)) cs = others sys d cs
  callbacks_after (Request.service_died (some d)) cs = others sys d cs
  callbacks_after _ cs = cs

  pub update-callbacks : (p : Process W) → (update sys p).state.callbacks ≡ p.callbacks
  unfolding update healthd_battery_update_internal wakealarm_set_interval ask_world ◌>>=◌ ◌>>◌
      reading change ask pure
  update-callbacks p = ground arith

  get_health_info-callbacks :
      (p : Process W) → (get_health_info sys p).state.callbacks ≡ p.callbacks
  unfolding get_health_info monitor_average ask_world ◌>>=◌ ◌>>◌ ask pure
  get_health_info-callbacks p = update-callbacks p

  debug-callbacks :
      (handle : Option (List ℤ)) (p : Process W)
      → (debug sys handle p).state.callbacks ≡ p.callbacks
  unfolding debug ◌>>=◌ ◌>>◌ ask pure
  debug-callbacks none p = refl
  debug-callbacks (some []) p = refl
  debug-callbacks (some (fd ∷ fds)) p = get_health_info-callbacks p

  serve-callbacks :
      (r : Request) (p : Process W)
      → (serve sys r p).state.callbacks ≡ callbacks_after r p.callbacks
  unfolding serve service_died unregister_callback unregister_callback_internal ◌>>=◌ ◌>>◌ pure
  serve-callbacks (Request.register none) p =
      (register_callback_lem sys none p).0 ∙ append-nil p.callbacks
  serve-callbacks (Request.register (some d)) p = (register_callback_lem sys (some d) p).0
  serve-callbacks (Request.unregister none) p = refl
  serve-callbacks (Request.unregister (some d)) p = (unregister_callback_lem sys d p).0
  serve-callbacks Request.update p = update-callbacks p
  serve-callbacks Request.get_health_info p = get_health_info-callbacks p
  serve-callbacks Request.read p = refl
  serve-callbacks (Request.debug handle) p = debug-callbacks handle p
  serve-callbacks (Request.service_died none) p = refl
  serve-callbacks (Request.service_died (some d)) p = (unregister_callback_lem sys d p).0

  is_registered-append :
      (c d : Callback) (cs : List Callback)
      → is_registered c (cs ++ (d ∷ []))
        ≡ (if sys.interfaces_equal d c then true else is_registered c cs)
  is_registered-append c d [] = ground arith
  is_registered-append c d (x ∷ cs) = ground (arith, is_registered-append c d cs)

  module _ (identity : IsIdentity sys) where
    is_registered-others :
        (c d : Callback) (cs : List Callback)
        → is_registered c (others sys d cs)
          ≡ (if sys.interfaces_equal d c then false else is_registered c cs)
    is_registered-others c d [] = ground arith
    is_registered-others c d (x ∷ cs) = ground (
      arith,
      is_registered-others c d cs,
      identity.join x d c,
      identity.join x c d,
      identity.swap c d,
    )

    serve-wanted :
        (c : Callback) (r : Request) (cs : List Callback)
        → is_registered c (callbacks_after r cs) ≡ wanted_after c r (is_registered c cs)
    serve-wanted c (Request.register none) cs = refl
    serve-wanted c (Request.register (some d)) cs = is_registered-append c d cs
    serve-wanted c (Request.unregister none) cs = refl
    serve-wanted c (Request.unregister (some d)) cs = is_registered-others c d cs
    serve-wanted c Request.update cs = refl
    serve-wanted c Request.get_health_info cs = refl
    serve-wanted c Request.read cs = refl
    serve-wanted c (Request.debug handle) cs = refl
    serve-wanted c (Request.service_died none) cs = refl
    serve-wanted c (Request.service_died (some d)) cs = is_registered-others c d cs

    -- A client is registered after requests exactly where their abstract view says so.
    pub serve_all-wanted :
        (c : Callback) (rs : List Request) (p : Process W)
        → is_registered c (serve_all sys rs p).state.callbacks
          ≡ wanted c rs (is_registered c p.callbacks)
    unfolding serve_all ◌>>=◌ ◌>>◌ pure
    serve_all-wanted c [] p = refl
    serve_all-wanted c (r ∷ rs) p =
        serve_all-wanted c rs (serve sys r p).state
        ∙ ap (wanted c rs)
            (ap (is_registered c) (serve-callbacks r p) ∙ serve-wanted c r p.callbacks)

    -- Where `interfacesEqual` is an equivalence: after any requests, `notifyListeners` tells a
    -- client exactly where the last request that registered or unregistered its interface, or
    -- brought the news of its death, was a registration; without such a request, where it was
    -- registered before.
    pub serve_all-told :
        (c : Callback) (rs : List Request) (p : Process W)
        → is_registered c (told (notify_listeners sys (serve_all sys rs p).state).trace)
          ≡ wanted c rs (is_registered c p.callbacks)
    serve_all-told c rs p =
        ap (is_registered c) (notify_listeners_lem sys (serve_all sys rs p).state).0
        ∙ serve_all-wanted c rs p

    -- Where `interfacesEqual` is an equivalence, `unregisterCallback` takes back a registration
    -- of an interface that was not registered: the list is the one before, and the answer is
    -- SUCCESS.
    pub unregister_callback-register_callback :
        (c : Callback) (p : Process W)
        → is_registered c p.callbacks ≡ false
        → let r = unregister_callback sys (some c) (register_callback sys (some c) p).state in
          (r.state.callbacks ≡ p.callbacks) × (r.value ≡ Result.success)
    unregister_callback-register_callback c p fresh =
        let (kept, answer, again) =
          unregister_callback_lem sys c (register_callback sys (some c) p).state in
        let stored = (register_callback_lem sys (some c) p).0 in
        (
          kept ∙ ap (others sys c) stored ∙ others-fresh p.callbacks fresh,
          answer
              ∙ ap (λ cs. if is_registered c cs then Result.success else Result.not_found) stored
              ∙ ap (λ b. if b then Result.success else Result.not_found)
                  (is_registered-append c c p.callbacks)
              ∙ rw (identity.same c) refl,
        )
      where
        others-fresh :
            (cs : List Callback) → is_registered c cs ≡ false → others sys c (cs ++ (c ∷ [])) ≡ cs
        others-fresh [] e = rw (identity.same c) refl
        others-fresh (x ∷ cs) e = ground (arith, others-fresh cs)
