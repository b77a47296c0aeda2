-- ===== src/Gralloc1/InitCalls.antt =====
-- Gralloc1Hal.h: every call that `initWithModule` makes, one kind of call at a time.
use android_device_xenvm.Base.{
  ℕ, Bool, List, [], ◌∷◌, Always, pure-Always, ask-Always, bind-Always, then-Always, if-Always, not,
}
use android_device_xenvm.Gralloc1.Device.{
  Gralloc1Device, Call, FunctionDescriptor, Pfn, set_layer_count,
}
use android_device_xenvm.Gralloc1.Init.{
  Gralloc1Hal, required, init_capabilities, init_function, init_functions, init_dispatch,
  init_with_module, destroy,
}

module _ {D : Type 0} (dev : Gralloc1Device D) (P : Call → Type 0) where
  -- What is to be shown of each question to the driver, and of opening and closing the device.
  pub record OnAsk : Type 0 where
    pub counted : (n : ℕ) → P (Call.counted_capabilities n)
    pub listed : (n : ℕ) → P (Call.got_capabilities n)
    pub looked_up : (f : FunctionDescriptor) (p : Pfn) → P (Call.got_function f p)

  pub record OnInit : Type 0 where
    pub asked : OnAsk
    pub opened : (failed : Bool) → P (Call.opened failed)
    pub closed : P Call.closed

  module _ (on : OnAsk) where
    pub init_capabilities-Always : (hal : Gralloc1Hal) → Always P (init_capabilities dev hal)
    unfolding init_capabilities
    init_capabilities-Always hal =
        bind-Always P (ask-Always P _ _ λ n. on.counted n)
          λ n. bind-Always P (ask-Always P _ _ λ r. on.listed r.0) λ r. pure-Always P _

    init_function-Always :
        (f : FunctionDescriptor) (hal : Gralloc1Hal) → Always P (init_function dev f hal)
    unfolding init_function
    init_function-Always f hal =
        bind-Always P (ask-Always P _ _ λ p. on.looked_up f p) λ p. pure-Always P _

    init_functions-Always :
        (fs : List FunctionDescriptor) (hal : Gralloc1Hal) → Always P (init_functions dev fs hal)
    unfolding init_functions
    init_functions-Always [] hal = pure-Always P _
    init_functions-Always (f ∷ fs) hal =
        bind-Always P (init_function-Always f hal)
          λ r. if-Always P r.0 (λ _. init_functions-Always fs r.1) (λ _. pure-Always P _)

    pub init_dispatch-Always : (hal : Gralloc1Hal) → Always P (init_dispatch dev hal)
    unfolding init_dispatch
    init_dispatch-Always hal = bind-Always P (init_functions-Always required hal) λ r.
        if-Always P (not r.0) (λ _. pure-Always P r)
          (λ _.
            if-Always P r.1.layered_buffers (λ _. init_function-Always set_layer_count r.1)
              (λ _. pure-Always P r))

  module _ (on : OnInit) where
    pub init_with_module-Always : (hal : Gralloc1Hal) → Always P (init_with_module dev hal)
    unfolding init_with_module
    init_with_module-Always hal = bind-Always P (ask-Always P _ _ on.opened) λ failed.
        if-Always P failed (λ _. pure-Always P _)
          (λ _. bind-Always P (init_capabilities-Always on.asked _) λ capable.
            bind-Always P (init_dispatch-Always on.asked capable) λ r.
              if-Always P r.0 (λ _. pure-Always P _)
                (λ _. then-Always P (ask-Always P _ _ λ u. on.closed) (pure-Always P _)))

    pub destroy-Always : (hal : Gralloc1Hal) → Always P (destroy dev hal)
    unfolding destroy
    destroy-Always hal =
        if-Always P hal.has_device (λ _. ask-Always P _ _ λ u. on.closed) (λ _. pure-Always P _)
