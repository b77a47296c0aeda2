-- ===== src/Gralloc1/Init.antt =====
-- Gralloc1Hal.h: the members of `Gralloc1HalImpl`, its initialisation and its destructor.
use android_device_xenvm.Base.{
  ◌-◌, Bool, true, false, none, some, List, [], ◌∷◌, ◌++◌, Proc, pure, ask, ◌>>=◌, ◌>>◌, ◌==◌,
  if◌then◌else◌, not, length, take, replicate, any,
}
use android_device_xenvm.Gralloc1.Device.{
  Gralloc1Device, Call, FunctionDescriptor, Pfn, dump, create_descriptor, destroy_descriptor,
  set_dimensions, set_format, set_layer_count, set_consumer_usage, set_producer_usage, get_stride,
  allocate, release,
}

-- `mDispatch`
pub record Dispatch : Type 0 where
  pub dump_pfn : Pfn
  pub create_descriptor_pfn : Pfn
  pub destroy_descriptor_pfn : Pfn
  pub set_dimensions_pfn : Pfn
  pub set_format_pfn : Pfn
  pub set_layer_count_pfn : Pfn
  pub set_consumer_usage_pfn : Pfn
  pub set_producer_usage_pfn : Pfn
  pub get_stride_pfn : Pfn
  pub allocate_pfn : Pfn
  pub release_pfn : Pfn

-- The object: is `mDevice` set, `mCapabilities.layeredBuffers`, and `mDispatch`.
pub record Gralloc1Hal : Type 0 where
  pub has_device : Bool
  pub layered_buffers : Bool
  pub dispatch : Dispatch

-- `mDevice = nullptr`, `mCapabilities = {}`, `mDispatch = {}`
abbrev pub fresh : Gralloc1Hal
fresh = record {
  has_device = false;
  layered_buffers = false;
  dispatch = record {
    dump_pfn = none;
    create_descriptor_pfn = none;
    destroy_descriptor_pfn = none;
    set_dimensions_pfn = none;
    set_format_pfn = none;
    set_layer_count_pfn = none;
    set_consumer_usage_pfn = none;
    set_producer_usage_pfn = none;
    get_stride_pfn = none;
    allocate_pfn = none;
    release_pfn = none;
  };
}

-- `*outPfn = pfn` for the pointer that belongs to the function.
unfoldable pub set_pfn : FunctionDescriptor → Pfn → Dispatch → Dispatch
set_pfn dump p d = record d { dump_pfn = p }
set_pfn create_descriptor p d = record d { create_descriptor_pfn = p }
set_pfn destroy_descriptor p d = record d { destroy_descriptor_pfn = p }
set_pfn set_dimensions p d = record d { set_dimensions_pfn = p }
set_pfn set_format p d = record d { set_format_pfn = p }
set_pfn set_layer_count p d = record d { set_layer_count_pfn = p }
set_pfn set_consumer_usage p d = record d { set_consumer_usage_pfn = p }
set_pfn set_producer_usage p d = record d { set_producer_usage_pfn = p }
set_pfn get_stride p d = record d { get_stride_pfn = p }
set_pfn allocate p d = record d { allocate_pfn = p }
set_pfn release p d = record d { release_pfn = p }

-- The functions in the order in which `initDispatch()` asks for them.
abbrev pub required : List FunctionDescriptor
required =
    dump ∷ create_descriptor ∷ destroy_descriptor ∷ set_dimensions ∷ set_format ∷ set_consumer_usage
    ∷ set_producer_usage ∷ get_stride ∷ allocate ∷ release ∷ []

module _ {D : Type 0} (dev : Gralloc1Device D) where
  -- `std::vector<int32_t> capabilities(count)` is written by the second call, which fits into it,
  -- and cut, or extended by zeros, to the count which that call gives; then the loop looks for the
  -- capability.
  unfoldable pub init_capabilities : Gralloc1Hal → Proc Call D Gralloc1Hal
  init_capabilities hal = do
    count ← ask dev.capability_count Call.counted_capabilities
    reply ← ask (dev.get_capabilities count) (λ r. Call.got_capabilities r.0)
    let vector = reply.1 ++ replicate (count - length reply.1) 0
    let capabilities = take reply.0 (vector ++ replicate (reply.0 - count) 0)
    pure (
        if any (λ c. c == dev.layered_buffers) capabilities
        then record hal { layered_buffers = true }
        else hal)

  -- The template `initDispatch(desc, outPfn)`: false for a function that the driver lacks.
  unfoldable pub init_function : FunctionDescriptor → Gralloc1Hal → Proc Call D (Bool × Gralloc1Hal)
  init_function desc hal = do
    pfn ← ask (dev.get_function desc) (Call.got_function desc)
    pure (elim pfn [
      | none ↦ (false, hal)
      | some p ↦ (true, record hal { dispatch = set_pfn desc (some p) hal.dispatch })
    ])

  -- `!initDispatch(a) || !initDispatch(b) || …` stops at the first function that is missing.
  unfoldable pub init_functions :
      List FunctionDescriptor → Gralloc1Hal → Proc Call D (Bool × Gralloc1Hal)
  init_functions [] hal = pure (true, hal)
  init_functions (desc ∷ descs) hal =
      init_function desc hal >>= λ r. if r.0 then init_functions descs r.1 else pure r

  unfoldable pub init_dispatch : Gralloc1Hal → Proc Call D (Bool × Gralloc1Hal)
  init_dispatch hal = do
    r ← init_functions required hal
    if not r.0
        then pure r
        else do if r.1.layered_buffers then init_function set_layer_count r.1 else pure r

  unfoldable pub init_with_module : Gralloc1Hal → Proc Call D (Bool × Gralloc1Hal)
  init_with_module hal = do
    failed ← ask dev.open_device Call.opened
    if failed then pure (false, record hal { has_device = false }) else do
      capable ← init_capabilities (record hal { has_device = true })
      r ← init_dispatch capable
      if r.0 then pure r else do
        ask (λ d. (tt, dev.close_device d)) (λ _. Call.closed)
        pure (false, record r.1 { has_device = false })

  -- `~Gralloc1HalImpl()`
  unfoldable pub destroy : Gralloc1Hal → Proc Call D (Unit {0})
  destroy hal =
      if hal.has_device then ask (λ d. (tt, dev.close_device d)) (λ _. Call.closed) else pure tt
