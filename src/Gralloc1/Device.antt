-- ===== src/Gralloc1/Device.antt =====
-- The gralloc1 driver (hardware/gralloc1.h), which the repository only calls: its functions are
-- parameters. Every call goes through a function pointer of `mDispatch` and is recorded with it.
use android_device_xenvm.Base.{ℕ, ℤ, Bool, true, false, Option, none, List, ◌≡◌, ◌≢◌, ◌≤◌, length}
use android_device_xenvm.Graphics.{Handle}

-- gralloc1_error_t, as the code names its values; `other` is any other int32_t.
pub data Gralloc1Error : Type 0 where
  no_error bad_descriptor bad_handle bad_value not_shared : Gralloc1Error
  no_resources undefined unsupported : Gralloc1Error
  other : ℕ → Gralloc1Error

-- gralloc1_function_descriptor_t
pub data FunctionDescriptor : Type 0 where
  dump create_descriptor destroy_descriptor set_dimensions set_format : FunctionDescriptor
  set_layer_count set_consumer_usage set_producer_usage : FunctionDescriptor
  get_stride allocate release : FunctionDescriptor

-- A gralloc1_function_pointer_t; `none` is a null pointer.
abbrev pub Pfn : Type 0
Pfn = Option ℕ

-- gralloc1_buffer_descriptor_t
abbrev pub DescriptorId : Type 0
DescriptorId = ℕ

-- The driver with a state of type D. An out parameter that a call may leave unwritten is an
-- option. `get_capabilities` and `dump_text` take the capacity of the array that is passed, and
-- give the new count with the values written to the array. `get_capabilities` writes no more values
-- than the capacity, as gralloc1.h documents.
pub record Gralloc1Device (D : Type 0) : Type 0 where
  pub layered_buffers : ℕ
  pub open_device : D → Bool × D
  pub close_device : D → D
  pub capability_count : D → ℕ × D
  pub get_capabilities : ℕ → D → (ℕ × List ℕ) × D
  pub get_capabilities_fits : (n : ℕ) (d : D) → length (get_capabilities n d).0.1 ≤ n
  pub get_function : FunctionDescriptor → D → Pfn × D
  pub dump_length : D → ℕ × D
  pub dump_text : ℕ → D → (ℕ × List ℕ) × D
  pub create_descriptor : D → (Gralloc1Error × Option DescriptorId) × D
  pub destroy_descriptor : DescriptorId → D → Gralloc1Error × D
  pub set_dimensions : DescriptorId → ℕ → ℕ → D → Gralloc1Error × D
  pub set_format : DescriptorId → ℤ → D → Gralloc1Error × D
  pub set_layer_count : DescriptorId → ℕ → D → Gralloc1Error × D
  pub set_producer_usage : DescriptorId → ℕ → D → Gralloc1Error × D
  pub set_consumer_usage : DescriptorId → ℕ → D → Gralloc1Error × D
  pub allocate : DescriptorId → D → (Gralloc1Error × Option Handle) × D
  pub get_stride : Handle → D → (Gralloc1Error × Option ℕ) × D
  pub release : Handle → D → Gralloc1Error × D

-- A call with what the driver answered, or with what it was told of a descriptor. A value that the
-- caller reads from an out parameter is recorded as the caller sees it after the call.
pub data Call : Type 0 where
  opened : Bool → Call
  closed : Call
  counted_capabilities : ℕ → Call
  got_capabilities : ℕ → Call
  got_function : FunctionDescriptor → Pfn → Call
  dumped : Pfn → Call
  created : Pfn → Gralloc1Error → DescriptorId → Call
  destroyed : Pfn → DescriptorId → Call
  dimensioned : Pfn → DescriptorId → ℕ → ℕ → Call
  formatted : Pfn → DescriptorId → ℤ → Call
  layered : Pfn → DescriptorId → ℕ → Call
  set_up_producer : Pfn → DescriptorId → ℕ → Call
  set_up_consumer : Pfn → DescriptorId → ℕ → Call
  allocated : Pfn → DescriptorId → Gralloc1Error → Handle → Call
  measured : Pfn → Handle → Call
  released : Pfn → Handle → Call

-- `error == GRALLOC1_ERROR_NONE` and the tests against two other values.
abbrev pub is_none : Gralloc1Error → Bool
is_none Gralloc1Error.no_error = true
is_none _ = false

abbrev pub is_not_shared : Gralloc1Error → Bool
is_not_shared Gralloc1Error.not_shared = true
is_not_shared _ = false

abbrev pub is_undefined : Gralloc1Error → Bool
is_undefined Gralloc1Error.undefined = true
is_undefined _ = false

-- What gralloc1.h documents of the results: only `allocate` answers NOT_SHARED, and a call that
-- succeeds writes its out parameter.
pub record IsDocumented {D : Type 0} (dev : Gralloc1Device D) : Type 0 where
  pub create_descriptor_writes :
      (d : D)
      → (dev.create_descriptor d).0.0 ≡ Gralloc1Error.no_error
      → (dev.create_descriptor d).0.1 ≢ none
  pub create_descriptor_error : (d : D) → (dev.create_descriptor d).0.0 ≢ Gralloc1Error.not_shared
  pub set_dimensions_error :
      (i w h : ℕ) (d : D) → (dev.set_dimensions i w h d).0 ≢ Gralloc1Error.not_shared
  pub set_format_error :
      (i : ℕ) (f : ℤ) (d : D) → (dev.set_format i f d).0 ≢ Gralloc1Error.not_shared
  pub set_layer_count_error :
      (i n : ℕ) (d : D) → (dev.set_layer_count i n d).0 ≢ Gralloc1Error.not_shared
  pub set_producer_usage_error :
      (i u : ℕ) (d : D) → (dev.set_producer_usage i u d).0 ≢ Gralloc1Error.not_shared
  pub set_consumer_usage_error :
      (i u : ℕ) (d : D) → (dev.set_consumer_usage i u d).0 ≢ Gralloc1Error.not_shared
  pub get_stride_error : (h : Handle) (d : D) → (dev.get_stride h d).0.0 ≢ Gralloc1Error.not_shared
