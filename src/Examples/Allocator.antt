-- ===== src/Examples/Allocator.antt =====
-- The theorems about hals/allocator at the concrete drivers.
use android_device_xenvm.Base.{
  ℕ, ◌+◌, ◌≡◌, refl, none, some, [], ◌∷◌, arith, ◌==◌, ◌>>=◌, ◌>>◌, ask, pure, All, take,
  if◌then◌else◌, ◌*◌, ◌≤◌, length, true,
}
use android_device_xenvm.Graphics.{Error, allocate_loop, empty_batch}
use android_device_xenvm.Graphics.Contract.{IsSound}
use android_device_xenvm.Gralloc1.Device
use android_device_xenvm.Gralloc1.Device.{
  Gralloc1Device, Gralloc1Error, FunctionDescriptor, IsDocumented,
}
use android_device_xenvm.Gralloc1.Convert.{to_error, to_producer_usage, to_consumer_usage}
use android_device_xenvm.Gralloc1.Init.{
  fresh, init_with_module, init_capabilities, init_function, init_functions, init_dispatch,
}
use android_device_xenvm.Gralloc1.Descriptor.{create_descriptor}
use android_device_xenvm.Gralloc1.Buffers
use android_device_xenvm.Gralloc1.Buffers.{gralloc1_hal}
use android_device_xenvm.Gralloc1.Ownership
use android_device_xenvm.Gralloc1.Loaded.{IsLoaded, init_with_module-IsLoaded}
use android_device_xenvm.Gralloc1.Callable.{IsCallable, init_with_module-IsCallable}
use android_device_xenvm.Gralloc1.Opened.{Opens, init_with_module-Opens}
use android_device_xenvm.Gralloc0.Text.{dump_debug_info-c_string}
use android_device_xenvm.Gralloc1.Text.{dump_debug_info-text}
use android_device_xenvm.Gralloc1.Dump
use android_device_xenvm.Graphics.CString.{c_string}
use android_device_xenvm.Gralloc1.Pointers.{Through, init_with_module-Through}
use android_device_xenvm.Session.{session}
use android_device_xenvm.Session.Whole.{Settled, session-Settled}
use android_device_xenvm.Gralloc1.Prepared.{Prepared, recipe, allocate_buffers-Prepared}
use android_device_xenvm.Gralloc1.Cost.{allocate_buffers-cost}
use android_device_xenvm.Gralloc0.Asked.{AsksFor, allocate_buffers-AsksFor}
use android_device_xenvm.Gralloc1.Capabilities.{init_capabilities-listed}
use android_device_xenvm.Gralloc0.Cost.{allocate_buffers-calls}
use android_device_xenvm.Gralloc0.Refusals.{allocate_buffers-needs_more}
use android_device_xenvm.Graphics.Strides.{next_of, allocate_loop-uniform}
use Prim.Native.Nat.{bit_and, max}
use android_device_xenvm.Base.Bits.{bit}
use android_device_xenvm.Gralloc1.UsageBits.{
  granted, cleared, to_producer_usage-bits, to_consumer_usage-bits,
}
use android_device_xenvm.Gralloc1.Alive.{watch, idle}
use android_device_xenvm.Gralloc1.Life.{allocate_buffers-watch, create_descriptor-unset}
use android_device_xenvm.Gralloc0
use android_device_xenvm.Gralloc0.{Gralloc0Device, gralloc0_hal}
use android_device_xenvm.Gralloc0.Ownership as Ownership0
use android_device_xenvm.Allocator.{allocate}
use android_device_xenvm.Allocator.Serves.{Served, allocate-Served}
use android_device_xenvm.Loader.{load}
use android_device_xenvm.Loader.Opened.{Balanced, load-Balanced}
use android_device_xenvm.Examples.{
  driver, driver-IsDocumented, driver-DumpFits, driver0-DumpFits, exhausted, driver0, flags,
  some_info, decode, unset1, unset0, hw_get_module, talking0, three_requests, decode_layers,
}

gralloc1_hal-IsSound_example :
    IsSound Ownership.gain Ownership.loss (gralloc1_hal driver flags fresh decode unset1)
gralloc1_hal-IsSound_example =
    Ownership.gralloc1_hal-IsSound driver flags fresh driver-IsDocumented decode unset1

gralloc0_hal-IsSound_example :
    IsSound Ownership0.gain Ownership0.loss (gralloc0_hal driver0 decode unset0)
gralloc0_hal-IsSound_example = Ownership0.gralloc0_hal-IsSound driver0 decode unset0

allocate-Served_example :
    Served Ownership0.gain Ownership0.loss 3
      (allocate (gralloc0_hal driver0 decode unset0) 0 (5 ∷ []) 3 10).trace
allocate-Served_example =
    allocate-Served Ownership0.gain Ownership0.loss (gralloc0_hal driver0 decode unset0)
      (Ownership0.gralloc0_hal-IsSound driver0 decode unset0) 0 (5 ∷ []) 3 10

allocate_buffers-watch_example :
    watch (Buffers.allocate_buffers driver flags fresh decode unset1 (5 ∷ []) 2 10).trace idle
    ≡ some idle
allocate_buffers-watch_example =
    allocate_buffers-watch driver flags fresh driver-IsDocumented decode unset1 (5 ∷ []) 2 10 refl

create_descriptor-unset_example :
    let r = create_descriptor exhausted flags fresh some_info 93 10 in
    (r.trace
      ≡ Device.Call.created none Gralloc1Error.no_resources 93 ∷ Device.Call.destroyed none 93 ∷ [])
    × (r.value ≡ (to_error Gralloc1Error.no_resources, none))
    × (watch r.trace idle ≡ none)
create_descriptor-unset_example =
    create_descriptor-unset exhausted flags fresh some_info 93 10 Gralloc1Error.no_resources refl
      refl

init_with_module-IsLoaded_example : IsLoaded (init_with_module driver fresh 10).value.1
unfolding init_with_module init_capabilities init_dispatch init_functions init_function ◌>>=◌ ◌>>◌
    ask pure
init_with_module-IsLoaded_example = init_with_module-IsLoaded driver fresh 10 refl

init_with_module-IsCallable_example :
    All IsCallable
      (Buffers.allocate_buffers driver flags
        (init_with_module driver fresh 10).value.1
        decode
        unset1
        (5 ∷ [])
        2
        11).trace
unfolding init_with_module init_capabilities init_dispatch init_functions init_function ◌>>=◌ ◌>>◌
    ask pure
init_with_module-IsCallable_example =
    init_with_module-IsCallable driver flags fresh 10 refl decode unset1 (5 ∷ []) 2 11

init_with_module-Opens_example : Opens driver (init_with_module driver fresh 10)
init_with_module-Opens_example = init_with_module-Opens driver fresh 10

load-Balanced_example : Balanced (load driver driver0 hw_get_module 10)
load-Balanced_example = load-Balanced driver driver0 hw_get_module 10

-- The usage of a buffer that the CPU reads and writes often.
to_producer_usage-bits_example :
    bit 4 (to_producer_usage flags 51)
    ≡ max
        (max
          (cleared (bit 4 51) (max (max (bit 4 15) (bit 4 240)) (bit 4 16777216)))
          (granted (bit_and 51 240) 32 48 (bit 4 32) (bit 4 48)))
        (granted (bit_and 51 15) 2 3 (bit 4 2) (bit 4 6))
to_producer_usage-bits_example = to_producer_usage-bits flags 51 4 (omega arith)

to_consumer_usage-bits_example :
    bit 1 (to_consumer_usage flags 51)
    ≡ max
        (max
          (cleared
            (bit 1 51)
            (max (max (max (bit 1 15) (bit 1 240)) (bit 1 8388608)) (bit 1 16777216)))
          (granted (bit_and 51 15) 2 3 (bit 1 2) (bit 1 6)))
        (if bit_and 51 16777216 == 0 then 0 else bit 1 16777216)
to_consumer_usage-bits_example = to_consumer_usage-bits flags 51 1 (omega arith)

dump_debug_info-c_string_example :
    (Gralloc0.dump_debug_info talking0 10).value ≡ some (c_string (take 4095 (104 ∷ 105 ∷ 0 ∷ [])))
dump_debug_info-c_string_example =
    dump_debug_info-c_string talking0 (λ n d. (104 ∷ 105 ∷ 0 ∷ [], d)) refl 10 (omega arith)

dump_debug_info-text_example :
    (Dump.dump_debug_info driver fresh 10).value ≡ some (c_string (take 2 (104 ∷ 105 ∷ [])))
dump_debug_info-text_example =
    dump_debug_info-text driver fresh 10 (omega arith) (omega arith) (omega arith)

allocate_loop-uniform_example :
    (allocate_loop (next_of {C = ℕ}) (0, 0) 2 empty_batch ((5, 0) ∷ (6, 64) ∷ [])).value.error
    ≡ Error.no_error
allocate_loop-uniform_example = allocate_loop-uniform ℕ (0, 0) ((5, 0) ∷ (6, 64) ∷ [])

init_with_module-Through_example :
    All
      (Through (init_with_module driver fresh 10).trace)
      (Buffers.allocate_buffers driver flags
        (init_with_module driver fresh 10).value.1
        decode
        unset1
        (5 ∷ [])
        2
        11).trace
unfolding init_with_module init_capabilities init_dispatch init_functions init_function ◌>>=◌ ◌>>◌
    ask pure
init_with_module-Through_example =
    init_with_module-Through driver flags fresh 10 refl decode unset1 (5 ∷ []) 2 11

session-Settled_example :
    Settled three_requests
      (session driver driver0 flags decode unset1 unset0 hw_get_module three_requests 10)
session-Settled_example =
    session-Settled driver driver0 flags hw_get_module decode unset1 unset0 driver-IsDocumented
      driver-DumpFits driver0-DumpFits three_requests 10

allocate_buffers-Prepared_example :
    Prepared fresh some_info
      (recipe flags fresh some_info)
      (Buffers.allocate_buffers driver flags fresh decode unset1 (5 ∷ []) 2 10)
allocate_buffers-Prepared_example =
    allocate_buffers-Prepared driver flags fresh driver-IsDocumented decode unset1 (5 ∷ []) 2
      some_info refl 10

allocate_buffers-cost_example :
    length (Buffers.allocate_buffers driver flags fresh decode unset1 (5 ∷ []) 2 10).trace
    ≤ 3 * 2 + 7
allocate_buffers-cost_example =
    allocate_buffers-cost driver flags fresh driver-IsDocumented decode unset1 (5 ∷ []) 2 10

allocate_buffers-calls_example :
    length (Gralloc0.allocate_buffers driver0 decode unset0 (5 ∷ []) 2 10).trace ≤ 2 * 2
allocate_buffers-calls_example = allocate_buffers-calls driver0 decode unset0 (5 ∷ []) 2 10

allocate_buffers-needs_more_example :
    let r = Gralloc0.allocate_buffers driver0 decode_layers unset0 (5 ∷ []) 2 10 in
    (r.trace ≡ []) × (r.state ≡ 10) × (r.value ≡ (Error.bad_value, none))
allocate_buffers-needs_more_example =
    allocate_buffers-needs_more driver0 decode_layers unset0 (5 ∷ []) 2
      (record some_info { layer_count = 3 }) refl refl 10

allocate_buffers-AsksFor_example :
    All (AsksFor some_info) (Gralloc0.allocate_buffers driver0 decode unset0 (5 ∷ []) 2 10).trace
allocate_buffers-AsksFor_example =
    allocate_buffers-AsksFor driver0 decode unset0 (5 ∷ []) 2 some_info refl 10

init_capabilities-listed_example :
    let r = init_capabilities driver fresh 10 in
    (r.value ≡ record fresh { layered_buffers = true })
    × (r.trace ≡ Device.Call.counted_capabilities 2 ∷ Device.Call.got_capabilities 2 ∷ [])
init_capabilities-listed_example = init_capabilities-listed driver fresh 10 refl
