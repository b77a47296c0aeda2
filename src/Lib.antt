-- ===== src/Lib.antt =====
-- The Android device tree of a Xen guest (android_device_xenvm) has two native programs, and this
-- library models both: the graphics allocator, a HIDL service that the loader builds on one of two
-- HALs around a gralloc driver, and the health service, a HIDL object beside the event loop that
-- runs it.
--
-- Code with effects is a function from a state to a value, the next state and the trace of the
-- calls that it makes of the outside world, in order (Base/Effects). The drivers, the kernel,
-- binder, BatteryMonitor and the clients are records of functions that each answer from a state,
-- and that state is arbitrary. A local or an out parameter that C++ leaves uninitialised is a
-- parameter (`unset`). Unsigned words are natural numbers; the conversions to int32_t, int and
-- uint32_t are written out with their wrap-around (Base/Int).
--
-- Graphics allocator (hals/allocator):
--   Graphics: the types that are shared, the interface AllocatorHal.h, and the loop of
--     `allocateBuffers`, which Gralloc0Hal.h and Gralloc1Hal.h both hold; its children hold the
--     bytes of `dumpDebugInfo`, the account of buffers, and the contract of `AllocatorHal`.
--   Gralloc1: Gralloc1Hal.h. Device is the driver of hardware/gralloc1.h with what it documents;
--     that `getCapabilities` writes no more than its array holds is a law of the driver's record.
--     Init holds `initWithModule`, `initCapabilities` and `initDispatch`, Convert the conversions,
--     Descriptor `createDescriptor`, Buffers `allocateOneBuffer`, `allocateBuffers` and
--     `freeBuffers`, Dump `dumpDebugInfo`. A call through `mDispatch` is recorded with the pointer.
--   Gralloc0: Gralloc0Hal.h on the driver of hardware/gralloc.h.
--   Allocator: Allocator.h and Allocator.cpp; an answer by `hidl_cb` is an event. A dump that the
--     driver writes out of bounds is not answered, and a run of Session ends there.
--   Loader: GrallocLoader.h.
--   Session: the allocator's process, composed of the parts above: `HIDL_FETCH_IAllocator` of
--     Allocator.cpp, the HAL that was loaded behind the methods of `AllocatorHal`, the service with
--     the requests that clients make, and the destructor when the object is let go.
--   Process: `main` of service.cpp with the pool of threads that libhidl runs. What one thread sees
--     is a run of Session on a driver whose state the other threads turn between two of its calls,
--     in any way; a run of the process is any interleaving of what its threads do.
-- A child of these modules other than those named is named for what it proves: Sourced,
-- Capabilities, Loaded, Opened, Callable and Pointers are about initialisation, Alive, Life and
-- Prepared about the driver's descriptor, Ownership about the buffers, Holding, Held, Owned and
-- Merging about what is held at each call, Starting, Working, Supply, Answers and Works about drivers that
-- do not fail, Asked and Refusals about what a gralloc0 driver is asked for, Cost about the number
-- of calls, Text about the dump, Calls and InitCalls about any call.
-- The loop over `count` buffers is recursion on the rounds that are left. A gralloc1 error other
-- than those that the code names is one constructor with its number, as the code treats them alike.
--
-- Health service (health):
--   Health: Types holds the data, the outside world and the static variables of the process, and
--     Methods every method of Health.cpp; Interface is the class of Health.h. Taking and giving
--     back `callbacks_lock_` are steps of the trace.
--   Healthd: healthd_common.cpp. Wakealarm holds the configuration and the periods, Uevent the
--     search in a message, Main the handlers, the loop and `healthd_main`; Twice is about an update
--     that is repeated.
--   HealthService: HealthServiceCommon.cpp, with `main`; a binder event serves the requests that
--     came in with the methods of Health.
-- The proofs about `main` are in the children of HealthService: Stable, Serving, Handlers and Rounds
-- follow the requests, the handlers and the loop for any condition that a call of the service
-- keeps; Opening follows the start and Calm joins it to them; Quiet and Steady apply them to what
-- is told and waited for, Guarded to `callbacks_lock_`; Received, InStep and Registered follow the
-- requests of a run, and Books, Looping, Starting, Arming and Ending are the account of events,
-- waits and alarms. A wait is recorded with what epoll answered, and a poll of binder with the
-- requests that it took in. The client's view of registrations is in Health/Registry, where
-- `interfacesEqual` is taken to be an equivalence, as binder documents it.
-- The endless loop is run for a number of rounds that is arbitrary, so that a statement about all
-- numbers covers every finite run. The search in a message has n + 2 as fuel, one for each byte and
-- the two NULs behind them; it never runs out of it. A read behind what has been written of the
-- message's array is the result `none`.
--
-- Not modelled: logging; hals/hwc, a copy of a vendor's header;
-- the build files, resource overlays and policies, which are no code.
--
-- Examples holds concrete drivers and a concrete system, with the theorems applied to them.
pub mod Base
pub mod Graphics
pub mod Gralloc1
pub mod Gralloc0
pub mod Allocator
pub mod Loader
pub mod Session
pub mod Process
pub mod Health
pub mod Healthd
pub mod HealthService
pub mod Examples
