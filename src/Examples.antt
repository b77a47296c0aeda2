-- ===== src/Examples.antt =====
-- Concrete drivers and requests, and a concrete system; the theorems are applied to them below.
pub mod Allocator
pub mod Service
pub mod Sessions
use android_device_xenvm.Base.{
  ℕ, ◌+◌, ◌≡◌, refl, pos, negsuc, true, false, Option, none, some, [], ◌∷◌, arith, ◌==◌, ◌>>=◌,
  ◌>>◌, ask, pure, All, ltb, ◌&&◌, take, length-take, if◌then◌else◌, List, ◌*◌, ◌≤◌, length,
}
use android_device_xenvm.Graphics.{
  Error, BufferDescriptor, BufferDescriptorInfo, allocate_loop, empty_batch,
}
use android_device_xenvm.Graphics.Contract.{IsSound}
use android_device_xenvm.Gralloc1.Device
use android_device_xenvm.Gralloc1.Device.{
  Gralloc1Device, Gralloc1Error, FunctionDescriptor, IsDocumented,
}
use android_device_xenvm.Gralloc1.Convert.{
  UsageFlags, to_error, to_producer_usage, to_consumer_usage,
}
use android_device_xenvm.Gralloc1.Init.{
  fresh, init_with_module, init_capabilities, init_function, init_functions, init_dispatch,
}
use android_device_xenvm.Gralloc1.Descriptor.{create_descriptor}
use android_device_xenvm.Gralloc1.Buffers
use android_device_xenvm.Gralloc1.Buffers.{gralloc1_hal}
use android_device_xenvm.Gralloc1.Ownership
use android_device_xenvm.Gralloc1.Loaded.{IsLoaded, init_with_module-IsLoaded}
use android_device_xenvm.Gralloc1.Callable.{IsCallable, init_with_module-IsCallable}
use android_device_xenvm.Gralloc1.Opened.{Opens, init_with_module-Opens}
use android_device_xenvm.Gralloc0.Text.{dump_debug_info-c_string}
use android_device_xenvm.Gralloc1.Text as Text1
use android_device_xenvm.Gralloc0.Text as Text0
use android_device_xenvm.Gralloc1.Text.{dump_debug_info-text}
use android_device_xenvm.Gralloc1.Dump
use android_device_xenvm.Graphics.CString.{c_string}
use android_device_xenvm.HealthService.{serve_all, main}
use android_device_xenvm.HealthService.Ending.{Ended, main-Ended}
use android_device_xenvm.Health.Types.{
  binder_event, Request, System, Process, Transport, Waited, Result,
}
use android_device_xenvm.Health.Callbacks.{
  told, Tellings, unregister_callback_lem, register_callback_lem, notify_listeners_lem,
}
use android_device_xenvm.Health.Registry.{
  IsIdentity, is_registered, wanted, serve_all-told, unregister_callback-register_callback,
}
use android_device_xenvm.Gralloc1.Pointers.{Through, init_with_module-Through}
use android_device_xenvm.Session
use android_device_xenvm.Session.{session}
use android_device_xenvm.Session.Whole.{Settled, session-Settled}
use android_device_xenvm.Gralloc1.Prepared.{Prepared, recipe, allocate_buffers-Prepared}
use android_device_xenvm.Gralloc1.Cost.{allocate_buffers-cost}
use android_device_xenvm.Gralloc0.Cost.{allocate_buffers-calls}
use android_device_xenvm.Gralloc0.Refusals.{allocate_buffers-needs_more}
use android_device_xenvm.Health.Methods.{
  get_health_info, update, register_callback, unregister_callback, notify_listeners,
}
use android_device_xenvm.Health.Report.{get_health_info-notify_listeners}
use android_device_xenvm.Graphics.Strides.{next_of, allocate_loop-uniform}
use Prim.Native.Nat.{bit_and, max}
use android_device_xenvm.Base.Bits.{bit}
use android_device_xenvm.Gralloc1.UsageBits.{
  granted, cleared, to_producer_usage-bits, to_consumer_usage-bits,
}
use android_device_xenvm.HealthService.Quiet.{Waits, IsSilent}
use android_device_xenvm.HealthService.Steady.{main-IsSilent}
use android_device_xenvm.Gralloc1.Alive.{watch, idle}
use android_device_xenvm.Gralloc1.Life.{allocate_buffers-watch, create_descriptor-unset}
use android_device_xenvm.Gralloc0
use android_device_xenvm.Gralloc0.{Gralloc0Device, gralloc0_hal}
use android_device_xenvm.Gralloc0.Ownership as Ownership0
use android_device_xenvm.Allocator.{allocate}
use android_device_xenvm.Allocator.Serves.{Served, allocate-Served}
use android_device_xenvm.Loader.{HwModule, load}
use android_device_xenvm.Loader.Opened.{Balanced, load-Balanced}
use android_device_xenvm.Healthd.Uevent.{uevent_msg_len, wants_update}
use android_device_xenvm.Healthd.Uevent.Fields.{fields, announces, wants_update_lem}
use android_device_xenvm.Healthd.Wakealarm.{initial_config}

-- A driver that numbers its descriptors and buffers; its state is the next number. Buffers with an
-- even number share their store.
abbrev pub driver : Gralloc1Device ℕ
driver = record {
  layered_buffers = 1;
  open_device = λ d. (false, d);
  close_device = λ d. d;
  capability_count = λ d. (2, d);
  get_capabilities = λ n d. let listed = take n (3 ∷ 1 ∷ []) in ((length listed, listed), d);
  get_capabilities_fits = λ n d. omega (arith, length-take {A = ℕ} n (3 ∷ 1 ∷ []));
  get_function = λ f d. (some 7, d);
  dump_length = λ d. (4, d);
  dump_text = λ n d. let text = take n (104 ∷ 105 ∷ []) in ((length text, text), d);
  create_descriptor = λ d. ((Gralloc1Error.no_error, some d), d + 1);
  destroy_descriptor = λ i d. (Gralloc1Error.no_error, d);
  set_dimensions = λ i w h d. (Gralloc1Error.no_error, d);
  set_format = λ i f d. (Gralloc1Error.no_error, d);
  set_layer_count = λ i n d. (Gralloc1Error.no_error, d);
  set_producer_usage = λ i u d. (Gralloc1Error.no_error, d);
  set_consumer_usage = λ i u d. (Gralloc1Error.no_error, d);
  allocate = λ i d. ((Gralloc1Error.not_shared, some d), d + 1);
  get_stride = λ h d. ((Gralloc1Error.no_error, some 64), d);
  release = λ h d. (Gralloc1Error.no_error, d);
}

pub driver-IsDocumented : IsDocumented driver
driver-IsDocumented = record {
  create_descriptor_writes = λ d h e. absurd (ground arith);
  create_descriptor_error = λ d. ground arith;
  set_dimensions_error = λ i w h d. ground arith;
  set_format_error = λ i f d. ground arith;
  set_layer_count_error = λ i n d. ground arith;
  set_producer_usage_error = λ i u d. ground arith;
  set_consumer_usage_error = λ i u d. ground arith;
  get_stride_error = λ h d. ground arith;
}

-- The driver without memory for a descriptor.
abbrev pub exhausted : Gralloc1Device ℕ
exhausted = record driver { create_descriptor = λ d. ((Gralloc1Error.no_resources, none), d) }

abbrev pub driver0 : Gralloc0Device ℕ
driver0 = record {
  minus_einval = negsuc 21;
  open_device = λ d. (pos 0, d);
  close_device = λ d. d;
  dump = none;
  alloc = λ w h f u d. ((pos 0, some d, some (pos 64)), d + 1);
  free = λ b d. (pos 0, d);
}

abbrev pub flags : UsageFlags
flags = record {
  cpu_read_mask = 15;
  cpu_read_rarely = 2;
  cpu_read_often = 3;
  cpu_write_mask = 240;
  cpu_write_rarely = 32;
  cpu_write_often = 48;
  gpu_data_buffer = 16777216;
  sensor_direct_data = 8388608;
  producer_cpu_write = 32;
  producer_cpu_write_often = 48;
  producer_cpu_read = 2;
  producer_cpu_read_often = 6;
  consumer_cpu_read = 2;
  consumer_cpu_read_often = 6;
  consumer_gpu_data_buffer = 16777216;
}

abbrev pub some_info : BufferDescriptorInfo
some_info = record { width = 64; height = 32; layer_count = 1; format = 1; usage = 51 }

-- A decoder that accepts every descriptor but the empty one.
abbrev pub decode : BufferDescriptor → Option BufferDescriptorInfo
decode [] = none
decode (word ∷ words) = some some_info

abbrev pub unset1 : Buffers.Unset
unset1 = record { buffer = 91; stride = 92; descriptor = 93; desc = 94 }

abbrev pub unset0 : Gralloc0.Unset
unset0 = record { buffer = 91; stride = 92 }

-- A module of version 1.0, and where it is found.
abbrev pub hw_get_module : ℕ → Option HwModule × ℕ
hw_get_module d = (some (record { module_api_version = 256 }), d)

-- A world whose state counts the calls; callback 2 is a dead object.
abbrev pub system : System ℕ
system = record {
  interfaces_equal = λ a b. a == b;
  link_to_death = λ c w. (true, w + 1);
  unlink_to_death = λ c w. (true, w + 1);
  health_info_changed =
      λ c i w. (if c == 2 then Transport.dead_object else Transport.arrived, w + 1);
  monitor_init = λ c w. (c, w + 1);
  monitor_current_average = λ w. (some (pos 12), w + 1);
  epoll_create = λ w. (pos 3, w + 1);
  epoll_add = λ fd wakeup w. (pos 0, w + 1);
  epoll_wait = λ n timeout w. (Waited.interrupted, w + 1);
  timerfd_create = λ w. (pos 4, w + 1);
  timerfd_settime = λ fd s w. (pos 0, w + 1);
  read_wakealarm = λ fd w. (pos 8, w + 1);
  uevent_open_socket = λ w. (pos 5, w + 1);
  uevent_receive = λ fd w. ((negsuc 0, []), w + 1);
  setup_transport_polling = λ w. (pos 6, w + 1);
  transport_requests = λ fd w. ([], w + 1);
  register_as_service = λ name w. (true, w + 1);
}

abbrev pub running : Process ℕ
running = record {
  config = initial_config;
  eventct = 3;
  epollfd = pos 3;
  uevent_fd = pos 5;
  wakealarm_fd = pos 4;
  awake_poll_interval = negsuc 0;
  wakealarm_wake_interval = pos 600;
  has_battery_update = true;
  binder_fd = pos 6;
  instance_name = "default";
  has_instance = true;
  callbacks = 1 ∷ 2 ∷ 3 ∷ 2 ∷ [];
  world = 0;
}

-- What the static variables hold when the process starts.
abbrev pub starting : Process ℕ
starting = record running {
  eventct = 0;
  epollfd = pos 0;
  uevent_fd = pos 0;
  wakealarm_fd = pos 0;
  wakealarm_wake_interval = pos 60;
  has_battery_update = false;
  binder_fd = negsuc 0;
  instance_name = "";
  has_instance = false;
  callbacks = [];
}

pub driver-DumpFits : Text1.DumpFits driver
driver-DumpFits = record {
  small = λ d. omega arith;
  writes = λ n d. omega (arith, length-take {A = ℕ} n (104 ∷ 105 ∷ []));
  tells = λ n d. omega (arith, length-take {A = ℕ} n (104 ∷ 105 ∷ []));
}

pub driver0-DumpFits : Text0.DumpFits driver0
driver0-DumpFits = record { writes = tt }

-- A gralloc0 driver with a dump of three bytes.
abbrev pub talking0 : Gralloc0Device ℕ
talking0 = record driver0 { dump = some (λ n d. (104 ∷ 105 ∷ 0 ∷ [], d)) }

pub system-IsIdentity : IsIdentity system
system-IsIdentity = record {
  same = λ a. ground arith;
  swap = λ a b. ground arith;
  join = λ a b c h. ground arith;
}

-- A world where each wait finds requests: clients 7 and 9 come, and client 9 dies.
abbrev pub busy : System ℕ
busy = record system {
  epoll_wait = λ n timeout w. (Waited.events (some binder_event ∷ []), w + 1);
  transport_requests = λ fd w. (
    Request.register (some 7) ∷ Request.register (some 9) ∷ Request.service_died (some 9) ∷ [],
    w + 1,
  );
}

pub busy-IsIdentity : IsIdentity busy
busy-IsIdentity = record {
  same = system-IsIdentity.same;
  swap = system-IsIdentity.swap;
  join = system-IsIdentity.join;
}

-- Client 2 goes, client 9 comes, and client 9 dies after it has come back.
abbrev pub coming_and_going : List Request
coming_and_going =
    Request.unregister (some 2)
    ∷ Request.register (some 9)
    ∷ Request.register (some 9)
    ∷ Request.service_died (some 9)
    ∷ Request.update
    ∷ []

-- Three buffers, and then two for a descriptor that does not decode.
abbrev pub three_requests : List Session.Request
three_requests =
    Session.allocating 95 (5 ∷ []) 3 ∷ Session.dumping ∷ Session.allocating 96 [] 2 ∷ []

-- A decoder that reads three layers from every descriptor.
abbrev pub decode_layers : BufferDescriptor → Option BufferDescriptorInfo
decode_layers words = some (record some_info { layer_count = 3 })
