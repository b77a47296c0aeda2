-- ===== src/Process.antt =====
-- hals/allocator/service.cpp: the process, whose binder threads share the HAL and its driver.
pub mod Threads
use mathlib.Core.List.{map}
use android_device_xenvm.Base.{
  ℕ, suc, ◌+◌, ◌≤◌, ◌≡◌, Option, none, some, List, [], ◌∷◌, ◌++◌, Proc, length,
}
use android_device_xenvm.Base.Merges.{Merges}
use android_device_xenvm.Graphics.{BufferDescriptor, BufferDescriptorInfo, AllocatorHal}
use android_device_xenvm.Gralloc1.Device.{Gralloc1Device}
use android_device_xenvm.Gralloc1.Convert.{UsageFlags}
use android_device_xenvm.Gralloc1.Buffers
use android_device_xenvm.Gralloc0
use android_device_xenvm.Gralloc0.{Gralloc0Device}
use android_device_xenvm.Allocator.{AllocatorImpl, Event, via_hal}
use android_device_xenvm.Loader.{HwModule, Hal}
use android_device_xenvm.Loader
use android_device_xenvm.Session.{
  Request, serve_requests, hal_of, hidl_fetch_i_allocator, fetched_hal,
}

-- A driver as one thread sees it: before its k-th call of the driver the other threads have turned
-- the driver's state by `others k`.
module _ {D : Type 0} (others : ℕ → D → D) where
  abbrev seen : {A : Type 0} → (D → A × D) → D × ℕ → A × (D × ℕ)
  seen f (d, k) = let r = f (others k d) in (r.0, (r.1, suc k))

  abbrev pub shared1 : Gralloc1Device D → Gralloc1Device (D × ℕ)
  shared1 dev = record {
    layered_buffers = dev.layered_buffers;
    open_device = seen dev.open_device;
    close_device = λ s. (dev.close_device (others s.1 s.0), suc s.1);
    capability_count = seen dev.capability_count;
    get_capabilities = λ n. seen (dev.get_capabilities n);
    get_capabilities_fits = λ n s. dev.get_capabilities_fits n (others s.1 s.0);
    get_function = λ f. seen (dev.get_function f);
    dump_length = seen dev.dump_length;
    dump_text = λ n. seen (dev.dump_text n);
    create_descriptor = seen dev.create_descriptor;
    destroy_descriptor = λ id. seen (dev.destroy_descriptor id);
    set_dimensions = λ id w h. seen (dev.set_dimensions id w h);
    set_format = λ id f. seen (dev.set_format id f);
    set_layer_count = λ id n. seen (dev.set_layer_count id n);
    set_producer_usage = λ id u. seen (dev.set_producer_usage id u);
    set_consumer_usage = λ id u. seen (dev.set_consumer_usage id u);
    allocate = λ id. seen (dev.allocate id);
    get_stride = λ b. seen (dev.get_stride b);
    release = λ b. seen (dev.release b);
  }

  abbrev pub seen_dump : Option (ℕ → D → List ℕ × D) → Option (ℕ → D × ℕ → List ℕ × (D × ℕ))
  seen_dump none = none
  seen_dump (some dump) = some (λ n. seen (dump n))

  abbrev pub shared0 : Gralloc0Device D → Gralloc0Device (D × ℕ)
  shared0 dev = record {
    minus_einval = dev.minus_einval;
    open_device = seen dev.open_device;
    close_device = λ s. (dev.close_device (others s.1 s.0), suc s.1);
    dump = seen_dump dev.dump;
    alloc = λ w h f u. seen (dev.alloc w h f u);
    free = λ b. seen (dev.free b);
  }

-- `defaultPassthroughServiceImplementation<IAllocator>` of libhidl, which the repository only
-- calls: it takes the function that fetches the implementation, and a number of threads. It is
-- given as its runs: what the process does from a state of the drivers, where each thread of the
-- pool is handed a list of requests.
abbrev pub Passthrough : Type 0 → Type 1
Passthrough D =
    Proc Loader.Event D (Option (AllocatorImpl Hal))
    → ℕ
    → D
    → List (List Request)
    → List (Event Loader.Event)
    → Type 0

module _ {D : Type 0} (dev1 : Gralloc1Device D) (dev0 : Gralloc0Device D) where
  -- `main`, as its runs.
  unfoldable pub Main :
      Passthrough D
      → (D → Option HwModule × D)
      → D
      → List (List Request)
      → List (Event Loader.Event)
      → Type 0
  Main passthrough hw_get_module = passthrough (hidl_fetch_i_allocator dev1 dev0 hw_get_module) 4

  module _ (flags : UsageFlags) (decode : BufferDescriptor → Option BufferDescriptorInfo)
      (unset1 : Buffers.Unset) (unset0 : Gralloc0.Unset) where
    -- What one thread does on the fetched object, if there is one, while the others go on. A thread
    -- ends where it writes out of bounds.
    unfoldable pub thread : (ℕ → D → D) → Option Hal → D → List Request → List (Event Loader.Event)
    thread others none d requests = []
    thread others (some hal) d requests =
        let shared =
          hal_of (shared1 others dev1) (shared0 others dev0) flags decode unset1 unset0 hal in
        (serve_requests shared requests (d, 0)).trace

    unfoldable pub threads :
        (ℕ → ℕ → D → D) → Option Hal → D → List (List Request) → List (List (Event Loader.Event))
    threads others hal d [] = []
    threads others hal d (requests ∷ more) =
        thread (others 0) hal d requests ∷ threads (λ i. others (suc i)) hal d more

    -- A run that fetches the implementation once and then serves the requests on at most `count`
    -- threads, which run at the same time: their calls are interleaved in any way, and between
    -- two calls of a thread the driver may have been turned in any way by the others. Where a thread
    -- writes out of bounds nothing is known of the others from there on; these runs do not show it.
    pub record Pooled (fetch : Proc Loader.Event D (Option (AllocatorImpl Hal))) (count : ℕ) (d : D)
        (requests : List (List Request)) (t : List (Event Loader.Event)) : Type 0 where
      pub others : ℕ → ℕ → D → D
      pub serving : List (Event Loader.Event)
      pub at_most : length requests ≤ count
      pub fetched_first : t ≡ map via_hal (fetch d).trace ++ serving
      pub merged :
          Merges (threads others (fetched_hal (fetch d).value) (fetch d).state requests) serving

    -- What libhidl documents: each run is of this kind.
    pub record IsPassthrough (passthrough : Passthrough D) : Type 1 where
      pub pools :
          (fetch : Proc Loader.Event D (Option (AllocatorImpl Hal))) (count : ℕ) (d : D)
          (requests : List (List Request)) (t : List (Event Loader.Event))
          → passthrough fetch count d requests t
          → Pooled fetch count d requests t
