-- ===== src/Process/Threads.antt =====
-- The binder threads of the allocator's process do not get into each other's buffers or answers.
use mathlib.Core.List.{map}
use mathlib.Core.List.Perm
use android_device_xenvm.Base.{
  ℕ, suc, ◌+◌, ◌*◌, ◌≡◌, refl, ap, ◌∙◌, Option, none, some, List, [], ◌∷◌, arith, length, All,
}
use android_device_xenvm.Base.Count.{total, total-append}
use android_device_xenvm.Base.Merges.{Merges, none_left, with, total-Merge}
use android_device_xenvm.Graphics.{BufferDescriptor, BufferDescriptorInfo}
use android_device_xenvm.Graphics.Holding.{Holds, rest, Holds-append}
use android_device_xenvm.Graphics.Merging.{Holds-merges}
use android_device_xenvm.Gralloc1.Device.{Gralloc1Device, IsDocumented}
use android_device_xenvm.Gralloc1.Convert.{UsageFlags}
use android_device_xenvm.Gralloc1.Buffers
use android_device_xenvm.Gralloc1.Text as Text1
use android_device_xenvm.Gralloc0.Text as Text0
use android_device_xenvm.Gralloc0
use android_device_xenvm.Gralloc0.{Gralloc0Device}
use android_device_xenvm.Allocator.{Event, via_hal}
use android_device_xenvm.Loader.{HwModule, Hal, load}
use android_device_xenvm.Loader
use android_device_xenvm.Loader.Opened.{held, load-Balanced}
use android_device_xenvm.Session.{Request, hal_of, hidl_fetch_i_allocator, fetched_hal}
use android_device_xenvm.Session.Held.{doing, hal_of-IsCareful, serve_requests-Holds}
use android_device_xenvm.Session.Loading.{load-Always, load-IsReady}
use android_device_xenvm.Session.Owned.{Bufferless-Holds}
use android_device_xenvm.Session.Sums.{opening, closing, answering, Sums, Bufferless-Sums}
use android_device_xenvm.Session.Whole.{serve_requests-Sums}
use android_device_xenvm.Process.{
  shared1, shared0, seen_dump, Passthrough, Main, thread, threads, Pooled, IsPassthrough,
}

-- How many requests the threads are handed.
abbrev pub requested : List (List Request) → ℕ
requested = total length

-- What holds of a run, where `fetched` is 1 if an object was fetched and 0 if not.
pub record Concurrent (fetched : ℕ) (requests : List (List Request)) (t : List (Event Loader.Event))
    : Type 0 where
  pub owned : Holds doing t [] []
  pub answers : total answering t ≡ fetched * requested requests
  pub devices : total opening t ≡ total closing t + fetched

shared1-IsDocumented :
    {D : Type 0} (others : ℕ → D → D) (dev : Gralloc1Device D)
    → IsDocumented dev
    → IsDocumented (shared1 others dev)
shared1-IsDocumented others dev doc = record {
  create_descriptor_writes = λ s. doc.create_descriptor_writes (others s.1 s.0);
  create_descriptor_error = λ s. doc.create_descriptor_error (others s.1 s.0);
  set_dimensions_error = λ i w h s. doc.set_dimensions_error i w h (others s.1 s.0);
  set_format_error = λ i f s. doc.set_format_error i f (others s.1 s.0);
  set_layer_count_error = λ i n s. doc.set_layer_count_error i n (others s.1 s.0);
  set_producer_usage_error = λ i u s. doc.set_producer_usage_error i u (others s.1 s.0);
  set_consumer_usage_error = λ i u s. doc.set_consumer_usage_error i u (others s.1 s.0);
  get_stride_error = λ h s. doc.get_stride_error h (others s.1 s.0);
}

shared1-DumpFits :
    {D : Type 0} (others : ℕ → D → D) (dev : Gralloc1Device D)
    → Text1.DumpFits dev
    → Text1.DumpFits (shared1 others dev)
shared1-DumpFits others dev fits = record {
  small = λ s. fits.small (others s.1 s.0);
  writes = λ n s. fits.writes n (others s.1 s.0);
  tells = λ n s. fits.tells n (others s.1 s.0);
}

shared0-DumpFits :
    {D : Type 0} (others : ℕ → D → D) (dev : Gralloc0Device D)
    → Text0.DumpFits dev
    → Text0.DumpFits (shared0 others dev)
shared0-DumpFits {D} others dev fits = record { writes = go dev.dump fits.writes }
  where
    go :
        (own : Option (ℕ → D → List ℕ × D)) → Text0.Within own → Text0.Within (seen_dump others own)
    go none h = h
    go (some f) h = λ n s. h n (others s.1 s.0)

-- What is counted in the threads is counted in their interleaving.
total-Merges :
    (f : Event Loader.Event → ℕ) {ts : List (List (Event Loader.Event))}
    {t : List (Event Loader.Event)}
    → Merges ts t
    → total f t ≡ total (total f) ts
total-Merges f none_left = refl
total-Merges f (with ys ms m) = omega (arith, total-Merge f m, total-Merges f ms)

held_times : (hal : Option Hal) (m n : ℕ) → held hal * m + held hal * n ≡ held hal * (m + n)
held_times none m n = omega arith
held_times (some hal) m n = omega arith

module _ {D : Type 0} (dev1 : Gralloc1Device D) (dev0 : Gralloc0Device D) (flags : UsageFlags)
    (hw_get_module : D → Option HwModule × D)
    (decode : BufferDescriptor → Option BufferDescriptorInfo) (unset1 : Buffers.Unset)
    (unset0 : Gralloc0.Unset) (doc : IsDocumented dev1) (fits1 : Text1.DumpFits dev1)
    (fits0 : Text0.DumpFits dev0) where
  thread-Holds :
      (others : ℕ → D → D) (hal : Option Hal) (d : D) (requests : List Request)
      → Holds doing (thread dev1 dev0 flags decode unset1 unset0 others hal d requests) [] []
  unfolding thread
  thread-Holds others none d requests = rest (Perm.refl [])
  thread-Holds others (some hal) d requests =
      serve_requests-Holds
        (hal_of (shared1 others dev1) (shared0 others dev0) flags decode unset1 unset0 hal)
        (hal_of-IsCareful (shared1 others dev1) (shared0 others dev0) flags decode unset1 unset0
          (shared1-IsDocumented others dev1 doc) hal)
        requests (d, 0) []

  thread-Sums :
      (others : ℕ → D → D) (hal : Option Hal) (d : D) (requests : List Request)
      → Sums 0 0
          (held hal * length requests)
          (thread dev1 dev0 flags decode unset1 unset0 others hal d requests)
  unfolding thread
  thread-Sums others none d requests = record {
    opened_all = refl;
    closed_all = refl;
    answered_all = omega arith;
    none_held = Perm.refl [];
  }
  thread-Sums others (some hal) d requests =
      let (well, s) =
        serve_requests-Sums (shared1 others dev1) (shared0 others dev0) flags (λ s. (none, s))
          decode unset1 unset0 (shared1-IsDocumented others dev1 doc)
          (shared1-DumpFits others dev1 fits1) (shared0-DumpFits others dev0 fits0) hal requests
          (d, 0) in
      record {
        opened_all = s.opened_all;
        closed_all = s.closed_all;
        answered_all = omega (arith, s.answered_all);
        none_held = s.none_held;
      }

  threads-Holds :
      (others : ℕ → ℕ → D → D) (hal : Option Hal) (d : D) (requests : List (List Request))
      → All
          (λ t. Holds doing t [] [])
          (threads dev1 dev0 flags decode unset1 unset0 others hal d requests)
  unfolding threads
  threads-Holds others hal d [] = tt
  threads-Holds others hal d (r ∷ rs) =
      (thread-Holds (others 0) hal d r, threads-Holds (λ i. others (suc i)) hal d rs)

  -- What is counted 0 in a thread, and what is counted for each of its requests.
  threads-counts :
      (others : ℕ → ℕ → D → D) (hal : Option Hal) (d : D) (requests : List (List Request))
      → let ts = threads dev1 dev0 flags decode unset1 unset0 others hal d requests in
        (total (total opening) ts ≡ 0)
        × (total (total closing) ts ≡ 0)
        × (total (total answering) ts ≡ held hal * requested requests)
  unfolding threads
  threads-counts others hal d [] = (refl, refl, omega arith)
  threads-counts others hal d (r ∷ rs) =
      let (o, c, a) = threads-counts (λ i. others (suc i)) hal d rs in
      let s = thread-Sums (others 0) hal d r in
      (
        omega (arith, s.opened_all, o),
        omega (arith, s.closed_all, c),
        omega (arith, s.answered_all, a, held_times hal (length r) (requested rs)),
      )

  -- A run whose calls are those of loading, and then those of the threads.
  Pooled-Concurrent :
      (d : D) (requests : List (List Request)) (count : ℕ) (t : List (Event Loader.Event))
      → let fetch = hidl_fetch_i_allocator dev1 dev0 hw_get_module in
        Pooled dev1 dev0 flags decode unset1 unset0 fetch count d requests t
        → Concurrent (held (fetched_hal (fetch d).value)) requests t
  unfolding hidl_fetch_i_allocator
  Pooled-Concurrent d requests count t run =
      let f = load dev1 dev0 hw_get_module d in
      let hal = fetched_hal f.value in
      let bare = (load-Always dev1 dev0 hw_get_module).at d in
      let s = Bufferless-Sums f.trace bare in
      let (o, c, a) = threads-counts run.others hal f.state requests in
      let parts = λ (of : Event Loader.Event → ℕ).
        ap (total of) run.fetched_first ∙ total-append of (map via_hal f.trace) run.serving in
      record {
        owned = rw run.fetched_first (
            Holds-append (Bufferless-Holds f.trace [] bare)
              (Holds-merges doing run.merged (threads-Holds run.others hal f.state requests)));
        answers =
            omega (arith, parts answering, s.answered_all, total-Merges answering run.merged, a);
        devices = omega (
          arith,
          parts opening,
          parts closing,
          s.opened_all,
          s.closed_all,
          total-Merges opening run.merged,
          total-Merges closing run.merged,
          o,
          c,
          load-Balanced dev1 dev0 hw_get_module d,
          ((load-IsReady dev1 dev0 hw_get_module).at d).0,
        );
      }

  -- For any implementation of `defaultPassthroughServiceImplementation` that serves on a pool of
  -- threads, any module, a gralloc1 driver as documented and any gralloc0 driver, whose dumps are no
  -- longer than the arrays that they are given, with a length that plus one is a `uint32_t`, however
  -- the threads' calls are interleaved: at every point of a run of `main` the buffers that a call or
  -- an answer is made with are held, a buffer that is given back is held, and none is held at the
  -- end; each request of each thread is answered just once if an allocator was fetched, and there
  -- is no answer if not; and of the devices that were opened just one is left open if an
  -- allocator was fetched, and none if not.
  pub Main-Concurrent :
      (passthrough : Passthrough D)
      → IsPassthrough dev1 dev0 flags decode unset1 unset0 passthrough
      → (d : D) (requests : List (List Request)) (t : List (Event Loader.Event))
      → Main dev1 dev0 passthrough hw_get_module d requests t
      → Concurrent
          (held (fetched_hal (hidl_fetch_i_allocator dev1 dev0 hw_get_module d).value))
          requests
          t
  unfolding Main
  Main-Concurrent passthrough pool d requests t run =
      Pooled-Concurrent d requests 4 t (pool.pools _ 4 d requests t run)
