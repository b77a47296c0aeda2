-- ===== src/Session/Whole.antt =====
-- The allocator's process from loading to its end: devices, buffers and answers add up.
use mathlib.Core.List.{map}
use mathlib.Core.List.Perm
use android_device_xenvm.Base.{
  ℕ, ◌≡◌, ◌≢◌, true, refl, Bool, Option, none, some, List, [], ◌∷◌, ◌++◌, append-nil, arith, Done,
  pure, ask, ◌>>=◌, ◌>>◌, length, Perm, if◌then◌else◌,
}
use android_device_xenvm.Base.Count.{total}
use android_device_xenvm.Graphics.{BufferDescriptor, BufferDescriptorInfo}
use android_device_xenvm.Graphics.Ledger.{gather}
use android_device_xenvm.Gralloc1.Device.{Gralloc1Device, IsDocumented}
use android_device_xenvm.Gralloc1.Convert.{UsageFlags}
use android_device_xenvm.Gralloc1.Buffers
use android_device_xenvm.Gralloc1.Text as Text1
use android_device_xenvm.Gralloc0.Text as Text0
use android_device_xenvm.Gralloc0
use android_device_xenvm.Gralloc0.{Gralloc0Device}
use android_device_xenvm.Allocator.{Event, via_hal, on_hal, allocate, dump_debug_info, reply_dump}
use android_device_xenvm.Allocator.Serves.{allocate-Served}
use android_device_xenvm.Loader.{HwModule, Hal, gralloc1, gralloc0, on_one, on_zero, load}
use android_device_xenvm.Loader
use android_device_xenvm.Loader.Opened.{opens, closes, load-Balanced, held}
use android_device_xenvm.Gralloc1.Init
use android_device_xenvm.Session.Loading.{IsReady, load-Always, drop-Always, load-IsReady}
use android_device_xenvm.Session.{
  Request, allocating, dumping, serve_request, hal_of, hidl_fetch_i_allocator, drop, serve_requests,
  run_allocator, fetched_hal, session,
}
use android_device_xenvm.Session.Sound.{gain, loss, hal_of-IsSound}
use android_device_xenvm.Session.Idle.{allocate-Still, allocate_buffers-Still, free_buffers-Still}
use android_device_xenvm.Session.Dumping.{
  dump_debug_info-Sums, dump_debug_info-text, dump_debug_info-value,
}
use android_device_xenvm.Session.Sums.{
  opening, closing, answering, gaining, losing, Sums, Sums-append, Sums-as, Served-Sums,
  Bufferless-Sums,
}

-- The answers that are due for so many requests.
abbrev pub due : Option Bool → ℕ → ℕ
due none n = 0
due (some served) n = if served then n else 0

-- The run comes to its end, and nothing is left over: no device, no request and no buffer.
pub record Settled {D : Type 0} (requests : List Request)
    (r : Done (Event Loader.Event) D (Option Bool)) : Type 0 where
  pub devices : total opening r.trace ≡ total closing r.trace
  pub ended : r.value ≢ none
  pub answers : total answering r.trace ≡ due r.value (length requests)
  pub buffers : Perm (gather gaining r.trace) (gather losing r.trace)

module _ {D : Type 0} (dev1 : Gralloc1Device D) (dev0 : Gralloc0Device D) (flags : UsageFlags)
    (hw_get_module : D → Option HwModule × D)
    (decode : BufferDescriptor → Option BufferDescriptorInfo) (unset1 : Buffers.Unset)
    (unset0 : Gralloc0.Unset) where
  drop-closes :
      (hal : Hal) (d : D)
      → IsReady (some hal)
      → (total opens (drop dev1 dev0 hal d).trace ≡ 0)
        × (total closes (drop dev1 dev0 hal d).trace ≡ 1)
  unfolding drop on_one on_zero Init.destroy Gralloc0.destroy ask pure
  drop-closes (gralloc1 hal) d h = rw (h, drop) (refl, refl)
  drop-closes gralloc0 d h = (refl, refl)

  module _ (doc : IsDocumented dev1) (fits1 : Text1.DumpFits dev1)
      (fits0 : Text0.DumpFits dev0) where
    serve_request-Sums :
        (hal : Hal) (r : Request) (d : D)
        → let first = serve_request (hal_of dev1 dev0 flags decode unset1 unset0 hal) r d in
          (first.value ≡ true) × Sums 0 0 1 first.trace
    unfolding serve_request dump_debug_info reply_dump on_hal ◌>>=◌ ◌>>◌ ask pure
    serve_request-Sums hal (allocating unset descriptor count) d =
        let h = hal_of dev1 dev0 flags decode unset1 unset0 hal in
        (
          refl,
          rw append-nil (
              Served-Sums count (allocate h unset descriptor count d).trace
                (allocate-Served gain loss h
                  (hal_of-IsSound dev1 dev0 flags decode unset1 unset0 doc hal) unset descriptor
                  count d)
                ((allocate-Still h (allocate_buffers-Still dev1 dev0 flags decode unset1 unset0 hal)
                    (free_buffers-Still dev1 dev0 flags decode unset1 unset0 hal) unset descriptor
                    count).at
                  d)),
        )
    serve_request-Sums hal dumping d =
        let h = hal_of dev1 dev0 flags decode unset1 unset0 hal in
        let some_text =
          (dump_debug_info-text dev1 dev0 flags decode unset1 unset0 fits1 fits0 hal).at d in
        (
          dump_debug_info-value h d some_text,
          dump_debug_info-Sums dev1 dev0 flags decode unset1 unset0 hal d some_text,
        )

    pub serve_requests-Sums :
        (hal : Hal) (requests : List Request) (d : D)
        → let served =
            serve_requests (hal_of dev1 dev0 flags decode unset1 unset0 hal) requests d in
          (served.value ≡ true) × Sums 0 0 (length requests) served.trace
    unfolding serve_requests ◌>>=◌ pure
    serve_requests-Sums hal [] d = (
      refl,
      record { opened_all = refl; closed_all = refl; answered_all = refl; none_held = Perm.refl _ },
    )
    serve_requests-Sums hal (r ∷ rs) d =
        let h = hal_of dev1 dev0 flags decode unset1 unset0 hal in
        let first = serve_request h r d in
        let (well, one) = serve_request-Sums hal r d in
        let (all_well, more) = serve_requests-Sums hal rs first.state in
        rw (well, serve_requests)
          (
            all_well,
            Sums-as (first.trace ++ (serve_requests h rs first.state).trace)
                (Sums-append first.trace (serve_requests h rs first.state).trace one more) refl refl
                (omega arith),
          )

    run_allocator-Sums :
        (hal : Option Hal) (requests : List Request) (d : D)
        → IsReady hal
        → let r = run_allocator dev1 dev0 flags decode unset1 unset0 hal requests d in
          (r.value ≢ none) × Sums 0 (held hal) (due r.value (length requests)) r.trace
    unfolding run_allocator on_hal ◌>>◌ ◌>>=◌ pure
    run_allocator-Sums none requests d ready = (
      (λ h. cc),
      record { opened_all = refl; closed_all = refl; answered_all = refl; none_held = Perm.refl _ },
    )
    run_allocator-Sums (some hal) requests d ready =
        let s = serve_requests (hal_of dev1 dev0 flags decode unset1 unset0 hal) requests d in
        let e = drop dev1 dev0 hal s.state in
        let (o, c) = drop-closes hal s.state ready in
        let last =
          Sums-as (map via_hal e.trace)
            (Bufferless-Sums e.trace ((drop-Always dev1 dev0 hw_get_module hal).at s.state)) o c
            refl in
        let (well, served) = serve_requests-Sums hal requests d in
        rw (well, run_allocator, append-nil)
          (
            (λ h. cc),
            Sums-as (s.trace ++ map via_hal e.trace)
                (Sums-append s.trace (map via_hal e.trace) served last) refl refl (omega arith),
          )

    -- For any module, a gralloc1 driver as documented and any gralloc0 driver, whose dumps are no
    -- longer than the arrays that they are given, with a length that plus one is a `uint32_t`: no
    -- dump is written out of bounds, and over the whole session every device that was opened has been closed, each of the requests is answered just
    -- once if a HAL was loaded and there is no answer if not, and exactly the buffers that the
    -- drivers handed out have been given back to them.
    pub session-Settled :
        (requests : List Request) (d : D)
        → Settled requests (session dev1 dev0 flags decode unset1 unset0 hw_get_module requests d)
    unfolding session hidl_fetch_i_allocator on_hal ◌>>=◌
    session-Settled requests d =
        let f = load dev1 dev0 hw_get_module d in
        let hal = fetched_hal f.value in
        let r = run_allocator dev1 dev0 flags decode unset1 unset0 hal requests f.state in
        let (same_held, ready) = (load-IsReady dev1 dev0 hw_get_module).at d in
        let s =
          Sums-append (map via_hal f.trace) r.trace
            (Bufferless-Sums f.trace ((load-Always dev1 dev0 hw_get_module).at d))
            (run_allocator-Sums hal requests f.state ready).1 in
        record {
          devices = omega (
            arith,
            s.opened_all,
            s.closed_all,
            load-Balanced dev1 dev0 hw_get_module d,
            same_held,
          );
          ended = (run_allocator-Sums hal requests f.state ready).0;
          answers = omega (arith, s.answered_all);
          buffers = s.none_held;
        }
