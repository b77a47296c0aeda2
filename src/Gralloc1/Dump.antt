-- ===== src/Gralloc1/Dump.antt =====
-- Gralloc1Hal.h: `dumpDebugInfo`.
use android_device_xenvm.Base.{
  ℕ, ◌+◌, ◌-◌, ◌%◌, ◌^◌, Option, none, some, List, ◌++◌, Proc, pure, ask, ◌>>=◌, ltb, if◌then◌else◌,
  length, take, replicate,
}
use android_device_xenvm.Gralloc1.Device.{Gralloc1Device, Call}
use android_device_xenvm.Gralloc1.Init.{Gralloc1Hal}
use android_device_xenvm.Graphics.CString.{c_string, put}

module _ {D : Type 0} (dev : Gralloc1Device D) (hal : Gralloc1Hal) where
  -- The bytes of the result. `len + 1` is computed in `uint32_t`; the second call sees the
  -- capacity `len`, writes its bytes over the front of the array, and gives a new `len`, by which
  -- the array is cut or extended by zeros. `none` is a write behind the end of the array.
  unfoldable pub dump_debug_info : Proc Call D (Option (List ℕ))
  unfolding put c_string
  dump_debug_info = do
    len ← ask dev.dump_length (λ _. Call.dumped hal.dispatch.dump_pfn)
    let size = (len + 1) % 2 ^ 32
    reply ← ask (dev.dump_text len) (λ _. Call.dumped hal.dispatch.dump_pfn)
    let array = reply.1 ++ replicate (size - length reply.1) 0
    let resized_to = (reply.0 + 1) % 2 ^ 32
    let resized = take resized_to (array ++ replicate (resized_to - size) 0)
    pure (
        if ltb size (length reply.1)
        then none
        else if ltb reply.0 resized_to
        then some (c_string (put reply.0 0 resized))
        else none)
