-- ===== src/Allocator.antt =====
-- hals/allocator/Allocator.h and Allocator.cpp: the service's object on top of an `AllocatorHal`.
pub mod Serves
use mathlib.Core.List.{map}
use android_device_xenvm.Base.{
  ℕ, Bool, true, false, Option, none, some, List, [], ◌∷◌, Done, Proc, pure, ask, ◌>>=◌, ◌>>◌, not,
  if◌then◌else◌,
}
use android_device_xenvm.Graphics.{Error, is_none, Handle, BufferDescriptor, AllocatorHal, written}

-- What the service does: calls that its HAL makes, and calls of `hidl_cb`.
pub data Event (C : Type 0) : Type 0 where
  via_hal : C → Event C
  replied : Error → ℕ → List Handle → Event C
  replied_dump : List ℕ → Event C

-- A call of a method of `mHal`.
unfoldable pub on_hal : {C S A : Type 0} → Proc C S A → Proc (Event C) S A
on_hal m s = let r = m s in record { value = r.value; state = r.state; trace = map via_hal r.trace }

abbrev pub reply : {C S : Type 0} → Event C → Proc (Event C) S (Unit {0})
reply event = ask (λ s. (tt, s)) (λ _. event)

-- The answer with a text. Where the HAL has written out of bounds the result is false: nothing is
-- answered, and nothing is known from there on.
unfoldable pub reply_dump : {C S : Type 0} → Option (List ℕ) → Proc (Event C) S Bool
reply_dump none = pure false
reply_dump (some text) = reply (replied_dump text) >> pure true

-- AllocatorImpl<Interface, Hal> holds `mHal`, once `init` has moved it there.
pub record AllocatorImpl (Hal : Type 0) : Type 0 where
  pub hal : Option Hal

abbrev pub new_allocator : {Hal : Type 0} → AllocatorImpl Hal
new_allocator = record { hal = none }

unfoldable pub init : {Hal : Type 0} → Hal → AllocatorImpl Hal → Bool × AllocatorImpl Hal
init hal allocator = (true, record allocator { hal = some hal })

module _ {C S : Type 0} (hal : AllocatorHal C S) where
  -- `unset` is what the local `stride` holds before it is written.
  unfoldable pub allocate : ℕ → BufferDescriptor → ℕ → Proc (Event C) S (Unit {0})
  allocate unset descriptor count = do
    (error, out) ← on_hal (hal.allocate_buffers descriptor count)
    let (stride, buffers) = written out (unset, [])
    if not (is_none error)
        then reply (replied error 0 [])
        else (reply (replied Error.no_error stride buffers) >> on_hal (hal.free_buffers buffers))

  unfoldable pub dump_debug_info : Proc (Event C) S Bool
  unfolding reply_dump
  dump_debug_info = on_hal hal.dump_debug_info >>= reply_dump
