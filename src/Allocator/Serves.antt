-- ===== src/Allocator/Serves.antt =====
-- A request to the allocator: one answer, made while the buffers are held, and none is leaked.
use mathlib.Core.List.{map}
use android_device_xenvm.Base.{
  ℕ, ◌≡◌, refl, ap, false, List, [], ◌∷◌, ◌++◌, append-nil, Perm, arith, ◌>>=◌, ◌>>◌, ask, length,
  inl, inr,
}
use android_device_xenvm.Graphics.{Error, is_none, Handle, BufferDescriptor, AllocatorHal}
use android_device_xenvm.Graphics.Ledger.{gather, gather-append}
use android_device_xenvm.Graphics.Contract.{IsSound, none_cases}
use android_device_xenvm.Allocator.{Event, via_hal, replied, on_hal, allocate}

module _ {C : Type 0} (gain loss : C → List Handle) where
  -- The calls of the HAL before and after the only answer, and what is held at the answer.
  pub record Served (count : ℕ) (events : List (Event C)) : Type 0 where
    pub before : List C
    pub after : List C
    pub error : Error
    pub stride : ℕ
    pub buffers : List Handle
    pub once : events ≡ map via_hal before ++ (replied error stride buffers ∷ map via_hal after)
    pub balanced : Perm (gather gain (before ++ after)) (gather loss (before ++ after))
    pub held :
        error ≡ Error.no_error
        → (length buffers ≡ count) × Perm (gather gain before) buffers × (gather loss before ≡ [])
    pub refused : is_none error ≡ false → (buffers ≡ []) × (stride ≡ 0) × (after ≡ [])

  -- On a HAL that keeps the contract `allocate` answers just once. On success the answer carries
  -- `count` buffers, which are those that the driver handed out before it and none of which has
  -- been given back at that point; on an error it carries no buffers and stride 0, and nothing is
  -- called after it. In every case just the buffers that were handed out are given back by the
  -- end.
  pub allocate-Served :
      {S : Type 0} (hal : AllocatorHal C S)
      → IsSound gain loss hal
      → (unset : ℕ) (descriptor : BufferDescriptor) (count : ℕ) (s : S)
      → Served count (allocate hal unset descriptor count s).trace
  unfolding allocate on_hal ◌>>=◌ ◌>>◌ ask
  allocate-Served hal sound unset descriptor count s =
      let r = hal.allocate_buffers descriptor count s in
      let a = sound.allocates descriptor count s in
      elim (none_cases r.value.0) [
        | inr bad ↦
            rw (bad, allocate)
              (record {
                before = r.trace;
                after = [];
                error = r.value.0;
                stride = 0;
                buffers = [];
                once = refl;
                balanced = rw append-nil (a.failure bad).0;
                held = λ h. absurd (ground (arith, ap is_none h));
                refused = λ h. (refl, refl, refl);
              })
        | inl good ↦
            let (stride, buffers, out, n, own, kept) = a.success good in
            let f = hal.free_buffers buffers r.state in
            rw (good, out, allocate)
              (record {
                before = r.trace;
                after = f.trace;
                error = Error.no_error;
                stride = stride;
                buffers = buffers;
                once = refl;
                balanced =
                    rw
                      (
                        gather-append gain,
                        gather-append loss,
                        kept,
                        sound.frees buffers r.state,
                        sound.frees_only buffers r.state,
                        append-nil,
                      )
                      own;
                held = λ h. (n, own, kept);
                refused = λ h. absurd (cc);
              })
      ]
