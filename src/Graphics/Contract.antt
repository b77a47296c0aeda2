-- ===== src/Graphics/Contract.antt =====
-- What a client of `AllocatorHal` relies on: buffers are neither leaked nor given back too often.

use android_device_xenvm.Base.{
  ℕ, ◌≡◌, refl, ap, ◌∙◌, false, ◌⊎◌, inl, inr, Option, none, some, List, [], ◌++◌, append-nil, Perm,
  length, Done, arith,
}
use android_device_xenvm.Graphics.{
  Error, is_none, Handle, Batch, empty_batch, BufferDescriptor, AllocatorHal,
}
use android_device_xenvm.Graphics.Ledger.{gather, gather-append, Grows}

pub none_cases : (e : Error) → (e ≡ Error.no_error) ⊎ (is_none e ≡ false)
none_cases Error.no_error = inl refl
none_cases Error.bad_descriptor = inr refl
none_cases Error.bad_buffer = inr refl
none_cases Error.bad_value = inr refl
none_cases Error.no_resources = inr refl
none_cases Error.unsupported = inr refl

module _ {C S : Type 0} (gain loss : C → List Handle) where
  -- A run of `allocateBuffers`. On success it returns `count` buffers, just those that the driver
  -- handed out, and gave none back; on an error it gave back all, and the results are unwritten.
  pub record Allocates (count : ℕ) (r : Done C S (Error × Option (ℕ × List Handle))) : Type 0 where
    pub success :
        r.value.0 ≡ Error.no_error
        → (stride : ℕ) × (buffers : List Handle) × (r.value.1 ≡ some (stride, buffers))
          × (length buffers ≡ count)
          × Perm (gather gain r.trace) buffers
          × (gather loss r.trace ≡ [])
    pub failure :
        is_none r.value.0 ≡ false
        → Perm (gather gain r.trace) (gather loss r.trace) × (r.value.1 ≡ none)

  pub record IsSound (hal : AllocatorHal C S) : Type 0 where
    pub allocates :
        (descriptor : BufferDescriptor) (count : ℕ) (s : S)
        → Allocates count (hal.allocate_buffers descriptor count s)
    pub frees : (bs : List Handle) (s : S) → gather loss (hal.free_buffers bs s).trace ≡ bs
    pub frees_only : (bs : List Handle) (s : S) → gather gain (hal.free_buffers bs s).trace ≡ []

  -- Calls that move no buffer may come first.
  pub Allocates-prefix :
      (count : ℕ) (pre : List C) (r : Done C S (Error × Option (ℕ × List Handle)))
      → (gather gain pre ≡ []) × (gather loss pre ≡ [])
      → Allocates count r
      → Allocates count (record r { trace = pre ++ r.trace })
  Allocates-prefix count pre r (g, l) a = record {
    success = λ h.
        let (stride, buffers, out, n, own, kept) = a.success h in
        (stride, buffers, out, n, rw (gather-append gain, g) own, rw (gather-append loss, l) kept);
    failure = λ h. rw (gather-append gain, gather-append loss, g, l) (a.failure h);
  }

  -- The end of `allocateBuffers`: keep the buffers of a batch, or give all of them back.
  pub Allocates-finish :
      (count : ℕ) (loop : Done C S Batch) (r : Done C S (Error × Option (ℕ × List Handle)))
      → Grows gain loss count empty_batch loop
      → gather gain r.trace ≡ []
      → (loop.value.error ≡ Error.no_error
          → (r.value ≡ (Error.no_error, some (loop.value.stride, loop.value.buffers)))
            × (gather loss r.trace ≡ []))
      → (is_none loop.value.error ≡ false
          → (r.value ≡ (loop.value.error, none)) × (gather loss r.trace ≡ loop.value.buffers))
      → Allocates count (record r { trace = loop.trace ++ r.trace })
  Allocates-finish count loop r grown g good bad = elim (none_cases loop.value.error) [
    | inl ok ↦ record {
      success = λ h.
          let (v, l) = good ok in
          (
            loop.value.stride,
            loop.value.buffers,
            ap (λ w. w.1) v,
            ap length grown.pushed ∙ grown.complete ok,
            rw (gather-append gain, g, append-nil, grown.pushed)
                (rw (grown.kept ok) at grown.owned),
            rw (gather-append loss, l, append-nil) (grown.kept ok),
          );
      failure = λ h. absurd (ground (arith, ap (λ w. w.0) (good ok).0));
    }
    | inr failed ↦
        let (v, l) = bad failed in
        record {
          success = λ h. absurd (ground (arith, ap (λ w. w.0) v));
          failure = λ h. (
            rw (gather-append gain, gather-append loss, g, l, append-nil, grown.pushed) grown.owned,
            ap (λ w. w.1) v,
          );
        }
  ]
