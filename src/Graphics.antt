-- ===== src/Graphics.antt =====
-- The types that the files of hals/allocator share, the interface of AllocatorHal.h, and the loop
-- of `allocateBuffers` that Gralloc0Hal.h and Gralloc1Hal.h both hold.
pub mod CString
pub mod Loop
pub mod Cost
pub mod Ledger
pub mod Holding
pub mod Merging
pub mod Contract
pub mod Strides
pub mod Supply
use android_device_xenvm.Base.{
  ℕ, zero, suc, Bool, true, false, Option, none, some, List, [], ◌∷◌, ◌++◌, Proc, pure, ◌>>=◌, ◌>>◌,
  ◌==◌, if◌then◌else◌,
}

-- mapper::V3_0::Error, as far as the code names it.
pub data Error : Type 0 where
  no_error bad_descriptor bad_buffer bad_value no_resources unsupported : Error

-- `error == Error::NONE`
abbrev pub is_none : Error → Bool
is_none Error.no_error = true
is_none _ = false

-- `const native_handle_t*`, as an address; 0 is `nullptr`.
abbrev pub Handle : Type 0
Handle = ℕ

-- mapper::V2_0::IMapper::BufferDescriptorInfo. `format` is the bit pattern of the enumerator.
pub record BufferDescriptorInfo : Type 0 where
  pub width : ℕ
  pub height : ℕ
  pub layer_count : ℕ
  pub format : ℕ
  pub usage : ℕ

-- A BufferDescriptor, `hidl_vec<uint32_t>`.
abbrev pub BufferDescriptor : Type 0
BufferDescriptor = List ℕ

-- The abstract class. An out parameter is written where the result is `some`; a `dump` that
-- writes out of bounds has no result.
pub record AllocatorHal (C S : Type 0) : Type 0 where
  pub dump_debug_info : Proc C S (Option (List ℕ))
  pub allocate_buffers : BufferDescriptor → ℕ → Proc C S (Error × Option (ℕ × List Handle))
  pub free_buffers : List Handle → Proc C S (Unit {0})

-- The locals `error`, `stride` and `buffers` of `allocateBuffers`.
pub record Batch : Type 0 where
  pub error : Error
  pub stride : ℕ
  pub buffers : List Handle

abbrev pub empty_batch : Batch
empty_batch = record { error = Error.no_error; stride = 0; buffers = [] }

-- The rest of the loop's body after a successful `allocateOneBuffer`.
unfoldable pub accept : Batch → Handle × ℕ → Batch
accept b (buffer, stride) =
    let pushed = b.buffers ++ (buffer ∷ []) in
    if b.stride == 0
    then record b { stride = stride; buffers = pushed }
    else if b.stride == stride
    then record b { buffers = pushed }
    else record b { error = Error.unsupported; buffers = pushed }

-- What an out parameter holds after the call: `unset` is what the local held before.
abbrev pub written : {A : Type 0} → Option A → A → A
written none unset = unset
written (some a) unset = a

-- One round, up to the decision whether to go on.
unfoldable pub take_reply : Handle × ℕ → Batch → Error × Option (Handle × ℕ) → Batch
unfolding accept
take_reply unset b (error, out) =
    if is_none error then accept b (written out unset) else record b { error = error }

-- `for (i = 0; i < count; i++)`, with the rounds left as the counter and `one` for
-- `allocateOneBuffer`; `unset` is what the locals `tmpBuffer` and `tmpStride` hold.
unfoldable pub allocate_loop :
    {C S : Type 0}
    → Proc C S (Error × Option (Handle × ℕ))
    → Handle × ℕ
    → ℕ
    → Batch
    → Proc C S Batch
unfolding take_reply
allocate_loop one unset zero b = pure b
allocate_loop one unset (suc left) b = one >>= λ reply.
    let b' = take_reply unset b reply in
    elim (is_none b'.error) [ true ↦ allocate_loop one unset left b' | false ↦ pure b' ]
