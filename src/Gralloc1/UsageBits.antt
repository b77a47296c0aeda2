-- ===== src/Gralloc1/UsageBits.antt =====
-- Gralloc1Hal.h: `toProducerUsage` and `toConsumerUsage`, bit by bit.
use Prim.Native.Nat.{bit_and, min, max}
use android_device_xenvm.Base.{
  ℕ, ◌-◌, ◌<◌, ◌≡◌, refl, ap, ◌∙◌, ◌==◌, Bool-cases, inl, inr, arith, if◌then◌else◌,
}
use android_device_xenvm.Base.Bits.{bit, bit-bit_and, bit-bit_or, complement, bit-complement}
use android_device_xenvm.Gralloc1.Convert.{
  UsageFlags, add_access, to_producer_usage, to_consumer_usage,
}

-- The bits that a field of the usage asks for.
abbrev pub granted : ℕ → ℕ → ℕ → ℕ → ℕ → ℕ
granted field rarely often a b = if field == rarely then a else if field == often then b else 0

bit-add_access :
    (k field rarely often a b usage : ℕ)
    → bit k (add_access field rarely often a b usage)
      ≡ max (bit k usage) (granted field rarely often (bit k a) (bit k b))
bit-add_access k field rarely often a b usage = elim (Bool-cases (field == rarely)) [
  | inl r ↦ rw r (bit-bit_or k usage a)
  | inr r ↦ elim (Bool-cases (field == often)) [
    | inl o ↦ rw (r, o) (bit-bit_or k usage b)
    | inr o ↦ rw (r, o) (omega arith)
  ]
]

-- What is left of a bit of the usage behind a mask.
abbrev pub cleared : ℕ → ℕ → ℕ
cleared usage mask = min usage (1 - mask)

bit-filtered :
    (k usage mask : ℕ)
    → k < 64
    → bit k (bit_and usage (complement 64 mask)) ≡ cleared (bit k usage) (bit k mask)
bit-filtered k usage mask h =
    bit-bit_and k usage (complement 64 mask) ∙ ap (min (bit k usage)) (bit-complement k 64 mask h)

-- Each of the 64 bits of the producer usage is set if it is a bit of the usage outside the
-- CPU_READ, CPU_WRITE and GPU_DATA_BUFFER masks, or a bit of the gralloc1 flag for the usage's
-- CPU_WRITE field, or of the one for its CPU_READ field, where the field is RARELY or OFTEN.
pub to_producer_usage-bits :
    (f : UsageFlags) (usage k : ℕ)
    → k < 64
    → bit k (to_producer_usage f usage)
      ≡ max
          (max
            (cleared (bit k usage) (
              max (max (bit k f.cpu_read_mask) (bit k f.cpu_write_mask)) (bit k f.gpu_data_buffer)))
            (granted
              (bit_and usage f.cpu_write_mask)
              f.cpu_write_rarely
              f.cpu_write_often
              (bit k f.producer_cpu_write)
              (bit k f.producer_cpu_write_often)))
          (granted
            (bit_and usage f.cpu_read_mask)
            f.cpu_read_rarely
            f.cpu_read_often
            (bit k f.producer_cpu_read)
            (bit k f.producer_cpu_read_often))
unfolding to_producer_usage
to_producer_usage-bits f usage k h =
    rw (bit-add_access, bit-add_access, bit-filtered k usage _ h, bit-bit_or, bit-bit_or) refl

-- Each of the 64 bits of the consumer usage is set if it is a bit of the usage outside the
-- CPU_READ, CPU_WRITE, SENSOR_DIRECT_DATA and GPU_DATA_BUFFER masks, or a bit of the gralloc1
-- flag for the usage's CPU_READ field where that is RARELY or OFTEN, or a bit of the gralloc1
-- GPU_DATA_BUFFER flag where the usage has a bit of BufferUsage's.
pub to_consumer_usage-bits :
    (f : UsageFlags) (usage k : ℕ)
    → k < 64
    → bit k (to_consumer_usage f usage)
      ≡ max
          (max
            (cleared (bit k usage) (
              max
                (max
                  (max (bit k f.cpu_read_mask) (bit k f.cpu_write_mask))
                  (bit k f.sensor_direct_data))
                (bit k f.gpu_data_buffer)))
            (granted
              (bit_and usage f.cpu_read_mask)
              f.cpu_read_rarely
              f.cpu_read_often
              (bit k f.consumer_cpu_read)
              (bit k f.consumer_cpu_read_often)))
          (if bit_and usage f.gpu_data_buffer == 0 then 0 else bit k f.consumer_gpu_data_buffer)
unfolding to_consumer_usage
to_consumer_usage-bits f usage k h = elim (Bool-cases (bit_and usage f.gpu_data_buffer == 0)) [
  | inl absent ↦
      rw (absent, bit-add_access, bit-filtered k usage _ h, bit-bit_or, bit-bit_or, bit-bit_or)
        (omega arith)
  | inr given ↦
      rw
        (
          given,
          bit-bit_or,
          bit-add_access,
          bit-filtered k usage _ h,
          bit-bit_or,
          bit-bit_or,
          bit-bit_or,
        )
        refl
]
