-- ===== src/Gralloc1/Convert.antt =====
-- Gralloc1Hal.h: `toError`, `toProducerUsage`, `toConsumerUsage`.
use Prim.Native.Nat.{bit_and, bit_or}
use android_device_xenvm.Base.{ℕ, ◌==◌, if◌then◌else◌}
use android_device_xenvm.Base.Bits.{complement}
use android_device_xenvm.Graphics.{Error}
use android_device_xenvm.Gralloc1.Device.{Gralloc1Error}

unfoldable pub to_error : Gralloc1Error → Error
to_error Gralloc1Error.no_error = Error.no_error
to_error Gralloc1Error.bad_descriptor = Error.bad_descriptor
to_error Gralloc1Error.bad_handle = Error.bad_buffer
to_error Gralloc1Error.bad_value = Error.bad_value
to_error Gralloc1Error.not_shared = Error.no_error
to_error Gralloc1Error.no_resources = Error.no_resources
to_error Gralloc1Error.undefined = Error.unsupported
to_error Gralloc1Error.unsupported = Error.unsupported
to_error (Gralloc1Error.other n) = Error.unsupported

-- The flags of common::V1_2::BufferUsage and of gralloc1.h that the conversions name.
pub record UsageFlags : Type 0 where
  pub cpu_read_mask : ℕ
  pub cpu_read_rarely : ℕ
  pub cpu_read_often : ℕ
  pub cpu_write_mask : ℕ
  pub cpu_write_rarely : ℕ
  pub cpu_write_often : ℕ
  pub gpu_data_buffer : ℕ
  pub sensor_direct_data : ℕ
  pub producer_cpu_write : ℕ
  pub producer_cpu_write_often : ℕ
  pub producer_cpu_read : ℕ
  pub producer_cpu_read_often : ℕ
  pub consumer_cpu_read : ℕ
  pub consumer_cpu_read_often : ℕ
  pub consumer_gpu_data_buffer : ℕ

-- `switch (field) { case rarely: usage |= a; case often: usage |= b; }`
abbrev pub add_access : ℕ → ℕ → ℕ → ℕ → ℕ → ℕ → ℕ
add_access field rarely often a b usage =
    if field == rarely then bit_or usage a else if field == often then bit_or usage b else usage

unfoldable pub to_producer_usage : UsageFlags → ℕ → ℕ
to_producer_usage f usage =
    let mask = bit_or (bit_or f.cpu_read_mask f.cpu_write_mask) f.gpu_data_buffer in
    let filtered = bit_and usage (complement 64 mask) in
    let with_write =
      add_access (bit_and usage f.cpu_write_mask) f.cpu_write_rarely f.cpu_write_often
        f.producer_cpu_write f.producer_cpu_write_often filtered in
    add_access (bit_and usage f.cpu_read_mask) f.cpu_read_rarely f.cpu_read_often
      f.producer_cpu_read f.producer_cpu_read_often with_write

unfoldable pub to_consumer_usage : UsageFlags → ℕ → ℕ
to_consumer_usage f usage =
    let mask =
      bit_or (bit_or (bit_or f.cpu_read_mask f.cpu_write_mask) f.sensor_direct_data)
        f.gpu_data_buffer in
    let filtered = bit_and usage (complement 64 mask) in
    let with_read =
      add_access (bit_and usage f.cpu_read_mask) f.cpu_read_rarely f.cpu_read_often
        f.consumer_cpu_read f.consumer_cpu_read_often filtered in
    if bit_and usage f.gpu_data_buffer == 0
    then with_read
    else bit_or with_read f.consumer_gpu_data_buffer
