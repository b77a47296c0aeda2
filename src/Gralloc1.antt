-- ===== src/Gralloc1.antt =====
-- hals/allocator/Gralloc1Hal.h: the HAL on top of a gralloc1 driver.
pub mod Device
pub mod Convert
pub mod Init
pub mod Descriptor
pub mod Buffers
pub mod Dump
pub mod Loaded
pub mod Callable
pub mod Opened
pub mod UsageBits
pub mod Alive
pub mod Life
pub mod Calls
pub mod Sourced
pub mod Pointers
pub mod Capabilities
pub mod InitCalls
pub mod Prepared
pub mod Cost
pub mod Errors
pub mod Ownership
pub mod Holding
pub mod Text
pub mod Working
pub mod Starting
