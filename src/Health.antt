-- ===== src/Health.antt =====
-- health/Health.h and health/Health.cpp: the IHealth service object.
pub mod Types
pub mod Methods
pub mod Interface
pub mod Callbacks
pub mod Report
pub mod Registry
